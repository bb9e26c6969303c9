-- ===== src/Proto/Duration/Values.antt =====
-- What a duration says: its value in seconds, within a `long`.
use sekur_ircd.Base.{
  ℕ, ◌+◌, ◌-◌, ◌*◌, ◌≤◌, ◌<◌, ◌≡◌, ◌⊎◌, refl, sym, ap, ◌∙◌, inl, inr, true, false, List, [], ◌∷◌,
  ◌++◌, none, some, map, leb, if◌then◌else◌, Bytes, All, arith, Bool-cases, Option-cases,
}
use sekur_ircd.Cstring.{isdigit, tolower}
use sekur_ircd.Proto.Duration.{
  long_max, clamp, read_digits, multiplier, scaled, with_unit, irc_parse_duration,
}

-- The number that decimal digits stand for, behind a number read so far.
unfoldable pub value_from : ℕ → List ℕ → ℕ
value_from n [] = n
value_from n (d ∷ ds) = value_from (n * 10 + d) ds

abbrev pub IsDigit : ℕ → Type 0
IsDigit d = d < 10

abbrev pub digit : ℕ → ℕ
digit d = b'0' + d

value_from-le : (n : ℕ) (ds : List ℕ) → n ≤ value_from n ds
unfolding value_from
value_from-le n [] = omega arith
value_from-le n (d ∷ ds) = omega (arith, value_from-le (n * 10 + d) ds)

-- A unit, or none, and what it multiplies by.
pub data UnitOf : Bytes → ℕ → Type 0 where
  bare : UnitOf [] 1
  unit : (c mult : ℕ) → multiplier c ≡ some mult → UnitOf (c ∷ []) mult

not_digit : (c mult : ℕ) → multiplier c ≡ some mult → isdigit c ≡ false
unfolding multiplier tolower
not_digit c mult e = ground (arith, e)

-- Seconds, minutes, hours, days and weeks.
abbrev pub Factor : ℕ → Type 0
Factor m = (m ≡ 1) ⊎ (m ≡ 60) ⊎ (m ≡ 3600) ⊎ (m ≡ 86400) ⊎ (m ≡ 604800)

multiplier-Factor : (c m : ℕ) → multiplier c ≡ some m → Factor m
unfolding multiplier
multiplier-Factor c m e = ground (arith, e)

unit-Factor : (s : Bytes) (m : ℕ) → UnitOf s m → Factor m
unit-Factor s m bare = inl refl
unit-Factor s m (unit c m' e) = multiplier-Factor c m' e

-- A product, or LONG_MAX where it is larger.
abbrev pub at_most_long : ℕ → ℕ
at_most_long v = if leb v long_max then v else long_max

scaled-at_most : (n m : ℕ) → Factor m → scaled n m ≡ at_most_long (n * m)
unfolding scaled
scaled-at_most n m (inl e) = rw e (ground arith)
scaled-at_most n m (inr (inl e)) = rw e (ground arith)
scaled-at_most n m (inr (inr (inl e))) = rw e (ground arith)
scaled-at_most n m (inr (inr (inr (inl e)))) = rw e (ground arith)
scaled-at_most n m (inr (inr (inr (inr e)))) = rw e (ground arith)

digit-isdigit : (d : ℕ) → IsDigit d → isdigit (digit d) ≡ true
digit-isdigit d h = ground arith

clamp-same : (n : ℕ) → n * 10 ≤ long_max - 8 → clamp n ≡ n
unfolding clamp
clamp-same n l = ground arith

read_digits-value :
    (n : ℕ) (ds : List ℕ) (rest : Bytes) (mult : ℕ)
    → All IsDigit ds
    → value_from n ds ≤ long_max - 8
    → UnitOf rest mult
    → read_digits n (map digit ds ++ rest) ≡ (value_from n ds, rest)
unfolding read_digits value_from
read_digits-value n [] rest mult h l bare = refl
read_digits-value n [] rest mult h l (unit c m e) = rw (not_digit c m e) refl
read_digits-value n (d ∷ ds) rest mult (h, hs) l u =
    let le = value_from-le (n * 10 + d) ds in
    let same : clamp n * 10 + (digit d - b'0') ≡ n * 10 + d =
      omega (arith, clamp-same n (omega arith)) in
    rw (digit-isdigit d h) (
      ap (λ k. read_digits k (map digit ds ++ rest)) same
      ∙ read_digits-value (n * 10 + d) ds rest mult hs l u)

with_unit-value :
    (n : ℕ) (s : Bytes) (m : ℕ) → UnitOf s m → with_unit (n, s) ≡ some (at_most_long (n * m))
unfolding with_unit
with_unit-value n s m bare = ap some (scaled-at_most n 1 (inl refl))
with_unit-value n s m (unit c m' e) =
    rw (e, with_unit) (ap some (scaled-at_most n m' (multiplier-Factor c m' e)))

begins :
    (c : ℕ) (s : Bytes)
    → isdigit c ≡ true
    → irc_parse_duration (c ∷ s) ≡ with_unit (read_digits 0 (c ∷ s))
unfolding irc_parse_duration
begins c s h = ap (λ t. if t then with_unit (read_digits 0 (c ∷ s)) else none) h

pub irc_parse_duration-value :
    (d : ℕ) (ds : List ℕ) (suffix : Bytes) (m : ℕ)
    → All IsDigit (d ∷ ds)
    → value_from 0 (d ∷ ds) ≤ long_max - 8
    → UnitOf suffix m
    → irc_parse_duration (map digit (d ∷ ds) ++ suffix)
      ≡ some (at_most_long (value_from 0 (d ∷ ds) * m))
irc_parse_duration-value d ds suffix m h l u =
    begins (digit d) (map digit ds ++ suffix) (digit-isdigit d h.0)
    ∙ ap with_unit (read_digits-value 0 (d ∷ ds) suffix m h l u)
    ∙ with_unit-value (value_from 0 (d ∷ ds)) suffix m u

with_unit-le : (r : ℕ × Bytes) (v : ℕ) → with_unit r ≡ some v → v ≤ long_max
unfolding with_unit
with_unit-le (n, []) v e = ground (arith, e, scaled-at_most n 1 (inl refl))
with_unit-le (n, c ∷ []) v e = elim (Option-cases (multiplier c)) [
  | inl none' ↦ absurd (ground (arith, none', e))
  | inr (m, f) ↦ ground (arith, f, e, scaled-at_most n m (multiplier-Factor c m f))
]
with_unit-le (n, c ∷ d ∷ s) v e = absurd (ground (arith, e))

step-le : (n c : ℕ) → isdigit c ≡ true → clamp n * 10 + (c - b'0') ≤ long_max
unfolding clamp
step-le n c h = ground (arith, h)

-- A duration is at most LONG_MAX, and no step overflows: whatever number the digit loop has read, the
-- clamped number times ten plus the next digit is at most LONG_MAX.
pub irc_parse_duration-le :
    (token : Bytes) (v n c : ℕ)
    → irc_parse_duration token ≡ some v
    → isdigit c ≡ true
    → (v ≤ long_max) × (clamp n * 10 + (c - b'0') ≤ long_max)
unfolding irc_parse_duration
irc_parse_duration-le [] v n c e h = absurd (ground (arith, e))
irc_parse_duration-le (b ∷ s) v n c e h = elim (Bool-cases (isdigit b)) [
  | inl t ↦ (with_unit-le (read_digits 0 (b ∷ s)) v (sym (begins b s t) ∙ e), step-le n c h)
  | inr f ↦
      let stops = ap (λ t. if t then with_unit (read_digits 0 (b ∷ s)) else none) f in
      absurd (ground (arith, e, stops))
]
