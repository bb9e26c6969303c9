-- ===== src/Cstring/Words.antt =====
-- Printed words and numbers, and how they are read.
use sekur_ircd.Base.{
  ℕ, zero, suc, ◌+◌, ◌*◌, ◌/◌, ◌%◌, ◌≤◌, ◌<◌, ◌≡◌, refl, sym, ap, ◌∙◌, inl, inr, true, false, List,
  [], ◌∷◌, ◌++◌, some, map, leb, ◌==◌, Bytes, length, All, length-append, All-append, arith,
  Bool-cases,
}
use sekur_ircd.Cstring.{
  isspace, digits, decimal_text, skip_spaces, strip_end, keep_before, word_from, scan_word,
  split_at,
}

-- The number that decimal digits stand for, behind a number read so far.
abbrev pub read_from : ℕ → List ℕ → ℕ
read_from n [] = n
read_from n (d ∷ ds) = read_from (n * 10 + d) ds

read_from-append :
    (n : ℕ) (ds : List ℕ) (d : ℕ) → read_from n (ds ++ (d ∷ [])) ≡ read_from n ds * 10 + d
read_from-append n [] d = refl
read_from-append n (e ∷ ds) d = read_from-append (n * 10 + e) ds d

abbrev pub Decimal : ℕ → Bytes → Type 0
Decimal n text =
    (d : ℕ) × (ds : List ℕ) × (text ≡ map (λ k. 48 + k) (d ∷ ds))
    × All (λ k. k < 10) (d ∷ ds)
    × (read_from 0 (d ∷ ds) ≡ n)

map-snoc :
    (ds : List ℕ) (d : ℕ)
    → map (λ k. 48 + k) (ds ++ (d ∷ [])) ≡ map (λ k. 48 + k) ds ++ ((48 + d) ∷ [])
map-snoc [] d = refl
map-snoc (e ∷ ds) d = ap (◌∷◌ (48 + e)) (map-snoc ds d)

digits_more :
    (fuel n : ℕ)
    → leb 10 n ≡ true
    → digits (suc fuel) n ≡ digits fuel (n / 10) ++ ((48 + n % 10) ∷ [])
unfolding digits
digits_more fuel n t = rw (t, digits) refl

digits_last : (fuel n : ℕ) → leb 10 n ≡ false → digits (suc fuel) n ≡ (48 + n) ∷ []
unfolding digits
digits_last fuel n f = rw (f, digits) refl

Decimal-digits : (fuel n : ℕ) → n < fuel → Decimal n (digits fuel n)
Decimal-digits zero n h = absurd (omega arith)
Decimal-digits (suc fuel) n h = elim (Bool-cases (leb 10 n)) [
  | inl t ↦
      let le : 10 ≤ n = ground (arith, t) in
      let (d, ds, e, a, v) = Decimal-digits fuel (n / 10) (omega (arith, le, h)) in
      (
        d,
        ds ++ ((n % 10) ∷ []),
        digits_more fuel n t
            ∙ ap (λ s. s ++ ((48 + n % 10) ∷ [])) e
            ∙ sym (map-snoc (d ∷ ds) (n % 10)),
        All-append (λ k. k < 10) (d ∷ ds) ((n % 10) ∷ []) a (omega arith, tt),
        omega (arith, read_from-append 0 (d ∷ ds) (n % 10), v),
      )
  | inr f ↦ (n, [], digits_last fuel n f, (ground (arith, f), tt), omega arith)
]

-- `%d` prints the decimal digits of a number.
pub Decimal-decimal_text : (n : ℕ) → Decimal n (decimal_text n)
unfolding decimal_text
Decimal-decimal_text n = Decimal-digits (suc n) n (omega arith)

abbrev pub pow10 : ℕ → ℕ
pow10 zero = 1
pow10 (suc k) = 10 * pow10 k

tenth : (p n : ℕ) → n < 10 * p → n / 10 < p
tenth p n h = omega (arith, h)

-- A number below ten to the `k` has at most `k` digits.
length-digits : (fuel k n : ℕ) → n < pow10 (suc k) → length (digits fuel n) ≤ suc k
unfolding digits
length-digits zero k n h = omega arith
length-digits (suc fuel) zero n h = elim (Bool-cases (leb 10 n)) [
  | inr f ↦ omega (arith, ap length (digits_last fuel n f))
  | inl t ↦ absurd (ground (arith, t, h))
]
length-digits (suc fuel) (suc k) n h = elim (Bool-cases (leb 10 n)) [
  | inr f ↦ omega (arith, ap length (digits_last fuel n f))
  | inl t ↦ omega (
    arith,
    ap length (digits_more fuel n t),
    length-append (digits fuel (n / 10)) ((48 + n % 10) ∷ []),
    length-digits fuel k (n / 10) (tenth (pow10 (suc k)) n h),
  )
]

pub length-decimal_text : (k n : ℕ) → n < pow10 (suc k) → length (decimal_text n) ≤ suc k
unfolding decimal_text
length-decimal_text k n h = length-digits (suc n) k n h

abbrev pub IsPlain : ℕ → Type 0
IsPlain c = isspace c ≡ false

word_from-word :
    (n : ℕ) (w s : Bytes) → All IsPlain w → length w ≤ n → word_from n (w ++ (32 ∷ s)) ≡ (w, 32 ∷ s)
unfolding word_from
word_from-word zero [] s a l = refl
word_from-word zero (c ∷ w) s a l = absurd (omega arith)
word_from-word (suc n) [] s a l = refl
word_from-word (suc n) (c ∷ w) s (f, a) l = rw (f, word_from-word n w s a (omega arith)) refl

-- One `%s` reads a word that fits its width up to the space behind it.
pub scan_word-word :
    (n c : ℕ) (w s : Bytes)
    → All IsPlain (c ∷ w)
    → length (c ∷ w) ≤ n
    → scan_word n ((c ∷ w) ++ (32 ∷ s)) ≡ some (c ∷ w, 32 ∷ s)
unfolding scan_word skip_spaces
scan_word-word n c w s (f, a) l = rw (f, word_from-word n (c ∷ w) s (f, a) l) refl

strip_end-spaces : (s : Bytes) → All (λ c. isspace c ≡ true) s → strip_end s ≡ []
unfolding strip_end
strip_end-spaces [] a = refl
strip_end-spaces (c ∷ s) (t, a) = rw (strip_end-spaces s a, t) refl

-- Space at the end makes no difference.
pub strip_end-append :
    (s end : Bytes) → All (λ c. isspace c ≡ true) end → strip_end (s ++ end) ≡ strip_end s
unfolding strip_end
strip_end-append [] end a = strip_end-spaces end a
strip_end-append (c ∷ s) end a = ap (keep_before c) (strip_end-append s end a)

-- strchr finds the first `c`.
pub split_at-append :
    (c : ℕ) (a b : Bytes) → All (λ x. (x == c) ≡ false) a → split_at c (a ++ (c ∷ b)) ≡ some (a, b)
unfolding split_at
split_at-append c [] b h = rw (same c) refl
  where
    same : (k : ℕ) → (k == k) ≡ true
    same k = ground arith
split_at-append c (x ∷ a) b (f, h) = rw (f, split_at-append c a b h) refl
