-- ===== src/Spam/Rules/Targets.antt =====
-- The letters of a mask of targets, written and read.
use sekur_ircd.Base.{
  ℕ, zero, suc, ◌≤◌, ◌<◌, ◌≡◌, refl, sym, inl, inr, Bool, true, false, not, ◌&&◌, ◌||◌, [], ◌∷◌,
  leb, ◌==◌, Bytes, length, All, arith, Bool-cases, both, ==→eq, subst,
}
use sekur_ircd.Cstring.{isspace}
use sekur_ircd.Spam.Rules.{spam_parse_targets, target_letters}

abbrev pub NoSpace : ℕ → Type 0
NoSpace c = isspace c ≡ false

abbrev pub no_space : Bytes → Bool
no_space [] = true
no_space (c ∷ s) = not (isspace c) && no_space s

abbrev not_empty : Bytes → Bool
not_empty [] = false
not_empty (c ∷ s) = true

-- The letters are one word of at most eight bytes, and stand for the mask.
read_back : ℕ → Bool
unfolding target_letters spam_parse_targets
read_back m =
    m == 0
    || spam_parse_targets (target_letters m) == m
      && (not_empty (target_letters m)
          && (no_space (target_letters m) && leb (length (target_letters m)) 8))

below : ℕ → Bool
below zero = true
below (suc n) = read_back n && below n

all_masks : below 256 ≡ true
unfolding below read_back
all_masks = refl

below-read_back : (n m : ℕ) → below n ≡ true → m < n → read_back m ≡ true
unfolding below
below-read_back zero m h l = absurd (omega arith)
below-read_back (suc n) m h l =
    let (here, rest) = both (read_back n) (below n) h in
    elim (Bool-cases (m == n)) [
      | inl e ↦ subst (λ k. read_back k ≡ true) (sym (==→eq m n e)) here
      | inr e ↦ below-read_back n m rest (ground (arith, e, l))
    ]

pub All-no_space : (s : Bytes) → no_space s ≡ true → All NoSpace s
All-no_space [] h = tt
All-no_space (c ∷ s) h =
    let (a, b) = both (not (isspace c)) (no_space s) h in (negated (isspace c) a, All-no_space s b)
  where
    negated : (b : Bool) → not b ≡ true → b ≡ false
    negated b h' = ground (arith, h')

-- A word of at most so many bytes.
abbrev pub Word : ℕ → Bytes → Type 0
Word n s = (c : ℕ) × (w : Bytes) × (s ≡ c ∷ w) × All NoSpace s × (length s ≤ n)

word_shape : (s : Bytes) → not_empty s ≡ true → (c : ℕ) × (w : Bytes) × (s ≡ c ∷ w)
word_shape [] h = absurd (ground (arith, h))
word_shape (c ∷ w) h = (c, w, refl)

-- Every mask of targets but 0 is written as one word that is read as that mask.
pub spam_parse_targets-letters :
    (m : ℕ)
    → m < 256
    → (m == 0) ≡ false
    → (spam_parse_targets (target_letters m) ≡ m) × Word 8 (target_letters m)
unfolding read_back
spam_parse_targets-letters m l n =
    let h = below-read_back 256 m all_masks l in
    let t = target_letters m in
    let (same, more) =
      both (spam_parse_targets t == m) (not_empty t && (no_space t && leb (length t) 8)) (
        subst
          (λ b.
            (b || (spam_parse_targets t == m && (not_empty t && (no_space t && leb (length t) 8))))
            ≡ true)
          n h) in
    let (full, rest) = both (not_empty t) (no_space t && leb (length t) 8) more in
    let (plain, short) = both (no_space t) (leb (length t) 8) rest in
    let (c, w, e) = word_shape t full in
    (==→eq (spam_parse_targets t) m same, (c, w, e, All-no_space t plain, ground (arith, short)))
