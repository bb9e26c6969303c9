-- ===== src/Proto/Tags/RoundTrip.antt =====
-- A tag value that fits its buffer is read back as it was sent, and its wire form is safe in a line.
use sekur_ircd.Base.{
  ℕ, ◌+◌, ◌-◌, zero, suc, ◌*◌, ◌≤◌, ◌<◌, ◌≡◌, ◌≢◌, refl, ap, ◌∙◌, inl, inr, [], ◌∷◌, ◌++◌, ltb,
  Bytes, length, length-append, ltb→lt, All, All-append, arith, lt→ltb, Bool-cases,
}
use sekur_ircd.Proto.Tags.{unescape_tag_value, escape_byte, escape_tag_from, escape_tag_value}

length-escape_byte : (c : ℕ) → length (escape_byte c) ≤ 2
unfolding escape_byte
length-escape_byte c = ground arith

unescape-escape_byte :
    (c : ℕ) (s : Bytes) → unescape_tag_value (escape_byte c ++ s) ≡ c ∷ unescape_tag_value s
unfolding unescape_tag_value escape_byte
unescape-escape_byte c [] = ground arith
unescape-escape_byte c (d ∷ s) = ground arith

unescape-escape_from :
    (outsz o : ℕ) (s : Bytes)
    → o + 2 * length s < outsz
    → unescape_tag_value (escape_tag_from outsz o s) ≡ s
unfolding escape_tag_from
unescape-escape_from outsz o [] h = unfold unescape_tag_value in refl
unescape-escape_from outsz o (c ∷ s) h = rw (lt→ltb (o + 2) outsz (omega arith)) (
    unescape-escape_byte c _
    ∙ ap (◌∷◌ c) (
        unescape-escape_from outsz (o + length (escape_byte c)) s
          (omega (arith, length-escape_byte c))))

-- A value that takes at most half of the buffer comes back from its escaped form unchanged.
pub unescape-escape_tag_value :
    (outsz : ℕ) (s : Bytes)
    → 2 * length s < outsz
    → unescape_tag_value (escape_tag_value outsz s) ≡ s
unfolding escape_tag_value
unescape-escape_tag_value outsz s h = unescape-escape_from outsz 0 s (omega arith)

-- No byte that would end the value, the tags or the line.
abbrev pub Separates : ℕ → Type 0
Separates c = (c ≢ b';') × (c ≢ b' ') × (c ≢ b'\r') × (c ≢ b'\n')

escape_byte-Separates : (c : ℕ) → All Separates (escape_byte c)
unfolding escape_byte
escape_byte-Separates c = ground arith

escape_from-Separates : (outsz o : ℕ) (s : Bytes) → All Separates (escape_tag_from outsz o s)
unfolding escape_tag_from
escape_from-Separates outsz o [] = tt
escape_from-Separates outsz o (c ∷ s) = elim (Bool-cases (ltb (o + 2) outsz)) [
  | inl e ↦ rw e (
      All-append Separates (escape_byte c) _ (escape_byte-Separates c)
        (escape_from-Separates outsz (o + length (escape_byte c)) s))
  | inr e ↦ rw e tt
]

length-escape_from :
    (outsz o : ℕ) (s : Bytes) → o < outsz → o + length (escape_tag_from outsz o s) < outsz
unfolding escape_tag_from
length-escape_from outsz o [] h = omega arith
length-escape_from outsz o (c ∷ s) h = elim (Bool-cases (ltb (o + 2) outsz)) [
  | inl e ↦
      let fits = ltb→lt (o + 2) outsz e in
      let short = length-escape_byte c in
      let next = o + length (escape_byte c) in
      rw e (
        omega (
          arith,
          length-append (escape_byte c) (escape_tag_from outsz next s),
          length-escape_from outsz next s (omega arith),
        ))
  | inr e ↦ rw e (omega arith)
]

escape_from-fits : (outsz : ℕ) (s : Bytes) → length (escape_tag_from outsz 0 s) ≤ outsz - 1
unfolding escape_tag_from
escape_from-fits zero [] = omega arith
escape_from-fits zero (c ∷ s) = omega arith
escape_from-fits (suc n) s = omega (arith, length-escape_from (suc n) 0 s (omega arith))

-- Whatever the value and the buffer, the escaped form holds no `;`, no space, no CR and no LF, and it
-- leaves room for the terminating NUL.
pub escape_tag_value-Separates :
    (outsz : ℕ) (s : Bytes)
    → All Separates (escape_tag_value outsz s) × (length (escape_tag_value outsz s) ≤ outsz - 1)
unfolding escape_tag_value
escape_tag_value-Separates outsz s = (escape_from-Separates outsz 0 s, escape_from-fits outsz s)
