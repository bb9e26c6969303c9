-- ===== src/Proto/Utf8/Scalars.antt =====
-- Unicode scalar values and their encoding, which `irc_utf8_valid` accepts.
use sekur_ircd.Base.{
  ℕ, suc, ◌+◌, ◌*◌, ◌/◌, ◌%◌, ◌≤◌, ◌<◌, ◌≡◌, refl, ap, subst, ◌∙◌, ◌⊎◌, inl, inr, true, List, [],
  ◌∷◌, ◌++◌, ltb, ◌==◌, if◌then◌else◌, Bytes, All, arith, Bool-cases, le→ltb, ne→==, eq→==, ltb→lt,
  ltb→le, lt→ltb,
}
use sekur_ircd.Proto.Utf8.{code_point_ok, utf8_from, irc_utf8_valid}

-- A Unicode scalar value: up to U+10FFFF, no surrogate.
abbrev pub Scalar : ℕ → Type 0
Scalar cp = (cp ≤ 0x10FFFF) × ((cp < 0xD800) ⊎ (0xDFFF < cp))

-- The encoding of RFC 3629.
unfoldable pub encode : ℕ → Bytes
encode cp =
    if ltb cp 0x80
    then cp ∷ []
    else if ltb cp 0x800
    then (0xC0 + cp / 64) ∷ (0x80 + cp % 64) ∷ []
    else if ltb cp 0x10000
    then (0xE0 + cp / 4096) ∷ (0x80 + cp / 64 % 64) ∷ (0x80 + cp % 64) ∷ []
    else (0xF0 + cp / 262144)
      ∷ (0x80 + cp / 4096 % 64)
      ∷ (0x80 + cp / 64 % 64)
      ∷ (0x80 + cp % 64)
      ∷ []

unfoldable pub encode_all : List ℕ → Bytes
unfolding encode
encode_all [] = []
encode_all (cp ∷ cps) = encode cp ++ encode_all cps

point_ok : (min cp : ℕ) → min ≤ cp → Scalar cp → code_point_ok min cp ≡ true
unfolding code_point_ok
point_ok min cp h c = ground (arith, c)

last_byte :
    (min cp x : ℕ) (s : Bytes)
    → x < 64
    → min ≤ cp * 64 + x
    → Scalar (cp * 64 + x)
    → utf8_from 1 min cp ((0x80 + x) ∷ s) ≡ utf8_from 0 0 0 s
unfolding utf8_from
last_byte min cp x s l h c = ground (arith, point_ok min (cp * 64 + x) h c)

continues : (x : ℕ) → x < 64 → ((0x80 + x) / 64 == 2) ≡ true
continues x l = ground arith

next_byte :
    (n min cp x : ℕ) (s : Bytes)
    → x < 64
    → utf8_from (suc (suc n)) min cp ((0x80 + x) ∷ s) ≡ utf8_from (suc n) min (cp * 64 + x) s
unfolding utf8_from
next_byte n min cp x s l =
    rw (continues x l) (ap (λ k. utf8_from (suc n) min (cp * 64 + k) s) {y = x} (omega arith))

two_bytes : (x : ℕ) (s : Bytes) → x < 32 → utf8_from 0 0 0 ((0xC0 + x) ∷ s) ≡ utf8_from 1 0x80 x s
unfolding utf8_from
two_bytes x s l =
    rw (le→ltb (0xC0 + x) 0x80 (omega arith), eq→== ((0xC0 + x) / 32) 6 (omega arith))
      (ap (λ k. utf8_from 1 0x80 k s) {y = x} (omega arith))

three_bytes :
    (x : ℕ) (s : Bytes) → x < 16 → utf8_from 0 0 0 ((0xE0 + x) ∷ s) ≡ utf8_from 2 0x800 x s
unfolding utf8_from
three_bytes x s l =
    rw
      (
        le→ltb (0xE0 + x) 0x80 (omega arith),
        ne→== ((0xE0 + x) / 32) 6 (omega arith),
        eq→== ((0xE0 + x) / 16) 14 (omega arith),
      )
      (ap (λ k. utf8_from 2 0x800 k s) {y = x} (omega arith))

four_bytes :
    (x : ℕ) (s : Bytes) → x < 8 → utf8_from 0 0 0 ((0xF0 + x) ∷ s) ≡ utf8_from 3 0x10000 x s
unfolding utf8_from
four_bytes x s l =
    rw
      (
        le→ltb (0xF0 + x) 0x80 (omega arith),
        ne→== ((0xF0 + x) / 32) 6 (omega arith),
        ne→== ((0xF0 + x) / 16) 14 (omega arith),
        eq→== ((0xF0 + x) / 8) 30 (omega arith),
      )
      (ap (λ k. utf8_from 3 0x10000 k s) {y = x} (omega arith))

one_byte : (c : ℕ) (s : Bytes) → c < 0x80 → utf8_from 0 0 0 (c ∷ s) ≡ utf8_from 0 0 0 s
unfolding utf8_from
one_byte c s l = rw (lt→ltb c 0x80 l) refl

Scalar-eq : (a b : ℕ) → a ≡ b → Scalar a → Scalar b
Scalar-eq a b e h = subst Scalar e h

encode-valid :
    (cp : ℕ) (s : Bytes) → Scalar cp → utf8_from 0 0 0 (encode cp ++ s) ≡ utf8_from 0 0 0 s
unfolding encode
encode-valid cp s h = elim (Bool-cases (ltb cp 0x80)) [
  | inl e ↦ rw e (one_byte cp s (ltb→lt cp 0x80 e))
  | inr e ↦
      let l1 = ltb→le cp 0x80 e in
      elim (Bool-cases (ltb cp 0x800)) [
        | inl e2 ↦
            let u = ltb→lt cp 0x800 e2 in
            rw (e, e2)
              (two_bytes (cp / 64) _ (omega arith)
                ∙ last_byte 0x80 (cp / 64) (cp % 64) s (omega arith) (omega arith)
                    (Scalar-eq cp (cp / 64 * 64 + cp % 64) (omega arith) h))
        | inr e2 ↦
            let l2 = ltb→le cp 0x800 e2 in
            elim (Bool-cases (ltb cp 0x10000)) [
              | inl e3 ↦
                  let u = ltb→lt cp 0x10000 e3 in
                  rw (e, e2, e3)
                    (three_bytes (cp / 4096) _ (omega arith)
                      ∙ next_byte 0 0x800 (cp / 4096) (cp / 64 % 64) _ (omega arith)
                      ∙ last_byte 0x800 (cp / 4096 * 64 + cp / 64 % 64) (cp % 64) s (omega arith)
                          (omega arith)
                          (Scalar-eq cp ((cp / 4096 * 64 + cp / 64 % 64) * 64 + cp % 64)
                            (omega arith) h))
              | inr e3 ↦
                  let l3 = ltb→le cp 0x10000 e3 in
                  rw (e, e2, e3)
                    (four_bytes (cp / 262144) _ (omega (arith, h.0))
                      ∙ next_byte 1 0x10000 (cp / 262144) (cp / 4096 % 64) _ (omega arith)
                      ∙ next_byte 0 0x10000 (cp / 262144 * 64 + cp / 4096 % 64) (cp / 64 % 64) _
                          (omega arith)
                      ∙ last_byte 0x10000 ((cp / 262144 * 64 + cp / 4096 % 64) * 64 + cp / 64 % 64)
                          (cp % 64) s (omega arith) (omega arith)
                          (Scalar-eq cp
                            (((cp / 262144 * 64 + cp / 4096 % 64) * 64 + cp / 64 % 64) * 64
                              + cp % 64)
                            (omega arith) h))
            ]
      ]
]

pub encode_all-valid : (cps : List ℕ) → All Scalar cps → irc_utf8_valid (encode_all cps) ≡ true
unfolding irc_utf8_valid encode_all
encode_all-valid [] h = refl
encode_all-valid (cp ∷ cps) h =
    encode-valid cp (encode_all cps) h.0 ∙ unfold irc_utf8_valid in encode_all-valid cps h.1
