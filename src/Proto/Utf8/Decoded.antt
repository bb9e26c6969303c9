-- ===== src/Proto/Utf8/Decoded.antt =====
-- The valid texts are the encodings of sequences of Unicode scalar values.
use sekur_ircd.Base.{
  guarded, both, ℕ, zero, suc, ◌+◌, ◌*◌, ◌/◌, ◌%◌, ◌≤◌, ◌<◌, ◌≡◌, ◌↔◌, refl, sym, ap, subst, ◌∙◌,
  inl, inr, true, List, [], ◌∷◌, ◌++◌, ltb, ◌==◌, Bytes, All, arith, Bool-cases, length, drop,
  length-append, le→ltb, ==→eq, ltb→lt, lt→ltb,
}
use sekur_ircd.Proto.Utf8.{code_point_ok, utf8_from, irc_utf8_valid}
use sekur_ircd.Proto.Utf8.Scalars.{Scalar, encode, encode_all, encode_all-valid}

point_ok_inv : (min cp : ℕ) → code_point_ok min cp ≡ true → (min ≤ cp) × Scalar cp
unfolding code_point_ok
point_ok_inv min cp h = ground (arith, h)

-- A continuation byte, what it leaves, and the state behind it.
record Continued (s : Bytes) (after : ℕ → Bytes → Type 0) : Type 0 where
  x : ℕ
  rest : Bytes
  small : x < 64
  whole : s ≡ (0x80 + x) ∷ rest
  next : after x rest

continued :
    (after : ℕ → Bytes → Type 0) (b : ℕ) (s : Bytes)
    → b / 64 ≡ 2
    → after (b % 64) s
    → Continued (b ∷ s) after
continued after b s e h = record {
  x = b % 64;
  rest = s;
  small = omega arith;
  whole = ap (λ k. k ∷ s) {y = 0x80 + b % 64} (omega arith);
  next = h;
}

last_inv :
    (min cp : ℕ) (s : Bytes)
    → utf8_from 1 min cp s ≡ true
    → Continued s (λ x r. (min ≤ cp * 64 + x) × Scalar (cp * 64 + x) × (utf8_from 0 0 0 r ≡ true))
unfolding utf8_from
last_inv min cp [] h = absurd (ground (arith, h))
last_inv min cp (b ∷ s) h =
    let (t, v) = guarded (b / 64 == 2) _ h in
    let (ok, r) = both (code_point_ok min (cp * 64 + b % 64)) (utf8_from 0 0 0 s) v in
    let (l, c) = point_ok_inv min (cp * 64 + b % 64) ok in
    continued (λ x r. (min ≤ cp * 64 + x) × Scalar (cp * 64 + x) × (utf8_from 0 0 0 r ≡ true)) b s
      (==→eq (b / 64) 2 t) (l, c, r)

next_inv :
    (n min cp : ℕ) (s : Bytes)
    → utf8_from (suc (suc n)) min cp s ≡ true
    → Continued s (λ x r. utf8_from (suc n) min (cp * 64 + x) r ≡ true)
unfolding utf8_from
next_inv n min cp [] h = absurd (ground (arith, h))
next_inv n min cp (b ∷ s) h =
    let (t, v) = guarded (b / 64 == 2) _ h in
    continued (λ x r. utf8_from (suc n) min (cp * 64 + x) r ≡ true) b s (==→eq (b / 64) 2 t) v

-- A text that begins with the encoding of a scalar value, and a valid rest.
record First (s : Bytes) : Type 0 where
  cp : ℕ
  rest : Bytes
  scalar : Scalar cp
  whole : s ≡ encode cp ++ rest
  valid : utf8_from 0 0 0 rest ≡ true

four_eq :
    (a b c d a' b' c' d' : ℕ)
    → a ≡ a'
    → b ≡ b'
    → c ≡ c'
    → d ≡ d'
    → Path Bytes (a ∷ b ∷ c ∷ d ∷ []) (a' ∷ b' ∷ c' ∷ d' ∷ [])
four_eq a b c d a' b' c' d' p q r t = cc

encode_two :
    (x y : ℕ)
    → x < 32
    → y < 64
    → 0x80 ≤ x * 64 + y
    → encode (x * 64 + y) ≡ (0xC0 + x) ∷ (0x80 + y) ∷ []
unfolding encode
encode_two x y hx hy h =
    rw (le→ltb (x * 64 + y) 0x80 h, lt→ltb (x * 64 + y) 0x800 (omega arith))
      (ap (drop 2) (
        four_eq 0 0 (0xC0 + (x * 64 + y) / 64) (0x80 + (x * 64 + y) % 64) 0 0 (0xC0 + x) (0x80 + y)
          refl refl (omega arith) (omega arith)))

encode_three :
    (x y z : ℕ)
    → x < 16
    → y < 64
    → z < 64
    → 0x800 ≤ (x * 64 + y) * 64 + z
    → encode ((x * 64 + y) * 64 + z) ≡ (0xE0 + x) ∷ (0x80 + y) ∷ (0x80 + z) ∷ []
unfolding encode
encode_three x y z hx hy hz h =
    let v = (x * 64 + y) * 64 + z in
    rw (le→ltb v 0x80 (omega arith), le→ltb v 0x800 h, lt→ltb v 0x10000 (omega arith))
      (ap (drop 1) (
        four_eq 0 (0xE0 + v / 4096) (0x80 + v / 64 % 64) (0x80 + v % 64) 0 (0xE0 + x) (0x80 + y)
          (0x80 + z) refl (omega arith) (omega arith) (omega arith)))

encode_four :
    (x y z w : ℕ)
    → x < 8
    → y < 64
    → z < 64
    → w < 64
    → 0x10000 ≤ ((x * 64 + y) * 64 + z) * 64 + w
    → encode (((x * 64 + y) * 64 + z) * 64 + w)
      ≡ (0xF0 + x) ∷ (0x80 + y) ∷ (0x80 + z) ∷ (0x80 + w) ∷ []
unfolding encode
encode_four x y z w hx hy hz hw h =
    let v = ((x * 64 + y) * 64 + z) * 64 + w in
    rw (le→ltb v 0x80 (omega arith), le→ltb v 0x800 (omega arith), le→ltb v 0x10000 h)
      (four_eq (0xF0 + v / 262144) (0x80 + v / 4096 % 64) (0x80 + v / 64 % 64) (0x80 + v % 64)
        (0xF0 + x) (0x80 + y) (0x80 + z) (0x80 + w) (omega arith) (omega arith) (omega arith)
        (omega arith))

first_two : (x : ℕ) (s : Bytes) → x < 32 → utf8_from 1 0x80 x s ≡ true → First ((0xC0 + x) ∷ s)
first_two x s l h =
    let k = last_inv 0x80 x s h in
    record {
      cp = x * 64 + k.x;
      rest = k.rest;
      scalar = k.next.1;
      valid = k.next.2;
      whole =
          ap (◌∷◌ (0xC0 + x)) k.whole
          ∙ ap (λ t. t ++ k.rest) (sym (encode_two x k.x l k.small k.next.0));
    }

first_three : (x : ℕ) (s : Bytes) → x < 16 → utf8_from 2 0x800 x s ≡ true → First ((0xE0 + x) ∷ s)
first_three x s l h =
    let j = next_inv 0 0x800 x s h in
    let k = last_inv 0x800 (x * 64 + j.x) j.rest j.next in
    record {
      cp = (x * 64 + j.x) * 64 + k.x;
      rest = k.rest;
      scalar = k.next.1;
      valid = k.next.2;
      whole =
          ap (◌∷◌ (0xE0 + x)) (j.whole ∙ ap (◌∷◌ (0x80 + j.x)) k.whole)
          ∙ ap (λ t. t ++ k.rest) (sym (encode_three x j.x k.x l j.small k.small k.next.0));
    }

first_four : (x : ℕ) (s : Bytes) → x < 8 → utf8_from 3 0x10000 x s ≡ true → First ((0xF0 + x) ∷ s)
first_four x s l h =
    let i = next_inv 1 0x10000 x s h in
    let j = next_inv 0 0x10000 (x * 64 + i.x) i.rest i.next in
    let k = last_inv 0x10000 ((x * 64 + i.x) * 64 + j.x) j.rest j.next in
    record {
      cp = ((x * 64 + i.x) * 64 + j.x) * 64 + k.x;
      rest = k.rest;
      scalar = k.next.1;
      valid = k.next.2;
      whole =
          ap (◌∷◌ (0xF0 + x))
            (i.whole ∙ ap (◌∷◌ (0x80 + i.x)) (j.whole ∙ ap (◌∷◌ (0x80 + j.x)) k.whole))
          ∙ ap (λ t. t ++ k.rest)
              (sym (encode_four x i.x j.x k.x l i.small j.small k.small k.next.0));
    }

first_byte : (c : ℕ) (s : Bytes) → c < 0x80 → utf8_from 0 0 0 s ≡ true → First (c ∷ s)
unfolding encode
first_byte c s l h = record {
  cp = c;
  rest = s;
  scalar = (omega arith, inl (omega arith));
  valid = h;
  whole = rw (lt→ltb c 0x80 l) refl;
}

lead : (c d : ℕ) (s : Bytes) → c ≡ d → First (d ∷ s) → First (c ∷ s)
lead c d s e f = subst (λ k. First (k ∷ s)) (sym e) f

first : (c : ℕ) (s : Bytes) → utf8_from 0 0 0 (c ∷ s) ≡ true → First (c ∷ s)
unfolding utf8_from
first c s h = elim (Bool-cases (ltb c 0x80)) [
  | inl e ↦ first_byte c s (ltb→lt c 0x80 e) (ground (arith, e, h))
  | inr e ↦ elim (Bool-cases (c / 32 == 6)) [
    | inl e2 ↦
        let q = ==→eq (c / 32) 6 e2 in
        lead c (0xC0 + c % 32) s (omega arith)
          (first_two (c % 32) s (omega arith) (ground (arith, e, e2, h)))
    | inr e2 ↦ elim (Bool-cases (c / 16 == 14)) [
      | inl e3 ↦
          let q = ==→eq (c / 16) 14 e3 in
          lead c (0xE0 + c % 16) s (omega arith)
            (first_three (c % 16) s (omega arith) (ground (arith, e, e2, e3, h)))
      | inr e3 ↦ elim (Bool-cases (c / 8 == 30)) [
        | inl e4 ↦
            let q = ==→eq (c / 8) 30 e4 in
            lead c (0xF0 + c % 8) s (omega arith)
              (first_four (c % 8) s (omega arith) (ground (arith, e, e2, e3, e4, h)))
        | inr e4 ↦ absurd (ground (arith, e, e2, e3, e4, h))
      ]
    ]
  ]
]

encode-length : (cp : ℕ) → 0 < length (encode cp)
unfolding encode
encode-length cp = ground arith

shorter : (s : Bytes) (f : First s) → length f.rest < length s
shorter s f =
    omega (arith, ap length f.whole, length-append (encode f.cp) f.rest, encode-length f.cp)

decoded :
    (n : ℕ) (s : Bytes)
    → length s ≤ n
    → utf8_from 0 0 0 s ≡ true
    → (cps : List ℕ) × All Scalar cps × (s ≡ encode_all cps)
unfolding encode_all
decoded n [] h v = ([], tt, refl)
decoded zero (c ∷ s) h v = absurd (omega arith)
decoded (suc n) (c ∷ s) h v =
    let f = first c s v in
    let (cps, all, e) = decoded n f.rest (omega (arith, shorter (c ∷ s) f)) f.valid in
    (f.cp ∷ cps, (f.scalar, all), f.whole ∙ ap (λ t. encode f.cp ++ t) e)

-- A text is valid exactly if it is the encoding, by RFC 3629, of a sequence of Unicode scalar values:
-- no overlong form, no surrogate, nothing past U+10FFFF, no sequence that is cut off.
pub irc_utf8_valid-iff-encode :
    (s : Bytes)
    → (irc_utf8_valid s ≡ true) ↔ ((cps : List ℕ) × All Scalar cps × (s ≡ encode_all cps))
unfolding irc_utf8_valid
irc_utf8_valid-iff-encode s =
    (decoded (length s) s (omega arith), λ w. ap irc_utf8_valid w.2 ∙ encode_all-valid w.0 w.1)
