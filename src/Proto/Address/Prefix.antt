-- ===== src/Proto/Address/Prefix.antt =====
-- `prefix_hit` and the bits of two addresses.
use sekur_ircd.Base.{
  ℕ, zero, suc, ◌+◌, ◌-◌, ◌*◌, ◌/◌, ◌%◌, ◌^◌, ◌≤◌, ◌<◌, ◌≡◌, ◌↔◌, ◌⊎◌, refl, sym, ap, ◌∙◌, inl, inr,
  Bool, true, false, not, List, [], ◌∷◌, ◌++◌, ◌==◌, if◌then◌else◌, Bytes, length, take, drop,
  arith, both, subst, ==→eq, eq→==,
}
use sekur_ircd.Proto.Address.{same_bytes, high_bits, prefix_hit}

-- The bits of a byte, the highest first.
abbrev pub byte_bits : ℕ → List ℕ
byte_bits x =
    (x / 128)
    ∷ (x / 64 % 2)
    ∷ (x / 32 % 2)
    ∷ (x / 16 % 2)
    ∷ (x / 8 % 2)
    ∷ (x / 4 % 2)
    ∷ (x / 2 % 2)
    ∷ (x % 2)
    ∷ []

unfoldable pub bits_of : Bytes → List ℕ
bits_of [] = []
bits_of (x ∷ a) = byte_bits x ++ bits_of a

abbrev IsByte : ℕ → Type 0
IsByte x = x < 256

-- The first bits of a byte are the byte without the others.
bits_same :
    (r x y : ℕ)
    → 0 < r
    → r < 8
    → x / 2 ^ (8 - r) ≡ y / 2 ^ (8 - r)
    → take r (byte_bits x) ≡ take r (byte_bits y)
bits_same zero x y p l e = absurd (omega arith)
bits_same (suc zero) x y p l e = ground arith
bits_same (suc (suc zero)) x y p l e = ground arith
bits_same (suc (suc (suc zero))) x y p l e = ground arith
bits_same (suc (suc (suc (suc zero)))) x y p l e = ground arith
bits_same (suc (suc (suc (suc (suc zero))))) x y p l e = ground arith
bits_same (suc (suc (suc (suc (suc (suc zero)))))) x y p l e = ground arith
bits_same (suc (suc (suc (suc (suc (suc (suc zero))))))) x y p l e = ground arith
bits_same (suc (suc (suc (suc (suc (suc (suc (suc r)))))))) x y p l e = absurd (omega arith)

same_bits :
    (r x y : ℕ)
    → 0 < r
    → r < 8
    → take r (byte_bits x) ≡ take r (byte_bits y)
    → x / 2 ^ (8 - r) ≡ y / 2 ^ (8 - r)
same_bits zero x y p l e = absurd (omega arith)
same_bits (suc zero) x y p l e = ground arith
same_bits (suc (suc zero)) x y p l e = ground arith
same_bits (suc (suc (suc zero))) x y p l e = ground arith
same_bits (suc (suc (suc (suc zero)))) x y p l e = ground arith
same_bits (suc (suc (suc (suc (suc zero))))) x y p l e = ground arith
same_bits (suc (suc (suc (suc (suc (suc zero)))))) x y p l e = ground arith
same_bits (suc (suc (suc (suc (suc (suc (suc zero))))))) x y p l e = ground arith
same_bits (suc (suc (suc (suc (suc (suc (suc (suc r)))))))) x y p l e = absurd (omega arith)

byte_bits-eq : (x y : ℕ) → byte_bits x ≡ byte_bits y → x ≡ y
byte_bits-eq x y e = ground arith

take-byte_bits : (r x : ℕ) (t : List ℕ) → r < 8 → take r (byte_bits x ++ t) ≡ take r (byte_bits x)
take-byte_bits zero x t l = refl
take-byte_bits (suc zero) x t l = refl
take-byte_bits (suc (suc zero)) x t l = refl
take-byte_bits (suc (suc (suc zero))) x t l = refl
take-byte_bits (suc (suc (suc (suc zero)))) x t l = refl
take-byte_bits (suc (suc (suc (suc (suc zero))))) x t l = refl
take-byte_bits (suc (suc (suc (suc (suc (suc zero)))))) x t l = refl
take-byte_bits (suc (suc (suc (suc (suc (suc (suc zero))))))) x t l = refl
take-byte_bits (suc (suc (suc (suc (suc (suc (suc (suc r)))))))) x t l = absurd (omega arith)

-- Equal in the first `q` bytes and the first `r` bits of the next.
abbrev Same : ℕ → ℕ → Bytes → Bytes → Type 0
Same q r a b =
    (same_bytes q a b ≡ true) × ((r ≡ 0) ⊎ (high_bits r (drop q a) ≡ high_bits r (drop q b)))

abbrev SameBits : ℕ → ℕ → Bytes → Bytes → Type 0
SameBits q r a b = take (8 * q + r) (bits_of a) ≡ take (8 * q + r) (bits_of b)

last_iff :
    (r : ℕ) (a b : Bytes)
    → r < 8
    → r ≤ 8 * length a
    → length a ≡ length b
    → Same 0 r a b ↔ (take r (bits_of a) ≡ take r (bits_of b))
unfolding same_bytes high_bits bits_of
last_iff zero a b l h e = (λ s. refl, λ t. (refl, inl refl))
last_iff (suc r) [] b l h e = absurd (omega arith)
last_iff (suc r) (x ∷ a) [] l h e = absurd (omega arith)
last_iff (suc r) (x ∷ a) (y ∷ b) l h e = (
  λ s. elim s.1 [
    | inl z ↦ absurd (omega arith)
    | inr d ↦
        take-byte_bits (suc r) x (bits_of a) l
        ∙ bits_same (suc r) x y (omega arith) l d
        ∙ sym (take-byte_bits (suc r) y (bits_of b) l)
  ],
  λ t. (
    refl,
    inr (
        same_bits (suc r) x y (omega arith) l (
          sym (take-byte_bits (suc r) x (bits_of a) l)
          ∙ t
          ∙ take-byte_bits (suc r) y (bits_of b) l)),
  ),
)

-- One byte more in front.
take-next :
    (q r x : ℕ) (t : List ℕ)
    → take (8 * suc q + r) (byte_bits x ++ t) ≡ byte_bits x ++ take (8 * q + r) t
take-next q r x t =
    ap (λ n. take n (byte_bits x ++ t)) {x = 8 * suc q + r}
      {y = suc (suc (suc (suc (suc (suc (suc (suc (8 * q + r))))))))} (omega arith)

heads : (x y : ℕ) (s t : List ℕ) → (byte_bits x ++ s) ≡ byte_bits y ++ t → (x ≡ y) × (s ≡ t)
heads x y s t e = (byte_bits-eq x y (ap (take 8) e), ap (drop 8) e)

Same-iff :
    (q r : ℕ) (a b : Bytes)
    → r < 8
    → 8 * q + r ≤ 8 * length a
    → length a ≡ length b
    → Same q r a b ↔ SameBits q r a b
unfolding same_bytes bits_of
Same-iff zero r a b l h e =
    subst (λ n. Same 0 r a b ↔ (take n (bits_of a) ≡ take n (bits_of b))) {x = r} {y = 8 * 0 + r}
      (omega arith) (last_iff r a b l (omega arith) e)
Same-iff (suc q) r [] b l h e = absurd (omega arith)
Same-iff (suc q) r (x ∷ a) [] l h e = absurd (omega arith)
Same-iff (suc q) r (x ∷ a) (y ∷ b) l h e =
    let rest = Same-iff q r a b l (omega arith) (omega arith) in
    (
      λ s.
          let (t, more) = both (x == y) (same_bytes q a b) s.0 in
          take-next q r x (bits_of a)
          ∙ ap (λ n. byte_bits n ++ take (8 * q + r) (bits_of a)) (==→eq x y t)
          ∙ ap (λ u. byte_bits y ++ u) (rest.0 (more, s.1))
          ∙ sym (take-next q r y (bits_of b)),
      λ s.
          let (same, tails) =
            heads x y (take (8 * q + r) (bits_of a)) (take (8 * q + r) (bits_of b))
              (sym (take-next q r x (bits_of a)) ∙ s ∙ take-next q r y (bits_of b)) in
          let (more, last) = rest.1 tails in (rw (eq→== x y same) more, last),
    )

abbrev test : ℕ → ℕ → Bytes → Bytes → Bool
test q r a b =
    if not (same_bytes q a b)
    then false
    else if r == 0
    then true
    else high_bits r (drop q a) == high_bits r (drop q b)

passed : (q r : ℕ) (a b : Bytes) → test q r a b ≡ true → Same q r a b
passed q r a b t = ground (arith, t)

met : (q r : ℕ) (a b : Bytes) → Same q r a b → test q r a b ≡ true
met q r a b s = ground arith

-- `prefix_hit` says whether the first `bits` bits of two addresses of one length are equal.
pub prefix_hit_iff :
    (a b : Bytes) (bits : ℕ)
    → length a ≡ length b
    → bits ≤ 8 * length a
    → (prefix_hit a b bits ≡ true) ↔ (take bits (bits_of a) ≡ take bits (bits_of b))
unfolding prefix_hit
prefix_hit_iff a b bits e h =
    let q = bits / 8 in
    let r = bits % 8 in
    let parts : 8 * q + r ≡ bits = omega arith in
    let (f, g) =
      subst (λ n. Same q r a b ↔ (take n (bits_of a) ≡ take n (bits_of b))) parts
        (Same-iff q r a b (omega arith) (omega arith) e) in
    (λ t. f (passed q r a b t), λ t. met q r a b (g t))
