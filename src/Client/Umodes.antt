-- ===== src/Client/Umodes.antt =====
-- src/client.c: the letters of a user's modes, `client_umode_bit` and `client_mode_string`.
use Prim.Native.Nat.{bit_and}
use sekur_ircd.Base.{
  ℕ, ◌-◌, ◌≡◌, ◌⊎◌, inl, inr, refl, sym, ap, subst, ◌∙◌, Bool, true, false, not, ◌&&◌, ◌||◌, List,
  [], ◌∷◌, ◌==◌, if◌then◌else◌, Bytes, take, length, take_all, ◌≤◌, arith, Bool-cases,
}
use sekur_ircd.Proto.Mask.{has_byte}

-- The letters that configuration and the user may set, with their bits.
unfoldable pub client_umode_bit : ℕ → ℕ
client_umode_bit c =
    if c == b'i'
    then 0x01
    else if c == b'w'
    then 0x02
    else if c == b'd'
    then 0x8000
    else if c == b'T'
    then 0x04
    else if c == b's'
    then 0x08
    else if c == b'Z'
    then 0x10000
    else if c == b'p'
    then 0x80
    else if c == b'I'
    then 0x100
    else if c == b'R'
    then 0x800
    else if c == b'D'
    then 0x1000
    else if c == b'B'
    then 0x2000
    else if c == b'g'
    then 0x4000
    else if c == b'H'
    then 0x200
    else if c == b'q'
    then 0x400
    else if c == b'W'
    then 0x40000
    else 0

-- The bits in the order in which they are shown.
abbrev pub shown_modes : List (ℕ × ℕ)
shown_modes =
    (0x01, b'i')
    ∷ (0x02, b'w')
    ∷ (0x8000, b'd')
    ∷ (0x04, b'T')
    ∷ (0x08, b's')
    ∷ (0x10, b'o')
    ∷ (0x20, b'z')
    ∷ (0x10000, b'Z')
    ∷ (0x20000, b'x')
    ∷ (0x40000, b'W')
    ∷ (0x40, b'r')
    ∷ (0x80, b'p')
    ∷ (0x100, b'I')
    ∷ (0x200, b'H')
    ∷ (0x400, b'q')
    ∷ (0x800, b'R')
    ∷ (0x1000, b'D')
    ∷ (0x2000, b'B')
    ∷ (0x4000, b'g')
    ∷ []

abbrev pub is_set : ℕ → ℕ → Bool
is_set umodes bit = not (bit_and umodes bit == 0)

unfoldable pub mode_letters : ℕ → List (ℕ × ℕ) → Bytes
mode_letters umodes [] = []
mode_letters umodes ((bit, c) ∷ ms) =
    let rest = mode_letters umodes ms in if is_set umodes bit then c ∷ rest else rest

unfoldable pub client_mode_string : ℕ → ℕ → Bytes
unfolding mode_letters
client_mode_string umodes outsz = take (outsz - 1) (b'+' ∷ mode_letters umodes shown_modes)

-- The letter stands in the table at a bit that is set.
abbrev listed_set : ℕ → ℕ → List (ℕ × ℕ) → Bool
listed_set umodes c [] = false
listed_set umodes c ((bit, d) ∷ ms) = d == c && is_set umodes bit || listed_set umodes c ms

has_byte-letters :
    (umodes c : ℕ) (ms : List (ℕ × ℕ))
    → has_byte c (mode_letters umodes ms) ≡ listed_set umodes c ms
unfolding has_byte mode_letters
has_byte-letters umodes c [] = refl
has_byte-letters umodes c ((bit, d) ∷ ms) = elim (Bool-cases (is_set umodes bit)) [
  | inl t ↦ rw t (
      ap (λ b. d == c || b) (has_byte-letters umodes c ms)
      ∙ with_true (d == c) (listed_set umodes c ms))
  | inr f ↦ rw f (has_byte-letters umodes c ms ∙ with_false (d == c) (listed_set umodes c ms))
]
  where
    with_true : (b r : Bool) → (b || r) ≡ (b && true || r)
    with_true b r = ground arith

    with_false : (b r : Bool) → r ≡ (b && false || r)
    with_false b r = ground arith

-- A letter that can be set.
abbrev Known : ℕ → Type 0
Known c =
    (c ≡ b'i')
    ⊎ (c ≡ b'w')
    ⊎ (c ≡ b'd')
    ⊎ (c ≡ b'T')
    ⊎ (c ≡ b's')
    ⊎ (c ≡ b'Z')
    ⊎ (c ≡ b'p')
    ⊎ (c ≡ b'I')
    ⊎ (c ≡ b'R')
    ⊎ (c ≡ b'D')
    ⊎ (c ≡ b'B')
    ⊎ (c ≡ b'g')
    ⊎ (c ≡ b'H')
    ⊎ (c ≡ b'q')
    ⊎ (c ≡ b'W')

bit-Known : (c : ℕ) → (client_umode_bit c == 0) ≡ false → Known c
unfolding client_umode_bit
bit-Known c h = ground (arith, h)

length-letters : (umodes : ℕ) (ms : List (ℕ × ℕ)) → length (mode_letters umodes ms) ≤ length ms
unfolding mode_letters
length-letters umodes [] = omega arith
length-letters umodes ((bit, d) ∷ ms) = elim (Bool-cases (is_set umodes bit)) [
  | inl t ↦ rw t (omega (arith, length-letters umodes ms))
  | inr f ↦ rw f (omega (arith, length-letters umodes ms))
]

abbrev Listed : ℕ → ℕ → Type 0
Listed umodes c = listed_set umodes c shown_modes ≡ is_set umodes (client_umode_bit c)

or_false : (b : Bool) → (b || false) ≡ b
or_false b = ground arith

Known-Listed : (umodes c : ℕ) → Known c → Listed umodes c
unfolding client_umode_bit
Known-Listed umodes c (inl e) = subst (Listed umodes) (sym e) (or_false _)
Known-Listed umodes c (inr (inl e)) = subst (Listed umodes) (sym e) (or_false _)
Known-Listed umodes c (inr (inr (inl e))) = subst (Listed umodes) (sym e) (or_false _)
Known-Listed umodes c (inr (inr (inr (inl e)))) = subst (Listed umodes) (sym e) (or_false _)
Known-Listed umodes c (inr (inr (inr (inr (inl e))))) = subst (Listed umodes) (sym e) (or_false _)
Known-Listed umodes c (inr (inr (inr (inr (inr (inl e)))))) =
    subst (Listed umodes) (sym e) (or_false _)
Known-Listed umodes c (inr (inr (inr (inr (inr (inr (inl e))))))) =
    subst (Listed umodes) (sym e) (or_false _)
Known-Listed umodes c (inr (inr (inr (inr (inr (inr (inr (inl e)))))))) =
    subst (Listed umodes) (sym e) (or_false _)
Known-Listed umodes c (inr (inr (inr (inr (inr (inr (inr (inr (inl e))))))))) =
    subst (Listed umodes) (sym e) (or_false _)
Known-Listed umodes c (inr (inr (inr (inr (inr (inr (inr (inr (inr (inl e)))))))))) =
    subst (Listed umodes) (sym e) (or_false _)
Known-Listed umodes c (inr (inr (inr (inr (inr (inr (inr (inr (inr (inr (inl e))))))))))) =
    subst (Listed umodes) (sym e) (or_false _)
Known-Listed umodes c (inr (inr (inr (inr (inr (inr (inr (inr (inr (inr (inr (inl e)))))))))))) =
    subst (Listed umodes) (sym e) (or_false _)
Known-Listed umodes c
      (inr (inr (inr (inr (inr (inr (inr (inr (inr (inr (inr (inr (inl e))))))))))))) =
    subst (Listed umodes) (sym e) (or_false _)
Known-Listed umodes c
      (inr (inr (inr (inr (inr (inr (inr (inr (inr (inr (inr (inr (inr (inl e)))))))))))))) =
    subst (Listed umodes) (sym e) (or_false _)
Known-Listed umodes c
      (inr (inr (inr (inr (inr (inr (inr (inr (inr (inr (inr (inr (inr (inr e)))))))))))))) =
    subst (Listed umodes) (sym e) (or_false _)

not_plus : (c : ℕ) → Known c → (b'+' == c) ≡ false
not_plus c h = ground (arith, h)

-- Each letter that can be set stands in a client's mode string exactly if its bit is set.
pub has_byte-client_mode_string :
    (umodes c : ℕ)
    → (client_umode_bit c == 0) ≡ false
    → has_byte c (client_mode_string umodes 32) ≡ is_set umodes (client_umode_bit c)
unfolding client_mode_string has_byte
has_byte-client_mode_string umodes c h =
    let k = bit-Known c h in
    let fits = length-letters umodes shown_modes in
    ap (has_byte c) (take_all 31 (b'+' ∷ mode_letters umodes shown_modes) (omega (arith, fits)))
    ∙ rw (not_plus c k) (has_byte-letters umodes c shown_modes ∙ Known-Listed umodes c k)
