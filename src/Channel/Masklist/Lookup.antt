-- ===== src/Channel/Masklist/Lookup.antt =====
-- Lookups in a list of distinct masks, after an append and after a removal.
use sekur_ircd.Base.{
  ◌≤◌, ◌≡◌, ◌≢◌, ◌⊎◌, refl, sym, ap, ◌∙◌, inl, inr, Bool, true, false, not, ◌&&◌, ◌||◌, List, [],
  ◌∷◌, ◌++◌, ◌==◌, Bytes, length, All, All-append, arith, map, Bool-cases,
}
use sekur_ircd.Cstring.{tolower, str_eq, str_case_eq, str_eq_iff, ne-str_eq}
use sekur_ircd.Channel.Masklist.{Mask, Masklist, chan_max_masklist, has_mask, delete_mask}

abbrev pub folded : Bytes → Bytes
folded s = map tolower s

-- Masks that differ in more than case.
abbrev pub Distinct : List Mask → Type 0
Distinct [] = Unit
Distinct (m ∷ ms) = All (λ k. folded k.mask ≢ folded m.mask) ms × Distinct ms

pub record Inv (ml : Masklist) : Type 0 where
  pub bounded : length ml.masks ≤ chan_max_masklist
  pub distinct : Distinct ml.masks
  pub backed : (ml.allocated ≡ true) ⊎ (ml.masks ≡ [])

case_eq-folded : (a b : Bytes) → str_case_eq a b ≡ str_eq (folded a) (folded b)
unfolding str_case_eq str_eq
case_eq-folded [] [] = refl
case_eq-folded [] (y ∷ b) = refl
case_eq-folded (x ∷ a) [] = refl
case_eq-folded (x ∷ a) (y ∷ b) = ap (λ t. tolower x == tolower y && t) (case_eq-folded a b)

pub case_eq→folded : (a b : Bytes) → str_case_eq a b ≡ true → folded a ≡ folded b
case_eq→folded a b h = (str_eq_iff (folded a) (folded b)).0 (sym (case_eq-folded a b) ∙ h)

folded→case_eq : (a b : Bytes) → folded a ≡ folded b → str_case_eq a b ≡ true
folded→case_eq a b h = case_eq-folded a b ∙ (str_eq_iff (folded a) (folded b)).1 h

pub not_case_eq : (a b : Bytes) → str_case_eq a b ≡ false → folded a ≢ folded b
not_case_eq a b h = ne-str_eq (folded a) (folded b) (sym (case_eq-folded a b) ∙ h)

pub has_mask-append :
    (ms ks : List Mask) (key : Bytes)
    → has_mask (ms ++ ks) key ≡ (has_mask ms key || has_mask ks key)
unfolding has_mask
has_mask-append [] ks key = refl
has_mask-append (m ∷ ms) ks key = ground (arith, has_mask-append ms ks key)

neither : (a b : Bool) → (a || b) ≡ false → (a ≡ false) × (b ≡ false)
neither true b h = absurd (ground (arith, h))
neither false b h = (refl, h)

absent-All :
    (ms : List Mask) (key : Bytes)
    → has_mask ms key ≡ false
    → All (λ k. folded k.mask ≢ folded key) ms
unfolding has_mask
absent-All [] key h = tt
absent-All (m ∷ ms) key h =
    let (a, b) = neither (str_case_eq m.mask key) (has_mask ms key) h in
    (not_case_eq m.mask key a, absent-All ms key b)

pub Distinct-append :
    (ms : List Mask) (m : Mask) → Distinct ms → has_mask ms m.mask ≡ false → Distinct (ms ++ m ∷ [])
unfolding has_mask
Distinct-append [] m d h = (tt, tt)
Distinct-append (k ∷ ms) m d h =
    let (a, b) = neither (str_case_eq k.mask m.mask) (has_mask ms m.mask) h in
    (
      All-append (λ j. folded j.mask ≢ folded k.mask) ms (m ∷ []) d.0
          ((λ e. not_case_eq k.mask m.mask a (sym e)), tt),
      Distinct-append ms m d.1 b,
    )

pub delete-All :
    (P : Mask → Type 0) (ms : List Mask) (key : Bytes) → All P ms → All P (delete_mask ms key)
unfolding delete_mask
delete-All P [] key p = tt
delete-All P (m ∷ ms) key p = elim (Bool-cases (str_case_eq m.mask key)) [
  | inl e ↦ rw e p.1
  | inr e ↦ rw e (p.0, delete-All P ms key p.1)
]

pub delete-Distinct : (ms : List Mask) (key : Bytes) → Distinct ms → Distinct (delete_mask ms key)
unfolding delete_mask
delete-Distinct [] key d = tt
delete-Distinct (m ∷ ms) key d = elim (Bool-cases (str_case_eq m.mask key)) [
  | inl e ↦ rw e d.1
  | inr e ↦
      rw e (delete-All (λ k. folded k.mask ≢ folded m.mask) ms key d.0, delete-Distinct ms key d.1)
]

pub length-delete : (ms : List Mask) (key : Bytes) → length (delete_mask ms key) ≤ length ms
unfolding delete_mask
length-delete [] key = omega arith
length-delete (m ∷ ms) key = ground (arith, length-delete ms key)

-- Whatever equals one mask of two distinct ones equals not the other.
others_absent :
    (ms : List Mask) (m : Mask) (key : Bytes)
    → All (λ k. folded k.mask ≢ folded m.mask) ms
    → folded m.mask ≡ folded key
    → has_mask ms key ≡ false
unfolding has_mask
others_absent [] m key a e = refl
others_absent (k ∷ ms) m key a e = elim (Bool-cases (str_case_eq k.mask key)) [
  | inl t ↦ absurd (a.0 (case_eq→folded k.mask key t ∙ sym e))
  | inr f ↦ rw f (others_absent ms m key a.1 e)
]

case_eq-other :
    (m mask key : Bytes) → str_case_eq m mask ≡ true → str_case_eq m key ≡ str_case_eq mask key
case_eq-other m mask key h =
    case_eq-folded m key
    ∙ ap (λ t. str_eq t (folded key)) (case_eq→folded m mask h)
    ∙ sym (case_eq-folded mask key)

case_eq-same :
    (m mask key : Bytes) → str_case_eq mask key ≡ true → str_case_eq m mask ≡ str_case_eq m key
case_eq-same m mask key h =
    case_eq-folded m mask
    ∙ ap (str_eq (folded m)) (case_eq→folded mask key h)
    ∙ sym (case_eq-folded m key)

-- In a list of distinct masks, a removal takes out all that equals the mask and nothing else.
pub delete-has_mask :
    (ms : List Mask) (mask key : Bytes)
    → Distinct ms
    → has_mask (delete_mask ms mask) key ≡ (has_mask ms key && not (str_case_eq mask key))
unfolding has_mask delete_mask
delete-has_mask [] mask key d = refl
delete-has_mask (m ∷ ms) mask key d = elim (Bool-cases (str_case_eq m.mask mask)) [
  | inl e ↦
      let same = case_eq-other m.mask mask key e in
      elim (Bool-cases (str_case_eq mask key)) [
        | inl t ↦
            let gone =
              others_absent ms m key d.0
                (case_eq→folded m.mask mask e ∙ case_eq→folded mask key t) in
            rw (e, same, t, gone) refl
        | inr f ↦ rw (e, same, f) (ground arith)
      ]
  | inr e ↦
      let more = delete-has_mask ms mask key d.1 in
      elim (Bool-cases (str_case_eq mask key)) [
        | inl t ↦
            let other = sym (case_eq-same m.mask mask key t) ∙ e in
            rw (e, t, other) (more ∙ rw t refl)
        | inr f ↦ rw (e, f) (ground (arith, more, f))
      ]
]

pub delete-absent :
    (ms : List Mask) (mask : Bytes) → has_mask ms mask ≡ false → delete_mask ms mask ≡ ms
unfolding delete_mask has_mask
delete-absent [] mask h = refl
delete-absent (m ∷ ms) mask h =
    let (a, b) = neither (str_case_eq m.mask mask) (has_mask ms mask) h in
    rw a (ap (◌∷◌ m) (delete-absent ms mask b))

pub delete-append :
    (ms : List Mask) (m : Mask)
    → has_mask ms m.mask ≡ false
    → delete_mask (ms ++ m ∷ []) m.mask ≡ ms
unfolding delete_mask has_mask
delete-append [] m h = rw (folded→case_eq m.mask m.mask refl) refl
delete-append (k ∷ ms) m h =
    let (a, b) = neither (str_case_eq k.mask m.mask) (has_mask ms m.mask) h in
    rw a (ap (◌∷◌ k) (delete-append ms m b))

pub has_mask-append_self : (ms : List Mask) (m : Mask) → has_mask (ms ++ m ∷ []) m.mask ≡ true
unfolding has_mask
has_mask-append_self [] m = rw (folded→case_eq m.mask m.mask refl) refl
has_mask-append_self (k ∷ ms) m = ground (arith, has_mask-append_self ms m)
