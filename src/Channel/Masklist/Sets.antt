-- ===== src/Channel/Masklist/Sets.antt =====
-- A list of masks is a set of at most 100 masks, up to case: what an add and a removal make of it.
use sekur_ircd.Base.{
  ℕ, ◌≤◌, ◌<◌, ◌≡◌, refl, sym, ap, ◌∙◌, inl, inr, Bool, true, false, not, ◌&&◌, ◌||◌, List, [], ◌∷◌,
  leb, Bytes, length, length-append, take_all, arith, Bool-cases, both, subst,
}
use sekur_ircd.Cstring.{str_case_eq}
use sekur_ircd.Channel.Masklist.{
  Mask, Masklist, chan_max_masklist, has_mask, masklist_free, masklist_add, delete_mask,
  masklist_del,
}
use sekur_ircd.Channel.Masklist.Lookup.{
  Inv, has_mask-append, Distinct-append, delete-Distinct, length-delete, delete-has_mask,
  delete-absent, delete-append, has_mask-append_self,
}

-- Room for one more mask, and memory for the arrays.
abbrev pub admits : Masklist → Bytes → Bool → Bool
admits ml mask alloc_ok =
    not (has_mask ml.masks mask)
    && not (leb chan_max_masklist (length ml.masks))
    && (ml.allocated || alloc_ok)

-- What an add must leave: a well-formed list that admits the mask if there is room, and finds it and
-- what it found before.
abbrev pub Added : Masklist → Bytes → Bool → Bytes → Masklist × Bool → Type 0
Added ml mask alloc_ok key (after, ok) =
    Inv after
    × (ok ≡ admits ml mask alloc_ok)
    × (has_mask after.masks key ≡ (has_mask ml.masks key || (ok && str_case_eq mask key)))

or_false : (b : Bool) → b ≡ (b || false)
or_false true = refl
or_false false = refl

refused :
    (ml : Masklist) (mask key : Bytes) (alloc_ok : Bool)
    → Inv ml
    → admits ml mask alloc_ok ≡ false
    → Added ml mask alloc_ok key (ml, false)
refused ml mask key alloc_ok v n = (v, sym n, or_false (has_mask ml.masks key))

no_memory :
    (ml : Masklist) (mask key : Bytes) (alloc_ok : Bool)
    → Inv ml
    → (not ml.allocated && not alloc_ok) ≡ true
    → Added ml mask alloc_ok key (masklist_free ml, false)
unfolding masklist_free has_mask
no_memory ml mask key alloc_ok v n =
    let (a, m) = both (not ml.allocated) (not alloc_ok) n in
    let none_there : ml.masks ≡ [] = elim v.backed [
      | inl e ↦ absurd (ground (arith, e, a))
      | inr e ↦ e
    ] in
    (
      record { bounded = omega arith; distinct = tt; backed = inr refl },
      rw none_there (ground (arith, a, m)),
      rw none_there refl,
    )

few_enough : {n : ℕ} → leb chan_max_masklist n ≡ false → n < chan_max_masklist
few_enough {n} h = ground (arith, h)

appended :
    (ml : Masklist) (mask key : Bytes) (now : ℕ) (alloc_ok : Bool)
    → Inv ml
    → length mask ≤ 255
    → has_mask ml.masks mask ≡ false
    → leb chan_max_masklist (length ml.masks) ≡ false
    → (not ml.allocated && not alloc_ok) ≡ false
    → Added ml mask alloc_ok key (masklist_add ml mask now alloc_ok)
unfolding masklist_add
appended ml mask key now alloc_ok v short e f g =
    let new : Mask = record { mask = mask; set_at = now; set_by = [] } in
    rw (e, f, g, take_all 255 mask short)
      (
        record {
          bounded = omega (arith, length-append ml.masks (new ∷ []), few_enough f);
          distinct = Distinct-append ml.masks new v.distinct e;
          backed = inl refl;
        },
        ground (arith, g),
        has_mask-append ml.masks (new ∷ []) key
            ∙ ap (λ t. has_mask ml.masks key || t) (sym (or_false (str_case_eq mask key))),
      )

-- After `masklist_add` of a mask that fits its slot, the list is well-formed: at most 100 masks, no two
-- equal up to case. The mask is admitted exactly if it was not there, the list was not full and memory
-- was there, and a lookup then finds it besides what it found before.
pub masklist_add-Added :
    (ml : Masklist) (mask key : Bytes) (now : ℕ) (alloc_ok : Bool)
    → Inv ml
    → length mask ≤ 255
    → Added ml mask alloc_ok key (masklist_add ml mask now alloc_ok)
unfolding masklist_add
masklist_add-Added ml mask key now alloc_ok v short = elim (Bool-cases (has_mask ml.masks mask)) [
  | inl e ↦
      let same : masklist_add ml mask now alloc_ok ≡ (ml, false) = rw e refl in
      subst (Added ml mask alloc_ok key) (sym same) (refused ml mask key alloc_ok v (rw e refl))
  | inr e ↦ elim (Bool-cases (leb chan_max_masklist (length ml.masks))) [
    | inl f ↦
        let same : masklist_add ml mask now alloc_ok ≡ (ml, false) = rw (e, f) refl in
        subst (Added ml mask alloc_ok key) (sym same)
          (refused ml mask key alloc_ok v (rw (e, f) refl))
    | inr f ↦ elim (Bool-cases (not ml.allocated && not alloc_ok)) [
      | inl g ↦
          let freed : masklist_add ml mask now alloc_ok ≡ (masklist_free ml, false) =
            rw (e, f, g) refl in
          subst (Added ml mask alloc_ok key) (sym freed) (no_memory ml mask key alloc_ok v g)
      | inr g ↦ appended ml mask key now alloc_ok v short e f g
    ]
  ]
]

-- What a removal must leave: a well-formed list that finds all it found before but the mask. It answers
-- whether the mask was there.
abbrev pub Removed : Masklist → Bytes → Bytes → Masklist × Bool → Type 0
Removed ml mask key (after, ok) =
    Inv after
    × (ok ≡ has_mask ml.masks mask)
    × (has_mask after.masks key ≡ (has_mask ml.masks key && not (str_case_eq mask key)))

delete-nil : (ms : List Mask) (mask : Bytes) → ms ≡ [] → delete_mask ms mask ≡ []
unfolding delete_mask
delete-nil ms mask e = rw e refl

-- `masklist_del` keeps a list well-formed, answers whether the mask was there, and takes out every mask
-- that equals it up to case, and no other.
pub masklist_del-Removed :
    (ml : Masklist) (mask key : Bytes) → Inv ml → Removed ml mask key (masklist_del ml mask)
unfolding masklist_del
masklist_del-Removed ml mask key v = elim (Bool-cases (has_mask ml.masks mask)) [
  | inl e ↦ rw e (
    record {
      bounded = omega (arith, length-delete ml.masks mask, v.bounded);
      distinct = delete-Distinct ml.masks mask v.distinct;
      backed = elim v.backed [ inl a ↦ inl a | inr n ↦ inr (delete-nil ml.masks mask n) ];
    },
    refl,
    delete-has_mask ml.masks mask key v.distinct,
  )
  | inr e ↦ rw e (
    v,
    refl,
    sym (ap (λ l. has_mask l key) (delete-absent ml.masks mask e))
        ∙ delete-has_mask ml.masks mask key v.distinct,
  )
]

-- A mask that was added and is removed again leaves the masks that were there before, in their order.
pub masklist_del-add :
    (ml : Masklist) (mask : Bytes) (now : ℕ) (alloc_ok : Bool)
    → length mask ≤ 255
    → (masklist_add ml mask now alloc_ok).1 ≡ true
    → (masklist_del (masklist_add ml mask now alloc_ok).0 mask).0.masks ≡ ml.masks
unfolding masklist_add masklist_del
masklist_del-add ml mask now alloc_ok short h = elim (Bool-cases (has_mask ml.masks mask)) [
  | inl e ↦ absurd (ground (arith, e, h))
  | inr e ↦ elim (Bool-cases (leb chan_max_masklist (length ml.masks))) [
    | inl f ↦ absurd (ground (arith, e, f, h))
    | inr f ↦ elim (Bool-cases (not ml.allocated && not alloc_ok)) [
      | inl g ↦
          let no : (masklist_add ml mask now alloc_ok).1 ≡ false = rw (e, f, g) refl in
          absurd (ground (arith, no, h))
      | inr g ↦
          let new : Mask = record { mask = mask; set_at = now; set_by = [] } in
          rw (e, f, g, take_all 255 mask short)
            (rw (has_mask-append_self ml.masks new) (delete-append ml.masks new e))
    ]
  ]
]
