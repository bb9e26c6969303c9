-- ===== src/Channel/Cache/Lists.antt =====
-- What a cache is told of a change of a list: its generation.
use sekur_ircd.Base.{
  ℕ, ◌+◌, ◌%◌, ◌^◌, ◌≤◌, ◌≡◌, ◌⊎◌, refl, inl, inr, Bool, true, false, not, ◌&&◌, ◌||◌, List, [],
  ◌∷◌, ◌++◌, leb, Bytes, length, take, take_all, arith, Bool-cases, both, subst, sym, All,
  All-append, ap, if◌then◌else◌,
}
use sekur_ircd.Channel.Masklist.{
  Mask, Masklist, chan_max_masklist, has_mask, masklist_free, masklist_add, delete_mask,
  masklist_del, is_dynamic, next_gen, is_none_left,
}
use sekur_ircd.Channel.Masklist.Lookup.{delete-All}

-- The masks of a list that has no verdict which other channels decide.
abbrev pub Still : Mask → Type 0
Still m = is_dynamic m.mask ≡ false

-- A list of masks that may be set: it owns its arrays, and its mark is there while it has a `~j:` mask.
pub record Sound (Allowed : Bytes → Type 0) (ml : Masklist) : Type 0 where
  pub unallocated : ml.allocated ≡ false → ml.masks ≡ []
  pub set : All (λ m. Allowed m.mask) ml.masks
  pub still : ml.dynamic ≡ false → All Still ml.masks

-- The list is the same to a reader, or has the next generation.
abbrev pub Told : Masklist → Masklist → Type 0
Told ml after =
    ((after.masks ≡ ml.masks) × (after.gen ≡ ml.gen) × (after.dynamic ≡ ml.dynamic))
    ⊎ (after.gen ≡ (ml.gen + 1) % 2 ^ 32)

abbrev pub Step : (Bytes → Type 0) → Masklist → Masklist → Type 0
Step Allowed ml after = Sound Allowed after × Told ml after

kept : {Allowed : Bytes → Type 0} (ml : Masklist) → Sound Allowed ml → Step Allowed ml ml
kept ml s = (s, inl (refl, refl, refl))

freed :
    {Allowed : Bytes → Type 0} (ml : Masklist)
    → Sound Allowed ml
    → ml.allocated ≡ false
    → Step Allowed ml (masklist_free ml)
unfolding masklist_free
freed ml s e = (
  record { unallocated = λ h. refl; set = tt; still = λ h. tt },
  inl (sym (s.unallocated e), refl, refl),
)

appended :
    {Allowed : Bytes → Type 0} (ml : Masklist) (mask : Bytes) (now : ℕ)
    → Sound Allowed ml
    → Allowed mask
    → length mask ≤ 255
    → Step Allowed ml (record {
      allocated = true;
      masks = ml.masks ++ record { mask = take 255 mask; set_at = now; set_by = [] } ∷ [];
      gen = next_gen ml.gen;
      dynamic = is_dynamic mask || ml.dynamic;
    })
unfolding next_gen
appended {Allowed} ml mask now s ok short =
    let whole = take_all 255 mask short in
    (
      record {
        unallocated = λ h. absurd (ground (arith, h));
        set = All-append (λ m. Allowed m.mask) ml.masks _ s.set (subst Allowed (sym whole) ok, tt);
        still = λ h.
            let (still_mask, still_list) = neither (is_dynamic mask) ml.dynamic h in
            All-append Still ml.masks _ (s.still still_list)
              (subst (λ m. is_dynamic m ≡ false) (sym whole) still_mask, tt);
      },
      inr refl,
    )
  where
    neither : (a b : Bool) → (a || b) ≡ false → (a ≡ false) × (b ≡ false)
    neither true b h = absurd (ground (arith, h))
    neither false b h = (refl, h)

pub masklist_add-Step :
    {Allowed : Bytes → Type 0} (ml : Masklist) (mask : Bytes) (now : ℕ) (alloc_ok : Bool)
    → Sound Allowed ml
    → Allowed mask
    → length mask ≤ 255
    → Step Allowed ml (masklist_add ml mask now alloc_ok).0
unfolding masklist_add
masklist_add-Step {Allowed} ml mask now alloc_ok s ok short =
    elim (Bool-cases (has_mask ml.masks mask)) [
      | inl a ↦ rw a (kept ml s)
      | inr a ↦ elim (Bool-cases (leb chan_max_masklist (length ml.masks))) [
        | inl b ↦ rw (a, b) (kept ml s)
        | inr b ↦ elim (Bool-cases (not ml.allocated && not alloc_ok)) [
          | inl c ↦ rw (a, b, c) (freed ml s (unset ml.allocated (both (not ml.allocated) _ c).0))
          | inr c ↦ rw (a, b, c) (appended ml mask now s ok short)
        ]
      ]
    ]
  where
    unset : (b : Bool) → not b ≡ true → b ≡ false
    unset true h = absurd (ground (arith, h))
    unset false h = refl

none_left : (ms : List Mask) → is_none_left ms ≡ true → ms ≡ []
unfolding is_none_left
none_left [] h = refl
none_left (m ∷ ms) h = absurd (ground (arith, h))

pub masklist_del-Step :
    {Allowed : Bytes → Type 0} (ml : Masklist) (mask : Bytes)
    → Sound Allowed ml
    → Step Allowed ml (masklist_del ml mask).0
unfolding masklist_del next_gen
masklist_del-Step {Allowed} ml mask s = elim (Bool-cases (has_mask ml.masks mask)) [
  | inr a ↦ rw a (kept ml s)
  | inl a ↦ rw a (
    record {
      unallocated = λ h. ap (λ ms. delete_mask ms mask) (s.unallocated h);
      set = delete-All (λ m. Allowed m.mask) ml.masks mask s.set;
      still = left;
    },
    inr refl,
  )
]
  where
    left :
        (if is_none_left (delete_mask ml.masks mask) then false else ml.dynamic) ≡ false
        → All Still (delete_mask ml.masks mask)
    left h = elim (Bool-cases (is_none_left (delete_mask ml.masks mask))) [
      | inl e ↦ subst (All Still) (sym (none_left _ e)) tt
      | inr e ↦ delete-All Still ml.masks mask (s.still (rw e at h))
    ]
