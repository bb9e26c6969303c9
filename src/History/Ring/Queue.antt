-- ===== src/History/Ring/Queue.antt =====
-- A ring is a queue of bounded length: `hist_buf_add` puts the entry behind the others and forgets
-- the oldest beyond `cap`.
use native.Mathlib.Numerals.{add-one}
use sekur_ircd.Base.{
  ℕ, suc, ◌-◌, ◌≤◌, ◌<◌, ◌≡◌, refl, sym, ap, subst, ◌∙◌, ◌⊎◌, inl, inr, true, false, Bool, List, [],
  ◌∷◌, ◌++◌, Option, some, arith, length, length-append, drop, if◌then◌else◌, eq→==, ne→==,
}
use sekur_ircd.History.Buf.{
  Entry, Borrowed, HistBuf, entry_dup, hist_buf_resize, hist_buf_grow, hist_buf_store, hist_buf_add,
  hist_buf_at,
}
use sekur_ircd.History.Ring.{
  Inv, table, table-eq, table-shift, contents, to_list, length-table, keep_last,
}
use sekur_ircd.History.Ring.Steps.{
  resized, resize-Inv, resize-contents, Grown, grow-Grown, grow_fails,
}
use sekur_ircd.History.Ring.Writes.{
  stored_flat, stored_round, flat_old, flat_new, stored_flat-Inv, round_old, round_new,
  stored_round-Inv,
}

pub drop_beyond {ℓ} : {A : Type ℓ} (k : ℕ) (xs : List A) → length xs ≤ k → keep_last k xs ≡ xs
drop_beyond k xs h = ap (λ j. drop j xs) {y = 0} (omega arith)

pub length-contents : (b : HistBuf) → Inv b → length (contents b) ≡ b.n
length-contents b v = length-table (hist_buf_at b) b.n v.written

module _ (b : HistBuf) (x : Entry) (v : Inv b) where
  contents_flat :
      b.n < b.alloc → contents (stored_flat b x) ≡ keep_last b.cap (contents b ++ x ∷ [])
  contents_flat room =
      ap (table (hist_buf_at (stored_flat b x))) (add-one b.n)
      ∙ ap (λ o. table (hist_buf_at (stored_flat b x)) b.n ++ to_list o) (flat_new b x v room)
      ∙ ap (λ l. l ++ x ∷ []) (table-eq _ (hist_buf_at b) b.n (flat_old b x v room))
      ∙ sym (
          drop_beyond b.cap (contents b ++ x ∷ [])
            (omega (arith, length-append (contents b) (x ∷ []), length-contents b v, v.bounded)))

  later : ℕ → Option Entry
  later i = hist_buf_at b (suc i)

  contents_tail : (m : ℕ) → b.n ≡ suc m → (y : Entry) × (contents b ≡ y ∷ table later m)
  unfolding later
  contents_tail m e =
      let (y, w) = v.written 0 (omega (arith, e)) in
      (
        y,
        ap (table (hist_buf_at b)) e
            ∙ table-shift (hist_buf_at b) m
            ∙ ap (λ o. to_list o ++ table later m) w,
      )

  contents_round :
      (m : ℕ)
      → b.n ≡ suc m
      → b.n ≡ b.cap
      → contents (stored_round b x) ≡ keep_last b.cap (contents b ++ x ∷ [])
  unfolding later
  contents_round m e full =
      let pos : 0 < b.cap = omega (arith, e, full) in
      let (y, w) = contents_tail m e in
      let size = length-append (table later m) (x ∷ []) in
      ap (table (hist_buf_at (stored_round b x))) e
      ∙ ap (λ o. table (hist_buf_at (stored_round b x)) m ++ to_list o)
          (round_new b x v full pos m (sym e))
      ∙ ap (λ l. l ++ x ∷ [])
          (table-eq (hist_buf_at (stored_round b x)) later m
            (λ i h. round_old b x v full pos i (omega (arith, e, h))))
      ∙ sym (
          ap (λ l. keep_last b.cap (l ++ x ∷ [])) w
          ∙ ap (λ j. drop j (y ∷ (table later m ++ x ∷ []))) {y = 1}
              (omega (arith, size, e, full, length-contents b v, ap length w)))

-- `hist_buf_store` on a ring with room, or full.
store-contents :
    (b : HistBuf) (x : Entry)
    → Inv b
    → 0 < b.cap
    → (b.n < b.alloc) ⊎ (b.n ≡ b.cap)
    → Inv (hist_buf_store b x)
      × (contents (hist_buf_store b x) ≡ keep_last b.cap (contents b ++ x ∷ []))
unfolding hist_buf_store
store-contents b x v pos (inl room) =
    rw (ne→== b.n b.cap (omega (arith, room, v.bounded)))
      (stored_flat-Inv b x v room, contents_flat b x v room)
store-contents b x v pos (inr full) = rw (eq→== b.n b.cap full) (
  stored_round-Inv b x v full pos,
  contents_round b x v (b.n - 1) (omega (arith, full, pos)) full,
)

Grown-contents : (b b' : HistBuf) → Grown b b' → contents b' ≡ contents b
Grown-contents b b' g =
    ap (table (hist_buf_at b')) g.same_n ∙ table-eq (hist_buf_at b') (hist_buf_at b) b.n g.same_at

resize-cap : (b : HistBuf) (cap : ℕ) → (hist_buf_resize b cap).cap ≡ cap
unfolding hist_buf_resize
resize-cap b cap = refl

-- The entries that `hist_buf_add` starts from.
abbrev pub kept : HistBuf → ℕ → List Entry
kept b cap = if resized b cap then [] else contents b

pub add_with_memory :
    (b : HistBuf) (cap : ℕ) (entry : Borrowed)
    → Inv b
    → 0 < cap
    → Inv (hist_buf_add b cap entry true true)
      × (contents (hist_buf_add b cap entry true true)
          ≡ keep_last cap (kept b cap ++ entry_dup entry ∷ []))
unfolding hist_buf_add
add_with_memory b cap entry v pos =
    let r = hist_buf_resize b cap in
    let (g, e, grown) = grow-Grown r (resize-Inv b cap v) in
    let s =
      store-contents g (entry_dup entry) grown.inv
        (omega (arith, pos, grown.same_cap, resize-cap b cap)) grown.room in
    let e' = subst (λ k. hist_buf_grow r k true ≡ some g) (resize-cap b cap) e in
    let same =
      ap (λ k. keep_last k (contents g ++ entry_dup entry ∷ [])) (grown.same_cap ∙ resize-cap b cap)
      ∙ ap (λ l. keep_last cap (l ++ entry_dup entry ∷ []))
          (Grown-contents r g grown ∙ resize-contents b cap v) in
    rw (ne→== cap 0 (omega arith), e') (s.0, s.1 ∙ same)

without_memory :
    (b : HistBuf) (cap : ℕ) (entry : Borrowed) (grow_ok : Bool)
    → Inv b
    → 0 < cap
    → Inv (hist_buf_add b cap entry false grow_ok)
      × (contents (hist_buf_add b cap entry false grow_ok) ≡ kept b cap)
unfolding hist_buf_add
without_memory b cap entry grow_ok v pos =
    rw (ne→== cap 0 (omega arith)) (resize-Inv b cap v, resize-contents b cap v)

no_growth :
    (b : HistBuf) (cap : ℕ) (entry : Borrowed)
    → 0 < cap
    → (hist_buf_add b cap entry true false ≡ hist_buf_add b cap entry false false)
      ⊎ (hist_buf_add b cap entry true false ≡ hist_buf_add b cap entry true true)
unfolding hist_buf_add
no_growth b cap entry pos = elim (grow_fails (hist_buf_resize b cap) cap) [
  | inl e ↦ inl (rw (ne→== cap 0 (omega arith), e))
  | inr e ↦ inr (rw (ne→== cap 0 (omega arith), e))
]

-- What an add may leave: the entry behind the others and the oldest beyond `cap` forgotten, or,
-- where memory was short, the others as they were.
abbrev pub Added : HistBuf → HistBuf → ℕ → Borrowed → Bool → Bool → Type 0
Added b b' cap entry dup_ok grow_ok =
    (contents b' ≡ keep_last cap (kept b cap ++ entry_dup entry ∷ []))
    ⊎ (((dup_ok ≡ false) ⊎ (grow_ok ≡ false)) × (contents b' ≡ kept b cap))

-- For a well-formed ring and a positive `cap`, and whatever the allocator answers, `hist_buf_add`
-- leaves a well-formed ring that holds the entries it had (none if the size changed) with the copied
-- entry behind them and only the last `cap` kept; only if an allocation failed may it hold just the
-- entries it had.
pub hist_buf_add-Added :
    (b : HistBuf) (cap : ℕ) (entry : Borrowed) (dup_ok grow_ok : Bool)
    → Inv b
    → 0 < cap
    → Inv (hist_buf_add b cap entry dup_ok grow_ok)
      × Added b (hist_buf_add b cap entry dup_ok grow_ok) cap entry dup_ok grow_ok
hist_buf_add-Added b cap entry false grow_ok v pos =
    let w = without_memory b cap entry grow_ok v pos in (w.0, inr (inl refl, w.1))
hist_buf_add-Added b cap entry true true v pos =
    let w = add_with_memory b cap entry v pos in (w.0, inl w.1)
hist_buf_add-Added b cap entry true false v pos = elim (no_growth b cap entry pos) [
  | inl e ↦ rw e (let w = without_memory b cap entry false v pos in (w.0, inr (inr refl, w.1)))
  | inr e ↦ rw e (let w = add_with_memory b cap entry v pos in (w.0, inl w.1))
]
