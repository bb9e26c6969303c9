-- ===== src/History/Ring/Steps.antt =====
-- The three steps of `hist_buf_add`: start over at a changed size, grow, store.
use sekur_ircd.Base.{
  ℕ, zero, suc, ◌-◌, ◌≤◌, ◌<◌, ◌≡◌, refl, sym, ap, subst, ◌∙◌, ◌⊎◌, inl, inr, true, false, not,
  ◌&&◌, Bool, List, [], ◌∷◌, ◌++◌, Option, none, some, arith, length, length-append, get_elem?,
  Bool-cases, if◌then◌else◌, ◌==◌, ltb, ==→eq, ==→ne, ltb→lt, ltb→le,
}
use sekur_ircd.History.Buf.{
  Entry, HistBuf, is_null, join, unwritten, grown_alloc, hist_buf_resize, hist_buf_grow,
  hist_buf_at,
}
use sekur_ircd.History.Ring.{Inv, at_slot, wrap, table, contents}

-- The buffer was made for another size, and the ring starts over.
abbrev pub resized : HistBuf → ℕ → Bool
resized b cap = not (is_null b.e) && not (b.cap == cap)

null-length : (xs : List (Option Entry)) → is_null xs ≡ true → length xs ≡ 0
null-length [] h = refl
null-length (x ∷ xs) h = cc

-- An empty ring is well-formed at every size.
empty-Inv : (b : HistBuf) (cap : ℕ) → Inv b → b.n ≡ 0 → b.alloc ≡ 0 → Inv (record b { cap = cap })
empty-Inv b cap v n a = record {
  slots = v.slots;
  used = v.used;
  bounded = omega arith;
  flat = inl (elim v.flat [ inl z ↦ z | inr f ↦ absurd (omega (arith, f.0, f.1, v.bounded)) ]);
  written = λ i h. absurd (omega arith);
}

-- Three ways into the new size: cleared, nothing there yet, or the size is the old one.
resize_cases :
    (b : HistBuf) (cap : ℕ)
    → Inv b
    → (resized b cap ≡ true)
      ⊎ ((resized b cap ≡ false) × (((b.n ≡ 0) × (b.alloc ≡ 0)) ⊎ (b.cap ≡ cap)))
resize_cases b cap v = elim (Bool-cases (is_null b.e)) [
  | inl e ↦
      let l = null-length b.e e in
      inr (rw e, inl (omega (arith, l, v.slots, v.used), omega (arith, l, v.slots)))
  | inr e ↦ elim (Bool-cases (b.cap == cap)) [
    | inl c ↦ inr (rw (e, c), inr (==→eq b.cap cap c))
    | inr c ↦ inl (rw (e, c))
  ]
]

abbrev cleared : HistBuf → ℕ → HistBuf
cleared b cap = record b { cap = cap; alloc = 0; head = 0; n = 0; e = [] }

pub resize-Inv : (b : HistBuf) (cap : ℕ) → Inv b → Inv (hist_buf_resize b cap)
unfolding hist_buf_resize
resize-Inv b cap v = elim (resize_cases b cap v) [
  | inl e ↦ rw e (record {
    slots = refl;
    used = omega arith;
    bounded = omega arith;
    flat = inl refl;
    written = λ i h. absurd (omega arith);
  })
  | inr (e, inl (n, a)) ↦ rw e (empty-Inv b cap v n a)
  | inr (e, inr c) ↦ rw e (subst (λ k. Inv (record b { cap = k })) c v)
]

pub resize-contents :
    (b : HistBuf) (cap : ℕ)
    → Inv b
    → contents (hist_buf_resize b cap) ≡ (if resized b cap then [] else contents b)
unfolding hist_buf_resize
resize-contents b cap v = elim (resize_cases b cap v) [
  | inl e ↦ rw e
  | inr (e, inl (n, a)) ↦
      rw e
        (ap (table (hist_buf_at (record b { cap = cap }))) n ∙ sym (ap (table (hist_buf_at b)) n))
  | inr (e, inr c) ↦ rw e (ap (λ k. contents (record b { cap = k })) (sym c))
]

length-unwritten : (n : ℕ) → length (unwritten n) ≡ n
length-unwritten zero = refl
length-unwritten (suc n) = ap suc (length-unwritten n)

get_elem?-append_left :
    (xs ys : List (Option Entry)) (i : ℕ) → i < length xs → get_elem? (xs ++ ys) i ≡ get_elem? xs i
get_elem?-append_left [] ys i h = absurd (omega arith)
get_elem?-append_left (x ∷ xs) ys zero h = refl
get_elem?-append_left (x ∷ xs) ys (suc i) h = get_elem?-append_left xs ys i (omega arith)

grown_alloc_bounds :
    (alloc cap : ℕ) → alloc < cap → (alloc < grown_alloc alloc cap) × (grown_alloc alloc cap ≤ cap)
unfolding grown_alloc
grown_alloc_bounds alloc cap h = ground arith

-- Positions of a flat ring are slots.
at_flat :
    (b : HistBuf) (i : ℕ)
    → b.head ≡ 0
    → i < b.n
    → b.n ≤ b.cap
    → b.n ≤ length b.e
    → hist_buf_at b i ≡ join (get_elem? b.e i)
at_flat b i z h k l =
    at_slot b i h (omega arith)
    ∙ ap (λ j. join (get_elem? b.e j)) (wrap b.head i b.cap (omega arith) ∙ omega arith)

-- More slots behind the old ones: the entries stay where they are.
grown-contents :
    (b : HistBuf) (extra : List (Option Entry)) (alloc : ℕ)
    → Inv b
    → b.head ≡ 0
    → (i : ℕ) → i < b.n
    → hist_buf_at (record b { e = b.e ++ extra; alloc = alloc }) i ≡ hist_buf_at b i
grown-contents b extra alloc v z i h =
    let b' = record b { e = b.e ++ extra; alloc = alloc } in
    let l = length-append b.e extra in
    at_flat b' i z h (omega (arith, v.used, v.bounded)) (omega (arith, l, v.slots, v.used))
    ∙ ap join (get_elem?-append_left b.e extra i (omega (arith, v.slots, v.used)))
    ∙ sym (at_flat b i z h (omega (arith, v.used, v.bounded)) (omega (arith, v.slots, v.used)))

-- A ring with a free slot, or full at its cap, holding the entries of `b`.
pub record Grown (b b' : HistBuf) : Type 0 where
  pub inv : Inv b'
  pub same_cap : b'.cap ≡ b.cap
  pub same_n : b'.n ≡ b.n
  pub same_at : (i : ℕ) → i < b.n → hist_buf_at b' i ≡ hist_buf_at b i
  pub room : (b'.n < b'.alloc) ⊎ (b'.n ≡ b'.cap)

Grown-here : (b : HistBuf) → Inv b → (b.n < b.alloc) ⊎ (b.n ≡ b.cap) → Grown b b
Grown-here b v r = record {
  inv = v;
  same_cap = refl;
  same_n = refl;
  same_at = λ i h. refl;
  room = r;
}

abbrev doubled : HistBuf → HistBuf
doubled b = record b {
  e = b.e ++ unwritten (grown_alloc b.alloc b.cap - b.alloc);
  alloc = grown_alloc b.alloc b.cap;
}

doubled-Grown : (b : HistBuf) → Inv b → b.n ≡ b.alloc → b.alloc < b.cap → Grown b (doubled b)
doubled-Grown b v e h = record {
  inv = record {
    slots =
        omega (arith, length-append b.e (unwritten extra), length-unwritten extra, v.slots, size.0);
    used = omega (arith, size.0, v.used);
    bounded = size.1;
    flat = inl z;
    written =
        λ i k. let (x, w) = v.written i k in (x, grown-contents b (unwritten extra) _ v z i k ∙ w);
  };
  same_cap = refl;
  same_n = refl;
  same_at = grown-contents b (unwritten extra) _ v z;
  room = inl (omega (arith, e, size.0));
}
  where
    size : (b.alloc < grown_alloc b.alloc b.cap) × (grown_alloc b.alloc b.cap ≤ b.cap)
    size = grown_alloc_bounds b.alloc b.cap h

    extra : ℕ
    extra = grown_alloc b.alloc b.cap - b.alloc

    z : b.head ≡ 0
    z = elim v.flat [ inl y ↦ y | inr f ↦ absurd (omega (arith, f.0, e, h)) ]

-- With memory, a ring that must grow does.
pub grow-Grown :
    (b : HistBuf) → Inv b → (b' : HistBuf) × (hist_buf_grow b b.cap true ≡ some b') × Grown b b'
unfolding hist_buf_grow
grow-Grown b v = elim (Bool-cases (b.n == b.alloc)) [
  | inl e ↦ elim (Bool-cases (ltb b.alloc b.cap)) [
    | inl l ↦ (doubled b, rw (e, l), doubled-Grown b v (==→eq _ _ e) (ltb→lt _ _ l))
    | inr l ↦ (
      b,
      rw (e, l),
      Grown-here b v (inr (omega (arith, ==→eq b.n b.alloc e, ltb→le b.alloc b.cap l, v.bounded))),
    )
  ]
  | inr e ↦ (b, rw e, Grown-here b v (inl (omega (arith, ==→ne b.n b.alloc e, v.used))))
]

-- Without memory nothing changes, or there was a free slot all the same.
pub grow_fails :
    (b : HistBuf) (cap : ℕ)
    → (hist_buf_grow b cap false ≡ none) ⊎ (hist_buf_grow b cap false ≡ hist_buf_grow b cap true)
unfolding hist_buf_grow
grow_fails b cap = elim (Bool-cases (b.n == b.alloc && ltb b.alloc cap)) [
  | inl e ↦ inl (rw e)
  | inr e ↦ inr (rw e)
]
