-- ===== src/History/Ring/Remove.antt =====
-- `history_remove_msgid` on one ring: the newest entry with that msgid goes, the others keep their
-- order, and the ring is flat again.
use sekur_ircd.Base.{
  ℕ, zero, suc, ◌≤◌, ◌<◌, ◌≡◌, refl, sym, ap, subst, ◌∙◌, inl, inr, true, false, Bool, List, [],
  ◌∷◌, ◌++◌, Option, none, some, arith, length, length-append, length-drop, drop, if◌then◌else◌,
  ◌==◌, append_assoc, append-nil, Bool-cases, ltb, ltb→lt, ltb→le, Bytes, Option-cases, get_elem?,
}
use sekur_ircd.Cstring.{str_eq}
use sekur_ircd.History.Buf.{
  Entry, HistBuf, join, hist_buf_at, slot_at, laid_out, hist_buf_remove, find_index,
}
use sekur_ircd.History.Ring.{Inv, at_slot, wrap, contents, table, table-eq, table-shift, to_list}

-- The written slots of a list of slots.
abbrev compact : List (Option Entry) → List Entry
compact [] = []
compact (o ∷ os) = to_list o ++ compact os

compact-append : (xs ys : List (Option Entry)) → compact (xs ++ ys) ≡ compact xs ++ compact ys
compact-append [] ys = refl
compact-append (o ∷ xs) ys =
    ap (◌++◌ (to_list o)) (compact-append xs ys) ∙ sym (append_assoc (to_list o) _ _)

-- The entries of positions 0 … n - 1 but position `i`.
abbrev pub table_without : (ℕ → Option Entry) → ℕ → ℕ → List Entry
table_without f i = table (λ k. if k == i then none else f k)

slot_here : (b : HistBuf) → Inv b → (k : ℕ) → k < b.n → slot_at b k ≡ hist_buf_at b k
unfolding slot_at
slot_here b v k h = sym (at_slot b k h (omega (arith, v.slots, v.used)))

compact-laid_out :
    (b : HistBuf) (i k : ℕ)
    → Inv b
    → k ≤ b.n
    → compact (laid_out b i k) ≡ table_without (hist_buf_at b) i k
unfolding laid_out
compact-laid_out b i zero v h = refl
compact-laid_out b i (suc k) v h =
    compact-append (laid_out b i k) (if k == i then [] else slot_at b k ∷ [])
    ∙ ap (λ l. l ++ compact (if k == i then [] else slot_at b k ∷ []))
        (compact-laid_out b i k v (omega arith))
    ∙ ap (◌++◌ (table_without (hist_buf_at b) i k)) (last_one (k == i))
  where
    last_one :
        (t : Bool)
        → compact (if t then [] else slot_at b k ∷ [])
          ≡ to_list (if t then none else hist_buf_at b k)
    last_one true = refl
    last_one false = append-nil (to_list (slot_at b k)) ∙ ap to_list (slot_here b v k (omega arith))

table_front :
    (flat rest : List (Option Entry))
    → table (λ k. join (get_elem? (flat ++ rest) k)) (length flat) ≡ compact flat
table_front [] rest = refl
table_front (o ∷ flat) rest =
    table-shift (λ k. join (get_elem? (o ∷ (flat ++ rest)) k)) (length flat)
    ∙ ap (◌++◌ (to_list o)) (table_front flat rest)

length-laid_out : (b : HistBuf) (i k : ℕ) → length (laid_out b i k) ≤ k
unfolding laid_out
length-laid_out b i zero = omega arith
length-laid_out b i (suc k) = omega (
  arith,
  length-append (laid_out b i k) (if k == i then [] else slot_at b k ∷ []),
  length-laid_out b i k,
  at_most_one (k == i),
)
  where
    at_most_one : (t : Bool) → length (if t then [] else slot_at b k ∷ []) ≤ 1
    at_most_one true = omega arith
    at_most_one false = omega arith

-- The entries of a ring that was laid out flat.
flat-contents :
    (b : HistBuf)
    → b.head ≡ 0
    → b.n ≤ b.cap
    → b.n ≤ length b.e
    → contents b ≡ table (λ k. join (get_elem? b.e k)) b.n
flat-contents b z h l =
    table-eq (hist_buf_at b) (λ k. join (get_elem? b.e k)) b.n
      λ i k.
        at_slot b i k (omega arith)
        ∙ ap (λ j. join (get_elem? b.e j)) (wrap b.head i b.cap (omega arith) ∙ omega arith)

-- In a well-formed ring, a removal leaves the entries of all positions but `i`, in their order.
pub hist_buf_remove-contents :
    (b : HistBuf) (i : ℕ)
    → Inv b
    → contents (hist_buf_remove b i) ≡ table_without (hist_buf_at b) i b.n
unfolding hist_buf_remove
hist_buf_remove-contents b i v =
    let flat = laid_out b i b.n in
    let rest = drop (length flat) b.e in
    let size = length-laid_out b i b.n in
    flat-contents (record b { e = flat ++ rest; head = 0; n = length flat }) refl
      (omega (arith, size, v.used, v.bounded)) (omega (arith, length-append flat rest))
    ∙ table_front flat rest
    ∙ compact-laid_out b i b.n v (omega arith)

-- Every slot of the list is written.
abbrev Written : List (Option Entry) → Type 0
Written [] = Unit
Written (none ∷ os) = ⊥
Written (some x ∷ os) = Written os

Written-append : (xs ys : List (Option Entry)) → Written xs → Written ys → Written (xs ++ ys)
Written-append [] ys p q = q
Written-append (none ∷ xs) ys p q = absurd p
Written-append (some x ∷ xs) ys p q = Written-append xs ys p q

Written-at :
    (xs ys : List (Option Entry)) (i : ℕ)
    → Written xs
    → i < length xs
    → (x : Entry) × (join (get_elem? (xs ++ ys) i) ≡ some x)
Written-at [] ys i p h = absurd (omega arith)
Written-at (none ∷ xs) ys i p h = absurd p
Written-at (some x ∷ xs) ys zero p h = (x, refl)
Written-at (some x ∷ xs) ys (suc i) p h = Written-at xs ys i p (omega arith)

laid_out-Written : (b : HistBuf) (i k : ℕ) → Inv b → k ≤ b.n → Written (laid_out b i k)
unfolding laid_out
laid_out-Written b i zero v h = tt
laid_out-Written b i (suc k) v h =
    Written-append (laid_out b i k) (if k == i then [] else slot_at b k ∷ [])
      (laid_out-Written b i k v (omega arith)) (last_one (k == i))
  where
    filled : (o : Option Entry) → (x : Entry) × (o ≡ some x) → Written (o ∷ [])
    filled none w = let e = w.1 in cc
    filled (some x) w = tt

    last_one : (t : Bool) → Written (if t then [] else slot_at b k ∷ [])
    last_one true = tt
    last_one false =
        let (x, w) = v.written k (omega arith) in
        filled (slot_at b k) (x, slot_here b v k (omega arith) ∙ w)

-- A removal keeps a ring well-formed, whatever the position.
pub hist_buf_remove-Inv : (b : HistBuf) (i : ℕ) → Inv b → Inv (hist_buf_remove b i)
unfolding hist_buf_remove
hist_buf_remove-Inv b i v = record {
  slots =
      omega (arith, length-append flat rest, length-drop (length flat) b.e, size, v.slots, v.used);
  used = omega (arith, size, v.used);
  bounded = v.bounded;
  flat = inl refl;
  written = λ k h.
      let (x, w) = Written-at flat rest k (laid_out-Written b i b.n v (omega arith)) h in
      (
        x,
        at_slot b' k h (omega (arith, length-append flat rest))
            ∙ ap (λ j. join (get_elem? (flat ++ rest) j))
                (wrap 0 k b.cap (omega (arith, size, v.used, v.bounded)) ∙ omega arith)
            ∙ w,
      );
}
  where
    flat : List (Option Entry)
    flat = laid_out b i b.n

    rest : List (Option Entry)
    rest = drop (length flat) b.e

    size : length flat ≤ b.n
    size = length-laid_out b i b.n

    b' : HistBuf
    b' = record b { e = flat ++ rest; head = 0; n = length flat }

-- Position `i` holds an entry with this msgid.
abbrev pub Holds : HistBuf → Bytes → ℕ → Type 0
Holds b msgid i = (x : Entry) × (hist_buf_at b i ≡ some x) × (str_eq x.msgid msgid ≡ true)

-- What a search through positions 0 … n - 1 found: the newest that holds the msgid, or none does.
abbrev pub Newest : HistBuf → Bytes → ℕ → Option ℕ → Type 0
Newest b msgid n none = (j : ℕ) → j < n → ¬ Holds b msgid j
Newest b msgid n (some i) =
    (i < n) × Holds b msgid i × ((j : ℕ) → i < j → j < n → ¬ Holds b msgid j)

Newest-older :
    (b : HistBuf) (msgid : Bytes) (n : ℕ) (r : Option ℕ)
    → ¬ Holds b msgid n
    → Newest b msgid n r
    → Newest b msgid (suc n) r
Newest-older b msgid n none no_hold w = λ j h. elim (Bool-cases (ltb j n)) [
  | inl k ↦ w j (ltb→lt j n k)
  | inr k ↦ subst (λ i. ¬ Holds b msgid i) (omega (arith, ltb→le j n k)) no_hold
]
Newest-older b msgid n (some i) no_hold w = (
  omega (arith, w.0),
  w.1,
  λ j h l. elim (Bool-cases (ltb j n)) [
    | inl k ↦ w.2 j h (ltb→lt j n k)
    | inr k ↦ subst (λ i. ¬ Holds b msgid i) (omega (arith, ltb→le j n k)) no_hold
  ],
)

find_none :
    (b : HistBuf) (msgid : Bytes) (n : ℕ)
    → hist_buf_at b n ≡ none
    → find_index b msgid (suc n) ≡ find_index b msgid n
unfolding find_index
find_none b msgid n e = rw (e, find_index)

find_some :
    (b : HistBuf) (msgid : Bytes) (n : ℕ) (x : Entry)
    → hist_buf_at b n ≡ some x
    → find_index b msgid (suc n) ≡ (if str_eq x.msgid msgid then some n else find_index b msgid n)
unfolding find_index
find_some b msgid n x e = rw (e, find_index)

one_entry :
    (b : HistBuf) (msgid : Bytes) (n : ℕ) (x : Entry)
    → hist_buf_at b n ≡ some x
    → str_eq x.msgid msgid ≡ false
    → ¬ Holds b msgid n
one_entry b msgid n x e f (y, e', t) = ground (arith, e, e', f, t)

-- The search from the newest entry down finds the newest position that holds the msgid, and finds
-- nothing exactly if no position does.
pub find_index-Newest :
    (b : HistBuf) (msgid : Bytes) (n : ℕ) → Newest b msgid n (find_index b msgid n)
unfolding find_index
find_index-Newest b msgid zero = λ j h. absurd (omega arith)
find_index-Newest b msgid (suc n) = elim (Option-cases (hist_buf_at b n)) [
  | inl e ↦ subst (Newest b msgid (suc n)) (sym (find_none b msgid n e)) (
      Newest-older b msgid n (find_index b msgid n) (λ w. let f = w.1 in cc)
        (find_index-Newest b msgid n))
  | inr (x, e) ↦ elim (Bool-cases (str_eq x.msgid msgid)) [
    | inl t ↦
        subst (Newest b msgid (suc n))
          (sym (find_some b msgid n x e ∙ ap (λ k. if k then some n else find_index b msgid n) t))
          (omega arith, (x, e, t), λ j h l. absurd (omega arith))
    | inr t ↦
        subst (Newest b msgid (suc n))
          (sym (find_some b msgid n x e ∙ ap (λ k. if k then some n else find_index b msgid n) t))
          (Newest-older b msgid n (find_index b msgid n) (one_entry b msgid n x e t)
            (find_index-Newest b msgid n))
  ]
]
