-- ===== src/History/Store/Adds.antt =====
-- Conversations are found again: `history_get` after an add and after a rename.
use sekur_ircd.Base.{
  take_all, ℕ, ◌≤◌, ◌<◌, ◌≡◌, ◌≢◌, refl, sym, ap, subst, ◌∙◌, inl, inr, true, false, List, [], ◌∷◌,
  ◌++◌, none, some, arith, length, if◌then◌else◌, leb, Bool-cases, Option-cases, Bytes, All,
}
use sekur_ircd.Cstring.{str_eq, str_eq_iff, str_eq_ne, ne-str_eq}
use sekur_ircd.History.Buf.{Borrowed, HistBuf, new_buf, hist_buf_add}
use sekur_ircd.History.Store.{
  Histories, Memory, hist_max_buffers, find_buf, delete_buf, change_buf, history_get, oldest_from,
  evict_oldest, buf_key, history_add, history_rename,
}
use sekur_ircd.History.Store.Lookup.{
  UniqueKeys, hist_buf_add-key, find-delete_other, find-change, find-change_other, find-append,
  find-append_other, find-delete_none, find-delete_self,
}

find-evict :
    (bs : List HistBuf) (key : Bytes)
    → find_buf bs key ≡ none
    → find_buf (evict_oldest bs) key ≡ none
unfolding evict_oldest
find-evict [] key h = h
find-evict (b ∷ bs) key h = find-delete_none (b ∷ bs) key (oldest_from b bs).key h

not_full : {n : ℕ} → n < hist_max_buffers → leb hist_max_buffers n ≡ false
not_full h = ground arith

module _ (srv : Histories) (key : Bytes) (cap : ℕ) (entry : Borrowed) (mem : Memory) where
  abbrev pub added : HistBuf → HistBuf
  added b = hist_buf_add b cap entry mem.dup_ok mem.grow_ok

  abbrev pub room : List HistBuf
  room = if leb hist_max_buffers (length srv.history) then evict_oldest srv.history else srv.history

  added_key : (b : HistBuf) → (added b).key ≡ b.key
  added_key b = hist_buf_add-key b cap entry mem.dup_ok mem.grow_ok

  find-room : find_buf srv.history key ≡ none → find_buf room key ≡ none
  find-room h = elim (Bool-cases (leb hist_max_buffers (length srv.history))) [
    | inl e ↦ rw e (find-evict srv.history key h)
    | inr e ↦ rw e h
  ]

  -- The conversation that an add goes to: the one kept under the key, or a fresh one.
  abbrev pub target : HistBuf
  target = elim (history_get srv key) [ some b ↦ b | none ↦ new_buf key ]

  target_found : (b : HistBuf) → find_buf srv.history key ≡ some b → target ≡ b
  unfolding history_get
  target_found b e = rw (e, target)

  target_none : find_buf srv.history key ≡ none → target ≡ new_buf key
  unfolding history_get
  target_none e = rw (e, target)

  pub add_found :
      (b : HistBuf)
      → find_buf srv.history key ≡ some b
      → (history_add srv key cap entry mem).history ≡ change_buf srv.history key added
  unfolding history_add
  add_found b e = rw (e, history_add)

  pub add_none :
      find_buf srv.history key ≡ none
      → mem.buf_ok ≡ true
      → (history_add srv key cap entry mem).history ≡ room ++ added (new_buf (buf_key key)) ∷ []
  unfolding history_add
  add_none e ok = rw (e, ok, history_add)

  pub add_no_memory :
      find_buf srv.history key ≡ none
      → mem.buf_ok ≡ false
      → (history_add srv key cap entry mem).history ≡ room
  unfolding history_add
  add_no_memory e ok = rw (e, ok, history_add)

  -- After an add under a key of at most 159 bytes, with memory for a new buffer, that key leads to the
  -- conversation it led to before (or a fresh one) with the entry added.
  pub history_get-add :
      length key ≤ 159
      → mem.buf_ok ≡ true
      → history_get (history_add srv key cap entry mem) key ≡ some (added target)
  unfolding history_get
  history_get-add short ok = elim (Option-cases (find_buf srv.history key)) [
    | inl e ↦
        let same = ap new_buf (take_all 159 key short) in
        let own = added_key (new_buf key) in
        ap (λ l. find_buf l key) (add_none e ok ∙ ap (λ b. room ++ added b ∷ []) same)
        ∙ find-append room (added (new_buf key)) key (find-room e)
        ∙ ap (λ t. if t then some (added (new_buf key)) else none) ((str_eq_iff _ key).1 own)
        ∙ ap (λ b. some (added b)) (sym (target_none e))
    | inr (b, e) ↦
        ap (λ l. find_buf l key) (add_found b e)
        ∙ find-change srv.history key added b added_key e
        ∙ ap (λ c. some (added c)) (sym (target_found b e))
  ]

  -- After an add under a key of at most 159 bytes, with memory for a new buffer and fewer than the most
  -- conversations kept, every key other than that one leads where it led before the add.
  pub history_get-add_other :
      (key' : Bytes)
      → length key ≤ 159
      → mem.buf_ok ≡ true
      → key' ≢ key
      → length srv.history < hist_max_buffers
      → history_get (history_add srv key cap entry mem) key' ≡ history_get srv key'
  unfolding history_get
  history_get-add_other key' short ok n few = elim (Option-cases (find_buf srv.history key)) [
    | inl e ↦
        let fresh = added (new_buf (buf_key key)) in
        let own = added_key (new_buf (buf_key key)) ∙ take_all 159 key short in
        ap (λ l. find_buf l key') (add_none e ok)
        ∙ find-append_other room fresh key' (λ h. n (sym h ∙ own))
        ∙ ap (λ t. find_buf (if t then evict_oldest srv.history else srv.history) key')
            (not_full few)
    | inr (b, e) ↦
        ap (λ l. find_buf l key') (add_found b e)
        ∙ find-change_other srv.history key key' added added_key n
  ]

delete-All :
    (P : HistBuf → Type 0) (bs : List HistBuf) (key : Bytes) → All P bs → All P (delete_buf bs key)
unfolding delete_buf
delete-All P [] key h = tt
delete-All P (b ∷ bs) key h = elim (Bool-cases (str_eq b.key key)) [
  | inl e ↦ rw e h.1
  | inr e ↦ rw e (h.0, delete-All P bs key h.1)
]

delete-UniqueKeys :
    (bs : List HistBuf) (key : Bytes) → UniqueKeys bs → UniqueKeys (delete_buf bs key)
unfolding delete_buf
delete-UniqueKeys [] key u = tt
delete-UniqueKeys (b ∷ bs) key u = elim (Bool-cases (str_eq b.key key)) [
  | inl e ↦ rw e u.1
  | inr e ↦ rw e (delete-All (λ c. c.key ≢ b.key) bs key u.0, delete-UniqueKeys bs key u.1)
]

rename_found :
    (srv : Histories) (ok nk : Bytes) (b : HistBuf)
    → UniqueKeys srv.history
    → length nk ≤ 159
    → ok ≢ nk
    → find_buf srv.history ok ≡ some b
    → (history_rename srv ok nk).history
      ≡ delete_buf (delete_buf srv.history nk) ok ++ record b { key = nk } ∷ []
unfolding history_rename
rename_found srv ok nk b u short n e =
    rw (e, str_eq_ne ok nk n, take_all 159 nk short, history_rename)

-- Under unique keys, a rename moves a conversation: the new name leads to the old one's, the old name
-- to nothing, and every other key where it led before.
pub history_get-rename :
    (srv : Histories) (ok nk key : Bytes) (b : HistBuf)
    → UniqueKeys srv.history
    → length nk ≤ 159
    → ok ≢ nk
    → history_get srv ok ≡ some b
    → history_get (history_rename srv ok nk) key ≡ (
        if str_eq nk key
        then some (record b { key = nk })
        else if str_eq ok key
        then none
        else history_get srv key)
unfolding history_get
history_get-rename srv ok nk key b u short n e =
    let without = delete_buf srv.history nk in
    let kept = delete_buf without ok in
    let moved = record b { key = nk } in
    ap (λ l. find_buf l key) (rename_found srv ok nk b u short n e)
    ∙ elim (Bool-cases (str_eq nk key)) [
      | inl t ↦
          let same = (str_eq_iff nk key).0 t in
          find-append kept moved key (
            subst (λ k. find_buf kept k ≡ none) same
              (find-delete_none without nk ok (find-delete_self srv.history nk u)))
          ∙ rw t refl
      | inr f ↦
          let other = ne-str_eq nk key f in
          find-append_other kept moved key other ∙ elim (Bool-cases (str_eq ok key)) [
            | inl t ↦
                let same = (str_eq_iff ok key).0 t in
                subst (λ k. find_buf kept k ≡ none) same
                  (find-delete_self without ok (delete-UniqueKeys srv.history nk u))
                ∙ rw (f, t) refl
            | inr g ↦
                find-delete_other without key ok (ne-str_eq ok key g)
                ∙ find-delete_other srv.history key nk other
                ∙ rw (f, g) refl
          ]
    ]
