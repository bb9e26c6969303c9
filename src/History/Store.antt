-- ===== src/History/Store.antt =====
-- src/history.c: the store of conversations, a part of `server_t`.
pub mod Lookup
pub mod Adds
pub mod Evict
use sekur_ircd.Base.{
  ℕ, zero, suc, ◌+◌, ◌-◌, ◌*◌, ◌%◌, Bool, true, false, not, ◌&&◌, ◌||◌, List, [], ◌∷◌, ◌++◌, Option,
  map, none, some, ltb, leb, ◌==◌, if◌then◌else◌, Bytes, take, drop, get_elem?, set, length,
}
use sekur_ircd.Cstring.{str_eq, tolower}
use sekur_ircd.History.Buf.{
  Entry, Borrowed, HistBuf, new_buf, hist_buf_add, hist_buf_at, hist_buf_remove, find_index,
}

-- HIST_MAX_BUFFERS
abbrev pub hist_max_buffers : ℕ
hist_max_buffers = 1000

-- The part of `server_t` that this file works on; `history` in uthash's order of insertion.
pub record Histories : Type 0 where
  pub history : List HistBuf
  pub history_dirty : Bool

-- HASH_FIND_STR
unfoldable pub find_buf : List HistBuf → Bytes → Option HistBuf
find_buf [] key = none
find_buf (b ∷ bs) key = if str_eq b.key key then some b else find_buf bs key

-- HASH_DEL of the buffer with this key
unfoldable pub delete_buf : List HistBuf → Bytes → List HistBuf
delete_buf [] key = []
delete_buf (b ∷ bs) key = if str_eq b.key key then bs else b ∷ delete_buf bs key

-- A change of the buffer with this key, where it stands
unfoldable pub change_buf : List HistBuf → Bytes → (HistBuf → HistBuf) → List HistBuf
change_buf [] key f = []
change_buf (b ∷ bs) key f = if str_eq b.key key then f b ∷ bs else b ∷ change_buf bs key f

unfoldable pub history_get : Histories → Bytes → Option HistBuf
unfolding find_buf
history_get srv key = find_buf srv.history key

-- `if (!oldest || cur->last_ms < oldest->last_ms) oldest = cur`, over the rest of the buffers
unfoldable pub oldest_from : HistBuf → List HistBuf → HistBuf
oldest_from oldest [] = oldest
oldest_from oldest (cur ∷ bs) =
    oldest_from (if ltb cur.last_ms oldest.last_ms then cur else oldest) bs

-- Drops the conversation that has been quiet the longest.
unfoldable pub evict_oldest : List HistBuf → List HistBuf
unfolding oldest_from delete_buf
evict_oldest [] = []
evict_oldest (b ∷ bs) = delete_buf (b ∷ bs) (oldest_from b bs).key

-- What the allocator answers in `history_add`: calloc of a buffer, entry_dup and realloc.
pub record Memory : Type 0 where
  pub buf_ok : Bool
  pub dup_ok : Bool
  pub grow_ok : Bool

-- `snprintf(b->key, sizeof b->key, "%s", key)`
abbrev pub buf_key : Bytes → Bytes
buf_key = take 159

unfoldable pub history_add : Histories → Bytes → ℕ → Borrowed → Memory → Histories
unfolding history_get evict_oldest change_buf
history_add srv key cap entry mem =
    let add = λ (b : HistBuf). hist_buf_add b cap entry mem.dup_ok mem.grow_ok in
    let room =
      if leb hist_max_buffers (length srv.history) then evict_oldest srv.history else srv.history in
    elim (history_get srv key) [
      | some b ↦ record { history = change_buf srv.history key add; history_dirty = true }
      | none ↦
          if mem.buf_ok
          then record { history = room ++ add (new_buf (buf_key key)) ∷ []; history_dirty = true }
          else record srv { history = room }
    ]

-- `history_rename_channel` on the two casefolded keys; `b == stale` means that they are equal.
unfoldable pub history_rename : Histories → Bytes → Bytes → Histories
unfolding history_get delete_buf
history_rename srv ok nk = elim (history_get srv ok) [
  | none ↦ srv
  | some b ↦ if str_eq ok nk then srv else record {
    history = delete_buf (delete_buf srv.history nk) ok ++ record b { key = buf_key nk } ∷ [];
    history_dirty = true;
  }
]

unfoldable pub history_find_msgid : Histories → Bytes → Bytes → Option Entry
unfolding history_get find_index hist_buf_at
history_find_msgid srv key msgid = elim (history_get srv key) [
  | none ↦ none
  | some b ↦ elim (find_index b msgid b.n) [ none ↦ none | some i ↦ hist_buf_at b i ]
]

-- The new store, and 1 (`true`) if an entry was dropped; `flat_ok` is malloc's answer.
unfoldable pub history_remove_msgid : Histories → Bytes → Bytes → Bool → Histories × Bool
unfolding history_get find_index hist_buf_remove change_buf
history_remove_msgid srv key msgid flat_ok = elim (history_get srv key) [
  | none ↦ (srv, false)
  | some b ↦ elim (find_index b msgid b.n) [
    | none ↦ (srv, false)
    | some i ↦
        if flat_ok
        then (
          record {
            history = change_buf srv.history key (λ c. hist_buf_remove c i);
            history_dirty = true;
          },
          true,
        )
        else (srv, false)
  ]
]
