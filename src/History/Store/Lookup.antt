-- ===== src/History/Store/Lookup.antt =====
-- Lookups by key in a list of conversations that changes at one place.
use sekur_ircd.Base.{
  ℕ, ◌≡◌, ◌≢◌, refl, subst, inl, inr, Bool, List, [], ◌∷◌, ◌++◌, none, some, arith, if◌then◌else◌,
  Bool-cases, Bytes, All,
}
use sekur_ircd.Cstring.{str_eq, str_eq_iff, str_eq_ne}
use sekur_ircd.History.Buf.{
  Borrowed, HistBuf, hist_buf_add, hist_buf_resize, hist_buf_grow, hist_buf_store,
}
use sekur_ircd.History.Store.{find_buf, delete_buf, change_buf}

-- No two conversations share a key.
abbrev pub UniqueKeys : List HistBuf → Type 0
UniqueKeys [] = Unit
UniqueKeys (b ∷ bs) = All (λ c. c.key ≢ b.key) bs × UniqueKeys bs

pub hist_buf_add-key :
    (b : HistBuf) (cap : ℕ) (entry : Borrowed) (dup_ok grow_ok : Bool)
    → (hist_buf_add b cap entry dup_ok grow_ok).key ≡ b.key
unfolding hist_buf_add hist_buf_resize hist_buf_grow hist_buf_store
hist_buf_add-key b cap entry dup_ok grow_ok = ground arith

pub find_buf-key :
    (bs : List HistBuf) (key : Bytes) (b : HistBuf) → find_buf bs key ≡ some b → b.key ≡ key
unfolding find_buf
find_buf-key [] key b h = cc
find_buf-key (c ∷ bs) key b h = ground (arith, str_eq_iff c.key key, find_buf-key bs key b)

pub find-change :
    (bs : List HistBuf) (key : Bytes) (f : HistBuf → HistBuf) (b : HistBuf)
    → ((c : HistBuf) → (f c).key ≡ c.key)
    → find_buf bs key ≡ some b
    → find_buf (change_buf bs key f) key ≡ some (f b)
unfolding find_buf change_buf
find-change [] key f b same h = cc
find-change (c ∷ bs) key f b same h = ground (arith, same c, find-change bs key f b same)

pub find-change_other :
    (bs : List HistBuf) (key key' : Bytes) (f : HistBuf → HistBuf)
    → ((c : HistBuf) → (f c).key ≡ c.key)
    → key' ≢ key
    → find_buf (change_buf bs key f) key' ≡ find_buf bs key'
unfolding find_buf change_buf
find-change_other [] key key' f same n = refl
find-change_other (c ∷ bs) key key' f same n = ground (
  arith,
  same c,
  str_eq_iff c.key key,
  str_eq_iff c.key key',
  find-change_other bs key key' f same n,
)

pub find-append :
    (bs : List HistBuf) (b : HistBuf) (key : Bytes)
    → find_buf bs key ≡ none
    → find_buf (bs ++ b ∷ []) key ≡ (if str_eq b.key key then some b else none)
unfolding find_buf
find-append [] b key h = refl
find-append (c ∷ bs) b key h = ground (arith, find-append bs b key)

pub find-append_other :
    (bs : List HistBuf) (b : HistBuf) (key : Bytes)
    → b.key ≢ key
    → find_buf (bs ++ b ∷ []) key ≡ find_buf bs key
unfolding find_buf
find-append_other [] b key n = rw (str_eq_ne b.key key n)
find-append_other (c ∷ bs) b key n = ground (arith, find-append_other bs b key n)

pub find-delete_none :
    (bs : List HistBuf) (key key' : Bytes)
    → find_buf bs key ≡ none
    → find_buf (delete_buf bs key') key ≡ none
unfolding find_buf delete_buf
find-delete_none [] key key' h = refl
find-delete_none (c ∷ bs) key key' h = ground (arith, find-delete_none bs key key')

pub find-delete_other :
    (bs : List HistBuf) (key key' : Bytes)
    → key' ≢ key
    → find_buf (delete_buf bs key') key ≡ find_buf bs key
unfolding find_buf delete_buf
find-delete_other [] key key' n = refl
find-delete_other (c ∷ bs) key key' n =
    ground (arith, str_eq_iff c.key key, str_eq_iff c.key key', find-delete_other bs key key' n)

pub find_fresh :
    (bs : List HistBuf) (key : Bytes) → All (λ c. c.key ≢ key) bs → find_buf bs key ≡ none
unfolding find_buf
find_fresh [] key h = refl
find_fresh (c ∷ bs) key h = rw (str_eq_ne c.key key h.0) (find_fresh bs key h.1)

pub find-delete_self :
    (bs : List HistBuf) (key : Bytes) → UniqueKeys bs → find_buf (delete_buf bs key) key ≡ none
unfolding find_buf delete_buf
find-delete_self [] key u = refl
find-delete_self (c ∷ bs) key u = elim (Bool-cases (str_eq c.key key)) [
  | inl e ↦
      rw e
        (find_fresh bs key (subst (λ k. All (λ d. d.key ≢ k) bs) ((str_eq_iff c.key key).0 e) u.0))
  | inr e ↦ rw (e, find_buf, e) (find-delete_self bs key u.1)
]
