-- ===== src/History/Buf.antt =====
-- src/history.c and src/history.h: one conversation's ring of messages, `hist_buf_t`. Times and
-- counters are natural numbers, as the callers pass them.
use sekur_ircd.Base.{
  ℕ, zero, suc, ◌+◌, ◌-◌, ◌*◌, ◌%◌, Bool, true, false, not, ◌&&◌, ◌||◌, List, [], ◌∷◌, ◌++◌, Option,
  none, some, ltb, leb, ◌==◌, if◌then◌else◌, Bytes, take, drop, get_elem?, set, length,
}
use sekur_ircd.Cstring.{str_eq}

-- `hist_entry_t` as the ring stores it: every string is present.
pub record Entry : Type 0 where
  pub ms : ℕ
  pub msgid : Bytes
  pub sender : Bytes
  pub account : Bytes
  pub verb : Bytes
  pub target : Bytes
  pub text : Bytes

-- `hist_entry_t` as a caller lends it: `none` is NULL.
pub record Borrowed : Type 0 where
  pub ms : ℕ
  pub msgid : Option Bytes
  pub sender : Option Bytes
  pub account : Option Bytes
  pub verb : Option Bytes
  pub target : Option Bytes
  pub text : Option Bytes

-- A slot of `e` that was allocated and not yet written is `none`; `e` is NULL exactly if it is [].
pub record HistBuf : Type 0 where
  pub key : Bytes
  pub cap : ℕ
  pub alloc : ℕ
  pub head : ℕ
  pub n : ℕ
  pub e : List (Option Entry)
  pub last_ms : ℕ

-- One string of `entry_dup`: NULL is the empty string, and `strnlen` clips to HIST_FIELD_MAX.
unfoldable pub clip_field : ℕ → Option Bytes → Bytes
clip_field most none = []
clip_field most (some s) = take most s

unfoldable pub entry_dup : Borrowed → Entry
unfolding clip_field
entry_dup src = record {
  ms = src.ms;
  msgid = clip_field 47 src.msgid;
  sender = clip_field 159 src.sender;
  account = clip_field 31 src.account;
  verb = clip_field 7 src.verb;
  target = clip_field 71 src.target;
  text = clip_field 4200 src.text;
}

abbrev pub is_null {ℓ} : {A : Type ℓ} → List A → Bool
is_null [] = true
is_null (x ∷ xs) = false

unfoldable pub hist_buf_clear : HistBuf → HistBuf
hist_buf_clear b = record b { e = []; alloc = 0; head = 0; n = 0 }

abbrev pub unwritten : ℕ → List (Option Entry)
unwritten zero = []
unwritten (suc n) = none ∷ unwritten n

-- The slots after doubling, at most `cap`.
unfoldable pub grown_alloc : ℕ → ℕ → ℕ
grown_alloc alloc cap =
    let na = if alloc == 0 then 4 else alloc * 2 in if ltb cap na then cap else na

-- A changed `history_size` starts the ring over; then `b->cap = cap`.
unfoldable pub hist_buf_resize : HistBuf → ℕ → HistBuf
unfolding hist_buf_clear
hist_buf_resize b cap =
    let kept = if not (is_null b.e) && not (b.cap == cap) then hist_buf_clear b else b in
    record kept { cap = cap }

-- `none` is a failed `realloc`.
unfoldable pub hist_buf_grow : HistBuf → ℕ → Bool → Option HistBuf
unfolding grown_alloc
hist_buf_grow b cap grow_ok =
    if b.n == b.alloc && ltb b.alloc cap
    then (if grow_ok
        then some (record b {
          e = b.e ++ unwritten (grown_alloc b.alloc cap - b.alloc);
          alloc = grown_alloc b.alloc cap;
        })
        else none)
    else some b

unfoldable pub hist_buf_store : HistBuf → Entry → HistBuf
hist_buf_store b copy =
    if b.n == b.cap
    then record b { e = set b.e b.head (some copy); head = (b.head + 1) % b.cap; last_ms = copy.ms }
    else record b { e = set b.e b.n (some copy); n = b.n + 1; last_ms = copy.ms }

-- `dup_ok` and `grow_ok` say whether `malloc` in entry_dup and `realloc` give memory.
unfoldable pub hist_buf_add : HistBuf → ℕ → Borrowed → Bool → Bool → HistBuf
hist_buf_add b cap entry dup_ok grow_ok =
    if cap == 0
    then b
    else if not dup_ok
    then hist_buf_resize b cap
    else elim (hist_buf_grow (hist_buf_resize b cap) cap grow_ok) [
      | none ↦ hist_buf_resize b cap
      | some grown ↦ hist_buf_store grown (entry_dup entry)
    ]

abbrev pub join {ℓ} : {A : Type ℓ} → Option (Option A) → Option A
join none = none
join (some o) = o

unfoldable pub hist_buf_at : HistBuf → ℕ → Option Entry
hist_buf_at b i =
    if is_null b.e || leb b.n i then none else join (get_elem? b.e ((b.head + i) % b.cap))

-- `calloc` in history_add
abbrev pub new_buf : Bytes → HistBuf
new_buf key = record { key = key; cap = 0; alloc = 0; head = 0; n = 0; e = []; last_ms = 0 }

-- `find_index`: from position `i - 1` down to 0
unfoldable pub find_index : HistBuf → Bytes → ℕ → Option ℕ
find_index b msgid zero = none
find_index b msgid (suc i) =
    let older = find_index b msgid i in
    elim (hist_buf_at b i) [
      | none ↦ older
      | some entry ↦ if str_eq entry.msgid msgid then some i else older
    ]

unfoldable pub slot_at : HistBuf → ℕ → Option Entry
slot_at b k = join (get_elem? b.e ((b.head + k) % b.cap))

-- The loop of `history_remove_msgid` that lays out positions 0 … k - 1 without position `i`.
unfoldable pub laid_out : HistBuf → ℕ → ℕ → List (Option Entry)
unfolding slot_at
laid_out b i zero = []
laid_out b i (suc k) = laid_out b i k ++ (if k == i then [] else slot_at b k ∷ [])

-- `flat` is copied over the front of the slots.
unfoldable pub hist_buf_remove : HistBuf → ℕ → HistBuf
unfolding laid_out
hist_buf_remove b i =
    let flat = laid_out b i b.n in
    record b { e = flat ++ drop (length flat) b.e; head = 0; n = length flat }
