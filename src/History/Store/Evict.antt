-- ===== src/History/Store/Evict.antt =====
-- The store stays within HIST_MAX_BUFFERS: a new conversation takes the place of the one that has been
-- quiet the longest.
use sekur_ircd.Base.{
  ℕ, ◌+◌, ◌≤◌, ◌<◌, ◌≡◌, ◌≢◌, ◌⊎◌, refl, sym, ap, ◌∙◌, inl, inr, true, false, List, [], ◌∷◌, ◌++◌,
  arith, length, length-append, if◌then◌else◌, leb, Bool-cases, Option-cases, Bytes, All, ltb,
  ltb→lt, ltb→le,
}
use sekur_ircd.Cstring.{str_eq, str_eq_iff, str_eq_ne}
use sekur_ircd.History.Buf.{Borrowed, HistBuf, new_buf}
use sekur_ircd.History.Store.{
  Histories, Memory, hist_max_buffers, find_buf, delete_buf, change_buf, oldest_from, evict_oldest,
  buf_key, history_add,
}
use sekur_ircd.History.Store.Lookup.{UniqueKeys}
use sekur_ircd.History.Store.Adds.{added, room, add_found, add_none, add_no_memory}

-- `x` stands in the list.
data Among (x : HistBuf) : List HistBuf → Type 0 where
  here : {b : HistBuf} {bs : List HistBuf} → x ≡ b → Among x (b ∷ bs)
  there : {b : HistBuf} {bs : List HistBuf} → Among x bs → Among x (b ∷ bs)

-- A list taken apart at a conversation that has been quiet at least as long as all others.
pub record Quietest (bs rest : List HistBuf) : Type 0 where
  pub before : List HistBuf
  pub victim : HistBuf
  pub after : List HistBuf
  pub whole : bs ≡ before ++ victim ∷ after
  pub left : rest ≡ before ++ after
  pub quiet : All (λ c. victim.last_ms ≤ c.last_ms) bs

oldest-Among :
    (o : HistBuf) (bs : List HistBuf) → (oldest_from o bs ≡ o) ⊎ Among (oldest_from o bs) bs
unfolding oldest_from
oldest-Among o [] = inl refl
oldest-Among o (c ∷ bs) = elim (Bool-cases (ltb c.last_ms o.last_ms)) [
  | inl e ↦ rw e (inr (elim (oldest-Among c bs) [ inl h ↦ here h | inr m ↦ there m ]))
  | inr e ↦ rw e (elim (oldest-Among o bs) [ inl h ↦ inl h | inr m ↦ inr (there m) ])
]

abbrev pick : HistBuf → HistBuf → HistBuf
pick o c = if ltb c.last_ms o.last_ms then c else o

pick_le : (o c : HistBuf) → ((pick o c).last_ms ≤ o.last_ms) × ((pick o c).last_ms ≤ c.last_ms)
pick_le o c = elim (Bool-cases (ltb c.last_ms o.last_ms)) [
  | inl e ↦ rw e (omega (arith, ltb→lt c.last_ms o.last_ms e), omega arith)
  | inr e ↦ rw e (omega arith, ltb→le c.last_ms o.last_ms e)
]

oldest-le : (o : HistBuf) (bs : List HistBuf) → (oldest_from o bs).last_ms ≤ o.last_ms
unfolding oldest_from
oldest-le o [] = omega arith
oldest-le o (c ∷ bs) = omega (arith, oldest-le (pick o c) bs, (pick_le o c).0)

oldest-quiet :
    (o : HistBuf) (bs : List HistBuf) → All (λ c. (oldest_from o bs).last_ms ≤ c.last_ms) bs
unfolding oldest_from
oldest-quiet o [] = tt
oldest-quiet o (c ∷ bs) =
    (omega (arith, oldest-le (pick o c) bs, (pick_le o c).1), oldest-quiet (pick o c) bs)

-- Under unique keys, deleting by the key of a member takes that member out.
record Cut (bs : List HistBuf) (x : HistBuf) (rest : List HistBuf) : Type 0 where
  before : List HistBuf
  after : List HistBuf
  whole : bs ≡ before ++ x ∷ after
  left : rest ≡ before ++ after

key_here : (x b : HistBuf) → x ≡ b → str_eq b.key x.key ≡ true
key_here x b e = (str_eq_iff b.key x.key).1 (ap (λ (c : HistBuf). c.key) (sym e))

All-Among :
    (k : Bytes) (bs : List HistBuf) (x : HistBuf) → All (λ c. c.key ≢ k) bs → Among x bs → x.key ≢ k
All-Among k [] x h m = elim m [ ]
All-Among k (b ∷ bs) x h (here e) = λ f. h.0 (ap (λ (c : HistBuf). c.key) (sym e) ∙ f)
All-Among k (b ∷ bs) x h (there m) = All-Among k bs x h.1 m

delete-Cut :
    (bs : List HistBuf) (x : HistBuf) → UniqueKeys bs → Among x bs → Cut bs x (delete_buf bs x.key)
unfolding delete_buf
delete-Cut [] x u m = elim m [ ]
delete-Cut (b ∷ bs) x u (here e) =
    rw (key_here x b e)
      (record { before = []; after = bs; whole = ap (λ c. c ∷ bs) (sym e); left = refl })
delete-Cut (b ∷ bs) x u (there m) =
    let c = delete-Cut bs x u.1 m in
    rw (str_eq_ne b.key x.key (λ f. All-Among b.key bs x u.0 m (sym f))) (record {
      before = b ∷ c.before;
      after = c.after;
      whole = ap (◌∷◌ b) c.whole;
      left = ap (◌∷◌ b) c.left;
    })

-- Under unique keys, the eviction takes out one conversation, and no other has been quiet longer.
pub evict_oldest-Quietest :
    (b : HistBuf) (bs : List HistBuf)
    → UniqueKeys (b ∷ bs)
    → Quietest (b ∷ bs) (evict_oldest (b ∷ bs))
unfolding evict_oldest
evict_oldest-Quietest b bs u =
    let o = oldest_from b bs in
    let c =
      delete-Cut (b ∷ bs) o u (elim (oldest-Among b bs) [ inl h ↦ here h | inr m ↦ there m ]) in
    record {
      before = c.before;
      victim = o;
      after = c.after;
      whole = c.whole;
      left = c.left;
      quiet = (oldest-le b bs, oldest-quiet b bs);
    }

length-evict :
    (bs : List HistBuf) → UniqueKeys bs → 0 < length bs → length (evict_oldest bs) + 1 ≡ length bs
length-evict [] u h = absurd (omega arith)
length-evict (b ∷ bs) u h =
    let q = evict_oldest-Quietest b bs u in
    omega (
      arith,
      ap length q.whole,
      ap length q.left,
      length-append q.before (q.victim ∷ q.after),
      length-append q.before q.after,
    )

length-change :
    (bs : List HistBuf) (key : Bytes) (f : HistBuf → HistBuf)
    → length (change_buf bs key f) ≡ length bs
unfolding change_buf
length-change [] key f = refl
length-change (b ∷ bs) key f = ground (arith, length-change bs key f)

room-length :
    (srv : Histories) (key : Bytes) (cap : ℕ) (entry : Borrowed) (mem : Memory)
    → UniqueKeys srv.history
    → length srv.history ≤ hist_max_buffers
    → length (room srv key cap entry mem) < hist_max_buffers
room-length srv key cap entry mem u h =
    elim (Bool-cases (leb hist_max_buffers (length srv.history))) [
      | inl e ↦
          let full = full_store srv e in
          rw e (omega (arith, length-evict srv.history u (omega arith)))
      | inr e ↦ rw e (few_enough srv e)
    ]
  where
    full_store :
        (srv : Histories)
        → leb hist_max_buffers (length srv.history) ≡ true
        → hist_max_buffers ≤ length srv.history
    full_store srv e = ground arith

    few_enough :
        (srv : Histories)
        → leb hist_max_buffers (length srv.history) ≡ false
        → length srv.history < hist_max_buffers
    few_enough srv e = ground arith

-- Under unique keys, a store of at most 1000 conversations is one after every add, whatever the
-- allocator answers.
pub history_add-bounded :
    (srv : Histories) (key : Bytes) (cap : ℕ) (entry : Borrowed) (mem : Memory)
    → UniqueKeys srv.history
    → length srv.history ≤ hist_max_buffers
    → length (history_add srv key cap entry mem).history ≤ hist_max_buffers
history_add-bounded srv key cap entry mem u h =
    let small = room-length srv key cap entry mem u h in
    let put = added srv key cap entry mem in
    elim (Option-cases (find_buf srv.history key)) [
      | inr (b, e) ↦ omega (
        arith,
        ap length (add_found srv key cap entry mem b e),
        length-change srv.history key put,
      )
      | inl e ↦ elim (Bool-cases mem.buf_ok) [
        | inl ok ↦
            let fresh = put (new_buf (buf_key key)) in
            omega (
              arith,
              ap length (add_none srv key cap entry mem e ok),
              length-append (room srv key cap entry mem) (fresh ∷ []),
              small,
            )
        | inr ok ↦ omega (arith, ap length (add_no_memory srv key cap entry mem e ok), small)
      ]
    ]
