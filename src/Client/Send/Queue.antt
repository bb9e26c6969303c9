-- ===== src/Client/Send/Queue.antt =====
-- What `client_send` does to the bytes that wait for the socket.
use sekur_ircd.Base.{
  ℕ, zero, suc, ◌+◌, ◌*◌, ◌≤◌, ◌<◌, ◌≡◌, ◌≢◌, refl, sym, ap, subst, ◌∙◌, ◌⊎◌, inl, inr, Bool, true,
  false, not, ◌&&◌, ◌||◌, [], ◌∷◌, ◌++◌, none, some, ltb, Bytes, length, drop, length-append,
  length-drop, arith, Bool-cases, ltb→lt, ltb→le,
}
use sekur_ircd.Protection.Text.{is_empty}
use sekur_ircd.Client.Send.{
  Out, pending, time_tag, encoded, double_until, reclaim, make_room, sendq_limit, put_line,
  send_now, client_send,
}

-- The offsets lie in order within the buffer, and no more waits than the limit allows.
pub record Room (o : Out) : Type 0 where
  pub offset : o.sbuf_off ≤ length o.sbuf
  pub fits : length o.sbuf ≤ o.sbuf_cap
  pub some_cap : 1 ≤ o.sbuf_cap
  pub within : length (pending o) ≤ sendq_limit o

-- What waits is in the queue for output, or the connection ends.
abbrev pub Noticed : Out → Type 0
Noticed o = pending o ≢ [] → o.quitting ≡ false → o.dirty ≡ true

double_until-enough :
    (fuel cap need : ℕ) → 1 ≤ cap → need ≤ cap + fuel → need ≤ double_until fuel cap need
unfolding double_until
double_until-enough zero cap need c h = omega arith
double_until-enough (suc fuel) cap need c h = elim (Bool-cases (ltb cap need)) [
  | inl t ↦ rw t (double_until-enough fuel (cap * 2) need (omega arith) (omega arith))
  | inr f ↦ rw f (ltb→le cap need f)
]

double_until-pos : (fuel cap need : ℕ) → 1 ≤ cap → 1 ≤ double_until fuel cap need
unfolding double_until
double_until-pos zero cap need c = c
double_until-pos (suc fuel) cap need c = elim (Bool-cases (ltb cap need)) [
  | inl t ↦ rw t (double_until-pos fuel (cap * 2) need (omega arith))
  | inr f ↦ rw f c
]

drop-append : (n : ℕ) (s t : Bytes) → n ≤ length s → drop n (s ++ t) ≡ drop n s ++ t
drop-append zero s t h = refl
drop-append (suc n) [] t h = absurd (omega arith)
drop-append (suc n) (c ∷ s) t h = drop-append n s t (omega arith)

-- Room for more bytes, with the same bytes waiting.
record Roomy (o r : Out) (total : ℕ) : Type 0 where
  same : pending r ≡ pending o
  offset : r.sbuf_off ≤ length r.sbuf
  fits : length r.sbuf + total ≤ r.sbuf_cap
  some_cap : 1 ≤ r.sbuf_cap
  limit : sendq_limit r ≡ sendq_limit o
  quits : r.quitting ≡ o.quitting

-- The offsets after the sent bytes made room.
record Reclaimed (o r : Out) : Type 0 where
  same : pending r ≡ pending o
  offset : r.sbuf_off ≤ length r.sbuf
  fits : length r.sbuf ≤ r.sbuf_cap
  some_cap : 1 ≤ r.sbuf_cap
  limit : sendq_limit r ≡ sendq_limit o
  quits : r.quitting ≡ o.quitting

reclaim-Reclaimed : (o : Out) (total : ℕ) → Room o → Reclaimed o (reclaim o total)
unfolding reclaim
reclaim-Reclaimed o total w = elim (Bool-cases (ltb o.sbuf_cap (length o.sbuf + total))) [
  | inl t ↦ rw t (record {
    same = refl;
    offset = omega arith;
    fits = omega (arith, length-drop o.sbuf_off o.sbuf, w.fits);
    some_cap = w.some_cap;
    limit = refl;
    quits = refl;
  })
  | inr f ↦ rw f (record {
    same = refl;
    offset = w.offset;
    fits = w.fits;
    some_cap = w.some_cap;
    limit = refl;
    quits = refl;
  })
]

-- A refusal of realloc.
abbrev pub Refused : (ℕ → Bool) → Type 0
Refused realloc = (n : ℕ) × (realloc n ≡ false)

make_room-Roomy :
    (realloc : ℕ → Bool) (o : Out) (total : ℕ)
    → Room o
    → ((make_room realloc o total ≡ none) × Refused realloc)
      ⊎ ((r : Out) × (make_room realloc o total ≡ some r) × Roomy o r total)
unfolding make_room
make_room-Roomy realloc o total w =
    let r = reclaim o total in
    let k = reclaim-Reclaimed o total w in
    let need = length r.sbuf + total in
    let cap = double_until need (r.sbuf_cap * 2) need in
    let pos = k.some_cap in
    elim (Bool-cases (ltb r.sbuf_cap need)) [
      | inr f ↦
          let le = ltb→le r.sbuf_cap need f in
          inr (
            r,
            rw f refl,
            record {
              same = k.same;
              offset = k.offset;
              fits = le;
              some_cap = pos;
              limit = k.limit;
              quits = k.quits;
            },
          )
      | inl t ↦ elim (Bool-cases (realloc cap)) [
        | inr refused ↦ inl (rw (t, refused) refl, (cap, refused))
        | inl given ↦ inr (
          record r { sbuf_cap = cap },
          rw (t, given) refl,
          record {
            same = k.same;
            offset = k.offset;
            fits =
                double_until-enough need (r.sbuf_cap * 2) need (omega (arith, pos)) (omega arith);
            some_cap = double_until-pos need (r.sbuf_cap * 2) need (omega (arith, pos));
            limit = k.limit;
            quits = k.quits;
          },
        )
      ]
    ]

-- Either the bytes are queued behind what waits, or nothing is queued and the connection ends, for the
-- limit's sake or for want of memory.
abbrev pub Queued : (ℕ → Bool) → Out → Bytes → Out → Type 0
Queued realloc o bytes o' =
    ((pending o' ≡ pending o ++ bytes) × (o'.quitting ≡ o.quitting))
    ⊎ ((pending o' ≡ pending o)
        × (o'.quitting ≡ true)
        × ((sendq_limit o < length (pending o) + length bytes) ⊎ Refused realloc))

abbrev Good : (ℕ → Bool) → Out → Bytes → Out → Type 0
Good realloc o bytes o' = Room o' × Queued realloc o bytes o' × (Noticed o → Noticed o')

Room-quit :
    (o : Out) (why : Bytes) → Room o → Room (record o { quitting = true; quit_reason = why })
Room-quit o why w = record {
  offset = w.offset;
  fits = w.fits;
  some_cap = w.some_cap;
  within = w.within;
}

Room-reclaimed : (o r : Out) → Room o → Reclaimed o r → Room (record r { quitting = true })
Room-reclaimed o r w k = record {
  offset = k.offset;
  fits = k.fits;
  some_cap = k.some_cap;
  within = omega (arith, ap length k.same, k.limit, w.within);
}

true-not_false : true ≡ false → ⊥
true-not_false e = ground (arith, e)

appended :
    (realloc : ℕ → Bool) (o r : Out) (bytes : Bytes)
    → Roomy o r (length bytes)
    → length (pending o) + length bytes ≤ sendq_limit o
    → Good realloc o bytes (record r {
      sbuf = r.sbuf ++ bytes;
      dirty = o.dirty || is_empty (pending o) && not o.quitting;
    })
appended realloc o r bytes k le =
    let more = drop-append r.sbuf_off r.sbuf bytes k.offset ∙ ap (λ s. s ++ bytes) k.same in
    let lim = k.limit in
    let off = k.offset in
    let fit = k.fits in
    let size = length-append r.sbuf bytes in
    (
      record {
        offset = omega (arith, size, off);
        fits = omega (arith, size, fit);
        some_cap = k.some_cap;
        within = omega (arith, ap length more, length-append (pending o) bytes, lim, le);
      },
      inl (more, k.quits),
      marked (pending o) refl,
    )
  where
    marked :
        (p : Bytes)
        → p ≡ pending o
        → Noticed o
        → drop r.sbuf_off (r.sbuf ++ bytes) ≢ []
        → r.quitting ≡ false
        → (o.dirty || is_empty (pending o) && not o.quitting) ≡ true
    marked [] e n ne q =
        let empty = ap is_empty (sym e) in
        let alive = sym k.quits ∙ q in ground (arith, empty, alive)
    marked (c ∷ p) e n ne q =
        let d = n (λ z. absurd (ground (arith, e, z))) (sym k.quits ∙ q) in ground (arith, d)

put_line-Good :
    (realloc : ℕ → Bool) (o : Out) (bytes : Bytes)
    → Room o
    → Good realloc o bytes (put_line realloc o bytes)
unfolding put_line
put_line-Good realloc o bytes w =
    elim (Bool-cases (ltb (sendq_limit o) (length (pending o) + length bytes))) [
      | inl t ↦
          let over = ltb→lt _ _ t in
          rw t (Room-quit o _ w, inr (refl, refl, inl over), λ n ne q. absurd (true-not_false q))
      | inr f ↦ elim (make_room-Roomy realloc o (length bytes) w) [
        | inl (none', refused) ↦
            let k = reclaim-Reclaimed o (length bytes) w in
            rw (f, none')
              (
                Room-reclaimed o (reclaim o (length bytes)) w k,
                inr (k.same, refl, inr refused),
                λ n ne q. absurd (true-not_false q),
              )
        | inr (r, some', k) ↦ rw (f, some') (appended realloc o r bytes k (ltb→le _ _ f))
      ]
    ]

-- On a connection with a socket that is not ending and captures nothing, `client_send` queues the line
-- with its time tag and its CRLF behind what waits, whole, or queues nothing and ends the connection,
-- which it does only if the limit would be passed or realloc refuses. The buffer's offsets stay in
-- order, no more waits than the limit, and a connection with output waiting is in the output queue if it
-- was before.
pub client_send-Queued :
    (realloc : ℕ → Bool) (ts : Bytes) (o : Out) (line : Bytes)
    → Room o
    → o.quitting ≡ false
    → o.label_capture ≡ false
    → Room (client_send realloc ts o line)
      × Queued realloc o (encoded (time_tag o ts line) line) (client_send realloc ts o line)
      × (Noticed o → Noticed (client_send realloc ts o line))
unfolding client_send send_now
client_send-Queued realloc ts o line w q c =
    subst (λ (o' : Out). Good realloc o (encoded (time_tag o ts line) line) o') (sym step)
      (put_line-Good realloc o (encoded (time_tag o ts line) line) w)
  where
    step : client_send realloc ts o line ≡ put_line realloc o (encoded (time_tag o ts line) line)
    step = rw (q, c) refl
