-- ===== src/Client/Queues.antt =====
-- src/client.c: the queue of clients with output, and the one of clients to tear down. A queue is
-- the list of its members' pointers, from its head; the links `dirty_next`, `dirty_prev` and `dead_next`
-- are its order. Every client here has a server.
use sekur_ircd.Base.{
  ℕ, ◌≡◌, refl, sym, ap, ◌∙◌, inl, inr, Bool, true, false, not, ◌||◌, List, [], ◌∷◌, ◌==◌,
  if◌then◌else◌, arith, Bool-cases, ==→eq, eq→==, subst,
}
use sekur_ircd.Client.{Client}

unfoldable pub client_mark_dirty : Client → List ℕ → Client × List ℕ
client_mark_dirty cl dirty =
    if cl.dirty_q || (cl.quitting || not cl.has_socket)
    then (cl, dirty)
    else (record cl { dirty_q = true }, cl.id ∷ dirty)

unfoldable pub unlink : ℕ → List ℕ → List ℕ
unlink id [] = []
unlink id (i ∷ is) = let rest = unlink id is in if i == id then is else i ∷ rest

unfoldable pub client_unmark_dirty : Client → List ℕ → Client × List ℕ
unfolding unlink
client_unmark_dirty cl dirty =
    if cl.dirty_q then (record cl { dirty_q = false }, unlink cl.id dirty) else (cl, dirty)

unfoldable pub client_mark_quit : Client → List ℕ → Client × List ℕ
client_mark_quit cl dead =
    if cl.dead_q || not cl.has_socket
    then (record cl { quitting = true }, dead)
    else (record cl { quitting = true; dead_q = true }, cl.id ∷ dead)

abbrev pub listed : ℕ → List ℕ → Bool
listed id [] = false
listed id (i ∷ is) = i == id || listed id is

abbrev pub NoRepeat : List ℕ → Type 0
NoRepeat [] = Unit
NoRepeat (i ∷ is) = (listed i is ≡ false) × NoRepeat is

-- A client's mark says whether it stands in the queue, and it stands there once.
abbrev pub Marked : ℕ → Bool → List ℕ → Type 0
Marked id mark queue = (listed id queue ≡ mark) × NoRepeat queue

listed-unlink_other :
    (id other : ℕ) (queue : List ℕ)
    → (other == id) ≡ false
    → listed other (unlink id queue) ≡ listed other queue
unfolding unlink
listed-unlink_other id other [] n = refl
listed-unlink_other id other (i ∷ is) n = elim (Bool-cases (i == id)) [
  | inl t ↦ rw t (let e = ==→eq i id t in ground (arith, n, e))
  | inr f ↦ rw f (ap (λ b. (i == other) || b) (listed-unlink_other id other is n))
]

unlink_again : (id : ℕ) (queue : List ℕ) → listed id queue ≡ false → unlink id queue ≡ queue
unfolding unlink
unlink_again id [] h = refl
unlink_again id (i ∷ is) h =
    let (a, b) = neither (i == id) (listed id is) h in rw a (ap (◌∷◌ i) (unlink_again id is b))
  where
    neither : (a b : Bool) → (a || b) ≡ false → (a ≡ false) × (b ≡ false)
    neither a b e = ground (arith, e)

listed-unlink : (id : ℕ) (queue : List ℕ) → NoRepeat queue → listed id (unlink id queue) ≡ false
unfolding unlink
listed-unlink id [] u = refl
listed-unlink id (i ∷ is) (f, u) = elim (Bool-cases (i == id)) [
  | inl t ↦ rw t (subst (λ k. listed k is ≡ false) (==→eq i id t) f)
  | inr g ↦ rw g (rw g (listed-unlink id is u))
]

NoRepeat-unlink : (id : ℕ) (queue : List ℕ) → NoRepeat queue → NoRepeat (unlink id queue)
unfolding unlink
NoRepeat-unlink id [] u = tt
NoRepeat-unlink id (i ∷ is) (f, u) = elim (Bool-cases (i == id)) [
  | inl t ↦ rw t u
  | inr g ↦ rw g (listed-unlink_other id i is g ∙ f, NoRepeat-unlink id is u)
]

-- The mark of one client is true to the new queue, and all others stand as they did.
abbrev pub Kept : ℕ → List ℕ → Bool → List ℕ → Type 0
Kept id queue mark queue' =
    Marked id mark queue'
    × ((other : ℕ) → (other == id) ≡ false → listed other queue' ≡ listed other queue)

Kept-same :
    (id : ℕ) (mark : Bool) (queue : List ℕ) → Marked id mark queue → Kept id queue mark queue
Kept-same id mark queue m = (m, λ other n. refl)

Kept-push : (id : ℕ) (queue : List ℕ) → Marked id false queue → Kept id queue true (id ∷ queue)
Kept-push id queue (f, u) =
    ((rw (eq→== id id refl) refl, (f, u)), λ other n. rw (turned other n) refl)
  where
    turned : (other : ℕ) → (other == id) ≡ false → (id == other) ≡ false
    turned other n = ground (arith, n)

Kept-unlink : (id : ℕ) (queue : List ℕ) → NoRepeat queue → Kept id queue false (unlink id queue)
Kept-unlink id queue u =
    ((listed-unlink id queue u, NoRepeat-unlink id queue u), listed-unlink_other_of)
  where
    listed-unlink_other_of :
        (other : ℕ) → (other == id) ≡ false → listed other (unlink id queue) ≡ listed other queue
    listed-unlink_other_of other n = listed-unlink_other id other queue n

not_marked : (mark b : Bool) → (mark || b) ≡ false → mark ≡ false
not_marked mark b e = ground (arith, e)

client_mark_dirty-Kept :
    (cl : Client) (dirty : List ℕ)
    → Marked cl.id cl.dirty_q dirty
    → Kept cl.id dirty ((client_mark_dirty cl dirty).0.dirty_q) ((client_mark_dirty cl dirty).1)
unfolding client_mark_dirty
client_mark_dirty-Kept cl dirty m =
    elim (Bool-cases (cl.dirty_q || (cl.quitting || not cl.has_socket))) [
      | inl t ↦ rw t (Kept-same cl.id cl.dirty_q dirty m)
      | inr f ↦
          let off = not_marked cl.dirty_q (cl.quitting || not cl.has_socket) f in
          rw f (Kept-push cl.id dirty (m.0 ∙ off, m.1))
    ]

client_unmark_dirty-Kept :
    (cl : Client) (dirty : List ℕ)
    → Marked cl.id cl.dirty_q dirty
    → Kept cl.id dirty ((client_unmark_dirty cl dirty).0.dirty_q) ((client_unmark_dirty cl dirty).1)
unfolding client_unmark_dirty
client_unmark_dirty-Kept cl dirty m = elim (Bool-cases cl.dirty_q) [
  | inl t ↦
      subst (λ (r : Client × List ℕ). Kept cl.id dirty r.0.dirty_q r.1)
        (sym (
          ap (λ b. if b then (record cl { dirty_q = false }, unlink cl.id dirty) else (cl, dirty))
            t))
        (Kept-unlink cl.id dirty m.1)
  | inr f ↦
      subst (λ (r : Client × List ℕ). Kept cl.id dirty r.0.dirty_q r.1)
        (sym (
          ap (λ b. if b then (record cl { dirty_q = false }, unlink cl.id dirty) else (cl, dirty))
            f))
        (Kept-same cl.id cl.dirty_q dirty m)
]

client_mark_quit-Kept :
    (cl : Client) (dead : List ℕ)
    → Marked cl.id cl.dead_q dead
    → Kept cl.id dead ((client_mark_quit cl dead).0.dead_q) ((client_mark_quit cl dead).1)
unfolding client_mark_quit
client_mark_quit-Kept cl dead m = elim (Bool-cases (cl.dead_q || not cl.has_socket)) [
  | inl t ↦ rw t (Kept-same cl.id cl.dead_q dead m)
  | inr f ↦
      let off = not_marked cl.dead_q (not cl.has_socket) f in
      rw f (Kept-push cl.id dead (m.0 ∙ off, m.1))
]

-- Marking a client for output, taking that mark off and ending the client keep its marks true to the
-- two queues: a client that stood in its queue once, or not at all, as its mark says, still does, and
-- every other client stands where it did.
pub queues-Kept :
    (cl : Client) (dirty dead : List ℕ)
    → Marked cl.id cl.dirty_q dirty
    → Marked cl.id cl.dead_q dead
    → Kept cl.id dirty ((client_mark_dirty cl dirty).0.dirty_q) ((client_mark_dirty cl dirty).1)
      × Kept cl.id dirty
          ((client_unmark_dirty cl dirty).0.dirty_q)
          ((client_unmark_dirty cl dirty).1)
      × Kept cl.id dead ((client_mark_quit cl dead).0.dead_q) ((client_mark_quit cl dead).1)
queues-Kept cl dirty dead d e = (
  client_mark_dirty-Kept cl dirty d,
  client_unmark_dirty-Kept cl dirty d,
  client_mark_quit-Kept cl dead e,
)
