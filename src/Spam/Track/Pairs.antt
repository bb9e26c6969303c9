-- ===== src/Spam/Track/Pairs.antt =====
-- The pairs of target and text in the slots of the ring.
use sekur_ircd.Base.{
  ℕ, zero, suc, ◌<◌, ◌≡◌, ◌≢◌, refl, sym, ap, ◌∙◌, inl, inr, Bool, true, false, ◌&&◌, ◌||◌, List,
  [], ◌∷◌, none, some, ◌==◌, if◌then◌else◌, Bytes, length, set, length-set, arith, Bool-cases,
  Option-cases,
}
use sekur_ircd.Spam.Track.{
  spam_slots, fnv, Sent, is_pair, find_pair, in_window, same_text, Tracker, record_send, spam_track,
}

-- Some slot in use holds the pair.
abbrev pub has_pair : ℕ → ℕ → List Sent → Bool
has_pair tg tx [] = false
has_pair tg tx (s ∷ ring) = is_pair tg tx s || has_pair tg tx ring

abbrev pub Used : Sent → Type 0
Used s = s.at ≢ 0

abbrev pub AllApart : List Sent → Type 0
AllApart [] = Unit
AllApart (s ∷ ring) = (Used s → has_pair s.tgt s.txt ring ≡ false) × AllApart ring

-- The ring has its slots, the head is one of them, and the slots in use hold different pairs.
pub record Tracks (t : Tracker) : Type 0 where
  pub slots : length t.ring ≡ spam_slots
  pub head : t.head < spam_slots
  pub apart : AllApart t.ring

neither : (a b : Bool) → (a || b) ≡ false → (a ≡ false) × (b ≡ false)
neither a b e = ground (arith, e)

has_pair-set :
    (a b : ℕ) (ring : List Sent) (i : ℕ) (v : Sent)
    → has_pair a b ring ≡ false
    → is_pair a b v ≡ false
    → has_pair a b (set ring i v) ≡ false
has_pair-set a b [] i v h n = refl
has_pair-set a b (s ∷ ring) zero v h n = rw n (neither (is_pair a b s) (has_pair a b ring) h).1
has_pair-set a b (s ∷ ring) (suc i) v h n =
    let (x, y) = neither (is_pair a b s) (has_pair a b ring) h in
    rw x (has_pair-set a b ring i v y n)

-- A slot in use that does not hold the pair of `v` holds another one.
other_pair : (s v : Sent) → Used s → is_pair v.tgt v.txt s ≡ false → is_pair s.tgt s.txt v ≡ false
other_pair s v u h = ground (arith, u, h)

AllApart-new :
    (ring : List Sent) (i : ℕ) (v : Sent)
    → has_pair v.tgt v.txt ring ≡ false
    → AllApart ring
    → AllApart (set ring i v)
AllApart-new [] i v h a = tt
AllApart-new (s ∷ ring) zero v h (f, a) =
    (λ u. (neither (is_pair v.tgt v.txt s) (has_pair v.tgt v.txt ring) h).1, a)
AllApart-new (s ∷ ring) (suc i) v h (f, a) =
    let (x, y) = neither (is_pair v.tgt v.txt s) (has_pair v.tgt v.txt ring) h in
    (λ u. has_pair-set s.tgt s.txt ring i v (f u) (other_pair s v u x), AllApart-new ring i v y a)

find_pair-none :
    (tg tx : ℕ) (ring : List Sent) → find_pair tg tx ring ≡ none → has_pair tg tx ring ≡ false
unfolding find_pair
find_pair-none tg tx [] e = refl
find_pair-none tg tx (s ∷ ring) e = elim (Bool-cases (is_pair tg tx s)) [
  | inl t ↦ ground (arith, t, e)
  | inr f ↦ elim (Option-cases (find_pair tg tx ring)) [
    | inl n ↦ rw f (find_pair-none tg tx ring n)
    | inr (i, n) ↦ ground (arith, f, n, e)
  ]
]

found_here :
    (tg tx : ℕ) (s : Sent) (ring : List Sent)
    → find_pair tg tx (s ∷ ring) ≡ some 0
    → is_pair tg tx s ≡ true
unfolding find_pair
found_here tg tx s ring e = elim (Bool-cases (is_pair tg tx s)) [
  | inl t ↦ t
  | inr f ↦ elim (Option-cases (find_pair tg tx ring)) [
    | inl n ↦ absurd (ground (arith, f, n, e))
    | inr (i, n) ↦ absurd (ground (arith, f, n, e))
  ]
]

found_later :
    (tg tx i : ℕ) (s : Sent) (ring : List Sent)
    → find_pair tg tx (s ∷ ring) ≡ some (suc i)
    → (is_pair tg tx s ≡ false) × (find_pair tg tx ring ≡ some i)
unfolding find_pair
found_later tg tx i s ring e = elim (Bool-cases (is_pair tg tx s)) [
  | inl t ↦ absurd (ground (arith, t, e))
  | inr f ↦ elim (Option-cases (find_pair tg tx ring)) [
    | inl n ↦ absurd (ground (arith, f, n, e))
    | inr (j, n) ↦ (f, n ∙ ap some (ground (arith, f, n, e)))
  ]
]

same_pair : (s v : Sent) → is_pair v.tgt v.txt s ≡ true → Used s × (s.tgt ≡ v.tgt) × (s.txt ≡ v.txt)
same_pair s v h = ground (arith, h)

AllApart-found :
    (ring : List Sent) (i : ℕ) (v : Sent)
    → find_pair v.tgt v.txt ring ≡ some i
    → AllApart ring
    → AllApart (set ring i v)
AllApart-found [] i v e a = tt
AllApart-found (s ∷ ring) zero v e (f, a) =
    let (u, x, y) = same_pair s v (found_here v.tgt v.txt s ring e) in
    (λ used. sym (ap (λ k. has_pair k s.txt ring) x ∙ ap (λ k. has_pair v.tgt k ring) y) ∙ f u, a)
AllApart-found (s ∷ ring) (suc i) v e (f, a) =
    let (x, more) = found_later v.tgt v.txt i s ring e in
    (
      λ u. has_pair-set s.tgt s.txt ring i v (f u) (other_pair s v u x),
      AllApart-found ring i v more a,
    )

-- The targets that got the text within the window.
abbrev pub reached : ℕ → ℕ → ℕ → List Sent → List ℕ
reached tx now window [] = []
reached tx now window (s ∷ ring) =
    let rest = reached tx now window ring in
    if in_window now window s && s.txt == tx then s.tgt ∷ rest else rest

abbrev pub mem : ℕ → List ℕ → Bool
mem x [] = false
mem x (y ∷ ys) = y == x || mem x ys

abbrev pub NoDup : List ℕ → Type 0
NoDup [] = Unit
NoDup (x ∷ xs) = (mem x xs ≡ false) × NoDup xs

same_text-length :
    (tx now window : ℕ) (ring : List Sent)
    → same_text tx now window ring ≡ length (reached tx now window ring)
unfolding same_text
same_text-length tx now window [] = refl
same_text-length tx now window (s ∷ ring) =
    elim (Bool-cases (in_window now window s && s.txt == tx)) [
      | inl t ↦ rw t (ap suc (same_text-length tx now window ring))
      | inr f ↦ rw f (same_text-length tx now window ring)
    ]

in_window_pair :
    (tg tx now window : ℕ) (s : Sent)
    → (in_window now window s && s.txt == tx) ≡ true
    → is_pair tg tx s ≡ false
    → (s.tgt == tg) ≡ false
in_window_pair tg tx now window s t h = ground (arith, t, h)

mem-reached :
    (tg tx now window : ℕ) (ring : List Sent)
    → has_pair tg tx ring ≡ false
    → mem tg (reached tx now window ring) ≡ false
mem-reached tg tx now window [] h = refl
mem-reached tg tx now window (s ∷ ring) h =
    let (x, y) = neither (is_pair tg tx s) (has_pair tg tx ring) h in
    elim (Bool-cases (in_window now window s && s.txt == tx)) [
      | inl t ↦ rw (t, in_window_pair tg tx now window s t x) (mem-reached tg tx now window ring y)
      | inr f ↦ rw f (mem-reached tg tx now window ring y)
    ]

NoDup-reached :
    (tx now window : ℕ) (ring : List Sent) → AllApart ring → NoDup (reached tx now window ring)
NoDup-reached tx now window [] a = tt
NoDup-reached tx now window (s ∷ ring) (f, a) =
    elim (Bool-cases (in_window now window s && s.txt == tx)) [
      | inl t ↦
          let (u, x) = used_text t in
          rw t (
            mem-reached s.tgt tx now window ring (ap (λ k. has_pair s.tgt k ring) (sym x) ∙ f u),
            NoDup-reached tx now window ring a,
          )
      | inr g ↦ rw g (NoDup-reached tx now window ring a)
    ]
  where
    used_text : (in_window now window s && s.txt == tx) ≡ true → Used s × (s.txt ≡ tx)
    used_text t = ground (arith, t)

record_send-Tracks : (tg tx now : ℕ) (t : Tracker) → Tracks t → Tracks (record_send tg tx now t)
unfolding record_send
record_send-Tracks tg tx now t k = elim (Option-cases (find_pair tg tx t.ring)) [
  | inl n ↦
      rw (n, record_send)
        (record {
          slots = length-set t.ring t.head v ∙ k.slots;
          head = omega arith;
          apart = AllApart-new t.ring t.head v (find_pair-none tg tx t.ring n) k.apart;
        })
  | inr (i, n) ↦
      rw (n, record_send)
        (record {
          slots = length-set t.ring i v ∙ k.slots;
          head = k.head;
          apart = AllApart-found t.ring i v n k.apart;
        })
]
  where
    v : Sent
    v = record { tgt = tg; txt = tx; at = now }

-- A send keeps the ring's 32 slots, its head among them and all pairs in use different, and the number
-- of targets it reports for the same text counts different targets, by their hashes, once each.
pub spam_track-Tracks :
    (target text : Bytes) (now window : ℕ) (t : Tracker)
    → Tracks t
    → Tracks ((spam_track target text now window t).0)
      × ((spam_track target text now window t).1.1
          ≡ length (reached (fnv text) now window ((spam_track target text now window t).0.ring)))
      × NoDup (reached (fnv text) now window ((spam_track target text now window t).0.ring))
unfolding spam_track
spam_track-Tracks target text now window t k =
    let u = record_send-Tracks (fnv target) (fnv text) now t k in
    let ring = (record_send (fnv target) (fnv text) now t).ring in
    (
      u,
      same_text-length (fnv text) now window ring,
      NoDup-reached (fnv text) now window ring u.apart,
    )
