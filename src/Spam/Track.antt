-- ===== src/Spam/Track.antt =====
-- src/spam.c: the recent sends of one client, `fnv` and `spam_track`.
pub mod Pairs
use Prim.Native.Nat.{bit_xor}
use sekur_ircd.Base.{
  ℕ, suc, ◌+◌, ◌-◌, ◌*◌, ◌%◌, ◌^◌, Bool, true, false, not, ◌&&◌, ◌||◌, List, [], ◌∷◌, ◌++◌, Option,
  none, some, ltb, ◌==◌, if◌then◌else◌, Bytes, set,
}
use sekur_ircd.Cstring.{tolower}

-- SPAM_TRACK
abbrev pub spam_slots : ℕ
spam_slots = 32

unfoldable pub fnv_from : ℕ → Bytes → ℕ
unfolding tolower
fnv_from h [] = h
fnv_from h (c ∷ s) = fnv_from (bit_xor h (tolower c) * 16777619 % 2 ^ 32) s

unfoldable pub fnv : Bytes → ℕ
unfolding fnv_from
fnv s = fnv_from 2166136261 s

-- One slot of `spam_ring`; a slot whose time is 0 is free.
pub record Sent : Type 0 where
  pub tgt : ℕ
  pub txt : ℕ
  pub at : ℕ

abbrev pub is_pair : ℕ → ℕ → Sent → Bool
is_pair tg tx s = not (s.at == 0) && s.tgt == tg && s.txt == tx

-- The loop that looks for the pair, from slot `i` on.
unfoldable pub find_pair : ℕ → ℕ → List Sent → Option ℕ
find_pair tg tx [] = none
find_pair tg tx (s ∷ ring) =
    let rest = find_pair tg tx ring in
    if is_pair tg tx s then some 0 else elim rest [ none ↦ none | some i ↦ some (suc i) ]

-- A send within the window. A clock that went back leaves no distance.
abbrev pub in_window : ℕ → ℕ → Sent → Bool
in_window now window s = not (s.at == 0) && not (ltb window (now - s.at))

unfoldable pub same_text : ℕ → ℕ → ℕ → List Sent → ℕ
same_text tx now window [] = 0
same_text tx now window (s ∷ ring) =
    let rest = same_text tx now window ring in
    if in_window now window s && s.txt == tx then suc rest else rest

unfoldable pub seen : ℕ → ℕ → ℕ → List Sent → Bool
seen tg now window [] = false
seen tg now window (s ∷ ring) = in_window now window s && s.tgt == tg || seen tg now window ring

-- The slots whose target is at no earlier slot.
unfoldable pub distinct_from : List Sent → ℕ → ℕ → List Sent → ℕ
unfolding seen
distinct_from earlier now window [] = 0
distinct_from earlier now window (s ∷ ring) =
    let rest = distinct_from (earlier ++ (s ∷ [])) now window ring in
    if in_window now window s && not (seen s.tgt now window earlier) then suc rest else rest

pub record Tracker : Type 0 where
  pub ring : List Sent
  pub head : ℕ

-- The slot of the pair, or the oldest one, which moves the head on.
unfoldable pub record_send : ℕ → ℕ → ℕ → Tracker → Tracker
unfolding find_pair
record_send tg tx now t = elim (find_pair tg tx t.ring) [
  | some i ↦ record t { ring = set t.ring i (record { tgt = tg; txt = tx; at = now }) }
  | none ↦ record {
    ring = set t.ring t.head (record { tgt = tg; txt = tx; at = now });
    head = (t.head + 1) % spam_slots;
  }
]

-- The tracker, `*distinct_targets` and `*same_text_targets`.
unfoldable pub spam_track : Bytes → Bytes → ℕ → ℕ → Tracker → Tracker × (ℕ × ℕ)
unfolding fnv record_send distinct_from same_text
spam_track target text now window t =
    let u = record_send (fnv target) (fnv text) now t in
    (u, (distinct_from [] now window u.ring, same_text (fnv text) now window u.ring))
