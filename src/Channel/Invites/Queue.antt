-- ===== src/Channel/Invites/Queue.antt =====
-- The invites are at most 64 different names: the newest is admitted, and the oldest makes room.
use sekur_ircd.Base.{
  ◌-◌, ◌≤◌, ◌<◌, ◌≡◌, ◌≢◌, ◌⊎◌, refl, sym, ap, ◌∙◌, inl, inr, Bool, true, false, not, ◌&&◌, ◌||◌,
  List, [], ◌∷◌, ◌++◌, leb, if◌then◌else◌, Bytes, length, length-append, length-drop, take_all,
  drop, All, All-append, arith, Bool-cases, subst,
}
use sekur_ircd.Cstring.{str_eq, str_eq_iff, str_eq_refl, str_eq_ne, ne-str_eq}
use sekur_ircd.Channel.Invites.{
  chan_max_invited, has_invite, channel_invite_add, channel_invite_remove,
}

abbrev pub Distinct : List Bytes → Type 0
Distinct [] = Unit
Distinct (i ∷ is) = All (λ k. k ≢ i) is × Distinct is

abbrev pub Inv : List Bytes → Type 0
Inv invited = (length invited ≤ chan_max_invited) × Distinct invited

-- The invites that are left where one more must fit.
abbrev pub newest : List Bytes → List Bytes
newest invited = drop (length invited - 63) invited

neither : (a b : Bool) → (a || b) ≡ false → (a ≡ false) × (b ≡ false)
neither true b h = absurd (ground (arith, h))
neither false b h = (refl, h)

absent-All : (is : List Bytes) (key : Bytes) → has_invite is key ≡ false → All (λ k. k ≢ key) is
unfolding has_invite
absent-All [] key h = tt
absent-All (i ∷ is) key h =
    let (a, b) = neither (str_eq i key) (has_invite is key) h in
    (ne-str_eq i key a, absent-All is key b)

Distinct-append :
    (is : List Bytes) (key : Bytes)
    → Distinct is
    → All (λ k. k ≢ key) is
    → Distinct (is ++ key ∷ [])
Distinct-append [] key d a = (tt, tt)
Distinct-append (i ∷ is) key d a = (
  All-append (λ k. k ≢ i) is (key ∷ []) d.0 ((λ e. a.0 (sym e)), tt),
  Distinct-append is key d.1 a.1,
)

drop_one-Distinct : (is : List Bytes) → Distinct is → Distinct (drop 1 is)
drop_one-Distinct [] d = tt
drop_one-Distinct (i ∷ is) d = d.1

drop_one-All :
    (key : Bytes) (is : List Bytes) → All (λ k. k ≢ key) is → All (λ k. k ≢ key) (drop 1 is)
drop_one-All key [] a = tt
drop_one-All key (i ∷ is) a = a.1

-- The list that an add makes room in.
abbrev room : List Bytes → List Bytes
room invited = if leb chan_max_invited (length invited) then drop 1 invited else invited

room-newest : (invited : List Bytes) → length invited ≤ 64 → room invited ≡ newest invited
room-newest invited l = elim (Bool-cases (leb chan_max_invited (length invited))) [
  | inl e ↦ rw e (ap (λ n. drop n invited) {x = 1} {y = length invited - 63} (ground (arith, e)))
  | inr e ↦ rw e (ap (λ n. drop n invited) {x = 0} {y = length invited - 63} (ground (arith, e)))
]

room-length : (invited : List Bytes) → length (room invited) ≤ 63 ⊎ (64 < length invited)
room-length invited = elim (Bool-cases (leb chan_max_invited (length invited))) [
  | inl e ↦ rw e (ground (arith, length-drop 1 invited))
  | inr e ↦ rw e (ground (arith, e))
]

room-Distinct : (invited : List Bytes) → Distinct invited → Distinct (room invited)
room-Distinct invited d = elim (Bool-cases (leb chan_max_invited (length invited))) [
  | inl e ↦ rw e (drop_one-Distinct invited d)
  | inr e ↦ rw e d
]

room-All :
    (invited : List Bytes) (key : Bytes)
    → All (λ k. k ≢ key) invited
    → All (λ k. k ≢ key) (room invited)
room-All invited key a = elim (Bool-cases (leb chan_max_invited (length invited))) [
  | inl e ↦ rw e (drop_one-All key invited a)
  | inr e ↦ rw e a
]

room-Inv : (invited : List Bytes) → Inv invited → Inv (room invited)
room-Inv invited v = (
  elim (room-length invited) [ inl l ↦ omega arith | inr l ↦ absurd (omega (arith, v.0)) ],
  room-Distinct invited v.1,
)

append-Inv :
    (invited : List Bytes) (nick : Bytes)
    → Inv invited
    → has_invite invited nick ≡ false
    → Inv (room invited ++ nick ∷ [])
append-Inv invited nick v n = (
  elim (room-length invited) [
    | inl l ↦ omega (arith, length-append (room invited) (nick ∷ []))
    | inr l ↦ absurd (omega (arith, v.0))
  ],
  Distinct-append (room invited) nick (room-Distinct invited v.1)
      (room-All invited nick (absent-All invited nick n)),
)

-- `channel_invite_add` keeps at most 64 different names. A new name that fits its slot stands last,
-- behind the newest 63 of the names before it, in their order; a name that is there already changes
-- nothing, and without memory for the list only the oldest of 64 names is gone.
pub channel_invite_add-newest :
    (invited : List Bytes) (nick : Bytes) (grow_ok : Bool)
    → Inv invited
    → length nick ≤ 63
    → Inv (channel_invite_add invited nick grow_ok)
      × (channel_invite_add invited nick grow_ok ≡ (
          if has_invite invited nick
          then invited
          else if grow_ok
          then newest invited ++ nick ∷ []
          else newest invited))
unfolding channel_invite_add
channel_invite_add-newest invited nick true v short = elim (Bool-cases (has_invite invited nick)) [
  | inl e ↦ rw e (v, refl)
  | inr e ↦
      rw (e, take_all 63 nick short)
        (append-Inv invited nick v e, ap (λ r. r ++ nick ∷ []) (room-newest invited v.0))
]
channel_invite_add-newest invited nick false v short = elim (Bool-cases (has_invite invited nick)) [
  | inl e ↦ rw e (v, refl)
  | inr e ↦ rw e (room-Inv invited v, room-newest invited v.0)
]

has_invite-append_self : (is : List Bytes) (nick : Bytes) → has_invite (is ++ nick ∷ []) nick ≡ true
unfolding has_invite
has_invite-append_self [] nick = rw (str_eq_refl nick) refl
has_invite-append_self (i ∷ is) nick = ground (arith, has_invite-append_self is nick)

pub has_invite-add :
    (invited : List Bytes) (nick : Bytes)
    → length nick ≤ 63
    → has_invite (channel_invite_add invited nick true) nick ≡ true
unfolding channel_invite_add
has_invite-add invited nick short = elim (Bool-cases (has_invite invited nick)) [
  | inl e ↦ rw e e
  | inr e ↦ rw (e, take_all 63 nick short) (has_invite-append_self (room invited) nick)
]

remove-All :
    (P : Bytes → Type 0) (is : List Bytes) (nick : Bytes)
    → All P is
    → All P (channel_invite_remove is nick)
unfolding channel_invite_remove
remove-All P [] nick a = tt
remove-All P (i ∷ is) nick a = elim (Bool-cases (str_eq i nick)) [
  | inl e ↦ rw e a.1
  | inr e ↦ rw e (a.0, remove-All P is nick a.1)
]

remove-Distinct :
    (is : List Bytes) (nick : Bytes) → Distinct is → Distinct (channel_invite_remove is nick)
unfolding channel_invite_remove
remove-Distinct [] nick d = tt
remove-Distinct (i ∷ is) nick d = elim (Bool-cases (str_eq i nick)) [
  | inl e ↦ rw e d.1
  | inr e ↦ rw e (remove-All (λ k. k ≢ i) is nick d.0, remove-Distinct is nick d.1)
]

length-remove :
    (is : List Bytes) (nick : Bytes) → length (channel_invite_remove is nick) ≤ length is
unfolding channel_invite_remove
length-remove [] nick = omega arith
length-remove (i ∷ is) nick = ground (arith, length-remove is nick)

not_among : (is : List Bytes) (i : Bytes) → All (λ k. k ≢ i) is → has_invite is i ≡ false
unfolding has_invite
not_among [] i a = refl
not_among (k ∷ is) i a = rw (str_eq_ne k i a.0) (not_among is i a.1)

has_invite-remove :
    (is : List Bytes) (nick key : Bytes)
    → Distinct is
    → has_invite (channel_invite_remove is nick) key ≡ (has_invite is key && not (str_eq nick key))
unfolding has_invite channel_invite_remove
has_invite-remove [] nick key d = refl
has_invite-remove (i ∷ is) nick key d = elim (Bool-cases (str_eq i nick)) [
  | inl e ↦
      let same = (str_eq_iff i nick).0 e in
      elim (Bool-cases (str_eq nick key)) [
        | inl t ↦
            let eq = same ∙ (str_eq_iff nick key).0 t in
            let gone = subst (λ k. has_invite is k ≡ false) eq (not_among is i d.0) in
            rw (e, t, gone) (ground arith)
        | inr f ↦ rw (e, ap (λ k. str_eq k key) same, f) (ground arith)
      ]
  | inr e ↦
      let more = has_invite-remove is nick key d.1 in
      elim (Bool-cases (str_eq nick key)) [
        | inl t ↦
            let other = ap (str_eq i) (sym ((str_eq_iff nick key).0 t)) ∙ e in
            rw (e, t, other) (more ∙ rw t refl)
        | inr f ↦ rw (e, f) (ground (arith, more, f))
      ]
]

-- `channel_invite_remove` keeps the invites well-formed, and a lookup then finds what it found before
-- but the removed name.
pub channel_invite_remove-found :
    (invited : List Bytes) (nick key : Bytes)
    → Inv invited
    → Inv (channel_invite_remove invited nick)
      × (has_invite (channel_invite_remove invited nick) key
          ≡ (has_invite invited key && not (str_eq nick key)))
channel_invite_remove-found invited nick key v = (
  (omega (arith, length-remove invited nick, v.0), remove-Distinct invited nick v.1),
  has_invite-remove invited nick key v.1,
)
