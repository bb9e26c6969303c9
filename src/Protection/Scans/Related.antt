-- ===== src/Protection/Scans/Related.antt =====
-- How often `protection_ip_related` exempts an address.
use sekur_ircd.Base.{
  ℕ, ◌≤◌, ◌≡◌, refl, sym, ap, ◌∙◌, inl, inr, Bool, true, false, List, [], ◌∷◌, some, length, All,
  arith, Bool-cases, le→ltb,
}
use sekur_ircd.Protection.Slots.{recent_slots, slot_live, slot_set, slot_live-set}
use sekur_ircd.Protection.Scans.{Prot, has_ip, protection_ip_related}

-- The answers to the connections of one address, one after the other at the given times.
pub ask_all : ℕ → List ℕ → Prot → List Bool
ask_all ip_be [] p = []
ask_all ip_be (now ∷ times) p =
    let (b, q) = protection_ip_related (some ip_be) now p in b ∷ ask_all ip_be times q

-- While a probe of an address is in flight, every connection from it is exempt, whatever their
-- number: the slot that each of them uses up is not asked for.
pub ask_all-scanning :
    (ip_be : ℕ) (times : List ℕ) (p : Prot)
    → has_ip p.scans ip_be ≡ true
    → All (λ b. b ≡ true) (ask_all ip_be times p)
unfolding ask_all protection_ip_related
ask_all-scanning ip_be [] p h = tt
ask_all-scanning ip_be (now ∷ times) p h = rw h (
  refl,
  ask_all-scanning ip_be times (record p { recent = slot_set p.recent recent_slots ip_be now }) h,
)

-- The answer by the slot alone.
related_by_slot :
    (ip_be now : ℕ) (p : Prot)
    → has_ip p.scans ip_be ≡ false
    → (protection_ip_related (some ip_be) now p).0 ≡ slot_live p.recent recent_slots ip_be now
unfolding protection_ip_related
related_by_slot ip_be now p h =
    rw h (elim (Bool-cases (slot_live p.recent recent_slots ip_be now)) [
      | inl s ↦ rw s refl
      | inr s ↦ rw s refl
    ])

granted :
    (ip_be now : ℕ) (p : Prot)
    → has_ip p.scans ip_be ≡ false
    → slot_live p.recent recent_slots ip_be now ≡ true
    → (protection_ip_related (some ip_be) now p).1
      ≡ record p { recent = slot_set p.recent recent_slots ip_be now }
unfolding protection_ip_related
granted ip_be now p h s = rw (h, s) refl

-- Once no probe is in flight, the exemption is for one connection: the next question, not earlier
-- than the first, is answered with no.
pub protection_ip_related-once :
    (ip_be now later : ℕ) (p : Prot)
    → length p.recent ≡ recent_slots
    → has_ip p.scans ip_be ≡ false
    → (protection_ip_related (some ip_be) now p).0 ≡ true
    → now ≤ later
    → (protection_ip_related (some ip_be) later ((protection_ip_related (some ip_be) now p).1)).0
      ≡ false
protection_ip_related-once ip_be now later p l h t le =
    let live = sym (related_by_slot ip_be now p h) ∙ t in
    ap (λ q. (protection_ip_related (some ip_be) later q).0) (granted ip_be now p h live)
    ∙ related_by_slot ip_be later (record p { recent = slot_set p.recent recent_slots ip_be now }) h
    ∙ slot_live-set p.recent recent_slots ip_be now later l (omega arith)
    ∙ le→ltb later now le
