-- ===== src/Protection/Slots.antt =====
-- src/protection.c, src/protection.h: the direct-mapped tables of addresses, `slot_for`, `slot_live`,
-- `slot_set` and `protection_negcache_count`.
use sekur_ircd.Base.{
  ℕ, suc, ◌*◌, ◌%◌, ◌^◌, ◌≡◌, ◌≢◌, ◌<◌, refl, Bool, false, ◌&&◌, List, [], ◌∷◌, Option, none, some,
  ltb, ◌==◌, if◌then◌else◌, length, get_elem?, set, arith, length-set, get_elem?-set_self,
  get_elem?-set_ne, eq→==,
}

pub record Slot : Type 0 where
  pub ip : ℕ
  pub expires : ℕ

-- PROT_NEGCACHE_SLOTS, PROT_RECENT_SLOTS
abbrev pub negcache_slots : ℕ
negcache_slots = 1024

abbrev pub recent_slots : ℕ
recent_slots = 64

-- `slot_for` is a pointer into the table; this is its index. The product wraps at 32 bits.
unfoldable pub slot_for : ℕ → ℕ → ℕ
slot_for n ip_be = ip_be * 2654435761 % 2 ^ 32 % n

abbrev pub live_in : Option Slot → ℕ → ℕ → Bool
live_in none ip_be now = false
live_in (some s) ip_be now = s.ip == ip_be && ltb now s.expires

unfoldable pub slot_live : List Slot → ℕ → ℕ → ℕ → Bool
unfolding slot_for
slot_live tab n ip_be now = live_in (get_elem? tab (slot_for n ip_be)) ip_be now

unfoldable pub slot_set : List Slot → ℕ → ℕ → ℕ → List Slot
unfolding slot_for
slot_set tab n ip_be until = set tab (slot_for n ip_be) (record { ip = ip_be; expires = until })

unfoldable pub protection_negcache_count : List Slot → ℕ → ℕ
protection_negcache_count [] now = 0
protection_negcache_count (s ∷ tab) now =
    let c = protection_negcache_count tab now in if ltb now s.expires then suc c else c

slot_for-lt : (n ip_be : ℕ) → 0 < n → slot_for n ip_be < n
unfolding slot_for
slot_for-lt n ip_be h = omega arith

pub length-slot_set :
    (tab : List Slot) (n ip_be until : ℕ) → length (slot_set tab n ip_be until) ≡ length tab
unfolding slot_set
length-slot_set tab n ip_be until =
    length-set tab (slot_for n ip_be) (record { ip = ip_be; expires = until })

-- An address that was set is live until then.
pub slot_live-set :
    (tab : List Slot) (n ip_be until now : ℕ)
    → length tab ≡ n
    → 0 < n
    → slot_live (slot_set tab n ip_be until) n ip_be now ≡ ltb now until
unfolding slot_live slot_set
slot_live-set tab n ip_be until now l h =
    rw
      (
        get_elem?-set_self tab (slot_for n ip_be) (record { ip = ip_be; expires = until })
            (omega (arith, l, slot_for-lt n ip_be h)),
        eq→== ip_be ip_be refl,
      )
      refl

-- Another address is live after it if it was and its slot is another one.
pub slot_live-set_other :
    (tab : List Slot) (n ip_be until other now : ℕ)
    → slot_for n ip_be ≢ slot_for n other
    → slot_live (slot_set tab n ip_be until) n other now ≡ slot_live tab n other now
unfolding slot_live slot_set
slot_live-set_other tab n ip_be until other now h =
    rw
      (get_elem?-set_ne tab (slot_for n ip_be) (slot_for n other)
        (record { ip = ip_be; expires = until }) h)
      refl
