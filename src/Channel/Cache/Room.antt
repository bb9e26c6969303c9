-- ===== src/Channel/Cache/Room.antt =====
-- A member's cache over the life of its channel: the lists change, and the verdicts are asked for.
use sekur_ircd.Base.{
  ℕ, ◌≤◌, ◌≡◌, Bool, false, List, [], ◌∷◌, Option, none, some, ◌>>=◌, Bytes, All, length,
}
use sekur_ircd.Channel.Masklist.{Mask, Masklist, masklist_add, masklist_del}
use sekur_ircd.Channel.Bans.{Extra, Identity, channel_is_banned, channel_is_quieted}
use sekur_ircd.Channel.Cache.{BanCache, identity_hash, channel_ban_state}
use sekur_ircd.Channel.Cache.Lists.{Still}

-- The two lists of a channel that a verdict depends on, and one member's cache.
pub record Room : Type 0 where
  pub bans : Masklist
  pub exceptions : Masklist
  pub cache : BanCache

pub data Event : Type 0 where
  ban : Bytes → ℕ → Bool → Event
  unban : Bytes → Event
  except : Bytes → ℕ → Bool → Event
  unexcept : Bytes → Event
  ask : Option Extra → Identity → Event

-- What an answer leaves in the member.
abbrev cache_after : BanCache → Option (Bool × (Bool × BanCache)) → BanCache
cache_after c none = c
cache_after c (some (banned, (quieted, d))) = d

abbrev pub step : Room → Event → Room
step r (ban mask now ok) = record r { bans = (masklist_add r.bans mask now ok).0 }
step r (unban mask) = record r { bans = (masklist_del r.bans mask).0 }
step r (except mask now ok) = record r { exceptions = (masklist_add r.exceptions mask now ok).0 }
step r (unexcept mask) = record r { exceptions = (masklist_del r.exceptions mask).0 }
step r (ask x id) = record r {
  cache = cache_after r.cache (channel_ban_state x id r.bans r.exceptions r.cache);
}

-- The events in the order of the list.
abbrev pub run : Room → List Event → Room
run r [] = r
run r (e ∷ es) = run (step r e) es

-- Both verdicts, without a cache.
abbrev pub verdicts : Option Extra → Identity → List Mask → List Mask → Option (Bool × Bool)
verdicts x id bans exceptions = do
  banned ← channel_is_banned x id bans exceptions
  quieted ← channel_is_quieted x id bans
  some (banned, quieted)

abbrev pub answer : Option (Bool × (Bool × BanCache)) → Option (Bool × Bool)
answer none = none
answer (some (banned, (quieted, d))) = some (banned, quieted)

-- What `channel_ban_state` answers in a room.
abbrev pub asked : Room → Option Extra → Identity → Option (Bool × Bool)
asked r x id = answer (channel_ban_state x id r.bans r.exceptions r.cache)

abbrev pub Identities : Type 1
Identities = Option Extra → Identity → Type 0

-- Two of the identities that have the same hash have the same verdicts on all lists of masks that may
-- be set and are no `~j:` masks.
abbrev pub NoClash : (Bytes → Type 0) → Identities → Type 0
NoClash Allowed Has =
    (x : Option Extra) (id : Identity) (y : Option Extra) (other : Identity)
    (bans exceptions : List Mask)
    → Has x id
    → Has y other
    → identity_hash x id ≡ identity_hash y other
    → All (λ m. Allowed m.mask) bans
    → All (λ m. Allowed m.mask) exceptions
    → All Still bans
    → All Still exceptions
    → verdicts x id bans exceptions ≡ verdicts y other bans exceptions

-- Only such masks are set, of at most 255 bytes, and only such identities ask.
abbrev pub Proper : (Bytes → Type 0) → Identities → Event → Type 0
Proper Allowed Has (ban mask now ok) = Allowed mask × (length mask ≤ 255)
Proper Allowed Has (unban mask) = Unit
Proper Allowed Has (except mask now ok) = Allowed mask × (length mask ≤ 255)
Proper Allowed Has (unexcept mask) = Unit
Proper Allowed Has (ask x id) = Has x id

abbrev pub empty_list : Masklist
empty_list = record { allocated = false; masks = []; gen = 0; dynamic = false }

-- A new channel with a new member.
abbrev pub new_room : Room
new_room = record {
  bans = empty_list;
  exceptions = empty_list;
  cache = record { valid = false; lists_gen = 0; ident_hash = 0; banned = false; quieted = false };
}
