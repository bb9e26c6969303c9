-- ===== src/Channel/Cache.antt =====
-- src/channel.c: `channel_ban_state`, the verdicts of a member with their cache.
mod Lists
mod Ages
pub mod Room
pub mod Runs
use Prim.Native.Nat.{bit_xor}
use sekur_ircd.Base.{
  ℕ, ◌+◌, ◌*◌, ◌%◌, ◌^◌, Bool, true, not, ◌&&◌, ◌||◌, List, [], ◌∷◌, Option, none, some, ◌==◌,
  if◌then◌else◌, ◌>>=◌, Bytes,
}
use sekur_ircd.Channel.Masklist.{Masklist}
use sekur_ircd.Channel.Bans.{Extra, Identity, channel_is_banned, channel_is_quieted}

-- One step of FNV-1a at 32 bits.
abbrev pub fnv_step : ℕ → ℕ → ℕ
fnv_step h c = bit_xor h c * 16777619 % 2 ^ 32

unfoldable pub hash_text : ℕ → Bytes → ℕ
hash_text h [] = h
hash_text h (c ∷ s) = hash_text (fnv_step h c) s

-- The parts of the identity, each with a separator behind it.
unfoldable pub hash_parts : ℕ → List Bytes → ℕ
unfolding hash_text
hash_parts h [] = h
hash_parts h (s ∷ ss) = hash_parts (fnv_step (hash_text h s) 255) ss

abbrev pub flag : Bool → ℕ
flag b = if b then 1 else 0

unfoldable pub identity_hash : Option Extra → Identity → ℕ
unfolding hash_parts
identity_hash x id =
    let h =
      fnv_step
        (hash_parts 2166136261
          (id.nick ∷ id.user ∷ id.host ∷ id.realhost ∷ id.ip ∷ id.account ∷ []))
        (flag id.ident_confirmed) in
    elim x [ none ↦ h | some e ↦ fnv_step (hash_text h e.realname) (flag e.secure) ]

-- The fields `cache_*` of `member_t`.
pub record BanCache : Type 0 where
  pub valid : Bool
  pub lists_gen : ℕ
  pub ident_hash : ℕ
  pub banned : Bool
  pub quieted : Bool

abbrev pub lists_gen_of : Masklist → Masklist → ℕ
lists_gen_of bans exceptions = (bans.gen + exceptions.gen) % 2 ^ 32

unfoldable pub cache_hit : Option Extra → Identity → Masklist → Masklist → BanCache → Bool
unfolding identity_hash
cache_hit x id bans exceptions c =
    not (bans.dynamic || exceptions.dynamic)
    && (c.valid
        && (c.lists_gen == lists_gen_of bans exceptions && c.ident_hash == identity_hash x id))

unfoldable pub remember :
    Option Extra → Identity → Masklist → Masklist → Bool → Bool → BanCache → BanCache
unfolding identity_hash
remember x id bans exceptions banned quieted c =
    if bans.dynamic || exceptions.dynamic then c else record {
      valid = true;
      lists_gen = lists_gen_of bans exceptions;
      ident_hash = identity_hash x id;
      banned = banned;
      quieted = quieted;
    }

-- `*banned`, `*quieted` and the member's cache; `none` where a mask match does not return.
unfoldable pub channel_ban_state :
    Option Extra → Identity → Masklist → Masklist → BanCache → Option (Bool × (Bool × BanCache))
unfolding cache_hit remember channel_is_banned channel_is_quieted
channel_ban_state x id bans exceptions c =
    if cache_hit x id bans exceptions c then some (c.banned, (c.quieted, c)) else do
      banned ← channel_is_banned x id bans.masks exceptions.masks
      quieted ← channel_is_quieted x id bans.masks
      some (banned, (quieted, remember x id bans exceptions banned quieted c))
