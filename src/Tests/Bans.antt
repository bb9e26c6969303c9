-- ===== src/Tests/Bans.antt =====
-- Bans at concrete inputs.
use sekur_ircd.Base.{◌≡◌, refl, Bool, true, false, [], ◌∷◌, Option, some, Bytes, arith, not, ◌&&◌}
use sekur_ircd.Cstring.{codes}
use sekur_ircd.Channel.Invites.{channel_invite_add}
use sekur_ircd.Channel.Masklist.{Mask, is_dynamic}
use sekur_ircd.Channel.Bans.{
  Extra, Identity, channel_mask_hit, hit_member, mask_hit_any_host, channel_is_quieted,
  channel_is_banned, channel_is_invited,
}
use sekur_ircd.Channel.Bans.Rounds.{PlainUser, channel_mask_hit-Answers}
use sekur_ircd.Channel.Bans.Hosts.{PlainHosts, hits}
use sekur_ircd.Channel.Bans.Verdicts.{
  quiet_members, quiet_members-not_dynamic, only_restricts, exists, channel_is_banned-exists,
  channel_is_invited-add,
}

abbrev pub ann : Identity
ann = record {
  nick = codes "ann";
  user = codes "ann";
  host = codes "cloak";
  realhost = codes "host.example";
  ip = codes "192.0.2.1";
  account = codes "ann";
  ident_confirmed = false;
}

abbrev pub in_dev : Option Extra
in_dev = some (record {
  realname = codes "Ann";
  secure = true;
  cl = some (record { certfp = []; channels = codes "#dev" ∷ [] });
})

abbrev mask_of : Bytes → Mask
mask_of m = record { mask = m; set_at = 0; set_by = [] }

host_hits : mask_hit_any_host in_dev ann (codes "*!*@host.example") ≡ some true
unfolding mask_hit_any_host
host_hits = refl

account_hits : mask_hit_any_host in_dev ann (codes "~a:ann") ≡ some true
unfolding mask_hit_any_host
account_hits = refl

ann-PlainUser : PlainUser in_dev ann
ann-PlainUser = (omega arith, omega arith, omega arith, omega arith)

ann-PlainHosts : PlainHosts in_dev ann
ann-PlainHosts = (ann-PlainUser, omega arith, omega arith, omega arith)

channel_is_banned-exists_example :
    channel_is_banned in_dev ann
      (mask_of (codes "*!*@host.example") ∷ [])
      (mask_of (codes "~a:ann") ∷ [])
    ≡ some (
        exists
          (λ b. not (only_restricts b) && hits in_dev ann b)
          (mask_of (codes "*!*@host.example") ∷ [])
        && not (exists (hits in_dev ann) (mask_of (codes "~a:ann") ∷ [])))
channel_is_banned-exists_example =
    channel_is_banned-exists in_dev ann (mask_of (codes "*!*@host.example") ∷ [])
      (mask_of (codes "~a:ann") ∷ []) ann-PlainHosts

excepted :
    channel_is_banned in_dev ann
      (mask_of (codes "*!*@host.example") ∷ [])
      (mask_of (codes "~a:ann") ∷ [])
    ≡ some false
unfolding channel_is_banned
excepted = refl

quiet_members-not_dynamic_example :
    (is_dynamic (quiet_members (codes "#dev")) ≡ false)
    × (channel_is_quieted in_dev ann (mask_of (quiet_members (codes "#dev")) ∷ [])
        ≡ some (hit_member in_dev (codes "#dev")))
quiet_members-not_dynamic_example = quiet_members-not_dynamic in_dev ann (codes "#dev") 0 []

channel_is_invited-add_example :
    channel_is_invited in_dev ann
      (channel_invite_add (codes "bob" ∷ []) (codes "ann") true)
      []
      (codes "ann")
    ≡ some true
channel_is_invited-add_example =
    channel_is_invited-add in_dev ann (codes "bob" ∷ []) [] (codes "ann") (omega arith)

channel_mask_hit-Answers_example :
    (b : Bool) × (channel_mask_hit in_dev ann ann.host (codes "~f:#a:~f:#b:~a:ann") ≡ some b)
channel_mask_hit-Answers_example =
    channel_mask_hit-Answers in_dev ann ann.host (codes "~f:#a:~f:#b:~a:ann") ann-PlainUser
      (omega arith)
