-- ===== src/Channel/Bans.antt =====
-- src/channel.c: which masks hit a user, and what that makes of bans, quiets and exceptions.
-- `none` is a mask match that does not return.
pub mod Verdicts
pub mod Rounds
pub mod Hosts
use sekur_ircd.Base.{
  ℕ, zero, suc, Bool, true, false, not, ◌&&◌, ◌||◌, List, [], ◌∷◌, Option, none, some, ◌==◌,
  if◌then◌else◌, Bytes, length, ◌-◌, take,
}
use sekur_ircd.Cstring.{codes, tolower, str_eq, str_case_eq, strip_case_prefix, split_at}
use sekur_ircd.Proto.Strings.{irc_casefold}
use sekur_ircd.Proto.Glob.{irc_glob_match}
use sekur_ircd.Proto.Mask.{irc_mask_match}
use sekur_ircd.Channel.Invites.{has_invite}
use sekur_ircd.Channel.Masklist.{Mask, mask_body, strip_tilde, has_prefix}

-- The client behind `g_extra`: its certificate's fingerprint and the casefolded names of its channels.
pub record Peer : Type 0 where
  pub certfp : Bytes
  pub channels : List Bytes

-- `ban_extra_t`
pub record Extra : Type 0 where
  pub realname : Bytes
  pub secure : Bool
  pub cl : Option Peer

-- What the matchers look at; an account of NULL is the empty one.
pub record Identity : Type 0 where
  pub nick : Bytes
  pub user : Bytes
  pub host : Bytes
  pub realhost : Bytes
  pub ip : Bytes
  pub account : Bytes
  pub ident_confirmed : Bool

unfoldable pub without_colons : Bytes → Bytes
without_colons [] = []
without_colons (c ∷ s) = let rest = without_colons s in if c == b':' then rest else c ∷ rest

-- The loop over two fingerprints, colons optional on both sides.
unfoldable pub same_fingerprint : Bytes → Bytes → Bool
unfolding without_colons str_case_eq
same_fingerprint a b = str_case_eq (without_colons a) (without_colons b)

unfoldable pub in_channel : List Bytes → Bytes → Bool
unfolding str_eq
in_channel [] cf = false
in_channel (n ∷ ns) cf = str_eq n cf || in_channel ns cf

-- `S:`, in this case only
unfoldable pub strip_certfp : Bytes → Option Bytes
strip_certfp (c ∷ d ∷ s) = if c == b'S' && d == b':' then some s else none
strip_certfp _ = none

unfoldable pub hit_account : Bytes → Bytes → Option Bool
unfolding irc_glob_match
hit_account mask [] = some false
hit_account mask (c ∷ account) = irc_glob_match mask (c ∷ account)

unfoldable pub hit_realname : Option Extra → Bytes → Option Bool
unfolding irc_glob_match
hit_realname none mask = some false
hit_realname (some x) mask = irc_glob_match mask x.realname

unfoldable pub hit_certfp : Option Extra → Bytes → Bool
unfolding same_fingerprint
hit_certfp none mask = false
hit_certfp (some x) mask = elim x.cl [
  | none ↦ false
  | some cl ↦ elim cl.certfp [ [] ↦ false | c ∷ s ↦ same_fingerprint mask cl.certfp ]
]

unfoldable pub hit_member : Option Extra → Bytes → Bool
unfolding in_channel irc_casefold
hit_member none chan = false
hit_member (some x) chan = elim x.cl [
  | none ↦ false
  | some cl ↦ in_channel cl.channels (irc_casefold 64 chan)
]

abbrev pub is_secure : Option Extra → Bool
is_secure none = false
is_secure (some x) = x.secure

-- The extbans but `f:`, and the ordinary masks, on `mask` without its tilde.
unfoldable pub hit_plain : Option Extra → Identity → Bytes → Bytes → Option Bool
unfolding strip_case_prefix str_case_eq strip_certfp hit_account hit_realname hit_certfp hit_member
    irc_mask_match
hit_plain x id host mask = elim (strip_case_prefix (codes "a:") mask) [
  | some m ↦ hit_account m id.account
  | none ↦ elim (strip_case_prefix (codes "r:") mask) [
    | some m ↦ hit_realname x m
    | none ↦ if str_case_eq mask (codes "z") then some (is_secure x) else elim (strip_certfp mask) [
      | some m ↦ some (hit_certfp x m)
      | none ↦ elim (strip_case_prefix (codes "j:") mask) [
        | some m ↦ some (hit_member x m)
        | none ↦ irc_mask_match id.nick id.user host mask id.ident_confirmed
      ]
    ]
  ]
]

-- `channel_mask_hit` on a fuel that bounds the nested `f:` masks.
unfoldable pub mask_hit_from : ℕ → Option Extra → Identity → Bytes → Bytes → Option Bool
unfolding mask_body strip_tilde strip_case_prefix split_at hit_plain
mask_hit_from zero x id host mask = none
mask_hit_from (suc fuel) x id host mask =
    let bare = strip_tilde (mask_body mask) in
    elim (strip_case_prefix (codes "f:") bare) [
      | none ↦ hit_plain x id host bare
      | some m ↦ elim (split_at b':' m) [
        | none ↦ some false
        | some (chan, inner) ↦ mask_hit_from fuel x id host inner
      ]
    ]

-- One more round than the mask has bytes: every nested mask is shorter.
unfoldable pub channel_mask_hit : Option Extra → Identity → Bytes → Bytes → Option Bool
unfolding mask_hit_from
channel_mask_hit x id host mask = mask_hit_from (suc (length mask)) x id host mask

unfoldable pub is_quiet_mask : Bytes → Bool
unfolding mask_body strip_tilde has_prefix
is_quiet_mask mask =
    let bare = strip_tilde (mask_body mask) in
    has_prefix (codes "m:") bare || has_prefix (codes "n:") bare

-- The next test of an `if (...) return 1;` chain, where the ones before it were false.
abbrev pub or_else : Option Bool → Option Bool → Option Bool
or_else none next = none
or_else (some true) next = some true
or_else (some false) next = next

unfoldable pub mask_hit_any_host : Option Extra → Identity → Bytes → Option Bool
unfolding channel_mask_hit str_eq
mask_hit_any_host x id mask = or_else (channel_mask_hit x id id.host mask) (
    or_else
      (if not (str_eq id.realhost id.host)
        then channel_mask_hit x id id.realhost mask
        else some false)
      (if not (str_eq id.ip id.host) && not (str_eq id.ip id.realhost)
        then channel_mask_hit x id id.ip mask
        else some false))

-- The loop of `action_ban_hit`: `[~]<letter>:<mask>`.
unfoldable pub action_ban_hit : Option Extra → Identity → ℕ → List Mask → Option Bool
unfolding mask_body strip_tilde tolower mask_hit_any_host
action_ban_hit x id letter [] = some false
action_ban_hit x id letter (b ∷ bans) =
    let rest = action_ban_hit x id letter bans in
    elim (strip_tilde (mask_body b.mask)) [
      | [] ↦ rest
      | c ∷ [] ↦ rest
      | c ∷ d ∷ m ↦
          if not (tolower c == letter) || not (d == b':')
          then rest
          else or_else (mask_hit_any_host x id m) rest
    ]

unfoldable pub channel_is_quieted : Option Extra → Identity → List Mask → Option Bool
unfolding action_ban_hit
channel_is_quieted x id bans = action_ban_hit x id b'm' bans

unfoldable pub channel_is_nickbanned : Option Extra → Identity → List Mask → Option Bool
unfolding action_ban_hit
channel_is_nickbanned x id bans = action_ban_hit x id b'n' bans

-- The loop over the bans, which passes over the quiet masks.
unfoldable pub ban_hit : Option Extra → Identity → List Mask → Option Bool
unfolding is_quiet_mask mask_hit_any_host
ban_hit x id [] = some false
ban_hit x id (b ∷ bans) =
    let rest = ban_hit x id bans in
    if is_quiet_mask b.mask then rest else or_else (mask_hit_any_host x id b.mask) rest

-- The loop over the exceptions.
unfoldable pub exception_hit : Option Extra → Identity → List Mask → Option Bool
unfolding mask_hit_any_host
exception_hit x id [] = some false
exception_hit x id (e ∷ es) = or_else (mask_hit_any_host x id e.mask) (exception_hit x id es)

unfoldable pub channel_is_banned : Option Extra → Identity → List Mask → List Mask → Option Bool
unfolding ban_hit exception_hit
channel_is_banned x id bans exceptions = elim (ban_hit x id bans) [
  | none ↦ none
  | some false ↦ some false
  | some true ↦ elim (exception_hit x id exceptions) [ none ↦ none | some e ↦ some (not e) ]
]

-- Where a `~f:#chan:<mask>` ban that hits sends the user.
unfoldable pub channel_ban_forward : Option Extra → Identity → ℕ → List Mask → Option (Option Bytes)
unfolding mask_body strip_case_prefix split_at mask_hit_any_host
channel_ban_forward x id outsz [] = some none
channel_ban_forward x id outsz (b ∷ bans) =
    let rest = channel_ban_forward x id outsz bans in
    let m = mask_body b.mask in
    elim (strip_case_prefix (codes "~f:") m) [
      | none ↦ rest
      | some r ↦ elim (split_at b':' r) [
        | none ↦ rest
        | some (chan, inner) ↦ elim (mask_hit_any_host x id m) [
          | none ↦ none
          | some false ↦ rest
          | some true ↦ some (some (take (outsz - 1) chan))
        ]
      ]
    ]

-- The loop over the invite exceptions.
unfoldable pub invex_hit : Option Extra → Identity → List Mask → Option Bool
unfolding channel_mask_hit
invex_hit x id [] = some false
invex_hit x id (m ∷ ms) = or_else (channel_mask_hit x id id.host m.mask) (invex_hit x id ms)

unfoldable pub channel_is_invited :
    Option Extra → Identity → List Bytes → List Mask → Bytes → Option Bool
unfolding has_invite invex_hit
channel_is_invited x id invited invex key =
    if has_invite invited key then some true else invex_hit x id invex
