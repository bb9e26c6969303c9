-- ===== src/Channel/Bans/Verdicts.antt =====
-- What the verdicts on bans and quiets depend on.
use sekur_ircd.Base.{
  ℕ, ◌≡◌, refl, ap, ◌∙◌, inl, inr, Bool, true, false, not, ◌&&◌, ◌||◌, List, [], ◌∷◌, ◌++◌, Option,
  some, if◌then◌else◌, ◌==◌, arith, Bytes, length, ◌≤◌, Bool-cases,
}
use sekur_ircd.Cstring.{codes, tolower, strip_case_prefix, str_eq}
use sekur_ircd.Channel.Invites.{channel_invite_add}
use sekur_ircd.Channel.Invites.Queue.{has_invite-add}
use sekur_ircd.Channel.Masklist.{Mask, is_dynamic, mask_body, strip_tilde, has_prefix}
use sekur_ircd.Channel.Bans.{
  Extra, Identity, hit_member, or_else, channel_is_quieted, ban_hit, exception_hit, is_quiet_mask,
  channel_is_banned, channel_is_invited,
}
use sekur_ircd.Channel.Bans.Hosts.{PlainHosts, hits, mask_hit_any_host-hits}

-- A quiet on the members of a channel.
abbrev pub quiet_members : Bytes → Bytes
quiet_members chan = codes "~m:~j:" ++ chan

same_everywhere :
    (v t u : Bool)
    → or_else
        (some v)
        (or_else (if t then some v else some false) (if u then some v else some false))
      ≡ some v
same_everywhere true t u = refl
same_everywhere false true true = refl
same_everywhere false true false = refl
same_everywhere false false true = refl
same_everywhere false false false = refl

or_else-false : (v : Bool) → or_else (some v) (some false) ≡ some v
or_else-false true = refl
or_else-false false = refl

-- A quiet on the members of another channel is decided by the channels that the client is in, and yet
-- it does not mark its list as dynamic.
pub quiet_members-not_dynamic :
    (x : Option Extra) (id : Identity) (chan : Bytes) (set_at : ℕ) (set_by : Bytes)
    → (is_dynamic (quiet_members chan) ≡ false)
      × (channel_is_quieted x id
            (record { mask = quiet_members chan; set_at = set_at; set_by = set_by } ∷ [])
          ≡ some (hit_member x chan))
unfolding channel_is_quieted is_dynamic
quiet_members-not_dynamic x id chan set_at set_by = (
  refl,
  ap (λ o. or_else o (some false))
        (same_everywhere (hit_member x chan) (not (str_eq id.realhost id.host))
          (not (str_eq id.ip id.host) && not (str_eq id.ip id.realhost)))
      ∙ or_else-false (hit_member x chan),
)

-- An `m:` or an `n:`, in either case.
abbrev restricts : Bytes → Bool
restricts [] = false
restricts (c ∷ []) = false
restricts (c ∷ d ∷ s) = (c == b'm' || c == b'M' || c == b'n' || c == b'N') && d == b':'

-- A mask that only quiets or only holds the nick: behind its `~t:` and its tilde.
abbrev pub only_restricts : Mask → Bool
only_restricts m = restricts (strip_tilde (mask_body m.mask))

-- Some mask of the list passes the test.
abbrev pub exists : (Mask → Bool) → List Mask → Bool
exists test [] = false
exists test (m ∷ ms) = test m || exists test ms

letter_m : (c : ℕ) → (tolower b'm' == tolower c) ≡ (c == b'm' || c == b'M')
unfolding tolower
letter_m c = ground arith

letter_n : (c : ℕ) → (tolower b'n' == tolower c) ≡ (c == b'n' || c == b'N')
unfolding tolower
letter_n c = ground arith

letter_colon : (c : ℕ) → (tolower b':' == tolower c) ≡ (c == b':')
unfolding tolower
letter_colon c = ground arith

two_letters :
    (x : ℕ) (c d : ℕ) (s : Bytes)
    → has_prefix (x ∷ b':' ∷ []) (c ∷ d ∷ s) ≡ (tolower x == tolower c && tolower b':' == tolower d)
unfolding has_prefix strip_case_prefix
two_letters x c d s = elim (Bool-cases (tolower x == tolower c)) [
  | inl p ↦ elim (Bool-cases (tolower b':' == tolower d)) [
    | inl q ↦ rw (p, q, has_prefix) refl
    | inr q ↦ rw (p, q, has_prefix) refl
  ]
  | inr p ↦ rw (p, has_prefix) refl
]

one_letter : (x c : ℕ) → has_prefix (x ∷ b':' ∷ []) (c ∷ []) ≡ false
unfolding has_prefix strip_case_prefix
one_letter x c = elim (Bool-cases (tolower x == tolower c)) [
  | inl p ↦ rw (p, has_prefix) refl
  | inr p ↦ rw (p, has_prefix) refl
]

no_letter : (x : ℕ) → has_prefix (x ∷ b':' ∷ []) [] ≡ false
unfolding has_prefix strip_case_prefix
no_letter x = refl

restricts-has_prefix :
    (s : Bytes) → (has_prefix (codes "m:") s || has_prefix (codes "n:") s) ≡ restricts s
restricts-has_prefix [] = rw (no_letter b'm', no_letter b'n') refl
restricts-has_prefix (c ∷ []) = rw (one_letter b'm' c, one_letter b'n' c) refl
restricts-has_prefix (c ∷ d ∷ s) =
    rw (two_letters b'm' c d s, two_letters b'n' c d s, letter_m c, letter_n c, letter_colon d)
      (ground arith)

is_quiet_mask-only_restricts : (m : Mask) → is_quiet_mask m.mask ≡ only_restricts m
unfolding is_quiet_mask
is_quiet_mask-only_restricts m = restricts-has_prefix (strip_tilde (mask_body m.mask))

ban_hit-exists :
    (x : Option Extra) (id : Identity) (bans : List Mask)
    → PlainHosts x id
    → ban_hit x id bans ≡ some (exists (λ b. not (only_restricts b) && hits x id b) bans)
unfolding ban_hit
ban_hit-exists x id [] f = refl
ban_hit-exists x id (b ∷ bans) f =
    rw (is_quiet_mask-only_restricts b, mask_hit_any_host-hits x id b f, ban_hit-exists x id bans f)
      (step (only_restricts b) (hits x id b) _)
  where
    step :
        (q h r : Bool)
        → (if q then some r else or_else (some h) (some r)) ≡ some ((not q && h) || r)
    step true h r = refl
    step false true r = refl
    step false false r = refl

exception_hit-exists :
    (x : Option Extra) (id : Identity) (es : List Mask)
    → PlainHosts x id
    → exception_hit x id es ≡ some (exists (hits x id) es)
unfolding exception_hit
exception_hit-exists x id [] f = refl
exception_hit-exists x id (m ∷ es) f =
    rw (mask_hit_any_host-hits x id m f, exception_hit-exists x id es f) (step (hits x id m) _)
  where
    step : (h r : Bool) → or_else (some h) (some r) ≡ some (h || r)
    step true r = refl
    step false r = refl

-- For a user whose nick, user name, account, realname, cloak, real host and address hold no literal `*`,
-- `channel_is_banned` returns, and answers that the user is banned exactly if some ban that is no `m:`
-- and no `n:` hits the user at the cloak, the real host or the address, and no exception hits the user
-- at any of the three.
pub channel_is_banned-exists :
    (x : Option Extra) (id : Identity) (bans exceptions : List Mask)
    → PlainHosts x id
    → channel_is_banned x id bans exceptions
      ≡ some (
          exists (λ b. not (only_restricts b) && hits x id b) bans
          && not (exists (hits x id) exceptions))
unfolding channel_is_banned
channel_is_banned-exists x id bans exceptions f =
    verdict (exists (λ b. not (only_restricts b) && hits x id b) bans) (ban_hit-exists x id bans f)
  where
    verdict :
        (t : Bool)
        → ban_hit x id bans ≡ some t
        → channel_is_banned x id bans exceptions ≡ some (t && not (exists (hits x id) exceptions))
    verdict true e = rw (e, exception_hit-exists x id exceptions f, channel_is_banned) refl
    verdict false e = rw (e, channel_is_banned) refl

-- An invitation that fits its slot, given where memory for the list is there, lets the user past +i at
-- once, whatever the other invitations, the invite exceptions and the user's identity.
pub channel_is_invited-add :
    (x : Option Extra) (id : Identity) (invited : List Bytes) (invex : List Mask) (nick : Bytes)
    → length nick ≤ 63
    → channel_is_invited x id (channel_invite_add invited nick true) invex nick ≡ some true
unfolding channel_is_invited
channel_is_invited-add x id invited invex nick short = rw (has_invite-add invited nick short) refl
