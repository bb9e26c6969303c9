-- ===== src/Channel/Bans/Hosts.antt =====
-- `mask_hit_any_host` asks at the cloak, the real host and the address.
use sekur_ircd.Base.{
  ◌≡◌, refl, sym, ap, ◌∙◌, inl, inr, Bool, true, false, not, ◌&&◌, ◌||◌, Option, none, some,
  if◌then◌else◌, arith, Bytes, Bool-cases,
}
use sekur_ircd.Cstring.{str_eq, str_eq_iff}
use sekur_ircd.Proto.Glob.Matches.{StarFree}
use sekur_ircd.Channel.Masklist.{Mask}
use sekur_ircd.Channel.Bans.{Extra, Identity, or_else, channel_mask_hit, mask_hit_any_host}
use sekur_ircd.Channel.Bans.Rounds.{PlainUser, channel_mask_hit-Answers}

-- The texts that the matchers look at, the three hosts included, hold no literal star.
abbrev pub PlainHosts : Option Extra → Identity → Type 0
PlainHosts x id = PlainUser x id × StarFree id.host × StarFree id.realhost × StarFree id.ip

abbrev is_yes : Option Bool → Bool
is_yes none = false
is_yes (some v) = v

-- The mask hits the user at this host.
abbrev pub hits_at : Option Extra → Identity → Bytes → Bytes → Bool
hits_at x id mask host = is_yes (channel_mask_hit x id host mask)

-- The mask hits the user at the cloak, at the real host or at the address.
abbrev pub hits : Option Extra → Identity → Mask → Bool
hits x id m =
    hits_at x id m.mask id.host || hits_at x id m.mask id.realhost || hits_at x id m.mask id.ip

hits_at-Answers :
    (x : Option Extra) (id : Identity) (mask host : Bytes)
    → PlainUser x id
    → StarFree host
    → channel_mask_hit x id host mask ≡ some (hits_at x id mask host)
hits_at-Answers x id mask host f h =
    let (b, e) = channel_mask_hit-Answers x id host mask f h in
    e ∙ ap (λ r. some (is_yes r)) (sym e)

-- The host is asked about only if the test finds it to be another.
either_host :
    (t v : Bool) (r : Option Bool)
    → r ≡ some v
    → (if not t then r else some false) ≡ some (not t && v)
either_host true v r e = refl
either_host false v r e = e

or_else-or : (a b c : Bool) → or_else (some a) (or_else (some b) (some c)) ≡ some (a || b || c)
or_else-or true b c = refl
or_else-or false true c = refl
or_else-or false false c = refl

-- A host that was asked about before adds nothing.
asked_before :
    (f : Bytes → Bool) (a b c : Bytes)
    → (f a || (not (str_eq b a) && f b) || ((not (str_eq c a) && not (str_eq c b)) && f c))
      ≡ (f a || f b || f c)
asked_before f a b c = elim (Bool-cases (str_eq b a)) [
  | inl p ↦
      let h = ap f ((str_eq_iff b a).0 p) in
      elim (Bool-cases (str_eq c a)) [
        | inl q ↦ let k = ap f ((str_eq_iff c a).0 q) in ground (arith, p, q, h, k)
        | inr q ↦ elim (Bool-cases (str_eq c b)) [
          | inl r ↦ let k = ap f ((str_eq_iff c b).0 r) in ground (arith, p, q, r, h, k)
          | inr r ↦ ground (arith, p, q, r, h)
        ]
      ]
  | inr p ↦ elim (Bool-cases (str_eq c a)) [
    | inl q ↦ let k = ap f ((str_eq_iff c a).0 q) in ground (arith, p, q, k)
    | inr q ↦ elim (Bool-cases (str_eq c b)) [
      | inl r ↦ let k = ap f ((str_eq_iff c b).0 r) in ground (arith, p, q, r, k)
      | inr r ↦ ground (arith, p, q, r)
    ]
  ]
]

pub mask_hit_any_host-hits :
    (x : Option Extra) (id : Identity) (m : Mask)
    → PlainHosts x id
    → mask_hit_any_host x id m.mask ≡ some (hits x id m)
unfolding mask_hit_any_host
mask_hit_any_host-hits x id m (f, h, r, i) =
    let at_host = hits_at-Answers x id m.mask id.host f h in
    let at_real = hits_at-Answers x id m.mask id.realhost f r in
    let at_ip = hits_at-Answers x id m.mask id.ip f i in
    let next = not (str_eq id.ip id.host) && not (str_eq id.ip id.realhost) in
    rw at_host (
      ap (or_else (some (hits_at x id m.mask id.host))) (
        ap (λ o. or_else o (if next then channel_mask_hit x id id.ip m.mask else some false))
          (either_host (str_eq id.realhost id.host) _ _ at_real)
        ∙ ap (or_else (some (not (str_eq id.realhost id.host) && hits_at x id m.mask id.realhost)))
            (either_ip next _ _ at_ip)))
    ∙ or_else-or (hits_at x id m.mask id.host)
        (not (str_eq id.realhost id.host) && hits_at x id m.mask id.realhost)
        (next && hits_at x id m.mask id.ip)
    ∙ ap some (asked_before (hits_at x id m.mask) id.host id.realhost id.ip)
  where
    either_ip :
        (t v : Bool) (r : Option Bool) → r ≡ some v → (if t then r else some false) ≡ some (t && v)
    either_ip true v r e = e
    either_ip false v r e = refl
