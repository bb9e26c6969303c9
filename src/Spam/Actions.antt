-- ===== src/Spam/Actions.antt =====
-- src/spam.c: what is done about a text, `is_exempt`, `apply_action` and `run_filters`.
use Prim.Native.Nat.{bit_and}
use sekur_ircd.Base.{
  ℕ, ◌+◌, Bool, not, ◌&&◌, ◌||◌, List, [], ◌∷◌, ◌++◌, Option, none, some, ltb, ◌==◌, if◌then◌else◌,
  Bytes, take,
}
use sekur_ircd.Cstring.{codes, str_eq}
use sekur_ircd.Client.{Client, is_oper, client_prefix}
use sekur_ircd.Client.Queues.{client_mark_quit}
use sekur_ircd.Protection.Text.{is_empty}
use sekur_ircd.Spam.Rules.{SpamAction, block, warn, kill, zline, hide, shun, action_name, Filter}
use sekur_ircd.Spam.Codes.{strip_codes, snippet}

-- `cfg_spam_t`
pub record SpamConfig : Type 0 where
  pub enabled : Bool
  pub exempt_opers : Bool
  pub exempt_identified : Bool
  pub trust_age : ℕ
  pub new_user_period : ℕ
  pub max_targets : ℕ
  pub target_window : ℕ
  pub max_repeat : ℕ
  pub limit_action : Bytes
  pub zline_duration : ℕ
  pub filters_enabled : Bool

-- The parts of the server that a check reads and writes: every connection, the sender's too, the
-- queue of those to tear down, the rules and the count of hits.
pub record Net : Type 0 where
  pub clients : List Client
  pub dead : List ℕ
  pub filters : List Filter
  pub spam_hits : ℕ

-- What a check asks of other parts: `server_notify_opers`, `notice_self`, `server_kline_add(mask,
-- reason, type, duration)` and `netsync_shun(mask, expiry, reason)`.
pub data SpamEffect : Type 0 where
  notify_opers : Bytes → SpamEffect
  notice_self : Bytes → SpamEffect
  kline_add : Bytes → Bytes → Bytes → ℕ → SpamEffect
  netsync_shun : Bytes → ℕ → Bytes → SpamEffect

-- 0 delivers, 1 drops, 2 drops while it looks sent.
abbrev pub Verdict : Type 0
Verdict = ℕ × (Net × List SpamEffect)

unfoldable pub is_exempt : SpamConfig → Client → Bool
is_exempt sp cl =
    not cl.has_socket
    || (cl.is_service
        || (sp.exempt_opers && is_oper cl || sp.exempt_identified && not (is_empty cl.account)))

-- The store after a write through the client's pointer.
unfoldable pub put_client : Client → List Client → List Client
put_client c [] = []
put_client c (d ∷ ds) = let rest = put_client c ds in if d.id == c.id then c ∷ ds else d ∷ rest

unfoldable pub hit_note : Client → SpamAction → Bytes → Bytes → Bytes → Bytes
unfolding client_prefix snippet action_name
hit_note cl act reason what text = take 699 (
    codes "Spam: "
    ++ client_prefix cl 320
    ++ codes " ["
    ++ cl.ip
    ++ codes "] "
    ++ action_name act
    ++ codes " ("
    ++ reason
    ++ codes "): \""
    ++ snippet text 80
    ++ codes "\" -> "
    ++ what)

abbrev pub spam_reason : ℕ → Bytes → Bytes
spam_reason n reason = take n (codes "Spam: " ++ reason)

abbrev pub ban_duration : SpamConfig → ℕ → ℕ
ban_duration sp duration = if ltb 0 duration then duration else sp.zline_duration

-- The others that a Z-line ends: local connections of that address that are not ending and no opers.
unfoldable pub zlined : Client → Client → Bool
zlined cl c =
    not (c.id == cl.id)
    && (c.has_socket && (not c.quitting && (not (is_oper c) && str_eq c.ip cl.ip)))

unfoldable pub quit_others : Client → Bytes → List Client → List ℕ → List Client × List ℕ
unfolding zlined client_mark_quit
quit_others cl why [] dead = ([], dead)
quit_others cl why (c ∷ cs) dead =
    let (d, dead') = client_mark_quit (record c { quit_reason = why }) dead in
    let (ds, q) = quit_others cl why cs (if zlined cl c then dead' else dead) in
    ((if zlined cl c then d else c) ∷ ds, q)

abbrev pub counted : Net → Net
counted net = record net { spam_hits = net.spam_hits + 1 }

-- SPAM_KILL and SPAM_ZLINE end the sender.
unfoldable pub quit_sender : Client → Bytes → Net → Net
unfolding put_client client_mark_quit
quit_sender cl reason net =
    let (c, dead) =
      client_mark_quit (record cl { quit_reason = spam_reason 255 reason }) net.dead in
    record net { clients = put_client c net.clients; dead = dead }

unfoldable pub quit_address : Client → Bytes → Net → Net
unfolding quit_others
quit_address cl reason net =
    let (cs, dead) = quit_others cl (spam_reason 255 reason) net.clients net.dead in
    record net { clients = cs; dead = dead }

unfoldable pub shun_effects : SpamConfig → Client → ℕ → Bytes → ℕ → List SpamEffect
shun_effects sp cl duration reason now =
    if is_empty cl.ip
    then []
    else (let dur = ban_duration sp duration in
        let mask = take 79 (codes "*@" ++ cl.ip) in
        kline_add mask (spam_reason 199 reason) (codes "S") dur
        ∷ netsync_shun mask (if ltb 0 dur then now + dur else 0) (spam_reason 199 reason)
        ∷ [])

unfoldable pub carry_out :
    SpamConfig → Client → SpamAction → ℕ → Bytes → Bytes → Bool → ℕ → Net → Verdict
unfolding quit_sender quit_address shun_effects
carry_out sp cl warn duration reason what quiet now net = (0, (net, []))
carry_out sp cl block duration reason what quiet now net = (
  1,
  (
    net,
    if quiet
        then []
        else notice_self (take 299 (codes "Message to " ++ what ++ codes " blocked: " ++ reason))
          ∷ [],
  ),
)
carry_out sp cl hide duration reason what quiet now net = (2, (net, []))
carry_out sp cl shun duration reason what quiet now net =
    (2, (net, shun_effects sp cl duration reason now))
carry_out sp cl kill duration reason what quiet now net = (1, (quit_sender cl reason net, []))
carry_out sp cl zline duration reason what quiet now net =
    if is_empty cl.ip then (1, (quit_sender cl reason net, [])) else (
      1,
      (
        quit_address cl reason (quit_sender cl reason net),
        kline_add cl.ip (spam_reason 199 reason) (codes "Z") (ban_duration sp duration) ∷ [],
      ),
    )

unfoldable pub apply_action :
    SpamConfig → Client → SpamAction → ℕ → Bytes → Bytes → Bytes → Bool → ℕ → Net → Verdict
unfolding hit_note carry_out
apply_action sp cl act duration reason what text quiet now net =
    let (v, (after, effects)) = carry_out sp cl act duration reason what quiet now (counted net) in
    (v, (after, notify_opers (hit_note cl act reason what text) ∷ effects))

-- The first rule for the kind of message that matches.
unfoldable pub first_match : ℕ → Bytes → List Filter → Option Filter
first_match kind clean [] = none
first_match kind clean (f ∷ fs) =
    let rest = first_match kind clean fs in
    if not (bit_and f.rule.targets kind == 0) && f.re clean then some f else rest

unfoldable pub run_filters : SpamConfig → Client → ℕ → Bytes → Bytes → Bool → ℕ → Net → Verdict
unfolding strip_codes first_match apply_action
run_filters sp cl kind what text quiet now net =
    if not sp.filters_enabled
    then (0, (net, []))
    else elim (first_match kind (strip_codes 512 text) net.filters) [
      | none ↦ (0, (net, []))
      | some f ↦
          apply_action sp cl f.rule.action f.rule.duration f.rule.reason what text quiet now net
    ]
