-- ===== src/Spam/Check.antt =====
-- src/spam.c: the checks of a text and of a message, `spam_check_text` and `spam_check_message`.
pub mod Verdicts
use Prim.Native.Nat.{bit_and}
use sekur_ircd.Base.{
  ℕ, zero, suc, ◌+◌, ◌-◌, Bool, true, false, not, ◌&&◌, ◌||◌, List, [], ◌∷◌, ◌++◌, Option, none,
  some, ltb, leb, ◌==◌, if◌then◌else◌, Bytes, length, take,
}
use sekur_ircd.Cstring.{codes, str_eq, decimal_text}
use sekur_ircd.Client.{Client, is_oper, client_prefix}
use sekur_ircd.Client.Queues.{client_mark_quit}
use sekur_ircd.Protection.Text.{is_empty}
use sekur_ircd.Spam.Rules.{
  SpamAction, block, warn, kill, zline, hide, shun, action_name, parse_action, Filter,
}
use sekur_ircd.Spam.Actions.{
  SpamConfig, Net, SpamEffect, notice_self, Verdict, is_exempt, put_client, counted, apply_action,
  run_filters,
}
use sekur_ircd.Spam.Codes.{strip_codes, snippet}
use sekur_ircd.Spam.Track.{spam_track}

unfoldable pub kind_name : ℕ → Bytes
kind_name kind =
    if kind == 16
    then codes "AWAY"
    else if kind == 32
    then codes "QUIT"
    else if kind == 64
    then codes "PART"
    else codes "TOPIC"

unfoldable pub spam_check_text : SpamConfig → Client → ℕ → Bytes → ℕ → Net → Verdict
unfolding is_exempt kind_name run_filters
spam_check_text sp cl kind text now net =
    if not sp.enabled || is_exempt sp cl
    then (0, (net, []))
    else run_filters sp cl kind (kind_name kind) text (kind == 32 || kind == 64) now net

-- STATUSMSG: a prefix of a rank in front of a channel's name is left out.
unfoldable pub message_target : Bytes → Bytes
message_target [] = []
message_target (c ∷ []) = c ∷ []
message_target (c ∷ d ∷ s) =
    if (c == b'~' || c == b'&' || c == b'@' || c == b'%' || c == b'+') && d == b'#'
    then d ∷ s
    else c ∷ d ∷ s

abbrev pub is_channel : Bytes → Bool
is_channel [] = false
is_channel (c ∷ s) = c == b'#'

abbrev pub message_kind : Bool → Bool → ℕ
message_kind is_notice chan = if is_notice then if chan then 8 else 4 else if chan then 2 else 1

unfoldable pub trusted_account : SpamConfig → Client → ℕ → Bool
unfolding str_eq
trusted_account sp cl now =
    let created = if str_eq cl.acct_created_for cl.account then cl.acct_created else 0 in
    sp.exempt_identified
    && (not (is_empty cl.account) && (ltb 0 created && leb (created + sp.new_user_period) now))

unfoldable pub limit_action_of : Bytes → SpamAction
unfolding parse_action
limit_action_of s = elim (parse_action s) [ some a ↦ a | none ↦ block ]

-- The third layer: the send is recorded, and counted against the limits.
unfoldable pub check_limits : SpamConfig → Client → Bytes → Bytes → Bool → ℕ → Net → Verdict
unfolding strip_codes spam_track put_client apply_action limit_action_of
check_limits sp cl t text is_notice now net =
    let clean = strip_codes 512 text in
    let (tracker, (distinct, same)) = spam_track t clean now sp.target_window cl.tracker in
    let sender = record cl { tracker = tracker } in
    let stored = record net { clients = put_client sender net.clients } in
    let too_many = ltb 0 sp.max_targets && ltb sp.max_targets distinct in
    let repeated = ltb 0 sp.max_repeat && (leb 8 (length clean) && leb sp.max_repeat same) in
    if not too_many && not repeated
    then (0, (stored, []))
    else apply_action sp sender (limit_action_of sp.limit_action) 0
        (if too_many
          then codes "too many recipients"
          else codes "same message to too many recipients")
        t text is_notice now stored

-- The second layer, and the third if the filters let the message pass; what they told stays told.
unfoldable pub then_limits : SpamConfig → Client → Bytes → Bytes → Bool → ℕ → Verdict → Verdict
unfolding check_limits
then_limits sp cl t text is_notice now (suc v, r) = (suc v, r)
then_limits sp cl t text is_notice now (zero, (net, es)) =
    if sp.max_targets == 0 && sp.max_repeat == 0
    then (0, (net, es))
    else if ltb 0 sp.trust_age && leb (cl.signon_time + sp.trust_age) now
    then (0, (net, es))
    else (let (v, (after, more)) = check_limits sp cl t text is_notice now net in
        (v, (after, es ++ more)))

unfoldable pub fresh_notice : SpamConfig → Client → ℕ → Bytes
unfolding decimal_text
fresh_notice sp cl now = take 199 (
    codes "You must be connected "
    ++ decimal_text sp.new_user_period
    ++ codes "s before messaging users ("
    ++ decimal_text (sp.new_user_period - (now - cl.signon_time))
    ++ codes "s to go)")

-- The recipient, unless it is a channel.
abbrev pub always_reached : Bool → Option Client → Bool
always_reached true dst = false
always_reached false none = false
always_reached false (some dst) = dst.is_service || is_oper dst

-- `find_user` is `server_find_user`; the clock does not stand before the connection's start.
unfoldable pub spam_check_message :
    (Bytes → Option Client) → SpamConfig → Client → Bytes → Bytes → Bool → ℕ → Net → Verdict
unfolding message_target trusted_account fresh_notice run_filters then_limits
spam_check_message find_user sp cl target text is_notice now net =
    let t = message_target target in
    let chan = is_channel t in
    if not sp.enabled
    then (0, (net, []))
    else if not cl.has_socket || (cl.is_service || sp.exempt_opers && is_oper cl)
    then (0, (net, []))
    else if always_reached chan (find_user t)
    then (0, (net, []))
    else if trusted_account sp cl now
    then (0, (net, []))
    else if not chan && (ltb 0 sp.new_user_period && ltb (now - cl.signon_time) sp.new_user_period)
    then (1, (counted net, if is_notice then [] else notice_self (fresh_notice sp cl now) ∷ []))
    else then_limits sp cl t text is_notice now
        (run_filters sp cl (message_kind is_notice chan) t text is_notice now net)
