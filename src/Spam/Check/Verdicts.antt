-- ===== src/Spam/Check/Verdicts.antt =====
-- What the verdicts of a check leave of the server.
use sekur_ircd.Base.{
  ℕ, zero, suc, ◌+◌, ◌-◌, ◌≡◌, refl, ◌∙◌, ◌⊎◌, inl, inr, Bool, true, false, not, ◌&&◌, ◌||◌, List,
  [], ◌++◌, Option, ltb, leb, ◌==◌, if◌then◌else◌, Bytes, All, All-append, arith, Bool-cases,
  Option-cases, subst,
}
use sekur_ircd.Client.{Client, is_oper}
use sekur_ircd.Spam.Rules.{SpamAction, block, warn, kill, zline, hide, shun}
use sekur_ircd.Protection.Text.{is_empty}
use sekur_ircd.Spam.Codes.{strip_codes}
use sekur_ircd.Spam.Track.{Tracker, spam_track}
use sekur_ircd.Spam.Actions.{
  SpamConfig, Net, SpamEffect, notify_opers, notice_self, kline_add, netsync_shun, Verdict,
  put_client, counted, carry_out, apply_action, first_match, run_filters,
}
use sekur_ircd.Spam.Check.{
  check_limits, then_limits, trusted_account, always_reached, message_target, is_channel,
  message_kind, spam_check_message, limit_action_of,
}

-- Only the sender's record of its sends may be another one.
abbrev pub SameClients : Client → List Client → List Client → Type 0
SameClients cl before after =
    (after ≡ before)
    ⊎ ((tracker : Tracker) × (after ≡ put_client (record cl { tracker = tracker }) before))

abbrev pub IsNote : SpamEffect → Type 0
IsNote (notify_opers s) = Unit
IsNote (notice_self s) = ⊥
IsNote (kline_add m r t d) = ⊥
IsNote (netsync_shun m e r) = ⊥

-- Nobody ends, no ban is set, the sender is told nothing.
pub record Harmless (cl : Client) (net : Net) (v : Verdict) : Type 0 where
  pub clients : SameClients cl net.clients v.1.0.clients
  pub dead : v.1.0.dead ≡ net.dead
  pub filters : v.1.0.filters ≡ net.filters
  pub notes : All IsNote v.1.1

-- The same, and no client changes.
record Still (net : Net) (v : Verdict) : Type 0 where
  clients : v.1.0.clients ≡ net.clients
  dead : v.1.0.dead ≡ net.dead
  filters : v.1.0.filters ≡ net.filters
  notes : All IsNote v.1.1

abbrev Passes : Net → Verdict → Type 0
Passes net v = v.0 ≡ 0 → Still net v

let_through : (net : Net) → Passes net (0, (net, []))
let_through net e = record { clients = refl; dead = refl; filters = refl; notes = tt }

stopped : (net : Net) (n : ℕ) (r : Net × List SpamEffect) → Passes net (suc n, r)
stopped net n r e = absurd (omega (arith, e))

carry_out-Passes :
    (sp : SpamConfig) (cl : Client) (act : SpamAction) (duration : ℕ) (reason what : Bytes)
    (quiet : Bool) (now : ℕ) (net : Net)
    → Passes net (carry_out sp cl act duration reason what quiet now net)
unfolding carry_out
carry_out-Passes sp cl warn duration reason what quiet now net = let_through net
carry_out-Passes sp cl block duration reason what quiet now net = stopped net 0 _
carry_out-Passes sp cl hide duration reason what quiet now net = stopped net 1 _
carry_out-Passes sp cl shun duration reason what quiet now net = stopped net 1 _
carry_out-Passes sp cl kill duration reason what quiet now net = stopped net 0 _
carry_out-Passes sp cl zline duration reason what quiet now net =
    elim (Bool-cases (is_empty cl.ip)) [
      | inl t ↦ rw (t, carry_out) (stopped net 0 _)
      | inr f ↦ rw (f, carry_out) (stopped net 0 _)
    ]

apply_action-Passes :
    (sp : SpamConfig) (cl : Client) (act : SpamAction) (duration : ℕ) (reason what text : Bytes)
    (quiet : Bool) (now : ℕ) (net : Net)
    → Passes net (apply_action sp cl act duration reason what text quiet now net)
unfolding apply_action
apply_action-Passes sp cl act duration reason what text quiet now net e =
    let h = carry_out-Passes sp cl act duration reason what quiet now (counted net) e in
    record { clients = h.clients; dead = h.dead; filters = h.filters; notes = (tt, h.notes) }

run_filters-Passes :
    (sp : SpamConfig) (cl : Client) (kind : ℕ) (what text : Bytes) (quiet : Bool) (now : ℕ)
    (net : Net)
    → Passes net (run_filters sp cl kind what text quiet now net)
unfolding run_filters
run_filters-Passes sp cl kind what text quiet now net = elim (Bool-cases sp.filters_enabled) [
  | inr f ↦ rw f (let_through net)
  | inl t ↦ elim (Option-cases (first_match kind (strip_codes 512 text) net.filters)) [
    | inl n ↦ rw (t, n) (let_through net)
    | inr (f, n) ↦
        rw (t, n)
          (apply_action-Passes sp cl f.rule.action f.rule.duration f.rule.reason what text quiet now
            net)
  ]
]

either {κ} : (P : Verdict → Type κ) (b : Bool) {x y : Verdict} → P x → P y → P (if b then x else y)
either P true p q = p
either P false p q = q

-- After the send was recorded.
recorded :
    (cl : Client) (tracker : Tracker) (net : Net) (v : Verdict)
    → Passes (record net { clients = put_client (record cl { tracker = tracker }) net.clients }) v
    → v.0 ≡ 0
    → Harmless cl net v
recorded cl tracker net v h e =
    let k = h e in
    record {
      clients = inr (tracker, k.clients);
      dead = k.dead;
      filters = k.filters;
      notes = k.notes;
    }

check_limits-Harmless :
    (sp : SpamConfig) (cl : Client) (t text : Bytes) (is_notice : Bool) (now : ℕ) (net : Net)
    → (check_limits sp cl t text is_notice now net).0 ≡ 0
    → Harmless cl net (check_limits sp cl t text is_notice now net)
unfolding check_limits
check_limits-Harmless sp cl t text is_notice now net =
    let r = spam_track t (strip_codes 512 text) now sp.target_window cl.tracker in
    recorded cl r.0 net (check_limits sp cl t text is_notice now net) (
      either
        (Passes (record net { clients = put_client (record cl { tracker = r.0 }) net.clients })) _
        (let_through _)
        (apply_action-Passes sp (record cl { tracker = r.0 }) (limit_action_of sp.limit_action) 0 _
          t text is_notice now _))

abbrev Reaches : Client → Net → Verdict → Type 0
Reaches cl net v = v.0 ≡ 0 → Harmless cl net v

of_still : (cl : Client) (net : Net) (v : Verdict) → Passes net v → Reaches cl net v
of_still cl net v h e =
    let k = h e in
    record { clients = inl k.clients; dead = k.dead; filters = k.filters; notes = k.notes }

-- A second step behind a first that let the message through.
followed :
    (cl : Client) (net mid : Net) (es : List SpamEffect) (v : Verdict)
    → Still net (0, (mid, es))
    → Reaches cl mid v
    → Reaches cl net (v.0, (v.1.0, es ++ v.1.1))
followed cl net mid es v k h e =
    let g = h e in
    record {
      clients = subst (λ cs. SameClients cl cs v.1.0.clients) k.clients g.clients;
      dead = g.dead ∙ k.dead;
      filters = g.filters ∙ k.filters;
      notes = All-append IsNote es v.1.1 k.notes g.notes;
    }

then_limits-Reaches :
    (sp : SpamConfig) (cl : Client) (t text : Bytes) (is_notice : Bool) (now : ℕ) (net : Net)
    (v : Verdict)
    → Passes net v
    → Reaches cl net (then_limits sp cl t text is_notice now v)
unfolding then_limits
then_limits-Reaches sp cl t text is_notice now net (suc n, r) h = λ e. absurd (omega (arith, e))
then_limits-Reaches sp cl t text is_notice now net (zero, (mid, es)) h =
    let k = h refl in
    let P = Reaches cl net in
    either P (sp.max_targets == 0 && sp.max_repeat == 0) (of_still cl net _ h) (
      either P (ltb 0 sp.trust_age && leb (cl.signon_time + sp.trust_age) now) (of_still cl net _ h)
        (followed cl net mid es (check_limits sp cl t text is_notice now mid) k
          (check_limits-Harmless sp cl t text is_notice now mid)))

-- A message that `spam_check_message` lets through has harmed nobody: no client was ended, no ban or
-- shun set, the rules are the same, the sender was told nothing, and at most the sender's own record
-- of sends has changed. What is told is told to the operators.
pub spam_check_message-Harmless :
    (find_user : Bytes → Option Client) (sp : SpamConfig) (cl : Client) (target text : Bytes)
    (is_notice : Bool) (now : ℕ) (net : Net)
    → (spam_check_message find_user sp cl target text is_notice now net).0 ≡ 0
    → Harmless cl net (spam_check_message find_user sp cl target text is_notice now net)
unfolding spam_check_message
spam_check_message-Harmless find_user sp cl target text is_notice now net =
    let t = message_target target in
    let chan = is_channel t in
    let P = Reaches cl net in
    let free = of_still cl net (0, (net, [])) (let_through net) in
    either P (not sp.enabled) free (
      either P (not cl.has_socket || (cl.is_service || sp.exempt_opers && is_oper cl)) free (
        either P (always_reached chan (find_user t)) free (
          either P (trusted_account sp cl now) free (
            either P
              (not chan
                && (ltb 0 sp.new_user_period && ltb (now - cl.signon_time) sp.new_user_period))
              (of_still cl net _ (stopped net 0 _))
              (then_limits-Reaches sp cl t text is_notice now net _ (
                run_filters-Passes sp cl (message_kind is_notice chan) t text is_notice now
                  net))))))
