-- ===== src/Protection/Scans.antt =====
-- src/protection.c, src/protection.h: the open-proxy scanner. A probe is named by its pointer, a
-- number; the answers of the system (sockets, memory, the clock) are arguments, and what a step
-- tells the rest of the server is a list of effects. Closing a socket and logging are left out.
pub mod Handle
pub mod Wf
pub mod Removal
pub mod Steps
pub mod Runs
pub mod Related
use sekur_ircd.Base.{
  ℕ, zero, suc, ◌+◌, ◌-◌, ◌/◌, ◌%◌, Bool, true, false, not, ◌&&◌, ◌||◌, List, [], ◌∷◌, ◌++◌, Option,
  none, some, ltb, leb, ◌==◌, if◌then◌else◌, Bytes, length, take, drop,
}
use sekur_ircd.Cstring.{codes, str_eq, decimal_text}
use sekur_ircd.Proto.Address.{Inet, irc_ip_mask_match}
use sekur_ircd.Proto.Duration.{irc_parse_duration}
use sekur_ircd.Protection.Text.{protection_find, protection_expand}
use sekur_ircd.Protection.Probes.{config_scan_proto_name, protection_probe_bytes}
use sekur_ircd.Protection.Slots.{Slot, negcache_slots, recent_slots, slot_live, slot_set}

-- SCAN_BUF, SCAN_KEEP, RECENT_GRACE
abbrev pub scan_buf : ℕ
scan_buf = 1024

abbrev pub scan_keep : ℕ
scan_keep = 256

abbrev pub recent_grace : ℕ
recent_grace = 15

pub data ScanState : Type 0 where
  connecting : ScanState
  s5_greet : ScanState
  reading : ScanState

-- The buffer's `len` is the length of `buf`; `id` is the probe's pointer.
pub record Scan : Type 0 where
  pub id : ℕ
  pub ip_be : ℕ
  pub ip : Bytes
  pub proto : ℕ
  pub port : ℕ
  pub state : ScanState
  pub deadline : ℕ
  pub buf : Bytes
  pub nread : ℕ

pub record Prot : Type 0 where
  pub scans : List Scan
  pub n_scans : ℕ
  pub scanned : ℕ
  pub hits : ℕ
  pub negcache : List Slot
  pub recent : List Slot

-- The scanner's part of the configuration. `timeout_secs` is `scan_timeout` rounded up.
pub record Config : Type 0 where
  pub exempt : List Bytes
  pub scan_enabled : Bool
  pub scan_action : Bytes
  pub scan_ban_duration : Bytes
  pub scan_reason : Bytes
  pub timeout_secs : ℕ
  pub scan_max_read : ℕ
  pub scan_max_concurrent : ℕ
  pub scan_negcache : ℕ
  pub target_ip : Bytes
  pub target_port : ℕ
  pub target_strings : List Bytes
  pub protocols : List (ℕ × ℕ)

-- What a step asks of the server: `server_kline_add(mask, reason, type, duration)`,
-- `server_notify_opers`, `server_kline_enforce(mask, reason)` and `send` on a probe's socket.
pub data Effect : Type 0 where
  kline_add : Bytes → Bytes → Bytes → ℕ → Effect
  notify_opers : Bytes → Effect
  kline_enforce : Bytes → Bytes → Effect
  send_probe : ℕ → Bytes → Effect

abbrev pub Step : Type 0
Step = Prot × List Effect

-- An answer of irc_ip_mask_match that ran out of its fuel is `none`, and no hit here.
unfoldable pub protection_exempt : Inet → List Bytes → Bytes → Bool
unfolding irc_ip_mask_match
protection_exempt inet [] ip = false
protection_exempt inet (m ∷ ms) ip =
    let rest = protection_exempt inet ms ip in
    elim (irc_ip_mask_match inet m ip) [ some b ↦ b || rest | none ↦ rest ]

-- The walk of `scan_unlink`, by pointer.
unfoldable pub without : ℕ → List Scan → List Scan
without id [] = []
without id (s ∷ ss) = let rest = without id ss in if s.id == id then ss else s ∷ rest

-- `protection_scan_live`
unfoldable pub protection_scan_live : List Scan → ℕ → Bool
protection_scan_live [] id = false
protection_scan_live (s ∷ ss) id = s.id == id || protection_scan_live ss id

unfoldable pub scan_unlink : ℕ → Prot → Prot
unfolding without protection_scan_live
scan_unlink id p =
    if protection_scan_live p.scans id
    then record p { scans = without id p.scans; n_scans = p.n_scans - 1 }
    else p

unfoldable pub has_ip : List Scan → ℕ → Bool
has_ip [] ip_be = false
has_ip (s ∷ ss) ip_be = s.ip_be == ip_be || has_ip ss ip_be

abbrev pub ip_has_scans : Prot → ℕ → Bool
ip_has_scans p ip_be = has_ip p.scans ip_be

-- The address is clean: count it, and remember it.
unfoldable pub count_clean : Config → ℕ → ℕ → Prot → Prot
unfolding slot_set
count_clean cfg now ip_be p = record p {
  scanned = p.scanned + 1;
  recent = slot_set p.recent recent_slots ip_be (now + recent_grace);
  negcache =
      if ltb 0 cfg.scan_negcache
      then slot_set p.negcache negcache_slots ip_be (now + cfg.scan_negcache)
      else p.negcache;
}

unfoldable pub scan_done_clean : Config → ℕ → Scan → Prot → Prot
unfolding scan_unlink has_ip count_clean
scan_done_clean cfg now s p =
    let q = scan_unlink s.id p in
    if ip_has_scans q s.ip_be then q else count_clean cfg now s.ip_be q

-- The loop of `scan_hit`: every probe of the address is unlinked.
unfoldable pub unlink_ip : ℕ → List Scan → Prot → Prot
unfolding scan_unlink
unlink_ip ip_be [] p = p
unlink_ip ip_be (it ∷ its) p =
    unlink_ip ip_be its (if it.ip_be == ip_be then scan_unlink it.id p else p)

abbrev pub quit_cap : ℕ
quit_cap = 399

-- `dur < 0` and an unset duration are both 0, for ever.
unfoldable pub ban_seconds : Bytes → ℕ
unfolding irc_parse_duration
ban_seconds text = elim (irc_parse_duration text) [ some d ↦ d | none ↦ 0 ]

-- What a hit tells the server: a ban or a notice, and the end of the clients of that address.
unfoldable pub hit_effects : Config → Scan → List Effect
unfolding protection_expand config_scan_proto_name decimal_text ban_seconds str_eq
hit_effects cfg s =
    let reason =
      protection_expand cfg.scan_reason s.ip (config_scan_proto_name s.proto)
        (take 7 (decimal_text s.port)) 350 in
    if str_eq cfg.scan_action (codes "reject")
    then notify_opers
        (take quit_cap (codes "Rejected connection from " ++ s.ip ++ codes ": " ++ reason))
      ∷ kline_enforce s.ip (take quit_cap reason)
      ∷ []
    else kline_add s.ip reason
        (if str_eq cfg.scan_action (codes "kline") then codes "K" else codes "Z")
        (ban_seconds cfg.scan_ban_duration)
      ∷ kline_enforce s.ip (take quit_cap (codes "Z-Lined: " ++ reason))
      ∷ []

-- The tables after a hit: no negative cache, the address stays related for a while.
unfoldable pub count_hit : ℕ → ℕ → Prot → Prot
unfolding slot_set
count_hit now ip_be p = record p {
  hits = p.hits + 1;
  scanned = p.scanned + 1;
  recent = slot_set p.recent recent_slots ip_be (now + recent_grace);
}

unfoldable pub scan_hit : Config → ℕ → Scan → Prot → Step
unfolding unlink_ip count_hit hit_effects
scan_hit cfg now s p = (count_hit now s.ip_be (unlink_ip s.ip_be p.scans p), hit_effects cfg s)

-- `none` is a text that is no IPv4 address, otherwise inet_pton gives its number.
unfoldable pub protection_ip_related : Option ℕ → ℕ → Prot → Bool × Prot
unfolding has_ip slot_live slot_set
protection_ip_related none now p = (false, p)
protection_ip_related (some ip_be) now p =
    if not (ip_has_scans p ip_be) && not (slot_live p.recent recent_slots ip_be now)
    then (false, p)
    else (true, record p { recent = slot_set p.recent recent_slots ip_be now })

-- One probe: the system gives a socket and memory, with the new pointer, or it does not.
unfoldable pub start_probe : Config → ℕ → ℕ → Bytes → ℕ × ℕ → Option ℕ → Prot → Bool × Prot
start_probe cfg now ip_be ip pr none p = (false, p)
start_probe cfg now ip_be ip (type, port) (some id) p = (
  true,
  record p {
    scans =
        record {
          id = id;
          ip_be = ip_be;
          ip = take 15 ip;
          proto = type;
          port = port;
          state = connecting;
          deadline = now + cfg.timeout_secs;
          buf = [];
          nread = 0;
        }
        ∷ p.scans;
    n_scans = p.n_scans + 1;
  },
)

abbrev pub one_if : Bool → ℕ
one_if b = if b then 1 else 0

-- The loop over the protocols, each with what the system answers to it.
unfoldable pub start_probes : Config → ℕ → ℕ → Bytes → List ((ℕ × ℕ) × Option ℕ) → Prot → ℕ × Prot
unfolding start_probe
start_probes cfg now ip_be ip [] p = (0, p)
start_probes cfg now ip_be ip ((pr, sys) ∷ prs) p =
    let (ok, q) = start_probe cfg now ip_be ip pr sys p in
    let (n, r) = start_probes cfg now ip_be ip prs q in (one_if ok + n, r)

-- The recent slot covers a scan from its start.
unfoldable pub cover : Config → ℕ → ℕ → ℕ × Prot → ℕ × Prot
unfolding slot_set
cover cfg now ip_be (zero, p) = (0, p)
cover cfg now ip_be (suc n, p) = (
  suc n,
  record p {
    recent = slot_set p.recent recent_slots ip_be (now + cfg.timeout_secs + recent_grace);
  },
)

-- Each protocol with the system's answer to its probe; none is a refusal.
unfoldable pub with_answers : List (ℕ × ℕ) → List (Option ℕ) → List ((ℕ × ℕ) × Option ℕ)
with_answers [] answers = []
with_answers (pr ∷ prs) [] = (pr, none) ∷ with_answers prs []
with_answers (pr ∷ prs) (sys ∷ answers) = (pr, sys) ∷ with_answers prs answers

-- `addr` is the number that inet_pton makes of `ip`, and `answers` has for each protocol the new
-- probe's pointer or a refusal.
unfoldable pub protection_scan_start :
    Inet → Config → ℕ → Option ℕ → Bytes → List (Option ℕ) → Prot → ℕ × Prot
unfolding protection_exempt slot_live has_ip start_probes cover with_answers
protection_scan_start inet cfg now none ip answers p = (0, p)
protection_scan_start inet cfg now (some ip_be) ip answers p =
    let sys = with_answers cfg.protocols answers in
    if not cfg.scan_enabled || length cfg.protocols == 0
    then (0, p)
    else if protection_exempt inet cfg.exempt ip
    then (0, p)
    else if slot_live p.negcache negcache_slots ip_be now
    then (0, p)
    else if ip_has_scans p ip_be
    then (0, p)
    else if ltb cfg.scan_max_concurrent (p.n_scans + length cfg.protocols)
    then (0, p)
    else cover cfg now ip_be (start_probes cfg now ip_be ip sys p)
