-- ===== src/Protection/Scans/Handle.antt =====
-- src/protection.c: `protection_handle`, what a probe does when its socket is ready, and the sweeps
-- `protection_tick` and `protection_free`.
use sekur_ircd.Base.{
  ℕ, ◌+◌, ◌-◌, Bool, true, false, not, ◌||◌, List, [], ◌∷◌, ◌++◌, none, some, ltb, leb, ◌==◌,
  if◌then◌else◌, Bytes, length, take, drop,
}
use sekur_ircd.Proto.Address.{Inet}
use sekur_ircd.Protection.Text.{protection_find, is_empty}
use sekur_ircd.Protection.Probes.{protection_probe_bytes}
use sekur_ircd.Protection.Scans.{
  connecting, s5_greet, reading, Scan, Prot, Config, Effect, send_probe, Step, scan_buf, scan_keep,
  scan_unlink, scan_done_clean, scan_hit,
}

-- What `poll` and the socket answer: writable, readable (both with the error bits), the pending
-- error of a connect, and `recv`, where no bytes mean that the peer closed.
pub data Recv : Type 0 where
  try_again : Recv
  failed : Recv
  got : Bytes → Recv

pub record Ready : Type 0 where
  pub writable : Bool
  pub readable : Bool
  pub connect_failed : Bool
  pub recv : Recv

-- The store after a write through the probe's pointer.
unfoldable pub put : Scan → List Scan → List Scan
put s [] = []
put s (t ∷ ts) = let rest = put s ts in if t.id == s.id then s ∷ ts else t ∷ rest

abbrev pub store : Scan → Prot → Prot
store s p = record p { scans = put s p.scans }

-- `scan_send`: nothing for an empty request.
unfoldable pub scan_send : Inet → Config → Scan → ℕ → List Effect
unfolding protection_probe_bytes
scan_send inet cfg s stage =
    let req = protection_probe_bytes inet s.proto cfg.target_ip cfg.target_port stage 512 in
    if is_empty req then [] else send_probe s.id req ∷ []

unfoldable pub handle_connect : Inet → Config → ℕ → Scan → Ready → Prot → Step
unfolding scan_send scan_done_clean put
handle_connect inet cfg now s ready p =
    if not ready.writable
    then (p, [])
    else if ready.connect_failed
    then (scan_done_clean cfg now s p, [])
    else (
      store (record s { state = if s.proto == 4 then s5_greet else reading }) p,
      scan_send inet cfg s 0,
    )

-- The window slides to its last SCAN_KEEP bytes when the new ones do not fit.
unfoldable pub slide : Bytes → ℕ → Bytes
slide buf n =
    if ltb scan_buf (length buf + n)
    then take scan_keep (drop (length buf - scan_keep) buf)
    else buf

unfoldable pub received : Scan → Bytes → Scan
unfolding slide
received s tmp = record s { nread = s.nread + length tmp; buf = slide s.buf (length tmp) ++ tmp }

unfoldable pub any_target : List Bytes → Bytes → Bool
unfolding protection_find
any_target [] buf = false
any_target (t ∷ ts) buf =
    let rest = any_target ts buf in elim (protection_find buf t) [ some i ↦ true | none ↦ rest ]

-- The search for a target string, and the end of a probe that read enough.
unfoldable pub judge : Config → ℕ → Scan → Prot → List Effect → Step
unfolding any_target scan_hit scan_done_clean put
judge cfg now s p sent =
    let q = store s p in
    if any_target cfg.target_strings s.buf
    then (let (r, es) = scan_hit cfg now s q in (r, sent ++ es))
    else if leb cfg.scan_max_read s.nread
    then (scan_done_clean cfg now s q, sent)
    else (q, sent)

-- The method reply of a SOCKS5 proxy: two bytes, 5 and 0.
unfoldable pub handle_greet : Inet → Config → ℕ → Scan → Bytes → Prot → Step
unfolding judge scan_send scan_done_clean put
handle_greet inet cfg now s [] p = (store s p, [])
handle_greet inet cfg now s (a ∷ []) p = (store s p, [])
handle_greet inet cfg now s (a ∷ b ∷ rest) p =
    if not (a == 5) || not (b == 0)
    then (scan_done_clean cfg now s (store s p), [])
    else judge cfg now (record s { buf = rest; state = reading }) p (scan_send inet cfg s 1)

unfoldable pub handle_data : Inet → Config → ℕ → Scan → Prot → Step
unfolding handle_greet judge
handle_data inet cfg now s p = elim s.state [
  | connecting ↦ judge cfg now s p []
  | s5_greet ↦ handle_greet inet cfg now s s.buf p
  | reading ↦ judge cfg now s p []
]

-- `tmp` has 512 bytes.
unfoldable pub handle_read : Inet → Config → ℕ → Scan → Recv → Prot → Step
unfolding handle_data received scan_done_clean
handle_read inet cfg now s try_again p = (p, [])
handle_read inet cfg now s failed p = (scan_done_clean cfg now s p, [])
handle_read inet cfg now s (got []) p = (scan_done_clean cfg now s p, [])
handle_read inet cfg now s (got (x ∷ tmp)) p =
    handle_data inet cfg now (received s (take 512 (x ∷ tmp))) p

unfoldable pub protection_handle : Inet → Config → ℕ → Scan → Ready → Prot → Step
unfolding handle_connect handle_read
protection_handle inet cfg now s ready p = elim s.state [
  | connecting ↦ handle_connect inet cfg now s ready p
  | s5_greet ↦ if ready.readable then handle_read inet cfg now s ready.recv p else (p, [])
  | reading ↦ if ready.readable then handle_read inet cfg now s ready.recv p else (p, [])
]

-- The sweep walks the probes there were.
unfoldable pub expire : Config → ℕ → List Scan → Prot → Prot
unfolding scan_done_clean
expire cfg now [] p = p
expire cfg now (s ∷ ss) p =
    expire cfg now ss (if leb s.deadline now then scan_done_clean cfg now s p else p)

unfoldable pub protection_tick : Config → ℕ → Prot → Prot
unfolding expire
protection_tick cfg now p = expire cfg now p.scans p

unfoldable pub free_from : List Scan → Prot → Prot
unfolding scan_unlink
free_from [] p = p
free_from (s ∷ ss) p = free_from ss (scan_unlink s.id p)

unfoldable pub protection_free : Prot → Prot
unfolding free_from
protection_free p = free_from p.scans p
