-- ===== src/Protection/Scans/Steps.antt =====
-- The steps of the scanner and its invariant.
use sekur_ircd.Base.{
  refl, ap, ℕ, zero, suc, ◌+◌, ◌≤◌, ◌≡◌, inl, inr, Bool, true, false, not, ◌||◌, List, [], ◌∷◌,
  Option, none, some, ltb, leb, ◌==◌, if◌then◌else◌, Bytes, length, take, length-take, arith,
  Bool-cases, ltb→le,
}
use sekur_ircd.Proto.Address.{Inet}
use sekur_ircd.Protection.Slots.{negcache_slots, slot_live}
use sekur_ircd.Protection.Scans.{
  with_answers, ScanState, connecting, s5_greet, reading, Scan, Prot, Config, Effect,
  protection_scan_live, has_ip, scan_done_clean, scan_hit, start_probe, start_probes, cover,
  protection_exempt, protection_scan_start, protection_ip_related, unlink_ip,
}
use sekur_ircd.Protection.Scans.Handle.{
  Recv, try_again, failed, got, Ready, store, scan_send, handle_connect, received, any_target,
  judge, handle_greet, handle_data, handle_read, protection_handle, expire,
}
use sekur_ircd.Protection.Scans.Wf.{
  Short, Wf, scan_done_clean-Wf, unlink_ip-Wf, count_hit-Wf, store-Wf, received-Short,
}

-- The pointers that the allocator answers are none of a probe in flight.
abbrev pub Answers : Config → ℕ → ℕ → Bytes → List ((ℕ × ℕ) × Option ℕ) → Prot → Type 0
Answers cfg now ip_be ip [] p = Unit
Answers cfg now ip_be ip ((pr, none) ∷ sys) p = Answers cfg now ip_be ip sys p
Answers cfg now ip_be ip ((pr, some id) ∷ sys) p =
    (protection_scan_live p.scans id ≡ false)
    × Answers cfg now ip_be ip sys ((start_probe cfg now ip_be ip pr (some id) p).1)

start_probes-Wf :
    (m : ℕ) (cfg : Config) (now ip_be : ℕ) (ip : Bytes) (sys : List ((ℕ × ℕ) × Option ℕ)) (p : Prot)
    → Answers cfg now ip_be ip sys p
    → p.n_scans + length sys ≤ m
    → Wf m p
    → Wf m ((start_probes cfg now ip_be ip sys p).1)
unfolding start_probes start_probe
start_probes-Wf m cfg now ip_be ip [] p a l w = w
start_probes-Wf m cfg now ip_be ip ((pr, none) ∷ sys) p a l w =
    start_probes-Wf m cfg now ip_be ip sys p a (omega arith) w
start_probes-Wf m cfg now ip_be ip (((type, port), some id) ∷ sys) p (fresh, a) l w =
    let c = w.counted in
    start_probes-Wf m cfg now ip_be ip sys
      ((start_probe cfg now ip_be ip (type, port) (some id) p).1) a (omega arith)
      (record {
        counted = omega (arith, c);
        unique = (fresh, w.unique);
        short = (omega arith, w.short);
        bounded = omega arith;
      })

cover-Wf :
    (m : ℕ) (cfg : Config) (now ip_be : ℕ) (r : ℕ × Prot)
    → Wf m r.1
    → Wf m ((cover cfg now ip_be r).1)
unfolding cover
cover-Wf m cfg now ip_be (zero, p) w = w
cover-Wf m cfg now ip_be (suc n, p) w = record {
  counted = w.counted;
  unique = w.unique;
  short = w.short;
  bounded = w.bounded;
}

-- A value that a chain of guards may give.
either {ℓ κ} :
    {A : Type ℓ} (P : A → Type κ) (t : Bool) {x y : A} → P x → P y → P (if t then x else y)
either P true p q = p
either P false p q = q

length-with_answers :
    (prs : List (ℕ × ℕ)) (answers : List (Option ℕ))
    → length (with_answers prs answers) ≡ length prs
unfolding with_answers
length-with_answers [] answers = refl
length-with_answers (pr ∷ prs) [] = ap suc (length-with_answers prs [])
length-with_answers (pr ∷ prs) (sys ∷ answers) = ap suc (length-with_answers prs answers)

pub protection_scan_start-Wf :
    (inet : Inet) (cfg : Config) (now : ℕ) (addr : Option ℕ) (ip : Bytes)
    (answers : List (Option ℕ)) (p : Prot)
    → ((ip_be : ℕ) → Answers cfg now ip_be ip (with_answers cfg.protocols answers) p)
    → Wf cfg.scan_max_concurrent p
    → Wf cfg.scan_max_concurrent ((protection_scan_start inet cfg now addr ip answers p).1)
unfolding protection_scan_start
protection_scan_start-Wf inet cfg now none ip answers p a w = w
protection_scan_start-Wf inet cfg now (some ip_be) ip answers p a w =
    let P = λ (r : ℕ × Prot). Wf cfg.scan_max_concurrent r.1 in
    let m = cfg.scan_max_concurrent in
    let sys = with_answers cfg.protocols answers in
    either P (not cfg.scan_enabled || length cfg.protocols == 0) w (
      either P (protection_exempt inet cfg.exempt ip) w (
        either P (slot_live p.negcache negcache_slots ip_be now) w (
          either P (has_ip p.scans ip_be) w
            (elim (Bool-cases (ltb m (p.n_scans + length cfg.protocols))) [
              | inl t ↦ rw t w
              | inr f ↦ rw f (
                  let room = ltb→le m (p.n_scans + length cfg.protocols) f in
                  cover-Wf m cfg now ip_be (start_probes cfg now ip_be ip sys p) (
                    start_probes-Wf m cfg now ip_be ip sys p (a ip_be)
                      (omega (arith, room, length-with_answers cfg.protocols answers)) w))
            ]))))

three {ℓ κ} :
    {A : Type ℓ} (P : A → Type κ) (t : ScanState) {x y z : A}
    → P x
    → P y
    → P z
    → P (elim t [ connecting ↦ x | s5_greet ↦ y | reading ↦ z ])
three P connecting p q r = p
three P s5_greet p q r = q
three P reading p q r = r

scan_hit-Wf :
    (m : ℕ) (cfg : Config) (now : ℕ) (s : Scan) (p : Prot)
    → Wf m p
    → Wf m ((scan_hit cfg now s p).0)
unfolding scan_hit
scan_hit-Wf m cfg now s p w =
    count_hit-Wf m now s.ip_be (unlink_ip s.ip_be p.scans p) (unlink_ip-Wf m s.ip_be p.scans p w)

judge-Wf :
    (m : ℕ) (cfg : Config) (now : ℕ) (s : Scan) (p : Prot) (sent : List Effect)
    → Short s
    → Wf m p
    → Wf m ((judge cfg now s p sent).0)
unfolding judge
judge-Wf m cfg now s p sent h w =
    let q = store-Wf m s p h w in
    elim (Bool-cases (any_target cfg.target_strings s.buf)) [
      | inl t ↦ rw t (scan_hit-Wf m cfg now s (store s p) q)
      | inr f ↦ rw f (
          either (λ (r : Prot × List Effect). Wf m r.0) (leb cfg.scan_max_read s.nread)
            (scan_done_clean-Wf m cfg now s (store s p) q) q)
    ]

handle_greet-Wf :
    (m : ℕ) (inet : Inet) (cfg : Config) (now : ℕ) (s : Scan) (b : Bytes) (p : Prot)
    → length b ≤ length s.buf
    → Short s
    → Wf m p
    → Wf m ((handle_greet inet cfg now s b p).0)
unfolding handle_greet
handle_greet-Wf m inet cfg now s [] p l h w = store-Wf m s p h w
handle_greet-Wf m inet cfg now s (a ∷ []) p l h w = store-Wf m s p h w
handle_greet-Wf m inet cfg now s (a ∷ b ∷ rest) p l h w =
    either (λ (r : Prot × List Effect). Wf m r.0) (not (a == 5) || not (b == 0))
      (scan_done_clean-Wf m cfg now s (store s p) (store-Wf m s p h w))
      (judge-Wf m cfg now (record s { buf = rest; state = reading }) p (scan_send inet cfg s 1)
        (omega (arith, l, h)) w)

handle_data-Wf :
    (m : ℕ) (inet : Inet) (cfg : Config) (now : ℕ) (s : Scan) (p : Prot)
    → Short s
    → Wf m p
    → Wf m ((handle_data inet cfg now s p).0)
unfolding handle_data
handle_data-Wf m inet cfg now s p h w =
    three (λ (r : Prot × List Effect). Wf m r.0) s.state (judge-Wf m cfg now s p [] h w)
      (handle_greet-Wf m inet cfg now s s.buf p (omega arith) h w) (judge-Wf m cfg now s p [] h w)

handle_read-Wf :
    (m : ℕ) (inet : Inet) (cfg : Config) (now : ℕ) (s : Scan) (r : Recv) (p : Prot)
    → Short s
    → Wf m p
    → Wf m ((handle_read inet cfg now s r p).0)
unfolding handle_read
handle_read-Wf m inet cfg now s try_again p h w = w
handle_read-Wf m inet cfg now s failed p h w = scan_done_clean-Wf m cfg now s p w
handle_read-Wf m inet cfg now s (got []) p h w = scan_done_clean-Wf m cfg now s p w
handle_read-Wf m inet cfg now s (got (x ∷ tmp)) p h w =
    handle_data-Wf m inet cfg now (received s (take 512 (x ∷ tmp))) p
      (received-Short s (take 512 (x ∷ tmp)) (length-take 512 (x ∷ tmp)).0 h) w

handle_connect-Wf :
    (m : ℕ) (inet : Inet) (cfg : Config) (now : ℕ) (s : Scan) (ready : Ready) (p : Prot)
    → Short s
    → Wf m p
    → Wf m ((handle_connect inet cfg now s ready p).0)
unfolding handle_connect
handle_connect-Wf m inet cfg now s ready p h w =
    let P = λ (r : Prot × List Effect). Wf m r.0 in
    either P (not ready.writable) w (
      either P ready.connect_failed (scan_done_clean-Wf m cfg now s p w)
        (store-Wf m (record s { state = if s.proto == 4 then s5_greet else reading }) p h w))

pub protection_handle-Wf :
    (m : ℕ) (inet : Inet) (cfg : Config) (now : ℕ) (s : Scan) (ready : Ready) (p : Prot)
    → Short s
    → Wf m p
    → Wf m ((protection_handle inet cfg now s ready p).0)
unfolding protection_handle
protection_handle-Wf m inet cfg now s ready p h w =
    let P = λ (r : Prot × List Effect). Wf m r.0 in
    let reads = either P ready.readable (handle_read-Wf m inet cfg now s ready.recv p h w) w in
    three P s.state (handle_connect-Wf m inet cfg now s ready p h w) reads reads

pub expire-Wf :
    (m : ℕ) (cfg : Config) (now : ℕ) (ss : List Scan) (p : Prot)
    → Wf m p
    → Wf m (expire cfg now ss p)
unfolding expire
expire-Wf m cfg now [] p w = w
expire-Wf m cfg now (s ∷ ss) p w =
    expire-Wf m cfg now ss (if leb s.deadline now then scan_done_clean cfg now s p else p)
      (either (Wf m) (leb s.deadline now) (scan_done_clean-Wf m cfg now s p w) w)

pub related-Wf :
    (m : ℕ) (addr : Option ℕ) (now : ℕ) (p : Prot)
    → Wf m p
    → Wf m ((protection_ip_related addr now p).1)
unfolding protection_ip_related
related-Wf m none now p w = w
related-Wf m (some ip_be) now p w =
    either (λ (r : Bool × Prot). Wf m r.1) _ w
      (record { counted = w.counted; unique = w.unique; short = w.short; bounded = w.bounded })
