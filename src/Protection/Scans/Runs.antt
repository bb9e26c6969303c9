-- ===== src/Protection/Scans/Runs.antt =====
-- Runs of the scanner.
use sekur_ircd.Base.{ℕ, ◌≡◌, sym, ◌⊎◌, inl, inr, List, [], ◌∷◌, Option, Bytes, All, subst}
use sekur_ircd.Proto.Address.{Inet}
use sekur_ircd.Protection.Scans.{
  with_answers, Scan, Prot, Config, protection_scan_start, protection_ip_related,
}
use sekur_ircd.Protection.Scans.Handle.{Ready, protection_handle, protection_tick}
use sekur_ircd.Protection.Scans.Steps.{
  Answers, protection_scan_start-Wf, protection_handle-Wf, related-Wf, expire-Wf,
}
use sekur_ircd.Protection.Scans.Wf.{Short, Wf}

-- The probe that a pointer names.
abbrev pub Names : Scan → List Scan → Type 0
Names s [] = ⊥
Names s (t ∷ ss) = (s ≡ t) ⊎ Names s ss

Names-All : (P : Scan → Type 0) (s : Scan) (ss : List Scan) → Names s ss → All P ss → P s
Names-All P s [] n a = absurd n
Names-All P s (t ∷ ss) (inl e) (a, more) = subst P (sym e) a
Names-All P s (t ∷ ss) (inr n) (a, more) = Names-All P s ss n more

-- One call of the module, with what the system answers to it.
pub data Moves (inet : Inet) (cfg : Config) : Prot → Prot → Type 0 where
  started :
      {p : Prot} (now : ℕ) (addr : Option ℕ) (ip : Bytes) (answers : List (Option ℕ))
      → ((ip_be : ℕ) → Answers cfg now ip_be ip (with_answers cfg.protocols answers) p)
      → Moves inet cfg p ((protection_scan_start inet cfg now addr ip answers p).1)
  handled :
      {p : Prot} (now : ℕ) (s : Scan) (ready : Ready)
      → Names s p.scans
      → Moves inet cfg p ((protection_handle inet cfg now s ready p).0)
  asked :
      {p : Prot} (addr : Option ℕ) (now : ℕ)
      → Moves inet cfg p ((protection_ip_related addr now p).1)
  ticked : {p : Prot} (now : ℕ) → Moves inet cfg p (protection_tick cfg now p)

pub data Runs (inet : Inet) (cfg : Config) : Prot → Prot → Type 0 where
  stay : {p : Prot} → Runs inet cfg p p
  then_by : {p q r : Prot} → Runs inet cfg p q → Moves inet cfg q r → Runs inet cfg p r

Moves-Wf :
    (inet : Inet) (cfg : Config) (p q : Prot)
    → Moves inet cfg p q
    → Wf cfg.scan_max_concurrent p
    → Wf cfg.scan_max_concurrent q
unfolding protection_tick
Moves-Wf inet cfg p q (started now addr ip answers a) w =
    protection_scan_start-Wf inet cfg now addr ip answers p a w
Moves-Wf inet cfg p q (handled now s ready n) w =
    protection_handle-Wf cfg.scan_max_concurrent inet cfg now s ready p
      (Names-All Short s p.scans n w.short) w
Moves-Wf inet cfg p q (asked addr now) w = related-Wf cfg.scan_max_concurrent addr now p w
Moves-Wf inet cfg p q (ticked now) w = expire-Wf cfg.scan_max_concurrent cfg now p.scans p w

-- From a well-formed scanner, every run of starts, socket events, questions and sweeps, whatever the
-- system answers, leads to a well-formed one: `n_scans` counts the probes, their pointers differ, each
-- holds at most 1024 bytes, and there are no more than `scan_max_concurrent`. The allocator's pointers
-- are none of a probe in flight, and a socket event is for a probe in flight.
pub Runs-Wf :
    (inet : Inet) (cfg : Config) (p q : Prot)
    → Wf cfg.scan_max_concurrent p
    → Runs inet cfg p q
    → Wf cfg.scan_max_concurrent q
Runs-Wf inet cfg p q w stay = w
Runs-Wf inet cfg p r w (then_by {q = q} run move) =
    Moves-Wf inet cfg q r move (Runs-Wf inet cfg p q w run)
