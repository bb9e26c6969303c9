-- ===== src/Protection/Scans/Removal.antt =====
-- Which probes a hit and the shutdown take away.
use sekur_ircd.Base.{
  ℕ, ◌≡◌, refl, sym, ap, ◌∙◌, inl, inr, Bool, true, false, ◌||◌, List, [], ◌∷◌, ◌++◌, ◌==◌,
  if◌then◌else◌, arith, Bool-cases, subst, ==→eq, eq→==, append_assoc,
}
use sekur_ircd.Protection.Scans.{
  Scan, Prot, Config, without, protection_scan_live, scan_unlink, has_ip, unlink_ip, count_hit,
  scan_hit,
}
use sekur_ircd.Protection.Scans.Handle.{free_from, protection_free}
use sekur_ircd.Protection.Scans.Wf.{Unique, Unique-without}

-- The probes of the other addresses, in their order.
abbrev pub others : ℕ → List Scan → List Scan
others ip_be [] = []
others ip_be (s ∷ ss) = let rest = others ip_be ss in if s.ip_be == ip_be then rest else s ∷ rest

live-middle :
    (kept : List Scan) (it : Scan) (its : List Scan)
    → protection_scan_live (kept ++ (it ∷ its)) it.id ≡ true
unfolding protection_scan_live
live-middle [] it its = rw (eq→== it.id it.id refl) refl
live-middle (k ∷ kept) it its =
    either_true (k.id == it.id) (protection_scan_live (kept ++ (it ∷ its)) it.id)
      (live-middle kept it its)
  where
    either_true : (a b : Bool) → b ≡ true → (a || b) ≡ true
    either_true a b h = ground (arith, h)

without-middle :
    (kept : List Scan) (it : Scan) (its : List Scan)
    → Unique (kept ++ (it ∷ its))
    → without it.id (kept ++ (it ∷ its)) ≡ kept ++ its
unfolding without
without-middle [] it its u = rw (eq→== it.id it.id refl) refl
without-middle (k ∷ kept) it its (f, u) = elim (Bool-cases (k.id == it.id)) [
  | inl e ↦
      let live = live-middle kept it its in
      let dead =
        subst (λ j. protection_scan_live (kept ++ (it ∷ its)) j ≡ false) (==→eq k.id it.id e) f in
      absurd (ground (arith, live, dead))
  | inr e ↦ rw e (ap (◌∷◌ k) (without-middle kept it its u))
]

unlink-middle :
    (kept : List Scan) (it : Scan) (its : List Scan) (p : Prot)
    → p.scans ≡ kept ++ (it ∷ its)
    → Unique p.scans
    → (scan_unlink it.id p).scans ≡ kept ++ its
unfolding scan_unlink
unlink-middle kept it its p e u =
    let live : protection_scan_live p.scans it.id ≡ true =
      ap (λ ss. protection_scan_live ss it.id) e ∙ live-middle kept it its in
    rw live (ap (without it.id) e ∙ without-middle kept it its (subst Unique e u))

Unique-unlink : (id : ℕ) (p : Prot) → Unique p.scans → Unique ((scan_unlink id p).scans)
unfolding scan_unlink
Unique-unlink id p u = elim (Bool-cases (protection_scan_live p.scans id)) [
  | inl t ↦ rw t (Unique-without id p.scans u)
  | inr f ↦ rw f u
]

unlink_ip-others :
    (ip_be : ℕ) (kept its : List Scan) (p : Prot)
    → p.scans ≡ kept ++ its
    → Unique p.scans
    → (unlink_ip ip_be its p).scans ≡ kept ++ others ip_be its
unfolding unlink_ip
unlink_ip-others ip_be kept [] p e u = e
unlink_ip-others ip_be kept (it ∷ its) p e u =
    let walk = λ (b : Bool). (unlink_ip ip_be its (if b then scan_unlink it.id p else p)).scans in
    let rest = λ (b : Bool). kept ++ (if b then others ip_be its else it ∷ others ip_be its) in
    elim (Bool-cases (it.ip_be == ip_be)) [
      | inl t ↦
          ap walk t
          ∙ unlink_ip-others ip_be kept its (scan_unlink it.id p) (unlink-middle kept it its p e u)
              (Unique-unlink it.id p u)
          ∙ sym (ap rest t)
      | inr f ↦
          ap walk f
          ∙ unlink_ip-others ip_be (kept ++ (it ∷ [])) its p
              (e ∙ sym (append_assoc kept (it ∷ []) its)) u
          ∙ append_assoc kept (it ∷ []) (others ip_be its)
          ∙ sym (ap rest f)
    ]

has_ip-others : (ip_be : ℕ) (ss : List Scan) → has_ip (others ip_be ss) ip_be ≡ false
unfolding has_ip
has_ip-others ip_be [] = refl
has_ip-others ip_be (s ∷ ss) = elim (Bool-cases (s.ip_be == ip_be)) [
  | inl t ↦ rw t (has_ip-others ip_be ss)
  | inr f ↦ rw f (rw f (has_ip-others ip_be ss))
]

-- When one probe of an address hits, all probes of that address are gone and those of the others stay
-- in their order, where no two probes share a pointer.
pub scan_hit-others :
    (cfg : Config) (now : ℕ) (s : Scan) (p : Prot)
    → Unique p.scans
    → ((scan_hit cfg now s p).0.scans ≡ others s.ip_be p.scans)
      × (has_ip ((scan_hit cfg now s p).0.scans) s.ip_be ≡ false)
unfolding scan_hit count_hit
scan_hit-others cfg now s p u =
    let e = unlink_ip-others s.ip_be [] p.scans p refl u in
    (e, ap (λ ss. has_ip ss s.ip_be) e ∙ has_ip-others s.ip_be p.scans)

free_from-all :
    (ss : List Scan) (p : Prot) → p.scans ≡ ss → Unique p.scans → (free_from ss p).scans ≡ []
unfolding free_from
free_from-all [] p e u = e
free_from-all (s ∷ ss) p e u =
    free_from-all ss (scan_unlink s.id p) (unlink-middle [] s ss p e u) (Unique-unlink s.id p u)

-- The shutdown leaves no probe.
pub protection_free-none : (p : Prot) → Unique p.scans → (protection_free p).scans ≡ []
unfolding protection_free
protection_free-none p u = free_from-all p.scans p refl u
