-- ===== src/Protection/Scans/Wf.antt =====
-- The invariant of the probes in flight.
use sekur_ircd.Base.{
  ℕ, suc, ◌+◌, ◌-◌, ◌≤◌, ◌≡◌, refl, sym, ap, ◌∙◌, inl, inr, Bool, true, false, ◌||◌, List, [], ◌∷◌,
  ltb, ◌==◌, Bytes, length, take, drop, All, length-append, length-take, arith, Bool-cases, subst,
  ltb→le, ==→eq,
}
use sekur_ircd.Protection.Scans.{
  Scan, Prot, Config, scan_buf, without, protection_scan_live, scan_unlink, has_ip, count_clean,
  scan_done_clean, unlink_ip, count_hit,
}
use sekur_ircd.Protection.Scans.Handle.{put, store, slide, received}

abbrev pub Unique : List Scan → Type 0
Unique [] = Unit
Unique (s ∷ ss) = (protection_scan_live ss s.id ≡ false) × Unique ss

abbrev pub Short : Scan → Type 0
Short s = length s.buf ≤ scan_buf

pub record Wf (max : ℕ) (p : Prot) : Type 0 where
  pub counted : p.n_scans ≡ length p.scans
  pub unique : Unique p.scans
  pub short : All Short p.scans
  pub bounded : p.n_scans ≤ max

length-without :
    (id : ℕ) (ss : List Scan)
    → protection_scan_live ss id ≡ true
    → length ss ≡ suc (length (without id ss))
unfolding without protection_scan_live
length-without id [] h = absurd (ground (arith, h))
length-without id (s ∷ ss) h = elim (Bool-cases (s.id == id)) [
  | inl t ↦ rw t refl
  | inr f ↦
      rw f
        (ap suc (length-without id ss (subst (λ b. (b || protection_scan_live ss id) ≡ true) f h)))
]

pub live-without :
    (id j : ℕ) (ss : List Scan)
    → protection_scan_live ss j ≡ false
    → protection_scan_live (without id ss) j ≡ false
unfolding without protection_scan_live
live-without id j [] h = refl
live-without id j (s ∷ ss) h = elim (Bool-cases (s.id == id)) [
  | inl t ↦ rw t (neither (s.id == j) (protection_scan_live ss j) h).1
  | inr f ↦ rw f (
      let (a, b) = neither (s.id == j) (protection_scan_live ss j) h in
      rw a (live-without id j ss b))
]
  where
    neither : (a b : Bool) → (a || b) ≡ false → (a ≡ false) × (b ≡ false)
    neither a b e = ground (arith, e)

pub Unique-without : (id : ℕ) (ss : List Scan) → Unique ss → Unique (without id ss)
unfolding without
Unique-without id [] u = tt
Unique-without id (s ∷ ss) (f, u) = elim (Bool-cases (s.id == id)) [
  | inl t ↦ rw t u
  | inr e ↦ rw e (live-without id s.id ss f, Unique-without id ss u)
]

All-without {κ} : (P : Scan → Type κ) (id : ℕ) (ss : List Scan) → All P ss → All P (without id ss)
unfolding without
All-without P id [] a = tt
All-without P id (s ∷ ss) (a, more) = elim (Bool-cases (s.id == id)) [
  | inl t ↦ rw t more
  | inr e ↦ rw e (a, All-without P id ss more)
]

pub scan_unlink-Wf : (m id : ℕ) (p : Prot) → Wf m p → Wf m (scan_unlink id p)
unfolding scan_unlink
scan_unlink-Wf m id p w = elim (Bool-cases (protection_scan_live p.scans id)) [
  | inl t ↦ rw t (record {
    counted = let l = length-without id p.scans t in let c = w.counted in omega (arith, l, c);
    unique = Unique-without id p.scans w.unique;
    short = All-without Short id p.scans w.short;
    bounded = let b = w.bounded in omega (arith, b);
  })
  | inr f ↦ rw f w
]

count_clean-Wf :
    (m : ℕ) (cfg : Config) (now ip_be : ℕ) (p : Prot) → Wf m p → Wf m (count_clean cfg now ip_be p)
unfolding count_clean
count_clean-Wf m cfg now ip_be p w = record {
  counted = w.counted;
  unique = w.unique;
  short = w.short;
  bounded = w.bounded;
}

pub scan_done_clean-Wf :
    (m : ℕ) (cfg : Config) (now : ℕ) (s : Scan) (p : Prot)
    → Wf m p
    → Wf m (scan_done_clean cfg now s p)
unfolding scan_done_clean
scan_done_clean-Wf m cfg now s p w =
    let q = scan_unlink-Wf m s.id p w in
    elim (Bool-cases (has_ip (scan_unlink s.id p).scans s.ip_be)) [
      | inl t ↦ rw t q
      | inr f ↦ rw f (count_clean-Wf m cfg now s.ip_be (scan_unlink s.id p) q)
    ]

pub unlink_ip-Wf :
    (m ip_be : ℕ) (its : List Scan) (p : Prot) → Wf m p → Wf m (unlink_ip ip_be its p)
unfolding unlink_ip
unlink_ip-Wf m ip_be [] p w = w
unlink_ip-Wf m ip_be (it ∷ its) p w = elim (Bool-cases (it.ip_be == ip_be)) [
  | inl t ↦ rw t (unlink_ip-Wf m ip_be its (scan_unlink it.id p) (scan_unlink-Wf m it.id p w))
  | inr f ↦ rw f (unlink_ip-Wf m ip_be its p w)
]

pub count_hit-Wf : (m now ip_be : ℕ) (p : Prot) → Wf m p → Wf m (count_hit now ip_be p)
unfolding count_hit
count_hit-Wf m now ip_be p w = record {
  counted = w.counted;
  unique = w.unique;
  short = w.short;
  bounded = w.bounded;
}

length-put : (s : Scan) (ss : List Scan) → length (put s ss) ≡ length ss
unfolding put
length-put s [] = refl
length-put s (t ∷ ts) = elim (Bool-cases (t.id == s.id)) [
  | inl e ↦ rw e refl
  | inr f ↦ rw f (ap suc (length-put s ts))
]

live-put :
    (s : Scan) (j : ℕ) (ss : List Scan)
    → protection_scan_live (put s ss) j ≡ protection_scan_live ss j
unfolding put protection_scan_live
live-put s j [] = refl
live-put s j (t ∷ ts) = elim (Bool-cases (t.id == s.id)) [
  | inl e ↦ rw e (ap (λ k. (k == j) || protection_scan_live ts j) (sym (==→eq t.id s.id e)))
  | inr f ↦ rw f (ap (λ b. (t.id == j) || b) (live-put s j ts))
]

Unique-put : (s : Scan) (ss : List Scan) → Unique ss → Unique (put s ss)
unfolding put
Unique-put s [] u = tt
Unique-put s (t ∷ ts) (f, u) = elim (Bool-cases (t.id == s.id)) [
  | inl e ↦ rw e (subst (λ k. protection_scan_live ts k ≡ false) (==→eq t.id s.id e) f, u)
  | inr g ↦ rw g (live-put s t.id ts ∙ f, Unique-put s ts u)
]

All-put {κ} : (P : Scan → Type κ) (s : Scan) (ss : List Scan) → P s → All P ss → All P (put s ss)
unfolding put
All-put P s [] h a = tt
All-put P s (t ∷ ts) h (a, more) = elim (Bool-cases (t.id == s.id)) [
  | inl e ↦ rw e (h, more)
  | inr g ↦ rw g (a, All-put P s ts h more)
]

pub store-Wf : (m : ℕ) (s : Scan) (p : Prot) → Short s → Wf m p → Wf m (store s p)
store-Wf m s p h w = record {
  counted = w.counted ∙ sym (length-put s p.scans);
  unique = Unique-put s p.scans w.unique;
  short = All-put Short s p.scans h w.short;
  bounded = w.bounded;
}

pub received-Short : (s : Scan) (tmp : Bytes) → length tmp ≤ 512 → Short s → Short (received s tmp)
unfolding received slide
received-Short s tmp l h = elim (Bool-cases (ltb scan_buf (length s.buf + length tmp))) [
  | inl t ↦ rw t (
      omega (
        arith,
        length-append (take 256 (drop (length s.buf - 256) s.buf)) tmp,
        length-take 256 (drop (length s.buf - 256) s.buf),
      ))
  | inr f ↦ rw f (
      let b = ltb→le scan_buf (length s.buf + length tmp) f in
      omega (arith, b, length-append s.buf tmp))
]
