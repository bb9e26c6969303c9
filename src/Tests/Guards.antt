-- ===== src/Tests/Guards.antt =====
-- Addresses and the scanner at concrete inputs.
use sekur_ircd.Base.{
  ◌≢◌, sym, ◌∙◌, Bytes, ◌++◌, ℕ, zero, suc, ◌≡◌, ◌↔◌, refl, true, false, List, [], ◌∷◌, Option,
  none, some, length, take, All, arith,
}
use sekur_ircd.Cstring.{codes}
use sekur_ircd.Proto.Proxy.{complete, incomplete, signature, irc_proxy_v2_parse}
use sekur_ircd.Proto.Proxy.Stream.{irc_proxy_v2_parse-append}
use sekur_ircd.Proto.Address.{Inet, prefix_hit}
use sekur_ircd.Proto.Address.Prefix.{bits_of, prefix_hit_iff}
use sekur_ircd.Protection.Text.{protection_expand}
use sekur_ircd.Protection.Slots.{Slot, recent_slots, slot_set}
use sekur_ircd.Protection.Scans.{
  with_answers, reading, Scan, Prot, Config, has_ip, scan_hit, protection_ip_related,
  protection_scan_live, protection_scan_start,
}
use sekur_ircd.Protection.Scans.Handle.{protection_tick}
use sekur_ircd.Protection.Scans.Wf.{Wf}
use sekur_ircd.Protection.Scans.Runs.{started, ticked, stay, then_by, Runs-Wf}
use sekur_ircd.Protection.Scans.Removal.{others, scan_hit-others}
use sekur_ircd.Protection.Scans.Related.{ask_all, ask_all-scanning, protection_ip_related-once}

abbrev inet : Inet
inet = record { pton4 = λ s. some (203 ∷ 0 ∷ 113 ∷ 9 ∷ []); pton6 = λ s. none; ntop = λ f b. [] }

abbrev config : Config
config = record {
  exempt = [];
  scan_enabled = true;
  scan_action = codes "zline";
  scan_ban_duration = codes "1d";
  scan_reason = codes "Open %t proxy on %i:%p";
  timeout_secs = 10;
  scan_max_read = 4096;
  scan_max_concurrent = 10;
  scan_negcache = 3600;
  target_ip = codes "203.0.113.9";
  target_port = 6667;
  target_strings = codes "Welcome" ∷ [];
  protocols = (1, 8080) ∷ (4, 1080) ∷ [];
}

abbrev slots : ℕ → List Slot
slots zero = []
slots (suc n) = record { ip = 0; expires = 0 } ∷ slots n

abbrev idle : Prot
idle = record {
  scans = [];
  n_scans = 0;
  scanned = 0;
  hits = 0;
  negcache = slots 4;
  recent = slots 64;
}

abbrev probe : ℕ → ℕ → Scan
probe id ip_be = record {
  id = id;
  ip_be = ip_be;
  ip = codes "192.0.2.7";
  proto = 1;
  port = 8080;
  state = reading;
  deadline = 110;
  buf = [];
  nread = 0;
}

-- Two probes of one address and one of another.
abbrev busy : Prot
busy = record idle { scans = probe 1 5 ∷ probe 2 6 ∷ probe 3 5 ∷ []; n_scans = 3 }

expands :
    protection_expand (codes "%t on %i:%p") (codes "1.2.3.4") (codes "http") (codes "8080") 350
    ≡ codes "http on 1.2.3.4:8080"
unfolding protection_expand
expands = refl

prefix_hit_iff_example :
    (prefix_hit (192 ∷ 0 ∷ 2 ∷ 7 ∷ []) (192 ∷ 0 ∷ 2 ∷ 250 ∷ []) 24 ≡ true)
    ↔ (take 24 (bits_of (192 ∷ 0 ∷ 2 ∷ 7 ∷ [])) ≡ take 24 (bits_of (192 ∷ 0 ∷ 2 ∷ 250 ∷ [])))
prefix_hit_iff_example =
    prefix_hit_iff (192 ∷ 0 ∷ 2 ∷ 7 ∷ []) (192 ∷ 0 ∷ 2 ∷ 250 ∷ []) 24 refl (omega arith)

nothing_live : protection_scan_live [] 7 ≡ false
unfolding protection_scan_live
nothing_live = refl

abbrev probes : List (Option ℕ)
probes = some 7 ∷ none ∷ []

Runs-Wf_example : Wf 10 (
    protection_tick config 200
      ((protection_scan_start inet config 100 (some 5) (codes "192.0.2.7") probes idle).1))
unfolding with_answers
Runs-Wf_example =
    Runs-Wf inet config idle
      (protection_tick config 200
        ((protection_scan_start inet config 100 (some 5) (codes "192.0.2.7") probes idle).1))
      (record { counted = refl; unique = tt; short = tt; bounded = omega arith })
      (then_by
        (then_by stay
          (started 100 (some 5) (codes "192.0.2.7") probes (λ ip_be. (nothing_live, tt))))
        (ticked 200))

apart :
    (protection_scan_live (probe 2 6 ∷ probe 3 5 ∷ []) 1 ≡ false)
    × (protection_scan_live (probe 3 5 ∷ []) 2 ≡ false)
    × (protection_scan_live [] 3 ≡ false)
unfolding protection_scan_live
apart = (refl, refl, refl)

scan_hit-others_example :
    ((scan_hit config 100 (probe 1 5) busy).0.scans ≡ others 5 busy.scans)
    × (has_ip ((scan_hit config 100 (probe 1 5) busy).0.scans) 5 ≡ false)
scan_hit-others_example =
    scan_hit-others config 100 (probe 1 5) busy (apart.0, (apart.1, (apart.2, tt)))

scanning : has_ip busy.scans 5 ≡ true
unfolding has_ip
scanning = refl

ask_all-scanning_example : All (λ b. b ≡ true) (ask_all 5 (100 ∷ 101 ∷ 102 ∷ []) busy)
ask_all-scanning_example = ask_all-scanning 5 (100 ∷ 101 ∷ 102 ∷ []) busy scanning

-- A scan of the address has ended at 100.
abbrev recently : Prot
recently = record idle { recent = slot_set (slots 64) recent_slots 5 115 }

has_slots : length recently.recent ≡ recent_slots
unfolding slot_set
has_slots = refl

not_scanning : has_ip recently.scans 5 ≡ false
unfolding has_ip
not_scanning = refl

exempt_once : (protection_ip_related (some 5) 101 recently).0 ≡ true
unfolding protection_ip_related
exempt_once = refl

protection_ip_related-once_example :
    (protection_ip_related (some 5) 102 ((protection_ip_related (some 5) 101 recently).1)).0 ≡ false
protection_ip_related-once_example =
    protection_ip_related-once 5 101 102 recently has_slots not_scanning exempt_once (omega arith)

-- The header of a balancer's health check.
abbrev local_header : Bytes
local_header = signature ++ (0x20 ∷ 0 ∷ 0 ∷ 0 ∷ [])

health_check : irc_proxy_v2_parse 64 local_header ≡ complete [] 0 16
unfolding irc_proxy_v2_parse
health_check = refl

settled : irc_proxy_v2_parse 64 local_header ≢ incomplete
settled e = let h = sym health_check ∙ e in ground (arith, h)

irc_proxy_v2_parse-append_example :
    irc_proxy_v2_parse 64 (local_header ++ codes "NICK ann") ≡ irc_proxy_v2_parse 64 local_header
irc_proxy_v2_parse-append_example =
    irc_proxy_v2_parse-append 64 local_header (codes "NICK ann") settled
