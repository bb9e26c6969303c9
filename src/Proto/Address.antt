-- ===== src/Proto/Address.antt =====
-- src/proto.c: address ranges, `prefix_hit`, `irc_ip_mask_match`, `irc_host_mask_match` and
-- `irc_ip_limit_key`. The C library's `inet_pton` and `inet_ntop` are parameters: the bytes of an IPv4
-- and of an IPv6 address, and the text of one.
pub mod Prefix
use sekur_ircd.Base.{
  ℕ, zero, suc, ◌+◌, ◌-◌, ◌*◌, ◌/◌, ◌%◌, ◌^◌, Bool, true, false, not, ◌&&◌, ◌||◌, [], ◌∷◌, ◌++◌,
  Option, none, some, ltb, leb, ◌==◌, if◌then◌else◌, Bytes, length, take, drop,
}
use sekur_ircd.Cstring.{decimal_text, codes, isdigit, str_eq, split_at}
use sekur_ircd.Proto.Glob.{irc_glob_match}
use sekur_ircd.Proto.Mask.{has_byte}

-- The functions of the C library on addresses.
pub record Inet : Type 0 where
  pub pton4 : Bytes → Option Bytes
  pub pton6 : Bytes → Option Bytes
  pub ntop : ℕ → Bytes → Bytes

-- A parsed address: its family, 4 or 6, and its bytes.
abbrev pub Address : Type 0
Address = ℕ × Bytes

unfoldable pub parse_ip : Inet → Bytes → Option Address
parse_ip inet ip = elim (inet.pton4 ip) [
  | some b ↦ some (4, b)
  | none ↦ elim (inet.pton6 ip) [ some b ↦ some (6, b) | none ↦ none ]
]

-- `memcmp(a, b, whole) == 0`, then the `rest` high bits of the next byte.
unfoldable pub same_bytes : ℕ → Bytes → Bytes → Bool
same_bytes zero a b = true
same_bytes (suc n) (x ∷ a) (y ∷ b) = x == y && same_bytes n a b
same_bytes (suc n) _ _ = false

unfoldable pub high_bits : ℕ → Bytes → ℕ
high_bits rest [] = 0
high_bits rest (x ∷ a) = x / 2 ^ (8 - rest)

unfoldable pub prefix_hit : Bytes → Bytes → ℕ → Bool
unfolding same_bytes high_bits
prefix_hit a b bits =
    if not (same_bytes (bits / 8) a b)
    then false
    else if bits % 8 == 0
    then true
    else high_bits (bits % 8) (drop (bits / 8) a) == high_bits (bits % 8) (drop (bits / 8) b)

-- `strtol(s, &end, 10)` on a text that begins with a digit, with what follows the digits.
unfoldable pub decimal : ℕ → Bytes → ℕ × Bytes
decimal n [] = (n, [])
decimal n (c ∷ s) =
    let more = decimal (n * 10 + (c - b'0')) s in if isdigit c then more else (n, c ∷ s)

abbrev pub begins_digit : Bytes → Bool
begins_digit [] = false
begins_digit (c ∷ s) = isdigit c

abbrev pub is_end : Bytes → Bool
is_end [] = true
is_end (c ∷ s) = false

abbrev pub family_bits : ℕ → ℕ
family_bits fam = if fam == 4 then 32 else 128

-- Both addresses parsed: the same family, a prefix length within it, and the prefix itself.
unfoldable pub range_hit : Option Address → Option Address → ℕ × Bytes → Bool
unfolding prefix_hit
range_hit none ip bits = false
range_hit (some net) none bits = false
range_hit (some (nf, nb)) (some (ifam, ib)) (bits, end) =
    if not (is_end end) || not (nf == ifam) || ltb (family_bits nf) bits
    then false
    else prefix_hit nb ib bits

unfoldable pub irc_ip_mask_match : Inet → Bytes → Bytes → Option Bool
unfolding split_at irc_glob_match parse_ip decimal range_hit
irc_ip_mask_match inet mask ip = elim (split_at b'/' mask) [
  | none ↦ irc_glob_match mask ip
  | some (net, len) ↦
      if leb 64 (length net) || not (begins_digit len)
      then some false
      else some (range_hit (parse_ip inet net) (parse_ip inet ip) (decimal 0 len))
]

-- strrchr(mask, '@'): the text in front of the last `@` and the text behind it.
unfoldable pub split_last : ℕ → Bytes → Option (Bytes × Bytes)
split_last c [] = none
split_last c (x ∷ s) = elim (split_last c s) [
  | some (a, b) ↦ some (x ∷ a, b)
  | none ↦ if x == c then some ([], s) else none
]

-- A mask with `/` behind its last `@`: the user part is a glob, the host part a range.
unfoldable pub user_range_hit : Inet → Bytes → Bytes → Bytes → Bytes → Option Bool
unfolding irc_glob_match irc_ip_mask_match
user_range_hit inet user host um range = elim (irc_glob_match (take 127 um) user) [
  | none ↦ none
  | some false ↦ some false
  | some true ↦ irc_ip_mask_match inet range host
]

unfoldable pub irc_host_mask_match : Inet → Bytes → Bytes → Bytes → Option Bool
unfolding split_last user_range_hit irc_glob_match has_byte
irc_host_mask_match inet user host mask = elim (split_last b'@' mask) [
  | some (um, range) ↦
      if has_byte b'/' range
      then user_range_hit inet user host um range
      else irc_glob_match mask (take 450 (user ++ (b'@' ∷ host)))
  | none ↦
      if has_byte b'/' mask
      then user_range_hit inet user host (b'*' ∷ []) mask
      else irc_glob_match (take 319 (b'*' ∷ b'@' ∷ mask)) (take 450 (user ++ (b'@' ∷ host)))
]

-- The mask of byte `i` of the loop in `irc_ip_limit_key`: the high `keep` bits stay.
unfoldable pub keep_bits : ℕ → ℕ → ℕ
keep_bits keep x = if leb 8 keep then x else x / 2 ^ (8 - keep) * 2 ^ (8 - keep)

unfoldable pub masked : ℕ → Bytes → Bytes
unfolding keep_bits
masked prefix6 [] = []
masked prefix6 (x ∷ b) = keep_bits prefix6 x ∷ masked (prefix6 - 8) b

-- The address in the IPv4 part of IPv6 is shown as an IPv4 one.
abbrev pub mapped : Bytes
mapped = 0 ∷ 0 ∷ 0 ∷ 0 ∷ 0 ∷ 0 ∷ 0 ∷ 0 ∷ 0 ∷ 0 ∷ 255 ∷ 255 ∷ []

-- A text that begins with a colon would be read as a trailing parameter.
abbrev pub guarded_text : Bytes → Bytes
guarded_text [] = []
guarded_text (c ∷ s) = if c == b':' then b'0' ∷ c ∷ s else c ∷ s

-- `none` is the -1 of a buffer that is too small; inet_ntop does not fail on a buffer of 64 bytes.
unfoldable pub format_ip : Inet → Address → ℕ → Option Bytes
unfolding same_bytes
format_ip inet (fam, buf) outsz =
    let text = guarded_text (
      if fam == 6 && same_bytes 12 buf mapped
      then inet.ntop 4 (drop 12 buf)
      else inet.ntop fam buf) in
    if leb outsz (length text) then none else some text

unfoldable pub irc_ip_normalize : Inet → Bytes → ℕ → Option Bytes
unfolding parse_ip format_ip
irc_ip_normalize inet ip outsz = elim (parse_ip inet ip) [
  | none ↦ none
  | some a ↦ format_ip inet a outsz
]

-- The network of an IPv6 address, for an address that is counted with its neighbours.
unfoldable pub limit_network : Inet → Bytes → ℕ → Option Bytes
unfolding parse_ip masked format_ip
limit_network inet ip prefix6 = elim (parse_ip inet ip) [
  | none ↦ none
  | some (fam, b) ↦
      if not (fam == 6) || (prefix6 == 0 || leb 128 prefix6)
      then none
      else format_ip inet (6, masked prefix6 b) 64
]

unfoldable pub irc_ip_limit_key : Inet → Bytes → ℕ → ℕ → Bytes
unfolding limit_network decimal_text
irc_ip_limit_key inet ip prefix6 outsz = elim (limit_network inet ip prefix6) [
  | none ↦ take (outsz - 1) ip
  | some net ↦ take (outsz - 1) (net ++ (b'/' ∷ decimal_text prefix6))
]
