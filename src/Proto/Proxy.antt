-- ===== src/Proto/Proxy.antt =====
-- src/proto.c: `irc_proxy_v2_parse`, the header of the PROXY protocol, version 2.
pub mod Stream
use sekur_ircd.Base.{
  ℕ, zero, suc, ◌+◌, ◌-◌, ◌*◌, ◌/◌, ◌%◌, Bool, true, false, not, ◌&&◌, ◌||◌, [], ◌∷◌, ◌++◌, ltb,
  leb, ◌==◌, if◌then◌else◌, Bytes, length, take, drop,
}
use sekur_ircd.Cstring.{decimal_text}

-- `%x`, one round of the fuel for each digit.
unfoldable pub hex_digit : ℕ → ℕ
hex_digit d = if ltb d 10 then b'0' + d else b'a' + (d - 10)

unfoldable pub hex_digits : ℕ → ℕ → Bytes
unfolding hex_digit
hex_digits zero n = []
hex_digits (suc fuel) n = elim (leb 16 n) [
  | true ↦ hex_digits fuel (n / 16) ++ hex_digit (n % 16) ∷ []
  | false ↦ hex_digit n ∷ []
]

-- What the parser returns: -1, 0, or 1 with the address (empty for LOCAL), the port and `*consumed`.
pub data Proxied : Type 0 where
  bad : Proxied
  incomplete : Proxied
  complete : Bytes → ℕ → ℕ → Proxied

abbrev pub signature : Bytes
signature = 13 ∷ 10 ∷ 13 ∷ 10 ∷ 0 ∷ 13 ∷ 10 ∷ 81 ∷ 85 ∷ 73 ∷ 84 ∷ 10 ∷ []

-- As many bytes of the signature as there are.
unfoldable pub begins_signature : Bytes → Bytes → Bool
begins_signature [] buf = true
begins_signature (x ∷ sig) [] = true
begins_signature (x ∷ sig) (y ∷ buf) = y == x && begins_signature sig buf

abbrev pub byte_at : ℕ → Bytes → ℕ
byte_at i [] = 0
byte_at zero (c ∷ s) = c
byte_at (suc i) (c ∷ s) = byte_at i s

abbrev pub word_at : ℕ → Bytes → ℕ
word_at i a = byte_at i a * 256 + byte_at (suc i) a

unfoldable pub ipv4_text : Bytes → Bytes
unfolding decimal_text
ipv4_text a =
    decimal_text (byte_at 0 a)
    ++ (b'.' ∷ decimal_text (byte_at 1 a))
    ++ (b'.' ∷ decimal_text (byte_at 2 a))
    ++ (b'.' ∷ decimal_text (byte_at 3 a))

-- The loop over the eight words, while more than five bytes are left.
unfoldable pub ipv6_words : ℕ → ℕ → ℕ → Bytes → Bytes
unfolding hex_digits
ipv6_words zero i left a = []
ipv6_words (suc n) i left a =
    let word = hex_digits 5 (word_at (2 * i) a) in
    let text = if i == 0 then word else b':' ∷ word in
    let rest = ipv6_words n (suc i) (left - length text) a in
    if ltb 5 left then text ++ rest else []

-- The command and the address; `a` is what stands behind the sixteen bytes, `alen` bytes of it.
unfoldable pub proxy_address : ℕ → ℕ → ℕ → Bytes → ℕ → Proxied
unfolding ipv4_text ipv6_words
proxy_address ipsz command family a alen =
    if command == 0
    then complete [] 0 (16 + alen)
    else if not (command == 1)
    then bad
    else if family == 0x11 && leb 12 alen
    then complete (take (ipsz - 1) (ipv4_text a)) (word_at 8 a) (16 + alen)
    else if family == 0x21 && leb 36 alen
    then complete (ipv6_words 8 0 ipsz a) (word_at 32 a) (16 + alen)
    else bad

-- Behind the signature: version and command, family, and the length of what follows.
unfoldable pub proxy_body : ℕ → Bytes → Proxied
unfolding proxy_address
proxy_body ipsz (v ∷ family ∷ hi ∷ lo ∷ rest) =
    let alen = hi * 256 + lo in
    if not (v / 16 == 2) || ltb 512 alen
    then bad
    else if ltb (length rest) alen
    then incomplete
    else proxy_address ipsz (v % 16) family (take alen rest) alen
proxy_body ipsz _ = incomplete

unfoldable pub irc_proxy_v2_parse : ℕ → Bytes → Proxied
unfolding begins_signature proxy_body
irc_proxy_v2_parse ipsz buf =
    if not (begins_signature signature buf) then bad else proxy_body ipsz (drop 12 buf)
