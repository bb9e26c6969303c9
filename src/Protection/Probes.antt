-- ===== src/Protection/Probes.antt =====
-- src/protection.c: what a probe sends, `protection_probe_bytes`; src/config.c: the names of the
-- protocols.
use sekur_ircd.Base.{
  ℕ, ◌/◌, ◌%◌, [], ◌∷◌, ◌++◌, none, some, ltb, ◌==◌, if◌then◌else◌, Bytes, length,
}
use sekur_ircd.Cstring.{codes, decimal_text}
use sekur_ircd.Proto.Address.{Inet}

-- SCAN_PROTOS
unfoldable pub config_scan_proto_name : ℕ → Bytes
config_scan_proto_name type =
    if type == 1
    then codes "http"
    else if type == 2
    then codes "httppost"
    else if type == 3
    then codes "socks4"
    else if type == 4
    then codes "socks5"
    else codes "?"

-- The text that a probe of an HTTP proxy sends.
unfoldable pub http_connect : Bytes → ℕ → Bytes
unfolding decimal_text
http_connect target_ip port =
    codes "CONNECT " ++ target_ip ++ (b':' ∷ decimal_text port) ++ codes " HTTP/1.0\r\n\r\n"

unfoldable pub http_post : Bytes → ℕ → Bytes
unfolding decimal_text
http_post target_ip port =
    codes "POST http://"
    ++ target_ip
    ++ (b':' ∷ decimal_text port)
    ++ codes "/ HTTP/1.0\r\nContent-Type: text/plain\r\nContent-Length: 18\r\n\r\n"
    ++ codes "PING :protection\r\n"

abbrev pub if_fits : ℕ → Bytes → Bytes
if_fits cap out = if ltb (length out) cap then out else []

-- The bytes of a probe, empty for 0. `ip` is what inet_pton made of the target.
unfoldable pub protection_probe_bytes : Inet → ℕ → Bytes → ℕ → ℕ → ℕ → Bytes
unfolding http_connect http_post
protection_probe_bytes inet type target_ip port stage cap = elim (inet.pton4 target_ip) [
  | none ↦ []
  | some ip ↦
      let ph = port / 256 % 256 in
      let pl = port % 256 in
      if ltb cap 32
      then []
      else if type == 1
      then if_fits cap (http_connect target_ip port)
      else if type == 2
      then if_fits cap (http_post target_ip port)
      else if type == 3
      then 4 ∷ 1 ∷ ph ∷ pl ∷ ip ++ 0 ∷ []
      else if type == 4
      then if stage == 0 then 5 ∷ 1 ∷ 0 ∷ [] else 5 ∷ 1 ∷ 0 ∷ 1 ∷ ip ++ ph ∷ pl ∷ []
      else []
]
