-- ===== src/Proto/Strings.antt =====
-- src/proto.c: the small functions on strings.
use sekur_ircd.Base.{ltb, if◌then◌else◌, ◌==◌, ◌+◌, ◌||◌, [], ◌∷◌, ℕ, ◌-◌, map, Bytes, take}
use sekur_ircd.Cstring.{tolower}

-- `irc_casefold(out, outsz, in)` keeps `outsz - 1` bytes.
unfoldable pub irc_casefold : ℕ → Bytes → Bytes
unfolding tolower
irc_casefold outsz s = map tolower (take (outsz - 1) s)

-- `irc_escape` from position `o` of the output on: CR and LF are left out.
unfoldable pub escape_from : ℕ → ℕ → Bytes → Bytes
escape_from outsz o [] = []
escape_from outsz o (c ∷ s) =
    let kept = c ∷ escape_from outsz (o + 1) s in
    let dropped = escape_from outsz o s in
    if ltb (o + 1) outsz then (if c == b'\r' || c == b'\n' then dropped else kept) else []

unfoldable pub irc_escape : ℕ → Bytes → Bytes
unfolding escape_from
irc_escape outsz s = if outsz == 0 then [] else escape_from outsz 0 s
