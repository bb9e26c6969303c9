-- ===== src/Proto/Tags.antt =====
-- src/proto.c: message tag values on the wire, `unescape_tag_value_inplace` and `escape_tag_value`.
pub mod RoundTrip
use sekur_ircd.Base.{ℕ, ◌+◌, [], ◌∷◌, ◌++◌, ltb, ◌==◌, if◌then◌else◌, Bytes, length}

-- The switch of `unescape_tag_value_inplace` on the byte behind a backslash.
unfoldable pub unescape_byte : ℕ → ℕ
unescape_byte c =
    if c == b':'
    then b';'
    else if c == b's'
    then b' '
    else if c == b'r'
    then b'\r'
    else if c == b'n'
    then b'\n'
    else c

-- A backslash at the end of the value stands for itself.
unfoldable pub unescape_tag_value : Bytes → Bytes
unfolding unescape_byte
unescape_tag_value [] = []
unescape_tag_value (c ∷ []) = c ∷ []
unescape_tag_value (c ∷ d ∷ s) =
    let pair = unescape_byte d ∷ unescape_tag_value s in
    let single = c ∷ unescape_tag_value (d ∷ s) in if c == b'\\' then pair else single

-- The switch of `escape_tag_value`.
unfoldable pub escape_byte : ℕ → Bytes
escape_byte c =
    if c == b'\\'
    then b'\\' ∷ b'\\' ∷ []
    else if c == b';'
    then b'\\' ∷ b':' ∷ []
    else if c == b' '
    then b'\\' ∷ b's' ∷ []
    else if c == b'\r'
    then b'\\' ∷ b'r' ∷ []
    else if c == b'\n'
    then b'\\' ∷ b'n' ∷ []
    else c ∷ []

-- The loop of `escape_tag_value` from position `o` of the output on.
unfoldable pub escape_tag_from : ℕ → ℕ → Bytes → Bytes
unfolding escape_byte
escape_tag_from outsz o [] = []
escape_tag_from outsz o (c ∷ s) =
    let rest = escape_tag_from outsz (o + length (escape_byte c)) s in
    if ltb (o + 2) outsz then escape_byte c ++ rest else []

unfoldable pub escape_tag_value : ℕ → Bytes → Bytes
unfolding escape_tag_from
escape_tag_value outsz s = escape_tag_from outsz 0 s
