-- ===== src/Proto/Build.antt =====
-- src/proto.c: `irc_build`, with `append_str` and `append_escaped`. `none` is the -1 of a buffer that
-- is too small.
pub mod Lines
pub mod Shape
pub mod RoundTrip
use sekur_ircd.Base.{
  ◌>>=◌, ℕ, zero, suc, ◌+◌, ◌-◌, ◌≡◌, Bool, true, false, ◌&&◌, List, [], ◌∷◌, ◌++◌, Option, none,
  some, map, ltb, leb, ◌==◌, if◌then◌else◌, Bytes, length, take,
}
use sekur_ircd.Proto.Strings.{irc_escape}
use sekur_ircd.Proto.Tags.{escape_tag_value}

-- `irc_tag_t` as irc_build reads it: a NULL value and an empty one are the same to it.
abbrev pub Tag : Type 0
Tag = Bytes × Bytes

unfoldable pub append_str : ℕ → Bytes → Bytes → Option Bytes
append_str outsz out s = if leb outsz (length out + length s) then none else some (out ++ s)

unfoldable pub append_escaped : ℕ → Bytes → Bytes → Option Bytes
unfolding append_str irc_escape
append_escaped outsz out s = append_str outsz out (irc_escape 1024 s)

-- `=value`, left out for an empty value.
unfoldable pub append_tag_value : ℕ → Bytes → Bytes → Option Bytes
unfolding append_str escape_tag_value
append_tag_value outsz out [] = some out
append_tag_value outsz out (c ∷ val) = do
  out ← append_str outsz out (b'=' ∷ [])
  append_str outsz out (escape_tag_value 1024 (c ∷ val))

unfoldable pub append_tags : ℕ → Bool → List Tag → Bytes → Option Bytes
unfolding append_str append_tag_value
append_tags outsz first [] out = some out
append_tags outsz first ((key, val) ∷ tags) out = do
  out ← if first then some out else append_str outsz out (b';' ∷ [])
  out ← append_str outsz out key
  out ← append_tag_value outsz out val
  append_tags outsz false tags out

unfoldable pub append_tag_section : ℕ → List Tag → Bytes → Option Bytes
unfolding append_str append_tags
append_tag_section outsz [] out = some out
append_tag_section outsz (t ∷ tags) out = do
  out ← append_str outsz out (b'@' ∷ [])
  out ← append_tags outsz true (t ∷ tags) out
  append_str outsz out (b' ' ∷ [])

unfoldable pub append_prefix : ℕ → Option Bytes → Bytes → Option Bytes
unfolding append_str append_escaped
append_prefix outsz none out = some out
append_prefix outsz (some prefix) out = do
  out ← append_str outsz out (b':' ∷ [])
  out ← append_escaped outsz out prefix
  append_str outsz out (b' ' ∷ [])

-- A middle parameter on the wire: never empty, no space, no colon in front.
abbrev pub space_to_underscore : ℕ → ℕ
space_to_underscore c = if c == b' ' then b'_' else c

unfoldable pub defang : Bytes → Bytes
defang [] = b'*' ∷ []
defang (c ∷ s) = map space_to_underscore ((if c == b':' then b'_' else c) ∷ s)

unfoldable pub middle : Bytes → Bytes
unfolding defang irc_escape
middle param = defang (irc_escape 512 param)

unfoldable pub append_params : ℕ → List Bytes → Bytes → Option Bytes
unfolding append_str middle
append_params outsz [] out = some out
append_params outsz (p ∷ params) out = do
  out ← append_str outsz out (b' ' ∷ [])
  out ← append_str outsz out (middle p)
  append_params outsz params out

-- The trailing text is cut to the room that is left.
unfoldable pub append_trailing : ℕ → Option Bytes → Bytes → Option Bytes
unfolding append_str irc_escape
append_trailing outsz none out = some out
append_trailing outsz (some trailing) out = do
  out ← append_str outsz out (b' ' ∷ b':' ∷ [])
  some (out ++ take (outsz - 1 - length out) (irc_escape 1024 trailing))

unfoldable pub irc_build :
    ℕ → List Tag → Option Bytes → Bytes → List Bytes → Option Bytes → Option Bytes
unfolding append_tag_section append_prefix append_escaped append_params append_trailing
irc_build outsz tags prefix command params trailing = if outsz == 0 then none else do
  out ← append_tag_section outsz tags []
  out ← append_prefix outsz prefix out
  out ← append_escaped outsz out command
  out ← append_params outsz params out
  append_trailing outsz trailing out
