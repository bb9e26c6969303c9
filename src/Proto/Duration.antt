-- ===== src/Proto/Duration.antt =====
-- src/proto.c: `irc_parse_duration`. `none` is its -1, and a `long` has 64 bits.
pub mod Values
use sekur_ircd.Base.{
  ℕ, ◌+◌, ◌-◌, ◌*◌, ◌/◌, [], ◌∷◌, Option, none, some, ltb, ◌==◌, if◌then◌else◌, Bytes,
}
use sekur_ircd.Cstring.{isdigit, tolower}

-- LONG_MAX
abbrev pub long_max : ℕ
long_max = 9223372036854775807

-- `if (n > (LONG_MAX - 9) / 10) n = (LONG_MAX - 9) / 10;`
unfoldable pub clamp : ℕ → ℕ
clamp n = if ltb ((long_max - 9) / 10) n then (long_max - 9) / 10 else n

-- The loop over the digits: the number, and what follows it.
unfoldable pub read_digits : ℕ → Bytes → ℕ × Bytes
unfolding clamp
read_digits n [] = (n, [])
read_digits n (c ∷ s) =
    let rest = read_digits (clamp n * 10 + (c - b'0')) s in if isdigit c then rest else (n, c ∷ s)

unfoldable pub multiplier : ℕ → Option ℕ
unfolding tolower
multiplier c =
    if tolower c == b's'
    then some 1
    else if tolower c == b'm'
    then some 60
    else if tolower c == b'h'
    then some 3600
    else if tolower c == b'd'
    then some 86400
    else if tolower c == b'w'
    then some 604800
    else none

unfoldable pub scaled : ℕ → ℕ → ℕ
scaled n mult = if ltb (long_max / mult) n then long_max else n * mult

-- Behind the digits: nothing, or one unit and nothing after it.
unfoldable pub with_unit : ℕ × Bytes → Option ℕ
unfolding multiplier scaled
with_unit (n, []) = some (scaled n 1)
with_unit (n, c ∷ []) = elim (multiplier c) [ none ↦ none | some mult ↦ some (scaled n mult) ]
with_unit (n, c ∷ d ∷ s) = none

unfoldable pub irc_parse_duration : Bytes → Option ℕ
unfolding read_digits with_unit
irc_parse_duration [] = none
irc_parse_duration (c ∷ s) = if isdigit c then with_unit (read_digits 0 (c ∷ s)) else none
