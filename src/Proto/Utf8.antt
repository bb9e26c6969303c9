-- ===== src/Proto/Utf8.antt =====
-- src/proto.c: `irc_utf8_valid`. A mask and a shift on bytes are written by division and remainder.
pub mod Scalars
pub mod Decoded
use sekur_ircd.Base.{
  ℕ, zero, suc, ◌+◌, ◌*◌, ◌/◌, ◌%◌, Bool, true, false, not, ◌&&◌, ◌||◌, [], ◌∷◌, ltb, leb, ◌==◌,
  if◌then◌else◌, Bytes,
}

-- `cp < min || cp > 0x10FFFF || (cp >= 0xD800 && cp <= 0xDFFF)`, negated
unfoldable pub code_point_ok : ℕ → ℕ → Bool
code_point_ok min cp = not (ltb cp min || ltb 0x10FFFF cp || (leb 0xD800 cp && leb cp 0xDFFF))

-- Both loops, with `n - i`, `min` and `cp` as their state: 0 bytes to come is the head of the outer
-- loop. The end of the text inside a sequence is the NUL, which is no continuation byte.
unfoldable pub utf8_from : ℕ → ℕ → ℕ → Bytes → Bool
unfolding code_point_ok
utf8_from zero min cp [] = true
utf8_from (suc n) min cp [] = false
utf8_from zero min cp (c ∷ s) =
    let ascii = utf8_from 0 0 0 s in
    let two = utf8_from 1 0x80 (c % 32) s in
    let three = utf8_from 2 0x800 (c % 16) s in
    let four = utf8_from 3 0x10000 (c % 8) s in
    if ltb c 0x80
    then ascii
    else if c / 32 == 6
    then two
    else if c / 16 == 14
    then three
    else if c / 8 == 30
    then four
    else false
utf8_from (suc zero) min cp (b ∷ s) =
    let next = utf8_from 0 0 0 s in
    if b / 64 == 2 then code_point_ok min (cp * 64 + b % 64) && next else false
utf8_from (suc (suc n)) min cp (b ∷ s) =
    let more = utf8_from (suc n) min (cp * 64 + b % 64) s in if b / 64 == 2 then more else false

unfoldable pub irc_utf8_valid : Bytes → Bool
unfolding utf8_from
irc_utf8_valid s = utf8_from 0 0 0 s
