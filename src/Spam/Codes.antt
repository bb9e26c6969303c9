-- ===== src/Spam/Codes.antt =====
-- src/spam.c: texts without their colour and format bytes, `strip_codes`, and the text of a report,
-- `snippet`.
pub mod Pieces
pub mod Clean
use sekur_ircd.Base.{
  ℕ, zero, suc, ◌+◌, ◌-◌, Bool, ◌&&◌, ◌||◌, [], ◌∷◌, ltb, ◌==◌, if◌then◌else◌, Bytes, drop,
}
use sekur_ircd.Cstring.{isdigit}

-- Bold, reset, monospace, reverse, italics, strike-through and underline.
abbrev pub is_format : ℕ → Bool
is_format c = c == 2 || c == 15 || c == 17 || c == 22 || c == 29 || c == 30 || c == 31

-- How many bytes the loop `n < 2 && isdigit(p[1])` steps over.
unfoldable pub two_digits : Bytes → ℕ
two_digits [] = 0
two_digits (a ∷ []) = if isdigit a then 1 else 0
two_digits (a ∷ b ∷ s) = if isdigit a then if isdigit b then 2 else 1 else 0

-- How many bytes of the text behind a colour byte belong to it: up to two digits, and a comma with up
-- to two more.
unfoldable pub background : Bytes → ℕ
unfolding two_digits
background [] = 0
background (c ∷ s) = if c == b',' then suc (two_digits s) else 0

unfoldable pub colour_len : Bytes → ℕ
unfolding two_digits background
colour_len s = two_digits s + background (drop (two_digits s) s)

-- The loop with `skip` bytes to step over and `room` bytes left in front of the NUL.
unfoldable pub strip_from : ℕ → ℕ → Bytes → Bytes
unfolding colour_len
strip_from zero skip s = []
strip_from (suc room) skip [] = []
strip_from (suc room) (suc skip) (c ∷ s) = strip_from (suc room) skip s
strip_from (suc room) zero (c ∷ s) =
    let coded = strip_from (suc room) (if c == 3 then colour_len s else 0) s in
    let plain = strip_from room 0 s in if is_format c || c == 3 then coded else c ∷ plain

unfoldable pub strip_codes : ℕ → Bytes → Bytes
unfolding strip_from
strip_codes dstsz src = strip_from (dstsz - 1) 0 src

-- At most 60 bytes, control bytes as `?`.
unfoldable pub snippet_from : ℕ → Bytes → Bytes
snippet_from zero text = []
snippet_from (suc room) [] = []
snippet_from (suc room) (c ∷ text) = (if ltb c 32 then b'?' else c) ∷ snippet_from room text

unfoldable pub snippet : Bytes → ℕ → Bytes
unfolding snippet_from
snippet text outsz = snippet_from (if ltb (outsz - 1) 60 then outsz - 1 else 60) text
