-- ===== src/Protection/Text.antt =====
-- src/protection.c: the helpers on text, `protection_find`, `protection_expand` and
-- `protection_bl_match`.
pub mod Finds
use Prim.Native.Nat.{bit_and}
use sekur_ircd.Base.{
  ℕ, zero, suc, ◌+◌, ◌-◌, Bool, true, false, not, ◌&&◌, ◌||◌, List, [], ◌∷◌, ◌++◌, Option, none,
  some, ltb, leb, ◌==◌, if◌then◌else◌, Bytes, length, take,
}

-- `memcmp(hay + i, needle, m) == 0`, with at least `m` bytes there.
unfoldable pub begins : Bytes → Bytes → Bool
begins [] hay = true
begins (x ∷ needle) [] = false
begins (x ∷ needle) (y ∷ hay) = y == x && begins needle hay

-- The loop from offset `i` on; -1 is `none`.
unfoldable pub find_from : ℕ → Bytes → Bytes → Option ℕ
unfolding begins
find_from i [] needle = if begins needle [] then some i else none
find_from i (y ∷ hay) needle =
    let later = find_from (i + 1) hay needle in if begins needle (y ∷ hay) then some i else later

abbrev pub is_empty : Bytes → Bool
is_empty [] = true
is_empty (c ∷ s) = false

unfoldable pub protection_find : Bytes → Bytes → Option ℕ
unfolding find_from
protection_find hay needle =
    if is_empty needle || ltb (length hay) (length needle) then none else find_from 0 hay needle

-- What `%c` stands for.
unfoldable pub substitute : Bytes → Bytes → Bytes → ℕ → Option Bytes
substitute ip t r c =
    if c == b'i'
    then some ip
    else if c == b't'
    then some t
    else if c == b'r' || c == b'p'
    then some r
    else if c == b'%'
    then some (b'%' ∷ [])
    else none

-- The loop of `protection_expand` with `room` bytes left in front of the NUL; no step is taken once
-- there is none.
unfoldable pub expand_from : (Bytes × Bytes × Bytes) → ℕ → Bytes → Bytes
unfolding substitute
expand_from args room [] = []
expand_from args zero (c ∷ s) = []
expand_from args (suc room) (c ∷ []) = c ∷ []
expand_from (ip, t, r) (suc room) (c ∷ d ∷ s) =
    let plain = c ∷ expand_from (ip, t, r) room (d ∷ s) in
    let replaced =
      λ (sub : Bytes). take (suc room) sub ++ expand_from (ip, t, r) (suc room - length sub) s in
    if c == b'%'
    then elim (substitute ip t r d) [ none ↦ plain | some sub ↦ replaced sub ]
    else plain

unfoldable pub protection_expand : Bytes → Bytes → Bytes → Bytes → ℕ → Bytes
unfolding expand_from
protection_expand tmpl ip t r outsz = expand_from (ip, t, r) (outsz - 1) tmpl

-- One zone of `[blacklist]`: its replies with their texts.
pub record Blacklist : Type 0 where
  pub replies : List (ℕ × Bytes)
  pub bitmask : Bool
  pub ban_unknown : Bool

-- `reply %d`, the text for a reply without one of its own, is the constructor `numbered`.
pub data Reply : Type 0 where
  numbered : ℕ → Reply
  worded : Bytes → Reply

unfoldable pub code_hits : Bool → ℕ → ℕ → Bool
code_hits bitmask code c = if bitmask then not (bit_and code c == 0) else code == c

unfoldable pub match_reply : Bool → ℕ → List (ℕ × Bytes) → Option Reply
unfolding code_hits
match_reply bitmask code [] = none
match_reply bitmask code ((c, text) ∷ rs) =
    let rest = match_reply bitmask code rs in
    if code_hits bitmask code c then some (worded text) else rest

abbrev pub has_none : List (ℕ × Bytes) → Bool
has_none [] = true
has_none (r ∷ rs) = false

-- One zone against its code; no code stands for a lookup without a reply.
unfoldable pub zone_match : Blacklist → Option ℕ → Option Reply
unfolding match_reply
zone_match z none = none
zone_match z (some code) =
    if has_none z.replies
    then some (numbered code)
    else elim (match_reply z.bitmask code z.replies) [
      | some r ↦ some r
      | none ↦ if z.ban_unknown then some (numbered code) else none
    ]

-- The index of the first zone that hits, and the reply.
unfoldable pub bl_match_from : ℕ → List Blacklist → List (Option ℕ) → Option (ℕ × Reply)
unfolding zone_match
bl_match_from i [] codes = none
bl_match_from i (z ∷ zs) [] = none
bl_match_from i (z ∷ zs) (c ∷ codes) =
    let rest = bl_match_from (i + 1) zs codes in
    elim (zone_match z c) [ some r ↦ some (i, r) | none ↦ rest ]

unfoldable pub protection_bl_match : List Blacklist → List (Option ℕ) → Option (ℕ × Reply)
unfolding bl_match_from
protection_bl_match zones codes = bl_match_from 0 zones codes
