-- ===== src/Proto/Glob.antt =====
-- `irc_glob_match` of src/proto.c, the case-insensitive matcher behind every mask of the server.
pub mod Matches
mod Trail
pub mod Correct
use sekur_ircd.Base.{
  ℕ, zero, suc, ◌+◌, ◌*◌, Bool, true, false, ◌||◌, [], ◌∷◌, Option, none, some, ◌==◌, if◌then◌else◌,
  Bytes, length,
}
use sekur_ircd.Cstring.{tolower}

-- One pattern byte against one text byte.
unfoldable pub glob_char : ℕ → ℕ → Bool
unfolding tolower
glob_char x c = tolower x == tolower c || x == b'?'

-- `while (*p == '*') p++; return *p == '\0';`
unfoldable pub only_stars : Bytes → Bool
only_stars [] = true
only_stars (x ∷ p) = let rest = only_stars p in if x == b'*' then rest else false

-- The `while (*t)` loop. `star` holds `star_p + 1` and `star_t` once a star was met. The fuel bounds
-- the rounds; `none` also stands for a step of `star_t` past the end of the text.
unfoldable pub glob_loop : ℕ → Bytes → Bytes → Option (Bytes × Bytes) → Option Bool
unfolding glob_char only_stars
glob_loop fuel p [] star = some (only_stars p)
glob_loop zero p (c ∷ t) star = none
glob_loop (suc fuel) [] (c ∷ t) none = some false
glob_loop (suc fuel) [] (c ∷ t) (some (sp, [])) = none
glob_loop (suc fuel) [] (c ∷ t) (some (sp, d ∷ st)) = glob_loop fuel sp st (some (sp, st))
glob_loop (suc fuel) (x ∷ p) (c ∷ t) star =
    let advance = glob_loop fuel p t star in
    let open_star = glob_loop fuel p (c ∷ t) (some (p, c ∷ t)) in
    let retry : Option Bool = elim star [
      | none ↦ some false
      | some (sp, []) ↦ none
      | some (sp, d ∷ st) ↦ glob_loop fuel sp st (some (sp, st))
    ] in
    if glob_char x c then advance else if x == b'*' then open_star else retry

-- Rounds that suffice for a pattern and a text.
unfoldable pub glob_fuel : Bytes → Bytes → ℕ
glob_fuel p t = let rows = length p + 1 in suc (rows * (length t + 1) * rows + length p)

unfoldable pub irc_glob_match : Bytes → Bytes → Option Bool
unfolding glob_loop glob_fuel
irc_glob_match p t = glob_loop (glob_fuel p t) p t none
