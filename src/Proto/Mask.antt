-- ===== src/Proto/Mask.antt =====
-- src/proto.c: `irc_ident_for` and `irc_mask_match`. NULL strings are the empty text.
use sekur_ircd.Base.{
  ℕ, ◌-◌, Bool, false, not, ◌&&◌, ◌||◌, [], ◌∷◌, ◌++◌, Option, ◌==◌, if◌then◌else◌, Bytes, take,
}
use sekur_ircd.Proto.Glob.{irc_glob_match}

-- strchr(s, c) != NULL
unfoldable pub has_byte : ℕ → Bytes → Bool
has_byte c [] = false
has_byte c (x ∷ s) = x == c || has_byte c s

unfoldable pub irc_ident_for : ℕ → Bytes → Bool → Bytes
irc_ident_for outsz [] ident_confirmed = []
irc_ident_for outsz (c ∷ s) ident_confirmed =
    take (outsz - 1) (if ident_confirmed || c == b'~' then c ∷ s else b'~' ∷ c ∷ s)

-- `nick!ident@host` in its buffer of 451 bytes.
unfoldable pub full_mask : Bytes → Bytes → Bytes → Bool → Bytes
unfolding irc_ident_for
full_mask nick user host ident_confirmed =
    take 450 (nick ++ (b'!' ∷ irc_ident_for 128 user ident_confirmed) ++ (b'@' ∷ host))

unfoldable pub irc_mask_match : Bytes → Bytes → Bytes → Bytes → Bool → Option Bool
unfolding has_byte full_mask irc_glob_match
irc_mask_match nick user host mask ident_confirmed =
    if not (has_byte b'!' mask) && not (has_byte b'@' mask)
    then irc_glob_match mask nick
    else irc_glob_match mask (full_mask nick user host ident_confirmed)
