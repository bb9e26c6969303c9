-- ===== src/Proto/Names.antt =====
-- src/proto.c: the validators of nicks, users, channels and hosts. A negative `max_len` admits nothing
-- and is not represented; the pointers are not NULL.
pub mod Params
use sekur_ircd.Base.{
  ℕ, ◌-◌, Bool, true, false, not, ◌&&◌, ◌||◌, [], ◌∷◌, ltb, leb, ◌==◌, Bytes, length,
}
use sekur_ircd.Cstring.{isalpha, isalnum}

abbrev pub is_nick_special : ℕ → Bool
is_nick_special c =
    c == b'\\'
    || c == b'^'
    || c == b'['
    || c == b']'
    || c == b'`'
    || c == b'{'
    || c == b'|'
    || c == b'_'

-- The loops of the validators: no byte of the text fails the test.
unfoldable pub every : (ℕ → Bool) → Bytes → Bool
every test [] = true
every test (c ∷ s) = test c && every test s

abbrev pub nick_first : ℕ → Bool
nick_first c = isalpha c || is_nick_special c

abbrev pub nick_byte : ℕ → Bool
nick_byte c = isalnum c || is_nick_special c || c == b'-'

unfoldable pub irc_valid_nick : Bytes → ℕ → Bool
unfolding every
irc_valid_nick [] max_len = false
irc_valid_nick (c0 ∷ s) max_len =
    leb (length (c0 ∷ s)) max_len && nick_first c0 && every nick_byte s

abbrev pub user_first : ℕ → Bool
user_first c = isalnum c || c == b'_'

abbrev pub user_byte : ℕ → Bool
user_byte c = isalnum c || c == b'_' || c == b'-'

unfoldable pub irc_valid_user : Bytes → ℕ → Bool
unfolding every
irc_valid_user [] max_len = false
irc_valid_user (c0 ∷ s) max_len =
    leb (length (c0 ∷ s)) max_len && user_first c0 && every user_byte s

abbrev pub channel_byte : ℕ → Bool
channel_byte c = not (
    leb c 0x20
    || c == 0x7f
    || c == b','
    || c == b':'
    || c == b'*'
    || c == b'?'
    || c == b'!'
    || c == b'@'
    || c == b'\\')

unfoldable pub irc_valid_channel : Bytes → ℕ → Bool
unfolding every
irc_valid_channel [] max_len = false
irc_valid_channel (c0 ∷ s) max_len =
    leb (length (c0 ∷ s)) max_len
    && c0 == b'#'
    && not (ltb (length (c0 ∷ s)) 2 || ltb 49 (length (c0 ∷ s) - 1))
    && every channel_byte s

abbrev pub host_byte : ℕ → Bool
host_byte c = isalnum c || c == b'.' || c == b'-' || c == b':'

unfoldable pub irc_valid_host : Bytes → Bool
unfolding every
irc_valid_host [] = false
irc_valid_host (c0 ∷ s) = not (ltb 253 (length (c0 ∷ s)) || c0 == b':') && every host_byte (c0 ∷ s)
