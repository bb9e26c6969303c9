-- ===== src/Tests/Names.antt =====
-- Names, durations and UTF-8 at concrete inputs.
use sekur_ircd.Base.{
  ℕ, ◌≡◌, ◌↔◌, refl, inl, inr, true, false, List, [], ◌∷◌, none, some, All, arith,
}
use sekur_ircd.Cstring.{codes}
use sekur_ircd.Proto.Names.{irc_valid_nick, irc_valid_channel}
use sekur_ircd.Proto.Names.Params.{Token, irc_valid-Token}
use sekur_ircd.Proto.Duration.{irc_parse_duration}
use sekur_ircd.Proto.Utf8.{irc_utf8_valid}
use sekur_ircd.Proto.Utf8.Scalars.{Scalar, encode_all}
use sekur_ircd.Proto.Utf8.Decoded.{irc_utf8_valid-iff-encode}

channel_ok : irc_valid_channel (codes "#dev") 50 ≡ true
unfolding irc_valid_channel
channel_ok = refl

nick_with_bang : irc_valid_nick (codes "a!b") 30 ≡ false
unfolding irc_valid_nick
nick_with_bang = refl

irc_valid-Token_example : Token (codes "#dev")
irc_valid-Token_example =
    irc_valid-Token (codes "#dev") 50 (omega arith) (inr (inr (inl channel_ok)))

two_hours : irc_parse_duration (codes "2h") ≡ some 7200
unfolding irc_parse_duration
two_hours = refl

no_unit : irc_parse_duration (codes "2y") ≡ none
unfolding irc_parse_duration
no_unit = refl

euro : irc_utf8_valid (0xE2 ∷ 0x82 ∷ 0xAC ∷ []) ≡ true
unfolding irc_utf8_valid
euro = refl

overlong : irc_utf8_valid (0xC0 ∷ 0xAF ∷ []) ≡ false
unfolding irc_utf8_valid
overlong = refl

surrogate : irc_utf8_valid (0xED ∷ 0xA0 ∷ 0x80 ∷ []) ≡ false
unfolding irc_utf8_valid
surrogate = refl

irc_utf8_valid-iff-encode_example :
    (irc_utf8_valid (0xE2 ∷ 0x82 ∷ 0xAC ∷ []) ≡ true)
    ↔ ((cps : List ℕ) × All Scalar cps × (0xE2 ∷ 0x82 ∷ 0xAC ∷ [] ≡ encode_all cps))
irc_utf8_valid-iff-encode_example = irc_utf8_valid-iff-encode (0xE2 ∷ 0x82 ∷ 0xAC ∷ [])
