-- ===== src/Tests/Wire.antt =====
-- Masks, lines, tags and frames at concrete inputs.
use sekur_ircd.Base.{
  ◌≤◌, ◌≡◌, ◌↔◌, refl, Bool, true, false, List, [], ◌∷◌, ◌++◌, some, Bytes, length, All, arith, map,
}
use sekur_ircd.Cstring.{codes}
use sekur_ircd.Proto.Strings.{irc_escape}
use sekur_ircd.Proto.Glob.{irc_glob_match}
use sekur_ircd.Proto.Glob.Matches.{Matches}
use sekur_ircd.Proto.Glob.Correct.{irc_glob_match-iff-Matches, irc_glob_match_literal_star}
use sekur_ircd.Proto.Tags.{escape_tag_value, unescape_tag_value}
use sekur_ircd.Proto.Tags.RoundTrip.{
  Separates, unescape-escape_tag_value, escape_tag_value-Separates,
}
use sekur_ircd.Proto.Parse.{irc_parse_line}
use sekur_ircd.Proto.Build.{irc_build, middle}
use sekur_ircd.Proto.Build.Shape.{kept, words_of, escaped_prefix}
use sekur_ircd.Proto.Build.RoundTrip.{irc_parse_line-build, read_as}
use sekur_ircd.Proto.Build.Lines.{Good, irc_build-Good}
use sekur_ircd.Ws.{ws_decode_frame, frame}
use sekur_ircd.Ws.Frames.{client_frame, ws_decode_frame-client_frame}
use sekur_ircd.Ws.Bounds.{Within, ws_decode_frame-Within}

-- The mask `*!*@h?st` matches a full name in another case.
glob_hit : irc_glob_match (codes "*!*@h?st") (codes "Ann!ann@HOST") ≡ some true
unfolding irc_glob_match
glob_hit = refl

glob_miss : irc_glob_match (codes "a*b*c") (codes "axxbxx") ≡ some false
unfolding irc_glob_match
glob_miss = refl

irc_glob_match-iff-Matches_example :
    (b : Bool) × (irc_glob_match (codes "*!*@h?st") (codes "Ann!ann@HOST") ≡ some b)
    × ((b ≡ true) ↔ Matches (codes "*!*@h?st") (codes "Ann!ann@HOST"))
irc_glob_match-iff-Matches_example =
    irc_glob_match-iff-Matches (codes "*!*@h?st") (codes "Ann!ann@HOST") (omega arith)

irc_glob_match_literal_star_example :
    (irc_glob_match (codes "*") (codes "*ad") ≡ some false) × Matches (codes "*") (codes "*ad")
irc_glob_match_literal_star_example = irc_glob_match_literal_star b'a' (codes "d")

unescape-escape_tag_value_example :
    unescape_tag_value (escape_tag_value 1024 (codes "a b;c")) ≡ codes "a b;c"
unescape-escape_tag_value_example = unescape-escape_tag_value 1024 (codes "a b;c") (omega arith)

escape_tag_value-Separates_example :
    All Separates (escape_tag_value 1024 (codes "a b;c"))
    × (length (escape_tag_value 1024 (codes "a b;c")) ≤ 1023)
escape_tag_value-Separates_example = escape_tag_value-Separates 1024 (codes "a b;c")

abbrev notice_params : List Bytes
notice_params = codes "#dev" ∷ codes ":two words" ∷ []

abbrev notice_line : Bytes
notice_line = codes ":irc.example NOTICE #dev _two_words :hello all"

notice_built :
    irc_build 512 []
      (some (codes "irc.example"))
      (codes "NOTICE")
      notice_params
      (some (codes "hello all"))
    ≡ some notice_line
unfolding irc_build
notice_built = refl

irc_parse_line-build_example :
    irc_parse_line notice_line
    ≡ some (
        read_as
          (escaped_prefix (some (codes "irc.example")))
          (irc_escape 1024 (codes "NOTICE"))
          (map middle notice_params)
          (kept 512
            (words_of (some (codes "irc.example")) (codes "NOTICE") notice_params)
            (some (codes "hello all"))))
unfolding irc_escape
irc_parse_line-build_example =
    irc_parse_line-build 512 (some (codes "irc.example")) (codes "NOTICE") notice_params
      (some (codes "hello all")) notice_line (omega arith) (omega arith) (omega arith) notice_built

irc_build-Good_example : Good 512 notice_line
irc_build-Good_example =
    irc_build-Good 512 [] (some (codes "irc.example")) (codes "NOTICE") notice_params
      (some (codes "hello all")) notice_line tt notice_built

-- The masked text frame "Hello" of RFC 6455, section 5.7.
abbrev rfc_key : Bytes
rfc_key = 0x37 ∷ 0xfa ∷ 0x21 ∷ 0x3d ∷ []

rfc_hello :
    ws_decode_frame
      (0x81 ∷ 0x85 ∷ 0x37 ∷ 0xfa ∷ 0x21 ∷ 0x3d ∷ 0x7f ∷ 0x9f ∷ 0x4d ∷ 0x51 ∷ 0x58 ∷ [])
    ≡ frame 1 true (codes "Hello") 11
unfolding ws_decode_frame
rfc_hello = refl

ws_decode_frame-client_frame_example :
    ws_decode_frame (client_frame true 1 rfc_key (codes "Hello") ++ 0x81 ∷ [])
    ≡ frame 1 true (codes "Hello") (length (client_frame true 1 rfc_key (codes "Hello")))
ws_decode_frame-client_frame_example =
    ws_decode_frame-client_frame true 1 rfc_key (codes "Hello") (0x81 ∷ []) (omega arith)
      (omega arith) (λ h. absurd (omega arith)) (omega arith) (omega arith) refl

ws_decode_frame-Within_example : Within 3 (ws_decode_frame (0x81 ∷ 0x85 ∷ 0x37 ∷ []))
ws_decode_frame-Within_example = ws_decode_frame-Within (0x81 ∷ 0x85 ∷ 0x37 ∷ [])
