-- ===== src/Proto/Parse.antt =====
-- src/proto.c: `irc_parse_line`. The source cuts the line in place; the model takes the pieces.
pub mod Tokens
use sekur_ircd.Base.{
  ℕ, zero, suc, ◌+◌, ◌-◌, ◌≡◌, Bool, true, false, ◌&&◌, List, [], ◌∷◌, ◌++◌, Option, none, some,
  map, ltb, leb, ◌==◌, if◌then◌else◌, Bytes, length, take,
}
use sekur_ircd.Cstring.{split_at, toupper}
use sekur_ircd.Proto.Tags.{unescape_tag_value}

-- IRC_MAX_PARAMS, IRC_MAX_TAGS, MAX_RAW_TOKENS
abbrev pub irc_max_params : ℕ
irc_max_params = 32

abbrev pub irc_max_tags : ℕ
irc_max_tags = 32

abbrev pub max_raw_tokens : ℕ
max_raw_tokens = 300

-- `irc_message_t`; a `none` prefix is NULL.
pub record Message : Type 0 where
  pub tags : List (Bytes × Bytes)
  pub prefix : Option Bytes
  pub command : Bytes
  pub params : List Bytes

abbrev pub non_empty_part : Bytes → List Bytes
non_empty_part [] = []
non_empty_part (c ∷ p) = (c ∷ p) ∷ []

-- strtok_r(s, ";"): the pieces between semicolons, without the empty ones. `cur` is the piece so far.
unfoldable pub semicolon_parts : Bytes → Bytes → List Bytes
semicolon_parts cur [] = non_empty_part cur
semicolon_parts cur (c ∷ s) =
    let cut = non_empty_part cur ++ semicolon_parts [] s in
    let more = semicolon_parts (cur ++ c ∷ []) s in if c == b';' then cut else more

-- One `key`, `key=` or `key=value`.
unfoldable pub parse_tag : Bytes → Bytes × Bytes
unfolding split_at unescape_tag_value
parse_tag part = elim (split_at b'=' part) [
  | none ↦ (part, [])
  | some (key, val) ↦ (key, unescape_tag_value val)
]

unfoldable pub parse_tags : Bytes → List (Bytes × Bytes)
unfolding semicolon_parts parse_tag
parse_tags s = map parse_tag (take irc_max_tags (semicolon_parts [] s))

abbrev pub is_empty : Bytes → Bool
is_empty [] = true
is_empty (c ∷ s) = false

-- `none` below is where the source returns -1.
-- `@tags `, if the line has them, with the rest of the line.
unfoldable pub take_tags : Bytes → Option (List (Bytes × Bytes) × Bytes)
unfolding parse_tags
take_tags [] = none
take_tags (c ∷ s) =
    if c == b'@'
    then elim (split_at b' ' s) [
      | none ↦ none
      | some (tags, rest) ↦ if is_empty rest then none else some (parse_tags tags, rest)
    ]
    else some ([], c ∷ s)

-- `:prefix `, if the line has one.
unfoldable pub take_prefix : Bytes → Option (Option Bytes × Bytes)
unfolding split_at
take_prefix [] = none
take_prefix (c ∷ s) =
    if c == b':'
    then elim (split_at b' ' s) [
      | none ↦ none
      | some (prefix, rest) ↦ if is_empty rest then none else some (some prefix, rest)
    ]
    else some (none, c ∷ s)

abbrev pub starts_colon : Bytes → Bool
starts_colon [] = false
starts_colon (c ∷ s) = c == b':'

abbrev pub tail : Bytes → Bytes
tail [] = []
tail (c ∷ s) = s

-- strstr(line, " :"): the line in front of the marker, and the trailing parameter behind it.
unfoldable pub take_trailing : Bytes → Bytes × Option Bytes
take_trailing [] = ([], none)
take_trailing (c ∷ s) =
    let (front, trailing) = take_trailing s in
    if c == b' ' && starts_colon s then ([], some (tail s)) else (c ∷ front, trailing)

-- The loop over `strchr(p, ' ')` with room for `n` tokens; the last one keeps what is left.
unfoldable pub raw_tokens : ℕ → Bytes → List Bytes
unfolding split_at
raw_tokens zero s = s ∷ []
raw_tokens (suc n) s = elim (split_at b' ' s) [
  | none ↦ s ∷ []
  | some (token, rest) ↦ token ∷ raw_tokens n rest
]

-- `strchr(raw[nraw - 1], ' ')` on the last token
unfoldable pub last_has_space : List Bytes → Bool
unfolding split_at
last_has_space [] = false
last_has_space (t ∷ []) = elim (split_at b' ' t) [ none ↦ false | some r ↦ true ]
last_has_space (t ∷ u ∷ ts) = last_has_space (u ∷ ts)

-- Empty tokens, from runs of spaces, are no parameters.
unfoldable pub non_empty : List Bytes → List Bytes
non_empty [] = []
non_empty ([] ∷ ts) = non_empty ts
non_empty ((c ∷ t) ∷ ts) = (c ∷ t) ∷ non_empty ts

-- The trailing parameter is dropped where 32 parameters stand in front of it.
unfoldable pub with_trailing : List Bytes → Option Bytes → List Bytes
with_trailing params none = params
with_trailing params (some t) =
    if ltb (length params) irc_max_params then params ++ t ∷ [] else params

unfoldable pub message_of :
    List (Bytes × Bytes) → Option Bytes → List Bytes → Option Bytes → Option Message
unfolding toupper non_empty with_trailing
message_of tags prefix [] trailing = none
message_of tags prefix ([] ∷ raw) trailing = none
message_of tags prefix ((c ∷ command) ∷ raw) trailing = some (record {
  tags = tags;
  prefix = prefix;
  command = map toupper (c ∷ command);
  params = with_trailing (take irc_max_params (non_empty raw)) trailing;
})

-- The command and its parameters.
unfoldable pub parse_body : List (Bytes × Bytes) → Option Bytes → Bytes → Option Message
unfolding take_trailing raw_tokens last_has_space message_of
parse_body tags prefix line =
    let (front, trailing) = take_trailing line in
    let raw = raw_tokens (max_raw_tokens - 1) front in
    if length raw == max_raw_tokens && last_has_space raw
    then none
    else message_of tags prefix raw trailing

unfoldable pub irc_parse_line : Bytes → Option Message
unfolding take_tags take_prefix parse_body
irc_parse_line line = elim (take_tags line) [
  | none ↦ none
  | some (tags, line') ↦ elim (take_prefix line') [
    | none ↦ none
    | some (prefix, line'') ↦ parse_body tags prefix line''
  ]
]
