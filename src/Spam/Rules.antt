-- ===== src/Spam/Rules.antt =====
-- src/spam.c: the rules of the filters file, `spam_parse_targets`, `parse_action`, `parse_line`,
-- `compile_rule` and `format_rule`. The C library's regular
-- expressions are a parameter: `regcomp` gives for a pattern what `regexec` answers on a text.
pub mod Commands
pub mod Targets
pub mod Words
pub mod RoundTrip
use Prim.Native.Nat.{bit_and, bit_or}
use sekur_ircd.Base.{
  ◌>>=◌, ℕ, zero, suc, ◌+◌, ◌-◌, ◌⊎◌, inl, inr, Bool, true, false, not, ◌&&◌, ◌||◌, List, [], ◌∷◌,
  ◌++◌, Option, none, some, ltb, leb, ◌==◌, if◌then◌else◌, Bytes, length, take,
}
use sekur_ircd.Cstring.{
  codes, in_range, str_eq, str_case_eq, split_at, decimal_text, skip_spaces, strip_end, scan_word,
}
use sekur_ircd.Proto.Duration.{irc_parse_duration}

-- SPAM_MAX_FILTERS
abbrev pub spam_max_filters : ℕ
spam_max_filters = 256

pub data SpamAction : Type 0 where
  block : SpamAction
  warn : SpamAction
  kill : SpamAction
  zline : SpamAction
  hide : SpamAction
  shun : SpamAction

-- The letters of the targets with their bits, SPAM_T_PRIVMSG_USER to SPAM_T_TOPIC.
unfoldable pub target_bit : ℕ → Option ℕ
target_bit c =
    if c == b'p'
    then some 1
    else if c == b'c'
    then some 2
    else if c == b'n'
    then some 4
    else if c == b'N'
    then some 8
    else if c == b'a'
    then some 16
    else if c == b'q'
    then some 32
    else if c == b'P'
    then some 64
    else if c == b't'
    then some 128
    else none

unfoldable pub targets_from : ℕ → Bytes → ℕ
unfolding target_bit
targets_from m [] = m
targets_from m (c ∷ s) = elim (target_bit c) [ none ↦ 0 | some b ↦ targets_from (bit_or m b) s ]

unfoldable pub spam_parse_targets : Bytes → ℕ
unfolding targets_from
spam_parse_targets s = targets_from 0 s

unfoldable pub parse_action : Bytes → Option SpamAction
unfolding str_case_eq
parse_action s =
    if str_case_eq s (codes "block")
    then some block
    else if str_case_eq s (codes "warn")
    then some warn
    else if str_case_eq s (codes "kill")
    then some kill
    else if str_case_eq s (codes "zline")
    then some zline
    else if str_case_eq s (codes "hide")
    then some hide
    else if str_case_eq s (codes "shun")
    then some shun
    else none

unfoldable pub action_name : SpamAction → Bytes
action_name block = codes "block"
action_name warn = codes "warn"
action_name kill = codes "kill"
action_name zline = codes "zline"
action_name hide = codes "hide"
action_name shun = codes "shun"

-- `spam_filter_t` before its pattern is compiled.
pub record Rule : Type 0 where
  pub targets : ℕ
  pub action : SpamAction
  pub duration : ℕ
  pub reason : Bytes
  pub pattern : Bytes

-- What is wrong with a line, a constructor for each text that the source writes.
pub data RuleError : Type 0 where
  expected_fields : RuleError
  bad_targets : Bytes → RuleError
  bad_action : Bytes → RuleError
  bad_duration : Bytes → RuleError
  no_quote : RuleError
  unterminated_quote : RuleError
  missing_regex : RuleError
  regex_too_long : RuleError
  too_many_rules : RuleError
  backreference : RuleError
  invalid_regex : RuleError
  matches_empty : RuleError

-- What `parse_line` returns: 1, -1 with its error, or 0 with the rule.
pub data Parsed : Type 0 where
  blank : Parsed
  wrong : RuleError → Parsed
  parsed : Rule → Parsed

-- `sscanf(line, "%15s %15s %15s %n", ...)`: three words, and what stands behind the space.
unfoldable pub three_words : Bytes → Option (Bytes × Bytes × Bytes × Bytes)
unfolding scan_word skip_spaces
three_words line = do
  (tgt, a) ← scan_word 15 line
  (act, b) ← scan_word 15 a
  (dur, c) ← scan_word 15 b
  some (tgt, act, dur, skip_spaces c)

unfoldable pub rule_duration : Bytes → Option ℕ
unfolding str_eq irc_parse_duration
rule_duration dur = if str_eq dur (codes "-") then some 0 else irc_parse_duration dur

-- The pattern, behind the closing quote.
unfoldable pub with_pattern : ℕ → SpamAction → ℕ → Bytes → Bytes → Parsed
with_pattern targets action duration reason [] = wrong missing_regex
with_pattern targets action duration reason (c ∷ pat) =
    if leb 256 (length (c ∷ pat))
    then wrong regex_too_long
    else parsed (record {
      targets = targets;
      action = action;
      duration = duration;
      reason = reason;
      pattern = c ∷ pat;
    })

-- The reason between its quotes.
unfoldable pub with_reason : ℕ → SpamAction → ℕ → Bytes → Parsed
unfolding with_pattern split_at skip_spaces strip_end
with_reason targets action duration [] = wrong no_quote
with_reason targets action duration (c ∷ p) =
    if not (c == b'"') then wrong no_quote else elim (split_at b'"' p) [
      | none ↦ wrong unterminated_quote
      | some (reason, q) ↦
          with_pattern targets action duration (take 127 reason) (strip_end (skip_spaces q))
    ]

unfoldable pub rule_of : Bytes × Bytes × Bytes × Bytes → Parsed
unfolding spam_parse_targets parse_action rule_duration with_reason
rule_of (tgt, act, dur, p) =
    if spam_parse_targets tgt == 0 then wrong (bad_targets tgt) else elim (parse_action act) [
      | none ↦ wrong (bad_action act)
      | some action ↦ elim (rule_duration dur) [
        | none ↦ wrong (bad_duration dur)
        | some duration ↦ with_reason (spam_parse_targets tgt) action duration p
      ]
    ]

unfoldable pub parse_fields : Bytes → Parsed
unfolding three_words rule_of
parse_fields [] = blank
parse_fields (c ∷ s) =
    if c == b'#'
    then blank
    else elim (three_words (c ∷ s)) [ none ↦ wrong expected_fields | some w ↦ rule_of w ]

unfoldable pub parse_line : Bytes → Parsed
unfolding parse_fields skip_spaces
parse_line line = parse_fields (skip_spaces line)

-- A backslash takes the next byte with it; one in front of 1 to 9 is a backreference.
unfoldable pub has_backreference : Bytes → Bool
has_backreference [] = false
has_backreference (c ∷ []) = false
has_backreference (c ∷ d ∷ s) =
    let escaped = has_backreference s in
    let plain = has_backreference (d ∷ s) in
    if c == b'\\' then in_range b'1' b'9' d || escaped else plain

pub record Filter : Type 0 where
  pub rule : Rule
  pub re : Bytes → Bool

abbrev pub Regcomp : Type 0
Regcomp = Bytes → Option (Bytes → Bool)

unfoldable pub compile_rule : Regcomp → Rule → RuleError ⊎ Filter
unfolding has_backreference
compile_rule regcomp f =
    if has_backreference f.pattern then inl backreference else elim (regcomp f.pattern) [
      | none ↦ inl invalid_regex
      | some re ↦ if re [] then inl matches_empty else inr (record { rule = f; re = re })
    ]

abbrev pub letter : ℕ → ℕ → ℕ → Bytes → Bytes
letter m bit c rest = if bit_and m bit == 0 then rest else c ∷ rest

unfoldable pub target_letters : ℕ → Bytes
target_letters m = letter m 1 b'p' (
    letter m 2 b'c' (
      letter m 4 b'n' (
        letter m 8 b'N'
          (letter m 16 b'a' (letter m 32 b'q' (letter m 64 b'P' (letter m 128 b't' [])))))))

unfoldable pub duration_text : ℕ → Bytes
unfolding decimal_text
duration_text d = if d == 0 then codes "-" else decimal_text d ++ (b's' ∷ [])

-- `"%s %s %s \"%s\" %s"`
unfoldable pub rule_text : Bytes → Bytes → Bytes → Bytes → Bytes → Bytes
rule_text tgt act dur reason pattern =
    tgt ++ (b' ' ∷ (act ++ (b' ' ∷ (dur ++ (b' ' ∷ b'"' ∷ (reason ++ (b'"' ∷ b' ' ∷ pattern)))))))

unfoldable pub format_rule : Rule → ℕ → Bytes
unfolding target_letters action_name duration_text rule_text
format_rule f outsz = take (outsz - 1) (
    rule_text (target_letters f.targets) (action_name f.action) (duration_text f.duration) f.reason
      f.pattern)
