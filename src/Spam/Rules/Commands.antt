-- ===== src/Spam/Rules/Commands.antt =====
-- src/spam.c: the list of rules, the loop of `spam_reload`, and SPAMFILTER ADD and DEL.
use sekur_ircd.Base.{
  ℕ, zero, suc, inl, inr, Bool, not, List, [], ◌∷◌, ◌++◌, Option, none, some, leb, ◌==◌,
  if◌then◌else◌, Bytes, length, take,
}
use sekur_ircd.Spam.Rules.{
  spam_max_filters, RuleError, too_many_rules, blank, wrong, parsed, parse_line, Filter, Regcomp,
  compile_rule, rule_text,
}

abbrev pub list_append : List Filter → Filter → List Filter
list_append fs f = fs ++ (f ∷ [])

-- One line of the file: the rules, how many are loaded, and the error that is logged. `mem` is
-- malloc's answer, whose refusal ends the loop.
unfoldable pub load_line : Regcomp → List Filter → Bytes → List Filter × Option RuleError
unfolding parse_line compile_rule
load_line regcomp fs line = elim (parse_line line) [
  | blank ↦ (fs, none)
  | wrong e ↦ (fs, some e)
  | parsed f ↦
      if leb spam_max_filters (length fs)
      then (fs, some too_many_rules)
      else elim (compile_rule regcomp f) [ inl e ↦ (fs, some e) | inr c ↦ (list_append fs c, none) ]
]

-- The loop of `spam_reload` over the lines, each with malloc's answer; the list was emptied before.
unfoldable pub load_lines : Regcomp → List Filter → List (Bytes × Bool) → List Filter
unfolding load_line
load_lines regcomp fs [] = fs
load_lines regcomp fs ((line, mem) ∷ ls) =
    let rest = load_lines regcomp (load_line regcomp fs line).0 ls in if mem then rest else fs

-- SPAMFILTER DEL: the rule of that number, from 1, and the rules without it.
unfoldable pub delete_nth : ℕ → List Filter → Option (Filter × List Filter)
delete_nth zero fs = none
delete_nth (suc n) [] = none
delete_nth (suc zero) (f ∷ fs) = some (f, fs)
delete_nth (suc (suc n)) (f ∷ fs) = elim (delete_nth (suc n) fs) [
  | none ↦ none
  | some (dead, rest) ↦ some (dead, f ∷ rest)
]

-- SPAMFILTER ADD: `_` stands for a space and `"` for `'` in the reason.
unfoldable pub reason_of : Bytes → Bytes
reason_of [] = []
reason_of (c ∷ s) = (if c == b'_' then b' ' else if c == b'"' then b'\'' else c) ∷ reason_of s

-- The pattern from the parameters from the sixth on, with single spaces, cut to 255 bytes.
unfoldable pub join_pattern : List Bytes → Bytes
join_pattern [] = []
join_pattern (p ∷ []) = p
join_pattern (p ∷ q ∷ ps) = p ++ (b' ' ∷ join_pattern (q ∷ ps))

-- What SPAMFILTER ADD answers, a constructor for each text, and the list after it.
pub data AddAnswer : Type 0 where
  disabled : AddAnswer
  usage : AddAnswer
  too_many : AddAnswer
  no_memory : AddAnswer
  blank_rule : AddAnswer
  rejected : RuleError → AddAnswer
  added : Filter → AddAnswer

unfoldable pub add_rule : Regcomp → List Filter → Bytes → AddAnswer × List Filter
unfolding parse_line compile_rule
add_rule regcomp fs line = elim (parse_line line) [
  | blank ↦ (blank_rule, fs)
  | wrong e ↦ (rejected e, fs)
  | parsed f ↦ elim (compile_rule regcomp f) [
    | inl e ↦ (rejected e, fs)
    | inr c ↦ (added c, list_append fs c)
  ]
]

unfoldable pub spamfilter_add :
    Bool → Regcomp → List Filter → List Bytes → Bool → AddAnswer × List Filter
unfolding add_rule rule_text reason_of join_pattern
spamfilter_add enabled regcomp fs (sub ∷ tgt ∷ act ∷ dur ∷ reason ∷ pat ∷ pats) mem =
    if not enabled
    then (disabled, fs)
    else if leb spam_max_filters (length fs)
    then (too_many, fs)
    else if not mem
    then (no_memory, fs)
    else add_rule regcomp fs (
        take 599 (
          rule_text tgt act dur (reason_of (take 127 reason))
            (take 255 (join_pattern (pat ∷ pats)))))
spamfilter_add enabled regcomp fs params mem = if enabled then (usage, fs) else (disabled, fs)
