-- ===== src/Spam/Rules/RoundTrip.antt =====
-- Rules between `format_rule` and `parse_line`.
use sekur_ircd.Base.{
  ℕ, ◌+◌, ◌≤◌, ◌<◌, ◌≡◌, refl, sym, ap, subst, ◌∙◌, inl, inr, ==→eq, Option-cases, true, false, [],
  ◌∷◌, ◌++◌, Option, none, some, leb, ◌==◌, if◌then◌else◌, Bytes, length, All, length-append,
  take_all, append_assoc, arith, Bool-cases,
}
use sekur_ircd.Cstring.{isspace, skip_spaces, strip_end}
use sekur_ircd.Cstring.Words.{IsPlain, strip_end-append, split_at-append}
use sekur_ircd.Spam.Rules.{
  spam_parse_targets, action_name, Rule, Parsed, wrong, parsed, three_words, rule_duration,
  with_pattern, with_reason, rule_of, parse_fields, expected_fields, regex_too_long, target_bit,
  targets_from, parse_line, target_letters, duration_text, rule_text, format_rule,
}
use sekur_ircd.Spam.Rules.Words.{
  parse_action-name, Word-action_name, duration_text-Word, three_words-text,
}
use sekur_ircd.Spam.Rules.Targets.{Word, spam_parse_targets-letters}

-- What the file can hold: some known target, a duration of at most fourteen digits, a reason without a
-- quote, and a pattern with no space at either end.
pub record Writable (f : Rule) : Type 0 where
  pub known : f.targets < 256
  pub targeted : (f.targets == 0) ≡ false
  pub brief : f.duration < 100000000000000
  pub unquoted : All (λ c. (c == b'"') ≡ false) f.reason
  pub reason_fits : length f.reason ≤ 127
  pub pattern_fits : length f.pattern ≤ 255
  pub first : ℕ
  pub rest : Bytes
  pub shape : f.pattern ≡ first ∷ rest
  pub begins_plain : isspace first ≡ false
  pub ends_plain : strip_end f.pattern ≡ f.pattern

with_reason-text :
    (f : Rule) (end : Bytes)
    → Writable f
    → All (λ c. isspace c ≡ true) end
    → with_reason f.targets f.action f.duration (34 ∷ (f.reason ++ (34 ∷ 32 ∷ (f.pattern ++ end))))
      ≡ parsed f
unfolding with_reason skip_spaces with_pattern
with_reason-text f end w a =
    let body = w.first ∷ (w.rest ++ end) in
    let starts : f.pattern ++ end ≡ body = ap (λ p. p ++ end) w.shape in
    let skipped : skip_spaces (32 ∷ (f.pattern ++ end)) ≡ f.pattern ++ end =
      ap skip_spaces starts
      ∙ ap (λ b. if b then skip_spaces (w.rest ++ end) else body) w.begins_plain
      ∙ sym starts in
    let pattern : strip_end (skip_spaces (32 ∷ (f.pattern ++ end))) ≡ w.first ∷ w.rest =
      ap strip_end skipped ∙ strip_end-append f.pattern end a ∙ w.ends_plain ∙ w.shape in
    let cut = split_at-append 34 f.reason (32 ∷ (f.pattern ++ end)) w.unquoted in
    rw (cut, pattern, take_all 127 f.reason w.reason_fits)
      (ap
          (λ b.
            if b then wrong regex_too_long else parsed (record f { pattern = w.first ∷ w.rest }))
          (fits (w.first ∷ w.rest) w.shape w.pattern_fits)
        ∙ ap (λ p. parsed (record f { pattern = p })) (sym w.shape))
  where
    fits : (p : Bytes) → f.pattern ≡ p → length f.pattern ≤ 255 → leb 256 (length p) ≡ false
    fits p e l = let n = ap length e in ground (arith, n, l)

rule_text-append :
    (a b c r p end : Bytes) → rule_text a b c r p ++ end ≡ rule_text a b c r (p ++ end)
unfolding rule_text
rule_text-append a b c r p end =
    append_assoc a (32 ∷ (b ++ (32 ∷ (c ++ (32 ∷ 34 ∷ (r ++ (34 ∷ 32 ∷ p))))))) end
    ∙ ap (λ t. a ++ (32 ∷ t))
        (append_assoc b (32 ∷ (c ++ (32 ∷ 34 ∷ (r ++ (34 ∷ 32 ∷ p))))) end
          ∙ ap (λ t. b ++ (32 ∷ t))
              (append_assoc c (32 ∷ 34 ∷ (r ++ (34 ∷ 32 ∷ p))) end
                ∙ ap (λ t. c ++ (32 ∷ 34 ∷ t)) (append_assoc r (34 ∷ 32 ∷ p) end)))

length-rule_text :
    (a b c r p : Bytes)
    → length (rule_text a b c r p) ≡ length a + length b + length c + length r + length p + 6
unfolding rule_text
length-rule_text a b c r p = omega (
  arith,
  length-append a (32 ∷ (b ++ (32 ∷ (c ++ (32 ∷ 34 ∷ (r ++ (34 ∷ 32 ∷ p))))))),
  length-append b (32 ∷ (c ++ (32 ∷ 34 ∷ (r ++ (34 ∷ 32 ∷ p))))),
  length-append c (32 ∷ 34 ∷ (r ++ (34 ∷ 32 ∷ p))),
  length-append r (34 ∷ 32 ∷ p),
)

no_letter : (t : Bytes) → spam_parse_targets (35 ∷ t) ≡ 0
unfolding spam_parse_targets targets_from target_bit
no_letter t = refl

not_hash : (c : ℕ) (t : Bytes) → (spam_parse_targets (c ∷ t) == 0) ≡ false → (c == 35) ≡ false
not_hash c t known = elim (Bool-cases (c == 35)) [
  | inr f ↦ f
  | inl h ↦
      let e = ap (λ k. spam_parse_targets (k ∷ t)) (==→eq c 35 h) ∙ no_letter t in
      absurd (ground (arith, known, e))
]

skip_plain : (c : ℕ) (s : Bytes) → isspace c ≡ false → skip_spaces (c ∷ s) ≡ c ∷ s
unfolding skip_spaces
skip_plain c s h = ap (λ b. if b then skip_spaces s else c ∷ s) h

abbrev by_words : Option (Bytes × Bytes × Bytes × Bytes) → Parsed
by_words none = wrong expected_fields
by_words (some w) = rule_of w

by_words-fields :
    (c : ℕ) (s : Bytes) → (c == 35) ≡ false → parse_fields (c ∷ s) ≡ by_words (three_words (c ∷ s))
unfolding parse_fields
by_words-fields c s h = elim (Option-cases (three_words (c ∷ s))) [
  | inl n ↦ rw (h, n) refl
  | inr (w, n) ↦ rw (h, n) refl
]

-- A text that begins with a word of letters is read by its words.
begins_letter :
    (l s : Bytes)
    → Word 8 l
    → (spam_parse_targets l == 0) ≡ false
    → parse_line (l ++ s) ≡ by_words (three_words (l ++ s))
unfolding parse_line
begins_letter l s (c, t, e, plain, len) known =
    let known' = subst (λ k. (spam_parse_targets k == 0) ≡ false) e known in
    ap (λ k. parse_fields (skip_spaces (k ++ s))) e
    ∙ ap parse_fields (skip_plain c (t ++ s) (subst (All IsPlain) e plain).0)
    ∙ by_words-fields c (t ++ s) (not_hash c t known')
    ∙ ap (λ k. by_words (three_words (k ++ s))) (sym e)

rule_of-text :
    (f : Rule) (dur p : Bytes)
    → (f.targets == 0) ≡ false
    → spam_parse_targets (target_letters f.targets) ≡ f.targets
    → rule_duration dur ≡ some f.duration
    → with_reason f.targets f.action f.duration p ≡ parsed f
    → rule_of (target_letters f.targets, action_name f.action, dur, p) ≡ parsed f
unfolding rule_of
rule_of-text f dur p n t d r =
    let known = ap (λ m. m == 0) t ∙ n in
    rw (known, parse_action-name f.action, d) (ap (λ m. with_reason m f.action f.duration p) t ∙ r)

longer : (n m : ℕ) (s : Bytes) → n ≤ m → Word n s → Word m s
longer n m s h (c, w, e, a, l) = (c, w, e, a, omega (arith, l, h))

parse_line-text :
    (f : Rule) (end : Bytes)
    → Writable f
    → All (λ c. isspace c ≡ true) end
    → parse_line (
        rule_text
          (target_letters f.targets)
          (action_name f.action)
          (duration_text f.duration)
          f.reason
          (f.pattern ++ end))
      ≡ parsed f
unfolding rule_text
parse_line-text f end w a =
    let (same, word) = spam_parse_targets-letters f.targets w.known w.targeted in
    let (dword, dur) = duration_text-Word f.duration w.brief in
    let reason = f.reason ++ (34 ∷ 32 ∷ (f.pattern ++ end)) in
    let known = ap (λ m. m == 0) same ∙ w.targeted in
    let behind = action_name f.action ++ (32 ∷ (duration_text f.duration ++ (32 ∷ 34 ∷ reason))) in
    begins_letter (target_letters f.targets) (32 ∷ behind) word known
    ∙ ap by_words (
        three_words-text (target_letters f.targets) (action_name f.action)
          (duration_text f.duration) reason
          (longer 8 15 (target_letters f.targets) (omega arith) word)
          (longer 5 15 (action_name f.action) (omega arith) (Word-action_name f.action)) dword)
    ∙ rule_of-text f (duration_text f.duration) (34 ∷ reason) w.targeted same dur
        (with_reason-text f end w a)

rule_fits :
    (f : Rule)
    → Writable f
    → length (
        rule_text
          (target_letters f.targets)
          (action_name f.action)
          (duration_text f.duration)
          f.reason
          f.pattern)
      ≤ 416
rule_fits f w =
    let (c1, w1, e1, a1, l1) = (spam_parse_targets-letters f.targets w.known w.targeted).1 in
    let (c2, w2, e2, a2, l2) = Word-action_name f.action in
    let (c3, w3, e3, a3, l3) = (duration_text-Word f.duration w.brief).0 in
    let l4 = w.reason_fits in
    let l5 = w.pattern_fits in
    omega (
      arith,
      length-rule_text (target_letters f.targets) (action_name f.action) (duration_text f.duration)
          f.reason f.pattern,
      l1,
      l2,
      l3,
      l4,
      l5,
    )

-- A rule that `append_rule` writes to the filters file with its newline is read back from the line as
-- that rule, if it has some known target, a duration below ten to the fourteen seconds, a reason of at
-- most 127 bytes without a quote, and a pattern of at most 255 bytes, with no space at its ends.
pub parse_line-format_rule :
    (f : Rule) → Writable f → parse_line (format_rule f 700 ++ (10 ∷ [])) ≡ parsed f
unfolding format_rule
parse_line-format_rule f w =
    let a = target_letters f.targets in
    let b = action_name f.action in
    let c = duration_text f.duration in
    ap (λ t. parse_line (t ++ (10 ∷ [])))
      (take_all 699 (rule_text a b c f.reason f.pattern) (omega (arith, rule_fits f w)))
    ∙ ap parse_line (rule_text-append a b c f.reason f.pattern (10 ∷ []))
    ∙ parse_line-text f (10 ∷ []) w (refl, tt)
