-- ===== src/Spam/Rules/Words.antt =====
-- The fields of a printed rule as words of sscanf.
use sekur_ircd.Base.{
  ℕ, ◌+◌, ◌*◌, ◌<◌, ◌≡◌, refl, sym, ap, subst, ◌∙◌, inl, inr, ==→eq, Bool, List, [], ◌∷◌, ◌++◌,
  some, map, ◌==◌, if◌then◌else◌, Bytes, length, All, length-append, arith, Bool-cases, ne→==,
}
use sekur_ircd.Cstring.{codes, str_eq, decimal_text, skip_spaces, scan_word}
use sekur_ircd.Cstring.Words.{
  IsPlain, read_from, Decimal-decimal_text, length-decimal_text, scan_word-word,
}
use sekur_ircd.Proto.Duration.{multiplier, irc_parse_duration}
use sekur_ircd.Proto.Duration.Values.{value_from, at_most_long, unit, irc_parse_duration-value}
use sekur_ircd.Spam.Rules.{
  SpamAction, block, warn, kill, zline, hide, shun, parse_action, action_name, three_words,
  rule_duration, duration_text,
}
use sekur_ircd.Spam.Rules.Targets.{Word, All-no_space}

pub parse_action-name : (a : SpamAction) → parse_action (action_name a) ≡ some a
unfolding parse_action action_name
parse_action-name block = refl
parse_action-name warn = refl
parse_action-name kill = refl
parse_action-name zline = refl
parse_action-name hide = refl
parse_action-name shun = refl

pub Word-action_name : (a : SpamAction) → Word 5 (action_name a)
unfolding action_name
Word-action_name block = (_, _, refl, All-no_space (codes "block") refl, omega arith)
Word-action_name warn = (_, _, refl, All-no_space (codes "warn") refl, omega arith)
Word-action_name kill = (_, _, refl, All-no_space (codes "kill") refl, omega arith)
Word-action_name zline = (_, _, refl, All-no_space (codes "zline") refl, omega arith)
Word-action_name hide = (_, _, refl, All-no_space (codes "hide") refl, omega arith)
Word-action_name shun = (_, _, refl, All-no_space (codes "shun") refl, omega arith)

value_from-read : (n : ℕ) (ds : List ℕ) → value_from n ds ≡ read_from n ds
unfolding value_from
value_from-read n [] = refl
value_from-read n (d ∷ ds) = value_from-read (n * 10 + d) ds

digit-IsPlain : (d : ℕ) → d < 10 → IsPlain (48 + d)
digit-IsPlain d h = ground (arith, h)

All-digits : (ds : List ℕ) → All (λ k. k < 10) ds → All IsPlain (map (λ k. 48 + k) ds ++ (115 ∷ []))
All-digits [] a = (refl, tt)
All-digits (d ∷ ds) (h, a) = (digit-IsPlain d h, All-digits ds a)

not_dash :
    (d : ℕ) (s : Bytes) → d < 10 → rule_duration ((48 + d) ∷ s) ≡ irc_parse_duration ((48 + d) ∷ s)
unfolding rule_duration str_eq
not_dash d s h = rw (ne→== (48 + d) 45 (omega arith)) refl

in_long : (v n : ℕ) → v ≡ n → n < 100000000000000 → at_most_long (v * 1) ≡ n
in_long v n e h = ground (arith, e, h)

-- A positive duration is printed as one word, which is read back.
timed :
    (n : ℕ)
    → n < 100000000000000
    → Word 15 (decimal_text n ++ (b's' ∷ []))
      × (rule_duration (decimal_text n ++ (b's' ∷ [])) ≡ some n)
unfolding multiplier
timed n h =
    let (d, ds, e, a, v) = Decimal-decimal_text n in
    let text = ap (λ t. t ++ (115 ∷ [])) e in
    let value = value_from-read 0 (d ∷ ds) ∙ v in
    let size = length-decimal_text 13 n h in
    (
      (
        48 + d,
        map (λ k. 48 + k) ds ++ (115 ∷ []),
        text,
        subst (All IsPlain) (sym text) (All-digits (d ∷ ds) a),
        omega (arith, size, length-append (decimal_text n) (115 ∷ [])),
      ),
      ap rule_duration text
          ∙ not_dash d (map (λ k. 48 + k) ds ++ (115 ∷ [])) a.0
          ∙ irc_parse_duration-value d ds (115 ∷ []) 1 a (omega (arith, value, h)) (unit 115 1 refl)
          ∙ ap some (in_long (value_from 0 (d ∷ ds)) n value h),
    )

pub duration_text-Word :
    (n : ℕ)
    → n < 100000000000000
    → Word 15 (duration_text n) × (rule_duration (duration_text n) ≡ some n)
unfolding duration_text rule_duration
duration_text-Word n h =
    let P = λ (t : Bytes). Word 15 t × (rule_duration t ≡ some n) in
    let text = λ (b : Bool). if b then codes "-" else decimal_text n ++ (b's' ∷ []) in
    elim (Bool-cases (n == 0)) [
      | inl t ↦
          subst P (sym (ap text t))
            ((_, _, refl, (refl, tt), omega arith), ap some (sym (==→eq n 0 t)))
      | inr f ↦ subst P (sym (ap text f)) (timed n h)
    ]

-- A word is read by sscanf, with one space in front of it or none.
scan_word-Word : (w s : Bytes) → Word 15 w → scan_word 15 (w ++ (32 ∷ s)) ≡ some (w, 32 ∷ s)
scan_word-Word w s (c, v, e, a, l) =
    ap (λ t. scan_word 15 (t ++ (32 ∷ s))) e
    ∙ scan_word-word 15 c v s (subst (All IsPlain) e a) (omega (arith, l, ap length e))
    ∙ ap (λ t. some (t, 32 ∷ s)) (sym e)

after_space : (s : Bytes) → scan_word 15 (32 ∷ s) ≡ scan_word 15 s
unfolding scan_word skip_spaces
after_space s = refl

pub three_words-text :
    (a b c s : Bytes)
    → Word 15 a
    → Word 15 b
    → Word 15 c
    → three_words (a ++ (32 ∷ (b ++ (32 ∷ (c ++ (32 ∷ 34 ∷ s)))))) ≡ some (a, b, c, 34 ∷ s)
unfolding three_words skip_spaces
three_words-text a b c s wa wb wc =
    let sc = c ++ (32 ∷ 34 ∷ s) in
    let sb = b ++ (32 ∷ sc) in
    rw
      (
        scan_word-Word a sb wa,
        after_space sb,
        scan_word-Word b sc wb,
        after_space sc,
        scan_word-Word c (34 ∷ s) wc,
      )
      refl
