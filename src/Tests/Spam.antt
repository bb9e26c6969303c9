-- ===== src/Tests/Spam.antt =====
-- Filter rules, the limits and the verdicts at concrete inputs.
use sekur_ircd.Base.{
  ℕ, zero, suc, ◌≡◌, refl, true, false, List, [], ◌∷◌, ◌++◌, none, some, take, length, arith,
}
use sekur_ircd.Cstring.{codes, strip_end}
use sekur_ircd.Client.{Client}
use sekur_ircd.Spam.Rules.{Rule, warn, zline, blank, parsed, parse_line, format_rule}
use sekur_ircd.Spam.Rules.Commands.{blank_rule, spamfilter_add}
use sekur_ircd.Spam.Rules.RoundTrip.{Writable, parse_line-format_rule}
use sekur_ircd.Spam.Codes.{strip_codes}
use sekur_ircd.Spam.Codes.Pieces.{
  Piece, shown, format, colour, strike_through, encode, visible, IsRich,
}
use sekur_ircd.Spam.Codes.Clean.{strip_codes-encode}
use sekur_ircd.Spam.Track.{Sent, Tracker, fnv, spam_track}
use sekur_ircd.Spam.Track.Pairs.{Tracks, AllApart, reached, NoDup, spam_track-Tracks}
use sekur_ircd.Spam.Actions.{SpamConfig, Net}
use sekur_ircd.Spam.Check.{spam_check_message}
use sekur_ircd.Spam.Check.Verdicts.{Harmless, spam_check_message-Harmless}

abbrev viagra : Rule
viagra = record {
  targets = 3;
  action = zline;
  duration = 3600;
  reason = codes "advertising";
  pattern = codes "(buy|cheap) +viagra";
}

ends_well : strip_end viagra.pattern ≡ viagra.pattern
unfolding strip_end
ends_well = refl

viagra-Writable : Writable viagra
viagra-Writable = record {
  known = omega arith;
  targeted = refl;
  brief = omega arith;
  unquoted =
      (refl, (refl, (refl, (refl, (refl, (refl, (refl, (refl, (refl, (refl, (refl, tt)))))))))));
  reason_fits = omega arith;
  pattern_fits = omega arith;
  first = _;
  rest = _;
  shape = refl;
  begins_plain = refl;
  ends_plain = ends_well;
}

printed : format_rule viagra 700 ≡ codes "pc zline 3600s \"advertising\" (buy|cheap) +viagra"
unfolding format_rule
printed = refl

parse_line-format_rule_example : parse_line (format_rule viagra 700 ++ (10 ∷ [])) ≡ parsed viagra
parse_line-format_rule_example = parse_line-format_rule viagra viagra-Writable

comment : parse_line (codes "  # nothing") ≡ blank
unfolding parse_line
comment = refl

-- SPAMFILTER ADD with targets that begin with `#` is refused with an error that was never written.
hash_targets :
    (spamfilter_add true
      (λ p. none)
      []
      (codes "ADD" ∷ codes "#dev" ∷ codes "block" ∷ codes "-" ∷ codes "x" ∷ codes "y" ∷ [])
      true).0
    ≡ blank_rule
unfolding spamfilter_add
hash_targets = refl

-- Two colour codes and a format byte between the shown bytes `a1cd`.
abbrev rich : List Piece
rich =
    shown b'a'
    ∷ colour (codes "4") (some (codes "12"))
    ∷ shown b'1'
    ∷ format 30
    ∷ shown b'c'
    ∷ colour (codes "05") (some [])
    ∷ shown b'd'
    ∷ []

rich-IsRich : IsRich rich
rich-IsRich = (
  ground arith,
  (
    (ground arith, ground arith),
    (ground arith, (strike_through, (ground arith, ((ground arith, refl), (ground arith, tt))))),
  ),
)

strip_codes-encode_example : strip_codes 4 (encode rich) ≡ take 3 (visible rich)
strip_codes-encode_example = strip_codes-encode 4 rich rich-IsRich

stripped : strip_codes 512 (codes "a" ++ (3 ∷ codes "4,12b" ++ (2 ∷ []))) ≡ codes "ab"
unfolding strip_codes
stripped = refl

abbrev free_slots : ℕ → List Sent
free_slots zero = []
free_slots (suc n) = record { tgt = 0; txt = 0; at = 0 } ∷ free_slots n

abbrev nothing_sent : Tracker
nothing_sent = record { ring = free_slots 32; head = 0 }

free_slots-apart : (n : ℕ) → AllApart (free_slots n)
free_slots-apart zero = tt
free_slots-apart (suc n) = (λ u. absurd (u refl), free_slots-apart n)

nothing_sent-Tracks : Tracks nothing_sent
nothing_sent-Tracks = record { slots = refl; head = omega arith; apart = free_slots-apart 32 }

spam_track-Tracks_example :
    Tracks ((spam_track (codes "bob") (codes "hello") 100 60 nothing_sent).0)
    × ((spam_track (codes "bob") (codes "hello") 100 60 nothing_sent).1.1
        ≡ length (
            reached
              (fnv (codes "hello"))
              100
              60
              ((spam_track (codes "bob") (codes "hello") 100 60 nothing_sent).0.ring)))
    × NoDup (
        reached
          (fnv (codes "hello"))
          100
          60
          ((spam_track (codes "bob") (codes "hello") 100 60 nothing_sent).0.ring))
spam_track-Tracks_example =
    spam_track-Tracks (codes "bob") (codes "hello") 100 60 nothing_sent nothing_sent-Tracks

abbrev ann : Client
ann = record {
  id = 1;
  has_socket = true;
  is_service = false;
  nick = codes "ann";
  user = codes "ann";
  host = codes "cloak";
  ip = codes "192.0.2.1";
  ident_confirmed = false;
  umodes = 0;
  account = [];
  acct_created_for = [];
  acct_created = 0;
  signon_time = 10;
  quitting = false;
  dirty_q = false;
  dead_q = false;
  quit_reason = [];
  tracker = nothing_sent;
}

abbrev settings : SpamConfig
settings = record {
  enabled = true;
  exempt_opers = true;
  exempt_identified = true;
  trust_age = 0;
  new_user_period = 30;
  max_targets = 5;
  target_window = 60;
  max_repeat = 3;
  limit_action = codes "kill";
  zline_duration = 3600;
  filters_enabled = true;
}

abbrev warns : Net
warns = record {
  clients = ann ∷ [];
  dead = [];
  filters = record { rule = record viagra { action = warn }; re = λ s. true } ∷ [];
  spam_hits = 0;
}

delivered :
    (spam_check_message
      (λ n. none)
      settings
      ann
      (codes "bob")
      (codes "hello there")
      false
      100
      warns).0
    ≡ 0
unfolding spam_check_message
delivered = refl

spam_check_message-Harmless_example : Harmless ann warns (
    spam_check_message (λ n. none) settings ann (codes "bob") (codes "hello there") false 100 warns)
spam_check_message-Harmless_example =
    spam_check_message-Harmless (λ n. none) settings ann (codes "bob") (codes "hello there") false
      100 warns delivered
