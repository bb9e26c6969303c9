-- ===== src/Proto/Build/RoundTrip.antt =====
-- What `irc_build` writes, `irc_parse_line` reads: the same number of parameters, in the same order.
use sekur_ircd.Base.{
  take_all, ◌&&◌, lt→ltb, ℕ, suc, ◌+◌, ◌≤◌, ◌≡◌, refl, sym, ap, ◌∙◌, false, List, [], ◌∷◌, ◌++◌,
  Option, none, some, arith, length, Bytes, All, map, append-nil, if◌then◌else◌, ◌==◌, ne→==, take,
}
use sekur_ircd.Cstring.{toupper}
use sekur_ircd.Proto.Strings.{irc_escape}
use sekur_ircd.Proto.Parse.{
  Message, with_trailing, message_of, parse_body, irc_parse_line, irc_max_params, max_raw_tokens,
  last_has_space,
}
use sekur_ircd.Proto.Parse.Tokens.{
  Without, IsMiddle, spaced, trailer, trailing_line, tokens_spaced, non_empty-middles,
}
use sekur_ircd.Proto.Build.{space_to_underscore, defang, middle, irc_build}
use sekur_ircd.Proto.Build.Shape.{
  kept, words_of, irc_build-eq, head_of, IsCommand, PrefixWithoutSpace, count_of, to_list,
  escaped_prefix, take_head,
}

Without-underscore : (s : Bytes) → Without b' ' (map space_to_underscore s)
Without-underscore [] = tt
Without-underscore (c ∷ s) = (ground arith, Without-underscore s)

-- Whatever the parameter, its defanged form is not empty, holds no space and starts with no colon.
defang-IsMiddle : (s : Bytes) → IsMiddle (defang s)
unfolding defang
defang-IsMiddle [] = omega arith
defang-IsMiddle (c ∷ s) = (ground arith, Without-underscore ((if c == b':' then b'_' else c) ∷ s))

middles : (params : List Bytes) → All IsMiddle (map middle params)
unfolding middle
middles [] = tt
middles (p ∷ params) = (defang-IsMiddle (irc_escape 512 p), middles params)

length-map {ℓ κ} :
    {A : Type ℓ} {B : Type κ} (f : A → B) (xs : List A) → length (map f xs) ≡ length xs
length-map f [] = refl
length-map f (x ∷ xs) = ap suc (length-map f xs)

with_trailing-all :
    (ms : List Bytes) (t : Option Bytes)
    → length ms + count_of t ≤ irc_max_params
    → with_trailing ms t ≡ ms ++ to_list t
unfolding with_trailing
with_trailing-all ms none h = sym (append-nil ms)
with_trailing-all ms (some t) h = rw (lt→ltb (length ms) irc_max_params (omega arith))

-- What a reader makes of a row of words.
abbrev pub read_as : Option Bytes → Bytes → List Bytes → Option Bytes → Message
read_as prefix command ms t = record {
  tags = [];
  prefix = prefix;
  command = map toupper command;
  params = ms ++ to_list t;
}

message_of-words :
    (prefix : Option Bytes) (c : ℕ) (s : Bytes) (ms : List Bytes) (t : Option Bytes)
    → All IsMiddle ms
    → length ms + count_of t ≤ irc_max_params
    → message_of [] prefix ((c ∷ s) ∷ ms) t ≡ some (read_as prefix (c ∷ s) ms t)
unfolding message_of
message_of-words prefix c s ms t k h =
    ap
      (λ l. some (record { tags = []; prefix = prefix; command = map toupper (c ∷ s); params = l }))
      (ap (λ l. with_trailing (take irc_max_params l) t) (non_empty-middles ms k)
        ∙ ap (λ l. with_trailing l t) (take_all irc_max_params ms (omega arith))
        ∙ with_trailing-all ms t h)

few_tokens :
    (w : Bytes) (ms : List Bytes)
    → length ms ≤ irc_max_params
    → (length (w ∷ ms) == max_raw_tokens && last_has_space (w ∷ ms)) ≡ false
few_tokens w ms h = rw (ne→== (length (w ∷ ms)) max_raw_tokens (omega arith))

parse_body-words :
    (prefix : Option Bytes) (c : ℕ) (s : Bytes) (ms : List Bytes) (t : Option Bytes)
    → Without b' ' (c ∷ s)
    → All IsMiddle ms
    → length ms + count_of t ≤ irc_max_params
    → parse_body [] prefix ((c ∷ s) ++ (spaced ms ++ trailer t))
      ≡ some (read_as prefix (c ∷ s) ms t)
unfolding parse_body
parse_body-words prefix c s ms t w k h =
    rw
      (
        trailing_line (c ∷ s) ms t w k,
        tokens_spaced 299 (c ∷ s) ms (omega arith) w k,
        few_tokens (c ∷ s) ms (omega arith),
      )
      (message_of-words prefix c s ms t k h)

parse_line-words :
    (prefix : Option Bytes) (command : Bytes) (ms : List Bytes) (t : Option Bytes)
    → PrefixWithoutSpace prefix
    → IsCommand command
    → All IsMiddle ms
    → length ms + count_of t ≤ irc_max_params
    → irc_parse_line (head_of prefix ++ (command ++ (spaced ms ++ trailer t)))
      ≡ some (read_as (escaped_prefix prefix) command ms t)
unfolding irc_parse_line
parse_line-words prefix [] ms t p w k h = absurd w
parse_line-words prefix (c ∷ s) ms t p w k h =
    let (tags, rest) = take_head prefix c (s ++ (spaced ms ++ trailer t)) w.0 w.1 p in
    rw (tags, irc_parse_line)
      (rw (rest, irc_parse_line) (parse_body-words (escaped_prefix prefix) c s ms t w.2 k h))

-- A line that `irc_build` returns for a message without tags is read by `irc_parse_line` as that
-- message, if its command and prefix are single words and it has at most 32 parameters: the escaped
-- prefix, the command in upper case, one parameter for each middle parameter (escaped, and defanged
-- where it was empty, held a space or began with a colon), and last the escaped trailing text, as much
-- of it as the buffer's room for `outsz - 1` bytes leaves behind the words and ` :`.
pub irc_parse_line-build :
    (outsz : ℕ) (prefix : Option Bytes) (command : Bytes) (params : List Bytes)
    (trailing : Option Bytes) (out : Bytes)
    → PrefixWithoutSpace prefix
    → IsCommand (irc_escape 1024 command)
    → length params + count_of trailing ≤ irc_max_params
    → irc_build outsz [] prefix command params trailing ≡ some out
    → irc_parse_line out
      ≡ some (
          read_as
            (escaped_prefix prefix)
            (irc_escape 1024 command)
            (map middle params)
            (kept outsz (words_of prefix command params) trailing))
irc_parse_line-build outsz prefix command params trailing out p w h e =
    let t = kept outsz (words_of prefix command params) trailing in
    ap irc_parse_line (irc_build-eq outsz prefix command params trailing out e)
    ∙ parse_line-words prefix (irc_escape 1024 command) (map middle params) t p w (middles params)
        (omega (arith, length-map middle params, same_count trailing))
  where
    same_count :
        (a : Option Bytes) → count_of (kept outsz (words_of prefix command params) a) ≡ count_of a
    same_count none = refl
    same_count (some x) = refl
