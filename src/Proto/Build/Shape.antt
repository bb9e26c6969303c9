-- ===== src/Proto/Build/Shape.antt =====
-- The shape of the line that `irc_build` writes, piece by piece.
use sekur_ircd.Base.{
  ◌>>=◌, ℕ, ◌-◌, ◌≡◌, ◌≢◌, refl, sym, ap, ◌∙◌, inl, inr, List, [], ◌∷◌, ◌++◌, Option, none, some,
  arith, length, Bytes, map, append_assoc, append-nil, ◌==◌, take, Bool-cases,
}
use sekur_ircd.Proto.Strings.{irc_escape}
use sekur_ircd.Proto.Parse.{take_tags, take_prefix}
use sekur_ircd.Proto.Parse.Tokens.{Without, spaced, trailer, split_word}
use sekur_ircd.Proto.Build.{
  append_str, append_escaped, append_tag_section, append_prefix, middle, append_params,
  append_trailing, irc_build,
}

-- `out` is what the step returns, behind what was there.
append_str-eq :
    (outsz : ℕ) (out s : Bytes) {r : Bytes} → append_str outsz out s ≡ some r → r ≡ out ++ s
unfolding append_str
append_str-eq outsz out s h = ground arith

>>=-some :
    (m : Option Bytes) (f : Bytes → Option Bytes) {r : Bytes}
    → (m >>= f) ≡ some r
    → (a : Bytes) × (m ≡ some a) × (f a ≡ some r)
>>=-some none f h = cc
>>=-some (some a) f h = (a, refl, h)

abbrev pub head_of : Option Bytes → Bytes
head_of none = []
head_of (some p) = b':' ∷ (irc_escape 1024 p ++ b' ' ∷ [])

-- What the buffer keeps of the trailing text behind `line`: the escaped text up to the room left.
abbrev pub kept : ℕ → Bytes → Option Bytes → Option Bytes
kept outsz line none = none
kept outsz line (some x) =
    some (take (outsz - 1 - length (line ++ b' ' ∷ b':' ∷ [])) (irc_escape 1024 x))

append_prefix-eq :
    (outsz : ℕ) (prefix : Option Bytes) (out r : Bytes)
    → append_prefix outsz prefix out ≡ some r
    → r ≡ out ++ head_of prefix
unfolding append_prefix append_escaped
append_prefix-eq outsz none out r h = ground (arith, append-nil out)
append_prefix-eq outsz (some p) out r h =
    let (o1, h1, k1) = >>=-some (append_str outsz out (b':' ∷ [])) _ h in
    let (o2, h2, k2) = >>=-some (append_str outsz o1 (irc_escape 1024 p)) _ k1 in
    append_str-eq outsz o2 (b' ' ∷ []) k2
    ∙ ap (λ o. o ++ b' ' ∷ []) (append_str-eq outsz o1 (irc_escape 1024 p) h2)
    ∙ ap (λ o. (o ++ irc_escape 1024 p) ++ b' ' ∷ []) (append_str-eq outsz out (b':' ∷ []) h1)
    ∙ ap (λ o. o ++ b' ' ∷ []) (append_assoc out (b':' ∷ []) (irc_escape 1024 p))
    ∙ append_assoc out (b':' ∷ irc_escape 1024 p) (b' ' ∷ [])

append_params-eq :
    (outsz : ℕ) (params : List Bytes) (out r : Bytes)
    → append_params outsz params out ≡ some r
    → r ≡ out ++ spaced (map middle params)
unfolding append_params
append_params-eq outsz [] out r h = ground (arith, append-nil out)
append_params-eq outsz (p ∷ params) out r h =
    let (o1, h1, k1) = >>=-some (append_str outsz out (b' ' ∷ [])) _ h in
    let (o2, h2, k2) = >>=-some (append_str outsz o1 (middle p)) _ k1 in
    let more = spaced (map middle params) in
    append_params-eq outsz params o2 r k2
    ∙ ap (λ o. o ++ more) (append_str-eq outsz o1 (middle p) h2)
    ∙ append_assoc o1 (middle p) more
    ∙ ap (λ o. o ++ (middle p ++ more)) (append_str-eq outsz out (b' ' ∷ []) h1)
    ∙ append_assoc out (b' ' ∷ []) (middle p ++ more)

append_trailing-eq :
    (outsz : ℕ) (trailing : Option Bytes) (out r : Bytes)
    → append_trailing outsz trailing out ≡ some r
    → r ≡ out ++ trailer (kept outsz out trailing)
unfolding append_trailing
append_trailing-eq outsz none out r h = ground (arith, append-nil out)
append_trailing-eq outsz (some x) out r h =
    let (o1, h1, k1) = >>=-some (append_str outsz out (b' ' ∷ b':' ∷ [])) _ h in
    sym (some_eq k1)
    ∙ ap (λ o. o ++ take (outsz - 1 - length o) (irc_escape 1024 x))
        (append_str-eq outsz out (b' ' ∷ b':' ∷ []) h1)
    ∙ append_assoc out (b' ' ∷ b':' ∷ [])
        (take (outsz - 1 - length (out ++ b' ' ∷ b':' ∷ [])) (irc_escape 1024 x))
  where
    some_eq : {a b : Bytes} → some a ≡ some b → a ≡ b
    some_eq e = cc

-- `irc_build` of a message without tags, past the test of its buffer.
build_steps :
    (outsz : ℕ) (prefix : Option Bytes) (command : Bytes) (params : List Bytes)
    (trailing : Option Bytes) (out : Bytes)
    → irc_build outsz [] prefix command params trailing ≡ some out
    → (append_prefix outsz prefix [] >>= λ o. append_escaped outsz o command >>= λ o.
        append_params outsz params o >>= λ o. append_trailing outsz trailing o)
      ≡ some out
unfolding irc_build append_tag_section
build_steps outsz prefix command params trailing out h = elim (Bool-cases (outsz == 0)) [
  | inl e ↦ let h' = rw e at h in cc
  | inr e ↦ rw e at h
]

-- The line of a message without tags in front of its trailing text.
abbrev pub words_of : Option Bytes → Bytes → List Bytes → Bytes
words_of prefix command params =
    (head_of prefix ++ irc_escape 1024 command) ++ spaced (map middle params)

-- The line of a message without tags: head, command, parameters, trailing text.
pub irc_build-eq :
    (outsz : ℕ) (prefix : Option Bytes) (command : Bytes) (params : List Bytes)
    (trailing : Option Bytes) (out : Bytes)
    → irc_build outsz [] prefix command params trailing ≡ some out
    → out
      ≡ head_of prefix
        ++ (irc_escape 1024 command
            ++ (spaced (map middle params)
                ++ trailer (kept outsz (words_of prefix command params) trailing)))
unfolding append_escaped
irc_build-eq outsz prefix command params trailing out h =
    let (o1, h1, k1) =
      >>=-some (append_prefix outsz prefix []) _
        (build_steps outsz prefix command params trailing out h) in
    let (o2, h2, k2) = >>=-some (append_str outsz o1 (irc_escape 1024 command)) _ k1 in
    let (o3, h3, k3) = >>=-some (append_params outsz params o2) _ k2 in
    let cmd = irc_escape 1024 command in
    let words = spaced (map middle params) in
    let t = trailer (kept outsz (words_of prefix command params) trailing) in
    append_trailing-eq outsz trailing o3 out k3
    ∙ ap (λ o. o ++ trailer (kept outsz o trailing))
        (append_params-eq outsz params o2 o3 h3
          ∙ ap (λ o. o ++ words) (append_str-eq outsz o1 cmd h2)
          ∙ ap (λ o. (o ++ cmd) ++ words) (append_prefix-eq outsz prefix [] o1 h1))
    ∙ append_assoc (head_of prefix ++ cmd) words t
    ∙ append_assoc (head_of prefix) cmd (words ++ t)

-- A command that is read as one: not empty, no space, and not taken for tags or a prefix.
abbrev pub IsCommand : Bytes → Type 0
IsCommand [] = ⊥
IsCommand (c ∷ s) = (c ≢ b'@') × (c ≢ b':') × Without b' ' (c ∷ s)

abbrev pub PrefixWithoutSpace : Option Bytes → Type 0
PrefixWithoutSpace none = Unit
PrefixWithoutSpace (some p) = Without b' ' (irc_escape 1024 p)

abbrev pub count_of : Option Bytes → ℕ
count_of none = 0
count_of (some t) = 1

abbrev pub to_list : Option Bytes → List Bytes
to_list none = []
to_list (some t) = t ∷ []

-- The prefix as a reader gets it.
abbrev pub escaped_prefix : Option Bytes → Option Bytes
escaped_prefix none = none
escaped_prefix (some p) = some (irc_escape 1024 p)

pub take_head :
    (prefix : Option Bytes) (c : ℕ) (s : Bytes)
    → c ≢ b'@'
    → c ≢ b':'
    → PrefixWithoutSpace prefix
    → (take_tags (head_of prefix ++ c ∷ s) ≡ some ([], head_of prefix ++ c ∷ s))
      × (take_prefix (head_of prefix ++ c ∷ s) ≡ some (escaped_prefix prefix, c ∷ s))
unfolding take_tags take_prefix
take_head none c s n m w = (ground arith, ground arith)
take_head (some p) c s n m w = (
  refl,
  rw (append_assoc (irc_escape 1024 p) (b' ' ∷ []) (c ∷ s))
      (rw (split_word b' ' (irc_escape 1024 p) (c ∷ s) w, take_prefix) refl),
)
