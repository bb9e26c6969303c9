-- ===== src/Proto/Relay.antt =====
-- src/proto.c: `irc_add_time_tag`, whose tag and place are those of `irc_time_tag_insert`,
-- `irc_host_tail`, and `json_put_string`, as the bytes that it puts into the file.
use sekur_ircd.Base.{
  ℕ, ◌+◌, ◌-◌, ◌/◌, ◌%◌, ◌≤◌, inl, inr, ◌||◌, [], ◌∷◌, ◌++◌, Option, none, some, ltb, leb, ◌==◌,
  if◌then◌else◌, Bytes, length, take, drop, arith, Bool-cases, ltb→le, All, All-append,
}
use sekur_ircd.Cstring.{codes}
use sekur_ircd.Proto.Proxy.{hex_digit}

-- The tag and its place, spliced in where the line has room for it.
unfoldable pub irc_add_time_tag : Bytes × ℕ → Bytes → ℕ → Bytes
irc_add_time_tag (tag, at) line linesz =
    if length tag == 0 || leb linesz (length line + length tag)
    then line
    else take at line ++ (tag ++ drop at line)

-- The loop from the end: how many dots, and what stands behind the one that is counted last.
unfoldable pub tail_from : ℕ → Bytes → ℕ × Option Bytes
tail_from keep [] = (0, none)
tail_from keep (c ∷ s) =
    let (dots, cut) = tail_from keep s in
    elim cut [
      | some t ↦ (dots, some t)
      | none ↦
          if c == b'.' then (dots + 1, if dots + 1 == keep then some s else none) else (dots, none)
    ]

abbrev pub cut_or : Bytes → ℕ × Option Bytes → Bytes
cut_or host (dots, none) = host
cut_or host (dots, some cut) = cut

unfoldable pub irc_host_tail : Bytes → ℕ → ℕ → Bytes
unfolding tail_from
irc_host_tail host keep_labels outsz =
    take (outsz - 1) (if keep_labels == 0 then host else cut_or host (tail_from keep_labels host))

-- `%04x` for a byte below 32
unfoldable pub json_byte : ℕ → Bytes
unfolding hex_digit
json_byte c =
    if c == b'"'
    then b'\\' ∷ b'"' ∷ []
    else if c == b'\\'
    then b'\\' ∷ b'\\' ∷ []
    else if c == 10
    then codes "\\n"
    else if c == 13
    then codes "\\r"
    else if c == 9
    then codes "\\t"
    else if ltb c 32
    then codes "\\u00" ++ hex_digit (c / 16) ∷ hex_digit (c % 16) ∷ []
    else c ∷ []

unfoldable pub json_bytes : Bytes → Bytes
unfolding json_byte
json_bytes [] = []
json_bytes (c ∷ s) = json_byte c ++ json_bytes s

unfoldable pub json_put_string : Bytes → Bytes
unfolding json_bytes
json_put_string s = b'"' ∷ (json_bytes s ++ b'"' ∷ [])

-- What is put is one line of printable bytes, whatever the text holds.
json_byte-printable : (c : ℕ) → All (λ d. 32 ≤ d) (json_byte c)
unfolding json_byte hex_digit
json_byte-printable c = elim (Bool-cases (c == b'"')) [
  | inl t ↦ rw t (omega arith, (omega arith, tt))
  | inr a ↦ elim (Bool-cases (c == b'\\')) [
    | inl t ↦ rw (a, t) (omega arith, (omega arith, tt))
    | inr b ↦ elim (Bool-cases (c == 10)) [
      | inl t ↦ rw (a, b, t) (omega arith, (omega arith, tt))
      | inr d ↦ elim (Bool-cases (c == 13)) [
        | inl t ↦ rw (a, b, d, t) (omega arith, (omega arith, tt))
        | inr e ↦ elim (Bool-cases (c == 9)) [
          | inl t ↦ rw (a, b, d, e, t) (omega arith, (omega arith, tt))
          | inr f ↦ elim (Bool-cases (ltb c 32)) [
            | inl t ↦
                rw (a, b, d, e, f, t)
                  (
                    omega arith,
                    (
                      omega arith,
                      (omega arith, (omega arith, (digit (c / 16), (digit (c % 16), tt)))),
                    ),
                  )
            | inr g ↦ rw (a, b, d, e, f, g) (ltb→le c 32 g, tt)
          ]
        ]
      ]
    ]
  ]
]
  where
    digit : (n : ℕ) → 32 ≤ hex_digit n
    digit n = ground arith

json_bytes-printable : (s : Bytes) → All (λ d. 32 ≤ d) (json_bytes s)
unfolding json_bytes
json_bytes-printable [] = tt
json_bytes-printable (c ∷ s) =
    All-append (λ d. 32 ≤ d) (json_byte c) (json_bytes s) (json_byte-printable c)
      (json_bytes-printable s)

-- A string that is put into a JSON file stands on one line, without control bytes.
pub json_put_string-printable : (s : Bytes) → All (λ d. 32 ≤ d) (json_put_string s)
unfolding json_put_string
json_put_string-printable s = (
  omega arith,
  All-append (λ d. 32 ≤ d) (json_bytes s) (b'"' ∷ []) (json_bytes-printable s) (omega arith, tt),
)
