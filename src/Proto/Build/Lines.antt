-- ===== src/Proto/Build/Lines.antt =====
-- Every line that `irc_build` returns fits its buffer and is one line.
use sekur_ircd.Base.{
  ℕ, ◌+◌, ◌-◌, ◌<◌, ◌≡◌, ◌≢◌, inl, inr, List, [], ◌∷◌, ◌++◌, leb, ◌==◌, map, take, zero, suc,
  if◌then◌else◌, Bytes, length, All, All-append, arith, Bool, Bool-cases, true, false, Option, none,
  some, subst, ==→ne, length-append, length-take-le,
}
use sekur_ircd.Proto.Strings.{escape_from, irc_escape}
use sekur_ircd.Proto.Tags.{escape_tag_value}
use sekur_ircd.Proto.Tags.RoundTrip.{Separates, escape_tag_value-Separates}
use sekur_ircd.Proto.Build.{
  ◌>>=◌, Tag, append_str, append_escaped, append_tag_value, append_tags, append_tag_section,
  append_prefix, space_to_underscore, defang, middle, append_params, append_trailing, irc_build,
}

-- The byte ends no line.
abbrev pub LineSafe : ℕ → Type 0
LineSafe c = (c ≢ b'\r') × (c ≢ b'\n')

-- A piece of a line within its buffer, with room for the terminating NUL.
abbrev pub Good : ℕ → Bytes → Type 0
Good outsz out = (length out < outsz) × All LineSafe out

abbrev pub Ensures : (Bytes → Type 0) → Option Bytes → Type 0
Ensures P none = Unit
Ensures P (some out) = P out

pub >>=-Ensures :
    (P Q : Bytes → Type 0) (m : Option Bytes) (f : Bytes → Option Bytes)
    → Ensures P m
    → ((out : Bytes) → P out → Ensures Q (f out))
    → Ensures Q (m >>= f)
>>=-Ensures P Q none f h k = tt
>>=-Ensures P Q (some out) f h k = k out h

escape_from-LineSafe : (outsz o : ℕ) (s : Bytes) → All LineSafe (escape_from outsz o s)
unfolding escape_from
escape_from-LineSafe outsz o [] = tt
escape_from-LineSafe outsz o (c ∷ s) =
    ground (arith, escape_from-LineSafe outsz o s, escape_from-LineSafe outsz (o + 1) s)

-- Whatever the text and the buffer, `irc_escape` leaves no CR and no LF.
pub irc_escape-LineSafe : (outsz : ℕ) (s : Bytes) → All LineSafe (irc_escape outsz s)
unfolding irc_escape
irc_escape-LineSafe outsz s = elim (Bool-cases (outsz == 0)) [
  | inl e ↦ rw e tt
  | inr e ↦ rw e (escape_from-LineSafe outsz 0 s)
]

take-All : (P : ℕ → Type 0) (n : ℕ) (s : Bytes) → All P s → All P (take n s)
take-All P zero s h = tt
take-All P (suc n) [] h = tt
take-All P (suc n) (c ∷ s) h = (h.0, take-All P n s h.1)

Separates-LineSafe : (s : Bytes) → All Separates s → All LineSafe s
Separates-LineSafe [] h = tt
Separates-LineSafe (c ∷ s) h = ((h.0.2, h.0.3), Separates-LineSafe s h.1)

module _ (outsz : ℕ) where
  append_str-Good :
      (out s : Bytes)
      → All LineSafe s
      → Good outsz out
      → Ensures (Good outsz) (append_str outsz out s)
  unfolding append_str
  append_str-Good out s h g = elim (Bool-cases (leb outsz (length out + length s))) [
    | inl e ↦ rw e tt
    | inr e ↦ rw e (fits out s e, All-append LineSafe out s g.1 h)
  ]
    where
      fits : (out s : Bytes) → leb outsz (length out + length s) ≡ false → length (out ++ s) < outsz
      fits out s e = ground (arith, length-append out s)

  step :
      (m : Option Bytes) (f : Bytes → Option Bytes)
      → Ensures (Good outsz) m
      → ((out : Bytes) → Good outsz out → Ensures (Good outsz) (f out))
      → Ensures (Good outsz) (m >>= f)
  step = >>=-Ensures (Good outsz) (Good outsz)

  append_tag_value-Good :
      (val out : Bytes) → Good outsz out → Ensures (Good outsz) (append_tag_value outsz out val)
  unfolding append_tag_value
  append_tag_value-Good [] out g = g
  append_tag_value-Good (c ∷ val) out g =
      step _ _ (append_str-Good out (b'=' ∷ []) (omega arith) g) λ out' g'.
        append_str-Good out' (escape_tag_value 1024 (c ∷ val))
          (Separates-LineSafe _ (escape_tag_value-Separates 1024 (c ∷ val)).0) g'

  append_tags-Good :
      (tags : List Tag) (first : Bool) (out : Bytes)
      → All (λ t. All LineSafe t.0) tags
      → Good outsz out
      → Ensures (Good outsz) (append_tags outsz first tags out)
  unfolding append_tags
  append_tags-Good [] first out h g = g
  append_tags-Good ((key, val) ∷ tags) first out h g = step _ _ (semicolon first) λ o1 g1.
      step _ _ (append_str-Good o1 key h.0 g1) λ o2 g2.
        step _ _ (append_tag_value-Good val o2 g2) λ o3 g3. append_tags-Good tags false o3 h.1 g3
    where
      semicolon :
          (first : Bool)
          → Ensures (Good outsz) (if first then some out else append_str outsz out (b';' ∷ []))
      semicolon true = g
      semicolon false = append_str-Good out (b';' ∷ []) (omega arith) g

  append_tag_section-Good :
      (tags : List Tag) (out : Bytes)
      → All (λ t. All LineSafe t.0) tags
      → Good outsz out
      → Ensures (Good outsz) (append_tag_section outsz tags out)
  unfolding append_tag_section
  append_tag_section-Good [] out h g = g
  append_tag_section-Good (t ∷ tags) out h g =
      step _ _ (append_str-Good out (b'@' ∷ []) (omega arith) g) λ o1 g1.
        step _ _ (append_tags-Good (t ∷ tags) true o1 h g1)
          λ o2 g2. append_str-Good o2 (b' ' ∷ []) (omega arith) g2

  append_escaped-Good :
      (out s : Bytes) → Good outsz out → Ensures (Good outsz) (append_escaped outsz out s)
  unfolding append_escaped
  append_escaped-Good out s g =
      append_str-Good out (irc_escape 1024 s) (irc_escape-LineSafe 1024 s) g

  append_prefix-Good :
      (prefix : Option Bytes) (out : Bytes)
      → Good outsz out
      → Ensures (Good outsz) (append_prefix outsz prefix out)
  unfolding append_prefix
  append_prefix-Good none out g = g
  append_prefix-Good (some prefix) out g =
      step _ _ (append_str-Good out (b':' ∷ []) (omega arith) g) λ o1 g1.
        step _ _ (append_escaped-Good o1 prefix g1)
          λ o2 g2. append_str-Good o2 (b' ' ∷ []) (omega arith) g2

  map-LineSafe : (s : Bytes) → All LineSafe s → All LineSafe (map space_to_underscore s)
  map-LineSafe [] h = tt
  map-LineSafe (c ∷ s) h = (ground arith, map-LineSafe s h.1)

  defang-LineSafe : (s : Bytes) → All LineSafe s → All LineSafe (defang s)
  unfolding defang
  defang-LineSafe [] h = omega arith
  defang-LineSafe (c ∷ s) h = map-LineSafe ((if c == b':' then b'_' else c) ∷ s) (ground arith, h.1)

  append_params-Good :
      (params : List Bytes) (out : Bytes)
      → Good outsz out
      → Ensures (Good outsz) (append_params outsz params out)
  unfolding append_params middle
  append_params-Good [] out g = g
  append_params-Good (p ∷ params) out g =
      step _ _ (append_str-Good out (b' ' ∷ []) (omega arith) g) λ o1 g1.
        step _ _
          (append_str-Good o1 (middle p)
            (defang-LineSafe (irc_escape 512 p) (irc_escape-LineSafe 512 p)) g1)
          λ o2 g2. append_params-Good params o2 g2

  append_trailing-Good :
      (trailing : Option Bytes) (out : Bytes)
      → Good outsz out
      → Ensures (Good outsz) (append_trailing outsz trailing out)
  unfolding append_trailing
  append_trailing-Good none out g = g
  append_trailing-Good (some trailing) out g =
      step _ _ (append_str-Good out (b' ' ∷ b':' ∷ []) (omega arith) g) λ o1 g1.
        let room = outsz - 1 - length o1 in
        let text = take room (irc_escape 1024 trailing) in
        (
          omega
              (arith, length-append o1 text, length-take-le room (irc_escape 1024 trailing), g1.0),
          All-append LineSafe o1 text g1.1 (
              take-All LineSafe room (irc_escape 1024 trailing)
                (irc_escape-LineSafe 1024 trailing)),
        )

  irc_build-Ensures :
      (tags : List Tag) (prefix : Option Bytes) (command : Bytes) (params : List Bytes)
      (trailing : Option Bytes)
      → All (λ t. All LineSafe t.0) tags
      → Ensures (Good outsz) (irc_build outsz tags prefix command params trailing)
  unfolding irc_build
  irc_build-Ensures tags prefix command params trailing h = elim (Bool-cases (outsz == 0)) [
    | inl e ↦ rw e tt
    | inr e ↦ rw e (
        step _ _ (append_tag_section-Good tags [] h (omega (arith, ==→ne outsz 0 e), tt)) λ o1 g1.
          step _ _ (append_prefix-Good prefix o1 g1) λ o2 g2.
            step _ _ (append_escaped-Good o2 command g2) λ o3 g3.
              step _ _ (append_params-Good params o3 g3)
                λ o4 g4. append_trailing-Good trailing o4 g4)
  ]

  -- Where no tag key holds a CR or an LF, every line that `irc_build` returns is shorter than its
  -- buffer and holds no CR and no LF, whatever the tag values, prefix, command, parameters and text.
  pub irc_build-Good :
      (tags : List Tag) (prefix : Option Bytes) (command : Bytes) (params : List Bytes)
      (trailing : Option Bytes) (out : Bytes)
      → All (λ t. All LineSafe t.0) tags
      → irc_build outsz tags prefix command params trailing ≡ some out
      → Good outsz out
  irc_build-Good tags prefix command params trailing out h e =
      subst (Ensures (Good outsz)) e (irc_build-Ensures tags prefix command params trailing h)
