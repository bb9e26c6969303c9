-- ===== src/Cstring.antt =====
-- The parts of the C library that the program calls on characters and strings, in the C locale.
-- A C string is the list of its bytes in front of the terminating NUL.
pub mod Words
use Prim.Native.Char.{code}
use Prim.Native.String.{String}
use sekur_ircd.Base.{
  ℕ, zero, suc, ◌+◌, ◌-◌, ◌/◌, ◌%◌, Bool, true, false, ◌&&◌, ◌||◌, [], ◌∷◌, ◌++◌, Option, none,
  some, leb, ◌==◌, if◌then◌else◌, Bytes, ◌≡◌, ◌≢◌, ◌↔◌, refl, arith, Bool-cases, inl, inr,
}

-- The bytes of a text of ASCII characters.
abbrev pub codes : String → Bytes
codes String.[] = []
codes (String.◌∷◌ c s) = code c ∷ codes s

abbrev pub in_range : ℕ → ℕ → ℕ → Bool
in_range lo hi c = leb lo c && leb c hi

abbrev pub isupper : ℕ → Bool
isupper c = in_range b'A' b'Z' c

abbrev pub islower : ℕ → Bool
islower c = in_range b'a' b'z' c

abbrev pub isdigit : ℕ → Bool
isdigit c = in_range b'0' b'9' c

abbrev pub isalpha : ℕ → Bool
isalpha c = isupper c || islower c

abbrev pub isalnum : ℕ → Bool
isalnum c = isalpha c || isdigit c

unfoldable pub tolower : ℕ → ℕ
tolower c = if isupper c then c + 32 else c

unfoldable pub toupper : ℕ → ℕ
toupper c = if islower c then c - 32 else c

-- strcmp(a, b) == 0
unfoldable pub str_eq : Bytes → Bytes → Bool
str_eq [] [] = true
str_eq (x ∷ a) (y ∷ b) = x == y && str_eq a b
str_eq _ _ = false

-- strcasecmp(a, b) == 0
unfoldable pub str_case_eq : Bytes → Bytes → Bool
unfolding tolower
str_case_eq [] [] = true
str_case_eq (x ∷ a) (y ∷ b) = tolower x == tolower y && str_case_eq a b
str_case_eq _ _ = false

-- strncasecmp(s, prefix, strlen(prefix)) == 0, with what follows the prefix
unfoldable pub strip_case_prefix : Bytes → Bytes → Option Bytes
unfolding tolower
strip_case_prefix [] s = some s
strip_case_prefix (x ∷ p) [] = none
strip_case_prefix (x ∷ p) (c ∷ s) =
    let rest = strip_case_prefix p s in if tolower x == tolower c then rest else none

-- strchr: the text in front of the first `c`, and the text behind it
unfoldable pub split_at : ℕ → Bytes → Option (Bytes × Bytes)
split_at c [] = none
split_at c (x ∷ s) =
    if x == c
    then some ([], s)
    else elim (split_at c s) [ none ↦ none | some (a, b) ↦ some (x ∷ a, b) ]

pub str_eq_iff : (a b : Bytes) → (str_eq a b ≡ true) ↔ (a ≡ b)
unfolding str_eq
str_eq_iff [] [] = ground arith
str_eq_iff [] (y ∷ b) = ground arith
str_eq_iff (x ∷ a) [] = ground arith
str_eq_iff (x ∷ a) (y ∷ b) = ground (arith, str_eq_iff a b)

pub str_eq_refl : (a : Bytes) → str_eq a a ≡ true
str_eq_refl a = (str_eq_iff a a).1 refl

pub str_eq_ne : (a b : Bytes) → a ≢ b → str_eq a b ≡ false
str_eq_ne a b h = elim (Bool-cases (str_eq a b)) [
  | inl e ↦ absurd (h ((str_eq_iff a b).0 e))
  | inr e ↦ e
]

pub ne-str_eq : (a b : Bytes) → str_eq a b ≡ false → a ≢ b
ne-str_eq a b f h = let t = (str_eq_iff a b).1 h in ground (arith, t, f)

-- `%d` for a number that is not negative. Fuel above the number is enough, one round for each digit.
unfoldable pub digits : ℕ → ℕ → Bytes
digits zero n = []
digits (suc fuel) n = elim (leb 10 n) [
  | true ↦ digits fuel (n / 10) ++ (b'0' + n % 10) ∷ []
  | false ↦ (b'0' + n) ∷ []
]

unfoldable pub decimal_text : ℕ → Bytes
unfolding digits
decimal_text n = digits (suc n) n

abbrev pub isspace : ℕ → Bool
isspace c = c == b' ' || in_range 9 13 c

-- Past the leading space, and without the space at the end.
unfoldable pub skip_spaces : Bytes → Bytes
skip_spaces [] = []
skip_spaces (c ∷ s) = let rest = skip_spaces s in if isspace c then rest else c ∷ s

abbrev pub keep_before : ℕ → Bytes → Bytes
keep_before c [] = if isspace c then [] else c ∷ []
keep_before c (d ∷ s) = c ∷ d ∷ s

unfoldable pub strip_end : Bytes → Bytes
strip_end [] = []
strip_end (c ∷ s) = keep_before c (strip_end s)

-- One `%15s` of sscanf: what is read and what is left, `none` where nothing is.
unfoldable pub word_from : ℕ → Bytes → Bytes × Bytes
word_from zero s = ([], s)
word_from (suc n) [] = ([], [])
word_from (suc n) (c ∷ s) =
    let (w, rest) = word_from n s in if isspace c then ([], c ∷ s) else (c ∷ w, rest)

abbrev pub some_word : Bytes × Bytes → Option (Bytes × Bytes)
some_word ([], rest) = none
some_word (c ∷ w, rest) = some (c ∷ w, rest)

unfoldable pub scan_word : ℕ → Bytes → Option (Bytes × Bytes)
unfolding word_from skip_spaces
scan_word n s = some_word (word_from n (skip_spaces s))
