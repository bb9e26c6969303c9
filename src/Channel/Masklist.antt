-- ===== src/Channel/Masklist.antt =====
-- src/channel.c: the lists of masks of a channel, `masklist_t`. The parallel arrays are one list, and
-- `allocated` says whether the pointers are not NULL.
pub mod Lookup
pub mod Sets
use sekur_ircd.Base.{
  ℕ, ◌+◌, ◌%◌, ◌^◌, Bool, true, false, not, ◌&&◌, ◌||◌, List, [], ◌∷◌, ◌++◌, Option, none, some,
  leb, ◌==◌, if◌then◌else◌, Bytes, length, take,
}
use sekur_ircd.Cstring.{codes, isdigit, str_case_eq, strip_case_prefix}

-- CHAN_MAX_MASKLIST
abbrev pub chan_max_masklist : ℕ
chan_max_masklist = 100

pub record Mask : Type 0 where
  pub mask : Bytes
  pub set_at : ℕ
  pub set_by : Bytes

pub record Masklist : Type 0 where
  pub allocated : Bool
  pub masks : List Mask
  pub gen : ℕ
  pub dynamic : Bool

-- `<mins>:` and what follows it, where at least one digit stands in front of the colon.
unfoldable pub behind_minutes : Bool → Bytes → Option Bytes
behind_minutes seen [] = none
behind_minutes seen (c ∷ s) =
    let more = behind_minutes true s in
    if isdigit c then more else if seen && c == b':' then some s else none

unfoldable pub mask_body : Bytes → Bytes
unfolding strip_case_prefix behind_minutes
mask_body mask = elim (strip_case_prefix (codes "~t:") mask) [
  | none ↦ mask
  | some p ↦ elim (behind_minutes false p) [ none ↦ mask | some body ↦ body ]
]

-- `b[0] == '~' ? b + 1 : b`
unfoldable pub strip_tilde : Bytes → Bytes
strip_tilde [] = []
strip_tilde (c ∷ s) = if c == b'~' then s else c ∷ s

-- strncasecmp(s, prefix, strlen(prefix)) == 0
unfoldable pub has_prefix : Bytes → Bytes → Bool
unfolding strip_case_prefix
has_prefix prefix s = elim (strip_case_prefix prefix s) [ none ↦ false | some rest ↦ true ]

-- A `~j:` mask, whose verdict depends on other channels.
unfoldable pub is_dynamic : Bytes → Bool
unfolding mask_body strip_tilde has_prefix
is_dynamic mask = has_prefix (codes "j:") (strip_tilde (mask_body mask))

-- The loops over `strcasecmp(ml->masks[i], mask) == 0`.
unfoldable pub has_mask : List Mask → Bytes → Bool
unfolding str_case_eq
has_mask [] mask = false
has_mask (m ∷ ms) mask = str_case_eq m.mask mask || has_mask ms mask

unfoldable pub masklist_free : Masklist → Masklist
masklist_free ml = record ml { allocated = false; masks = [] }

-- `gen` is an `unsigned`.
unfoldable pub next_gen : ℕ → ℕ
next_gen gen = (gen + 1) % 2 ^ 32

-- The list, and whether the result is 0; `now` is the clock and `alloc_ok` says that no calloc fails.
unfoldable pub masklist_add : Masklist → Bytes → ℕ → Bool → Masklist × Bool
unfolding has_mask masklist_free next_gen is_dynamic
masklist_add ml mask now alloc_ok =
    if has_mask ml.masks mask
    then (ml, false)
    else if leb chan_max_masklist (length ml.masks)
    then (ml, false)
    else if not ml.allocated && not alloc_ok
    then (masklist_free ml, false)
    else (
      record {
        allocated = true;
        masks = ml.masks ++ record { mask = take 255 mask; set_at = now; set_by = [] } ∷ [];
        gen = next_gen ml.gen;
        dynamic = is_dynamic mask || ml.dynamic;
      },
      true,
    )

-- The first mask that is equal goes, and the later ones move down.
unfoldable pub delete_mask : List Mask → Bytes → List Mask
unfolding str_case_eq
delete_mask [] mask = []
delete_mask (m ∷ ms) mask = if str_case_eq m.mask mask then ms else m ∷ delete_mask ms mask

unfoldable pub is_none_left : List Mask → Bool
is_none_left [] = true
is_none_left (m ∷ ms) = false

unfoldable pub masklist_del : Masklist → Bytes → Masklist × Bool
unfolding has_mask delete_mask next_gen is_none_left
masklist_del ml mask =
    let left = delete_mask ml.masks mask in
    if has_mask ml.masks mask
    then (
      record {
        allocated = ml.allocated;
        masks = left;
        gen = next_gen ml.gen;
        dynamic = if is_none_left left then false else ml.dynamic;
      },
      true,
    )
    else (ml, false)
