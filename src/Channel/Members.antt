-- ===== src/Channel/Members.antt =====
-- src/channel.c: ranks and who sees whom, `channel_member_visible`, `channel_rank_prefix`,
-- `channel_rank_level` and `channel_mask_expired`.
use Prim.Native.Nat.{bit_and}
use sekur_ircd.Base.{
  ℕ, zero, suc, ◌+◌, ◌*◌, ◌<◌, ◌≡◌, refl, sym, subst, inl, inr, Bool, true, false, not, ◌&&◌, ◌||◌,
  List, [], ◌∷◌, Option, none, some, leb, ◌==◌, if◌then◌else◌, Bytes, arith, Bool-cases, both,
  ==→eq,
}
use sekur_ircd.Cstring.{codes, strip_case_prefix}
use sekur_ircd.Proto.Address.{decimal}
use sekur_ircd.Channel.Masklist.{Mask, behind_minutes}

-- RANK_VOICE 1, RANK_HALFOP 2, RANK_OP 4, RANK_ADMIN 8, RANK_OWNER 16
abbrev pub has_rank : ℕ → ℕ → Bool
has_rank rank bits = not (bit_and rank bits == 0)

-- `member_t` as far as it is looked at here; `id` is its pointer.
pub record Member : Type 0 where
  pub id : ℕ
  pub rank : ℕ
  pub hidden : Bool

-- A viewer of NULL is `none`; `auditorium` is CMODE_AUDITORIUM.
unfoldable pub channel_member_visible : Bool → Member → Option Member → Bool
channel_member_visible auditorium subject none =
    if subject.hidden then false else if auditorium then has_rank subject.rank 7 else true
channel_member_visible auditorium subject (some viewer) =
    if subject.id == viewer.id
    then true
    else if subject.hidden
    then false
    else if auditorium
    then has_rank subject.rank 7 || has_rank viewer.rank 6
    else true

abbrev pub rank_prefixes : List (ℕ × ℕ)
rank_prefixes = (16, b'~') ∷ (8, b'&') ∷ (4, b'@') ∷ (2, b'%') ∷ (1, b'+') ∷ []

-- The loop over the prefixes, which ends at the first unless `multi` asks for all.
unfoldable pub prefixes_from : Bool → ℕ → List (ℕ × ℕ) → Bytes
prefixes_from multi rank [] = []
prefixes_from multi rank ((bit, c) ∷ ps) =
    let rest = prefixes_from multi rank ps in
    if has_rank rank bit then c ∷ (if multi then rest else []) else rest

unfoldable pub channel_rank_prefix : ℕ → Bool → Bytes
unfolding prefixes_from
channel_rank_prefix rank multi = prefixes_from multi rank rank_prefixes

unfoldable pub channel_rank_level : ℕ → ℕ
channel_rank_level rank =
    if has_rank rank 16
    then 5
    else if has_rank rank 8
    then 4
    else if has_rank rank 4
    then 3
    else if has_rank rank 2
    then 2
    else if has_rank rank 1
    then 1
    else 0

-- The minutes of a `~t:<mins>:<mask>` entry.
unfoldable pub timed_minutes : Bytes → Option ℕ
unfolding strip_case_prefix behind_minutes decimal
timed_minutes mask = elim (strip_case_prefix (codes "~t:") mask) [
  | none ↦ none
  | some p ↦ elim (behind_minutes false p) [ none ↦ none | some body ↦ some (decimal 0 p).0 ]
]

-- The entry's own time; the arrays of a list that has entries are allocated.
unfoldable pub channel_mask_expired : Mask → ℕ → Bool
unfolding timed_minutes
channel_mask_expired m now = elim (timed_minutes m.mask) [
  | none ↦ false
  | some minutes ↦ leb (m.set_at + minutes * 60) now
]

-- The level that a prefix stands for.
abbrev pub prefix_level : Bytes → ℕ
prefix_level [] = 0
prefix_level (c ∷ s) =
    if c == b'~'
    then 5
    else if c == b'&'
    then 4
    else if c == b'@'
    then 3
    else if c == b'%'
    then 2
    else 1

-- The single prefix and the first of all are those of the level.
agree : ℕ → Bool
unfolding channel_rank_prefix channel_rank_level
agree rank =
    prefix_level (channel_rank_prefix rank false) == channel_rank_level rank
    && prefix_level (channel_rank_prefix rank true) == channel_rank_level rank

all_below : ℕ → Bool
all_below zero = true
all_below (suc n) = agree n && all_below n

ranks_agree : all_below 32 ≡ true
unfolding all_below agree
ranks_agree = refl

below-agree : (n rank : ℕ) → all_below n ≡ true → rank < n → agree rank ≡ true
unfolding all_below
below-agree zero rank h l = absurd (omega arith)
below-agree (suc n) rank h l =
    let (here, rest) = both (agree n) (all_below n) h in
    elim (Bool-cases (rank == n)) [
      | inl e ↦ subst (λ k. agree k ≡ true) (sym (==→eq rank n e)) here
      | inr e ↦ below-agree n rank rest (ground (arith, e, l))
    ]

-- For every combination of ranks, the prefix that is shown alone and the first of those shown
-- together are those of the rank's level.
pub channel_rank_prefix-level :
    (rank : ℕ)
    → rank < 32
    → (prefix_level (channel_rank_prefix rank false) ≡ channel_rank_level rank)
      × (prefix_level (channel_rank_prefix rank true) ≡ channel_rank_level rank)
unfolding agree
channel_rank_prefix-level rank l =
    let level = channel_rank_level rank in
    let (a, b) =
      both (prefix_level (channel_rank_prefix rank false) == level)
        (prefix_level (channel_rank_prefix rank true) == level)
        (below-agree 32 rank ranks_agree l) in
    (==→eq _ _ a, ==→eq _ _ b)
