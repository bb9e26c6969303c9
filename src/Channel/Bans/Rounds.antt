-- ===== src/Channel/Bans/Rounds.antt =====
-- `channel_mask_hit` returns: each nested `f:` mask is shorter than the mask around it, and the globs
-- return on texts without a literal star.
use sekur_ircd.Base.{
  ℕ, zero, suc, ◌≤◌, ◌<◌, ◌≡◌, ◌≢◌, refl, subst, inl, inr, Bool, true, false, not, ◌&&◌, ◌||◌, [],
  ◌∷◌, ◌++◌, Option, none, some, arith, ◌==◌, Bytes, length, take, All-append, Bool-cases,
  Option-cases,
}
use sekur_ircd.Cstring.{codes, tolower, str_case_eq, strip_case_prefix, split_at}
use sekur_ircd.Proto.Glob.{irc_glob_match}
use sekur_ircd.Proto.Glob.Matches.{StarFree}
use sekur_ircd.Proto.Glob.Correct.{irc_glob_match-iff-Matches}
use sekur_ircd.Proto.Mask.{has_byte, irc_ident_for, full_mask, irc_mask_match}
use sekur_ircd.Channel.Masklist.{behind_minutes, mask_body, strip_tilde}
use sekur_ircd.Channel.Bans.{
  Extra, Identity, strip_certfp, hit_account, hit_realname, hit_certfp, hit_member, is_secure,
  hit_plain, mask_hit_from, channel_mask_hit,
}

length-strip : (p s r : Bytes) → strip_case_prefix p s ≡ some r → length r ≤ length s
unfolding strip_case_prefix
length-strip [] s r e = ground (arith, e)
length-strip (x ∷ p) [] r e = absurd (ground (arith, e))
length-strip (x ∷ p) (c ∷ s) r e = elim (Bool-cases (tolower x == tolower c)) [
  | inl t ↦ let h = length-strip p s r in ground (arith, t, e, h)
  | inr f ↦ absurd (ground (arith, f, e))
]

length-minutes : (seen : Bool) (s r : Bytes) → behind_minutes seen s ≡ some r → length r ≤ length s
unfolding behind_minutes
length-minutes seen [] r e = absurd (ground (arith, e))
length-minutes seen (c ∷ s) r e = ground (arith, e, length-minutes true s r)

length-body : (m : Bytes) → length (mask_body m) ≤ length m
unfolding mask_body
length-body m = elim (Option-cases (strip_case_prefix (codes "~t:") m)) [
  | inl e ↦ rw (e, mask_body) (omega arith)
  | inr (p, e) ↦ elim (Option-cases (behind_minutes false p)) [
    | inl f ↦ rw (e, f, mask_body) (omega arith)
    | inr (b, f) ↦
        rw (e, f, mask_body)
          (omega (arith, length-strip (codes "~t:") m p e, length-minutes false p b f))
  ]
]

length-tilde : (s : Bytes) → length (strip_tilde s) ≤ length s
unfolding strip_tilde
length-tilde [] = omega arith
length-tilde (c ∷ s) = ground arith

-- What stands behind a split is shorter than `n`.
abbrev Behind : ℕ → Option (Bytes × Bytes) → Type 0
Behind n none = Unit
Behind n (some (a, b)) = length b < n

split-Behind : (c : ℕ) (s : Bytes) → Behind (length s) (split_at c s)
unfolding split_at
split-Behind c [] = tt
split-Behind c (x ∷ s) = elim (Bool-cases (x == c)) [
  | inl t ↦ rw t (omega arith)
  | inr f ↦ elim (Option-cases (split_at c s)) [
    | inl e ↦ rw (f, e) tt
    | inr ((a, b), e) ↦
        let l : length b < length s = subst (Behind (length s)) e (split-Behind c s) in
        rw (f, e) (omega (arith, l))
  ]
]

-- The run returns.
abbrev pub Answers : Option Bool → Type 0
Answers r = (b : Bool) × (r ≡ some b)

-- The texts that the matchers look at, but the host, hold no literal star.
abbrev pub PlainExtra : Option Extra → Type 0
PlainExtra none = Unit
PlainExtra (some e) = StarFree e.realname

abbrev pub PlainUser : Option Extra → Identity → Type 0
PlainUser x id = PlainExtra x × StarFree id.nick × StarFree id.user × StarFree id.account

glob-Answers : (p t : Bytes) → StarFree t → Answers (irc_glob_match p t)
glob-Answers p t f = let r = irc_glob_match-iff-Matches p t f in (r.0, r.1)

StarFree-take : (n : ℕ) (s : Bytes) → StarFree s → StarFree (take n s)
StarFree-take zero s f = tt
StarFree-take (suc n) [] f = tt
StarFree-take (suc n) (c ∷ s) (h, f) = (h, StarFree-take n s f)

StarFree-ident :
    (user : Bytes) (confirmed : Bool) → StarFree user → StarFree (irc_ident_for 128 user confirmed)
unfolding irc_ident_for
StarFree-ident [] confirmed f = tt
StarFree-ident (c ∷ s) confirmed f = elim (Bool-cases (confirmed || c == b'~')) [
  | inl t ↦ rw t (StarFree-take 127 (c ∷ s) f)
  | inr t ↦ rw t (StarFree-take 127 (b'~' ∷ c ∷ s) ((λ e. absurd (omega arith)), f))
]

StarFree-full_mask :
    (nick user host : Bytes) (confirmed : Bool)
    → StarFree nick
    → StarFree user
    → StarFree host
    → StarFree (full_mask nick user host confirmed)
unfolding full_mask
StarFree-full_mask nick user host confirmed f g h =
    let ident = irc_ident_for 128 user confirmed in
    let front =
      All-append (λ c. c ≢ b'*') nick (b'!' ∷ ident) f
        ((λ e. absurd (omega arith)), StarFree-ident user confirmed g) in
    StarFree-take 450 (nick ++ (b'!' ∷ ident) ++ (b'@' ∷ host)) (
      All-append (λ c. c ≢ b'*') (nick ++ b'!' ∷ ident) (b'@' ∷ host) front
        ((λ e. absurd (omega arith)), h))

mask_match-Answers :
    (id : Identity) (host mask : Bytes)
    → StarFree id.nick
    → StarFree id.user
    → StarFree host
    → Answers (irc_mask_match id.nick id.user host mask id.ident_confirmed)
unfolding irc_mask_match
mask_match-Answers id host mask f g h =
    elim (Bool-cases (not (has_byte b'!' mask) && not (has_byte b'@' mask))) [
      | inl t ↦ rw t (glob-Answers mask id.nick f)
      | inr t ↦ rw t (
          glob-Answers mask (full_mask id.nick id.user host id.ident_confirmed)
            (StarFree-full_mask id.nick id.user host id.ident_confirmed f g h))
    ]

account-Answers : (mask account : Bytes) → StarFree account → Answers (hit_account mask account)
unfolding hit_account
account-Answers mask [] f = (false, refl)
account-Answers mask (c ∷ s) f = glob-Answers mask (c ∷ s) f

realname-Answers : (x : Option Extra) (mask : Bytes) → PlainExtra x → Answers (hit_realname x mask)
unfolding hit_realname
realname-Answers none mask f = (false, refl)
realname-Answers (some x) mask f = glob-Answers mask x.realname f

hit_plain-Answers :
    (x : Option Extra) (id : Identity) (host mask : Bytes)
    → PlainUser x id
    → StarFree host
    → Answers (hit_plain x id host mask)
unfolding hit_plain
hit_plain-Answers x id host mask (e, f, g, k) h =
    elim (Option-cases (strip_case_prefix (codes "a:") mask)) [
      | inr (m, a) ↦ rw (a, hit_plain) (account-Answers m id.account k)
      | inl a ↦ elim (Option-cases (strip_case_prefix (codes "r:") mask)) [
        | inr (m, r) ↦ rw (a, r, hit_plain) (realname-Answers x m e)
        | inl r ↦ elim (Bool-cases (str_case_eq mask (codes "z"))) [
          | inl z ↦ rw (a, r, z, hit_plain) (is_secure x, refl)
          | inr z ↦ elim (Option-cases (strip_certfp mask)) [
            | inr (m, c) ↦ rw (a, r, z, c, hit_plain) (hit_certfp x m, refl)
            | inl c ↦ elim (Option-cases (strip_case_prefix (codes "j:") mask)) [
              | inr (m, j) ↦ rw (a, r, z, c, j, hit_plain) (hit_member x m, refl)
              | inl j ↦ rw (a, r, z, c, j, hit_plain) (mask_match-Answers id host mask f g h)
            ]
          ]
        ]
      ]
    ]

mask_hit-Answers :
    (fuel : ℕ) (x : Option Extra) (id : Identity) (host mask : Bytes)
    → PlainUser x id
    → StarFree host
    → length mask < fuel
    → Answers (mask_hit_from fuel x id host mask)
unfolding mask_hit_from
mask_hit-Answers zero x id host mask f h l = absurd (omega arith)
mask_hit-Answers (suc fuel) x id host mask f h l =
    let bare = strip_tilde (mask_body mask) in
    elim (Option-cases (strip_case_prefix (codes "f:") bare)) [
      | inl e ↦ rw (e, mask_hit_from) (hit_plain-Answers x id host bare f h)
      | inr (m, e) ↦ elim (Option-cases (split_at b':' m)) [
        | inl s ↦ rw (e, s, mask_hit_from) (false, refl)
        | inr ((chan, inner), s) ↦
            let behind : length inner < length m =
              subst (Behind (length m)) s (split-Behind b':' m) in
            rw (e, s, mask_hit_from)
              (mask_hit-Answers fuel x id host inner f h (
                omega (
                  arith,
                  behind,
                  length-strip (codes "f:") bare m e,
                  length-tilde (mask_body mask),
                  length-body mask,
                )))
      ]
    ]

-- For a user whose nick, user name, account and realname, and a host, that hold no literal `*`,
-- `channel_mask_hit` returns, whatever the mask: the rounds given suffice for every nesting of `f:`
-- masks.
pub channel_mask_hit-Answers :
    (x : Option Extra) (id : Identity) (host mask : Bytes)
    → PlainUser x id
    → StarFree host
    → Answers (channel_mask_hit x id host mask)
unfolding channel_mask_hit
channel_mask_hit-Answers x id host mask f h =
    mask_hit-Answers (suc (length mask)) x id host mask f h (omega arith)
