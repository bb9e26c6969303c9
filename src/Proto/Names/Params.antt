-- ===== src/Proto/Names/Params.antt =====
-- A validated name goes through `irc_build` unchanged, and splits no mask.
use sekur_ircd.Base.{
  ℕ, ◌+◌, ◌-◌, ◌<◌, ◌≡◌, ◌≢◌, refl, ap, ◌∙◌, inl, inr, Bool, true, ◌&&◌, [], ◌∷◌, ltb, leb, ◌==◌,
  Bytes, length, All, arith, map, lt→ltb, ne→==, both, not, ◌||◌, ◌⊎◌,
}
use sekur_ircd.Proto.Strings.{escape_from, irc_escape}
use sekur_ircd.Proto.Build.{space_to_underscore, defang, middle}
use sekur_ircd.Proto.Names.{
  every, nick_first, nick_byte, irc_valid_nick, user_first, user_byte, irc_valid_user, channel_byte,
  irc_valid_channel, host_byte, irc_valid_host,
}

-- A byte that ends neither a parameter, a list of targets, nor a part of `nick!user@host`.
abbrev pub Plain : ℕ → Type 0
Plain c =
    (c ≢ b' ')
    × (c ≢ b'\r')
    × (c ≢ b'\n')
    × (c ≢ b',')
    × (c ≢ b'!')
    × (c ≢ b'@')
    × (c ≢ b'*')
    × (c ≢ b'?')

-- What a validated name is worth on the wire.
abbrev pub Token : Bytes → Type 0
Token s = All Plain s × (middle s ≡ s)

escape_from-same :
    (outsz o : ℕ) (s : Bytes) → o + length s < outsz → All Plain s → escape_from outsz o s ≡ s
unfolding escape_from
escape_from-same outsz o [] h p = refl
escape_from-same outsz o (c ∷ s) h (p, ps) =
    rw (lt→ltb (o + 1) outsz (omega arith), ne→== c b'\r' p.1, ne→== c b'\n' p.2)
      (ap (◌∷◌ c) (escape_from-same outsz (o + 1) s (omega arith) ps))

spaces-same : (s : Bytes) → All Plain s → map space_to_underscore s ≡ s
spaces-same [] p = refl
spaces-same (c ∷ s) (p, ps) = rw (ne→== c b' ' p.0) (ap (◌∷◌ c) (spaces-same s ps))

middle-same :
    (c : ℕ) (s : Bytes)
    → length (c ∷ s) < 512
    → c ≢ b':'
    → All Plain (c ∷ s)
    → middle (c ∷ s) ≡ c ∷ s
unfolding middle irc_escape defang
middle-same c s h n p =
    ap defang (escape_from-same 512 0 (c ∷ s) (omega arith) p)
    ∙ rw (ne→== c b':' n) (spaces-same (c ∷ s) p)

every-All :
    (test : ℕ → Bool)
    → ((c : ℕ) → test c ≡ true → Plain c)
    → (s : Bytes) → every test s ≡ true
    → All Plain s
unfolding every
every-All test plain [] h = tt
every-All test plain (c ∷ s) h =
    let (t, rest) = both (test c) (every test s) h in (plain c t, every-All test plain s rest)

nick_byte-Plain : (c : ℕ) → nick_byte c ≡ true → Plain c
nick_byte-Plain c h = ground (arith, h)

nick_first-Plain : (c : ℕ) → nick_first c ≡ true → Plain c
nick_first-Plain c h = ground (arith, h)

channel_byte-Plain : (c : ℕ) → channel_byte c ≡ true → Plain c
channel_byte-Plain c h = ground (arith, h)

-- A name of at most 511 bytes, with its first byte.
token :
    (c : ℕ) (s : Bytes) → length (c ∷ s) < 512 → c ≢ b':' → Plain c → All Plain s → Token (c ∷ s)
token c s short n p ps = ((p, ps), middle-same c s short n (p, ps))

nick-Token :
    (nick : Bytes) (max_len : ℕ) → max_len < 512 → irc_valid_nick nick max_len ≡ true → Token nick
unfolding irc_valid_nick
nick-Token [] max_len l h = absurd (ground (arith, h))
nick-Token (c ∷ s) max_len l h =
    let (t, e) = both (leb (length (c ∷ s)) max_len && nick_first c) (every nick_byte s) h in
    let (short, f) = both (leb (length (c ∷ s)) max_len) (nick_first c) t in
    token c s (ground (arith, short)) (ground (arith, f)) (nick_first-Plain c f)
      (every-All nick_byte nick_byte-Plain s e)

user_first-Plain : (c : ℕ) → user_first c ≡ true → Plain c
user_first-Plain c h = ground (arith, h)

user_byte-Plain : (c : ℕ) → user_byte c ≡ true → Plain c
user_byte-Plain c h = ground (arith, h)

user-Token :
    (user : Bytes) (max_len : ℕ) → max_len < 512 → irc_valid_user user max_len ≡ true → Token user
unfolding irc_valid_user
user-Token [] max_len l h = absurd (ground (arith, h))
user-Token (c ∷ s) max_len l h =
    let (t, e) = both (leb (length (c ∷ s)) max_len && user_first c) (every user_byte s) h in
    let (short, f) = both (leb (length (c ∷ s)) max_len) (user_first c) t in
    token c s (ground (arith, short)) (ground (arith, f)) (user_first-Plain c f)
      (every-All user_byte user_byte-Plain s e)

channel-Token :
    (chan : Bytes) (max_len : ℕ)
    → max_len < 512
    → irc_valid_channel chan max_len ≡ true
    → Token chan
unfolding irc_valid_channel
channel-Token [] max_len l h = absurd (ground (arith, h))
channel-Token (c ∷ s) max_len l h =
    let n = length (c ∷ s) in
    let sized = not (ltb n 2 || ltb 49 (n - 1)) in
    let (t, e) = both (leb n max_len && c == b'#' && sized) (every channel_byte s) h in
    let (u, fits) = both (leb n max_len && c == b'#') sized t in
    let (short, hash) = both (leb n max_len) (c == b'#') u in
    token c s (ground (arith, short)) (ground (arith, hash)) (ground (arith, hash))
      (every-All channel_byte channel_byte-Plain s e)

host_byte-Plain : (c : ℕ) → host_byte c ≡ true → Plain c
host_byte-Plain c h = ground (arith, h)

host-Token : (host : Bytes) → irc_valid_host host ≡ true → Token host
unfolding irc_valid_host
host-Token [] h = absurd (ground (arith, h))
host-Token (c ∷ s) h =
    let n = length (c ∷ s) in
    let (t, e) = both (not (ltb 253 n || c == b':')) (every host_byte (c ∷ s)) h in
    let ps = every-All host_byte host_byte-Plain (c ∷ s) e in
    token c s (ground (arith, t)) (ground (arith, t)) ps.0 ps.1

-- With a `max_len` below 512, a text that one of the validators admits, as a nick, a user, a channel
-- or a host, holds no space, CR, LF, comma, `!`, `@`, `*` or `?`, and `irc_build` writes it as a middle
-- parameter unchanged.
pub irc_valid-Token :
    (s : Bytes) (max_len : ℕ)
    → max_len < 512
    → (irc_valid_nick s max_len ≡ true)
      ⊎ (irc_valid_user s max_len ≡ true)
      ⊎ (irc_valid_channel s max_len ≡ true)
      ⊎ (irc_valid_host s ≡ true)
    → Token s
irc_valid-Token s max_len l (inl h) = nick-Token s max_len l h
irc_valid-Token s max_len l (inr (inl h)) = user-Token s max_len l h
irc_valid-Token s max_len l (inr (inr (inl h))) = channel-Token s max_len l h
irc_valid-Token s max_len l (inr (inr (inr h))) = host-Token s h
