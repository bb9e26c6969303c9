-- ===== src/Proto/Glob/Matches.antt =====
-- The language of a mask: `*` for any run of bytes, `?` for any one byte, and every other byte for
-- itself in either case. Then what the loop of `irc_glob_match` needs to know of it.
use sekur_ircd.Base.{
  ℕ, ◌≤◌, ◌≡◌, ◌≢◌, refl, sym, ap, ◌∙◌, true, [], ◌∷◌, ◌++◌, Bytes, length, length-append, All,
  arith, append_assoc,
}
use sekur_ircd.Cstring.{tolower}
use sekur_ircd.Proto.Glob.{glob_char, only_stars}

pub data Matches : Bytes → Bytes → Type 0 where
  done : Matches [] []
  one :
      {x c : ℕ} {p t : Bytes}
      → x ≢ b'*'
      → glob_char x c ≡ true
      → Matches p t
      → Matches (x ∷ p) (c ∷ t)
  skip : {x : ℕ} {p t : Bytes} → x ≡ b'*' → Matches p t → Matches (x ∷ p) t
  take : {x c : ℕ} {p t : Bytes} → x ≡ b'*' → Matches (x ∷ p) t → Matches (x ∷ p) (c ∷ t)

-- The text of a glob holds no literal star.
abbrev pub StarFree : Bytes → Type 0
StarFree = All (λ c. c ≢ b'*')

pub glob_char-ne : (x c : ℕ) → c ≢ b'*' → glob_char x c ≡ true → x ≢ b'*'
unfolding glob_char tolower
glob_char-ne x c h e = ground arith

pub Matches-tail : {x c : ℕ} {p t : Bytes} → x ≢ b'*' → Matches (x ∷ p) (c ∷ t) → Matches p t
Matches-tail h (one _ _ m) = m
Matches-tail h (skip e m) = absurd (h e)
Matches-tail h (take e m) = absurd (h e)

pub Matches-head :
    {x c : ℕ} {p t : Bytes} → x ≢ b'*' → Matches (x ∷ p) (c ∷ t) → glob_char x c ≡ true
Matches-head h (one _ e m) = e
Matches-head h (skip e m) = absurd (h e)
Matches-head h (take e m) = absurd (h e)

pub Matches_nil_cons : {c : ℕ} {t : Bytes} → ¬ Matches [] (c ∷ t)
Matches_nil_cons m = elim m [ ]

-- A star takes any run of bytes.
pub Matches-absorb :
    {x : ℕ} {p : Bytes} (a t : Bytes) → x ≡ b'*' → Matches (x ∷ p) t → Matches (x ∷ p) (a ++ t)
Matches-absorb [] t e m = m
Matches-absorb (c ∷ a) t e m = take e (Matches-absorb a t e m)

-- What a star in front took: a run `a`, and the rest matches behind the star.
pub record Split (p t : Bytes) : Type 0 where
  pub run : Bytes
  pub rest : Bytes
  pub splits : t ≡ run ++ rest
  pub matched : Matches p rest

pub Matches-Split : {x : ℕ} {p t : Bytes} → x ≡ b'*' → Matches (x ∷ p) t → Split p t
Matches-Split e (one n _ m) = absurd (n e)
Matches-Split e (skip {t = t} _ m) = record { run = []; rest = t; splits = refl; matched = m }
Matches-Split e (take {c = c} _ m) =
    let s = Matches-Split e m in
    record { run = c ∷ s.run; rest = s.rest; splits = ap (◌∷◌ c) s.splits; matched = s.matched }

-- A star-free piece takes as many bytes as it has.
pub record Long (n : ℕ) (p t : Bytes) : Type 0 where
  pub run : Bytes
  pub rest : Bytes
  pub splits : t ≡ run ++ rest
  pub matched : Matches p rest
  pub long : n ≤ length run

piece-Long : (q p : Bytes) {t : Bytes} → StarFree q → Matches (q ++ p) t → Long (length q) p t
piece-Long [] p {t} f m = record {
  run = [];
  rest = t;
  splits = refl;
  matched = m;
  long = omega arith;
}
piece-Long (x ∷ q) p f (one {c = c} _ _ m) =
    let l = piece-Long q p f.1 m in
    record {
      run = c ∷ l.run;
      rest = l.rest;
      splits = ap (◌∷◌ c) l.splits;
      matched = l.matched;
      long = omega (arith, l.long);
    }
piece-Long (x ∷ q) p f (skip e m) = absurd (f.0 e)
piece-Long (x ∷ q) p f (take e m) = absurd (f.0 e)

-- So a star and a star-free piece take at least as many.
pub star-Long :
    {x : ℕ} (q p : Bytes) {t : Bytes}
    → x ≡ b'*'
    → StarFree q
    → Matches (x ∷ (q ++ p)) t
    → Long (length q) p t
star-Long q p e f m =
    let s = Matches-Split e m in
    let l = piece-Long q p f s.matched in
    record {
      run = s.run ++ l.run;
      rest = l.rest;
      splits = s.splits ∙ ap (◌++◌ s.run) l.splits ∙ sym (append_assoc s.run l.run l.rest);
      matched = l.matched;
      long = omega (arith, l.long, length-append s.run l.run);
    }

pub only_stars-Matches : (p : Bytes) → only_stars p ≡ true → Matches p []
unfolding only_stars
only_stars-Matches [] h = done
only_stars-Matches (x ∷ p) h = skip (ground arith) (only_stars-Matches p (ground arith))

pub Matches-only_stars : {p : Bytes} → Matches p [] → only_stars p ≡ true
unfolding only_stars
Matches-only_stars done = refl
Matches-only_stars (skip {x = x} {p = p} e m) = ground (arith, Matches-only_stars m)
