-- ===== src/Proto/Glob/Correct.antt =====
-- `irc_glob_match` decides `Matches` on a text without a literal star, within its fuel.
use sekur_ircd.Base.{
  ℕ, zero, suc, ◌+◌, ◌<◌, ◌≡◌, ◌↔◌, ◌≢◌, refl, ◌⊎◌, inl, inr, Bool, true, false, Option, none, some,
  [], ◌∷◌, Bytes, length, arith, ◌==◌, Bool-cases, if◌then◌else◌, ==→eq, ==→ne,
}
use sekur_ircd.Proto.Glob.{glob_char, only_stars, glob_loop, glob_fuel, irc_glob_match}
use sekur_ircd.Proto.Glob.Matches.{
  Matches, done, skip, take, done, one, skip, take, StarFree, glob_char-ne, Matches-tail,
  Matches-head, Matches_nil_cons, only_stars-Matches, Matches-only_stars,
}
use sekur_ircd.Proto.Glob.Trail.{
  Star, Later, Pending, Decides, Decides-iff, rank, Fits, Fits-advance, Fits-size, rank-advance,
  rank-retry, rank_open, Pending-advance, Later-nil, Later_open, star_now, star_back, retry-Decides,
  Trail-retry, Trail-open, no_end,
}

-- At the end of the text.
end-Decides :
    (p : Bytes) (star : Star)
    → Pending p [] star
    → Decides (some (only_stars p)) (Matches p [] ⊎ Later star)
end-Decides p star w = record {
  answer = only_stars p;
  returns = refl;
  sound = λ e. inl (only_stars-Matches p e);
  complete = back star w;
}
  where
    back : (star : Star) → Pending p [] star → Matches p [] ⊎ Later star → only_stars p ≡ true
    back star w (inl m) = Matches-only_stars m
    back none w (inr l) = absurd l
    back (some (sp, st)) w (inr l) = absurd (Later-nil p sp st w l)

none-Decides : {p t : Bytes} → ¬ Matches p t → Decides (some false) (Matches p t ⊎ Later none)
none-Decides {p} {t} h = record { answer = false; returns = refl; sound = λ e. cc; complete = back }
  where
    back : Matches p t ⊎ ⊥ → false ≡ true
    back (inl m) = absurd (h m)
    back (inr l) = absurd l

advance-Decides :
    (r : Option Bool) (x c : ℕ) (p t : Bytes) (star : Star)
    → x ≢ b'*'
    → glob_char x c ≡ true
    → Decides r (Matches p t ⊎ Later star)
    → Decides r (Matches (x ∷ p) (c ∷ t) ⊎ Later star)
advance-Decides r x c p t star n e = Decides-iff there back
  where
    there : Matches p t ⊎ Later star → Matches (x ∷ p) (c ∷ t) ⊎ Later star
    there (inl m) = inl (one n e m)
    there (inr l) = inr l

    back : Matches (x ∷ p) (c ∷ t) ⊎ Later star → Matches p t ⊎ Later star
    back (inl m) = inl (Matches-tail n m)
    back (inr l) = inr l

open-Decides :
    (r : Option Bool) (x c : ℕ) (p t : Bytes) (star : Star)
    → x ≡ b'*'
    → Pending (x ∷ p) (c ∷ t) star
    → Decides r (Matches p (c ∷ t) ⊎ Matches (b'*' ∷ p) t)
    → Decides r (Matches (x ∷ p) (c ∷ t) ⊎ Later star)
open-Decides r x c p t star e w = Decides-iff (λ g. inl (star_back x p c t e g)) back
  where
    back : Matches (x ∷ p) (c ∷ t) ⊎ Later star → Matches p (c ∷ t) ⊎ Matches (b'*' ∷ p) t
    back (inl m) = star_now x p c t e m
    back (inr l) = star_now x p c t e (Later_open x c p t star e w l)

mismatch : (x c : ℕ) (p t : Bytes) → x ≢ b'*' → glob_char x c ≡ false → ¬ Matches (x ∷ p) (c ∷ t)
mismatch x c p t n e m = let h = Matches-head n m in cc

module _ (rows cols : ℕ) where
  abbrev Ready : ℕ → Bytes → Bytes → Star → Type 0
  Ready f p t star =
      StarFree t × Pending p t star × Fits rows cols p t star × (rank rows cols p star < f)

  Ready-advance :
      (f x c : ℕ) (p t : Bytes) (star : Star)
      → x ≢ b'*'
      → Ready (suc f) (x ∷ p) (c ∷ t) star
      → Ready f p t star
  Ready-advance f x c p t star n h = (
    h.0.1,
    Pending-advance x c p t star n h.1,
    Fits-advance rows cols x c p t star h.2,
    omega (arith, h.3, rank-advance rows cols x p star),
  )

  Ready-open :
      (f x c : ℕ) (p t : Bytes) (star : Star)
      → Ready (suc f) (x ∷ p) (c ∷ t) star
      → Ready f p (c ∷ t) (some (p, c ∷ t))
  Ready-open f x c p t star h =
      let size = Fits-size rows cols (x ∷ p) (c ∷ t) star h.2 in
      (
        h.0,
        Trail-open p (c ∷ t) h.0,
        (omega (arith, size.0), size.1, omega (arith, size.0), size.1),
        omega (arith, h.3, rank_open rows cols x c p t star h.1 h.2),
      )

  Ready-retry :
      (f : ℕ) (p t sp st : Bytes) (d : ℕ)
      → Ready (suc f) p t (some (sp, d ∷ st))
      → Ready f sp st (some (sp, st))
  Ready-retry f p t sp st d h = (
    h.1.text_free.1,
    Trail-retry p t sp st d h.1,
    (h.2.2, omega (arith, h.2.3), h.2.2, omega (arith, h.2.3)),
    omega (arith, h.3, rank-retry rows cols p sp st d h.2.2),
  )

  cons-Decides :
      (f x c : ℕ) (p t : Bytes) (star : Star) (r : Option Bool)
      → Ready (suc f) (x ∷ p) (c ∷ t) star
      → (Ready f p t star → Decides (glob_loop f p t star) (Matches p t ⊎ Later star))
      → (Ready f p (c ∷ t) (some (p, c ∷ t))
          → Decides
              (glob_loop f p (c ∷ t) (some (p, c ∷ t)))
              (Matches p (c ∷ t) ⊎ Matches (b'*' ∷ p) t))
      → (¬ Matches (x ∷ p) (c ∷ t) → Decides r (Matches (x ∷ p) (c ∷ t) ⊎ Later star))
      → Decides
          (if glob_char x c
            then glob_loop f p t star
            else if x == b'*'
            then glob_loop f p (c ∷ t) (some (p, c ∷ t))
            else r)
          (Matches (x ∷ p) (c ∷ t) ⊎ Later star)
  cons-Decides f x c p t star r h adv opn ret = elim (Bool-cases (glob_char x c)) [
    | inl e ↦
        let n = glob_char-ne x c h.0.0 e in
        rw e (advance-Decides _ x c p t star n e (adv (Ready-advance f x c p t star n h)))
    | inr e ↦ elim (Bool-cases (x == b'*')) [
      | inl s ↦
          rw (e, s)
            (open-Decides _ x c p t star (==→eq x b'*' s) h.1 (opn (Ready-open f x c p t star h)))
      | inr s ↦ rw (e, s) (ret (mismatch x c p t (==→ne x b'*' s) e))
    ]
  ]

  loop-Decides :
      (f : ℕ) (p t : Bytes) (star : Star)
      → Ready f p t star
      → Decides (glob_loop f p t star) (Matches p t ⊎ Later star)
  unfolding glob_loop
  loop-Decides f p [] star h = end-Decides p star h.1
  loop-Decides zero p (c ∷ t) star h = absurd (omega arith)
  loop-Decides (suc f) [] (c ∷ t) none h = none-Decides Matches_nil_cons
  loop-Decides (suc f) [] (c ∷ t) (some (sp, [])) h = absurd (no_end [] t sp c h.1)
  loop-Decides (suc f) [] (c ∷ t) (some (sp, d ∷ st)) h =
      retry-Decides _ [] (c ∷ t) sp st d Matches_nil_cons
        (loop-Decides f sp st (some (sp, st)) (Ready-retry f [] (c ∷ t) sp st d h))
  loop-Decides (suc f) (x ∷ p) (c ∷ t) none h =
      cons-Decides f x c p t none _ h (loop-Decides f p t none)
        (loop-Decides f p (c ∷ t) (some (p, c ∷ t))) none-Decides
  loop-Decides (suc f) (x ∷ p) (c ∷ t) (some (sp, [])) h = absurd (no_end (x ∷ p) t sp c h.1)
  loop-Decides (suc f) (x ∷ p) (c ∷ t) (some (sp, d ∷ st)) h =
      cons-Decides f x c p t (some (sp, d ∷ st)) _ h (loop-Decides f p t (some (sp, d ∷ st)))
        (loop-Decides f p (c ∷ t) (some (p, c ∷ t)))
        λ no_match.
          retry-Decides _ (x ∷ p) (c ∷ t) sp st d no_match
            (loop-Decides f sp st (some (sp, st)) (Ready-retry f (x ∷ p) (c ∷ t) sp st d h))

drop_later : {A : Type 0} → A ⊎ ⊥ → A
drop_later (inl a) = a
drop_later (inr l) = absurd l

glob-Decides : (p t : Bytes) → StarFree t → Decides (irc_glob_match p t) (Matches p t)
unfolding irc_glob_match glob_fuel
glob-Decides p t f = Decides-iff drop_later inl (
    loop-Decides (length p + 1) (length t + 1) (glob_fuel p t) p t none
      (f, tt, (omega arith, omega arith), omega arith))

-- On a text without a literal `*`, `irc_glob_match` returns, and answers true exactly if the
-- pattern matches: `*` for any run of bytes, `?` for one byte, any other byte in either case.
pub irc_glob_match-iff-Matches :
    (p t : Bytes)
    → StarFree t
    → (b : Bool) × (irc_glob_match p t ≡ some b) × ((b ≡ true) ↔ Matches p t)
irc_glob_match-iff-Matches p t f =
    let d = glob-Decides p t f in (d.answer, d.returns, (d.sound, d.complete))

Matches-star : (t : Bytes) → Matches (b'*' ∷ []) t
Matches-star [] = skip refl done
Matches-star (c ∷ t) = take refl (Matches-star t)

-- A text that starts with a literal `*` takes the pattern's leading star for itself: the mask `*`
-- then matches no such text of two bytes or more, although `Matches` holds for every text.
pub irc_glob_match_literal_star :
    (c : ℕ) (t : Bytes)
    → (irc_glob_match (b'*' ∷ []) (b'*' ∷ c ∷ t) ≡ some false) × Matches (b'*' ∷ []) (b'*' ∷ c ∷ t)
unfolding irc_glob_match glob_fuel glob_loop glob_char
irc_glob_match_literal_star c t = (ground arith, Matches-star (b'*' ∷ c ∷ t))
