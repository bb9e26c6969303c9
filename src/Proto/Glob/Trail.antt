-- ===== src/Proto/Glob/Trail.antt =====
-- What the loop of `irc_glob_match` has read behind its open star, what a retry can still find, and
-- the rank that falls in every round.
use sekur_ircd.Base.{
  ℕ, suc, ◌+◌, ◌*◌, ◌≤◌, ◌<◌, ◌≡◌, ◌≢◌, refl, sym, ap, subst, ◌∙◌, ◌⊎◌, inl, inr, Bool, true,
  Option, none, some, [], ◌∷◌, ◌++◌, Bytes, length, length-append, All-append, arith, append_assoc,
}
use sekur_ircd.Proto.Glob.Matches.{
  Matches, one, skip, take, StarFree, Matches-absorb, star-Long, Long,
}

abbrev pub Star : Type 0
Star = Option (Bytes × Bytes)

-- What a retry from the open star can still find.
abbrev pub Later : Star → Type 0
Later none = ⊥
Later (some (sp, [])) = ⊥
Later (some (sp, d ∷ st)) = Matches (b'*' ∷ sp) st

-- `q` and `v` are what the loop read behind the open star, in pattern and text.
pub record Trail (p t sp st : Bytes) : Type 0 where
  pub q : Bytes
  pub v : Bytes
  pub pattern_is : sp ≡ q ++ p
  pub text_is : st ≡ v ++ t
  pub free : StarFree q
  pub even : length q ≡ length v
  pub text_free : StarFree st

abbrev pub Pending : Bytes → Bytes → Star → Type 0
Pending p t none = Unit
Pending p t (some (sp, st)) = Trail p t sp st

-- The loop's answer is right for what it still has to decide.
pub record Decides (r : Option Bool) (G : Type 0) : Type 0 where
  pub answer : Bool
  pub returns : r ≡ some answer
  pub sound : answer ≡ true → G
  pub complete : G → answer ≡ true

pub Decides-iff : {r : Option Bool} {G H : Type 0} → (G → H) → (H → G) → Decides r G → Decides r H
Decides-iff f g d = record {
  answer = d.answer;
  returns = d.returns;
  sound = λ e. f (d.sound e);
  complete = λ h. d.complete (g h);
}

-- The rank falls in every round: first the open star's pattern, then its text, then the pattern.
module _ (rows cols : ℕ) where
  abbrev pub rank : Bytes → Star → ℕ
  rank p none = rows * cols * rows + length p
  rank p (some (sp, st)) = (length sp * cols + length st) * rows + length p

  row_lt : (a b r s n : ℕ) → a < b → r < n → a * n + r < b * n + s
  row_lt a b r s n h k = grind arith

  -- Pattern and text fit the table of the rank.
  abbrev pub Fits : Bytes → Bytes → Star → Type 0
  Fits p t none = (length p < rows) × (length t < cols)
  Fits p t (some (sp, st)) =
      (length p < rows) × (length t < cols) × (length sp < rows) × (length st < cols)

  pub Fits-advance :
      (x c : ℕ) (p t : Bytes) (star : Star) → Fits (x ∷ p) (c ∷ t) star → Fits p t star
  Fits-advance x c p t none h = (omega arith, omega arith)
  Fits-advance x c p t (some (sp, st)) h = (omega arith, omega arith, omega arith, omega arith)

  pub Fits-size :
      (p t : Bytes) (star : Star) → Fits p t star → (length p < rows) × (length t < cols)
  Fits-size p t none h = h
  Fits-size p t (some (sp, st)) h = (h.0, h.1)

  pub rank-advance : (x : ℕ) (p : Bytes) (star : Star) → rank p star < rank (x ∷ p) star
  rank-advance x p none = omega arith
  rank-advance x p (some (sp, st)) = omega arith

  pub rank-retry :
      (p sp st : Bytes) (d : ℕ)
      → length sp < rows
      → rank sp (some (sp, st)) < rank p (some (sp, d ∷ st))
  rank-retry p sp st d h =
      row_lt (length sp * cols + length st) (length sp * cols + suc (length st)) (length sp)
        (length p) rows (omega arith) h

  rank_open_none :
      (x c : ℕ) (p t : Bytes)
      → Fits (x ∷ p) (c ∷ t) none
      → rank p (some (p, c ∷ t)) < rank (x ∷ p) none
  rank_open_none x c p t h =
      let inner = row_lt (length p) rows (suc (length t)) 0 cols (omega arith) h.1 in
      row_lt (length p * cols + suc (length t)) (rows * cols) (length p) (suc (length p)) rows
        (omega (arith, inner)) (omega arith)

  rank_open_some :
      (x c : ℕ) (p t sp st : Bytes)
      → Trail (x ∷ p) (c ∷ t) sp st
      → Fits (x ∷ p) (c ∷ t) (some (sp, st))
      → rank p (some (p, c ∷ t)) < rank (x ∷ p) (some (sp, st))
  rank_open_some x c p t sp st w h =
      let size = ap length w.pattern_is ∙ length-append w.q (x ∷ p) in
      let inner =
        row_lt (length p) (length sp) (suc (length t)) (length st) cols (omega (arith, size)) h.1 in
      row_lt (length p * cols + suc (length t)) (length sp * cols + length st) (length p)
        (suc (length p)) rows inner (omega arith)

  pub rank_open :
      (x c : ℕ) (p t : Bytes) (star : Star)
      → Pending (x ∷ p) (c ∷ t) star
      → Fits (x ∷ p) (c ∷ t) star
      → rank p (some (p, c ∷ t)) < rank (x ∷ p) star
  rank_open x c p t none w h = rank_open_none x c p t h
  rank_open x c p t (some (sp, st)) w h = rank_open_some x c p t sp st w h

pub Pending-advance :
    (x c : ℕ) (p t : Bytes) (star : Star)
    → x ≢ b'*'
    → Pending (x ∷ p) (c ∷ t) star
    → Pending p t star
Pending-advance x c p t none n w = tt
Pending-advance x c p t (some (sp, st)) n w = record {
  q = w.q ++ (x ∷ []);
  v = w.v ++ (c ∷ []);
  pattern_is = w.pattern_is ∙ sym (append_assoc w.q (x ∷ []) p);
  text_is = w.text_is ∙ sym (append_assoc w.v (c ∷ []) t);
  free = All-append (λ c. c ≢ b'*') w.q (x ∷ []) w.free (n, tt);
  even = omega (arith, w.even, length-append w.q (x ∷ []), length-append w.v (c ∷ []));
  text_free = w.text_free;
}

suffix : (a b v t : Bytes) → a ++ b ≡ v ++ t → length v ≤ length a → (w : Bytes) × (t ≡ w ++ b)
suffix [] b [] t e h = ([], sym e)
suffix [] b (y ∷ v) t e h = absurd (omega arith)
suffix (x ∷ a) b [] t e h = (x ∷ a, sym e)
suffix (x ∷ a) b (y ∷ v) t e h = suffix a b v t (cc) (omega arith)

Later-Long :
    (p t sp u : Bytes) (d : ℕ)
    → (w : Trail p t sp (d ∷ u)) → Later (some (sp, d ∷ u))
    → Long (length w.q) p u
Later-Long p t sp u d w l =
    star-Long w.q p refl w.free (subst (λ s. Matches (b'*' ∷ s) u) w.pattern_is l)

pub Later-nil : (p sp st : Bytes) → Trail p [] sp st → Later (some (sp, st)) → ⊥
Later-nil p sp [] w l = l
Later-nil p sp (d ∷ u) w l =
    let m = Later-Long p [] sp u d w l in
    omega (
      arith,
      m.long,
      w.even,
      ap length m.splits,
      ap length w.text_is,
      length-append m.run m.rest,
      length-append w.v [],
    )

-- A star that opens later finds all that an earlier one could.
Later_star :
    (x c : ℕ) (p t sp st : Bytes)
    → x ≡ b'*'
    → Trail (x ∷ p) (c ∷ t) sp st
    → Later (some (sp, st))
    → Matches (x ∷ p) (c ∷ t)
Later_star x c p t sp [] e w l = absurd l
Later_star x c p t sp (d ∷ u) e w l =
    let m = Later-Long (x ∷ p) (c ∷ t) sp u d w l in
    let (a, s) =
      suffix (d ∷ m.run) m.rest w.v (c ∷ t) (ap (◌∷◌ d) (sym m.splits) ∙ w.text_is)
        (omega (arith, m.long, w.even)) in
    rw s (Matches-absorb a m.rest e m.matched)

pub Later_open :
    (x c : ℕ) (p t : Bytes) (star : Star)
    → x ≡ b'*'
    → Pending (x ∷ p) (c ∷ t) star
    → Later star
    → Matches (x ∷ p) (c ∷ t)
Later_open x c p t none e w l = absurd l
Later_open x c p t (some (sp, st)) e w l = Later_star x c p t sp st e w l

-- The star just opened, at the text where it stands.
pub star_now :
    (x : ℕ) (p : Bytes) (c : ℕ) (t : Bytes)
    → x ≡ b'*'
    → Matches (x ∷ p) (c ∷ t)
    → Matches p (c ∷ t) ⊎ Matches (b'*' ∷ p) t
star_now x p c t e (one n _ m) = absurd (n e)
star_now x p c t e (skip _ m) = inl m
star_now x p c t e (take _ m) = inr (subst (λ y. Matches (y ∷ p) t) e m)

pub star_back :
    (x : ℕ) (p : Bytes) (c : ℕ) (t : Bytes)
    → x ≡ b'*'
    → Matches p (c ∷ t) ⊎ Matches (b'*' ∷ p) t
    → Matches (x ∷ p) (c ∷ t)
star_back x p c t e (inl m) = skip e m
star_back x p c t e (inr m) = take e (subst (λ y. Matches (y ∷ p) t) (sym e) m)

-- A retry is one more byte for the open star.
reopen : (sp st : Bytes) → Matches sp st ⊎ Later (some (sp, st)) → Matches (b'*' ∷ sp) st
reopen sp st (inl m) = skip refl m
reopen sp [] (inr l) = absurd l
reopen sp (c ∷ st) (inr l) = take refl l

reclose : (sp st : Bytes) → Matches (b'*' ∷ sp) st → Matches sp st ⊎ Later (some (sp, st))
reclose sp st (one n _ m) = absurd (n refl)
reclose sp st (skip _ m) = inl m
reclose sp (c ∷ st) (take _ m) = inr m

pub retry-Decides :
    (r : Option Bool) (p t sp st : Bytes) (d : ℕ)
    → ¬ Matches p t
    → Decides r (Matches sp st ⊎ Later (some (sp, st)))
    → Decides r (Matches p t ⊎ Later (some (sp, d ∷ st)))
retry-Decides r p t sp st d no_match = Decides-iff (λ g. inr (reopen sp st g)) back
  where
    back : Matches p t ⊎ Matches (b'*' ∷ sp) st → Matches sp st ⊎ Later (some (sp, st))
    back (inl m) = absurd (no_match m)
    back (inr m) = reclose sp st m

pub Trail-retry : (p t sp st : Bytes) (d : ℕ) → Trail p t sp (d ∷ st) → Trail sp st sp st
Trail-retry p t sp st d w = record {
  q = [];
  v = [];
  pattern_is = refl;
  text_is = refl;
  free = tt;
  even = refl;
  text_free = w.text_free.1;
}

pub Trail-open : (p t : Bytes) → StarFree t → Trail p t p t
Trail-open p t f = record {
  q = [];
  v = [];
  pattern_is = refl;
  text_is = refl;
  free = tt;
  even = refl;
  text_free = f;
}

-- A star still open never stands past the end of the text.
pub no_end : (p t sp : Bytes) (c : ℕ) → Trail p (c ∷ t) sp [] → ⊥
no_end p t sp c w = omega (arith, ap length w.text_is, length-append w.v (c ∷ t))
