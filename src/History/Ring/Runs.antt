-- ===== src/History/Ring/Runs.antt =====
-- A conversation after any number of messages.
use sekur_ircd.Base.{
  ℕ, zero, suc, ◌+◌, ◌-◌, ◌≤◌, ◌<◌, ◌≡◌, refl, sym, ap, ◌∙◌, inl, inr, true, false, not, ◌&&◌, Bool,
  List, [], ◌∷◌, ◌++◌, arith, length, length-append, length-drop, drop, map, if◌then◌else◌, eq→==,
  append_assoc, append-nil, Bool-cases, ltb, ltb→lt, ltb→le, Bytes,
}
use sekur_ircd.History.Buf.{
  Borrowed, HistBuf, new_buf, entry_dup, hist_buf_resize, hist_buf_grow, hist_buf_store,
  hist_buf_add, is_null,
}
use sekur_ircd.History.Ring.{Inv, contents, keep_last}
use sekur_ircd.History.Ring.Steps.{resized}
use sekur_ircd.History.Ring.Queue.{drop_beyond, length-contents, add_with_memory}

module _ {ℓ} {A : Type ℓ} where
  drop-append_left : (j : ℕ) (xs ys : List A) → j ≤ length xs → drop j (xs ++ ys) ≡ drop j xs ++ ys
  drop-append_left zero xs ys h = refl
  drop-append_left (suc j) [] ys h = absurd (omega arith)
  drop-append_left (suc j) (x ∷ xs) ys h = drop-append_left j xs ys (omega arith)

  drop-drop : (i j : ℕ) (xs : List A) → j ≤ length xs → drop i (drop j xs) ≡ drop (j + i) xs
  drop-drop i zero xs h = ap (λ k. drop k xs) {x = i} {y = 0 + i} (omega arith)
  drop-drop i (suc j) [] h = absurd (omega arith)
  drop-drop i (suc j) (x ∷ xs) h =
      drop-drop i j xs (omega arith)
      ∙ ap (λ k. drop k (x ∷ xs)) {x = suc (j + i)} {y = suc j + i} (omega arith)

  -- Forgetting early or late is the same.
  pub keep_last-append :
      (k : ℕ) (xs ys : List A) → keep_last k (keep_last k xs ++ ys) ≡ keep_last k (xs ++ ys)
  keep_last-append k xs ys = elim (Bool-cases (ltb (length xs) k)) [
    | inl h ↦
        ap (λ l. keep_last k (l ++ ys)) (drop_beyond k xs (omega (arith, ltb→lt (length xs) k h)))
    | inr h ↦
        let j = length xs - k in
        let le = ltb→le (length xs) k h in
        let size = length-append (drop j xs) ys in
        ap (λ i. drop i (drop j xs ++ ys)) {y = length ys}
          (omega (arith, size, length-drop j xs, le))
        ∙ ap (drop (length ys)) (sym (drop-append_left j xs ys (omega arith)))
        ∙ drop-drop (length ys) j (xs ++ ys) (omega (arith, length-append xs ys))
        ∙ ap (λ i. drop i (xs ++ ys)) {y = length (xs ++ ys) - k}
            (omega (arith, length-append xs ys, le))
  ]

-- The messages of a conversation in the order they were sent, with memory for all.
unfoldable pub hist_buf_adds : HistBuf → ℕ → List Borrowed → HistBuf
hist_buf_adds b cap [] = b
hist_buf_adds b cap (x ∷ xs) = hist_buf_adds (hist_buf_add b cap x true true) cap xs

-- The ring already has the size `cap`, or is empty.
record Sized (b : HistBuf) (cap : ℕ) : Type 0 where
  inv : Inv b
  kept_all : resized b cap ≡ false
  fits : b.n ≤ cap

add-cap :
    (b : HistBuf) (cap : ℕ) (x : Borrowed)
    → Inv b
    → 0 < cap
    → (hist_buf_add b cap x true true).cap ≡ cap
unfolding hist_buf_add hist_buf_resize hist_buf_grow hist_buf_store
add-cap b cap x v pos = ground arith

add-Sized :
    (b : HistBuf) (cap : ℕ) (x : Borrowed)
    → Sized b cap
    → 0 < cap
    → Sized (hist_buf_add b cap x true true) cap
add-Sized b cap x s pos =
    let b' = hist_buf_add b cap x true true in
    let w = add_with_memory b cap x s.inv pos in
    let c = add-cap b cap x s.inv pos in
    record {
      inv = w.0;
      kept_all = rw (eq→== b'.cap cap c) (same (is_null b'.e));
      fits = omega (arith, w.0.used, w.0.bounded, c);
    }
  where
    same : (v : Bool) → (not v && not true) ≡ false
    same true = refl
    same false = refl

adds-contents :
    (b : HistBuf) (cap : ℕ) (xs : List Borrowed)
    → Sized b cap
    → 0 < cap
    → contents (hist_buf_adds b cap xs) ≡ keep_last cap (contents b ++ map entry_dup xs)
unfolding hist_buf_adds
adds-contents b cap [] s pos =
    let size = length-append (contents b) [] in
    sym (
      drop_beyond cap (contents b ++ []) (omega (arith, size, length-contents b s.inv, s.fits))
      ∙ append-nil (contents b))
adds-contents b cap (x ∷ xs) s pos =
    let one = add_with_memory b cap x s.inv pos in
    let start = ap (λ r. if r then [] else contents b) s.kept_all in
    adds-contents (hist_buf_add b cap x true true) cap xs (add-Sized b cap x s pos) pos
    ∙ ap (λ l. keep_last cap (l ++ map entry_dup xs))
        (one.1 ∙ ap (λ l. keep_last cap (l ++ entry_dup x ∷ [])) start)
    ∙ keep_last-append cap (contents b ++ entry_dup x ∷ []) (map entry_dup xs)
    ∙ ap (keep_last cap) (append_assoc (contents b) (entry_dup x ∷ []) (map entry_dup xs))

-- A fresh ring is well-formed.
pub new_buf-Inv : (key : Bytes) → Inv (new_buf key)
new_buf-Inv key = record {
  slots = refl;
  used = omega arith;
  bounded = omega arith;
  flat = inl refl;
  written = λ i h. absurd (omega arith);
}

-- A conversation that began with a fresh buffer holds the copies of its last `cap` messages, oldest
-- first, whatever number of messages were added, for every positive `cap`.
pub hist_buf_adds-keep_last :
    (key : Bytes) (cap : ℕ) (xs : List Borrowed)
    → 0 < cap
    → contents (hist_buf_adds (new_buf key) cap xs) ≡ keep_last cap (map entry_dup xs)
hist_buf_adds-keep_last key cap xs pos = adds-contents (new_buf key) cap xs fresh pos
  where
    fresh : Sized (new_buf key) cap
    fresh = record { inv = new_buf-Inv key; kept_all = refl; fits = omega arith }
