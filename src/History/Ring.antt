-- ===== src/History/Ring.antt =====
-- What a ring holds: its well-formedness, and its entries, oldest first.
pub mod Steps
pub mod Writes
pub mod Queue
pub mod Runs
pub mod Remove
use sekur_ircd.Base.{
  ℕ, zero, suc, ◌+◌, ◌-◌, ◌%◌, ◌≤◌, ◌<◌, ◌≡◌, ◌≢◌, refl, sym, ap, ◌∙◌, ◌⊎◌, inl, inr, true, false,
  List, [], ◌∷◌, ◌++◌, Option, none, some, arith, length, length-append, get_elem?, drop,
  if◌then◌else◌, append_assoc, append-nil, ◌||◌, leb,
}
use sekur_ircd.History.Buf.{Entry, HistBuf, is_null, join, hist_buf_at}

-- The fields agree: the ring is flat until it is full at `cap`, and every entry in use is written.
pub record Inv (b : HistBuf) : Type 0 where
  pub slots : length b.e ≡ b.alloc
  pub used : b.n ≤ b.alloc
  pub bounded : b.alloc ≤ b.cap
  pub flat : (b.head ≡ 0) ⊎ ((b.n ≡ b.cap) × (b.head < b.cap))
  pub written : (i : ℕ) → i < b.n → (x : Entry) × (hist_buf_at b i ≡ some x)

-- The slot of position `i`.
pub at_slot :
    (b : HistBuf) (i : ℕ)
    → i < b.n
    → 0 < length b.e
    → hist_buf_at b i ≡ join (get_elem? b.e ((b.head + i) % b.cap))
unfolding hist_buf_at
at_slot b i h k = go b.e k
  where
    go :
        (xs : List (Option Entry))
        → 0 < length xs
        → (if is_null xs || leb b.n i then none else join (get_elem? b.e ((b.head + i) % b.cap)))
          ≡ join (get_elem? b.e ((b.head + i) % b.cap))
    go [] k = absurd (omega arith)
    go (x ∷ xs) k = ground arith

-- `(h + i) % c` for a head and a position in the ring.
pub wrap : (h i c : ℕ) → h + i < c → (h + i) % c ≡ h + i
wrap h i c p = grind arith

pub wrap_round : (h i c : ℕ) → c ≤ h + i → h + i < c + c → (h + i) % c ≡ h + i - c
wrap_round h i c p q = grind arith

module _ {ℓ} {A : Type ℓ} where
  abbrev pub to_list : Option A → List A
  to_list none = []
  to_list (some x) = x ∷ []

  -- The values at 0 … n - 1.
  abbrev pub table : (ℕ → Option A) → ℕ → List A
  table f zero = []
  table f (suc n) = table f n ++ to_list (f n)

  pub table-eq :
      (f g : ℕ → Option A) (n : ℕ) → ((i : ℕ) → i < n → f i ≡ g i) → table f n ≡ table g n
  table-eq f g zero h = refl
  table-eq f g (suc n) h = rw (h n (omega arith), table-eq f g n (λ i k. h i (omega arith)))

  pub table-shift :
      (f : ℕ → Option A) (n : ℕ) → table f (suc n) ≡ to_list (f 0) ++ table (λ i. f (suc i)) n
  table-shift f zero = sym (append-nil (to_list (f 0)))
  table-shift f (suc n) =
      ap (λ l. l ++ to_list (f (suc n))) (table-shift f n)
      ∙ append_assoc (to_list (f 0)) (table (λ i. f (suc i)) n) (to_list (f (suc n)))

  pub length-table :
      (f : ℕ → Option A) (n : ℕ)
      → ((i : ℕ) → i < n → (x : A) × (f i ≡ some x))
      → length (table f n) ≡ n
  length-table f zero h = refl
  length-table f (suc n) h =
      let (x, e) = h n (omega arith) in
      rw e (
        omega
          (arith, length-append (table f n) (x ∷ []), length-table f n (λ i k. h i (omega arith))))

-- The entries of a ring, as `history_maybe_save` and the readers go through them.
abbrev pub contents : HistBuf → List Entry
contents b = table (hist_buf_at b) b.n

-- The last `k` of a list.
abbrev pub keep_last {ℓ} : {A : Type ℓ} → ℕ → List A → List A
keep_last k xs = drop (length xs - k) xs
