-- ===== src/History/Ring/Writes.antt =====
-- `hist_buf_store` behind the entries of a ring, with room and when it is full.
use sekur_ircd.Base.{
  ℕ, suc, ◌+◌, ◌-◌, ◌%◌, ◌<◌, ◌≡◌, ◌≢◌, sym, ap, ◌∙◌, ◌⊎◌, inl, inr, some, arith, get_elem?, set,
  length-set, get_elem?-set_self, get_elem?-set_ne, Bool-cases, ltb, ltb→lt, ltb→le,
}
use sekur_ircd.History.Buf.{Entry, HistBuf, join, hist_buf_at}
use sekur_ircd.History.Ring.{Inv, at_slot, wrap, wrap_round}

abbrev pub stored_flat : HistBuf → Entry → HistBuf
stored_flat b x = record b { e = set b.e b.n (some x); n = b.n + 1; last_ms = x.ms }

abbrev pub stored_round : HistBuf → Entry → HistBuf
stored_round b x = record b {
  e = set b.e b.head (some x);
  head = (b.head + 1) % b.cap;
  last_ms = x.ms;
}

last_or_before : (i n : ℕ) → i < n + 1 → (i < n) ⊎ (i ≡ n)
last_or_before i n h = elim (Bool-cases (ltb i n)) [
  | inl k ↦ inl (ltb→lt i n k)
  | inr k ↦ inr (omega (arith, ltb→le i n k))
]

-- Indices of a full ring whose head moves on by one.
round_index : (h i c : ℕ) → h < c → i < c → ((h + 1) % c + i) % c ≡ (h + suc i) % c
round_index h i c p q = elim (Bool-cases (ltb (h + 1) c)) [
  | inl k ↦ ap (λ j. j % c) (omega (arith, wrap h 1 c (ltb→lt (h + 1) c k)))
  | inr k ↦
      let z = wrap_round h 1 c (ltb→le (h + 1) c k) (omega arith) in
      ap (λ j. (j + i) % c) z
      ∙ wrap (h + 1 - c) i c (omega (arith, ltb→le (h + 1) c k))
      ∙ omega (
        arith,
        wrap_round h (suc i) c (omega (arith, ltb→le (h + 1) c k)) (omega arith),
        ltb→le (h + 1) c k,
      )
]

round_ne : (h i c : ℕ) → h < c → suc i < c → (h + suc i) % c ≢ h
round_ne h i c p q = grind (arith, wrap h (suc i) c, wrap_round h (suc i) c)

round_last : (h i c : ℕ) → h < c → suc i ≡ c → (h + suc i) % c ≡ h
round_last h i c p q = omega (arith, wrap_round h (suc i) c (omega arith) (omega arith))

module _ (b : HistBuf) (x : Entry) (v : Inv b) where
  -- There is a free slot, so the ring is flat.
  module _ (room : b.n < b.alloc) where
    flat_head : b.head ≡ 0
    flat_head = elim v.flat [ inl y ↦ y | inr f ↦ absurd (omega (arith, f.0, v.bounded)) ]

    slot_flat :
        (i : ℕ)
        → i < b.n + 1
        → hist_buf_at (stored_flat b x) i ≡ join (get_elem? (set b.e b.n (some x)) i)
    slot_flat i h =
        at_slot (stored_flat b x) i h (omega (arith, length-set b.e b.n (some x), v.slots))
        ∙ ap (λ j. join (get_elem? (set b.e b.n (some x)) j))
            (wrap b.head i b.cap (omega (arith, flat_head, v.bounded)) ∙ omega (arith, flat_head))

    pub flat_old : (i : ℕ) → i < b.n → hist_buf_at (stored_flat b x) i ≡ hist_buf_at b i
    flat_old i h =
        slot_flat i (omega arith)
        ∙ ap join (get_elem?-set_ne b.e b.n i (some x) (omega arith))
        ∙ sym (
            at_slot b i h (omega (arith, v.slots))
            ∙ ap (λ j. join (get_elem? b.e j))
                (wrap b.head i b.cap (omega (arith, flat_head, v.bounded))
                  ∙ omega (arith, flat_head)))

    pub flat_new : hist_buf_at (stored_flat b x) b.n ≡ some x
    flat_new =
        slot_flat b.n (omega arith)
        ∙ ap join (get_elem?-set_self b.e b.n (some x) (omega (arith, v.slots)))

    pub stored_flat-Inv : Inv (stored_flat b x)
    stored_flat-Inv = record {
      slots = length-set b.e b.n (some x) ∙ v.slots;
      used = omega arith;
      bounded = v.bounded;
      flat = inl flat_head;
      written = λ i h. elim (last_or_before i b.n h) [
        | inl k ↦ let (y, w) = v.written i k in (y, flat_old i k ∙ w)
        | inr k ↦ (x, ap (hist_buf_at (stored_flat b x)) k ∙ flat_new)
      ];
    }

  module _ (full : b.n ≡ b.cap) (pos : 0 < b.cap) where
    head_in : b.head < b.cap
    head_in = elim v.flat [ inl z ↦ omega arith | inr f ↦ f.1 ]

    slot_round :
        (i : ℕ)
        → i < b.n
        → hist_buf_at (stored_round b x) i
          ≡ join (get_elem? (set b.e b.head (some x)) ((b.head + suc i) % b.cap))
    slot_round i h =
        at_slot (stored_round b x) i h
          (omega (arith, length-set b.e b.head (some x), v.slots, v.used))
        ∙ ap (λ j. join (get_elem? (set b.e b.head (some x)) j))
            (round_index b.head i b.cap head_in (omega arith))

    pub round_old : (i : ℕ) → suc i < b.n → hist_buf_at (stored_round b x) i ≡ hist_buf_at b (suc i)
    round_old i h =
        slot_round i (omega arith)
        ∙ ap join (
            get_elem?-set_ne b.e b.head ((b.head + suc i) % b.cap) (some x)
              (λ e. round_ne b.head i b.cap head_in (omega arith) (sym e)))
        ∙ sym (at_slot b (suc i) h (omega (arith, v.slots, v.used)))

    pub round_new : (i : ℕ) → suc i ≡ b.n → hist_buf_at (stored_round b x) i ≡ some x
    round_new i h =
        slot_round i (omega arith)
        ∙ ap (λ j. join (get_elem? (set b.e b.head (some x)) j))
            (round_last b.head i b.cap head_in (omega arith))
        ∙ ap join (get_elem?-set_self b.e b.head (some x) (omega (arith, v.slots, v.used, head_in)))

    round_head : (b.head + 1) % b.cap < b.cap
    round_head = omega arith

    pub stored_round-Inv : Inv (stored_round b x)
    stored_round-Inv = record {
      slots = length-set b.e b.head (some x) ∙ v.slots;
      used = v.used;
      bounded = v.bounded;
      flat = inr (full, round_head);
      written = λ i h. elim (last_or_before (suc i) b.n (omega arith)) [
        | inl k ↦ let (y, w) = v.written (suc i) k in (y, round_old i k ∙ w)
        | inr k ↦ (x, round_new i k)
      ];
    }
