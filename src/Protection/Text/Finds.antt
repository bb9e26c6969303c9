-- ===== src/Protection/Text/Finds.antt =====
-- Where `protection_find` finds, and the length of what `protection_expand` writes.
use sekur_ircd.Base.{
  ℕ, zero, suc, ◌+◌, ◌-◌, ◌≤◌, ◌<◌, ◌≡◌, refl, sym, ap, ◌∙◌, inl, inr, true, false, [], ◌∷◌, ◌++◌,
  Option, none, some, ltb, ◌==◌, if◌then◌else◌, Bytes, length, take, length-append, arith,
  Bool-cases, Option-cases, both, subst, ==→eq, eq→==, ltb→lt, length-take,
}
use sekur_ircd.Protection.Text.{
  begins, find_from, protection_find, substitute, expand_from, protection_expand,
}

-- `needle` stands in `hay` behind `i` bytes.
abbrev pub Occurs : Bytes → Bytes → ℕ → Type 0
Occurs hay needle i =
    (before : Bytes) × (after : Bytes) × (hay ≡ before ++ (needle ++ after)) × (length before ≡ i)

-- The answer of a search: the first place, or none at all.
abbrev pub First : Bytes → Bytes → Option ℕ → Type 0
First hay needle none = (i : ℕ) → ¬ Occurs hay needle i
First hay needle (some i) = Occurs hay needle i × ((j : ℕ) → j < i → ¬ Occurs hay needle j)

begins-true :
    (needle hay : Bytes) → begins needle hay ≡ true → (after : Bytes) × (hay ≡ needle ++ after)
unfolding begins
begins-true [] hay h = (hay, refl)
begins-true (x ∷ needle) [] h = absurd (ground (arith, h))
begins-true (x ∷ needle) (y ∷ hay) h =
    let (t, more) = both (y == x) (begins needle hay) h in
    let (after, e) = begins-true needle hay more in
    (after, ap (◌∷◌ y) e ∙ ap (λ (k : ℕ). k ∷ (needle ++ after)) (==→eq y x t))

begins-append : (needle after : Bytes) → begins needle (needle ++ after) ≡ true
unfolding begins
begins-append [] after = refl
begins-append (x ∷ needle) after = rw (eq→== x x refl) (begins-append needle after)

-- A place behind the first byte is a place of the rest.
Occurs-tail :
    (y : ℕ) (hay needle : Bytes) (j : ℕ) → Occurs (y ∷ hay) needle (suc j) → Occurs hay needle j
Occurs-tail y hay needle j ([], after, e, l) = absurd (omega arith)
Occurs-tail y hay needle j (b ∷ before, after, e, l) = (before, after, cc, omega arith)

Occurs-cons :
    (y : ℕ) (hay needle : Bytes) (j : ℕ) → Occurs hay needle j → Occurs (y ∷ hay) needle (suc j)
Occurs-cons y hay needle j (before, after, e, l) = (y ∷ before, after, ap (◌∷◌ y) e, omega arith)

Occurs-here : (hay needle : Bytes) → begins needle hay ≡ false → ¬ Occurs hay needle 0
Occurs-here hay needle f ([], after, e, l) =
    let t = ap (begins needle) e ∙ begins-append needle after in ground (arith, t, f)
Occurs-here hay needle f (b ∷ before, after, e, l) = absurd (omega arith)

-- The search from offset `i` on answers for the places behind `i`.
abbrev FirstFrom : ℕ → Bytes → Bytes → Option ℕ → Type 0
FirstFrom i hay needle none = (j : ℕ) → ¬ Occurs hay needle j
FirstFrom i hay needle (some k) =
    (j : ℕ) × (k ≡ i + j) × Occurs hay needle j × ((m : ℕ) → m < j → ¬ Occurs hay needle m)

nowhere :
    (y : ℕ) (hay needle : Bytes)
    → begins needle (y ∷ hay) ≡ false
    → ((j : ℕ) → ¬ Occurs hay needle j)
    → (j : ℕ) → ¬ Occurs (y ∷ hay) needle j
nowhere y hay needle f h zero o = Occurs-here (y ∷ hay) needle f o
nowhere y hay needle f h (suc j) o = h j (Occurs-tail y hay needle j o)

FirstFrom-later :
    (i y : ℕ) (hay needle : Bytes) (r : Option ℕ)
    → begins needle (y ∷ hay) ≡ false
    → FirstFrom (i + 1) hay needle r
    → FirstFrom i (y ∷ hay) needle r
FirstFrom-later i y hay needle none f h = nowhere y hay needle f h
FirstFrom-later i y hay needle (some k) f (j, e, o, least) =
    (suc j, omega arith, Occurs-cons y hay needle j o, earlier)
  where
    earlier : (m : ℕ) → m < suc j → ¬ Occurs (y ∷ hay) needle m
    earlier zero l o' = Occurs-here (y ∷ hay) needle f o'
    earlier (suc m) l o' = least m (omega arith) (Occurs-tail y hay needle m o')

nothing_left : (x : ℕ) (needle : Bytes) (j : ℕ) → ¬ Occurs [] (x ∷ needle) j
nothing_left x needle j (before, after, e, l) =
    let n = ap length e in absurd (omega (arith, n, length-append before ((x ∷ needle) ++ after)))

find-FirstFrom :
    (i : ℕ) (hay : Bytes) (x : ℕ) (needle : Bytes)
    → FirstFrom i hay (x ∷ needle) (find_from i hay (x ∷ needle))
unfolding find_from begins
find-FirstFrom i [] x needle = nothing_left x needle
find-FirstFrom i (y ∷ hay) x needle = elim (Bool-cases (begins (x ∷ needle) (y ∷ hay))) [
  | inl t ↦
      let (after, e) = begins-true (x ∷ needle) (y ∷ hay) t in
      subst (FirstFrom i (y ∷ hay) (x ∷ needle))
        (sym (ap (λ b. if b then some i else find_from (i + 1) hay (x ∷ needle)) t))
        (0, omega arith, ([], after, e, refl), λ m l o. absurd (omega arith))
  | inr f ↦
      subst (FirstFrom i (y ∷ hay) (x ∷ needle))
        (sym (ap (λ b. if b then some i else find_from (i + 1) hay (x ∷ needle)) f))
        (FirstFrom-later i y hay (x ∷ needle) (find_from (i + 1) hay (x ∷ needle)) f
          (find-FirstFrom (i + 1) hay x needle))
]

FirstFrom-First :
    (hay needle : Bytes) (r : Option ℕ) → FirstFrom 0 hay needle r → First hay needle r
FirstFrom-First hay needle none h = h
FirstFrom-First hay needle (some k) (j, e, o, least) =
    let same : j ≡ k = omega (arith, e) in
    (subst (Occurs hay needle) same o, λ m l. least m (omega arith))

too_long : (hay needle : Bytes) → length hay < length needle → (j : ℕ) → ¬ Occurs hay needle j
too_long hay needle h j (before, after, e, l) =
    let n = ap length e in
    absurd (omega (arith, n, length-append before (needle ++ after), length-append needle after))

-- `protection_find` answers the first offset at which a text that is not empty stands, and nothing
-- exactly if it stands nowhere.
pub protection_find-First :
    (hay : Bytes) (x : ℕ) (needle : Bytes)
    → First hay (x ∷ needle) (protection_find hay (x ∷ needle))
unfolding protection_find
protection_find-First hay x needle = elim (Bool-cases (ltb (length hay) (length (x ∷ needle)))) [
  | inl t ↦ rw t (too_long hay (x ∷ needle) (ltb→lt _ _ t))
  | inr f ↦ rw f (
      FirstFrom-First hay (x ∷ needle) (find_from 0 hay (x ∷ needle))
        (find-FirstFrom 0 hay x needle))
]

length-expand :
    (args : Bytes × Bytes × Bytes) (room : ℕ) (s : Bytes) → length (expand_from args room s) ≤ room
unfolding expand_from
length-expand args room [] = omega arith
length-expand args zero (c ∷ s) = omega arith
length-expand args (suc room) (c ∷ []) = omega arith
length-expand (ip, t, r) (suc room) (c ∷ d ∷ s) = elim (Bool-cases (c == b'%')) [
  | inr f ↦ rw f (omega (arith, length-expand (ip, t, r) room (d ∷ s)))
  | inl e ↦ elim (Option-cases (substitute ip t r d)) [
    | inl n ↦ rw (e, n) (omega (arith, length-expand (ip, t, r) room (d ∷ s)))
    | inr (sub, n) ↦
        rw (e, n)
          (omega (
            arith,
            length-append (take (suc room) sub) (expand_from (ip, t, r) (suc room - length sub) s),
            length-take (suc room) sub,
            length-expand (ip, t, r) (suc room - length sub) s,
          ))
  ]
]

-- An expanded reason fits its buffer with the terminating NUL, whatever the template and its arguments.
pub protection_expand-fits :
    (tmpl ip t r : Bytes) (outsz : ℕ) → length (protection_expand tmpl ip t r outsz) ≤ outsz - 1
unfolding protection_expand
protection_expand-fits tmpl ip t r outsz = length-expand (ip, t, r) (outsz - 1) tmpl
