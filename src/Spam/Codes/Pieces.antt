-- ===== src/Spam/Codes/Pieces.antt =====
-- A text as pieces: bytes to be shown, format bytes and colour codes. Every text is such a text.
use sekur_ircd.Base.{
  ℕ, zero, suc, ◌≤◌, ◌<◌, ◌≡◌, ◌≢◌, refl, sym, ap, subst, ◌∙◌, inl, inr, true, false, List, [], ◌∷◌,
  ◌++◌, Option, none, some, ◌==◌, Bytes, length, arith, append_assoc, ==→eq, ==→ne, Bool-cases,
}
use sekur_ircd.Cstring.{isdigit}
use sekur_ircd.Spam.Codes.{is_format}

-- The bytes that switch a format on or off.
pub data Format : ℕ → Type 0 where
  bold : Format 2
  reset : Format 15
  monospace : Format 17
  reverse : Format 22
  italics : Format 29
  strike_through : Format 30
  underline : Format 31

-- A byte that is shown: no colour byte and none of the format bytes.
abbrev pub Shown : ℕ → Type 0
Shown c = (c ≢ 2) × (c ≢ 3) × (c ≢ 15) × (c ≢ 17) × (c ≢ 22) × (c ≢ 29) × (c ≢ 30) × (c ≢ 31)

-- A colour code has a foreground of at most two digits and, behind a comma, a background.
pub data Piece : Type 0 where
  shown : ℕ → Piece
  format : ℕ → Piece
  colour : Bytes → Option Bytes → Piece

abbrev pub behind_comma : Option Bytes → Bytes
behind_comma none = []
behind_comma (some bg) = b',' ∷ bg

-- The pieces as a client sends them.
abbrev pub encode : List Piece → Bytes
encode [] = []
encode (shown c ∷ ps) = c ∷ encode ps
encode (format c ∷ ps) = c ∷ encode ps
encode (colour fg bg ∷ ps) = 3 ∷ ((fg ++ behind_comma bg) ++ encode ps)

-- What a reader sees of them.
abbrev pub visible : List Piece → Bytes
visible [] = []
visible (shown c ∷ ps) = c ∷ visible ps
visible (format c ∷ ps) = visible ps
visible (colour fg bg ∷ ps) = visible ps

abbrev pub NoDigit : Bytes → Type 0
NoDigit [] = Unit
NoDigit (c ∷ s) = isdigit c ≡ false

abbrev pub NoComma : Bytes → Type 0
NoComma [] = Unit
NoComma (c ∷ s) = c ≢ b','

-- At most two digits, and fewer only where `s`, which follows, does not go on with one.
abbrev pub Number : Bytes → Bytes → Type 0
Number [] s = NoDigit s
Number (a ∷ []) s = (isdigit a ≡ true) × NoDigit s
Number (a ∷ b ∷ []) s = (isdigit a ≡ true) × (isdigit b ≡ true)
Number (a ∷ b ∷ c ∷ ds) s = ⊥

abbrev pub Colour : Bytes → Option Bytes → Bytes → Type 0
Colour fg none s = Number fg s × NoComma s
Colour fg (some bg) s = Number fg (b',' ∷ []) × Number bg s

-- Each piece is of its kind, and no colour code goes on in the text behind it.
abbrev pub IsRich : List Piece → Type 0
IsRich [] = Unit
IsRich (shown c ∷ ps) = Shown c × IsRich ps
IsRich (format c ∷ ps) = Format c × IsRich ps
IsRich (colour fg bg ∷ ps) = Colour fg bg (encode ps) × IsRich ps

-- A number at the start of a text, and what is behind it.
record Split (s : Bytes) : Type 0 where
  ds : Bytes
  rest : Bytes
  joined : s ≡ ds ++ rest
  number : Number ds rest
  shorter : length rest ≤ length s

read_number : (s : Bytes) → Split s
read_number [] = record { ds = []; rest = []; joined = refl; number = tt; shorter = omega arith }
read_number (a ∷ s) = elim (Bool-cases (isdigit a)) [
  | inr f ↦ record { ds = []; rest = a ∷ s; joined = refl; number = f; shorter = omega arith }
  | inl t ↦ second s t
]
  where
    second : (s : Bytes) → isdigit a ≡ true → Split (a ∷ s)
    second [] t = record {
      ds = a ∷ [];
      rest = [];
      joined = refl;
      number = (t, tt);
      shorter = omega arith;
    }
    second (b ∷ s) t = elim (Bool-cases (isdigit b)) [
      | inl u ↦ record {
        ds = a ∷ b ∷ [];
        rest = s;
        joined = refl;
        number = (t, u);
        shorter = omega arith;
      }
      | inr u ↦ record {
        ds = a ∷ [];
        rest = b ∷ s;
        joined = refl;
        number = (t, u);
        shorter = omega arith;
      }
    ]

-- A colour code's digits at the start of a text, and what is behind them.
record Coloured (s : Bytes) : Type 0 where
  fg : Bytes
  bg : Option Bytes
  rest : Bytes
  joined : s ≡ (fg ++ behind_comma bg) ++ rest
  fits : Colour fg bg rest
  shorter : length rest ≤ length s

Number-comma : (fg s : Bytes) → Number fg s → Number fg (b',' ∷ [])
Number-comma [] s h = refl
Number-comma (a ∷ []) s h = (h.0, refl)
Number-comma (a ∷ b ∷ []) s h = h
Number-comma (a ∷ b ∷ c ∷ fg) s h = h

read_colour : (s : Bytes) → Coloured s
read_colour s = let n = read_number s in behind n n.rest refl
  where
    plain : (n : Split s) → NoComma n.rest → Coloured s
    plain n h = record {
      fg = n.ds;
      bg = none;
      rest = n.rest;
      joined = n.joined ∙ sym (append_assoc n.ds [] n.rest);
      fits = (n.number, h);
      shorter = n.shorter;
    }

    behind : (n : Split s) (r : Bytes) → n.rest ≡ r → Coloured s
    behind n [] e = plain n (subst NoComma (sym e) tt)
    behind n (c ∷ r) e = elim (Bool-cases (c == b',')) [
      | inr f ↦ plain n (subst NoComma (sym e) (==→ne c b',' f))
      | inl t ↦
          let m = read_number r in
          let eq : n.rest ≡ b',' ∷ r = e ∙ ap (λ k. k ∷ r) (==→eq c b',' t) in
          record {
            fg = n.ds;
            bg = some m.ds;
            rest = m.rest;
            joined =
                n.joined
                ∙ ap (◌++◌ n.ds) (eq ∙ ap (◌∷◌ b',') m.joined)
                ∙ sym (append_assoc n.ds (b',' ∷ m.ds) m.rest);
            fits = (Number-comma n.ds n.rest n.number, m.number);
            shorter = omega (arith, n.shorter, m.shorter, ap length eq);
          }
    ]

is_format-Format : (c : ℕ) → is_format c ≡ true → Format c
is_format-Format c h = elim (Bool-cases (c == 2)) [
  | inl e ↦ is bold e
  | inr n2 ↦ elim (Bool-cases (c == 15)) [
    | inl e ↦ is reset e
    | inr n15 ↦ elim (Bool-cases (c == 17)) [
      | inl e ↦ is monospace e
      | inr n17 ↦ elim (Bool-cases (c == 22)) [
        | inl e ↦ is reverse e
        | inr n22 ↦ elim (Bool-cases (c == 29)) [
          | inl e ↦ is italics e
          | inr n29 ↦ elim (Bool-cases (c == 30)) [
            | inl e ↦ is strike_through e
            | inr n30 ↦ elim (Bool-cases (c == 31)) [
              | inl e ↦ is underline e
              | inr n31 ↦ absurd (ground (arith, h, n2, n15, n17, n22, n29, n30, n31))
            ]
          ]
        ]
      ]
    ]
  ]
]
  where
    is : {n : ℕ} → Format n → (c == n) ≡ true → Format c
    is {n} f e = subst Format (sym (==→eq c n e)) f

plain-Shown : (c : ℕ) → (c == 3) ≡ false → is_format c ≡ false → Shown c
plain-Shown c n h = ground (arith, n, h)

abbrev Rich : Bytes → Type 0
Rich s = (ps : List Piece) × (encode ps ≡ s) × IsRich ps

pieces-Rich : (n : ℕ) (s : Bytes) → length s < n → Rich s
pieces-Rich zero s l = absurd (omega arith)
pieces-Rich (suc n) [] l = ([], refl, tt)
pieces-Rich (suc n) (c ∷ s) l = elim (Bool-cases (c == 3)) [
  | inl t ↦
      let k = read_colour s in
      let (ps, e, h) = pieces-Rich n k.rest (omega (arith, k.shorter, l)) in
      (
        colour k.fg k.bg ∷ ps,
        ap (λ r. 3 ∷ ((k.fg ++ behind_comma k.bg) ++ r)) e
            ∙ ap (◌∷◌ 3) (sym k.joined)
            ∙ ap (λ x. x ∷ s) (sym (==→eq c 3 t)),
        (subst (Colour k.fg k.bg) (sym e) k.fits, h),
      )
  | inr f ↦
      let (ps, e, h) = pieces-Rich n s (omega (arith, l)) in
      elim (Bool-cases (is_format c)) [
        | inl t ↦ (format c ∷ ps, ap (◌∷◌ c) e, (is_format-Format c t, h))
        | inr p ↦ (shown c ∷ ps, ap (◌∷◌ c) e, (plain-Shown c f p, h))
      ]
]

-- Every text is the text of pieces, each of its kind and none going on behind itself.
every_text : (s : Bytes) → (ps : List Piece) × (encode ps ≡ s) × IsRich ps
every_text s = pieces-Rich (suc (length s)) s (omega arith)
