-- ===== src/Spam/Codes/Clean.antt =====
-- What `strip_codes` leaves of a text in pieces.
use sekur_ircd.Base.{
  ℕ, zero, suc, ◌-◌, ◌≡◌, refl, ap, ◌∙◌, true, false, ◌||◌, List, [], ◌∷◌, ◌++◌, Option, none, some,
  ◌==◌, Bytes, length, take, drop, arith, append_assoc, length-append, ne→==, ◌+◌, sym,
}
use sekur_ircd.Spam.Codes.{is_format, two_digits, background, colour_len, strip_from, strip_codes}
use sekur_ircd.Spam.Codes.Pieces.{
  Format, bold, reset, monospace, reverse, italics, strike_through, underline, Shown, Piece, shown,
  format, colour, behind_comma, encode, visible, NoComma, Number, Colour, IsRich,
}

two_digits-Number : (ds s : Bytes) → Number ds s → two_digits (ds ++ s) ≡ length ds
unfolding two_digits
two_digits-Number [] [] h = refl
two_digits-Number [] (c ∷ []) h = rw h refl
two_digits-Number [] (c ∷ d ∷ s) h = rw h refl
two_digits-Number (a ∷ []) [] h = rw (h.0) refl
two_digits-Number (a ∷ []) (c ∷ s) h = rw (h.0, h.1) refl
two_digits-Number (a ∷ b ∷ []) s h = rw (h.0, h.1) refl
two_digits-Number (a ∷ b ∷ c ∷ ds) s h = absurd h

drop-append : (a s : Bytes) → drop (length a) (a ++ s) ≡ s
drop-append [] s = refl
drop-append (c ∷ a) s = drop-append a s

background-none : (s : Bytes) → NoComma s → background s ≡ 0
unfolding background
background-none [] h = refl
background-none (c ∷ s) h = rw (ne→== c b',' h) refl

colour_len-Number : (fg s : Bytes) → Number fg s → colour_len (fg ++ s) ≡ length fg + background s
unfolding colour_len
colour_len-Number fg s h = rw (two_digits-Number fg s h, drop-append fg s) refl

Number-comma : (fg s : Bytes) → Number fg (b',' ∷ []) → Number fg (b',' ∷ s)
Number-comma [] s h = h
Number-comma (a ∷ []) s h = h
Number-comma (a ∷ b ∷ []) s h = h
Number-comma (a ∷ b ∷ c ∷ fg) s h = h

background-some : (bg s : Bytes) → Number bg s → background (b',' ∷ (bg ++ s)) ≡ length (b',' ∷ bg)
unfolding background
background-some bg s h = ap suc (two_digits-Number bg s h)

colour_len-Colour :
    (fg : Bytes) (bg : Option Bytes) (s : Bytes)
    → Colour fg bg s
    → colour_len ((fg ++ behind_comma bg) ++ s) ≡ length (fg ++ behind_comma bg)
colour_len-Colour fg none s h =
    ap colour_len (append_assoc fg [] s)
    ∙ colour_len-Number fg s h.0
    ∙ omega (arith, background-none s h.1, length-append fg [])
colour_len-Colour fg (some bg) s h =
    ap colour_len (append_assoc fg (b',' ∷ bg) s)
    ∙ colour_len-Number fg (b',' ∷ (bg ++ s)) (Number-comma fg (bg ++ s) h.0)
    ∙ ap (λ n. length fg + n) (background-some bg s h.1)
    ∙ sym (length-append fg (b',' ∷ bg))

strip_from-skip :
    (room : ℕ) (a s : Bytes) → strip_from (suc room) (length a) (a ++ s) ≡ strip_from (suc room) 0 s
unfolding strip_from
strip_from-skip room [] s = refl
strip_from-skip room (c ∷ a) s = strip_from-skip room a s

Shown-plain : (c : ℕ) → Shown c → (is_format c || c == 3) ≡ false
Shown-plain c (a, b, d, e, f, g, h, i) =
    rw
      (
        ne→== c 2 a,
        ne→== c 3 b,
        ne→== c 15 d,
        ne→== c 17 e,
        ne→== c 22 f,
        ne→== c 29 g,
        ne→== c 30 h,
        ne→== c 31 i,
      )
      refl

Format-is_format : (c : ℕ) → Format c → (is_format c || c == 3) ≡ true
Format-is_format _ bold = refl
Format-is_format _ reset = refl
Format-is_format _ monospace = refl
Format-is_format _ reverse = refl
Format-is_format _ italics = refl
Format-is_format _ strike_through = refl
Format-is_format _ underline = refl

Format-coloured : (c : ℕ) → Format c → (c == 3) ≡ false
Format-coloured _ bold = refl
Format-coloured _ reset = refl
Format-coloured _ monospace = refl
Format-coloured _ reverse = refl
Format-coloured _ italics = refl
Format-coloured _ strike_through = refl
Format-coloured _ underline = refl

strip_from-encode :
    (room : ℕ) (ps : List Piece)
    → IsRich ps
    → strip_from room 0 (encode ps) ≡ take room (visible ps)
unfolding strip_from
strip_from-encode zero ps h = refl
strip_from-encode (suc room) [] h = refl
strip_from-encode (suc room) (shown c ∷ ps) h =
    rw (Shown-plain c h.0) (ap (◌∷◌ c) (strip_from-encode room ps h.1))
strip_from-encode (suc room) (format c ∷ ps) h =
    rw (Format-is_format c h.0, Format-coloured c h.0) (strip_from-encode (suc room) ps h.1)
strip_from-encode (suc room) (colour fg bg ∷ ps) h =
    ap (λ n. strip_from (suc room) n ((fg ++ behind_comma bg) ++ encode ps))
      (colour_len-Colour fg bg (encode ps) h.0)
    ∙ strip_from-skip room (fg ++ behind_comma bg) (encode ps)
    ∙ strip_from-encode (suc room) ps h.1

-- Of a text of shown bytes, format bytes and colour codes (a foreground of at most two digits and
-- perhaps a comma with a background of at most two, none of which goes on in the text behind it),
-- `strip_codes` leaves the shown bytes in order, cut to the buffer with room for the NUL.
pub strip_codes-encode :
    (dstsz : ℕ) (ps : List Piece)
    → IsRich ps
    → strip_codes dstsz (encode ps) ≡ take (dstsz - 1) (visible ps)
unfolding strip_codes
strip_codes-encode dstsz ps h = strip_from-encode (dstsz - 1) ps h
