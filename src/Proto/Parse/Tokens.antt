-- ===== src/Proto/Parse/Tokens.antt =====
-- How `irc_parse_line` cuts a line that is a row of words and a trailing text.
use sekur_ircd.Base.{
  ℕ, zero, suc, ◌≤◌, ◌≡◌, ◌≢◌, refl, ap, ◌∙◌, List, [], ◌∷◌, ◌++◌, Option, none, some, arith,
  length, Bytes, All, append_assoc, append-nil, ne→==,
}
use sekur_ircd.Cstring.{split_at}
use sekur_ircd.Proto.Parse.{take_trailing, raw_tokens, non_empty}

abbrev pub Without : ℕ → Bytes → Type 0
Without c = All (λ x. x ≢ c)

pub split_word : (c : ℕ) (w s : Bytes) → Without c w → split_at c (w ++ c ∷ s) ≡ some (w, s)
unfolding split_at
split_word c [] s h = ground arith
split_word c (x ∷ w) s h = rw (ne→== x c h.0, split_word c w s h.1)

pub split_none : (c : ℕ) (w : Bytes) → Without c w → split_at c w ≡ none
unfolding split_at
split_none c [] h = refl
split_none c (x ∷ w) h = rw (ne→== x c h.0, split_none c w h.1)

-- A middle parameter as it has to stand on the wire.
abbrev pub IsMiddle : Bytes → Type 0
IsMiddle [] = ⊥
IsMiddle (c ∷ s) = (c ≢ b':') × Without b' ' (c ∷ s)

abbrev pub spaced : List Bytes → Bytes
spaced [] = []
spaced (m ∷ ms) = b' ' ∷ (m ++ spaced ms)

abbrev pub trailer : Option Bytes → Bytes
trailer none = []
trailer (some t) = b' ' ∷ b':' ∷ t

abbrev put_front : Bytes → Bytes × Option Bytes → Bytes × Option Bytes
put_front w (front, trailing) = (w ++ front, trailing)

trailing_word :
    (w s : Bytes) → Without b' ' w → take_trailing (w ++ s) ≡ put_front w (take_trailing s)
unfolding take_trailing
trailing_word [] s h = refl
trailing_word (x ∷ w) s h = rw (ne→== x b' ' h.0) (ap (put_front (x ∷ [])) (trailing_word w s h.1))

trailing_space :
    (c : ℕ) (s : Bytes)
    → c ≢ b':'
    → take_trailing (b' ' ∷ c ∷ s) ≡ put_front (b' ' ∷ []) (take_trailing (c ∷ s))
unfolding take_trailing
trailing_space c s h = rw (ne→== c b':' h)

pub trailing_spaced :
    (ms : List Bytes) (t : Option Bytes)
    → All IsMiddle ms
    → take_trailing (spaced ms ++ trailer t) ≡ (spaced ms, t)
unfolding take_trailing
trailing_spaced [] none h = refl
trailing_spaced [] (some t) h = refl
trailing_spaced ([] ∷ ms) t h = absurd h.0
trailing_spaced ((c ∷ m) ∷ ms) t h =
    ap (λ s. take_trailing (b' ' ∷ c ∷ s)) (append_assoc m (spaced ms) (trailer t))
    ∙ trailing_space c (m ++ (spaced ms ++ trailer t)) h.0.0
    ∙ ap (put_front (b' ' ∷ [])) (
        trailing_word (c ∷ m) (spaced ms ++ trailer t) h.0.1
        ∙ ap (put_front (c ∷ m)) (trailing_spaced ms t h.1))

-- The first word, the middle parameters and the trailing text are told apart.
pub trailing_line :
    (w : Bytes) (ms : List Bytes) (t : Option Bytes)
    → Without b' ' w
    → All IsMiddle ms
    → take_trailing (w ++ (spaced ms ++ trailer t)) ≡ (w ++ spaced ms, t)
trailing_line w ms t h k =
    trailing_word w (spaced ms ++ trailer t) h ∙ ap (put_front w) (trailing_spaced ms t k)

IsMiddle-Without : (m : Bytes) → IsMiddle m → Without b' ' m
IsMiddle-Without [] h = absurd h
IsMiddle-Without (c ∷ m) h = h.1

tokens_one : (n : ℕ) (w : Bytes) → Without b' ' w → raw_tokens n w ≡ w ∷ []
unfolding raw_tokens
tokens_one zero w h = refl
tokens_one (suc n) w h = rw (split_none b' ' w h, raw_tokens)

tokens_more :
    (n : ℕ) (w s : Bytes) → Without b' ' w → raw_tokens (suc n) (w ++ b' ' ∷ s) ≡ w ∷ raw_tokens n s
unfolding raw_tokens
tokens_more n w s h = rw (split_word b' ' w s h, raw_tokens)

-- Within the cap, the words of a row are its tokens.
pub tokens_spaced :
    (n : ℕ) (w : Bytes) (ms : List Bytes)
    → length ms ≤ n
    → Without b' ' w
    → All IsMiddle ms
    → raw_tokens n (w ++ spaced ms) ≡ w ∷ ms
tokens_spaced n w [] h k l = ap (raw_tokens n) (append-nil w) ∙ tokens_one n w k
tokens_spaced zero w (m ∷ ms) h k l = absurd (omega arith)
tokens_spaced (suc n) w (m ∷ ms) h k l =
    tokens_more n w (m ++ spaced ms) k
    ∙ ap (◌∷◌ w) (tokens_spaced n m ms (omega arith) (IsMiddle-Without m l.0) l.1)

pub non_empty-middles : (ms : List Bytes) → All IsMiddle ms → non_empty ms ≡ ms
unfolding non_empty
non_empty-middles [] h = refl
non_empty-middles ([] ∷ ms) h = absurd h.0
non_empty-middles ((c ∷ m) ∷ ms) h = ap (◌∷◌ (c ∷ m)) (non_empty-middles ms h.1)
