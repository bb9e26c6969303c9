-- ===== src/Proto/Proxy/Stream.antt =====
-- The parser's verdicts on a stream that arrives in pieces.
use sekur_ircd.Base.{
  ℕ, zero, suc, ◌+◌, ◌*◌, ◌/◌, ◌%◌, ◌≤◌, ◌≡◌, ◌≢◌, refl, ap, subst, ◌∙◌, inl, inr, Bool, false, not,
  ◌&&◌, ◌||◌, [], ◌∷◌, ◌++◌, ltb, ◌==◌, if◌then◌else◌, Bytes, length, take, drop, length-append,
  length-drop, arith, Bool-cases, ltb→lt, ltb→le, le→ltb,
}
use sekur_ircd.Proto.Proxy.{
  Proxied, bad, incomplete, signature, begins_signature, proxy_address, proxy_body,
  irc_proxy_v2_parse,
}

-- A verdict that does not wait for more.
abbrev pub Settled : Proxied → Type 0
Settled r = r ≢ incomplete

begins-append :
    (sig buf more : Bytes)
    → begins_signature sig buf ≡ false
    → begins_signature sig (buf ++ more) ≡ false
unfolding begins_signature
begins-append [] buf more h = absurd (ground (arith, h))
begins-append (x ∷ sig) [] more h = absurd (ground (arith, h))
begins-append (x ∷ sig) (y ∷ buf) more h = elim (Bool-cases (y == x)) [
  | inr f ↦ rw f refl
  | inl t ↦
      rw t (begins-append sig buf more (subst (λ b. (b && begins_signature sig buf) ≡ false) t h))
]

begins-long :
    (sig buf more : Bytes)
    → length sig ≤ length buf
    → begins_signature sig (buf ++ more) ≡ begins_signature sig buf
unfolding begins_signature
begins-long [] buf more h = refl
begins-long (x ∷ sig) [] more h = absurd (omega arith)
begins-long (x ∷ sig) (y ∷ buf) more h =
    ap (λ b. y == x && b) (begins-long sig buf more (omega arith))

take-append : (n : ℕ) (s more : Bytes) → n ≤ length s → take n (s ++ more) ≡ take n s
take-append zero s more h = refl
take-append (suc n) [] more h = absurd (omega arith)
take-append (suc n) (c ∷ s) more h = ap (◌∷◌ c) (take-append n s more (omega arith))

drop-append : (n : ℕ) (s more : Bytes) → n ≤ length s → drop n (s ++ more) ≡ drop n s ++ more
drop-append zero s more h = refl
drop-append (suc n) [] more h = absurd (omega arith)
drop-append (suc n) (c ∷ s) more h = drop-append n s more (omega arith)

proxy_body-append :
    (ipsz : ℕ) (b more : Bytes)
    → Settled (proxy_body ipsz b)
    → proxy_body ipsz (b ++ more) ≡ proxy_body ipsz b
unfolding proxy_body
proxy_body-append ipsz [] more h = absurd (h refl)
proxy_body-append ipsz (v ∷ []) more h = absurd (h refl)
proxy_body-append ipsz (v ∷ f ∷ []) more h = absurd (h refl)
proxy_body-append ipsz (v ∷ f ∷ hi ∷ []) more h = absurd (h refl)
proxy_body-append ipsz (v ∷ f ∷ hi ∷ lo ∷ rest) more h =
    let alen = hi * 256 + lo in
    elim (Bool-cases (not (v / 16 == 2) || ltb 512 alen)) [
      | inl t ↦ rw t refl
      | inr g ↦ elim (Bool-cases (ltb (length rest) alen)) [
        | inl short ↦ absurd (h (rw (g, short) refl))
        | inr whole ↦
            let le = ltb→le (length rest) alen whole in
            let long =
              le→ltb (length (rest ++ more)) alen (omega (arith, le, length-append rest more)) in
            rw (g, whole, long)
              (ap (λ a. proxy_address ipsz (v % 16) f a alen) (take-append alen rest more le))
      ]
    ]

-- Fewer than sixteen bytes settle nothing but a wrong signature.
proxy_body-short :
    (ipsz : ℕ) (buf : Bytes) → Settled (proxy_body ipsz (drop 12 buf)) → 12 ≤ length buf
unfolding proxy_body
proxy_body-short ipsz buf h = elim (Bool-cases (ltb (length buf) 12)) [
  | inr f ↦ ltb→le (length buf) 12 f
  | inl t ↦ absurd (
      h (
        ap (proxy_body ipsz)
          (nothing (drop 12 buf) (omega (arith, length-drop 12 buf, ltb→lt (length buf) 12 t)))))
]
  where
    nothing : (s : Bytes) → length s ≡ 0 → s ≡ []
    nothing [] e = refl
    nothing (c ∷ s) e = absurd (omega (arith, e))

-- A header that the parser has accepted or refused is accepted with the same address, port and
-- length, or refused, whatever bytes follow it, so that the verdict does not depend on how the stream
-- was cut into reads.
pub irc_proxy_v2_parse-append :
    (ipsz : ℕ) (buf more : Bytes)
    → Settled (irc_proxy_v2_parse ipsz buf)
    → irc_proxy_v2_parse ipsz (buf ++ more) ≡ irc_proxy_v2_parse ipsz buf
unfolding irc_proxy_v2_parse
irc_proxy_v2_parse-append ipsz buf more h = elim (Bool-cases (begins_signature signature buf)) [
  | inr f ↦ rw (f, begins-append signature buf more f) refl
  | inl t ↦
      let s : Settled (proxy_body ipsz (drop 12 buf)) =
        subst (λ (b : Bool). Settled (if not b then bad else proxy_body ipsz (drop 12 buf))) t h in
      let long = proxy_body-short ipsz buf s in
      rw (t, begins-long signature buf more long ∙ t)
        (ap (proxy_body ipsz) (drop-append 12 buf more long)
          ∙ proxy_body-append ipsz (drop 12 buf) more s)
]
