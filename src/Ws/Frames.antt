-- ===== src/Ws/Frames.antt =====
-- A masked client frame, laid out as RFC 6455 says around the server's own length bytes, is decoded.
use sekur_ircd.Base.{
  ℕ, zero, suc, ◌+◌, ◌/◌, ◌%◌, ◌^◌, ◌≤◌, ◌<◌, ◌≡◌, refl, sym, ap, ◌∙◌, ◌⊎◌, inl, inr, Bool, true,
  false, not, ◌&&◌, ◌||◌, List, [], ◌∷◌, ◌++◌, ltb, leb, ◌==◌, if◌then◌else◌, Bytes, length, take,
  drop, All, append_assoc, length-append, arith, le→ltb, eq→==, ne→==, Bool-cases, ltb→lt, ltb→le,
}
use sekur_ircd.Ws.{
  ws_max_payload, length_bytes, frame, byte_at, unmask, decode_body, decode_length, ws_decode_frame,
}
use sekur_ircd.Ws.Xor.{bit_xor_twice}

module _ {ℓ} {A : Type ℓ} where
  drop_front : (xs ys : List A) → drop (length xs) (xs ++ ys) ≡ ys
  drop_front [] ys = refl
  drop_front (x ∷ xs) ys = drop_front xs ys

  take_front : (xs ys : List A) → take (length xs) (xs ++ ys) ≡ xs
  take_front [] ys = refl
  take_front (x ∷ xs) ys = ap (◌∷◌ x) (take_front xs ys)

abbrev pub IsByte : ℕ → Type 0
IsByte b = b < 256

byte_at-IsByte : (bs : Bytes) (i : ℕ) → All IsByte bs → IsByte (byte_at bs i)
byte_at-IsByte [] i h = omega arith
byte_at-IsByte (b ∷ bs) zero h = h.0
byte_at-IsByte (b ∷ bs) (suc i) h = byte_at-IsByte bs i h.1

pub length-unmask : (mask : Bytes) (i : ℕ) (bs : Bytes) → length (unmask mask i bs) ≡ length bs
unfolding unmask
length-unmask mask i [] = refl
length-unmask mask i (b ∷ bs) = ap suc (length-unmask mask (i + 1) bs)

unmask_twice :
    (mask : Bytes) (i : ℕ) (bs : Bytes)
    → All IsByte mask
    → All IsByte bs
    → unmask mask i (unmask mask i bs) ≡ bs
unfolding unmask
unmask_twice mask i [] h k = refl
unmask_twice mask i (b ∷ bs) h k =
    rw (bit_xor_twice b (byte_at mask (i % 4)) k.0 (byte_at-IsByte mask (i % 4) h))
      (ap (◌∷◌ b) (unmask_twice mask (i + 1) bs h k.1))

-- Control frames are short and whole.
abbrev pub ControlFits : ℕ → Bool → ℕ → Type 0
ControlFits opcode fin len = 8 ≤ opcode → (len ≤ 125) × (fin ≡ true)

control_passes :
    (opcode len : ℕ) (fin : Bool)
    → ControlFits opcode fin len
    → (leb 8 opcode && (ltb 125 len || not fin)) ≡ false
control_passes opcode len fin h = elim (Bool-cases (ltb opcode 8)) [
  | inl e ↦ small opcode (ltb→lt opcode 8 e)
  | inr e ↦ control (h (ltb→le opcode 8 e))
]
  where
    small : (o : ℕ) → o < 8 → (leb 8 o && (ltb 125 len || not fin)) ≡ false
    small o k = ground arith

    control : (len ≤ 125) × (fin ≡ true) → (leb 8 opcode && (ltb 125 len || not fin)) ≡ false
    control (k, f) = ground arith

module _ (opcode : ℕ) (fin : Bool) (mask payload rest : Bytes)
    (short : length payload ≤ ws_max_payload) (control : ControlFits opcode fin (length payload))
    (mask_bytes : All IsByte mask) (bytes : All IsByte payload) (four : length mask ≡ 4) where
  abbrev masked : Bytes
  masked = unmask mask 0 payload

  -- Behind a header of any size.
  decode_body-masked :
      (pre : Bytes)
      → decode_body (pre ++ (mask ++ (masked ++ rest))) opcode fin (length payload) (length pre)
        ≡ frame opcode fin payload (length pre + 4 + length payload)
  unfolding decode_body
  decode_body-masked pre =
      let input = pre ++ (mask ++ (masked ++ rest)) in
      let size : length input ≡ length pre + 4 + length payload + length rest = omega (
        arith,
        length-append pre (mask ++ (masked ++ rest)),
        length-append mask (masked ++ rest),
        length-append masked rest,
        length-unmask mask 0 payload,
        four,
      ) in
      let at_mask : take 4 (drop (length pre) input) ≡ mask =
        ap (take 4) (drop_front pre (mask ++ (masked ++ rest)))
        ∙ ap (λ k. take k (mask ++ (masked ++ rest))) (sym four)
        ∙ take_front mask (masked ++ rest) in
      let at_payload : drop (length pre + 4) input ≡ masked ++ rest =
        ap (λ k. drop k input) {y = length (pre ++ mask)}
          (omega (arith, length-append pre mask, four))
        ∙ ap (drop (length (pre ++ mask))) (sym (append_assoc pre mask (masked ++ rest)))
        ∙ drop_front (pre ++ mask) (masked ++ rest) in
      let read : take (length payload) (masked ++ rest) ≡ masked =
        ap (λ k. take k (masked ++ rest)) (sym (length-unmask mask 0 payload))
        ∙ take_front masked rest in
      rw
        (
          le→ltb ws_max_payload (length payload) short,
          control_passes opcode (length payload) fin control,
          le→ltb (length input) (length pre + 4 + length payload) (omega (arith, size)),
        )
        (ap (λ p. frame opcode fin p (length pre + 4 + length payload))
          (ap (λ m. unmask m 0 (take (length payload) (drop (length pre + 4) input))) at_mask
            ∙ ap (λ d. unmask mask 0 (take (length payload) d)) at_payload
            ∙ ap (unmask mask 0) read
            ∙ unmask_twice mask 0 payload mask_bytes bytes))

-- The first byte of a frame, and the length bytes with the mask bit set.
abbrev pub first_byte : Bool → ℕ → ℕ
first_byte fin opcode = (if fin then 128 else 0) + opcode

abbrev pub set_mask_bit : Bytes → Bytes
set_mask_bit [] = []
set_mask_bit (b ∷ bs) = (b + 128) ∷ bs

abbrev pub client_header : Bool → ℕ → ℕ → Bytes
client_header fin opcode len = first_byte fin opcode ∷ set_mask_bit (length_bytes len)

-- A client's frame with its masking key.
abbrev pub client_frame : Bool → ℕ → Bytes → Bytes → Bytes
client_frame fin opcode mask payload =
    client_header fin opcode (length payload) ++ (mask ++ unmask mask 0 payload)

first_byte_fields :
    (fin : Bool) (opcode : ℕ)
    → opcode < 16
    → ((first_byte fin opcode / 16 % 8 == 0) ≡ true)
      × (first_byte fin opcode % 16 ≡ opcode)
      × ((first_byte fin opcode / 128 % 2 == 1) ≡ fin)
first_byte_fields true opcode h = (eq→== _ 0 (omega arith), omega arith, eq→== _ 1 (omega arith))
first_byte_fields false opcode h = (eq→== _ 0 (omega arith), omega arith, ne→== _ 1 (omega arith))

-- The first two bytes of a client's frame are read as they were meant.
decode_head :
    (fin : Bool) (opcode len : ℕ) (rest : Bytes)
    → opcode < 16
    → len < 128
    → ws_decode_frame (first_byte fin opcode ∷ (len + 128) ∷ rest)
      ≡ decode_length (first_byte fin opcode ∷ (len + 128) ∷ rest) opcode fin len
unfolding ws_decode_frame
decode_head fin opcode len rest h k =
    let f = first_byte_fields fin opcode h in
    rw
      (
        le→ltb (length (first_byte fin opcode ∷ (len + 128) ∷ rest)) 2 (omega arith),
        f.0,
        eq→== ((len + 128) / 128 % 2) 1 (omega arith),
      )
      (ap (λ o. decode_length input o (first_byte fin opcode / 128 % 2 == 1) ((len + 128) % 128))
          f.1
        ∙ ap (λ b. decode_length input opcode b ((len + 128) % 128)) f.2
        ∙ ap (decode_length input opcode fin) {x = (len + 128) % 128} {y = len} (omega arith))
  where
    input : Bytes
    input = first_byte fin opcode ∷ (len + 128) ∷ rest

-- A length below 126 stands in the second byte.
length_small :
    (input : Bytes) (opcode : ℕ) (fin : Bool) (len : ℕ)
    → len < 126
    → decode_length input opcode fin len ≡ decode_body input opcode fin len 2
unfolding decode_length
length_small input opcode fin len h = rw (ne→== len 126 (omega arith), ne→== len 127 (omega arith))

-- A length of two bytes stands behind 126.
length_two :
    (a b : ℕ) (opcode : ℕ) (fin : Bool) (len : ℕ) (rest : Bytes)
    → len < 2 ^ 16
    → decode_length (a ∷ b ∷ (len / 256 % 256) ∷ (len % 256) ∷ rest) opcode fin 126
      ≡ decode_body (a ∷ b ∷ (len / 256 % 256) ∷ (len % 256) ∷ rest) opcode fin len 4
unfolding decode_length
length_two a b opcode fin len rest h =
    let input = a ∷ b ∷ (len / 256 % 256) ∷ (len % 256) ∷ rest in
    rw (le→ltb (length input) 4 (omega arith))
      (ap (λ l. decode_body input opcode fin l 4) {y = len} (omega arith))

length_bytes_cases :
    (len : ℕ)
    → len ≤ ws_max_payload
    → ((len < 126) × (length_bytes len ≡ len ∷ []))
      ⊎ ((126 ≤ len) × (length_bytes len ≡ 126 ∷ (len / 256 % 256) ∷ (len % 256) ∷ []))
unfolding length_bytes
length_bytes_cases len h = elim (Bool-cases (ltb len 126)) [
  | inl e ↦ inl (ltb→lt len 126 e, rw e)
  | inr e ↦ inr (ltb→le len 126 e, rw (e, two_bytes len h))
]
  where
    two_bytes : (len : ℕ) → len ≤ ws_max_payload → leb len 0xffff ≡ true
    two_bytes len h = ground arith

-- A client frame with a four byte key, whose opcode fits four bits, whose payload is at most 4000
-- bytes and whose control frames are short and whole, is decoded to its opcode, flag and unmasked
-- payload, and consumed to its last byte, whatever follows it in the buffer.
pub ws_decode_frame-client_frame :
    (fin : Bool) (opcode : ℕ) (mask payload rest : Bytes)
    → opcode < 16
    → length payload ≤ ws_max_payload
    → ControlFits opcode fin (length payload)
    → All IsByte mask
    → All IsByte payload
    → length mask ≡ 4
    → ws_decode_frame (client_frame fin opcode mask payload ++ rest)
      ≡ frame opcode fin payload (length (client_frame fin opcode mask payload))
ws_decode_frame-client_frame fin opcode mask payload rest op short control m p four =
    let len = length payload in
    let masked = unmask mask 0 payload in
    let line = λ (pre : Bytes).
      append_assoc pre (mask ++ masked) rest ∙ ap (◌++◌ pre) (append_assoc mask masked rest) in
    let size = λ (pre : Bytes). total pre mask masked payload four (length-unmask mask 0 payload) in
    let body = decode_body-masked opcode fin mask payload rest short control m p four in
    elim (length_bytes_cases len short) [
      | inl (h, e) ↦
          let pre = first_byte fin opcode ∷ (len + 128) ∷ [] in
          rw e (
            ap ws_decode_frame (line pre)
            ∙ decode_head fin opcode len (mask ++ (masked ++ rest)) op (omega arith)
            ∙ length_small (pre ++ (mask ++ (masked ++ rest))) opcode fin len h
            ∙ body pre
            ∙ ap (frame opcode fin payload) (sym (size pre)))
      | inr (h, e) ↦
          let pre = first_byte fin opcode ∷ (126 + 128) ∷ (len / 256 % 256) ∷ (len % 256) ∷ [] in
          let behind = (len / 256 % 256) ∷ (len % 256) ∷ (mask ++ (masked ++ rest)) in
          rw e (
            ap ws_decode_frame (line pre)
            ∙ decode_head fin opcode 126 behind op (omega arith)
            ∙ length_two (first_byte fin opcode) (126 + 128) opcode fin len
                (mask ++ (masked ++ rest)) (omega arith)
            ∙ body pre
            ∙ ap (frame opcode fin payload) (sym (size pre)))
    ]
  where
    total :
        (pre mask masked payload : Bytes)
        → length mask ≡ 4
        → length masked ≡ length payload
        → length (pre ++ (mask ++ masked)) ≡ length pre + 4 + length payload
    total pre mask masked payload f g =
        omega (arith, length-append pre (mask ++ masked), length-append mask masked, f, g)
