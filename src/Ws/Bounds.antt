-- ===== src/Ws/Bounds.antt =====
-- What `ws_decode_frame` hands on, whatever bytes a client sends.
use sekur_ircd.Base.{
  ℕ, ◌+◌, ◌*◌, ◌/◌, ◌%◌, ◌≤◌, ◌<◌, ◌≡◌, refl, inl, inr, Bool, true, false, not, ◌&&◌, ◌||◌, ltb,
  leb, ◌==◌, if◌then◌else◌, Bytes, length, take, drop, arith, Bool-cases, ltb→le, length-take-le,
}
use sekur_ircd.Ws.{
  ws_max_payload, Decoded, more, violation, frame, byte_at, unmask, decode_body, decode_length,
  ws_decode_frame, read_big_endian,
}
use sekur_ircd.Ws.Frames.{ControlFits, length-unmask}

-- The frame lies within the input, its payload within WS_MAX_PAYLOAD and within what was consumed
-- behind the key, and a control frame is short and whole.
abbrev pub Within : ℕ → Decoded → Type 0
Within inlen more = Unit
Within inlen violation = Unit
Within inlen (frame opcode fin payload consumed) =
    (consumed ≤ inlen)
    × (length payload + 6 ≤ consumed)
    × (length payload ≤ ws_max_payload)
    × (opcode < 16)
    × ControlFits opcode fin (length payload)

control_fits :
    (opcode len n : ℕ) (fin : Bool)
    → (leb 8 opcode && (ltb 125 len || not fin)) ≡ false
    → n ≤ len
    → ControlFits opcode fin n
control_fits opcode len n true e k h = (ground arith, refl)
control_fits opcode len n false e k h = ground arith

decode_body-Within :
    (input : Bytes) (opcode : ℕ) (fin : Bool) (len h : ℕ)
    → opcode < 16
    → 2 ≤ h
    → Within (length input) (decode_body input opcode fin len h)
unfolding decode_body
decode_body-Within input opcode fin len h op k = elim (Bool-cases (ltb ws_max_payload len)) [
  | inl e ↦ rw e tt
  | inr e ↦ elim (Bool-cases (leb 8 opcode && (ltb 125 len || not fin))) [
    | inl c ↦ rw (e, c) tt
    | inr c ↦ elim (Bool-cases (ltb (length input) (h + 4 + len))) [
      | inl m ↦ rw (e, c, m) tt
      | inr m ↦
          let key = take 4 (drop h input) in
          let text = take len (drop (h + 4) input) in
          let size = length-unmask key 0 text in
          let most = length-take-le len (drop (h + 4) input) in
          rw (e, c, m)
            (
              ltb→le (length input) (h + 4 + len) m,
              omega (arith, size, most),
              omega (arith, size, most, ltb→le ws_max_payload len e),
              op,
              control_fits opcode len (length (unmask key 0 text)) fin c
                  (omega (arith, size, most)),
            )
    ]
  ]
]

guarded :
    (inlen : ℕ) (bad : Bool) (r : Decoded)
    → Within inlen r
    → Within inlen (if bad then violation else r)
guarded inlen true r h = tt
guarded inlen false r h = h

decode_length-Within :
    (input : Bytes) (opcode : ℕ) (fin : Bool) (len : ℕ)
    → opcode < 16
    → Within (length input) (decode_length input opcode fin len)
unfolding decode_length
decode_length-Within input opcode fin len op =
    let two = byte_at input 2 * 256 + byte_at input 3 in
    let eight = read_big_endian 0 (take 8 (drop 2 input)) in
    elim (Bool-cases (len == 126)) [
      | inl e ↦ elim (Bool-cases (ltb (length input) 4)) [
        | inl m ↦ rw (e, m) tt
        | inr m ↦ rw (e, m) (decode_body-Within input opcode fin two 4 op (omega arith))
      ]
      | inr e ↦ elim (Bool-cases (len == 127)) [
        | inr f ↦ rw (e, f) (decode_body-Within input opcode fin len 2 op (omega arith))
        | inl f ↦ elim (Bool-cases (ltb (length input) 10)) [
          | inl m ↦ rw (e, f, m) tt
          | inr m ↦
              rw (e, f, m)
                (guarded (length input) (ltb ws_max_payload eight)
                  (decode_body input opcode fin eight 10)
                  (decode_body-Within input opcode fin eight 10 op (omega arith)))
        ]
      ]
    ]

-- For every input, a decoded frame lies within the input, its payload is at most 4000 bytes and at
-- least 6 shorter than what is consumed, and a control frame is at most 125 bytes and final.
pub ws_decode_frame-Within : (input : Bytes) → Within (length input) (ws_decode_frame input)
unfolding ws_decode_frame
ws_decode_frame-Within input = elim (Bool-cases (ltb (length input) 2)) [
  | inl e ↦ rw e tt
  | inr e ↦ elim (Bool-cases (byte_at input 0 / 16 % 8 == 0)) [
    | inr r ↦ rw (e, r) tt
    | inl r ↦ elim (Bool-cases (byte_at input 1 / 128 % 2 == 1)) [
      | inr m ↦ rw (e, r, m) tt
      | inl m ↦
          rw (e, r, m)
            (decode_length-Within input (byte_at input 0 % 16) (byte_at input 0 / 128 % 2 == 1)
              (byte_at input 1 % 128) (omega arith))
    ]
  ]
]
