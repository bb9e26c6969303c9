-- ===== src/Ws.antt =====
-- src/ws.c: WebSocket frames, `ws_frame_header`, `ws_encode_frame` and `ws_decode_frame`. Bytes are
-- numbers below 256, and a bit field of a byte is written by division and remainder.
pub mod Xor
pub mod Frames
pub mod Bounds
use Prim.Native.Nat.{bit_xor}
use sekur_ircd.Base.{
  ℕ, zero, suc, ◌+◌, ◌-◌, ◌*◌, ◌/◌, ◌%◌, ◌^◌, Bool, true, false, not, ◌&&◌, ◌||◌, List, [], ◌∷◌,
  ◌++◌, Option, none, some, ltb, leb, ◌==◌, if◌then◌else◌, Bytes, length, take, drop,
}

-- WS_MAX_PAYLOAD
abbrev pub ws_max_payload : ℕ
ws_max_payload = 4000

-- `for (int i = 7; i >= 0; i--) out[h++] = len >> (8 * i)`, for the lowest `n` bytes
unfoldable pub big_endian : ℕ → ℕ → Bytes
big_endian zero len = []
big_endian (suc n) len = len / 2 ^ (8 * n) % 256 ∷ big_endian n len

-- The second byte and the extended length.
unfoldable pub length_bytes : ℕ → Bytes
unfolding big_endian
length_bytes len =
    if ltb len 126
    then len ∷ []
    else if leb len 0xffff
    then 126 ∷ len / 256 % 256 ∷ len % 256 ∷ []
    else 127 ∷ big_endian 8 len

unfoldable pub ws_frame_header : ℕ → ℕ → Bytes
unfolding length_bytes
ws_frame_header opcode len = (0x80 + opcode % 16) ∷ length_bytes len

unfoldable pub ws_encode_frame : ℕ → Bytes → Bytes
unfolding ws_frame_header
ws_encode_frame opcode payload = ws_frame_header opcode (length payload) ++ payload

-- 0, -1 and 1 of `ws_decode_frame`, the last with its outputs.
pub data Decoded : Type 0 where
  more : Decoded
  violation : Decoded
  frame : (opcode : ℕ) (fin : Bool) (payload : Bytes) (consumed : ℕ) → Decoded

-- A byte of the input; every read below is within it.
abbrev pub byte_at : Bytes → ℕ → ℕ
byte_at [] i = 0
byte_at (b ∷ bs) zero = b
byte_at (b ∷ bs) (suc i) = byte_at bs i

-- `p[i] ^= mask[i & 3]`, from position `i` on
unfoldable pub unmask : Bytes → ℕ → Bytes → Bytes
unmask mask i [] = []
unmask mask i (b ∷ bs) = bit_xor b (byte_at mask (i % 4)) ∷ unmask mask (i + 1) bs

-- `l = (l << 8) | in[2 + i]`, in 64 bits, over the given bytes
unfoldable pub read_big_endian : ℕ → Bytes → ℕ
read_big_endian l [] = l
read_big_endian l (b ∷ bs) = read_big_endian ((l * 256 + b) % 2 ^ 64) bs

-- Behind the length: `h` is the size of the header so far.
unfoldable pub decode_body : Bytes → ℕ → Bool → ℕ → ℕ → Decoded
unfolding unmask
decode_body input opcode fin len h =
    if ltb ws_max_payload len
    then violation
    else if leb 8 opcode && (ltb 125 len || not fin)
    then violation
    else if ltb (length input) (h + 4 + len)
    then more
    else frame opcode fin (unmask (take 4 (drop h input)) 0 (take len (drop (h + 4) input)))
        (h + 4 + len)

unfoldable pub decode_length : Bytes → ℕ → Bool → ℕ → Decoded
unfolding read_big_endian decode_body
decode_length input opcode fin len =
    if len == 126
    then (if ltb (length input) 4
        then more
        else decode_body input opcode fin (byte_at input 2 * 256 + byte_at input 3) 4)
    else if len == 127
    then (if ltb (length input) 10
        then more
        else if ltb ws_max_payload (read_big_endian 0 (take 8 (drop 2 input)))
        then violation
        else decode_body input opcode fin (read_big_endian 0 (take 8 (drop 2 input))) 10)
    else decode_body input opcode fin len 2

unfoldable pub ws_decode_frame : Bytes → Decoded
unfolding decode_length
ws_decode_frame input =
    if ltb (length input) 2
    then more
    else if not (byte_at input 0 / 16 % 8 == 0)
    then violation
    else if not (byte_at input 1 / 128 % 2 == 1)
    then violation
    else decode_length input (byte_at input 0 % 16) (byte_at input 0 / 128 % 2 == 1)
        (byte_at input 1 % 128)
