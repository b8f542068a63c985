-- ===== src/WebSocket.antt =====
-- engine/source/common/websocket.{h,cc}: the frames of RFC 6455. A byte is a number below 256, a
-- std::string or buffer a list of bytes.
pub mod Decoder
mod Examples
use sortie.Prelude.{
  ℕ, zero, suc, ◌+◌, ◌-◌, ◌*◌, ◌/◌, ◌%◌, ◌^◌, ◌<◌, Bool, true, false, not, ◌&&◌, ◌||◌, Option, none,
  some, List, [], ◌∷◌, ◌++◌, ltb, leb, ◌==◌, if◌then◌else◌, length, take, drop, All, bit_and,
  bit_or, bit_xor,
}

pub data Opcode : Type 0 where
  continuation text binary close ping pong : Opcode

-- The enumerators' values.
abbrev pub code : Opcode → ℕ
code continuation = 0x0
code text = 0x1
code binary = 0x2
code close = 0x8
code ping = 0x9
code pong = 0xA

-- isKnown() and the cast of a known code.
unfoldable pub known : ℕ → Option Opcode
known c =
    if c == 0x0
    then some continuation
    else if c == 0x1
    then some text
    else if c == 0x2
    then some binary
    else if c == 0x8
    then some close
    else if c == 0x9
    then some ping
    else if c == 0xA
    then some pong
    else none

abbrev pub is_control : Opcode → Bool
is_control opcode = leb 0x8 (code opcode)

-- kMaxPayloadLength: 64 MiB.
abbrev pub max_payload_length : ℕ
max_payload_length = 67108864

pub record Frame : Type 0 where
  pub fin : Bool
  pub opcode : Opcode
  pub payload : List ℕ

-- uint8_t key[4].
pub record Key : Type 0 where
  pub k0 : ℕ
  pub k1 : ℕ
  pub k2 : ℕ
  pub k3 : ℕ

-- key[i % 4].
abbrev pub key_at : Key → ℕ → ℕ
key_at key i =
    if i % 4 == 0
    then key.k0
    else if i % 4 == 1
    then key.k1
    else if i % 4 == 2
    then key.k2
    else key.k3

-- The loop of applyMask(), from the index `i` on.
unfoldable pub apply_mask : Key → ℕ → List ℕ → List ℕ
apply_mask key i [] = []
apply_mask key i (x ∷ xs) = bit_xor x (key_at key i) ∷ apply_mask key (i + 1) xs

-- The bytes of a length, most significant first: `(length >> shift) & 0xFF`.
unfoldable pub extended_length : ℕ → List ℕ
extended_length n =
    if ltb n 126
    then []
    else if leb n 0xFFFF
    then n / 2 ^ 8 % 256 ∷ n % 256 ∷ []
    else n / 2 ^ 56 % 256
      ∷ n / 2 ^ 48 % 256
      ∷ n / 2 ^ 40 % 256
      ∷ n / 2 ^ 32 % 256
      ∷ n / 2 ^ 24 % 256
      ∷ n / 2 ^ 16 % 256
      ∷ n / 2 ^ 8 % 256
      ∷ n % 256
      ∷ []

unfoldable pub length_code : ℕ → ℕ
length_code n = if ltb n 126 then n else if leb n 0xFFFF then 126 else 127

-- encodeFrame(): the random key of a masked frame is an argument.
unfoldable pub encode_frame : Option Key → Frame → List ℕ
encode_frame none frame =
    bit_or (if frame.fin then 0x80 else 0x00) (code frame.opcode)
    ∷ bit_or 0x00 (length_code (length frame.payload))
    ∷ (extended_length (length frame.payload) ++ frame.payload)
encode_frame (some key) frame =
    bit_or (if frame.fin then 0x80 else 0x00) (code frame.opcode)
    ∷ bit_or 0x80 (length_code (length frame.payload))
    ∷ (extended_length (length frame.payload)
        ++ (key.k0 ∷ key.k1 ∷ key.k2 ∷ key.k3 ∷ apply_mask key 0 frame.payload))

unfoldable pub close_frame : ℕ → Frame
close_frame status = record {
  fin = true;
  opcode = close;
  payload = status / 2 ^ 8 % 256 ∷ status % 256 ∷ [];
}
