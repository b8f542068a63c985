-- ===== src/WebSocket/Decoder.antt =====
-- Decoder::feed() (engine/source/common/websocket.cc).
pub mod Masking
pub mod RoundTrip
pub mod Chunks
use sortie.Prelude.{
  ℕ, zero, suc, ◌+◌, ◌-◌, ◌*◌, ◌<◌, Bool, true, false, not, ◌&&◌, ◌||◌, Option, none, some, List,
  [], ◌∷◌, ◌++◌, ltb, leb, ◌==◌, if◌then◌else◌, length, take, drop, bit_and,
}
use sortie.WebSocket.{Opcode, known, is_control, max_payload_length, Frame, Key, apply_mask}

-- The fields of the first two bytes.
pub record Header : Type 0 where
  pub fin : Bool
  pub rsv : ℕ
  pub opcode : ℕ
  pub masked : Bool
  pub length7 : ℕ

unfoldable pub header : ℕ → ℕ → Header
header b0 b1 = record {
  fin = not (bit_and b0 0x80 == 0);
  rsv = bit_and b0 0x70;
  opcode = bit_and b0 0x0F;
  masked = not (bit_and b1 0x80 == 0);
  length7 = bit_and b1 0x7F;
}

-- How many bytes of extended length follow the first two.
abbrev pub length_bytes : ℕ → ℕ
length_bytes length7 = if length7 == 126 then 2 else if length7 == 127 then 8 else 0

abbrev pub key_bytes : Bool → ℕ
key_bytes masked = if masked then 4 else 0

-- `length = (length << 8) | byte`: the low bits are clear, so `|` adds.
unfoldable pub big_endian : ℕ → List ℕ → ℕ
big_endian acc [] = acc
big_endian acc (b ∷ bs) = big_endian (acc * 256 + b) bs

-- The length of the payload, from what follows the first two bytes.
unfoldable pub payload_length : ℕ → List ℕ → ℕ
unfolding big_endian
payload_length length7 rest =
    if length_bytes length7 == 0 then length7 else big_endian 0 (take (length_bytes length7) rest)

-- The four bytes in front of the payload.
unfoldable pub read_key : List ℕ → Key
read_key (a ∷ b ∷ c ∷ d ∷ _) = record { k0 = a; k1 = b; k2 = c; k3 = d }
read_key _ = record { k0 = 0; k1 = 0; k2 = 0; k3 = 0 }

pub data Decoded : Type 0 where
  incomplete malformed : Decoded
  decoded : Frame → List ℕ → Decoded

-- The part of the loop's body behind the header: `rest` is the data without the first two bytes,
-- `n` counts the bytes of length and key, `size` is the payload's length.
unfoldable pub decode_rest : Header → Opcode → List ℕ → Decoded
unfolding payload_length read_key apply_mask
decode_rest h op rest =
    let n = length_bytes h.length7 + key_bytes h.masked in
    let size = payload_length h.length7 rest in
    let raw = take size (drop n rest) in
    let key = read_key (drop (length_bytes h.length7) rest) in
    let frame : Frame = record {
      fin = h.fin;
      opcode = op;
      payload = if h.masked then apply_mask key 0 raw else raw;
    } in
    if ltb (length rest) n
    then incomplete
    else if h.length7 == 127 && ltb max_payload_length size
    then malformed
    else if is_control op && (not h.fin || ltb 125 size)
    then malformed
    else if ltb (length rest) (n + size)
    then incomplete
    else decoded frame (drop (n + size) rest)

unfoldable pub decode_known : Header → Option Opcode → List ℕ → Decoded
decode_known h none rest = malformed
decode_known h (some op) rest = if h.rsv == 0 then decode_rest h op rest else malformed

-- One round of the loop.
unfoldable pub decode_one : List ℕ → Decoded
decode_one [] = incomplete
decode_one (b0 ∷ []) = incomplete
decode_one (b0 ∷ b1 ∷ rest) = decode_known (header b0 b1) (known (header b0 b1).opcode) rest

-- What feed() returns, the frames that it appends, and what it leaves in the buffer.
pub record Fed : Type 0 where
  pub ok : Bool
  pub frames : List Frame
  pub left : List ℕ

-- The loop; a frame takes at least two bytes, so the length of the data is fuel enough.
unfoldable pub feed_loop : ℕ → List ℕ → Fed
feed_loop zero bytes = record { ok = true; frames = []; left = bytes }
feed_loop (suc fuel) bytes = elim (decode_one bytes) [
  | incomplete ↦ record { ok = true; frames = []; left = bytes }
  | malformed ↦ record { ok = false; frames = []; left = [] }
  | decoded frame rest ↦ let fed = feed_loop fuel rest in record fed { frames = frame ∷ fed.frames }
]

unfoldable pub feed : List ℕ → Fed
unfolding feed_loop
feed bytes = feed_loop (length bytes) bytes
