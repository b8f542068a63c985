-- ===== src/WebSocket/Examples.antt =====
-- Concrete frames, and the theorems applied to them.

use sortie.Prelude.{ℕ, ◌≡◌, refl, true, Option, none, some, List, [], ◌∷◌, ◌++◌, arith}
use sortie.WebSocket.Decoder.Chunks.{feed-append}
use sortie.WebSocket.Decoder.{decode_rest, header, decode_known, feed, decode_one}
use sortie.WebSocket.Decoder.Masking.{IsKey}
use sortie.WebSocket.Decoder.RoundTrip.{feed-encode_all, encode_all, CanEncode}
use sortie.WebSocket.{
  known, extended_length, length_code, text, apply_mask, encode_frame, Frame, Key,
}

abbrev mask : Key
mask = record { k0 = 0x37; k1 = 0xFA; k2 = 0x21; k3 = 0x3D }

abbrev hello : Frame
hello = record { fin = true; opcode = text; payload = 0x48 ∷ 0x65 ∷ 0x6C ∷ 0x6C ∷ 0x6F ∷ [] }

-- The masked "Hello" of RFC 6455, 5.7.
rfc_hello :
    encode_frame (some mask) hello
    ≡ 0x81 ∷ 0x85 ∷ 0x37 ∷ 0xFA ∷ 0x21 ∷ 0x3D ∷ 0x7F ∷ 0x9F ∷ 0x4D ∷ 0x51 ∷ 0x58 ∷ []
unfolding encode_frame length_code extended_length apply_mask
rfc_hello = refl

hello-CanEncode : CanEncode hello
hello-CanEncode = record {
  bytes = (omega arith, (omega arith, (omega arith, (omega arith, (omega arith, tt)))));
  small = omega arith;
  control_fin = λ h. refl;
  control_size = λ h. omega arith;
}

mask-IsKey : IsKey mask
mask-IsKey = record {
  byte0 = omega arith;
  byte1 = omega arith;
  byte2 = omega arith;
  byte3 = omega arith;
}

abbrev twice : List (Option Key × Frame)
twice = (some mask, hello) ∷ (none, hello) ∷ []

feed-encode_all_example :
    feed (encode_all twice ++ 0x8A ∷ [])
    ≡ record { ok = true; frames = hello ∷ hello ∷ []; left = 0x8A ∷ [] }
unfolding decode_one
feed-encode_all_example =
    feed-encode_all twice (0x8A ∷ []) ((hello-CanEncode, mask-IsKey), ((hello-CanEncode, tt), tt))
      refl

-- One frame and the first byte of the next, then the rest of that one.
abbrev piece : List ℕ
piece = 0x81 ∷ 0x02 ∷ 0x68 ∷ 0x69 ∷ 0x89 ∷ []

feed-append_example : feed (piece ++ 0x00 ∷ []) ≡ (
    let rest = feed ((feed piece).left ++ 0x00 ∷ []) in
    record rest { frames = (feed piece).frames ++ rest.frames })
unfolding feed decode_one decode_known known header decode_rest
feed-append_example = feed-append piece (0x00 ∷ []) refl
