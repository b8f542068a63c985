-- ===== src/WebSocket/Decoder/RoundTrip.antt =====
-- encodeFrame() and Decoder::feed() (engine/source/common/websocket.cc).
use sortie.Prelude.{
  ◌^◌, zero, suc, ℕ, ◌+◌, ◌*◌, ◌/◌, ◌%◌, ◌≤◌, ◌<◌, ◌≡◌, refl, sym, ap, ◌∙◌, inl, inr, Bool, true,
  false, not, ◌&&◌, ◌||◌, Option, none, some, List, [], ◌∷◌, ◌++◌, map, arith, ltb, leb, ◌==◌,
  if◌then◌else◌, Bool-cases, length, drop, length-append, take-append, drop-append, All, bit_and,
  bit_or,
}
use mathlib.Core.List.{append_assoc}
use sortie.WebSocket.{
  Opcode, code, known, is_control, continuation, text, Frame, Key, apply_mask, extended_length,
  length_code, encode_frame, max_payload_length,
}
use sortie.WebSocket.Decoder.{
  incomplete, Header, header, length_bytes, key_bytes, payload_length, read_key, decoded,
  decode_rest, decode_known, decode_one, feed_loop, feed,
}
use sortie.WebSocket.Decoder.Masking.{
  apply_mask_twice, IsByte, IsKey, length-apply_mask, apply_mask_twice,
}
use sortie.Prelude.Bits.{masked_length, plain_length}

-- A frame that the protocol allows and that the engine's limit on payloads does not exclude.
pub record CanEncode (frame : Frame) : Type 0 where
  pub bytes : All IsByte frame.payload
  pub small : length frame.payload ≤ max_payload_length
  pub control_fin : is_control frame.opcode ≡ true → frame.fin ≡ true
  pub control_size : is_control frame.opcode ≡ true → length frame.payload ≤ 125

-- A frame is sent plain, or masked with a key of four bytes.
abbrev pub IsMask : Option Key → Type 0
IsMask none = Unit {0}
IsMask (some key) = IsKey key

first_byte :
    (fin : Bool) (op : Opcode) (b1 : ℕ)
    → header (bit_or (if fin then 0x80 else 0x00) (code op)) b1 ≡ record {
      fin = fin;
      rsv = 0;
      opcode = code op;
      masked = not (bit_and b1 0x80 == 0);
      length7 = bit_and b1 0x7F;
    }
unfolding header
first_byte true continuation b1 = refl
first_byte false continuation b1 = refl
first_byte true text b1 = refl
first_byte true _ b1 = refl
first_byte false _ b1 = refl

known-code : (op : Opcode) → known (code op) ≡ some op
unfolding known
known-code continuation = refl
known-code _ = refl

length-extended_length : (n : ℕ) → length (extended_length n) ≡ length_bytes (length_code n)
unfolding extended_length length_code
length-extended_length n = ground arith

length_code-lt : (n : ℕ) → length_code n < 128
unfolding length_code
length_code-lt n = ground arith

-- Of the eight bytes the first four are 0.
top_bytes :
    (n : ℕ)
    → n ≤ max_payload_length
    → ((((((((0 + n / 2 ^ 56 % 256) * 256 + n / 2 ^ 48 % 256) * 256 + n / 2 ^ 40 % 256) * 256
                        + n / 2 ^ 32 % 256)
                      * 256
                    + n / 2 ^ 24 % 256)
                  * 256
                + n / 2 ^ 16 % 256)
              * 256
            + n / 2 ^ 8 % 256)
          * 256
        + n % 256)
      ≡ n
top_bytes n h = omega arith

payload_length-extended :
    (n : ℕ) (more : List ℕ)
    → n ≤ max_payload_length
    → payload_length (length_code n) (extended_length n ++ more) ≡ n
unfolding payload_length extended_length length_code
payload_length-extended n more h = elim (Bool-cases (ltb n 126)) [
  | inl short ↦ ground arith
  | inr long ↦ elim (Bool-cases (leb n 0xFFFF)) [
    | inl medium ↦ let p : n < 65536 = ground arith in rw (long, medium) (omega arith)
    | inr large ↦ rw (long, large) (top_bytes n h)
  ]
]

drop-parts : (n : ℕ) (a b c : List ℕ) → length a + length b ≡ n → drop n (a ++ (b ++ c)) ≡ c
drop-parts n a b c h =
    rw (← append_assoc a b c) (drop-append n (a ++ b) c (omega (arith, length-append a b)))

-- The body of a frame, cut into its parts.
decode_rest-parts :
    (h : Header) (op : Opcode) (ext key body rest : List ℕ)
    → length ext ≡ length_bytes h.length7
    → length key ≡ key_bytes h.masked
    → payload_length h.length7 (ext ++ (key ++ (body ++ rest))) ≡ length body
    → length body ≤ max_payload_length
    → (is_control op && (not h.fin || ltb 125 (length body))) ≡ false
    → decode_rest h op (ext ++ (key ++ (body ++ rest)))
      ≡ decoded
          (record {
            fin = h.fin;
            opcode = op;
            payload =
                if h.masked then apply_mask (read_key (key ++ (body ++ rest))) 0 body else body;
          })
          rest
unfolding decode_rest
decode_rest-parts h op ext key body rest le lk size small control =
    let all : length (ext ++ (key ++ (body ++ rest)))
        ≡ length ext + (length key + (length body + length rest)) =
      omega (
        arith,
        length-append ext (key ++ (body ++ rest)),
        length-append key (body ++ rest),
        length-append body rest,
      ) in
    let after_ext : drop (length_bytes h.length7) (ext ++ (key ++ (body ++ rest)))
        ≡ key ++ (body ++ rest) =
      drop-append (length_bytes h.length7) ext (key ++ (body ++ rest)) le in
    let after_key : drop (length_bytes h.length7 + key_bytes h.masked)
          (ext ++ (key ++ (body ++ rest)))
        ≡ body ++ rest =
      drop-parts (length_bytes h.length7 + key_bytes h.masked) ext key (body ++ rest)
        (omega (arith, le, lk)) in
    let after : drop (length_bytes h.length7 + key_bytes h.masked + length body)
          (ext ++ (key ++ (body ++ rest)))
        ≡ rest =
      rw (← append_assoc key body rest) (
        drop-parts (length_bytes h.length7 + key_bytes h.masked + length body) ext (key ++ body)
          rest (omega (arith, le, lk, length-append key body))) in
    rw (size, after_ext, after_key, after, take-append (length body) body rest refl, control, all)
      (ground arith)

control_allowed :
    (frame : Frame)
    → CanEncode frame
    → (is_control frame.opcode && (not frame.fin || ltb 125 (length frame.payload))) ≡ false
control_allowed frame v = ground (arith, v.control_fin, v.control_size)

-- Decoding at a header whose fields are known.
decode_known-fields :
    (b0 b1 : ℕ) (h : Header) (op : Opcode) (rest : List ℕ)
    → header b0 b1 ≡ h
    → h.opcode ≡ code op
    → h.rsv ≡ 0
    → decode_one (b0 ∷ b1 ∷ rest) ≡ decode_rest h op rest
unfolding decode_one decode_known
decode_known-fields b0 b1 h op rest e c r = ground (arith, known-code op)

-- One round of the decoder on an encoded frame that the protocol and the limit on payloads allow,
-- plain or masked with a key of bytes, and whatever follows it, gives the frame, its payload
-- unmasked, and leaves what follows.
pub decode_one-encode_frame :
    (key : Option Key) (frame : Frame) (rest : List ℕ)
    → CanEncode frame
    → IsMask key
    → decode_one (encode_frame key frame ++ rest) ≡ decoded frame rest
unfolding encode_frame read_key
decode_one-encode_frame none frame rest v k =
    let n = length frame.payload in
    let ext = extended_length n in
    let bits = plain_length (length_code n) (length_code-lt n) in
    let h : Header = record {
      fin = frame.fin;
      rsv = 0;
      opcode = code frame.opcode;
      masked = false;
      length7 = length_code n;
    } in
    decode_known-fields _ _ h frame.opcode ((ext ++ frame.payload) ++ rest)
      (first_byte frame.fin frame.opcode _ ∙ rw (bits.0, bits.1)) refl refl
    ∙ rw (append_assoc ext frame.payload rest) (
        decode_rest-parts h frame.opcode ext [] frame.payload rest (length-extended_length n) refl
          (payload_length-extended n (frame.payload ++ rest) v.small) v.small
          (control_allowed frame v))
decode_one-encode_frame (some key) frame rest v k =
    let n = length frame.payload in
    let ext = extended_length n in
    let bits = masked_length (length_code n) (length_code-lt n) in
    let body = apply_mask key 0 frame.payload in
    let bytes = key.k0 ∷ key.k1 ∷ key.k2 ∷ key.k3 ∷ [] in
    let h : Header = record {
      fin = frame.fin;
      rsv = 0;
      opcode = code frame.opcode;
      masked = true;
      length7 = length_code n;
    } in
    let same : length body ≡ n = length-apply_mask key 0 frame.payload in
    decode_known-fields _ _ h frame.opcode ((ext ++ (bytes ++ body)) ++ rest)
      (first_byte frame.fin frame.opcode _ ∙ rw (bits.0, bits.1)) refl refl
    ∙ rw (append_assoc ext (bytes ++ body) rest) (
        decode_rest-parts h frame.opcode ext bytes body rest (length-extended_length n) refl
          (payload_length-extended n (bytes ++ (body ++ rest)) v.small ∙ sym same) (rw same v.small)
          (rw same (control_allowed frame v))
        ∙ rw (apply_mask_twice key 0 frame.payload k v.bytes))

-- The bytes of a sequence of frames, each with its own key or none.
abbrev pub encode_all : List (Option Key × Frame) → List ℕ
encode_all [] = []
encode_all ((key, frame) ∷ fs) = encode_frame key frame ++ encode_all fs

abbrev pub CanSend : Option Key × Frame → Type 0
CanSend (key, frame) = CanEncode frame × IsMask key

length-encode_frame : (key : Option Key) (frame : Frame) → 2 ≤ length (encode_frame key frame)
unfolding encode_frame
length-encode_frame none frame = omega arith
length-encode_frame (some key) frame = omega arith

feed_loop-encode_all :
    (fuel : ℕ) (fs : List (Option Key × Frame)) (rest : List ℕ)
    → All CanSend fs
    → decode_one rest ≡ incomplete
    → length (encode_all fs ++ rest) ≤ fuel
    → feed_loop fuel (encode_all fs ++ rest)
      ≡ record { ok = true; frames = map (λ f. f.1) fs; left = rest }
unfolding feed_loop
feed_loop-encode_all zero [] rest v last h = refl
feed_loop-encode_all (suc fuel) [] rest v last h = rw (last, feed_loop)
feed_loop-encode_all zero ((key, frame) ∷ fs) rest v last h = absurd (
    omega (
      arith,
      length-encode_frame key frame,
      length-append (encode_frame key frame) (encode_all fs),
      length-append (encode_frame key frame ++ encode_all fs) rest,
    ))
feed_loop-encode_all (suc fuel) ((key, frame) ∷ fs) rest v last h =
    let more = encode_all fs ++ rest in
    let apart = append_assoc (encode_frame key frame) (encode_all fs) rest in
    let enough : length more ≤ fuel = omega (
      arith,
      length-encode_frame key frame,
      length-append (encode_frame key frame) more,
      ap length apart,
    ) in
    rw (apart, decode_one-encode_frame key frame more v.0.0 v.0.1, feed_loop)
      (rw (feed_loop-encode_all fuel fs rest v.1 last enough))

-- A stream of frames that the protocol and the limit on payloads allow, each plain or masked with a
-- key of bytes, and then the beginning of another frame: feed() gives those frames, and leaves the
-- beginning for the next call.
pub feed-encode_all :
    (fs : List (Option Key × Frame)) (rest : List ℕ)
    → All CanSend fs
    → decode_one rest ≡ incomplete
    → feed (encode_all fs ++ rest) ≡ record { ok = true; frames = map (λ f. f.1) fs; left = rest }
unfolding feed
feed-encode_all fs rest v last =
    feed_loop-encode_all (length (encode_all fs ++ rest)) fs rest v last (omega arith)
