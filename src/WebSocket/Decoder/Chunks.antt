-- ===== src/WebSocket/Decoder/Chunks.antt =====
-- Decoder::feed() on a stream that arrives in pieces (engine/source/common/websocket.cc).
use sortie.Prelude.{
  sym, ◌∙◌, ◌⊎◌, none, some, some, true, ◌<◌, Option, inr, length-append, inl, Bool-cases, zero,
  suc, ℕ, ◌+◌, ◌-◌, ◌≤◌, ◌≡◌, refl, ap, List, [], ◌∷◌, ◌++◌, arith, if◌then◌else◌, length, take,
  drop,
}
use sortie.WebSocket.{Frame, apply_mask, Opcode}
use sortie.WebSocket.Decoder.{
  malformed, incomplete, Fed, Decoded, feed, feed_loop, decode_known, decode_one, key_bytes,
  decoded, length_bytes, decode_rest, Header, payload_length, read_key,
}

take-prefix : (n : ℕ) (xs ys : List ℕ) → n ≤ length xs → take n (xs ++ ys) ≡ take n xs
take-prefix zero xs ys h = refl
take-prefix (suc n) [] ys h = absurd (omega arith)
take-prefix (suc n) (x ∷ xs) ys h = ap (◌∷◌ x) (take-prefix n xs ys (omega arith))

drop-prefix : (n : ℕ) (xs ys : List ℕ) → n ≤ length xs → drop n (xs ++ ys) ≡ drop n xs ++ ys
drop-prefix zero xs ys h = refl
drop-prefix (suc n) [] ys h = absurd (omega arith)
drop-prefix (suc n) (x ∷ xs) ys h = drop-prefix n xs ys (omega arith)

length-drop : (n : ℕ) (xs : List ℕ) → length (drop n xs) ≡ length xs - n
length-drop zero xs = omega arith
length-drop (suc n) [] = omega arith
length-drop (suc n) (x ∷ xs) = omega (arith, length-drop n xs)

read_key-prefix : (xs ys : List ℕ) → 4 ≤ length xs → read_key (xs ++ ys) ≡ read_key xs
unfolding read_key
read_key-prefix (a ∷ b ∷ c ∷ d ∷ xs) ys h = refl
read_key-prefix [] ys h = absurd (omega arith)
read_key-prefix (a ∷ []) ys h = absurd (omega arith)
read_key-prefix (a ∷ b ∷ []) ys h = absurd (omega arith)
read_key-prefix (a ∷ b ∷ c ∷ []) ys h = absurd (omega arith)

payload_length-prefix :
    (k : ℕ) (xs ys : List ℕ)
    → length_bytes k ≤ length xs
    → payload_length k (xs ++ ys) ≡ payload_length k xs
unfolding payload_length
payload_length-prefix k xs ys h = rw (take-prefix (length_bytes k) xs ys h) refl

-- The payload with its mask taken off.
unmask : Header → List ℕ → List ℕ → List ℕ
unmask h rest raw =
    if h.masked then apply_mask (read_key (drop (length_bytes h.length7) rest)) 0 raw else raw

-- A body that decodes is all there, and what it gives.
decode_rest-inv :
    (h : Header) (op : Opcode) (rest : List ℕ) (f : Frame) (r : List ℕ)
    → decode_rest h op rest ≡ decoded f r
    → (length_bytes h.length7 + key_bytes h.masked + payload_length h.length7 rest ≤ length rest)
      × (r
          ≡ drop (length_bytes h.length7 + key_bytes h.masked + payload_length h.length7 rest) rest)
unfolding decode_rest
decode_rest-inv h op rest f r e = ground (arith)

-- Bytes that follow a whole body do not matter to it.
decode_rest-append :
    (h : Header) (op : Opcode) (rest more : List ℕ) (f : Frame) (r : List ℕ)
    → decode_rest h op rest ≡ decoded f r
    → decode_rest h op (rest ++ more) ≡ decoded f (r ++ more)
unfolding decode_rest
decode_rest-append h op rest more f r e =
    let size = payload_length h.length7 rest in
    let n = length_bytes h.length7 + key_bytes h.masked in
    let inv = decode_rest-inv h op rest f r e in
    let same = payload_length-prefix h.length7 rest more (omega (arith, inv.0)) in
    let after = drop-prefix n rest more (omega (arith, inv.0)) in
    let raw = take-prefix size (drop n rest) more (omega (arith, inv.0, length-drop n rest)) in
    let left = drop-prefix (n + size) rest more inv.0 in
    let at_key = drop-prefix (length_bytes h.length7) rest more (omega (arith, inv.0)) in
    elim (Bool-cases h.masked) [
      | inl m ↦
          let four : key_bytes h.masked ≡ 4 = rw m refl in
          let key =
            read_key-prefix (drop (length_bytes h.length7) rest) more
              (omega (arith, inv.0, four, length-drop (length_bytes h.length7) rest)) in
          rw (same, after, raw, left, at_key, key) (ground (arith, length-append rest more))
      | inr m ↦ rw (same, after, raw, left, at_key) (ground (arith, length-append rest more))
    ]

decode_known-append :
    (h : Header) (op : Option Opcode) (rest more : List ℕ) (f : Frame) (r : List ℕ)
    → decode_known h op rest ≡ decoded f r
    → decode_known h op (rest ++ more) ≡ decoded f (r ++ more)
unfolding decode_known
decode_known-append h none rest more f r e = ground arith
decode_known-append h (some op) rest more f r e =
    ground (arith, decode_rest-append h op rest more f r)

decode_known-shorter :
    (h : Header) (op : Option Opcode) (rest : List ℕ) (f : Frame) (r : List ℕ)
    → decode_known h op rest ≡ decoded f r
    → length r ≤ length rest
unfolding decode_known
decode_known-shorter h none rest f r e = ground arith
decode_known-shorter h (some op) rest f r e =
    let n = length_bytes h.length7 + key_bytes h.masked + payload_length h.length7 rest in
    ground (arith, decode_rest-inv h op rest f r, length-drop n rest)

decode_one-append :
    (bytes more : List ℕ) (f : Frame) (r : List ℕ)
    → decode_one bytes ≡ decoded f r
    → decode_one (bytes ++ more) ≡ decoded f (r ++ more)
unfolding decode_one
decode_one-append [] more f r e = ground arith
decode_one-append (b0 ∷ []) more f r e = ground arith
decode_one-append (b0 ∷ b1 ∷ rest) more f r e = decode_known-append _ _ rest more f r e

decode_one-shorter :
    (bytes : List ℕ) (f : Frame) (r : List ℕ)
    → decode_one bytes ≡ decoded f r
    → length r < length bytes
unfolding decode_one
decode_one-shorter [] f r e = ground arith
decode_one-shorter (b0 ∷ []) f r e = ground arith
decode_one-shorter (b0 ∷ b1 ∷ rest) f r e = omega (arith, decode_known-shorter _ _ rest f r e)

Decoded-cases :
    (d : Decoded)
    → (d ≡ incomplete) ⊎ ((d ≡ malformed) ⊎ ((f : Frame) × (r : List ℕ) × (d ≡ decoded f r)))
Decoded-cases incomplete = inl refl
Decoded-cases malformed = inr (inl refl)
Decoded-cases (decoded f r) = inr (inr (f, r, refl))

-- Fuel beyond the length of the data changes nothing.
feed_loop-fuel :
    (n m : ℕ) (bytes : List ℕ)
    → length bytes ≤ n
    → length bytes ≤ m
    → feed_loop n bytes ≡ feed_loop m bytes
unfolding feed_loop decode_one
feed_loop-fuel zero zero bytes h g = refl
feed_loop-fuel zero (suc m) [] h g = refl
feed_loop-fuel zero (suc m) (b ∷ bytes) h g = absurd (omega arith)
feed_loop-fuel (suc n) zero [] h g = refl
feed_loop-fuel (suc n) zero (b ∷ bytes) h g = absurd (omega arith)
feed_loop-fuel (suc n) (suc m) bytes h g = elim (Decoded-cases (decode_one bytes)) [
  | inl e ↦ rw (e, feed_loop) refl
  | inr (inl e) ↦ rw (e, feed_loop) refl
  | inr (inr (f, r, e)) ↦
      let shorter = decode_one-shorter bytes f r e in
      let same = feed_loop-fuel n m r (omega (arith, shorter)) (omega (arith, shorter)) in
      rw (e, feed_loop, same) refl
]

then_feed : List Frame → Fed → Fed
then_feed frames fed = record fed { frames = frames ++ fed.frames }

-- The loop when its first round is known.
feed_loop-decoded :
    (n : ℕ) (bytes : List ℕ) (f : Frame) (r : List ℕ)
    → decode_one bytes ≡ decoded f r
    → feed_loop (suc n) bytes ≡ then_feed (f ∷ []) (feed_loop n r)
unfolding then_feed decode_one feed_loop
feed_loop-decoded n bytes f r e = rw (e, feed_loop) refl

feed-decoded :
    (bytes : List ℕ) (f : Frame) (r : List ℕ)
    → decode_one bytes ≡ decoded f r
    → feed bytes ≡ then_feed (f ∷ []) (feed r)
unfolding feed decode_one
feed-decoded [] f r e = ground arith
feed-decoded (b ∷ bytes) f r e =
    let shorter = decode_one-shorter (b ∷ bytes) f r e in
    feed_loop-decoded (length bytes) (b ∷ bytes) f r e
    ∙ ap (then_feed (f ∷ []))
        (feed_loop-fuel (length bytes) (length r) r (omega (arith, shorter)) (omega arith))

feed_loop-append :
    (n : ℕ) (bytes more : List ℕ)
    → (feed_loop n bytes).ok ≡ true
    → feed (bytes ++ more)
      ≡ then_feed (feed_loop n bytes).frames (feed ((feed_loop n bytes).left ++ more))
unfolding feed_loop then_feed decode_one
feed_loop-append zero bytes more ok = refl
feed_loop-append (suc n) bytes more ok = elim (Decoded-cases (decode_one bytes)) [
  | inl e ↦ rw (e, feed_loop) refl
  | inr (inl e) ↦ absurd (ground (arith, e))
  | inr (inr (f, r, e)) ↦
      let step = feed_loop-decoded n bytes f r e in
      let again = feed_loop-append n r more (rw (sym (ap (λ fed. fed.ok) step)) ok) in
      rw step (
        feed-decoded (bytes ++ more) f (r ++ more) (decode_one-append bytes more f r e)
        ∙ ap (then_feed (f ∷ [])) again)
]

-- Feeding two pieces of a stream at once gives the frames, the result and the rest that feeding the
-- first, if that succeeds, and then what it left together with the second gives: how the stream is
-- cut does not matter.
pub feed-append :
    (bytes more : List ℕ)
    → (feed bytes).ok ≡ true
    → feed (bytes ++ more) ≡ (
        let rest = feed ((feed bytes).left ++ more) in
        record rest { frames = (feed bytes).frames ++ rest.frames })
unfolding feed then_feed
feed-append bytes more ok = feed_loop-append (length bytes) bytes more ok
