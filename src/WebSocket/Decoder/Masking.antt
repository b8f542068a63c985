-- ===== src/WebSocket/Decoder/Masking.antt =====
-- applyMask() (engine/source/common/websocket.cc) applied twice.
use sortie.Prelude.{suc, ℕ, ◌+◌, ◌<◌, ◌≡◌, List, [], ◌∷◌, refl, arith, All, length, ap}
use sortie.Prelude.Bits.{xor_twice}
use sortie.WebSocket.{Key, key_at, apply_mask}

abbrev pub IsByte : ℕ → Type 0
IsByte x = x < 256

pub record IsKey (key : Key) : Type 0 where
  pub byte0 : IsByte key.k0
  pub byte1 : IsByte key.k1
  pub byte2 : IsByte key.k2
  pub byte3 : IsByte key.k3

key_at-lt : (key : Key) (i : ℕ) → IsKey key → key_at key i < 256
key_at-lt key i v = ground arith

pub length-apply_mask : (key : Key) (i : ℕ) (xs : List ℕ) → length (apply_mask key i xs) ≡ length xs
unfolding apply_mask
length-apply_mask key i [] = refl
length-apply_mask key i (x ∷ xs) = ap suc (length-apply_mask key (i + 1) xs)

-- Masking a payload of bytes twice with one key gives it back.
pub apply_mask_twice :
    (key : Key) (i : ℕ) (xs : List ℕ)
    → IsKey key
    → All IsByte xs
    → apply_mask key i (apply_mask key i xs) ≡ xs
unfolding apply_mask
apply_mask_twice key i [] v h = refl
apply_mask_twice key i (x ∷ xs) v h =
    rw (xor_twice x (key_at key i) h.0 (key_at-lt key i v), apply_mask_twice key (i + 1) xs v h.1)
