-- ===== src/Prelude/Bits.antt =====
-- Facts about the bit operations on bytes, by evaluation over all values.
use native.Mathlib.Decide.{dec_le}
use sortie.Prelude.{
  ℕ, zero, suc, ◌≤◌, ◌<◌, ◌≡◌, refl, Bool, true, ◌&&◌, ◌==◌, ==_iff, arith, bit_and, bit_or,
  bit_xor,
}

-- A test that passes at every number up to `top`.
passes_up_to : ℕ → (ℕ → Bool) → Bool
passes_up_to zero test = test 0
passes_up_to (suc top) test = passes_up_to top test && test (suc top)

passes : (test : ℕ → Bool) (top k : ℕ) → k ≤ top → passes_up_to top test ≡ true → test k ≡ true
unfolding passes_up_to
passes test zero k le all = let only : k ≡ 0 = omega arith in rw only all
passes test (suc top) k le all = elim (dec_le k top) [
  | yes lower ↦ ground (arith, passes test top k lower)
  | no above ↦ let last : k ≡ suc top = omega arith in rw last (ground arith)
]

xor_row : ℕ → Bool
unfolding passes_up_to
xor_row byte = passes_up_to 255 (λ key. bit_xor (bit_xor byte key) key == byte)

xor_rows : passes_up_to 255 xor_row ≡ true
unfolding xor_row passes_up_to
xor_rows = refl

-- Masking a byte twice with one key gives it back.
pub xor_twice : (x k : ℕ) → x < 256 → k < 256 → bit_xor (bit_xor x k) k ≡ x
unfolding xor_row
xor_twice x k h g = (==_iff _ x).0 (
    passes (λ key. bit_xor (bit_xor x key) key == x) 255 k (omega arith)
      (passes xor_row 255 x (omega arith) xor_rows))

-- A byte with the bit `mark` and seven bits of a length is read back by the two masks.
reads_back : ℕ → ℕ → Bool
reads_back mark n = bit_and (bit_or mark n) 0x7F == n && bit_and (bit_or mark n) 0x80 == mark

all_read_back : passes_up_to 127 (reads_back 0x80) && passes_up_to 127 (reads_back 0) ≡ true
unfolding passes_up_to reads_back
all_read_back = refl

pub masked_length :
    (n : ℕ) → n < 128 → (bit_and (bit_or 128 n) 127 ≡ n) × (bit_and (bit_or 128 n) 128 ≡ 128)
unfolding reads_back
masked_length n h =
    let row : passes_up_to 127 (reads_back 0x80) ≡ true = ground (arith, all_read_back) in
    let both = passes (reads_back 0x80) 127 n (omega arith) row in
    (ground (arith, both), ground (arith, both))

pub plain_length :
    (n : ℕ) → n < 128 → (bit_and (bit_or 0 n) 127 ≡ n) × (bit_and (bit_or 0 n) 128 ≡ 0)
unfolding reads_back
plain_length n h =
    let row : passes_up_to 127 (reads_back 0) ≡ true = ground (arith, all_read_back) in
    let both = passes (reads_back 0) 127 n (omega arith) row in
    (ground (arith, both), ground (arith, both))
