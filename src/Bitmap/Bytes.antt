-- ===== src/Bitmap/Bytes.antt =====
-- One bit of a byte is written, and the other seven stay.
use Prim.Native.Nat.{bit_and-bitwise}
use toy_kernel.Base.{
  ℕ, ◌^◌, ◌<◌, ◌≡◌, refl, true, false, not, ◌&&◌, ◌||◌, ◌==◌, arith, bool_eq, bool_eq_sound,
}
use toy_kernel.Base.Bits.{every_below, every_below_at}
use toy_kernel.Bitmap.{test_bit, with_one, with_zero}

one_table :
    every_below 256 (λ b.
      every_below 8
        (λ i. every_below 8 (λ j. bool_eq (test_bit (with_one b i) j) ((i == j) || test_bit b j))))
    ≡ true
unfolding every_below test_bit with_one
one_table = refl

zero_table :
    every_below 256 (λ b. every_below 8 (λ i.
      every_below 8 (λ j. bool_eq (test_bit (with_zero b i) j) (not (i == j) && test_bit b j))))
    ≡ true
unfolding every_below test_bit with_zero
zero_table = refl

pub test_bit-with_one :
    (b i j : ℕ) → b < 256 → i < 8 → j < 8 → test_bit (with_one b i) j ≡ ((i == j) || test_bit b j)
test_bit-with_one b i j hb hi hj =
    bool_eq_sound _ _
      (every_below_at 8 _ j (every_below_at 8 _ i (every_below_at 256 _ b one_table hb) hi) hj)

pub test_bit-with_zero :
    (b i j : ℕ)
    → b < 256
    → i < 8
    → j < 8
    → test_bit (with_zero b i) j ≡ (not (i == j) && test_bit b j)
test_bit-with_zero b i j hb hi hj =
    bool_eq_sound _ _
      (every_below_at 8 _ j (every_below_at 8 _ i (every_below_at 256 _ b zero_table hb) hi) hj)

pub with_one-lt : (b i : ℕ) → with_one b i < 256
unfolding with_one
with_one-lt b i = omega arith

pub with_zero-lt : (b i : ℕ) → with_zero b i < 256
unfolding with_zero
with_zero-lt b i = omega arith

pub test_bit-zero : (j : ℕ) → test_bit 0 j ≡ false
unfolding test_bit
test_bit-zero j = rw (bit_and-bitwise 0 (2 ^ j)) refl
