-- ===== src/Bitmap.antt =====
-- `toy::BitArray` of kernel/include/bitarray.h: an array of bits packed into bytes.
pub mod Bytes
pub mod Bits
pub mod Search
mod Tests
use toy_kernel.Base.{
  ℕ, zero, suc, ◌+◌, ◌-◌, ◌/◌, ◌%◌, ◌^◌, Bool, true, false, Option, none, some, List, get_or, set,
  replicate, bit_and, bit_or, ltb, leb, if◌then◌else◌, Outcome, ok, stop, ◌>>=◌, ◌>>◌, check,
}
use toy_kernel.Base.Bits.{shl, complement, nonzero}

-- The bytes of `bitarray_`.
abbrev pub BitArray : Type 0
BitArray = List ℕ

-- `byte & (UINT8_C(1) << k)` as a condition.
unfoldable pub test_bit : (byte k : ℕ) → Bool
test_bit byte k = nonzero (bit_and byte (2 ^ k))

-- `byte |= UINT32_C(1) << k`
unfoldable pub with_one : (byte k : ℕ) → ℕ
with_one byte k = bit_or byte (shl 32 1 k) % 2 ^ 8

-- `byte &= ~(UINT32_C(1) << k)`
unfoldable pub with_zero : (byte k : ℕ) → ℕ
with_zero byte k = bit_and byte (complement 32 (shl 32 1 k)) % 2 ^ 8

-- `Clear`
unfoldable pub clear : (num_bits : ℕ) → BitArray
clear num_bits = replicate (num_bits / 8) 0

-- `setOne`
unfoldable pub set_one : (num_bits : ℕ) → BitArray → ℕ → Outcome BitArray
set_one num_bits a bit =
    check (ltb bit num_bits) >> ok (set a (bit / 8) (with_one (get_or a (bit / 8) 0) (bit % 8)))

-- `setZero`
unfoldable pub set_zero : (num_bits : ℕ) → BitArray → ℕ → Outcome BitArray
set_zero num_bits a bit =
    check (ltb bit num_bits) >> ok (set a (bit / 8) (with_zero (get_or a (bit / 8) 0) (bit % 8)))

-- `isSet` has no bounds check. A read past the end, which no caller makes, is 0 here.
unfoldable pub is_set : BitArray → ℕ → Bool
is_set a bit = test_bit (get_or a (bit / 8) 0) (bit % 8)

-- The loop of `Reserve`, with the rounds that are left.
unfoldable pub reserve_loop : (num_bits rounds i : ℕ) → BitArray → Outcome BitArray
reserve_loop num_bits zero i a = ok a
reserve_loop num_bits (suc rounds) i a =
    set_one num_bits a i >>= λ b. reserve_loop num_bits rounds (suc i) b

-- `Reserve`
unfoldable pub reserve : (num_bits : ℕ) → BitArray → ℕ → Outcome BitArray
unfolding reserve_loop
reserve num_bits a n = check (leb n num_bits) >> reserve_loop num_bits (num_bits - n) n a

-- The loop of `GetFirstZero`, with the rounds that are left.
unfoldable pub first_zero_loop : (rounds bit : ℕ) → BitArray → Option ℕ
first_zero_loop zero bit a = none
first_zero_loop (suc rounds) bit a =
    let rest = first_zero_loop rounds (suc bit) a in if is_set a bit then rest else some bit

-- `GetFirstZero`: the bit, if the call returns true.
unfoldable pub get_first_zero : (num_bits : ℕ) → BitArray → (start : ℕ) → Option ℕ
unfolding first_zero_loop
get_first_zero num_bits a start = first_zero_loop (num_bits - start) start a
