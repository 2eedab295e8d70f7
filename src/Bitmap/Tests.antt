-- ===== src/Bitmap/Tests.antt =====
-- `toy::BitArray` on an array of sixteen bits.
use toy_kernel.Base.{◌≡◌, refl, some, [], ◌∷◌, arith, ok, stop}
use toy_kernel.Bitmap.{
  BitArray, test_bit, with_one, with_zero, set_one, set_zero, is_set, get_first_zero,
}
use toy_kernel.Bitmap.Bits.{IsBitArray}

-- Bits 0, 1, 2 and 11 are set.
abbrev some_bits : BitArray
some_bits = 7 ∷ 8 ∷ []

some_bits-IsBitArray : IsBitArray 16 some_bits
some_bits-IsBitArray = record {
  whole_bytes = refl;
  size = refl;
  bytes = (omega arith, (omega arith, tt));
}

set_one_test : set_one 16 some_bits 9 ≡ ok (7 ∷ 10 ∷ [])
unfolding set_one with_one
set_one_test = refl

set_one_past_end : set_one 16 some_bits 16 ≡ stop
unfolding set_one
set_one_past_end = refl

set_zero_test : set_zero 16 some_bits 11 ≡ ok (7 ∷ 0 ∷ [])
unfolding set_zero with_zero
set_zero_test = refl

get_first_zero_test : get_first_zero 16 some_bits 0 ≡ some 3
unfolding get_first_zero is_set test_bit
get_first_zero_test = refl
