-- ===== src/Print/Tests.antt =====
-- utils/print.cpp at concrete numbers.
use toy_kernel.Base.{ℕ, ◌≡◌, refl, List, [], ◌∷◌, arith, ok}
use toy_kernel.Print.{print_hex_32, print_decimal_32, print_decimal_int32}
use toy_kernel.Print.Decimal.{IsSignedDecimal, print_decimal_int32-IsSignedDecimal}

test_decimal : print_decimal_32 4096 ≡ ok (52 ∷ 48 ∷ 57 ∷ 54 ∷ [])
unfolding print_decimal_32
test_decimal = refl

test_negative : print_decimal_int32 (4294967289) ≡ ok (45 ∷ 55 ∷ [])
unfolding print_decimal_int32
test_negative = refl

test_hex : print_hex_32 0xbeef0042 ≡ 98 ∷ 101 ∷ 101 ∷ 102 ∷ 48 ∷ 48 ∷ 52 ∷ 50 ∷ []
unfolding print_hex_32
test_hex = refl

print_decimal_int32-IsSignedDecimal_example :
    (cs : List ℕ) × (print_decimal_int32 2147483648 ≡ ok cs) × IsSignedDecimal 2147483648 cs
print_decimal_int32-IsSignedDecimal_example =
    print_decimal_int32-IsSignedDecimal 2147483648 (omega arith)
