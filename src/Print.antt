-- ===== src/Print.antt =====
-- The numbers that utils/print.cpp prints, as the lists of the characters that `put` is called with.
pub mod Decimal
pub mod Hex
mod Tests
use toy_kernel.Base.{
  ℕ, zero, suc, ◌+◌, ◌-◌, ◌*◌, ◌/◌, ◌%◌, ◌^◌, bit_and, List, [], ◌∷◌, ◌++◌, ◌==◌, ltb,
  if◌then◌else◌, Outcome, ok, stop, ◌>>=◌,
}
use toy_kernel.Base.Bits.{shr}

-- `PrintNibble`
unfoldable pub print_nibble : (val : ℕ) → List ℕ
print_nibble val = if ltb val 10 then (48 + val) ∷ [] else (97 + val - 10) ∷ []

-- `PrintHex`, for each width.
unfoldable pub print_hex_8 : (val : ℕ) → List ℕ
unfolding print_nibble
print_hex_8 val = print_nibble (shr val 4) ++ print_nibble (bit_and val 0xf)

unfoldable pub print_hex_16 : (val : ℕ) → List ℕ
unfolding print_hex_8
print_hex_16 val = print_hex_8 (shr val 8 % 2 ^ 8) ++ print_hex_8 (val % 2 ^ 8)

unfoldable pub print_hex_32 : (val : ℕ) → List ℕ
unfolding print_hex_16
print_hex_32 val = print_hex_16 (shr val 16 % 2 ^ 16) ++ print_hex_16 (val % 2 ^ 16)

unfoldable pub print_hex_64 : (val : ℕ) → List ℕ
unfolding print_hex_32
print_hex_64 val = print_hex_32 (shr val 32 % 2 ^ 32) ++ print_hex_32 (val % 2 ^ 32)

-- The loop of `PrintDecimalImpl`. `room` is what is left of the buffer before the digits, and a write
-- before the buffer is a stop.
unfoldable pub decimal_loop : (room val : ℕ) → (digits : List ℕ) → Outcome (List ℕ)
decimal_loop zero val digits = stop
decimal_loop (suc room) val digits =
    let rest = decimal_loop room (val / 10) ((val % 10 + 48) ∷ digits) in
    if val / 10 == 0 then ok ((val % 10 + 48) ∷ digits) else rest

-- `PrintDecimal`
unfoldable pub print_decimal_32 : (val : ℕ) → Outcome (List ℕ)
unfolding decimal_loop
print_decimal_32 val = decimal_loop 10 val []

unfoldable pub print_decimal_64 : (val : ℕ) → Outcome (List ℕ)
unfolding decimal_loop
print_decimal_64 val = decimal_loop 20 val []

abbrev pub int32_min_digits : List ℕ
int32_min_digits = 45 ∷ 50 ∷ 49 ∷ 52 ∷ 55 ∷ 52 ∷ 56 ∷ 51 ∷ 54 ∷ 52 ∷ 56 ∷ []

-- `PrintDecimal` of an `int32_t`, by its bits.
unfoldable pub print_decimal_int32 : (word : ℕ) → Outcome (List ℕ)
unfolding print_decimal_32
print_decimal_int32 word =
    if ltb word (2 ^ 31)
    then print_decimal_32 word
    else if word == 2 ^ 31
    then ok int32_min_digits
    else print_decimal_32 (2 ^ 32 - word) >>= λ digits. ok (45 ∷ digits)
