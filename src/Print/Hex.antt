-- ===== src/Print/Hex.antt =====
-- A number that is printed in hexadecimal can be read back.
use native.Mathlib.Nat.{add-mul, mul_assoc, zero-add}
use toy_kernel.Base.{
  ℕ, ◌+◌, ◌-◌, ◌*◌, ◌%◌, ◌^◌, ◌<◌, ◌≡◌, refl, sym, ap, ◌∙◌, Bool-cases, inl, inr, true, ◌==◌,
  ==_iff, bit_and, List, [], ◌∷◌, ◌++◌, ltb, if◌then◌else◌, arith, append_assoc, append-nil,
}
use toy_kernel.Base.Bits.{shr, every_below, every_below_at}
use toy_kernel.Print.{print_nibble, print_hex_8, print_hex_16, print_hex_32, print_hex_64}

-- The value of a hexadecimal digit.
abbrev pub hex_value : ℕ → ℕ
hex_value c = if ltb c 97 then c - 48 else c - 87

-- Digits after a number that is read already.
abbrev read_hex : (so_far : ℕ) → List ℕ → ℕ
read_hex so_far [] = so_far
read_hex so_far (c ∷ cs) = read_hex (so_far * 16 + hex_value c) cs

read_hex-print_nibble :
    (so_far n : ℕ) (cs : List ℕ)
    → n < 16
    → read_hex so_far (print_nibble n ++ cs) ≡ read_hex (so_far * 16 + n) cs
unfolding print_nibble
read_hex-print_nibble so_far n cs small = elim (Bool-cases (ltb n 10)) [
  | inl digit ↦
      let e : hex_value (48 + n) ≡ n = ground (arith, digit) in
      rw digit (ap (λ z. read_hex (so_far * 16 + z) cs) e)
  | inr letter ↦
      let e : hex_value (97 + n - 10) ≡ n = ground (arith, letter) in
      rw letter (ap (λ z. read_hex (so_far * 16 + z) cs) e)
]

low_nibble_table : every_below 256 (λ n. bit_and n 0xf == n % 16) ≡ true
unfolding every_below
low_nibble_table = refl

low_nibble : (v : ℕ) → v < 256 → bit_and v 0xf ≡ v % 16
low_nibble v small =
    (==_iff (bit_and v 0xf) (v % 16)).0
      (every_below_at 256 (λ n. bit_and n 0xf == n % 16) v low_nibble_table small)

read_hex-print_hex_8 :
    (so_far v : ℕ) (cs : List ℕ)
    → v < 2 ^ 8
    → read_hex so_far (print_hex_8 v ++ cs) ≡ read_hex (so_far * 2 ^ 8 + v) cs
unfolding print_hex_8
read_hex-print_hex_8 so_far v cs small =
    let same : (so_far * 16 + shr v 4) * 16 + v % 16 ≡ so_far * 2 ^ 8 + v = omega arith in
    ap (read_hex so_far) (append_assoc (print_nibble (shr v 4)) (print_nibble (bit_and v 0xf)) cs)
    ∙ read_hex-print_nibble so_far (shr v 4) (print_nibble (bit_and v 0xf) ++ cs) (omega arith)
    ∙ rw (low_nibble v small)
        (read_hex-print_nibble (so_far * 16 + shr v 4) (v % 16) cs (omega arith))
    ∙ ap (λ z. read_hex z cs) same

-- A number of two halves is read when its halves are.
read_hex-halves :
    (print_half : ℕ → List ℕ) (base v : ℕ)
    → ((so_far n : ℕ) (cs : List ℕ)
        → n < base
        → read_hex so_far (print_half n ++ cs) ≡ read_hex (so_far * base + n) cs)
    → (high low : ℕ) → high < base
    → low < base
    → high * base + low ≡ v
    → (so_far : ℕ) (cs : List ℕ)
    → read_hex so_far ((print_half high ++ print_half low) ++ cs)
      ≡ read_hex (so_far * (base * base) + v) cs
read_hex-halves print_half base v half high low h l e so_far cs =
    let same : (so_far * base + high) * base + low ≡ so_far * (base * base) + v =
      omega (arith, e, add-mul (so_far * base) high base, mul_assoc so_far base base) in
    ap (read_hex so_far) (append_assoc (print_half high) (print_half low) cs)
    ∙ half so_far high (print_half low ++ cs) h
    ∙ half (so_far * base + high) low cs l
    ∙ ap (λ z. read_hex z cs) same

read_hex-print_hex_16 :
    (so_far v : ℕ) (cs : List ℕ)
    → v < 2 ^ 16
    → read_hex so_far (print_hex_16 v ++ cs) ≡ read_hex (so_far * 2 ^ 16 + v) cs
unfolding print_hex_16
read_hex-print_hex_16 so_far v cs small =
    read_hex-halves print_hex_8 (2 ^ 8) v read_hex-print_hex_8 (shr v 8 % 2 ^ 8) (v % 2 ^ 8)
      (omega arith) (omega arith) (omega arith) so_far cs

read_hex-print_hex_32 :
    (so_far v : ℕ) (cs : List ℕ)
    → v < 2 ^ 32
    → read_hex so_far (print_hex_32 v ++ cs) ≡ read_hex (so_far * 2 ^ 32 + v) cs
unfolding print_hex_32
read_hex-print_hex_32 so_far v cs small =
    read_hex-halves print_hex_16 (2 ^ 16) v read_hex-print_hex_16 (shr v 16 % 2 ^ 16) (v % 2 ^ 16)
      (omega arith) (omega arith) (omega arith) so_far cs

read_hex-print_hex_64 :
    (so_far v : ℕ) (cs : List ℕ)
    → v < 2 ^ 64
    → read_hex so_far (print_hex_64 v ++ cs) ≡ read_hex (so_far * 2 ^ 64 + v) cs
unfolding print_hex_64
read_hex-print_hex_64 so_far v cs small =
    read_hex-halves print_hex_32 (2 ^ 32) v read_hex-print_hex_32 (shr v 32 % 2 ^ 32) (v % 2 ^ 32)
      (omega arith) (omega arith) (omega arith) so_far cs

-- `PrintHex` of a 64-bit number puts digits from which the number is read back.
print_hex_64-read : (v : ℕ) → v < 2 ^ 64 → read_hex 0 (print_hex_64 v) ≡ v
print_hex_64-read v small =
    ap (read_hex 0) (sym (append-nil (print_hex_64 v)))
    ∙ read_hex-print_hex_64 0 v [] small
    ∙ zero-add v
