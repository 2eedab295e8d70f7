-- ===== src/Gates/Masks.antt =====
-- A mask of ones reads a remainder.
use native.Mathlib.Nat.{
  pow-suc, mul_comm, mul_assoc, div-add-mod, mul-add-mod_self_right, mod-eq_of_lt, mod-lt,
}
use toy_kernel.Base.{ℕ, zero, suc, ◌+◌, ◌*◌, ◌/◌, ◌%◌, ◌^◌, ◌<◌, ◌≡◌, sym, ap, ◌∙◌, bit_and, arith}
use toy_kernel.Base.BitLaws.{and_digit, and_zero}

abbrev pub ones : ℕ → ℕ
ones zero = 0
ones (suc k) = 2 * ones k + 1

power_pos : (k : ℕ) → 0 < 2 ^ k
power_pos zero = omega arith
power_pos (suc k) = omega (arith, pow-suc 2 k, power_pos k)

-- The lowest digit of a remainder by a power of two.
mod_digit : (k x : ℕ) → x % 2 ^ suc k ≡ x / 2 % 2 ^ k * 2 + x % 2
mod_digit k x =
    let p = 2 ^ k in
    let q = x / 2 / p in
    let r = x / 2 % p in
    let whole : x ≡ q * (p * 2) + (r * 2 + x % 2) =
      omega (arith, div-add-mod (x / 2) p, sym (mul_assoc q p 2), mul_comm q p) in
    ap (λ z. x % z) (pow-suc 2 k)
    ∙ ap (λ z. z % (p * 2)) whole
    ∙ mul-add-mod_self_right q (p * 2) (r * 2 + x % 2)
    ∙ mod-eq_of_lt (omega (arith, mod-lt (x / 2) {m = p} (power_pos k)))

pub and_ones : (k x : ℕ) → bit_and x (ones k) ≡ x % 2 ^ k
and_ones zero x = and_zero x ∙ omega arith
and_ones (suc k) x =
    let half : (2 * ones k + 1) / 2 ≡ ones k = omega arith in
    omega (
      arith,
      and_digit x (2 * ones k + 1),
      ap (λ z. bit_and (x / 2) z) half,
      and_ones k (x / 2),
      mod_digit k x,
    )
