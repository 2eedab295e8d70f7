-- ===== src/Base/BitLaws.antt =====
-- Disjoint fields of a word under `|` and `&`, as arithmetic.
use Prim.Native.Nat.{digits, bit_or-bitwise, bit_and-bitwise}
use native.Mathlib.Nat.{pow-suc, mul_comm, div-div-eq-div-mul}
use Prim.Native.Nat.{ℕ, zero, suc, ◌+◌, ◌*◌, ◌/◌, ◌%◌, ◌^◌, ◌≤◌, ◌<◌, min, max, bit_and, bit_or}
use mathlib.Core.Path.{◌≡◌, refl, sym, ap, ◌∙◌}
use native.Mathlib.Omega.{arith}

-- The recursion on digits does not depend on its fuel, once that reaches the first number.
module _ (rest : ℕ → ℕ) (op : ℕ → ℕ → ℕ) where
  enough : (a f b : ℕ) (g : ℕ) → a ≤ f → a ≤ g → digits rest op f a b ≡ digits rest op g a b
  enough a f b g p q = by_fuel f g a b p q
    where
      by_fuel : (f g a b : ℕ) → a ≤ f → a ≤ g → digits rest op f a b ≡ digits rest op g a b
      by_fuel zero zero x y p q = refl
      by_fuel zero (suc g) zero y p q = refl
      by_fuel (suc f) zero zero y p q = refl
      by_fuel (suc f) (suc g) zero y p q = refl
      by_fuel zero g (suc x) y p q = elim p [ ]
      by_fuel (suc f) zero (suc x) y p q = elim q [ ]
      by_fuel (suc f) (suc g) (suc x) y p q =
          ap (λ d. d * 2 + op (suc x % 2) (y % 2))
            (by_fuel f g (suc x / 2) (y / 2) (omega arith) (omega arith))

pub or_digit : (a b : ℕ) → bit_or a b ≡ bit_or (a / 2) (b / 2) * 2 + max (a % 2) (b % 2)
or_digit zero b = rw (bit_or-bitwise 0 b, bit_or-bitwise 0 (b / 2)) (omega arith)
or_digit (suc a) b =
    rw (bit_or-bitwise (suc a) b, bit_or-bitwise (suc a / 2) (b / 2))
      (ap (λ d. d * 2 + max (suc a % 2) (b % 2))
        (enough (λ y. y) max (suc a / 2) a (b / 2) (suc a / 2) (omega arith) (omega arith)))

pub and_digit : (a b : ℕ) → bit_and a b ≡ bit_and (a / 2) (b / 2) * 2 + min (a % 2) (b % 2)
and_digit zero b = rw (bit_and-bitwise 0 b, bit_and-bitwise 0 (b / 2)) (omega arith)
and_digit (suc a) b =
    rw (bit_and-bitwise (suc a) b, bit_and-bitwise (suc a / 2) (b / 2))
      (ap (λ d. d * 2 + min (suc a % 2) (b % 2))
        (enough (λ y. zero) min (suc a / 2) a (b / 2) (suc a / 2) (omega arith) (omega arith)))

or_zero_within : (f a : ℕ) → a ≤ f → bit_or a 0 ≡ a
or_zero_within f zero h = refl
or_zero_within zero (suc a) h = elim h [ ]
or_zero_within (suc f) (suc a) h =
    omega (arith, or_digit (suc a) 0, or_zero_within f (suc a / 2) (omega arith))

and_zero_within : (f a : ℕ) → a ≤ f → bit_and a 0 ≡ 0
and_zero_within f zero h = refl
and_zero_within zero (suc a) h = elim h [ ]
and_zero_within (suc f) (suc a) h =
    omega (arith, and_digit (suc a) 0, and_zero_within f (suc a / 2) (omega arith))

pub and_zero : (a : ℕ) → bit_and a 0 ≡ 0
and_zero a = and_zero_within a a (omega arith)

double : (q k : ℕ) → q * 2 ^ suc k ≡ 2 * (q * 2 ^ k)
double q k = omega (arith, ap (λ (t : ℕ). q * t) (pow-suc 2 k))

-- A high field and a low one that fits below it are joined by `|` as by `+`.
pub or_high_low : (k q r : ℕ) → r < 2 ^ k → bit_or (q * 2 ^ k) r ≡ q * 2 ^ k + r
or_high_low zero q r h =
    let none_left : r ≡ 0 = omega arith in
    rw none_left (or_zero_within (q * 1) (q * 1) (omega arith) ∙ omega arith)
or_high_low (suc k) q r h = omega (
  arith,
  or_digit (q * 2 ^ suc k) r,
  double q k,
  ap (λ t. bit_or t (r / 2)) (half (q * 2 ^ k) (q * 2 ^ suc k) (double q k)),
  or_high_low k q (r / 2) (omega (arith, pow-suc 2 k)),
)
  where
    half : (m n : ℕ) → n ≡ 2 * m → n / 2 ≡ m
    half m n e = omega arith

-- A mask above `k` bits reads the field above `k` bits.
pub and_high : (k q r m : ℕ) → r < 2 ^ k → bit_and (q * 2 ^ k + r) (m * 2 ^ k) ≡ bit_and q m * 2 ^ k
and_high zero q r m h = ap₂' (omega arith) (omega arith)
  where
    ap₂' : q * 1 + r ≡ q → m * 1 ≡ m → bit_and (q * 1 + r) (m * 1) ≡ bit_and q m * 1
    ap₂' e e' = rw (e, e') (omega arith)
and_high (suc k) q r m h = omega (
  arith,
  and_digit (q * 2 ^ suc k + r) (m * 2 ^ suc k),
  double q k,
  double m k,
  double (bit_and q m) k,
  ap (λ t. bit_and t (m * 2 ^ suc k / 2)) (low (q * 2 ^ k) (q * 2 ^ suc k) (double q k)),
  ap (λ t. bit_and (q * 2 ^ k + r / 2) t) (half (m * 2 ^ k) (m * 2 ^ suc k) (double m k)),
  and_high k q (r / 2) m (omega (arith, pow-suc 2 k)),
)
  where
    half : (m n : ℕ) → n ≡ 2 * m → n / 2 ≡ m
    half m n e = omega arith

    low : (m n : ℕ) → n ≡ 2 * m → (n + r) / 2 ≡ m + r / 2
    low m n e = omega arith

pub and_one : (a : ℕ) → bit_and a 1 ≡ a % 2
and_one a = omega (arith, and_digit a 1, and_zero_within (a / 2) (a / 2) (omega arith))

-- Of a mask `2^k` only bit `k` is read.
pub and_bit : (k a : ℕ) → bit_and a (2 ^ k) ≡ a / 2 ^ k % 2 * 2 ^ k
and_bit zero a = omega (arith, and_one a)
and_bit (suc k) a = omega (
  arith,
  and_digit a (2 ^ suc k),
  pow-suc 2 k,
  ap (λ t. bit_and (a / 2) t) (half (2 ^ k) (2 ^ suc k) (pow-suc 2 k)),
  and_bit k (a / 2),
  ap (λ t. a / t) (pow-suc 2 k ∙ mul_comm (2 ^ k) 2) ∙ sym (div-div-eq-div-mul a 2 (2 ^ k)),
  ap (λ (t : ℕ). a / 2 / 2 ^ k % 2 * t) (pow-suc 2 k),
  ap (λ (t : ℕ). t % 2 * 2 ^ suc k)
      (ap (λ t. a / t) (pow-suc 2 k ∙ mul_comm (2 ^ k) 2) ∙ sym (div-div-eq-div-mul a 2 (2 ^ k))),
)
  where
    half : (m n : ℕ) → n ≡ m * 2 → n / 2 ≡ m
    half m n e = omega arith
