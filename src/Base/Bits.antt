-- ===== src/Base/Bits.antt =====
-- Shifts and masks on machine words.
use Prim.Native.Nat.{ℕ, zero, suc, ◌-◌, ◌*◌, ◌/◌, ◌%◌, ◌^◌, ◌<◌, bit_xor}
use mathlib.Core.Path.{◌≡◌}
use mathlib.Core.Bool.{Bool, true, false, ◌&&◌}
use native.Mathlib.Omega.{arith}

-- `x >> k`, and `x << k` in a word of `w` bits.
abbrev pub shr : ℕ → ℕ → ℕ
shr x k = x / 2 ^ k

abbrev pub shl : (w : ℕ) → ℕ → ℕ → ℕ
shl w x k = x * 2 ^ k % 2 ^ w

-- `~x` in a word of `w` bits.
abbrev pub complement : (w : ℕ) → ℕ → ℕ
complement w x = bit_xor x (2 ^ w - 1)

-- `n & mask` as a condition.
abbrev pub nonzero : ℕ → Bool
nonzero zero = false
nonzero (suc n) = true

-- Over a small range, check every value by evaluation.
unfoldable pub every_below : (bound : ℕ) → (test : ℕ → Bool) → Bool
every_below zero test = true
every_below (suc k) test = test k && every_below k test

pub every_below_at :
    (bound : ℕ) (test : ℕ → Bool) (k : ℕ)
    → every_below bound test ≡ true
    → k < bound
    → test k ≡ true
unfolding every_below
every_below_at zero test k table inside = absurd (omega arith)
every_below_at (suc n) test k table inside = ground (arith, every_below_at n test k)
