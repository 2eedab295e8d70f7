-- ===== src/Heap/Align.antt =====
-- Alignments are powers of two, and what is rounded to them stays a multiple of four.
use native.Mathlib.Nat.{mod-eq_of_lt, mod-lt, div-add-mod, mul_assoc}
use toy_kernel.Base.{
  ℕ, zero, suc, ◌+◌, ◌-◌, ◌*◌, ◌/◌, ◌%◌, ◌^◌, ◌≤◌, ◌<◌, ◌≡◌, inl, inr, refl, ap, ◌∙◌, true, false,
  bit_and, ◌==◌, ltb, arith, Bool-cases, ==_iff, ltb→lt, some,
}
use toy_kernel.Base.BitLaws.{and_digit}
use toy_kernel.Heap.Types.{Header, is_power_of_2}
use toy_kernel.Heap.Malloc.{real_size, adjust_of, can_use_chunk}

and_self_within : (f x : ℕ) → x ≤ f → bit_and x x ≡ x
and_self_within f zero h = refl
and_self_within zero (suc x) h = absurd (omega arith)
and_self_within (suc f) (suc x) h =
    omega (arith, and_digit (suc x) (suc x), and_self_within f (suc x / 2) (omega arith))

and_self : (x : ℕ) → bit_and x x ≡ x
and_self x = and_self_within x x (omega arith)

odd_bits : (k : ℕ) → bit_and (2 * k + 1) (2 * k) ≡ 2 * k
odd_bits k = omega (
  arith,
  and_digit (2 * k + 1) (2 * k),
  ap (λ z. bit_and z (2 * k / 2)) (half_odd k),
  ap (λ z. bit_and k z) (half_even k),
  and_self k,
)
  where
    half_odd : (k : ℕ) → (2 * k + 1) / 2 ≡ k
    half_odd k = omega arith

    half_even : (k : ℕ) → 2 * k / 2 ≡ k
    half_even k = omega arith

-- An odd number above 1 and its predecessor share a bit.
odd_shares : (x : ℕ) → x % 2 ≡ 1 → bit_and x (x - 1) ≡ x - 1
odd_shares x odd =
    let here : bit_and (2 * (x / 2) + 1) (2 * (x / 2)) ≡ bit_and x (x - 1) =
      ap (λ z. bit_and z (2 * (x / 2))) (omega arith) ∙ ap (λ z. bit_and x z) (omega arith) in
    omega (arith, here, odd_bits (x / 2))

pub is_power_of_2-four : (x : ℕ) → is_power_of_2 x ≡ true → 4 ≤ x → x % 4 ≡ 0
unfolding is_power_of_2
is_power_of_2-four x h le = elim (Bool-cases (x % 2 == 1)) [
  | inl odd ↦ ground (arith, odd_shares x ((==_iff _ 1).0 odd))
  | inr even ↦ elim (Bool-cases (x / 2 % 2 == 1)) [
    | inl odd ↦
        let half : bit_and (x / 2) ((x - 1) / 2) ≡ bit_and (x / 2) (x / 2 - 1) =
          ap (λ z. bit_and (x / 2) z) (ground arith) in
        ground (arith, and_digit x (x - 1), half, odd_shares (x / 2) ((==_iff _ 1).0 odd))
    | inr twice ↦ ground arith
  ]
]

pub mod-mod_four : (a m : ℕ) → m % 4 ≡ 0 → a % m % 4 ≡ a % 4
mod-mod_four a m e =
    let four : m ≡ 4 * (m / 4) = omega arith in
    omega (arith, div-add-mod a m, ap (λ t. t * (a / m)) four, mul_assoc 4 (m / 4) (a / m))

pub mod-le : (a m : ℕ) → a % m ≡ 0 → 0 < a → m ≤ a
mod-le a m e pos = elim (Bool-cases (ltb a m)) [
  | inl less ↦ absurd (ground (arith, mod-eq_of_lt (ltb→lt a m less)))
  | inr other ↦ ground arith
]

-- The bounds of the rounded size, where the request leaves room for it in 32 bits.
module _ (size alignment : ℕ) (four : 4 ≤ alignment) (room : size + 4 + alignment ≤ 2 ^ 32) where
  pub real_size-le : 4 + size ≤ real_size size alignment
  unfolding real_size
  real_size-le = ground (arith, mod-lt (4 + size) {m = alignment} (omega arith))

-- What `CanUseChunk` looks for.
pub record IsUsable (realsize chunk adjust : ℕ) (c : Header) : Type 0 where
  pub unused : c.used ≡ false
  pub fits : adjust + realsize ≤ c.size
  pub multiple : adjust % 4 ≡ 0

module _ (realsize alignment chunk : ℕ) (c : Header) where
  adjust_of-lt : 4 ≤ alignment → adjust_of chunk alignment < alignment
  unfolding adjust_of
  adjust_of-lt four = mod-lt _ (omega arith)

  adjust_of-four :
      4 ≤ alignment → alignment % 4 ≡ 0 → chunk % 4 ≡ 0 → adjust_of chunk alignment % 4 ≡ 0
  unfolding adjust_of
  adjust_of-four four a e =
      let word = (chunk + 4) % 2 ^ 32 in
      omega (
        arith,
        mod-mod_four (alignment - word % alignment) alignment a,
        mod-mod_four word alignment a,
        mod-lt word {m = alignment} (omega arith),
      )

  pub can_use_chunk-IsUsable :
      (adjust : ℕ)
      → can_use_chunk realsize alignment chunk c ≡ some adjust
      → 4 ≤ alignment
      → alignment % 4 ≡ 0
      → realsize % alignment ≡ 0
      → 0 < realsize
      → chunk % 4 ≡ 0
      → c.size < 2 ^ 31
      → IsUsable realsize chunk adjust c
  unfolding can_use_chunk
  can_use_chunk-IsUsable adjust h four a whole pos e small = record {
    unused = ground arith;
    fits = ground (arith, adjust_of-lt four, mod-le realsize alignment whole pos);
    multiple = ground (arith, adjust_of-four four a e);
  }
