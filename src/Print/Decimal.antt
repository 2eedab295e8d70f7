-- ===== src/Print/Decimal.antt =====
-- A number that is printed in decimal can be read back.
use native.Mathlib.Nat.{pow-suc}
use toy_kernel.Base.{
  ℕ, zero, suc, ◌+◌, ◌-◌, ◌*◌, ◌/◌, ◌%◌, ◌^◌, ◌≤◌, ◌<◌, ◌≡◌, refl, ap, ◌∙◌, List, [], ◌∷◌, length,
  ◌==◌, ltb, arith, ok, Bool-cases, ok-inj, inl, inr, ◌⊎◌, ==_iff,
}
use toy_kernel.Print.{
  decimal_loop, print_decimal_32, print_decimal_64, print_decimal_int32, int32_min_digits,
}

-- Digits after a number that is read already.
abbrev pub read_decimal : (so_far : ℕ) → List ℕ → ℕ
read_decimal so_far [] = so_far
read_decimal so_far (c ∷ cs) = read_decimal (so_far * 10 + (c - 48)) cs

abbrev pub AllDigits : List ℕ → Type 0
AllDigits [] = Unit {0}
AllDigits (c ∷ cs) = (48 ≤ c) × (c ≤ 57) × AllDigits cs

-- `cs` are the decimal digits of `val`, without a zero in front of others.
pub record IsDecimal (val : ℕ) (cs : List ℕ) : Type 0 where
  pub digits : AllDigits cs
  pub reads : read_decimal 0 cs ≡ val
  pub no_zero : (cs ≡ 48 ∷ []) ⊎ ((c : ℕ) × (rest : List ℕ) × (cs ≡ c ∷ rest) × (48 < c))

decimal_loop-returns :
    (room val : ℕ) (acc : List ℕ)
    → val < 10 ^ room
    → 0 < room
    → AllDigits acc
    → (cs : List ℕ) × (decimal_loop room val acc ≡ ok cs)
      × AllDigits cs
      × (read_decimal 0 cs ≡ read_decimal val acc)
      × (length cs ≤ room + length acc)
      × (0 < val → (c : ℕ) × (rest : List ℕ) × (cs ≡ c ∷ rest) × (48 < c))
unfolding decimal_loop
decimal_loop-returns zero val acc small pos a = absurd (omega arith)
decimal_loop-returns (suc zero) val acc small pos a =
    let small_ten : val < 10 = small in
    let e : val / 10 ≡ 0 = omega arith in
    let same : 0 * 10 + (val % 10 + 48 - 48) ≡ val = omega arith in
    (
      (val % 10 + 48) ∷ acc,
      rw ((==_iff (val / 10) 0).1 e) refl,
      (omega arith, omega arith, a),
      ap (λ z. read_decimal z acc) same,
      omega arith,
      λ p. (val % 10 + 48, acc, refl, omega arith),
    )
decimal_loop-returns (suc (suc room)) val acc small pos a = elim (Bool-cases (val / 10 == 0)) [
  | inl last ↦
      let e : val / 10 ≡ 0 = (==_iff (val / 10) 0).0 last in
      let same : 0 * 10 + (val % 10 + 48 - 48) ≡ val = omega arith in
      (
        (val % 10 + 48) ∷ acc,
        rw last refl,
        (omega arith, omega arith, a),
        ap (λ z. read_decimal z acc) same,
        omega arith,
        λ p. (val % 10 + 48, acc, refl, omega arith),
      )
  | inr more ↦
      let same : val / 10 * 10 + (val % 10 + 48 - 48) ≡ val = omega arith in
      let (cs, ran, ds, reads, short, front) =
        decimal_loop-returns (suc room) (val / 10) ((val % 10 + 48) ∷ acc)
          (omega (arith, pow-suc 10 (suc room))) (omega arith) (omega arith, omega arith, a) in
      (
        cs,
        rw more ran,
        ds,
        reads ∙ ap (λ z. read_decimal z acc) same,
        omega (arith, short),
        λ p. front (ground (arith, more)),
      )
]

decimal_loop-IsDecimal :
    (room val : ℕ)
    → val < 10 ^ room
    → 0 < room
    → (cs : List ℕ) × (decimal_loop room val [] ≡ ok cs) × IsDecimal val cs × (length cs ≤ room)
unfolding decimal_loop
decimal_loop-IsDecimal zero val small pos = absurd (omega arith)
decimal_loop-IsDecimal (suc room) zero small pos = (
  48 ∷ [],
  refl,
  record { digits = (omega arith, omega arith, tt); reads = refl; no_zero = inl refl },
  omega arith,
)
decimal_loop-IsDecimal (suc room) (suc n) small pos =
    let (cs, ran, ds, reads, short, front) =
      decimal_loop-returns (suc room) (suc n) [] small pos tt in
    (
      cs,
      ran,
      record { digits = ds; reads = reads; no_zero = inr (front (omega arith)) },
      omega (arith, short),
    )

-- `PrintDecimal` of a 32-bit number stays in its buffer of ten bytes and puts the decimal digits of
-- the number, with no zero in front.
print_decimal_32-IsDecimal :
    (val : ℕ)
    → val < 2 ^ 32
    → (cs : List ℕ) × (print_decimal_32 val ≡ ok cs) × IsDecimal val cs × (length cs ≤ 10)
unfolding print_decimal_32
print_decimal_32-IsDecimal val small = decimal_loop-IsDecimal 10 val (omega arith) (omega arith)

-- `PrintDecimal` of a 64-bit number stays in its buffer of twenty bytes and puts the decimal digits
-- of the number, with no zero in front.
print_decimal_64-IsDecimal :
    (val : ℕ)
    → val < 2 ^ 64
    → (cs : List ℕ) × (print_decimal_64 val ≡ ok cs) × IsDecimal val cs × (length cs ≤ 20)
unfolding print_decimal_64
print_decimal_64-IsDecimal val small = decimal_loop-IsDecimal 20 val (omega arith) (omega arith)

-- The digits of a word below 2^31, a minus and the digits of its negation for any other.
abbrev pub IsSignedDecimal : (word : ℕ) → List ℕ → Type 0
IsSignedDecimal word cs =
    (word < 2 ^ 31) × IsDecimal word cs
    ⊎ (2 ^ 31 ≤ word) × ((ds : List ℕ) × (cs ≡ 45 ∷ ds) × IsDecimal (2 ^ 32 - word) ds)

abbrev least_digits : List ℕ
least_digits = 50 ∷ 49 ∷ 52 ∷ 55 ∷ 52 ∷ 56 ∷ 51 ∷ 54 ∷ 52 ∷ 56 ∷ []

least_digits-IsDecimal : IsDecimal (2 ^ 31) least_digits
unfolding decimal_loop
least_digits-IsDecimal =
    let (cs, ran, is, short) = decimal_loop-IsDecimal 10 (2 ^ 31) (omega arith) (omega arith) in
    let same : least_digits ≡ cs = ok-inj ran in rw same is

-- `PrintDecimal` of the bits of any `int32_t` stays in its buffer and puts the digits of the number,
-- after a minus and negated where it is negative, also for the least one, which the code prints from
-- a literal.
pub print_decimal_int32-IsSignedDecimal :
    (word : ℕ)
    → word < 2 ^ 32
    → (cs : List ℕ) × (print_decimal_int32 word ≡ ok cs) × IsSignedDecimal word cs
unfolding print_decimal_int32
print_decimal_int32-IsSignedDecimal word small = elim (Bool-cases (ltb word (2 ^ 31))) [
  | inl plus ↦
      let low : word < 2 ^ 31 = ground (arith, plus) in
      let (cs, ran, is, short) = print_decimal_32-IsDecimal word small in
      (cs, rw plus ran, inl (low, is))
  | inr minus ↦
      let high : 2 ^ 31 ≤ word = ground (arith, minus) in
      elim (Bool-cases (word == 2 ^ 31)) [
        | inl least ↦
            let e : word ≡ 2 ^ 31 = (==_iff word (2 ^ 31)).0 least in
            (
              int32_min_digits,
              rw minus (rw least refl),
              inr (high, (least_digits, refl, rw e least_digits-IsDecimal)),
            )
        | inr other ↦
            let (ds, ran, is, short) = print_decimal_32-IsDecimal (2 ^ 32 - word) (omega arith) in
            (45 ∷ ds, rw minus (rw other (rw ran refl)), inr (high, (ds, refl, is)))
      ]
]
