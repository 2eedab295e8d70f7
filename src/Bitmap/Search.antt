-- ===== src/Bitmap/Search.antt =====
-- `GetFirstZero` finds the first bit that is not set, and `Reserve` sets every bit from the given one.
use toy_kernel.Base.{
  ℕ, zero, suc, ◌+◌, ◌-◌, ◌≤◌, ◌<◌, ◌≡◌, refl, true, false, ◌||◌, none, some, ◌==◌, leb, arith, ok,
  ok_of, Bool-cases, inl, inr, ==_iff, some-inj,
}
use toy_kernel.Bitmap.{
  BitArray, set_one, is_set, reserve_loop, reserve, first_zero_loop, get_first_zero,
}
use toy_kernel.Bitmap.Bits.{IsBitArray, is_set-set_one, set_one-IsBitArray}

-- `k` is the first bit from `start` on that is not set.
pub record IsFirstZero (a : BitArray) (start bound k : ℕ) : Type 0 where
  pub from_start : start ≤ k
  pub in_bounds : k < bound
  pub unset : is_set a k ≡ false
  pub first : (j : ℕ) → start ≤ j → j < k → is_set a j ≡ true

IsFirstZero-step :
    (a : BitArray) (start bound k : ℕ)
    → is_set a start ≡ true
    → IsFirstZero a (suc start) bound k
    → IsFirstZero a start bound k
IsFirstZero-step a start bound k on z = record {
  from_start = omega (arith, z.from_start);
  in_bounds = z.in_bounds;
  unset = z.unset;
  first = λ j lo hi. elim (Bool-cases (start == j)) [
    | inl e ↦ rw (← (==_iff start j).0 e) on
    | inr ne ↦ z.first j (ground arith) hi
  ];
}

first_zero_loop-some :
    (rounds start k : ℕ) (a : BitArray)
    → first_zero_loop rounds start a ≡ some k
    → IsFirstZero a start (start + rounds) k
unfolding first_zero_loop
first_zero_loop-some zero start k a h = cc
first_zero_loop-some (suc rounds) start k a h = elim (Bool-cases (is_set a start)) [
  | inl on ↦
      let z : IsFirstZero a (suc start) (suc start + rounds) k =
        first_zero_loop-some rounds (suc start) k a (rw on at h) in
      IsFirstZero-step a start (start + suc rounds) k on (record {
        from_start = z.from_start;
        in_bounds = omega (arith, z.in_bounds);
        unset = z.unset;
        first = z.first;
      })
  | inr off ↦
      let e : start ≡ k = some-inj (rw off at h) in
      record {
        from_start = omega arith;
        in_bounds = omega arith;
        unset = rw (← e) off;
        first = λ j lo hi. absurd (omega arith);
      }
]

first_zero_loop-none :
    (rounds start j : ℕ) (a : BitArray)
    → first_zero_loop rounds start a ≡ none
    → start ≤ j
    → j < start + rounds
    → is_set a j ≡ true
unfolding first_zero_loop
first_zero_loop-none zero start j a h lo hi = absurd (omega arith)
first_zero_loop-none (suc rounds) start j a h lo hi = elim (Bool-cases (is_set a start)) [
  | inl on ↦ elim (Bool-cases (start == j)) [
    | inl e ↦ rw (← (==_iff start j).0 e) on
    | inr ne ↦ first_zero_loop-none rounds (suc start) j a (rw on at h) (ground arith) (omega arith)
  ]
  | inr off ↦ absurd (cc (rw off at h))
]

-- `GetFirstZero` returns a bit exactly where one from `start` on is not set, and then the first such
-- bit. `start` is within the array.
pub get_first_zero-first :
    (num_bits : ℕ) (a : BitArray) (start : ℕ)
    → start ≤ num_bits
    → ((k : ℕ) → get_first_zero num_bits a start ≡ some k → IsFirstZero a start num_bits k)
      × (get_first_zero num_bits a start ≡ none
          → (j : ℕ) → start ≤ j
          → j < num_bits
          → is_set a j ≡ true)
unfolding get_first_zero
get_first_zero-first num_bits a start le = (
  λ k h.
      let z = first_zero_loop-some (num_bits - start) start k a h in
      record {
        from_start = z.from_start;
        in_bounds = omega (arith, z.in_bounds);
        unset = z.unset;
        first = z.first;
      },
  λ h j lo hi. first_zero_loop-none (num_bits - start) start j a h lo (omega arith),
)

-- What `Reserve` leaves.
pub record IsReserved (num_bits n : ℕ) (a b : BitArray) : Type 0 where
  pub valid : IsBitArray num_bits b
  pub bits : (j : ℕ) → j < num_bits → is_set b j ≡ (leb n j || is_set a j)

set_one-returns :
    (num_bits i : ℕ) (a : BitArray) → i < num_bits → (b : BitArray) × (set_one num_bits a i ≡ ok b)
unfolding set_one
set_one-returns num_bits i a lt = ok_of (set_one num_bits a i) (ground arith)

reserve_loop-IsReserved :
    (num_bits rounds n : ℕ) (a : BitArray)
    → IsBitArray num_bits a
    → n + rounds ≡ num_bits
    → (b : BitArray) × (reserve_loop num_bits rounds n a ≡ ok b) × IsReserved num_bits n a b
unfolding reserve_loop
reserve_loop-IsReserved num_bits zero n a v e =
    (a, refl, record { valid = v; bits = λ j lt. ground arith })
reserve_loop-IsReserved num_bits (suc rounds) n a v e =
    let (a', one) = set_one-returns num_bits n a (omega arith) in
    let (b, ran, r) =
      reserve_loop-IsReserved num_bits rounds (suc n) a' (set_one-IsBitArray num_bits a a' n v one)
        (omega arith) in
    (
      b,
      rw one ran,
      record {
        valid = r.valid;
        bits = λ j lt. ground (arith, r.bits j lt, is_set-set_one num_bits a a' n v j one);
      },
    )

-- `Reserve` returns for an `n` within the array, and leaves exactly the bits from `n` on and those
-- that were set before.
pub reserve-IsReserved :
    (num_bits n : ℕ) (a : BitArray)
    → IsBitArray num_bits a
    → n ≤ num_bits
    → (b : BitArray) × (reserve num_bits a n ≡ ok b) × IsReserved num_bits n a b
unfolding reserve
reserve-IsReserved num_bits n a v le =
    let (b, ran, r) = reserve_loop-IsReserved num_bits (num_bits - n) n a v (omega arith) in
    let inside : leb n num_bits ≡ true = ground arith in (b, rw inside ran, r)
