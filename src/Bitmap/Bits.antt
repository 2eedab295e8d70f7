-- ===== src/Bitmap/Bits.antt =====
-- The array as the set of its bits: what `setOne`, `setZero`, `Clear` and `isSet` have to do with one
-- another.
use toy_kernel.Base.{
  ℕ, zero, suc, ◌/◌, ◌%◌, ◌<◌, ◌≡◌, refl, sym, ap, ap₂, ◌∙◌, Bool, false, not, if◌then◌else◌, ◌&&◌,
  ◌||◌, List, [], ◌∷◌, ◌==◌, arith, length, get_or, set, replicate, length-set, length-replicate,
  get_or-set_self, get_or-set_ne, get_or-replicate, ok, Bool-cases, inl, inr, ==_iff,
}
use toy_kernel.Bitmap.{BitArray, test_bit, with_one, with_zero, clear, set_one, set_zero, is_set}
use toy_kernel.Bitmap.Bytes.{
  test_bit-with_one, test_bit-with_zero, with_one-lt, with_zero-lt, test_bit-zero,
}

abbrev pub AllBytes : List ℕ → Type 0
AllBytes [] = Unit {0}
AllBytes (b ∷ bs) = (b < 256) × AllBytes bs

-- An array of `num_bits / 8` bytes, for a number of bits that fills them.
pub record IsBitArray (num_bits : ℕ) (a : BitArray) : Type 0 where
  pub whole_bytes : num_bits % 8 ≡ 0
  pub size : length a ≡ num_bits / 8
  pub bytes : AllBytes a

AllBytes-set : (a : List ℕ) (i v : ℕ) → AllBytes a → v < 256 → AllBytes (set a i v)
AllBytes-set [] i v h lt = tt
AllBytes-set (b ∷ a) zero v h lt = (lt, h.1)
AllBytes-set (b ∷ a) (suc i) v h lt = (h.0, AllBytes-set a i v h.1 lt)

AllBytes-get_or : (a : List ℕ) (i : ℕ) → AllBytes a → get_or a i 0 < 256
AllBytes-get_or [] i h = omega arith
AllBytes-get_or (b ∷ a) zero h = h.0
AllBytes-get_or (b ∷ a) (suc i) h = AllBytes-get_or a i h.1

AllBytes-replicate : (n : ℕ) → AllBytes (replicate n 0)
AllBytes-replicate zero = tt
AllBytes-replicate (suc n) = (omega arith, AllBytes-replicate n)

-- A write of the byte of bit `i`, read at bit `j`.
is_set-set :
    (a : BitArray) (num_bits i j v : ℕ)
    → IsBitArray num_bits a
    → i < num_bits
    → is_set (set a (i / 8) v) j ≡ (if i / 8 == j / 8 then test_bit v (j % 8) else is_set a j)
unfolding is_set
is_set-set a num_bits i j v h lt = elim (Bool-cases (i / 8 == j / 8)) [
  | inl same ↦
      let e = (==_iff (i / 8) (j / 8)).0 same in
      rw same (
        ap (λ b. test_bit b (j % 8))
          (rw (← e) (get_or-set_self a (i / 8) v 0 (omega (arith, h.size, h.whole_bytes)))))
  | inr apart ↦
      rw apart (ap (λ b. test_bit b (j % 8)) (get_or-set_ne a (i / 8) (j / 8) v 0 (ground arith)))
]

is_set-byte : (a : BitArray) (j : ℕ) → is_set a j ≡ test_bit (get_or a (j / 8) 0) (j % 8)
unfolding is_set
is_set-byte a j = refl

-- The same for a byte that is computed from the old one.
module _ (a : BitArray) (num_bits i j : ℕ) (f : ℕ → ℕ → ℕ) (g : Bool → Bool → Bool)
    (h : IsBitArray num_bits a) (lt : i < num_bits) where
  is_set-set_byte :
      (test_bit (f (get_or a (i / 8) 0) (i % 8)) (j % 8)
        ≡ g (i % 8 == j % 8) (test_bit (get_or a (i / 8) 0) (j % 8)))
      → ((b : Bool) → g false b ≡ b)
      → is_set (set a (i / 8) (f (get_or a (i / 8) 0) (i % 8))) j ≡ g (i == j) (is_set a j)
  is_set-set_byte law off = elim (Bool-cases (i / 8 == j / 8)) [
    | inl same ↦
        let digit : (i % 8 == j % 8) ≡ (i == j) = ground arith in
        let here : test_bit (get_or a (i / 8) 0) (j % 8) ≡ is_set a j =
          sym (is_set-byte a j ∙ ap (λ k. test_bit (get_or a k 0) (j % 8)) (ground arith)) in
        rw (is_set-set a num_bits i j (f (get_or a (i / 8) 0) (i % 8)) h lt, same)
          (law ∙ ap₂ g digit here)
    | inr apart ↦
        let ne : (i == j) ≡ false = ground arith in
        rw (is_set-set a num_bits i j (f (get_or a (i / 8) 0) (i % 8)) h lt, apart, ne)
          (sym (off (is_set a j)))
  ]

module _ (num_bits : ℕ) (a b : BitArray) (i : ℕ) (h : IsBitArray num_bits a) where
  set_one-ok :
      set_one num_bits a i ≡ ok b
      → (i < num_bits) × (b ≡ set a (i / 8) (with_one (get_or a (i / 8) 0) (i % 8)))
  unfolding set_one
  set_one-ok e = ground arith

  set_zero-ok :
      set_zero num_bits a i ≡ ok b
      → (i < num_bits) × (b ≡ set a (i / 8) (with_zero (get_or a (i / 8) 0) (i % 8)))
  unfolding set_zero
  set_zero-ok e = ground arith

  -- After `setOne` exactly the bits that were set and the written one are set.
  pub is_set-set_one : (j : ℕ) → set_one num_bits a i ≡ ok b → is_set b j ≡ ((i == j) || is_set a j)
  is_set-set_one j e =
      let (lt, eq) = set_one-ok e in
      ap (λ c. is_set c j) eq
      ∙ is_set-set_byte a num_bits i j with_one ◌||◌ h lt
          (test_bit-with_one (get_or a (i / 8) 0) (i % 8) (j % 8)
            (AllBytes-get_or a (i / 8) h.bytes) (omega arith) (omega arith))
          (λ x. refl)

  -- After `setZero` exactly the other bits that were set are set.
  pub is_set-set_zero :
      (j : ℕ) → set_zero num_bits a i ≡ ok b → is_set b j ≡ (not (i == j) && is_set a j)
  is_set-set_zero j e =
      let (lt, eq) = set_zero-ok e in
      ap (λ c. is_set c j) eq
      ∙ is_set-set_byte a num_bits i j with_zero (λ x y. not x && y) h lt
          (test_bit-with_zero (get_or a (i / 8) 0) (i % 8) (j % 8)
            (AllBytes-get_or a (i / 8) h.bytes) (omega arith) (omega arith))
          (λ x. refl)

  pub set_one-IsBitArray : set_one num_bits a i ≡ ok b → IsBitArray num_bits b
  set_one-IsBitArray e =
      let (lt, eq) = set_one-ok e in
      record {
        whole_bytes = h.whole_bytes;
        size = rw eq (length-set a _ _ ∙ h.size);
        bytes = rw eq (AllBytes-set a _ _ h.bytes (with_one-lt _ _));
      }

  pub set_zero-IsBitArray : set_zero num_bits a i ≡ ok b → IsBitArray num_bits b
  set_zero-IsBitArray e =
      let (lt, eq) = set_zero-ok e in
      record {
        whole_bytes = h.whole_bytes;
        size = rw eq (length-set a _ _ ∙ h.size);
        bytes = rw eq (AllBytes-set a _ _ h.bytes (with_zero-lt _ _));
      }

pub clear-IsBitArray : (num_bits : ℕ) → num_bits % 8 ≡ 0 → IsBitArray num_bits (clear num_bits)
unfolding clear
clear-IsBitArray num_bits e = record {
  whole_bytes = e;
  size = length-replicate (num_bits / 8) 0;
  bytes = AllBytes-replicate (num_bits / 8);
}

pub is_set-clear : (num_bits j : ℕ) → is_set (clear num_bits) j ≡ false
unfolding clear is_set
is_set-clear num_bits j =
    ap (λ b. test_bit b (j % 8)) (get_or-replicate (num_bits / 8) (j / 8) 0) ∙ test_bit-zero (j % 8)
