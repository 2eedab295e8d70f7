-- ===== src/Vfs/Returns.antt =====
-- `SimplifyName` returns for every name.
use toy_kernel.Base.{
  ℕ, zero, suc, ◌<◌, ◌≡◌, refl, ap, false, ◌&&◌, [], ◌∷◌, length, get_or, ◌==◌, Bool-cases, inl,
  inr, arith, ok,
}
use toy_kernel.Vfs.{
  Name, dot, is_empty, is_space, last, without_last, rstrip_loop, inplace_lstrip, inplace_rstrip,
  without_dot, without_separator, simplify_name,
}

pub without_last-shorter : (c : ℕ) (cs : Name) → length (without_last c cs) ≡ length cs
without_last-shorter c [] = refl
without_last-shorter c (d ∷ ds) = ap suc (without_last-shorter d ds)

rstrip_loop-returns :
    (rounds c : ℕ) (cs : Name)
    → is_space c ≡ false
    → length cs < rounds
    → (name : Name) × (rstrip_loop rounds (c ∷ cs) ≡ ok name)
unfolding rstrip_loop
rstrip_loop-returns zero c cs front enough = absurd (omega arith)
rstrip_loop-returns (suc rounds) c [] front enough = (c ∷ [], rw front refl)
rstrip_loop-returns (suc rounds) c (d ∷ ds) front enough =
    elim (Bool-cases (is_space (last d ds))) [
      | inl more ↦
          let (name, ran) =
            rstrip_loop-returns rounds c (without_last d ds) front
              (omega (arith, without_last-shorter d ds)) in
          (name, rw more ran)
      | inr done ↦ (c ∷ d ∷ ds, rw done refl)
    ]

Lstripped : Name → Type 0
Lstripped [] = Unit {0}
Lstripped (c ∷ cs) = is_space c ≡ false

inplace_lstrip-Lstripped : (p : Name) → Lstripped (inplace_lstrip p)
unfolding inplace_lstrip Lstripped
inplace_lstrip-Lstripped [] = tt
inplace_lstrip-Lstripped (c ∷ cs) = elim (Bool-cases (is_space c)) [
  | inl space ↦ rw space (inplace_lstrip-Lstripped cs)
  | inr other ↦ rw other other
]

inplace_rstrip-returns : (p : Name) → Lstripped p → (name : Name) × (inplace_rstrip p ≡ ok name)
unfolding inplace_rstrip Lstripped
inplace_rstrip-returns [] h = ([], refl)
inplace_rstrip-returns (c ∷ cs) h = rstrip_loop-returns (suc (length cs)) c cs h (omega arith)

pub simplify_name-returns : (p : Name) → (name : Name) × (simplify_name p ≡ ok name)
unfolding simplify_name
simplify_name-returns p =
    let (n, ran) = inplace_rstrip-returns (inplace_lstrip p) (inplace_lstrip-Lstripped p) in
    elim (Bool-cases (is_empty n)) [
      | inl empty ↦ (n, rw ran (rw empty refl))
      | inr filled ↦ elim (Bool-cases (length n == 1 && get_or n 0 0 == dot)) [
        | inl only ↦ (n, rw ran (rw filled (rw only refl)))
        | inr other ↦ (without_separator (without_dot n), rw ran (rw filled (rw other refl)))
      ]
    ]
