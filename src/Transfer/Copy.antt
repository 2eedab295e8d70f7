-- ===== src/Transfer/Copy.antt =====
-- What a copy of the bytes of a kernel variable leaves in physical memory.
use toy_kernel.Base.{
  ℕ, zero, suc, ◌+◌, ◌%◌, ◌^◌, ◌≤◌, ◌<◌, ◌≡◌, refl, sym, ap, ◌∙◌, some, List, [], ◌∷◌, length,
  get_elem?, update, arith, Outcome, ok,
}
use toy_kernel.Strings.Copy.{Outside}
use toy_kernel.Transfer.{Machine, active, look_up, store, variable, copy}

get_elem?-length :
    {A : Type 0} (xs : List A) (i : ℕ) → i < length xs → (b : A) × (get_elem? xs i ≡ some b)
get_elem?-length [] i h = absurd (omega arith)
get_elem?-length (x ∷ xs) zero h = (x, refl)
get_elem?-length (x ∷ xs) (suc i) h = get_elem?-length xs i (omega arith)

-- The bytes are at `base` in physical memory, and no other byte has changed.
pub record IsWritten (base rounds i : ℕ) (bytes : List ℕ) (old new : ℕ → ℕ) : Type 0 where
  pub there : (k : ℕ) → k < rounds → get_elem? bytes (i + k) ≡ some (new (base + k))
  pub others : (q : ℕ) → Outside base rounds q → new q ≡ old q

IsWritten-suc :
    (base rounds i b : ℕ) (bytes : List ℕ) (old new : ℕ → ℕ)
    → get_elem? bytes i ≡ some b
    → IsWritten (base + 1) rounds (suc i) bytes (update old base b) new
    → IsWritten base (suc rounds) i bytes old new
IsWritten-suc base rounds i b bytes old new got w = record {
  there = here;
  others = λ q o. w.others q (omega arith) ∙ ground (arith, o);
}
  where
    here : (k : ℕ) → k < suc rounds → get_elem? bytes (i + k) ≡ some (new (base + k))
    here zero h =
        let first : base + 0 ≡ base = omega arith in
        let start : i + 0 ≡ i = omega arith in
        let written : new base ≡ b = w.others base (omega arith) ∙ ground arith in
        rw first (rw start (got ∙ ap some (sym written)))
    here (suc k) h =
        let address : base + suc k ≡ base + 1 + k = omega arith in
        let number : i + suc k ≡ suc i + k = omega arith in
        rw address (rw number (w.there k (omega arith)))

copy-suc :
    (rounds i dst base b : ℕ) (bytes : List ℕ) (m : Machine)
    → dst + 1 < 2 ^ 32
    → get_elem? bytes i ≡ some b
    → look_up (active m) m.stale dst m.system.paging ≡ ok base
    → copy (suc rounds) i dst (variable bytes) m
      ≡ copy rounds (suc i) (dst + 1) (variable bytes) (record m { phys = update m.phys base b })
unfolding copy store
copy-suc rounds i dst base b bytes m word got maps =
    let next : (dst + 1) % 2 ^ 32 ≡ dst + 1 = omega arith in rw got (rw maps (rw next refl))

pub copy-IsWritten :
    (rounds i dst base : ℕ) (bytes : List ℕ) (m : Machine)
    → i + rounds ≤ length bytes
    → dst + rounds < 2 ^ 32
    → ((k : ℕ) → k < rounds → look_up (active m) m.stale (dst + k) m.system.paging ≡ ok (base + k))
    → (new : ℕ → ℕ) × (copy rounds i dst (variable bytes) m ≡ ok (record m { phys = new }))
      × IsWritten base rounds i bytes m.phys new
unfolding copy
copy-IsWritten zero i dst base bytes m fits word maps =
    (m.phys, refl, record { there = λ k h. absurd (omega arith); others = λ q o. refl })
copy-IsWritten (suc rounds) i dst base bytes m fits word maps =
    let at : ℕ → Outcome ℕ = λ a. look_up (active m) m.stale a m.system.paging in
    let (b, got) = get_elem?-length bytes i (omega arith) in
    let (new, ran, w) =
      copy-IsWritten rounds (suc i) (dst + 1) (base + 1) bytes
        (record m { phys = update m.phys base b }) (omega arith) (omega arith)
        (λ k h. ap at (omega arith) ∙ maps (suc k) (omega arith) ∙ ap ok (omega arith)) in
    (
      new,
      copy-suc rounds i dst base b bytes m (omega arith) got
            (ap at (omega arith) ∙ maps 0 (omega arith) ∙ ap ok (omega arith))
          ∙ ran,
      IsWritten-suc base rounds i b bytes m.phys new got w,
    )
