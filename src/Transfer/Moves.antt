-- ===== src/Transfer/Moves.antt =====
-- Bytes that a copy within the space in CR3 takes from one place of physical memory to another.
use toy_kernel.Base.{
  ℕ, zero, suc, ◌+◌, ◌%◌, ◌^◌, ◌≤◌, ◌<◌, ◌≡◌, refl, ap, ◌∙◌, true, Option, none, some, update,
  arith, Outcome, ok, check, ◌⊎◌, >>=-eq-ok, check-eq-ok,
}
use toy_kernel.Strings.Copy.{Outside}
use toy_kernel.Paging.{Directory, Paging, dir_at, is_present, page_index_4m}
use toy_kernel.Transfer.{
  Machine, active, translate, look_up_with, look_up, load, store, memory_at, copy,
}

-- An address that leads somewhere leads there too with more pages mapped.
translate-kept :
    (d : Directory) (vaddr a : ℕ) (s s' : Paging)
    → ((j : ℕ) → is_present (dir_at d s j) ≡ true → dir_at d s' j ≡ dir_at d s j)
    → translate d vaddr s ≡ ok a
    → translate d vaddr s' ≡ ok a
unfolding translate
translate-kept d vaddr a s s' kept h =
    let (_, present, _) = >>=-eq-ok (check (is_present (dir_at d s (page_index_4m vaddr)))) _ h in
    rw (kept (page_index_4m vaddr) (check-eq-ok _ present)) h

-- The same of what the processor finds.
pub look_up-kept :
    (o : Option ℕ) (d : Directory) (vaddr a : ℕ) (s s' : Paging)
    → ((j : ℕ) → is_present (dir_at d s j) ≡ true → dir_at d s' j ≡ dir_at d s j)
    → look_up_with o d vaddr s ≡ ok a
    → look_up_with o d vaddr s' ≡ ok a
look_up-kept none d vaddr a s s' kept h = translate-kept d vaddr a s s' kept h
look_up-kept (some e) d vaddr a s s' kept h = h

-- Bytes of memory at another place.
pub record IsMoved (to from rounds : ℕ) (old new : ℕ → ℕ) : Type 0 where
  pub there : (k : ℕ) → k < rounds → new (to + k) ≡ old (from + k)
  pub others : (q : ℕ) → Outside to rounds q → new q ≡ old q

abbrev pub Apart : (a b size : ℕ) → Type 0
Apart a b size = (a + size ≤ b) ⊎ (b + size ≤ a)

copy_step :
    (rounds i dst to src from : ℕ) (m : Machine)
    → dst + 1 < 2 ^ 32
    → src + i < 2 ^ 32
    → look_up (active m) m.stale (src + i) m.system.paging ≡ ok from
    → look_up (active m) m.stale dst m.system.paging ≡ ok to
    → copy (suc rounds) i dst (memory_at src) m
      ≡ copy rounds
          (suc i)
          (dst + 1)
          (memory_at src)
          (record m { phys = update m.phys to (m.phys from) })
unfolding copy store load
copy_step rounds i dst to src from m word src_word reads writes =
    let next : (dst + 1) % 2 ^ 32 ≡ dst + 1 = omega arith in
    let at : (src + i) % 2 ^ 32 ≡ src + i = omega arith in
    rw at (rw reads (rw writes (rw next refl)))

pub copy-IsMoved :
    (rounds i dst to src from : ℕ) (m : Machine)
    → dst + rounds < 2 ^ 32
    → src + i + rounds < 2 ^ 32
    → Apart to from rounds
    → ((k : ℕ)
        → k < rounds
        → look_up (active m) m.stale (src + i + k) m.system.paging ≡ ok (from + k))
    → ((k : ℕ) → k < rounds → look_up (active m) m.stale (dst + k) m.system.paging ≡ ok (to + k))
    → (new : ℕ → ℕ) × (copy rounds i dst (memory_at src) m ≡ ok (record m { phys = new }))
      × IsMoved to from rounds m.phys new
unfolding copy
copy-IsMoved zero i dst to src from m word src_word apart reads writes =
    (m.phys, refl, record { there = λ k h. absurd (omega arith); others = λ q o. refl })
copy-IsMoved (suc rounds) i dst to src from m word src_word apart reads writes =
    let at : ℕ → Outcome ℕ = λ a. look_up (active m) m.stale a m.system.paging in
    let m1 = record m { phys = update m.phys to (m.phys from) } in
    let (new, ran, w) =
      copy-IsMoved rounds (suc i) (dst + 1) (to + 1) src (from + 1) m1 (omega arith) (omega arith)
        (omega arith)
        (λ k h. ap at (omega arith) ∙ reads (suc k) (omega arith) ∙ ap ok (omega arith))
        (λ k h. ap at (omega arith) ∙ writes (suc k) (omega arith) ∙ ap ok (omega arith)) in
    (
      new,
      copy_step rounds i dst to src from m (omega arith) (omega arith)
            (ap at (omega arith) ∙ reads 0 (omega arith) ∙ ap ok (omega arith))
            (ap at (omega arith) ∙ writes 0 (omega arith) ∙ ap ok (omega arith))
          ∙ ran,
      moved_suc to from rounds m.phys new apart w,
    )
  where
    moved_suc :
        (to from rounds : ℕ) (old new : ℕ → ℕ)
        → Apart to from (suc rounds)
        → IsMoved (to + 1) (from + 1) rounds (update old to (old from)) new
        → IsMoved to from (suc rounds) old new
    moved_suc to from rounds old new apart w = record {
      there = λ k h. first k h;
      others = λ q o. w.others q (omega arith) ∙ ground (arith, o);
    }
      where
        first : (k : ℕ) → k < suc rounds → new (to + k) ≡ old (from + k)
        first zero h =
            let a : to + 0 ≡ to = omega arith in
            let b : from + 0 ≡ from = omega arith in
            rw a (rw b (w.others to (omega arith) ∙ ground arith))
        first (suc k) h =
            let a : to + suc k ≡ to + 1 + k = omega arith in
            let b : from + suc k ≡ from + 1 + k = omega arith in
            let apart_here : ¬ (from + 1 + k ≡ to) = omega arith in
            rw a (rw b (w.there k (omega arith) ∙ ground arith))
