-- ===== src/Heap/Growth.antt =====
-- Both `sbrk` functions keep the top of the heap in its place, and the kernel's keeps the paging
-- invariant.
use toy_kernel.Base.{
  ℕ, zero, suc, ◌+◌, ◌*◌, ◌/◌, ◌%◌, ◌^◌, ◌≤◌, ◌<◌, ◌≡◌, ap, subst, ◌∙◌, false, not, ◌==◌, ltb,
  arith, ok, check, need, need-eq-ok, >>=-eq-ok, ok-inj, Bool-cases, inl, inr,
}
use toy_kernel.Bitmap.{get_first_zero}
use toy_kernel.Bitmap.Search.{get_first_zero-first}
use toy_kernel.Paging.{kernel, Paging, kern_heap_end, page_size_4m, page_index_4m, ram_as_4m_pages}
use toy_kernel.Paging.{next_free_physical_page}
use toy_kernel.Paging.{add_page}
use toy_kernel.Paging.Invariant.{IsCounted}
use toy_kernel.Paging.AddPage.{add_page-IsCounted}
use toy_kernel.Heap.Sbrk.{ksbrk_loop, ksbrk_page, ksbrk, usbrk_chunk, usbrk}
use toy_kernel.Heap.Grow.{IsSbrk}

-- A page of a free frame is added.
module _ (reserved : ℕ → ℕ) (heap p_addr : ℕ) (s s1 : Paging) (v : IsCounted reserved s)
    (word : heap < 2 ^ 32) where
  new_page-IsCounted :
      next_free_physical_page s.frames 1 ≡ ok p_addr
      → add_page kernel heap p_addr 0 false s ≡ ok s1
      → IsCounted reserved s1
  unfolding next_free_physical_page
  new_page-IsCounted found h =
      let (page, got, same) =
        >>=-eq-ok (need (get_first_zero ram_as_4m_pages s.frames.bits 1)) _ found in
      let first =
        (get_first_zero-first ram_as_4m_pages s.frames.bits 1 (omega arith)).0 page
          (need-eq-ok got) in
      let index : page_index_4m p_addr ≡ page = omega (arith, ok-inj same) in
      let unused : s.frames.refs (page_index_4m p_addr) ≡ 0 =
        ap s.frames.refs index
        ∙ ground (arith, v.tracked.counted page first.in_bounds, first.unset) in
      add_page-IsCounted kernel heap p_addr 0 false s s1
        (record {
          v_word = word;
          p_word = omega (arith, ok-inj same, first.in_bounds);
          flags_byte = omega arith;
        })
        (omega (arith, unused)) reserved tt v h

ksbrk_loop-IsCounted :
    (reserved : ℕ → ℕ) (rounds heap heap' : ℕ) (s s' : Paging)
    → IsCounted reserved s
    → heap < 2 ^ 32
    → ksbrk_loop rounds heap s ≡ ok (heap', s')
    → IsCounted reserved s' × (heap' ≡ (heap + rounds * page_size_4m) % 2 ^ 32)
unfolding ksbrk_loop
ksbrk_loop-IsCounted reserved zero heap heap' s s' v word h = (
  subst (IsCounted reserved) (ap (λ z. z.1) (ok-inj h)) v,
  omega (arith, ap (λ z. z.0) (ok-inj h)),
)
ksbrk_loop-IsCounted reserved (suc rounds) heap heap' s s' v word h =
    let (p_addr, found, h1) = >>=-eq-ok (next_free_physical_page s.frames 1) _ h in
    let (_, _, h2) = >>=-eq-ok (check (not (p_addr == 0))) _ h1 in
    let (s1, added, h3) = >>=-eq-ok (add_page kernel heap p_addr 0 false s) _ h2 in
    let w = new_page-IsCounted reserved heap p_addr s s1 v word found added in
    let (w', top) =
      ksbrk_loop-IsCounted reserved rounds ((heap + page_size_4m) % 2 ^ 32) heap' s1 s' w
        (omega arith) h3 in
    (w', omega (arith, top))

ksbrk_loop-top :
    (rounds heap heap' : ℕ) (s s' : Paging)
    → heap < 2 ^ 32
    → ksbrk_loop rounds heap s ≡ ok (heap', s')
    → heap' ≡ (heap + rounds * page_size_4m) % 2 ^ 32
unfolding ksbrk_loop
ksbrk_loop-top zero heap heap' s s' word h = omega (arith, ap (λ z. z.0) (ok-inj h))
ksbrk_loop-top (suc rounds) heap heap' s s' word h =
    let (p_addr, found, h1) = >>=-eq-ok (next_free_physical_page s.frames 1) _ h in
    let (_, _, h2) = >>=-eq-ok (check (not (p_addr == 0))) _ h1 in
    let (s1, added, h3) = >>=-eq-ok (add_page kernel heap p_addr 0 false s) _ h2 in
    omega
      (arith, ksbrk_loop-top rounds ((heap + page_size_4m) % 2 ^ 32) heap' s1 s' (omega arith) h3)

module _ (n heap heap' : ℕ) (s s' : Paging) (h : ksbrk_page n heap s ≡ ok (heap', s')) where
  ksbrk_page-top :
      heap % 4 ≡ 0
      → heap ≤ kern_heap_end
      → (heap' == 0) ≡ false
      → (heap' % 4 ≡ 0) × (heap' ≤ kern_heap_end)
  unfolding ksbrk_page
  ksbrk_page-top four below some_heap =
      elim (Bool-cases (ltb kern_heap_end ((heap + n * page_size_4m) % 2 ^ 32))) [
        | inl over ↦ absurd (ground (arith, some_heap, ap (λ z. z.0) (ok-inj (rw over at h))))
        | inr inside ↦
            let top = ksbrk_loop-top n heap heap' s s' (omega arith) (rw inside at h) in
            (omega (arith, top), ground (arith, top, inside))
      ]

  ksbrk_page-IsCounted :
      (reserved : ℕ → ℕ) → heap < 2 ^ 32 → IsCounted reserved s → IsCounted reserved s'
  unfolding ksbrk_page
  ksbrk_page-IsCounted reserved word v =
      elim (Bool-cases (ltb kern_heap_end ((heap + n * page_size_4m) % 2 ^ 32))) [
        | inl over ↦ subst (IsCounted reserved) (ap (λ z. z.1) (ok-inj (rw over at h))) v
        | inr inside ↦ (ksbrk_loop-IsCounted reserved n heap heap' s s' v word (rw inside at h)).0
      ]

-- A call of `ksbrk` adds some number of pages.
ksbrk-pages :
    (bytes heap heap' : ℕ) (s s' : Paging)
    → ksbrk bytes heap s ≡ ok (heap', s')
    → (n : ℕ) × (ksbrk_page n heap s ≡ ok (heap', s')) × (bytes ≤ n * page_size_4m)
unfolding ksbrk
ksbrk-pages bytes heap heap' s s' h = elim (Bool-cases (ltb bytes page_size_4m)) [
  | inl little ↦ (1, rw little at h, ground (arith, little))
  | inr much ↦ elim (Bool-cases (bytes % page_size_4m == 0)) [
    | inl even ↦ (bytes / page_size_4m, rw (much, even) at h, ground (arith, even))
    | inr uneven ↦ (bytes / page_size_4m + 1, rw (much, uneven) at h, ground arith)
  ]
]

-- `ksbrk` keeps the top of the heap a multiple of four within `KERN_HEAP_END`.
pub ksbrk-IsSbrk : IsSbrk kern_heap_end ksbrk
ksbrk-IsSbrk = record {
  top = λ bytes heap heap' s s' h four below some_heap.
      let (n, paged, _) = ksbrk-pages bytes heap heap' s s' h in
      ksbrk_page-top n heap heap' s s' paged four below some_heap;
}

-- A call of `ksbrk` that returns, the null pointer included, keeps the reference counts of all frames
-- equal to the numbers of their mappings.
pub ksbrk-IsCounted :
    (reserved : ℕ → ℕ) (bytes heap heap' : ℕ) (s s' : Paging)
    → heap < 2 ^ 32
    → IsCounted reserved s
    → ksbrk bytes heap s ≡ ok (heap', s')
    → IsCounted reserved s'
ksbrk-IsCounted reserved bytes heap heap' s s' word v h =
    let (n, paged, _) = ksbrk-pages bytes heap heap' s s' h in
    ksbrk_page-IsCounted n heap heap' s s' paged reserved word v

-- `usbrk` keeps it within the top of the user's heap.
pub usbrk-IsSbrk : (heap_top : ℕ) → IsSbrk heap_top (usbrk heap_top)
unfolding usbrk usbrk_chunk
usbrk-IsSbrk heap_top = record { top = λ n heap heap' w w' h four below some_heap. ground arith }
