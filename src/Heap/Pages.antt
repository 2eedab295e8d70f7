-- ===== src/Heap/Pages.antt =====
-- How far `ksbrk` moves the top of the kernel's heap, and the pages that it maps.
use toy_kernel.Base.{
  ℕ, zero, suc, ◌+◌, ◌*◌, ◌/◌, ◌%◌, ◌^◌, ◌≤◌, ◌<◌, ◌≡◌, sym, ap, ◌∙◌, true, false, not, ◌==◌, ltb,
  ◌⊎◌, if◌then◌else◌, arith, ok, check, need, need-eq-ok, >>=-eq-ok, ok-inj, Bool-cases, inl, inr,
}
use toy_kernel.Strings.Copy.{Outside}
use toy_kernel.Bitmap.{get_first_zero}
use toy_kernel.Bitmap.Search.{get_first_zero-first}
use toy_kernel.Paging.{
  kernel, Paging, is_present, kern_heap_end, page_size_4m, page_index_4m, ram_as_4m_pages,
  make_entry, next_free_physical_page, add_page,
}
use toy_kernel.Paging.Entries.{is_present-make_entry}
use toy_kernel.Paging.Mapping.{add_page-entry}
use toy_kernel.Heap.Sbrk.{ksbrk_loop, ksbrk_page, ksbrk}

-- A frame that is found has an address of a word.
frame-bound :
    (s : Paging) (p_addr : ℕ)
    → next_free_physical_page s.frames 1 ≡ ok p_addr
    → (p_addr % page_size_4m ≡ 0) × (p_addr < 2 ^ 32)
unfolding next_free_physical_page
frame-bound s p_addr found =
    let (page, got, same) =
      >>=-eq-ok (need (get_first_zero ram_as_4m_pages s.frames.bits 1)) _ found in
    let first =
      (get_first_zero-first ram_as_4m_pages s.frames.bits 1 (omega arith)).0 page
        (need-eq-ok got) in
    (omega (arith, ok-inj same), omega (arith, ok-inj same, first.in_bounds))

-- The pages from `heap` on are mapped in the kernel's directory, and its other entries are as before.
record Mapped (pages heap : ℕ) (s s' : Paging) : Type 0 where
  there : (k : ℕ) → k < pages → is_present (s'.kernel_dir (page_index_4m heap + k)) ≡ true
  others : (j : ℕ) → Outside (page_index_4m heap) pages j → s'.kernel_dir j ≡ s.kernel_dir j

Mapped-suc :
    (pages heap p_addr : ℕ) (s s1 s' : Paging)
    → p_addr % page_size_4m ≡ 0
    → p_addr < 2 ^ 32
    → add_page kernel heap p_addr 0 false s ≡ ok s1
    → Mapped pages (heap + page_size_4m) s1 s'
    → Mapped (suc pages) heap s s'
Mapped-suc pages heap p_addr s s1 s' aligned word added m = record {
  there = there;
  others = λ j o. m.others j (omega arith) ∙ ground (arith, o, at j);
}
  where
    at :
        (j : ℕ)
        → s1.kernel_dir j
          ≡ (if j == page_index_4m heap then make_entry p_addr 0 else s.kernel_dir j)
    at = add_page-entry kernel heap p_addr 0 false s s1 added

    there : (k : ℕ) → k < suc pages → is_present (s'.kernel_dir (page_index_4m heap + k)) ≡ true
    there zero h =
        let first : page_index_4m heap + zero ≡ page_index_4m heap = omega arith in
        let entry : s'.kernel_dir (page_index_4m heap) ≡ make_entry p_addr 0 =
          m.others (page_index_4m heap) (omega arith) ∙ ground (arith, at (page_index_4m heap)) in
        rw first (rw entry (is_present-make_entry p_addr 0 aligned word (omega arith)))
    there (suc k) h =
        let next : page_index_4m heap + suc k ≡ page_index_4m (heap + page_size_4m) + k =
          omega arith in
        rw next (m.there k (omega arith))

ksbrk_loop-Mapped :
    (rounds heap heap' : ℕ) (s s' : Paging)
    → heap + rounds * page_size_4m < 2 ^ 32
    → ksbrk_loop rounds heap s ≡ ok (heap', s')
    → (heap' ≡ heap + rounds * page_size_4m) × Mapped rounds heap s s'
unfolding ksbrk_loop
ksbrk_loop-Mapped zero heap heap' s s' fits h = (
  omega (arith, ap (λ z. z.0) (ok-inj h)),
  record {
    there = λ k low. absurd (omega arith);
    others = λ j o. sym (ap (λ z. z.1.kernel_dir j) (ok-inj h));
  },
)
ksbrk_loop-Mapped (suc rounds) heap heap' s s' fits h =
    let (p_addr, found, h1) = >>=-eq-ok (next_free_physical_page s.frames 1) _ h in
    let (_, _, h2) = >>=-eq-ok (check (not (p_addr == 0))) _ h1 in
    let (s1, added, h3) = >>=-eq-ok (add_page kernel heap p_addr 0 false s) _ h2 in
    let next : (heap + page_size_4m) % 2 ^ 32 ≡ heap + page_size_4m = omega arith in
    let (aligned, word) = frame-bound s p_addr found in
    let (top, more) =
      ksbrk_loop-Mapped rounds (heap + page_size_4m) heap' s1 s' (omega arith) (rw next at h3) in
    (omega (arith, top), Mapped-suc rounds heap p_addr s s1 s' aligned word added more)

-- The heap has grown by the least number of pages that hold the bytes.
pub record Grown (bytes heap heap' : ℕ) (s s' : Paging) : Type 0 where
  pub pages : ℕ
  pub enough : bytes ≤ pages * page_size_4m
  pub least : pages * page_size_4m < bytes + page_size_4m
  pub top : heap' ≡ heap + pages * page_size_4m
  pub below : heap' ≤ kern_heap_end
  pub there : (k : ℕ) → k < pages → is_present (s'.kernel_dir (page_index_4m heap + k)) ≡ true
  pub others : (j : ℕ) → Outside (page_index_4m heap) pages j → s'.kernel_dir j ≡ s.kernel_dir j

-- The pages do not fit below the end of the heap, and nothing has changed.
pub record Full (bytes heap heap' : ℕ) (s s' : Paging) : Type 0 where
  pub null : heap' ≡ 0
  pub same : s' ≡ s
  pub over : kern_heap_end < heap + bytes

ksbrk-page :
    (bytes heap heap' : ℕ) (s s' : Paging)
    → 0 < bytes
    → ksbrk bytes heap s ≡ ok (heap', s')
    → (n : ℕ) × (ksbrk_page n heap s ≡ ok (heap', s'))
      × (bytes ≤ n * page_size_4m)
      × (n * page_size_4m < bytes + page_size_4m)
unfolding ksbrk
ksbrk-page bytes heap heap' s s' some_bytes h = elim (Bool-cases (ltb bytes page_size_4m)) [
  | inl little ↦ (1, rw little at h, ground (arith, little), ground (arith, little))
  | inr much ↦ elim (Bool-cases (bytes % page_size_4m == 0)) [
    | inl even ↦
        (bytes / page_size_4m, rw (much, even) at h, ground (arith, even), ground (arith, even))
    | inr uneven ↦
        (bytes / page_size_4m + 1, rw (much, uneven) at h, ground arith, ground (arith, uneven))
  ]
]

-- A call of `ksbrk` that returns, for at least one byte and a top that is a multiple of the page size and
-- leaves no overflow of a word: either the bytes do not fit below `KERN_HEAP_END`, the result is the null
-- pointer and nothing changes; or the new top is the old one and the least number of whole pages that
-- hold the bytes, within `KERN_HEAP_END`, and the kernel's directory has exactly these pages mapped anew.
pub ksbrk-grows :
    (bytes heap heap' : ℕ) (s s' : Paging)
    → 0 < bytes
    → heap % page_size_4m ≡ 0
    → heap + bytes + page_size_4m ≤ 2 ^ 32
    → ksbrk bytes heap s ≡ ok (heap', s')
    → Full bytes heap heap' s s' ⊎ Grown bytes heap heap' s s'
unfolding ksbrk_page
ksbrk-grows bytes heap heap' s s' some_bytes whole room h =
    let (n, paged, enough, least) = ksbrk-page bytes heap heap' s s' some_bytes h in
    let top : (heap + n * page_size_4m) % 2 ^ 32 ≡ heap + n * page_size_4m = omega arith in
    elim (Bool-cases (ltb kern_heap_end (heap + n * page_size_4m))) [
      | inl over ↦
          let e = ok-inj (rw (top, over) at paged) in
          let beyond : kern_heap_end < heap + n * page_size_4m = ground arith in
          inl (record {
            null = sym (ap (λ z. z.0) e);
            same = sym (ap (λ z. z.1) e);
            over = omega arith;
          })
      | inr inside ↦
          let (moved, m) =
            ksbrk_loop-Mapped n heap heap' s s' (omega arith) (rw (top, inside) at paged) in
          inr (record {
            pages = n;
            enough = enough;
            least = least;
            top = moved;
            below = ground (arith, moved);
            there = m.there;
            others = m.others;
          })
    ]
