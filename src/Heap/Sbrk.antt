-- ===== src/Heap/Sbrk.antt =====
-- How the kernel's heap grows (kernel/kmalloc.cpp) and a user program's (libc/umalloc.cpp).
use toy_kernel.Base.{
  ℕ, zero, suc, ◌+◌, ◌*◌, ◌/◌, ◌%◌, ◌^◌, false, not, ◌==◌, ltb, leb, if◌then◌else◌, Outcome, ok,
  ◌>>=◌, ◌>>◌, check,
}
use toy_kernel.Paging.{kernel, Paging, kern_heap_begin, kern_heap_end, page_size_4m}
use toy_kernel.Paging.{next_free_physical_page}
use toy_kernel.Paging.{add_page}
use toy_kernel.Heap.Types.{Header, Allocator, SbrkFunc, init}
use toy_kernel.Heap.Malloc.{malloc}
use toy_kernel.Heap.Free.{free, realloc, calloc}

-- The loop of `ksbrk_page`: a free frame, from the second on, for each new page of the heap.
unfoldable pub ksbrk_loop : (rounds heap : ℕ) → Paging → Outcome (ℕ × Paging)
ksbrk_loop zero heap s = ok (heap, s)
ksbrk_loop (suc rounds) heap s = do
  p_addr ← next_free_physical_page s.frames 1
  check (not (p_addr == 0))
  s1 ← add_page kernel heap p_addr 0 false s
  ksbrk_loop rounds ((heap + page_size_4m) % 2 ^ 32) s1

-- `ksbrk_page`. 0 is the null pointer.
unfoldable pub ksbrk_page : (n heap : ℕ) → Paging → Outcome (ℕ × Paging)
unfolding ksbrk_loop
ksbrk_page n heap s =
    if ltb kern_heap_end ((heap + n * page_size_4m) % 2 ^ 32)
    then ok (0, s)
    else ksbrk_loop n heap s

-- `ksbrk`
unfoldable pub ksbrk : SbrkFunc Paging
unfolding ksbrk_page
ksbrk bytes heap s =
    if ltb bytes page_size_4m
    then ksbrk_page 1 heap s
    else if bytes % page_size_4m == 0
    then ksbrk_page (bytes / page_size_4m) heap s
    else ksbrk_page (bytes / page_size_4m + 1) heap s

-- `InitializeKernelHeap`, `kmalloc`, `kfree`, `krealloc` and `kcalloc`.
unfoldable pub initialize_kernel_heap : (ℕ → Header) → Paging → Outcome (Allocator Paging)
initialize_kernel_heap memory s = init ksbrk kern_heap_begin kern_heap_end memory s

unfoldable pub kmalloc : (size alignment : ℕ) → Allocator Paging → Outcome (ℕ × Allocator Paging)
kmalloc size alignment s = malloc ksbrk size alignment s

unfoldable pub kfree : (ptr : ℕ) → Allocator Paging → Outcome (Allocator Paging)
kfree ptr s = free ptr s

unfoldable pub krealloc : (ptr size : ℕ) → Allocator Paging → Outcome (ℕ × ℕ × Allocator Paging)
krealloc ptr size s = realloc ksbrk ptr size s

unfoldable pub kcalloc : (num size : ℕ) → Allocator Paging → Outcome (ℕ × ℕ × Allocator Paging)
kcalloc num size s = calloc ksbrk num size s

abbrev pub chunk_size : ℕ
chunk_size = 1024

-- `usbrk_chunk`: the memory is there, and only the top moves.
unfoldable pub usbrk_chunk : (heap_top n heap : ℕ) → Outcome ℕ
usbrk_chunk heap_top n heap =
    let top = (heap + n * chunk_size) % 2 ^ 32 in check (leb top heap_top) >> ok top

-- `usbrk`. Its first assertion compares `heap` with the allocator's own top, from which it is passed.
unfoldable pub usbrk : (heap_top : ℕ) → SbrkFunc (Unit {0})
unfolding usbrk_chunk
usbrk heap_top n heap w = do
  check (not (n == 0))
  top ←
      usbrk_chunk heap_top
        (if ltb n chunk_size
          then 1
          else if n % chunk_size == 0
          then n / chunk_size
          else n / chunk_size + 1)
        heap
  ok (top, w)

-- `InitializeUserHeap`
unfoldable pub initialize_user_heap :
    (heap_bottom heap_top : ℕ) → (ℕ → Header) → Outcome (Allocator (Unit {0}))
initialize_user_heap heap_bottom heap_top memory =
    init (usbrk heap_top) heap_bottom heap_top memory tt
