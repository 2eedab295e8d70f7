-- ===== src/Heap/Tests.antt =====
-- The allocator on the heap of a user program of 4096 bytes, and the kernel's heap after its first
-- page.
use toy_kernel.Base.{
  ℕ, ◌+◌, ◌%◌, ◌≡◌, ◌⊎◌, refl, max, true, false, [], ◌∷◌, arith, update, Outcome, ok, stop, is_ok,
}
use toy_kernel.Bitmap.{is_set, set_one, reserve, test_bit, with_one, clear, get_first_zero}
use toy_kernel.Paging.{
  Paging, is_present, kern_heap_begin, initialize_paging, add_page, ref, set_page_frame_used,
  next_free_physical_page, reserve_physical,
}
use toy_kernel.Paging.Boot.{absent}
use toy_kernel.Paging.Booted.{unpaged, booted, booted-IsCounted}
use toy_kernel.Paging.Invariant.{IsCounted}
use toy_kernel.Heap.{
  Header, Allocator, init, initialize_heap, malloc, free, usbrk, usbrk_chunk, ksbrk, ksbrk_page,
  ksbrk_loop, real_size, is_power_of_2, find_chunk, can_use_chunk, adjust_of, split_front,
  take_chunk, give_out, merge_loop, can_merge,
}
use toy_kernel.Heap.Chunks.{blocks, IsHeap}
use toy_kernel.Heap.Allocate.{Allocated, malloc-Allocated}
use toy_kernel.Heap.Release.{Freed, free-Freed}
use toy_kernel.Heap.Finding.{Grants}
use toy_kernel.Heap.Returns.{malloc-returns}
use toy_kernel.Heap.Growth.{usbrk-IsSbrk, ksbrk-IsCounted}
use toy_kernel.Heap.Pages.{Full, Grown, ksbrk-grows}
use toy_kernel.Heap.Start.{init-IsHeap, free-malloc}

abbrev nothing : ℕ → Header
nothing q = record { size = 0; used = false }

abbrev no_heap : Allocator (Unit {0})
no_heap = record {
  heap = 0;
  heap_used = 0;
  heap_start = 0;
  heap_end = 0;
  headers = nothing;
  outside = tt;
}

abbrev heap_of : Outcome (Allocator (Unit {0})) → Allocator (Unit {0})
heap_of (ok s) = s
heap_of stop = no_heap

heap_of-ok : (m : Outcome (Allocator (Unit {0}))) → is_ok m ≡ true → m ≡ ok (heap_of m)
heap_of-ok (ok s) h = refl
heap_of-ok stop h = cc

-- `Init` asks for one byte and gets a chunk of 1024.
started : Allocator (Unit {0})
started = heap_of (init (usbrk 8192) 4096 8192 nothing tt)

starts : is_ok (init (usbrk 8192) 4096 8192 nothing tt) ≡ true
unfolding init initialize_heap usbrk usbrk_chunk
starts = refl

started-ok : init (usbrk 8192) 4096 8192 nothing tt ≡ ok started
unfolding started
started-ok = heap_of-ok _ starts

init-IsHeap_example :
    (n : ℕ) × IsHeap 8192 (record { size = n; used = false } ∷ []) started
    × (started.heap ≡ 4096 + n)
init-IsHeap_example =
    init-IsHeap 8192 (usbrk 8192) 4096 8192 nothing tt started (usbrk-IsSbrk 8192) refl
      (omega arith) (omega arith) (omega arith) (omega arith) started-ok

-- The heap with one free chunk of 1024 bytes, and with a block of 16 bytes at its start.
abbrev one_chunk : Allocator (Unit {0})
one_chunk = record {
  heap = 5120;
  heap_used = 0;
  heap_start = 4096;
  heap_end = 8192;
  headers = update nothing 4096 (record { size = 1024; used = false });
  outside = tt;
}

abbrev one_block : Allocator (Unit {0})
one_block = record {
  heap = 5120;
  heap_used = 16;
  heap_start = 4096;
  heap_end = 8192;
  headers =
      update (update nothing 4112 (record { size = 1008; used = false })) 4096
        (record { size = 16; used = true });
  outside = tt;
}

one_chunk-IsHeap : IsHeap 8192 (record { size = 1024; used = false } ∷ []) one_chunk
one_chunk-IsHeap = record {
  layout = (refl, omega arith, refl, refl);
  counted = refl;
  aligned = refl;
  not_null = omega arith;
  not_empty = omega arith;
  below = omega arith;
  bits31 = omega arith;
  bits32 = omega arith;
}

one_block-IsHeap :
    IsHeap 8192
      (record { size = 16; used = true } ∷ (record { size = 1008; used = false } ∷ []))
      one_block
one_block-IsHeap = record {
  layout = (refl, omega arith, refl, (refl, omega arith, refl, refl));
  counted = refl;
  aligned = refl;
  not_null = omega arith;
  not_empty = omega arith;
  below = omega arith;
  bits31 = omega arith;
  bits32 = omega arith;
}

-- An alignment of 64 leaves 60 bytes out before the chunk.
aligned_block : Allocator (Unit {0})
aligned_block = elim (malloc (usbrk 8192) 100 64 one_chunk) [ ok r ↦ r.1 | stop ↦ no_heap ]

malloc_runs : malloc (usbrk 8192) 100 64 one_chunk ≡ ok (4160, aligned_block)
unfolding malloc real_size is_power_of_2 find_chunk can_use_chunk adjust_of split_front give_out
    take_chunk aligned_block
malloc_runs = refl

malloc-Allocated_example :
    (4160 % max 64 4 ≡ 0)
    × Allocated 8192 (record { size = 1024; used = false } ∷ []) one_chunk 4160 100 aligned_block
malloc-Allocated_example =
    malloc-Allocated 8192 (record { size = 1024; used = false } ∷ []) one_chunk (usbrk 8192)
      (usbrk-IsSbrk 8192) one_chunk-IsHeap 100 64 4160 aligned_block (omega arith) (omega arith)
      malloc_runs

free-malloc_example :
    (s : Allocator (Unit {0})) × (free 4160 aligned_block ≡ ok s)
    × Freed 8192 (blocks 4096 (record { size = 1024; used = false } ∷ [])) aligned_block s
    × (s.heap_used ≡ one_chunk.heap_used)
free-malloc_example =
    free-malloc 8192 (record { size = 1024; used = false } ∷ []) one_chunk (usbrk 8192) 100 64 4160
      aligned_block (usbrk-IsSbrk 8192) one_chunk-IsHeap (omega arith) (omega arith) malloc_runs

granted : Grants 8192 (real_size 2000 4) (usbrk 8192) one_chunk
unfolding usbrk usbrk_chunk real_size
granted = record {
  heap = 7168;
  outside = tt;
  answer = refl;
  enough = omega arith;
  within = omega arith;
}

malloc-returns_example :
    (ptr : ℕ) × (s : Allocator (Unit {0})) × (malloc (usbrk 8192) 2000 4 one_chunk ≡ ok (ptr, s))
malloc-returns_example =
    malloc-returns 8192 (record { size = 1024; used = false } ∷ []) one_chunk (usbrk 8192)
      (usbrk-IsSbrk 8192) one_chunk-IsHeap 2000 (omega arith) (omega arith) granted

free-Freed_example :
    (s : Allocator (Unit {0})) × (free 4100 one_block ≡ ok s) × Freed 8192 [] one_block s
free-Freed_example =
    free-Freed 8192
      (record { size = 16; used = true } ∷ (record { size = 1008; used = false } ∷ [])) one_block []
      [] 4100 16 one_block-IsHeap refl

-- Both chunks are one again.
free_merges : free 4100 one_block ≡ ok (heap_of (free 4100 one_block))
unfolding free merge_loop can_merge
free_merges = refl

heap_page : Outcome (ℕ × Paging)
heap_page = ksbrk 1 kern_heap_begin booted

-- Every definition that a run opens.
opens : Unit {0}
unfolding initialize_paging reserve_physical reserve set_one add_page is_set test_bit with_one ref
    set_page_frame_used clear is_present get_first_zero next_free_physical_page ksbrk ksbrk_page
    ksbrk_loop booted heap_page
opens = tt

after_page : Paging
after_page = elim heap_page [ ok r ↦ r.1 | stop ↦ unpaged ]

ksbrk_runs : ksbrk 1 kern_heap_begin booted ≡ ok (0x2400000, after_page)
unfolding opens after_page
ksbrk_runs = refl

ksbrk-grows_example :
    Full 1 kern_heap_begin 0x2400000 booted after_page
    ⊎ Grown 1 kern_heap_begin 0x2400000 booted after_page
ksbrk-grows_example =
    ksbrk-grows 1 kern_heap_begin 0x2400000 booted after_page (omega arith) refl (omega arith)
      ksbrk_runs

ksbrk-IsCounted_example : IsCounted absent after_page
ksbrk-IsCounted_example =
    ksbrk-IsCounted absent 1 kern_heap_begin 0x2400000 booted after_page (omega arith)
      booted-IsCounted ksbrk_runs
