-- ===== src/Heap/Returns.antt =====
-- The call of `Malloc` from its loop to the block that it gives out, and that it ends.
use toy_kernel.Base.{
  ℕ, ◌+◌, ◌%◌, ◌^◌, ◌≤◌, ◌<◌, ◌≡◌, refl, ap, ◌∙◌, true, false, List, [], ◌∷◌, ◌==◌, leb, arith, ok,
  ok_of, ==_iff,
}
use toy_kernel.Heap.Types.{Header, Allocator, SbrkFunc, is_power_of_2}
use toy_kernel.Heap.Malloc.{
  real_size, find_rounds, find_chunk, split_front, take_chunk, give_out, malloc,
}
use toy_kernel.Heap.Chunks.{IsHeap, Layout-span, Layout-aligned}
use toy_kernel.Heap.Grow.{IsSbrk, Place-parts}
use toy_kernel.Heap.Search.{find_chunk-Place}
use toy_kernel.Heap.Align.{real_size-le}
use toy_kernel.Heap.Allocate.{first_chunk, chunks_cons}
use toy_kernel.Heap.Merging.{length_le}
use toy_kernel.Heap.Finding.{Grants, find_chunk-returns}

take_chunk-returns {ℓ} :
    {W : Type ℓ} (chunk realsize : ℕ) (s : Allocator W)
    → realsize ≤ (s.headers chunk).size
    → (s.headers chunk).size < 2 ^ 31
    → (s' : Allocator W) × (take_chunk chunk realsize s ≡ ok s')
unfolding take_chunk
take_chunk-returns chunk realsize s le small = ok_of (take_chunk chunk realsize s) (ground arith)

give_out-returns {ℓ} :
    {W : Type ℓ} (chunk realsize : ℕ) (s : Allocator W)
    → realsize ≤ (s.headers chunk).size
    → (s.headers chunk).size < 2 ^ 31
    → chunk % 4 ≡ 0
    → (ptr : ℕ) × (s' : Allocator W) × (give_out chunk realsize 4 s ≡ ok (ptr, s'))
unfolding give_out
give_out-returns chunk realsize s le small e =
    let (s1, took) = take_chunk-returns chunk realsize s le small in
    let enough : leb realsize (s.headers chunk).size ≡ true = ground arith in
    let aligned : ((chunk + 4) % 2 ^ 32 % 4 == 0) ≡ true = ground arith in
    (
      (chunk + 4) % 2 ^ 32,
      record s1 { heap_used = (s1.heap_used + (s1.headers chunk).size) % 2 ^ 32 },
      rw (enough, took, aligned) refl,
    )

real_size-four : (size : ℕ) → real_size size 4 % 4 ≡ 0
unfolding real_size
real_size-four size = ground arith

malloc-eq-give_out {ℓ} :
    {W : Type ℓ} (sbrk : SbrkFunc W) (size found : ℕ) (s s' : Allocator W)
    → (size == 0) ≡ false
    → (real_size size 4 % 4 == 0) ≡ true
    → find_chunk sbrk (find_rounds s) (real_size size 4) 4 s.heap_start false s ≡ ok (found, 0, s')
    → malloc sbrk size 4 s ≡ give_out found (real_size size 4) 4 s'
unfolding malloc is_power_of_2 split_front
malloc-eq-give_out sbrk size found s s' nonzero whole finds = rw (nonzero, whole, finds) refl

module _ {ℓ} {W : Type ℓ} (limit : ℕ) (cs : List Header) (s : Allocator W) (sbrk : SbrkFunc W)
    (contract : IsSbrk limit sbrk) (v : IsHeap limit cs s) where
  -- `Malloc(size)` returns for a size that leaves room for the header and the rounding in 32 bits, in
  -- a valid heap whose `sbrk_` would grant the rounded size.
  pub malloc-returns :
      (size : ℕ)
      → 0 < size
      → size + 8 ≤ 2 ^ 32
      → Grants limit (real_size size 4) sbrk s
      → (ptr : ℕ) × (s' : Allocator W) × (malloc sbrk size 4 s ≡ ok (ptr, s'))
  malloc-returns size pos room g =
      let realsize = real_size size 4 in
      let least = real_size-le size 4 (omega arith) (omega arith) in
      let (c, suf, e) = chunks_cons limit cs s sbrk contract v cs v in
      let p = first_chunk limit cs s sbrk contract v c suf e in
      let (_, l) = Place-parts limit cs s s.heap_start [] c suf s p in
      let long = length_le s.headers s.heap_start (c ∷ suf) s.heap l in
      let (found, s', finds) =
        find_chunk-returns limit realsize sbrk s g (omega (arith, least)) v.bits32 (find_rounds s)
          s.heap_start c suf l v.aligned v.below (omega (arith, v.bits31, v.not_empty))
          (omega (arith, long)) in
      let (pre, d, suf', q, u) =
        find_chunk-Place limit cs s sbrk contract v (find_rounds s) realsize 4 s.heap_start false []
          c suf s found 0 s' p (λ t. absurd (cc t)) finds (omega arith) refl (real_size-four size)
          (omega (arith, least)) in
      let (front, here) = Place-parts limit cs s found pre d suf' s' q in
      let size_of : (s'.headers found).size ≡ d.size = ap (λ z. z.size) here.0 in
      let (ptr, s'', gave) =
        give_out-returns found realsize s' (omega (arith, size_of, u.fits))
          (omega (
            arith,
            size_of,
            q.below,
            v.bits31,
            q.start,
            Layout-span s'.headers found (d ∷ suf') s'.heap here,
            Layout-span s'.headers s'.heap_start pre found front,
          ))
          (Layout-aligned s'.headers s'.heap_start pre found front (rw q.start v.aligned)) in
      let nonzero : (size == 0) ≡ false = ground arith in
      (
        ptr,
        s'',
        malloc-eq-give_out sbrk size found s s' nonzero
              ((==_iff (real_size size 4 % 4) 0).1 (real_size-four size)) finds
            ∙ gave,
      )
