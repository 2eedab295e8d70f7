-- ===== src/Heap/Start.antt =====
-- The heap after `Init`, and a block that is allocated and freed.
use toy_kernel.Base.{
  ℕ, ◌+◌, ◌-◌, ◌%◌, ◌^◌, ◌≤◌, ◌<◌, ◌≡◌, refl, sym, ap, subst, ◌∙◌, max, false, List, [], ◌∷◌, ◌==◌,
  ltb, ◌||◌, arith, ok, check, >>=-eq-ok, ok-inj, ==_iff, Bool-cases, inl, inr,
}
use toy_kernel.Heap.{Header, Allocator, SbrkFunc, initialize_heap, init, malloc, free}
use toy_kernel.Heap.Chunks.{blocks, used_bytes, IsHeap}
use toy_kernel.Heap.Grow.{IsSbrk}
use toy_kernel.Heap.Allocate.{malloc-Allocated}
use toy_kernel.Heap.Release.{Freed, free-Freed}

-- `Init` of an aligned region within the limit leaves, where it returns, a valid heap of one free
-- chunk, whatever the memory held.
pub init-IsHeap {ℓ} :
    {W : Type ℓ} (limit : ℕ) (sbrk : SbrkFunc W) (heap_start heap_end : ℕ) (memory : ℕ → Header)
    (w : W) (s : Allocator W)
    → IsSbrk limit sbrk
    → heap_start % 4 ≡ 0
    → 0 < heap_start
    → heap_start ≤ limit
    → limit < heap_start + 2 ^ 31
    → limit < 2 ^ 32
    → init sbrk heap_start heap_end memory w ≡ ok s
    → (n : ℕ) × IsHeap limit (record { size = n; used = false } ∷ []) s × (s.heap ≡ heap_start + n)
unfolding init initialize_heap
init-IsHeap {W} limit sbrk heap_start heap_end memory w s contract four pos low b31 b32 h =
    let (_, _, h1) = >>=-eq-ok (check (heap_end == 0 || ltb heap_start heap_end)) _ h in
    let ((heap, w'), asked, h2) = >>=-eq-ok (sbrk 1 heap_start w) _ h1 in
    let (_, more, done) = >>=-eq-ok (check (ltb heap_start heap)) _ h2 in
    let top = contract.top 1 heap_start heap w w' asked four low (ground (arith, more)) in
    let small : (heap - heap_start) % 2 ^ 31 ≡ heap - heap_start = omega (arith, top.1) in
    let larger : heap_start < heap = ground (arith, more) in
    let n = heap - heap_start in
    (
      n,
      subst (λ z. IsHeap limit (record { size = n; used = false } ∷ []) z) (ok-inj done)
          (record {
            layout = (
              rw ((==_iff heap_start heap_start).1 refl)
                  (ap (λ z. record { size = z; used = false }) small),
              omega (arith, larger, four, top.0),
              omega (arith, larger, four, top.0),
              omega (arith, larger),
            );
            counted = refl;
            aligned = four;
            not_null = pos;
            not_empty = larger;
            below = top.1;
            bits31 = b31;
            bits32 = b32;
          }),
      subst (λ z. z.heap ≡ heap_start + n) (ok-inj done) (omega (arith, larger)),
    )

sizes : List (ℕ × ℕ) → ℕ
sizes [] = 0
sizes ((p, n) ∷ bs) = n + sizes bs

-- The used bytes are those of the blocks.
used_bytes-sizes : (a : ℕ) (cs : List Header) → used_bytes cs ≡ sizes (blocks a cs)
unfolding sizes
used_bytes-sizes a [] = refl
used_bytes-sizes a (c ∷ cs) = elim (Bool-cases c.used) [
  | inl used ↦ rw used (omega (arith, used_bytes-sizes (a + c.size) cs))
  | inr free ↦ rw free (omega (arith, used_bytes-sizes (a + c.size) cs))
]

-- `Free` of a pointer that `Malloc` has just given out, for a request of at least one byte that stays
-- within 2^32 bytes with a header and the alignment (or 4), returns; the heap is valid, and has the blocks
-- and the number of used bytes that it had before.
pub free-malloc {ℓ} :
    {W : Type ℓ} (limit : ℕ) (cs : List Header) (s : Allocator W) (sbrk : SbrkFunc W)
    (size alignment ptr : ℕ) (s' : Allocator W)
    → IsSbrk limit sbrk
    → IsHeap limit cs s
    → 0 < size
    → size + 4 + max alignment 4 ≤ 2 ^ 32
    → malloc sbrk size alignment s ≡ ok (ptr, s')
    → (s'' : Allocator W) × (free ptr s' ≡ ok s'')
      × Freed limit (blocks s.heap_start cs) s' s''
      × (s''.heap_used ≡ s.heap_used)
free-malloc {W} limit cs s sbrk size alignment ptr s' contract v pos room h =
    let (_, a) = malloc-Allocated limit cs s sbrk contract v size alignment ptr s' pos room h in
    let (s'', ran, f) =
      free-Freed limit a.chunks s' a.before a.after ptr a.bytes a.valid
        (ap (λ z. blocks z a.chunks) a.start ∙ a.new) in
    (
      s'',
      ran,
      subst (λ z. Freed limit z s' s'') (sym a.old) f,
      f.valid.counted
          ∙ used_bytes-sizes s''.heap_start f.chunks
          ∙ ap sizes (f.blocks_left ∙ sym a.old)
          ∙ sym (used_bytes-sizes s.heap_start cs)
          ∙ sym v.counted,
    )
