-- ===== src/Heap/Grow.antt =====
-- Where the heap grows, its last chunk does, or a chunk is added to its end.
use toy_kernel.Base.{
  ℕ, ◌+◌, ◌-◌, ◌%◌, ◌^◌, ◌≤◌, ◌<◌, ◌≡◌, inr, refl, sym, ap, ap₂, subst, ◌∙◌, true, false, not, ◌||◌,
  List, [], ◌∷◌, ◌++◌, append-nil, ◌==◌, ltb, leb, arith, update, ok, check, >>=-eq-ok, ok-inj,
}
use toy_kernel.Heap.Types.{Header, Allocator, SbrkFunc, next_chunk}
use toy_kernel.Heap.Malloc.{take_in, grow}
use toy_kernel.Heap.Chunks.{
  Layout, span, used_bytes, blocks, IsHeap, Layout-span, Layout-append, Layout-split,
  Layout-aligned, Layout-update, used_bytes-append, blocks-append,
}

-- What the allocator takes from `sbrk_`: from a top that is a multiple of four within the limit it
-- moves to another.
pub record IsSbrk {ℓ} {W : Type ℓ} (limit : ℕ) (sbrk : SbrkFunc W) : Type ℓ where
  pub top :
      (n heap heap' : ℕ) (w w' : W)
      → sbrk n heap w ≡ ok (heap', w')
      → heap % 4 ≡ 0
      → heap ≤ limit
      → (heap' == 0) ≡ false
      → (heap' % 4 ≡ 0) × (heap' ≤ limit)

-- The chunk `c` of address `chunk` stands between `pre` and `suf`, and the used chunks are still those
-- of the heap `s₀`.
pub record Place {ℓ} {W : Type ℓ} (limit : ℕ) (cs₀ : List Header) (s₀ : Allocator W) (chunk : ℕ)
    (pre : List Header) (c : Header) (suf : List Header) (s : Allocator W) : Type 0 where
  pub layout : Layout s.headers s.heap_start (pre ++ (c ∷ suf)) s.heap
  pub place : chunk ≡ s.heap_start + span pre
  pub start : s.heap_start ≡ s₀.heap_start
  pub used_same : s.heap_used ≡ s₀.heap_used
  pub counted : used_bytes (pre ++ (c ∷ suf)) ≡ s₀.heap_used
  pub blocks_same : blocks s.heap_start (pre ++ (c ∷ suf)) ≡ blocks s₀.heap_start cs₀
  pub below : s.heap ≤ limit

-- The header at the place, and the rest of the layout from there.
pub Place-parts {ℓ} :
    {W : Type ℓ} (limit : ℕ) (cs₀ : List Header) (s₀ : Allocator W) (chunk : ℕ) (pre : List Header)
    (c : Header) (suf : List Header) (s : Allocator W)
    → Place limit cs₀ s₀ chunk pre c suf s
    → Layout s.headers s.heap_start pre chunk × Layout s.headers chunk (c ∷ suf) s.heap
Place-parts limit cs₀ s₀ chunk pre c suf s p =
    let (l, r) = Layout-split s.headers s.heap_start pre (c ∷ suf) s.heap p.layout in
    (
      subst (λ z. Layout s.headers s.heap_start pre z) (sym p.place) l,
      subst (λ z. Layout s.headers z (c ∷ suf) s.heap) (sym p.place) r,
    )

-- `sbrk_` has moved the top of the heap up, and the chunk has taken in what is new.
record Grown {ℓ} {W : Type ℓ} (limit realsize chunk : ℕ) (s s' : Allocator W) : Type 0 where
  bigger : s.heap < s'.heap
  enough : realsize ≤ s'.heap - s.heap
  start : s'.heap_start ≡ s.heap_start
  used : s'.heap_used ≡ s.heap_used
  multiple : s'.heap % 4 ≡ 0
  below : s'.heap ≤ limit
  first :
      (chunk == s.heap) ≡ true
      → s'.headers
        ≡ update s.headers chunk (record { size = (s'.heap - s.heap) % 2 ^ 31; used = false })
  again :
      (chunk == s.heap) ≡ false
      → ((s.headers chunk).used ≡ false)
        × (s'.headers
            ≡ update s.headers chunk (record {
              size = ((s.headers chunk).size + (s'.heap - s.heap)) % 2 ^ 31;
              used = (s.headers chunk).used;
            }))

module _ {ℓ} {W : Type ℓ} (limit : ℕ) (cs₀ : List Header) (s₀ : Allocator W) (sbrk : SbrkFunc W)
    (contract : IsSbrk limit sbrk) (v : IsHeap limit cs₀ s₀) where
  -- What a call of `sbrk_` that goes through leaves.
  grow-Grown :
      (realsize chunk : ℕ) (s s' : Allocator W)
      → grow sbrk realsize chunk s ≡ ok s'
      → s.heap % 4 ≡ 0
      → s.heap ≤ limit
      → Grown limit realsize chunk s s'
  unfolding grow
  grow-Grown realsize chunk s s' h e below =
      let ((heap', w), asked, h1) = >>=-eq-ok (sbrk realsize s.heap s.outside) _ h in
      let (_, got, h2) = >>=-eq-ok (check (not (heap' == 0))) _ h1 in
      let (_, more, h3) = >>=-eq-ok (check (ltb s.heap heap')) _ h2 in
      let (_, enough, h4) = >>=-eq-ok (check (leb realsize (heap' - s.heap))) _ h3 in
      let (_, free, h5) = >>=-eq-ok (check (chunk == s.heap || not (s.headers chunk).used)) _ h4 in
      let (_, fits, done) =
        >>=-eq-ok (check (next_chunk (take_in chunk heap' w s) chunk == heap')) _ h5 in
      let top = contract.top realsize s.heap heap' s.outside w asked e below (ground arith) in
      subst (λ z. Grown limit realsize chunk s z) (ok-inj done)
        (record {
          bigger = ground (arith, more);
          enough = ground (arith, enough);
          start = refl;
          used = refl;
          multiple = top.0;
          below = top.1;
          first = λ at. rw at refl;
          again = λ apart. (ground (arith, free, apart), rw apart refl);
        })

  heap_four :
      (cs : List Header) (s : Allocator W)
      → Layout s.headers s.heap_start cs s.heap
      → s.heap_start ≡ s₀.heap_start
      → s.heap % 4 ≡ 0
  heap_four cs s l e = Layout-aligned s.headers s.heap_start cs s.heap l (rw e v.aligned)

  -- The end of the heap is reached for the first time: what is new is a chunk of its own.
  pub grow-first :
      (realsize chunk : ℕ) (pre : List Header) (c : Header) (s s' : Allocator W)
      → Place limit cs₀ s₀ chunk pre c [] s
      → grow sbrk realsize s.heap s ≡ ok s'
      → (d : Header) × Place limit cs₀ s₀ s.heap (pre ++ (c ∷ [])) d [] s'
  grow-first realsize chunk pre c s s' p h =
      let cs = pre ++ (c ∷ []) in
      let g = grow-Grown realsize s.heap s s' h (heap_four cs s p.layout p.start) p.below in
      let d : Header = record { size = s'.heap - s.heap; used = false } in
      let four = heap_four cs s p.layout p.start in
      let headers : s'.headers ≡ update s.headers s.heap d =
        g.first (ground arith)
        ∙ ap (λ z. update s.headers s.heap (record { size = z; used = false }))
            (omega (
              arith,
              g.below,
              v.bits31,
              p.start,
              Layout-span s.headers s.heap_start cs s.heap p.layout,
            )) in
      let old =
        Layout-update s.headers s.heap_start cs s.heap s.heap d (inr (omega arith)) p.layout in
      let new : Layout (update s.headers s.heap d) s.heap (d ∷ []) s'.heap = (
        ground arith,
        omega (arith, g.bigger, g.multiple, four),
        omega (arith, g.bigger, g.multiple, four),
        omega (arith, g.bigger),
      ) in
      let at : s.heap ≡ s.heap_start + span cs =
        omega (arith, Layout-span s.headers s.heap_start cs s.heap p.layout) in
      (
        d,
        record {
          layout =
              subst (λ z. Layout z s'.heap_start (cs ++ (d ∷ [])) s'.heap) (sym headers)
                (subst (λ z. Layout (update s.headers s.heap d) z (cs ++ (d ∷ [])) s'.heap)
                  (sym g.start)
                  (Layout-append (update s.headers s.heap d) s.heap_start cs (d ∷ []) s.heap s'.heap
                    old new));
          place = omega (arith, at, g.start);
          start = g.start ∙ p.start;
          used_same = g.used ∙ p.used_same;
          counted = omega (arith, used_bytes-append cs (d ∷ []), p.counted);
          blocks_same =
              ap (λ z. blocks z (cs ++ (d ∷ []))) g.start
              ∙ blocks-append s.heap_start cs (d ∷ [])
              ∙ append-nil (blocks s.heap_start cs)
              ∙ p.blocks_same;
          below = g.below;
        },
      )

  -- It was reached before: the last chunk, which is unused, takes in what is new.
  pub grow-again :
      (realsize chunk : ℕ) (pre : List Header) (c : Header) (s s' : Allocator W)
      → Place limit cs₀ s₀ chunk pre c [] s
      → grow sbrk realsize chunk s ≡ ok s'
      → (d : Header) × Place limit cs₀ s₀ chunk pre d [] s'
  grow-again realsize chunk pre c s s' p h =
      let cs = pre ++ (c ∷ []) in
      let four = heap_four cs s p.layout p.start in
      let g = grow-Grown realsize chunk s s' h four p.below in
      let (front, here) = Place-parts limit cs₀ s₀ chunk pre c [] s p in
      let inside : chunk + c.size ≡ s.heap = here.3 in
      let d : Header = record { size = c.size + (s'.heap - s.heap); used = false } in
      let (unused, wrote) = g.again (ground (arith, inside, here.1)) in
      let free : c.used ≡ false = sym (ap (λ z. z.used) here.0) ∙ unused in
      let headers : s'.headers ≡ update s.headers chunk d =
        wrote
        ∙ ap₂ (λ z u. update s.headers chunk (record { size = z; used = u }))
            (omega (
              arith,
              ap (λ z. z.size) here.0,
              g.below,
              g.bigger,
              v.bits31,
              p.start,
              inside,
              Layout-span s.headers s.heap_start pre chunk front,
            ))
            unused in
      let old = Layout-update s.headers s.heap_start pre chunk chunk d (inr (omega arith)) front in
      let new : Layout (update s.headers chunk d) chunk (d ∷ []) s'.heap = (
        ground arith,
        omega (arith, here.1),
        omega (arith, here.2, g.bigger, g.multiple, four),
        omega (arith, g.bigger, inside),
      ) in
      (
        d,
        record {
          layout =
              subst (λ z. Layout z s'.heap_start (pre ++ (d ∷ [])) s'.heap) (sym headers)
                (subst (λ z. Layout (update s.headers chunk d) z (pre ++ (d ∷ [])) s'.heap)
                  (sym g.start)
                  (Layout-append (update s.headers chunk d) s.heap_start pre (d ∷ []) chunk s'.heap
                    old new));
          place = omega (arith, p.place, g.start);
          start = g.start ∙ p.start;
          used_same = g.used ∙ p.used_same;
          counted = ground (
            arith,
            used_bytes-append pre (d ∷ []),
            used_bytes-append pre (c ∷ []),
            p.counted,
            free,
          );
          blocks_same =
              ap (λ z. blocks z (pre ++ (d ∷ []))) g.start
              ∙ blocks-append s.heap_start pre (d ∷ [])
              ∙ sym (blocks-append s.heap_start pre (c ∷ []) ∙ rw free refl)
              ∙ p.blocks_same;
          below = g.below;
        },
      )
