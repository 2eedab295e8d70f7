-- ===== src/Heap/Search.antt =====
-- The loop of `Malloc` that looks for a chunk keeps the heap as it is, or adds to its end.
use toy_kernel.Base.{
  ℕ, zero, suc, ◌+◌, ◌%◌, ◌≤◌, ◌<◌, ◌≡◌, inl, inr, refl, sym, ap, subst, ◌∙◌, Bool, true, false,
  not, some, List, [], ◌∷◌, ◌++◌, append_assoc, ◌==◌, leb, arith, ok, check, >>=-eq-ok, ok-inj,
  Option-cases,
}
use toy_kernel.Heap.Types.{Header, Allocator, SbrkFunc, next_chunk}
use toy_kernel.Heap.Malloc.{can_use_chunk, grow, finish_round, next_round, find_chunk}
use toy_kernel.Heap.Chunks.{
  Layout, used_bytes, blocks, IsHeap, Layout-span, Layout-aligned, span-append,
}
use toy_kernel.Heap.Align.{IsUsable, can_use_chunk-IsUsable}
use toy_kernel.Heap.Grow.{IsSbrk, Place, Place-parts, grow-first, grow-again}

module _ {ℓ} {W : Type ℓ} (limit : ℕ) (cs₀ : List Header) (s₀ : Allocator W) (sbrk : SbrkFunc W)
    (contract : IsSbrk limit sbrk) (v : IsHeap limit cs₀ s₀) where
  finish_round-grown :
      (realsize chunk : ℕ) (s : Allocator W) (r : ℕ × Bool × Allocator W)
      → finish_round sbrk realsize chunk true s ≡ ok r
      → (s1 : Allocator W) × (grow sbrk realsize chunk s ≡ ok s1) × ((chunk, true, s1) ≡ r)
  unfolding finish_round
  finish_round-grown realsize chunk s r h =
      let (s1, grew, h1) = >>=-eq-ok (grow sbrk realsize chunk s) _ h in
      let (_, _, done) = >>=-eq-ok (check (leb chunk s1.heap)) _ h1 in (s1, grew, ok-inj done)

  finish_round-stays :
      (realsize chunk : ℕ) (s : Allocator W) (r : ℕ × Bool × Allocator W)
      → finish_round sbrk realsize chunk false s ≡ ok r
      → (chunk, false, s) ≡ r
  unfolding finish_round
  finish_round-stays realsize chunk s r h =
      let (_, _, done) = >>=-eq-ok (check (leb chunk s.heap)) _ h in ok-inj done

  -- After a round the loop stands at a chunk again, the last one if the end was reached.
  next_round-Place :
      (realsize chunk : ℕ) (reached : Bool) (pre : List Header) (c : Header) (suf : List Header)
      (s : Allocator W) (chunk' : ℕ) (reached' : Bool) (s' : Allocator W)
      → Place limit cs₀ s₀ chunk pre c suf s
      → (reached ≡ true → suf ≡ [])
      → next_round sbrk realsize chunk reached s ≡ ok (chunk', reached', s')
      → (pre' : List Header) × (c' : Header) × (suf' : List Header) × Place limit cs₀ s₀ chunk' pre'
          c' suf' s'
        × (reached' ≡ true → suf' ≡ [])
  unfolding next_round
  next_round-Place realsize chunk true pre c suf s chunk' reached' s' p last h =
      let (_, _, h1) = >>=-eq-ok (check (not ((s.headers chunk).size == 0))) _ h in
      let (s1, grew, same) = finish_round-grown realsize chunk s (chunk', reached', s') h1 in
      let p' = subst (λ z. Place limit cs₀ s₀ chunk pre c z s) (last refl) p in
      let (d, q) = grow-again limit cs₀ s₀ sbrk contract v realsize chunk pre c s s1 p' grew in
      (pre, d, [], subst (λ z. Place limit cs₀ s₀ z.0 pre d [] z.2) same q, λ _. refl)
  next_round-Place realsize chunk false pre c [] s chunk' reached' s' p last h =
      let (_, _, h1) = >>=-eq-ok (check (not ((s.headers chunk).size == 0))) _ h in
      let (front, here) = Place-parts limit cs₀ s₀ chunk pre c [] s p in
      let next : next_chunk s chunk ≡ s.heap =
        omega (arith, here.3, ap (λ z. z.size) here.0, p.below, v.bits32) in
      let ends : (next_chunk s chunk == s.heap) ≡ true = ground (arith, next) in
      let (s1, grew, same) =
        finish_round-grown realsize s.heap s (chunk', reached', s')
          (subst (λ z. finish_round sbrk realsize z true s ≡ ok (chunk', reached', s')) next
            (subst
              (λ z. finish_round sbrk realsize (next_chunk s chunk) z s ≡ ok (chunk', reached', s'))
              ends h1)) in
      let (d, q) = grow-first limit cs₀ s₀ sbrk contract v realsize chunk pre c s s1 p grew in
      (
        pre ++ (c ∷ []),
        d,
        [],
        subst (λ z. Place limit cs₀ s₀ z.0 (pre ++ (c ∷ [])) d [] z.2) same q,
        λ _. refl,
      )
  next_round-Place realsize chunk false pre c (c' ∷ suf) s chunk' reached' s' p last h =
      let (_, _, h1) = >>=-eq-ok (check (not ((s.headers chunk).size == 0))) _ h in
      let (front, here) = Place-parts limit cs₀ s₀ chunk pre c (c' ∷ suf) s p in
      let after = Layout-span s.headers (chunk + c.size + c'.size) suf s.heap here.3.3 in
      let next : next_chunk s chunk ≡ chunk + c.size =
        omega (arith, after, ap (λ z. z.size) here.0, p.below, v.bits32) in
      let apart : (next_chunk s chunk == s.heap) ≡ false = ground (arith, next, after, here.3.1) in
      let same =
        finish_round-stays realsize (next_chunk s chunk) s (chunk', reached', s')
          (subst
            (λ z. finish_round sbrk realsize (next_chunk s chunk) z s ≡ ok (chunk', reached', s'))
            apart h1) in
      let assoc : pre ++ (c ∷ (c' ∷ suf)) ≡ (pre ++ (c ∷ [])) ++ (c' ∷ suf) =
        sym (append_assoc pre (c ∷ []) (c' ∷ suf)) in
      let q : Place limit cs₀ s₀ (next_chunk s chunk) (pre ++ (c ∷ [])) c' suf s = record {
        layout = subst (λ z. Layout s.headers s.heap_start z s.heap) assoc p.layout;
        place = omega (arith, next, p.place, span-append pre (c ∷ []));
        start = p.start;
        used_same = p.used_same;
        counted = ap used_bytes (sym assoc) ∙ p.counted;
        blocks_same = ap (blocks s.heap_start) (sym assoc) ∙ p.blocks_same;
        below = p.below;
      } in
      (
        pre ++ (c ∷ []),
        c',
        suf,
        subst (λ z. Place limit cs₀ s₀ z.0 (pre ++ (c ∷ [])) c' suf z.2) same q,
        λ t. absurd (cc (t, ap (λ z. z.1) same)),
      )

  -- What the loop finds.
  pub find_chunk-Place :
      (rounds realsize alignment chunk : ℕ) (reached : Bool) (pre : List Header) (c : Header)
      (suf : List Header) (s : Allocator W) (found adjust : ℕ) (s' : Allocator W)
      → Place limit cs₀ s₀ chunk pre c suf s
      → (reached ≡ true → suf ≡ [])
      → find_chunk sbrk rounds realsize alignment chunk reached s ≡ ok (found, adjust, s')
      → 4 ≤ alignment
      → alignment % 4 ≡ 0
      → realsize % alignment ≡ 0
      → 0 < realsize
      → (pre' : List Header) × (c' : Header) × (suf' : List Header) × Place limit cs₀ s₀ found pre'
          c' suf' s'
        × IsUsable realsize found adjust c'
  unfolding find_chunk
  find_chunk-Place zero realsize alignment chunk reached pre c suf s found adjust s' p last h four a
        whole pos =
      cc
  find_chunk-Place (suc rounds) realsize alignment chunk reached pre c suf s found adjust s' p last
        h four a whole pos =
      elim (Option-cases (can_use_chunk realsize alignment chunk (s.headers chunk))) [
        | inl none_fits ↦
            let ((chunk', reached', s1), round, rest) =
              >>=-eq-ok (next_round sbrk realsize chunk reached s) _
                (rw (none_fits, find_chunk) at h) in
            let (pre', c', suf', q, last') =
              next_round-Place realsize chunk reached pre c suf s chunk' reached' s1 p last round in
            find_chunk-Place rounds realsize alignment chunk' reached' pre' c' suf' s1 found adjust
              s' q last' rest four a whole pos
        | inr (adj, fits) ↦
            let same = ok-inj (rw (fits, find_chunk) at h) in
            let (front, here) = Place-parts limit cs₀ s₀ chunk pre c suf s p in
            let usable =
              can_use_chunk-IsUsable realsize alignment chunk c adj
                (subst (λ z. can_use_chunk realsize alignment chunk z ≡ some adj) here.0 fits) four
                a whole pos
                (Layout-aligned s.headers s.heap_start pre chunk front (rw p.start v.aligned))
                (omega (
                  arith,
                  Layout-span s.headers chunk (c ∷ suf) s.heap here,
                  p.below,
                  v.bits31,
                  p.start,
                  p.place,
                )) in
            (
              pre,
              c,
              suf,
              subst (λ z. Place limit cs₀ s₀ z.0 pre c suf z.2) same p,
              subst (λ z. IsUsable realsize z.0 z.1 c) same usable,
            )
      ]
