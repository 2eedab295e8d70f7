-- ===== src/Heap/Allocate.antt =====
-- `Malloc` adds one block to the heap.
use toy_kernel.Base.{
  ℕ, ◌+◌, ◌%◌, ◌^◌, ◌≤◌, ◌<◌, ◌≡◌, inl, inr, refl, sym, ap, subst, ◌∙◌, max, true, false, List, [],
  ◌∷◌, ◌++◌, ◌==◌, leb, arith, ok, check, >>=-eq-ok, ok-inj, Bool-cases, ==_iff, check-eq-ok,
}
use toy_kernel.Heap.Types.{Header, Allocator, SbrkFunc, is_power_of_2}
use toy_kernel.Heap.Malloc.{
  real_size, find_rounds, find_chunk, split_front, take_chunk, give_out, malloc,
}
use toy_kernel.Heap.Chunks.{
  Layout, used_bytes, blocks, IsHeap, Layout-span, Layout-append, used_bytes-append, used_bytes_le,
  blocks-append,
}
use toy_kernel.Heap.Align.{is_power_of_2-four, real_size-le, mod-mod_four}
use toy_kernel.Heap.Grow.{IsSbrk, Place}
use toy_kernel.Heap.Search.{find_chunk-Place}
use toy_kernel.Heap.Cutting.{Hole}
use toy_kernel.Heap.Take.{Place-Hole, split_front-Hole, take_chunk-Taken}

-- `ptr` is a new block of the heap, with room for `size` bytes, among the old ones.
pub record Allocated {ℓ} {W : Type ℓ} (limit : ℕ) (cs : List Header) (s : Allocator W)
    (ptr size : ℕ) (s' : Allocator W) : Type 0 where
  pub chunks : List Header
  pub valid : IsHeap limit chunks s'
  pub start : s'.heap_start ≡ s.heap_start
  pub before : List (ℕ × ℕ)
  pub after : List (ℕ × ℕ)
  pub bytes : ℕ
  pub old : blocks s.heap_start cs ≡ before ++ after
  pub new : blocks s.heap_start chunks ≡ before ++ ((ptr, bytes) ∷ after)
  pub room : 4 + size ≤ bytes

module _ {ℓ} {W : Type ℓ} (limit : ℕ) (cs : List Header) (s : Allocator W) (sbrk : SbrkFunc W)
    (contract : IsSbrk limit sbrk) (v : IsHeap limit cs s) where
  -- The loop starts at the first chunk.
  pub first_chunk :
      (c : Header) (cs' : List Header) → cs ≡ c ∷ cs' → Place limit cs s s.heap_start [] c cs' s
  first_chunk c cs' e = record {
    layout = subst (λ z. Layout s.headers s.heap_start z s.heap) e v.layout;
    place = omega arith;
    start = refl;
    used_same = refl;
    counted = ap used_bytes (sym e) ∙ sym v.counted;
    blocks_same = ap (blocks s.heap_start) (sym e);
    below = v.below;
  }

  pub chunks_cons :
      (ds : List Header) → IsHeap limit ds s → (c : Header) × (ds' : List Header) × (ds ≡ c ∷ ds')
  chunks_cons [] h = absurd (omega (arith, h.layout, h.not_empty))
  chunks_cons (c ∷ ds) h = (c, ds, refl)

  alignment-four :
      (requested : ℕ) {u : Unit {0}}
      → check (is_power_of_2 requested) ≡ ok u
      → max requested 4 % 4 ≡ 0
  alignment-four requested h = elim (Bool-cases (leb 4 requested)) [
    | inl large ↦
        ground (arith, is_power_of_2-four requested (check-eq-ok (is_power_of_2 requested) h))
    | inr small ↦ ground arith
  ]

  -- The taken chunk, counted, is the new block.
  Hole-Allocated :
      (chunk n size : ℕ) (pre suf : List Header) (s' : Allocator W)
      → Hole limit cs s chunk pre (record { size = n; used = true }) suf s'
      → 4 + size ≤ n
      → Allocated limit cs s
          ((chunk + 4) % 2 ^ 32)
          size
          (record s' { heap_used = (s'.heap_used + (s'.headers chunk).size) % 2 ^ 32 })
  Hole-Allocated chunk n size pre suf s' p fits =
      let d : Header = record { size = n; used = true } in
      let front = Layout-span s'.headers s'.heap_start pre chunk p.front in
      let top = Layout-span s'.headers chunk (d ∷ suf) s'.heap p.here in
      let word : chunk + 4 ≡ (chunk + 4) % 2 ^ 32 = omega (arith, top, fits, p.below, v.bits32) in
      record {
        chunks = pre ++ (d ∷ suf);
        valid = record {
          layout =
              Layout-append s'.headers s'.heap_start pre (d ∷ suf) chunk s'.heap p.front p.here;
          counted = omega (
            arith,
            ap (λ z. z.size) p.here.0,
            p.used_same,
            p.counted,
            used_bytes-append pre (d ∷ suf),
            used_bytes_le pre,
            used_bytes_le suf,
            front,
            top,
            p.below,
            v.bits32,
          );
          aligned = rw p.start v.aligned;
          not_null = rw p.start v.not_null;
          not_empty = omega (arith, front, top, fits);
          below = p.below;
          bits31 = rw p.start v.bits31;
          bits32 = v.bits32;
        };
        start = p.start;
        before = blocks s.heap_start pre;
        after = blocks (chunk + n) suf;
        bytes = n;
        old = sym p.others ∙ ap (λ z. blocks z pre ++ blocks (chunk + n) suf) p.start;
        new =
            blocks-append s.heap_start pre (d ∷ suf)
            ∙ ap (λ z. blocks s.heap_start pre ++ blocks z (d ∷ suf))
                (omega (arith, front, p.start))
            ∙ ap (λ z. blocks s.heap_start pre ++ ((z, n) ∷ blocks (chunk + n) suf)) word;
        room = fits;
      }

  -- A call of `Malloc` that returns, for a size that leaves room for the header and the rounding in
  -- 32 bits and is not 0, gives an aligned pointer and adds one block of at least that size to a valid
  -- heap. The other blocks stay where they are. `sbrk_` moves the top to a multiple of four within a
  -- limit.
  pub malloc-Allocated :
      (size alignment ptr : ℕ) (s' : Allocator W)
      → 0 < size
      → size + 4 + max alignment 4 ≤ 2 ^ 32
      → malloc sbrk size alignment s ≡ ok (ptr, s')
      → (ptr % max alignment 4 ≡ 0) × Allocated limit cs s ptr size s'
  unfolding malloc give_out
  malloc-Allocated size requested ptr s' pos room h =
      let (_, power, h1) = >>=-eq-ok (check (is_power_of_2 requested)) _ h in
      let alignment = max requested 4 in
      let realsize = real_size size alignment in
      let nonzero : (size == 0) ≡ false = ground arith in
      let (_, whole, h2) = >>=-eq-ok (check (realsize % alignment == 0)) _ (rw nonzero at h1) in
      let ((found, adjust, s1), found_it, h3) =
        >>=-eq-ok (find_chunk sbrk (find_rounds s) realsize alignment s.heap_start false s) _ h2 in
      let ((chunk, s2), cut, h4) = >>=-eq-ok (split_front found adjust s1) _ h3 in
      let (_, enough, h5) = >>=-eq-ok (check (leb realsize (s2.headers chunk).size)) _ h4 in
      let (s3, took, h6) = >>=-eq-ok (take_chunk chunk realsize s2) _ h5 in
      let (_, aligned, done) = >>=-eq-ok (check ((chunk + 4) % 2 ^ 32 % alignment == 0)) _ h6 in
      let rounded : realsize % alignment ≡ 0 =
        (==_iff (realsize % alignment) 0).0 (check-eq-ok (realsize % alignment == 0) whole) in
      let four : alignment % 4 ≡ 0 = alignment-four requested power in
      let least = real_size-le size alignment (omega arith) room in
      let (c, cs', e) = chunks_cons cs v in
      let (pre, d, suf, p, u) =
        find_chunk-Place limit cs s sbrk contract v (find_rounds s) realsize alignment s.heap_start
          false [] c cs' s found adjust s1 (first_chunk c cs' e) (λ t. absurd (cc t)) found_it
          (omega arith) four rounded (omega (arith, least)) in
      let (pre', d', q, fits) =
        split_front-Hole limit cs s v found adjust realsize chunk pre d suf s1 s2
          (Place-Hole limit cs s v found pre d suf s1 p u.unused) u (omega (arith, least)) cut in
      let (n, suf', t, more) =
        take_chunk-Taken limit cs s v chunk realsize pre' d' suf s2 s3 q (omega (arith, least))
          (omega (arith, mod-mod_four realsize alignment four, rounded)) fits took in
      let same = ok-inj done in
      (
        ap (λ z. z.0 % alignment) (sym same)
            ∙ (==_iff ((chunk + 4) % 2 ^ 32 % alignment) 0).0
                (check-eq-ok ((chunk + 4) % 2 ^ 32 % alignment == 0) aligned),
        subst (λ z. Allocated limit cs s z.0 size z.1) same
            (Hole-Allocated chunk n size pre' suf' s3 t (omega (arith, least, more))),
      )
