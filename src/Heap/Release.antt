-- ===== src/Heap/Release.antt =====
-- `Free` takes one block away from the heap.
use toy_kernel.Base.{
  ℕ, suc, ◌+◌, ◌-◌, ◌%◌, ◌^◌, ◌≡◌, inl, inr, refl, sym, ap, ap₂, subst, ◌∙◌, true, false, List, ◌∷◌,
  ◌++◌, ◌==◌, leb, arith, ok, ==_iff,
}
use toy_kernel.Heap.Types.{Header, Allocator, set_header}
use toy_kernel.Heap.Free.{from_pointer, merge_loop, free}
use toy_kernel.Heap.Chunks.{
  Layout, span, used_bytes, blocks, IsHeap, Layout-span, Layout-append, Layout-split, Layout-update,
  used_bytes-append, blocks-append,
}
use toy_kernel.Heap.Cutting.{Hole}
use toy_kernel.Heap.Merging.{blocks-Split, length_le, merge_loop-Hole, Hole-IsHeap}

-- What `Free` leaves: a valid heap with the other blocks.
pub record Freed {ℓ} {W : Type ℓ} (limit : ℕ) (rest : List (ℕ × ℕ)) (s s' : Allocator W)
    : Type 0 where
  pub chunks : List Header
  pub valid : IsHeap limit chunks s'
  pub start : s'.heap_start ≡ s.heap_start
  pub blocks_left : blocks s'.heap_start chunks ≡ rest

-- The state right after the chunk of a block is marked as free.
abbrev unused {ℓ} : {W : Type ℓ} → (chunk n : ℕ) → Allocator W → Allocator W
unused chunk n s = record (set_header chunk n false s) { heap_used = s.heap_used - n }

free-eq-merge_loop {ℓ} :
    {W : Type ℓ} (ptr chunk n : ℕ) (s : Allocator W)
    → (ptr == 0) ≡ false
    → from_pointer ptr ≡ chunk
    → (s.headers chunk).size ≡ n
    → leb n s.heap_used ≡ true
    → free ptr s ≡ merge_loop (suc (s.heap - s.heap_start)) chunk (unused chunk n s)
unfolding free
free-eq-merge_loop ptr chunk n s some_ptr e size fits = rw (some_ptr, e, size, fits) refl

module _ {ℓ} {W : Type ℓ} (limit : ℕ) (s : Allocator W) (pre suf : List Header) (n : ℕ)
    (v : IsHeap limit (pre ++ (record { size = n; used = true } ∷ suf)) s) where
  abbrev at : ℕ
  at = s.heap_start + span pre

  sides :
      Layout s.headers s.heap_start pre at
      × Layout s.headers at (record { size = n; used = true } ∷ suf) s.heap
  sides =
      Layout-split s.headers s.heap_start pre (record { size = n; used = true } ∷ suf) s.heap
        v.layout

  unused_counted : s.heap_used ≡ used_bytes pre + (n + used_bytes suf)
  unused_counted = v.counted ∙ used_bytes-append pre (record { size = n; used = true } ∷ suf)

  unused-Hole :
      Hole limit
        (pre ++ (record { size = n; used = false } ∷ suf))
        (unused at n s)
        at
        pre
        (record { size = n; used = false })
        suf
        (unused at n s)
  unused-Hole =
      let (front, here) = sides in
      let top = Layout-span s.headers at (record { size = n; used = true } ∷ suf) s.heap here in
      let small : n % 2 ^ 31 ≡ n = omega (arith, top, v.below, v.bits31) in
      let d : Header = record { size = n % 2 ^ 31; used = false } in
      record {
        front = Layout-update s.headers s.heap_start pre at at d (inr (omega arith)) front;
        here = (
          rw ((==_iff at at).1 refl) (ap (λ z. record { size = z; used = false }) small),
          here.1,
          here.2,
          Layout-update s.headers (at + n) suf s.heap at d (inl (omega (arith, here.1))) here.3,
        );
        start = refl;
        used_same = refl;
        counted = omega (arith, unused_counted);
        others = sym (blocks-append s.heap_start pre (record { size = n; used = false } ∷ suf));
        below = v.below;
      }

  unused-IsHeap : IsHeap limit (pre ++ (record { size = n; used = false } ∷ suf)) (unused at n s)
  unused-IsHeap =
      let p = unused-Hole in
      record {
        layout =
            Layout-append (unused at n s).headers s.heap_start pre
              (record { size = n; used = false } ∷ suf) at s.heap p.front p.here;
        counted = omega (
          arith,
          unused_counted,
          used_bytes-append pre (record { size = n; used = false } ∷ suf),
        );
        aligned = v.aligned;
        not_null = v.not_null;
        not_empty = v.not_empty;
        below = v.below;
        bits31 = v.bits31;
        bits32 = v.bits32;
      }

  free-at :
      (s' : Allocator W) × (free (at + 4) s ≡ ok s')
      × Freed limit (blocks s.heap_start pre ++ blocks (at + n) suf) s s'
  free-at =
      let (front, here) = sides in
      let top = Layout-span s.headers at (record { size = n; used = true } ∷ suf) s.heap here in
      let long = length_le s.headers (at + n) suf s.heap here.3 in
      let (d, suf', s', ran, q, spare) =
        merge_loop-Hole limit (pre ++ (record { size = n; used = false } ∷ suf)) (unused at n s)
          unused-IsHeap (suc (s.heap - s.heap_start)) at pre (record { size = n; used = false }) suf
          (unused at n s) unused-Hole (omega (arith, long)) refl in
      let (valid, same) =
        Hole-IsHeap limit (pre ++ (record { size = n; used = false } ∷ suf)) (unused at n s)
          unused-IsHeap at pre d suf' s' q spare in
      (
        s',
        free-eq-merge_loop (at + 4) at n s (ground arith)
              (omega (arith, top, v.below, v.bits32, here.1)) (ap (λ z. z.size) here.0)
              (ground (arith, unused_counted))
            ∙ ran,
        record {
          chunks = pre ++ (d ∷ suf');
          valid = valid;
          start = q.start;
          blocks_left =
              same ∙ blocks-append s.heap_start pre (record { size = n; used = false } ∷ suf);
        },
      )

-- `Free` of a block of a valid heap returns, leaves a valid heap, and takes exactly that block away.
pub free-Freed {ℓ} :
    {W : Type ℓ} (limit : ℕ) (cs : List Header) (s : Allocator W) (before after : List (ℕ × ℕ))
    (ptr n : ℕ)
    → IsHeap limit cs s
    → blocks s.heap_start cs ≡ before ++ ((ptr, n) ∷ after)
    → (s' : Allocator W) × (free ptr s ≡ ok s') × Freed limit (before ++ after) s s'
free-Freed {W} limit cs s before after ptr n v e =
    let r = blocks-Split s.heap_start cs before ptr n after e in
    let (s', ran, f) = free-at limit s r.pre r.suf n (subst (λ z. IsHeap limit z s) r.parts v) in
    (
      s',
      ap (λ z. free z s) r.place ∙ ran,
      subst (λ z. Freed limit z s s') (ap₂ (λ y z. y ++ z) r.front r.back) f,
    )
