-- ===== src/Heap/Take.antt =====
-- `Malloc` takes the chunk that it has found: what it has too much, before or behind, is split off.
use toy_kernel.Base.{
  ℕ, ◌+◌, ◌-◌, ◌%◌, ◌^◌, ◌≤◌, ◌≡◌, inl, inr, refl, sym, ap, ap₂, subst, ◌∙◌, Bool, true, false, not,
  List, [], ◌∷◌, ◌++◌, append-nil, ◌==◌, ltb, leb, arith, update, ok, check, >>=-eq-ok, ok-inj,
  Bool-cases, ==_iff,
}
use toy_kernel.Heap.Types.{Header, Allocator, set_header, split_at, rest_size}
use toy_kernel.Heap.Malloc.{split_front, take_chunk}
use toy_kernel.Heap.Chunks.{
  Layout, blocks, IsHeap, Layout-span, Layout-append, Layout-update, used_bytes-append,
  blocks-append,
}
use toy_kernel.Heap.Align.{IsUsable}
use toy_kernel.Heap.Grow.{Place, Place-parts}
use toy_kernel.Heap.Cutting.{Hole, Layout-two, split_at-Layout}

module _ {ℓ} {W : Type ℓ} (limit : ℕ) (cs₀ : List Header) (s₀ : Allocator W)
    (v : IsHeap limit cs₀ s₀) where
  pub Place-Hole :
      (chunk : ℕ) (pre : List Header) (c : Header) (suf : List Header) (s : Allocator W)
      → Place limit cs₀ s₀ chunk pre c suf s
      → c.used ≡ false
      → Hole limit cs₀ s₀ chunk pre c suf s
  Place-Hole chunk pre c suf s p free =
      let (front, here) = Place-parts limit cs₀ s₀ chunk pre c suf s p in
      record {
        front = front;
        here = here;
        start = p.start;
        used_same = p.used_same;
        counted = ground (arith, used_bytes-append pre (c ∷ suf), p.counted, free);
        others =
            ap (λ z. blocks s.heap_start pre ++ blocks (z + c.size) suf) p.place
            ∙ sym (blocks-append s.heap_start pre (c ∷ suf) ∙ rw free refl)
            ∙ p.blocks_same;
        below = p.below;
      }

  -- The chunk's own `used` is written.
  Hole-used :
      (chunk : ℕ) (pre : List Header) (c : Header) (suf : List Header) (u : Bool) (s : Allocator W)
      → Hole limit cs₀ s₀ chunk pre c suf s
      → Hole limit cs₀ s₀ chunk pre
          (record { size = c.size; used = u })
          suf
          (set_header chunk (s.headers chunk).size u s)
  Hole-used chunk pre c suf u s p =
      let d : Header = record { size = (s.headers chunk).size % 2 ^ 31; used = u } in
      let small : (s.headers chunk).size % 2 ^ 31 ≡ c.size = omega (
        arith,
        ap (λ z. z.size) p.here.0,
        p.below,
        v.bits31,
        p.start,
        Layout-span s.headers chunk (c ∷ suf) s.heap p.here,
        Layout-span s.headers s.heap_start pre chunk p.front,
      ) in
      record {
        front = Layout-update s.headers s.heap_start pre chunk chunk d (inr (omega arith)) p.front;
        here = (
          rw ((==_iff chunk chunk).1 refl) (ap (λ z. record { size = z; used = u }) small),
          p.here.1,
          p.here.2,
          Layout-update s.headers (chunk + c.size) suf s.heap chunk d
              (inl (omega (arith, p.here.1))) p.here.3,
        );
        start = p.start;
        used_same = p.used_same;
        counted = p.counted;
        others = p.others;
        below = p.below;
      }

  -- The layout after a chunk has been cut.
  Hole-cut :
      (chunk n : ℕ) (pre : List Header) (c : Header) (suf : List Header) (u u' : Bool)
      (s : Allocator W)
      → Hole limit cs₀ s₀ chunk pre c suf s
      → 4 ≤ n
      → n % 4 ≡ 0
      → n + 4 ≤ c.size
      → Layout (split_at chunk n u u' s).headers s.heap_start pre chunk
        × Layout
            (split_at chunk n u u' s).headers
            chunk
            (record { size = n; used = u } ∷ (record { size = c.size - n; used = u' } ∷ suf))
            s.heap
  Hole-cut chunk n pre c suf u u' s p four e fits =
      let headers =
        split_at-Layout chunk n c suf u u' s p.here (omega (arith, p.below, v.bits32))
          (omega (
            arith,
            p.below,
            v.bits31,
            p.start,
            Layout-span s.headers s.heap_start pre chunk p.front,
          ))
          four e fits in
      let d : Header = record { size = c.size - n; used = u' } in
      let a : Header = record { size = n; used = u } in
      (
        subst (λ z. Layout z s.heap_start pre chunk) (sym headers)
            (Layout-update (update s.headers (chunk + n) d) s.heap_start pre chunk chunk a
              (inr (omega arith))
              (Layout-update s.headers s.heap_start pre chunk (chunk + n) d (inr (omega arith))
                p.front)),
        subst (λ z. Layout z chunk (a ∷ (d ∷ suf)) s.heap) (sym headers)
            (Layout-two s.headers chunk s.heap n c suf u u' p.here four e fits),
      )

  -- The start of the chunk is split off. The new header's `used` is whatever was in memory.
  pub split_front-Hole :
      (found adjust realsize chunk : ℕ) (pre : List Header) (c : Header) (suf : List Header)
      (s s' : Allocator W)
      → Hole limit cs₀ s₀ found pre c suf s
      → IsUsable realsize found adjust c
      → 4 ≤ realsize
      → split_front found adjust s ≡ ok (chunk, s')
      → (pre' : List Header) × (d : Header) × Hole limit cs₀ s₀ chunk pre' d suf s'
        × (realsize ≤ d.size)
  unfolding split_front
  split_front-Hole found adjust realsize chunk pre c suf s s' p u four h =
      elim (Bool-cases (adjust == 0)) [
        | inl nothing ↦
            let same = ok-inj (rw (nothing, split_front) at h) in
            (pre, c, subst (λ z. Hole limit cs₀ s₀ z.0 pre c suf z.1) same p, omega (arith, u.fits))
        | inr some_bytes ↦
            let (_, least, h1) =
              >>=-eq-ok (check (leb 4 adjust)) _ (rw (some_bytes, split_front) at h) in
            let (_, _, done) = >>=-eq-ok (check (not (rest_size found adjust s == 0))) _ h1 in
            let garbage = (s.headers ((found + adjust) % 2 ^ 32)).used in
            let a : Header = record { size = adjust; used = false } in
            let d : Header = record { size = c.size - adjust; used = garbage } in
            let top = Layout-span s.headers found (c ∷ suf) s.heap p.here in
            let other : found + adjust ≡ (found + adjust) % 2 ^ 32 =
              omega (arith, top, p.below, v.bits32, u.fits) in
            let (front, here) =
              Hole-cut found adjust pre c suf false garbage s p (ground (arith, least)) u.multiple
                (omega (arith, u.fits)) in
            let headers = (split_at found adjust false garbage s).headers in
            let q : Hole limit cs₀ s₀ (found + adjust) (pre ++ (a ∷ [])) d suf
                (split_at found adjust false garbage s) =
              record {
                front =
                    Layout-append headers s.heap_start pre (a ∷ []) found (found + adjust) front
                      (here.0, here.1, here.2, refl);
                here = here.3;
                start = p.start;
                used_same = p.used_same;
                counted = omega (arith, used_bytes-append pre (a ∷ []), p.counted);
                others =
                    ap₂ (λ y z. y ++ blocks z suf)
                      (blocks-append s.heap_start pre (a ∷ [])
                        ∙ append-nil (blocks s.heap_start pre))
                      (omega (arith, u.fits))
                    ∙ p.others;
                below = p.below;
              } in
            (
              pre ++ (a ∷ []),
              d,
              subst (λ z. Hole limit cs₀ s₀ z.0 (pre ++ (a ∷ [])) d suf z.1) (ok-inj done)
                  (subst
                    (λ z.
                      Hole limit cs₀ s₀ z (pre ++ (a ∷ [])) d suf
                        (split_at found adjust false garbage s))
                    other q),
              omega (arith, u.fits),
            )
      ]

  -- The chunk is used now, with what is needed of it, and nothing else is.
  pub take_chunk-Taken :
      (chunk realsize : ℕ) (pre : List Header) (c : Header) (suf : List Header) (s s' : Allocator W)
      → Hole limit cs₀ s₀ chunk pre c suf s
      → 4 ≤ realsize
      → realsize % 4 ≡ 0
      → realsize ≤ c.size
      → take_chunk chunk realsize s ≡ ok s'
      → (n : ℕ) × (suf' : List Header) × Hole limit cs₀ s₀ chunk pre
          (record { size = n; used = true })
          suf'
          s'
        × (realsize ≤ n)
  unfolding take_chunk
  take_chunk-Taken chunk realsize pre c suf s s' p four e fits h =
      let size : (s.headers chunk).size ≡ c.size = ap (λ z. z.size) p.here.0 in
      let whole : Hole limit cs₀ s₀ chunk pre (record { size = c.size; used = true }) suf
          (set_header chunk (s.headers chunk).size true s) =
        Hole-used chunk pre c suf true s p in
      elim (Bool-cases ((s.headers chunk).size == realsize)) [
        | inl exact ↦ (
          c.size,
          suf,
          subst (λ z. Hole limit cs₀ s₀ chunk pre (record { size = c.size; used = true }) suf z)
              (ok-inj (rw (exact, take_chunk) at h)) whole,
          fits,
        )
        | inr more ↦
            let room : ltb ((s.headers chunk).size - realsize) 4 ≡ false =
              ground (arith, size, more, p.here.2) in
            let (_, _, done) =
              >>=-eq-ok (check (not (rest_size chunk realsize s == 0))) _
                (rw (more, room, take_chunk) at h) in
            let (front, here) =
              Hole-cut chunk realsize pre c suf true false s p four e
                (ground (arith, size, more, p.here.2)) in
            (
              realsize,
              record { size = c.size - realsize; used = false } ∷ suf,
              subst
                  (λ z.
                    Hole limit cs₀ s₀ chunk pre (record { size = realsize; used = true })
                      (record { size = c.size - realsize; used = false } ∷ suf) z)
                  (ok-inj done)
                  (record {
                    front = front;
                    here = here;
                    start = p.start;
                    used_same = p.used_same;
                    counted = omega (arith, p.counted);
                    others =
                        ap (λ z. blocks s.heap_start pre ++ blocks z suf) (omega arith) ∙ p.others;
                    below = p.below;
                  }),
              omega arith,
            )
      ]
