-- ===== src/Heap/Merging.antt =====
-- The used chunk of a block, and how `Free` merges its neighbours into it.
use toy_kernel.Base.{
  ℕ, zero, suc, ◌+◌, ◌%◌, ◌^◌, ◌≤◌, ◌<◌, ◌≡◌, inl, inr, refl, sym, ap, ap₂, subst, ◌∙◌, true, false,
  not, List, [], ◌∷◌, ◌++◌, length, ◌==◌, ltb, if◌then◌else◌, arith, ok, Bool-cases, ==_iff,
}
use toy_kernel.Heap.Types.{Header, Allocator, set_header, next_chunk}
use toy_kernel.Heap.Free.{can_merge, merge_loop, free}
use toy_kernel.Heap.Chunks.{
  Layout, span, blocks, IsHeap, Layout-span, Layout-append, Layout-update, used_bytes-append,
  blocks-append,
}
use toy_kernel.Heap.Cutting.{Hole}

-- The used chunk that a block is.
pub record Split (a : ℕ) (cs : List Header) (xs : List (ℕ × ℕ)) (ptr n : ℕ) (ys : List (ℕ × ℕ))
    : Type 0 where
  pub pre : List Header
  pub suf : List Header
  pub parts : cs ≡ pre ++ (record { size = n; used = true } ∷ suf)
  pub place : ptr ≡ a + span pre + 4
  pub front : blocks a pre ≡ xs
  pub back : blocks (a + span pre + n) suf ≡ ys

Split-cons :
    (a : ℕ) (c : Header) (cs : List Header) (xs zs : List (ℕ × ℕ)) (ptr n : ℕ) (ys : List (ℕ × ℕ))
    → zs ≡ (if c.used then (a + 4, c.size) ∷ xs else xs)
    → Split (a + c.size) cs xs ptr n ys
    → Split a (c ∷ cs) zs ptr n ys
Split-cons a c cs xs zs ptr n ys e r =
    let moved : a + c.size + span r.pre ≡ a + (c.size + span r.pre) = omega arith in
    record {
      pre = c ∷ r.pre;
      suf = r.suf;
      parts = ap (λ z. c ∷ z) r.parts;
      place = omega (arith, r.place);
      front = ap (λ z. if c.used then (a + 4, c.size) ∷ z else z) r.front ∙ sym e;
      back = ap (λ z. blocks (z + n) r.suf) (sym moved) ∙ r.back;
    }

pub blocks-Split :
    (a : ℕ) (cs : List Header) (xs : List (ℕ × ℕ)) (ptr n : ℕ) (ys : List (ℕ × ℕ))
    → blocks a cs ≡ xs ++ ((ptr, n) ∷ ys)
    → Split a cs xs ptr n ys
blocks-Split a [] [] ptr n ys e = cc e
blocks-Split a [] (x ∷ xs) ptr n ys e = cc e
blocks-Split a (c ∷ cs) [] ptr n ys e = elim (Bool-cases c.used) [
  | inl used ↦
      let h : (a + 4, c.size) ∷ blocks (a + c.size) cs ≡ (ptr, n) ∷ ys = rw used at e in
      let size : c.size ≡ n = cc h in
      let at : a + 4 ≡ ptr = cc h in
      let tail : blocks (a + c.size) cs ≡ ys = cc h in
      record {
        pre = [];
        suf = cs;
        parts = ap₂ (λ y z. record { size = y; used = z } ∷ cs) size used;
        place = omega (arith, at);
        front = refl;
        back = ap (λ z. blocks z cs) (omega (arith, size)) ∙ tail;
      }
  | inr free ↦
      Split-cons a c cs [] [] ptr n ys (rw free refl)
        (blocks-Split (a + c.size) cs [] ptr n ys (rw free at e))
]
blocks-Split a (c ∷ cs) (x ∷ xs) ptr n ys e = elim (Bool-cases c.used) [
  | inl used ↦
      let h : (a + 4, c.size) ∷ blocks (a + c.size) cs ≡ x ∷ (xs ++ ((ptr, n) ∷ ys)) =
        rw used at e in
      let head : x ≡ (a + 4, c.size) = cc h in
      let tail : blocks (a + c.size) cs ≡ xs ++ ((ptr, n) ∷ ys) = cc h in
      Split-cons a c cs xs (x ∷ xs) ptr n ys (rw used (ap (λ z. z ∷ xs) head))
        (blocks-Split (a + c.size) cs xs ptr n ys tail)
  | inr free ↦
      Split-cons a c cs (x ∷ xs) (x ∷ xs) ptr n ys (rw free refl)
        (blocks-Split (a + c.size) cs (x ∷ xs) ptr n ys (rw free at e))
]

pub length_le :
    (h : ℕ → Header) (a : ℕ) (cs : List Header) (b : ℕ) → Layout h a cs b → a + length cs ≤ b
length_le h a [] b l = omega (arith, l)
length_le h a (c ∷ cs) b l = omega (arith, length_le h (a + c.size) cs b l.3, l.1)

module _ {ℓ} {W : Type ℓ} (limit : ℕ) (cs₀ : List Header) (s₀ : Allocator W)
    (v : IsHeap limit cs₀ s₀) where
  -- Two chunks become one.
  Hole-merged :
      (chunk : ℕ) (pre : List Header) (c d : Header) (suf : List Header) (s : Allocator W)
      → Hole limit cs₀ s₀ chunk pre c (d ∷ suf) s
      → d.used ≡ false
      → Hole limit cs₀ s₀ chunk pre
          (record { size = c.size + d.size; used = c.used })
          suf
          (set_header chunk (c.size + d.size) c.used s)
  Hole-merged chunk pre c d suf s p free =
      let e : Header = record { size = (c.size + d.size) % 2 ^ 31; used = c.used } in
      let moved : chunk + c.size + d.size ≡ chunk + (c.size + d.size) = omega arith in
      let top = Layout-span s.headers (chunk + c.size + d.size) suf s.heap p.here.3.3 in
      let front = Layout-span s.headers s.heap_start pre chunk p.front in
      let small : (c.size + d.size) % 2 ^ 31 ≡ c.size + d.size =
        omega (arith, top, front, p.below, v.bits31, p.start) in
      record {
        front = Layout-update s.headers s.heap_start pre chunk chunk e (inr (omega arith)) p.front;
        here = (
          rw ((==_iff chunk chunk).1 refl) (ap (λ z. record { size = z; used = c.used }) small),
          omega (arith, p.here.1),
          omega (arith, p.here.2, p.here.3.2),
          Layout-update s.headers (chunk + (c.size + d.size)) suf s.heap chunk e
              (inl (omega (arith, p.here.1)))
              (subst (λ z. Layout s.headers z suf s.heap) moved p.here.3.3),
        );
        start = p.start;
        used_same = p.used_same;
        counted = ground (arith, p.counted, free);
        others =
            ap (λ z. blocks s.heap_start pre ++ blocks z suf) (sym moved) ∙ rw free at p.others;
        below = p.below;
      }

  next_of :
      (chunk : ℕ) (pre : List Header) (c : Header) (suf : List Header) (s : Allocator W)
      → Hole limit cs₀ s₀ chunk pre c suf s
      → next_chunk s chunk ≡ chunk + c.size
  next_of chunk pre c suf s p = omega (
    arith,
    Layout-span s.headers chunk (c ∷ suf) s.heap p.here,
    ap (λ z. z.size) p.here.0,
    p.below,
    v.bits32,
  )

  can_merge-last :
      (chunk : ℕ) (pre : List Header) (c : Header) (s : Allocator W)
      → Hole limit cs₀ s₀ chunk pre c [] s
      → can_merge chunk s ≡ false
  unfolding can_merge
  can_merge-last chunk pre c s p = ground (arith, next_of chunk pre c [] s p, p.here.3)

  can_merge-next :
      (chunk : ℕ) (pre : List Header) (c d : Header) (suf : List Header) (s : Allocator W)
      → Hole limit cs₀ s₀ chunk pre c (d ∷ suf) s
      → can_merge chunk s ≡ not d.used
  unfolding can_merge
  can_merge-next chunk pre c d suf s p =
      let top = Layout-span s.headers (chunk + c.size + d.size) suf s.heap p.here.3.3 in
      let next = next_of chunk pre c (d ∷ suf) s p in
      let there : (s.headers (next_chunk s chunk)).used ≡ d.used =
        ap (λ z. (s.headers z).used) next ∙ ap (λ z. z.used) p.here.3.0 in
      let on_heap : ltb (next_chunk s chunk) s.heap ≡ true =
        ground (arith, next, top, p.here.3.1) in
      let not_null : (next_chunk s chunk == 0) ≡ false = ground (arith, next, p.here.1) in
      rw (not_null, on_heap, there) refl

  -- The loop of `Free` ends, and no block is lost in it.
  pub merge_loop-Hole :
      (rounds chunk : ℕ) (pre : List Header) (c : Header) (suf : List Header) (s : Allocator W)
      → Hole limit cs₀ s₀ chunk pre c suf s
      → length suf < rounds
      → c.used ≡ false
      → (d : Header) × (suf' : List Header) × (s' : Allocator W) × (merge_loop rounds chunk s
          ≡ ok s')
        × Hole limit cs₀ s₀ chunk pre d suf' s'
        × (d.used ≡ false)
  unfolding merge_loop
  merge_loop-Hole zero chunk pre c suf s p enough free = absurd (omega arith)
  merge_loop-Hole (suc rounds) chunk pre c [] s p enough free =
      (c, [], s, rw (can_merge-last chunk pre c s p) refl, p, free)
  merge_loop-Hole (suc rounds) chunk pre c (d ∷ suf) s p enough free =
      let next = can_merge-next chunk pre c d suf s p in
      elim (Bool-cases d.used) [
        | inl used ↦ (c, d ∷ suf, s, rw (next, used) refl, p, free)
        | inr unused ↦
            let q = Hole-merged chunk pre c d suf s p unused in
            let (d', suf', s', ran, q', free') =
              merge_loop-Hole rounds chunk pre (record { size = c.size + d.size; used = c.used })
                suf (set_header chunk (c.size + d.size) c.used s) q (omega arith) free in
            let there : (s.headers (next_chunk s chunk)).size ≡ d.size =
              ap (λ z. (s.headers z).size) (next_of chunk pre c (d ∷ suf) s p)
              ∙ ap (λ z. z.size) p.here.3.0 in
            let same =
              ap₂ (λ y z. set_header chunk y z s)
                (ap₂ (λ y z. y + z) (ap (λ z. z.size) p.here.0) there)
                (ap (λ z. z.used) p.here.0) in
            (d', suf', s', rw (next, unused) (ap (merge_loop rounds chunk) same ∙ ran), q', free')
      ]

  -- A heap whose chunk in the hole is free is valid.
  pub Hole-IsHeap :
      (chunk : ℕ) (pre : List Header) (c : Header) (suf : List Header) (s : Allocator W)
      → Hole limit cs₀ s₀ chunk pre c suf s
      → c.used ≡ false
      → IsHeap limit (pre ++ (c ∷ suf)) s
        × (blocks s.heap_start (pre ++ (c ∷ suf)) ≡ blocks s₀.heap_start cs₀)
  Hole-IsHeap chunk pre c suf s p free =
      let front = Layout-span s.headers s.heap_start pre chunk p.front in
      let top = Layout-span s.headers chunk (c ∷ suf) s.heap p.here in
      (
        record {
          layout = Layout-append s.headers s.heap_start pre (c ∷ suf) chunk s.heap p.front p.here;
          counted = ground (arith, used_bytes-append pre (c ∷ suf), p.counted, p.used_same, free);
          aligned = rw p.start v.aligned;
          not_null = rw p.start v.not_null;
          not_empty = omega (arith, front, top, p.here.1);
          below = p.below;
          bits31 = rw p.start v.bits31;
          bits32 = v.bits32;
        },
        blocks-append s.heap_start pre (c ∷ suf)
            ∙ ap (λ z. blocks s.heap_start pre ++ z)
                (rw free (ap (λ z. blocks (z + c.size) suf) front))
            ∙ p.others,
      )
