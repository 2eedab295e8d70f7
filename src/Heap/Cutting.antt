-- ===== src/Heap/Cutting.antt =====
-- A chunk of the heap that is cut in two.
use toy_kernel.Base.{
  ℕ, ◌+◌, ◌-◌, ◌%◌, ◌^◌, ◌≤◌, ◌<◌, ◌≡◌, inl, ap, ap₂, subst, ◌∙◌, Bool, List, ◌∷◌, ◌++◌, arith,
  update,
}
use toy_kernel.Heap.Types.{Header, Allocator, split_at}
use toy_kernel.Heap.Chunks.{Layout, used_bytes, blocks, Layout-span, Layout-update}

-- The chunk `c` stands between `pre` and `suf`, and the used chunks of these two are those of `s₀`.
pub record Hole {ℓ} {W : Type ℓ} (limit : ℕ) (cs₀ : List Header) (s₀ : Allocator W) (chunk : ℕ)
    (pre : List Header) (c : Header) (suf : List Header) (s : Allocator W) : Type 0 where
  pub front : Layout s.headers s.heap_start pre chunk
  pub here : Layout s.headers chunk (c ∷ suf) s.heap
  pub start : s.heap_start ≡ s₀.heap_start
  pub used_same : s.heap_used ≡ s₀.heap_used
  pub counted : used_bytes pre + used_bytes suf ≡ s₀.heap_used
  pub others : blocks s.heap_start pre ++ blocks (chunk + c.size) suf ≡ blocks s₀.heap_start cs₀
  pub below : s.heap ≤ limit

-- Both parts of a chunk that is split at `n` bytes, after the headers are written.
pub Layout-two :
    (h : ℕ → Header) (chunk top n : ℕ) (c : Header) (suf : List Header) (u u' : Bool)
    → Layout h chunk (c ∷ suf) top
    → 4 ≤ n
    → n % 4 ≡ 0
    → n + 4 ≤ c.size
    → Layout
        (update
          (update h (chunk + n) (record { size = c.size - n; used = u' }))
          chunk
          (record { size = n; used = u }))
        chunk
        (record { size = n; used = u } ∷ (record { size = c.size - n; used = u' } ∷ suf))
        top
Layout-two h chunk top n c suf u u' l four e fits =
    let d : Header = record { size = c.size - n; used = u' } in
    let a : Header = record { size = n; used = u } in
    let rest : Layout (update (update h (chunk + n) d) chunk a) (chunk + c.size) suf top =
      Layout-update (update h (chunk + n) d) (chunk + c.size) suf top chunk a (inl (omega arith))
        (Layout-update h (chunk + c.size) suf top (chunk + n) d (inl (omega arith)) l.3) in
    (
      ground arith,
      four,
      e,
      (
        ground arith,
        omega arith,
        omega (arith, l.2),
        subst (λ z. Layout (update (update h (chunk + n) d) chunk a) z suf top) (omega arith) rest,
      ),
    )

-- The cut of a chunk in the heap.
pub split_at-Layout {ℓ} :
    {W : Type ℓ} (chunk n : ℕ) (c : Header) (suf : List Header) (u u' : Bool) (s : Allocator W)
    → Layout s.headers chunk (c ∷ suf) s.heap
    → s.heap < 2 ^ 32
    → s.heap < chunk + 2 ^ 31
    → 4 ≤ n
    → n % 4 ≡ 0
    → n + 4 ≤ c.size
    → ((split_at chunk n u u' s).headers
        ≡ update
            (update s.headers (chunk + n) (record { size = c.size - n; used = u' }))
            chunk
            (record { size = n; used = u }))
split_at-Layout chunk n c suf u u' s l b32 b31 four e fits =
    let top = Layout-span s.headers chunk (c ∷ suf) s.heap l in
    let other : (chunk + n) % 2 ^ 32 ≡ chunk + n = omega (arith, top) in
    let rest : ((s.headers chunk).size - n) % 2 ^ 31 ≡ c.size - n =
      omega (arith, top, ap (λ z. z.size) l.0) in
    let whole : n % 2 ^ 31 ≡ n = omega (arith, top) in
    ap (λ z. update z chunk (record { size = n % 2 ^ 31; used = u }))
      (ap₂ (λ z y. update s.headers z (record { size = y; used = u' })) other rest)
    ∙ ap
        (λ z.
          update (update s.headers (chunk + n) (record { size = c.size - n; used = u' })) chunk
            (record { size = z; used = u }))
        whole
