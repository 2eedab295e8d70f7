-- ===== src/Heap/Finding.antt =====
-- The rounds of the loop of `Malloc` up to the chunk that it finds.
use toy_kernel.Base.{
  ℕ, zero, suc, ◌+◌, ◌-◌, ◌%◌, ◌^◌, ◌≤◌, ◌<◌, ◌≡◌, inl, inr, refl, ap, subst, ◌∙◌, Bool, true,
  false, not, ◌&&◌, none, some, List, [], ◌∷◌, length, ◌==◌, ltb, leb, if◌then◌else◌, arith, ok,
  Bool-cases,
}
use toy_kernel.Heap.Types.{Header, Allocator, SbrkFunc, next_chunk}
use toy_kernel.Heap.Malloc.{
  adjust_of, can_use_chunk, take_in, grow, finish_round, next_round, find_chunk,
}
use toy_kernel.Heap.Chunks.{Layout, Layout-span, Layout-aligned}

-- A chunk at a multiple of four needs no adjusting for an alignment of four.
can_use_chunk-four :
    (realsize chunk : ℕ) (c : Header)
    → chunk % 4 ≡ 0
    → can_use_chunk realsize 4 chunk c
      ≡ (if c.used then none else if ltb c.size realsize then none else some 0)
unfolding can_use_chunk adjust_of
can_use_chunk-four realsize chunk c e =
    let none_needed : (4 - (chunk + 4) % 2 ^ 32 % 4) % 4 ≡ 0 = omega arith in rw none_needed refl

-- `sbrk_` answers the request with enough.
pub record Grants {ℓ} {W : Type ℓ} (limit realsize : ℕ) (sbrk : SbrkFunc W) (s : Allocator W)
    : Type ℓ where
  pub heap : ℕ
  pub outside : W
  pub answer : sbrk realsize s.heap s.outside ≡ ok (heap, outside)
  pub enough : s.heap + realsize ≤ heap
  pub within : heap ≤ limit

-- The two ways of a round.
find_chunk-some {ℓ} :
    {W : Type ℓ} (sbrk : SbrkFunc W) (rounds realsize alignment chunk adjust : ℕ) (reached : Bool)
    (s : Allocator W)
    → can_use_chunk realsize alignment chunk (s.headers chunk) ≡ some adjust
    → find_chunk sbrk (suc rounds) realsize alignment chunk reached s ≡ ok (chunk, adjust, s)
unfolding find_chunk
find_chunk-some sbrk rounds realsize alignment chunk adjust reached s e = rw (e, find_chunk) refl

find_chunk-none {ℓ} :
    {W : Type ℓ} (sbrk : SbrkFunc W) (rounds realsize alignment chunk : ℕ) (reached : Bool)
    (s : Allocator W) (chunk' : ℕ) (reached' : Bool) (s' : Allocator W)
    → can_use_chunk realsize alignment chunk (s.headers chunk) ≡ none
    → next_round sbrk realsize chunk reached s ≡ ok (chunk', reached', s')
    → find_chunk sbrk (suc rounds) realsize alignment chunk reached s
      ≡ find_chunk sbrk rounds realsize alignment chunk' reached' s'
unfolding find_chunk
find_chunk-none sbrk rounds realsize alignment chunk reached s chunk' reached' s' e round =
    rw (e, round, find_chunk) refl

next_round-false {ℓ} :
    {W : Type ℓ} (sbrk : SbrkFunc W) (realsize chunk next : ℕ) (ends : Bool) (s : Allocator W)
    → ((s.headers chunk).size == 0) ≡ false
    → next_chunk s chunk ≡ next
    → (next == s.heap) ≡ ends
    → next_round sbrk realsize chunk false s ≡ finish_round sbrk realsize next ends s
unfolding next_round
next_round-false sbrk realsize chunk next ends s e f h = rw (e, f, h) refl

module _ {ℓ} {W : Type ℓ} (limit realsize : ℕ) (sbrk : SbrkFunc W) (s : Allocator W)
    (g : Grants limit realsize sbrk s) (pos : 0 < realsize) (b32 : limit < 2 ^ 32) where
  grow-first_returns :
      s.heap % 4 ≡ 0
      → limit < s.heap + 2 ^ 31
      → (grow sbrk realsize s.heap s ≡ ok (take_in s.heap g.heap g.outside s))
        × ((take_in s.heap g.heap g.outside s).headers s.heap
            ≡ record { size = g.heap - s.heap; used = false })
  unfolding grow
  grow-first_returns e b31 =
      let not_null : (g.heap == 0) ≡ false = ground (arith, g.enough) in
      let more : ltb s.heap g.heap ≡ true = ground (arith, g.enough) in
      let enough : leb realsize (g.heap - s.heap) ≡ true = ground (arith, g.enough) in
      let here : (s.heap == s.heap) ≡ true = ground arith in
      let small : (g.heap - s.heap) % 2 ^ 31 ≡ g.heap - s.heap = omega (arith, g.within) in
      let top : ((s.heap + (g.heap - s.heap) % 2 ^ 31) % 2 ^ 32 == g.heap) ≡ true =
        ground (arith, small, g.enough, g.within) in
      (
        rw (g.answer, not_null, more, enough, here, top) refl,
        rw here (ap (λ z. record { size = z; used = false }) small),
      )

  -- The round after the last chunk, and the one that takes what is new.
  find_new :
      (rounds : ℕ)
      → s.heap % 4 ≡ 0
      → limit < s.heap + 2 ^ 31
      → (s' : Allocator W) × (finish_round sbrk realsize s.heap true s ≡ ok (s.heap, true, s'))
        × (find_chunk sbrk (suc rounds) realsize 4 s.heap true s' ≡ ok (s.heap, 0, s'))
  unfolding finish_round
  find_new rounds e b31 =
      let s' = take_in s.heap g.heap g.outside s in
      let (grew, header) = grow-first_returns e b31 in
      let below : leb s.heap g.heap ≡ true = ground (arith, g.enough) in
      let large : ltb (g.heap - s.heap) realsize ≡ false = ground (arith, g.enough) in
      let found : can_use_chunk realsize 4 s.heap (s'.headers s.heap) ≡ some 0 =
        ap (can_use_chunk realsize 4 s.heap) header
        ∙ can_use_chunk-four realsize s.heap (record { size = g.heap - s.heap; used = false }) e
        ∙ rw large refl in
      (s', rw (grew, below) refl, find_chunk-some sbrk rounds realsize 4 s.heap 0 true s' found)

  -- Where the first chunk does not serve, the next one does, or what the heap grows by.
  later-returns :
      (rounds chunk : ℕ) (c : Header) (suf : List Header)
      → Layout s.headers chunk (c ∷ suf) s.heap
      → s.heap ≤ limit
      → limit < s.heap + 2 ^ 31
      → s.heap % 4 ≡ 0
      → can_use_chunk realsize 4 chunk (s.headers chunk) ≡ none
      → ((d : Header) (suf' : List Header)
          → suf ≡ d ∷ suf'
          → (found : ℕ) × (s' : Allocator W) × (find_chunk sbrk
                (suc rounds)
                realsize
                4
                (chunk + c.size)
                false
                s
              ≡ ok (found, 0, s')))
      → (found : ℕ) × (s' : Allocator W) × (find_chunk sbrk
            (suc (suc rounds))
            realsize
            4
            chunk
            false
            s
          ≡ ok (found, 0, s'))
  unfolding finish_round
  later-returns rounds chunk c [] l below b31 e unusable next_one =
      let size : ((s.headers chunk).size == 0) ≡ false =
        ground (arith, ap (λ z. z.size) l.0, l.1) in
      let next : next_chunk s chunk ≡ s.heap = omega (arith, l.3, ap (λ z. z.size) l.0) in
      let (s', round, found) = find_new rounds e b31 in
      (
        s.heap,
        s',
        find_chunk-none sbrk (suc rounds) realsize 4 chunk false s s.heap true s' unusable
              (next_round-false sbrk realsize chunk s.heap true s size next (ground arith) ∙ round)
            ∙ found,
      )
  later-returns rounds chunk c (d ∷ suf) l below b31 e unusable next_one =
      let size : ((s.headers chunk).size == 0) ≡ false =
        ground (arith, ap (λ z. z.size) l.0, l.1) in
      let top = Layout-span s.headers (chunk + c.size + d.size) suf s.heap l.3.3 in
      let next : next_chunk s chunk ≡ chunk + c.size = omega (arith, top, ap (λ z. z.size) l.0) in
      let more : (chunk + c.size == s.heap) ≡ false = ground (arith, top, l.3.1) in
      let inside : leb (chunk + c.size) s.heap ≡ true = ground (arith, top) in
      let (found, s', rest) = next_one d suf refl in
      (
        found,
        s',
        find_chunk-none sbrk (suc rounds) realsize 4 chunk false s (chunk + c.size) false s unusable
              (next_round-false sbrk realsize chunk (chunk + c.size) false s size next more
                ∙ rw inside refl)
            ∙ rest,
      )

  pub find_chunk-returns :
      (rounds chunk : ℕ) (c : Header) (suf : List Header)
      → Layout s.headers chunk (c ∷ suf) s.heap
      → chunk % 4 ≡ 0
      → s.heap ≤ limit
      → limit < s.heap + 2 ^ 31
      → length suf + 2 ≤ rounds
      → (found : ℕ) × (s' : Allocator W) × (find_chunk sbrk rounds realsize 4 chunk false s
          ≡ ok (found, 0, s'))
  find_chunk-returns zero chunk c suf l e below b31 enough = absurd (omega arith)
  find_chunk-returns (suc zero) chunk c suf l e below b31 enough = absurd (omega arith)
  find_chunk-returns (suc (suc rounds)) chunk c suf l e below b31 enough =
      let usable =
        ap (can_use_chunk realsize 4 chunk) l.0 ∙ can_use_chunk-four realsize chunk c e in
      elim (Bool-cases (not c.used && not (ltb c.size realsize))) [
        | inl fits ↦ (
          chunk,
          s,
          find_chunk-some sbrk (suc rounds) realsize 4 chunk 0 false s
              (usable ∙ ground (arith, fits)),
        )
        | inr fails ↦
            later-returns rounds chunk c suf l below b31
              (Layout-aligned s.headers chunk (c ∷ suf) s.heap l e) (usable ∙ ground (arith, fails))
              (λ d suf' same.
                find_chunk-returns (suc rounds) (chunk + c.size) d suf'
                  (subst (λ z. Layout s.headers (chunk + c.size) z s.heap) same l.3)
                  (omega (arith, l.2)) below b31 (omega (arith, ap length same)))
      ]
