-- ===== src/Heap/Malloc.antt =====
-- `Malloc`
use toy_kernel.Base.{
  ℕ, zero, suc, ◌+◌, ◌-◌, ◌%◌, ◌^◌, max, Bool, true, false, not, ◌||◌, Option, none, some, ◌==◌,
  ltb, leb, if◌then◌else◌, Outcome, ok, stop, ◌>>=◌, ◌>>◌, check,
}
use toy_kernel.Heap.Types.{
  Header, header_size, max_alignment, Allocator, SbrkFunc, set_header, next_chunk, split_at,
  rest_size, is_power_of_2,
}

-- The size of the header and the request, rounded up to the alignment.
unfoldable pub real_size : (size alignment : ℕ) → ℕ
real_size size alignment =
    let realsize = (header_size + size) % 2 ^ 32 in
    let rem = realsize % alignment in
    if rem == 0 then realsize else (realsize + (alignment - rem)) % 2 ^ 32

-- The bytes to leave out at the start of a chunk so that what follows its header is aligned.
unfoldable pub adjust_of : (chunk alignment : ℕ) → ℕ
adjust_of chunk alignment = (alignment - (chunk + header_size) % 2 ^ 32 % alignment) % alignment

-- `CanUseChunk`, with its `adjust` where it returns true.
unfoldable pub can_use_chunk : (realsize alignment chunk : ℕ) → Header → Option ℕ
unfolding adjust_of
can_use_chunk realsize alignment chunk c =
    if c.used
    then none
    else if ltb c.size realsize
    then none
    else (let adjust = adjust_of chunk alignment in
        if adjust == 0
        then some adjust
        else if ltb c.size ((adjust + realsize) % 2 ^ 32)
        then none
        else some adjust)

-- What is new below the top becomes the chunk at the old top, or a part of the last chunk.
abbrev pub take_in {ℓ} : {W : Type ℓ} → (chunk heap : ℕ) → W → Allocator W → Allocator W
take_in chunk heap outside s =
    let increase = heap - s.heap in
    let c = s.headers chunk in
    set_header chunk (if chunk == s.heap then increase else c.size + increase)
      (if chunk == s.heap then false else c.used) (record s { heap = heap; outside = outside })

-- More memory is asked for, and becomes the last chunk or a part of it.
unfoldable pub grow {ℓ} :
    {W : Type ℓ} → SbrkFunc W → (realsize chunk : ℕ) → Allocator W → Outcome (Allocator W)
grow sbrk realsize chunk s = do
  (heap, outside) ← sbrk realsize s.heap s.outside
  check (not (heap == 0))
  check (ltb s.heap heap)
  let increase = heap - s.heap
  check (leb realsize increase)
  check (chunk == s.heap || not (s.headers chunk).used)
  let s1 = take_in chunk heap outside s
  check (next_chunk s1 chunk == heap)
  ok s1

-- The end of a round: the heap grows where its end is reached.
unfoldable pub finish_round {ℓ} :
    {W : Type ℓ}
    → SbrkFunc W
    → (realsize chunk : ℕ) → (reached : Bool) → Allocator W
    → Outcome (ℕ × Bool × Allocator W)
unfolding grow
finish_round sbrk realsize chunk true s = do
  s1 ← grow sbrk realsize chunk s
  check (leb chunk s1.heap)
  ok (chunk, true, s1)
finish_round sbrk realsize chunk false s = do check (leb chunk s.heap); ok (chunk, false, s)

-- One round of the loop that looks for a chunk, after `CanUseChunk` has failed.
unfoldable pub next_round {ℓ} :
    {W : Type ℓ}
    → SbrkFunc W
    → (realsize chunk : ℕ) → (reached : Bool) → Allocator W
    → Outcome (ℕ × Bool × Allocator W)
unfolding finish_round
next_round sbrk realsize chunk reached s = do
  check (not ((s.headers chunk).size == 0))
  let chunk' = if reached then chunk else next_chunk s chunk
  finish_round sbrk realsize chunk' (reached || chunk' == s.heap) s

-- The loop: the chunk, its `adjust` and the state. It stops where the rounds run out.
unfoldable pub find_chunk {ℓ} :
    {W : Type ℓ}
    → SbrkFunc W
    → (rounds realsize alignment chunk : ℕ) → (reached : Bool) → Allocator W
    → Outcome (ℕ × ℕ × Allocator W)
unfolding can_use_chunk next_round
find_chunk sbrk zero realsize alignment chunk reached s = stop
find_chunk sbrk (suc rounds) realsize alignment chunk reached s =
    elim (can_use_chunk realsize alignment chunk (s.headers chunk)) [
      | some adjust ↦ ok (chunk, adjust, s)
      | none ↦ next_round sbrk realsize chunk reached s >>= λ r.
          find_chunk sbrk rounds realsize alignment r.0 r.1 r.2
    ]

-- `if (adjust)`: the start of the chunk is split off.
unfoldable pub split_front {ℓ} :
    {W : Type ℓ} → (chunk adjust : ℕ) → Allocator W → Outcome (ℕ × Allocator W)
split_front chunk adjust s = if adjust == 0 then ok (chunk, s) else do
  check (leb header_size adjust)
  let other = (chunk + adjust) % 2 ^ 32
  check (not (rest_size chunk adjust s == 0))
  ok (other, split_at chunk adjust false (s.headers other).used s)

-- The chunk is taken, and what it has too much is split off.
unfoldable pub take_chunk {ℓ} :
    {W : Type ℓ} → (chunk realsize : ℕ) → Allocator W → Outcome (Allocator W)
take_chunk chunk realsize s =
    let size = (s.headers chunk).size in
    if size == realsize
    then ok (set_header chunk size true s)
    else if ltb (size - realsize) header_size
    then ok (set_header chunk size true s)
    else do check (not (rest_size chunk realsize s == 0)); ok (split_at chunk realsize true false s)

-- The end of `Malloc`: the chunk is taken and counted, and its pointer given out.
unfoldable pub give_out {ℓ} :
    {W : Type ℓ} → (chunk realsize alignment : ℕ) → Allocator W → Outcome (ℕ × Allocator W)
unfolding take_chunk
give_out chunk realsize alignment s = do
  check (leb realsize (s.headers chunk).size)
  s1 ← take_chunk chunk realsize s
  let s2 = record s1 { heap_used = (s1.heap_used + (s1.headers chunk).size) % 2 ^ 32 }
  let ptr = (chunk + header_size) % 2 ^ 32
  check (ptr % alignment == 0)
  ok (ptr, s2)

-- The rounds that reach the end of the heap from its start, and two more.
abbrev pub find_rounds {ℓ} : {W : Type ℓ} → Allocator W → ℕ
find_rounds s = s.heap - s.heap_start + 3

-- `Malloc` with an alignment. 0 is the null pointer.
unfoldable pub malloc {ℓ} :
    {W : Type ℓ} → SbrkFunc W → (size alignment : ℕ) → Allocator W → Outcome (ℕ × Allocator W)
unfolding real_size find_chunk split_front give_out
malloc sbrk size requested s = do
  check (is_power_of_2 requested)
  if size == 0 then ok (0, s) else do
    let alignment = max requested max_alignment
    let realsize = real_size size alignment
    check (realsize % alignment == 0)
    (found, adjust, s1) ← find_chunk sbrk (find_rounds s) realsize alignment s.heap_start false s
    (chunk, s2) ← split_front found adjust s1
    give_out chunk realsize alignment s2
