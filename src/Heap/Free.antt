-- ===== src/Heap/Free.antt =====
-- `Free`, `Realloc` and `Calloc`.
use toy_kernel.Base.{
  ℕ, zero, suc, ◌+◌, ◌-◌, ◌*◌, ◌%◌, ◌^◌, Bool, false, not, ◌&&◌, ◌||◌, ◌==◌, ltb, leb,
  if◌then◌else◌, Outcome, ok, stop, ◌>>=◌, ◌>>◌, check,
}
use toy_kernel.Heap.Types.{
  header_size, max_alignment, Allocator, SbrkFunc, set_header, next_chunk, split_at, rest_size,
}
use toy_kernel.Heap.Malloc.{malloc, real_size}

-- `MallocHeader::FromPointer`
abbrev pub from_pointer : ℕ → ℕ
from_pointer ptr = (ptr + (2 ^ 32 - header_size)) % 2 ^ 32

-- The condition of the loop of `Free`: the next chunk is on the heap and not used.
unfoldable pub can_merge {ℓ} : {W : Type ℓ} → (chunk : ℕ) → Allocator W → Bool
can_merge chunk s =
    let other = next_chunk s chunk in
    not (other == 0) && ltb other s.heap && not (s.headers other).used

-- The loop that merges the chunks behind a free one into it. It stops where the rounds run out.
unfoldable pub merge_loop {ℓ} :
    {W : Type ℓ} → (rounds chunk : ℕ) → Allocator W → Outcome (Allocator W)
unfolding can_merge
merge_loop zero chunk s = stop
merge_loop (suc rounds) chunk s =
    let size = (s.headers chunk).size + (s.headers (next_chunk s chunk)).size in
    let rest = merge_loop rounds chunk (set_header chunk size (s.headers chunk).used s) in
    if can_merge chunk s then rest else ok s

-- `Free`
unfoldable pub free {ℓ} : {W : Type ℓ} → (v_addr : ℕ) → Allocator W → Outcome (Allocator W)
unfolding merge_loop
free v_addr s = if v_addr == 0 then ok s else do
  let chunk = from_pointer v_addr
  let size = (s.headers chunk).size
  let s1 = set_header chunk size false s
  check (leb size s.heap_used)
  let s2 = record s1 { heap_used = s.heap_used - size }
  merge_loop (suc (s.heap - s.heap_start)) chunk s2

-- `SlowRealloc`: the new pointer, and the bytes that `memcpy` moves to it.
unfoldable pub slow_realloc {ℓ} :
    {W : Type ℓ} → SbrkFunc W → (ptr size : ℕ) → Allocator W → Outcome (ℕ × ℕ × Allocator W)
slow_realloc sbrk ptr size s = do
  let oldsize = ((s.headers (from_pointer ptr)).size + (2 ^ 32 - header_size)) % 2 ^ 32
  (newptr, s1) ← malloc sbrk size max_alignment s
  check (not (newptr == ptr))
  s2 ← free ptr s1
  ok (newptr, if ltb size oldsize then size else oldsize, s2)

-- The branch of `Realloc` that splits the chunk into two.
unfoldable pub shrink {ℓ} :
    {W : Type ℓ} → (ptr chunk realsize : ℕ) → Allocator W → Outcome (ℕ × ℕ × Allocator W)
shrink ptr chunk realsize s = do
  let left = rest_size chunk realsize s
  check (not (left == 0))
  let s1 = split_at chunk realsize (s.headers chunk).used false s
  ok (ptr, 0, record s1 { heap_used = (s.heap_used + (2 ^ 32 - left)) % 2 ^ 32 })

-- `Realloc`: the pointer, the bytes that are copied to it from the old place, and the state.
unfoldable pub realloc {ℓ} :
    {W : Type ℓ} → SbrkFunc W → (ptr size : ℕ) → Allocator W → Outcome (ℕ × ℕ × Allocator W)
unfolding slow_realloc shrink
realloc sbrk ptr size s = do
  check (leb s.heap_start ptr)
  check (s.heap_end == 0 || ltb ptr s.heap_end)
  if size == 0 then ok (0, 0, s) else do
    let chunk = from_pointer ptr
    let c = s.headers chunk
    check c.used
    let realsize = real_size size max_alignment
    check (realsize % max_alignment == 0)
    let fits = ltb realsize c.size && ltb ((realsize + header_size) % 2 ^ 32) c.size
    if c.size == realsize
        then ok (ptr, 0, s)
        else if fits
        then shrink ptr chunk realsize s
        else slow_realloc sbrk ptr size s

-- `Calloc`, whose product wraps: the pointer and the bytes that are cleared.
unfoldable pub calloc {ℓ} :
    {W : Type ℓ} → SbrkFunc W → (num size : ℕ) → Allocator W → Outcome (ℕ × ℕ × Allocator W)
calloc sbrk num size s = do
  let bytes = num * size % 2 ^ 32
  (ptr, s1) ← malloc sbrk bytes max_alignment s
  ok (ptr, bytes, s1)
