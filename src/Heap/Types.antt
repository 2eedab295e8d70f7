-- ===== src/Heap/Types.antt =====
-- The state of `Allocator`, and `MallocHeader`.
use toy_kernel.Base.{
  ℕ, ◌+◌, ◌-◌, ◌%◌, ◌^◌, Bool, false, not, ◌&&◌, ◌||◌, bit_and, ◌==◌, ltb, update, Outcome, ok,
  ◌>>=◌, ◌>>◌, check,
}

-- `MallocHeader`. The size counts the header's own bytes, and has 31 bits.
pub record Header : Type 0 where
  pub size : ℕ
  pub used : Bool

abbrev pub header_size : ℕ
header_size = 4

abbrev pub max_alignment : ℕ
max_alignment = 4

-- The fields of `Allocator`, with the headers by their addresses. `heap` is the top of the heap, and a
-- `heap_end` of 0 stands for no end. `outside` is the state that `sbrk_` works on.
pub record Allocator {ℓ} (W : Type ℓ) : Type ℓ where
  pub heap : ℕ
  pub heap_used : ℕ
  pub heap_start : ℕ
  pub heap_end : ℕ
  pub headers : ℕ → Header
  pub outside : W

-- `SbrkFunc`: the increment and the top of the heap give the new top, or the null pointer.
abbrev pub SbrkFunc {ℓ} : Type ℓ → Type ℓ
SbrkFunc W = (increment heap : ℕ) → W → Outcome (ℕ × W)

-- Writes of one field, and of both. A size is cut off to its 31 bits.
abbrev pub set_header {ℓ} : {W : Type ℓ} → (chunk size : ℕ) → Bool → Allocator W → Allocator W
set_header chunk size used s = record s {
  headers = update s.headers chunk (record { size = size % 2 ^ 31; used = used });
}

-- `NextChunk`
abbrev pub next_chunk {ℓ} : {W : Type ℓ} → Allocator W → ℕ → ℕ
next_chunk s chunk = (chunk + (s.headers chunk).size) % 2 ^ 32

-- The chunk is cut at `n` bytes: the header of the rest is written, then the chunk's own.
abbrev pub split_at {ℓ} :
    {W : Type ℓ} → (chunk n : ℕ) → (used rest_used : Bool) → Allocator W → Allocator W
split_at chunk n used rest_used s =
    set_header chunk n used
      (set_header ((chunk + n) % 2 ^ 32) ((s.headers chunk).size - n) rest_used s)

-- The size of that rest, as its header has it.
abbrev pub rest_size {ℓ} : {W : Type ℓ} → (chunk n : ℕ) → Allocator W → ℕ
rest_size chunk n s = ((s.headers chunk).size - n) % 2 ^ 31

-- `IsPowerOf2` of utils/include/MathUtils.h
unfoldable pub is_power_of_2 : ℕ → Bool
is_power_of_2 x = not (x == 0) && (bit_and x (x - 1) == 0)

-- `InitializeHeap`
unfoldable pub initialize_heap {ℓ} : {W : Type ℓ} → SbrkFunc W → Allocator W → Outcome (Allocator W)
initialize_heap sbrk s = do
  check (s.heap_end == 0 || ltb s.heap_start s.heap_end)
  (heap, outside) ← sbrk 1 s.heap s.outside
  check (ltb s.heap_start heap)
  ok (
      set_header s.heap_start (heap - s.heap_start) false
        (record s { heap = heap; outside = outside }))

-- `Init`. What was in memory at the places of the headers does not matter.
unfoldable pub init {ℓ} :
    {W : Type ℓ} → SbrkFunc W → (heap_start heap_end : ℕ) → (ℕ → Header) → W → Outcome (Allocator W)
unfolding initialize_heap
init sbrk heap_start heap_end memory outside = initialize_heap sbrk (record {
  heap = heap_start;
  heap_used = 0;
  heap_start = heap_start;
  heap_end = heap_end;
  headers = memory;
  outside = outside;
})
