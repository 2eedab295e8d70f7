-- ===== src/Strings.antt =====
-- The memory and string functions of libc/string.cpp. Memory is a function from addresses to bytes; a
-- pointer that is only read through is the list of the bytes from it on, and a read behind the end of
-- the list is a stop.
pub mod Compare
pub mod Copy
mod Tests
use toy_kernel.Base.{
  ℕ, zero, suc, ◌+◌, ◌-◌, ◌%◌, ◌^◌, Bool, ◌&&◌, not, List, [], ◌∷◌, update, ◌==◌, ltb,
  if◌then◌else◌, Outcome, ok, stop, ◌>>=◌,
}

abbrev pub Memory : Type 0
Memory = ℕ → ℕ

-- The `int` that is the difference of two numbers, by its bits.
abbrev pub difference : (a b : ℕ) → ℕ
difference a b = (a + 2 ^ 32 - b) % 2 ^ 32

-- `memset`
unfoldable pub memset : (ptr value size : ℕ) → Memory → Memory
memset ptr value zero m = m
memset ptr value (suc size) m = memset (ptr + 1) value size (update m ptr (value % 2 ^ 8))

-- `memcpy`
unfoldable pub memcpy : (dst src num : ℕ) → Memory → Memory
memcpy dst src zero m = m
memcpy dst src (suc num) m = memcpy (dst + 1) (src + 1) num (update m dst (m src))

-- `memmove`, with the address of the chunk that `malloc` gives. What `malloc` and `free` write outside the
-- chunk, in the headers of the heap, is left out.
unfoldable pub memmove : (temp dst src size : ℕ) → Memory → Memory
unfolding memcpy
memmove temp dst src size m = if size == 0 then m else memcpy dst temp size (memcpy temp src size m)

-- `strlen`
unfoldable pub strlen : List ℕ → Outcome ℕ
strlen [] = stop
strlen (c ∷ cs) = elim c [ zero ↦ ok 0 | suc n ↦ strlen cs >>= λ len. ok (suc len) ]

-- The loops of `strncpy`: the copy of the characters, and the zeros behind them.
unfoldable pub copy_chars : (cpy dst : ℕ) → List ℕ → Memory → Memory
copy_chars zero dst src m = m
copy_chars (suc cpy) dst [] m = m
copy_chars (suc cpy) dst (c ∷ cs) m = copy_chars cpy (dst + 1) cs (update m dst c)

-- `strncpy`: the pointer that it returns, and the memory.
unfoldable pub strncpy : (dst : ℕ) → List ℕ → (num : ℕ) → Memory → Outcome (ℕ × Memory)
unfolding copy_chars memset
strncpy dst src num m = do
  len ← strlen src
  let cpy = if ltb len num then len else num
  ok (dst + cpy + (num - cpy), memset (dst + cpy) 0 (num - cpy) (copy_chars cpy dst src m))

-- `strcmp`, on the bits of the characters, which have a sign.
abbrev pub extend : ℕ → ℕ
extend c = if ltb c 128 then c else c + 2 ^ 32 - 2 ^ 8

unfoldable pub strcmp : (s1 s2 : List ℕ) → Outcome ℕ
strcmp [] s2 = stop
strcmp (c ∷ cs) [] = stop
strcmp (c ∷ cs) (d ∷ ds) =
    let rest = strcmp cs ds in
    if not (c == 0) && c == d then rest else ok (difference (extend c) (extend d))

-- `memcmp`
unfoldable pub memcmp : (size : ℕ) → (lhs rhs : List ℕ) → Outcome ℕ
memcmp size [] rhs = stop
memcmp size (v ∷ vs) [] = stop
memcmp zero (v ∷ vs) (w ∷ ws) = ok (difference v w)
memcmp (suc size) (v ∷ vs) (w ∷ ws) =
    let rest = memcmp size vs ws in if v == w then rest else ok (difference v w)
