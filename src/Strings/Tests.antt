-- ===== src/Strings/Tests.antt =====
-- The string functions on concrete bytes.
use toy_kernel.Base.{ℕ, ◌+◌, ◌<◌, ◌≡◌, refl, List, [], ◌∷◌, take, ok, arith, inr}
use toy_kernel.Strings.{Memory, memcpy, memmove, strncpy, strcmp, memcmp}
use toy_kernel.Strings.Compare.{Decides, memcmp-take}
use toy_kernel.Strings.Copy.{Outside, memmove_lem, IsCopied, strncpy-IsCopied}

-- Two equal bytes, with different bytes behind them.
test_memcmp : memcmp 2 (1 ∷ 2 ∷ 9 ∷ []) (1 ∷ 2 ∷ 4 ∷ []) ≡ ok 5
unfolding memcmp
test_memcmp = refl

test_strcmp : strcmp (b'a' ∷ 0 ∷ []) (b'b' ∷ 0 ∷ []) ≡ ok 4294967295
unfolding strcmp
test_strcmp = refl

-- The memory that holds at each address the address.
abbrev counting : Memory
counting p = p

test_memmove : memmove 100 11 10 3 counting 13 ≡ 12
unfolding memmove memcpy
test_memmove = refl

abbrev left : List ℕ
left = 1 ∷ 2 ∷ 9 ∷ []

abbrev right : List ℕ
right = 1 ∷ 2 ∷ 4 ∷ []

memcmp-take_example : Decides (memcmp 2 left right) (take 3 left ≡ take 3 right)
memcmp-take_example =
    memcmp-take 2 left right (omega arith) (omega arith) (omega arith) (omega arith)

memmove_lem_example :
    ((i : ℕ) → i < 3 → memmove 100 11 10 3 counting (11 + i) ≡ counting (10 + i))
    × ((q : ℕ) → Outside 11 3 q → Outside 100 3 q → memmove 100 11 10 3 counting q ≡ counting q)
memmove_lem_example = memmove_lem 100 11 10 3 counting (inr (omega arith)) (inr (omega arith))

strncpy-IsCopied_example :
    (m' : Memory) × (strncpy 10 (b'a' ∷ b'b' ∷ 0 ∷ 7 ∷ []) 4 counting ≡ ok (14, m'))
    × IsCopied 10 (b'a' ∷ b'b' ∷ []) 4 counting m'
strncpy-IsCopied_example = strncpy-IsCopied 10 (b'a' ∷ b'b' ∷ []) (7 ∷ []) 4 counting (omega arith)
