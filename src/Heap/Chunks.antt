-- ===== src/Heap/Chunks.antt =====
-- The chunks that the headers of the heap describe: they follow one another from its start to its top.
use toy_kernel.Base.{
  ℕ, ◌+◌, ◌%◌, ◌^◌, ◌≤◌, ◌<◌, ◌≡◌, ◌⊎◌, inl, inr, ap, subst, ◌∙◌, false, List, [], ◌∷◌, ◌++◌, ◌==◌,
  if◌then◌else◌, arith, update, Bool-cases,
}
use toy_kernel.Heap.Types.{Header, Allocator}

-- `cs` are the chunks from address `a` to address `b`.
abbrev pub Layout : (ℕ → Header) → (a : ℕ) → List Header → (b : ℕ) → Type 0
Layout h a [] b = a ≡ b
Layout h a (c ∷ cs) b = (h a ≡ c) × (4 ≤ c.size) × (c.size % 4 ≡ 0) × Layout h (a + c.size) cs b

abbrev pub span : List Header → ℕ
span [] = 0
span (c ∷ cs) = c.size + span cs

-- The bytes of the used chunks, headers included.
abbrev pub used_bytes : List Header → ℕ
used_bytes [] = 0
used_bytes (c ∷ cs) = (if c.used then c.size else 0) + used_bytes cs

-- The used chunks from address `a` on, by the pointer that `Malloc` gives out and the size.
abbrev pub blocks : (a : ℕ) → List Header → List (ℕ × ℕ)
blocks a [] = []
blocks a (c ∷ cs) =
    let rest = blocks (a + c.size) cs in if c.used then (a + 4, c.size) ∷ rest else rest

-- The heap is valid, and `cs` are its chunks.
pub record IsHeap {ℓ} {W : Type ℓ} (limit : ℕ) (cs : List Header) (s : Allocator W) : Type 0 where
  pub layout : Layout s.headers s.heap_start cs s.heap
  pub counted : s.heap_used ≡ used_bytes cs
  pub aligned : s.heap_start % 4 ≡ 0
  pub not_null : 0 < s.heap_start
  pub not_empty : s.heap_start < s.heap
  pub below : s.heap ≤ limit
  pub bits31 : limit < s.heap_start + 2 ^ 31
  pub bits32 : limit < 2 ^ 32

pub Layout-span :
    (h : ℕ → Header) (a : ℕ) (cs : List Header) (b : ℕ) → Layout h a cs b → a + span cs ≡ b
Layout-span h a [] b l = omega (arith, l)
Layout-span h a (c ∷ cs) b l = omega (arith, Layout-span h (a + c.size) cs b l.3)

pub span-append : (xs ys : List Header) → span (xs ++ ys) ≡ span xs + span ys
span-append [] ys = omega arith
span-append (x ∷ xs) ys = omega (arith, span-append xs ys)

pub used_bytes-append :
    (xs ys : List Header) → used_bytes (xs ++ ys) ≡ used_bytes xs + used_bytes ys
used_bytes-append [] ys = omega arith
used_bytes-append (x ∷ xs) ys = omega (arith, used_bytes-append xs ys)

pub blocks-append :
    (a : ℕ) (xs ys : List Header) → blocks a (xs ++ ys) ≡ blocks a xs ++ blocks (a + span xs) ys
blocks-append a [] ys = ap (λ z. blocks z ys) (omega arith)
blocks-append a (c ∷ xs) ys =
    let moved : blocks (a + c.size + span xs) ys ≡ blocks (a + (c.size + span xs)) ys =
      ap (λ z. blocks z ys) (omega arith) in
    let rest = blocks-append (a + c.size) xs ys ∙ ap (λ z. blocks (a + c.size) xs ++ z) moved in
    elim (Bool-cases c.used) [
      | inl used ↦ rw used (ap (λ z. (a + 4, c.size) ∷ z) rest)
      | inr free ↦ rw free rest
    ]

pub used_bytes_le : (cs : List Header) → used_bytes cs ≤ span cs
used_bytes_le [] = omega arith
used_bytes_le (c ∷ cs) = ground (arith, used_bytes_le cs)

pub Layout-append :
    (h : ℕ → Header) (a : ℕ) (xs ys : List Header) (b c : ℕ)
    → Layout h a xs b
    → Layout h b ys c
    → Layout h a (xs ++ ys) c
Layout-append h a [] ys b c l r = rw l r
Layout-append h a (x ∷ xs) ys b c l r =
    (l.0, l.1, l.2, Layout-append h (a + x.size) xs ys b c l.3 r)

pub Layout-split :
    (h : ℕ → Header) (a : ℕ) (xs ys : List Header) (c : ℕ)
    → Layout h a (xs ++ ys) c
    → Layout h a xs (a + span xs) × Layout h (a + span xs) ys c
Layout-split h a [] ys c l = (omega arith, subst (λ z. Layout h z ys c) (omega arith) l)
Layout-split h a (x ∷ xs) ys c l =
    let (p, q) = Layout-split h (a + x.size) xs ys c l.3 in
    let same : a + x.size + span xs ≡ a + (x.size + span xs) = omega arith in
    (
      (l.0, l.1, l.2, subst (λ z. Layout h (a + x.size) xs z) same p),
      subst (λ z. Layout h z ys c) same q,
    )

pub Layout-aligned :
    (h : ℕ → Header) (a : ℕ) (cs : List Header) (b : ℕ) → Layout h a cs b → a % 4 ≡ 0 → b % 4 ≡ 0
Layout-aligned h a [] b l e = omega (arith, l)
Layout-aligned h a (c ∷ cs) b l e = Layout-aligned h (a + c.size) cs b l.3 (omega (arith, l.2))

-- A write outside of the chunks does not touch their headers.
pub Layout-update :
    (h : ℕ → Header) (a : ℕ) (cs : List Header) (b x : ℕ) (v : Header)
    → (x < a) ⊎ (b ≤ x)
    → Layout h a cs b
    → Layout (update h x v) a cs b
Layout-update h a [] b x v out l = l
Layout-update h a (c ∷ cs) b x v out l =
    let e = Layout-span h (a + c.size) cs b l.3 in
    let apart : (a == x) ≡ false = ground (arith, l.1) in
    let out' : (x < a + c.size) ⊎ (b ≤ x) = elim out [
      | inl p ↦ inl (omega arith)
      | inr q ↦ inr q
    ] in
    (rw apart l.0, l.1, l.2, Layout-update h (a + c.size) cs b x v out' l.3)
