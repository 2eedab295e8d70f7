-- ===== src/Strings/Copy.antt =====
-- `memset`, `memcpy`, `memmove` and `strncpy`: what is at each address after them.
use toy_kernel.Base.{
  ℕ, zero, suc, ◌+◌, ◌-◌, ◌%◌, ◌^◌, ◌≤◌, ◌<◌, ◌≡◌, refl, sym, ap, ◌∙◌, List, [], ◌∷◌, ◌++◌, length,
  get_elem?, some, update, ◌==◌, ltb, Bool-cases, ok, arith, ◌⊎◌, inl, inr,
}
use toy_kernel.Strings.{Memory, memset, memcpy, memmove, strlen, copy_chars, strncpy}
use toy_kernel.Strings.Compare.{AllText}

-- `q` is none of the `size` addresses from `p` on.
abbrev pub Outside : (p size q : ℕ) → Type 0
Outside p size q = (q < p) ⊎ (p + size ≤ q)

update-at : (m : Memory) (p v : ℕ) → update m p v p ≡ v
update-at m p v = ground arith

update-apart : (m : Memory) (p v q : ℕ) → ¬ (q ≡ p) → update m p v q ≡ m q
update-apart m p v q h = ground arith

pub memcpy-Outside :
    (dst src num : ℕ) (m : Memory) (q : ℕ) → Outside dst num q → memcpy dst src num m q ≡ m q
unfolding memcpy
memcpy-Outside dst src zero m q o = refl
memcpy-Outside dst src (suc num) m q o =
    memcpy-Outside (dst + 1) (src + 1) num (update m dst (m src)) q (omega arith)
    ∙ update-apart m dst (m src) q (omega arith)

pub memcpy-inside :
    (dst src num : ℕ) (m : Memory) (i : ℕ)
    → (dst + num ≤ src) ⊎ (src + num ≤ dst)
    → i < num
    → memcpy dst src num m (dst + i) ≡ m (src + i)
unfolding memcpy
memcpy-inside dst src zero m i apart h = absurd (omega arith)
memcpy-inside dst src (suc num) m zero apart h =
    let at_dst : dst + 0 ≡ dst = omega arith in
    let at_src : src + 0 ≡ src = omega arith in
    memcpy-Outside (dst + 1) (src + 1) num (update m dst (m src)) (dst + 0) (omega arith)
    ∙ rw at_dst (rw at_src (update-at m dst (m src)))
memcpy-inside dst src (suc num) m (suc i) apart h =
    let at_dst : dst + suc i ≡ dst + 1 + i = omega arith in
    let at_src : src + suc i ≡ src + 1 + i = omega arith in
    rw at_dst (
      rw at_src (
        memcpy-inside (dst + 1) (src + 1) num (update m dst (m src)) i (omega arith) (omega arith)
        ∙ update-apart m dst (m src) (src + 1 + i) (omega arith)))

-- `memmove`, for any overlap of the two ranges, with a chunk from `malloc` that is apart from both:
-- the bytes that were in the source range are in the destination range, in their order, and every
-- byte outside the destination range and the chunk is as it was.
pub memmove_lem :
    (temp dst src size : ℕ) (m : Memory)
    → (temp + size ≤ src) ⊎ (src + size ≤ temp)
    → (temp + size ≤ dst) ⊎ (dst + size ≤ temp)
    → ((i : ℕ) → i < size → memmove temp dst src size m (dst + i) ≡ m (src + i))
      × ((q : ℕ) → Outside dst size q → Outside temp size q → memmove temp dst src size m q ≡ m q)
unfolding memmove
memmove_lem temp dst src size m apart_src apart_dst = elim (Bool-cases (size == 0)) [
  | inl e ↦
      let none_there : size ≡ 0 = ground arith in
      rw e ((λ i h. absurd (omega arith)), λ q o1 o2. refl)
  | inr e ↦ rw e (
    (λ i h.
        memcpy-inside dst temp size (memcpy temp src size m) i (omega arith) h
        ∙ memcpy-inside temp src size m i apart_src h),
    λ q o1 o2.
        memcpy-Outside dst temp size (memcpy temp src size m) q o1
        ∙ memcpy-Outside temp src size m q o2,
  )
]

memset-Outside :
    (ptr value size : ℕ) (m : Memory) (q : ℕ) → Outside ptr size q → memset ptr value size m q ≡ m q
unfolding memset
memset-Outside ptr value zero m q o = refl
memset-Outside ptr value (suc size) m q o =
    memset-Outside (ptr + 1) value size (update m ptr (value % 2 ^ 8)) q (omega arith)
    ∙ update-apart m ptr (value % 2 ^ 8) q (omega arith)

memset-inside :
    (ptr value size : ℕ) (m : Memory) (q : ℕ)
    → ptr ≤ q
    → q < ptr + size
    → memset ptr value size m q ≡ value % 2 ^ 8
unfolding memset
memset-inside ptr value zero m q low high = absurd (omega arith)
memset-inside ptr value (suc size) m q low high = elim (Bool-cases (q == ptr)) [
  | inl e ↦
      let here : q ≡ ptr = ground arith in
      memset-Outside (ptr + 1) value size (update m ptr (value % 2 ^ 8)) q (omega arith)
      ∙ rw here (update-at m ptr (value % 2 ^ 8))
  | inr e ↦
      let apart : ¬ (q ≡ ptr) = ground arith in
      memset-inside (ptr + 1) value size (update m ptr (value % 2 ^ 8)) q (omega arith)
        (omega arith)
]

copy_chars-Outside :
    (cpy dst : ℕ) (cs : List ℕ) (m : Memory) (q : ℕ)
    → Outside dst cpy q
    → copy_chars cpy dst cs m q ≡ m q
unfolding copy_chars
copy_chars-Outside zero dst cs m q o = refl
copy_chars-Outside (suc cpy) dst [] m q o = refl
copy_chars-Outside (suc cpy) dst (c ∷ cs) m q o =
    copy_chars-Outside cpy (dst + 1) cs (update m dst c) q (omega arith)
    ∙ update-apart m dst c q (omega arith)

copy_chars-inside :
    (cpy dst : ℕ) (s behind : List ℕ) (m : Memory) (i : ℕ)
    → i < cpy
    → cpy ≤ length s
    → get_elem? s i ≡ some (copy_chars cpy dst (s ++ behind) m (dst + i))
unfolding copy_chars
copy_chars-inside zero dst s behind m i h fits = absurd (omega arith)
copy_chars-inside (suc cpy) dst [] behind m i h fits = absurd (omega arith)
copy_chars-inside (suc cpy) dst (c ∷ cs) behind m zero h fits =
    let at_dst : dst + 0 ≡ dst = omega arith in
    ap some (
      sym (
        copy_chars-Outside cpy (dst + 1) (cs ++ behind) (update m dst c) (dst + 0) (omega arith)
        ∙ rw at_dst (update-at m dst c)))
copy_chars-inside (suc cpy) dst (c ∷ cs) behind m (suc i) h fits =
    let at_dst : dst + suc i ≡ dst + 1 + i = omega arith in
    rw at_dst
      (copy_chars-inside cpy (dst + 1) cs behind (update m dst c) i (omega arith) (omega arith))

pub strlen-length : (s behind : List ℕ) → AllText s → strlen (s ++ 0 ∷ behind) ≡ ok (length s)
unfolding strlen
strlen-length [] behind w = refl
strlen-length (zero ∷ cs) behind w = absurd (omega (arith, w.0))
strlen-length (suc c ∷ cs) behind w = let (_, _, text) = w in rw (strlen-length cs behind text) refl

-- The memory that `strncpy` is to leave: the first `num` characters of the string, zeros behind them
-- up to `num`, and the rest as it was.
pub record IsCopied (dst : ℕ) (s : List ℕ) (num : ℕ) (m m' : Memory) : Type 0 where
  pub chars : (i : ℕ) → i < num → i < length s → get_elem? s i ≡ some (m' (dst + i))
  pub zeros : (i : ℕ) → i < num → length s ≤ i → m' (dst + i) ≡ 0
  pub others : (q : ℕ) → Outside dst num q → m' q ≡ m q

copied :
    (dst cpy num : ℕ) (s behind : List ℕ) (m : Memory)
    → cpy ≤ num
    → cpy ≤ length s
    → (cpy ≡ length s) ⊎ (cpy ≡ num)
    → IsCopied dst s num m (memset (dst + cpy) 0 (num - cpy) (copy_chars cpy dst (s ++ behind) m))
copied dst cpy num s behind m le fits either = record {
  chars = λ i h1 h2.
      copy_chars-inside cpy dst s behind m i (omega arith) fits
      ∙ ap some (sym (memset-Outside (dst + cpy) 0 (num - cpy) _ (dst + i) (omega arith)));
  zeros =
      λ i h1 h2. memset-inside (dst + cpy) 0 (num - cpy) _ (dst + i) (omega arith) (omega arith);
  others = λ q o.
      memset-Outside (dst + cpy) 0 (num - cpy) _ q (omega arith)
      ∙ copy_chars-Outside cpy dst (s ++ behind) m q (omega arith);
}

-- `strncpy` of a string, with any bytes behind its null character, returns: it has written the first
-- `num` characters of the string, padded with zeros, and no other byte. The pointer that it returns is
-- `num` bytes behind the destination.
pub strncpy-IsCopied :
    (dst : ℕ) (s behind : List ℕ) (num : ℕ) (m : Memory)
    → AllText s
    → (m' : Memory) × (strncpy dst (s ++ 0 ∷ behind) num m ≡ ok (dst + num, m'))
      × IsCopied dst s num m m'
unfolding strncpy
strncpy-IsCopied dst s behind num m w = rw (strlen-length s behind w) (
    let after : ℕ → Memory =
      λ cpy. memset (dst + cpy) 0 (num - cpy) (copy_chars cpy dst (s ++ 0 ∷ behind) m) in
    elim (Bool-cases (ltb (length s) num)) [
      | inl e ↦
          let less : length s < num = ground arith in
          let past : dst + length s + (num - length s) ≡ dst + num = omega arith in
          rw e (
            after (length s),
            ap (λ p. ok (p, after (length s))) past,
            copied dst (length s) num s (0 ∷ behind) m (omega arith) (omega arith) (inl refl),
          )
      | inr e ↦
          let le : num ≤ length s = ground arith in
          let past : dst + num + (num - num) ≡ dst + num = omega arith in
          rw e (
            after num,
            ap (λ p. ok (p, after num)) past,
            copied dst num num s (0 ∷ behind) m (omega arith) le (inr refl),
          )
    ])
