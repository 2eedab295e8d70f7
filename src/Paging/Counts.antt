-- ===== src/Paging/Counts.antt =====
-- How many page directory entries map a frame, and the sum over the directories in use.
use toy_kernel.Base.{
  ℕ, zero, suc, ◌+◌, ◌≤◌, ◌<◌, ◌≡◌, refl, true, false, ◌&&◌, ◌==◌, arith, if◌then◌else◌, Bool-cases,
  inl, inr, ==_iff,
}
use toy_kernel.Bitmap.{BitArray, is_set}
use toy_kernel.Paging.Types.{
  PageDirectory, Paging, update, is_present, page_index_4m, num_page_dirs, num_page_dir_entries,
}

-- 1 if the entry maps the frame, else 0.
abbrev pub maps : (pde frame : ℕ) → ℕ
maps pde frame = if is_present pde && (page_index_4m pde == frame) then 1 else 0

unfoldable pub count_entries : (rounds i : ℕ) → PageDirectory → ℕ → ℕ
count_entries zero i pd f = 0
count_entries (suc rounds) i pd f = maps (pd i) f + count_entries rounds (suc i) pd f

-- The entries of a directory that map the frame.
abbrev pub mapped : PageDirectory → ℕ → ℕ
mapped pd f = count_entries num_page_dir_entries 0 pd f

unfoldable pub count_dirs : (rounds bit : ℕ) → BitArray → (ℕ → PageDirectory) → ℕ → ℕ
count_dirs zero bit region dirs f = 0
count_dirs (suc rounds) bit region dirs f =
    (if is_set region bit then mapped (dirs bit) f else 0)
    + count_dirs rounds (suc bit) region dirs f

-- The same over all directories: the kernel's and those in use.
unfoldable pub mappings : Paging → ℕ → ℕ
mappings s f = mapped s.kernel_dir f + count_dirs num_page_dirs 0 s.region s.dirs f

count_entries-below :
    (rounds i k v : ℕ) (pd : PageDirectory) (f : ℕ)
    → k < i
    → count_entries rounds i (update pd k v) f ≡ count_entries rounds i pd f
unfolding count_entries
count_entries-below zero i k v pd f h = refl
count_entries-below (suc rounds) i k v pd f h =
    ground (arith, count_entries-below rounds (suc i) k v pd f)

count_entries-update :
    (rounds i k v : ℕ) (pd : PageDirectory) (f : ℕ)
    → i ≤ k
    → k < i + rounds
    → count_entries rounds i (update pd k v) f + maps (pd k) f
      ≡ count_entries rounds i pd f + maps v f
unfolding count_entries
count_entries-update zero i k v pd f lo hi = absurd (omega arith)
count_entries-update (suc rounds) i k v pd f lo hi = elim (Bool-cases (i == k)) [
  | inl e ↦ here ((==_iff i k).0 e)
  | inr ne ↦
      rw ne
        (omega (arith, count_entries-update rounds (suc i) k v pd f (ground arith) (omega arith)))
]
  where
    here :
        i ≡ k
        → maps (update pd k v i) f + count_entries rounds (suc i) (update pd k v) f + maps (pd k) f
          ≡ maps (pd i) f + count_entries rounds (suc i) pd f + maps v f
    here e =
        let new : update pd k v i ≡ v = ground arith in
        rw (new, e) (omega (arith, count_entries-below rounds (suc k) k v pd f (omega arith)))

-- A new value of one entry.
pub mapped-update :
    (k v : ℕ) (pd : PageDirectory) (f : ℕ)
    → k < num_page_dir_entries
    → mapped (update pd k v) f + maps (pd k) f ≡ mapped pd f + maps v f
mapped-update k v pd f lt = count_entries-update num_page_dir_entries 0 k v pd f (omega arith) lt

module _ (r r' : BitArray) (dirs dirs' : ℕ → PageDirectory) (f : ℕ) where
  count_dirs-agree :
      (rounds bit : ℕ)
      → ((j : ℕ) → bit ≤ j → is_set r' j ≡ is_set r j)
      → ((j : ℕ) → bit ≤ j → dirs' j ≡ dirs j)
      → count_dirs rounds bit r' dirs' f ≡ count_dirs rounds bit r dirs f
  unfolding count_dirs
  count_dirs-agree zero bit same_r same_d = refl
  count_dirs-agree (suc rounds) bit same_r same_d = rw (
    same_r bit (omega arith),
    same_d bit (omega arith),
    count_dirs-agree rounds (suc bit) (λ j h. same_r j (omega arith))
        (λ j h. same_d j (omega arith)),
  )

  -- What a directory adds to the sum.
  abbrev pub share : BitArray → (ℕ → PageDirectory) → ℕ → ℕ
  share reg ds n = if is_set reg n then mapped (ds n) f else 0

  -- A change of one directory, or of whether it is in use.
  pub count_dirs-change :
      (rounds bit n : ℕ)
      → bit ≤ n
      → n < bit + rounds
      → ((j : ℕ) → (n == j) ≡ false → is_set r' j ≡ is_set r j)
      → ((j : ℕ) → (n == j) ≡ false → dirs' j ≡ dirs j)
      → count_dirs rounds bit r' dirs' f + share r dirs n
        ≡ count_dirs rounds bit r dirs f + share r' dirs' n
  unfolding count_dirs
  count_dirs-change zero bit n lo hi same_r same_d = absurd (omega arith)
  count_dirs-change (suc rounds) bit n lo hi same_r same_d = elim (Bool-cases (n == bit)) [
    | inl e ↦ here ((==_iff n bit).0 e)
    | inr ne ↦
        rw (same_r bit ne, same_d bit ne)
          (omega (
            arith,
            count_dirs-change rounds (suc bit) n (ground arith) (omega arith) same_r same_d,
          ))
  ]
    where
      here :
          n ≡ bit
          → share r' dirs' bit + count_dirs rounds (suc bit) r' dirs' f + share r dirs n
            ≡ share r dirs bit + count_dirs rounds (suc bit) r dirs f + share r' dirs' n
      here e = rw e (
          omega (
            arith,
            count_dirs-agree rounds (suc bit) (λ j h. same_r j (ground arith))
                (λ j h. same_d j (ground arith)),
          ))

-- A directory's part of the sum.
pub share-le :
    (r : BitArray) (dirs : ℕ → PageDirectory) (f rounds bit n : ℕ)
    → bit ≤ n
    → n < bit + rounds
    → is_set r n ≡ true
    → mapped (dirs n) f ≤ count_dirs rounds bit r dirs f
unfolding count_dirs
share-le r dirs f zero bit n lo hi on = absurd (omega arith)
share-le r dirs f (suc rounds) bit n lo hi on = elim (Bool-cases (bit == n)) [
  | inl e ↦ here ((==_iff bit n).0 e)
  | inr ne ↦ omega (arith, share-le r dirs f rounds (suc bit) n (ground arith) (omega arith) on)
]
  where
    here :
        bit ≡ n
        → mapped (dirs n) f
          ≤ (if is_set r bit then mapped (dirs bit) f else 0) + count_dirs rounds (suc bit) r dirs f
    here e = rw (e, on) (omega arith)

pub count_entries-le :
    (rounds i : ℕ) (pd : PageDirectory) (f : ℕ) → count_entries rounds i pd f ≤ rounds
unfolding count_entries
count_entries-le zero i pd f = omega arith
count_entries-le (suc rounds) i pd f = ground (arith, count_entries-le rounds (suc i) pd f)
