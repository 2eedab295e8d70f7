-- ===== src/Paging/Mapping.antt =====
-- What a page that `AddPage` has mapped leads to, in every address space that has it.
use toy_kernel.Base.{
  ℕ, ◌+◌, ◌%◌, ◌^◌, ◌<◌, ◌≡◌, refl, sym, ap, subst, ◌∙◌, Bool, true, ◌&&◌, ◌==◌, arith,
  if◌then◌else◌, Bool-cases, inl, inr, ok, ok-inj,
}
use toy_kernel.Bitmap.{is_set}
use toy_kernel.Paging.Types.{
  PhysicalBitmap, Directory, kernel, slot, Paging, dir_at, set_entry, is_kernel_page_dir, is_shared,
  page_index_4m, page_size_4m, num_page_dirs,
}
use toy_kernel.Paging.Spaces.{make_entry, add_page, get_physical_addr}
use toy_kernel.Paging.Entries.{is_present-make_entry, frame-make_entry}
use toy_kernel.Paging.Invariant.{IsLive, IsCounted}
use toy_kernel.Paging.Sharing.{share_added-Shared, share_added-no_fewer}
use toy_kernel.Paging.AddPage.{add_page-Added, AreWords, add_page-IsCounted, written-refs}

module _ (d : Directory) (i pde : ℕ) (b : PhysicalBitmap) (s : Paging) where
  pub dir_at-set_entry :
      (j : ℕ) → dir_at d (set_entry d i pde b s) j ≡ (if j == i then pde else dir_at d s j)
  dir_at-set_entry j = by_directory d
    where
      by_directory :
          (d' : Directory)
          → dir_at d' (set_entry d' i pde b s) j ≡ (if j == i then pde else dir_at d' s j)
      by_directory kernel = refl
      by_directory (slot n) = ground arith

pub is_kernel : (d : Directory) → is_kernel_page_dir d ≡ true → d ≡ kernel
is_kernel kernel h = refl
is_kernel (slot n) h = cc

module _ (d : Directory) (v_addr p_addr flags : ℕ) (reuse : Bool) (s s' : Paging)
    (h : add_page d v_addr p_addr flags reuse s ≡ ok s') where
  -- After `AddPage` the directory has the new entry at the page's index, and its other entries are
  -- as before.
  pub add_page-entry :
      (j : ℕ)
      → dir_at d s' j
        ≡ (if j == page_index_4m v_addr then make_entry p_addr flags else dir_at d s j)
  add_page-entry j =
      let a = add_page-Added d v_addr p_addr flags reuse s s' h in
      let i = page_index_4m v_addr in
      let pde = make_entry p_addr flags in
      elim (Bool-cases (is_kernel_page_dir d && is_shared v_addr)) [
        | inr one ↦
            sym (ap (λ t. dir_at d t j) (ok-inj (rw one at a.shared)))
            ∙ dir_at-set_entry d i pde a.frames s j
        | inl all ↦
            let w =
              share_added-Shared i pde (page_index_4m p_addr) num_page_dirs 0
                (set_entry d i pde a.frames s) s' refl (rw all at a.shared) in
            let k : d ≡ kernel = is_kernel d (ground arith) in
            subst
              (λ e.
                dir_at e (set_entry d i pde a.frames s) j ≡ (if j == i then pde else dir_at e s j)
                → dir_at e s' j ≡ (if j == i then pde else dir_at e s j))
              (sym k) (λ q. ap (λ f. f j) w.kernel_dir ∙ q) (dir_at-set_entry d i pde a.frames s j)
      ]

-- A page of the kernel's part that `AddPage` maps in the kernel's directory, by a call that returns: the
-- kernel's directory has the entry for the physical address and the flags at the page's index and its
-- other entries are as before, every directory in use has the same entry at that index and its other
-- entries are as before, the directories that are not in use do not change, and none comes into use.
pub add_page-shares :
    (v_addr p_addr flags : ℕ) (reuse : Bool) (s s' : Paging)
    → is_shared v_addr ≡ true
    → add_page kernel v_addr p_addr flags reuse s ≡ ok s'
    → (s'.region ≡ s.region)
      × ((i : ℕ)
          → s'.kernel_dir i
            ≡ (if i == page_index_4m v_addr then make_entry p_addr flags else s.kernel_dir i))
      × ((n i : ℕ)
          → n < num_page_dirs
          → s'.dirs n i ≡ (
              if is_set s.region n && (page_index_4m v_addr == i)
              then s'.kernel_dir i
              else s.dirs n i))
add_page-shares v_addr p_addr flags reuse s s' shared h =
    let a = add_page-Added kernel v_addr p_addr flags reuse s s' h in
    let i = page_index_4m v_addr in
    let pde = make_entry p_addr flags in
    let w =
      share_added-Shared i pde (page_index_4m p_addr) num_page_dirs 0
        (set_entry kernel i pde a.frames s) s' refl (rw shared at a.shared) in
    (
      w.region,
      add_page-entry kernel v_addr p_addr flags reuse s s' h,
      λ n j lt.
          ground (arith, w.dirs n j lt, add_page-entry kernel v_addr p_addr flags reuse s s' h j),
    )

module _ (d : Directory) (v_addr p_addr flags : ℕ) (reuse : Bool) (s s' : Paging)
    (words : AreWords v_addr p_addr flags)
    (room : s.frames.refs (page_index_4m p_addr) + (num_page_dirs + 1) < 2 ^ 16)
    (h : add_page d v_addr p_addr flags reuse s ≡ ok s') where
  referenced : 0 < s'.frames.refs (page_index_4m p_addr)
  referenced =
      let a = add_page-Added d v_addr p_addr flags reuse s s' h in
      let up = written-refs d v_addr p_addr flags reuse s s' words room a in
      elim (Bool-cases (is_kernel_page_dir d && is_shared v_addr)) [
        | inr one ↦ omega (
          arith,
          up,
          ap (λ t. t.frames.refs (page_index_4m p_addr)) (ok-inj (rw one at a.shared)),
        )
        | inl all ↦ omega (
          arith,
          up,
          share_added-no_fewer (page_index_4m v_addr) (make_entry p_addr flags)
              (page_index_4m p_addr) num_page_dirs 0
              (set_entry d (page_index_4m v_addr) (make_entry p_addr flags) a.frames s) s'
              (omega (arith, up)) (rw all at a.shared),
        )
      ]

  -- After `AddPage` maps a page in a directory in use, `GetPhysicalAddr` of that page in that directory
  -- returns the physical address that was given.
  pub get_physical_addr-add_page :
      {reserved : ℕ → ℕ}
      → IsLive d s
      → IsCounted reserved s
      → get_physical_addr d v_addr s' ≡ ok p_addr
  unfolding get_physical_addr
  get_physical_addr-add_page {reserved} live v =
      let a = add_page-Added d v_addr p_addr flags reuse s s' h in
      let w = add_page-IsCounted d v_addr p_addr flags reuse s s' words room reserved live v h in
      let entry : dir_at d s' (page_index_4m v_addr) ≡ make_entry p_addr flags =
        ground (arith, add_page-entry d v_addr p_addr flags reuse s s' h (page_index_4m v_addr)) in
      let present = is_present-make_entry p_addr flags a.p_aligned words.p_word words.flags_byte in
      let frame = frame-make_entry p_addr flags a.p_aligned words.p_word words.flags_byte in
      let used : is_set s'.frames.bits (page_index_4m p_addr) ≡ true = ground (
        arith,
        referenced,
        w.tracked.counted (page_index_4m p_addr) (omega (arith, words.p_word)),
      ) in
      let aligned : (v_addr % page_size_4m == 0) ≡ true = ground (arith, a.v_aligned) in
      rw (aligned, entry, present, frame, used)
