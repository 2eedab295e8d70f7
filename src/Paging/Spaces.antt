-- ===== src/Paging/Spaces.antt =====
-- The operations of `PageDirectory` in kernel/paging.cpp, and `InitializePaging`.
use toy_kernel.Base.{
  ℕ, zero, suc, ◌+◌, ◌-◌, ◌*◌, ◌/◌, ◌%◌, ◌^◌, Bool, false, not, ◌&&◌, ◌||◌, Option, none, some,
  ◌==◌, leb, if◌then◌else◌, bit_and, bit_or, Outcome, ok, stop, ◌>>=◌, ◌>>◌, check, need,
}
use toy_kernel.Bitmap.{clear, set_one, set_zero, is_set, get_first_zero}
use toy_kernel.Paging.Types.{
  PageDirectory, PhysicalBitmap, Directory, kernel, slot, Paging, update, dir_at, set_entry,
  is_present, is_kernel_page_dir, is_shared, page_index_4m, page_addr_4m, page_size_4m,
  page_mask_4m, pg_present, pg_4mb, pg_write, num_page_dirs, num_page_dir_entries, ram_as_4m_pages,
  kernel_start, page_directory_region_start, user_start, user_end,
}
use toy_kernel.Paging.Frames.{
  ref, set_page_frame_used, set_page_frame_free, is_page_frame_used, reserve_physical,
}

-- The entry that `AddPage` writes.
unfoldable pub make_entry : (paddr flags : ℕ) → ℕ
make_entry paddr flags =
    bit_or (bit_and paddr page_mask_4m) (bit_or (bit_or (bit_or pg_present pg_4mb) pg_write) flags)

-- One round of the loop at the end of `AddPage`: a directory in use gets the kernel's new entry.
unfoldable pub add_to_directory : (bit index pde frame : ℕ) → Paging → Outcome Paging
add_to_directory bit index pde frame s =
    if is_set s.region bit
    then (do
      check (not (is_present (s.dirs bit index)))
      frames ← set_page_frame_used s.frames frame
      ok (set_entry (slot bit) index pde frames s))
    else ok s

unfoldable pub share_added : (rounds bit index pde frame : ℕ) → Paging → Outcome Paging
unfolding add_to_directory
share_added zero bit index pde frame s = ok s
share_added (suc rounds) bit index pde frame s =
    add_to_directory bit index pde frame s >>= λ s1. share_added rounds (suc bit) index pde frame s1

-- `AddPage`. Its `invlpg` changes no table: what the processor holds is the machine's of Transfer.
unfoldable pub add_page :
    Directory → (v_addr p_addr flags : ℕ) → (allow_physical_reuse : Bool) → Paging → Outcome Paging
unfolding make_entry share_added
add_page d v_addr p_addr flags reuse s = do
  check (p_addr % page_size_4m == 0)
  check (v_addr % page_size_4m == 0)
  check (reuse || not (is_page_frame_used s.frames (page_index_4m p_addr)))
  let index = page_index_4m v_addr
  check (not (is_present (dir_at d s index)))
  let pde = make_entry p_addr flags
  frames ← set_page_frame_used s.frames (page_index_4m p_addr)
  let s1 = set_entry d index pde frames s
  if is_kernel_page_dir d && is_shared v_addr
      then share_added num_page_dirs 0 index pde (page_index_4m p_addr) s1
      else ok s1

-- One round of the loop at the end of `RemovePage`: a directory in use loses the kernel's entry.
unfoldable pub remove_from_directory : (bit index frame : ℕ) → Paging → Outcome Paging
remove_from_directory bit index frame s =
    if is_set s.region bit
    then (do
      check (is_present (s.dirs bit index))
      frames ← set_page_frame_free s.frames frame
      ok (set_entry (slot bit) index 0 frames s))
    else ok s

unfoldable pub share_removed : (rounds bit index frame : ℕ) → Paging → Outcome Paging
unfolding remove_from_directory
share_removed zero bit index frame s = ok s
share_removed (suc rounds) bit index frame s =
    remove_from_directory bit index frame s >>= λ s1. share_removed rounds (suc bit) index frame s1

-- `RemovePage`. It does not look at whether the page is mapped. As with `AddPage`, `invlpg` is Transfer's.
unfoldable pub remove_page : Directory → (v_addr : ℕ) → Paging → Outcome Paging
unfolding share_removed
remove_page d v_addr s = do
  check (v_addr % page_size_4m == 0)
  let page = page_index_4m v_addr
  let frame = page_index_4m (bit_and (dir_at d s page) page_mask_4m)
  frames ← set_page_frame_free s.frames frame
  let s1 = set_entry d page 0 frames s
  if is_kernel_page_dir d && is_shared v_addr
      then share_removed num_page_dirs 0 page frame s1
      else ok s1

-- `GetPhysicalAddr`
unfoldable pub get_physical_addr : Directory → (v_addr : ℕ) → Paging → Outcome ℕ
get_physical_addr d v_addr s = do
  check (v_addr % page_size_4m == 0)
  let pde = dir_at d s (page_index_4m v_addr)
  check (is_present pde)
  let paddr = bit_and pde page_mask_4m
  check (is_page_frame_used s.frames (page_index_4m paddr))
  ok paddr

-- `isPhysicalFree`
unfoldable pub is_physical_free : ℕ → Paging → Bool
is_physical_free page_index s = not (is_page_frame_used s.frames page_index)

-- `isVirtualMapped`
unfoldable pub is_virtual_mapped : Directory → (v_addr : ℕ) → Paging → Bool
is_virtual_mapped d v_addr s = is_present (dir_at d s (page_index_4m v_addr))

-- The loop of `Clone` over the entries of the new directory.
unfoldable pub ref_entries : (rounds i : ℕ) → PageDirectory → PhysicalBitmap → PhysicalBitmap
ref_entries zero i pd b = b
ref_entries (suc rounds) i pd b =
    ref_entries rounds (suc i) pd (if is_present (pd i) then ref b (page_index_4m (pd i)) else b)

-- `Clone`, with `getAndUseNextFreeRegion`: the number of the new directory in its region.
unfoldable pub clone : Directory → Paging → Outcome (ℕ × Paging)
unfolding ref_entries
clone d s = do
  bit ← need (get_first_zero num_page_dirs s.region 0)
  region ← set_one num_page_dirs s.region bit
  let pd = dir_at d s
  ok (
    bit,
    record s {
      region = region;
      dirs = update s.dirs bit pd;
      frames = ref_entries num_page_dir_entries 0 pd s.frames;
    },
  )

-- The loop of `ReclaimPageDirRegion` over the entries.
unfoldable pub free_entries :
    (rounds i : ℕ) → PageDirectory → PhysicalBitmap → Outcome PhysicalBitmap
free_entries zero i pd b = ok b
free_entries (suc rounds) i pd b =
    (if is_present (pd i) then set_page_frame_free b (page_index_4m (pd i)) else ok b) >>= λ b1.
    free_entries rounds (suc i) pd b1

-- `ReclaimPageDirRegion`, with `Reclaim`, which asserts that this is not the kernel's directory.
unfoldable pub reclaim_page_dir_region : Directory → Paging → Outcome Paging
unfolding free_entries
reclaim_page_dir_region d s = do
  frames ← free_entries num_page_dir_entries 0 (dir_at d s) s.frames
  elim d [
    | kernel ↦ stop
    | slot n ↦ set_zero num_page_dirs s.region n >>= λ region.
        ok (record s { region = region; frames = frames })
  ]

-- The loop of `GetNextFreeVirtualUser`, with the rounds that are left.
unfoldable pub free_user_loop : (rounds index : ℕ) → PageDirectory → Option ℕ
free_user_loop zero index pd = none
free_user_loop (suc rounds) index pd =
    let rest = free_user_loop rounds (suc index) pd in
    if not (is_present (pd index)) then some (page_addr_4m index) else rest

-- `GetNextFreeVirtualUser`: none is the null pointer.
unfoldable pub get_next_free_virtual_user : Directory → Paging → Option ℕ
unfolding free_user_loop
get_next_free_virtual_user d s =
    free_user_loop (page_index_4m user_end - page_index_4m user_start) (page_index_4m user_start)
      (dir_at d s)

-- `IdentityMapRAII`: the constructor's call and the destructor's.
unfoldable pub identity_map : (addr flags : ℕ) → Paging → Outcome Paging
identity_map addr flags s = add_page kernel addr addr flags false s

unfoldable pub identity_unmap : (addr : ℕ) → Paging → Outcome Paging
identity_unmap addr s = remove_page kernel (page_addr_4m (page_index_4m addr)) s

-- `InitializePaging`, up to the writes of CR3, CR4 and CR0. `refs_` is a global, so it starts at 0.
unfoldable pub initialize_paging : (high_mem_kb : ℕ) → (dirs : ℕ → PageDirectory) → Outcome Paging
initialize_paging high_mem_kb dirs = do
  let total_mem = high_mem_kb * 1024 % 2 ^ 32
  let num_4m_pages = (total_mem / page_size_4m + 1) % 2 ^ 32
  check (leb 32 num_4m_pages)
  let cleared : PhysicalBitmap = record { bits = clear ram_as_4m_pages; refs = λ i. 0 }
  frames ← reserve_physical cleared 32
  let flags = bit_or (bit_or pg_present pg_write) pg_4mb
  let s : Paging = record {
    kernel_dir = λ i. 0;
    dirs = dirs;
    region = clear num_page_dirs;
    frames = frames;
  }
  s1 ← add_page kernel kernel_start kernel_start flags false s
  add_page kernel page_directory_region_start page_directory_region_start flags false s1
