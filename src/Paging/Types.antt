-- ===== src/Paging/Types.antt =====
-- The constants, the address tests and the globals of kernel/include/paging.h and kernel/paging.cpp.
pub use toy_kernel.Base.{update}
use toy_kernel.Base.{ℕ, ◌*◌, ◌/◌, ◌%◌, ◌^◌, Bool, ◌&&◌, ◌||◌, ltb, leb, ◌==◌, bit_and}
use toy_kernel.Base.Bits.{nonzero}
use toy_kernel.Bitmap.{BitArray}

abbrev pub kernel_start : ℕ
kernel_start = 0x400000

abbrev pub kernel_end : ℕ
kernel_end = 0x800000

abbrev pub page_directory_region_start : ℕ
page_directory_region_start = kernel_end

abbrev pub page_directory_region_end : ℕ
page_directory_region_end = 0xC00000

abbrev pub user_shared_space_start : ℕ
user_shared_space_start = 0xC00000

abbrev pub tmp_shared_task_mem_start : ℕ
tmp_shared_task_mem_start = 0x1400000

abbrev pub kern_heap_begin : ℕ
kern_heap_begin = 0x02000000

abbrev pub kern_heap_end : ℕ
kern_heap_end = 0x40000000

abbrev pub user_start : ℕ
user_start = 0x40000000

abbrev pub user_end : ℕ
user_end = 0x100000000

abbrev pub pg_present : ℕ
pg_present = 0x1

abbrev pub pg_write : ℕ
pg_write = 0x2

abbrev pub pg_user : ℕ
pg_user = 0x4

abbrev pub pg_4mb : ℕ
pg_4mb = 0x80

abbrev pub page_size_4m : ℕ
page_size_4m = 0x400000

-- `~UINT32_C(0x3FFFFF)`
abbrev pub page_mask_4m : ℕ
page_mask_4m = 0xFFC00000

abbrev pub ram_as_4m_pages : ℕ
ram_as_4m_pages = 0x400

abbrev pub num_page_dir_entries : ℕ
num_page_dir_entries = 1024

abbrev pub page_dir_size : ℕ
page_dir_size = 4096

-- `kNumPageDirs`, the page directories that fit their region.
abbrev pub num_page_dirs : ℕ
num_page_dirs = 1024

abbrev pub is_kernel_code : ℕ → Bool
is_kernel_code addr = leb kernel_start addr && ltb addr kernel_end

abbrev pub is_page_dir_region : ℕ → Bool
is_page_dir_region addr = leb page_directory_region_start addr && ltb addr page_directory_region_end

abbrev pub is_kernel_heap : ℕ → Bool
is_kernel_heap addr = leb kern_heap_begin addr && ltb addr kern_heap_end

-- `IsKernelCode(v) || IsKernelHeap(v) || IsPageDirRegion(v)`: mapped alike in every address space.
abbrev pub is_shared : ℕ → Bool
is_shared addr = is_kernel_code addr || is_kernel_heap addr || is_page_dir_region addr

-- `PageIndex4M`, of an address of 32 or 64 bits.
abbrev pub page_index_4m : ℕ → ℕ
page_index_4m addr = addr / 2 ^ 22

-- `PageAddr4M`
abbrev pub page_addr_4m : ℕ → ℕ
page_addr_4m page = page * 2 ^ 22 % 2 ^ 32

abbrev pub is_4m_page_aligned : ℕ → Bool
is_4m_page_aligned addr = addr % page_size_4m == 0

-- `pd_impl_`, read at indexes below 1024.
abbrev pub PageDirectory : Type 0
PageDirectory = ℕ → ℕ

-- `entry & PG_PRESENT`
unfoldable pub is_present : ℕ → Bool
is_present pde = nonzero (bit_and pde pg_present)

-- `class PhysicalBitmap4M`: the bits that it inherits, and `refs_`, read at indexes below 1024.
pub record PhysicalBitmap : Type 0 where
  pub bits : BitArray
  pub refs : ℕ → ℕ

-- What a `PageDirectory &` may name: `KernelPageDir`, or one of the page directory region.
pub data Directory : Type 0 where
  kernel : Directory
  slot : ℕ → Directory

abbrev pub is_kernel_page_dir : Directory → Bool
is_kernel_page_dir kernel = Bool.true
is_kernel_page_dir (slot n) = Bool.false

-- `KernelPageDir`, the directories in their region, `PageDirRegion` and `PhysicalBitmap`.
pub record Paging : Type 0 where
  pub kernel_dir : PageDirectory
  pub dirs : ℕ → PageDirectory
  pub region : BitArray
  pub frames : PhysicalBitmap

abbrev pub dir_at : Directory → Paging → PageDirectory
dir_at kernel s = s.kernel_dir
dir_at (slot n) s = s.dirs n

-- `pd_impl_[i] = pde` in the named directory, beside the new state of `PhysicalBitmap`.
abbrev pub set_entry : Directory → (i pde : ℕ) → PhysicalBitmap → Paging → Paging
set_entry kernel i pde b s = record s { kernel_dir = update s.kernel_dir i pde; frames = b }
set_entry (slot n) i pde b s = record s {
  dirs = update s.dirs n (update (s.dirs n) i pde);
  frames = b;
}
