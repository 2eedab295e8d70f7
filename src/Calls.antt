-- ===== src/Calls.antt =====
-- The system calls of kernel/syscall.cpp that work on address spaces, with `MapPageFromTask` and
-- `UnmapPage` of kernel/task.cpp.
pub mod Pages
mod Tests
use toy_kernel.Base.{
  ℕ, ◌-◌, ◌/◌, Bool, true, false, not, ◌||◌, ◌&&◌, Option, none, some, ◌==◌, if◌then◌else◌, Outcome,
  ok, stop, ◌>>=◌, ◌>>◌, check, need,
}
use toy_kernel.Task.{TaskPtr, Scheduler}
use toy_kernel.Paging.{
  Directory, kernel, slot, Paging, page_directory_region_start, page_dir_size, page_size_4m,
  pg_user, is_4m_page_aligned, next_free_physical_page, add_page, remove_page, get_physical_addr,
  is_virtual_mapped, get_next_free_virtual_user,
}

-- The tasks and the address spaces, with the address of `KernelPageDir`.
pub record System : Type 0 where
  pub scheduler : Scheduler
  pub paging : Paging
  pub kernel_pd : ℕ

-- The directory at an address: the kernel's, or one of the page directory region.
abbrev pub directory_of : (kernel_pd pd : ℕ) → Directory
directory_of kernel_pd pd =
    if pd == kernel_pd then kernel else slot ((pd - page_directory_region_start) / page_dir_size)

-- `getPageDirectory()` of a task.
abbrev pub directory : TaskPtr → System → Directory
directory p s = directory_of s.kernel_pd (s.scheduler.tasks p).page_directory

-- The results of `map_page`: `MAP_SUCCESS`, `MAP_UNALIGNED_ADDR`, `MAP_ALREADY_MAPPED` and `MAP_OOM`.
pub data MapResult : Type 0 where
  success unaligned_addr already_mapped oom : MapResult

-- `map_page` of the task `cur`, from its search for a frame on.
unfoldable pub map_new_page : (cur : TaskPtr) → (vaddr : ℕ) → System → Outcome (MapResult × System)
map_new_page cur vaddr s = do
  paddr ← next_free_physical_page s.paging.frames 1
  if paddr == 0 then ok (oom, s) else do
    paging ← add_page (directory cur s) vaddr paddr pg_user false s.paging
    ok (success, record s { paging = paging })

-- `map_page`
unfoldable pub map_page : (vaddr : ℕ) → System → Outcome (MapResult × System)
unfolding map_new_page
map_page vaddr s = if not (is_4m_page_aligned vaddr) then ok (unaligned_addr, s) else do
  cur ← need s.scheduler.current
  if is_virtual_mapped (directory cur s) vaddr s.paging
      then ok (already_mapped, s)
      else map_new_page cur vaddr s

-- `MapPageFromTask`
unfoldable pub map_page_from_task :
    (task other : TaskPtr) → (this_dst other_src : ℕ) → System → Outcome System
map_page_from_task task other this_dst other_src s = do
  check (not (task == other))
  check (is_4m_page_aligned this_dst)
  check (is_4m_page_aligned other_src)
  paddr ← get_physical_addr (directory other s) other_src s.paging
  paging ← add_page (directory task s) this_dst paddr pg_user true s.paging
  ok (record s { paging = paging })

-- `share_page`: the address in the current task's space at which the page is shared.
unfoldable pub share_page : (handle : TaskPtr) → (src : ℕ) → System → Outcome (ℕ × System)
unfolding map_page_from_task
share_page handle src s = do
  check (s.scheduler.tasks handle).user
  cur ← need s.scheduler.current
  check (not (handle == cur))
  dst ← need (get_next_free_virtual_user (directory cur s) s.paging)
  s1 ← map_page_from_task cur handle dst src s
  ok (dst, s1)

-- `unmap_page`, with `UnmapPage`.
unfoldable pub unmap_page : (vaddr : ℕ) → System → Outcome System
unmap_page vaddr s = do
  cur ← need s.scheduler.current
  check (is_4m_page_aligned vaddr)
  paging ← remove_page (directory cur s) vaddr s.paging
  ok (record s { paging = paging })

-- `getParent`, which asserts that the task is not the main task.
unfoldable pub get_parent : TaskPtr → System → Outcome (Option TaskPtr)
get_parent p s =
    check (not (elim s.scheduler.main_task [ none ↦ false | some m ↦ m == p ]))
    >> ok (s.scheduler.tasks p).parent

-- `get_parent_task_id`
unfoldable pub get_parent_task_id : System → Outcome ℕ
unfolding get_parent
get_parent_task_id s = do
  cur ← need s.scheduler.current
  parent ← get_parent cur s
  p ← need parent
  ok (s.scheduler.tasks p).id
