-- ===== src/Transfer.antt =====
-- Copies between the address spaces of two tasks, `TaskMemcpy` of kernel/task.cpp with `Task::Write` and
-- `Task::Read`, over the bytes of physical memory.
pub mod Window
pub mod Copy
pub mod Held
pub mod Place
pub mod Write
pub mod Moves
pub mod Read
mod Tests
use toy_kernel.Base.{
  ℕ, zero, suc, Option, none, some, ◌+◌, ◌-◌, ◌%◌, ◌^◌, List, update, get_elem?, ◌==◌, ltb,
  if◌then◌else◌, true, bit_and, Outcome, ok, stop, ◌>>=◌, ◌>>◌, check, need,
}
use toy_kernel.Task.{TaskPtr}
use toy_kernel.Paging.{
  Directory, Paging, dir_at, is_present, page_index_4m, page_addr_4m, page_size_4m, page_mask_4m,
  tmp_shared_task_mem_start, add_page, remove_page, get_physical_addr,
}
use toy_kernel.Calls.{System, directory_of, directory}

-- The system with the bytes of physical memory and, by page, what the processor still holds of entries of
-- the address space in CR3 that have been taken out of the tables. `invlpg` of kernel/paging.cpp is given
-- the variable with the address, so it drops a page of the stack and none of these.
pub record Machine : Type 0 where
  pub system : System
  pub phys : ℕ → ℕ
  pub stale : ℕ → Option ℕ

abbrev pub with_paging : Paging → Machine → Machine
with_paging p m = record m { system = record m.system { paging = p } }

-- The directory in CR3.
abbrev pub active : Machine → Directory
active m = directory_of m.system.kernel_pd m.system.scheduler.cr3

-- The physical address that the page tables give, with pages of 4 MB. A page fault is a stop.
unfoldable pub translate : Directory → (vaddr : ℕ) → Paging → Outcome ℕ
translate d vaddr s =
    let pde = dir_at d s (page_index_4m vaddr) in
    check (is_present pde) >> ok (bit_and pde page_mask_4m + vaddr % page_size_4m)

-- The physical address that the processor finds in the space in CR3: what it still holds comes first.
abbrev pub look_up_with : Option ℕ → Directory → (vaddr : ℕ) → Paging → Outcome ℕ
look_up_with (some pde) d vaddr s = ok (bit_and pde page_mask_4m + vaddr % page_size_4m)
look_up_with none d vaddr s = translate d vaddr s

abbrev pub look_up : Directory → (stale : ℕ → Option ℕ) → (vaddr : ℕ) → Paging → Outcome ℕ
look_up d stale vaddr s = look_up_with (stale (page_index_4m vaddr)) d vaddr s

-- What is held of a page once its entry is taken out of the tables.
abbrev pub hold : Option ℕ → (pde : ℕ) → Option ℕ
hold (some old) pde = some old
hold none pde = if is_present pde then some pde else none

-- A read and a write of a byte.
unfoldable pub load : (vaddr : ℕ) → Machine → Outcome ℕ
unfolding translate
load vaddr m = look_up (active m) m.stale vaddr m.system.paging >>= λ a. ok (m.phys a)

unfoldable pub store : (vaddr byte : ℕ) → Machine → Outcome Machine
unfolding translate
store vaddr byte m = look_up (active m) m.stale vaddr m.system.paging >>= λ a.
    ok (record m { phys = update m.phys a byte })

-- The bytes that a copy takes, by their numbers: those at an address, or those of a variable of the
-- kernel.
abbrev pub Source : Type 0
Source = ℕ → Machine → Outcome ℕ

abbrev pub memory_at : (vaddr : ℕ) → Source
memory_at vaddr i m = load ((vaddr + i) % 2 ^ 32) m

abbrev pub variable : List ℕ → Source
variable bytes i m = need (get_elem? bytes i)

-- `memcpy` in the address space in CR3, from the byte `i` of the source on.
unfoldable pub copy : (rounds i dst : ℕ) → Source → Machine → Outcome Machine
unfolding store
copy zero i dst src m = ok m
copy (suc rounds) i dst src m = do
  byte ← src i m
  m1 ← store dst byte m
  copy rounds (suc i) ((dst + 1) % 2 ^ 32) src m1

-- `vaddr_page` and `vaddr_offset`
unfoldable pub locate : (vaddr : ℕ) → Outcome (ℕ × ℕ)
locate vaddr =
    let page = page_addr_4m (page_index_4m vaddr) in
    if vaddr % page_size_4m == 0
    then ok (vaddr, 0)
    else check (ltb page vaddr) >> ok (page, vaddr - page)

-- The machine behind a `RemovePage` that leaves the tables `p`.
abbrev pub without_page : (vaddr : ℕ) → Paging → Machine → Machine
without_page vaddr p m =
    let page = page_index_4m vaddr in
    record (with_paging p m) {
      stale = update m.stale page (hold (m.stale page) (dir_at (active m) m.system.paging page));
    }

-- `RemovePage`, with the processor.
unfoldable pub drop_page : Directory → (vaddr : ℕ) → Machine → Outcome Machine
drop_page d vaddr m = remove_page d vaddr m.system.paging >>= λ p. ok (without_page vaddr p m)

-- What `TaskMemcpy` does before and after the copy: the page of the address in the space of `task` is
-- mapped at `TMP_SHARED_TASK_MEM_START` in the space of `cur`, the current task. `body` gets the address there.
unfoldable pub with_window :
    (task cur : TaskPtr) → (vaddr : ℕ) → (ℕ → Machine → Outcome Machine) → Machine → Outcome Machine
unfolding locate drop_page
with_window task cur vaddr body m = do
  (page, offset) ← locate vaddr
  paddr ← get_physical_addr (directory task m.system) page m.system.paging
  opened ← add_page (directory cur m.system) tmp_shared_task_mem_start paddr 0 true m.system.paging
  m1 ← body (tmp_shared_task_mem_start + offset) (with_paging opened m)
  drop_page (directory cur m1.system) tmp_shared_task_mem_start m1

-- `Task::Write`, with `TaskMemcpy<CurrentToOther>`
unfoldable pub task_write :
    (task : TaskPtr) → (dst : ℕ) → Source → (size : ℕ) → Machine → Outcome Machine
unfolding copy with_window
task_write task dst src size m = do
  cur ← need m.system.scheduler.current
  let other = with_window task cur dst (λ adj_dst m1. copy size 0 adj_dst src m1) m
  let moved = if task == cur then copy size 0 dst src m else other
  if size == 0 then ok m else moved

-- `Task::Read`, with `TaskMemcpy<OtherToCurrent>`
unfoldable pub task_read : (task : TaskPtr) → (dst src size : ℕ) → Machine → Outcome Machine
unfolding copy with_window
task_read task dst src size m = do
  cur ← need m.system.scheduler.current
  let other = with_window task cur src (λ adj_src m1. copy size 0 dst (memory_at adj_src) m1) m
  let moved = if task == cur then copy size 0 dst (memory_at src) m else other
  if size == 0 then ok m else moved
