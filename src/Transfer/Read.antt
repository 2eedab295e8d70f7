-- ===== src/Transfer/Read.antt =====
-- `Task::Read`, from the space of another task to that of the current one, and a write that is read back.
use toy_kernel.Base.{
  ℕ, ◌+◌, ◌%◌, ◌^◌, ◌<◌, ◌≡◌, ◌≢◌, refl, sym, ap, ◌∙◌, true, false, some, List, length, get_elem?,
  ◌==◌, arith, Outcome, ok, ◌>>=◌, need, if◌then◌else◌, bit_and,
}
use toy_kernel.Strings.Copy.{Outside}
use toy_kernel.Task.{TaskPtr}
use toy_kernel.Paging.{
  Directory, Paging, dir_at, is_present, page_index_4m, page_size_4m, page_mask_4m,
  tmp_shared_task_mem_start,
}
use toy_kernel.Calls.{directory}
use toy_kernel.Transfer.{
  Machine, with_paging, active, look_up_with, look_up, memory_at, variable, copy, with_window,
  task_write, task_read,
}
use toy_kernel.Transfer.Window.{window}
use toy_kernel.Transfer.Place.{IsReachable, Restored, moved_to, holding, with_window-Restored}
use toy_kernel.Transfer.Write.{task_write-Moved, Moved-IsReachable}
use toy_kernel.Transfer.Moves.{look_up-kept, IsMoved, Apart, copy-IsMoved}

task_read-other :
    (task cur : TaskPtr) (dst src size : ℕ) (m m' : Machine)
    → m.system.scheduler.current ≡ some cur
    → task ≢ cur
    → 0 < size
    → with_window task cur src (λ adj_src m1. copy size 0 dst (memory_at adj_src) m1) m ≡ ok m'
    → task_read task dst src size m ≡ ok m'
unfolding task_read
task_read-other task cur dst src size m m' current other some_bytes h =
    let apart : task == cur ≡ false = ground arith in
    let nonzero : size == 0 ≡ false = ground arith in
    let from_task : TaskPtr → Outcome Machine = λ c.
      if size == 0
      then ok m
      else if task == c
      then copy size 0 dst (memory_at src) m
      else with_window task c src (λ adj_src m1. copy size 0 dst (memory_at adj_src) m1) m in
    ap (λ o. need o >>= from_task) current ∙ rw apart (rw nonzero h)

-- The address of a place of another task in physical memory.
abbrev pub place : (task : TaskPtr) (vaddr : ℕ) → Machine → ℕ
place task vaddr m =
    bit_and (dir_at (directory task m.system) m.system.paging (page_index_4m vaddr)) page_mask_4m
    + vaddr % page_size_4m

-- `size` bytes at `vaddr` in the space of the current task, not in the window, at `to` in physical memory.
pub record IsBuffer (vaddr size to : ℕ) (m : Machine) : Type 0 where
  pub word : vaddr + size < 2 ^ 32
  pub outside : (k : ℕ) → k < size → page_index_4m (vaddr + k) ≢ window
  pub mapped :
      (k : ℕ) → k < size → look_up (active m) m.stale (vaddr + k) m.system.paging ≡ ok (to + k)

-- The read with the physical addresses.
pub task_read-IsMoved :
    (reserved : ℕ → ℕ) (task cur : TaskPtr) (dst src size to : ℕ) (m : Machine)
    → IsReachable reserved task cur src size m
    → IsBuffer dst size to m
    → Apart to (place task src m) size
    → (p : Paging) × (x : ℕ → ℕ) × (task_read task dst src size m
        ≡ ok (moved_to p (holding task src m) x m))
      × Restored reserved cur m p
      × IsMoved to (place task src m) size m.phys x
task_read-IsMoved reserved task cur dst src size to m w b apart =
    let (p, x, ran, tables, moved) =
      with_window-Restored reserved task cur src size m w
        (λ adj_src m1. copy size 0 dst (memory_at adj_src) m1)
        (IsMoved to (place task src m) size m.phys)
        (λ p opened.
          copy-IsMoved size 0 dst to (tmp_shared_task_mem_start + src % page_size_4m)
            (place task src m) (with_paging p m) b.word (omega (arith, w.fits)) apart
            (λ k h. ap (λ a. look_up (active m) m.stale a p) (omega arith) ∙ opened.in_window k h)
            (λ k h.
              look_up-kept (m.stale (page_index_4m (dst + k))) (active m) (dst + k) (to + k)
                m.system.paging p (opened.kept (active m)) (b.mapped k h))) in
    (
      p,
      x,
      task_read-other task cur dst src size m _ w.current w.other w.some_bytes ran,
      tables,
      moved,
    )

-- Bytes that are written into the space of a task that is not running, and then read back into a buffer of
-- the current task at other physical addresses: both calls return, the buffer has the bytes, no byte of
-- physical memory outside the place and the buffer has changed, and every page is mapped as before. The
-- conditions: the task has the page mapped and the bytes, at least one, fit it; the current task's
-- directory is in CR3 and has the window for such copies free; the counts are right with room for one more
-- reference; what the processor still holds for the window, if anything, is this page, which is then the
-- page of both copies; and the buffer is mapped outside the window.
pub task_read-task_write :
    (reserved : ℕ → ℕ) (task cur : TaskPtr) (at buffer to : ℕ) (bytes : List ℕ) (m : Machine)
    → IsReachable reserved task cur at (length bytes) m
    → IsBuffer buffer (length bytes) to m
    → Apart to (place task at m) (length bytes)
    → (m' : Machine) × ((task_write task at (variable bytes) (length bytes) m >>= λ m1.
          task_read task buffer at (length bytes) m1)
        ≡ ok m')
      × ((k : ℕ) → k < length bytes → get_elem? bytes k ≡ some (m'.phys (to + k)))
      × ((q : ℕ)
          → Outside to (length bytes) q
          → Outside (place task at m) (length bytes) q
          → m'.phys q ≡ m.phys q)
      × ((d : Directory) (j : ℕ)
          → is_present (dir_at d m.system.paging j) ≡ true
          → dir_at d m'.system.paging j ≡ dir_at d m.system.paging j)
task_read-task_write reserved task cur at buffer to bytes m w b apart =
    let (p1, x1, v) = task_write-Moved reserved task cur at bytes m w in
    let m1 = moved_to p1 (holding task at m) x1 m in
    let n = length bytes in
    let entry = v.tables.kept (directory task m.system) (page_index_4m at) w.present in
    let same : place task at m1 ≡ place task at m =
      ap (λ e. bit_and e page_mask_4m + at % page_size_4m) entry in
    let (p, x, ran, tables, moved) =
      task_read-IsMoved reserved task cur buffer at n to m1
        (Moved-IsReachable reserved task cur at at n bytes m p1 x1 refl w v)
        (record {
          word = b.word;
          outside = b.outside;
          mapped = λ k h.
              let apart : page_index_4m (buffer + k) == window ≡ false =
                ground (arith, b.outside k h) in
              let held : holding task at m (page_index_4m (buffer + k))
                  ≡ m.stale (page_index_4m (buffer + k)) =
                rw apart refl in
              ap (λ o. look_up_with o (active m) (buffer + k) p1) held
              ∙ look_up-kept (m.stale (page_index_4m (buffer + k))) (active m) (buffer + k) (to + k)
                  m.system.paging p1 (v.tables.kept (active m)) (b.mapped k h);
        })
        (omega (arith, same, apart)) in
    (
      moved_to p (holding task at m1) x m,
      ap (λ o. o >>= λ m2. task_read task buffer at n m2) v.ran ∙ ran,
      λ k h.
          ap (get_elem? bytes) (omega arith)
          ∙ v.written.there k h
          ∙ ap some (ap x1 (omega (arith, same)) ∙ sym (moved.there k h)),
      λ q o1 o2. moved.others q o1 ∙ v.written.others q o2,
      λ d j present.
          tables.kept d j (rw (v.tables.kept d j present) present) ∙ v.tables.kept d j present,
    )
