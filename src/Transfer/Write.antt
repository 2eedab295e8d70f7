-- ===== src/Transfer/Write.antt =====
-- `Task::Write` of the bytes of a kernel variable, from the current task to another one.
use toy_kernel.Base.{
  ℕ, ◌+◌, ◌%◌, ◌<◌, ◌≡◌, ◌≢◌, refl, sym, ap, some-inj, ◌∙◌, true, false, some, List, length,
  get_elem?, ◌==◌, arith, Outcome, ok, ◌>>=◌, need, if◌then◌else◌, Bool-cases, leb, ltb, ◌&&◌, ◌-◌,
  inl, inr, bit_and,
}
use toy_kernel.Strings.Copy.{Outside}
use toy_kernel.Task.{TaskPtr}
use toy_kernel.Paging.{
  Directory, Paging, dir_at, is_present, page_index_4m, page_size_4m, page_mask_4m,
  tmp_shared_task_mem_start, make_entry,
}
use toy_kernel.Paging.Invariant.{IsCounted}
use toy_kernel.Calls.{directory}
use toy_kernel.Transfer.{
  Machine, with_paging, Source, translate, variable, copy, with_window, task_write,
}
use toy_kernel.Transfer.Copy.{IsWritten, copy-IsWritten}
use toy_kernel.Transfer.Place.{IsReachable, Restored, moved_to, holding, with_window-Restored}

task_write-other :
    (task cur : TaskPtr) (dst size : ℕ) (src : Source) (m m' : Machine)
    → m.system.scheduler.current ≡ some cur
    → task ≢ cur
    → 0 < size
    → with_window task cur dst (λ adj_dst m1. copy size 0 adj_dst src m1) m ≡ ok m'
    → task_write task dst src size m ≡ ok m'
unfolding task_write
task_write-other task cur dst size src m m' current other some_bytes h =
    let apart : task == cur ≡ false = ground arith in
    let nonzero : size == 0 ≡ false = ground arith in
    let to_task : TaskPtr → Outcome Machine = λ c.
      if size == 0
      then ok m
      else if task == c
      then copy size 0 dst src m
      else with_window task c dst (λ adj_dst m1. copy size 0 adj_dst src m1) m in
    ap (λ o. need o >>= to_task) current ∙ rw apart (rw nonzero h)

-- What the write leaves.
pub record Transferred (reserved : ℕ → ℕ) (task cur : TaskPtr) (dst : ℕ) (bytes : List ℕ)
    (m m' : Machine) : Type 0 where
  pub seen :
      (k : ℕ)
      → k < length bytes
      → (a : ℕ) × (translate (directory task m'.system) (dst + k) m'.system.paging ≡ ok a)
        × (get_elem? bytes k ≡ some (m'.phys a))
  pub others :
      (a : ℕ)
      → ((k : ℕ)
          → k < length bytes
          → translate (directory task m'.system) (dst + k) m'.system.paging ≢ ok a)
      → m'.phys a ≡ m.phys a
  pub kept :
      (d : Directory) (j : ℕ)
      → is_present (dir_at d m.system.paging j) ≡ true
      → dir_at d m'.system.paging j ≡ dir_at d m.system.paging j
  pub refs : (f : ℕ) → m'.system.paging.frames.refs f ≡ m.system.paging.frames.refs f
  pub counted : IsCounted reserved m'.system.paging
  pub scheduler : m'.system.scheduler ≡ m.system.scheduler

-- The write with the frame that it goes to.
pub record Moved (reserved : ℕ → ℕ) (task cur : TaskPtr) (dst : ℕ) (bytes : List ℕ) (m : Machine)
    (p : Paging) (x : ℕ → ℕ) : Type 0 where
  pub ran :
      task_write task dst (variable bytes) (length bytes) m
      ≡ ok (moved_to p (holding task dst m) x m)
  pub written :
      IsWritten
        (bit_and (dir_at (directory task m.system) m.system.paging (page_index_4m dst)) page_mask_4m
          + dst % page_size_4m)
        (length bytes)
        0
        bytes
        m.phys
        x
  pub tables : Restored reserved cur m p

module _ (reserved : ℕ → ℕ) (task cur : TaskPtr) (dst : ℕ) (bytes : List ℕ) (m : Machine)
    (w : IsReachable reserved task cur dst (length bytes) m) where
  abbrev d_task : Directory
  d_task = directory task m.system

  abbrev paddr : ℕ
  paddr = bit_and (dir_at d_task m.system.paging (page_index_4m dst)) page_mask_4m

  abbrev base : ℕ
  base = paddr + dst % page_size_4m

  not_elsewhere :
      (a : ℕ) → ((k : ℕ) → k < length bytes → base + k ≢ a) → Outside base (length bytes) a
  not_elsewhere a h = elim (Bool-cases (leb base a && ltb a (base + length bytes))) [
    | inl e ↦ absurd (h (a - base) (ground arith) (ground arith))
    | inr e ↦ elim (Bool-cases (leb base a)) [
      | inl above ↦ inr (ground arith)
      | inr below ↦ inl (ground arith)
    ]
  ]

  pub task_write-Moved : (p : Paging) × (x : ℕ → ℕ) × Moved reserved task cur dst bytes m p x
  task_write-Moved =
      let (p, x, ran, tables, written) =
        with_window-Restored reserved task cur dst (length bytes) m w
          (λ adj_dst m1. copy (length bytes) 0 adj_dst (variable bytes) m1)
          (IsWritten base (length bytes) 0 bytes m.phys)
          (λ p opened.
            copy-IsWritten (length bytes) 0 (tmp_shared_task_mem_start + dst % page_size_4m) base
              bytes (with_paging p m) (omega arith) (omega (arith, w.fits)) opened.in_window) in
      (
        p,
        x,
        record {
          ran =
              task_write-other task cur dst (length bytes) (variable bytes) m _ w.current w.other
                w.some_bytes ran;
          written = written;
          tables = tables;
        },
      )

  module _ (p : Paging) (x : ℕ → ℕ) (v : Moved reserved task cur dst bytes m p x) where
    translate-moved : (k : ℕ) → k < length bytes → translate d_task (dst + k) p ≡ ok (base + k)
    unfolding translate
    translate-moved k h =
        let at : page_index_4m (dst + k) ≡ page_index_4m dst = omega (arith, w.fits) in
        let place : (dst + k) % page_size_4m ≡ dst % page_size_4m + k = omega (arith, w.fits) in
        let sum : paddr + (dst % page_size_4m + k) ≡ base + k = omega arith in
        rw at (
          rw (v.tables.kept d_task (page_index_4m dst) w.present)
            (rw w.present (rw place (ap ok sum))))

    moved-Transferred :
        Transferred reserved task cur dst bytes m (moved_to p (holding task dst m) x m)
    moved-Transferred = record {
      seen = λ k h.
          (base + k, translate-moved k h, ap (get_elem? bytes) (omega arith) ∙ v.written.there k h);
      others = λ a apart.
          v.written.others a (not_elsewhere a (λ k h e. apart k h (translate-moved k h ∙ ap ok e)));
      kept = v.tables.kept;
      refs = v.tables.refs;
      counted = v.tables.counted;
      scheduler = refl;
    }

  -- A write of some bytes from a variable of the kernel into the space of a task that is not running
  -- returns, if the task has the page mapped and the bytes fit it, the current task's directory is in CR3
  -- and has the window for such copies free, the counts are right with room for one more reference, and
  -- what the processor still holds for the window, if anything, is this page. The task then has the bytes
  -- at the address, no other byte of physical memory has changed, and every page is mapped as before and
  -- has as many references.
  pub task_write-Transferred :
      (m' : Machine) × (task_write task dst (variable bytes) (length bytes) m ≡ ok m')
      × Transferred reserved task cur dst bytes m m'
  task_write-Transferred =
      let (p, x, v) = task_write-Moved in
      (moved_to p (holding task dst m) x m, v.ran, moved-Transferred p x v)

-- The place can be reached after the write.
pub Moved-IsReachable :
    (reserved : ℕ → ℕ) (task cur : TaskPtr) (at dst size : ℕ) (bytes : List ℕ) (m : Machine)
    (p : Paging) (x : ℕ → ℕ)
    → page_index_4m at ≡ page_index_4m dst
    → IsReachable reserved task cur at size m
    → Moved reserved task cur dst bytes m p x
    → IsReachable reserved task cur at size (moved_to p (holding task dst m) x m)
Moved-IsReachable reserved task cur at dst size bytes m p x pages w v =
    let d = directory task m.system in
    let same = v.tables.kept d (page_index_4m at) w.present in
    record {
      current = w.current;
      other = w.other;
      active = w.active;
      counted = v.tables.counted;
      live_task = v.tables.live d w.live_task;
      live_cur = v.tables.live (directory cur m.system) w.live_cur;
      free = v.tables.free;
      fresh = λ e h.
          sym (some-inj h)
          ∙ ap (λ i. make_entry (bit_and (dir_at d m.system.paging i) page_mask_4m) 0) (sym pages)
          ∙ ap (λ z. make_entry (bit_and z page_mask_4m) 0) (sym same);
      dst_word = w.dst_word;
      entry_word = rw same w.entry_word;
      present = rw same w.present;
      room =
          rw same (
            rw (v.tables.refs (page_index_4m (dir_at d m.system.paging (page_index_4m at))))
              w.room);
      some_bytes = w.some_bytes;
      fits = w.fits;
    }
