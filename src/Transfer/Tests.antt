-- ===== src/Transfer/Tests.antt =====
-- A write from one task to another, both in the kernel's address space after `InitializePaging`.
use toy_kernel.Base.{
  zero, suc, ◌+◌, ◌<◌, ◌>>=◌, get_elem?, ℕ, ◌≡◌, refl, true, false, none, some, List, [], ◌∷◌,
  length, arith, Outcome, ok, stop, ◌==◌, if◌then◌else◌,
}
use toy_kernel.Bitmap.{is_set, set_one, reserve, test_bit, with_one, clear}
use toy_kernel.Task.{running, Task, zero_regs}
use toy_kernel.Paging.{
  Directory, kernel, dir_at, is_present, initialize_paging, add_page, remove_page,
  get_physical_addr, ref, set_page_frame_free, set_page_frame_used, reserve_physical,
}
use toy_kernel.Paging.Boot.{absent}
use toy_kernel.Paging.Booted.{booted, booted-IsCounted}
use toy_kernel.Transfer.{
  Machine, locate, variable, task_write, task_read, translate, copy, with_window,
}
use toy_kernel.Strings.Copy.{Outside}
use toy_kernel.Transfer.Read.{IsBuffer, place, task_read-task_write}
use toy_kernel.Transfer.Place.{IsReachable}
use toy_kernel.Transfer.Write.{Transferred, task_write-Transferred}

test_locate : locate 0x40012345 ≡ ok (0x40000000, 0x12345)
unfolding locate
test_locate = refl

abbrev task : Task
task = record {
  id = 1;
  state = running;
  regs = zero_regs;
  page_directory = 0x500000;
  user = false;
  user_in_kernel_space = false;
  parent = some 16;
  children = [];
  stack = 0x2000800;
  entry = 0;
}

abbrev machine : Machine
machine = record {
  system = record {
    scheduler = record {
      current = some 32;
      next_tid = 3;
      ready_queue = 48 ∷ 32 ∷ [];
      main_task = some 16;
      tasks = λ p. task;
      interrupts = false;
      cr3 = 0x500000;
      esp0 = 0;
      memory = λ a. 0;
    };
    paging = booted;
    kernel_pd = 0x500000;
  };
  phys = λ a. 0;
  stale = λ page. none;
}

abbrev bytes : List ℕ
bytes = 1 ∷ 2 ∷ 3 ∷ []

-- Every definition that a run opens.
opened : Unit {0}
unfolding initialize_paging reserve_physical reserve set_one add_page is_set test_bit with_one ref
    set_page_frame_used clear is_present booted
opened = tt

no_window : is_present (dir_at kernel booted 5) ≡ false
unfolding opened
no_window = refl

kernel_entry : dir_at kernel booted 1 ≡ 0x400083
unfolding opened
kernel_entry = refl

kernel_present : is_present 0x400083 ≡ true
unfolding is_present
kernel_present = refl

kernel_refs : booted.frames.refs 1 ≡ 1
unfolding opened
kernel_refs = refl

machine-IsReachable : IsReachable absent 48 32 0x400010 (length bytes) machine
machine-IsReachable = record {
  current = refl;
  other = omega arith;
  active = refl;
  counted = booted-IsCounted;
  live_task = tt;
  live_cur = tt;
  free = no_window;
  fresh = λ e h. cc;
  dst_word = omega arith;
  entry_word = rw kernel_entry (omega arith);
  present = rw kernel_entry kernel_present;
  room = rw kernel_entry (rw kernel_refs (omega arith));
  some_bytes = omega arith;
  fits = omega arith;
}

task_write-Transferred_example :
    (m' : Machine) × (task_write 48 0x400010 (variable bytes) (length bytes) machine ≡ ok m')
    × Transferred absent 48 32 0x400010 bytes machine m'
task_write-Transferred_example =
    task_write-Transferred absent 48 32 0x400010 bytes machine machine-IsReachable

-- Behind a copy through the window of another frame, that frame gets the bytes.
abbrev stale_window : Machine
stale_window = record machine { stale = λ page. if page == 5 then some 0x800083 else none }

abbrev byte_at : ℕ → Outcome Machine → Outcome ℕ
byte_at a (ok m) = ok (m.phys a)
byte_at a stop = stop

test_stale_window :
    (byte_at 0x800010 (task_write 48 0x400010 (variable bytes) (length bytes) stale_window) ≡ ok 1)
    × (byte_at 0x400010 (task_write 48 0x400010 (variable bytes) (length bytes) stale_window)
        ≡ ok 0)
unfolding opened task_write copy with_window get_physical_addr remove_page set_page_frame_free
test_stale_window = (refl, refl)

-- A buffer of the current task, at the start of its other page.
machine-IsBuffer : IsBuffer 0x800000 (length bytes) 0x800000 machine
unfolding translate opened
machine-IsBuffer = record { word = omega arith; outside = λ k h. omega arith; mapped = first }
  where
    first : (k : ℕ) → k < length bytes → translate kernel (0x800000 + k) booted ≡ ok (0x800000 + k)
    first zero h = refl
    first (suc zero) h = refl
    first (suc (suc zero)) h = refl
    first (suc (suc (suc k))) h = absurd (omega arith)

task_read-task_write_example :
    (m' : Machine) × ((task_write 48 0x400010 (variable bytes) (length bytes) machine >>= λ m1.
    task_read 48 0x800000 0x400010 (length bytes) m1)
      ≡ ok m')
    × ((k : ℕ) → k < length bytes → get_elem? bytes k ≡ some (m'.phys (0x800000 + k)))
    × ((q : ℕ)
        → Outside 0x800000 (length bytes) q
        → Outside (place 48 0x400010 machine) (length bytes) q
        → m'.phys q ≡ machine.phys q)
    × ((d : Directory) (j : ℕ)
        → is_present (dir_at d machine.system.paging j) ≡ true
        → dir_at d m'.system.paging j ≡ dir_at d machine.system.paging j)
task_read-task_write_example =
    task_read-task_write absent 48 32 0x400010 0x800000 0x800000 bytes machine machine-IsReachable
      machine-IsBuffer (rw kernel_entry (omega arith))
