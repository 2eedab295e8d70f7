-- ===== src/Users.antt =====
-- `UserTask` of kernel/task.cpp, its construction and destruction, and the system calls of
-- kernel/syscall.cpp on such tasks.
pub mod Stack
pub mod Reading
pub mod Pushes
pub mod Entry
mod Tests
use toy_kernel.Base.{
  ℕ, ◌+◌, ◌-◌, ◌*◌, ◌/◌, ◌%◌, ◌^◌, Bool, true, false, not, List, [], ◌∷◌, ◌==◌, Outcome, ok, stop,
  ◌>>=◌, ◌>>◌, check, need,
}
use toy_kernel.Task.{
  TaskPtr, Task, Scheduler, set_task, user_data_segment, user_code_segment, new_task, add_to_queue,
  exit_this_task, join, destroy_task, Next,
}
use toy_kernel.Paging.{
  Directory, Paging, kernel, slot, page_directory_region_start, page_dir_size,
  user_shared_space_start, user_start, pg_user, next_free_physical_page, add_page, remove_page,
  get_physical_addr, is_virtual_mapped, clone, reclaim_page_dir_region,
}
use toy_kernel.Calls.{System, directory}
use toy_kernel.Transfer.{
  Machine, with_paging, drop_page, translate, memory_at, variable, copy, task_write, task_read,
}

-- `USER_SHARED_SPACE_END`
abbrev pub user_shared_space_end : ℕ
user_shared_space_end = 0x1000000

-- The bytes of a word, the lowest first.
abbrev pub word_bytes : ℕ → List ℕ
word_bytes v = v % 2 ^ 8 ∷ v / 2 ^ 8 % 2 ^ 8 ∷ v / 2 ^ 16 % 2 ^ 8 ∷ v / 2 ^ 24 % 2 ^ 8 ∷ []

-- `Write(--stack_bottom, &v, 4)`, for the values in order: the last lies lowest.
unfoldable pub push_user : TaskPtr → (esp : ℕ) → List ℕ → Machine → Outcome (ℕ × Machine)
push_user task esp [] m = ok (esp, m)
push_user task esp (v ∷ vs) m =
    task_write task (esp - 4) (variable (word_bytes v)) 4 m >>= λ m1. push_user task (esp - 4) vs m1

-- The word at an address of physical memory, and at a virtual address that is a multiple of 4.
abbrev pub word_at : (ℕ → ℕ) → ℕ → ℕ
word_at x a = x a + x (a + 1) * 2 ^ 8 + x (a + 2) * 2 ^ 16 + x (a + 3) * 2 ^ 24

unfoldable pub read_word : Directory → (vaddr : ℕ) → Machine → Outcome ℕ
read_word d vaddr m = translate d vaddr m.system.paging >>= λ a. ok (word_at m.phys a)

-- `CopyArgFunc`: the value for the stack, and the machine.
abbrev pub CopyArgFunc : Type 0
CopyArgFunc = (arg dst_start dst_end : ℕ) → Machine → Outcome (ℕ × Machine)

-- `CopyArgDefault`
unfoldable pub copy_arg_default : CopyArgFunc
copy_arg_default arg dst_start dst_end m =
    copy 4 0 (dst_end - 4) (variable (word_bytes arg)) m >>= λ m1. ok (arg, m1)

abbrev pub with_scheduler : Scheduler → Machine → Machine
with_scheduler s m = record m { system = record m.system { scheduler = s } }

-- The first stack of a user task, from `getStackPointer` on: what `iret` takes off it, below the
-- argument.
abbrev pub first_stack : (arg_at entry : ℕ) → List ℕ
first_stack arg_at entry = user_data_segment ∷ arg_at ∷ 0x202 ∷ user_code_segment ∷ entry ∷ []

-- The stack and the registers of a new user task.
unfoldable pub set_up_stack : TaskPtr → (stack_arg entry : ℕ) → Machine → Outcome Machine
unfolding push_user
set_up_stack p stack_arg entry m = do
  (arg_at, m1) ← push_user p user_shared_space_end (stack_arg ∷ []) m
  (esp, m2) ← push_user p arg_at (first_stack arg_at entry) m1
  let t = m2.system.scheduler.tasks p
  let regs = record t.regs { ds = user_data_segment; cs = user_code_segment; esp = esp }
  ok (with_scheduler (set_task p (record t { regs = regs }) m2.system.scheduler) m2)

-- The end of the constructor: the code of the task, from the current task's space.
unfoldable pub load_code : TaskPtr → (func codesize : ℕ) → Machine → Outcome Machine
load_code p func codesize m = do
  paddr ← next_free_physical_page m.system.paging.frames 0
  paging ← add_page (directory p m.system) user_start paddr pg_user false m.system.paging
  found ← get_physical_addr (directory p m.system) user_start paging
  check (found == paddr)
  task_write p user_start (memory_at func) codesize (with_paging paging m)

-- `UserTask::UserTask`. `junk` is what the storage of `user_in_kernel_space_` held, and `esp0` the end of
-- the chunk that `kmalloc` returned.
unfoldable pub new_user_task :
    (p : TaskPtr) (junk : Bool) (esp0 func codesize arg : ℕ)
    → CopyArgFunc
    → (entry_offset : ℕ) → Machine
    → Outcome Machine
unfolding set_up_stack load_code drop_page
new_user_task p junk esp0 func codesize arg copyfunc entry_offset m = do
  (bit, cloned) ← clone kernel m.system.paging
  let pd = page_directory_region_start + bit * page_dir_size
  let entry = (user_start + entry_offset) % 2 ^ 32
  scheduler ← new_task p junk true pd esp0 entry m.system.scheduler
  let m1 = with_scheduler scheduler (with_paging cloned m)
  paddr ← next_free_physical_page cloned.frames 1
  check (not (is_virtual_mapped (directory p m1.system) user_shared_space_start cloned))
  own ← add_page (directory p m1.system) user_shared_space_start paddr pg_user false cloned
  both ← add_page kernel user_shared_space_start paddr 0 true own
  (stack_arg, m2) ← copyfunc arg user_shared_space_start user_shared_space_end (with_paging both m1)
  m3 ← set_up_stack p stack_arg entry m2
  m4 ← drop_page kernel user_shared_space_start m3
  load_code p func codesize (with_scheduler (add_to_queue p m4.system.scheduler) m4)

-- `UserTask::~UserTask` with `~Task`, once `Join` has returned: until then it spins.
unfoldable pub delete_user_task : TaskPtr → Machine → Outcome Machine
delete_user_task p m = do
  done ← join p m.system.scheduler
  check done
  paging ← reclaim_page_dir_region (directory p m.system) m.system.paging
  scheduler ← destroy_task p m.system.scheduler
  ok (with_scheduler scheduler (with_paging paging m))

-- `create_user_task`: the handle is the new task's address.
unfoldable pub create_user_task :
    (p : TaskPtr) (junk : Bool) (esp0 entry codesize arg entry_offset : ℕ)
    → Machine
    → Outcome (TaskPtr × Machine)
unfolding new_user_task copy_arg_default
create_user_task p junk esp0 entry codesize arg entry_offset m =
    new_user_task p junk esp0 entry codesize arg copy_arg_default entry_offset m >>= λ m1.
    ok (p, m1)

-- `destroy_user_task`, which has the interrupts on while it waits.
unfoldable pub destroy_user_task : TaskPtr → Machine → Outcome Machine
unfolding delete_user_task
destroy_user_task p m = do
  check (m.system.scheduler.tasks p).user
  let on = with_scheduler (record m.system.scheduler { interrupts = true }) m
  m1 ← delete_user_task p on
  ok (with_scheduler (record m1.system.scheduler { interrupts = false }) m1)

-- `copy_from_task`
unfoldable pub copy_from_task : (handle : TaskPtr) → (dst src size : ℕ) → Machine → Outcome Machine
copy_from_task handle dst src size m =
    check (m.system.scheduler.tasks handle).user >> task_read handle dst src size m
