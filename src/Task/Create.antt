-- ===== src/Task/Create.antt =====
-- Construction and destruction of tasks in kernel/task.cpp.
use toy_kernel.Base.{
  ℕ, ◌+◌, ◌-◌, ◌%◌, ◌^◌, Bool, true, false, not, ◌&&◌, Option, none, some, List, [], ◌∷◌, ◌++◌,
  ◌==◌, Outcome, ok, stop, ◌>>=◌, ◌>>◌, check, need,
}
use toy_kernel.Task.Types.{
  ready, running, is_completed, TaskRegs, TaskPtr, Task, Scheduler, update, set_task,
  kernel_data_segment, kernel_code_segment,
}
use toy_kernel.Task.Schedule.{remove_node}

abbrev pub is_null : List TaskPtr → Bool
is_null [] = true
is_null _ = false

abbrev pub is_none : Option TaskPtr → Bool
is_none none = true
is_none (some _) = false

-- `memset(&regs_, 0, sizeof(regs_))`.
abbrev pub zero_regs : TaskRegs
zero_regs = record {
  esp = 0;
  ebp = 0;
  eax = 0;
  ebx = 0;
  ecx = 0;
  edx = 0;
  esi = 0;
  edi = 0;
  eflags = 0;
  eip = 0;
  ds = 0;
  es = 0;
  fs = 0;
  gs = 0;
  cs = 0;
}

-- `Task::Task()`, the task that the kernel starts in. `junk` and `stack` are what the storage of
-- `user_in_kernel_space_` and `stack_allocation_` held: no constructor sets them.
unfoldable pub main_task : (junk : Bool) (stack page_directory : ℕ) → Scheduler → Task
main_task junk stack pd s = record {
  id = s.next_tid;
  state = running;
  regs = zero_regs;
  page_directory = pd;
  user = false;
  user_in_kernel_space = junk;
  parent = none;
  children = [];
  stack = stack;
  entry = 0;
}

-- `InitScheduler`, with the address and the storage that `new` gives.
unfoldable pub init_scheduler :
    (p : TaskPtr) (junk : Bool) (stack page_directory : ℕ) → Scheduler → Outcome Scheduler
unfolding main_task
init_scheduler p junk stack pd s = do
  check (is_null s.ready_queue && is_none s.current && is_none s.main_task)
  ok (record s {
    tasks = update s.tasks p (main_task junk stack pd s);
    next_tid = (s.next_tid + 1) % 2 ^ 32;
    current = some p;
    main_task = some p;
    ready_queue = p ∷ [];
  })

-- `Task::Task(PageDirectory &)`, with the members of the derived class that its initialisers set.
unfoldable pub new_task :
    (p : TaskPtr) (junk user : Bool) (page_directory stack entry : ℕ)
    → Scheduler
    → Outcome Scheduler
new_task p junk user pd stack entry s = do
  check (not (is_null s.ready_queue))
  parent ← need s.current
  let t : Task = record {
    id = s.next_tid;
    state = ready;
    regs = zero_regs;
    page_directory = pd;
    user = user;
    user_in_kernel_space = junk;
    parent = some parent;
    children = [];
    stack = stack;
    entry = entry;
  }
  let s1 = set_task p t (record s { next_tid = (s.next_tid + 1) % 2 ^ 32 })
  ok (
      set_task parent
        (record (s1.tasks parent) { children = (s1.tasks parent).children ++ (p ∷ []) }) s1)

-- `AddToQueue`.
unfoldable pub add_to_queue : TaskPtr → Scheduler → Scheduler
add_to_queue p s = record s { ready_queue = p ∷ s.ready_queue }

-- `*(--stack_bottom) = v`, for the values in order: the last lies lowest.
unfoldable pub push_words : ℕ → List ℕ → (ℕ → ℕ) → ℕ × (ℕ → ℕ)
push_words esp [] m = (esp, m)
push_words esp (v ∷ vs) m = push_words (esp - 4) vs (update m (esp - 4) v)

-- `KernelTask::KernelTask(func, arg)`. `stack` is the end of the chunk that `kmalloc` returned, and
-- `exit_addr` the address of `exit_this_task`.
unfoldable pub new_kernel_task :
    (p : TaskPtr) (junk : Bool) (page_directory stack exit_addr func arg : ℕ)
    → Scheduler
    → Outcome Scheduler
unfolding new_task add_to_queue push_words
new_kernel_task p junk pd stack exit_addr func arg s = do
  s1 ← new_task p junk false pd stack 0 s
  check (stack % 4 == 0)
  let (esp, memory) =
      push_words stack (arg ∷ exit_addr ∷ 0x202 ∷ kernel_code_segment ∷ func ∷ []) s1.memory
  let t = s1.tasks p
  let regs : TaskRegs = record t.regs {
    ds = kernel_data_segment;
    cs = kernel_code_segment;
    esp = esp;
  }
  ok (add_to_queue p (set_task p (record t { regs = regs }) (record s1 { memory = memory })))

-- `Join` returns once the task is completed; until then it spins with the interrupts on.
unfoldable pub join : TaskPtr → Scheduler → Outcome Bool
join p s = check s.interrupts >> ok (is_completed (s.tasks p).state)

-- `~Task`. `RemoveChildTask` asserts that the child is there.
unfoldable pub destroy_task : TaskPtr → Scheduler → Outcome Scheduler
destroy_task p s = do
  check (is_null (s.tasks p).children)
  elim (s.tasks p).parent [
    | none ↦ ok s
    | some q ↦ need (remove_node p (s.tasks q).children) >>= λ left.
        ok (set_task q (record (s.tasks q) { children = left }) s)
  ]

-- `DestroyScheduler`, up to `delete`: only the main task may be left.
unfoldable pub destroy_scheduler : Scheduler → Outcome Scheduler
unfolding destroy_task
destroy_scheduler s = elim s.ready_queue [
  | [] ↦ stop
  | p ∷ rest ↦ check (is_null rest) >> destroy_task p s
]
