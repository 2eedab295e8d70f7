-- ===== src/Task/Schedule.antt =====
-- `schedule` and `exit_this_task` of kernel/task.cpp, and `TimerCallback` of kernel/timer.cpp.
use toy_kernel.Base.{
  ℕ, ◌+◌, ◌%◌, ◌^◌, Bool, true, false, not, ◌&&◌, ◌||◌, Option, none, some, List, [], ◌∷◌, ◌++◌,
  ◌==◌, if◌then◌else◌, Outcome, ok, stop, ◌>>=◌, ◌>>◌, check, need,
}
use toy_kernel.Task.Types.{
  running, completed, is_ready, TaskRegs, X86Registers, TaskPtr, Scheduler, update, set_task,
  kernel_code_segment, user_code_segment, user_data_segment, irq0,
}

-- Which routine of kernel/task.S the switch jumps to.
pub data Jump : Type 0 where
  first_kernel_task first_user_task user_task kernel_task : Jump

-- What a call of `schedule` comes to: it returns, or it jumps into a task and loads its registers.
pub data Next : Type 0 where
  stay : Next
  switch : TaskPtr → Jump → TaskRegs → Next

-- The registers that the interrupt stub saved, and the words of the stack from `regs->esp` on.
pub record Interrupt : Type 0 where
  pub regs : X86Registers
  pub word : ℕ → ℕ

-- The checks on the interrupted stack, with the `esp` to save and whether a user task was
-- interrupted in kernel space.
unfoldable pub adjusted_esp : Bool → Interrupt → Outcome (ℕ × Bool)
adjusted_esp user i = do
  check (i.word 0 == irq0)
  check (i.word 1 == 0)
  if not user
      then check (i.word 3 == 0x08) >> ok ((i.regs.esp + 20) % 2 ^ 32, false)
      else if i.word 3 == user_code_segment
      then check (i.word 6 == user_data_segment) >> ok (i.regs.useresp, false)
      else check (i.word 3 == kernel_code_segment) >> ok ((i.regs.esp + 20) % 2 ^ 32, true)

-- The registers that the scheduler saves for the interrupted task.
unfoldable pub saved_regs : X86Registers → ℕ → TaskRegs
saved_regs r esp = record {
  esp = esp;
  ebp = r.ebp;
  eax = r.eax;
  ebx = r.ebx;
  ecx = r.ecx;
  edx = r.edx;
  esi = r.esi;
  edi = r.edi;
  eflags = r.eflags;
  eip = r.eip;
  ds = r.ds % 2 ^ 16;
  es = r.ds % 2 ^ 16;
  fs = r.ds % 2 ^ 16;
  gs = r.ds % 2 ^ 16;
  cs = r.cs % 2 ^ 16;
}

-- `if (regs)` of `schedule`: the current task is saved.
unfoldable pub save_current : Interrupt → TaskPtr → Scheduler → Outcome Scheduler
unfolding adjusted_esp saved_regs
save_current i cur s = do
  (esp, in_kernel) ← adjusted_esp (s.tasks cur).user i
  ok (
      set_task cur
        (record (s.tasks cur) {
          regs = saved_regs i.regs esp;
          user_in_kernel_space = (s.tasks cur).user_in_kernel_space || in_kernel;
        })
        s)

-- The walk to the node of a task, and its removal. `none` if the task is not on the queue.
unfoldable pub remove_node : TaskPtr → List TaskPtr → Option (List TaskPtr)
remove_node p [] = none
remove_node p (q ∷ qs) =
    if q == p then some qs else elim (remove_node p qs) [ none ↦ none | some r ↦ some (q ∷ r) ]

abbrev pub is_task : Option TaskPtr → TaskPtr → Bool
is_task none p = false
is_task (some q) p = q == p

-- The `else` of `if (regs)`: the current task exits, and its node is removed.
unfoldable pub drop_current : TaskPtr → Scheduler → Outcome Scheduler
unfolding remove_node
drop_current cur s = do
  check (not (is_task s.main_task cur))
  queue ← need (remove_node cur s.ready_queue)
  ok (record s { ready_queue = queue })

unfoldable pub leave : Option Interrupt → TaskPtr → Scheduler → Outcome Scheduler
unfolding save_current drop_current
leave (some i) cur s = save_current i cur s
leave none cur s = drop_current cur s

-- What is read is the entry point. A read that stops is none.
abbrev pub reads_entry : Outcome ℕ → (entry : ℕ) → Bool
reads_entry (ok v) entry = v == entry
reads_entry stop entry = false

-- `SetupBeforeTaskRun`. `peek` reads a word in the task's address space or stops, as `Task::Read` does.
unfoldable pub setup_before_task_run :
    (peek : TaskPtr → ℕ → Outcome ℕ) → TaskPtr → Scheduler → Outcome Scheduler
setup_before_task_run peek p s =
    let t = s.tasks p in
    if not t.user then ok s else do
      check (t.stack % 4 == 0)
      check (not (is_ready t.state) || reads_entry (peek p t.regs.esp) t.entry)
      ok (record s { esp0 = t.stack })

abbrev pub jump_of : (first to_user : Bool) → Jump
jump_of true false = first_kernel_task
jump_of true true = first_user_task
jump_of false true = user_task
jump_of false false = kernel_task

-- The end of `schedule`: the next task is entered.
unfoldable pub enter :
    (peek : TaskPtr → ℕ → Outcome ℕ) → TaskPtr → Bool → Scheduler → Outcome (Next × Scheduler)
unfolding setup_before_task_run
enter peek p to_user s = do
  s1 ← setup_before_task_run peek p s
  let t = s1.tasks p
  let first = is_ready t.state
  check (first || not (t.regs.eip == 0))
  ok (
    switch p (jump_of first to_user) t.regs,
    record s1 {
      tasks = update s1.tasks p (record t { state = running });
      cr3 = t.page_directory;
      current = some p;
    },
  )

-- The queue of `schedule` has at least the two nodes `next` and the head of `rest`.
unfoldable pub switch_from :
    (peek : TaskPtr → ℕ → Outcome ℕ)
    → Option Interrupt
    → (next : TaskPtr) (rest : List TaskPtr) → Scheduler
    → Outcome (Next × Scheduler)
unfolding leave enter
switch_from peek frame next rest s = do
  check (not s.interrupts)
  cur ← need s.current
  let s1 =
      set_task cur (record (s.tasks cur) { user_in_kernel_space = false })
        (record s { ready_queue = rest ++ (next ∷ []) })
  let to_user = (s.tasks next).user && not (s1.tasks next).user_in_kernel_space
  s2 ← leave frame cur s1
  enter peek next to_user s2

unfoldable pub schedule_on :
    (peek : TaskPtr → ℕ → Outcome ℕ)
    → Option Interrupt
    → List TaskPtr
    → Scheduler
    → Outcome (Next × Scheduler)
unfolding switch_from
schedule_on peek frame [] s = ok (stay, s)
schedule_on peek frame (next ∷ []) s = ok (stay, s)
schedule_on peek frame (next ∷ second ∷ rest) s = switch_from peek frame next (second ∷ rest) s

-- `schedule`. No frame is the null `regs` of a task exit.
unfoldable pub schedule :
    (peek : TaskPtr → ℕ → Outcome ℕ) → Option Interrupt → Scheduler → Outcome (Next × Scheduler)
unfolding schedule_on
schedule peek frame s = schedule_on peek frame s.ready_queue s

-- `exit_this_task` panics if `schedule` returns.
unfoldable pub exit_this_task :
    (peek : TaskPtr → ℕ → Outcome ℕ) → Scheduler → Outcome (Next × Scheduler)
exit_this_task peek s = do
  cur ← need s.current
  let s1 =
      set_task cur (record (s.tasks cur) { state = completed }) (record s { interrupts = false })
  (next, s2) ← schedule peek none s1
  elim next [ stay ↦ stop | switch p j r ↦ ok (switch p j r, s2) ]

abbrev pub quanta : ℕ
quanta = 2

-- `TimerCallback`, with its count of ticks.
unfoldable pub timer_callback :
    (peek : TaskPtr → ℕ → Outcome ℕ) → Interrupt → ℕ × Scheduler → Outcome (Next × ℕ × Scheduler)
timer_callback peek i (tick, s) =
    let now = (tick + 1) % 2 ^ 32 in
    if now % quanta == 0
    then (do (next, s') ← schedule peek (some i) s; ok (next, now, s'))
    else ok (stay, now, s)
