-- ===== src/Task/Tests.antt =====
-- Two tasks, the main task and a user task, and the theorems of the scheduler at them.
use toy_kernel.Base.{
  ℕ, zero, suc, ◌≡◌, refl, true, false, none, some, [], ◌∷◌, ◌++◌, ◌==◌, arith, Outcome, ok, stop,
  is_ok,
}
use toy_kernel.Task.Types.{running, completed, X86Registers, TaskPtr, Task, Scheduler}
use toy_kernel.Task.Schedule.{
  Interrupt, Next, stay, schedule, exit_this_task, is_task, timer_callback,
}
use toy_kernel.Task.Create.{zero_regs, init_scheduler, new_kernel_task}
use toy_kernel.Task.Queue.{has}
use toy_kernel.Task.Order.{IsScheduled}
use toy_kernel.Task.Rounds.{start, turn, turn_of}
use toy_kernel.Task.Exit.{exit_this_task-dequeues}
use toy_kernel.Task.Saves.{IsTimerStack}
use toy_kernel.Task.Context.{CanRun, TimerSwitch, schedule-swaps, schedule-returns}
use toy_kernel.Task.Runs.{here, next, timer, Reach-IsScheduled}

abbrev blank_task : Task
blank_task = record {
  id = 0;
  state = running;
  regs = record zero_regs { eip = 0x400000 };
  page_directory = 0;
  user = false;
  user_in_kernel_space = false;
  parent = none;
  children = [];
  stack = 0x2000800;
  entry = 0;
}

abbrev user_child : Task
user_child = record blank_task {
  id = 1;
  user = true;
  parent = some 16;
  page_directory = 1;
  regs = record zero_regs { eip = 0x40000010; esp = 0xfffff0 };
}

abbrev all_tasks : TaskPtr → Task
all_tasks p = elim (p == 32) [ true ↦ user_child | false ↦ blank_task ]

abbrev two : Scheduler
two = record {
  current = some 16;
  next_tid = 2;
  ready_queue = 32 ∷ 16 ∷ [];
  main_task = some 16;
  tasks = all_tasks;
  interrupts = false;
  cr3 = 0;
  esp0 = 0;
  memory = λ a. 0;
}

-- The user task runs.
abbrev user_runs : Scheduler
user_runs = record two { current = some 32; ready_queue = 16 ∷ 32 ∷ [] }

abbrev peek : TaskPtr → ℕ → Outcome ℕ
peek p a = ok 0

abbrev timer_regs : X86Registers
timer_regs = record {
  ds = 0x10;
  edi = 1;
  esi = 2;
  ebp = 3;
  esp = 0x2001000;
  ebx = 4;
  edx = 5;
  ecx = 6;
  eax = 7;
  int_no = 32;
  err_code = 0;
  eip = 0x400123;
  cs = 8;
  eflags = 0x202;
  useresp = 0;
  ss = 0;
}

abbrev stack_words : ℕ → ℕ
stack_words zero = 32
stack_words (suc (suc (suc zero))) = 8
stack_words n = 0

abbrev tick_in_kernel : Interrupt
tick_in_kernel = record { regs = timer_regs; word = stack_words }

abbrev result : Outcome (Next × Scheduler) → Next × Scheduler
result (ok r) = r
result stop = (stay, two)

result-ok : (m : Outcome (Next × Scheduler)) → is_ok m ≡ true → m ≡ ok (result m)
result-ok (ok r) h = refl
result-ok stop h = cc

two-IsScheduled : IsScheduled two
two-IsScheduled = record {
  current_last = refl;
  distinct = (refl, (refl, tt));
  alive = (refl, (refl, tt));
  main_queued = λ m h. ground arith;
}

user_runs-IsScheduled : IsScheduled user_runs
user_runs-IsScheduled = record {
  current_last = refl;
  distinct = (refl, (refl, tt));
  alive = (refl, (refl, tt));
  main_queued = λ m h. ground arith;
}

tick_in_kernel-IsTimerStack : IsTimerStack false tick_in_kernel
tick_in_kernel-IsTimerStack = record {
  number = refl;
  no_error = refl;
  kernel_task_in_kernel = λ h. refl;
  user_task_anywhere = λ h. cc;
}

user_child-CanRun : CanRun peek 32 user_child
user_child-CanRun = record {
  stack_aligned = refl;
  starts_at_entry = λ h. cc;
  has_run = λ h. omega arith;
}

schedule-returns_example : is_ok (schedule peek (some tick_in_kernel) two) ≡ true
schedule-returns_example =
    schedule-returns peek tick_in_kernel two 32 16 (16 ∷ []) refl 16 [] refl refl two-IsScheduled
      refl tick_in_kernel-IsTimerStack user_child-CanRun

abbrev once : Next × Scheduler
once = result (schedule peek (some tick_in_kernel) two)

-- `schedule` runs on the state `two`.
once-ok : schedule peek (some tick_in_kernel) two ≡ ok once
unfolding schedule
once-ok = refl

schedule-swaps_example : TimerSwitch peek tick_in_kernel two 32 16 (16 ∷ []) refl once.0 once.1
schedule-swaps_example =
    schedule-swaps peek tick_in_kernel two 32 16 (16 ∷ []) refl 16 [] refl refl two-IsScheduled
      once-ok

turn_of_example : (once.1.current ≡ some 32) × (once.1.ready_queue ≡ (16 ∷ []) ++ (32 ∷ []))
turn_of_example =
    turn_of {peek = peek} 32 [] (16 ∷ []) two-IsScheduled refl
      (turn tick_in_kernel false start once-ok)

abbrev ended : Next × Scheduler
ended = result (exit_this_task peek user_runs)

ended-ok : exit_this_task peek user_runs ≡ ok ended
unfolding exit_this_task schedule
ended-ok = refl

exit_this_task-dequeues_example :
    IsScheduled ended.1
    × (ended.1.ready_queue ≡ 16 ∷ [])
    × (ended.1.current ≡ some 16)
    × ((ended.1.tasks 16).state ≡ running)
    × ((ended.1.tasks 32).state ≡ completed)
    × (has 32 ended.1.ready_queue ≡ false)
    × (is_task (some 16) 32 ≡ false)
exit_this_task-dequeues_example =
    exit_this_task-dequeues peek 16 (32 ∷ []) 32 [] 32 refl refl refl user_runs-IsScheduled ended-ok

abbrev only : Outcome Scheduler → Scheduler
only (ok s) = s
only stop = two

abbrev three : Scheduler
three = only (new_kernel_task 64 false 0 0x2001800 0x401000 0x402000 9 two)

three-ok : new_kernel_task 64 false 0 0x2001800 0x401000 0x402000 9 two ≡ ok three
unfolding new_kernel_task
three-ok = refl

abbrev boot : Scheduler
boot = record two { current = none; main_task = none; ready_queue = [] }

abbrev booted : Scheduler
booted = only (init_scheduler 16 false 0 0 boot)

booted-ok : init_scheduler 16 false 0 0 boot ≡ ok booted
unfolding init_scheduler
booted-ok = refl

-- On a queue of one task the timer changes nothing.
booted_ticks : schedule peek (some tick_in_kernel) booted ≡ ok (stay, booted)
unfolding schedule init_scheduler
booted_ticks = refl

Reach-IsScheduled_example : IsScheduled booted
Reach-IsScheduled_example =
    Reach-IsScheduled {peek = peek} 16 false 0 0 boot booted-ok
      (next here (timer tick_in_kernel stay booted_ticks))

-- The second of two ticks calls `schedule`.
every_second_tick :
    (timer_callback peek tick_in_kernel (0, booted) ≡ ok (stay, 1, booted))
    × (timer_callback peek tick_in_kernel (1, booted) ≡ ok (stay, 2, booted))
unfolding timer_callback schedule init_scheduler
every_second_tick = (refl, refl)
