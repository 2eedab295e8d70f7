-- ===== src/Interrupts/Tests.antt =====
-- An interrupt request with a handler, and an exception without one.
use toy_kernel.Base.{
  ℕ, ◌≡◌, refl, true, false, none, some, List, [], ◌∷◌, ◌++◌, ◌==◌, arith, Outcome, ok, stop,
}
use toy_kernel.Task.{
  running, completed, Task, TaskPtr, X86Registers, Next, stay, zero_regs, exit_this_task, schedule,
}
use toy_kernel.Task.Queue.{has, drop_last}
use toy_kernel.Task.Order.{IsScheduled}
use toy_kernel.Interrupts.{
  Kernel, Handler, Handlers, register_interrupt_handler, isr_handler, irq_handler, dump_registers,
}
use toy_kernel.Interrupts.Controllers.{idle, raise, port_writes, irq_handler-raise}
use toy_kernel.Interrupts.Faults.{isr_handler-ends_task}

abbrev main : Task
main = record {
  id = 0;
  state = running;
  regs = record zero_regs { eip = 0x400000 };
  page_directory = 0;
  user = false;
  user_in_kernel_space = false;
  parent = none;
  children = [];
  stack = 0x2000800;
  entry = 0;
}

abbrev all_tasks : TaskPtr → Task
all_tasks p = elim (p == 32) [ true ↦ record main { id = 1; user = true } | false ↦ main ]

-- The user task 32 runs.
abbrev kernel_state : Kernel
kernel_state = record {
  scheduler = record {
    current = some 32;
    next_tid = 2;
    ready_queue = 16 ∷ 32 ∷ [];
    main_task = some 16;
    tasks = all_tasks;
    interrupts = false;
    cr3 = 0;
    esp0 = 0;
    memory = λ a. 0;
  };
  ports = [];
}

state-IsScheduled : IsScheduled kernel_state.scheduler
state-IsScheduled = record {
  current_last = refl;
  distinct = (refl, (refl, tt));
  alive = (refl, (refl, tt));
  main_queued = λ m h. ground arith;
}

abbrev registers : ℕ → X86Registers
registers n = record {
  ds = 0;
  edi = 0;
  esi = 0;
  ebp = 0;
  esp = 0;
  ebx = 0;
  edx = 0;
  ecx = 0;
  eax = 0;
  int_no = n;
  err_code = 0;
  eip = 0;
  cs = 0;
  eflags = 0;
  useresp = 0;
  ss = 0;
}

abbrev nothing : Handler
nothing regs k = ok (stay, k)

-- A handler for line 12, and no other.
abbrev table : Handlers
table = register_interrupt_handler 44 nothing (λ n. none)

irq_handler-raise_example :
    (writes : List (ℕ × ℕ)) × (irq_handler table (registers 44) kernel_state
      ≡ nothing (registers 44) (record kernel_state { ports = [] ++ writes }))
    × (port_writes writes (raise 12 idle) ≡ idle)
irq_handler-raise_example =
    irq_handler-raise 12 nothing table (registers 44) kernel_state idle (omega arith) refl refl refl

abbrev result : Outcome (Next × Kernel) → Next × Kernel
result (ok r) = r
result stop = (stay, kernel_state)

abbrev peek : TaskPtr → ℕ → Outcome ℕ
peek p a = ok 0

-- A general protection fault.
abbrev faulted : Next × Kernel
faulted = result (isr_handler peek table (registers 13) kernel_state)

faulted-ok : isr_handler peek table (registers 13) kernel_state ≡ ok faulted
unfolding isr_handler dump_registers exit_this_task schedule
faulted-ok = refl

isr_handler-ends_task_example :
    IsScheduled faulted.1.scheduler
    × (faulted.1.scheduler.ready_queue ≡ drop_last (32 ∷ []) ++ (16 ∷ []))
    × (faulted.1.scheduler.current ≡ some 16)
    × ((faulted.1.scheduler.tasks 16).state ≡ running)
    × ((faulted.1.scheduler.tasks 32).state ≡ completed)
    × (has 32 faulted.1.scheduler.ready_queue ≡ false)
    × (faulted.1.ports ≡ [])
isr_handler-ends_task_example =
    isr_handler-ends_task peek table (registers 13) kernel_state faulted.1 faulted.0 32 16 32 []
      refl refl refl refl state-IsScheduled faulted-ok
