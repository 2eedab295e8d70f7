-- ===== src/Task/Types.antt =====
-- The data of kernel/include/ktask.h and kernel/include/isr.h, and the globals of kernel/task.cpp.
pub use toy_kernel.Base.{update}
use toy_kernel.Base.{ℕ, Bool, true, false, Option, List}

-- `enum TaskState`.
pub data TaskState : Type 0 where
  ready running completed : TaskState

abbrev pub is_ready : TaskState → Bool
is_ready ready = true
is_ready _ = false

abbrev pub is_completed : TaskState → Bool
is_completed completed = true
is_completed _ = false

-- `struct X86TaskRegs`.
pub record TaskRegs : Type 0 where
  pub esp : ℕ
  pub ebp : ℕ
  pub eax : ℕ
  pub ebx : ℕ
  pub ecx : ℕ
  pub edx : ℕ
  pub esi : ℕ
  pub edi : ℕ
  pub eflags : ℕ
  pub eip : ℕ
  pub ds : ℕ
  pub es : ℕ
  pub fs : ℕ
  pub gs : ℕ
  pub cs : ℕ

-- `struct X86Registers`, what an interrupt stub leaves on the stack.
pub record X86Registers : Type 0 where
  pub ds : ℕ
  pub edi : ℕ
  pub esi : ℕ
  pub ebp : ℕ
  pub esp : ℕ
  pub ebx : ℕ
  pub edx : ℕ
  pub ecx : ℕ
  pub eax : ℕ
  pub int_no : ℕ
  pub err_code : ℕ
  pub eip : ℕ
  pub cs : ℕ
  pub eflags : ℕ
  pub useresp : ℕ
  pub ss : ℕ

-- A task is known by its address. 0 is no task.
abbrev pub TaskPtr : Type 0
TaskPtr = ℕ

-- `class Task` with what `UserTask` and `KernelTask` add to it: `user` is `isUserTask()`, `stack` the
-- end of the stack (`getEsp0StackPointer` of a user task), `entry` is `USER_START + entry_offset_`.
pub record Task : Type 0 where
  pub id : ℕ
  pub state : TaskState
  pub regs : TaskRegs
  pub page_directory : ℕ
  pub user : Bool
  pub user_in_kernel_space : Bool
  pub parent : Option TaskPtr
  pub children : List TaskPtr
  pub stack : ℕ
  pub entry : ℕ

-- `CurrentTask`, `next_tid`, `ReadyQueue` (the `task` fields along the list), `kMainKernelTask`, the
-- task objects, the interrupt flag, the page directory in CR3, `tss_entry.esp0`, and the words of
-- kernel memory.
pub record Scheduler : Type 0 where
  pub current : Option TaskPtr
  pub next_tid : ℕ
  pub ready_queue : List TaskPtr
  pub main_task : Option TaskPtr
  pub tasks : TaskPtr → Task
  pub interrupts : Bool
  pub cr3 : ℕ
  pub esp0 : ℕ
  pub memory : ℕ → ℕ

abbrev pub set_task : TaskPtr → Task → Scheduler → Scheduler
set_task p t s = record s { tasks = update s.tasks p t }

abbrev pub kernel_data_segment : ℕ
kernel_data_segment = 0x10

abbrev pub user_data_segment : ℕ
user_data_segment = 0x23

abbrev pub kernel_code_segment : ℕ
kernel_code_segment = 0x08

abbrev pub user_code_segment : ℕ
user_code_segment = 0x1b

-- `IRQ0`, the timer's interrupt.
abbrev pub irq0 : ℕ
irq0 = 32
