-- ===== src/Interrupts.antt =====
-- The dispatch of interrupts in kernel/isr.cpp, on the scheduler and the ports of the interrupt
-- controllers.
pub mod Controllers
pub mod Faults
mod Tests
use toy_kernel.Base.{
  ℕ, ◌+◌, ◌%◌, ◌^◌, Bool, true, false, not, Option, none, some, List, [], ◌∷◌, ◌++◌, update, ltb,
  leb, if◌then◌else◌, Outcome, ok, stop, ◌>>=◌, ◌>>◌, check, need,
}
use toy_kernel.Task.{TaskPtr, X86Registers, Scheduler, Next, exit_this_task}

-- The scheduler, and the bytes that are written to ports, in their order.
pub record Kernel : Type 0 where
  pub scheduler : Scheduler
  pub ports : List (ℕ × ℕ)

-- `isr_t`: it returns, or it leaves into a task.
abbrev pub Handler : Type 0
Handler = X86Registers → Kernel → Outcome (Next × Kernel)

-- `interrupt_handlers`
abbrev pub Handlers : Type 0
Handlers = ℕ → Option Handler

-- `RegisterInterruptHandler`, `UnregisterInterruptHandler` and `GetInterruptHandler`
abbrev pub register_interrupt_handler : (n : ℕ) → Handler → Handlers → Handlers
register_interrupt_handler n handler t = update t (n % 2 ^ 8) (some handler)

abbrev pub unregister_interrupt_handler : (n : ℕ) → Handlers → Handlers
unregister_interrupt_handler n t = update t (n % 2 ^ 8) none

abbrev pub get_interrupt_handler : (interrupt : ℕ) → Handlers → Option Handler
get_interrupt_handler interrupt t = t (interrupt % 2 ^ 8)

-- `interrupt_handlers[regs->int_no]`. A read behind the table is a stop.
abbrev pub handler_of : X86Registers → Handlers → Outcome (Option Handler)
handler_of regs t = check (ltb regs.int_no 256) >> ok (t regs.int_no)

-- `DumpRegisters`, but for what it prints: it asks the current task whether it is a user task.
unfoldable pub dump_registers : X86Registers → Kernel → Outcome Bool
dump_registers regs k = need k.scheduler.current >>= λ cur. ok (k.scheduler.tasks cur).user

-- `isr_handler`
unfoldable pub isr_handler : (peek : TaskPtr → ℕ → Outcome ℕ) → Handlers → Handler
unfolding dump_registers
isr_handler peek t regs k = do
  check (not k.scheduler.interrupts)
  found ← handler_of regs t
  elim found [
    | some handler ↦ handler regs k
    | none ↦ do
      user ← dump_registers regs k
      if user
          then (do
            (next, scheduler) ← exit_this_task peek k.scheduler
            ok (next, record k { scheduler = scheduler }))
          else stop
  ]

-- `Write8`
abbrev pub write8 : (port value : ℕ) → Kernel → Kernel
write8 port value k = record k { ports = k.ports ++ ((port, value) ∷ []) }

-- `irq_handler`
unfoldable pub irq_handler : Handlers → Handler
unfolding dump_registers
irq_handler t regs k = do
  check (not k.scheduler.interrupts)
  let k1 = if leb 40 regs.int_no then write8 0xA0 0x20 k else k
  let k2 = write8 0x20 0x20 k1
  found ← handler_of regs t
  elim found [ some handler ↦ handler regs k2 | none ↦ stop ]
