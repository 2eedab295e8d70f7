-- ===== src/Interrupts/Faults.antt =====
-- An exception that no handler takes.
use toy_kernel.Base.{
  Outcome, ℕ, ◌≡◌, refl, ap, ◌∙◌, true, false, some, none, List, [], ◌∷◌, ◌++◌, ltb, ok, check,
  need, not, >>=-eq-ok, ok-inj, sym, some-inj, need-eq-ok,
}
use toy_kernel.Task.{X86Registers, TaskPtr, Next, running, completed, exit_this_task}
use toy_kernel.Task.Queue.{has, drop_last}
use toy_kernel.Task.Order.{IsScheduled}
use toy_kernel.Task.Exit.{exit_this_task-dequeues}
use toy_kernel.Interrupts.{Kernel, Handlers, handler_of, isr_handler, dump_registers}

-- The call of `exit_this_task` behind an exception that no handler takes.
isr_handler-exits :
    (peek : TaskPtr → ℕ → Outcome ℕ) (t : Handlers) (regs : X86Registers) (k k' : Kernel) (n : Next)
    (cur : TaskPtr)
    → t regs.int_no ≡ none
    → k.scheduler.current ≡ some cur
    → (k.scheduler.tasks cur).user ≡ true
    → isr_handler peek t regs k ≡ ok (n, k')
    → (exit_this_task peek k.scheduler ≡ ok (n, k'.scheduler)) × (k'.ports ≡ k.ports)
unfolding isr_handler dump_registers
isr_handler-exits peek t regs k k' n cur unhandled is user h =
    let (_, off, h1) = >>=-eq-ok (check (not k.scheduler.interrupts)) _ h in
    let (found, looked, h2) = >>=-eq-ok (handler_of regs t) _ h1 in
    let (_, inside, h3) = >>=-eq-ok (check (ltb regs.int_no 256)) _ looked in
    let nothing : found ≡ none = sym (ok-inj h3) ∙ unhandled in
    let (in_user, dumped, h4) = >>=-eq-ok (dump_registers regs k) _ (rw nothing at h2) in
    let (cur', some_task, h5) = >>=-eq-ok (need k.scheduler.current) _ dumped in
    let same : cur' ≡ cur = some-inj (sym (need-eq-ok some_task) ∙ is) in
    let yes_user : in_user ≡ true =
      sym (ok-inj h5) ∙ ap (λ q. (k.scheduler.tasks q).user) same ∙ user in
    let ((n', s'), exits, h6) = >>=-eq-ok (exit_this_task peek k.scheduler) _ (rw yes_user at h4) in
    let last = ok-inj h6 in
    (exits ∙ ap (λ r. ok (r.0, r.1.scheduler)) last, ap (λ r. r.1.ports) (sym last))

-- An exception that no handler takes, in a user task while another task is ready, and the handling of
-- which does not stop: that task is completed and off the ready queue, the task at the head of the queue
-- is now current, running and last on it, the others keep their order, the scheduler's invariant holds,
-- and nothing is written to a port.
pub isr_handler-ends_task :
    (peek : TaskPtr → ℕ → Outcome ℕ) (t : Handlers) (regs : X86Registers) (k k' : Kernel) (n : Next)
    (cur next second : TaskPtr) (others : List TaskPtr)
    → t regs.int_no ≡ none
    → (k.scheduler.tasks cur).user ≡ true
    → k.scheduler.ready_queue ≡ next ∷ second ∷ others
    → k.scheduler.current ≡ some cur
    → IsScheduled k.scheduler
    → isr_handler peek t regs k ≡ ok (n, k')
    → IsScheduled k'.scheduler
      × (k'.scheduler.ready_queue ≡ drop_last (second ∷ others) ++ (next ∷ []))
      × (k'.scheduler.current ≡ some next)
      × ((k'.scheduler.tasks next).state ≡ running)
      × ((k'.scheduler.tasks cur).state ≡ completed)
      × (has cur k'.scheduler.ready_queue ≡ false)
      × (k'.ports ≡ k.ports)
isr_handler-ends_task peek t regs k k' n cur next second others unhandled user queue is v h =
    let (exits, ports) = isr_handler-exits peek t regs k k' n cur unhandled is user h in
    let (scheduled, q, c, runs, ended, gone, _) =
      exit_this_task-dequeues peek next (second ∷ others) second others cur refl queue is v exits in
    (scheduled, q, c, runs, ended, gone, ports)
