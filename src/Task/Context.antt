-- ===== src/Task/Context.antt =====
-- What a switch on the timer saves and restores, and that it goes through.
use toy_kernel.Base.{
  Outcome, ℕ, ◌+◌, ◌^◌, ◌%◌, ◌≡◌, refl, sym, ap, subst, ◌∙◌, ◌≢◌, Bool, true, false, not, ◌&&◌,
  some, List, ◌∷◌, ◌==◌, arith, ok, check, need, some-inj, is_ok, ok_of, is_ok->>=, ap₂,
}
use toy_kernel.Task.Types.{
  running, is_ready, TaskPtr, Task, TaskRegs, Scheduler, kernel_code_segment, user_code_segment,
}
use toy_kernel.Task.Schedule.{
  Interrupt, Next, switch, first_kernel_task, first_user_task, user_task, kernel_task, adjusted_esp,
  saved_regs, save_current, enter, leave, switch_from, schedule_on, schedule,
}
use toy_kernel.Task.Order.{IsScheduled, Parts, switch_from-Parts, rotated}
use toy_kernel.Task.Saves.{
  IsTimerStack, adjusted_esp-returns, adjusted_esp-Found, Swapped, Parts-Swapped, apart_of,
  leave-adjusted,
}

-- A task that `schedule` can enter.
pub record CanRun (peek : TaskPtr → ℕ → Outcome ℕ) (p : TaskPtr) (t : Task) : Type 0 where
  pub stack_aligned : t.stack % 4 ≡ 0
  pub starts_at_entry : is_ready t.state ≡ true → peek p t.regs.esp ≡ ok t.entry
  pub has_run : is_ready t.state ≡ false → t.regs.eip ≢ 0

enter-returns :
    (peek : TaskPtr → ℕ → Outcome ℕ) (p : TaskPtr) (b : Bool) (s : Scheduler)
    → CanRun peek p (s.tasks p)
    → is_ok (enter peek p b s) ≡ true
unfolding enter
enter-returns peek p b s c = ground (arith, c.starts_at_entry, c.has_run)

module _ (peek : TaskPtr → ℕ → Outcome ℕ) (i : Interrupt) (s : Scheduler) (next cur : TaskPtr)
    (rest : List TaskPtr) (is : s.current ≡ some cur) where
  -- The registers that are saved, by their names.
  pub record HoldsRegs (r : TaskRegs) : Type 0 where
    pub ebp : r.ebp ≡ i.regs.ebp
    pub eax : r.eax ≡ i.regs.eax
    pub ebx : r.ebx ≡ i.regs.ebx
    pub ecx : r.ecx ≡ i.regs.ecx
    pub edx : r.edx ≡ i.regs.edx
    pub esi : r.esi ≡ i.regs.esi
    pub edi : r.edi ≡ i.regs.edi
    pub eflags : r.eflags ≡ i.regs.eflags
    pub eip : r.eip ≡ i.regs.eip
    pub ds : r.ds ≡ i.regs.ds % 2 ^ 16
    pub es : r.es ≡ i.regs.ds % 2 ^ 16
    pub fs : r.fs ≡ i.regs.ds % 2 ^ 16
    pub gs : r.gs ≡ i.regs.ds % 2 ^ 16
    pub cs : r.cs ≡ i.regs.cs % 2 ^ 16

  -- What a call on the timer saves and where it goes on, in the words of the processor: `word 3` of the
  -- stack is the interrupted code segment, behind which `useresp` is the user's stack pointer; five words
  -- lie on the stack of kernel code.
  pub record TimerSwitch (n : Next) (s' : Scheduler) : Type 0 where
    pub saved : HoldsRegs (s'.tasks cur).regs
    pub stack : IsTimerStack (s.tasks cur).user i
    pub in_user_code :
        (s.tasks cur).user ≡ true
        → i.word 3 ≡ user_code_segment
        → ((s'.tasks cur).regs.esp ≡ i.regs.useresp) × ((s'.tasks cur).user_in_kernel_space ≡ false)
    pub in_kernel_code :
        i.word 3 ≡ kernel_code_segment
        → ((s'.tasks cur).regs.esp ≡ (i.regs.esp + 20) % 2 ^ 32)
          × ((s'.tasks cur).user_in_kernel_space ≡ (s.tasks cur).user)
    pub first_in_kernel :
        is_ready (s.tasks next).state ≡ true
        → ((s.tasks next).user && not (s.tasks next).user_in_kernel_space) ≡ false
        → n ≡ switch next first_kernel_task (s.tasks next).regs
    pub first_in_user :
        is_ready (s.tasks next).state ≡ true
        → (s.tasks next).user ≡ true
        → (s.tasks next).user_in_kernel_space ≡ false
        → n ≡ switch next first_user_task (s.tasks next).regs
    pub again_in_user :
        is_ready (s.tasks next).state ≡ false
        → (s.tasks next).user ≡ true
        → (s.tasks next).user_in_kernel_space ≡ false
        → n ≡ switch next user_task (s.tasks next).regs
    pub again_in_kernel :
        is_ready (s.tasks next).state ≡ false
        → ((s.tasks next).user && not (s.tasks next).user_in_kernel_space) ≡ false
        → n ≡ switch next kernel_task (s.tasks next).regs
    pub address_space : s'.cr3 ≡ (s.tasks next).page_directory
    pub entered : s'.tasks next ≡ record (s.tasks next) { state = running }
    pub kept : s'.tasks cur ≡ record (s.tasks cur) {
      regs = (s'.tasks cur).regs;
      user_in_kernel_space = (s'.tasks cur).user_in_kernel_space;
    }
    pub others : (q : TaskPtr) → (q == cur) ≡ false → (q == next) ≡ false → s'.tasks q ≡ s.tasks q

  Swapped-TimerSwitch :
      (esp : ℕ) (in_kernel : Bool) {n : Next} {s' : Scheduler}
      → adjusted_esp (s.tasks cur).user i ≡ ok (esp, in_kernel)
      → Swapped peek i s next cur rest is esp in_kernel n s'
      → TimerSwitch n s'
  unfolding saved_regs
  Swapped-TimerSwitch esp in_kernel {n} {s'} adj w =
      let found = adjusted_esp-Found (s.tasks cur).user i esp in_kernel adj in
      let regs : (s'.tasks cur).regs ≡ saved_regs i.regs esp = ap (λ t. t.regs) w.saved in
      let flag : (s'.tasks cur).user_in_kernel_space ≡ in_kernel =
        ap (λ t. t.user_in_kernel_space) w.saved in
      record {
        saved = record {
          ebp = ap (λ r. r.ebp) regs;
          eax = ap (λ r. r.eax) regs;
          ebx = ap (λ r. r.ebx) regs;
          ecx = ap (λ r. r.ecx) regs;
          edx = ap (λ r. r.edx) regs;
          esi = ap (λ r. r.esi) regs;
          edi = ap (λ r. r.edi) regs;
          eflags = ap (λ r. r.eflags) regs;
          eip = ap (λ r. r.eip) regs;
          ds = ap (λ r. r.ds) regs;
          es = ap (λ r. r.es) regs;
          fs = ap (λ r. r.fs) regs;
          gs = ap (λ r. r.gs) regs;
          cs = ap (λ r. r.cs) regs;
        };
        stack = found.stack;
        in_user_code =
            λ u at. let (e, k) = found.in_user_code u at in (ap (λ r. r.esp) regs ∙ e, flag ∙ k);
        in_kernel_code =
            λ at. let (e, k) = found.in_kernel_code at in (ap (λ r. r.esp) regs ∙ e, flag ∙ k);
        first_in_kernel = λ ready no. w.restored ∙ rw (ready, no) refl;
        first_in_user = λ ready user out. w.restored ∙ rw (ready, user, out) refl;
        again_in_user = λ ready user out. w.restored ∙ rw (ready, user, out) refl;
        again_in_kernel = λ ready no. w.restored ∙ rw (ready, no) refl;
        address_space = w.address_space;
        entered = w.entered;
        kept =
            w.saved
            ∙ ap₂ (λ r k. record (s.tasks cur) { regs = r; user_in_kernel_space = k }) (sym regs)
                (sym flag);
        others = w.others;
      }

  -- With two tasks or more on the ready queue of a state that keeps the invariant, a call on the timer
  -- that goes through found the stack of a timer interrupt. It saves each interrupted register in the
  -- current task, with the user's stack pointer for a user task in user code, and else the stack pointer
  -- above the five words of the interrupt, and notes whether it is a user task in kernel code. It enters
  -- the head of the queue with the registers and the address space that this task holds, by the routine
  -- of task.S for a first or a later run and for user or kernel space, user space exactly for a user task
  -- that was not interrupted in kernel code. No other task changes, and no other field of the two but
  -- the state of the one that is entered.
  pub schedule-swaps :
      (second : TaskPtr) (others : List TaskPtr) {n : Next} {s' : Scheduler}
      → rest ≡ second ∷ others
      → s.ready_queue ≡ next ∷ rest
      → IsScheduled s
      → schedule peek (some i) s ≡ ok (n, s')
      → TimerSwitch n s'
  unfolding schedule schedule_on
  schedule-swaps second others {n} {s'} e q v h =
      let h' = subst (λ z. schedule_on peek (some i) z s ≡ ok (n, s')) (q ∙ ap (◌∷◌ next) e) h in
      let p =
        subst (λ z. Parts peek (some i) next z s n s') (sym e)
          (switch_from-Parts peek (some i) next (second ∷ others) s n s' h') in
      let same : p.cur ≡ cur = some-inj (sym p.is_current ∙ is) in
      let (esp, in_kernel, adj) =
        leave-adjusted peek i s next cur rest is
          (subst (λ c. leave (some i) c (rotated c next rest s) ≡ ok p.left) same p.leaves) in
      Swapped-TimerSwitch esp in_kernel adj (
        Parts-Swapped peek i s next cur rest is esp in_kernel
          (apart_of peek i s next cur rest is v second others e q) adj p)

  leave-returns :
      IsTimerStack (s.tasks cur).user i
      → (left : Scheduler) × (leave (some i) cur (rotated cur next rest s) ≡ ok left)
  unfolding leave save_current
  leave-returns v =
      let (a, e) = ok_of (adjusted_esp (s.tasks cur).user i) (adjusted_esp-returns _ i v) in
      ok_of (leave (some i) cur (rotated cur next rest s)) (ground (arith, e))

  enterable :
      (left : Scheduler)
      → (next == cur) ≡ false
      → CanRun peek next (s.tasks next)
      → leave (some i) cur (rotated cur next rest s) ≡ ok left
      → CanRun peek next (left.tasks next)
  unfolding leave save_current
  enterable left apart c e = subst (CanRun peek next) (ground arith) c

  -- A call on the timer goes through: the interrupts are off, the stack is that of a timer interrupt
  -- in the current task, and the head of the ready queue can run.
  pub schedule-returns :
      (second : TaskPtr) (others : List TaskPtr)
      → rest ≡ second ∷ others
      → s.ready_queue ≡ next ∷ rest
      → IsScheduled s
      → s.interrupts ≡ false
      → IsTimerStack (s.tasks cur).user i
      → CanRun peek next (s.tasks next)
      → is_ok (schedule peek (some i) s) ≡ true
  unfolding schedule schedule_on switch_from
  schedule-returns second others e q v off st c =
      let (left, l) = leave-returns st in
      let go : is_ok (switch_from peek (some i) next rest s) ≡ true =
        is_ok->>= (check (not s.interrupts)) _ tt (ground arith) (
          is_ok->>= (need s.current) _ cur (ground arith) (
            is_ok->>= (leave (some i) cur (rotated cur next rest s)) _ left l (
              enter-returns peek next _ left
                (enterable left (apart_of peek i s next cur rest is v second others e q) c l)))) in
      subst (λ z. is_ok (schedule_on peek (some i) z s) ≡ true) (sym (q ∙ ap (◌∷◌ next) e))
        (subst (λ z. is_ok (switch_from peek (some i) next z s) ≡ true) e go)
