-- ===== src/Task/Saves.antt =====
-- How a call of `schedule` on the timer checks the interrupted stack, and what it leaves of the tasks.
use toy_kernel.Base.{
  Outcome, ℕ, ◌+◌, ◌^◌, ◌%◌, ◌≡◌, refl, sym, ap, subst, ◌∙◌, Bool, true, false, not, ◌&&◌, ◌||◌,
  ◌⊎◌, some, List, ◌∷◌, ◌==◌, arith, ok, some-inj, is_ok, >>=-eq-ok, Bool-cases, inl, inr,
}
use toy_kernel.Task.Types.{
  running, is_ready, TaskPtr, Scheduler, update, kernel_code_segment, user_code_segment,
  user_data_segment, irq0,
}
use toy_kernel.Task.Schedule.{
  Interrupt, Next, switch, jump_of, adjusted_esp, saved_regs, save_current, leave,
}
use toy_kernel.Task.Queue.{get_last?, Distinct, has_of_get_last?}
use toy_kernel.Task.Order.{IsScheduled, Entered, Parts, rotated, goes_to_user}

-- The stack of a timer interrupt, as the processor and the interrupt stub leave it: a kernel task is
-- interrupted in kernel code, a user task in user code or, during a call of the kernel, in kernel
-- code.
pub record IsTimerStack (user : Bool) (i : Interrupt) : Type 0 where
  pub number : i.word 0 ≡ irq0
  pub no_error : i.word 1 ≡ 0
  pub kernel_task_in_kernel : user ≡ false → i.word 3 ≡ kernel_code_segment
  pub user_task_anywhere :
      user ≡ true
      → ((i.word 3 ≡ user_code_segment) × (i.word 6 ≡ user_data_segment))
        ⊎ (i.word 3 ≡ kernel_code_segment)

pub adjusted_esp-returns :
    (user : Bool) (i : Interrupt) → IsTimerStack user i → is_ok (adjusted_esp user i) ≡ true
unfolding adjusted_esp
adjusted_esp-returns true i v = ground (arith, v.user_task_anywhere refl)
adjusted_esp-returns false i v = ground (arith, v.kernel_task_in_kernel refl)

-- The stack pointer and the flag that the checks of the interrupted stack find.
pub record Found (user : Bool) (i : Interrupt) (esp : ℕ) (in_kernel : Bool) : Type 0 where
  pub stack : IsTimerStack user i
  pub in_user_code :
      user ≡ true → i.word 3 ≡ user_code_segment → (esp ≡ i.regs.useresp) × (in_kernel ≡ false)
  pub in_kernel_code :
      i.word 3 ≡ kernel_code_segment → (esp ≡ (i.regs.esp + 20) % 2 ^ 32) × (in_kernel ≡ user)

pub adjusted_esp-Found :
    (user : Bool) (i : Interrupt) (esp : ℕ) (in_kernel : Bool)
    → adjusted_esp user i ≡ ok (esp, in_kernel)
    → Found user i esp in_kernel
unfolding adjusted_esp
adjusted_esp-Found true i esp in_kernel h = record {
  stack = record {
    number = ground arith;
    no_error = ground arith;
    kernel_task_in_kernel = λ no. cc;
    user_task_anywhere = λ yes. elim (Bool-cases (i.word 3 == user_code_segment)) [
      | inl u ↦ inl (ground arith, ground arith)
      | inr k ↦ inr (ground arith)
    ];
  };
  in_user_code = λ u at. (ground arith, ground arith);
  in_kernel_code = λ at. (ground arith, ground arith);
}
adjusted_esp-Found false i esp in_kernel h = record {
  stack = record {
    number = ground arith;
    no_error = ground arith;
    kernel_task_in_kernel = λ no. ground arith;
    user_task_anywhere = λ yes. cc;
  };
  in_user_code = λ u at. cc;
  in_kernel_code = λ at. (ground arith, ground arith);
}

save_current-ok :
    (i : Interrupt) (cur esp : ℕ) (in_kernel : Bool) (s s' : Scheduler)
    → adjusted_esp (s.tasks cur).user i ≡ ok (esp, in_kernel)
    → save_current i cur s ≡ ok s'
    → s'.tasks
      ≡ update s.tasks cur (record (s.tasks cur) {
        regs = saved_regs i.regs esp;
        user_in_kernel_space = (s.tasks cur).user_in_kernel_space || in_kernel;
      })
unfolding save_current
save_current-ok i cur esp in_kernel s s' e h = ground (arith, rw e at h)

module _ (peek : TaskPtr → ℕ → Outcome ℕ) (i : Interrupt) (s : Scheduler) (next cur : TaskPtr)
    (rest : List TaskPtr) (is : s.current ≡ some cur) where
  -- What a call on the timer does to the tasks.
  pub record Swapped (esp : ℕ) (in_kernel : Bool) (n : Next) (s' : Scheduler) : Type 0 where
    pub saved :
        s'.tasks cur
        ≡ record (s.tasks cur) { regs = saved_regs i.regs esp; user_in_kernel_space = in_kernel }
    pub entered : s'.tasks next ≡ record (s.tasks next) { state = running }
    pub others : (q : TaskPtr) → (q == cur) ≡ false → (q == next) ≡ false → s'.tasks q ≡ s.tasks q
    pub restored :
        n
        ≡ switch next
            (jump_of
              (is_ready (s.tasks next).state)
              ((s.tasks next).user && not (s.tasks next).user_in_kernel_space))
            (s.tasks next).regs
    pub address_space : s'.cr3 ≡ (s.tasks next).page_directory

  pub Parts-Swapped :
      (esp : ℕ) (in_kernel : Bool) {n : Next} {s' : Scheduler}
      → (next == cur) ≡ false
      → adjusted_esp (s.tasks cur).user i ≡ ok (esp, in_kernel)
      → Parts peek (some i) next rest s n s'
      → Swapped esp in_kernel n s'
  unfolding leave save_current
  Parts-Swapped esp in_kernel {n} {s'} apart adj p =
      let same : p.cur ≡ cur = some-inj (sym p.is_current ∙ is) in
      let entered : Entered next (goes_to_user cur next rest s) p.left n s' =
        subst (λ c. Entered next (goes_to_user c next rest s) p.left n s') same p.entered in
      let left =
        save_current-ok i cur esp in_kernel (rotated cur next rest s) p.left (ground arith)
          (subst (λ c. save_current i c (rotated c next rest s) ≡ ok p.left) same p.leaves) in
      let at = λ (q : TaskPtr). ap (λ f. f q) left in
      let after = λ (q : TaskPtr). ap (λ f. f q) entered.tasks in
      record {
        saved = ground (arith, after cur, at cur);
        entered = ground (arith, after next, at next);
        others = λ q e1 e2. ground (arith, after q, at q);
        restored = ground (arith, entered.next, at next);
        address_space = ground (arith, entered.cr3, at next);
      }

  -- The tasks' part of the invariant: the head of the queue is not the current task.
  pub apart_of :
      IsScheduled s
      → (second : TaskPtr) (others : List TaskPtr) → rest ≡ second ∷ others
      → s.ready_queue ≡ next ∷ rest
      → (next == cur) ≡ false
  apart_of v second others e q =
      let d : Distinct (next ∷ rest) = rw q at v.distinct in
      let last : get_last? rest ≡ some cur =
        rw e (sym (ap get_last? (q ∙ ap (◌∷◌ next) e)) ∙ v.current_last ∙ is) in
      ground (arith, has_of_get_last? cur rest last)

  pub leave-adjusted :
      {left : Scheduler}
      → leave (some i) cur (rotated cur next rest s) ≡ ok left
      → (esp : ℕ) × (in_kernel : Bool) × (adjusted_esp (s.tasks cur).user i ≡ ok (esp, in_kernel))
  unfolding leave save_current
  leave-adjusted h =
      let ((esp, in_kernel), adj, _) =
        >>=-eq-ok (adjusted_esp ((rotated cur next rest s).tasks cur).user i) _ h in
      let self : (rotated cur next rest s).tasks cur
          ≡ record (s.tasks cur) { user_in_kernel_space = false } =
        ground arith in
      (esp, in_kernel, ap (λ t. adjusted_esp t.user i) (sym self) ∙ adj)
