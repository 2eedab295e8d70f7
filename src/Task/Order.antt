-- ===== src/Task/Order.antt =====
-- What a switch of `schedule` does to the queue and to the tasks, whichever way the current task
-- leaves, and the invariant of the scheduler.
use toy_kernel.Base.{
  Outcome, ℕ, ◌≡◌, ap, ◌∙◌, Bool, true, false, not, ◌&&◌, Option, some, List, [], ◌∷◌, ◌++◌, ◌==◌,
  if◌then◌else◌, arith, ok, ◌>>=◌, check, need, >>=-eq-ok,
}
use toy_kernel.Task.Types.{running, is_ready, is_completed, TaskPtr, Scheduler, update, set_task}
use toy_kernel.Task.Schedule.{
  Interrupt, Next, switch, jump_of, save_current, enter, leave, switch_from,
}
use toy_kernel.Task.Queue.{
  get_last?, has, Distinct, All, get_last?-append, has-append, Distinct-append, All-append,
  All-mono,
}

-- The current task is the last of the queue, no task is queued twice, no queued task is completed,
-- and the main task stays queued.
pub record IsScheduled (s : Scheduler) : Type 0 where
  pub current_last : get_last? s.ready_queue ≡ s.current
  pub distinct : Distinct s.ready_queue
  pub alive : All (λ p. is_completed (s.tasks p).state ≡ false) s.ready_queue
  pub main_queued : (m : TaskPtr) → s.main_task ≡ some m → has m s.ready_queue ≡ true

-- `s'` has entered `p` from `s`.
pub record Entered (p : TaskPtr) (to_user : Bool) (s : Scheduler) (n : Next) (s' : Scheduler)
    : Type 0 where
  pub next : n ≡ switch p (jump_of (is_ready (s.tasks p).state) to_user) (s.tasks p).regs
  pub queue : s'.ready_queue ≡ s.ready_queue
  pub current : s'.current ≡ some p
  pub tasks : s'.tasks ≡ update s.tasks p (record (s.tasks p) { state = running })
  pub main : s'.main_task ≡ s.main_task
  pub cr3 : s'.cr3 ≡ (s.tasks p).page_directory

pub enter-Entered :
    (peek : TaskPtr → ℕ → Outcome ℕ) (p : TaskPtr) (to_user : Bool) (s : Scheduler) (n : Next)
    (s' : Scheduler)
    → enter peek p to_user s ≡ ok (n, s')
    → Entered p to_user s n s'
unfolding enter
enter-Entered peek p to_user s n s' h = ground arith

-- Saving the current task changes no queue and no task's state.
pub record Saved (s s' : Scheduler) : Type 0 where
  pub queue : s'.ready_queue ≡ s.ready_queue
  pub main : s'.main_task ≡ s.main_task
  pub states : (q : TaskPtr) → (s'.tasks q).state ≡ (s.tasks q).state

pub save_current-Saved :
    (i : Interrupt) (cur : TaskPtr) (s s' : Scheduler) → save_current i cur s ≡ ok s' → Saved s s'
unfolding save_current
save_current-Saved i cur s s' h = record {
  queue = ground arith;
  main = ground arith;
  states = λ q. ground arith;
}

-- The state in which the current task leaves.
abbrev pub rotated : TaskPtr → TaskPtr → List TaskPtr → Scheduler → Scheduler
rotated cur next rest s =
    set_task cur (record (s.tasks cur) { user_in_kernel_space = false })
      (record s { ready_queue = rest ++ (next ∷ []) })

abbrev pub goes_to_user : TaskPtr → TaskPtr → List TaskPtr → Scheduler → Bool
goes_to_user cur next rest s =
    (s.tasks next).user && not ((rotated cur next rest s).tasks next).user_in_kernel_space

-- The parts of a switch that went through.
pub record Parts (peek : TaskPtr → ℕ → Outcome ℕ) (frame : Option Interrupt) (next : TaskPtr)
    (rest : List TaskPtr) (s : Scheduler) (n : Next) (s' : Scheduler) : Type 0 where
  pub cur : TaskPtr
  pub left : Scheduler
  pub is_current : s.current ≡ some cur
  pub off : s.interrupts ≡ false
  pub leaves : leave frame cur (rotated cur next rest s) ≡ ok left
  pub entered : Entered next (goes_to_user cur next rest s) left n s'

module _ (peek : TaskPtr → ℕ → Outcome ℕ) (frame : Option Interrupt) (next : TaskPtr)
    (rest : List TaskPtr) (s : Scheduler) (n : Next) (s' : Scheduler) where
  enters-Parts :
      (cur : TaskPtr)
      → s.interrupts ≡ false
      → s.current ≡ some cur
      → (leave frame cur (rotated cur next rest s) >>= λ s2.
          enter peek next (goes_to_user cur next rest s) s2)
        ≡ ok (n, s')
      → Parts peek frame next rest s n s'
  enters-Parts cur off is h =
      let (left, e1, e2) = >>=-eq-ok (leave frame cur (rotated cur next rest s)) _ h in
      record {
        cur = cur;
        left = left;
        is_current = is;
        off = off;
        leaves = e1;
        entered = enter-Entered peek next (goes_to_user cur next rest s) left n s' e2;
      }

  pub switch_from-Parts :
      switch_from peek frame next rest s ≡ ok (n, s') → Parts peek frame next rest s n s'
  unfolding switch_from
  switch_from-Parts h =
      let (_, off, h1) = >>=-eq-ok (check (not s.interrupts)) _ h in
      let (cur, is, h2) = >>=-eq-ok (need s.current) _ h1 in
      enters-Parts cur (ground arith) (ground arith) h2

  -- What a switch on the timer leaves.
  pub record Switched : Type 0 where
    pub queue : s'.ready_queue ≡ rest ++ (next ∷ [])
    pub current : s'.current ≡ some next
    pub main : s'.main_task ≡ s.main_task
    pub states :
        (q : TaskPtr) → (s'.tasks q).state ≡ (if q == next then running else (s.tasks q).state)

  pub Parts-Switched :
      (i : Interrupt) → frame ≡ some i → Parts peek frame next rest s n s' → Switched
  unfolding leave
  Parts-Switched i e p =
      let saved =
        save_current-Saved i p.cur (rotated p.cur next rest s) p.left (rw e at p.leaves) in
      record {
        queue = p.entered.queue ∙ saved.queue;
        current = p.entered.current;
        main = p.entered.main ∙ saved.main;
        states =
            λ q. ground (arith, saved.states q, p.entered.tasks, ap (λ f. f q) p.entered.tasks);
      }

module _ {s s' : Scheduler} {next : TaskPtr} {rest : List TaskPtr}
    (d : Distinct (next ∷ rest)) where
  -- The invariant after a rotation, from what held of the queue before it.
  pub rotated-IsScheduled :
      All (λ p. is_completed (s.tasks p).state ≡ false) (next ∷ rest)
      → ((m : TaskPtr) → s.main_task ≡ some m → has m (next ∷ rest) ≡ true)
      → {peek : TaskPtr → ℕ → Outcome ℕ} {frame : Option Interrupt} {n : Next}
      → Switched peek frame next rest s n s'
      → IsScheduled s'
  rotated-IsScheduled alive main w = record {
    current_last = rw (w.queue, w.current) (get_last?-append rest next);
    distinct = rw w.queue (Distinct-append next rest d.1 d.0);
    alive = rw w.queue (
        All-append _ next rest (All-mono _ rest alive.1 (λ p m a. ground (arith, w.states p)))
          (ground (arith, w.states next)));
    main_queued = λ m e. rw w.queue (ground (arith, main m, w.main, has-append m rest (next ∷ [])));
  }
