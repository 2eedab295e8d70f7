-- ===== src/Task/Runs.antt =====
-- Task creation, and every run of the scheduler from a valid state.
use toy_kernel.Base.{
  Outcome, ℕ, ◌≡◌, refl, sym, subst, ◌∙◌, Bool, true, false, none, some, List, [], ◌∷◌, ◌==◌, arith,
  ok, Bool-cases, Option-cases, inl, inr, ==_iff,
}
use toy_kernel.Task.Types.{ready, is_completed, TaskPtr, Task, Scheduler, set_task}
use toy_kernel.Task.Schedule.{Interrupt, Next, schedule_on, schedule, exit_this_task}
use toy_kernel.Task.Create.{init_scheduler, new_kernel_task, join, destroy_task}
use toy_kernel.Task.Queue.{get_last?, has, All, All-mono, has_of_get_last?}
use toy_kernel.Task.Order.{IsScheduled}
use toy_kernel.Task.Rounds.{schedule-rotate}
use toy_kernel.Task.Exit.{ending, exit-schedules, exit_this_task-dequeues}

-- What the creation of a kernel task leaves, when `parent` is the current task.
record Created (p parent : TaskPtr) (s s' : Scheduler) : Type 0 where
  queue : s'.ready_queue ≡ p ∷ s.ready_queue
  current : s'.current ≡ s.current
  main : s'.main_task ≡ s.main_task
  new : (s'.tasks p).state ≡ ready
  states : (q : TaskPtr) → (p == q) ≡ false → (s'.tasks q).state ≡ (s.tasks q).state

module _ (p : TaskPtr) (junk : Bool) (pd stack exit_addr func arg : ℕ) (s s' : Scheduler) where
  new_kernel_task-Created :
      (parent : TaskPtr)
      → s.current ≡ some parent
      → (p == parent) ≡ false
      → new_kernel_task p junk pd stack exit_addr func arg s ≡ ok s'
      → Created p parent s s'
  unfolding new_kernel_task
  new_kernel_task-Created parent is apart h = record {
    queue = ground arith;
    current = ground arith;
    main = ground arith;
    new = ground arith;
    states = λ q e. ground arith;
  }

Created-IsScheduled :
    (p parent : TaskPtr) (s s' : Scheduler)
    → s.current ≡ some parent
    → has p s.ready_queue ≡ false
    → IsScheduled s
    → Created p parent s s'
    → IsScheduled s'
Created-IsScheduled p parent s s' is new v w = record {
  current_last = rw (w.queue, w.current) (go s.ready_queue (v.current_last ∙ is) ∙ v.current_last);
  distinct = rw w.queue (new, v.distinct);
  alive =
      rw w.queue
        (rw w.new refl, All-mono _ s.ready_queue v.alive (λ q m h. ground (arith, w.states q)));
  main_queued = λ m e. rw w.queue (ground (arith, v.main_queued m (sym w.main ∙ e)));
}
  where
    go : (q : List TaskPtr) → get_last? q ≡ some parent → get_last? (p ∷ q) ≡ get_last? q
    go [] h = cc
    go (x ∷ q) h = refl

module _ (p : TaskPtr) (junk : Bool) (pd stack exit_addr func arg : ℕ) (s s' : Scheduler) where
  has_parent :
      new_kernel_task p junk pd stack exit_addr func arg s ≡ ok s'
      → (parent : TaskPtr) × (s.current ≡ some parent)
  unfolding new_kernel_task
  has_parent h = elim (Option-cases s.current) [ inl no_one ↦ absurd (ground arith) | inr is ↦ is ]

  -- A kernel task that is created at an address which is not on the ready queue goes to its head,
  -- ready to run; the current task stays, and the scheduler's invariant still holds.
  pub new_kernel_task-front :
      IsScheduled s
      → has p s.ready_queue ≡ false
      → new_kernel_task p junk pd stack exit_addr func arg s ≡ ok s'
      → IsScheduled s'
        × (s'.ready_queue ≡ p ∷ s.ready_queue)
        × (s'.current ≡ s.current)
        × ((s'.tasks p).state ≡ ready)
  new_kernel_task-front v new h =
      let (parent, is) = has_parent h in
      let queued = has_of_get_last? parent s.ready_queue (v.current_last ∙ is) in
      let w =
        new_kernel_task-Created p junk pd stack exit_addr func arg s s' parent is
          (elim (Bool-cases (p == parent)) [
            | inr apart ↦ apart
            | inl e ↦
                absurd (cc (subst (λ q. has q s.ready_queue ≡ false) ((==_iff p parent).0 e) new))
          ])
          h in
      (Created-IsScheduled p parent s s' is new v w, w.queue, w.current, w.new)

-- No completed task is on a queue of live ones.
not-queued :
    (s : Scheduler) (p : TaskPtr) (q : List TaskPtr)
    → All (λ x. is_completed (s.tasks x).state ≡ false) q
    → is_completed (s.tasks p).state ≡ true
    → has p q ≡ false
not-queued s p [] a h = refl
not-queued s p (x ∷ q) a h = elim (Bool-cases (x == p)) [
  | inl e ↦ absurd (cc (subst (λ z. is_completed (s.tasks z).state ≡ false) ((==_iff x p).0 e) a.0))
  | inr e ↦ rw e (not-queued s p q a.1 h)
]

-- What the kernel does to the scheduler. A destroyed task was joined, and its storage may come to
-- hold any other object.
pub data Step (peek : TaskPtr → ℕ → Outcome ℕ) (s s' : Scheduler) : Type 0 where
  timer : (i : Interrupt) (n : Next) → schedule peek (some i) s ≡ ok (n, s') → Step peek s s'
  end : (n : Next) → exit_this_task peek s ≡ ok (n, s') → Step peek s s'
  create :
      (p : TaskPtr) (junk : Bool) (pd stack exit_addr func arg : ℕ)
      → has p s.ready_queue ≡ false
      → new_kernel_task p junk pd stack exit_addr func arg s ≡ ok s'
      → Step peek s s'
  destroy :
      (p : TaskPtr) (t : Scheduler) (reused : Task)
      → join p s ≡ ok true
      → destroy_task p s ≡ ok t
      → s' ≡ set_task p reused t
      → Step peek s s'
  set_interrupts : (b : Bool) → s' ≡ record s { interrupts = b } → Step peek s s'

pub data Reach (peek : TaskPtr → ℕ → Outcome ℕ) (s : Scheduler) : Scheduler → Type 0 where
  here : Reach peek s s
  next : {t u : Scheduler} → Reach peek s t → Step peek t u → Reach peek s u

-- Two states that agree on what the invariant reads.
module _ (s s' : Scheduler) (q : s'.ready_queue ≡ s.ready_queue) (c : s'.current ≡ s.current)
    (m : s'.main_task ≡ s.main_task) where
  IsScheduled-agree :
      ((x : TaskPtr) → has x s.ready_queue ≡ true → (s'.tasks x).state ≡ (s.tasks x).state)
      → IsScheduled s
      → IsScheduled s'
  IsScheduled-agree f v = record {
    current_last = rw (q, c) v.current_last;
    distinct = rw q v.distinct;
    alive = rw q (All-mono _ s.ready_queue v.alive (λ x h a. rw (f x h) a));
    main_queued = λ x e. rw q (v.main_queued x (sym m ∙ e));
  }

-- Destruction changes no queue and no task's state.
record Destroyed (s t : Scheduler) : Type 0 where
  queue : t.ready_queue ≡ s.ready_queue
  current : t.current ≡ s.current
  main : t.main_task ≡ s.main_task
  states : (x : TaskPtr) → (t.tasks x).state ≡ (s.tasks x).state

destroy_task-Destroyed : (p : TaskPtr) (s t : Scheduler) → destroy_task p s ≡ ok t → Destroyed s t
unfolding destroy_task
destroy_task-Destroyed p s t h = record {
  queue = ground arith;
  current = ground arith;
  main = ground arith;
  states = λ x. ground arith;
}

destroy-IsScheduled :
    (p : TaskPtr) (s t s' : Scheduler) (reused : Task)
    → IsScheduled s
    → join p s ≡ ok true
    → destroy_task p s ≡ ok t
    → s' ≡ set_task p reused t
    → IsScheduled s'
unfolding join
destroy-IsScheduled p s t s' reused v j d e =
    let w = destroy_task-Destroyed p s t d in
    let out = not-queued s p s.ready_queue v.alive (ground arith) in
    subst IsScheduled (sym e) (
      IsScheduled-agree s (set_task p reused t) w.queue w.current w.main
        (λ x h. ground (arith, w.states x)) v)

end-IsScheduled :
    (peek : TaskPtr → ℕ → Outcome ℕ) (s s' : Scheduler) (n : Next) (cur : TaskPtr)
    (q : List TaskPtr)
    → s.ready_queue ≡ q
    → s.current ≡ some cur
    → IsScheduled s
    → exit_this_task peek s ≡ ok (n, s')
    → IsScheduled s'
unfolding schedule schedule_on
end-IsScheduled peek s s' n cur [] e is v h =
    let (h', ne) = exit-schedules peek s s' n cur is h in
    absurd
      (ne (ground (arith, subst (λ z. schedule_on peek none z (ending cur s) ≡ ok (n, s')) e h')))
end-IsScheduled peek s s' n cur (x ∷ []) e is v h =
    let (h', ne) = exit-schedules peek s s' n cur is h in
    absurd
      (ne (ground (arith, subst (λ z. schedule_on peek none z (ending cur s) ≡ ok (n, s')) e h')))
end-IsScheduled peek s s' n cur (x ∷ y ∷ r) e is v h =
    (exit_this_task-dequeues peek x (y ∷ r) y r cur refl e is v h).0

exits-current :
    (peek : TaskPtr → ℕ → Outcome ℕ) (s s' : Scheduler) (n : Next)
    → exit_this_task peek s ≡ ok (n, s')
    → (cur : TaskPtr) × (s.current ≡ some cur)
unfolding exit_this_task
exits-current peek s s' n h = elim (Option-cases s.current) [
  | inl no_one ↦ absurd (ground arith)
  | inr is ↦ is
]

Step-IsScheduled :
    {peek : TaskPtr → ℕ → Outcome ℕ} {s s' : Scheduler}
    → Step peek s s'
    → IsScheduled s
    → IsScheduled s'
Step-IsScheduled {peek} (timer i n h) v = (schedule-rotate peek i v h).0
Step-IsScheduled {peek} {s} {s'} (end n h) v =
    let (cur, is) = exits-current peek s s' n h in
    end-IsScheduled peek s s' n cur s.ready_queue refl is v h
Step-IsScheduled {peek} {s} {s'} (create p junk pd stack exit_addr func arg new h) v =
    (new_kernel_task-front p junk pd stack exit_addr func arg s s' v new h).0
Step-IsScheduled {peek} {s} {s'} (destroy p t reused j d e) v =
    destroy-IsScheduled p s t s' reused v j d e
Step-IsScheduled {peek} {s} {s'} (set_interrupts b e) v =
    subst IsScheduled (sym e)
      (IsScheduled-agree s (record s { interrupts = b }) refl refl refl (λ x h. refl) v)

Reach-keeps :
    {peek : TaskPtr → ℕ → Outcome ℕ} {s t : Scheduler}
    → Reach peek s t
    → IsScheduled s
    → IsScheduled t
Reach-keeps here v = v
Reach-keeps (next r st) v = Step-IsScheduled st (Reach-keeps r v)

init-IsScheduled :
    (p : TaskPtr) (junk : Bool) (stack pd : ℕ) (s s' : Scheduler)
    → init_scheduler p junk stack pd s ≡ ok s'
    → IsScheduled s'
unfolding init_scheduler
init-IsScheduled p junk stack pd s s' h = record {
  current_last = ground arith;
  distinct = ground arith;
  alive = ground arith;
  main_queued = λ m e. ground arith;
}

-- Whatever sequence of timer interrupts, task exits, creations of kernel tasks at unqueued addresses,
-- destructions of joined tasks with any reuse of their storage, and changes of the interrupt flag
-- follows `InitScheduler`: the current task is the last of the ready queue, no task is queued twice,
-- no queued task is completed, and the main task is queued.
pub Reach-IsScheduled :
    {peek : TaskPtr → ℕ → Outcome ℕ} (p : TaskPtr) (junk : Bool) (stack pd : ℕ) (boot : Scheduler)
    {s t : Scheduler}
    → init_scheduler p junk stack pd boot ≡ ok s
    → Reach peek s t
    → IsScheduled t
Reach-IsScheduled p junk stack pd boot {s} h r =
    Reach-keeps r (init-IsScheduled p junk stack pd boot s h)
