-- ===== src/Task/Exit.antt =====
-- `exit_this_task` of kernel/task.cpp: the task that ends leaves the ready queue.
use toy_kernel.Base.{
  Outcome, ℕ, ◌≡◌, sym, ap, subst, ◌∙◌, true, false, none, some, List, [], ◌∷◌, ◌++◌, ◌==◌, arith,
  if◌then◌else◌, ◌≢◌, ok, need, >>=-eq-ok, some-inj,
}
use toy_kernel.Task.Types.{running, completed, is_completed, TaskPtr, Scheduler, set_task}
use toy_kernel.Task.Schedule.{
  Next, stay, remove_node, is_task, drop_current, leave, schedule_on, schedule, exit_this_task,
}
use toy_kernel.Task.Queue.{
  get_last?, has, Distinct, All, drop_last, get_last?-append, has-append, Distinct-append,
  All-append, All-drop_last, All-mono, remove_node-last, has-drop_last, has-last-drop_last,
  Distinct-drop_last, has_of_get_last?,
}
use toy_kernel.Task.Order.{IsScheduled, Parts, rotated, switch_from-Parts}

-- The current task as it stands when `exit_this_task` calls `schedule`.
abbrev pub ending : TaskPtr → Scheduler → Scheduler
ending cur s =
    set_task cur (record (s.tasks cur) { state = completed }) (record s { interrupts = false })

-- What the end of the task `cur` leaves, when `next` stood at the head of the queue before `rest`.
pub record Ended (cur next : TaskPtr) (rest : List TaskPtr) (s s' : Scheduler) : Type 0 where
  pub queue : s'.ready_queue ≡ drop_last rest ++ (next ∷ [])
  pub current : s'.current ≡ some next
  pub main : s'.main_task ≡ s.main_task
  pub not_main : is_task s.main_task cur ≡ false
  pub states :
      (q : TaskPtr)
      → (s'.tasks q).state
        ≡ (if q == next then running else if q == cur then completed else (s.tasks q).state)

drop_current-ok :
    (cur : TaskPtr) (q : List TaskPtr) (s s' : Scheduler)
    → remove_node cur s.ready_queue ≡ some q
    → drop_current cur s ≡ ok s'
    → (is_task s.main_task cur ≡ false) × (s' ≡ record s { ready_queue = q })
unfolding drop_current
drop_current-ok cur q s s' e h = ground arith

-- The call of `schedule` that `exit_this_task` makes.
pub exit-schedules :
    (peek : TaskPtr → ℕ → Outcome ℕ) (s s' : Scheduler) (n : Next) (cur : TaskPtr)
    → s.current ≡ some cur
    → exit_this_task peek s ≡ ok (n, s')
    → (schedule peek none (ending cur s) ≡ ok (n, s')) × (n ≢ stay)
unfolding exit_this_task
exit-schedules peek s s' n cur is h =
    let (c, is', h1) = >>=-eq-ok (need s.current) _ h in
    let same : c ≡ cur = some-inj (ground arith) in
    let (r, e2, h2) = >>=-eq-ok (schedule peek none (ending c s)) _ h1 in
    (subst (λ z. schedule peek none (ending z s) ≡ ok (n, s')) same (ground arith), ground arith)

module _ {s s' : Scheduler} (next : TaskPtr) (rest : List TaskPtr) where
  -- The invariant after the end of a task.
  Ended-IsScheduled :
      (cur : TaskPtr)
      → get_last? rest ≡ some cur
      → s.ready_queue ≡ next ∷ rest
      → IsScheduled s
      → Ended cur next rest s s'
      → IsScheduled s'
  Ended-IsScheduled cur last e v w =
      let d : Distinct (next ∷ rest) = rw e at v.distinct in
      let a : All (λ p. is_completed (s.tasks p).state ≡ false) (next ∷ rest) = rw e at v.alive in
      let gone = has-last-drop_last cur rest last d.1 in
      record {
        current_last = rw (w.queue, w.current) (get_last?-append (drop_last rest) next);
        distinct = rw w.queue (
            Distinct-append next (drop_last rest) (Distinct-drop_last cur rest last d.1)
              (ground (arith, has-drop_last cur next rest last d.1)));
        alive = rw w.queue (
            All-append _ next (drop_last rest)
              (All-mono _ (drop_last rest) (All-drop_last _ rest a.1)
                (λ p m h. ground (arith, w.states p)))
              (ground (arith, w.states next)));
        main_queued = λ m h.
            let old : has m (next ∷ rest) ≡ true = rw e at v.main_queued m (sym w.main ∙ h) in
            rw w.queue (
              ground (
                arith,
                has-append m (drop_last rest) (next ∷ []),
                has-drop_last cur m rest last d.1,
                w.not_main,
                sym w.main ∙ h,
              ));
      }

module _ (peek : TaskPtr → ℕ → Outcome ℕ) {s s' : Scheduler} {n : Next} (next : TaskPtr)
    (rest : List TaskPtr) where
  -- The switch to `next`, once the current task `cur`, the last of `rest`, is marked as completed.
  Parts-Ended :
      (cur : TaskPtr)
      → s.current ≡ some cur
      → get_last? rest ≡ some cur
      → Distinct rest
      → Parts peek none next rest (ending cur s) n s'
      → Ended cur next rest s s'
  unfolding leave
  Parts-Ended cur is last d p =
      let same : p.cur ≡ cur = some-inj (sym p.is_current ∙ is) in
      let (not_main, left) =
        drop_current-ok cur (drop_last rest ++ (next ∷ [])) (rotated cur next rest (ending cur s))
          p.left (remove_node-last cur next rest last d)
          (subst (λ c. drop_current c (rotated c next rest (ending cur s)) ≡ ok p.left) same
            p.leaves) in
      record {
        queue = p.entered.queue ∙ ap (λ t. t.ready_queue) left;
        current = p.entered.current;
        main = p.entered.main ∙ ap (λ t. t.main_task) left;
        not_main = not_main;
        states = λ q. ground (
          arith,
          ap (λ f. f q) p.entered.tasks,
          ap (λ t. t.tasks q) left,
          ap (λ t. t.tasks next) left,
        );
      }

  -- When a task other than the only one exits and the call does not stop, then: the scheduler's
  -- invariant still holds; the head of the ready queue is now the current task, running, and stands
  -- at the end; the others keep their order; the exiting task is completed, off the queue, and was
  -- not the main task.
  pub exit_this_task-dequeues :
      (second : TaskPtr) (others : List TaskPtr) (cur : TaskPtr)
      → rest ≡ second ∷ others
      → s.ready_queue ≡ next ∷ rest
      → s.current ≡ some cur
      → IsScheduled s
      → exit_this_task peek s ≡ ok (n, s')
      → IsScheduled s'
        × (s'.ready_queue ≡ drop_last rest ++ (next ∷ []))
        × (s'.current ≡ some next)
        × ((s'.tasks next).state ≡ running)
        × ((s'.tasks cur).state ≡ completed)
        × (has cur s'.ready_queue ≡ false)
        × (is_task s.main_task cur ≡ false)
  unfolding schedule schedule_on
  exit_this_task-dequeues second others cur e q is v h =
      let switched =
        subst (λ z. schedule_on peek none z (ending cur s) ≡ ok (n, s')) (q ∙ ap (◌∷◌ next) e)
          (exit-schedules peek s s' n cur is h).0 in
      let last : get_last? rest ≡ some cur =
        rw e (sym (ap get_last? (q ∙ ap (◌∷◌ next) e)) ∙ v.current_last ∙ is) in
      let d : Distinct (next ∷ rest) = rw q at v.distinct in
      let w = Parts-Ended cur is last d.1 (
        subst (λ z. Parts peek none next z (ending cur s) n s') (sym e)
          (switch_from-Parts peek none next (second ∷ others) (ending cur s) n s' switched)) in
      let apart : (next == cur) ≡ false = ground (arith, has_of_get_last? cur rest last) in
      (
        Ended-IsScheduled next rest cur last q v w,
        w.queue,
        w.current,
        ground (arith, w.states next),
        ground (arith, w.states cur),
        rw w.queue (
            ground (
              arith,
              has-append cur (drop_last rest) (next ∷ []),
              has-last-drop_last cur rest last d.1,
            )),
        w.not_main,
      )
