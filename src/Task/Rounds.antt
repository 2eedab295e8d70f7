-- ===== src/Task/Rounds.antt =====
-- The scheduler on the timer: round robin, and every queued task has its turn.
use toy_kernel.Base.{
  Outcome, ℕ, zero, suc, ◌≡◌, refl, sym, ap, subst, ◌∙◌, Bool, some, List, [], ◌∷◌, ◌++◌, arith,
  length, append_assoc, append-nil, ok,
}
use toy_kernel.Task.Types.{TaskPtr, Scheduler}
use toy_kernel.Task.Schedule.{Interrupt, Next, schedule_on, schedule}
use toy_kernel.Task.Queue.{get_last?, rotate, get_last?-append}
use toy_kernel.Task.Order.{
  IsScheduled, switch_from-Parts, Switched, Parts-Switched, rotated-IsScheduled,
}

-- What a call on the timer leaves of the scheduler.
pub record Turned (s s' : Scheduler) : Type 0 where
  pub valid : IsScheduled s'
  pub queue : s'.ready_queue ≡ rotate s.ready_queue
  pub main : s'.main_task ≡ s.main_task

stays-Turned :
    {s s' : Scheduler} → s ≡ s' → s.ready_queue ≡ rotate s.ready_queue → IsScheduled s → Turned s s'
stays-Turned {s} e q v = subst (Turned s) e (record { valid = v; queue = q; main = refl })

module _ (peek : TaskPtr → ℕ → Outcome ℕ) (i : Interrupt) {s s' : Scheduler} {n : Next} where
  switches-Turned :
      (next : TaskPtr) (rest : List TaskPtr)
      → s.ready_queue ≡ next ∷ rest
      → Switched peek (some i) next rest s n s'
      → IsScheduled s
      → Turned s s'
  switches-Turned next rest e w v = record {
    valid =
        rotated-IsScheduled (rw e at v.distinct) (rw e at v.alive)
          (λ m h. rw e at (v.main_queued m h)) w;
    queue = rw e w.queue;
    main = w.main;
  }

  schedule_on-Turned :
      (q : List TaskPtr)
      → s.ready_queue ≡ q
      → schedule_on peek (some i) q s ≡ ok (n, s')
      → IsScheduled s
      → Turned s s'
  unfolding schedule_on
  schedule_on-Turned [] e h v = stays-Turned (ground arith) (rw e) v
  schedule_on-Turned (x ∷ []) e h v = stays-Turned (ground arith) (rw e) v
  schedule_on-Turned (x ∷ y ∷ r) e h v =
      switches-Turned x (y ∷ r) e
        (Parts-Switched peek (some i) x (y ∷ r) s n s' i refl
          (switch_from-Parts peek (some i) x (y ∷ r) s n s' h))
        v

  -- A call of `schedule` from the timer that goes through keeps the scheduler's invariant and moves
  -- the head of the ready queue to its end, also where it has fewer than two tasks.
  pub schedule-rotate :
      IsScheduled s
      → schedule peek (some i) s ≡ ok (n, s')
      → IsScheduled s' × (s'.ready_queue ≡ rotate s.ready_queue)
  unfolding schedule
  schedule-rotate v h = let t = schedule_on-Turned s.ready_queue refl h v in (t.valid, t.queue)

-- `k` calls of `schedule` from the timer in a row. Between two of them the task that runs may turn
-- the interrupts on or off.
pub data Timers (peek : TaskPtr → ℕ → Outcome ℕ) (s : Scheduler) : ℕ → Scheduler → Type 0 where
  start : Timers peek s zero s
  turn :
      {k : ℕ} {t u : Scheduler} {n : Next} (i : Interrupt) (b : Bool)
      → Timers peek s k t
      → schedule peek (some i) (record t { interrupts = b }) ≡ ok (n, u)
      → Timers peek s (suc k) u

abbrev pub rotate_by : ℕ → List TaskPtr → List TaskPtr
rotate_by zero q = q
rotate_by (suc k) q = rotate (rotate_by k q)

IsScheduled-interrupts :
    {s : Scheduler} (b : Bool) → IsScheduled s → IsScheduled (record s { interrupts = b })
IsScheduled-interrupts b v = record {
  current_last = v.current_last;
  distinct = v.distinct;
  alive = v.alive;
  main_queued = v.main_queued;
}

pub Timers-rotate_by :
    {peek : TaskPtr → ℕ → Outcome ℕ} {s s' : Scheduler} {k : ℕ}
    → IsScheduled s
    → Timers peek s k s'
    → IsScheduled s' × (s'.ready_queue ≡ rotate_by k s.ready_queue)
Timers-rotate_by v start = (v, refl)
Timers-rotate_by {peek} v (turn i b r h) =
    let (v', q) = Timers-rotate_by v r in
    let (v'', q') = schedule-rotate peek i (IsScheduled-interrupts b v') h in
    (v'', q' ∙ ap rotate q)

rotate-rotate_by : (k : ℕ) (q : List TaskPtr) → rotate (rotate_by k q) ≡ rotate_by k (rotate q)
rotate-rotate_by zero q = refl
rotate-rotate_by (suc k) q = ap rotate (rotate-rotate_by k q)

pub rotate_by-append : (xs ys : List TaskPtr) → rotate_by (length xs) (xs ++ ys) ≡ ys ++ xs
rotate_by-append [] ys = sym (append-nil ys)
rotate_by-append (x ∷ xs) ys =
    rotate-rotate_by (length xs) (x ∷ (xs ++ ys))
    ∙ rw append_assoc (rotate_by-append xs (ys ++ (x ∷ [])) ∙ append_assoc ys (x ∷ []) xs)

-- Every queued task has its turn: if `k` tasks stand before `p` on the ready queue, then after
-- `k + 1` calls of `schedule` from the timer, with no task created or ended between, `p` is the
-- current task, and it stands behind the others in their order.
pub turn_of :
    {peek : TaskPtr → ℕ → Outcome ℕ} {s s' : Scheduler} (p : TaskPtr) (xs ys : List TaskPtr)
    → IsScheduled s
    → s.ready_queue ≡ xs ++ (p ∷ ys)
    → Timers peek s (suc (length xs)) s'
    → (s'.current ≡ some p) × (s'.ready_queue ≡ (ys ++ xs) ++ (p ∷ []))
turn_of p xs ys v e r =
    let (v', q) = Timers-rotate_by v r in
    let at_end =
      q ∙ ap (λ z. rotate (rotate_by (length xs) z)) e ∙ ap rotate (rotate_by-append xs (p ∷ ys)) in
    (sym v'.current_last ∙ ap get_last? at_end ∙ get_last?-append (ys ++ xs) p, at_end)
