-- ===== src/Users/Pushes.antt =====
-- What the set-up of a stack pushes, and what is asked of the stack of a task that is entered.
use toy_kernel.Base.{
  ℕ, zero, suc, ◌-◌, ◌*◌, ◌%◌, ◌^◌, ◌<◌, ◌≡◌, refl, sym, ◌∙◌, true, some, List, [], ◌∷◌, length,
  get_elem?, arith, Outcome, ok, stop, ◌>>=◌, ◌==◌, update, not, ◌||◌,
}
use toy_kernel.Task.{
  TaskPtr, Scheduler, set_task, user_data_segment, user_code_segment, setup_before_task_run,
  is_ready, reads_entry,
}
use toy_kernel.Calls.{directory}
use toy_kernel.Transfer.{Machine, variable, task_write, task_read}
use toy_kernel.Users.{
  user_shared_space_end, word_at, word_bytes, with_scheduler, read_word, push_user, first_stack,
  set_up_stack,
}
use toy_kernel.Transfer.Moves.{Apart}
use toy_kernel.Transfer.Read.{place, IsBuffer}

-- The stack from the argument down, and the registers.
abbrev pub stack_words : (stack_arg entry : ℕ) → List ℕ
stack_words stack_arg entry = stack_arg ∷ first_stack (user_shared_space_end - 4) entry

-- What `SetupBeforeTaskRun` reads.
abbrev pub peek : Machine → TaskPtr → ℕ → Outcome ℕ
peek m p a = read_word (directory p m.system) a m

pub record IsEnterable (p : TaskPtr) (stack_arg entry : ℕ) (m m' : Machine) : Type 0 where
  pub stack :
      (i v : ℕ)
      → get_elem? (stack_words stack_arg entry) i ≡ some v
      → v < 2 ^ 32
      → read_word (directory p m'.system) (user_shared_space_end - 4 * suc i) m' ≡ ok v
  pub reads :
      (buffer to : ℕ)
      → IsBuffer buffer 4 to m'
      → Apart to (place p (user_shared_space_end - 24) m') 4
      → (m'' : Machine) × (task_read p buffer (user_shared_space_end - 24) 4 m' ≡ ok m'')
        × (word_at m''.phys to ≡ entry)
  pub esp : (m'.system.scheduler.tasks p).regs.esp ≡ user_shared_space_end - 24
  pub ds : (m'.system.scheduler.tasks p).regs.ds ≡ user_data_segment
  pub cs : (m'.system.scheduler.tasks p).regs.cs ≡ user_code_segment
  pub enters :
      (m.system.scheduler.tasks p).entry ≡ entry
      → (m.system.scheduler.tasks p).stack % 4 ≡ 0
      → (m.system.scheduler.tasks p).user ≡ true
      → setup_before_task_run (peek m') p m'.system.scheduler
        ≡ ok (record m'.system.scheduler { esp0 = (m.system.scheduler.tasks p).stack })

bind_bind :
    {A B C : Type 0} (o : Outcome A) (f : A → Outcome B) (g : B → Outcome C)
    → ((o >>= f) >>= g) ≡ (o >>= λ a. f a >>= g)
bind_bind (ok a) f g = refl
bind_bind stop f g = refl

-- The argument is pushed first, and the rest below it.
push_user-first :
    {A : Type 0} (task : TaskPtr) (esp v : ℕ) (ws : ℕ → List ℕ) (m : Machine)
    (k : ℕ × Machine → Outcome A)
    → (push_user task esp (v ∷ []) m >>= λ (e, m1). push_user task e (ws e) m1 >>= k)
      ≡ (push_user task esp (v ∷ ws (esp - 4)) m >>= k)
unfolding push_user
push_user-first task esp v ws m k =
    let written = task_write task (esp - 4) (variable (word_bytes v)) 4 m in
    bind_bind written (λ m1. ok (esp - 4, m1)) (λ (e, m1). push_user task e (ws e) m1 >>= k)
    ∙ sym (bind_bind written (λ m1. push_user task (esp - 4) (ws (esp - 4)) m1) k)

-- The registers after the pushes.
abbrev pub with_stack : TaskPtr → ℕ × Machine → Outcome Machine
with_stack p (esp, m) =
    let t = m.system.scheduler.tasks p in
    let regs = record t.regs { ds = user_data_segment; cs = user_code_segment; esp = esp } in
    ok (with_scheduler (set_task p (record t { regs = regs }) m.system.scheduler) m)

pub set_up_stack-pushes :
    (p : TaskPtr) (stack_arg entry : ℕ) (m : Machine)
    → set_up_stack p stack_arg entry m
      ≡ (push_user p user_shared_space_end (stack_words stack_arg entry) m >>= with_stack p)
unfolding set_up_stack
set_up_stack-pushes p stack_arg entry m =
    push_user-first p user_shared_space_end stack_arg (λ e. first_stack e entry) m (with_stack p)

pub update_same : {A : Type 0} (f : ℕ → A) (p : ℕ) (v : A) → update f p v p ≡ v
update_same f p v = let here : p == p ≡ true = ground arith in rw here refl

pub get_elem?-bound :
    {A : Type 0} (xs : List A) (i : ℕ) (v : A) → get_elem? xs i ≡ some v → i < length xs
get_elem?-bound [] i v got = cc
get_elem?-bound (x ∷ xs) zero v got = omega arith
get_elem?-bound (x ∷ xs) (suc i) v got = omega (arith, get_elem?-bound xs i v got)

-- A user task whose stack pointer is at its entry point passes the assertions.
pub setup_before_task_run-passes :
    (read : TaskPtr → ℕ → Outcome ℕ) (p : TaskPtr) (s : Scheduler)
    → (s.tasks p).user ≡ true
    → (s.tasks p).stack % 4 ≡ 0
    → read p (s.tasks p).regs.esp ≡ ok (s.tasks p).entry
    → setup_before_task_run read p s ≡ ok (record s { esp0 = (s.tasks p).stack })
unfolding setup_before_task_run
setup_before_task_run-passes read p s user aligned at =
    let whole : (s.tasks p).stack % 4 == 0 ≡ true = ground arith in
    let entered : not (is_ready (s.tasks p).state)
          || reads_entry (read p (s.tasks p).regs.esp) (s.tasks p).entry
        ≡ true =
      ground arith in
    rw user (rw whole (rw entered refl))
