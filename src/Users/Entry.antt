-- ===== src/Users/Entry.antt =====
-- A user task whose stack is set up can be entered.
use toy_kernel.Base.{
  ℕ, suc, bit_and, ◌+◌, ◌-◌, ◌*◌, ◌%◌, ◌^◌, ◌<◌, ◌≡◌, refl, sym, ap, ◌∙◌, Option, some, get_elem?,
  arith, ok,
}
use toy_kernel.Task.{TaskPtr, Task, set_task, user_data_segment, user_code_segment}
use toy_kernel.Paging.{
  user_shared_space_start, Paging, dir_at, page_index_4m, page_size_4m, page_mask_4m,
}
use toy_kernel.Calls.{directory, directory_of}
use toy_kernel.Transfer.{Machine, translate, task_read}
use toy_kernel.Transfer.Place.{IsReachable, moved_to}
use toy_kernel.Users.{user_shared_space_end, word_at, with_scheduler, read_word}
use toy_kernel.Transfer.Moves.{Apart}
use toy_kernel.Transfer.Read.{place, IsBuffer}
use toy_kernel.Users.Stack.{IsReachable-at, Pushed}
use toy_kernel.Users.Reading.{task_read-word, changed-IsReachable}
use toy_kernel.Users.Pushes.{
  stack_words, peek, IsEnterable, update_same, get_elem?-bound, setup_before_task_run-passes,
}

module _ (reserved : ℕ → ℕ) (p cur : TaskPtr) (stack_arg entry : ℕ) (m : Machine)
    (w : IsReachable reserved p cur user_shared_space_start 1 m) (q : Paging) (t : ℕ → Option ℕ)
    (x : ℕ → ℕ)
    (v : Pushed reserved p cur 3 user_shared_space_end (stack_words stack_arg entry) m q t x) where
  abbrev task : Task
  task = m.system.scheduler.tasks p

  abbrev entered : Task
  entered = record task {
    regs = record task.regs {
      ds = user_data_segment;
      cs = user_code_segment;
      esp = user_shared_space_end - 24;
    };
  }

  abbrev after : Machine
  after = with_scheduler (set_task p entered m.system.scheduler) (moved_to q t x m)

  self : after.system.scheduler.tasks p ≡ entered
  self = update_same m.system.scheduler.tasks p entered

  read_stack :
      (i word : ℕ)
      → get_elem? (stack_words stack_arg entry) i ≡ some word
      → word < 2 ^ 32
      → read_word (directory p m.system) (user_shared_space_end - 4 * suc i) after ≡ ok word
  unfolding read_word translate
  read_stack i word got small =
      let few : i < 6 = get_elem?-bound (stack_words stack_arg entry) i word got in
      let at : page_index_4m (user_shared_space_end - 4 * suc i) ≡ 3 = omega arith in
      let place : (user_shared_space_end - 4 * suc i) % page_size_4m
          ≡ user_shared_space_end - 4 * suc i - user_shared_space_start =
        omega arith in
      rw at (
        rw (v.kept (directory p m.system) 3 w.present)
          (rw w.present (rw place (ap ok (v.words i word got small)))))

  directory_same : directory p after.system ≡ directory p m.system
  directory_same = ap (λ t. directory_of m.system.kernel_pd t.page_directory) self

  read_after :
      (i word : ℕ)
      → get_elem? (stack_words stack_arg entry) i ≡ some word
      → word < 2 ^ 32
      → read_word (directory p after.system) (user_shared_space_end - 4 * suc i) after ≡ ok word
  read_after i word got small =
      ap (λ d. read_word d (user_shared_space_end - 4 * suc i) after) directory_same
      ∙ read_stack i word got small

  after-IsReachable : IsReachable reserved p cur (user_shared_space_end - 24) 4 after
  after-IsReachable =
      changed-IsReachable reserved p cur (user_shared_space_end - 24) 4 entered (moved_to q t x m)
        refl
        (IsReachable-at reserved p cur 3 (user_shared_space_end - 24) 4 (moved_to q t x m)
          v.writable (omega arith) (omega arith) (omega arith))

  entry_place : entry < 2 ^ 32 → word_at x (place p (user_shared_space_end - 24) after) ≡ entry
  entry_place small =
      ap (λ d. word_at x (bit_and (dir_at d q 3) page_mask_4m + 4194280)) directory_same
      ∙ ap (λ e. word_at x (bit_and e page_mask_4m + 4194280))
          (v.kept (directory p m.system) 3 w.present)
      ∙ v.words 5 entry refl small

  read_entry :
      entry < 2 ^ 32
      → (buffer to : ℕ) → IsBuffer buffer 4 to after
      → Apart to (place p (user_shared_space_end - 24) after) 4
      → (m' : Machine) × (task_read p buffer (user_shared_space_end - 24) 4 after ≡ ok m')
        × (word_at m'.phys to ≡ entry)
  read_entry small buffer to b apart =
      task_read-word reserved p cur (user_shared_space_end - 24) entry buffer to after
        after-IsReachable b apart (entry_place small)

  peek_entry : entry < 2 ^ 32 → peek after p (after.system.scheduler.tasks p).regs.esp ≡ ok entry
  peek_entry small = ap (λ t. peek after p t.regs.esp) self ∙ read_after 5 entry refl small

  pub after-IsEnterable : entry < 2 ^ 32 → IsEnterable p stack_arg entry m after
  after-IsEnterable small = record {
    stack = read_after;
    reads = read_entry small;
    esp = ap (λ t. t.regs.esp) self;
    ds = ap (λ t. t.regs.ds) self;
    cs = ap (λ t. t.regs.cs) self;
    enters = λ own aligned user.
        setup_before_task_run-passes (peek after) p after.system.scheduler
          (ap (λ t. t.user) self ∙ user) (ap (λ t. t.stack % 4) self ∙ aligned)
          (peek_entry small ∙ ap ok (sym own ∙ sym (ap (λ t. t.entry) self)))
        ∙ ap (λ t. ok (record after.system.scheduler { esp0 = t.stack })) self;
  }
