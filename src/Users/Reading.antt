-- ===== src/Users/Reading.antt =====
-- `Task::Read` of a word from the stack of a task that is not running.
use toy_kernel.Base.{ℕ, ◌+◌, ◌≡◌, ◌≢◌, refl, sym, ap, ◌∙◌, arith, ok, update}
use toy_kernel.Task.{TaskPtr, Task, set_task}
use toy_kernel.Calls.{directory, directory_of}
use toy_kernel.Transfer.{Machine, task_read}
use toy_kernel.Transfer.Place.{IsReachable, moved_to, holding}
use toy_kernel.Transfer.Moves.{Apart, IsMoved}
use toy_kernel.Transfer.Read.{place, IsBuffer, task_read-IsMoved}
use toy_kernel.Users.{word_at, with_scheduler}

word_at-IsMoved :
    (to from : ℕ) (old x : ℕ → ℕ) → IsMoved to from 4 old x → word_at x to ≡ word_at old from
word_at-IsMoved to from old x v =
    let at_to : to + 0 ≡ to = omega arith in
    let at_from : from + 0 ≡ from = omega arith in
    let first : x to ≡ old from = sym (ap x at_to) ∙ v.there 0 (omega arith) ∙ ap old at_from in
    rw first (
      rw (v.there 1 (omega arith))
        (rw (v.there 2 (omega arith)) (rw (v.there 3 (omega arith)) refl)))

-- A word that is read into a buffer of the current task.
pub task_read-word :
    (reserved : ℕ → ℕ) (p cur : TaskPtr) (vaddr v buffer to : ℕ) (m : Machine)
    → IsReachable reserved p cur vaddr 4 m
    → IsBuffer buffer 4 to m
    → Apart to (place p vaddr m) 4
    → word_at m.phys (place p vaddr m) ≡ v
    → (m' : Machine) × (task_read p buffer vaddr 4 m ≡ ok m') × (word_at m'.phys to ≡ v)
task_read-word reserved p cur vaddr v buffer to m w b apart word =
    let (q, x, ran, _, moved) = task_read-IsMoved reserved p cur buffer vaddr 4 to m w b apart in
    (
      moved_to q (holding p vaddr m) x m,
      ran,
      word_at-IsMoved to (place p vaddr m) m.phys x moved ∙ word,
    )

-- The place can be reached after a change of the task that leaves its page directory.
module _ (reserved : ℕ → ℕ) (p cur : TaskPtr) (vaddr size : ℕ) (t : Task) (m : Machine)
    (same : t.page_directory ≡ (m.system.scheduler.tasks p).page_directory) where
  abbrev pub changed : Machine
  changed = with_scheduler (set_task p t m.system.scheduler) m

  pub directory-changed : directory p changed.system ≡ directory p m.system
  directory-changed =
      let self : update m.system.scheduler.tasks p t p ≡ t = ground arith in
      ap (λ z. directory_of m.system.kernel_pd z.page_directory) self
      ∙ ap (directory_of m.system.kernel_pd) same

  directory-other : p ≢ cur → directory cur changed.system ≡ directory cur m.system
  directory-other apart =
      let kept : update m.system.scheduler.tasks p t cur ≡ m.system.scheduler.tasks cur =
        ground (arith, apart) in
      ap (λ z. directory_of m.system.kernel_pd z.page_directory) kept

  pub changed-IsReachable :
      IsReachable reserved p cur vaddr size m → IsReachable reserved p cur vaddr size changed
  changed-IsReachable w =
      let own = directory-changed in
      let other = directory-other w.other in
      record {
        current = w.current;
        other = w.other;
        active = w.active ∙ sym other;
        counted = w.counted;
        live_task = rw own w.live_task;
        live_cur = rw other w.live_cur;
        free = rw other w.free;
        fresh = rw own w.fresh;
        dst_word = w.dst_word;
        entry_word = rw own w.entry_word;
        present = rw own w.present;
        room = rw own w.room;
        some_bytes = w.some_bytes;
        fits = w.fits;
      }
