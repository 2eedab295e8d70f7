-- ===== src/Users/Tests.antt =====
-- The stack of a user task, set up by another task in the kernel's address space.
use toy_kernel.Base.{◌≡◌, refl, true, false, none, some, [], ◌∷◌}
use toy_kernel.Bitmap.{is_set, set_one, reserve, test_bit, with_one, clear}
use toy_kernel.Task.{running, Task, zero_regs}
use toy_kernel.Paging.{
  is_present, initialize_paging, add_page, ref, set_page_frame_used, reserve_physical,
}
use toy_kernel.Paging.Booted.{booted, shared_page}
use toy_kernel.Transfer.{Machine}
use toy_kernel.Users.{word_bytes}

test_word_bytes : word_bytes 0x12345678 ≡ 0x78 ∷ 0x56 ∷ 0x34 ∷ 0x12 ∷ []
test_word_bytes = refl

abbrev task : Task
task = record {
  id = 1;
  state = running;
  regs = zero_regs;
  page_directory = 0x500000;
  user = true;
  user_in_kernel_space = false;
  parent = some 32;
  children = [];
  stack = 0x2000800;
  entry = 0x40000000;
}

abbrev machine : Machine
machine = record {
  system = record {
    scheduler = record {
      current = some 32;
      next_tid = 3;
      ready_queue = 32 ∷ [];
      main_task = some 32;
      tasks = λ p. task;
      interrupts = false;
      cr3 = 0x500000;
      esp0 = 0;
      memory = λ a. 0;
    };
    paging = shared_page;
    kernel_pd = 0x500000;
  };
  phys = λ a. 0;
  stale = λ page. none;
}

-- Every definition that a run opens.
opened : Unit {0}
unfolding initialize_paging reserve_physical reserve set_one add_page is_set test_bit with_one ref
    set_page_frame_used clear is_present booted shared_page
opened = tt
