-- ===== src/Calls/Tests.antt =====
-- Two tasks in the kernel's own address space after `InitializePaging`, and the system calls at them.
use toy_kernel.Base.{
  ℕ, ◌+◌, ◌^◌, ◌<◌, ◌≡◌, refl, sym, subst, true, false, some, [], ◌∷◌, arith, ok, stop,
}
use toy_kernel.Bitmap.{is_set, set_one, reserve, test_bit, with_one, clear, get_first_zero}
use toy_kernel.Task.{running, Task, zero_regs}
use toy_kernel.Paging.{
  is_present, num_page_dirs, initialize_paging, add_page, ref, set_page_frame_used,
  next_free_physical_page, reserve_physical, get_physical_addr, is_virtual_mapped,
  get_next_free_virtual_user, free_user_loop,
}
use toy_kernel.Paging.Boot.{absent, count_dirs-clear}
use toy_kernel.Paging.Booted.{booted, booted-IsCounted}
use toy_kernel.Paging.Counts.{mappings, count_dirs, count_entries-le}
use toy_kernel.Paging.Invariant.{IsCounted, IsLive}
use toy_kernel.Calls.{
  System, directory, success, map_page, map_new_page, share_page, map_page_from_task,
}
use toy_kernel.Calls.Pages.{Mapped, map_page-Mapped, SharedPage, share_page-SharedPage}

abbrev task : Task
task = record {
  id = 1;
  state = running;
  regs = zero_regs;
  page_directory = 0x500000;
  user = true;
  user_in_kernel_space = false;
  parent = some 16;
  children = [];
  stack = 0x2000800;
  entry = 0x40000000;
}

system : System
system = record {
  scheduler = record {
    current = some 32;
    next_tid = 3;
    ready_queue = 48 ∷ 32 ∷ [];
    main_task = some 16;
    tasks = λ p. task;
    interrupts = false;
    cr3 = 0x500000;
    esp0 = 0;
    memory = λ a. 0;
  };
  paging = booted;
  kernel_pd = 0x500000;
}

-- Every definition that a run opens.
opened : Unit {0}
unfolding initialize_paging reserve_physical reserve set_one add_page is_set test_bit with_one ref
    set_page_frame_used clear is_present get_first_zero next_free_physical_page booted system
    get_physical_addr is_virtual_mapped get_next_free_virtual_user free_user_loop map_page
    map_new_page share_page map_page_from_task absent
opened = tt

system-IsCounted : IsCounted absent system.paging
unfolding system
system-IsCounted = booted-IsCounted

booted-region : system.paging.region ≡ clear num_page_dirs
unfolding opened
booted-region = refl

-- With no directory in use only the kernel's entries count.
few_references : (f : ℕ) → system.paging.frames.refs f + (num_page_dirs + 1) < 2 ^ 16
unfolding mappings absent
few_references f = ground (
  arith,
  system-IsCounted.counted f,
  subst (λ r. count_dirs num_page_dirs 0 r system.paging.dirs f ≡ 0) (sym booted-region)
      (count_dirs-clear num_page_dirs 0 system.paging.dirs f),
  count_entries-le 1024 0 system.paging.kernel_dir f,
)

current : system.scheduler.current ≡ some 32
unfolding system
current = refl

in_use : IsLive (directory 32 system) system.paging
unfolding system
in_use = tt

with_page : System
with_page = elim (map_page 0x40000000 system) [ ok r ↦ r.1 | stop ↦ system ]

map_page_runs : map_page 0x40000000 system ≡ ok (success, with_page)
unfolding opened with_page
map_page_runs = refl

map_page-Mapped_example : Mapped absent 32 0x40000000 system success with_page
map_page-Mapped_example =
    map_page-Mapped absent 32 0x40000000 system system-IsCounted in_use (omega arith) success
      with_page current map_page_runs

-- The page of the kernel's code is shared at the start of the user's part.
sharing : System
sharing = elim (share_page 48 0x400000 system) [ ok r ↦ r.1 | stop ↦ system ]

share_page_runs : share_page 48 0x400000 system ≡ ok (0x40000000, sharing)
unfolding opened sharing
share_page_runs = refl

share_page-SharedPage_example : SharedPage absent 32 48 0x400000 0x40000000 system sharing
share_page-SharedPage_example =
    share_page-SharedPage absent 32 48 0x400000 system system-IsCounted in_use few_references
      0x40000000 sharing current share_page_runs
