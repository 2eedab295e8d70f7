-- ===== src/Transfer/Held.antt =====
-- The steps of a copy through the window, and what the processor holds for it.
use toy_kernel.Base.{
  ℕ, ◌+◌, ◌%◌, ◌≡◌, refl, ap, ◌∙◌, true, Option, none, some, Outcome, ok, bit_and,
}
use toy_kernel.Task.{TaskPtr}
use toy_kernel.Paging.{
  Directory, Paging, dir_at, is_present, page_index_4m, page_size_4m, page_mask_4m,
  tmp_shared_task_mem_start, make_entry, add_page, remove_page, get_physical_addr,
}
use toy_kernel.Calls.{directory}
use toy_kernel.Transfer.{
  Machine, with_paging, translate, look_up_with, hold, without_page, locate, drop_page, with_window,
}

pub with_window-steps :
    (task cur : TaskPtr) (vaddr page offset paddr : ℕ) (body : ℕ → Machine → Outcome Machine)
    (m m1 : Machine) (opened closed : Paging)
    → locate vaddr ≡ ok (page, offset)
    → get_physical_addr (directory task m.system) page m.system.paging ≡ ok paddr
    → add_page (directory cur m.system) tmp_shared_task_mem_start paddr 0 true m.system.paging
      ≡ ok opened
    → body (tmp_shared_task_mem_start + offset) (with_paging opened m) ≡ ok m1
    → remove_page (directory cur m1.system) tmp_shared_task_mem_start m1.system.paging ≡ ok closed
    → with_window task cur vaddr body m ≡ ok (without_page tmp_shared_task_mem_start closed m1)
unfolding with_window drop_page
with_window-steps task cur vaddr page offset paddr body m m1 opened closed e1 e2 e3 e4 e5 =
    rw e1 (rw e2 (rw e3 (rw e4 (rw e5 refl))))

-- The entry that maps the page of a task's address in the window.
abbrev pub entry_for : (task : TaskPtr) (vaddr : ℕ) → Machine → ℕ
entry_for task vaddr m =
    make_entry
      (bit_and (dir_at (directory task m.system) m.system.paging (page_index_4m vaddr))
        page_mask_4m)
      0

pub look_up_with-held :
    (o : Option ℕ) (d : Directory) (vaddr e a : ℕ) (s : Paging)
    → ((old : ℕ) → o ≡ some old → old ≡ e)
    → bit_and e page_mask_4m + vaddr % page_size_4m ≡ a
    → translate d vaddr s ≡ ok a
    → look_up_with o d vaddr s ≡ ok a
look_up_with-held none d vaddr e a s same names walk = walk
look_up_with-held (some old) d vaddr e a s same names walk =
    ap (λ z. ok (bit_and z page_mask_4m + vaddr % page_size_4m)) (same old refl) ∙ ap ok names

pub hold-same :
    (o : Option ℕ) (pde e : ℕ)
    → ((old : ℕ) → o ≡ some old → old ≡ e)
    → pde ≡ e
    → is_present e ≡ true
    → hold o pde ≡ some e
hold-same none pde e same entry present = rw entry (rw present refl)
hold-same (some old) pde e same entry present = ap some (same old refl)
