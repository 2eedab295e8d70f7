-- ===== src/Transfer/Place.antt =====
-- A place in the space of another task, and what a copy through the window leaves of the page tables.
use toy_kernel.Base.{
  ℕ, ◌+◌, ◌*◌, ◌%◌, ◌^◌, ◌≤◌, ◌<◌, ◌≡◌, ◌≢◌, ap, ◌∙◌, true, false, Option, some, update, arith,
  Outcome, ok, bit_and,
}
use toy_kernel.Task.{TaskPtr}
use toy_kernel.Paging.{
  Directory, Paging, PhysicalBitmap, dir_at, set_entry, is_present, page_index_4m, page_size_4m,
  page_mask_4m, tmp_shared_task_mem_start, make_entry, set_page_frame_used, get_physical_addr,
}
use toy_kernel.Paging.Entries.{mask-page, is_present-make_entry, frame-make_entry}
use toy_kernel.Paging.Mapping.{dir_at-set_entry}
use toy_kernel.Paging.RemovePage.{is_present-zero}
use toy_kernel.Paging.Invariant.{IsCounted, IsLive}
use toy_kernel.Calls.{directory}
use toy_kernel.Transfer.{
  Machine, with_paging, active, translate, look_up_with, look_up, hold, with_window,
}
use toy_kernel.Transfer.Window.{
  window, locate-page, get_physical_addr-mapped, mapped-refs, add_page-window, remove_page-window,
  translate-window, kept-set_entry, twice-set_entry, set_entry-IsLive, frames-set_entry,
}
use toy_kernel.Transfer.Held.{with_window-steps, entry_for, look_up_with-held, hold-same}

-- What is to hold for a copy of `size` bytes at `dst` in the space of another task: the current task's
-- directory is in CR3 and has no page at the window, the other task has the page that the bytes fit, and
-- what the processor still holds for the window, if anything, is that page.
pub record IsReachable (reserved : ℕ → ℕ) (task cur : TaskPtr) (dst size : ℕ) (m : Machine)
    : Type 0 where
  pub current : m.system.scheduler.current ≡ some cur
  pub other : task ≢ cur
  pub active : active m ≡ directory cur m.system
  pub counted : IsCounted reserved m.system.paging
  pub live_task : IsLive (directory task m.system) m.system.paging
  pub live_cur : IsLive (directory cur m.system) m.system.paging
  pub free : is_present (dir_at (directory cur m.system) m.system.paging window) ≡ false
  pub fresh : (e : ℕ) → m.stale window ≡ some e → e ≡ entry_for task dst m
  pub dst_word : dst < 2 ^ 32
  pub entry_word : dir_at (directory task m.system) m.system.paging (page_index_4m dst) < 2 ^ 32
  pub present :
      is_present (dir_at (directory task m.system) m.system.paging (page_index_4m dst)) ≡ true
  pub room :
      m.system.paging.frames.refs
          (page_index_4m (dir_at (directory task m.system) m.system.paging (page_index_4m dst)))
        + 1
      < 2 ^ 16
  pub some_bytes : 0 < size
  pub fits : dst % page_size_4m + size ≤ page_size_4m

-- The machine with other page tables, other entries that the processor holds, and other bytes.
abbrev pub moved_to : Paging → (ℕ → Option ℕ) → (ℕ → ℕ) → Machine → Machine
moved_to p t x m = record { system = record m.system { paging = p }; phys = x; stale = t }

-- What the processor holds after the window has been used for the page of a task's address.
abbrev pub holding : (task : TaskPtr) (vaddr : ℕ) → Machine → ℕ → Option ℕ
holding task vaddr m = update m.stale window (some (entry_for task vaddr m))

-- The page tables after a copy: every page is mapped as before and has as many references.
pub record Restored (reserved : ℕ → ℕ) (cur : TaskPtr) (m : Machine) (p : Paging) : Type 0 where
  pub kept :
      (d : Directory) (j : ℕ)
      → is_present (dir_at d m.system.paging j) ≡ true
      → dir_at d p j ≡ dir_at d m.system.paging j
  pub free : is_present (dir_at (directory cur m.system) p window) ≡ false
  pub live : (d : Directory) → IsLive d m.system.paging → IsLive d p
  pub refs : (f : ℕ) → p.frames.refs f ≡ m.system.paging.frames.refs f
  pub counted : IsCounted reserved p

module _ (reserved : ℕ → ℕ) (task cur : TaskPtr) (dst : ℕ) (size : ℕ) (m : Machine)
    (w : IsReachable reserved task cur dst (size) m) where
  abbrev s : Paging
  s = m.system.paging

  abbrev d_task : Directory
  d_task = directory task m.system

  abbrev d_cur : Directory
  d_cur = directory cur m.system

  abbrev entry : ℕ
  entry = dir_at d_task s (page_index_4m dst)

  abbrev paddr : ℕ
  paddr = bit_and entry page_mask_4m

  address : paddr ≡ page_index_4m entry * 2 ^ 22
  address = mask-page entry w.entry_word

  refs_above : 0 < s.frames.refs (page_index_4m paddr)
  refs_above =
      let same : page_index_4m paddr ≡ page_index_4m entry = omega (arith, address) in
      rw same (
        mapped-refs reserved d_task (page_index_4m dst) s w.counted w.live_task
          (omega (arith, w.dst_word)) w.present)

  refs_below : s.frames.refs (page_index_4m paddr) + 1 < 2 ^ 16
  refs_below =
      let same : page_index_4m paddr ≡ page_index_4m entry = omega (arith, address) in
      rw same w.room

  aligned : paddr % page_size_4m ≡ 0
  aligned = omega (arith, address)

  word : paddr < 2 ^ 32
  word = omega (arith, address, w.entry_word)

  has_page : get_physical_addr d_task (page_index_4m dst * 2 ^ 22) s ≡ ok paddr
  has_page =
      let at : page_index_4m (page_index_4m dst * 2 ^ 22) ≡ page_index_4m dst = omega arith in
      get_physical_addr-mapped reserved d_task (page_index_4m dst * 2 ^ 22) s w.counted w.live_task
        (omega arith) (omega (arith, w.dst_word)) (rw at w.entry_word) (rw at w.present)
      ∙ ap (λ i. ok (bit_and (dir_at d_task s i) page_mask_4m)) at

  abbrev base : ℕ
  base = paddr + dst % page_size_4m

  abbrev opened : PhysicalBitmap → Paging
  opened b = set_entry d_cur window (make_entry paddr 0) b s

  abbrev closed : (b b' : PhysicalBitmap) → Paging
  closed b b' = set_entry d_cur window 0 b' (opened b)

  to_window :
      (b : PhysicalBitmap)
      → set_page_frame_used s.frames (page_index_4m paddr) ≡ ok b
      → (k : ℕ) → k < size
      → look_up (active m) m.stale (tmp_shared_task_mem_start + dst % page_size_4m + k) (opened b)
        ≡ ok (base + k)
  to_window b used k h =
      let x = dst % page_size_4m + k in
      let at = tmp_shared_task_mem_start + dst % page_size_4m + k in
      let masked : bit_and (make_entry paddr 0) page_mask_4m ≡ paddr =
        frame-make_entry paddr 0 aligned word (omega arith) in
      let page : page_index_4m at ≡ window = omega (arith, w.fits) in
      let here : at % page_size_4m ≡ dst % page_size_4m + k = omega (arith, w.fits) in
      let walk : translate (active m) at (opened b) ≡ ok (base + k) =
        ap (λ d. translate d at (opened b)) w.active
        ∙ ap (λ a. translate d_cur a (opened b)) (omega arith)
        ∙ translate-window reserved d_cur paddr s w.counted w.live_cur aligned word w.free
            refs_above refs_below b used x (omega (arith, w.fits))
        ∙ ap ok (omega arith) in
      ap (λ i. look_up_with (m.stale i) (active m) at (opened b)) page
      ∙ look_up_with-held (m.stale window) (active m) at (make_entry paddr 0) (base + k) (opened b)
          w.fresh (omega (arith, masked, here)) walk

  -- The processor holds the window's page afterwards.
  held :
      (b : PhysicalBitmap)
      → hold (m.stale window) (dir_at (active m) (opened b) window) ≡ some (make_entry paddr 0)
  held b =
      hold-same (m.stale window) (dir_at (active m) (opened b) window) (make_entry paddr 0) w.fresh
        (ap (λ d. dir_at d (opened b) window) w.active
          ∙ dir_at-set_entry d_cur window (make_entry paddr 0) b s window)
        (is_present-make_entry paddr 0 aligned word (omega arith))

  kept-closed :
      (b b' : PhysicalBitmap) (d : Directory) (j : ℕ)
      → is_present (dir_at d s j) ≡ true
      → dir_at d (closed b b') j ≡ dir_at d s j
  kept-closed b b' d j present =
      twice-set_entry d_cur d window j (make_entry paddr 0) 0 b b' s
      ∙ kept-set_entry d_cur d window j 0 b' s w.free present

  -- What a copy finds while the window is open.
  pub record Open (p : Paging) : Type 0 where
    pub in_window :
        (k : ℕ)
        → k < size
        → look_up (active m) m.stale (tmp_shared_task_mem_start + dst % page_size_4m + k) p
          ≡ ok (base + k)
    pub kept :
        (d : Directory) (j : ℕ) → is_present (dir_at d s j) ≡ true → dir_at d p j ≡ dir_at d s j

  -- A copy that returns in the open window and changes only the bytes of memory.
  pub with_window-Restored :
      (body : ℕ → Machine → Outcome Machine) (Q : (ℕ → ℕ) → Type 0)
      → ((p : Paging)
          → Open p
          → (x : ℕ → ℕ) × (body (tmp_shared_task_mem_start + dst % page_size_4m) (with_paging p m)
              ≡ ok (record (with_paging p m) { phys = x }))
            × Q x)
      → (p : Paging) × (x : ℕ → ℕ) × (with_window task cur dst body m
          ≡ ok (moved_to p (holding task dst m) x m))
        × Restored reserved cur m p
        × Q x
  with_window-Restored body Q runs =
      let (b, used, adds) =
        add_page-window reserved d_cur paddr s w.counted w.live_cur aligned word w.free refs_above
          refs_below in
      let (b', removes, counted, refs) =
        remove_page-window reserved d_cur paddr s w.counted w.live_cur aligned word w.free
          refs_above refs_below b used in
      let (x, ran, q) = runs (opened b) (record {
        in_window = to_window b used;
        kept =
            λ d j present. kept-set_entry d_cur d window j (make_entry paddr 0) b s w.free present;
      }) in
      (
        closed b b',
        x,
        with_window-steps task cur dst (page_index_4m dst * 2 ^ 22) (dst % page_size_4m) paddr body
              m (record (with_paging (opened b) m) { phys = x }) (opened b) (closed b b')
              (locate-page dst w.dst_word) has_page adds ran removes
            ∙ ap (λ h. ok (moved_to (closed b b') (update m.stale window h) x m)) (held b),
        record {
          kept = kept-closed b b';
          free =
              ap is_present (dir_at-set_entry d_cur window 0 b' (opened b) window)
              ∙ is_present-zero;
          live = λ d live.
              set_entry-IsLive d_cur d window 0 b' (opened b)
                (set_entry-IsLive d_cur d window (make_entry paddr 0) b s live);
          refs = λ f. ap (λ c. c.refs f) (frames-set_entry d_cur window 0 b' (opened b)) ∙ refs f;
          counted = counted;
        },
        q,
      )
