-- ===== src/Transfer/Window.antt =====
-- The page that `TaskMemcpy` maps for a copy and unmaps behind it.
use toy_kernel.Base.{
  ℕ, ◌+◌, ◌-◌, ◌*◌, ◌%◌, ◌^◌, ◌<◌, ◌≡◌, refl, ap, ap₂, ◌∙◌, true, false, ◌&&◌, ◌==◌, arith, ltb,
  Bool-cases, inl, inr, ok, bit_and,
}
use toy_kernel.Bitmap.{set_one, is_set}
use toy_kernel.Paging.{
  PhysicalBitmap, Directory, kernel, slot, Paging, dir_at, set_entry, is_present, page_index_4m,
  page_addr_4m, page_size_4m, page_mask_4m, ram_as_4m_pages, num_page_dir_entries,
  tmp_shared_task_mem_start, is_kernel_page_dir, is_shared, make_entry, add_page, remove_page,
  get_physical_addr, set_page_frame_used, set_page_frame_free, unref,
}
use toy_kernel.Paging.Invariant.{
  IsCounted, IsLive, mappings-set_entry, added-IsCounted, removed-IsCounted,
}
use toy_kernel.Paging.Tracking.{set_page_frame_used-Used, set_page_frame_free-Freed}
use toy_kernel.Paging.Entries.{
  is_present-make_entry, frame-make_entry, page_index-make_entry, frame-masked,
}
use toy_kernel.Paging.Mapping.{dir_at-set_entry}
use toy_kernel.Paging.RemovePage.{is_present-zero}
use toy_kernel.Transfer.{translate, locate}

-- The index of `TMP_SHARED_TASK_MEM_START`.
abbrev pub window : ℕ
window = 5

set_page_frame_used-in_range :
    (b : PhysicalBitmap) (i : ℕ)
    → i < ram_as_4m_pages
    → (b' : PhysicalBitmap) × (set_page_frame_used b i ≡ ok b')
unfolding set_page_frame_used set_one
set_page_frame_used-in_range b i lt =
    let inside : ltb i ram_as_4m_pages ≡ true = ground arith in rw inside (_, refl)

-- A frame with more than one reference only loses one.
set_page_frame_free-shared :
    (b : PhysicalBitmap) (i : ℕ)
    → 1 < b.refs i
    → (b' : PhysicalBitmap) × (set_page_frame_free b i ≡ ok b')
unfolding set_page_frame_free unref
set_page_frame_free-shared b i more =
    let held : b.refs i == 0 ≡ false = ground arith in
    let left : b.refs i - 1 == 0 ≡ false = ground arith in
    let here : i == i ≡ true = ground arith in rw held (rw here (rw left (_, refl)))

-- A frame that a directory in use maps has a reference.
pub mapped-refs :
    (reserved : ℕ → ℕ) (d : Directory) (i : ℕ) (s : Paging)
    → IsCounted reserved s
    → IsLive d s
    → i < num_page_dir_entries
    → is_present (dir_at d s i) ≡ true
    → 0 < s.frames.refs (page_index_4m (dir_at d s i))
mapped-refs reserved d i s v live lt present =
    let f = page_index_4m (dir_at d s i) in
    ground
      (arith, v.counted f, mappings-set_entry d i 0 f s.frames s live lt, is_present-zero, present)

-- `GetPhysicalAddr` of a page that is mapped.
pub get_physical_addr-mapped :
    (reserved : ℕ → ℕ) (d : Directory) (v_addr : ℕ) (s : Paging)
    → IsCounted reserved s
    → IsLive d s
    → v_addr % page_size_4m ≡ 0
    → v_addr < 2 ^ 32
    → dir_at d s (page_index_4m v_addr) < 2 ^ 32
    → is_present (dir_at d s (page_index_4m v_addr)) ≡ true
    → get_physical_addr d v_addr s ≡ ok (bit_and (dir_at d s (page_index_4m v_addr)) page_mask_4m)
unfolding get_physical_addr
get_physical_addr-mapped reserved d v_addr s v live aligned word entry_word present =
    let pde = dir_at d s (page_index_4m v_addr) in
    let at_page : v_addr % page_size_4m == 0 ≡ true = ground arith in
    let names = frame-masked pde entry_word in
    let referenced = mapped-refs reserved d (page_index_4m v_addr) s v live (omega arith) present in
    let used : is_set s.frames.bits (page_index_4m pde) ≡ true =
      ground (arith, v.tracked.counted (page_index_4m pde) (omega arith), referenced) in
    rw at_page (rw present (rw names (rw used refl)))

-- `locate` finds the page and the place in it.
pub locate-page :
    (vaddr : ℕ)
    → vaddr < 2 ^ 32
    → locate vaddr ≡ ok (page_index_4m vaddr * 2 ^ 22, vaddr % page_size_4m)
unfolding locate
locate-page vaddr word = elim (Bool-cases (vaddr % page_size_4m == 0)) [
  | inl e ↦
      let start : vaddr ≡ page_index_4m vaddr * 2 ^ 22 = ground arith in
      let none_left : 0 ≡ vaddr % page_size_4m = ground arith in
      rw e (ap₂ (λ p o. ok (p, o)) start none_left)
  | inr e ↦
      let start : page_addr_4m (page_index_4m vaddr) ≡ page_index_4m vaddr * 2 ^ 22 = omega arith in
      let behind : ltb (page_index_4m vaddr * 2 ^ 22) vaddr ≡ true = ground arith in
      let rest : vaddr - page_index_4m vaddr * 2 ^ 22 ≡ vaddr % page_size_4m = omega arith in
      rw e (rw start (rw behind (ap (λ o. ok (page_index_4m vaddr * 2 ^ 22, o)) rest)))
]

-- A write to an entry that is not present changes no entry that is present, in any directory.
pub kept-set_entry :
    (d d' : Directory) (i j pde : ℕ) (b : PhysicalBitmap) (s : Paging)
    → is_present (dir_at d s i) ≡ false
    → is_present (dir_at d' s j) ≡ true
    → dir_at d' (set_entry d i pde b s) j ≡ dir_at d' s j
kept-set_entry kernel kernel i j pde b s free present = ground arith
kept-set_entry kernel (slot m) i j pde b s free present = refl
kept-set_entry (slot n) kernel i j pde b s free present = refl
kept-set_entry (slot n) (slot m) i j pde b s free present = ground arith

pub twice-set_entry :
    (d d' : Directory) (i j pde pde' : ℕ) (b b' : PhysicalBitmap) (s : Paging)
    → dir_at d' (set_entry d i pde' b' (set_entry d i pde b s)) j
      ≡ dir_at d' (set_entry d i pde' b' s) j
twice-set_entry kernel kernel i j pde pde' b b' s = ground arith
twice-set_entry kernel (slot m) i j pde pde' b b' s = refl
twice-set_entry (slot n) kernel i j pde pde' b b' s = refl
twice-set_entry (slot n) (slot m) i j pde pde' b b' s = ground arith

pub frames-set_entry :
    (d : Directory) (i pde : ℕ) (b : PhysicalBitmap) (s : Paging)
    → (set_entry d i pde b s).frames ≡ b
frames-set_entry kernel i pde b s = refl
frames-set_entry (slot n) i pde b s = refl

pub set_entry-IsLive :
    (d d' : Directory) (i pde : ℕ) (b : PhysicalBitmap) (s : Paging)
    → IsLive d' s
    → IsLive d' (set_entry d i pde b s)
set_entry-IsLive kernel kernel i pde b s live = live
set_entry-IsLive kernel (slot m) i pde b s live = live
set_entry-IsLive (slot n) kernel i pde b s live = live
set_entry-IsLive (slot n) (slot m) i pde b s live = live

not_shared : (d : Directory) → is_kernel_page_dir d && false ≡ false
not_shared kernel = refl
not_shared (slot n) = refl

-- `RemovePage` of a page that is in no other directory with the kernel's.
remove_page-own :
    (d : Directory) (v_addr f : ℕ) (b : PhysicalBitmap) (s : Paging)
    → v_addr % page_size_4m ≡ 0
    → is_kernel_page_dir d && is_shared v_addr ≡ false
    → page_index_4m (bit_and (dir_at d s (page_index_4m v_addr)) page_mask_4m) ≡ f
    → set_page_frame_free s.frames f ≡ ok b
    → remove_page d v_addr s ≡ ok (set_entry d (page_index_4m v_addr) 0 b s)
unfolding remove_page
remove_page-own d v_addr f b s aligned own names freed =
    let whole : v_addr % page_size_4m == 0 ≡ true = ground arith in
    rw own (rw whole (rw names (rw freed refl)))

-- The window on a frame that is mapped somewhere, in the directory `d`.
module _ (reserved : ℕ → ℕ) (d : Directory) (paddr : ℕ) (s : Paging) (v : IsCounted reserved s)
    (live : IsLive d s) (aligned : paddr % page_size_4m ≡ 0) (word : paddr < 2 ^ 32)
    (free : is_present (dir_at d s window) ≡ false) (held : 0 < s.frames.refs (page_index_4m paddr))
    (room : s.frames.refs (page_index_4m paddr) + 1 < 2 ^ 16) where
  abbrev pde : ℕ
  pde = make_entry paddr 0

  abbrev frame : ℕ
  frame = page_index_4m paddr

  pub add_page-window :
      (b : PhysicalBitmap) × (set_page_frame_used s.frames frame ≡ ok b)
      × (add_page d tmp_shared_task_mem_start paddr 0 true s ≡ ok (set_entry d window pde b s))
  unfolding add_page
  add_page-window =
      let (b, used) = set_page_frame_used-in_range s.frames frame (omega arith) in
      let whole : paddr % page_size_4m == 0 ≡ true = ground arith in
      let own : is_kernel_page_dir d && false ≡ false = not_shared d in
      (b, used, rw whole (rw free (rw used (rw own refl))))

  -- The window is closed again: all references are as before, and only the window's entry is written.
  module _ (b : PhysicalBitmap) (used : set_page_frame_used s.frames frame ≡ ok b) where
    abbrev opened : Paging
    opened = set_entry d window pde b s

    entry : dir_at d opened window ≡ pde
    entry = dir_at-set_entry d window pde b s window

    opened-IsCounted : IsCounted reserved opened
    opened-IsCounted =
        added-IsCounted reserved d window pde frame b s live (omega arith) v free
          (is_present-make_entry paddr 0 aligned word (omega arith))
          (page_index-make_entry paddr 0 aligned word (omega arith)) room used

    pub remove_page-window :
        (b' : PhysicalBitmap) × (remove_page d tmp_shared_task_mem_start opened
          ≡ ok (set_entry d window 0 b' opened))
        × IsCounted reserved (set_entry d window 0 b' opened)
        × ((f : ℕ) → b'.refs f ≡ s.frames.refs f)
    remove_page-window =
        let u = set_page_frame_used-Used s.frames b frame used in
        let more : 1 < b.refs frame = ground (arith, ap (λ g. g frame) u.refs) in
        let (b', freed) = set_page_frame_free-shared b frame more in
        let w = set_page_frame_free-Freed b b' frame freed in
        let masked : bit_and pde page_mask_4m ≡ paddr =
          frame-make_entry paddr 0 aligned word (omega arith) in
        (
          b',
          remove_page-own d tmp_shared_task_mem_start frame b' opened refl (not_shared d)
              (ap (λ e. page_index_4m (bit_and e page_mask_4m)) entry ∙ ap page_index_4m masked)
              (ap (λ c. set_page_frame_free c frame) (frames-set_entry d window pde b s) ∙ freed),
          removed-IsCounted reserved d window 0 frame b' opened
              (set_entry-IsLive d d window pde b s live) (omega arith) opened-IsCounted
              (ap is_present entry ∙ is_present-make_entry paddr 0 aligned word (omega arith))
              (ap page_index_4m entry ∙ page_index-make_entry paddr 0 aligned word (omega arith))
              is_present-zero
              (ap (λ c. set_page_frame_free c frame) (frames-set_entry d window pde b s) ∙ freed),
          λ f. ground (arith, ap (λ g. g f) u.refs, ap (λ g. g f) w.refs),
        )

    -- What the processor finds in the window.
    pub translate-window :
        (x : ℕ) → x < 2 ^ 22 → translate d (tmp_shared_task_mem_start + x) opened ≡ ok (paddr + x)
    unfolding translate
    translate-window x small =
        let at : page_index_4m (tmp_shared_task_mem_start + x) ≡ window = omega arith in
        let place : (tmp_shared_task_mem_start + x) % page_size_4m ≡ x = omega arith in
        let present = is_present-make_entry paddr 0 aligned word (omega arith) in
        let masked : bit_and pde page_mask_4m ≡ paddr =
          frame-make_entry paddr 0 aligned word (omega arith) in
        rw at (rw entry (rw present (rw masked (rw place refl))))
