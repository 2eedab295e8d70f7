-- ===== src/Paging/AddPage.antt =====
-- `AddPage`: the entry and the count of its frame.
use toy_kernel.Base.{
  ℕ, ◌+◌, ◌%◌, ◌^◌, ◌<◌, ◌≡◌, refl, sym, ap, subst, ◌∙◌, Bool, true, false, not, ◌&&◌, ◌||◌, ◌==◌,
  arith, if◌then◌else◌, Bool-cases, inl, inr, ==_iff, ok, check, >>=-eq-ok, ok-inj, check-eq-ok,
  eq-false,
}
use toy_kernel.Paging.Types.{
  PhysicalBitmap, Directory, kernel, slot, Paging, dir_at, set_entry, is_present,
  is_kernel_page_dir, is_shared, page_index_4m, page_size_4m, num_page_dirs,
}
use toy_kernel.Paging.Frames.{set_page_frame_used, is_page_frame_used}
use toy_kernel.Paging.Spaces.{make_entry, share_added, add_page}
use toy_kernel.Paging.Entries.{is_present-make_entry, page_index-make_entry}
use toy_kernel.Paging.Tracking.{set_page_frame_used-Used}
use toy_kernel.Paging.Invariant.{IsLive, IsCounted, added-IsCounted}
use toy_kernel.Paging.Sharing.{share_added-others, share_added-IsCounted}

-- The parts of a call of `AddPage` that returns.
pub record Added (d : Directory) (v_addr p_addr flags : ℕ) (reuse : Bool) (s s' : Paging)
    : Type 0 where
  pub frames : PhysicalBitmap
  pub p_aligned : p_addr % page_size_4m ≡ 0
  pub v_aligned : v_addr % page_size_4m ≡ 0
  pub unused : (reuse || not (is_page_frame_used s.frames (page_index_4m p_addr))) ≡ true
  pub free : is_present (dir_at d s (page_index_4m v_addr)) ≡ false
  pub used : set_page_frame_used s.frames (page_index_4m p_addr) ≡ ok frames
  pub shared :
      (if is_kernel_page_dir d && is_shared v_addr
        then share_added num_page_dirs 0
            (page_index_4m v_addr)
            (make_entry p_addr flags)
            (page_index_4m p_addr)
            (set_entry d (page_index_4m v_addr) (make_entry p_addr flags) frames s)
        else ok (set_entry d (page_index_4m v_addr) (make_entry p_addr flags) frames s))
      ≡ ok s'

pub add_page-Added :
    (d : Directory) (v_addr p_addr flags : ℕ) (reuse : Bool) (s s' : Paging)
    → add_page d v_addr p_addr flags reuse s ≡ ok s'
    → Added d v_addr p_addr flags reuse s s'
unfolding add_page
add_page-Added d v_addr p_addr flags reuse s s' h =
    let (_, c1, h1) = >>=-eq-ok (check (p_addr % page_size_4m == 0)) _ h in
    let (_, c2, h2) = >>=-eq-ok (check (v_addr % page_size_4m == 0)) _ h1 in
    let (_, c3, h3) =
      >>=-eq-ok (check (reuse || not (is_page_frame_used s.frames (page_index_4m p_addr)))) _ h2 in
    let (_, c4, h4) =
      >>=-eq-ok (check (not (is_present (dir_at d s (page_index_4m v_addr))))) _ h3 in
    let (b, used, h5) = >>=-eq-ok (set_page_frame_used s.frames (page_index_4m p_addr)) _ h4 in
    record {
      frames = b;
      p_aligned = (==_iff _ _).0 (check-eq-ok _ c1);
      v_aligned = (==_iff _ _).0 (check-eq-ok _ c2);
      unused = check-eq-ok _ c3;
      free = eq-false (check-eq-ok _ c4);
      used = used;
      shared = h5;
    }

frames-set_entry :
    (d : Directory) (i pde : ℕ) (b : PhysicalBitmap) (s : Paging)
    → (set_entry d i pde b s).frames ≡ b
frames-set_entry kernel i pde b s = refl
frames-set_entry (slot n) i pde b s = refl

-- The words that a call of `AddPage` takes.
pub record AreWords (v_addr p_addr flags : ℕ) : Type 0 where
  pub v_word : v_addr < 2 ^ 32
  pub p_word : p_addr < 2 ^ 32
  pub flags_byte : flags < 2 ^ 8

module _ (d : Directory) (v_addr p_addr flags : ℕ) (reuse : Bool) (s s' : Paging)
    (words : AreWords v_addr p_addr flags)
    (room : s.frames.refs (page_index_4m p_addr) + (num_page_dirs + 1) < 2 ^ 16) where
  -- The state after the first write.
  abbrev pub written : PhysicalBitmap → Paging
  written b = set_entry d (page_index_4m v_addr) (make_entry p_addr flags) b s

  written-IsCounted :
      (reserved : ℕ → ℕ)
      → IsLive d s
      → IsCounted reserved s
      → (a : Added d v_addr p_addr flags reuse s s') → IsCounted reserved (written a.frames)
  written-IsCounted reserved live v a =
      added-IsCounted reserved d (page_index_4m v_addr) (make_entry p_addr flags)
        (page_index_4m p_addr) a.frames s live (omega (arith, words.v_word)) v a.free
        (is_present-make_entry p_addr flags a.p_aligned words.p_word words.flags_byte)
        (page_index-make_entry p_addr flags a.p_aligned words.p_word words.flags_byte) (omega arith)
        a.used

  pub written-refs :
      (a : Added d v_addr p_addr flags reuse s s')
      → (written a.frames).frames.refs (page_index_4m p_addr)
        ≡ s.frames.refs (page_index_4m p_addr) + 1
  written-refs a =
      let u = set_page_frame_used-Used s.frames a.frames (page_index_4m p_addr) a.used in
      by_directory d (ground (arith, ap (λ g. g (page_index_4m p_addr)) u.refs))
    where
      by_directory :
          (d' : Directory)
          → a.frames.refs (page_index_4m p_addr) ≡ s.frames.refs (page_index_4m p_addr) + 1
          → (set_entry d' (page_index_4m v_addr) (make_entry p_addr flags) a.frames s).frames.refs
              (page_index_4m p_addr)
            ≡ s.frames.refs (page_index_4m p_addr) + 1
      by_directory kernel e = e
      by_directory (slot n) e = e

  -- A call of `AddPage` that returns keeps the reference counts equal to the numbers of mappings, and
  -- the used bits in step with them, in whichever directory in use the page is added, the kernel's
  -- shared pages included. The frame has room for a reference from each directory.
  pub add_page-IsCounted :
      (reserved : ℕ → ℕ)
      → IsLive d s
      → IsCounted reserved s
      → add_page d v_addr p_addr flags reuse s ≡ ok s'
      → IsCounted reserved s'
  add_page-IsCounted reserved live v h =
      let a = add_page-Added d v_addr p_addr flags reuse s s' h in
      let w = written-IsCounted reserved live v a in
      elim (Bool-cases (is_kernel_page_dir d && is_shared v_addr)) [
        | inr one ↦ subst (IsCounted reserved) (ok-inj (rw one at a.shared)) w
        | inl all ↦
            share_added-IsCounted (page_index_4m v_addr) (make_entry p_addr flags)
              (page_index_4m p_addr) reserved num_page_dirs 0 (written a.frames) s' refl
              (omega (arith, words.v_word))
              (is_present-make_entry p_addr flags a.p_aligned words.p_word words.flags_byte)
              (page_index-make_entry p_addr flags a.p_aligned words.p_word words.flags_byte)
              (omega (arith, written-refs a)) w (rw all at a.shared)
      ]

-- `AddPage` counts no reference to another frame.
pub add_page-others :
    (d : Directory) (v_addr p_addr flags : ℕ) (reuse : Bool) (s s' : Paging) (f : ℕ)
    → (page_index_4m p_addr == f) ≡ false
    → add_page d v_addr p_addr flags reuse s ≡ ok s'
    → s'.frames.refs f ≡ s.frames.refs f
add_page-others d v_addr p_addr flags reuse s s' f ne h =
    let a = add_page-Added d v_addr p_addr flags reuse s s' h in
    let i = page_index_4m v_addr in
    let pde = make_entry p_addr flags in
    let u = set_page_frame_used-Used s.frames a.frames (page_index_4m p_addr) a.used in
    let first : a.frames.refs f ≡ s.frames.refs f = ground (arith, ap (λ g. g f) u.refs) in
    let same = frames-set_entry d i pde a.frames s in
    elim (Bool-cases (is_kernel_page_dir d && is_shared v_addr)) [
      | inr one ↦
          sym (ap (λ t. t.frames.refs f) (ok-inj (rw one at a.shared)))
          ∙ ap (λ b. b.refs f) same
          ∙ first
      | inl all ↦
          share_added-others i pde (page_index_4m p_addr) f ne num_page_dirs 0
            (set_entry d i pde a.frames s) s' (rw all at a.shared)
          ∙ ap (λ b. b.refs f) same
          ∙ first
    ]
