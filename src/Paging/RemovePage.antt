-- ===== src/Paging/RemovePage.antt =====
-- `RemovePage`: of a mapped page it undoes `AddPage`; of an unmapped page it takes a reference of
-- frame 0.
use toy_kernel.Base.{
  ℕ, zero, suc, ◌+◌, ◌-◌, ◌%◌, ◌^◌, ◌≤◌, ◌<◌, ◌≡◌, refl, sym, ap, subst, ◌∙◌, true, false, ◌&&◌,
  ◌==◌, arith, if◌then◌else◌, Bool-cases, inl, inr, ==_iff, ok, check, >>=-eq-ok, ok-inj,
  check-eq-ok, bit_and,
}
use toy_kernel.Bitmap.{is_set, set_zero}
use toy_kernel.Paging.Types.{
  PhysicalBitmap, Directory, kernel, slot, Paging, dir_at, set_entry, is_present,
  is_kernel_page_dir, is_shared, page_index_4m, page_size_4m, page_mask_4m, num_page_dirs,
  num_page_dir_entries,
}
use toy_kernel.Paging.Frames.{set_page_frame_free, unref}
use toy_kernel.Paging.Spaces.{remove_from_directory, share_removed, remove_page}
use toy_kernel.Paging.Entries.{frame-masked, is_present-odd}
use toy_kernel.Paging.Tracking.{set_page_frame_free-Freed}
use toy_kernel.Paging.Counts.{maps, mappings}
use toy_kernel.Paging.Invariant.{IsLive, IsCounted, removed-IsCounted, mappings-set_entry}
use toy_kernel.Paging.Mapping.{is_kernel}

pub is_present-zero : is_present 0 ≡ false
is_present-zero = is_present-odd 0

-- The parts of a call of `RemovePage` that returns.
pub record Removed (d : Directory) (v_addr : ℕ) (s s' : Paging) : Type 0 where
  pub frames : PhysicalBitmap
  pub v_aligned : v_addr % page_size_4m ≡ 0
  pub freed :
      set_page_frame_free s.frames
        (page_index_4m (bit_and (dir_at d s (page_index_4m v_addr)) page_mask_4m))
      ≡ ok frames
  pub shared :
      (if is_kernel_page_dir d && is_shared v_addr
        then share_removed num_page_dirs 0
            (page_index_4m v_addr)
            (page_index_4m (bit_and (dir_at d s (page_index_4m v_addr)) page_mask_4m))
            (set_entry d (page_index_4m v_addr) 0 frames s)
        else ok (set_entry d (page_index_4m v_addr) 0 frames s))
      ≡ ok s'

pub remove_page-Removed :
    (d : Directory) (v_addr : ℕ) (s s' : Paging)
    → remove_page d v_addr s ≡ ok s'
    → Removed d v_addr s s'
unfolding remove_page
remove_page-Removed d v_addr s s' h =
    let (_, c1, h1) = >>=-eq-ok (check (v_addr % page_size_4m == 0)) _ h in
    let (b, freed, h2) =
      >>=-eq-ok
        (set_page_frame_free s.frames
          (page_index_4m (bit_and (dir_at d s (page_index_4m v_addr)) page_mask_4m)))
        _ h1 in
    record { frames = b; v_aligned = (==_iff _ _).0 (check-eq-ok _ c1); freed = freed; shared = h2 }

module _ (bit index frame : ℕ) (s s' : Paging) where
  clears :
      is_set s.region bit ≡ true
      → remove_from_directory bit index frame s ≡ ok s'
      → (b : PhysicalBitmap) × (is_present (s.dirs bit index) ≡ true)
        × (set_page_frame_free s.frames frame ≡ ok b)
        × (set_entry (slot bit) index 0 b s ≡ s')
  unfolding remove_from_directory
  clears on h =
      let (_, present, h1) = >>=-eq-ok (check (is_present (s.dirs bit index))) _ (rw on at h) in
      let (b, freed, h2) = >>=-eq-ok (set_page_frame_free s.frames frame) _ h1 in
      (b, check-eq-ok _ present, freed, ok-inj h2)

  stays : is_set s.region bit ≡ false → remove_from_directory bit index frame s ≡ ok s' → s ≡ s'
  unfolding remove_from_directory
  stays off h = ok-inj (rw off at h)

-- Every directory in use from `bit` on has the kernel's entry, with the frame.
abbrev Agree : (bit index frame : ℕ) → Paging → Type 0
Agree bit index frame s =
    (j : ℕ) → bit ≤ j → is_set s.region j ≡ true → page_index_4m (s.dirs j index) ≡ frame

module _ (reserved : ℕ → ℕ) (index frame : ℕ) (lt : index < num_page_dir_entries) where
  remove_from_directory-keeps :
      (bit : ℕ) (s s' : Paging)
      → bit < num_page_dirs
      → Agree bit index frame s
      → IsCounted reserved s
      → remove_from_directory bit index frame s ≡ ok s'
      → IsCounted reserved s' × Agree (suc bit) index frame s'
  remove_from_directory-keeps bit s s' lb agree v h = elim (Bool-cases (is_set s.region bit)) [
    | inr off ↦
        subst (λ t. IsCounted reserved t × Agree (suc bit) index frame t)
          (stays bit index frame s s' off h) (v, λ j lo on. agree j (omega arith) on)
    | inl on ↦
        let (b, present, freed, e) = clears bit index frame s s' on h in
        subst (λ t. IsCounted reserved t × Agree (suc bit) index frame t) e
          (
            removed-IsCounted reserved (slot bit) index 0 frame b s (lb, on) lt v present
                (agree bit (omega arith) on) is_present-zero freed,
            λ j lo on'. ground (arith, agree j (omega arith) on'),
          )
  ]

  share_removed-IsCounted :
      (rounds bit : ℕ) (s s' : Paging)
      → bit + rounds ≡ num_page_dirs
      → Agree bit index frame s
      → IsCounted reserved s
      → share_removed rounds bit index frame s ≡ ok s'
      → IsCounted reserved s'
  unfolding share_removed
  share_removed-IsCounted zero bit s s' e agree v h = subst (IsCounted reserved) (ok-inj h) v
  share_removed-IsCounted (suc rounds) bit s s' e agree v h =
      let (t, one, more) = >>=-eq-ok (remove_from_directory bit index frame s) _ h in
      let (v', agree') = remove_from_directory-keeps bit s t (omega arith) agree v one in
      share_removed-IsCounted rounds (suc bit) t s' (omega arith) agree' v' more

-- A call of `RemovePage` that returns keeps the reference counts equal to the numbers of mappings and
-- the used bits in step with them, if the page is mapped and, for a page of the kernel's part in the
-- kernel's directory, every directory in use maps the page to the same frame.
pub remove_page-IsCounted :
    (reserved : ℕ → ℕ) (d : Directory) (v_addr : ℕ) (s s' : Paging)
    → IsLive d s
    → v_addr < 2 ^ 32
    → dir_at d s (page_index_4m v_addr) < 2 ^ 32
    → is_present (dir_at d s (page_index_4m v_addr)) ≡ true
    → ((j : ℕ)
        → (is_kernel_page_dir d && is_shared v_addr) ≡ true
        → is_set s.region j ≡ true
        → page_index_4m (s.dirs j (page_index_4m v_addr))
          ≡ page_index_4m (dir_at d s (page_index_4m v_addr)))
    → IsCounted reserved s
    → remove_page d v_addr s ≡ ok s'
    → IsCounted reserved s'
remove_page-IsCounted reserved d v_addr s s' live word entry_word present agree v h =
    let a = remove_page-Removed d v_addr s s' h in
    let i = page_index_4m v_addr in
    let frame = page_index_4m (bit_and (dir_at d s i) page_mask_4m) in
    let names : page_index_4m (dir_at d s i) ≡ frame =
      sym (frame-masked (dir_at d s i) entry_word) in
    let w =
      removed-IsCounted reserved d i 0 frame a.frames s live (omega arith) v present names
        is_present-zero a.freed in
    elim (Bool-cases (is_kernel_page_dir d && is_shared v_addr)) [
      | inr one ↦ subst (IsCounted reserved) (ok-inj (rw one at a.shared)) w
      | inl all ↦
          let k = is_kernel d (ground arith) in
          share_removed-IsCounted reserved i frame (omega arith) num_page_dirs 0
            (set_entry d i 0 a.frames s) s' refl
            (subst (λ e. Agree 0 i frame (set_entry e i 0 a.frames s)) (sym k)
              (λ j lo on. agree j all on ∙ names))
            w (rw all at a.shared)
    ]

-- `setPageFrameFree` of the first frame goes through if it has a reference.
set_page_frame_free-first :
    (b : PhysicalBitmap) → 0 < b.refs 0 → (b' : PhysicalBitmap) × (set_page_frame_free b 0 ≡ ok b')
unfolding set_page_frame_free unref set_zero
set_page_frame_free-first b more =
    let held : b.refs 0 == 0 ≡ false = ground arith in
    elim (Bool-cases (b.refs 0 - 1 == 0)) [
      | inl last ↦ rw held (rw last (_, refl))
      | inr left ↦ rw held (rw left (_, refl))
    ]

-- An entry of 0 that is set to 0.
same-set_entry :
    (n i j : ℕ) (b : PhysicalBitmap) (s : Paging) (d : Directory)
    → s.dirs n i ≡ 0
    → dir_at d (set_entry (slot n) i 0 b s) j ≡ dir_at d s j
same-set_entry n i j b s kernel unmapped = refl
same-set_entry n i j b s (slot m) unmapped = ground arith

-- `RemovePage` of an aligned page that a directory in use does not map, with an entry of 0, while frame
-- 0 has a reference and all counts are right: the call returns, every entry of every directory and so
-- the number of mappings of every frame is as before, and yet frame 0 has lost a reference, so that it
-- has one reference less than mappings and reserved references.
pub remove_page-unmapped :
    (reserved : ℕ → ℕ) (n v_addr : ℕ) (s : Paging)
    → IsLive (slot n) s
    → v_addr < 2 ^ 32
    → v_addr % page_size_4m ≡ 0
    → s.dirs n (page_index_4m v_addr) ≡ 0
    → 0 < s.frames.refs 0
    → IsCounted reserved s
    → (s' : Paging) × (remove_page (slot n) v_addr s ≡ ok s')
      × ((d : Directory) (j : ℕ) → dir_at d s' j ≡ dir_at d s j)
      × ((f : ℕ) → mappings s' f ≡ mappings s f)
      × (s'.frames.refs 0 + 1 ≡ reserved 0 + mappings s' 0)
unfolding remove_page
remove_page-unmapped reserved n v_addr s live word aligned unmapped more v =
    let i = page_index_4m v_addr in
    let frame : page_index_4m (bit_and (s.dirs n i) page_mask_4m) ≡ 0 =
      ap (λ e. page_index_4m (bit_and e page_mask_4m)) unmapped in
    let (b, freed) = set_page_frame_free-first s.frames more in
    let whole : v_addr % page_size_4m == 0 ≡ true = ground arith in
    let u = set_page_frame_free-Freed s.frames b 0 freed in
    let same : (f : ℕ) → mappings (set_entry (slot n) i 0 b s) f ≡ mappings s f = λ f.
      let old : maps (s.dirs n i) f ≡ 0 = ap (λ e. maps e f) unmapped ∙ rw is_present-zero in
      let new : maps 0 f ≡ 0 = rw is_present-zero in
      omega (arith, mappings-set_entry (slot n) i 0 f b s live (omega arith), old, new) in
    (
      set_entry (slot n) i 0 b s,
      rw whole (rw frame (rw freed refl)),
      λ d j. same-set_entry n i j b s d unmapped,
      same,
      ground (arith, u.held, ap (λ g. g 0) u.refs, same 0, v.counted 0),
    )
