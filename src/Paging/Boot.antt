-- ===== src/Paging/Boot.antt =====
-- `InitializePaging` and `ReservePhysical`: the counts that the kernel starts with.
use toy_kernel.Base.{
  ℕ, zero, suc, ◌+◌, ◌-◌, ◌*◌, ◌/◌, ◌%◌, ◌^◌, ◌<◌, ◌≡◌, refl, sym, ap, subst, ◌∙◌, false, ◌&&◌,
  ◌==◌, leb, ltb, arith, if◌then◌else◌, Bool-cases, inl, inr, ok, check, >>=-eq-ok, ok-inj, bit_or,
}
use toy_kernel.Bitmap.{clear, is_set, reserve}
use toy_kernel.Bitmap.Bits.{IsBitArray, clear-IsBitArray, is_set-clear}
use toy_kernel.Bitmap.Search.{reserve-IsReserved}
use toy_kernel.Paging.Types.{
  PageDirectory, PhysicalBitmap, kernel, Paging, page_size_4m, num_page_dirs, num_page_dir_entries,
  ram_as_4m_pages, kernel_start, page_directory_region_start, pg_present, pg_write, pg_4mb,
}
use toy_kernel.Paging.Frames.{ref, ref_from, reserve_physical}
use toy_kernel.Paging.Spaces.{add_page, initialize_paging}
use toy_kernel.Paging.Tracking.{IsTracked}
use toy_kernel.Paging.Counts.{maps, count_entries, count_dirs, mappings}
use toy_kernel.Paging.Invariant.{IsCounted}
use toy_kernel.Paging.AddPage.{AreWords, add_page-IsCounted, add_page-others}
use toy_kernel.Paging.RemovePage.{is_present-zero}

count_entries-zero : (rounds i f : ℕ) → count_entries rounds i (λ j. 0) f ≡ 0
unfolding count_entries
count_entries-zero zero i f = refl
count_entries-zero (suc rounds) i f =
    let none : maps 0 f ≡ 0 = rw is_present-zero in
    omega (arith, none, count_entries-zero rounds (suc i) f)

pub count_dirs-clear :
    (rounds bit : ℕ) (dirs : ℕ → PageDirectory) (f : ℕ)
    → count_dirs rounds bit (clear num_page_dirs) dirs f ≡ 0
unfolding count_dirs
count_dirs-clear zero bit dirs f = refl
count_dirs-clear (suc rounds) bit dirs f =
    rw (is_set-clear num_page_dirs bit) (omega (arith, count_dirs-clear rounds (suc bit) dirs f))

-- The state before the first `AddPage`: no directory in use and no entry.
abbrev pub unmapped : PhysicalBitmap → (ℕ → PageDirectory) → Paging
unmapped b dirs = record {
  kernel_dir = λ i. 0;
  dirs = dirs;
  region = clear num_page_dirs;
  frames = b;
}

pub unmapped-IsCounted :
    (reserved : ℕ → ℕ) (b : PhysicalBitmap) (dirs : ℕ → PageDirectory)
    → IsTracked b
    → ((f : ℕ) → b.refs f ≡ reserved f)
    → IsCounted reserved (unmapped b dirs)
unfolding mappings
unmapped-IsCounted reserved b dirs t c = record {
  tracked = t;
  region = clear-IsBitArray num_page_dirs refl;
  counted = λ f. omega (
    arith,
    c f,
    count_entries-zero num_page_dir_entries 0 f,
    count_dirs-clear num_page_dirs 0 dirs f,
  );
}

ref_from-bits : (rounds i : ℕ) (b : PhysicalBitmap) → (ref_from rounds i b).bits ≡ b.bits
unfolding ref_from ref
ref_from-bits zero i b = refl
ref_from-bits (suc rounds) i b = ref_from-bits rounds (suc i) (ref b i)

ref_from-refs :
    (rounds i f : ℕ) (b : PhysicalBitmap)
    → b.refs f < 2 ^ 16 - 1
    → (ref_from rounds i b).refs f
      ≡ (if leb i f && ltb f (i + rounds) then b.refs f + 1 else b.refs f)
unfolding ref_from ref
ref_from-refs zero i f b room = ground arith
ref_from-refs (suc rounds) i f b room = elim (Bool-cases (i == f)) [
  | inl e ↦ ground (arith, past rounds (suc i) f (ref b i))
  | inr ne ↦
      let same : (ref b i).refs f ≡ b.refs f = ground arith in
      ground (arith, ref_from-refs rounds (suc i) f (ref b i) (omega (arith, same)), same)
]
  where
    past : (rounds i f : ℕ) (b : PhysicalBitmap) → f < i → (ref_from rounds i b).refs f ≡ b.refs f
    past zero i f b lt = refl
    past (suc rounds) i f b lt = past rounds (suc i) f (ref b i) (omega arith) ∙ ground arith

-- The frames that `InitializePaging` takes as not there: from 128 MB on.
unfoldable pub absent : ℕ → ℕ
absent f = if leb 32 f && ltb f 1024 then 1 else 0

-- A fresh bitmap after `ReservePhysical`.
pub reserve_physical-IsTracked :
    (b : PhysicalBitmap)
    → reserve_physical (record { bits = clear ram_as_4m_pages; refs = λ i. 0 }) 32 ≡ ok b
    → IsTracked b × ((f : ℕ) → b.refs f ≡ absent f)
unfolding reserve_physical absent
reserve_physical-IsTracked b h =
    let blank : PhysicalBitmap = record { bits = clear ram_as_4m_pages; refs = λ i. 0 } in
    let (bits, ran, r) =
      reserve-IsReserved ram_as_4m_pages 32 (clear ram_as_4m_pages)
        (clear-IsBitArray ram_as_4m_pages refl) (omega arith) in
    let (bits', ran', h1) = >>=-eq-ok (reserve ram_as_4m_pages (clear ram_as_4m_pages) 32) _ h in
    let e : bits' ≡ bits = ok-inj (sym ran' ∙ ran) in
    let start : PhysicalBitmap = record blank { bits = bits' } in
    let refs = λ (f : ℕ). ref_from-refs 992 32 f start (omega arith) in
    let same = ref_from-bits 992 32 start in
    subst (λ c. IsTracked c × ((f : ℕ) → c.refs f ≡ absent f)) (ok-inj h1)
      (
        record {
          valid = subst (IsBitArray ram_as_4m_pages) (sym (same ∙ e)) r.valid;
          counted = λ j lt.
              ap (λ c. is_set c j) (same ∙ e)
              ∙ ground (arith, r.bits j lt, is_set-clear ram_as_4m_pages j, refs j);
        },
        λ f. refs f ∙ ground arith,
      )

few : (b : PhysicalBitmap) (f : ℕ) → b.refs f ≡ absent f → f < 1024 → b.refs f + 1025 < 2 ^ 16
unfolding absent
few b f e lt = ground arith

-- The kernel starts with the counts in step: once `InitializePaging` returns, each frame has a
-- reference for each entry that maps it, and each frame from 128 MB on one more; and exactly the
-- frames with references are marked as used.
pub initialize_paging-IsCounted :
    (high_mem_kb : ℕ) (dirs : ℕ → PageDirectory) (s : Paging)
    → initialize_paging high_mem_kb dirs ≡ ok s
    → IsCounted absent s
unfolding initialize_paging
initialize_paging-IsCounted high_mem_kb dirs s h =
    let blank : PhysicalBitmap = record { bits = clear ram_as_4m_pages; refs = λ i. 0 } in
    let (_, c1, h1) =
      >>=-eq-ok (check (leb 32 ((high_mem_kb * 1024 % 2 ^ 32 / page_size_4m + 1) % 2 ^ 32))) _ h in
    let (b, reserved, h2) = >>=-eq-ok (reserve_physical blank 32) _ h1 in
    let (t, refs) = reserve_physical-IsTracked b reserved in
    let flags = bit_or (bit_or pg_present pg_write) pg_4mb in
    let (s1, first, second) =
      >>=-eq-ok (add_page kernel kernel_start kernel_start flags false (unmapped b dirs)) _ h2 in
    let v0 = unmapped-IsCounted absent b dirs t refs in
    let kernel_words : AreWords kernel_start kernel_start flags = omega arith in
    let region_words : AreWords page_directory_region_start page_directory_region_start flags =
      omega arith in
    let v1 =
      add_page-IsCounted kernel kernel_start kernel_start flags false (unmapped b dirs) s1
        kernel_words (few b 1 (refs 1) (omega arith)) absent tt v0 first in
    let second_frame =
      add_page-others kernel kernel_start kernel_start flags false (unmapped b dirs) s1 2 refl
        first in
    add_page-IsCounted kernel page_directory_region_start page_directory_region_start flags false s1
      s region_words (few s1.frames 2 (second_frame ∙ refs 2) (omega arith)) absent tt v1 second
