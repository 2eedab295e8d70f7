-- ===== src/Paging/Invariant.antt =====
-- The reference count of a frame is the number of entries that map it, over the kernel's page
-- directory and those in use.
use toy_kernel.Base.{ℕ, ◌+◌, ◌^◌, ◌<◌, ◌≡◌, refl, ap, true, false, arith, ok}
use toy_kernel.Bitmap.{is_set}
use toy_kernel.Bitmap.Bits.{IsBitArray}
use toy_kernel.Paging.Types.{
  PhysicalBitmap, Directory, kernel, slot, Paging, update, dir_at, set_entry, is_present,
  page_index_4m, num_page_dirs, num_page_dir_entries,
}
use toy_kernel.Paging.Frames.{set_page_frame_used, set_page_frame_free}
use toy_kernel.Paging.Tracking.{
  IsTracked, set_page_frame_used-Used, Used-IsTracked, set_page_frame_free-Freed, Freed-IsTracked,
}
use toy_kernel.Paging.Counts.{maps, mappings, mapped-update, count_dirs-change}

-- `reserved` counts the references that no entry holds: those of memory that is not there.
pub record IsCounted (reserved : ℕ → ℕ) (s : Paging) : Type 0 where
  pub tracked : IsTracked s.frames
  pub region : IsBitArray num_page_dirs s.region
  pub counted : (f : ℕ) → s.frames.refs f ≡ reserved f + mappings s f

-- The kernel's directory, or one in use.
abbrev pub IsLive : Directory → Paging → Type 0
IsLive kernel s = Unit {0}
IsLive (slot n) s = (n < num_page_dirs) × (is_set s.region n ≡ true)

pub mappings-set_entry :
    (d : Directory) (i pde f : ℕ) (b : PhysicalBitmap) (s : Paging)
    → IsLive d s
    → i < num_page_dir_entries
    → mappings (set_entry d i pde b s) f + maps (dir_at d s i) f ≡ mappings s f + maps pde f
unfolding mappings
mappings-set_entry kernel i pde f b s live lt = omega (arith, mapped-update i pde s.kernel_dir f lt)
mappings-set_entry (slot n) i pde f b s live lt =
    let change =
      count_dirs-change s.region s.region s.dirs (update s.dirs n (update (s.dirs n) i pde)) f
        num_page_dirs 0 n (omega arith) live.0 (λ j ne. refl) (λ j ne. ground arith) in
    ground (arith, change, live.1, mapped-update i pde (s.dirs n) f lt)

IsCounted-set_entry :
    (reserved : ℕ → ℕ) (d : Directory) (i pde : ℕ) (b : PhysicalBitmap) (s : Paging)
    → IsCounted reserved s
    → IsTracked b
    → ((f : ℕ) → b.refs f ≡ reserved f + mappings (set_entry d i pde b s) f)
    → IsCounted reserved (set_entry d i pde b s)
IsCounted-set_entry reserved kernel i pde b s v t c = record {
  tracked = t;
  region = v.region;
  counted = c;
}
IsCounted-set_entry reserved (slot n) i pde b s v t c = record {
  tracked = t;
  region = v.region;
  counted = c;
}

module _ (reserved : ℕ → ℕ) (d : Directory) (i pde frame : ℕ) (b : PhysicalBitmap) (s : Paging)
    (live : IsLive d s) (lt : i < num_page_dir_entries) (v : IsCounted reserved s) where
  -- A present entry is written where none was, and its frame's count goes up.
  pub added-IsCounted :
      is_present (dir_at d s i) ≡ false
      → is_present pde ≡ true
      → page_index_4m pde ≡ frame
      → s.frames.refs frame + 1 < 2 ^ 16
      → set_page_frame_used s.frames frame ≡ ok b
      → IsCounted reserved (set_entry d i pde b s)
  added-IsCounted free present names room h =
      let u = set_page_frame_used-Used s.frames b frame h in
      IsCounted-set_entry reserved d i pde b s v (Used-IsTracked s.frames b frame v.tracked room u)
        (λ f. ground (
          arith,
          v.counted f,
          v.counted frame,
          ap (λ g. g f) u.refs,
          mappings-set_entry d i pde f b s live lt,
        ))

  -- A present entry is cleared, and its frame's count goes down.
  pub removed-IsCounted :
      is_present (dir_at d s i) ≡ true
      → page_index_4m (dir_at d s i) ≡ frame
      → is_present pde ≡ false
      → set_page_frame_free s.frames frame ≡ ok b
      → IsCounted reserved (set_entry d i pde b s)
  removed-IsCounted present names gone h =
      let u = set_page_frame_free-Freed s.frames b frame h in
      IsCounted-set_entry reserved d i pde b s v (Freed-IsTracked s.frames b frame v.tracked u)
        (λ f. ground (
          arith,
          v.counted f,
          v.counted frame,
          ap (λ g. g f) u.refs,
          mappings-set_entry d i pde f b s live lt,
        ))
