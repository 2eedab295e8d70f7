-- ===== src/Paging/Frames.antt =====
-- `PhysicalBitmap4M`: which 4 MB frames are in use, and by how many page directories.
use toy_kernel.Base.{
  ℕ, zero, suc, ◌+◌, ◌-◌, ◌*◌, ◌%◌, ◌^◌, Bool, not, ◌==◌, if◌then◌else◌, Outcome, ok, ◌>>=◌, ◌>>◌,
  check, need,
}
use toy_kernel.Bitmap.{set_one, set_zero, is_set, reserve, get_first_zero}
use toy_kernel.Paging.Types.{PhysicalBitmap, update, ram_as_4m_pages, page_size_4m}

-- `Ref`. `refs_` holds `uint16_t`.
unfoldable pub ref : PhysicalBitmap → ℕ → PhysicalBitmap
ref b i = record b { refs = update b.refs i ((b.refs i + 1) % 2 ^ 16) }

-- `Unref`
unfoldable pub unref : PhysicalBitmap → ℕ → Outcome PhysicalBitmap
unref b i = check (not (b.refs i == 0)) >> ok (record b { refs = update b.refs i (b.refs i - 1) })

-- `setPageFrameUsed`
unfoldable pub set_page_frame_used : PhysicalBitmap → ℕ → Outcome PhysicalBitmap
unfolding ref
set_page_frame_used b i = do
  let b1 = ref b i
  bits ← set_one ram_as_4m_pages b1.bits i
  ok (record b1 { bits = bits })

-- `setPageFrameFree`
unfoldable pub set_page_frame_free : PhysicalBitmap → ℕ → Outcome PhysicalBitmap
unfolding unref
set_page_frame_free b i = do
  b1 ← unref b i
  if b1.refs i == 0
      then (do bits ← set_zero ram_as_4m_pages b1.bits i; ok (record b1 { bits = bits }))
      else ok b1

-- `isPageFrameUsed`
abbrev pub is_page_frame_used : PhysicalBitmap → ℕ → Bool
is_page_frame_used b i = is_set b.bits i

-- The loop of `ReservePhysical`, with the rounds that are left.
unfoldable pub ref_from : (rounds i : ℕ) → PhysicalBitmap → PhysicalBitmap
ref_from zero i b = b
ref_from (suc rounds) i b = ref_from rounds (suc i) (ref b i)

-- `ReservePhysical`
unfoldable pub reserve_physical : PhysicalBitmap → ℕ → Outcome PhysicalBitmap
unfolding ref_from
reserve_physical b num_pages = do
  bits ← reserve ram_as_4m_pages b.bits num_pages
  ok (ref_from (ram_as_4m_pages - num_pages) num_pages (record b { bits = bits }))

-- `NextFreePhysicalPage`
unfoldable pub next_free_physical_page : PhysicalBitmap → (start : ℕ) → Outcome ℕ
next_free_physical_page b start = do
  page ← need (get_first_zero ram_as_4m_pages b.bits start)
  ok (page * page_size_4m)

-- The loop of `NumFreePages`, with the rounds that are left.
unfoldable pub free_pages_loop : (rounds i num : ℕ) → PhysicalBitmap → ℕ
free_pages_loop zero i num b = num
free_pages_loop (suc rounds) i num b =
    free_pages_loop rounds (suc i) (if is_set b.bits i then num else num + 1) b

-- `NumFreePages`
unfoldable pub num_free_pages : PhysicalBitmap → ℕ
unfolding free_pages_loop
num_free_pages b = free_pages_loop ram_as_4m_pages 0 0 b
