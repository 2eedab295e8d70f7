-- ===== src/Paging/Clone.antt =====
-- `Clone` and `ReclaimPageDirRegion`: a directory comes into use with a reference to each frame that
-- it maps, and goes with them.
use toy_kernel.Base.{
  ℕ, zero, suc, ◌+◌, ◌^◌, ◌≤◌, ◌<◌, ◌≡◌, refl, sym, ap, subst, ◌∙◌, false, ◌||◌, ◌==◌, arith,
  if◌then◌else◌, Bool-cases, inl, inr, some, ok, need, >>=-eq-ok, ok-inj,
}
use toy_kernel.Bitmap.{BitArray, set_one, set_zero, is_set, get_first_zero}
use toy_kernel.Bitmap.Bits.{
  IsBitArray, is_set-set_one, is_set-set_zero, set_one-IsBitArray, set_zero-IsBitArray,
}
use toy_kernel.Bitmap.Search.{get_first_zero-first}
use toy_kernel.Paging.Types.{
  PageDirectory, PhysicalBitmap, Directory, kernel, slot, Paging, update, dir_at, is_present,
  page_index_4m, num_page_dirs, num_page_dir_entries, ram_as_4m_pages,
}
use toy_kernel.Paging.Frames.{ref, set_page_frame_free}
use toy_kernel.Paging.Spaces.{ref_entries, clone, free_entries, reclaim_page_dir_region}
use toy_kernel.Paging.Tracking.{IsTracked, set_page_frame_free-Freed, Freed-IsTracked}
use toy_kernel.Paging.Counts.{maps, count_entries, mapped, mappings, count_dirs-change, share-le}
use toy_kernel.Paging.Invariant.{IsLive, IsCounted}

-- Counting more references to frames that are in use keeps the bits in step.
module _ (pd : PageDirectory) where
  ref_entries-bits : (rounds i : ℕ) (b : PhysicalBitmap) → (ref_entries rounds i pd b).bits ≡ b.bits
  unfolding ref_entries ref
  ref_entries-bits zero i b = refl
  ref_entries-bits (suc rounds) i b =
      ref_entries-bits rounds (suc i)
        (if is_present (pd i) then ref b (page_index_4m (pd i)) else b)
      ∙ ground arith

  ref_entries-refs :
      (rounds i f : ℕ) (b : PhysicalBitmap)
      → b.refs f + count_entries rounds i pd f < 2 ^ 16
      → (ref_entries rounds i pd b).refs f ≡ b.refs f + count_entries rounds i pd f
  unfolding ref_entries ref count_entries
  ref_entries-refs zero i f b room = omega arith
  ref_entries-refs (suc rounds) i f b room =
      let b1 : PhysicalBitmap = if is_present (pd i) then ref b (page_index_4m (pd i)) else b in
      let one : b1.refs f ≡ b.refs f + maps (pd i) f = ground arith in
      omega (arith, one, ref_entries-refs rounds (suc i) f b1 (omega (arith, one)))

  free_entries-refs :
      (rounds i f : ℕ) (b b' : PhysicalBitmap)
      → free_entries rounds i pd b ≡ ok b'
      → b'.refs f + count_entries rounds i pd f ≡ b.refs f
  unfolding free_entries count_entries
  free_entries-refs zero i f b b' h = omega (arith, ap (λ c. c.refs f) (ok-inj h))
  free_entries-refs (suc rounds) i f b b' h =
      let (b1, one, more) =
        >>=-eq-ok (if is_present (pd i) then set_page_frame_free b (page_index_4m (pd i)) else ok b)
          _ h in
      let ih = free_entries-refs rounds (suc i) f b1 b' more in
      elim (Bool-cases (is_present (pd i))) [
        | inr off ↦ rw off (omega (arith, ih, ap (λ c. c.refs f) (ok-inj (rw off at one))))
        | inl on ↦
            let u = set_page_frame_free-Freed b b1 (page_index_4m (pd i)) (rw on at one) in
            ground (arith, ih, u.held, ap (λ g. g f) u.refs)
      ]

  free_entries-IsTracked :
      (rounds i : ℕ) (b b' : PhysicalBitmap)
      → IsTracked b
      → free_entries rounds i pd b ≡ ok b'
      → IsTracked b'
  unfolding free_entries
  free_entries-IsTracked zero i b b' t h = subst IsTracked (ok-inj h) t
  free_entries-IsTracked (suc rounds) i b b' t h =
      let (b1, one, more) =
        >>=-eq-ok (if is_present (pd i) then set_page_frame_free b (page_index_4m (pd i)) else ok b)
          _ h in
      elim (Bool-cases (is_present (pd i))) [
        | inr off ↦
            free_entries-IsTracked rounds (suc i) b1 b' (subst IsTracked (ok-inj (rw off at one)) t)
              more
        | inl on ↦
            free_entries-IsTracked rounds (suc i) b1 b'
              (Freed-IsTracked b b1 (page_index_4m (pd i)) t
                (set_page_frame_free-Freed b b1 (page_index_4m (pd i)) (rw on at one)))
              more
      ]

-- The parts of a call of `Clone` that returns.
record Cloned (d : Directory) (n : ℕ) (s s' : Paging) : Type 0 where
  region : BitArray
  found : get_first_zero num_page_dirs s.region 0 ≡ some n
  taken : set_one num_page_dirs s.region n ≡ ok region
  result : s' ≡ record s {
    region = region;
    dirs = update s.dirs n (dir_at d s);
    frames = ref_entries num_page_dir_entries 0 (dir_at d s) s.frames;
  }

clone-Cloned : (d : Directory) (n : ℕ) (s s' : Paging) → clone d s ≡ ok (n, s') → Cloned d n s s'
unfolding clone
clone-Cloned d n s s' h =
    let (bit, found, h1) = >>=-eq-ok (need (get_first_zero num_page_dirs s.region 0)) _ h in
    let (r, taken, h2) = >>=-eq-ok (set_one num_page_dirs s.region bit) _ h1 in
    let e = ok-inj h2 in
    subst (λ k. Cloned d k s s') (ap (λ p. p.0) e)
      (record { region = r; found = ground arith; taken = taken; result = sym (ap (λ p. p.1) e) })

-- What a directory in use maps has a reference for each mapping.
mapped-le-refs :
    (reserved : ℕ → ℕ) (d : Directory) (s : Paging) (f : ℕ)
    → IsLive d s
    → IsCounted reserved s
    → mapped (dir_at d s) f ≤ s.frames.refs f
unfolding mappings
mapped-le-refs reserved kernel s f live v = omega (arith, v.counted f)
mapped-le-refs reserved (slot n) s f live v = omega (
  arith,
  v.counted f,
  share-le s.region s.dirs f num_page_dirs 0 n (omega arith) (omega (arith, live.0)) live.1,
)

module _ (reserved : ℕ → ℕ) (d : Directory) (n : ℕ) (s s' : Paging) (live : IsLive d s)
    (v : IsCounted reserved s) where
  -- The state that `Clone` leaves.
  abbrev cloned : BitArray → Paging
  cloned r = record s {
    region = r;
    dirs = update s.dirs n (dir_at d s);
    frames = ref_entries num_page_dir_entries 0 (dir_at d s) s.frames;
  }

  cloned-mappings :
      (r : BitArray) (f : ℕ)
      → n < num_page_dirs
      → is_set s.region n ≡ false
      → ((j : ℕ) → is_set r j ≡ ((n == j) || is_set s.region j))
      → mappings (cloned r) f ≡ mappings s f + mapped (dir_at d s) f
  unfolding mappings
  cloned-mappings r f lt unset bits =
      let change =
        count_dirs-change s.region r s.dirs (update s.dirs n (dir_at d s)) f num_page_dirs 0 n
          (omega arith) (omega arith) (λ j ne. ground (arith, bits j)) (λ j ne. ground arith) in
      let old : (if is_set s.region n then mapped (s.dirs n) f else 0) ≡ 0 = rw unset in
      let new : (if is_set r n then mapped (update s.dirs n (dir_at d s) n) f else 0)
          ≡ mapped (dir_at d s) f =
        ground (arith, bits n) in
      omega (arith, change, old, new)

  -- `Clone` of a directory in use takes a directory that was not in use, copies every entry into it,
  -- and keeps the reference counts equal to the numbers of mappings and the used bits in step with
  -- them. The counts have room for the new references.
  pub clone-IsCounted :
      ((f : ℕ) → s.frames.refs f + mapped (dir_at d s) f < 2 ^ 16)
      → clone d s ≡ ok (n, s')
      → IsCounted reserved s'
        × IsLive (slot n) s'
        × (is_set s.region n ≡ false)
        × ((i : ℕ) → s'.dirs n i ≡ dir_at d s i)
  clone-IsCounted room h =
      let c = clone-Cloned d n s s' h in
      let first = (get_first_zero-first num_page_dirs s.region 0 (omega arith)).0 n c.found in
      let bits = λ (j : ℕ). is_set-set_one num_page_dirs s.region c.region n v.region j c.taken in
      let refs =
        λ (f : ℕ). ref_entries-refs (dir_at d s) num_page_dir_entries 0 f s.frames (room f) in
      let same = ref_entries-bits (dir_at d s) num_page_dir_entries 0 s.frames in
      subst
        (λ t.
          IsCounted reserved t
          × IsLive (slot n) t
          × (is_set s.region n ≡ false)
          × ((i : ℕ) → t.dirs n i ≡ dir_at d s i))
        (sym c.result)
        (
          record {
            tracked = record {
              valid = subst (IsBitArray ram_as_4m_pages) (sym same) v.tracked.valid;
              counted = λ j lt.
                  ap (λ b. is_set b j) same
                  ∙ ground
                      (arith, v.tracked.counted j lt, refs j, mapped-le-refs reserved d s j live v);
            };
            region = set_one-IsBitArray num_page_dirs s.region c.region n v.region c.taken;
            counted = λ f. omega (
              arith,
              v.counted f,
              refs f,
              cloned-mappings c.region f first.in_bounds first.unset bits,
            );
          },
          (first.in_bounds, ground (arith, bits n)),
          first.unset,
          λ i. ground arith,
        )

-- The parts of a call of `ReclaimPageDirRegion` that returns.
reclaim-parts :
    (n : ℕ) (s s' : Paging)
    → reclaim_page_dir_region (slot n) s ≡ ok s'
    → (b : PhysicalBitmap) × (r : BitArray) × (free_entries num_page_dir_entries 0
          (s.dirs n)
          s.frames
        ≡ ok b)
      × (set_zero num_page_dirs s.region n ≡ ok r)
      × (record s { region = r; frames = b } ≡ s')
unfolding reclaim_page_dir_region
reclaim-parts n s s' h =
    let (b, freed, h1) = >>=-eq-ok (free_entries num_page_dir_entries 0 (s.dirs n) s.frames) _ h in
    let (r, gone, h2) = >>=-eq-ok (set_zero num_page_dirs s.region n) _ h1 in
    (b, r, freed, gone, ok-inj h2)

-- `ReclaimPageDirRegion` of a directory in use takes it out of use, and keeps the reference counts
-- equal to the numbers of mappings and the used bits in step with them: each frame loses a reference
-- for each entry of that directory that maps it.
pub reclaim-IsCounted :
    (reserved : ℕ → ℕ) (n : ℕ) (s s' : Paging)
    → IsLive (slot n) s
    → IsCounted reserved s
    → reclaim_page_dir_region (slot n) s ≡ ok s'
    → IsCounted reserved s'
      × (is_set s'.region n ≡ false)
      × ((f : ℕ) → s'.frames.refs f + mapped (s.dirs n) f ≡ s.frames.refs f)
unfolding mappings
reclaim-IsCounted reserved n s s' live v h =
    let (b, r, freed, gone, e) = reclaim-parts n s s' h in
    let bits = λ (j : ℕ). is_set-set_zero num_page_dirs s.region r n v.region j gone in
    let refs = λ (f : ℕ). free_entries-refs (s.dirs n) num_page_dir_entries 0 f s.frames b freed in
    subst
      (λ t.
        IsCounted reserved t
        × (is_set t.region n ≡ false)
        × ((f : ℕ) → t.frames.refs f + mapped (s.dirs n) f ≡ s.frames.refs f))
      e
      (
        record {
          tracked =
              free_entries-IsTracked (s.dirs n) num_page_dir_entries 0 s.frames b v.tracked freed;
          region = set_zero-IsBitArray num_page_dirs s.region r n v.region gone;
          counted = λ f.
              let change =
                count_dirs-change s.region r s.dirs s.dirs f num_page_dirs 0 n (omega arith)
                  (omega (arith, live.0)) (λ j ne. ground (arith, bits j)) (λ j ne. refl) in
              let old : (if is_set s.region n then mapped (s.dirs n) f else 0)
                  ≡ mapped (s.dirs n) f =
                rw live.1 in
              let new : (if is_set r n then mapped (s.dirs n) f else 0) ≡ 0 =
                ground (arith, bits n) in
              omega (arith, v.counted f, refs f, change, old, new);
        },
        ground (arith, bits n),
        refs,
      )
