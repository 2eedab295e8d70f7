-- ===== src/Paging/Sharing.antt =====
-- The loop of `AddPage` over the directories in use.
use toy_kernel.Base.{
  leb, ℕ, zero, suc, ◌+◌, ◌^◌, ◌≤◌, ◌<◌, ◌≡◌, refl, sym, ap, subst, ◌∙◌, true, false, not, ◌&&◌,
  ◌==◌, arith, if◌then◌else◌, Bool-cases, inl, inr, ok, check, >>=-eq-ok, ok-inj,
}
use toy_kernel.Bitmap.{is_set}
use toy_kernel.Paging.Types.{
  PhysicalBitmap, slot, Paging, set_entry, is_present, page_index_4m, num_page_dirs,
  num_page_dir_entries,
}
use toy_kernel.Paging.Frames.{set_page_frame_used}
use toy_kernel.Paging.Spaces.{add_to_directory, share_added}
use toy_kernel.Paging.Tracking.{set_page_frame_used-Used}
use toy_kernel.Paging.Invariant.{IsCounted, added-IsCounted}

-- What the loop from directory `bit` on leaves alone, and what it writes.
pub record Shared (bit index pde : ℕ) (s s' : Paging) : Type 0 where
  pub region : s'.region ≡ s.region
  pub kernel_dir : s'.kernel_dir ≡ s.kernel_dir
  pub dirs :
      (j i : ℕ)
      → j < num_page_dirs
      → s'.dirs j i ≡ (if leb bit j && (is_set s.region j && (index == i)) then pde else s.dirs j i)

-- One round.
record SharedOne (bit index pde frame : ℕ) (s s' : Paging) : Type 0 where
  region : s'.region ≡ s.region
  kernel_dir : s'.kernel_dir ≡ s.kernel_dir
  dirs :
      (j i : ℕ)
      → s'.dirs j i
        ≡ (if (bit == j) && (is_set s.region j && (index == i)) then pde else s.dirs j i)
  refs : s'.frames.refs frame ≤ s.frames.refs frame + 1
  no_fewer : s.frames.refs frame + 1 < 2 ^ 16 → s.frames.refs frame ≤ s'.frames.refs frame
  others : (f : ℕ) → (frame == f) ≡ false → s'.frames.refs f ≡ s.frames.refs f

module _ (bit index pde frame : ℕ) (s s' : Paging) where
  -- The write of a round whose directory is in use.
  writes :
      is_set s.region bit ≡ true
      → add_to_directory bit index pde frame s ≡ ok s'
      → (b : PhysicalBitmap) × (is_present (s.dirs bit index) ≡ false)
        × (set_page_frame_used s.frames frame ≡ ok b)
        × (set_entry (slot bit) index pde b s ≡ s')
  unfolding add_to_directory
  writes on h =
      let (_, free, h1) = >>=-eq-ok (check (not (is_present (s.dirs bit index)))) _ (rw on at h) in
      let (b, used, h2) = >>=-eq-ok (set_page_frame_used s.frames frame) _ h1 in
      (b, ground arith, used, ok-inj h2)

  stays : is_set s.region bit ≡ false → add_to_directory bit index pde frame s ≡ ok s' → s ≡ s'
  unfolding add_to_directory
  stays off h = ok-inj (rw off at h)

  add_to_directory-SharedOne :
      add_to_directory bit index pde frame s ≡ ok s' → SharedOne bit index pde frame s s'
  add_to_directory-SharedOne h = elim (Bool-cases (is_set s.region bit)) [
    | inr off ↦ subst (SharedOne bit index pde frame s) (stays off h) (record {
      region = refl;
      kernel_dir = refl;
      dirs = λ j i. ground arith;
      refs = omega arith;
      no_fewer = λ room. omega arith;
      others = λ f ne. refl;
    })
    | inl on ↦
        let (b, free, used, e) = writes on h in
        let u = set_page_frame_used-Used s.frames b frame used in
        subst (SharedOne bit index pde frame s) e (record {
          region = refl;
          kernel_dir = refl;
          dirs = λ j i. ground arith;
          refs = ground (arith, ap (λ g. g frame) u.refs);
          no_fewer = λ room. ground (arith, ap (λ g. g frame) u.refs);
          others = λ f ne. ground (arith, ap (λ g. g f) u.refs);
        })
  ]

  add_to_directory-IsCounted :
      (reserved : ℕ → ℕ)
      → bit < num_page_dirs
      → index < num_page_dir_entries
      → is_present pde ≡ true
      → page_index_4m pde ≡ frame
      → s.frames.refs frame + 1 < 2 ^ 16
      → IsCounted reserved s
      → add_to_directory bit index pde frame s ≡ ok s'
      → IsCounted reserved s'
  add_to_directory-IsCounted reserved lt li present names room v h =
      elim (Bool-cases (is_set s.region bit)) [
        | inr off ↦ subst (IsCounted reserved) (stays off h) v
        | inl on ↦
            let (b, free, used, e) = writes on h in
            subst (IsCounted reserved) e (
              added-IsCounted reserved (slot bit) index pde frame b s (lt, on) li v free present
                names room used)
      ]

module _ (index pde frame : ℕ) where
  pub share_added-Shared :
      (rounds bit : ℕ) (s s' : Paging)
      → bit + rounds ≡ num_page_dirs
      → share_added rounds bit index pde frame s ≡ ok s'
      → Shared bit index pde s s'
  unfolding share_added
  share_added-Shared zero bit s s' e h =
      subst (Shared bit index pde s) (ok-inj h)
        (record { region = refl; kernel_dir = refl; dirs = λ j i lt. ground arith })
  share_added-Shared (suc rounds) bit s s' e h =
      let (t, one, more) = >>=-eq-ok (add_to_directory bit index pde frame s) _ h in
      let a = add_to_directory-SharedOne bit index pde frame s t one in
      let b = share_added-Shared rounds (suc bit) t s' (omega arith) more in
      record {
        region = b.region ∙ a.region;
        kernel_dir = b.kernel_dir ∙ a.kernel_dir;
        dirs = λ j i lt. ground (arith, b.dirs j i lt, a.dirs j i, ap (λ r. is_set r j) a.region);
      }

  pub share_added-others :
      (f : ℕ)
      → (frame == f) ≡ false
      → (rounds bit : ℕ) (s s' : Paging) → share_added rounds bit index pde frame s ≡ ok s'
      → s'.frames.refs f ≡ s.frames.refs f
  unfolding share_added
  share_added-others f ne zero bit s s' h = sym (ap (λ t. t.frames.refs f) (ok-inj h))
  share_added-others f ne (suc rounds) bit s s' h =
      let (t, one, more) = >>=-eq-ok (add_to_directory bit index pde frame s) _ h in
      let a = add_to_directory-SharedOne bit index pde frame s t one in
      share_added-others f ne rounds (suc bit) t s' more ∙ a.others f ne

  pub share_added-no_fewer :
      (rounds bit : ℕ) (s s' : Paging)
      → s.frames.refs frame + rounds < 2 ^ 16
      → share_added rounds bit index pde frame s ≡ ok s'
      → s.frames.refs frame ≤ s'.frames.refs frame
  unfolding share_added
  share_added-no_fewer zero bit s s' room h =
      omega (arith, ap (λ t. t.frames.refs frame) (ok-inj h))
  share_added-no_fewer (suc rounds) bit s s' room h =
      let (t, one, more) = >>=-eq-ok (add_to_directory bit index pde frame s) _ h in
      let a = add_to_directory-SharedOne bit index pde frame s t one in
      omega (
        arith,
        a.no_fewer (omega arith),
        share_added-no_fewer rounds (suc bit) t s' (omega (arith, a.refs)) more,
      )

  pub share_added-IsCounted :
      (reserved : ℕ → ℕ) (rounds bit : ℕ) (s s' : Paging)
      → bit + rounds ≡ num_page_dirs
      → index < num_page_dir_entries
      → is_present pde ≡ true
      → page_index_4m pde ≡ frame
      → s.frames.refs frame + rounds < 2 ^ 16
      → IsCounted reserved s
      → share_added rounds bit index pde frame s ≡ ok s'
      → IsCounted reserved s'
  unfolding share_added
  share_added-IsCounted reserved zero bit s s' e li present names room v h =
      subst (IsCounted reserved) (ok-inj h) v
  share_added-IsCounted reserved (suc rounds) bit s s' e li present names room v h =
      let (t, one, more) = >>=-eq-ok (add_to_directory bit index pde frame s) _ h in
      let a = add_to_directory-SharedOne bit index pde frame s t one in
      share_added-IsCounted reserved rounds (suc bit) t s' (omega arith) li present names
        (omega (arith, a.refs))
        (add_to_directory-IsCounted bit index pde frame s t reserved (omega arith) li present names
          (omega arith) v one)
        more
