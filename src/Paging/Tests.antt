-- ===== src/Paging/Tests.antt =====
-- The kernel after `InitializePaging`, and the theorems on paging at it.
use toy_kernel.Base.{
  ℕ, ◌+◌, ◌^◌, ◌<◌, ◌≡◌, refl, sym, subst, true, false, ◌&&◌, ◌==◌, arith, if◌then◌else◌, Outcome,
  ok, stop,
}
use toy_kernel.Bitmap.{
  is_set, set_one, set_zero, reserve, test_bit, with_one, with_zero, clear, get_first_zero,
}
use toy_kernel.Paging.Types.{
  Directory, dir_at, kernel, slot, Paging, is_present, num_page_dirs, pg_user,
}
use toy_kernel.Paging.Frames.{reserve_physical, ref, set_page_frame_used, set_page_frame_free}
use toy_kernel.Paging.Spaces.{
  initialize_paging, make_entry, add_page, remove_page, clone, reclaim_page_dir_region,
}
use toy_kernel.Paging.Counts.{mapped, mappings, count_dirs, count_entries-le}
use toy_kernel.Paging.Invariant.{IsLive, IsCounted}
use toy_kernel.Paging.Boot.{absent, count_dirs-clear, initialize_paging-IsCounted}
use toy_kernel.Paging.Booted.{
  unpaged, paging_of, paging_of-ok, booted, booted-ok, shared_page, shared_page-ok,
}
use toy_kernel.Paging.AddPage.{add_page-IsCounted}
use toy_kernel.Paging.Mapping.{add_page-shares}
use toy_kernel.Paging.RemovePage.{remove_page-IsCounted, remove_page-unmapped}
use toy_kernel.Paging.Clone.{clone-IsCounted, reclaim-IsCounted}

-- Every definition that a run opens.
runs : Unit {0}
unfolding initialize_paging reserve_physical reserve set_one set_zero add_page remove_page is_set
    test_bit with_one with_zero ref set_page_frame_used set_page_frame_free clear is_present clone
    get_first_zero reclaim_page_dir_region booted absent
runs = tt

initialize_paging-IsCounted_example : IsCounted absent booted
initialize_paging-IsCounted_example = initialize_paging-IsCounted 131072 (λ n i. 0) booted booted-ok

few_refs : booted.frames.refs 0 + 1025 < 2 ^ 16
unfolding runs
few_refs = omega arith

add_page-IsCounted_example : IsCounted absent shared_page
add_page-IsCounted_example =
    add_page-IsCounted kernel 0xC00000 0 pg_user false booted shared_page (omega arith) few_refs
      absent tt initialize_paging-IsCounted_example shared_page-ok

-- A directory for a user task.
cloned : Paging
cloned = second_of (clone kernel shared_page)
  where
    second_of : Outcome (ℕ × Paging) → Paging
    second_of (ok (n, s)) = s
    second_of stop = unpaged

cloned-ok : clone kernel shared_page ≡ ok (0, cloned)
unfolding runs shared_page cloned
cloned-ok = refl

-- With no directory in use only the kernel's entries count.
room :
    (s : Paging) (f : ℕ)
    → s.region ≡ clear num_page_dirs
    → IsCounted absent s
    → s.frames.refs f + mapped s.kernel_dir f < 2 ^ 16
unfolding mappings absent
room s f e v = ground (
  arith,
  v.counted f,
  subst (λ r. count_dirs num_page_dirs 0 r s.dirs f ≡ 0) (sym e)
      (count_dirs-clear num_page_dirs 0 s.dirs f),
  count_entries-le 1024 0 s.kernel_dir f,
)

shared_page-region : shared_page.region ≡ clear num_page_dirs
unfolding runs shared_page
shared_page-region = refl

clone-IsCounted_example :
    IsCounted absent cloned
    × IsLive (slot 0) cloned
    × (is_set shared_page.region 0 ≡ false)
    × ((i : ℕ) → cloned.dirs 0 i ≡ shared_page.kernel_dir i)
clone-IsCounted_example =
    clone-IsCounted absent kernel 0 shared_page cloned tt add_page-IsCounted_example
      (λ f. room shared_page f shared_page-region add_page-IsCounted_example) cloned-ok

-- A page of the kernel's heap, mapped while a directory is in use.
heap_page : Paging
heap_page = paging_of (add_page kernel 0x02000000 0x1000000 0 false cloned)

heap_page-ok : add_page kernel 0x02000000 0x1000000 0 false cloned ≡ ok heap_page
unfolding runs shared_page cloned heap_page
heap_page-ok = paging_of-ok _ refl

add_page-shares_example :
    (heap_page.region ≡ cloned.region)
    × ((i : ℕ)
        → heap_page.kernel_dir i ≡ (if i == 8 then make_entry 0x1000000 0 else cloned.kernel_dir i))
    × ((n i : ℕ)
        → n < num_page_dirs
        → heap_page.dirs n i ≡ (
            if is_set cloned.region n && (8 == i) then heap_page.kernel_dir i else cloned.dirs n i))
add_page-shares_example =
    add_page-shares 0x02000000 0x1000000 0 false cloned heap_page refl heap_page-ok

removed : Paging
removed = paging_of (remove_page (slot 0) 0xC00000 cloned)

removed-ok : remove_page (slot 0) 0xC00000 cloned ≡ ok removed
unfolding runs shared_page cloned removed
removed-ok = paging_of-ok _ refl

user_entry :
    (cloned.dirs 0 3 < 2 ^ 32) × (is_present (cloned.dirs 0 3) ≡ true) × (cloned.dirs 0 256 ≡ 0)
unfolding runs shared_page cloned
user_entry = (omega arith, refl, refl)

remove_page-IsCounted_example : IsCounted absent removed
remove_page-IsCounted_example =
    let (v, live, _, _) = clone-IsCounted_example in
    remove_page-IsCounted absent (slot 0) 0xC00000 cloned removed live (omega arith) user_entry.0
      user_entry.1 (λ j no on. cc) v removed-ok

-- The page at `USER_START` is not mapped in the new directory.
first_refs : cloned.frames.refs 0 ≡ 2
unfolding runs shared_page cloned
first_refs = refl

remove_page-unmapped_example :
    (s' : Paging) × (remove_page (slot 0) 0x40000000 cloned ≡ ok s')
    × ((d : Directory) (j : ℕ) → dir_at d s' j ≡ dir_at d cloned j)
    × ((f : ℕ) → mappings s' f ≡ mappings cloned f)
    × (s'.frames.refs 0 + 1 ≡ absent 0 + mappings s' 0)
remove_page-unmapped_example =
    let (v, live, _, _) = clone-IsCounted_example in
    remove_page-unmapped absent 0 0x40000000 cloned live (omega arith) refl user_entry.2
      (omega (arith, first_refs)) v

reclaimed : Paging
reclaimed = paging_of (reclaim_page_dir_region (slot 0) cloned)

reclaimed-ok : reclaim_page_dir_region (slot 0) cloned ≡ ok reclaimed
unfolding runs shared_page cloned reclaimed
reclaimed-ok = paging_of-ok _ refl

reclaim-IsCounted_example :
    IsCounted absent reclaimed
    × (is_set reclaimed.region 0 ≡ false)
    × ((f : ℕ) → reclaimed.frames.refs f + mapped (cloned.dirs 0) f ≡ cloned.frames.refs f)
reclaim-IsCounted_example =
    let (v, live, _, _) = clone-IsCounted_example in
    reclaim-IsCounted absent 0 cloned reclaimed live v reclaimed-ok
