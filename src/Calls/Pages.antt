-- ===== src/Calls/Pages.antt =====
-- What `map_page` and `share_page` give to the task that calls them.
use toy_kernel.Base.{
  ℕ, zero, suc, ◌+◌, ◌-◌, ◌^◌, ◌≤◌, ◌<◌, ◌≡◌, ◌≢◌, refl, sym, ap, subst, ◌∙◌, true, false, not,
  some, ◌==◌, if◌then◌else◌, arith, ok, check, need, need-eq-ok, >>=-eq-ok, ok-inj, some-inj,
  Bool-cases, inl, inr,
}
use toy_kernel.Bitmap.{get_first_zero}
use toy_kernel.Bitmap.Search.{get_first_zero-first}
use toy_kernel.Task.{TaskPtr}
use toy_kernel.Paging.{
  Directory, Paging, dir_at, is_present, page_index_4m, page_addr_4m, ram_as_4m_pages,
  num_page_dirs, pg_user, is_4m_page_aligned, user_start, user_end, next_free_physical_page,
  add_page, get_physical_addr, is_virtual_mapped, is_physical_free, is_page_frame_used,
  get_next_free_virtual_user, free_user_loop,
}
use toy_kernel.Paging.Invariant.{IsCounted, IsLive}
use toy_kernel.Paging.AddPage.{AreWords, add_page-Added, add_page-IsCounted}
use toy_kernel.Paging.Tracking.{set_page_frame_used-Used}
use toy_kernel.Paging.Mapping.{get_physical_addr-add_page}
use toy_kernel.Calls.{
  System, directory, MapResult, success, unaligned_addr, already_mapped, map_new_page, map_page,
  map_page_from_task, share_page,
}

-- A frame that `NextFreePhysicalPage` gives out from the second on.
pub record IsFreeFrame (paddr : ℕ) (s : Paging) : Type 0 where
  pub not_null : 0 < paddr
  pub word : paddr < 2 ^ 32
  pub free : is_physical_free (page_index_4m paddr) s ≡ true
  pub unreferenced : s.frames.refs (page_index_4m paddr) ≡ 0

next_free-IsFreeFrame :
    (reserved : ℕ → ℕ) (paddr : ℕ) (s : Paging)
    → IsCounted reserved s
    → next_free_physical_page s.frames 1 ≡ ok paddr
    → IsFreeFrame paddr s
unfolding next_free_physical_page is_physical_free
next_free-IsFreeFrame reserved paddr s v found =
    let (page, got, same) =
      >>=-eq-ok (need (get_first_zero ram_as_4m_pages s.frames.bits 1)) _ found in
    let first =
      (get_first_zero-first ram_as_4m_pages s.frames.bits 1 (omega arith)).0 page
        (need-eq-ok got) in
    let index : page_index_4m paddr ≡ page = omega (arith, ok-inj same) in
    record {
      not_null = omega (arith, ok-inj same, first.from_start);
      word = omega (arith, ok-inj same, first.in_bounds);
      free = ap (λ z. not (is_page_frame_used s.frames z)) index ∙ ap not first.unset;
      unreferenced =
          ap s.frames.refs index
          ∙ ground (arith, v.tracked.counted page first.in_bounds, first.unset);
    }

-- What a call of `map_page` comes to.
pub record Mapped (reserved : ℕ → ℕ) (cur : TaskPtr) (vaddr : ℕ) (s : System) (r : MapResult)
    (s' : System) : Type 0 where
  pub counted : IsCounted reserved s'.paging
  pub new_frame :
      r ≡ success
      → (paddr : ℕ) × IsFreeFrame paddr s.paging
        × (get_physical_addr (directory cur s) vaddr s'.paging ≡ ok paddr)
  pub no_change : r ≢ success → s' ≡ s

module _ (reserved : ℕ → ℕ) (cur : TaskPtr) (vaddr : ℕ) (s : System)
    (v : IsCounted reserved s.paging) (live : IsLive (directory cur s) s.paging)
    (word : vaddr < 2 ^ 32) where
  map_new_page-Mapped :
      (r : MapResult) (s' : System)
      → map_new_page cur vaddr s ≡ ok (r, s')
      → Mapped reserved cur vaddr s r s'
  unfolding map_new_page
  map_new_page-Mapped r s' h =
      let (paddr, found, h1) = >>=-eq-ok (next_free_physical_page s.paging.frames 1) _ h in
      let f = next_free-IsFreeFrame reserved paddr s.paging v found in
      let some_page : (paddr == 0) ≡ false = ground (arith, f.not_null) in
      let (paging, added, done) =
        >>=-eq-ok (add_page (directory cur s) vaddr paddr pg_user false s.paging) _
          (rw some_page at h1) in
      let words : AreWords vaddr paddr pg_user = record {
        v_word = word;
        p_word = f.word;
        flags_byte = omega arith;
      } in
      let room : s.paging.frames.refs (page_index_4m paddr) + (num_page_dirs + 1) < 2 ^ 16 =
        omega (arith, f.unreferenced) in
      subst (λ z. Mapped reserved cur vaddr s z.0 z.1) (ok-inj done)
        (record {
          counted =
              add_page-IsCounted (directory cur s) vaddr paddr pg_user false s.paging paging words
                room reserved live v added;
          new_frame = λ e. (
            paddr,
            f,
            get_physical_addr-add_page (directory cur s) vaddr paddr pg_user false s.paging paging
                words room added {reserved = reserved} live v,
          );
          no_change = λ ne. absurd (ne refl);
        })

  same-Mapped : (r : MapResult) → r ≢ success → Mapped reserved cur vaddr s r s
  same-Mapped r ne = record { counted = v; new_frame = λ e. absurd (ne e); no_change = λ _. refl }

  -- A call of `map_page` that returns keeps the reference counts equal to the numbers of mappings. If
  -- it succeeds, then the page of the current task's space leads to a frame that was free and is not
  -- frame 0, and otherwise nothing has changed. The current task's directory is in use.
  pub map_page-Mapped :
      (r : MapResult) (s' : System)
      → s.scheduler.current ≡ some cur
      → map_page vaddr s ≡ ok (r, s')
      → Mapped reserved cur vaddr s r s'
  unfolding map_page
  map_page-Mapped r s' is_cur h = elim (Bool-cases (is_4m_page_aligned vaddr)) [
    | inr uneven ↦
        subst (λ z. Mapped reserved cur vaddr s z.0 z.1) (ok-inj (rw uneven at h))
          (same-Mapped unaligned_addr cc)
    | inl even ↦
        let (p, got, h1) = >>=-eq-ok (need s.scheduler.current) _ (rw even at h) in
        let same : cur ≡ p = some-inj (sym is_cur ∙ need-eq-ok got) in
        let h2 =
          subst
            (λ z.
              (if is_virtual_mapped (directory z s) vaddr s.paging
                then ok (already_mapped, s)
                else map_new_page z vaddr s)
              ≡ ok (r, s'))
            (sym same) h1 in
        elim (Bool-cases (is_virtual_mapped (directory cur s) vaddr s.paging)) [
          | inl there ↦
              subst (λ z. Mapped reserved cur vaddr s z.0 z.1) (ok-inj (rw there at h2))
                (same-Mapped already_mapped cc)
          | inr new ↦ map_new_page-Mapped r s' (rw new at h2)
        ]
  ]

free_user_loop-some :
    (rounds index : ℕ) (pd : ℕ → ℕ) (v : ℕ)
    → free_user_loop rounds index pd ≡ some v
    → (k : ℕ) × (index ≤ k)
      × (k < index + rounds)
      × (v ≡ page_addr_4m k)
      × (is_present (pd k) ≡ false)
unfolding free_user_loop
free_user_loop-some zero index pd v h = cc h
free_user_loop-some (suc rounds) index pd v h = elim (Bool-cases (is_present (pd index))) [
  | inr free ↦ (index, omega arith, omega arith, sym (some-inj (rw free at h)), free)
  | inl used ↦
      let (k, lo, hi, e, f) = free_user_loop-some rounds (suc index) pd v (rw used at h) in
      (k, omega arith, omega arith, e, f)
]

-- A page of the user's part that a directory does not map.
pub record IsFreePage (d : Directory) (v : ℕ) (s : Paging) : Type 0 where
  pub from_start : user_start ≤ v
  pub to_end : v < user_end
  pub unmapped : is_virtual_mapped d v s ≡ false

free_user-IsFreePage :
    (d : Directory) (v : ℕ) (s : Paging)
    → get_next_free_virtual_user d s ≡ some v
    → IsFreePage d v s
unfolding get_next_free_virtual_user is_virtual_mapped
free_user-IsFreePage d v s h =
    let (k, lo, hi, e, f) =
      free_user_loop-some (page_index_4m user_end - page_index_4m user_start)
        (page_index_4m user_start) (dir_at d s) v h in
    let index : k ≡ page_index_4m v = omega (arith, e, lo, hi) in
    record {
      from_start = omega (arith, e, lo, hi);
      to_end = omega (arith, e, lo, hi);
      unmapped = subst (λ z. is_present (dir_at d s z) ≡ false) index f;
    }

-- What a call of `share_page` comes to: both tasks' pages lead to one frame.
pub record SharedPage (reserved : ℕ → ℕ) (cur handle : TaskPtr) (src dst : ℕ) (s s' : System)
    : Type 0 where
  pub paddr : ℕ
  pub theirs : get_physical_addr (directory handle s) src s.paging ≡ ok paddr
  pub ours : get_physical_addr (directory cur s) dst s'.paging ≡ ok paddr
  pub was_free : IsFreePage (directory cur s) dst s.paging
  pub counted : IsCounted reserved s'.paging

module _ (reserved : ℕ → ℕ) (cur handle : TaskPtr) (src : ℕ) (s : System)
    (v : IsCounted reserved s.paging) (live : IsLive (directory cur s) s.paging)
    (room : (f : ℕ) → s.paging.frames.refs f + (num_page_dirs + 1) < 2 ^ 16) where
  map_page_from_task-Shared :
      (dst : ℕ) (s' : System)
      → IsFreePage (directory cur s) dst s.paging
      → map_page_from_task cur handle dst src s ≡ ok s'
      → SharedPage reserved cur handle src dst s s'
  unfolding map_page_from_task
  map_page_from_task-Shared dst s' free h =
      let (_, _, h1) = >>=-eq-ok (check (not (cur == handle))) _ h in
      let (_, _, h2) = >>=-eq-ok (check (is_4m_page_aligned dst)) _ h1 in
      let (_, _, h3) = >>=-eq-ok (check (is_4m_page_aligned src)) _ h2 in
      let (paddr, theirs, h4) =
        >>=-eq-ok (get_physical_addr (directory handle s) src s.paging) _ h3 in
      let (paging, added, done) =
        >>=-eq-ok (add_page (directory cur s) dst paddr pg_user true s.paging) _ h4 in
      let a = add_page-Added (directory cur s) dst paddr pg_user true s.paging paging added in
      let u = set_page_frame_used-Used s.paging.frames a.frames (page_index_4m paddr) a.used in
      let words : AreWords dst paddr pg_user = record {
        v_word = omega (arith, free.to_end);
        p_word = omega (arith, u.in_range);
        flags_byte = omega arith;
      } in
      subst (SharedPage reserved cur handle src dst s) (ok-inj done) (record {
        paddr = paddr;
        theirs = theirs;
        ours =
            get_physical_addr-add_page (directory cur s) dst paddr pg_user true s.paging paging
              words (room (page_index_4m paddr)) added {reserved = reserved} live v;
        was_free = free;
        counted =
            add_page-IsCounted (directory cur s) dst paddr pg_user true s.paging paging words
              (room (page_index_4m paddr)) reserved live v added;
      })

  -- A call of `share_page` that returns gives an address in the user's part at which the current task
  -- had no page, and from which it now reaches the frame that the other task's page leads to. The
  -- reference counts stay equal to the numbers of mappings. The current task's directory is in use, and
  -- the counts have room for a reference from each directory.
  pub share_page-SharedPage :
      (dst : ℕ) (s' : System)
      → s.scheduler.current ≡ some cur
      → share_page handle src s ≡ ok (dst, s')
      → SharedPage reserved cur handle src dst s s'
  unfolding share_page
  share_page-SharedPage dst s' is_cur h =
      let (_, _, h1) = >>=-eq-ok (check (s.scheduler.tasks handle).user) _ h in
      let (p, got, h2) = >>=-eq-ok (need s.scheduler.current) _ h1 in
      let same : p ≡ cur = some-inj (sym (need-eq-ok got) ∙ is_cur) in
      let (_, _, h3) = >>=-eq-ok (check (not (handle == p))) _ h2 in
      let (v', next, h4) =
        >>=-eq-ok (need (get_next_free_virtual_user (directory p s) s.paging)) _ h3 in
      let (s1, mapped, done) = >>=-eq-ok (map_page_from_task p handle v' src s) _ h4 in
      let free = free_user-IsFreePage (directory cur s) v' s.paging (
        subst (λ z. get_next_free_virtual_user (directory z s) s.paging ≡ some v') same
          (need-eq-ok next)) in
      subst (λ z. SharedPage reserved cur handle src z.0 s z.1) (ok-inj done)
        (map_page_from_task-Shared v' s1 free
          (subst (λ z. map_page_from_task z handle v' src s ≡ ok s1) same mapped))
