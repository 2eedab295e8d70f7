-- ===== src/Users/Stack.antt =====
-- The words that `push_user` leaves on the stack of a task that is not running.
use toy_kernel.Base.{
  ℕ, zero, suc, ◌+◌, ◌-◌, ◌*◌, ◌/◌, ◌%◌, ◌^◌, ◌≤◌, ◌<◌, ◌≡◌, refl, ap, ap₂, subst, ◌∙◌, true,
  Option, some, List, [], ◌∷◌, length, get_elem?, arith, ok, inr, bit_and, some-inj, ◌>>=◌,
}
use toy_kernel.Strings.Copy.{Outside}
use toy_kernel.Task.{TaskPtr}
use toy_kernel.Paging.{
  Directory, Paging, dir_at, is_present, page_index_4m, page_size_4m, page_mask_4m,
}
use toy_kernel.Calls.{directory}
use toy_kernel.Transfer.{Machine}
use toy_kernel.Transfer.Copy.{IsWritten}
use toy_kernel.Transfer.Place.{IsReachable, moved_to, holding}
use toy_kernel.Transfer.Write.{Moved, task_write-Moved, Moved-IsReachable}
use toy_kernel.Users.{word_at, word_bytes, push_user}

word_at-IsWritten :
    (base v : ℕ) (old x : ℕ → ℕ)
    → v < 2 ^ 32
    → IsWritten base 4 0 (word_bytes v) old x
    → word_at x base ≡ v
word_at-IsWritten base v old x small w =
    let first : base + 0 ≡ base = omega arith in
    let b0 : v % 2 ^ 8 ≡ x base = some-inj (w.there 0 (omega arith)) ∙ ap x first in
    let b1 : v / 2 ^ 8 % 2 ^ 8 ≡ x (base + 1) = some-inj (w.there 1 (omega arith)) in
    let b2 : v / 2 ^ 16 % 2 ^ 8 ≡ x (base + 2) = some-inj (w.there 2 (omega arith)) in
    let b3 : v / 2 ^ 24 % 2 ^ 8 ≡ x (base + 3) = some-inj (w.there 3 (omega arith)) in omega arith

word_at-same :
    (base : ℕ) (old x : ℕ → ℕ)
    → ((q : ℕ) → base ≤ q → q < base + 4 → x q ≡ old q)
    → word_at x base ≡ word_at old base
word_at-same base old x same = rw (same base (omega arith) (omega arith)) (
    rw (same (base + 1) (omega arith) (omega arith)) (
      rw (same (base + 2) (omega arith) (omega arith))
        (rw (same (base + 3) (omega arith) (omega arith)) refl)))

module _ (reserved : ℕ → ℕ) (task cur : TaskPtr) (page : ℕ) where
  -- A page that can be written is writable at each of its bytes.
  pub IsReachable-at :
      (dst size : ℕ) (m : Machine)
      → IsReachable reserved task cur (page * 2 ^ 22) 1 m
      → 0 < size
      → page * 2 ^ 22 ≤ dst
      → dst + size ≤ page * 2 ^ 22 + 2 ^ 22
      → IsReachable reserved task cur dst size m
  IsReachable-at dst size m w some_bytes low high =
      let same : page_index_4m dst ≡ page_index_4m (page * 2 ^ 22) = omega arith in
      record {
        current = w.current;
        other = w.other;
        active = w.active;
        counted = w.counted;
        live_task = w.live_task;
        live_cur = w.live_cur;
        free = w.free;
        fresh = rw same w.fresh;
        dst_word = omega (arith, w.dst_word);
        entry_word = rw same w.entry_word;
        present = rw same w.present;
        room = rw same w.room;
        some_bytes = some_bytes;
        fits = omega arith;
      }

  -- The frame of the page.
  abbrev pub frame : Machine → ℕ
  frame m =
      bit_and (dir_at (directory task m.system) m.system.paging (page_index_4m (page * 2 ^ 22)))
        page_mask_4m

  -- The stack with some words more.
  pub record Pushed (esp : ℕ) (vs : List ℕ) (m : Machine) (p : Paging) (t : ℕ → Option ℕ)
      (x : ℕ → ℕ) : Type 0 where
    pub ran : push_user task esp vs m ≡ ok (esp - 4 * length vs, moved_to p t x m)
    pub writable : IsReachable reserved task cur (page * 2 ^ 22) 1 (moved_to p t x m)
    pub words :
        (i v : ℕ)
        → get_elem? vs i ≡ some v
        → v < 2 ^ 32
        → word_at x (frame m + (esp - 4 * suc i - page * 2 ^ 22)) ≡ v
    pub others :
        (q : ℕ)
        → Outside (frame m + (esp - 4 * length vs - page * 2 ^ 22)) (4 * length vs) q
        → x q ≡ m.phys q
    pub kept :
        (d : Directory) (j : ℕ)
        → is_present (dir_at d m.system.paging j) ≡ true
        → dir_at d p j ≡ dir_at d m.system.paging j

  -- One word.
  push_word :
      (esp v : ℕ) (m : Machine)
      → IsReachable reserved task cur (page * 2 ^ 22) 1 m
      → page * 2 ^ 22 + 4 ≤ esp
      → esp ≤ page * 2 ^ 22 + 2 ^ 22
      → (p : Paging) × (x : ℕ → ℕ) × Moved reserved task cur (esp - 4) (word_bytes v) m p x
        × IsWritten (frame m + (esp - 4 - page * 2 ^ 22)) 4 0 (word_bytes v) m.phys x
  push_word esp v m w low high =
      let (p, x, moved) =
        task_write-Moved reserved task cur (esp - 4) (word_bytes v) m
          (IsReachable-at (esp - 4) 4 m w (omega arith) (omega arith) (omega arith)) in
      let same : page_index_4m (esp - 4) ≡ page_index_4m (page * 2 ^ 22) = omega arith in
      let place : (esp - 4) % page_size_4m ≡ esp - 4 - page * 2 ^ 22 = omega arith in
      (
        p,
        x,
        moved,
        subst (λ b. IsWritten b 4 0 (word_bytes v) m.phys x)
            (ap₂
              (λ i o. bit_and (dir_at (directory task m.system) m.system.paging i) page_mask_4m + o)
              same place)
            moved.written,
      )

  words_after :
      (v : ℕ) (vs : List ℕ) (esp : ℕ) (m : Machine) (p1 p : Paging) (t1 t : ℕ → Option ℕ)
      (x1 x : ℕ → ℕ)
      → page * 2 ^ 22 + 4 * suc (length vs) ≤ esp
      → frame (moved_to p1 t1 x1 m) ≡ frame m
      → IsWritten (frame m + (esp - 4 - page * 2 ^ 22)) 4 0 (word_bytes v) m.phys x1
      → Pushed (esp - 4) vs (moved_to p1 t1 x1 m) p t x
      → (i u : ℕ) → get_elem? (v ∷ vs) i ≡ some u
      → u < 2 ^ 32
      → word_at x (frame m + (esp - 4 * suc i - page * 2 ^ 22)) ≡ u
  words_after v vs esp m p1 p t1 t x1 x low same written rest zero u got small =
      let at : frame m + (esp - 4 * suc zero - page * 2 ^ 22)
          ≡ frame m + (esp - 4 - page * 2 ^ 22) =
        omega arith in
      let first : v ≡ u = some-inj got in
      rw at (
        word_at-same (frame m + (esp - 4 - page * 2 ^ 22)) x1 x
          (λ q from until. rest.others q (inr (omega (arith, same))))
        ∙ word_at-IsWritten (frame m + (esp - 4 - page * 2 ^ 22)) v m.phys x1 (omega arith) written
        ∙ first)
  words_after v vs esp m p1 p t1 t x1 x low same written rest (suc i) u got small =
      ap (word_at x) (omega (arith, same)) ∙ rest.words i u got small

  pub push_user-Pushed :
      (vs : List ℕ) (esp : ℕ) (m : Machine)
      → IsReachable reserved task cur (page * 2 ^ 22) 1 m
      → page * 2 ^ 22 + 4 * length vs ≤ esp
      → esp ≤ page * 2 ^ 22 + 2 ^ 22
      → (p : Paging) × (t : ℕ → Option ℕ) × (x : ℕ → ℕ) × Pushed esp vs m p t x
  unfolding push_user
  push_user-Pushed [] esp m w low high = (
    m.system.paging,
    m.stale,
    m.phys,
    record {
      ran = ap (λ e. ok (e, m)) (omega arith);
      writable = w;
      words = λ i v got small. cc;
      others = λ q o. refl;
      kept = λ d j present. refl;
    },
  )
  push_user-Pushed (v ∷ vs) esp m w low high =
      let (p1, x1, moved, written) = push_word esp v m w (omega arith) high in
      let t1 = holding task (esp - 4) m in
      let m1 = moved_to p1 t1 x1 m in
      let w1 =
        Moved-IsReachable reserved task cur (page * 2 ^ 22) (esp - 4) 1 (word_bytes v) m p1 x1
          (omega arith) w moved in
      let (p, t, x, rest) = push_user-Pushed vs (esp - 4) m1 w1 (omega arith) (omega arith) in
      let same : frame m1 ≡ frame m =
        ap (λ e. bit_and e page_mask_4m)
          (moved.tables.kept (directory task m.system) (page_index_4m (page * 2 ^ 22)) w.present) in
      (
        p,
        t,
        x,
        record {
          ran =
              ap (λ o. o >>= λ m2. push_user task (esp - 4) vs m2) moved.ran
              ∙ rest.ran
              ∙ ap (λ e. ok (e, moved_to p t x m)) (omega arith);
          writable = rest.writable;
          words = words_after v vs esp m p1 p t1 t x1 x (omega arith) same written rest;
          others =
              λ q o. rest.others q (omega (arith, same, o)) ∙ written.others q (omega (arith, o));
          kept = λ d j present.
              rest.kept d j (rw (moved.tables.kept d j present) present)
              ∙ moved.tables.kept d j present;
        },
      )
