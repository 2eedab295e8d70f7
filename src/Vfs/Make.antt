-- ===== src/Vfs/Make.antt =====
-- `mkdir` makes the directories of a path that are not there, and `getNode` finds them.
use toy_kernel.Base.{
  ℕ, zero, suc, ◌+◌, ◌≤◌, ◌≡◌, refl, ap, ◌∙◌, fun_ext, false, List, [], ◌∷◌, ◌++◌, length, take,
  drop, length-append, arith, Outcome, ok, stop, ◌>>=◌,
}
use toy_kernel.Vfs.{
  Name, separator, find, simplify_name, Tree, find_child, enter_or_make, is_empty, mkdir_once,
  mkdir_loop, mkdir,
}
use toy_kernel.Vfs.Paths.{
  IsName, AllNames, join_path, simplify_name-IsSimple, IsName-IsSimple, simplify_name-separator,
  find-append, take-all, drop-all, filled-append, take-append_suc, drop-append_suc, length-name,
}
use toy_kernel.Vfs.Lookup.{join_path-IsSimple, get_node-walk}

-- The names of a path in turn: each is looked up, and made where it is not found.
abbrev pub make : (dir : ℕ) → List Name → Tree → Outcome (ℕ × Tree)
make dir [] t = ok (dir, t)
make dir (c ∷ cs) t = find_child (t.node dir).nodes c t >>= λ found.
    enter_or_make dir c t found >>= λ (sub, t1). make sub cs t1

pub mkdir_once-enter_or_make :
    (dir : ℕ) (c path : Name) (t : Tree)
    → IsName c
    → simplify_name path ≡ ok c
    → mkdir_once dir path t ≡ (find_child (t.node dir).nodes c t >>= enter_or_make dir c t)
unfolding mkdir_once
mkdir_once-enter_or_make dir c path t h named =
    rw named (rw (get_node-walk dir c [] t (h, tt)) refl)

mkdir_loop-step :
    (rounds dir : ℕ) (p : Name) (t : Tree)
    → is_empty p ≡ false
    → mkdir_loop (suc rounds) dir p t ≡ (
        mkdir_once dir (take (find separator p + 1) p) t >>= λ (sub, t1).
        mkdir_loop rounds sub (drop (find separator p + 1) p) t1)
unfolding mkdir_loop
mkdir_loop-step rounds dir [] t h = absurd (ground (arith, h))
mkdir_loop-step rounds dir (c ∷ cs) t h = refl

mkdir_loop-done : (rounds dir : ℕ) (t : Tree) → mkdir_loop rounds dir [] t ≡ ok (dir, t)
unfolding mkdir_loop
mkdir_loop-done zero dir t = refl
mkdir_loop-done (suc rounds) dir t = refl

pub >>=-assoc :
    {A B C : Type 0} (m : Outcome A) (f : A → Outcome B) (g : B → Outcome C)
    → ((m >>= f) >>= g) ≡ (m >>= λ a. f a >>= g)
>>=-assoc (ok a) f g = refl
>>=-assoc stop f g = refl

mkdir_loop-make :
    (rounds dir : ℕ) (c : Name) (cs : List Name) (t : Tree)
    → AllNames (c ∷ cs)
    → length (join_path (c ∷ cs)) ≤ rounds
    → mkdir_loop rounds dir (join_path (c ∷ cs)) t ≡ make dir (c ∷ cs) t
mkdir_loop-make zero dir c [] t h enough = absurd (omega (arith, length-name c h.0))
mkdir_loop-make zero dir c (d ∷ ds) t h enough =
    absurd (omega (arith, length-name c h.0, length-append {0} c (separator ∷ join_path (d ∷ ds))))
mkdir_loop-make (suc rounds) dir c [] t h enough =
    let search = find_child (t.node dir).nodes c t in
    let once =
      mkdir_once-enter_or_make dir c c t h.0 (simplify_name-IsSimple c (IsName-IsSimple c h.0)) in
    mkdir_loop-step rounds dir c t h.0.filled
    ∙ rw h.0.no_separator (
        rw (take-all c) (
          rw (drop-all c) (
            rw once (
              >>=-assoc search (enter_or_make dir c t) (λ (sub, t1). mkdir_loop rounds sub [] t1)
              ∙ ap (λ f. search >>= λ found. enter_or_make dir c t found >>= f)
                  (fun_ext (λ (sub, t1). mkdir_loop-done rounds sub t1))))))
mkdir_loop-make (suc rounds) dir c (d ∷ ds) t h enough =
    let search = find_child (t.node dir).nodes c t in
    let r = join_path (d ∷ ds) in
    let once =
      mkdir_once-enter_or_make dir c (c ++ separator ∷ []) t h.0 (simplify_name-separator c h.0) in
    mkdir_loop-step rounds dir (c ++ separator ∷ r) t (filled-append c (separator ∷ r) h.0)
    ∙ rw (find-append separator c r h.0.no_separator) (
        rw (take-append_suc c r separator) (
          rw (drop-append_suc c r separator) (
            rw once (
              >>=-assoc search (enter_or_make dir c t) (λ (sub, t1). mkdir_loop rounds sub r t1)
              ∙ ap (λ f. search >>= λ found. enter_or_make dir c t found >>= f)
                  (fun_ext (λ (sub, t1).
                    mkdir_loop-make rounds sub d ds t1 h.1
                      (omega (arith, length-name c h.0, length-append {0} c (separator ∷ r)))))))))

pub mkdir-make :
    (dir : ℕ) (c : Name) (cs : List Name) (t : Tree)
    → AllNames (c ∷ cs)
    → mkdir dir (join_path (c ∷ cs)) t ≡ make dir (c ∷ cs) t
unfolding mkdir
mkdir-make dir c cs t h =
    let (y, ys, e, s) = join_path-IsSimple c cs h in
    let named : simplify_name (join_path (c ∷ cs)) ≡ ok (join_path (c ∷ cs)) =
      simplify_name-IsSimple (join_path (c ∷ cs)) (rw e s) in
    rw named (mkdir_loop-make (length (join_path (c ∷ cs))) dir c cs t h (omega arith))
