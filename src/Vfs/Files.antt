-- ===== src/Vfs/Files.antt =====
-- `mkfile` and `getFile` on the same path.
use toy_kernel.Base.{
  ℕ, zero, suc, ◌<◌, ◌≡◌, refl, sym, ap, ◌∙◌, fun_ext, true, false, none, some, List, [], ◌∷◌, ◌++◌,
  length, length-append, get_or, ==_iff, ◌==◌, Bool-cases, Option-cases, ◌⊎◌, inl, inr, arith,
  Outcome, ok, stop, ◌>>=◌, ◌>>◌, check, not, ok-inj, some-inj,
}
use toy_kernel.Vfs.{
  Name, separator, last, without_last, is_empty, find, simplify_name, Tree, is_directory,
  find_child, get_node, get_file, enter_or_make, new_file, push_node, mkfile_loop, mkfile,
}
use toy_kernel.Vfs.Paths.{
  IsName, AllNames, join_path, simplify_name-IsSimple, IsName-IsSimple, simplify_name-separator,
  find-append, take-append_suc, drop-append_suc, length-name, first-ne, first-name,
}
use toy_kernel.Vfs.Lookup.{walk, join_path-IsSimple, get_node-walk}
use toy_kernel.Vfs.Growth.{
  IsTree, Extends, Extends-trans, find_child-append, find_child-returns, push_node-made,
  push_node-dir, push_node-Extends, push_node-IsTree,
}
use toy_kernel.Vfs.Make.{make, mkdir_once-enter_or_make, >>=-assoc}
use toy_kernel.Vfs.Walks.{IsBlocked, IsMade, walk-Extends}
use toy_kernel.Vfs.Directories.{make-Made}

mkfile_loop-step :
    (rounds dir : ℕ) (c r : Name) (t : Tree)
    → IsName c
    → mkfile_loop (suc rounds) dir (c ++ separator ∷ r) t ≡ (
        find_child (t.node dir).nodes c t >>= λ found.
        enter_or_make dir c t found >>= λ (sub, t1). mkfile_loop rounds sub r t1)
unfolding mkfile_loop
mkfile_loop-step rounds dir c r t h =
    let p = c ++ separator ∷ r in
    let search = find_child (t.node dir).nodes c t in
    let once =
      mkdir_once-enter_or_make dir c (c ++ separator ∷ []) t h (simplify_name-separator c h) in
    let at : find separator p ≡ length c = find-append separator c r h.no_separator in
    let short : length c == length p ≡ false =
      ground (arith, length-append {0} c (separator ∷ r)) in
    rw at (
      rw short (
        rw (take-append_suc c r separator) (
          rw (drop-append_suc c r separator) (
            rw once (
              >>=-assoc search (enter_or_make dir c t)
                (λ (sub, t1). mkfile_loop rounds sub r t1))))))

mkfile_loop-last :
    (rounds dir : ℕ) (c : Name) (t : Tree)
    → IsName c
    → mkfile_loop (suc rounds) dir c t ≡ ok (dir, c, t)
unfolding mkfile_loop
mkfile_loop-last rounds dir c t h =
    rw ((==_iff (find separator c) (length c)).1 h.no_separator) refl

mkfile_loop-make :
    (rounds dir : ℕ) (c : Name) (cs : List Name) (t : Tree)
    → AllNames (c ∷ cs)
    → length (join_path (c ∷ cs)) < rounds
    → mkfile_loop rounds dir (join_path (c ∷ cs)) t
      ≡ (make dir (without_last c cs) t >>= λ (sub, t1). ok (sub, last c cs, t1))
mkfile_loop-make zero dir c cs t h enough = absurd (omega arith)
mkfile_loop-make (suc rounds) dir c [] t h enough = mkfile_loop-last rounds dir c t h.0
mkfile_loop-make (suc rounds) dir c (d ∷ ds) t h enough =
    let search = find_child (t.node dir).nodes c t in
    let r = join_path (d ∷ ds) in
    let down = λ (x : ℕ × Tree). make x.0 (without_last d ds) x.1 in
    let give : ℕ × Tree → Outcome (ℕ × Name × Tree) = λ x. ok (x.0, last d ds, x.1) in
    mkfile_loop-step rounds dir c r t h.0
    ∙ ap (λ f. search >>= λ found. enter_or_make dir c t found >>= f)
        (fun_ext (λ (sub, t1).
          mkfile_loop-make rounds sub d ds t1 h.1
            (omega (arith, length-name c h.0, length-append {0} c (separator ∷ r)))))
    ∙ ap (λ f. search >>= f)
        (fun_ext (λ found. sym (>>=-assoc (enter_or_make dir c t found) down give)))
    ∙ sym (>>=-assoc search (λ found. enter_or_make dir c t found >>= down) give)

last-IsName : (c : Name) (cs : List Name) → AllNames (c ∷ cs) → IsName (last c cs)
last-IsName c [] h = h.0
last-IsName c (d ∷ ds) h = last-IsName d ds h.1

without_last-AllNames :
    (c : Name) (cs : List Name) → AllNames (c ∷ cs) → AllNames (without_last c cs)
without_last-AllNames c [] h = tt
without_last-AllNames c (d ∷ ds) h = (h.0, without_last-AllNames d ds h.1)

first-join_path :
    (c : Name) (cs : List Name)
    → AllNames (c ∷ cs)
    → get_or (join_path (c ∷ cs)) 0 0 == separator ≡ false
first-join_path c [] h = first-name c h.0
first-join_path c (d ∷ ds) h = first-ne c (separator ∷ join_path (d ∷ ds)) h.0

-- `mkfile` makes the directories of the path, and the file in the last of them.
pub mkfile-make :
    (dir : ℕ) (c : Name) (cs : List Name) (t : Tree)
    → AllNames (c ∷ cs)
    → mkfile dir (join_path (c ∷ cs)) t ≡ (
        make dir (without_last c cs) t >>= λ (sub, t1).
        ok (t1.count, push_node sub (new_file dir (last c cs)) t1))
unfolding mkfile
mkfile-make dir c cs t h =
    let p = join_path (c ∷ cs) in
    let (y, ys, e, s) = join_path-IsSimple c cs h in
    let named : simplify_name p ≡ ok p = simplify_name-IsSimple p (rw e s) in
    let m : Outcome (ℕ × Tree) = make dir (without_last c cs) t in
    let filled = (last-IsName c cs h).filled in
    rw named (
      rw (first-join_path c cs h) (
        rw (mkfile_loop-make (suc (length p)) dir c cs t h (omega arith)) (
          >>=-assoc m (λ (sub, t1). ok (sub, last c cs, t1))
            (λ (sub, base, t1).
              check (not (is_empty base)) >> ok (t1.count, push_node sub (new_file dir base) t1))
          ∙ rw filled refl)))

-- The last name of a path is looked up in the directory that the others lead to.
walk-last :
    (dir sub : ℕ) (c : Name) (cs : List Name) (t : Tree)
    → walk dir (without_last c cs) t ≡ ok (some sub)
    → is_directory (t.node sub).kind ≡ true
    → walk dir (c ∷ cs) t ≡ find_child (t.node sub).nodes (last c cs) t
walk-last dir sub c [] t w d =
    let e : dir ≡ sub = some-inj (ok-inj w) in ap (λ n. find_child (t.node n).nodes c t) e
walk-last dir sub c (x ∷ []) t w d = rw w (rw d refl)
walk-last dir sub c (x ∷ y ∷ ys) t w d =
    let (found, search) = find_child-returns (t.node dir).nodes c t in
    elim (Option-cases found) [
      | inl none_found ↦ absurd (none-ne-some (rw (search ∙ ap ok none_found) at w))
      | inr (n, is) ↦ elim (Bool-cases (is_directory (t.node n).kind)) [
        | inl directory ↦
            let s = search ∙ ap ok is in
            rw s (rw directory (walk-last n sub x (y ∷ ys) t (rw directory at (rw s at w)) d))
        | inr file ↦ absurd (none-ne-some (rw file at (rw (search ∙ ap ok is) at w)))
      ]
    ]
  where
    none-ne-some : ok none ≡ ok (some sub) → ⊥
    none-ne-some e = cc

-- The last directory of the path has no node of the file's name, if the path was not found before.
free-last :
    (dir sub : ℕ) (c : Name) (cs : List Name) (t t1 : Tree)
    → IsMade dir (without_last c cs) t sub t1
    → walk dir (c ∷ cs) t ≡ ok none
    → find_child (t1.node sub).nodes (last c cs) t1 ≡ ok none
unfolding find_child
free-last dir sub c cs t t1 m missing = elim m.fresh [
  | inr none_in ↦ rw none_in refl
  | inl same ↦
      let there : walk dir (c ∷ cs) t1 ≡ ok none = ap (walk dir (c ∷ cs)) same ∙ missing in
      sym (walk-last dir sub c cs t1 m.found m.directory) ∙ there
]

-- What `mkfile` promises for the file `f` and the tree `t'` that it returns.
pub record IsFiled (dir : ℕ) (c : Name) (cs : List Name) (t : Tree) (f : ℕ) (t' : Tree)
    : Type 0 where
  pub found : get_file dir (join_path (c ∷ cs)) t' ≡ ok (some f)
  pub name : (t'.node f).name ≡ last c cs
  pub empty : (t'.node f).contents ≡ []
  pub parent : (t'.node f).parent ≡ some dir
  pub tree : IsTree t'
  pub extends : Extends t t'

file_in :
    (dir sub : ℕ) (c : Name) (cs : List Name) (t t1 : Tree)
    → AllNames (c ∷ cs)
    → dir < t.count
    → is_directory (t.node dir).kind ≡ true
    → IsMade dir (without_last c cs) t sub t1
    → walk dir (c ∷ cs) t ≡ ok none
    → IsFiled dir c cs t t1.count (push_node sub (new_file dir (last c cs)) t1)
unfolding get_file
file_in dir sub c cs t t1 h inside d m missing =
    let base = last c cs in
    let new = new_file dir base in
    let t' = push_node sub new t1 in
    let f = t1.count in
    let made : t'.node f ≡ new = push_node-made sub new t1 m.inside in
    let e = push_node-Extends sub new t1 m.inside in
    let inside1 : dir < t1.count = omega (arith, m.extends.grown) in
    let dir1 : is_directory (t1.node dir).kind ≡ true =
      ap is_directory (m.extends.kinds dir inside) ∙ d in
    let name = last-IsName c cs h in
    let named : simplify_name (t'.node f).name ≡ ok base =
      ap (λ x. simplify_name x.name) made
      ∙ simplify_name-IsSimple base (IsName-IsSimple base name) in
    let in_sub : find_child (t'.node sub).nodes base t' ≡ ok (some f) =
      ap (λ x. find_child x.nodes base t') (push_node-dir sub new t1 m.inside)
      ∙ find_child-append f (t1.node sub).nodes base t1 t' e.names (m.tree.below sub m.inside)
          (free-last dir sub c cs t t1 m missing) named in
    let found : walk dir (c ∷ cs) t' ≡ ok (some f) =
      walk-last dir sub c cs t'
        (walk-Extends dir sub (without_last c cs) t1 t' m.tree inside1 e m.found)
        (ap is_directory (e.kinds sub m.inside) ∙ m.directory)
      ∙ in_sub in
    record {
      found = rw (get_node-walk dir c cs t' h) (rw found (rw made refl));
      name = ap (λ x. x.name) made;
      empty = ap (λ x. x.contents) made;
      parent = ap (λ x. x.parent) made;
      tree =
          push_node-IsTree sub new t1 m.inside m.tree refl
            (λ p q. let same : dir ≡ p = some-inj q in (rw (← same) inside1, rw (← same) dir1));
      extends = Extends-trans t t1 t' m.extends e;
    }

-- `mkfile` of a path of simple names under which nothing is found, in a directory of a well-formed
-- tree. Where a node on the way to the file is no directory it stops. Anywhere else it returns a file
-- that `getFile` finds under the same path, with the path's last name, no contents, and the directory
-- that `mkfile` was called on as its parent; the tree stays well formed and has only grown.
pub mkfile-IsFiled :
    (dir : ℕ) (c : Name) (cs : List Name) (t : Tree)
    → IsTree t
    → dir < t.count
    → is_directory (t.node dir).kind ≡ true
    → AllNames (c ∷ cs)
    → get_node dir (join_path (c ∷ cs)) t ≡ ok none
    → ((mkfile dir (join_path (c ∷ cs)) t ≡ stop) × IsBlocked dir (without_last c cs) t)
      ⊎ ((f : ℕ) × (t' : Tree) × (mkfile dir (join_path (c ∷ cs)) t ≡ ok (f, t'))
          × IsFiled dir c cs t f t')
mkfile-IsFiled dir c cs t w inside d h missing =
    let front = without_last c cs in
    let nothing : walk dir (c ∷ cs) t ≡ ok none = sym (get_node-walk dir c cs t h) ∙ missing in
    elim (make-Made dir front t w inside d (without_last-AllNames c cs h)) [
      | inl (stops, b) ↦ inl (mkfile-make dir c cs t h ∙ rw stops refl, b)
      | inr (sub, t1, ran, m) ↦ inr (
        t1.count,
        push_node sub (new_file dir (last c cs)) t1,
        mkfile-make dir c cs t h ∙ rw ran refl,
        file_in dir sub c cs t t1 h inside d m nothing,
      )
    ]
