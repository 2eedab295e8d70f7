-- ===== src/Vfs/Lookup.antt =====
-- `GetNodeImpl` follows the names of a path from a directory to the next.
use toy_kernel.Base.{
  ℕ, zero, suc, ◌<◌, ◌≡◌, refl, ap, ◌∙◌, fun_ext, false, Option, some, List, [], ◌∷◌, ◌++◌, length,
  length-append, arith, Outcome, ok, ◌>>=◌,
}
use toy_kernel.Vfs.{
  Name, separator, is_empty, name_eq, Tree, find_child, as_directory, if_found, get_node_impl,
  get_node,
}
use toy_kernel.Vfs.Paths.{
  IsName, AllNames, join_path, IsSimple, simplify_name-IsSimple, IsName-IsSimple, IsSimple-append,
  first-ne, filled-append, dot-ne, first-name, root-ne, split_head-name, split_head-append,
  length-name,
}

-- A path as its names: each but the last is a directory that the next is looked up in.
abbrev pub walk : (dir : ℕ) → List Name → Tree → Outcome (Option ℕ)
walk dir [] t = ok (some dir)
walk dir (c ∷ []) t = find_child (t.node dir).nodes c t
walk dir (c ∷ d ∷ ds) t = find_child (t.node dir).nodes c t >>= λ found.
    if_found (as_directory found t) (λ sub. walk sub (d ∷ ds) t)

-- A path of simple names is simple, and not empty.
pub join_path-IsSimple :
    (c : Name) (cs : List Name)
    → AllNames (c ∷ cs)
    → (y : ℕ) × (ys : Name) × (join_path (c ∷ cs) ≡ y ∷ ys) × IsSimple (y ∷ ys)
join_path-IsSimple [] [] h = absurd (ground (arith, h.0.filled))
join_path-IsSimple (x ∷ xs) [] h = (x, xs, refl, IsName-IsSimple (x ∷ xs) h.0)
join_path-IsSimple [] (d ∷ ds) h = absurd (ground (arith, h.0.filled))
join_path-IsSimple (x ∷ xs) (d ∷ ds) (n, ns) =
    let (y, ys, e, s) = join_path-IsSimple d ds ns in
    (
      x,
      xs ++ separator ∷ y ∷ ys,
      ap (λ r. x ∷ (xs ++ separator ∷ r)) e,
      IsSimple-append (x ∷ xs) y ys n s,
    )

get_node_impl-name :
    (rounds dir : ℕ) (c : Name) (t : Tree)
    → IsName c
    → get_node_impl (suc rounds) dir c t ≡ find_child (t.node dir).nodes c t
unfolding get_node_impl name_eq
get_node_impl-name rounds dir c t h = rw (simplify_name-IsSimple c (IsName-IsSimple c h)) (
    rw (split_head-name c h)
      (rw h.filled (rw h.not_dot (rw (first-name c h) (rw (root-ne c h) refl)))))

get_node_impl-append :
    (rounds dir : ℕ) (c r : Name) (t : Tree)
    → IsName c
    → IsSimple (c ++ separator ∷ r)
    → is_empty (c ++ separator ∷ r) ≡ false
    → is_empty r ≡ false
    → get_node_impl (suc (suc rounds)) dir (c ++ separator ∷ r) t ≡ (
        find_child (t.node dir).nodes c t >>= λ found.
        if_found (as_directory found t) (λ sub. get_node_impl (suc rounds) sub r t))
unfolding get_node_impl
get_node_impl-append rounds dir c r t h s filled more =
    let by_name = get_node_impl-name rounds dir c t h in
    rw (simplify_name-IsSimple (c ++ separator ∷ r) s) (
      rw (split_head-append c r h) (
        rw filled (
          rw (dot-ne c r h)
            (rw (first-ne c (separator ∷ r) h) (rw (root-ne c h) (rw more (rw by_name refl)))))))

-- `getNode` of names joined by separators, with rounds for the characters of the path.
pub get_node_impl-walk :
    (rounds dir : ℕ) (c : Name) (cs : List Name) (t : Tree)
    → AllNames (c ∷ cs)
    → length (join_path (c ∷ cs)) < rounds
    → get_node_impl rounds dir (join_path (c ∷ cs)) t ≡ walk dir (c ∷ cs) t
get_node_impl-walk zero dir c cs t h enough = absurd (omega arith)
get_node_impl-walk (suc rounds) dir c [] t h enough = get_node_impl-name rounds dir c t h.0
get_node_impl-walk (suc zero) dir c (d ∷ ds) t h enough =
    absurd (omega (arith, length-name c h.0, length-append {0} c (separator ∷ join_path (d ∷ ds))))
get_node_impl-walk (suc (suc rounds)) dir c (d ∷ ds) t h enough =
    let r = join_path (d ∷ ds) in
    let (y, ys, e, s) = join_path-IsSimple d ds h.1 in
    let simple : IsSimple (c ++ separator ∷ r) = rw e (IsSimple-append c y ys h.0 s) in
    let more : is_empty r ≡ false = rw e refl in
    get_node_impl-append rounds dir c r t h.0 simple (filled-append c (separator ∷ r) h.0) more
    ∙ ap (λ f. find_child (t.node dir).nodes c t >>= λ found. if_found (as_directory found t) f)
        (fun_ext (λ sub.
          get_node_impl-walk (suc rounds) sub d ds t h.1
            (omega (arith, length-name c h.0, length-append {0} c (separator ∷ r)))))

-- `getNode` of a path of simple names follows them from a directory to the next, and is done within
-- its rounds.
pub get_node-walk :
    (dir : ℕ) (c : Name) (cs : List Name) (t : Tree)
    → AllNames (c ∷ cs)
    → get_node dir (join_path (c ∷ cs)) t ≡ walk dir (c ∷ cs) t
unfolding get_node
get_node-walk dir c cs t h =
    get_node_impl-walk (suc (length (join_path (c ∷ cs)))) dir c cs t h (omega arith)
