-- ===== src/Vfs/Directories.antt =====
-- `mkdir` and `getDir` on the same path.
use toy_kernel.Base.{
  ℕ, ◌<◌, ◌≡◌, refl, ap, ◌∙◌, true, none, some, List, [], ◌∷◌, Bool-cases, Option-cases, ◌⊎◌, inl,
  inr, arith, ok, stop, some-inj,
}
use toy_kernel.Vfs.{
  Name, simplify_name, Tree, is_directory, find_child, get_dir, new_directory, push_node, mkdir,
}
use toy_kernel.Vfs.Paths.{IsName, AllNames, join_path, simplify_name-IsSimple, IsName-IsSimple}
use toy_kernel.Vfs.Lookup.{walk, get_node-walk}
use toy_kernel.Vfs.Growth.{
  IsTree, Extends, Extends-refl, Extends-trans, find_child-below, find_child-append,
  find_child-returns, push_node-made, push_node-dir, push_node-Extends, push_node-IsTree,
}
use toy_kernel.Vfs.Make.{make, mkdir-make}
use toy_kernel.Vfs.Walks.{
  IsBlocked, IsMade, Made, walk-found, still_found, not-IsBlocked, walk-empty,
}

-- One name of the path, where the rest of it is known from every directory.
module _ (dir : ℕ) (c : Name) (cs : List Name) (t : Tree) (w : IsTree t)
    (inside : dir < t.count) where
  is_fresh :
      (n : ℕ) (t1 : Tree) (sub : ℕ) (t' : Tree)
      → ((t1 ≡ t) ⊎ ((t1.node n).nodes ≡ []))
      → IsMade n cs t1 sub t'
      → (t' ≡ t) ⊎ ((t'.node sub).nodes ≡ [])
  is_fresh n t1 sub t' new m = elim m.fresh [
    | inr none_in ↦ inr none_in
    | inl same ↦ elim new [
      | inl same1 ↦ inl (same ∙ same1)
      | inr none_in ↦
          inr (walk-empty n sub cs t' (ap (λ x. (x.node n).nodes) same ∙ none_in) m.found)
    ]
  ]

  make_through :
      (n : ℕ) (t1 : Tree)
      → IsTree t1
      → Extends t t1
      → find_child (t1.node dir).nodes c t1 ≡ ok (some n)
      → is_directory (t1.node n).kind ≡ true
      → make dir (c ∷ cs) t ≡ make n cs t1
      → ((t1 ≡ t) ⊎ ((t1.node n).nodes ≡ []))
      → (sub : ℕ) × (t' : Tree) × (make n cs t1 ≡ ok (sub, t')) × IsMade n cs t1 sub t'
      → Made dir (c ∷ cs) t
  make_through n t1 w1 e h d1 step new (sub, t', ran, m) =
      let inside1 : dir < t1.count = omega (arith, e.grown) in
      let n_inside =
        find_child-below t1.count n (t1.node dir).nodes c t1 (w1.below dir inside1) h in
      let kept = still_found dir n c t1 t' w1 inside1 m.extends h in
      inr (
        sub,
        t',
        step ∙ ran,
        record {
          extends = Extends-trans t t1 t' e m.extends;
          tree = m.tree;
          inside = m.inside;
          directory = m.directory;
          found =
              walk-found dir n sub c cs t' kept (ap is_directory (m.extends.kinds n n_inside) ∙ d1)
                m.found;
          fresh = is_fresh n t1 sub t' new m;
        },
      )

  make_found :
      (n : ℕ)
      → find_child (t.node dir).nodes c t ≡ ok (some n)
      → (is_directory (t.node n).kind ≡ true → Made n cs t)
      → Made dir (c ∷ cs) t
  make_found n search rest = elim (Bool-cases (is_directory (t.node n).kind)) [
    | inr file ↦ inl (rw search (rw file refl), (n, search, inl file))
    | inl directory ↦
        let step : make dir (c ∷ cs) t ≡ make n cs t = rw search (rw directory refl) in
        elim (rest directory) [
          | inl (stops, b) ↦ inl (step ∙ stops, (n, search, inr b))
          | inr m ↦ make_through n t w (Extends-refl t) search directory step (inl refl) m
        ]
  ]

  make_new :
      IsName c
      → is_directory (t.node dir).kind ≡ true
      → find_child (t.node dir).nodes c t ≡ ok none
      → (let t1 = push_node dir (new_directory dir c) t in
          IsTree t1 → is_directory (t1.node t.count).kind ≡ true → Made t.count cs t1)
      → Made dir (c ∷ cs) t
  make_new name d search rest =
      let new = new_directory dir c in
      let t1 = push_node dir new t in
      let made : t1.node t.count ≡ new = push_node-made dir new t inside in
      let e = push_node-Extends dir new t inside in
      let w1 =
        push_node-IsTree dir new t inside w refl
          (λ p q. let same : dir ≡ p = some-inj q in (rw (← same) inside, rw (← same) d)) in
      let directory : is_directory (t1.node t.count).kind ≡ true =
        ap (λ x. is_directory x.kind) made in
      let named : simplify_name (t1.node t.count).name ≡ ok c =
        ap (λ x. simplify_name x.name) made ∙ simplify_name-IsSimple c (IsName-IsSimple c name) in
      let h : find_child (t1.node dir).nodes c t1 ≡ ok (some t.count) =
        ap (λ x. find_child x.nodes c t1) (push_node-dir dir new t inside)
        ∙ find_child-append t.count (t.node dir).nodes c t t1 e.names (w.below dir inside) search
            named in
      let step : make dir (c ∷ cs) t ≡ make t.count cs t1 = rw search refl in
      elim (rest w1 directory) [
        | inl (stops, b) ↦ absurd (not-IsBlocked t.count cs t1 (ap (λ x. x.nodes) made) b)
        | inr m ↦ make_through t.count t1 w1 e h directory step (inr (ap (λ x. x.nodes) made)) m
      ]

pub make-Made :
    (dir : ℕ) (cs : List Name) (t : Tree)
    → IsTree t
    → dir < t.count
    → is_directory (t.node dir).kind ≡ true
    → AllNames cs
    → Made dir cs t
make-Made dir [] t w inside d h = inr (
  dir,
  t,
  refl,
  record {
    extends = Extends-refl t;
    tree = w;
    inside = inside;
    directory = d;
    found = refl;
    fresh = inl refl;
  },
)
make-Made dir (c ∷ cs) t w inside d (name, names) =
    let (found, search) = find_child-returns (t.node dir).nodes c t in
    elim (Option-cases found) [
      | inr (n, is) ↦
          let h = search ∙ ap ok is in
          make_found dir c cs t w inside n h (λ directory.
            make-Made n cs t w
              (find_child-below t.count n (t.node dir).nodes c t (w.below dir inside) h) directory
              names)
      | inl none_found ↦
          make_new dir c cs t w inside name d (search ∙ ap ok none_found) (λ w1 directory.
            make-Made t.count cs (push_node dir (new_directory dir c) t) w1 (omega arith) directory
              names)
    ]

-- A directory that is found is not made again.
make-found :
    (dir sub : ℕ) (c : Name) (cs : List Name) (t : Tree)
    → is_directory (t.node sub).kind ≡ true
    → walk dir (c ∷ cs) t ≡ ok (some sub)
    → make dir (c ∷ cs) t ≡ ok (sub, t)
make-found dir sub c [] t d h = rw h (rw d refl)
make-found dir sub c (x ∷ xs) t d h =
    let (found, search) = find_child-returns (t.node dir).nodes c t in
    elim (Option-cases found) [
      | inl none_found ↦ absurd (none-ne-some (rw (search ∙ ap ok none_found) at h))
      | inr (n, is) ↦ elim (Bool-cases (is_directory (t.node n).kind)) [
        | inl directory ↦
            let s = search ∙ ap ok is in
            let go_on : walk n (x ∷ xs) t ≡ ok (some sub) = rw directory at (rw s at h) in
            rw s (rw directory (make-found n sub x xs t d go_on))
        | inr file ↦ absurd (none-ne-some (rw file at (rw (search ∙ ap ok is) at h)))
      ]
    ]
  where
    none-ne-some : ok none ≡ ok (some sub) → ⊥
    none-ne-some e = cc

-- `mkdir` of a path of simple names, in a directory of a well-formed tree. Where a node on the path is
-- no directory it stops. Anywhere else it returns a directory that `getDir` finds under the same path,
-- a second `mkdir` of the path returns it again and makes nothing, the tree stays well formed, and
-- every node that was there keeps its name, its kind and its nodes.
pub mkdir-get_dir :
    (dir : ℕ) (c : Name) (cs : List Name) (t : Tree)
    → IsTree t
    → dir < t.count
    → is_directory (t.node dir).kind ≡ true
    → AllNames (c ∷ cs)
    → ((mkdir dir (join_path (c ∷ cs)) t ≡ stop) × IsBlocked dir (c ∷ cs) t)
      ⊎ ((sub : ℕ) × (t' : Tree) × (mkdir dir (join_path (c ∷ cs)) t ≡ ok (sub, t'))
          × (get_dir dir (join_path (c ∷ cs)) t' ≡ ok (some sub))
          × (mkdir dir (join_path (c ∷ cs)) t' ≡ ok (sub, t'))
          × IsTree t'
          × Extends t t')
unfolding get_dir
mkdir-get_dir dir c cs t w inside d h = elim (make-Made dir (c ∷ cs) t w inside d h) [
  | inl (stops, b) ↦ inl (mkdir-make dir c cs t h ∙ stops, b)
  | inr (sub, t', ran, m) ↦ inr (
    sub,
    t',
    mkdir-make dir c cs t h ∙ ran,
    rw (get_node-walk dir c cs t' h) (rw m.found (rw m.directory refl)),
    mkdir-make dir c cs t' h ∙ make-found dir sub c cs t' m.directory m.found,
    m.tree,
    m.extends,
  )
]
