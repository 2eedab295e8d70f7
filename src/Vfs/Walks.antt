-- ===== src/Vfs/Walks.antt =====
-- Directories that are made along a path, and what is found along it.
use toy_kernel.Base.{
  ℕ, ◌<◌, ◌≡◌, ap, ◌∙◌, true, false, none, some, List, [], ◌∷◌, Bool-cases, Option-cases, ◌⊎◌, inl,
  inr, ok, stop, ok-inj, some-inj,
}
use toy_kernel.Vfs.{Name, Tree, is_directory, find_child}
use toy_kernel.Vfs.Lookup.{walk}
use toy_kernel.Vfs.Growth.{
  IsTree, Extends, find_child-below, find_child-Extends, find_child-returns,
}
use toy_kernel.Vfs.Make.{make}

-- On the way along the names a node is found that is no directory.
abbrev pub IsBlocked : (dir : ℕ) → List Name → Tree → Type 0
IsBlocked dir [] t = ⊥
IsBlocked dir (c ∷ cs) t =
    (n : ℕ) × (find_child (t.node dir).nodes c t ≡ ok (some n))
    × ((is_directory (t.node n).kind ≡ false) ⊎ IsBlocked n cs t)

-- What making the directories of a path comes to: the tree has grown, and `sub` is found.
pub record IsMade (dir : ℕ) (cs : List Name) (t : Tree) (sub : ℕ) (t' : Tree) : Type 0 where
  pub extends : Extends t t'
  pub tree : IsTree t'
  pub inside : sub < t'.count
  pub directory : is_directory (t'.node sub).kind ≡ true
  pub found : walk dir cs t' ≡ ok (some sub)
  pub fresh : (t' ≡ t) ⊎ ((t'.node sub).nodes ≡ [])

abbrev pub Made : (dir : ℕ) → List Name → Tree → Type 0
Made dir cs t =
    ((make dir cs t ≡ stop) × IsBlocked dir cs t)
    ⊎ ((sub : ℕ) × (t' : Tree) × (make dir cs t ≡ ok (sub, t')) × IsMade dir cs t sub t')

-- A directory that is found leads on to the rest of the path.
pub walk-found :
    (dir n sub : ℕ) (c : Name) (cs : List Name) (t : Tree)
    → find_child (t.node dir).nodes c t ≡ ok (some n)
    → is_directory (t.node n).kind ≡ true
    → walk n cs t ≡ ok (some sub)
    → walk dir (c ∷ cs) t ≡ ok (some sub)
walk-found dir n sub c [] t h d w = h ∙ w
walk-found dir n sub c (x ∷ xs) t h d w = rw h (rw d w)

-- The node of a name is still found when the tree has grown behind it.
pub still_found :
    (dir n : ℕ) (c : Name) (t t' : Tree)
    → IsTree t
    → dir < t.count
    → Extends t t'
    → find_child (t.node dir).nodes c t ≡ ok (some n)
    → find_child (t'.node dir).nodes c t' ≡ ok (some n)
still_found dir n c t t' w inside e h =
    let (more, same) = e.nodes dir inside in
    rw same (find_child-Extends n (t.node dir).nodes more c t t' e.names (w.below dir inside) h)

-- What is found along a path is found when the tree has grown.
pub walk-Extends :
    (dir sub : ℕ) (cs : List Name) (t t' : Tree)
    → IsTree t
    → dir < t.count
    → Extends t t'
    → walk dir cs t ≡ ok (some sub)
    → walk dir cs t' ≡ ok (some sub)
walk-Extends dir sub [] t t' w inside e h = h
walk-Extends dir sub (c ∷ []) t t' w inside e h = still_found dir sub c t t' w inside e h
walk-Extends dir sub (c ∷ x ∷ xs) t t' w inside e h =
    let (found, search) = find_child-returns (t.node dir).nodes c t in
    elim (Option-cases found) [
      | inl none_found ↦ absurd (none-ne-some (rw (search ∙ ap ok none_found) at h))
      | inr (n, is) ↦ elim (Bool-cases (is_directory (t.node n).kind)) [
        | inl directory ↦
            let s = search ∙ ap ok is in
            let n_inside =
              find_child-below t.count n (t.node dir).nodes c t (w.below dir inside) s in
            let rest =
              walk-Extends n sub (x ∷ xs) t t' w n_inside e (rw directory at (rw s at h)) in
            walk-found dir n sub c (x ∷ xs) t' (still_found dir n c t t' w inside e s)
              (ap is_directory (e.kinds n n_inside) ∙ directory) rest
        | inr file ↦ absurd (none-ne-some (rw file at (rw (search ∙ ap ok is) at h)))
      ]
    ]
  where
    none-ne-some : ok none ≡ ok (some sub) → ⊥
    none-ne-some e = cc

-- A directory with no nodes blocks no path.
pub not-IsBlocked :
    (dir : ℕ) (cs : List Name) (t : Tree) → (t.node dir).nodes ≡ [] → IsBlocked dir cs t → ⊥
unfolding find_child
not-IsBlocked dir [] t none_in b = b
not-IsBlocked dir (c ∷ cs) t none_in (n, h, b) = none-ne-some (rw none_in at h)
  where
    none-ne-some : ok none ≡ ok (some n) → ⊥
    none-ne-some e = cc

-- From a directory with no nodes no other node is found.
pub walk-empty :
    (dir sub : ℕ) (cs : List Name) (t : Tree)
    → (t.node dir).nodes ≡ []
    → walk dir cs t ≡ ok (some sub)
    → (t.node sub).nodes ≡ []
unfolding find_child
walk-empty dir sub [] t none_in w = let e : dir ≡ sub = some-inj (ok-inj w) in rw (← e) none_in
walk-empty dir sub (c ∷ []) t none_in w = absurd (none-ne-some (rw none_in at w))
  where
    none-ne-some : ok none ≡ ok (some sub) → ⊥
    none-ne-some e = cc
walk-empty dir sub (c ∷ d ∷ ds) t none_in w = absurd (none-ne-some (rw none_in at w))
  where
    none-ne-some : ok none ≡ ok (some sub) → ⊥
    none-ne-some e = cc
