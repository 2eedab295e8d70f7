-- ===== src/Vfs/Total.antt =====
-- `getNode` returns for every path.
use toy_kernel.Base.{
  ℕ, zero, suc, ◌+◌, ◌≤◌, ◌<◌, ◌≡◌, refl, ap, ◌∙◌, true, false, ◌&&◌, Option, none, some, [], ◌∷◌,
  length, get_or, length-take, length-drop, ◌==◌, Bool-cases, Option-cases, inl, inr, arith,
  Outcome, ok, >>=-eq-ok, ok-inj,
}
use toy_kernel.Vfs.{
  Name, separator, dot, is_empty, name_eq, is_space, last, without_last, rstrip_loop,
  inplace_lstrip, inplace_rstrip, find, without_dot, without_separator, simplify_name, split_head,
  Tree, is_directory, root_loop, get_root_dir, find_child, as_directory, if_found, get_node_impl,
  get_node,
}
use toy_kernel.Vfs.Returns.{simplify_name-returns, without_last-shorter}
use toy_kernel.Vfs.Growth.{IsTree, find_child-below, find_child-returns}

inplace_lstrip-le : (p : Name) → length (inplace_lstrip p) ≤ length p
unfolding inplace_lstrip
inplace_lstrip-le [] = omega arith
inplace_lstrip-le (c ∷ cs) = ground (arith, inplace_lstrip-le cs)

rstrip_loop-le :
    (rounds : ℕ) (p name : Name) → rstrip_loop rounds p ≡ ok name → length name ≤ length p
unfolding rstrip_loop
rstrip_loop-le zero [] name h = absurd (cc)
rstrip_loop-le (suc rounds) [] name h = absurd (cc)
rstrip_loop-le zero (c ∷ cs) name h = absurd (cc)
rstrip_loop-le (suc rounds) (c ∷ cs) name h = elim (Bool-cases (is_space (last c cs))) [
  | inl more ↦ omega (
    arith,
    rstrip_loop-le rounds (without_last c cs) name (rw more at h),
    without_last-shorter c cs,
  )
  | inr done ↦ let e : c ∷ cs ≡ name = ok-inj (rw done at h) in rw (← e) (omega arith)
]

inplace_rstrip-le : (p name : Name) → inplace_rstrip p ≡ ok name → length name ≤ length p
unfolding inplace_rstrip
inplace_rstrip-le [] name h = let e : [] ≡ name = ok-inj h in rw (← e) (omega arith)
inplace_rstrip-le (c ∷ cs) name h = rstrip_loop-le (length (c ∷ cs)) (c ∷ cs) name h

without_dot-le : (p : Name) → length (without_dot p) ≤ length p
unfolding without_dot
without_dot-le p = ground (arith, length-drop {0} 2 p)

without_separator-le : (p : Name) → length (without_separator p) ≤ length p
unfolding without_separator
without_separator-le p = ground (arith, length-take {0} (find separator p) p)

-- `SimplifyName` never makes a name longer.
pub simplify_name-le : (p name : Name) → simplify_name p ≡ ok name → length name ≤ length p
unfolding simplify_name
simplify_name-le p name h =
    let (n, ran, rest) = >>=-eq-ok (inplace_rstrip (inplace_lstrip p)) _ h in
    let shorter : length n ≤ length p =
      omega (arith, inplace_lstrip-le p, inplace_rstrip-le (inplace_lstrip p) n ran) in
    elim (Bool-cases (is_empty n)) [
      | inl empty ↦ let e : n ≡ name = ok-inj (rw empty at rest) in rw (← e) shorter
      | inr filled ↦ elim (Bool-cases (length n == 1 && get_or n 0 0 == dot)) [
        | inl only ↦ let e : n ≡ name = ok-inj (rw only at (rw filled at rest)) in rw (← e) shorter
        | inr other ↦
            let e : without_separator (without_dot n) ≡ name =
              ok-inj (rw other at (rw filled at rest)) in
            rw (← e)
              (omega (arith, shorter, without_separator-le (without_dot n), without_dot-le n))
      ]
    ]

find-le : (c : ℕ) (p : Name) → find c p ≤ length p
unfolding find
find-le c [] = omega arith
find-le c (x ∷ xs) = ground (arith, find-le c xs)

tail-shorter : (name : Name) → is_empty name ≡ false → length (split_head name).1 < length name
unfolding split_head
tail-shorter [] h = absurd (ground (arith, h))
tail-shorter (x ∷ xs) h =
    ground
      (arith, length-drop {0} (find separator (x ∷ xs) + 1) (x ∷ xs), length-drop {0} 1 (x ∷ xs))

head-shorter :
    (name : Name)
    → is_empty (split_head name).1 ≡ false
    → name_eq (split_head name).0 (separator ∷ []) ≡ false
    → length (split_head name).0 < length name
unfolding split_head name_eq
head-shorter name h k =
    ground (arith, find-le separator name, length-take {0} (find separator name) name)

root_loop-returns :
    (rounds n : ℕ) (t : Tree)
    → IsTree t
    → n < t.count
    → n < rounds
    → is_directory (t.node n).kind ≡ true
    → (root : ℕ) × (root_loop rounds n t ≡ ok root)
      × (root < t.count)
      × (is_directory (t.node root).kind ≡ true)
unfolding root_loop
root_loop-returns zero n t w inside enough d = absurd (omega arith)
root_loop-returns (suc rounds) n t w inside enough d = elim (Option-cases (t.node n).parent) [
  | inl top ↦ (n, rw (top, root_loop) refl, inside, d)
  | inr (p, is) ↦
      let (before, directory) = w.parents n p inside is in
      let (root, ran, r, k) =
        root_loop-returns rounds p t w (omega (arith, before)) (omega (arith, before)) directory in
      (root, rw (is, root_loop) ran, r, k)
]

get_root_dir-returns :
    (n : ℕ) (t : Tree)
    → IsTree t
    → n < t.count
    → is_directory (t.node n).kind ≡ true
    → (root : ℕ) × (get_root_dir n t ≡ ok root)
      × (root < t.count)
      × (is_directory (t.node root).kind ≡ true)
unfolding get_root_dir
get_root_dir-returns n t w inside d =
    let (root, ran, r, k) = root_loop-returns (suc n) n t w inside (omega arith) d in
    (root, rw ran (rw k refl), r, k)

abbrev pub IsIn : Tree → Option ℕ → Type 0
IsIn t none = Unit {0}
IsIn t (some n) = n < t.count

abbrev pub ReturnsIn : Tree → Outcome (Option ℕ) → Type 0
ReturnsIn t o = (found : Option ℕ) × (o ≡ ok found) × IsIn t found

find_child-ReturnsIn :
    (dir : ℕ) (head : Name) (t : Tree)
    → IsTree t
    → dir < t.count
    → ReturnsIn t (find_child (t.node dir).nodes head t)
find_child-ReturnsIn dir head t w inside =
    let (found, ran) = find_child-returns (t.node dir).nodes head t in
    elim (Option-cases found) [
      | inl nothing ↦ (none, ran ∙ ap ok nothing, tt)
      | inr (n, is) ↦
          let h = ran ∙ ap ok is in
          (some n, h, find_child-below t.count n (t.node dir).nodes head t (w.below dir inside) h)
    ]

-- The search of the rest of the path in what the head is.
then-ReturnsIn :
    (t : Tree) (found : Option ℕ) (next : ℕ → Outcome (Option ℕ))
    → IsIn t found
    → ((n : ℕ) → n < t.count → is_directory (t.node n).kind ≡ true → ReturnsIn t (next n))
    → ReturnsIn t (if_found (as_directory found t) next)
then-ReturnsIn t none next h each = (none, refl, tt)
then-ReturnsIn t (some n) next h each = elim (Bool-cases (is_directory (t.node n).kind)) [
  | inl directory ↦ rw directory (each n h directory)
  | inr file ↦ rw file (none, refl, tt)
]

get_node_impl-ReturnsIn :
    (rounds dir : ℕ) (path : Name) (t : Tree)
    → IsTree t
    → dir < t.count
    → is_directory (t.node dir).kind ≡ true
    → length path < rounds
    → ReturnsIn t (get_node_impl rounds dir path t)
unfolding get_node_impl
get_node_impl-ReturnsIn zero dir path t w inside d enough = absurd (omega arith)
get_node_impl-ReturnsIn (suc rounds) dir path t w inside d enough =
    let (name, named) = simplify_name-returns path in
    let head = (split_head name).0 in
    let tail = (split_head name).1 in
    let shorter = simplify_name-le path name named in
    let (root, r, r_inside, r_dir) = get_root_dir-returns dir t w inside d in
    rw named (elim (Bool-cases (is_empty name)) [
      | inl empty ↦ rw empty (none, refl, tt)
      | inr filled ↦ rw filled (elim (Bool-cases (name_eq name (dot ∷ []))) [
        | inl here ↦ rw here (some dir, refl, inside)
        | inr other ↦
            rw other (elim (Bool-cases (get_or name 0 0 == separator && length name == 1)) [
              | inl top ↦ rw top (rw r (some root, refl, r_inside))
              | inr below ↦ rw below (elim (Bool-cases (name_eq head (separator ∷ []))) [
                | inl from_root ↦ rw from_root (
                    rw r (
                      get_node_impl-ReturnsIn rounds root tail t w r_inside r_dir
                        (omega (arith, shorter, tail-shorter name filled))))
                | inr relative ↦ rw relative (elim (Bool-cases (is_empty tail)) [
                  | inl single ↦ rw single (find_child-ReturnsIn dir head t w inside)
                  | inr nested ↦
                      let (found, ran, h) =
                        get_node_impl-ReturnsIn rounds dir head t w inside d
                          (omega (arith, shorter, head-shorter name nested relative)) in
                      rw nested (
                        rw ran (
                          then-ReturnsIn t found (λ sub. get_node_impl rounds sub tail t) h
                            (λ n i k.
                              get_node_impl-ReturnsIn rounds n tail t w i k
                                (omega (arith, shorter, tail-shorter name filled)))))
                ])
              ])
            ])
      ])
    ])

-- In a well-formed tree `getNode` returns for every path, absolute or not and with any names in it:
-- no path makes it read before a string, search without end or cast a file to a directory, and what
-- it finds is a node of the tree.
pub get_node-returns :
    (dir : ℕ) (path : Name) (t : Tree)
    → IsTree t
    → dir < t.count
    → is_directory (t.node dir).kind ≡ true
    → ReturnsIn t (get_node dir path t)
unfolding get_node
get_node-returns dir path t w inside d =
    get_node_impl-ReturnsIn (suc (length path)) dir path t w inside d (omega arith)
