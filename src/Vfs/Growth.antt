-- ===== src/Vfs/Growth.antt =====
-- What making nodes leaves as it is: a tree that grows keeps every node, and the nodes that are found.
use toy_kernel.Base.{
  ℕ, suc, ◌≤◌, ◌<◌, ◌≡◌, refl, sym, ap, ◌∙◌, true, false, Option, none, some, List, [], ◌∷◌, ◌++◌,
  append-nil, append_assoc, ◌==◌, ==_iff, ◌⊎◌, Bool-cases, inl, inr, if◌then◌else◌, arith, ok,
  ok-inj, some-inj,
}
use toy_kernel.Vfs.{Name, name_eq, simplify_name, Node, Tree, is_directory, find_child, push_node}
use toy_kernel.Vfs.Returns.{simplify_name-returns}

abbrev pub AllBelow : ℕ → List ℕ → Type 0
AllBelow bound [] = Unit {0}
AllBelow bound (n ∷ ns) = (n < bound) × AllBelow bound ns

-- The directories hold nodes that were made, and a parent was made before its node and is a directory.
pub record IsTree (t : Tree) : Type 0 where
  pub below : (n : ℕ) → n < t.count → AllBelow t.count (t.node n).nodes
  pub parents :
      (n p : ℕ)
      → n < t.count
      → (t.node n).parent ≡ some p
      → (p < n) × (is_directory (t.node p).kind ≡ true)

-- A tree that has grown: the nodes are the same, with more nodes behind those of a directory.
pub record Extends (t t' : Tree) : Type 0 where
  pub grown : t.count ≤ t'.count
  pub names : (n : ℕ) → n < t.count → (t'.node n).name ≡ (t.node n).name
  pub kinds : (n : ℕ) → n < t.count → (t'.node n).kind ≡ (t.node n).kind
  pub nodes :
      (n : ℕ) → n < t.count → (more : List ℕ) × ((t'.node n).nodes ≡ (t.node n).nodes ++ more)

pub Extends-refl : (t : Tree) → Extends t t
Extends-refl t = record {
  grown = omega arith;
  names = λ n h. refl;
  kinds = λ n h. refl;
  nodes = λ n h. ([], sym (append-nil _));
}

pub Extends-trans : (t u v : Tree) → Extends t u → Extends u v → Extends t v
Extends-trans t u v a b = record {
  grown = omega (arith, a.grown, b.grown);
  names = λ n h. b.names n (omega (arith, a.grown)) ∙ a.names n h;
  kinds = λ n h. b.kinds n (omega (arith, a.grown)) ∙ a.kinds n h;
  nodes = λ n h.
      let (more, e) = a.nodes n h in
      let (rest, e') = b.nodes n (omega (arith, a.grown)) in
      (more ++ rest, e' ∙ ap (λ x. x ++ rest) e ∙ append_assoc (t.node n).nodes more rest);
}

AllBelow-le : (b b' : ℕ) (ns : List ℕ) → b ≤ b' → AllBelow b ns → AllBelow b' ns
AllBelow-le b b' [] h a = tt
AllBelow-le b b' (n ∷ ns) h a = (omega (arith, a.0), AllBelow-le b b' ns h a.1)

AllBelow-append : (b : ℕ) (ns ms : List ℕ) → AllBelow b ns → AllBelow b ms → AllBelow b (ns ++ ms)
AllBelow-append b [] ms a c = c
AllBelow-append b (n ∷ ns) ms a c = (a.0, AllBelow-append b ns ms a.1 c)

pub name_eq_refl : (c : Name) → name_eq c c ≡ true
unfolding name_eq
name_eq_refl [] = refl
name_eq_refl (x ∷ xs) = ground (arith, name_eq_refl xs)

find_child-step :
    (m : ℕ) (ms : List ℕ) (head name : Name) (t : Tree)
    → simplify_name (t.node m).name ≡ ok name
    → find_child (m ∷ ms) head t ≡ (if name_eq head name then ok (some m) else find_child ms head t)
unfolding find_child
find_child-step m ms head name t ran = rw ran refl

-- The node that is found was made.
pub find_child-below :
    (bound n : ℕ) (ns : List ℕ) (head : Name) (t : Tree)
    → AllBelow bound ns
    → find_child ns head t ≡ ok (some n)
    → n < bound
unfolding find_child
find_child-below bound n [] head t a h = absurd (some-ne-none h)
  where
    some-ne-none : ok none ≡ ok (some n) → ⊥
    some-ne-none e = cc
find_child-below bound n (m ∷ ms) head t a h =
    let (name, ran) = simplify_name-returns (t.node m).name in
    let step = sym (find_child-step m ms head name t ran) ∙ h in
    elim (Bool-cases (name_eq head name)) [
      | inl found ↦ let e : m ≡ n = some-inj (ok-inj (rw found at step)) in omega (arith, a.0)
      | inr other ↦ find_child-below bound n ms head t a.1 (rw other at step)
    ]

pub find_child-returns :
    (ns : List ℕ) (head : Name) (t : Tree) → (found : Option ℕ) × (find_child ns head t ≡ ok found)
unfolding find_child
find_child-returns [] head t = (none, refl)
find_child-returns (m ∷ ms) head t =
    let (name, ran) = simplify_name-returns (t.node m).name in
    let (found, rest) = find_child-returns ms head t in
    elim (Bool-cases (name_eq head name)) [
      | inl same ↦ (some m, rw ran (rw same refl))
      | inr other ↦ (found, rw ran (rw other rest))
    ]

-- A node that is found in a directory is found when the tree has grown.
pub find_child-Extends :
    (n : ℕ) (ns more : List ℕ) (head : Name) (t t' : Tree)
    → ((m : ℕ) → m < t.count → (t'.node m).name ≡ (t.node m).name)
    → AllBelow t.count ns
    → find_child ns head t ≡ ok (some n)
    → find_child (ns ++ more) head t' ≡ ok (some n)
unfolding find_child
find_child-Extends n [] more head t t' names a h = absurd (some-ne-none h)
  where
    some-ne-none : ok none ≡ ok (some n) → ⊥
    some-ne-none e = cc
find_child-Extends n (m ∷ ms) more head t t' names a h =
    let (name, ran) = simplify_name-returns (t.node m).name in
    let step = sym (find_child-step m ms head name t ran) ∙ h in
    find_child-step m (ms ++ more) head name t' (ap simplify_name (names m a.0) ∙ ran)
    ∙ elim (Bool-cases (name_eq head name)) [
      | inl found ↦ rw found (rw found at step)
      | inr other ↦ rw other (find_child-Extends n ms more head t t' names a.1 (rw other at step))
    ]

-- A new node behind the others is found by its name, if none of them is.
pub find_child-append :
    (k : ℕ) (ns : List ℕ) (head : Name) (t t' : Tree)
    → ((m : ℕ) → m < t.count → (t'.node m).name ≡ (t.node m).name)
    → AllBelow t.count ns
    → find_child ns head t ≡ ok none
    → simplify_name (t'.node k).name ≡ ok head
    → find_child (ns ++ k ∷ []) head t' ≡ ok (some k)
unfolding find_child
find_child-append k [] head t t' names a h named = rw named (rw (name_eq_refl head) refl)
find_child-append k (m ∷ ms) head t t' names a h named =
    let (name, ran) = simplify_name-returns (t.node m).name in
    let step = sym (find_child-step m ms head name t ran) ∙ h in
    find_child-step m (ms ++ k ∷ []) head name t' (ap simplify_name (names m a.0) ∙ ran)
    ∙ elim (Bool-cases (name_eq head name)) [
      | inl found ↦ absurd (some-ne-none (rw found at step))
      | inr other ↦ rw other (find_child-append k ms head t t' names a.1 (rw other at step) named)
    ]
  where
    some-ne-none : ok (some m) ≡ ok none → ⊥
    some-ne-none e = cc

-- A node that is made in a directory.
module _ (dir : ℕ) (made : Node) (t : Tree) (inside : dir < t.count) where
  abbrev dir_node : Node
  dir_node = record (t.node dir) { nodes = (t.node dir).nodes ++ (t.count ∷ []) }

  pub push_node-made : (push_node dir made t).node t.count ≡ made
  push_node-made =
      let new_ne : t.count == dir ≡ false = ground arith in
      let same : t.count == t.count ≡ true = ground arith in rw new_ne (rw same refl)

  pub push_node-dir : (push_node dir made t).node dir ≡ dir_node
  push_node-dir =
      let old : dir == t.count ≡ false = ground arith in
      let same : dir == dir ≡ true = ground arith in rw same (rw old refl)

  pub push_node-other :
      (n : ℕ) → n < t.count → n == dir ≡ false → (push_node dir made t).node n ≡ t.node n
  push_node-other n h other =
      let old : n == t.count ≡ false = ground arith in rw other (rw old refl)

  -- A node that was made before is the directory, or is left alone.
  push_node-old :
      (n : ℕ)
      → n < t.count
      → ((n ≡ dir) × ((push_node dir made t).node n ≡ dir_node))
        ⊎ ((push_node dir made t).node n ≡ t.node n)
  push_node-old n h = elim (Bool-cases (n == dir)) [
    | inl same ↦
        let e : n ≡ dir = (==_iff n dir).0 same in
        inl (e, ap (push_node dir made t).node e ∙ push_node-dir)
    | inr other ↦ inr (push_node-other n h other)
  ]

  pub push_node-Extends : Extends t (push_node dir made t)
  push_node-Extends = record {
    grown = omega arith;
    names = λ n h. elim (push_node-old n h) [
      | inl (e, new) ↦ ap (λ x. x.name) new ∙ ap (λ m. (t.node m).name) (sym e)
      | inr same ↦ ap (λ x. x.name) same
    ];
    kinds = λ n h. elim (push_node-old n h) [
      | inl (e, new) ↦ ap (λ x. x.kind) new ∙ ap (λ m. (t.node m).kind) (sym e)
      | inr same ↦ ap (λ x. x.kind) same
    ];
    nodes = λ n h. elim (push_node-old n h) [
      | inl (e, new) ↦ (
        t.count ∷ [],
        ap (λ x. x.nodes) new ∙ ap (λ m. (t.node m).nodes ++ (t.count ∷ [])) (sym e),
      )
      | inr same ↦ ([], ap (λ x. x.nodes) same ∙ sym (append-nil _))
    ];
  }

  -- The same for the parent and for the nodes of any node of the new tree.
  push_node-below :
      IsTree t
      → made.nodes ≡ []
      → (n : ℕ) → n < suc t.count
      → AllBelow (suc t.count) ((push_node dir made t).node n).nodes
  push_node-below w no_nodes n h = elim (Bool-cases (n == t.count)) [
    | inl new ↦
        let e : n ≡ t.count = (==_iff n t.count).0 new in rw e (rw push_node-made (rw no_nodes tt))
    | inr old ↦ elim (push_node-old n (ground (arith, old))) [
      | inl (e, new) ↦ rw new (
          AllBelow-append (suc t.count) (t.node dir).nodes (t.count ∷ [])
            (AllBelow-le t.count (suc t.count) _ (omega arith) (w.below dir inside)) (omega arith))
      | inr same ↦
          rw same
            (AllBelow-le t.count (suc t.count) _ (omega arith) (w.below n (ground (arith, old))))
    ]
  ]

  push_node-parent :
      (n : ℕ) → n < t.count → ((push_node dir made t).node n).parent ≡ (t.node n).parent
  push_node-parent n h = elim (push_node-old n h) [
    | inl (e, new) ↦ ap (λ x. x.parent) new ∙ ap (λ m. (t.node m).parent) (sym e)
    | inr same ↦ ap (λ x. x.parent) same
  ]

  push_node-parents :
      IsTree t
      → ((p : ℕ) → made.parent ≡ some p → (p < t.count) × (is_directory (t.node p).kind ≡ true))
      → (n p : ℕ) → n < suc t.count
      → ((push_node dir made t).node n).parent ≡ some p
      → (p < n) × (is_directory ((push_node dir made t).node p).kind ≡ true)
  push_node-parents w parent n p h is = elim (Bool-cases (n == t.count)) [
    | inl new ↦
        let e : n ≡ t.count = (==_iff n t.count).0 new in
        let (before, directory) = parent p (
          sym (ap (λ x. x.parent) push_node-made)
          ∙ sym (ap (λ m. ((push_node dir made t).node m).parent) e)
          ∙ is) in
        (omega arith, ap is_directory (push_node-Extends.kinds p before) ∙ directory)
    | inr old ↦
        let made_before : n < t.count = ground (arith, old) in
        let (before, directory) =
          w.parents n p made_before (sym (push_node-parent n made_before) ∙ is) in
        (before, ap is_directory (push_node-Extends.kinds p (omega arith)) ∙ directory)
  ]

  pub push_node-IsTree :
      IsTree t
      → made.nodes ≡ []
      → ((p : ℕ) → made.parent ≡ some p → (p < t.count) × (is_directory (t.node p).kind ≡ true))
      → IsTree (push_node dir made t)
  push_node-IsTree w no_nodes parent = record {
    below = push_node-below w no_nodes;
    parents = push_node-parents w parent;
  }
