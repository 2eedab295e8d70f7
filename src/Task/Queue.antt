-- ===== src/Task/Queue.antt =====
-- The ready queue: its last node, its distinct tasks, and the removal of a node.
use toy_kernel.Base.{
  ◌≡◌, refl, Bool, true, false, ◌||◌, Option, none, some, List, [], ◌∷◌, ◌++◌, ◌==◌, arith,
}
use toy_kernel.Task.Types.{TaskPtr}
use toy_kernel.Task.Schedule.{remove_node}

-- The node at the end of the list.
abbrev pub get_last? : List TaskPtr → Option TaskPtr
get_last? [] = none
get_last? (x ∷ []) = some x
get_last? (x ∷ y ∷ r) = get_last? (y ∷ r)

abbrev pub has : TaskPtr → List TaskPtr → Bool
has p [] = false
has p (q ∷ qs) = q == p || has p qs

abbrev pub Distinct : List TaskPtr → Type 0
Distinct [] = Unit {0}
Distinct (q ∷ qs) = (has q qs ≡ false) × Distinct qs

abbrev pub All : (TaskPtr → Type 0) → List TaskPtr → Type 0
All P [] = Unit {0}
All P (q ∷ qs) = P q × All P qs

-- The queue without its last node.
abbrev pub drop_last : List TaskPtr → List TaskPtr
drop_last [] = []
drop_last (x ∷ []) = []
drop_last (x ∷ y ∷ r) = x ∷ drop_last (y ∷ r)

-- One turn of the round: the head goes to the end.
abbrev pub rotate : List TaskPtr → List TaskPtr
rotate [] = []
rotate (x ∷ xs) = xs ++ (x ∷ [])

pub get_last?-append : (xs : List TaskPtr) (p : TaskPtr) → get_last? (xs ++ (p ∷ [])) ≡ some p
get_last?-append [] p = refl
get_last?-append (x ∷ []) p = refl
get_last?-append (x ∷ y ∷ r) p = get_last?-append (y ∷ r) p

pub has-append : (p : TaskPtr) (xs ys : List TaskPtr) → has p (xs ++ ys) ≡ (has p xs || has p ys)
has-append p [] ys = refl
has-append p (x ∷ xs) ys = ground (arith, has-append p xs ys)

pub has_of_get_last? : (p : TaskPtr) (xs : List TaskPtr) → get_last? xs ≡ some p → has p xs ≡ true
has_of_get_last? p [] h = cc
has_of_get_last? p (x ∷ []) h = ground arith
has_of_get_last? p (x ∷ y ∷ r) h = ground (arith, has_of_get_last? p (y ∷ r) h)

pub Distinct-append :
    (p : TaskPtr) (xs : List TaskPtr) → Distinct xs → has p xs ≡ false → Distinct (xs ++ (p ∷ []))
Distinct-append p [] d h = (refl, tt)
Distinct-append p (x ∷ xs) d h =
    (ground (arith, has-append x xs (p ∷ [])), Distinct-append p xs d.1 (ground arith))

module _ (P : TaskPtr → Type 0) where
  pub All-append : (p : TaskPtr) (xs : List TaskPtr) → All P xs → P p → All P (xs ++ (p ∷ []))
  All-append p [] a h = (h, tt)
  All-append p (x ∷ xs) a h = (a.0, All-append p xs a.1 h)

  pub All-drop_last : (xs : List TaskPtr) → All P xs → All P (drop_last xs)
  All-drop_last [] a = tt
  All-drop_last (x ∷ []) a = tt
  All-drop_last (x ∷ y ∷ r) a = (a.0, All-drop_last (y ∷ r) a.1)

  pub All-mono :
      {Q : TaskPtr → Type 0} (xs : List TaskPtr)
      → All P xs
      → ((p : TaskPtr) → has p xs ≡ true → P p → Q p)
      → All Q xs
  All-mono [] a f = tt
  All-mono (x ∷ xs) a f = (f x (ground arith) a.0, All-mono xs a.1 (λ p m. f p (ground arith)))

-- The removal finds the only node of the last task.
pub remove_node-last :
    (p q : TaskPtr) (xs : List TaskPtr)
    → get_last? xs ≡ some p
    → Distinct xs
    → remove_node p (xs ++ (q ∷ [])) ≡ some (drop_last xs ++ (q ∷ []))
unfolding remove_node
remove_node-last p q [] h d = cc
remove_node-last p q (x ∷ []) h d = ground arith
remove_node-last p q (x ∷ y ∷ r) h d =
    ground (arith, remove_node-last p q (y ∷ r) h d.1, has_of_get_last? p (y ∷ r) h)

pub has-drop_last :
    (p x : TaskPtr) (xs : List TaskPtr)
    → get_last? xs ≡ some p
    → Distinct xs
    → has x xs ≡ (has x (drop_last xs) || (p == x))
has-drop_last p x [] h d = cc
has-drop_last p x (y ∷ []) h d = ground arith
has-drop_last p x (y ∷ z ∷ r) h d = ground (arith, has-drop_last p x (z ∷ r) h d.1)

pub has-last-drop_last :
    (p : TaskPtr) (xs : List TaskPtr)
    → get_last? xs ≡ some p
    → Distinct xs
    → has p (drop_last xs) ≡ false
has-last-drop_last p [] h d = cc
has-last-drop_last p (y ∷ []) h d = refl
has-last-drop_last p (y ∷ z ∷ r) h d =
    ground (arith, has-last-drop_last p (z ∷ r) h d.1, has_of_get_last? p (z ∷ r) h)

pub Distinct-drop_last :
    (p : TaskPtr) (xs : List TaskPtr)
    → get_last? xs ≡ some p
    → Distinct xs
    → Distinct (drop_last xs)
Distinct-drop_last p [] h d = tt
Distinct-drop_last p (y ∷ []) h d = tt
Distinct-drop_last p (y ∷ z ∷ r) h d =
    (ground (arith, has-drop_last p y (z ∷ r) h d.1), Distinct-drop_last p (z ∷ r) h d.1)
