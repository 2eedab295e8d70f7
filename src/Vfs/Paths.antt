-- ===== src/Vfs/Paths.antt =====
-- The names and paths of utils/vfs.cpp that are simple: names joined by separators, with no white space
-- at an end, no "." and no empty name among them.
use toy_kernel.Base.{
  ℕ, suc, ◌+◌, ◌<◌, ◌≡◌, ◌≢◌, refl, ap, ◌∙◌, Bool, true, false, List, [], ◌∷◌, ◌++◌, length, get_or,
  take, drop, length-append, append-nil, ◌==◌, ==_iff, if◌then◌else◌, arith, ok,
}
use toy_kernel.Vfs.{
  Name, separator, dot, is_empty, name_eq, is_space, inplace_lstrip, last, inplace_rstrip, find,
  without_dot, without_separator, simplify_name, split_head,
}

-- A name of a node that a path can hold.
pub record IsName (c : Name) : Type 0 where
  pub filled : is_empty c ≡ false
  pub no_separator : find separator c ≡ length c
  pub front : is_space (get_or c 0 0) ≡ false
  pub back : is_space (last 0 c) ≡ false
  pub not_dot : name_eq c (dot ∷ []) ≡ false

abbrev pub AllNames : List Name → Type 0
AllNames [] = Unit {0}
AllNames (c ∷ cs) = IsName c × AllNames cs

-- Names joined by separators.
abbrev pub join_path : List Name → Name
join_path [] = []
join_path (c ∷ []) = c
join_path (c ∷ d ∷ ds) = c ++ separator ∷ join_path (d ∷ ds)

inplace_lstrip_id : (p : Name) → is_space (get_or p 0 0) ≡ false → inplace_lstrip p ≡ p
unfolding inplace_lstrip
inplace_lstrip_id [] h = refl
inplace_lstrip_id (c ∷ cs) h = rw h refl

inplace_rstrip_id : (p : Name) → is_space (last 0 p) ≡ false → inplace_rstrip p ≡ ok p
unfolding inplace_rstrip
inplace_rstrip_id [] h = refl
inplace_rstrip_id (c ∷ cs) h = rw h refl

-- A character that `find` finds at the end is the last one.
find-last : (s x : ℕ) (xs : Name) → find s (x ∷ xs) ≡ length xs → last x xs ≡ s
unfolding find
find-last s x [] h = ground arith
find-last s x (y ∷ ys) h = ground (arith, find-last s y ys)

find-absent_last : (s x : ℕ) (xs : Name) → find s (x ∷ xs) ≡ length (x ∷ xs) → last x xs ≢ s
unfolding find
find-absent_last s x [] h e = ground arith
find-absent_last s x (y ∷ ys) h e = ground (arith, find-absent_last s y ys)

without_separator_id : (p : Name) → last 0 p ≢ separator → without_separator p ≡ p
unfolding without_separator
without_separator_id [] h = refl
without_separator_id (x ∷ xs) h = ground (arith, find-last separator x xs)

pub find-append : (s : ℕ) (c r : Name) → find s c ≡ length c → find s (c ++ s ∷ r) ≡ length c
unfolding find
find-append s [] r h = ground arith
find-append s (x ∷ xs) r h = ground (arith, find-append s xs r)

pub take-append : (c r : Name) → take (length c) (c ++ r) ≡ c
take-append [] r = refl
take-append (x ∷ xs) r = ap (λ t. x ∷ t) (take-append xs r)

pub take-append_suc : (c r : Name) (s : ℕ) → take (length c + 1) (c ++ s ∷ r) ≡ c ++ s ∷ []
take-append_suc c r s = let e : length c + 1 ≡ suc (length c) = omega arith in rw e (go c)
  where
    go : (c : Name) → take (suc (length c)) (c ++ s ∷ r) ≡ c ++ s ∷ []
    go [] = refl
    go (x ∷ xs) = ap (λ t. x ∷ t) (go xs)

pub drop-append_suc : (c r : Name) (s : ℕ) → drop (length c + 1) (c ++ s ∷ r) ≡ r
drop-append_suc c r s = let e : length c + 1 ≡ suc (length c) = omega arith in rw e (go c)
  where
    go : (c : Name) → drop (suc (length c)) (c ++ s ∷ r) ≡ r
    go [] = refl
    go (x ∷ xs) = go xs

pub take-all : (c : Name) → take (length c + 1) c ≡ c
take-all c = let e : length c + 1 ≡ suc (length c) = omega arith in rw e (go c)
  where
    go : (c : Name) → take (suc (length c)) c ≡ c
    go [] = refl
    go (x ∷ xs) = ap (λ t. x ∷ t) (go xs)

pub drop-all : (c : Name) → drop (length c + 1) c ≡ []
drop-all c = let e : length c + 1 ≡ suc (length c) = omega arith in rw e (go c)
  where
    go : (c : Name) → drop (suc (length c)) c ≡ []
    go [] = refl
    go (x ∷ xs) = go xs

-- A path that `SimplifyName` leaves alone.
pub record IsSimple (p : Name) : Type 0 where
  pub starts : is_space (get_or p 0 0) ≡ false
  pub ends : is_space (last 0 p) ≡ false
  pub closed : last 0 p ≢ separator
  pub no_dot : without_dot p ≡ p

if_same {ℓ} : {A : Type ℓ} (b : Bool) (x : A) → (if b then x else x) ≡ x
if_same true x = refl
if_same false x = refl

pub simplify_name-IsSimple : (p : Name) → IsSimple p → simplify_name p ≡ ok p
unfolding simplify_name
simplify_name-IsSimple p h = rw (inplace_lstrip_id p h.starts) (
    rw (inplace_rstrip_id p h.ends) (
      rw (h.no_dot) (
        rw (without_separator_id p h.closed)
          (ap (λ t. if is_empty p then ok p else t) (if_same _ (ok p)) ∙ if_same _ (ok p)))))

last-append : (x s : ℕ) (xs r : Name) → last x (xs ++ s ∷ r) ≡ last s r
last-append x s [] r = refl
last-append x s (y ∷ ys) r = last-append y s ys r

-- The "./" that `SimplifyName` takes away is not at the start of a name.
without_dot-append : (c r : Name) → IsName c → without_dot (c ++ separator ∷ r) ≡ c ++ separator ∷ r
unfolding without_dot name_eq find
without_dot-append [] r h = absurd (ground (arith, h.filled))
without_dot-append (x ∷ []) r h = ground (arith, h.not_dot)
without_dot-append (x ∷ y ∷ ys) r h = ground (arith, h.no_separator)

pub IsName-IsSimple : (c : Name) → IsName c → IsSimple c
unfolding without_dot find
IsName-IsSimple [] h = absurd (ground (arith, h.filled))
IsName-IsSimple (x ∷ []) h = record {
  starts = h.front;
  ends = h.back;
  closed = find-absent_last separator x [] h.no_separator;
  no_dot = refl;
}
IsName-IsSimple (x ∷ y ∷ ys) h = record {
  starts = h.front;
  ends = h.back;
  closed = find-absent_last separator x (y ∷ ys) h.no_separator;
  no_dot = ground (arith, h.no_separator);
}

pub IsSimple-append :
    (c : Name) (y : ℕ) (ys : Name)
    → IsName c
    → IsSimple (y ∷ ys)
    → IsSimple (c ++ separator ∷ y ∷ ys)
IsSimple-append [] y ys h k = absurd (ground (arith, h.filled))
IsSimple-append (x ∷ xs) y ys h k = record {
  starts = h.front;
  ends = rw (last-append x separator xs (y ∷ ys)) k.ends;
  closed = rw (last-append x separator xs (y ∷ ys)) k.closed;
  no_dot = without_dot-append (x ∷ xs) (y ∷ ys) h;
}

pub length-name : (c : Name) → IsName c → 0 < length c
length-name [] h = absurd (ground (arith, h.filled))
length-name (x ∷ xs) h = omega arith

pub first-ne : (c r : Name) → IsName c → get_or (c ++ r) 0 0 == separator ≡ false
unfolding find
first-ne [] r h = absurd (ground (arith, h.filled))
first-ne (x ∷ xs) r h = ground (arith, h.no_separator)

pub first-name : (c : Name) → IsName c → get_or c 0 0 == separator ≡ false
first-name c h = rw (← append-nil c) (first-ne c [] h)

pub root-ne : (c : Name) → IsName c → name_eq c (separator ∷ []) ≡ false
unfolding name_eq find
root-ne [] h = refl
root-ne (x ∷ xs) h = ground (arith, h.no_separator)

pub dot-ne : (c r : Name) → IsName c → name_eq (c ++ separator ∷ r) (dot ∷ []) ≡ false
unfolding name_eq
dot-ne [] r h = absurd (ground (arith, h.filled))
dot-ne (x ∷ []) r h = ground arith
dot-ne (x ∷ y ∷ ys) r h = ground arith

pub filled-append : (c r : Name) → IsName c → is_empty (c ++ r) ≡ false
filled-append [] r h = absurd (ground (arith, h.filled))
filled-append (x ∷ xs) r h = refl

without_separator-last :
    (p : Name) (n : ℕ)
    → find separator p ≡ n
    → length p ≡ suc n
    → 0 < n
    → without_separator p ≡ take n p
unfolding without_separator
without_separator-last p n f l pos = ground arith

-- `mkdir_once` is called with a separator behind the name.
pub simplify_name-separator : (c : Name) → IsName c → simplify_name (c ++ separator ∷ []) ≡ ok c
unfolding simplify_name is_space
simplify_name-separator [] h = absurd (ground (arith, h.filled))
simplify_name-separator (x ∷ xs) h =
    let p = x ∷ xs ++ separator ∷ [] in
    let strip : inplace_rstrip p ≡ ok p =
      inplace_rstrip_id p (rw (last-append x separator xs []) refl) in
    let long : length p ≡ suc (length (x ∷ xs)) =
      omega (arith, length-append {0} (x ∷ xs) (separator ∷ [])) in
    let cut : without_separator p ≡ x ∷ xs =
      without_separator-last p (length (x ∷ xs)) (find-append separator (x ∷ xs) [] h.no_separator)
        long (omega arith)
      ∙ take-append (x ∷ xs) (separator ∷ []) in
    let more : length p == 1 ≡ false = ground (arith, long) in
    rw (inplace_lstrip_id p h.front)
      (rw strip (rw (without_dot-append (x ∷ xs) [] h) (rw cut (rw more refl))))

pub split_head-name : (c : Name) → IsName c → split_head c ≡ (c, [])
unfolding split_head
split_head-name c h =
    rw (first-name c h) (rw ((==_iff (find separator c) (length c)).1 h.no_separator) refl)

pub split_head-append : (c r : Name) → IsName c → split_head (c ++ separator ∷ r) ≡ (c, r)
unfolding split_head
split_head-append c r h =
    let p = c ++ separator ∷ r in
    let at : find separator p ≡ length c = find-append separator c r h.no_separator in
    let short : length c == length p ≡ false =
      ground (arith, length-append {0} c (separator ∷ r)) in
    rw (first-ne c (separator ∷ r) h) (
      rw at
        (rw short (rw (take-append c (separator ∷ r)) (rw (drop-append_suc c r separator) refl))))
