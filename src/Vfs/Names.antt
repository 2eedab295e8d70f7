-- ===== src/Vfs/Names.antt =====
-- The names and paths of utils/vfs.cpp. A `std::string` is the list of its characters, without the null
-- behind them.
use toy_kernel.Base.{
  ℕ, zero, suc, ◌+◌, ◌-◌, Bool, true, false, ◌&&◌, ◌||◌, List, [], ◌∷◌, length, get_or, take, drop,
  ◌==◌, leb, if◌then◌else◌, Outcome, ok, stop, ◌>>=◌,
}

abbrev pub Name : Type 0
Name = List ℕ

-- `kPathSeparator`
abbrev pub separator : ℕ
separator = b'/'

abbrev pub dot : ℕ
dot = b'.'

abbrev pub is_empty : Name → Bool
is_empty [] = true
is_empty (c ∷ cs) = false

-- `operator==` of two strings.
unfoldable pub name_eq : Name → Name → Bool
name_eq [] [] = true
name_eq [] (d ∷ ds) = false
name_eq (c ∷ cs) [] = false
name_eq (c ∷ cs) (d ∷ ds) = c == d && name_eq cs ds

-- `isspace`
unfoldable pub is_space : ℕ → Bool
is_space c = c == 32 || c == 12 || c == 10 || c == 13 || c == 9 || c == 11

-- `InplaceLStrip`
unfoldable pub inplace_lstrip : Name → Name
unfolding is_space
inplace_lstrip [] = []
inplace_lstrip (c ∷ cs) = if is_space c then inplace_lstrip cs else c ∷ cs

-- The last of `c ∷ cs`, and what is in front of it.
module _ {ℓ} {A : Type ℓ} where
  abbrev pub last : A → List A → A
  last c [] = c
  last c (d ∷ ds) = last d ds

  abbrev pub without_last : A → List A → List A
  without_last c [] = []
  without_last c (d ∷ ds) = c ∷ without_last d ds

-- The loop of `InplaceRStrip`. The read before the start of an empty string is a stop.
unfoldable pub rstrip_loop : (rounds : ℕ) → Name → Outcome Name
unfolding is_space
rstrip_loop rounds [] = stop
rstrip_loop zero (c ∷ cs) = stop
rstrip_loop (suc rounds) (c ∷ cs) =
    let rest = rstrip_loop rounds (without_last c cs) in
    if is_space (last c cs) then rest else ok (c ∷ cs)

-- `InplaceRStrip`
unfoldable pub inplace_rstrip : Name → Outcome Name
unfolding rstrip_loop
inplace_rstrip path = if is_empty path then ok path else rstrip_loop (length path) path

-- `path.find(c)`, as the distance from the start.
unfoldable pub find : (c : ℕ) → Name → ℕ
find c [] = 0
find c (x ∷ xs) = if x == c then 0 else suc (find c xs)

-- `SimplifyName` from the removal of a leading "./" on, in two parts.
unfoldable pub without_dot : Name → Name
without_dot name =
    if leb 2 (length name) && get_or name 0 0 == dot && get_or name 1 0 == separator
    then drop 2 name
    else name

unfoldable pub without_separator : Name → Name
unfolding find
without_separator name =
    let found = find separator name in
    if found == length name
    then name
    else if found == 0 && length name == 1
    then name
    else if found == length name - 1
    then take found name
    else name

-- `SimplifyName`
unfoldable pub simplify_name : Name → Outcome Name
unfolding inplace_lstrip inplace_rstrip without_dot without_separator
simplify_name path = do
  name ← inplace_rstrip (inplace_lstrip path)
  if is_empty name
      then ok name
      else if length name == 1 && get_or name 0 0 == dot
      then ok name
      else ok (without_separator (without_dot name))

-- `SplitHead`
unfoldable pub split_head : Name → Name × Name
unfolding find
split_head path =
    if get_or path 0 0 == separator
    then (separator ∷ [], drop 1 path)
    else let sep = find separator path in
      if sep == length path then (path, []) else (take sep path, drop (sep + 1) path)
