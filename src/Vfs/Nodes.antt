-- ===== src/Vfs/Nodes.antt =====
-- The nodes of the tree and the operations of `Directory`. A node is found by its number, in the order
-- in which the nodes were made.
use toy_kernel.Base.{
  ℕ, zero, suc, ◌+◌, Bool, true, false, not, ◌&&◌, Option, none, some, List, [], ◌∷◌, ◌++◌, length,
  get_or, take, drop, ◌==◌, if◌then◌else◌, update, Outcome, ok, stop, ◌>>=◌, ◌>>◌, check,
}
use toy_kernel.Vfs.Names.{Name, separator, dot, is_empty, name_eq, find, simplify_name, split_head}

-- `NodeKind`
pub data NodeKind : Type 0 where
  file_kind directory_kind : NodeKind

-- `Node`, with the members of `File` and of `Directory`.
pub record Node : Type 0 where
  pub kind : NodeKind
  pub name : Name
  pub parent : Option ℕ
  pub nodes : List ℕ
  pub contents : List ℕ

-- The nodes that were made are those below `count`.
pub record Tree : Type 0 where
  pub node : ℕ → Node
  pub count : ℕ

abbrev pub is_directory : NodeKind → Bool
is_directory directory_kind = true
is_directory file_kind = false

-- The loop of `GetRootDir`.
unfoldable pub root_loop : (rounds n : ℕ) → Tree → Outcome ℕ
root_loop zero n t = stop
root_loop (suc rounds) n t = elim ((t.node n).parent) [
  | none ↦ ok n
  | some p ↦ root_loop rounds p t
]

-- `GetRootDir`
unfoldable pub get_root_dir : (n : ℕ) → Tree → Outcome ℕ
unfolding root_loop
get_root_dir n t = do root ← root_loop (suc n) n t; check (is_directory (t.node root).kind); ok root

-- The loop of `GetNodeImpl` over the nodes of a directory.
unfoldable pub find_child : (nodes : List ℕ) → (head : Name) → Tree → Outcome (Option ℕ)
find_child [] head t = ok none
find_child (n ∷ ns) head t = do
  simplified ← simplify_name (t.node n).name
  if name_eq head simplified then ok (some n) else find_child ns head t

-- `rtti::dyn_cast_or_null<Directory>`
abbrev pub as_directory : Option ℕ → Tree → Option ℕ
as_directory none t = none
as_directory (some n) t = if is_directory (t.node n).kind then some n else none

abbrev pub as_file : Option ℕ → Tree → Option ℕ
as_file none t = none
as_file (some n) t = if is_directory (t.node n).kind then none else some n

-- `if (auto *subdir = …)`
abbrev pub if_found : Option ℕ → (ℕ → Outcome (Option ℕ)) → Outcome (Option ℕ)
if_found none f = ok none
if_found (some n) f = f n

-- `GetNodeImpl`
unfoldable pub get_node_impl : (rounds dir : ℕ) → Name → Tree → Outcome (Option ℕ)
unfolding get_root_dir find_child
get_node_impl zero dir path t = stop
get_node_impl (suc rounds) dir path t = do
  name ← simplify_name path
  let (head, tail) = split_head name
  let from_root = get_root_dir dir t >>= λ root. get_node_impl rounds root tail t
  let from_head = get_node_impl rounds dir head t >>= λ found.
      if_found (as_directory found t) (λ subdir. get_node_impl rounds subdir tail t)
  if is_empty name
      then ok none
      else if name_eq name (dot ∷ [])
      then ok (some dir)
      else if get_or name 0 0 == separator && length name == 1
      then (get_root_dir dir t >>= λ root. ok (some root))
      else if name_eq head (separator ∷ [])
      then from_root
      else if is_empty tail
      then find_child (t.node dir).nodes head t
      else from_head

-- `Directory::getNode`, `getDir` and `getFile`
unfoldable pub get_node : (dir : ℕ) → Name → Tree → Outcome (Option ℕ)
unfolding get_node_impl
get_node dir path t = get_node_impl (suc (length path)) dir path t

unfoldable pub get_dir : (dir : ℕ) → Name → Tree → Outcome (Option ℕ)
unfolding get_node
get_dir dir path t = get_node dir path t >>= λ found. ok (as_directory found t)

unfoldable pub get_file : (dir : ℕ) → Name → Tree → Outcome (Option ℕ)
unfolding get_node
get_file dir path t = get_node dir path t >>= λ found. ok (as_file found t)

-- A node is made, and pushed to the back of the nodes of `dir`. Its parent is set by its constructor.
abbrev pub push_node : (dir : ℕ) → Node → Tree → Tree
push_node dir made t = record {
  node = update (update t.node t.count made) dir (record (update t.node t.count made dir) {
    nodes = (update t.node t.count made dir).nodes ++ (t.count ∷ []);
  });
  count = suc t.count;
}

-- The directory that `mkdir_once` makes.
abbrev pub new_directory : (dir : ℕ) → Name → Node
new_directory dir c = record {
  kind = directory_kind;
  name = c;
  parent = some dir;
  nodes = [];
  contents = [];
}

-- `mkdir_once` behind its search: the node that was found has to be a directory.
abbrev pub enter_or_make : (dir : ℕ) → Name → Tree → Option ℕ → Outcome (ℕ × Tree)
enter_or_make dir name t none = ok (t.count, push_node dir (new_directory dir name) t)
enter_or_make dir name t (some n) = check (is_directory (t.node n).kind) >> ok (n, t)

-- `Directory::mkdir_once`
unfoldable pub mkdir_once : (dir : ℕ) → Name → Tree → Outcome (ℕ × Tree)
unfolding get_node
mkdir_once dir path t = do
  name ← simplify_name path
  found ← get_node dir name t
  enter_or_make dir name t found

-- The loop of `Directory::mkdir`. A round takes a character at least from the path.
unfoldable pub mkdir_loop : (rounds dir : ℕ) → Name → Tree → Outcome (ℕ × Tree)
unfolding mkdir_once
mkdir_loop rounds dir [] t = ok (dir, t)
mkdir_loop zero dir (c ∷ cs) t = stop
mkdir_loop (suc rounds) dir (c ∷ cs) t = do
  let sep = find separator (c ∷ cs)
  (sub, t1) ← mkdir_once dir (take (sep + 1) (c ∷ cs)) t
  mkdir_loop rounds sub (drop (sep + 1) (c ∷ cs)) t1

-- `Directory::mkdir`
unfoldable pub mkdir : (dir : ℕ) → Name → Tree → Outcome (ℕ × Tree)
unfolding mkdir_loop
mkdir dir name t = simplify_name name >>= λ path. mkdir_loop (length path) dir path t

-- The loop of `Directory::mkfile`: the directory of the file, and the file's own name.
unfoldable pub mkfile_loop : (rounds dir : ℕ) → Name → Tree → Outcome (ℕ × Name × Tree)
unfolding mkdir_once
mkfile_loop zero dir path t = stop
mkfile_loop (suc rounds) dir path t =
    let sep = find separator path in
    let rest = mkdir_once dir (take (sep + 1) path) t >>= λ (sub, t1).
    mkfile_loop rounds sub (drop (sep + 1) path) t1 in
    if sep == length path then ok (dir, path, t) else rest

-- The file that `mkfile` makes. Its parent is the directory that `mkfile` was called on.
abbrev pub new_file : (dir : ℕ) → Name → Node
new_file dir base = record {
  kind = file_kind;
  name = base;
  parent = some dir;
  nodes = [];
  contents = [];
}

-- `Directory::mkfile`
unfoldable pub mkfile : (dir : ℕ) → Name → Tree → Outcome (ℕ × Tree)
mkfile dir name t = do
  path ← simplify_name name
  check (not (get_or path 0 0 == separator))
  (sub, base, t1) ← mkfile_loop (suc (length path)) dir path t
  check (not (is_empty base))
  ok (t1.count, push_node sub (new_file dir base) t1)

-- `File::Write`: `resize` never makes the contents shorter.
unfoldable pub write_file : (file : ℕ) → (bytes : List ℕ) → Tree → Tree
write_file file bytes t = record t {
  node =
      update t.node file
        (record (t.node file) { contents = bytes ++ drop (length bytes) (t.node file).contents });
}
