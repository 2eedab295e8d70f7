-- ===== src/Vfs/Tests.antt =====
-- The tree of files at concrete paths, and a small archive.
use toy_kernel.Base.{
  ℕ, ◌<◌, ◌≡◌, refl, none, some, List, [], ◌∷◌, length, replicate, ◌⊎◌, arith, ok, stop, ◌>>=◌,
}
use toy_kernel.Vfs.{
  Name, is_space, name_eq, find, Tree, simplify_name, split_head, get_node, get_dir, mkdir,
  mkdir_loop, mkfile, mkfile_loop, root_tree, parse_ustar,
}
use toy_kernel.Vfs.Paths.{IsName, AllNames, join_path}
use toy_kernel.Vfs.Lookup.{walk, get_node-walk}
use toy_kernel.Vfs.Growth.{IsTree, Extends}
use toy_kernel.Vfs.Walks.{IsBlocked}
use toy_kernel.Vfs.Directories.{mkdir-get_dir}
use toy_kernel.Vfs.Files.{IsFiled, mkfile-IsFiled}
use toy_kernel.Vfs.Total.{ReturnsIn, get_node-returns}
use toy_kernel.Vfs.Fields.{Header, NoNull, IsHeader}
use toy_kernel.Vfs.Archive.{Entry, directory, file, AllEntries, archive, build, parse_ustar-build}

abbrev a : Name
a = b'a' ∷ []

abbrev b : Name
b = b'b' ∷ []

-- "a/b"
abbrev path_ab : Name
path_ab = b'a' ∷ b'/' ∷ b'b' ∷ []

test_simplify : simplify_name (b' ' ∷ b'.' ∷ b'/' ∷ b'a' ∷ b'/' ∷ b' ' ∷ []) ≡ ok a
unfolding simplify_name
test_simplify = refl

test_split : split_head path_ab ≡ (a, b)
unfolding split_head
test_split = refl

test_mkdir : (mkdir 0 path_ab root_tree >>= λ (d, t). get_dir 0 path_ab t) ≡ ok (some 2)
unfolding mkdir get_dir mkdir_loop simplify_name name_eq split_head
test_mkdir = refl

-- "a/./b" makes a directory with an empty name, in which no path but "/" or "." finds anything.
test_dot :
    (mkdir 0 (b'a' ∷ b'/' ∷ b'.' ∷ b'/' ∷ b'b' ∷ []) root_tree >>= λ (d, t). get_dir 0 path_ab t)
    ≡ ok none
unfolding mkdir get_dir mkdir_loop simplify_name name_eq split_head
test_dot = refl

-- The file "a/b" says that its parent is the root directory.
test_mkfile : (mkfile 0 path_ab root_tree >>= λ (f, t). ok (t.node f).parent) ≡ ok (some 0)
unfolding mkfile mkfile_loop get_dir simplify_name name_eq split_head
test_mkfile = refl

root_tree-IsTree : IsTree root_tree
root_tree-IsTree = record { below = λ n h. tt; parents = λ n p h e. cc }

a-IsName : IsName a
unfolding is_space name_eq find
a-IsName = record { filled = refl; no_separator = refl; front = refl; back = refl; not_dot = refl }

b-IsName : IsName b
unfolding is_space name_eq find
b-IsName = record { filled = refl; no_separator = refl; front = refl; back = refl; not_dot = refl }

names-AllNames : AllNames (a ∷ b ∷ [])
names-AllNames = (a-IsName, (b-IsName, tt))

mkdir-get_dir_example :
    ((mkdir 0 (join_path (a ∷ b ∷ [])) root_tree ≡ stop) × IsBlocked 0 (a ∷ b ∷ []) root_tree)
    ⊎ ((sub : ℕ) × (t' : Tree) × (mkdir 0 (join_path (a ∷ b ∷ [])) root_tree ≡ ok (sub, t'))
        × (get_dir 0 (join_path (a ∷ b ∷ [])) t' ≡ ok (some sub))
        × (mkdir 0 (join_path (a ∷ b ∷ [])) t' ≡ ok (sub, t'))
        × IsTree t'
        × Extends root_tree t')
mkdir-get_dir_example =
    mkdir-get_dir 0 a (b ∷ []) root_tree root_tree-IsTree (omega arith) refl names-AllNames

nothing_there : get_node 0 (join_path (a ∷ b ∷ [])) root_tree ≡ ok none
unfolding get_node simplify_name split_head name_eq
nothing_there = refl

mkfile-IsFiled_example :
    ((mkfile 0 (join_path (a ∷ b ∷ [])) root_tree ≡ stop) × IsBlocked 0 (a ∷ []) root_tree)
    ⊎ ((f : ℕ) × (t' : Tree) × (mkfile 0 (join_path (a ∷ b ∷ [])) root_tree ≡ ok (f, t'))
        × IsFiled 0 a (b ∷ []) root_tree f t')
mkfile-IsFiled_example =
    mkfile-IsFiled 0 a (b ∷ []) root_tree root_tree-IsTree (omega arith) refl names-AllNames
      nothing_there

get_node-returns_example :
    ReturnsIn root_tree (get_node 0 (b'/' ∷ b'.' ∷ b'/' ∷ b' ' ∷ []) root_tree)
get_node-returns_example =
    get_node-returns 0 (b'/' ∷ b'.' ∷ b'/' ∷ b' ' ∷ []) root_tree root_tree-IsTree (omega arith)
      refl

get_node-walk_example :
    get_node 0 (join_path (a ∷ b ∷ [])) root_tree ≡ walk 0 (a ∷ b ∷ []) root_tree
get_node-walk_example = get_node-walk 0 a (b ∷ []) root_tree names-AllNames

abbrev header : Name → Header
header name = record {
  name = name;
  owner_ids = replicate 24 b'0';
  times = replicate 21 b'0';
  link_name = replicate 100 0;
  owner_names = replicate 82 0;
  prefix = [];
  padding = replicate 12 0;
}

header-IsHeader :
    (name : Name) → 0 < length name → length name < 100 → NoNull name → IsHeader (header name)
header-IsHeader name filled fits text = record {
  name_filled = filled;
  name_fits = fits;
  name_text = text;
  owner_ids = refl;
  times = refl;
  link_name = refl;
  owner_names = refl;
  prefix_fits = omega arith;
  prefix_text = tt;
  padding = refl;
}

-- A directory "a/" and a file "a/b" with two bytes.
abbrev entries : List Entry
entries =
    directory (header (b'a' ∷ b'/' ∷ []))
    ∷ file (header path_ab) b'0' (7 ∷ 8 ∷ []) (replicate 510 0)
    ∷ []

entries-AllEntries : AllEntries entries
entries-AllEntries = (
  header-IsHeader (b'a' ∷ b'/' ∷ []) (omega arith) (omega arith) (omega arith),
  (
    (
      header-IsHeader path_ab (omega arith) (omega arith) (omega arith),
      refl,
      omega arith,
      omega arith,
      omega arith,
      refl,
    ),
    tt,
  ),
)

parse_ustar-build_example : parse_ustar (archive entries (1 ∷ [])) ≡ build entries root_tree
parse_ustar-build_example = parse_ustar-build entries (1 ∷ []) entries-AllEntries
