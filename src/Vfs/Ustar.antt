-- ===== src/Vfs/Ustar.antt =====
-- The walk over a USTAR archive in memory. The archive is the list of its bytes, a pointer into it is
-- what is left of the list, and a read behind its end is a stop.
use toy_kernel.Base.{
  ℕ, zero, suc, ◌+◌, ◌-◌, ◌*◌, ◌/◌, ◌%◌, ◌^◌, Bool, true, false, not, ◌&&◌, none, List, [], ◌∷◌,
  ◌++◌, length, get_elem?, take, drop, ◌==◌, ltb, leb, if◌then◌else◌, Outcome, ok, stop, ◌>>=◌,
  ◌>>◌, check, need,
}
use toy_kernel.Strings.{memcmp}
use toy_kernel.Vfs.Names.{Name, separator}
use toy_kernel.Vfs.Nodes.{directory_kind, Tree, mkdir, mkfile, write_file}

-- `kTarBlockSize` and `kDirectory`
abbrev pub tar_block_size : ℕ
tar_block_size = 512

abbrev pub directory_type : ℕ
directory_type = b'5'

-- The offsets of the members of `TarBlock` that are read.
abbrev pub size_at : ℕ
size_at = 124

abbrev pub type_at : ℕ
type_at = 156

abbrev pub ustar_at : ℕ
ustar_at = 257

abbrev pub prefix_at : ℕ
prefix_at = 345

-- "ustar", with its null character.
abbrev pub ustar_magic : List ℕ
ustar_magic = b'u' ∷ b's' ∷ b't' ∷ b'a' ∷ b'r' ∷ 0 ∷ []

-- `oct2bin`, from the number that is read so far. A `char` has a sign.
unfoldable pub oct2bin : (n size : ℕ) → List ℕ → Outcome ℕ
oct2bin n zero cs = ok n
oct2bin n (suc size) [] = stop
oct2bin n (suc size) (c ∷ cs) =
    check (leb b'0' c && ltb c 128) >> oct2bin ((n * 8 % 2 ^ 32 + (c - b'0')) % 2 ^ 32) size cs

-- The loop of `IsZeroPage`.
unfoldable pub zero_loop : (rounds : ℕ) → List ℕ → Outcome Bool
zero_loop zero bytes = ok true
zero_loop (suc rounds) [] = stop
zero_loop (suc rounds) (b ∷ bytes) = elim b [ zero ↦ zero_loop rounds bytes | suc n ↦ ok false ]

-- `IsZeroPage`
unfoldable pub is_zero_page : List ℕ → Outcome Bool
is_zero_page bytes = zero_loop tar_block_size bytes

-- The string that a `const char *` points to.
unfoldable pub c_string : List ℕ → Outcome Name
c_string [] = stop
c_string (c ∷ cs) = elim c [ zero ↦ ok [] | suc n ↦ c_string cs >>= λ name. ok (suc n ∷ name) ]

-- `DirInfo` and `FileInfo`. The data of a file are the bytes behind its header.
pub record DirInfo : Type 0 where
  pub prefix : Name
  pub name : Name

pub record FileInfo : Type 0 where
  pub prefix : Name
  pub name : Name
  pub size : ℕ
  pub bytes : List ℕ

-- `OnDirCallback` and `OnFileCallback`: whether to go on, and the state that `arg` points to.
abbrev pub OnDirCallback {ℓ} : Type ℓ → Type ℓ
OnDirCallback S = DirInfo → S → Outcome (Bool × S)

abbrev pub OnFileCallback {ℓ} : Type ℓ → Type ℓ
OnFileCallback S = FileInfo → S → Outcome (Bool × S)

-- The number of blocks that hold `size` bytes.
unfoldable pub num_chunks : (filesize : ℕ) → ℕ
num_chunks filesize =
    if filesize % tar_block_size == 0
    then filesize / tar_block_size
    else filesize / tar_block_size + 1

-- The condition of the loop of `IterateUSTAR`: two blocks of zeros end the archive.
unfoldable pub at_end : (tar : List ℕ) → Outcome Bool
at_end tar =
    is_zero_page tar >>= λ first. if first then is_zero_page (drop tar_block_size tar) else ok false

module _ {ℓ} {S : Type ℓ} (dir_callback : OnDirCallback S) (file_callback : OnFileCallback S) where
  -- The two parts of the body of the loop, for a directory and for a file.
  unfoldable pub on_dir : (tar : List ℕ) → (filesize : ℕ) → S → Outcome (Bool × S)
  on_dir tar filesize s = do
    check (filesize == 0)
    prefix ← c_string (drop prefix_at tar)
    name ← c_string tar
    dir_callback (record { prefix = prefix; name = name }) s

  unfoldable pub on_file : (tar : List ℕ) → (filesize : ℕ) → S → Outcome (Bool × S)
  on_file tar filesize s = do
    check (not (filesize == 0))
    prefix ← c_string (drop prefix_at tar)
    name ← c_string tar
    file_callback
        (record { prefix = prefix; name = name; size = filesize; bytes = drop tar_block_size tar })
        s

  -- The loop of `IterateUSTAR`.
  unfoldable pub iterate_loop : (rounds : ℕ) → (tar : List ℕ) → S → Outcome S
  iterate_loop zero tar s = stop
  iterate_loop (suc rounds) tar s = do
    ended ← at_end tar
    let body = do
      order ← memcmp 5 (drop ustar_at tar) ustar_magic
      check (order == 0)
      filesize ← oct2bin 0 11 (drop size_at tar)
      type ← need (get_elem? tar type_at)
      let past = drop (tar_block_size * num_chunks filesize) (drop tar_block_size tar)
      let dir_entry = on_dir tar filesize s >>= λ (go, s1). elim go [
        | true ↦ iterate_loop rounds (drop tar_block_size tar) s1
        | false ↦ ok s1
      ]
      let file_entry = on_file tar filesize s >>= λ (go, s1). elim go [
        | true ↦ iterate_loop rounds past s1
        | false ↦ ok s1
      ]
      if type == directory_type then dir_entry else file_entry
    if ended then ok s else body

  -- `IterateUSTAR`. Each round leaves a block behind.
  unfoldable pub iterate_ustar : (archive : List ℕ) → S → Outcome S
  iterate_ustar archive s = iterate_loop (suc (length archive)) archive s

-- The callbacks of `ParseUSTAR`, with `getFullPath`. The root directory is the node 0.
unfoldable pub make_dir : OnDirCallback Tree
make_dir info t = mkdir 0 (info.prefix ++ info.name) t >>= λ (_, t1). ok (true, t1)

unfoldable pub make_file : OnFileCallback Tree
make_file info t = do
  (file, t1) ← mkfile 0 (info.prefix ++ info.name) t
  check (leb info.size (length info.bytes))
  ok (true, write_file file (take info.size info.bytes) t1)

-- `Directory()`
abbrev pub root_tree : Tree
root_tree = record {
  node = λ _. record {
    kind = directory_kind;
    name = separator ∷ [];
    parent = none;
    nodes = [];
    contents = [];
  };
  count = 1;
}

-- `ParseUSTAR`
unfoldable pub parse_ustar : (archive : List ℕ) → Outcome Tree
unfolding iterate_ustar make_dir make_file
parse_ustar archive = iterate_ustar make_dir make_file archive root_tree
