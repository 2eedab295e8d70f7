-- ===== src/Vfs/Archive.antt =====
-- `IterateUSTAR` and `ParseUSTAR` on an archive that is written entry by entry.
use toy_kernel.Base.{
  ℕ, zero, suc, ◌+◌, ◌*◌, ◌%◌, ◌^◌, Bool-cases, inl, inr, ◌≤◌, ◌<◌, ◌≡◌, refl, ap, ◌∙◌, fun_ext,
  true, false, List, [], ◌∷◌, ◌++◌, length, take, drop, replicate, length-append, ◌==◌, leb, arith,
  Outcome, ok, stop, ◌>>=◌,
}
use toy_kernel.Vfs.{
  directory_type, num_chunks, OnDirCallback, OnFileCallback, on_dir, on_file, iterate_loop,
  iterate_ustar, make_dir, make_file, Tree, mkdir, mkfile, write_file, root_tree, parse_ustar,
}
use toy_kernel.Vfs.Fields.{Header, IsHeader, header_bytes, length-header_bytes}
use toy_kernel.Vfs.Header.{
  block-header, size-header, magic-header, prefix-header, name-header, type-header, at_end-header,
  at_end-zeros,
}

-- An entry: a directory, or a file with its bytes and what fills its last block.
pub data Entry : Type 0 where
  directory : Header → Entry
  file : Header → (type : ℕ) → (bytes filler : List ℕ) → Entry

abbrev pub IsEntry : Entry → Type 0
IsEntry (directory h) = IsHeader h
IsEntry (file h type bytes filler) =
    IsHeader h
    × (type == directory_type ≡ false)
    × (0 < length bytes)
    × (length bytes < 2 ^ 32)
    × (length filler < 512)
    × ((length bytes + length filler) % 512 ≡ 0)

abbrev pub AllEntries : List Entry → Type 0
AllEntries [] = Unit {0}
AllEntries (e ∷ es) = IsEntry e × AllEntries es

-- The archive of some entries, with anything behind the two blocks that end it.
abbrev pub archive : List Entry → (rest : List ℕ) → List ℕ
archive [] rest = replicate 512 0 ++ (replicate 512 0 ++ rest)
archive (directory h ∷ es) rest = header_bytes h 0 directory_type (archive es rest)
archive (file h type bytes filler ∷ es) rest =
    header_bytes h (length bytes) type (bytes ++ (filler ++ archive es rest))

-- The blocks that hold the bytes and what fills the last one.
num_chunks-whole :
    (size filler : ℕ)
    → filler < 512
    → (size + filler) % 512 ≡ 0
    → size + filler ≡ 512 * num_chunks size
unfolding num_chunks
num_chunks-whole size filler small whole = elim (Bool-cases (size % 512 == 0)) [
  | inl e ↦ let none_over : size % 512 ≡ 0 = ground arith in rw e (omega arith)
  | inr e ↦ let over : 0 < size % 512 = ground arith in rw e (omega arith)
]

past_data :
    (bytes filler more : List ℕ) (n : ℕ)
    → length bytes + length filler ≡ n
    → drop n (bytes ++ (filler ++ more)) ≡ more
past_data [] [] more n e = let z : n ≡ 0 = omega arith in rw z refl
past_data [] (x ∷ xs) more zero e = absurd (omega arith)
past_data [] (x ∷ xs) more (suc n) e = past_data [] xs more n (omega arith)
past_data (b ∷ bs) filler more zero e = absurd (omega arith)
past_data (b ∷ bs) filler more (suc n) e = past_data bs filler more n (omega arith)

module _ {ℓ} {S : Type ℓ} (dir_callback : OnDirCallback S) (file_callback : OnFileCallback S) where
  -- The callbacks in the order of the entries, until one of them says to stop.
  abbrev pub visit : List Entry → (rest : List ℕ) → S → Outcome S
  visit [] rest s = ok s
  visit (directory h ∷ es) rest s =
      dir_callback (record { prefix = h.prefix; name = h.name }) s >>= λ (go, s1). elim go [
        | true ↦ visit es rest s1
        | false ↦ ok s1
      ]
  visit (file h type bytes filler ∷ es) rest s =
      file_callback
        (record {
          prefix = h.prefix;
          name = h.name;
          size = length bytes;
          bytes = bytes ++ (filler ++ archive es rest);
        })
        s
      >>= λ (go, s1). elim go [ true ↦ visit es rest s1 | false ↦ ok s1 ]

  iterate_loop-visit :
      (rounds : ℕ) (es : List Entry) (rest : List ℕ) (s : S)
      → AllEntries es
      → length es < rounds
      → iterate_loop dir_callback file_callback rounds (archive es rest) s ≡ visit es rest s
  unfolding iterate_loop on_dir on_file
  iterate_loop-visit zero es rest s w enough = absurd (omega arith)
  iterate_loop-visit (suc rounds) [] rest s w enough = rw (at_end-zeros rest) refl
  iterate_loop-visit (suc rounds) (directory h ∷ es) rest s w enough =
      let more = archive es rest in
      rw (at_end-header h w.0 0 directory_type more) (
        rw (magic-header h w.0 0 directory_type more) (
          rw (size-header h w.0 0 directory_type more (omega arith)) (
            rw (type-header h w.0 0 directory_type more) (
              rw (prefix-header h w.0 0 directory_type more) (
                rw (name-header h w.0 0 directory_type more) (
                  ap
                    (λ (f : S → Outcome S).
                      dir_callback (record { prefix = h.prefix; name = h.name }) s >>= λ (go, s1).
                      elim go [ true ↦ f s1 | false ↦ ok s1 ])
                    (fun_ext (λ s1.
                      ap (λ tar. iterate_loop dir_callback file_callback rounds tar s1)
                        (block-header h w.0 0 directory_type more)
                      ∙ iterate_loop-visit rounds es rest s1 w.1 (omega arith)))))))))
  iterate_loop-visit (suc rounds) (file h type bytes filler ∷ es) rest s w enough =
      let ((header, other, filled, fits, small, blocks), others) = w in
      let whole = num_chunks-whole (length bytes) (length filler) small blocks in
      let more = archive es rest in
      let behind = bytes ++ (filler ++ more) in
      let nonzero : length bytes == 0 ≡ false = ground arith in
      rw (at_end-header h header (length bytes) type behind) (
        rw (magic-header h header (length bytes) type behind) (
          rw (size-header h header (length bytes) type behind fits) (
            rw (type-header h header (length bytes) type behind) (
              rw other (
                rw nonzero (
                  rw (prefix-header h header (length bytes) type behind) (
                    rw (name-header h header (length bytes) type behind) (
                      rw (block-header h header (length bytes) type behind) (
                        ap
                          (λ (f : S → Outcome S).
                            file_callback
                              (record {
                                prefix = h.prefix;
                                name = h.name;
                                size = length bytes;
                                bytes = behind;
                              })
                              s
                            >>= λ (go, s1). elim go [ true ↦ f s1 | false ↦ ok s1 ])
                          (fun_ext (λ s1.
                            ap (λ tar. iterate_loop dir_callback file_callback rounds tar s1)
                              (ap (drop (512 * num_chunks (length bytes)))
                                  (block-header h header (length bytes) type behind)
                                ∙ past_data bytes filler more (512 * num_chunks (length bytes))
                                    whole)
                            ∙ iterate_loop-visit rounds es rest s1 others (omega arith))))))))))))

length-archive : (es : List Entry) (rest : List ℕ) → length es ≤ length (archive es rest)
length-archive [] rest = omega arith
length-archive (directory h ∷ es) rest =
    omega (arith, length-header_bytes h 0 directory_type (archive es rest), length-archive es rest)
length-archive (file h type bytes filler ∷ es) rest = omega (
  arith,
  length-header_bytes h (length bytes) type (bytes ++ (filler ++ archive es rest)),
  length-append {0} bytes (filler ++ archive es rest),
  length-append {0} filler (archive es rest),
  length-archive es rest,
)

-- `IterateUSTAR` on an archive of well-formed entries, with any bytes in the members that it does not
-- read and behind the end: it calls the callbacks with the prefix, the name, the size and the data of
-- each entry in turn, until one of them says to stop or fails, and then returns.
pub iterate_ustar-visit {ℓ} :
    {S : Type ℓ} (dir_callback : OnDirCallback S) (file_callback : OnFileCallback S)
    (es : List Entry) (rest : List ℕ) (s : S)
    → AllEntries es
    → iterate_ustar dir_callback file_callback (archive es rest) s
      ≡ visit dir_callback file_callback es rest s
unfolding iterate_ustar
iterate_ustar-visit dir_callback file_callback es rest s w =
    iterate_loop-visit dir_callback file_callback (suc (length (archive es rest))) es rest s w
      (omega (arith, length-archive es rest))

-- The tree of some entries: `mkdir` of each directory, and `mkfile` of each file with its bytes.
abbrev pub build : List Entry → Tree → Outcome Tree
build [] t = ok t
build (directory h ∷ es) t = mkdir 0 (h.prefix ++ h.name) t >>= λ (_, t1). build es t1
build (file h type bytes filler ∷ es) t =
    mkfile 0 (h.prefix ++ h.name) t >>= λ (made, t1). build es (write_file made bytes t1)

take-bytes : (bytes more : List ℕ) → take (length bytes) (bytes ++ more) ≡ bytes
take-bytes [] more = refl
take-bytes (b ∷ bs) more = ap (λ t. b ∷ t) (take-bytes bs more)

bind_bind :
    {A B C : Type 0} (m : Outcome A) (f : A → Outcome B) (g : B → Outcome C) (k : A → Outcome C)
    → ((a : A) → (f a >>= g) ≡ k a)
    → ((m >>= f) >>= g) ≡ (m >>= k)
bind_bind (ok a) f g k h = h a
bind_bind stop f g k h = refl

visit-build :
    (es : List Entry) (rest : List ℕ) (t : Tree) → visit make_dir make_file es rest t ≡ build es t
unfolding make_dir make_file
visit-build [] rest t = refl
visit-build (directory h ∷ es) rest t =
    bind_bind (mkdir 0 (h.prefix ++ h.name) t) _ _ (λ (_, t1). build es t1)
      (λ (_, t1). visit-build es rest t1)
visit-build (file h type bytes filler ∷ es) rest t =
    bind_bind (mkfile 0 (h.prefix ++ h.name) t) _ _
      (λ (made, t1). build es (write_file made bytes t1))
      (λ (made, t1).
        let behind = bytes ++ (filler ++ archive es rest) in
        let enough : leb (length bytes) (length behind) ≡ true =
          ground (arith, length-append {0} bytes (filler ++ archive es rest)) in
        rw enough (
          rw (take-bytes bytes (filler ++ archive es rest))
            (visit-build es rest (write_file made bytes t1))))

-- `ParseUSTAR` of an archive of well-formed entries makes the directory of each directory entry and
-- the file of each file entry, under their prefix and name and in their order, from a root directory
-- with no nodes, and writes into each file the bytes of its entry and no others. It stops only where
-- `mkdir` or `mkfile` does.
pub parse_ustar-build :
    (es : List Entry) (rest : List ℕ)
    → AllEntries es
    → parse_ustar (archive es rest) ≡ build es root_tree
unfolding parse_ustar
parse_ustar-build es rest w =
    iterate_ustar-visit make_dir make_file es rest root_tree w ∙ visit-build es rest root_tree
