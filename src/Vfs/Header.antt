-- ===== src/Vfs/Header.antt =====
-- The whole header block of an entry of a USTAR archive: what the code finds at each offset.
use toy_kernel.Base.{
  ℕ, zero, suc, ◌+◌, ◌^◌, ◌<◌, ◌≡◌, refl, ap, ◌∙◌, true, false, some, List, [], ◌∷◌, ◌++◌, length,
  get_elem?, drop, replicate, length-replicate, arith, ok,
}
use toy_kernel.Strings.{memcmp}
use toy_kernel.Vfs.{
  Name, size_at, type_at, ustar_at, prefix_at, ustar_magic, tar_block_size, oct2bin, zero_loop,
  is_zero_page, c_string, at_end,
}
use toy_kernel.Vfs.Fields.{
  string_field, octal, Header, NoNull, IsHeader, header_bytes, length-octal, length-string_field,
  drop_past, get_elem?_past, oct2bin-octal, c_string-string_field,
}

at_end-suc : (m : ℕ) (bytes : List ℕ) → at_end (suc m ∷ bytes) ≡ ok false
unfolding at_end is_zero_page zero_loop
at_end-suc m bytes = refl

same_magic : (r : List ℕ) → memcmp 5 (ustar_magic ++ r) ustar_magic ≡ ok 0
unfolding memcmp
same_magic r = refl

-- The reads of a header.
module _ (h : Header) (w : IsHeader h) (size type : ℕ) (rest : List ℕ) where
  abbrev from_prefix : List ℕ
  from_prefix = string_field 155 h.prefix ++ (h.padding ++ rest)

  abbrev from_magic : List ℕ
  from_magic = ustar_magic ++ (h.owner_names ++ from_prefix)

  abbrev from_type : List ℕ
  from_type = type ∷ h.link_name ++ from_magic

  abbrev from_size : List ℕ
  from_size = octal 11 size ++ (h.times ++ from_type)

  name_width : length (string_field 100 h.name) ≡ 100
  name_width = length-string_field 100 h.name w.name_fits

  drop-size : (j n : ℕ) → j ≡ 124 + n → drop j (header_bytes h size type rest) ≡ drop n from_size
  drop-size j n e =
      drop_past j (24 + n) (string_field 100 h.name) (h.owner_ids ++ from_size)
        (omega (arith, name_width))
      ∙ drop_past (24 + n) n h.owner_ids from_size (omega (arith, w.owner_ids))

  drop-type : (j n : ℕ) → j ≡ 156 + n → drop j (header_bytes h size type rest) ≡ drop n from_type
  drop-type j n e =
      drop-size j (32 + n) (omega arith)
      ∙ drop_past (32 + n) (21 + n) (octal 11 size) (h.times ++ from_type)
          (omega (arith, length-octal 11 size))
      ∙ drop_past (21 + n) n h.times from_type (omega (arith, w.times))

  drop-magic : (j n : ℕ) → j ≡ 257 + n → drop j (header_bytes h size type rest) ≡ drop n from_magic
  drop-magic j n e =
      drop-type j (101 + n) (omega arith)
      ∙ drop_past (101 + n) n (type ∷ h.link_name) from_magic (omega (arith, w.link_name))

  drop-prefix :
      (j n : ℕ) → j ≡ 345 + n → drop j (header_bytes h size type rest) ≡ drop n from_prefix
  drop-prefix j n e =
      drop-magic j (88 + n) (omega arith)
      ∙ drop_past (88 + n) (82 + n) ustar_magic (h.owner_names ++ from_prefix) (omega arith)
      ∙ drop_past (82 + n) n h.owner_names from_prefix (omega (arith, w.owner_names))

  -- What is behind the block.
  pub block-header : drop tar_block_size (header_bytes h size type rest) ≡ rest
  block-header =
      drop-prefix 512 167 (omega arith)
      ∙ drop_past 167 12 (string_field 155 h.prefix) (h.padding ++ rest)
          (omega (arith, length-string_field 155 h.prefix w.prefix_fits))
      ∙ drop_past 12 0 h.padding rest (omega (arith, w.padding))

  pub size-header :
      size < 2 ^ 32 → oct2bin 0 11 (drop size_at (header_bytes h size type rest)) ≡ ok size
  size-header fits =
      ap (oct2bin 0 11) (drop-size 124 0 (omega arith))
      ∙ oct2bin-octal 11 size (h.times ++ from_type) (omega arith) fits

  pub magic-header : memcmp 5 (drop ustar_at (header_bytes h size type rest)) ustar_magic ≡ ok 0
  magic-header =
      ap (λ tar. memcmp 5 tar ustar_magic) (drop-magic 257 0 (omega arith)) ∙ same_magic _

  pub prefix-header : c_string (drop prefix_at (header_bytes h size type rest)) ≡ ok h.prefix
  prefix-header =
      ap c_string (drop-prefix 345 0 (omega arith))
      ∙ c_string-string_field 155 h.prefix (h.padding ++ rest) w.prefix_text w.prefix_fits

  pub name-header : c_string (header_bytes h size type rest) ≡ ok h.name
  name-header = c_string-string_field 100 h.name (h.owner_ids ++ from_size) w.name_text w.name_fits

  pub type-header : get_elem? (header_bytes h size type rest) type_at ≡ some type
  type-header =
      get_elem?_past 156 56 (string_field 100 h.name) (h.owner_ids ++ from_size)
        (omega (arith, name_width))
      ∙ get_elem?_past 56 32 h.owner_ids from_size (omega (arith, w.owner_ids))
      ∙ get_elem?_past 32 21 (octal 11 size) (h.times ++ from_type)
          (omega (arith, length-octal 11 size))
      ∙ get_elem?_past 21 0 h.times from_type (omega (arith, w.times))

  -- A header is no block of zeros, as its name has a first character.
  pub at_end-header : at_end (header_bytes h size type rest) ≡ ok false
  at_end-header = first_ne h.name w.name_text w.name_filled
    where
      first_ne :
          (name : Name)
          → NoNull name
          → 0 < length name
          → at_end (string_field 100 name ++ (h.owner_ids ++ from_size)) ≡ ok false
      first_ne [] text filled = absurd (omega arith)
      first_ne (zero ∷ cs) text filled = absurd (omega (arith, text.0))
      first_ne (suc m ∷ cs) text filled = at_end-suc m _

zero_loop-zeros : (rounds : ℕ) (r : List ℕ) → zero_loop rounds (replicate rounds 0 ++ r) ≡ ok true
unfolding zero_loop
zero_loop-zeros zero r = refl
zero_loop-zeros (suc rounds) r = zero_loop-zeros rounds r

-- Two blocks of zeros end an archive.
pub at_end-zeros : (r : List ℕ) → at_end (replicate 512 0 ++ (replicate 512 0 ++ r)) ≡ ok true
unfolding at_end is_zero_page
at_end-zeros r =
    let behind : drop 512 (replicate 512 0 ++ (replicate 512 0 ++ r)) ≡ replicate 512 0 ++ r =
      drop_past 512 0 (replicate 512 0) (replicate 512 0 ++ r)
        (omega (arith, length-replicate {0} {A = ℕ} 512 0)) in
    rw (zero_loop-zeros 512 (replicate 512 0 ++ r)) (rw behind (zero_loop-zeros 512 r))
