-- ===== src/Vfs/Fields.antt =====
-- The fields of the header block of a USTAR archive, and how each is read.
use toy_kernel.Base.{
  ℕ, zero, suc, ◌+◌, ◌-◌, ◌*◌, ◌/◌, ◌%◌, ◌^◌, ◌≤◌, ◌<◌, ◌≡◌, refl, sym, ap, ◌∙◌, Bool, true, false,
  ◌&&◌, List, [], ◌∷◌, ◌++◌, append_assoc, length, get_elem?, drop, replicate, length-append,
  length-replicate, ltb, leb, arith, Outcome, ok, ◌>>=◌, ◌>>◌, check,
}
use native.Mathlib.Nat.{pow-suc}
use toy_kernel.Vfs.{Name, ustar_magic, oct2bin, c_string}

-- A field of `width` bytes that holds a string.
abbrev pub string_field : (width : ℕ) → Name → List ℕ
string_field width cs = cs ++ replicate (width - length cs) 0

-- The last `digits` octal digits of a number.
abbrev pub octal : (digits n : ℕ) → List ℕ
octal zero n = []
octal (suc k) n = octal k (n / 8) ++ (b'0' + n % 8) ∷ []

-- The members of `TarBlock` that are read, and the bytes between them, which may be anything.
pub record Header : Type 0 where
  pub name : Name
  pub owner_ids : List ℕ
  pub times : List ℕ
  pub link_name : List ℕ
  pub owner_names : List ℕ
  pub prefix : Name
  pub padding : List ℕ

abbrev pub NoNull : Name → Type 0
NoNull [] = Unit {0}
NoNull (c ∷ cs) = (0 < c) × NoNull cs

pub record IsHeader (h : Header) : Type 0 where
  pub name_filled : 0 < length h.name
  pub name_fits : length h.name < 100
  pub name_text : NoNull h.name
  pub owner_ids : length h.owner_ids ≡ 24
  pub times : length h.times ≡ 21
  pub link_name : length h.link_name ≡ 100
  pub owner_names : length h.owner_names ≡ 82
  pub prefix_fits : length h.prefix < 155
  pub prefix_text : NoNull h.prefix
  pub padding : length h.padding ≡ 12

-- The header of an entry, with what follows it.
abbrev pub header_bytes : Header → (size type : ℕ) → (rest : List ℕ) → List ℕ
header_bytes h size type rest =
    string_field 100 h.name
    ++ (h.owner_ids
        ++ (octal 11 size
            ++ (h.times
                ++ (type ∷ h.link_name
                    ++ (ustar_magic
                        ++ (h.owner_names
                            ++ (string_field 155 h.prefix ++ (h.padding ++ rest))))))))

pub length-octal : (k n : ℕ) → length (octal k n) ≡ k
length-octal zero n = refl
length-octal (suc k) n =
    omega (arith, length-append {0} (octal k (n / 8)) ((b'0' + n % 8) ∷ []), length-octal k (n / 8))

pub length-string_field :
    (width : ℕ) (cs : Name) → length cs < width → length (string_field width cs) ≡ width
length-string_field width cs h = omega (
  arith,
  length-append {0} cs (replicate (width - length cs) 0),
  length-replicate {0} {A = ℕ} (width - length cs) 0,
)

pub drop_past : (j n : ℕ) (xs r : List ℕ) → j ≡ length xs + n → drop j (xs ++ r) ≡ drop n r
drop_past j n [] r e = let same : j ≡ n = omega arith in rw same refl
drop_past zero n (x ∷ xs) r e = absurd (omega arith)
drop_past (suc j) n (x ∷ xs) r e = drop_past j n xs r (omega arith)

pub get_elem?_past :
    (j n : ℕ) (xs r : List ℕ) → j ≡ length xs + n → get_elem? (xs ++ r) j ≡ get_elem? r n
get_elem?_past j n [] r e = let same : j ≡ n = omega arith in rw same refl
get_elem?_past zero n (x ∷ xs) r e = absurd (omega arith)
get_elem?_past (suc j) n (x ∷ xs) r e = get_elem?_past j n xs r (omega arith)

check_bind :
    {A B : Type 0} (b : Bool) (m : Outcome A) (f : A → Outcome B)
    → ((check b >> m) >>= f) ≡ (check b >> (m >>= f))
check_bind true m f = refl
check_bind false m f = refl

oct2bin_last :
    (acc k c : ℕ) (xs r : List ℕ)
    → length xs ≡ k
    → oct2bin acc (suc k) (xs ++ c ∷ r) ≡ (
        oct2bin acc k (xs ++ c ∷ r) >>= λ m.
        check (leb b'0' c && ltb c 128) >> ok ((m * 8 % 2 ^ 32 + (c - b'0')) % 2 ^ 32))
unfolding oct2bin
oct2bin_last acc zero c [] r e = refl
oct2bin_last acc (suc k) c [] r e = absurd (omega arith)
oct2bin_last acc zero c (x ∷ xs) r e = absurd (omega arith)
oct2bin_last acc (suc k) c (x ∷ xs) r e =
    let digit = leb b'0' x && ltb x 128 in
    let acc' = (acc * 8 % 2 ^ 32 + (x - b'0')) % 2 ^ 32 in
    let next : ℕ → Outcome ℕ =
      λ m. check (leb b'0' c && ltb c 128) >> ok ((m * 8 % 2 ^ 32 + (c - b'0')) % 2 ^ 32) in
    ap (λ m. check digit >> m) (oct2bin_last acc' k c xs r (omega arith))
    ∙ sym (check_bind digit (oct2bin acc' k (xs ++ c ∷ r)) next)

oct2bin-done : (n : ℕ) (cs : List ℕ) → oct2bin n 0 cs ≡ ok n
unfolding oct2bin
oct2bin-done n cs = refl

-- `oct2bin` reads what is written in octal, for every size that a `size_t` has.
pub oct2bin-octal :
    (k n : ℕ) (r : List ℕ) → n < 8 ^ k → n < 2 ^ 32 → oct2bin 0 k (octal k n ++ r) ≡ ok n
oct2bin-octal zero n r small fits =
    let only : n < 1 = small in let e : 0 ≡ n = omega arith in oct2bin-done 0 r ∙ ap ok e
oct2bin-octal (suc k) n r small fits =
    let q = n / 8 in
    let c = b'0' + n % 8 in
    let digit : (leb b'0' c && ltb c 128) ≡ true = ground arith in
    let value : (q * 8 % 2 ^ 32 + (c - b'0')) % 2 ^ 32 ≡ n = omega arith in
    ap (oct2bin 0 (suc k)) (append_assoc (octal k q) (c ∷ []) r)
    ∙ oct2bin_last 0 k c (octal k q) r (length-octal k q)
    ∙ rw (oct2bin-octal k q (c ∷ r) (omega (arith, pow-suc 8 k)) (omega arith))
        (rw digit (ap ok value))

pub c_string-string_field :
    (width : ℕ) (cs : Name) (r : List ℕ)
    → NoNull cs
    → length cs < width
    → c_string (string_field width cs ++ r) ≡ ok cs
unfolding c_string
c_string-string_field width [] r h fits =
    let e : width - 0 ≡ suc (width - 1) = omega arith in rw e refl
c_string-string_field width (zero ∷ cs) r h fits = absurd (omega (arith, h.0))
c_string-string_field width (suc m ∷ cs) r h fits =
    let e : width - suc (length cs) ≡ width - 1 - length cs = omega arith in
    rw e (rw (c_string-string_field (width - 1) cs r h.1 (omega arith)) refl)

le-append : (xs r : List ℕ) → length r ≤ length (xs ++ r)
le-append xs r = omega (arith, length-append {0} xs r)

pub length-header_bytes :
    (h : Header) (size type : ℕ) (rest : List ℕ)
    → length rest + 1 ≤ length (header_bytes h size type rest)
length-header_bytes h size type rest =
    let at_prefix = string_field 155 h.prefix ++ (h.padding ++ rest) in
    let at_names = h.owner_names ++ at_prefix in
    let at_link = h.link_name ++ (ustar_magic ++ at_names) in
    let at_times = h.times ++ (type ∷ at_link) in
    let at_size = octal 11 size ++ at_times in
    omega (
      arith,
      le-append h.padding rest,
      le-append (string_field 155 h.prefix) (h.padding ++ rest),
      le-append h.owner_names at_prefix,
      le-append ustar_magic at_names,
      le-append h.link_name (ustar_magic ++ at_names),
      le-append h.times (type ∷ at_link),
      le-append (octal 11 size) at_times,
      le-append h.owner_ids at_size,
      le-append (string_field 100 h.name) (h.owner_ids ++ at_size),
    )
