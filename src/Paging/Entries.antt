-- ===== src/Paging/Entries.antt =====
-- What a page directory entry says: the entry that `AddPage` makes is present and names its frame.
use toy_kernel.Base.{
  ℕ, ◌+◌, ◌*◌, ◌/◌, ◌%◌, ◌^◌, ◌<◌, ◌≡◌, refl, ap, subst, ◌∙◌, true, ◌&&◌, ◌==◌, ltb, arith, bit_and,
  bit_or, ==_iff,
}
use toy_kernel.Base.Bits.{every_below, every_below_at}
use toy_kernel.Base.BitLaws.{or_high_low, and_high, and_one}
use toy_kernel.Paging.Types.{is_present, page_index_4m, page_mask_4m, page_size_4m}
use toy_kernel.Paging.Spaces.{make_entry}

pub is_present-odd : (pde : ℕ) → is_present pde ≡ (pde % 2 == 1)
unfolding is_present
is_present-odd pde = ground (arith, and_one pde)

flag_table : every_below 256 (λ f. ltb (bit_or 0x83 f) 256 && (bit_or 0x83 f % 2 == 1)) ≡ true
unfolding every_below
flag_table = refl

frame_table : every_below 1024 (λ q. bit_and q 1023 == q) ≡ true
unfolding every_below
frame_table = refl

flags_low : (f : ℕ) → f < 256 → (bit_or 0x83 f < 256) × (bit_or 0x83 f % 2 ≡ 1)
flags_low f lt = ground (arith, every_below_at 256 _ f flag_table lt)

frame_mask : (q : ℕ) → q < 1024 → bit_and q 1023 ≡ q
frame_mask q lt = (==_iff _ q).0 (every_below_at 1024 _ q frame_table lt)

masked : (q r : ℕ) → q < 1024 → r < 2 ^ 22 → bit_and (q * 2 ^ 22 + r) page_mask_4m ≡ q * 2 ^ 22
masked q r hq hr = and_high 22 q r 1023 hr ∙ ap (λ (t : ℕ). t * 2 ^ 22) (frame_mask q hq)

-- The entry holds the frame above its flags.
record IsEntry (pde paddr flags : ℕ) : Type 0 where
  sum : pde ≡ paddr + bit_or 0x83 flags
  low : bit_or 0x83 flags < 256
  odd : bit_or 0x83 flags % 2 ≡ 1

make_entry-sum :
    (q flags : ℕ)
    → q < 1024
    → flags < 256
    → IsEntry (make_entry (q * 2 ^ 22) flags) (q * 2 ^ 22) flags
unfolding make_entry
make_entry-sum q flags hq hf =
    let (low, odd) = flags_low flags hf in
    let mask : bit_and (q * 2 ^ 22) page_mask_4m ≡ q * 2 ^ 22 =
      ap (λ t. bit_and t page_mask_4m) (omega arith) ∙ masked q 0 hq (omega arith) in
    record {
      sum =
          ap (λ t. bit_or t (bit_or 0x83 flags)) mask
          ∙ or_high_low 22 q (bit_or 0x83 flags) (omega arith);
      low = low;
      odd = odd;
    }

module _ (paddr flags : ℕ) (aligned : paddr % page_size_4m ≡ 0) (fits : paddr < 2 ^ 32)
    (byte : flags < 256) where
  IsEntry-of : IsEntry (make_entry paddr flags) paddr flags
  IsEntry-of =
      let whole : paddr / 2 ^ 22 * 2 ^ 22 ≡ paddr = omega arith in
      subst (λ p. IsEntry (make_entry p flags) p flags) whole
        (make_entry-sum (paddr / 2 ^ 22) flags (omega arith) byte)

  pub is_present-make_entry : is_present (make_entry paddr flags) ≡ true
  is_present-make_entry =
      let e = IsEntry-of in
      rw (is_present-odd (make_entry paddr flags)) (ground (arith, e.sum, e.odd))

  pub page_index-make_entry : page_index_4m (make_entry paddr flags) ≡ page_index_4m paddr
  page_index-make_entry = let e = IsEntry-of in omega (arith, e.sum, e.low)

  pub frame-make_entry : bit_and (make_entry paddr flags) page_mask_4m ≡ paddr
  frame-make_entry =
      let e = IsEntry-of in
      let whole : make_entry paddr flags ≡ paddr / 2 ^ 22 * 2 ^ 22 + bit_or 0x83 flags =
        omega (arith, e.sum) in
      ap (λ t. bit_and t page_mask_4m) whole
      ∙ masked (paddr / 2 ^ 22) (bit_or 0x83 flags) (omega arith) (omega (arith, e.low))
      ∙ omega arith

-- The frame that `RemovePage` frees is the one in the entry, also of an entry that is 0.
pub frame-masked :
    (pde : ℕ) → pde < 2 ^ 32 → page_index_4m (bit_and pde page_mask_4m) ≡ page_index_4m pde
frame-masked pde lt =
    let whole : pde ≡ pde / 2 ^ 22 * 2 ^ 22 + pde % 2 ^ 22 = omega arith in
    ap (λ t. page_index_4m (bit_and t page_mask_4m)) whole
    ∙ ap page_index_4m (masked (pde / 2 ^ 22) (pde % 2 ^ 22) (omega arith) (omega arith))
    ∙ omega arith

-- The frame's address in an entry.
pub mask-page : (pde : ℕ) → pde < 2 ^ 32 → bit_and pde page_mask_4m ≡ page_index_4m pde * 2 ^ 22
mask-page pde lt =
    let whole : pde ≡ pde / 2 ^ 22 * 2 ^ 22 + pde % 2 ^ 22 = omega arith in
    ap (λ t. bit_and t page_mask_4m) whole
    ∙ masked (pde / 2 ^ 22) (pde % 2 ^ 22) (omega arith) (omega arith)
