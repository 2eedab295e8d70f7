-- ===== src/Gates/Segments.antt =====
-- What the processor reads out of the GDT.
use toy_kernel.Base.{
  ℕ, ◌+◌, ◌*◌, ◌/◌, ◌%◌, ◌^◌, ◌<◌, ◌≡◌, refl, ap, ◌∙◌, bit_and, bit_or, get_elem?, some, Option,
  arith, List, true, ◌==◌, ==_iff,
}
use toy_kernel.Base.Bits.{shr, every_below, every_below_at}
use toy_kernel.Base.BitLaws.{and_high}
use toy_kernel.Task.{kernel_code_segment, kernel_data_segment, user_code_segment, user_data_segment}
use toy_kernel.Gates.{GdtEntry, gdt_gate, init_gdt, tss_size}
use toy_kernel.Gates.Masks.{and_ones}

abbrev pub base_of : GdtEntry → ℕ
base_of e = e.base_low + e.base_middle * 2 ^ 16 + e.base_high * 2 ^ 24

abbrev pub limit_of : GdtEntry → ℕ
limit_of e = e.limit_low + e.granularity % 16 * 2 ^ 16

-- The descriptor privilege level.
abbrev pub ring_of : GdtEntry → ℕ
ring_of e = e.access / 2 ^ 5 % 4

-- What `GDTSetGate` is given can be read back: the base, the lower 20 bits of the limit, the access
-- byte, and the upper half of the granularity byte.
pub record IsGate (base limit access gran : ℕ) (e : GdtEntry) : Type 0 where
  pub same_base : base_of e ≡ base
  pub same_limit : limit_of e ≡ limit % 2 ^ 20
  pub same_access : e.access ≡ access
  pub same_gran : e.granularity / 16 ≡ gran / 16

upper_half : (gran : ℕ) → gran < 2 ^ 8 → bit_and gran 0xF0 ≡ gran / 16 * 2 ^ 4
upper_half gran lt =
    ap (λ z. bit_and z 0xF0) (split gran)
    ∙ and_high 4 (gran / 16) (gran % 16) 15 (omega arith)
    ∙ ap (λ z. z * 2 ^ 4) (and_ones 4 (gran / 16) ∙ omega arith)
  where
    split : (gran : ℕ) → gran ≡ gran / 16 * 2 ^ 4 + gran % 16
    split gran = omega arith

nibble_table : every_below 16 (λ g. every_below 16 (λ h. bit_or h (g * 16) == g * 16 + h)) ≡ true
unfolding every_below
nibble_table = refl

granularity_parts :
    (high gran : ℕ)
    → gran < 2 ^ 8
    → high < 16
    → bit_or high (bit_and gran 0xF0) ≡ gran / 16 * 16 + high
granularity_parts high gran lt small =
    ap (λ z. bit_or high z) (upper_half gran lt)
    ∙ (==_iff _ _).0 (
        every_below_at 16 _ high (every_below_at 16 _ (gran / 16) nibble_table (omega arith)) small)

-- `GDTSetGate` loses nothing of a 32-bit base, of the lower 20 bits of a limit, of the access byte and
-- of the upper half of the granularity byte.
gdt_gate-IsGate :
    (base limit access gran : ℕ)
    → base < 2 ^ 32
    → gran < 2 ^ 8
    → IsGate base limit access gran (gdt_gate base limit access gran)
unfolding gdt_gate
gdt_gate-IsGate base limit access gran word byte =
    let low = and_ones 16 base in
    let middle = and_ones 8 (base / 2 ^ 16) in
    let high = and_ones 8 (base / 2 ^ 24) in
    let limit_low = and_ones 16 limit in
    let limit_high = and_ones 4 (limit / 2 ^ 16) in
    let g = granularity_parts (bit_and (shr limit 16) 0x0F) gran byte (omega (arith, limit_high)) in
    record {
      same_base = omega (arith, low, middle, high);
      same_limit = omega (arith, limit_low, limit_high, g);
      same_access = refl;
      same_gran = omega (arith, g, limit_high);
    }

-- The entry that a selector names.
abbrev pub selected : ℕ → List GdtEntry → Option GdtEntry
selected selector gdt = get_elem? gdt (selector / 8)

-- `selector` names an entry, and its ring is the one that the selector asks for.
abbrev pub HasRing : (selector : ℕ) → List GdtEntry → Type 0
HasRing selector gdt =
    (e : GdtEntry) × (selected selector gdt ≡ some e) × (ring_of e ≡ selector % 4)

-- Each of the four selectors that the scheduler uses names an entry of the table that `InitGDT` writes
-- for the selector's own ring, and the entry behind them is for the whole of the TSS, which is below
-- 2^32.
pub init_gdt-HasRing :
    (tss : ℕ)
    → tss < 2 ^ 32
    → HasRing kernel_code_segment (init_gdt tss)
      × HasRing kernel_data_segment (init_gdt tss)
      × HasRing user_code_segment (init_gdt tss)
      × HasRing user_data_segment (init_gdt tss)
      × ((e : GdtEntry) × (get_elem? (init_gdt tss) 5 ≡ some e)
          × (base_of e ≡ tss)
          × (limit_of e ≡ tss_size))
unfolding init_gdt gdt_gate
init_gdt-HasRing tss lt =
    let g = gdt_gate-IsGate tss tss_size 0xE9 0 lt (omega arith) in
    (
      (gdt_gate 0 0xFFFFFFFF 0x9A 0xCF, refl, refl),
      (gdt_gate 0 0xFFFFFFFF 0x92 0xCF, refl, refl),
      (gdt_gate 0 0xFFFFFFFF 0xFA 0xCF, refl, refl),
      (gdt_gate 0 0xFFFFFFFF 0xF2 0xCF, refl, refl),
      (gdt_gate tss tss_size 0xE9 0, refl, g.same_base, g.same_limit),
    )
