-- ===== src/Gates.antt =====
-- The descriptor tables of kernel/descriptortables.cpp: the GDT, the TSS and the IDT.
pub mod Masks
pub mod Segments
pub mod Vectors
mod Tests
use toy_kernel.Base.{
  ℕ, ◌+◌, ◌-◌, ◌*◌, ◌/◌, ◌%◌, ◌^◌, bit_and, bit_or, List, [], ◌∷◌, ◌==◌, if◌then◌else◌, update,
}
use toy_kernel.Base.Bits.{shr}

-- `gdt_entry_t`
pub record GdtEntry : Type 0 where
  pub limit_low : ℕ
  pub base_low : ℕ
  pub base_middle : ℕ
  pub access : ℕ
  pub granularity : ℕ
  pub base_high : ℕ

-- `idt_entry_t`
pub record IdtEntry : Type 0 where
  pub base_lo : ℕ
  pub sel : ℕ
  pub always0 : ℕ
  pub flags : ℕ
  pub base_hi : ℕ

-- The fields of `tss_entry_t` that are not left at 0.
pub record TssEntry : Type 0 where
  pub esp0 : ℕ
  pub ss0 : ℕ
  pub es : ℕ
  pub cs : ℕ
  pub ss : ℕ
  pub ds : ℕ
  pub fs : ℕ
  pub gs : ℕ
  pub iomap_base : ℕ

-- What `GDTSetGate` writes.
unfoldable pub gdt_gate : (base limit access gran : ℕ) → GdtEntry
gdt_gate base limit access gran = record {
  base_low = bit_and base 0xFFFF;
  base_middle = bit_and (shr base 16) 0xFF;
  base_high = bit_and (shr base 24) 0xFF;
  limit_low = bit_and limit 0xFFFF;
  granularity = bit_or (bit_and (shr limit 16) 0x0F) (bit_and gran 0xF0);
  access = access;
}

-- What `IDTSetGate` writes.
unfoldable pub idt_gate : (base sel flags : ℕ) → IdtEntry
idt_gate base sel flags = record {
  base_lo = bit_and base 0xFFFF;
  base_hi = bit_and (shr base 16) 0xFFFF;
  sel = sel;
  always0 = 0;
  flags = flags;
}

abbrev pub tss_size : ℕ
tss_size = 104

-- `WriteTSS`: the TSS. Its descriptor is entry 5 of the table below.
unfoldable pub write_tss : (ss0 esp0 : ℕ) → TssEntry
write_tss ss0 esp0 = record {
  esp0 = esp0;
  ss0 = ss0;
  es = 0x13;
  cs = 0x0b;
  ss = 0x13;
  ds = 0x13;
  fs = 0x13;
  gs = 0x13;
  iomap_base = tss_size;
}

-- `set_kernel_stack`
unfoldable pub set_kernel_stack : (stack : ℕ) → TssEntry → TssEntry
set_kernel_stack stack t = record t { esp0 = stack }

-- The six entries that `InitGDT` writes, for a TSS at the given address.
unfoldable pub init_gdt : (tss_address : ℕ) → List GdtEntry
unfolding gdt_gate
init_gdt tss_address =
    gdt_gate 0 0 0 0
    ∷ gdt_gate 0 0xFFFFFFFF 0x9A 0xCF
    ∷ gdt_gate 0 0xFFFFFFFF 0x92 0xCF
    ∷ gdt_gate 0 0xFFFFFFFF 0xFA 0xCF
    ∷ gdt_gate 0 0xFFFFFFFF 0xF2 0xCF
    ∷ gdt_gate tss_address tss_size 0xE9 0x00
    ∷ []

abbrev pub dpl_user : ℕ
dpl_user = 0x60

-- Calls of `IDTSetGate` for the vectors from `first` on, with the stubs of the list.
unfoldable pub set_gates : (first : ℕ) → (stubs : List ℕ) → (ℕ → IdtEntry) → ℕ → IdtEntry
unfolding idt_gate
set_gates first [] t = t
set_gates first (stub ∷ stubs) t =
    set_gates (first + 1) stubs (update t first (idt_gate stub 0x08 0x8E))

-- The stubs of kernel/interrupt.S, by their addresses: isr0 to isr29, isr30, isr31, irq0 to irq15 and
-- isr128.
pub record Stubs : Type 0 where
  pub isrs : List ℕ
  pub isr30 : ℕ
  pub isr31 : ℕ
  pub irqs : List ℕ
  pub isr128 : ℕ

-- `InitIDT`, after the table is cleared: the gates in the order in which they are set. The gate of
-- isr30 is set at 39.
unfoldable pub init_idt : Stubs → ℕ → IdtEntry
unfolding set_gates
init_idt s =
    let cleared : ℕ → IdtEntry =
      λ n. record { base_lo = 0; sel = 0; always0 = 0; flags = 0; base_hi = 0 } in
    let exceptions = set_gates 0 s.isrs cleared in
    let with30 = update exceptions 39 (idt_gate s.isr30 0x08 0x8E) in
    let with31 = update with30 31 (idt_gate s.isr31 0x08 0x8E) in
    let with_irqs = set_gates 32 s.irqs with31 in
    update with_irqs 128 (idt_gate s.isr128 0x08 (bit_or 0x8E dpl_user))
