-- ===== src/Gates/Tests.antt =====
-- The tables for a TSS at 4 MB and stubs at made-up addresses.
use toy_kernel.Base.{
  ℕ, zero, suc, ◌+◌, ◌/◌, ◌^◌, ◌<◌, ◌≡◌, refl, arith, get_or, replicate, some, get_elem?,
}
use toy_kernel.Task.{kernel_code_segment, kernel_data_segment, user_code_segment, user_data_segment}
use toy_kernel.Gates.{GdtEntry, init_gdt, tss_size, Stubs, init_idt}
use toy_kernel.Gates.Segments.{base_of, limit_of, HasRing, init_gdt-HasRing}
use toy_kernel.Gates.Vectors.{Leads, AreStubs, init_idt-Leads}

init_gdt-HasRing_example :
    HasRing kernel_code_segment (init_gdt 0x400000)
    × HasRing kernel_data_segment (init_gdt 0x400000)
    × HasRing user_code_segment (init_gdt 0x400000)
    × HasRing user_data_segment (init_gdt 0x400000)
    × ((e : GdtEntry) × (get_elem? (init_gdt 0x400000) 5 ≡ some e)
        × (base_of e ≡ 0x400000)
        × (limit_of e ≡ tss_size))
init_gdt-HasRing_example = init_gdt-HasRing 0x400000 (omega arith)

abbrev stubs : Stubs
stubs = record {
  isrs = replicate 30 0x401000;
  isr30 = 0x402000;
  isr31 = 0x403000;
  irqs = replicate 16 0x404000;
  isr128 = 0x405000;
}

replicate-lt : (k n i : ℕ) → n < 2 ^ 32 → get_or (replicate k n) i 0 < 2 ^ 32
replicate-lt zero n i lt = omega arith
replicate-lt (suc k) n zero lt = lt
replicate-lt (suc k) n (suc i) lt = replicate-lt k n i lt

stubs-AreStubs : AreStubs stubs
stubs-AreStubs = record {
  isrs = refl;
  irqs = refl;
  isr_words = λ i. replicate-lt 30 0x401000 i (omega arith);
  irq_words = λ i. replicate-lt 16 0x404000 i (omega arith);
  word31 = omega arith;
  word128 = omega arith;
}

init_idt-Leads_example :
    ((n : ℕ) → n < 30 → Leads (get_or (replicate 30 0x401000) n 0) 0x8E (init_idt stubs n))
    × Leads 0x403000 0x8E (init_idt stubs 31)
    × ((n : ℕ) → n < 16 → Leads (get_or (replicate 16 0x404000) n 0) 0x8E (init_idt stubs (32 + n)))
    × Leads 0x405000 0xEE (init_idt stubs 128)
    × ((init_idt stubs 30).flags / 2 ^ 7 ≡ 0)
init_idt-Leads_example = init_idt-Leads stubs stubs-AreStubs
