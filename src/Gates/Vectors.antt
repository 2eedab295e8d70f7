-- ===== src/Gates/Vectors.antt =====
-- Which stub an interrupt reaches through the table that `InitIDT` writes.
use toy_kernel.Base.{
  ℕ, zero, suc, ◌+◌, ◌*◌, ◌/◌, ◌^◌, ◌≤◌, ◌<◌, ◌≡◌, refl, ◌⊎◌, sym, ap, subst, ◌∙◌, true, false,
  length, get_or, arith, List, [], ◌∷◌, ◌==◌, update, inl, inr,
}
use toy_kernel.Gates.{IdtEntry, idt_gate, set_gates, Stubs, init_idt}
use toy_kernel.Gates.Masks.{and_ones}

abbrev pub handler_of : IdtEntry → ℕ
handler_of e = e.base_lo + e.base_hi * 2 ^ 16

-- A gate into the kernel's code segment.
pub record Leads (stub flags : ℕ) (e : IdtEntry) : Type 0 where
  pub to_stub : handler_of e ≡ stub
  pub with_flags : e.flags ≡ flags
  pub in_kernel_code : e.sel ≡ 0x08

idt_gate-Leads : (stub flags : ℕ) → stub < 2 ^ 32 → Leads stub flags (idt_gate stub 0x08 flags)
unfolding idt_gate
idt_gate-Leads stub flags word = record {
  to_stub = omega (arith, and_ones 16 stub, and_ones 16 (stub / 2 ^ 16));
  with_flags = refl;
  in_kernel_code = refl;
}

set_gates-outside :
    (first : ℕ) (stubs : List ℕ) (t : ℕ → IdtEntry) (n : ℕ)
    → (n < first) ⊎ (first + length stubs ≤ n)
    → set_gates first stubs t n ≡ t n
unfolding set_gates
set_gates-outside first [] t n out = refl
set_gates-outside first (stub ∷ stubs) t n out =
    let apart : (n == first) ≡ false = elim out [ inl p ↦ ground arith | inr q ↦ ground arith ] in
    let out' : (n < first + 1) ⊎ (first + 1 + length stubs ≤ n) = elim out [
      | inl p ↦ inl (omega arith)
      | inr q ↦ inr (omega arith)
    ] in
    set_gates-outside (first + 1) stubs (update t first (idt_gate stub 0x08 0x8E)) n out'
    ∙ rw apart refl

set_gates-inside :
    (first : ℕ) (stubs : List ℕ) (t : ℕ → IdtEntry) (i : ℕ)
    → i < length stubs
    → set_gates first stubs t (first + i) ≡ idt_gate (get_or stubs i 0) 0x08 0x8E
unfolding set_gates
set_gates-inside first [] t i lt = absurd (omega arith)
set_gates-inside first (stub ∷ stubs) t zero lt =
    let here : (first + 0 == first) ≡ true = ground arith in
    set_gates-outside (first + 1) stubs (update t first (idt_gate stub 0x08 0x8E)) (first + 0)
      (inl (omega arith))
    ∙ rw here refl
set_gates-inside first (stub ∷ stubs) t (suc i) lt =
    ap (set_gates (first + 1) stubs (update t first (idt_gate stub 0x08 0x8E))) (omega arith)
    ∙ set_gates-inside (first + 1) stubs (update t first (idt_gate stub 0x08 0x8E)) i (omega arith)

set_gates-from_start :
    (stubs : List ℕ) (t : ℕ → IdtEntry) (n : ℕ)
    → n < length stubs
    → set_gates 0 stubs t n ≡ idt_gate (get_or stubs n 0) 0x08 0x8E
set_gates-from_start stubs t n lt =
    ap (set_gates 0 stubs t) (omega arith) ∙ set_gates-inside 0 stubs t n lt

-- The stubs are 30 of exceptions and 16 of devices beside the other three, at 32-bit addresses.
pub record AreStubs (s : Stubs) : Type 0 where
  pub isrs : length s.isrs ≡ 30
  pub irqs : length s.irqs ≡ 16
  pub isr_words : (i : ℕ) → get_or s.isrs i 0 < 2 ^ 32
  pub irq_words : (i : ℕ) → get_or s.irqs i 0 < 2 ^ 32
  pub word31 : s.isr31 < 2 ^ 32
  pub word128 : s.isr128 < 2 ^ 32

module _ (s : Stubs) (w : AreStubs s) where
  above_irqs : (t : ℕ → IdtEntry) (n : ℕ) → (n < 32) ⊎ (48 ≤ n) → set_gates 32 s.irqs t n ≡ t n
  above_irqs t n out =
      set_gates-outside 32 s.irqs t n
        (elim out [ inl p ↦ inl p | inr q ↦ inr (omega (arith, w.irqs)) ])

  exception_gate : (n : ℕ) → n < 30 → init_idt s n ≡ idt_gate (get_or s.isrs n 0) 0x08 0x8E
  unfolding init_idt
  exception_gate n lt =
      let a : (n == 128) ≡ false = ground arith in
      let b : (n == 31) ≡ false = ground arith in
      let c : (n == 39) ≡ false = ground arith in
      rw a (
        above_irqs _ n (inl (omega arith))
        ∙ rw (b, c) (set_gates-from_start s.isrs _ n (omega (arith, w.isrs))))

  device_gate : (n : ℕ) → n < 16 → init_idt s (32 + n) ≡ idt_gate (get_or s.irqs n 0) 0x08 0x8E
  unfolding init_idt
  device_gate n lt =
      let a : (32 + n == 128) ≡ false = ground arith in
      rw a (set_gates-inside 32 s.irqs _ n (omega (arith, w.irqs)))

  gate_31 : init_idt s 31 ≡ idt_gate s.isr31 0x08 0x8E
  unfolding init_idt
  gate_31 = above_irqs _ 31 (inl (omega arith))

  gate_128 : init_idt s 128 ≡ idt_gate s.isr128 0x08 0xEE
  unfolding init_idt
  gate_128 = refl

  gate_30 : (init_idt s 30).flags ≡ 0
  unfolding init_idt
  gate_30 =
      ap (λ z. z.flags)
        (above_irqs _ 30 (inl (omega arith))
          ∙ set_gates-outside 0 s.isrs _ 30 (inr (omega (arith, w.isrs))))

  -- After `InitIDT` the vectors below 30 and vector 31 lead to the stubs of their exceptions and those
  -- from 32 to 47 to the stubs of their devices, with the flags 0x8E of a gate of ring 0. Vector 128
  -- leads to isr128 with the flags 0xEE of a gate of ring 3. Vector 30 has no gate that is present. The
  -- stubs' addresses have 32 bits.
  pub init_idt-Leads :
      ((n : ℕ) → n < 30 → Leads (get_or s.isrs n 0) 0x8E (init_idt s n))
      × Leads s.isr31 0x8E (init_idt s 31)
      × ((n : ℕ) → n < 16 → Leads (get_or s.irqs n 0) 0x8E (init_idt s (32 + n)))
      × Leads s.isr128 0xEE (init_idt s 128)
      × ((init_idt s 30).flags / 2 ^ 7 ≡ 0)
  init_idt-Leads = (
    λ n lt.
        subst (Leads (get_or s.isrs n 0) 0x8E) (sym (exception_gate n lt))
          (idt_gate-Leads _ 0x8E (w.isr_words n)),
    subst (Leads s.isr31 0x8E) (sym gate_31) (idt_gate-Leads _ 0x8E w.word31),
    λ n lt.
        subst (Leads (get_or s.irqs n 0) 0x8E) (sym (device_gate n lt))
          (idt_gate-Leads _ 0x8E (w.irq_words n)),
    subst (Leads s.isr128 0xEE) (sym gate_128) (idt_gate-Leads _ 0xEE w.word128),
    ap (λ z. z / 2 ^ 7) gate_30,
  )
