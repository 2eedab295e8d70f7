-- ===== src/Interrupts/Controllers.antt =====
-- The two interrupt controllers, by their documentation, and what `irq_handler` does to them.
use toy_kernel.Base.{
  ℕ, ◌+◌, ◌-◌, ◌<◌, ◌≡◌, refl, ap, ◌∙◌, true, false, Bool, Option, some, none, Outcome, stop, check,
  ◌>>◌, ◌>>=◌, List, [], ◌∷◌, ◌++◌, append_assoc, ltb, leb, ◌==◌, ◌&&◌, if◌then◌else◌, arith,
  Bool-cases, inl, inr, ok, not,
}
use toy_kernel.Task.{X86Registers, Next}
use toy_kernel.Interrupts.{Kernel, Handler, Handlers, write8, irq_handler}

-- The interrupts that each controller has given to the processor and waits for the end of, the last
-- first. The slave is on line 2 of the master.
pub record Controllers : Type 0 where
  pub master : List ℕ
  pub slave : List ℕ

abbrev pub idle : Controllers
idle = record { master = []; slave = [] }

-- An interrupt request of the lines 0 to 15 goes to the processor.
abbrev pub raise : (irq : ℕ) → Controllers → Controllers
raise irq c =
    if ltb irq 8
    then record c { master = irq ∷ c.master }
    else record { master = 2 ∷ c.master; slave = (irq - 8) ∷ c.slave }

abbrev tail : List ℕ → List ℕ
tail [] = []
tail (x ∷ xs) = xs

-- A write to a port of a controller: 0x20 at its command port ends the last interrupt.
abbrev pub port_write : ℕ × ℕ → Controllers → Controllers
port_write (port, value) c =
    if (port == 0x20) && (value == 0x20)
    then record c { master = tail c.master }
    else if (port == 0xA0) && (value == 0x20)
    then record c { slave = tail c.slave }
    else c

abbrev pub port_writes : List (ℕ × ℕ) → Controllers → Controllers
port_writes [] c = c
port_writes (w ∷ ws) c = port_writes ws (port_write w c)

check_passes : {A : Type 0} (b : Bool) (m : Outcome A) → b ≡ true → (check b >> m) ≡ m
check_passes true m h = refl
check_passes false m h = cc

irq_handler-runs :
    (handler : Handler) (t : Handlers) (regs : X86Registers) (k : Kernel) (b : Bool)
    → k.scheduler.interrupts ≡ false
    → ltb regs.int_no 256 ≡ true
    → t regs.int_no ≡ some handler
    → leb 40 regs.int_no ≡ b
    → irq_handler t regs k ≡ handler regs (write8 0x20 0x20 (if b then write8 0xA0 0x20 k else k))
unfolding irq_handler
irq_handler-runs handler t regs k b off inside found slave =
    let k2 : Bool → Kernel = λ b'. write8 0x20 0x20 (if b' then write8 0xA0 0x20 k else k) in
    let run : Option Handler → Outcome (Next × Kernel) =
      λ o. elim o [ some h ↦ h regs (k2 (leb 40 regs.int_no)) | none ↦ stop ] in
    check_passes (not k.scheduler.interrupts) _ (ap not off)
    ∙ ap (λ m. m >>= run) (check_passes (ltb regs.int_no 256) (ok (t regs.int_no)) inside)
    ∙ ap run found
    ∙ ap (λ b'. handler regs (k2 b')) slave

-- An interrupt request of any of the lines, which comes while the interrupts are off and the number of
-- which has a handler: the handler is run with the scheduler as it was, after writes to the ports that
-- leave both controllers waiting for nothing but what they waited for before the request.
pub irq_handler-raise :
    (irq : ℕ) (handler : Handler) (t : Handlers) (regs : X86Registers) (k : Kernel)
    (c : Controllers)
    → irq < 16
    → regs.int_no ≡ 32 + irq
    → t (32 + irq) ≡ some handler
    → k.scheduler.interrupts ≡ false
    → (writes : List (ℕ × ℕ)) × (irq_handler t regs k
        ≡ handler regs (record k { ports = k.ports ++ writes }))
      × (port_writes writes (raise irq c) ≡ c)
irq_handler-raise irq handler t regs k c line number registered off =
    let inside : ltb regs.int_no 256 ≡ true = ground arith in
    let found = ap t number ∙ registered in
    elim (Bool-cases (ltb irq 8)) [
      | inl e ↦
          let first : leb 40 regs.int_no ≡ false = ground arith in
          (
            (0x20, 0x20) ∷ [],
            irq_handler-runs handler t regs k false off inside found first,
            rw e refl,
          )
      | inr e ↦
          let second : leb 40 regs.int_no ≡ true = ground arith in
          (
            (0xA0, 0x20) ∷ (0x20, 0x20) ∷ [],
            irq_handler-runs handler t regs k true off inside found second
                ∙ ap (λ ports. handler regs (record k { ports = ports }))
                    (append_assoc k.ports ((0xA0, 0x20) ∷ []) ((0x20, 0x20) ∷ [])),
            rw e refl,
          )
    ]
