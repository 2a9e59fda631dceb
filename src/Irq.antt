-- ===== src/Irq.antt =====
-- arch/x86_64/idt/idt.cpp: the descriptor table, and the table of interrupt handlers with its
-- protection keys. A key is the address that `malloc(1)` returned, 0 for `nullptr`.
pub mod Descriptor
pub mod Ownership
mod Tests
use helix_kernel.Prelude.{
  ℕ, zero, suc, ◌+◌, ◌*◌, ◌/◌, ◌%◌, ◌^◌, Bool, true, false, Option, none, some, List, [], ◌∷◌, ltb,
  leb, ◌==◌, if◌then◌else◌, not,
}

-- `irq_entry`; a handler is the address of its function.
pub record IrqEntry : Type 0 where
  pub protection_key : ℕ
  pub irq : ℕ
  pub handler : ℕ
  pub used : Bool
  pub masked : Bool

abbrev pub IrqTable : Type 0
IrqTable = ℕ → IrqEntry

abbrev pub num_irqs : ℕ
num_irqs = 16

-- The initialiser names the members of the first entry; those of the others are zero.
unfoldable pub initial_table : IrqTable
initial_table irq = record {
  protection_key = 0;
  irq = 0;
  handler = 0;
  used = false;
  masked = irq == 0;
}

unfoldable pub set_entry : IrqTable → ℕ → IrqEntry → IrqTable
set_entry t irq e i = if i == irq then e else t i

-- `register_irq`: the key and the table. `key` is what `malloc(1)` returns if it is called.
unfoldable pub register_irq : ℕ → ℕ → ℕ → IrqTable → ℕ × IrqTable
register_irq key irq handler t =
    if leb num_irqs irq
    then (0, t)
    else if handler == 0
    then (0, t)
    else if (t irq).used
    then (0, t)
    else (
      key,
      set_entry t irq (record {
        protection_key = key;
        irq = irq;
        handler = handler;
        used = true;
        masked = true;
      }),
    )

unfoldable pub remove_irq : ℕ → ℕ → IrqTable → IrqTable
remove_irq irq key t =
    if leb num_irqs irq
    then t
    else if key == 0
    then t
    else if not (t irq).used
    then t
    else if (t irq).protection_key == key
    then set_entry t irq
        (record { protection_key = 0; irq = 0; handler = 0; used = false; masked = true })
    else t

unfoldable pub unmask_irq : ℕ → ℕ → IrqTable → IrqTable
unmask_irq irq key t =
    if leb num_irqs irq
    then t
    else if not ((t irq).protection_key == key)
    then t
    else set_entry t irq (record (t irq) { masked = false })

unfoldable pub mask_irq : ℕ → ℕ → IrqTable → IrqTable
mask_irq irq key t =
    if leb num_irqs irq
    then t
    else if not ((t irq).protection_key == key)
    then t
    else set_entry t irq (record (t irq) { masked = true })

-- `irq_stub_handler_<num>`: the handler that it calls, if any.
unfoldable pub stub_handler : ℕ → IrqTable → Option ℕ
stub_handler num t =
    if not (t num).used then none else if (t num).masked then none else some (t num).handler

-- `idt_entry_t`
pub record IdtEntry : Type 0 where
  pub isr_offset_low : ℕ
  pub gdt_selector : ℕ
  pub ist : ℕ
  pub flags : ℕ
  pub isr_offset_middle : ℕ
  pub isr_offset_high : ℕ
  pub always_zero : ℕ

-- `register_isr`: the descriptor that it writes.
unfoldable pub isr_entry : ℕ → Bool → IdtEntry
isr_entry isr_handler user_interrupt = record {
  isr_offset_low = isr_handler % 2 ^ 16;
  gdt_selector = 0x08;
  ist = 1;
  flags = if user_interrupt then 0xEE else 0x8E;
  isr_offset_middle = isr_handler / 2 ^ 16 % 2 ^ 16;
  isr_offset_high = isr_handler / 2 ^ 32 % 2 ^ 32;
  always_zero = 0;
}

-- `idt_table` and `idt_set_vectors`
pub record Idt : Type 0 where
  pub entries : ℕ → IdtEntry
  pub set_vectors : ℕ → Bool

-- The vector is a `uint8_t`.
unfoldable pub register_isr : ℕ → ℕ → Bool → Idt → Idt
unfolding isr_entry
register_isr vector isr_handler user_interrupt t = record {
  entries = λ v. if v == vector % 2 ^ 8 then isr_entry isr_handler user_interrupt else t.entries v;
  set_vectors = λ v. if v == vector % 2 ^ 8 then true else t.set_vectors v;
}

-- `for (i = first; ...; i++) register_isr(i, stub_table[i - first], false)`, with the rounds left.
unfoldable pub register_from : ℕ → ℕ → ℕ → (ℕ → ℕ) → Idt → Idt
register_from zero first i stub_table t = t
register_from (suc r) first i stub_table t =
    register_from r first (i + 1) stub_table (register_isr (first + i) (stub_table i) false t)

-- `initialise`: 32 exception vectors and 16 interrupt vectors.
unfoldable pub initialise : (ℕ → ℕ) → (ℕ → ℕ) → Idt → Idt
initialise exception_stub_table irq_stub_table t =
    register_from 16 0x20 0 irq_stub_table (register_from 32 0 0 exception_stub_table t)
