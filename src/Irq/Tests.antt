-- ===== src/Irq/Tests.antt =====
-- The theorems on arch/x86_64/idt/idt.cpp at concrete tables.
use helix_kernel.Prelude.{
  ℕ, ◌-◌, ◌≤◌, ◌<◌, ◌≡◌, refl, true, false, none, some, List, [], ◌∷◌, arith, inl, inr,
}
use helix_kernel.Irq.{
  Idt, IrqTable, initial_table, set_entry, register_irq, remove_irq, unmask_irq, mask_irq,
  stub_handler, initialise, isr_entry,
}
use helix_kernel.Irq.Descriptor.{offset, initialise_lem}
use helix_kernel.Irq.Ownership.{
  Op, register, remove, unmask, mask, run, run-same, register_irq-cycle,
}

abbrev keyboard : IrqTable
keyboard =
    set_entry initial_table 1
      (record { protection_key = 0x5000; irq = 1; handler = 0x4000; used = true; masked = false })

abbrev attack : List Op
attack = remove 1 0x6000 ∷ register 0x7000 1 0x8000 ∷ mask 1 0 ∷ unmask 2 0x5000 ∷ []

run-same_example : run attack keyboard 1 ≡ keyboard 1
unfolding set_entry
run-same_example =
    run-same attack keyboard 1 0x5000 refl refl
      (inr (omega arith), (tt, (inr (omega arith), (inl (omega arith), tt))))

register_irq-cycle_example :
    let (got, t1) = register_irq 0x5000 1 0x4000 initial_table in
    let t2 = unmask_irq 1 0x5000 t1 in
    let t3 = mask_irq 1 0x5000 t2 in
    let t4 = remove_irq 1 0x5000 t2 in
    (got ≡ 0x5000)
    × (stub_handler 1 t1 ≡ none)
    × (stub_handler 1 t2 ≡ some 0x4000)
    × (stub_handler 1 t3 ≡ none)
    × (stub_handler 1 t4 ≡ none)
    × ((t4 1).used ≡ false)
unfolding initial_table
register_irq-cycle_example =
    register_irq-cycle 0x5000 1 0x4000 initial_table (omega arith) (omega arith) (omega arith) refl

abbrev empty : Idt
empty = record { entries = λ v. isr_entry 0 false; set_vectors = λ v. false }

abbrev stubs : ℕ → ℕ
stubs i = 0xffffffff80001000

initialise_lem_example :
    (40 < 32
      → (offset ((initialise stubs stubs empty).entries 40) ≡ stubs 40)
        × ((initialise stubs stubs empty).set_vectors 40 ≡ true))
    × (32 ≤ 40
        → 40 < 48
        → (offset ((initialise stubs stubs empty).entries 40) ≡ stubs (40 - 32))
          × ((initialise stubs stubs empty).set_vectors 40 ≡ true))
    × (48 ≤ 40
        → ((initialise stubs stubs empty).entries 40 ≡ empty.entries 40)
          × ((initialise stubs stubs empty).set_vectors 40 ≡ empty.set_vectors 40))
initialise_lem_example = initialise_lem stubs stubs empty 40 (λ i. omega arith) (λ i. omega arith)
