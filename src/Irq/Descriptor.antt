-- ===== src/Irq/Descriptor.antt =====
-- The descriptors that arch/x86_64/idt/idt.cpp writes.
use helix_kernel.Prelude.{
  ℕ, zero, suc, ◌+◌, ◌-◌, ◌*◌, ◌^◌, ◌≤◌, ◌<◌, ◌≡◌, Bool, true, false, arith, ltb, leb,
  if◌then◌else◌, ◌&&◌,
}
use helix_kernel.Irq.{IdtEntry, Idt, isr_entry, register_isr, register_from, initialise}

-- The address that the processor puts together from a descriptor.
unfoldable pub offset : IdtEntry → ℕ
offset e = e.isr_offset_low + e.isr_offset_middle * 2 ^ 16 + e.isr_offset_high * 2 ^ 32

pub offset-isr_entry :
    (isr_handler : ℕ) (user : Bool)
    → isr_handler < 2 ^ 64
    → offset (isr_entry isr_handler user) ≡ isr_handler
unfolding offset isr_entry
offset-isr_entry h user lt = omega arith

-- What the loop leaves at a vector.
register_from_lem :
    (r first i : ℕ) (stub_table : ℕ → ℕ) (t : Idt) (v : ℕ)
    → first + i + r ≤ 2 ^ 8
    → ((register_from r first i stub_table t).entries v ≡ (
        if leb (first + i) v && ltb v (first + i + r)
        then isr_entry (stub_table (v - first)) false
        else t.entries v))
      × ((register_from r first i stub_table t).set_vectors v
          ≡ (if leb (first + i) v && ltb v (first + i + r) then true else t.set_vectors v))
unfolding register_from register_isr
register_from_lem zero first i stubs t v h = ground arith
register_from_lem (suc r) first i stubs t v h =
    ground (
      arith,
      register_from_lem r first (i + 1) stubs (register_isr (first + i) (stubs i) false t) v,
    )

-- Every vector that `initialise` sets takes the first interrupt stack.
pub initialise-ist :
    (exceptions irqs : ℕ → ℕ) (t : Idt) (v : ℕ)
    → v < 48
    → ((initialise exceptions irqs t).entries v).ist ≡ 1
unfolding initialise isr_entry
initialise-ist exceptions irqs t v lt =
    let low = register_from_lem 32 0 0 exceptions t v (omega arith) in
    let high =
      register_from_lem 16 0x20 0 irqs (register_from 32 0 0 exceptions t) v (omega arith) in
    ground (arith, low, high)

-- `initialise` points the vectors below 32 at the exception stubs and the next 16 at the interrupt
-- stubs, marks them set, and leaves every other vector alone.
pub initialise_lem :
    (exceptions irqs : ℕ → ℕ) (t : Idt) (v : ℕ)
    → ((i : ℕ) → exceptions i < 2 ^ 64)
    → ((i : ℕ) → irqs i < 2 ^ 64)
    → (v < 32
        → (offset ((initialise exceptions irqs t).entries v) ≡ exceptions v)
          × ((initialise exceptions irqs t).set_vectors v ≡ true))
      × (32 ≤ v
          → v < 48
          → (offset ((initialise exceptions irqs t).entries v) ≡ irqs (v - 32))
            × ((initialise exceptions irqs t).set_vectors v ≡ true))
      × (48 ≤ v
          → ((initialise exceptions irqs t).entries v ≡ t.entries v)
            × ((initialise exceptions irqs t).set_vectors v ≡ t.set_vectors v))
unfolding initialise
initialise_lem exceptions irqs t v he hi =
    let low = register_from_lem 32 0 0 exceptions t v (omega arith) in
    let high =
      register_from_lem 16 0x20 0 irqs (register_from 32 0 0 exceptions t) v (omega arith) in
    (
      (λ lt. ground (arith, low, high, offset-isr_entry (exceptions v) false (he v))),
      (λ ge lt. ground (arith, low, high, offset-isr_entry (irqs (v - 32)) false (hi (v - 32)))),
      (λ ge. ground (arith, low, high)),
    )
