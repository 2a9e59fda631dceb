-- ===== src/Uacpi/Install.antt =====
-- Which handler an interrupt runs after uacpi_kernel_install_interrupt_handler of
-- extra/uacpi/uacpi_kernel_wrapper.cpp.
use helix_kernel.Prelude.{
  ℕ, ◌%◌, ◌^◌, ◌≤◌, ◌<◌, ◌≡◌, ◌≢◌, ◌⊎◌, inr, refl, true, false, none, some, arith, ltb,
}
use helix_kernel.Irq.{
  IrqEntry, IrqTable, num_irqs, set_entry, register_irq, unmask_irq, stub_handler,
}
use helix_kernel.Uacpi.{
  Interrupts, ok, set_hook, irq_trampoline, install_interrupt_handler, interrupt,
}

-- The tables after `unmask_irq`.
abbrev pub unmasked : ℕ → ℕ → Interrupts → Interrupts
unmasked irq key s = record s { irqs = unmask_irq irq key s.irqs }

abbrev registered : ℕ → ℕ → ℕ → IrqEntry
registered key irq handler = record {
  protection_key = key;
  irq = irq;
  handler = handler;
  used = true;
  masked = true;
}

register_irq-unused :
    (key irq handler : ℕ) (t : IrqTable)
    → irq < num_irqs
    → handler ≢ 0
    → (t irq).used ≡ false
    → register_irq key irq handler t ≡ (key, set_entry t irq (registered key irq handler))
unfolding register_irq
register_irq-unused key irq handler t lt nh free = ground arith

register_irq-taken :
    (key irq handler : ℕ) (t : IrqTable)
    → (num_irqs ≤ irq) ⊎ ((t irq).used ≡ true)
    → register_irq key irq handler t ≡ (0, t)
unfolding register_irq
register_irq-taken key irq handler t taken = ground arith

stub_handler-used :
    (irq handler : ℕ) (t : IrqTable) → stub_handler irq t ≡ some handler → (t irq).used ≡ true
unfolding stub_handler
stub_handler-used irq handler t calls = ground arith

module _ (trampoline : ℕ) (t_set : trampoline ≢ 0) where
  -- On a free interrupt below 16, with a handler and a `malloc` that succeeds,
  -- `uacpi_kernel_install_interrupt_handler` gives the protection key; the interrupt runs nothing
  -- until `unmask_irq` with that key, and from then on the handler with its pointer.
  pub install_interrupt_handler-unmask_irq :
      (key irq handler ctx : ℕ) (s : Interrupts)
      → irq < num_irqs
      → key ≢ 0
      → handler ≢ 0
      → (s.irqs irq).used ≡ false
      → (s' : Interrupts) × (install_interrupt_handler trampoline key irq handler ctx s
          ≡ some (ok, key, s'))
        × (interrupt trampoline irq s' ≡ none)
        × (interrupt trampoline irq (unmasked irq key s') ≡ some (handler, ctx))
  unfolding install_interrupt_handler interrupt set_hook irq_trampoline unmask_irq stub_handler
      set_entry
  install_interrupt_handler-unmask_irq key irq handler ctx s lt nk nh free =
      let small : irq % 2 ^ 8 ≡ irq = omega arith in
      let inside : ltb irq 256 ≡ true = ground arith in
      let s' : Interrupts = record {
        hooks = set_hook s.hooks irq (record { handler = handler; ctx = ctx });
        irqs = set_entry s.irqs irq (registered key irq trampoline);
      } in
      (
        s',
        rw (small, inside, register_irq-unused key irq trampoline s.irqs lt t_set free),
        ground arith,
        ground arith,
      )

  -- Where the interrupt is below 16 and runs what an earlier call of this kind installed, the call
  -- returns OK and no key and leaves the interrupt manager as it was, and yet the interrupt runs
  -- the new handler from now on.
  pub install_interrupt_handler-taken :
      (key irq handler ctx : ℕ) (s : Interrupts)
      → irq < num_irqs
      → handler ≢ 0
      → stub_handler irq s.irqs ≡ some trampoline
      → (s' : Interrupts) × (install_interrupt_handler trampoline key irq handler ctx s
          ≡ some (ok, 0, s'))
        × (s'.irqs ≡ s.irqs)
        × (interrupt trampoline irq s' ≡ some (handler, ctx))
  unfolding install_interrupt_handler interrupt set_hook irq_trampoline
  install_interrupt_handler-taken key irq handler ctx s lt nh calls =
      let used : (s.irqs irq).used ≡ true = stub_handler-used irq trampoline s.irqs calls in
      let small : irq % 2 ^ 8 ≡ irq = omega arith in
      let inside : ltb irq 256 ≡ true = ground arith in
      let s' : Interrupts = record s {
        hooks = set_hook s.hooks irq (record { handler = handler; ctx = ctx });
      } in
      (
        s',
        rw (small, inside, register_irq-taken key irq trampoline s.irqs (inr used)),
        refl,
        rw (interrupt, calls) (ground arith),
      )
