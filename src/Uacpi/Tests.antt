-- ===== src/Uacpi/Tests.antt =====
-- The calls of extra/uacpi/uacpi_kernel_wrapper.cpp at concrete tables.
use helix_kernel.Prelude.{
  ℕ, List, [], ◌∷◌, ◌≡◌, refl, true, false, none, some, ◌==◌, if◌then◌else◌, arith,
}
use helix_kernel.Irq.{initial_table, set_entry, stub_handler}
use helix_kernel.Uacpi.{
  Between, signals, resets, spin, happen_all, happen, signal_event, reset_event, set_signaled,
  Interrupts, ok, wait_for_event, install_interrupt_handler, interrupt, disable_interrupts,
  restore_interrupts,
}
use helix_kernel.Uacpi.Install.{
  unmasked, install_interrupt_handler-unmask_irq, install_interrupt_handler-taken,
}

-- Behind the third read a signal and its reset, behind the fourth a signal.
abbrev others : ℕ → List Between
others k =
    if k == 2
    then signals 0x6000 ∷ resets 0x6000 ∷ []
    else if k == 3
    then signals 0x6000 ∷ []
    else []

-- The signal behind the third read is missed; the one behind the fourth ends the wait.
waits :
    (wait_for_event 4 0x6000 1 others (λ x. false) ≡ none)
    × (wait_for_event 5 0x6000 1 others (λ x. false) ≡ some true)
unfolding wait_for_event spin happen_all happen signal_event reset_event set_signaled
waits = (refl, refl)

-- No handler yet.
abbrev fresh : Interrupts
fresh = record { hooks = λ irq. record { handler = 0; ctx = 0 }; irqs = initial_table }

install_interrupt_handler-unmask_irq_example :
    (s' : Interrupts) × (install_interrupt_handler 0x4000 0x5000 9 0x7000 0x8000 fresh
      ≡ some (ok, 0x5000, s'))
    × (interrupt 0x4000 9 s' ≡ none)
    × (interrupt 0x4000 9 (unmasked 9 0x5000 s') ≡ some (0x7000, 0x8000))
unfolding initial_table
install_interrupt_handler-unmask_irq_example =
    install_interrupt_handler-unmask_irq 0x4000 (omega arith) 0x5000 9 0x7000 0x8000 fresh
      (omega arith) (omega arith) (omega arith) refl

-- Interrupt 9 runs the handler at 0x7000.
abbrev busy : Interrupts
busy = record {
  hooks = λ irq. record { handler = 0x7000; ctx = 0x8000 };
  irqs =
      set_entry initial_table 9 (record {
        protection_key = 0x5000;
        irq = 9;
        handler = 0x4000;
        used = true;
        masked = false;
      });
}

install_interrupt_handler-taken_example :
    (s' : Interrupts) × (install_interrupt_handler 0x4000 0x5100 9 0x7100 0x8100 busy
      ≡ some (ok, 0, s'))
    × (s'.irqs ≡ busy.irqs)
    × (interrupt 0x4000 9 s' ≡ some (0x7100, 0x8100))
unfolding set_entry stub_handler
install_interrupt_handler-taken_example =
    install_interrupt_handler-taken 0x4000 (omega arith) 0x5100 9 0x7100 0x8100 busy (omega arith)
      (omega arith) refl

-- The inner of two nested sections enables interrupts that the outer one wants disabled.
nested_restore :
    let (outer, off) = disable_interrupts true in
    let (inner, still_off) = disable_interrupts off in restore_interrupts inner still_off ≡ true
unfolding disable_interrupts restore_interrupts
nested_restore = refl
