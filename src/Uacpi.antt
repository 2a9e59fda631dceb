-- ===== src/Uacpi.antt =====
-- extra/uacpi/uacpi_kernel_wrapper.cpp: the events and the interrupt handlers that uACPI asks the
-- kernel for. A handle is the address of its object, 0 for `nullptr`.
pub mod Wait
pub mod Install
mod Tests
use helix_kernel.Prelude.{
  List, [], ◌∷◌, ℕ, zero, suc, ◌+◌, ◌*◌, ◌%◌, ◌^◌, Bool, true, false, Option, none, some, ltb, ◌==◌,
  if◌then◌else◌,
}
use helix_kernel.Irq.{IrqTable, register_irq, stub_handler}

-- The `uacpi_status` values that these calls return.
pub data Status : Type 0 where
  ok internal_error unimplemented : Status

-- `event`: `signaled` by the address of the event.
abbrev pub Events : Type 0
Events = ℕ → Bool

unfoldable pub set_signaled : ℕ → Bool → Events → Events
set_signaled handle b e x = if x == handle then b else e x

-- `uacpi_kernel_create_event`: the address is what `malloc` returned, and `none` is the write
-- through `nullptr`.
unfoldable pub create_event : ℕ → Events → Option (ℕ × Events)
create_event fresh e = if fresh == 0 then none else some (fresh, set_signaled fresh false e)

unfoldable pub signal_event : ℕ → Events → Events
signal_event handle e = if handle == 0 then e else set_signaled handle true e

unfoldable pub reset_event : ℕ → Events → Events
reset_event handle e = if handle == 0 then e else set_signaled handle false e

-- What runs beside a waiting call.
pub data Between : Type 0 where
  quiet : Between
  signals resets : (handle : ℕ) → Between

unfoldable pub happen : Between → Events → Events
happen quiet e = e
happen (signals handle) e = signal_event handle e
happen (resets handle) e = reset_event handle e

-- What runs between two reads, in order.
unfoldable pub happen_all : List Between → Events → Events
happen_all [] e = e
happen_all (b ∷ bs) e = happen_all bs (happen b e)

-- `while (!e->signaled) pause;`, on fuel, from a turn on: each turn has what runs behind it. Every
-- turn reads the event again; `signaled` is not volatile, so that is up to the compiler.
unfoldable pub spin : ℕ → ℕ → ℕ → (ℕ → List Between) → Events → Option Bool
spin zero handle turn others e = none
spin (suc fuel) handle turn others e =
    let rest = spin fuel handle (turn + 1) others (happen_all (others turn) e) in
    if e handle then some true else rest

-- `uacpi_kernel_wait_for_event`: `none` is a call that has not returned yet.
unfoldable pub wait_for_event : ℕ → ℕ → ℕ → (ℕ → List Between) → Events → Option Bool
wait_for_event fuel handle timeout others e =
    if handle == 0
    then some false
    else if timeout == 0x0000
    then some (e handle)
    else if timeout == 0xFFFF
    then spin fuel handle 0 others e
    else spin fuel handle 0 others e

-- `irq_entry` of the wrapper.
pub record Hook : Type 0 where
  pub handler : ℕ
  pub ctx : ℕ

-- The wrapper's `irq_table`, and the table of the interrupt manager.
pub record Interrupts : Type 0 where
  pub hooks : ℕ → Hook
  pub irqs : IrqTable

-- `irq_trampoline`: the handler that it calls and the pointer that it passes.
unfoldable pub irq_trampoline : ℕ → (ℕ → Hook) → Option (ℕ × ℕ)
irq_trampoline irq hooks =
    if (hooks irq).handler == 0 then none else some ((hooks irq).handler, (hooks irq).ctx)

unfoldable pub set_hook : (ℕ → Hook) → ℕ → Hook → ℕ → Hook
set_hook hooks irq h i = if i == irq then h else hooks i

-- `trampoline` is the address of `irq_trampoline`.
module _ (trampoline : ℕ) where
  -- `uacpi_kernel_install_interrupt_handler`: the status, `*out_irq_handle` and the tables. `key`
  -- is what `malloc(1)` returns if it is called; `none` is a write outside `irq_table`.
  unfoldable pub install_interrupt_handler :
      ℕ → ℕ → ℕ → ℕ → Interrupts → Option (Status × ℕ × Interrupts)
  install_interrupt_handler key irq irq_handler ctx s =
      let hooks = set_hook s.hooks irq (record { handler = irq_handler; ctx = ctx }) in
      let (handle, irqs) = register_irq key (irq % 2 ^ 8) trampoline s.irqs in
      if ltb irq 256 then some (ok, handle, record { hooks = hooks; irqs = irqs }) else none

  -- What an interrupt runs of uACPI: `irq_stub_handler_<num>` and, if it calls the trampoline,
  -- the trampoline.
  unfoldable pub interrupt : ℕ → Interrupts → Option (ℕ × ℕ)
  interrupt num s = elim (stub_handler num s.irqs) [
    | none ↦ none
    | some handler ↦ if handler == trampoline then irq_trampoline num s.hooks else none
  ]

-- `uacpi_kernel_uninstall_interrupt_handler`
unfoldable pub uninstall_interrupt_handler : ℕ → Interrupts → Status × Interrupts
uninstall_interrupt_handler irq_handle s = (internal_error, s)

-- `uacpi_kernel_schedule_work` and `uacpi_kernel_wait_for_work_completion`
abbrev pub schedule_work : Status
schedule_work = unimplemented

abbrev pub wait_for_work_completion : Status
wait_for_work_completion = ok

-- `for (i = 0; i < n; i++);`, on fuel: `i` at the end.
unfoldable pub empty_loop : ℕ → ℕ → ℕ → Option ℕ
empty_loop zero i n = none
empty_loop (suc fuel) i n = let rest = empty_loop fuel (i + 1) n in if ltb i n then rest else some i

-- `uacpi_kernel_stall`: `usec` is a `uint8_t`, so the `int` holds the product.
unfoldable pub stall : ℕ → ℕ → Option ℕ
stall fuel usec = empty_loop fuel 0 (usec % 2 ^ 8 * 100000)

-- `uacpi_kernel_sleep`
unfoldable pub sleep : ℕ → ℕ → Option ℕ
sleep fuel msec = empty_loop fuel 0 (msec * 1000 % 2 ^ 64)

-- `uacpi_kernel_get_nanoseconds_since_boot` and `uacpi_kernel_get_thread_id`
abbrev pub nanoseconds_since_boot : ℕ
nanoseconds_since_boot = 0

abbrev pub thread_id : ℕ
thread_id = 1

-- `uacpi_kernel_disable_interrupts` and `uacpi_kernel_restore_interrupts`: the interrupt flag of
-- the processor; the state that is handed out is 0.
unfoldable pub disable_interrupts : Bool → ℕ × Bool
disable_interrupts flag = (0, false)

unfoldable pub restore_interrupts : ℕ → Bool → Bool
restore_interrupts state flag = true

-- `uacpi_firmware_request`, by its type.
pub data FirmwareRequest : Type 0 where
  breakpoint fatal unknown : FirmwareRequest

-- `uacpi_kernel_handle_firmware_request`: `none` is `panic`, which does not return.
unfoldable pub handle_firmware_request : FirmwareRequest → Option Status
handle_firmware_request breakpoint = some ok
handle_firmware_request fatal = none
handle_firmware_request unknown = some ok

-- `uacpi_kernel_alloc`, `uacpi_kernel_alloc_zeroed` and `uacpi_kernel_free` on a heap.
module _ {ℓ} {H : Type ℓ} where
  unfoldable pub kernel_alloc : (ℕ → H → ℕ × H) → ℕ → H → ℕ × H
  kernel_alloc malloc size h = malloc size h

  unfoldable pub alloc_zeroed : (ℕ → ℕ → H → ℕ × H) → ℕ → H → ℕ × H
  alloc_zeroed calloc size h = calloc 1 size h

  unfoldable pub kernel_free : (ℕ → H → H) → ℕ → H → H
  kernel_free free mem h = free mem h
