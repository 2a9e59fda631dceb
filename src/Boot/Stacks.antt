-- ===== src/Boot/Stacks.antt =====
-- The stack that main.cpp sets up for interrupts.
use helix_kernel.Prelude.{
  ℕ, ◌+◌, ◌-◌, ◌*◌, ◌/◌, ◌%◌, ◌^◌, ◌≤◌, ◌<◌, ◌≡◌, refl, ap, ◌∙◌, Option, none, some, ◌==◌,
  if◌then◌else◌, pos, arith, All,
}
use helix_kernel.Prelude.Bits.{bit_and-aligned}
use helix_kernel.Pmm.{Pmm}
use helix_kernel.Pmm.Table.{IsWell}
use helix_kernel.Pmm.Initialise
use helix_kernel.Pmm.Initialise.Table.{GoodEntry, AllApart, initialise-IsWell}
use helix_kernel.Paging.{Machine}
use helix_kernel.Gdt.{set_ist, put, at_most, one_less, same_index}
use helix_kernel.Irq.{IdtEntry}
use helix_kernel.Irq
use helix_kernel.Irq.Descriptor.{initialise-ist}
use helix_kernel.Boot.{Found, Kernel, ist1_top, start_segments, start_memory, main}

-- The interrupt stack that the processor switches to for a descriptor: `none` where the descriptor
-- names none, and the processor stays on the stack that it runs on.
unfoldable pub stack_of : Kernel → IdtEntry → Option ℕ
stack_of k e = if e.ist == 0 then none else some (k.tables.tss.ist (pos (e.ist - 1)))

ist1_top-aligned : (a : ℕ) → a + 65536 < 2 ^ 64 → ist1_top a ≡ (a + 65536) / 16 * 16
unfolding ist1_top
ist1_top-aligned a lt =
    let small : (a + 65536) % 2 ^ 64 ≡ a + 65536 = omega arith in
    rw small (bit_and-aligned (a + 65536) lt)

start_segments-ist : (f : Found) (a : ℕ) → (start_segments f a).tss.ist (pos 0) ≡ ist1_top a
unfolding start_segments set_ist put at_most one_less same_index
start_segments-ist f a = refl

stack_of_lem :
    (f : Found) (a : ℕ) (m : Machine) (v : ℕ)
    → a + 65552 ≤ 2 ^ 64
    → v < 48
    → let idt = Irq.initialise f.exception_stub_table f.irq_stub_table f.idt in
      stack_of (record { machine = m; tables = start_segments f a; idt = idt }) (idt.entries v)
      ≡ some ((a + 65536) / 16 * 16)
unfolding stack_of
stack_of_lem f a m v inside lt =
    rw (stack_of, initialise-ist f.exception_stub_table f.irq_stub_table f.idt v lt)
      (ap (λ x. some x) (start_segments-ist f a ∙ ist1_top-aligned a (omega arith)))

main-some :
    (malloc : ℕ → Machine → ℕ × Machine) (f : Found) (frames : Pmm)
    → Initialise.initialise f.entries ≡ some frames
    → let (a, m) = malloc (65536 + 16) (start_memory f frames) in
      let idt = Irq.initialise f.exception_stub_table f.irq_stub_table f.idt in
      main malloc f ≡ some (record { machine = m; tables = start_segments f a; idt = idt })
unfolding main
main-some malloc f frames started = rw (main, started) refl

-- For a memory map as `pmm::initialise` wants it (what it manages does not wrap, lies below 1 MiB
-- or has between a page and less than 256 MiB above it, and does not overlap), and a `malloc` that
-- gives 65552 bytes below the end of the address space, `main` gets to uACPI, `pmm::initialise` has
-- left a well-formed page allocator, and there is one address, a multiple of 16 with more than 65520
-- of these bytes below it, to whose stack the processor switches for each exception and interrupt.
pub main-stack :
    (malloc : ℕ → Machine → ℕ × Machine) (f : Found)
    → All GoodEntry f.entries
    → AllApart f.entries
    → ((m : Machine) → (malloc (65536 + 16) m).0 + 65552 ≤ 2 ^ 64)
    → (frames : Pmm) × (k : Kernel) × (top : ℕ) × (Initialise.initialise f.entries ≡ some frames)
      × IsWell frames
      × (main malloc f ≡ some k)
      × ((v : ℕ) → v < 48 → stack_of k (k.idt.entries v) ≡ some top)
      × (let a = (malloc (65536 + 16) (start_memory f frames)).0 in
          (top % 16 ≡ 0) × (a + 65520 < top) × (top ≤ a + 65552))
main-stack malloc f good apart inside =
    let (frames, started, well, fresh, once) = initialise-IsWell f.entries good apart in
    let got = malloc (65536 + 16) (start_memory f frames) in
    let idt = Irq.initialise f.exception_stub_table f.irq_stub_table f.idt in
    let k : Kernel = record { machine = got.1; tables = start_segments f got.0; idt = idt } in
    (
      frames,
      k,
      (got.0 + 65536) / 16 * 16,
      started,
      well,
      main-some malloc f frames started,
      λ v lt. stack_of_lem f got.0 got.1 v (inside (start_memory f frames)) lt,
      (omega arith, omega arith, omega arith),
    )
