-- ===== src/Boot/Tests.antt =====
-- The boot sequence of main.cpp on a small memory map.
use helix_kernel.Prelude.{ℕ, ◌+◌, ◌%◌, ◌≤◌, ◌<◌, ◌≡◌, some, List, [], ◌∷◌, arith, All, false}
use helix_kernel.Pmm.{Pmm}
use helix_kernel.Pmm.Table.{IsWell}
use helix_kernel.Pmm.Initialise.{MemmapEntry, usable}
use helix_kernel.Pmm.Initialise
use helix_kernel.Pmm.Initialise.Table.{GoodEntry}
use helix_kernel.Paging.{Machine}
use helix_kernel.Irq.{Idt, isr_entry}
use helix_kernel.Boot.{Found, Kernel, start_memory, main}
use helix_kernel.Boot.Stacks.{stack_of, main-stack}

abbrev memory_map : List MemmapEntry
memory_map = record { kind = usable; base = 0x100000; length = 0x8000 } ∷ []

abbrev vectors : Idt
vectors = record { entries = λ v. isr_entry 0 false; set_vectors = λ v. false }

abbrev found : Found
found = record {
  entries = memory_map;
  words = λ a. 0;
  cr3 = 0x1000;
  stack_pointer = 0xffff800000200000;
  s_gdt = 0xffffffff80010000;
  s_tss = 0xffffffff80011000;
  kernel_stack = 0xffffffff80012000;
  exception_stub_table = λ i. 0xffffffff80001000;
  irq_stub_table = λ i. 0xffffffff80002000;
  idt = vectors;
}

abbrev malloc : ℕ → Machine → ℕ × Machine
malloc n m = (0xffff800000300008, m)

memory_map-good : All GoodEntry memory_map
memory_map-good = ((λ _. omega arith), tt)

main-stack_example :
    (frames : Pmm) × (k : Kernel) × (top : ℕ) × (Initialise.initialise memory_map ≡ some frames)
    × IsWell frames
    × (main malloc found ≡ some k)
    × ((v : ℕ) → v < 48 → stack_of k (k.idt.entries v) ≡ some top)
    × (let a = (malloc (65536 + 16) (start_memory found frames)).0 in
        (top % 16 ≡ 0) × (a + 65520 < top) × (top ≤ a + 65552))
main-stack_example = main-stack malloc found memory_map-good (tt, tt) (λ m. omega arith)
