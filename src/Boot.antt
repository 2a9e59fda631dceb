-- ===== src/Boot.antt =====
-- main.cpp: the order in which `main` brings the parts up, until it hands over to uACPI. Console
-- output is left out.
pub mod Stacks
mod Tests
use Prim.Native.Nat.{bit_and}
use helix_kernel.Prelude.{ℕ, ◌+◌, ◌%◌, ◌^◌, Option, none, some, List, pos}
use helix_kernel.Pmm.{Pmm}
use helix_kernel.Pmm.Initialise.{MemmapEntry}
use helix_kernel.Pmm.Initialise
use helix_kernel.Paging.{Words, Machine}
use helix_kernel.Paging
use helix_kernel.Gdt.{Tables, update_stack, set_ist}
use helix_kernel.Gdt
use helix_kernel.Irq.{Idt}
use helix_kernel.Irq

-- What `main` finds: the boot loader's memory map, the memory, two registers, and the addresses of
-- static objects and stubs. The descriptors are zero.
pub record Found : Type 0 where
  pub entries : List MemmapEntry
  pub words : Words
  pub cr3 : ℕ
  pub stack_pointer : ℕ
  pub s_gdt : ℕ
  pub s_tss : ℕ
  pub kernel_stack : ℕ
  pub exception_stub_table : ℕ → ℕ
  pub irq_stub_table : ℕ → ℕ
  pub idt : Idt

pub record Kernel : Type 0 where
  pub machine : Machine
  pub tables : Tables
  pub idt : Idt

-- `ist1_top`
unfoldable pub ist1_top : ℕ → ℕ
ist1_top ist1_alloc = bit_and ((ist1_alloc + 65536) % 2 ^ 64) 0xFFFFFFFFFFFFFFF0

-- The calls of `gdt`.
unfoldable pub start_segments : Found → ℕ → Tables
start_segments f ist1_alloc =
    let t = Gdt.initialise f.s_gdt f.s_tss f.kernel_stack in
    record t { tss = set_ist (pos 1) (ist1_top ist1_alloc) (update_stack f.stack_pointer 0 t.tss) }

-- The machine after `pmm::initialise` and `vmm::initialise`.
unfoldable pub start_memory : Found → Pmm → Machine
start_memory f frames =
    Paging.initialise f.cr3
      (record { words = f.words; frames = frames; kernel_cr3 = 0; current_cr3 = 0 })

-- `malloc`, of the allocator that the kernel compiles in: the address and the machine.
module _ (malloc : ℕ → Machine → ℕ × Machine) where
  -- `main`, up to `uacpi_initialize`; `none` is the fault of `pmm::initialise`.
  unfoldable pub main : Found → Option Kernel
  main f = elim (Initialise.initialise f.entries) [
    | none ↦ none
    | some frames ↦
        let (ist1_alloc, m') = malloc (65536 + 16) (start_memory f frames) in
        some (record {
          machine = m';
          tables = start_segments f ist1_alloc;
          idt = Irq.initialise f.exception_stub_table f.irq_stub_table f.idt;
        })
  ]
