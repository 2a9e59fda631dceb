-- ===== src/Paging.antt =====
-- The page tables of mm/vmm.cpp on a memory of 64-bit words, with the page allocator of mm/pmm.cpp.
-- The processor's cache of translations, which `invlpg` keeps in step, is not modelled.
pub mod Walk
pub mod Unmap
pub mod Map
pub mod Range
pub mod Pages
pub mod Create
pub mod Tree
pub mod Calls
pub mod Allocate
mod Tests
use Prim.Native.Nat.{bit_and, bit_or}
use helix_kernel.Prelude.{
  ℕ, zero, suc, ◌+◌, ◌*◌, ◌/◌, ◌%◌, ◌^◌, Bool, true, false, Option, none, some, ltb, leb, ◌==◌,
  ◌&&◌, if◌then◌else◌,
}
use helix_kernel.Pmm.{Pmm, alloc, free}
use helix_kernel.Vmm.{va_to_pa, pa_to_va}

-- Words by virtual address, through the direct map of physical memory. The direct map is taken to be
-- as the boot loader made it: a call that took its pages out, or put others there, would move the
-- kernel's own accesses to the tables, which these words do not show.
abbrev pub Words : Type 0
Words = ℕ → ℕ

-- `kernel_cr3`, `current_cr3`, the memory and the page allocator.
pub record Machine : Type 0 where
  pub words : Words
  pub frames : Pmm
  pub kernel_cr3 : ℕ
  pub current_cr3 : ℕ

unfoldable pub put : Words → ℕ → ℕ → Words
put w a v x = if x == a then v else w x

-- `memset(page, 0, PAGE_SIZE)`
unfoldable pub clear : Words → ℕ → Words
clear w page x = if leb page x && ltb x (page + 0x1000) then 0 else w x

-- `initialise`: `cr3` is what the register holds.
unfoldable pub initialise : ℕ → Machine → Machine
initialise cr3 m = record m { kernel_cr3 = cr3; current_cr3 = cr3 }

-- `alloc`; `nullptr` is 0.
unfoldable pub alloc_virtual : ℕ → Machine → Option (ℕ × Machine)
alloc_virtual n m = elim (alloc n m.frames) [
  | none ↦ none
  | some (p, frames) ↦ some (pa_to_va p, record m { frames = frames })
]

-- `free`; `none` is an access outside the free lists.
unfoldable pub free_virtual : ℕ → ℕ → Machine → Option Machine
free_virtual p n m = elim (free (va_to_pa p) n m.frames) [
  | none ↦ none
  | some frames ↦ some (record m { frames = frames })
]

-- `PAGE_ADDR_MASK`
abbrev pub page_addr_mask : ℕ
page_addr_mask = 0x000FFFFFFFFFF000

abbrev pub page_size : ℕ
page_size = 0x1000

-- `PML4_IDX`, `PDPT_IDX`, `PD_IDX` and `PT_IDX`.
unfoldable pub table_index : ℕ → ℕ → ℕ
table_index shift va = bit_and (va / 2 ^ shift) 0x1FF

-- `&table[idx]`
unfoldable pub slot : ℕ → ℕ → ℕ
slot table idx = table + idx * 8

unfoldable pub is_present : ℕ → Bool
is_present e = bit_and e 1 == 1

-- `pa_to_va(entry & PAGE_ADDR_MASK)`
unfoldable pub next_table : ℕ → ℕ
next_table e = pa_to_va (bit_and e page_addr_mask)

-- The entry for a new table: `page | PAGE_PRESENT | PAGE_WRITE | (flags & PAGE_USER)`.
unfoldable pub table_entry : ℕ → ℕ → ℕ
table_entry page flags = bit_or (bit_or (bit_or page 1) 2) (bit_and flags 4)

-- The table that `get_or_create_table` makes, once `alloc(1)` has returned.
unfoldable pub create_table : ℕ → ℕ → ℕ × Pmm → Machine → ℕ × Machine
create_table at flags (page, frames) m =
    let w = put (clear m.words (pa_to_va page)) at (table_entry page flags) in
    if page == 0
    then (0, record m { frames = frames })
    else (next_table (w at), record m { words = w; frames = frames })

-- `get_or_create_table`: the table, 0 for `nullptr`. `none` does not happen, as in `alloc`.
unfoldable pub get_or_create_table : ℕ → ℕ → ℕ → Machine → Option (ℕ × Machine)
get_or_create_table parent idx flags m =
    if is_present (m.words (slot parent idx))
    then some (next_table (m.words (slot parent idx)), m)
    else elim (alloc 1 m.frames) [
      | none ↦ none
      | some r ↦ some (create_table (slot parent idx) flags r m)
    ]

-- `if (!table) return nullptr;`: what follows is not run, and the result is false.
abbrev pub then_table :
    Option (ℕ × Machine) → (ℕ → Machine → Option (Bool × Machine)) → Option (Bool × Machine)
then_table none f = none
then_table (some (table, m)) f = if table == 0 then some (false, m) else f table m

-- The last line of the body: `pt[PT_IDX(va)] = pa | flags | PAGE_PRESENT`.
unfoldable pub set_leaf : ℕ → ℕ → ℕ → ℕ → Machine → Option (Bool × Machine)
set_leaf va pa flags pt m = some (
  true,
  record m { words = put m.words (slot pt (table_index 12 va)) (bit_or (bit_or pa flags) 1) },
)

-- The body of the loop of `mmap`: whether it goes on.
unfoldable pub map_page : ℕ → ℕ → ℕ → Machine → Option (Bool × Machine)
map_page va pa flags m =
    then_table (get_or_create_table (pa_to_va m.current_cr3) (table_index 39 va) flags m) λ pdpt m1.
      then_table (get_or_create_table pdpt (table_index 30 va) flags m1) λ pd m2.
        then_table (get_or_create_table pd (table_index 21 va) flags m2)
          λ pt m3. set_leaf va pa flags pt m3

-- The loop of `mmap`, with the pages left.
unfoldable pub map_pages : ℕ → ℕ → ℕ → ℕ → Machine → Option (Bool × Machine)
map_pages zero va pa flags m = some (true, m)
map_pages (suc n) va pa flags m = elim (map_page va pa flags m) [
  | none ↦ none
  | some (false, m1) ↦ some (false, m1)
  | some (true, m1) ↦ map_pages n ((va + page_size) % 2 ^ 64) ((pa + page_size) % 2 ^ 64) flags m1
]

-- `mmap`: `paddr`, `vaddr`, pages and flags; the address, 0 for `nullptr`.
unfoldable pub mmap : ℕ → ℕ → ℕ → ℕ → Machine → Option (ℕ × Machine)
mmap paddr vaddr n flags m =
    let flags' = if ltb vaddr 0x800000000000 then bit_or flags 4 else flags in
    elim (map_pages n vaddr paddr flags' m) [
      | none ↦ none
      | some (ok, m') ↦ some ((if ok then vaddr else 0), m')
    ]

-- One table entry of the walk in `munmap`: `none` where it is not present.
unfoldable pub follow : Words → ℕ → Option ℕ
follow w at = if is_present (w at) then some (next_table (w at)) else none

-- `&pt[PT_IDX(va)]` of `munmap`, where the three entries above it are present.
unfoldable pub leaf_slot : Words → ℕ → ℕ → Option ℕ
leaf_slot w cr3 va = elim (follow w (slot (pa_to_va cr3) (table_index 39 va))) [
  | none ↦ none
  | some pdpt ↦ elim (follow w (slot pdpt (table_index 30 va))) [
    | none ↦ none
    | some pd ↦ elim (follow w (slot pd (table_index 21 va))) [
      | none ↦ none
      | some pt ↦ some (slot pt (table_index 12 va))
    ]
  ]
]

-- The body of the loop of `munmap`, but for the step to the next page.
unfoldable pub unmap_page : ℕ → Machine → Machine
unmap_page va m = elim (leaf_slot m.words m.current_cr3 va) [
  | none ↦ m
  | some at ↦ record m { words = put m.words at 0 }
]

-- The loop of `munmap`, on fuel.
unfoldable pub unmap_until : ℕ → ℕ → ℕ → Machine → Option Machine
unmap_until zero va end m = none
unmap_until (suc fuel) va end m =
    let rest = unmap_until fuel ((va + page_size) % 2 ^ 64) end (unmap_page va m) in
    if ltb va end then rest else some m

-- `munmap`: `n` is a number of bytes.
unfoldable pub munmap : ℕ → ℕ → ℕ → Machine → Option Machine
munmap fuel vaddr n m = unmap_until fuel vaddr ((vaddr + n) % 2 ^ 64) m

unfoldable pub get_cr3 : Machine → ℕ
get_cr3 m = m.kernel_cr3

-- `switch_to_new_table`, with the register in `current_cr3`.
unfoldable pub switch_to_new_table : ℕ → Machine → Machine
switch_to_new_table cr3 m = record m { current_cr3 = if cr3 == 0 then m.kernel_cr3 else cr3 }

-- `uacpi_kernel_map` and `uacpi_kernel_unmap` of extra/uacpi/uacpi_kernel_wrapper.cpp.
unfoldable pub kernel_map : ℕ → ℕ → Machine → Option (ℕ × Machine)
kernel_map addr len m = mmap addr (pa_to_va addr) ((len + 0xFFF) % 2 ^ 64 / 0x1000) 3 m

unfoldable pub kernel_unmap : ℕ → ℕ → ℕ → Machine → Option Machine
kernel_unmap fuel addr len m = munmap fuel addr ((len + 0xFFF) % 2 ^ 64 / 0x1000) m

-- `liballoc_alloc` and `liballoc_free` of extra/liballoc/liballoc_wrapper.cpp.
unfoldable pub liballoc_alloc : ℕ → Machine → Option (ℕ × Machine)
unfolding alloc_virtual
liballoc_alloc npages m = alloc_virtual npages m

unfoldable pub liballoc_free : ℕ → ℕ → Machine → Option Machine
unfolding free_virtual
liballoc_free p hint m = free_virtual p hint m
