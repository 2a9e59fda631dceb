-- ===== src/Paging/Tree/Tests/Leak.antt =====
-- `uacpi_kernel_map` of two pages on an empty root, and `uacpi_kernel_unmap`.
use helix_kernel.Prelude.{ℕ, ◌+◌, ◌*◌, ◌/◌, ◌<◌, ◌≡◌, refl, none, some, [], ◌∷◌, arith}
use helix_kernel.Vmm.{pa_to_va}
use helix_kernel.Pmm.{
  Pmm, block_bytes, set_list, split, alloc, order_of, order_loop, pages_of, alloc_segments,
  alloc_segment, or_else, find_block, take_block, finish_alloc, add64, FreeLists, add_block,
}
use helix_kernel.Paging.{
  Words, Machine, mmap, is_present, slot, put, clear, table_entry, kernel_map, kernel_unmap,
  map_pages, map_page, set_leaf, get_or_create_table, create_table, next_table, table_index,
}
use helix_kernel.Paging.Walk.{translate}
use helix_kernel.Paging.Tree.Leak.{kernel_map-kernel_unmap}
use helix_kernel.Paging.Range.{leaf}
use helix_kernel.Paging.Tree.Page.{pa_to_va_low}
use helix_kernel.Paging.Tree.Tests.{segment, nothing, machine, machine-IsMapped}

-- The lists after two and after three pages are taken.
abbrev lists : FreeLists
lists = set_list (split 2 0 0x8000 (set_list segment.free_list 2 [])) 0 []

abbrev last_frames : Pmm
last_frames = record {
  segtab =
      record segment { pages_used = 3; free_list = split 1 0 0xA000 (set_list lists 1 []) } ∷ [];
  total_mem = 4;
  num_used = 3;
  num_errors = 0;
}

abbrev with_table : Words → ℕ → ℕ → Words
with_table w at page = put (clear w (pa_to_va page)) at (table_entry page 3)

-- The tables for the two pages, and their entries.
abbrev last_words : Words
last_words =
    let w1 = with_table nothing (slot (pa_to_va 0x1000) 256) 0x8000 in
    let w2 = with_table w1 (slot (pa_to_va 0x8000) 0) 0x9000 in
    let w3 = with_table w2 (slot (pa_to_va 0x9000) 0) 0xA000 in
    put (put w3 (slot (pa_to_va 0xA000) 2) (leaf 0x2000 3)) (slot (pa_to_va 0xA000) 3)
      (leaf 0x3000 3)

abbrev last : Machine
last = record machine { words = last_words; frames = last_frames }

two_pages : kernel_map 0x2000 0x2000 machine ≡ some (pa_to_va 0x2000, last)
unfolding kernel_map mmap map_pages map_page set_leaf get_or_create_table create_table is_present
    next_table table_index alloc order_of order_loop pages_of alloc_segments alloc_segment or_else
    find_block take_block finish_alloc add64 put clear slot table_entry split set_list pa_to_va
    add_block block_bytes
two_pages = refl

kernel_map-kernel_unmap_example :
    (m2 : Machine) × (kernel_unmap 2 (pa_to_va 0x2000) 0x2000 last ≡ some m2)
    × (translate m2.words 0x1000 (pa_to_va 0x2000) ≡ none)
    × ((i : ℕ)
        → 0 < i
        → i < (0x2000 + 0xFFF) / 0x1000
        → translate m2.words 0x1000 (pa_to_va 0x2000 + i * 0x1000)
          ≡ some (leaf (0x2000 + i * 0x1000) 3))
kernel_map-kernel_unmap_example =
    kernel_map-kernel_unmap 0 machine last 0x2000 0x2000 (pa_to_va 0x2000) machine-IsMapped
      (omega arith) (omega arith) (omega arith) two_pages
      (λ e. omega (arith, e, pa_to_va_low 0x2000 (omega arith)))
