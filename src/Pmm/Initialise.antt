-- ===== src/Pmm/Initialise.antt =====
-- `mm::pmm::initialise` of mm/pmm.cpp: the table of segments from the bootloader's memory map.
pub mod Segments
pub mod Table
pub mod Fault
use mathlib.Core.Option
use helix_kernel.Prelude.{
  ℕ, zero, suc, ◌+◌, ◌-◌, ◌/◌, ◌^◌, Bool, true, false, Option, none, some, List, [], ◌∷◌, ltb, leb,
  if◌then◌else◌, not,
}
use helix_kernel.Pmm.{Segment, Pmm, FreeLists, word, add64, add_block, num_orders, max_segtab}

-- The kinds of memory that the source tells apart; `other` is every other kind.
pub data EntryKind : Type 0 where
  usable acpi_reclaimable bootloader_reclaimable other : EntryKind

pub record MemmapEntry : Type 0 where
  pub kind : EntryKind
  pub base : ℕ
  pub length : ℕ

abbrev pub is_managed : EntryKind → Bool
is_managed usable = true
is_managed acpi_reclaimable = true
is_managed bootloader_reclaimable = true
is_managed other = false

abbrev pub one_mib : ℕ
one_mib = 0x100000

-- What is left of an entry above 1 MiB: base and length.
unfoldable pub trim : ℕ → ℕ → Option (ℕ × ℕ)
trim base length =
    if leb (add64 base length) one_mib
    then none
    else if ltb base one_mib
    then some (one_mib, length - (one_mib - base))
    else some (base, length)

-- `while ((1ULL << (order + 1)) <= pages) order++;`
unfoldable pub top_order_loop : ℕ → ℕ → ℕ → Option ℕ
top_order_loop zero pages order = none
top_order_loop (suc fuel) pages order =
    let rest = top_order_loop fuel pages (order + 1) in
    if leb (2 ^ (order + 1)) pages then rest else some order

-- What an iteration over the memory map does: goes on, leaves the loop, writes outside
-- `free_list[16]`, or adds a segment.
pub data EntryResult : Type 0 where
  skip stop fault : EntryResult
  added : Segment → EntryResult

-- `seg->free_list[j] = nullptr` for every j.
abbrev pub no_blocks : FreeLists
no_blocks order = []

unfoldable pub finish_segment : ℕ → ℕ → Option ℕ → EntryResult
finish_segment base length none = fault
finish_segment base length (some order) =
    if ltb order num_orders
    then added (record {
      base_ptr = base;
      size = length;
      pages_used = 0;
      free_list = add_block no_blocks order base;
      max_order = order;
    })
    else fault

unfoldable pub make_segment : ℕ → ℕ → EntryResult
make_segment base length = finish_segment base length (top_order_loop 64 (length / 2 ^ 12) 0)

unfoldable pub place_entry : ℕ → Option (ℕ × ℕ) → EntryResult
place_entry num_segtab none = skip
place_entry num_segtab (some (base, length)) =
    if leb max_segtab num_segtab then stop else make_segment base length

unfoldable pub init_entry : MemmapEntry → ℕ → EntryResult
init_entry e num_segtab =
    if is_managed e.kind then place_entry num_segtab (trim e.base e.length) else skip

-- The segments that the entries add to a table of `num_segtab`.
unfoldable pub init_entries : List MemmapEntry → ℕ → Option (List Segment)
init_entries [] num_segtab = some []
init_entries (e ∷ es) num_segtab = elim (init_entry e num_segtab) [
  | skip ↦ init_entries es num_segtab
  | stop ↦ some []
  | fault ↦ none
  | added s ↦ Option.map (λ ss. s ∷ ss) (init_entries es (num_segtab + 1))
]

-- `total_memory`: the sum of the sizes.
unfoldable pub total_size : List Segment → ℕ
total_size [] = 0
total_size (s ∷ ss) = add64 s.size (total_size ss)

-- `none` is a write outside `free_list[16]`.
unfoldable pub initialise : List MemmapEntry → Option Pmm
initialise es =
    Option.map
      (λ ss. record {
        segtab = ss;
        total_mem = add64 (total_size ss) 0xfff / 0x1000;
        num_used = 0;
        num_errors = 0;
      })
      (init_entries es 0)
