-- ===== src/Pmm/Linked.antt =====
-- The free lists of mm/pmm.cpp as they stand in memory: `free_list[16]` holds the first block of
-- each order, and each free block the address of the next one in its first word.
pub mod Chain
pub mod Split
pub mod Alloc
pub mod Walk
pub mod Free
pub mod Memory
pub mod World
pub mod Fuel
pub mod Stands
pub mod Run
pub mod Total
mod Tests
use helix_kernel.Prelude.{
  ℕ, zero, suc, ◌+◌, ◌-◌, Option, none, some, List, [], ◌∷◌, ◌^◌, ltb, leb, ◌&&◌, ◌==◌,
  if◌then◌else◌,
}
use helix_kernel.Pmm.{add64, block_bytes, sub64, buddy_addr, lower, num_orders}

-- `next` of the blocks, by their addresses, and the heads; 0 is `nullptr`.
pub record Lists : Type 0 where
  pub links : ℕ → ℕ
  pub heads : ℕ → ℕ

-- An assignment to one word, of the links or of the heads.
unfoldable pub assign : (ℕ → ℕ) → ℕ → ℕ → ℕ → ℕ
assign f a v x = if x == a then v else f x

-- `add_block(free_list[order], b)`
unfoldable pub add_linked : ℕ → ℕ → Lists → Lists
add_linked order b s = record {
  links = assign s.links b (s.heads order);
  heads = assign s.heads order b;
}

-- `remove_block(free_list[order])`
unfoldable pub remove_block : ℕ → Lists → ℕ × Lists
remove_block order s =
    let b = s.heads order in
    (b, if b == 0 then s else record s { heads = assign s.heads order (s.links b) })

-- The inner `for` of `alloc`: the first order from `current` on whose list is not empty.
unfoldable pub find_head : ℕ → ℕ → Lists → Option ℕ
find_head zero current s = none
find_head (suc rounds) current s =
    let rest = find_head rounds (current + 1) s in
    if s.heads current == 0 then rest else some current

-- `while (current > order)`, with `d` = current - order.
unfoldable pub split_linked : ℕ → ℕ → ℕ → Lists → Lists
split_linked zero order b s = s
split_linked (suc d) order b s =
    split_linked d order b (add_linked (order + d) (add64 b (block_bytes (order + d))) s)

-- The body of `alloc` on one segment.
unfoldable pub alloc_linked : ℕ → ℕ → Lists → Option (ℕ × Lists)
alloc_linked order max s = elim (find_head (max + 1 - order) order s) [
  | none ↦ none
  | some current ↦
      let (b, s') = remove_block current s in some (b, split_linked (current - order) order b s')
]

-- `while (curr)`: the lists without the buddy, `none` where it is not there. The outer `none` means
-- that the fuel ran out.
unfoldable pub walk_list : ℕ → ℕ → ℕ → ℕ → ℕ → Lists → Option (Option Lists)
walk_list zero buddy order prev curr s = none
walk_list (suc fuel) buddy order prev curr s =
    let rest = walk_list fuel buddy order curr (s.links curr) s in
    let taken =
      if prev == 0
      then record s { heads = assign s.heads order (s.links curr) }
      else record s { links = assign s.links prev (s.links curr) } in
    if curr == 0 then some none else if curr == buddy then some (some taken) else rest

-- `while (order < seg->max_order)`, with `d` = max_order - order: the order and address of the
-- block that is left, and the lists.
unfoldable pub merge_linked : ℕ → ℕ → ℕ → ℕ → ℕ → Lists → Option (ℕ × ℕ × Lists)
merge_linked fuel zero base order addr s = some (order, addr, s)
merge_linked fuel (suc d) base order addr s =
    let buddy = buddy_addr base order addr in
    elim (walk_list fuel buddy order 0 (s.heads order) s) [
      | none ↦ none
      | some none ↦ some (order, addr, s)
      | some (some s') ↦ merge_linked fuel d base (order + 1) (lower buddy addr) s'
    ]

-- The body of `free` on the segment of the block: the order that the counters go down by, and the
-- lists.
unfoldable pub free_linked : ℕ → ℕ → ℕ → ℕ → ℕ → Lists → Option (ℕ × Lists)
free_linked fuel base max order addr s = elim (merge_linked fuel (max - order) base order addr s) [
  | none ↦ none
  | some (o, a, s') ↦ if ltb o num_orders then some (o, add_linked o a s') else none
]

-- `pmm_segment`, with the lists in memory.
pub record LinkedSegment : Type 0 where
  pub base_ptr : ℕ
  pub size : ℕ
  pub pages_used : ℕ
  pub heads : ℕ → ℕ
  pub max_order : ℕ

-- The lists of a segment, in the memory that all segments share.
abbrev pub lists_of : (ℕ → ℕ) → LinkedSegment → Lists
lists_of l g = record { links = l; heads = g.heads }

-- What `alloc` leaves of a segment.
abbrev pub given_segment : ℕ → Lists → LinkedSegment → LinkedSegment
given_segment order s g = record g { heads = s.heads; pages_used = add64 g.pages_used (2 ^ order) }

-- The loop of `alloc` over the segments: the block, the memory and the segments.
unfoldable pub alloc_all :
    ℕ → (ℕ → ℕ) → List LinkedSegment → Option (ℕ × (ℕ → ℕ) × List LinkedSegment)
alloc_all order l [] = none
alloc_all order l (g ∷ gs) =
    let rest = alloc_all order l gs in
    elim (alloc_linked order g.max_order (lists_of l g)) [
      | none ↦ elim rest [ none ↦ none | some (b, l', gs') ↦ some (b, l', g ∷ gs') ]
      | some (b, s) ↦ some (b, s.links, given_segment order s g ∷ gs)
    ]

-- What `free` leaves of a segment.
abbrev pub freed_segment : ℕ → Lists → LinkedSegment → LinkedSegment
freed_segment order s g = record g { heads = s.heads; pages_used = sub64 g.pages_used (2 ^ order) }

-- The loop of `free` over the segments: the order that the counter goes down by, `none` for an
-- address in no segment, the memory and the segments.
unfoldable pub free_all :
    ℕ → ℕ → ℕ → (ℕ → ℕ) → List LinkedSegment → Option (Option ℕ × (ℕ → ℕ) × List LinkedSegment)
free_all fuel order addr l [] = some (none, l, [])
free_all fuel order addr l (g ∷ gs) =
    let rest = free_all fuel order addr l gs in
    if leb g.base_ptr addr && ltb addr (add64 g.base_ptr g.size)
    then elim (free_linked fuel g.base_ptr g.max_order order addr (lists_of l g)) [
      | none ↦ none
      | some (o, s) ↦ some (some o, s.links, freed_segment o s g ∷ gs)
    ]
    else elim rest [ none ↦ none | some (o, l', gs') ↦ some (o, l', g ∷ gs') ]
