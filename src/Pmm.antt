-- ===== src/Pmm.antt =====
-- mm/pmm.cpp: the buddy allocator of physical pages. A free list is the sequence of the addresses
-- that its intrusive `next` pointers go through, head first.
pub mod Order
pub mod Cover
pub mod Split
pub mod Valid
pub mod Find
pub mod Alloc
pub mod Memory
pub mod Buddy
pub mod Free
pub mod Table
pub mod Run
pub mod Initialise
pub mod Cycle
pub mod Linked
mod Tests
use Prim.Native.Nat.{bit_xor}
use mathlib.Core.Option
use helix_kernel.Prelude.{
  ℕ, zero, suc, ◌+◌, ◌-◌, ◌/◌, ◌%◌, ◌^◌, Option, none, some, List, [], ◌∷◌, ltb, leb, ◌==◌,
  if◌then◌else◌, ◌&&◌, Bool,
}

abbrev pub word : ℕ
word = 2 ^ 64

-- `uint64_t` addition and subtraction.
unfoldable pub add64 : ℕ → ℕ → ℕ
add64 a b = (a + b) % word

unfoldable pub sub64 : ℕ → ℕ → ℕ
sub64 a b = (a + word - b) % word

-- `1ULL << (order + 12)`: the bytes of a block of 2^order pages.
unfoldable pub block_bytes : ℕ → ℕ
block_bytes order = 2 ^ (order + 12)

-- `free_list[16]`: the addresses of the free blocks of each order.
abbrev pub FreeLists : Type 0
FreeLists = ℕ → List ℕ

abbrev pub num_orders : ℕ
num_orders = 16

-- An assignment to `free_list[order]`.
unfoldable pub set_list : FreeLists → ℕ → List ℕ → FreeLists
set_list fl order bs k = if k == order then bs else fl k

unfoldable pub add_block : FreeLists → ℕ → ℕ → FreeLists
add_block fl order b = set_list fl order (b ∷ fl order)

pub record Segment : Type 0 where
  pub base_ptr : ℕ
  pub size : ℕ
  pub pages_used : ℕ
  pub free_list : FreeLists
  pub max_order : ℕ

pub record Pmm : Type 0 where
  pub segtab : List Segment
  pub total_mem : ℕ
  pub num_used : ℕ
  pub num_errors : ℕ

abbrev pub max_segtab : ℕ
max_segtab = 128

-- `while ((1ULL << order) < pages) order++;`
unfoldable pub order_loop : ℕ → ℕ → ℕ → Option ℕ
order_loop zero pages order = none
order_loop (suc fuel) pages order =
    let rest = order_loop fuel pages (order + 1) in
    if ltb (2 ^ order) pages then rest else some order

-- `(n + 0xFFF) >> 12`
unfoldable pub pages_of : ℕ → ℕ
pages_of n = add64 n 0xfff / 2 ^ 12

-- The order of a request of `n` bytes. 64 rounds are enough: `pages_of n` is at most 2^52.
unfoldable pub order_of : ℕ → Option ℕ
order_of n = order_loop 64 (pages_of n) 0

-- The inner `for`: the first order from `current` on with a free block, that block and the rest.
unfoldable pub find_block : ℕ → ℕ → FreeLists → Option (ℕ × ℕ × List ℕ)
find_block zero current fl = none
find_block (suc rounds) current fl =
    let rest = find_block rounds (current + 1) fl in
    elim (fl current) [ [] ↦ rest | b ∷ bs ↦ some (current, b, bs) ]

-- `while (current > order)`, with `d = current - order`: the upper half of the block goes on the
-- list of the next lower order.
unfoldable pub split : ℕ → ℕ → ℕ → FreeLists → FreeLists
split zero order b fl = fl
split (suc d) order b fl =
    split d order b (add_block fl (order + d) (add64 b (block_bytes (order + d))))

-- The body of the outer `for` of `alloc` on one segment: what becomes of the block found.
unfoldable pub take_block : ℕ → Segment → Option (ℕ × ℕ × List ℕ) → Option (ℕ × Segment)
take_block order s none = none
take_block order s (some (current, b, bs)) = some (
  b,
  record s {
    free_list = split (current - order) order b (set_list s.free_list current bs);
    pages_used = add64 s.pages_used (2 ^ order);
  },
)

unfoldable pub alloc_segment : ℕ → Segment → Option (ℕ × Segment)
alloc_segment order s = take_block order s (find_block (s.max_order + 1 - order) order s.free_list)

-- The loop of `alloc` over the segments: the first one that has a block.
unfoldable pub or_else :
    Segment
    → List Segment
    → Option (ℕ × Segment)
    → Option (ℕ × List Segment)
    → Option (ℕ × List Segment)
or_else s ss (some (b, s')) rest = some (b, s' ∷ ss)
or_else s ss none none = none
or_else s ss none (some (b, ss')) = some (b, s ∷ ss')

unfoldable pub alloc_segments : ℕ → List Segment → Option (ℕ × List Segment)
alloc_segments order [] = none
alloc_segments order (s ∷ ss) = or_else s ss (alloc_segment order s) (alloc_segments order ss)

-- The end of `alloc`: the counters, and 0 for `nullptr`.
unfoldable pub finish_alloc : ℕ → Pmm → Option (ℕ × List Segment) → ℕ × Pmm
finish_alloc order m (some (b, ss)) =
    (b, record m { segtab = ss; num_used = add64 m.num_used (2 ^ order) })
finish_alloc order m none = (0, record m { num_errors = add64 m.num_errors 1 })

-- `mm::pmm::alloc`: the address, 0 for `nullptr`. `none` does not happen (`order_of-some`).
unfoldable pub alloc : ℕ → Pmm → Option (ℕ × Pmm)
alloc n m = Option.map (λ order. finish_alloc order m (alloc_segments order m.segtab)) (order_of n)

-- The walk of `free` along a free list: the list without the buddy, or `none` if it is not there.
pub take_buddy : ℕ → List ℕ → Option (List ℕ)
take_buddy buddy [] = none
take_buddy buddy (b ∷ bs) =
    let rest = take_buddy buddy bs in
    if b == buddy then some bs else elim rest [ none ↦ none | some bs' ↦ some (b ∷ bs') ]

-- `if (buddy_addr < addr) addr = buddy_addr`
abbrev pub lower : ℕ → ℕ → ℕ
lower buddy addr = if ltb buddy addr then buddy else addr

-- `base + (rel ^ (1ULL << (order + 12)))`
pub buddy_addr : ℕ → ℕ → ℕ → ℕ
buddy_addr base order addr = add64 base (bit_xor (sub64 addr base) (block_bytes order))

-- `while (order < seg->max_order)`, with `d` = max_order - order: the order and address of the
-- block that is left, and the lists without the buddies that it took up.
pub merge : ℕ → ℕ → ℕ → ℕ → FreeLists → ℕ × ℕ × FreeLists
merge zero base order addr fl = (order, addr, fl)
merge (suc d) base order addr fl =
    let buddy = buddy_addr base order addr in
    elim (take_buddy buddy (fl order)) [
      | none ↦ (order, addr, fl)
      | some bs ↦ merge d base (order + 1) (lower buddy addr) (set_list fl order bs)
    ]

-- The end of `free` on a segment: the order that the counters go down by, and the segment. `none`
-- is an access outside `free_list[16]`.
pub put_block : Segment → ℕ × ℕ × FreeLists → Option (ℕ × Segment)
put_block s (order, addr, fl) =
    if ltb order num_orders
    then some (
      order,
      record s { free_list = add_block fl order addr; pages_used = sub64 s.pages_used (2 ^ order) },
    )
    else none

pub free_segment : ℕ → ℕ → Segment → Option (ℕ × Segment)
free_segment order addr s =
    put_block s (merge (s.max_order - order) s.base_ptr order addr s.free_list)

-- `addr >= seg->base_ptr && addr < seg->base_ptr + seg->size`
pub in_segment : ℕ → Segment → Bool
in_segment addr s = leb s.base_ptr addr && ltb addr (add64 s.base_ptr s.size)

-- The loop over the segments: the order freed, `none` for an address in no segment.
pub here_freed : List Segment → Option (ℕ × Segment) → Option (Option ℕ × List Segment)
here_freed ss none = none
here_freed ss (some (o, s)) = some (some o, s ∷ ss)

pub later_freed : Segment → Option (Option ℕ × List Segment) → Option (Option ℕ × List Segment)
later_freed s none = none
later_freed s (some (o, ss)) = some (o, s ∷ ss)

pub free_segments : ℕ → ℕ → List Segment → Option (Option ℕ × List Segment)
free_segments order addr [] = some (none, [])
free_segments order addr (s ∷ ss) =
    if in_segment addr s
    then here_freed ss (free_segment order addr s)
    else later_freed s (free_segments order addr ss)

-- `mm::pmm::free`. `none` is an access outside `free_list[16]`.
pub finish_free : Pmm → Option ℕ × List Segment → Pmm
finish_free m (none, ss) = record m { segtab = ss }
finish_free m (some o, ss) = record m { segtab = ss; num_used = sub64 m.num_used (2 ^ o) }

pub free : ℕ → ℕ → Pmm → Option Pmm
free p n m =
    Option.bind (order_of n) λ order. Option.map (finish_free m) (free_segments order p m.segtab)
