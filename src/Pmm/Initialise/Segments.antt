-- ===== src/Pmm/Initialise/Segments.antt =====
-- What `initialise` of mm/pmm.cpp makes of one entry of the memory map.
use native.Mathlib.Nat.{pow-le-pow_right}
use native.Mathlib.Decide.{dec_lt}
use helix_kernel.Prelude.{
  ℕ, zero, suc, ◌+◌, ◌/◌, ◌^◌, ◌≤◌, ◌<◌, ◌≡◌, refl, false, some, arith, ltb, leb, lt→ltb, leb→le,
  Bool-cases, inl, inr,
}
use helix_kernel.Pmm.{Segment, word, block_bytes, add_block, num_orders}
use helix_kernel.Pmm.Order.{block_bytes_eq}
use helix_kernel.Pmm.Cover.{in_block, cover, cover_below, cover_list, cover-add_block}
use helix_kernel.Pmm.Valid.{IsValid, ValidLists-add_block}
use helix_kernel.Pmm.Initialise.{
  top_order_loop, fault, added, no_blocks, finish_segment, make_segment,
}

-- The loop ends at the greatest order whose block has at most `pages` pages.
top_order_loop_lem :
    (fuel pages order : ℕ)
    → pages < 2 ^ (order + suc fuel)
    → 2 ^ order ≤ pages
    → (o : ℕ) × (top_order_loop (suc fuel) pages order ≡ some o)
      × (2 ^ o ≤ pages)
      × (pages < 2 ^ suc o)
unfolding top_order_loop
top_order_loop_lem zero pages order h p =
    let e : order + suc zero ≡ order + 1 = omega arith in
    let e' : order + 1 ≡ suc order = omega arith in
    let h' : pages < 2 ^ (order + 1) = rw e at h in
    let done : leb (2 ^ (order + 1)) pages ≡ false = ground arith in
    (order, rw done refl, p, rw (← e') h')
top_order_loop_lem (suc fuel) pages order h p = elim (Bool-cases (leb (2 ^ (order + 1)) pages)) [
  | inl more ↦
      let e : order + suc (suc fuel) ≡ order + 1 + suc fuel = omega arith in
      let (o, run, lo, hi) =
        top_order_loop_lem fuel pages (order + 1) (rw e at h) (leb→le _ _ more) in
      (o, rw more run, lo, hi)
  | inr done ↦
      let e : order + 1 ≡ suc order = omega arith in
      (order, rw done refl, p, rw (← e) (ground arith))
]

-- A segment whose one free block is the block of its top order at its base.
pub record Fresh (s : Segment) : Type 0 where
  pub valid : IsValid s
  pub one_block : (a : ℕ) → cover s.free_list a ≡ in_block s.max_order s.base_ptr a
  pub largest : s.size < block_bytes (suc s.max_order)
  pub unused : s.pages_used ≡ 0

cover-no_blocks : (a : ℕ) → cover no_blocks a ≡ 0
unfolding cover cover_below cover_list
cover-no_blocks a = refl

order_small : (o pages : ℕ) → 2 ^ o ≤ pages → pages < 2 ^ 16 → o < num_orders
order_small o pages lo hi = elim (dec_lt o 16) [
  | yes small ↦ small
  | no big ↦
      absurd (omega (arith, pow-le-pow_right {n = 2} (omega arith) {i = 16} {j = o} (omega arith)))
]

-- A range of at least a page and less than 256 MiB becomes a segment with one free block, the
-- largest that its pages can hold.
pub make_segment-Fresh :
    (base length : ℕ)
    → 0 < base
    → base + length < word
    → 4096 ≤ length
    → length < 2 ^ 28
    → (s : Segment) × (make_segment base length ≡ added s)
      × (s.base_ptr ≡ base)
      × (s.size ≡ length)
      × Fresh s
unfolding make_segment finish_segment
make_segment-Fresh base length pos w lo hi =
    let (o, run, le, gt) = top_order_loop_lem 63 (length / 2 ^ 12) 0 (omega arith) (omega arith) in
    let small : o < num_orders = order_small o (length / 2 ^ 12) le (omega arith) in
    let tree : block_bytes o ≤ length = omega (arith, block_bytes_eq o) in
    let s : Segment = record {
      base_ptr = base;
      size = length;
      pages_used = 0;
      free_list = add_block no_blocks o base;
      max_order = o;
    } in
    (
      s,
      rw (run, lt→ltb o num_orders small) refl,
      refl,
      refl,
      record {
        valid = record {
          max_order_lt = small;
          base_pos = pos;
          tree_in = tree;
          no_wrap = w;
          blocks =
              ValidLists-add_block base o no_blocks o base (λ k. tt)
                (record { index = 0; place = omega arith; inside = omega arith });
        };
        one_block = λ a. omega (arith, cover-add_block no_blocks o base a small, cover-no_blocks a);
        largest = omega (arith, block_bytes_eq (suc o));
        unused = refl;
      },
    )

-- A range of 256 MiB or more makes `initialise` write outside `free_list[16]`.
pub make_segment-fault :
    (base length : ℕ) → 2 ^ 28 ≤ length → length < word → make_segment base length ≡ fault
unfolding make_segment finish_segment
make_segment-fault base length lo hi =
    let (o, run, le, gt) = top_order_loop_lem 63 (length / 2 ^ 12) 0 (omega arith) (omega arith) in
    let big : ltb o num_orders ≡ false = elim (dec_lt o 16) [
      | yes small ↦
          absurd (omega (arith, pow-le-pow_right {n = 2} (omega arith) {i = suc o} {j = 16} small))
      | no large ↦ ground arith
    ] in
    rw (run, big) refl
