-- ===== src/Pmm/Cycle.antt =====
-- One `alloc` and the `free` of its block on an unused segment of mm/pmm.cpp.
use native.Mathlib.Decide.{ℕ_discrete}
use native.Mathlib.Nat.{pow-le-pow_right}
use helix_kernel.Prelude.{
  ℕ, zero, suc, ◌+◌, ◌-◌, ◌^◌, ◌≤◌, ◌<◌, ◌≡◌, ◌≢◌, ◌%◌, refl, sym, ◌∙◌, fun_ext, true, false,
  Option, none, some, List, [], ◌∷◌, arith, ◌==◌, ltb, lt→ltb,
}
use helix_kernel.Prelude.Bits.{zero-bit_xor}
use helix_kernel.Pmm.{
  FreeLists, Segment, word, add64, sub64, block_bytes, set_list, add_block, split, take_block,
  alloc_segment, take_buddy, buddy_addr, lower, merge, put_block, free_segment, num_orders,
}
use helix_kernel.Pmm.Order.{block_bytes_pos, block_bytes_mono, add64_small, sub64_small}
use helix_kernel.Pmm.Find.{Found, find_block-Found}
use helix_kernel.Pmm.Valid.{IsValid}
use helix_kernel.Pmm.Initialise.{no_blocks}

-- The lists of `initialise`: one block, of the top order.
abbrev pub one_list : ℕ → ℕ → FreeLists
one_list order base = add_block no_blocks order base

split-bottom :
    (d order b : ℕ) (fl : FreeLists)
    → split (suc d) order b fl
      ≡ add_block (split d (order + 1) b fl) order (add64 b (block_bytes order))
unfolding split
split-bottom zero order b fl = let e : order + 0 ≡ order = omega arith in rw e
split-bottom (suc d) order b fl =
    let e : order + suc d ≡ order + 1 + d = omega arith in
    split-bottom d order b (add_block fl (order + suc d) (add64 b (block_bytes (order + suc d))))
    ∙ rw e refl

set_list-add_block : (fl : FreeLists) (k b : ℕ) → set_list (add_block fl k b) k (fl k) ≡ fl
unfolding set_list add_block
set_list-add_block fl k b = fun_ext λ j. elim (ℕ_discrete j k) [
  | yes here ↦ let e : (j == k) ≡ true = ground arith in rw (e, here) refl
  | no other ↦ let e : (j == k) ≡ false = ground arith in rw e
]

buddy_first :
    (base order : ℕ)
    → base + block_bytes order < word
    → buddy_addr base order base ≡ base + block_bytes order
unfolding buddy_addr
buddy_first base order w =
    let e : sub64 base base ≡ 0 = sub64_small base base (omega arith) (omega arith) ∙ omega arith in
    rw (e, zero-bit_xor) (add64_small base (block_bytes order) w)

merge-found :
    (d base order addr buddy : ℕ) (fl : FreeLists) (bs : List ℕ)
    → buddy_addr base order addr ≡ buddy
    → take_buddy buddy (fl order) ≡ some bs
    → merge (suc d) base order addr fl
      ≡ merge d base (order + 1) (lower buddy addr) (set_list fl order bs)
unfolding merge
merge-found d base order addr buddy fl bs e found =
    let found' : take_buddy (buddy_addr base order addr) (fl order) ≡ some bs = rw e found in
    rw (found', merge, e)

take_buddy-head : (fl : FreeLists) (k b : ℕ) → take_buddy b (add_block fl k b k) ≡ some (fl k)
unfolding take_buddy add_block set_list
take_buddy-head fl k b =
    let e : (k == k) ≡ true = ground arith in let e' : (b == b) ≡ true = ground arith in rw (e, e')

-- Merging undoes splitting.
merge-split :
    (d base order : ℕ) (fl : FreeLists)
    → base + block_bytes (order + d) < word
    → merge d base order base (split d order base fl) ≡ (order + d, base, fl)
merge-split zero base order fl w =
    let e : order + 0 ≡ order = omega arith in rw e (unfold merge split in refl)
merge-split (suc d) base order fl w =
    let up : block_bytes order ≤ block_bytes (order + suc d) = block_bytes_mono (omega arith) in
    let half : add64 base (block_bytes order) ≡ base + block_bytes order =
      add64_small _ _ (omega arith) in
    let low : lower (base + block_bytes order) base ≡ base =
      ground (arith, block_bytes_pos order) in
    let top : order + suc d ≡ order + 1 + d = omega arith in
    let lists = split d (order + 1) base fl in
    let all = add_block lists order (base + block_bytes order) in
    let lifted : merge (suc d) base order base all ≡ merge d base (order + 1) base lists =
      merge-found d base order base (base + block_bytes order) all (lists order)
        (buddy_first base order (omega arith)) (take_buddy-head lists order _)
      ∙ rw (low, set_list-add_block lists order (base + block_bytes order)) refl in
    rw (split-bottom d order base fl, half, top)
      (lifted ∙ merge-split d base (order + 1) fl (rw top at w))

-- What `initialise` leaves of a segment, before any call.
pub record IsUnused (s : Segment) : Type 0 where
  pub valid : IsValid s
  pub lists : s.free_list ≡ one_list s.max_order s.base_ptr
  pub none_used : s.pages_used ≡ 0

one_list_self : (o base : ℕ) → one_list o base o ≡ base ∷ []
unfolding add_block set_list
one_list_self o base = let e : (o == o) ≡ true = ground arith in rw e

one_list_other : (o base k : ℕ) → k ≢ o → one_list o base k ≡ []
unfolding add_block set_list
one_list_other o base k ne = let e : (k == o) ≡ false = ground arith in rw e

cons_inj : (a b : ℕ) (xs ys : List ℕ) → a ∷ xs ≡ b ∷ ys → (a ≡ b) × (xs ≡ ys)
cons_inj a b xs ys e = ground arith

module _ (s : Segment) (u : IsUnused s) (order : ℕ) (h : order ≤ s.max_order) where
  Found-top :
      (r : Option (ℕ × ℕ × List ℕ))
      → Found (s.max_order + 1 - order) order s.free_list r
      → r ≡ some (s.max_order, s.base_ptr, [])
  Found-top none f =
      let empty : s.free_list s.max_order ≡ [] = f s.max_order h (omega arith) in
      let one : s.free_list s.max_order ≡ s.base_ptr ∷ [] =
        rw u.lists (one_list_self s.max_order s.base_ptr) in
      absurd (cc)
  Found-top (some (c, b, bs)) (lo, hi, e, first) = elim (ℕ_discrete c s.max_order) [
    | yes at ↦
        let one : s.free_list c ≡ s.base_ptr ∷ [] =
          rw (at, u.lists) (one_list_self s.max_order s.base_ptr) in
        let (eb, ebs) = cons_inj b s.base_ptr bs [] (sym e ∙ one) in rw (at, eb, ebs)
    | no other ↦
        let empty : s.free_list c ≡ [] =
          rw u.lists (one_list_other s.max_order s.base_ptr c other) in
        absurd (cc)
  ]

  after : Segment
  after = record s {
    free_list = split (s.max_order - order) order s.base_ptr no_blocks;
    pages_used = add64 0 (2 ^ order);
  }

  rest_empty : set_list s.free_list s.max_order [] ≡ no_blocks
  rest_empty = rw u.lists (set_list-add_block no_blocks s.max_order s.base_ptr)

  alloc_unused : alloc_segment order s ≡ some (s.base_ptr, after)
  unfolding alloc_segment take_block after
  alloc_unused = rw (
    Found-top _ (find_block-Found (s.max_order + 1 - order) order s.free_list),
    take_block,
    rest_empty,
    u.none_used,
  )

  merged :
      merge (s.max_order - order) s.base_ptr order s.base_ptr after.free_list
      ≡ (s.max_order, s.base_ptr, no_blocks)
  unfolding after
  merged =
      let d : order + (s.max_order - order) ≡ s.max_order = omega arith in
      let w : s.base_ptr + block_bytes (order + (s.max_order - order)) < word =
        rw d (omega (arith, u.valid.tree_in, u.valid.no_wrap)) in
      merge-split (s.max_order - order) s.base_ptr order no_blocks w ∙ rw d

  back : Segment
  back = record s {
    free_list = one_list s.max_order s.base_ptr;
    pages_used = sub64 (add64 0 (2 ^ order)) (2 ^ s.max_order);
  }

  free_after : free_segment order s.base_ptr after ≡ some (s.max_order, back)
  unfolding free_segment put_block back after
  free_after =
      let small : ltb s.max_order num_orders ≡ true = lt→ltb _ _ u.valid.max_order_lt in
      rw (merged, put_block, small)

  -- On an unused segment, `alloc` followed by `free` of its block with the same order brings the
  -- free lists back. `pages_used` goes up by the pages of the request and down by those of the
  -- whole segment, so that below the top order it ends at a number that wrapped below zero.
  pub alloc-free-unused :
      (t : Segment) × (s' : Segment) × (alloc_segment order s ≡ some (s.base_ptr, t))
      × (free_segment order s.base_ptr t ≡ some (s.max_order, s'))
      × (s'.free_list ≡ s.free_list)
      × (s'.pages_used ≡ (2 ^ order + word - 2 ^ s.max_order) % word)
  unfolding back add64 sub64
  alloc-free-unused =
      let le : 2 ^ order ≤ 2 ^ s.max_order = pow-le-pow_right {n = 2} (omega arith) h in
      let lt : 2 ^ s.max_order ≤ 2 ^ 16 =
        pow-le-pow_right {n = 2} (omega arith) {j = 16} (omega (arith, u.valid.max_order_lt)) in
      (after, back, alloc_unused, free_after, sym u.lists, omega arith)
