-- ===== src/Pmm/Alloc.antt =====
-- `alloc` of mm/pmm.cpp on one segment.
use helix_kernel.Prelude.{
  ℕ, ◌+◌, ◌-◌, ◌^◌, ◌≤◌, ◌≡◌, refl, List, [], ◌∷◌, Option, none, some, arith, ap, All,
}
use helix_kernel.Pmm.{Segment, word, add64, block_bytes, set_list, take_block, alloc_segment}
use helix_kernel.Pmm.Cover.{in_block, cover, cover_list, cover-set_list}
use helix_kernel.Pmm.Split.{cover-split}
use helix_kernel.Pmm.Find.{Found, find_block-Found}
use helix_kernel.Pmm.Valid.{IsValid, FitsAt, ValidLists-set_list, split-valid}

-- Two states of one segment.
pub record SameShape (s t : Segment) : Type 0 where
  pub base : t.base_ptr ≡ s.base_ptr
  pub size : t.size ≡ s.size
  pub max : t.max_order ≡ s.max_order

-- What it means that a segment gives the block of this order at `b` away.
pub record Gives (order b : ℕ) (s t : Segment) : Type 0 where
  pub valid : IsValid t
  pub shape : SameShape s t
  pub fits : FitsAt s.base_ptr s.max_order order b
  pub conserved : (a : ℕ) → cover t.free_list a + in_block order b a ≡ cover s.free_list a
  pub counted : t.pages_used ≡ add64 s.pages_used (2 ^ order)

-- A segment that gives nothing has no free block of that order or a larger one.
abbrev pub SegmentOutcome : ℕ → Segment → Option (ℕ × Segment) → Type 0
SegmentOutcome order s none = (k : ℕ) → order ≤ k → k ≤ s.max_order → s.free_list k ≡ []
SegmentOutcome order s (some (b, t)) = Gives order b s t

module _ (order : ℕ) (s : Segment) (v : IsValid s) where
  take_block-outcome :
      (found : Option (ℕ × ℕ × List ℕ))
      → Found (s.max_order + 1 - order) order s.free_list found
      → SegmentOutcome order s (take_block order s found)
  unfolding take_block cover_list
  take_block-outcome none f = λ k p q. f k p (omega arith)
  take_block-outcome (some (current, b, bs)) (lo, hi, e, _) =
      let max = s.max_order in
      let rest = set_list s.free_list current bs in
      let d : order + (current - order) ≡ current = omega arith in
      let blocks : All (FitsAt s.base_ptr max current) (b ∷ bs) = rw e at (v.blocks current) in
      let whole : FitsAt s.base_ptr max (order + (current - order)) b = rw (← d) at (blocks.0) in
      let room : b + block_bytes (order + (current - order)) ≤ word =
        omega (arith, whole.inside, v.tree_in, v.no_wrap) in
      let (lists, fits) =
        split-valid s.base_ptr max (current - order) order b rest
          (omega (arith, v.tree_in, v.no_wrap))
          (ValidLists-set_list s.base_ptr max s.free_list current bs v.blocks blocks.1) whole in
      record {
        valid = record {
          max_order_lt = v.max_order_lt;
          base_pos = v.base_pos;
          tree_in = v.tree_in;
          no_wrap = v.no_wrap;
          blocks = lists;
        };
        shape = record { base = refl; size = refl; max = refl };
        fits = fits;
        conserved = λ a. omega (
          arith,
          cover-split (current - order) order b rest a (omega (arith, v.max_order_lt)) room,
          cover-set_list s.free_list current bs a (omega (arith, v.max_order_lt)),
          ap (λ l. cover_list current l a) e,
          ap (λ k. in_block k b a) d,
        );
        counted = refl;
      }

  -- A well-formed segment gives a block of its own at a multiple of its size, stays well-formed
  -- and keeps exactly its other free bytes; or it has no block that is large enough.
  pub alloc_segment-outcome : SegmentOutcome order s (alloc_segment order s)
  unfolding alloc_segment
  alloc_segment-outcome =
      take_block-outcome _ (find_block-Found (s.max_order + 1 - order) order s.free_list)
