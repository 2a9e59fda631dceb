-- ===== src/Pmm/Memory.antt =====
-- `alloc` of mm/pmm.cpp on the table of segments.
use helix_kernel.Prelude.{
  ℕ, ◌+◌, ◌≤◌, ◌≡◌, refl, List, [], ◌∷◌, Option, none, some, arith, ◌∙◌, inl, inr, All, ◌⊎◌, false,
  true,
}
use helix_kernel.Pmm.{Segment, or_else, alloc_segments, in_segment}
use helix_kernel.Pmm.Order.{block_bytes_pos, add64_small}
use helix_kernel.Pmm.Cover.{in_block, cover}
use helix_kernel.Pmm.Valid.{IsValid, FitsAt}
use helix_kernel.Pmm.Alloc.{SameShape, SegmentOutcome, alloc_segment-outcome}

-- How many free blocks of all segments cover an address.
unfoldable pub cover_all : List Segment → ℕ → ℕ
cover_all [] a = 0
cover_all (s ∷ ss) a = cover s.free_list a + cover_all ss a

-- Two segments share no address.
abbrev pub Apart : Segment → Segment → Type 0
Apart s t = (s.base_ptr + s.size ≤ t.base_ptr) ⊎ (t.base_ptr + t.size ≤ s.base_ptr)

abbrev pub Separate : List Segment → Type 0
Separate [] = Unit
Separate (s ∷ ss) = All (Apart s) ss × Separate ss

-- The first segment that holds the address `b` has the place for a block of that order there.
abbrev pub Belongs : ℕ → ℕ → List Segment → Type 0
Belongs order b [] = ⊥
Belongs order b (s ∷ ss) =
    FitsAt s.base_ptr s.max_order order b ⊎ ((in_segment b s ≡ false) × Belongs order b ss)

abbrev pub SameShapes : List Segment → List Segment → Type 0
SameShapes [] [] = Unit
SameShapes [] (t ∷ ts) = ⊥
SameShapes (s ∷ ss) [] = ⊥
SameShapes (s ∷ ss) (t ∷ ts) = SameShape s t × SameShapes ss ts

pub SameShapes-refl : (ss : List Segment) → SameShapes ss ss
SameShapes-refl [] = tt
SameShapes-refl (s ∷ ss) = (record { base = refl; size = refl; max = refl }, SameShapes-refl ss)

pub SameShapes-trans :
    (rs ss ts : List Segment) → SameShapes rs ss → SameShapes ss ts → SameShapes rs ts
SameShapes-trans [] [] [] h k = tt
SameShapes-trans [] [] (t ∷ ts) h k = elim k [ ]
SameShapes-trans [] (s ∷ ss) ts h k = elim h [ ]
SameShapes-trans (r ∷ rs) [] ts h k = elim h [ ]
SameShapes-trans (r ∷ rs) (s ∷ ss) [] h k = elim k [ ]
SameShapes-trans (r ∷ rs) (s ∷ ss) (t ∷ ts) h k = (
  record { base = k.0.base ∙ h.0.base; size = k.0.size ∙ h.0.size; max = k.0.max ∙ h.0.max },
  SameShapes-trans rs ss ts h.1 k.1,
)

-- A block that fits a valid segment has its address in it.
pub in_segment-fits :
    (s : Segment) (order b : ℕ)
    → IsValid s
    → FitsAt s.base_ptr s.max_order order b
    → in_segment b s ≡ true
unfolding in_segment
in_segment-fits s order b v f = ground (
  arith,
  f.place,
  f.inside,
  v.tree_in,
  v.no_wrap,
  block_bytes_pos order,
  add64_small s.base_ptr s.size,
)

in_segment-Apart :
    (s t : Segment) (order b : ℕ)
    → IsValid s
    → IsValid t
    → Apart s t
    → FitsAt t.base_ptr t.max_order order b
    → in_segment b s ≡ false
unfolding in_segment
in_segment-Apart s t order b v w ap f = ground (
  arith,
  f.place,
  f.inside,
  v.no_wrap,
  w.tree_in,
  block_bytes_pos order,
  add64_small s.base_ptr s.size,
)

in_segment-later :
    (s : Segment) (order b : ℕ) (ss : List Segment)
    → IsValid s
    → All IsValid ss
    → All (Apart s) ss
    → Belongs order b ss
    → in_segment b s ≡ false
in_segment-later s order b [] v vs aps h = elim h [ ]
in_segment-later s order b (t ∷ ts) v vs aps (inl f) = in_segment-Apart s t order b v vs.0 aps.0 f
in_segment-later s order b (t ∷ ts) v vs aps (inr h) =
    in_segment-later s order b ts v vs.1 aps.1 h.1

-- What it means that the table gives the block of this order at `b` away.
pub record GivesFrom (order b : ℕ) (ss ts : List Segment) : Type 0 where
  pub valid : All IsValid ts
  pub shapes : SameShapes ss ts
  pub belongs : Belongs order b ss
  pub conserved : (a : ℕ) → cover_all ts a + in_block order b a ≡ cover_all ss a

abbrev pub NoBlock : ℕ → Segment → Type 0
NoBlock order s = (k : ℕ) → order ≤ k → k ≤ s.max_order → s.free_list k ≡ []

abbrev pub TableOutcome : ℕ → List Segment → Option (ℕ × List Segment) → Type 0
TableOutcome order ss none = All (NoBlock order) ss
TableOutcome order ss (some (b, ts)) = GivesFrom order b ss ts

module _ (order : ℕ) where
  or_else-outcome :
      (s : Segment) (ss : List Segment)
      → IsValid s
      → All IsValid ss
      → All (Apart s) ss
      → (now : Option (ℕ × Segment)) (rest : Option (ℕ × List Segment)) → SegmentOutcome order s now
      → TableOutcome order ss rest
      → TableOutcome order (s ∷ ss) (or_else s ss now rest)
  unfolding or_else cover_all
  or_else-outcome s ss v vs aps (some (b, t)) rest g r = record {
    valid = (g.valid, vs);
    shapes = (g.shape, SameShapes-refl ss);
    belongs = inl g.fits;
    conserved = λ a. omega (arith, g.conserved a);
  }
  or_else-outcome s ss v vs aps none none e r = (e, r)
  or_else-outcome s ss v vs aps none (some (b, ts)) e r = record {
    valid = (v, r.valid);
    shapes = (record { base = refl; size = refl; max = refl }, r.shapes);
    belongs = inr (in_segment-later s order b ss v vs aps r.belongs, r.belongs);
    conserved = λ a. omega (arith, r.conserved a);
  }

  -- The table gives a block of one of its segments and keeps all other free bytes; or no segment
  -- has a free block that is large enough.
  pub alloc_segments-outcome :
      (ss : List Segment)
      → All IsValid ss
      → Separate ss
      → TableOutcome order ss (alloc_segments order ss)
  unfolding alloc_segments
  alloc_segments-outcome [] vs sep = tt
  alloc_segments-outcome (s ∷ ss) vs sep =
      or_else-outcome s ss vs.0 vs.1 sep.0 _ _ (alloc_segment-outcome order s vs.0)
        (alloc_segments-outcome ss vs.1 sep.1)
