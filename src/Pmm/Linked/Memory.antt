-- ===== src/Pmm/Linked/Memory.antt =====
-- `alloc` and `free` of mm/pmm.cpp on the segments, with all free lists in one memory.
use native.Mathlib.Decide.{dec_lt}
use helix_kernel.Prelude.{
  ℕ, ◌+◌, ◌^◌, ◌≤◌, ◌≡◌, refl, sym, ◌∙◌, ap, true, false, Option, none, some, List, [], ◌∷◌, All,
  arith, inl, inr, ltb, leb, ◌&&◌,
}
use helix_kernel.Pmm.{
  Segment, add64, sub64, alloc_segment, alloc_segments, or_else, free_segments, in_segment,
  here_freed, later_freed, num_orders,
}
use helix_kernel.Pmm.Cover.{in_block, cover}
use helix_kernel.Pmm.Valid.{IsValid}
use helix_kernel.Pmm.Alloc.{SegmentOutcome, alloc_segment-outcome}
use helix_kernel.Pmm.Memory.{cover_all, Belongs, in_segment-fits}
use helix_kernel.Pmm.Linked.{
  LinkedSegment, lists_of, given_segment, freed_segment, alloc_linked, alloc_all, free_linked,
  free_all,
}
use helix_kernel.Pmm.Linked.Chain.{Represents, cover-one, above-empty}
use helix_kernel.Pmm.Linked.Walk.{Chain-same, All-map, covered}
use helix_kernel.Pmm.Linked.Alloc.{Agrees, alloc_linked-Agrees}
use helix_kernel.Pmm.Linked.Free.{Enough, free_linked-Matches}

-- The segment with its lists in memory is this one.
pub record Stored (l : ℕ → ℕ) (g : LinkedSegment) (s : Segment) : Type 0 where
  pub base : g.base_ptr ≡ s.base_ptr
  pub size : g.size ≡ s.size
  pub used : g.pages_used ≡ s.pages_used
  pub max : g.max_order ≡ s.max_order
  pub lists : Represents (lists_of l g) s.free_list

abbrev pub AllStored : (ℕ → ℕ) → List LinkedSegment → List Segment → Type 0
AllStored l [] [] = Unit
AllStored l [] (s ∷ ss) = ⊥
AllStored l (g ∷ gs) [] = ⊥
AllStored l (g ∷ gs) (s ∷ ss) = Stored l g s × AllStored l gs ss

-- Writes to memory that the free blocks of a segment do not cover keep its lists.
pub Stored-kept :
    (l l' : ℕ → ℕ) (g : LinkedSegment) (s : Segment) (written : ℕ → ℕ)
    → IsValid s
    → ((y : ℕ) → written y ≡ 0 → l' y ≡ l y)
    → ((a : ℕ) → written a + cover s.free_list a ≤ 1)
    → Stored l g s
    → Stored l' g s
Stored-kept l l' g s written v kept once st = record {
  base = st.base;
  size = st.size;
  used = st.used;
  max = st.max;
  lists = λ k. elim (dec_lt k num_orders) [
    | yes low ↦
        Chain-same (s.free_list k) l l' (g.heads k)
          (All-map (s.free_list k)
            (λ x h. kept x (omega (arith, h, once x, cover-one k s.free_list x low)))
            (covered k (s.free_list k)))
          (st.lists k)
    | no high ↦
        let empty =
          above-empty s.base_ptr s.max_order k (s.free_list k) (omega (arith, v.max_order_lt))
            (v.blocks k) in
        Chain-same (s.free_list k) l l' (g.heads k) (rw empty tt) (st.lists k)
  ];
}

pub AllStored-kept :
    (l l' : ℕ → ℕ) (gs : List LinkedSegment) (ss : List Segment) (written : ℕ → ℕ)
    → All IsValid ss
    → ((y : ℕ) → written y ≡ 0 → l' y ≡ l y)
    → ((a : ℕ) → written a + cover_all ss a ≤ 1)
    → AllStored l gs ss
    → AllStored l' gs ss
unfolding cover_all
AllStored-kept l l' [] [] written v kept once st = tt
AllStored-kept l l' [] (s ∷ ss) written v kept once st = elim st [ ]
AllStored-kept l l' (g ∷ gs) [] written v kept once st = elim st [ ]
AllStored-kept l l' (g ∷ gs) (s ∷ ss) written v kept once st = (
  Stored-kept l l' g s written v.0 kept (λ a. omega (arith, once a)) st.0,
  AllStored-kept l l' gs ss written v.1 kept (λ a. omega (arith, once a)) st.1,
)

-- What `alloc` does on the segments in memory, by what it does on the sequences.
abbrev pub AllAgree :
    (ℕ → ℕ)
    → List Segment
    → Option (ℕ × List Segment)
    → Option (ℕ × (ℕ → ℕ) × List LinkedSegment)
    → Type 0
AllAgree l ss none r = r ≡ none
AllAgree l ss (some (b, ts)) r =
    (l' : ℕ → ℕ) × (gs' : List LinkedSegment) × (r ≡ some (b, l', gs'))
    × AllStored l' gs' ts
    × ((y : ℕ) → cover_all ss y ≡ 0 → l' y ≡ l y)

module _ (order : ℕ) where
  here_or_later :
      (l : ℕ → ℕ) (g : LinkedSegment) (gs : List LinkedSegment) (s : Segment) (ss : List Segment)
      → All IsValid (s ∷ ss)
      → ((a : ℕ) → cover_all (s ∷ ss) a ≤ 1)
      → AllStored l (g ∷ gs) (s ∷ ss)
      → (now : Option (ℕ × Segment)) (later : Option (ℕ × List Segment))
      → SegmentOutcome order s now
      → Agrees (lists_of l g) s.free_list now (alloc_linked order g.max_order (lists_of l g))
      → AllAgree l ss later (alloc_all order l gs)
      → AllAgree l (s ∷ ss) (or_else s ss now later) (alloc_all order l (g ∷ gs))
  unfolding or_else alloc_all cover_all
  here_or_later l g gs s ss v once st (some (b, t)) later shape (s', run, m) rest = (
    s'.links,
    given_segment order s' g ∷ gs,
    rw (alloc_all, run) refl,
    (
      record {
        base = st.0.base ∙ sym shape.shape.base;
        size = st.0.size ∙ sym shape.shape.size;
        used = ap (λ n. add64 n (2 ^ order)) st.0.used ∙ sym shape.counted;
        max = st.0.max ∙ sym shape.shape.max;
        lists = m.represents;
      },
      AllStored-kept l s'.links gs ss (cover s.free_list) v.1 m.kept once st.1,
    ),
    λ y unused. m.kept y (omega (arith, unused)),
  )
  here_or_later l g gs s ss v once st none none shape run rest = rw (alloc_all, run, rest) refl
  here_or_later l g gs s ss v once st none (some (b, ts)) shape run (l', gs', run', st', kept) = (
    l',
    g ∷ gs',
    rw (alloc_all, run, run') refl,
    (Stored-kept l l' g s (cover_all ss) v.0 kept (λ a. omega (arith, once a)) st.0, st'),
    λ y unused. kept y (omega (arith, unused)),
  )

  -- `alloc` with the lists in memory takes the block that it takes on the sequences, leaves the
  -- lists of the same sequences, and writes only to memory that was free.
  pub alloc_all-AllAgree :
      (l : ℕ → ℕ) (gs : List LinkedSegment) (ss : List Segment)
      → All IsValid ss
      → ((a : ℕ) → cover_all ss a ≤ 1)
      → AllStored l gs ss
      → AllAgree l ss (alloc_segments order ss) (alloc_all order l gs)
  unfolding alloc_segments cover_all alloc_all
  alloc_all-AllAgree l [] [] v once st = refl
  alloc_all-AllAgree l [] (s ∷ ss) v once st = elim st [ ]
  alloc_all-AllAgree l (g ∷ gs) [] v once st = elim st [ ]
  alloc_all-AllAgree l (g ∷ gs) (s ∷ ss) v once st =
      here_or_later l g gs s ss v once st (alloc_segment order s) (alloc_segments order ss)
        (alloc_segment-outcome order s v.0)
        (rw st.0.max
          (alloc_linked-Agrees order s (lists_of l g) v.0 (λ a. omega (arith, once a)) st.0.lists))
        (alloc_all-AllAgree l gs ss v.1 (λ a. omega (arith, once a)) st.1)

-- What `free` does on the segments in memory, by what it does on the sequences.
abbrev pub AllFreed : ℕ → ℕ → ℕ → (ℕ → ℕ) → List LinkedSegment → List Segment → Type 0
AllFreed fuel order p l gs ss =
    (o : ℕ) × (ts : List Segment) × (l' : ℕ → ℕ) × (gs' : List LinkedSegment) × (free_segments order
        p ss
      ≡ some (some o, ts))
    × (free_all fuel order p l gs ≡ some (some o, l', gs'))
    × AllStored l' gs' ts
    × ((y : ℕ) → cover_all ss y + in_block order p y ≡ 0 → l' y ≡ l y)

-- `free` of a block of the table with the lists in memory, where no memory is free twice and the
-- fuel is more than any list is long, does what it does on the sequences, and writes only to memory
-- that was free and to the block.
pub free_all-AllFreed :
    (fuel order p : ℕ) (l : ℕ → ℕ) (gs : List LinkedSegment) (ss : List Segment)
    → All IsValid ss
    → Belongs order p ss
    → ((a : ℕ) → cover_all ss a + in_block order p a ≤ 1)
    → All (λ s. Enough fuel s.free_list) ss
    → AllStored l gs ss
    → AllFreed fuel order p l gs ss
unfolding free_segments here_freed later_freed in_segment free_all cover_all
free_all-AllFreed fuel order p l [] [] v h once enough st = elim h [ ]
free_all-AllFreed fuel order p l [] (s ∷ ss) v h once enough st = elim st [ ]
free_all-AllFreed fuel order p l (g ∷ gs) [] v h once enough st = elim st [ ]
free_all-AllFreed fuel order p l (g ∷ gs) (s ∷ ss) v (inl f) once enough st =
    let place = in_segment-fits s order p v.0 f in
    let place' : (leb g.base_ptr p && ltb p (add64 g.base_ptr g.size)) ≡ true =
      rw (st.0.base, st.0.size) place in
    let (o, t, s', run, run', m, shape, counted) =
      free_linked-Matches fuel order p s (lists_of l g) v.0 f (λ a. omega (arith, once a)) enough.0
        st.0.lists in
    let run'' : free_linked fuel g.base_ptr g.max_order order p (lists_of l g) ≡ some (o, s') =
      rw (st.0.base, st.0.max) run' in
    (
      o,
      t ∷ ss,
      s'.links,
      freed_segment o s' g ∷ gs,
      rw (free_segments, place, run) refl,
      rw (free_all, place', run'') refl,
      (
        record {
          base = st.0.base ∙ sym shape.base;
          size = st.0.size ∙ sym shape.size;
          used = ap (λ n. sub64 n (2 ^ o)) st.0.used ∙ sym counted;
          max = st.0.max ∙ sym shape.max;
          lists = m.represents;
        },
        AllStored-kept l s'.links gs ss (λ a. cover s.free_list a + in_block order p a) v.1 m.kept
            (λ a. omega (arith, once a)) st.1,
      ),
      λ y unused. m.kept y (omega (arith, unused)),
    )
free_all-AllFreed fuel order p l (g ∷ gs) (s ∷ ss) v (inr (out, h)) once enough st =
    let out' : (leb g.base_ptr p && ltb p (add64 g.base_ptr g.size)) ≡ false =
      rw (st.0.base, st.0.size) out in
    let (o, ts, l', gs', run, run', st', kept) =
      free_all-AllFreed fuel order p l gs ss v.1 h (λ a. omega (arith, once a)) enough.1 st.1 in
    (
      o,
      s ∷ ts,
      l',
      g ∷ gs',
      rw (free_segments, out, run) refl,
      rw (free_all, out', run') refl,
      (
        Stored-kept l l' g s (λ a. cover_all ss a + in_block order p a) v.0 kept
            (λ a. omega (arith, once a)) st.0,
        st',
      ),
      λ y unused. kept y (omega (arith, unused)),
    )
