-- ===== src/Pmm/Free.antt =====
-- `free` of mm/pmm.cpp on one segment.
use helix_kernel.Prelude.{
  ℕ, zero, suc, ◌+◌, ◌-◌, ◌^◌, ◌≤◌, ◌<◌, ◌≡◌, refl, List, some, arith, Option-cases, inl, inr,
  lt→ltb, ap,
}
use helix_kernel.Pmm.{
  FreeLists, Segment, word, sub64, block_bytes, set_list, add_block, take_buddy, buddy_addr, lower,
  merge, put_block, free_segment, num_orders,
}
use helix_kernel.Pmm.Cover.{in_block, cover, cover-set_list, cover-add_block}
use helix_kernel.Pmm.Valid.{
  IsValid, FitsAt, FitsAt-le, ValidLists, ValidLists-set_list, ValidLists-add_block,
}
use helix_kernel.Pmm.Buddy.{
  Halves, buddy_addr-Halves, in_block-merge, FitsAt-merge, Taken, take_buddy-Taken,
}
use helix_kernel.Pmm.Alloc.{SameShape}

-- What the merging loop returns: the merged block covers the block that it began with and the
-- buddies that it took from the lists.
pub record Merged (base max order addr : ℕ) (fl : FreeLists) (last : ℕ) (r : ℕ × ℕ × FreeLists)
    : Type 0 where
  pub up : order ≤ r.0
  pub top : r.0 ≤ last
  pub valid : ValidLists base max r.2
  pub fits : FitsAt base max r.0 r.1
  pub conserved : (a : ℕ) → cover r.2 a + in_block r.0 r.1 a ≡ cover fl a + in_block order addr a

module _ (base max : ℕ) (w : base + block_bytes max < word) (small : max < num_orders) where
  pub merged_fits :
      (order addr buddy : ℕ)
      → Halves base order addr buddy
      → FitsAt base max order addr
      → FitsAt base max order buddy
      → FitsAt base max (order + 1) (lower buddy addr)
  merged_fits order addr buddy h f g =
      let e : order + 1 ≡ suc order = omega arith in
      rw e (FitsAt-merge base order addr buddy max h f g)

  absorb :
      (d order addr buddy : ℕ) (fl : FreeLists) (bs : List ℕ)
      → order + suc d ≤ max
      → Halves base order addr buddy
      → FitsAt base max order addr
      → Taken base max order buddy (fl order) (some bs)
      → {r : ℕ × ℕ × FreeLists}
      → Merged base max (order + 1) (lower buddy addr) (set_list fl order bs) (order + 1 + d) r
      → Merged base max order addr fl (order + suc d) r
  absorb d order addr buddy fl bs h hv f t m = record {
    up = omega (arith, m.up);
    top = omega (arith, m.top);
    valid = m.valid;
    fits = m.fits;
    conserved = λ a.
        let e : order + 1 ≡ suc order = omega arith in
        omega (
          arith,
          m.conserved a,
          cover-set_list fl order bs a (omega arith),
          t.2 a,
          in_block-merge base order addr buddy a hv,
          ap (λ k. in_block k (lower buddy addr) a) e,
        );
  }

  pub merge-Merged :
      (d order addr : ℕ) (fl : FreeLists)
      → order + d ≤ max
      → ValidLists base max fl
      → FitsAt base max order addr
      → Merged base max order addr fl (order + d) (merge d base order addr fl)
  unfolding merge
  merge-Merged zero order addr fl h v f = record {
    up = omega arith;
    top = omega arith;
    valid = v;
    fits = f;
    conserved = λ a. refl;
  }
  merge-Merged (suc d) order addr fl h v f =
      let buddy = buddy_addr base order addr in
      elim (Option-cases (take_buddy buddy (fl order))) [
        | inl alone ↦
            rw (alone, merge)
              (record {
                up = omega arith;
                top = omega arith;
                valid = v;
                fits = f;
                conserved = λ a. refl;
              })
        | inr (bs, found) ↦
            let t : Taken base max order buddy (fl order) (some bs) =
              rw found at (take_buddy-Taken base max order buddy (fl order) (v order)) in
            rw (found, merge)
              (absorb d order addr buddy fl bs h (buddy_addr-Halves base max order addr f w) f t (
                merge-Merged d (order + 1) (lower buddy addr) (set_list fl order bs) (omega arith)
                  (ValidLists-set_list base max fl order bs v t.1)
                  (merged_fits order addr buddy (buddy_addr-Halves base max order addr f w) f t.0)))
      ]

-- What `free` does with a block that the segment once gave away: it takes it back in full. The
-- counter goes down by the pages of the merged block.
pub record Takes (order addr : ℕ) (s : Segment) (o : ℕ) (t : Segment) : Type 0 where
  pub valid : IsValid t
  pub shape : SameShape s t
  pub up : order ≤ o
  pub conserved : (a : ℕ) → cover t.free_list a ≡ cover s.free_list a + in_block order addr a
  pub counted : t.pages_used ≡ sub64 s.pages_used (2 ^ o)

pub free_segment-Takes :
    (order addr : ℕ) (s : Segment)
    → IsValid s
    → FitsAt s.base_ptr s.max_order order addr
    → (o : ℕ) × (t : Segment) × (free_segment order addr s ≡ some (o, t)) × Takes order addr s o t
unfolding free_segment put_block
free_segment-Takes order addr s v f =
    let h = FitsAt-le s.base_ptr s.max_order order addr f in
    let r = merge (s.max_order - order) s.base_ptr order addr s.free_list in
    let w : s.base_ptr + block_bytes s.max_order < word = omega (arith, v.tree_in, v.no_wrap) in
    let m =
      merge-Merged s.base_ptr s.max_order w v.max_order_lt (s.max_order - order) order addr
        s.free_list (omega arith) v.blocks f in
    let low : r.0 < num_orders = omega (arith, m.top, v.max_order_lt) in
    (
      r.0,
      record s { free_list = add_block r.2 r.0 r.1; pages_used = sub64 s.pages_used (2 ^ r.0) },
      rw (lt→ltb r.0 num_orders low),
      record {
        valid = record {
          max_order_lt = v.max_order_lt;
          base_pos = v.base_pos;
          tree_in = v.tree_in;
          no_wrap = v.no_wrap;
          blocks = ValidLists-add_block s.base_ptr s.max_order r.2 r.0 r.1 m.valid m.fits;
        };
        shape = record { base = refl; size = refl; max = refl };
        up = m.up;
        conserved = λ a. omega (arith, cover-add_block r.2 r.0 r.1 a low, m.conserved a);
        counted = refl;
      },
    )
