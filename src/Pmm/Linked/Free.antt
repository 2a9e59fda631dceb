-- ===== src/Pmm/Linked/Free.antt =====
-- `free` of mm/pmm.cpp on the free lists of a segment in memory.
use mathlib.Core.Option.{some-injective, none-ne-some}
use native.Mathlib.Decide.{ℕ_discrete}
use helix_kernel.Prelude.{
  ℕ, zero, suc, ◌+◌, ◌-◌, ◌^◌, ◌≤◌, ◌<◌, ◌≡◌, refl, ◌∙◌, ap, true, false, none, some, List, [], ◌∷◌,
  length, arith, ◌==◌, Option-cases, inl, inr, lt→ltb, Bool-cases,
}
use helix_kernel.Pmm.{
  FreeLists, Segment, word, block_bytes, set_list, add_block, take_buddy, buddy_addr, lower, merge,
  free_segment, num_orders, sub64, put_block,
}
use helix_kernel.Pmm.Cover.{in_block, cover, cover_list, cover-set_list}
use helix_kernel.Pmm.Valid.{IsValid, FitsAt, FitsAt-le, ValidLists, ValidLists-set_list}
use helix_kernel.Pmm.Buddy.{buddy_addr-Halves, in_block-merge, Taken, take_buddy-Taken}
use helix_kernel.Pmm.Alloc.{SameShape}
use helix_kernel.Pmm.Free.{merged_fits, merge-Merged}
use helix_kernel.Pmm.Linked.{Lists, walk_list, add_linked, merge_linked, free_linked}
use helix_kernel.Pmm.Linked.Chain.{
  Represents, Matches, add_linked-Represents, assign_other, uncovered, cover-one, cover-Fresh,
  in_block_self,
}
use helix_kernel.Pmm.Linked.Walk.{Walked, walk_list-Walked, Walked-Represents}

take_buddy-length :
    (buddy : ℕ) (xs ys : List ℕ) → take_buddy buddy xs ≡ some ys → length ys ≤ length xs
unfolding take_buddy
take_buddy-length buddy [] ys e = absurd (none-ne-some _ e)
take_buddy-length buddy (x ∷ xs) ys e = elim (Bool-cases (x == buddy)) [
  | inl here ↦
      let same : xs ≡ ys = some-injective _ _ (rw here at e) in omega (arith, ap length same)
  | inr there ↦ elim (Option-cases (take_buddy buddy xs)) [
    | inl gone ↦ absurd (none-ne-some _ (rw (there, gone) at e))
    | inr (zs, rest) ↦
        let same : x ∷ zs ≡ ys = some-injective _ _ (rw (there, rest) at e) in
        omega (arith, take_buddy-length buddy xs zs rest, ap length same)
  ]
]

-- The fuel is more than any list is long.
abbrev pub Enough : ℕ → FreeLists → Type 0
Enough fuel fl = (k : ℕ) → length (fl k) < fuel

Enough-set_list :
    (fuel : ℕ) (fl : FreeLists) (k : ℕ) (ys : List ℕ)
    → length ys ≤ length (fl k)
    → Enough fuel fl
    → Enough fuel (set_list fl k ys)
unfolding set_list
Enough-set_list fuel fl k ys le enough j = elim (ℕ_discrete j k) [
  | yes here ↦ let b : (j == k) ≡ true = ground arith in rw b (omega (arith, enough k))
  | no other ↦ let b : (j == k) ≡ false = ground arith in rw b (enough j)
]

module _ (base max : ℕ) (w : base + block_bytes max < word) (small : max < num_orders) where
  -- What the memory that is free and the block that is given back cover.
  abbrev back : FreeLists → ℕ → ℕ → ℕ → ℕ
  back fl order addr a = cover fl a + in_block order addr a

  -- Taking the buddy from its list and joining it to the block covers the same memory.
  back-merge :
      (order addr : ℕ) (fl : FreeLists) (ys : List ℕ) (a : ℕ)
      → order < num_orders
      → FitsAt base max order addr
      → Taken base max order (buddy_addr base order addr) (fl order) (some ys)
      → back (set_list fl order ys) (order + 1) (lower (buddy_addr base order addr) addr) a
        ≡ back fl order addr a
  back-merge order addr fl ys a lt f t =
      let buddy = buddy_addr base order addr in
      let e : order + 1 ≡ suc order = omega arith in
      omega (
        arith,
        cover-set_list fl order ys a lt,
        t.2 a,
        in_block-merge base order addr buddy a (buddy_addr-Halves base max order addr f w),
        ap (λ k. in_block k (lower buddy addr) a) e,
      )

  merge_linked-Matches :
      (d fuel order addr : ℕ) (s : Lists) (fl : FreeLists)
      → order + d ≤ max
      → ValidLists base max fl
      → FitsAt base max order addr
      → ((a : ℕ) → back fl order addr a ≤ 1)
      → Enough fuel fl
      → Represents s fl
      → (s' : Lists) × (merge_linked fuel d base order addr s
          ≡ some ((merge d base order addr fl).0, (merge d base order addr fl).1, s'))
        × Matches s s' (merge d base order addr fl).2 (back fl order addr)
  unfolding merge merge_linked
  merge_linked-Matches zero fuel order addr s fl h v f once enough r =
      (s, refl, record { represents = r; kept = λ y e. refl })
  merge_linked-Matches (suc d) fuel order addr s fl h v f once enough r =
      let buddy = buddy_addr base order addr in
      let low : order < num_orders = omega arith in
      let covers : (a : ℕ) → cover_list order (fl order) a ≤ 1 =
        λ a. omega (arith, once a, cover-one order fl a low) in
      let found = walk_list-Walked (fl order) fuel buddy order s (enough order) (r order) covers in
      elim (Option-cases (take_buddy buddy (fl order))) [
        | inl alone ↦
            let run : walk_list fuel buddy order 0 (s.heads order) s ≡ some none =
              rw alone at found in
            (
              s,
              rw (merge_linked, merge, run, alone) refl,
              rw (merge, alone) (record { represents = r; kept = λ y e. refl }),
            )
        | inr (ys, taken) ↦
            let (s', run, chain, heads, kept) : Walked s order (fl order) (some ys)
                (walk_list fuel buddy order 0 (s.heads order) s) =
              rw taken at found in
            let t : Taken base max order buddy (fl order) (some ys) =
              rw taken at (take_buddy-Taken base max order buddy (fl order) (v order)) in
            let total = λ (a : ℕ). back-merge order addr fl ys a low f t in
            let (s'', run', m) =
              merge_linked-Matches d fuel (order + 1) (lower buddy addr) s' (set_list fl order ys)
                (omega arith) (ValidLists-set_list base max fl order ys v t.1)
                (merged_fits base max w small order addr buddy
                  (buddy_addr-Halves base max order addr f w) f t.0)
                (λ a. omega (arith, total a, once a))
                (Enough-set_list fuel fl order ys (take_buddy-length buddy (fl order) ys taken)
                  enough)
                (Walked-Represents base max order buddy s s' fl ys small (omega arith) v
                  (λ a. omega (arith, once a)) r chain heads kept) in
            (
              s'',
              rw (merge_linked, merge, run, taken) run',
              rw (merge, taken)
                  (record {
                    represents = m.represents;
                    kept = λ y unused.
                        m.kept y (total y ∙ unused)
                        ∙ kept y (
                            uncovered order y (fl order)
                              (omega (arith, unused, cover-one order fl y low)));
                  }),
            )
      ]

-- `free` on the lists in memory, with more fuel than any list is long, does what it does on the
-- sequences, and writes only to memory that was free and to the block that is given back.
pub free_linked-Matches :
    (fuel order addr : ℕ) (g : Segment) (s : Lists)
    → IsValid g
    → FitsAt g.base_ptr g.max_order order addr
    → ((a : ℕ) → cover g.free_list a + in_block order addr a ≤ 1)
    → Enough fuel g.free_list
    → Represents s g.free_list
    → (o : ℕ) × (t : Segment) × (s' : Lists) × (free_segment order addr g ≡ some (o, t))
      × (free_linked fuel g.base_ptr g.max_order order addr s ≡ some (o, s'))
      × Matches s s' t.free_list (λ a. cover g.free_list a + in_block order addr a)
      × SameShape g t
      × (t.pages_used ≡ sub64 g.pages_used (2 ^ o))
unfolding free_segment put_block free_linked add_linked
free_linked-Matches fuel order addr g s v f once enough r =
    let base = g.base_ptr in
    let max = g.max_order in
    let w : base + block_bytes max < word = omega (arith, v.tree_in, v.no_wrap) in
    let h = FitsAt-le base max order addr f in
    let d = max - order in
    let q = merge d base order addr g.free_list in
    let m =
      merge-Merged base max w v.max_order_lt d order addr g.free_list (omega arith) v.blocks f in
    let (s', run, k) =
      merge_linked-Matches base max w v.max_order_lt d fuel order addr s g.free_list (omega arith)
        v.blocks f once enough r in
    let low : q.0 < num_orders = omega (arith, m.top, v.max_order_lt) in
    let b = lt→ltb q.0 num_orders low in
    let unused : cover q.2 q.1 ≡ 0 =
      omega (arith, m.conserved q.1, once q.1, in_block_self q.0 q.1) in
    (
      q.0,
      record g { free_list = add_block q.2 q.0 q.1; pages_used = sub64 g.pages_used (2 ^ q.0) },
      add_linked q.0 q.1 s',
      rw b refl,
      rw (free_linked, run, b) refl,
      record {
        represents =
            add_linked-Represents s' q.2 q.0 q.1 (λ z. omega (arith, z, m.fits.place, v.base_pos))
              (cover-Fresh base max q.2 q.1 v.max_order_lt m.valid unused) k.represents;
        kept = λ y outside.
            assign_other s'.links q.1 (s'.heads q.0) y (λ same. omega (
              arith,
              m.conserved y,
              outside,
              in_block_self q.0 q.1,
              ap (λ x. in_block q.0 q.1 x) same,
            ))
            ∙ k.kept y outside;
      },
      record { base = refl; size = refl; max = refl },
      refl,
    )
