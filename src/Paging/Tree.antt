-- ===== src/Paging/Tree.antt =====
-- The page tables of mm/vmm.cpp as a tree: the table that a path of indices leads to from the root.
pub mod Grow
pub mod Page
pub mod Extends
pub mod Links
pub mod Lower
pub mod Table
pub mod Leaf
pub mod Frame
pub mod View
pub mod MapPage
pub mod Mmap
pub mod Munmap
pub mod Restore
pub mod Leak
mod Tests
use helix_kernel.Prelude.{
  ℕ, zero, suc, ◌+◌, ◌%◌, ◌^◌, ◌≤◌, ◌<◌, ◌≡◌, ◌≢◌, refl, sym, ◌∙◌, ap, Option, none, some, List, [],
  ◌∷◌, ◌++◌, length, length-append, All, arith, Option-cases, inl, inr, if◌then◌else◌,
}
use mathlib.Core.Option.{some-injective, none-ne-some}
use helix_kernel.Vmm.{pa_to_va}
use helix_kernel.Pmm.{Pmm, Segment}
use helix_kernel.Pmm.Memory.{cover_all, SameShapes}
use helix_kernel.Pmm.Table.{IsWell}
use helix_kernel.Paging.{Words, Machine, slot, follow, leaf_slot, is_present, table_index}
use helix_kernel.Paging.Walk.{translate}

-- `none` where an entry on the way is not present.
unfoldable pub walk : Words → ℕ → List ℕ → Option ℕ
walk w t [] = some t
walk w t (i ∷ is) = elim (follow w (slot t i)) [ none ↦ none | some u ↦ walk w u is ]

-- The entry at the end of a path and an index, if it is present.
unfoldable pub leaf_at : Words → ℕ → List ℕ → ℕ → Option ℕ
leaf_at w root path i = elim (walk w root path) [
  | none ↦ none
  | some t ↦ if is_present (w (slot t i)) then some (w (slot t i)) else none
]

-- The indices are below 512.
abbrev pub Indices : List ℕ → Type 0
Indices = All (λ i. i < 512)

-- The path of an address to its lowest table.
abbrev pub path_of : ℕ → List ℕ
path_of va = table_index 39 va ∷ table_index 30 va ∷ table_index 21 va ∷ []

-- How many of the blocks that callers hold cover a physical address, and the segments that the
-- blocks are of, up to the free lists.
pub record Holding : Type 0 where
  pub covers : ℕ → ℕ
  pub segments : List Segment

-- A table stands in the direct map of a page below 2^47 that is neither free nor held.
pub record InUse (held : Holding) (frames : Pmm) (t : ℕ) : Type 0 where
  pub page : ℕ
  pub address : t ≡ pa_to_va page
  pub aligned : page % 4096 ≡ 0
  pub low : page < 2 ^ 47
  pub used : (x : ℕ) → page ≤ x → x < page + 4096 → cover_all frames.segtab x + held.covers x ≡ 0

-- Every path of up to three indices leads to a table of its own, or to none: no entry on the way
-- is that of a large page.
pub record IsTree (held : Holding) (w : Words) (root : ℕ) (frames : Pmm) : Type 0 where
  pub in_use :
      (p : List ℕ) (t : ℕ) → length p ≤ 3 → Indices p → walk w root p ≡ some t → InUse held frames t
  pub apart :
      (p q : List ℕ) (t : ℕ)
      → length p ≤ 3
      → length q ≤ 3
      → Indices p
      → Indices q
      → walk w root p ≡ some t
      → walk w root q ≡ some t
      → p ≡ q

-- A segment whose blocks are pages below 2^47.
pub record IsLow (s : Segment) : Type 0 where
  pub aligned : s.base_ptr % 4096 ≡ 0
  pub low : s.base_ptr + s.size ≤ 2 ^ 47

-- The allocator is well formed, no byte is free or held twice, and the tables from the root on are
-- pages that are neither.
pub record IsMapped (held : Holding) (root : ℕ) (w : Words) (frames : Pmm) : Type 0 where
  pub well : IsWell frames
  pub shapes : SameShapes held.segments frames.segtab
  pub once : (x : ℕ) → cover_all frames.segtab x + held.covers x ≤ 1
  pub low : All IsLow frames.segtab
  pub tree : IsTree held w root frames

pub walk-present :
    (w : Words) (t i u : ℕ) (p : List ℕ)
    → follow w (slot t i) ≡ some u
    → walk w t (i ∷ p) ≡ walk w u p
unfolding walk
walk-present w t i u p e = rw (walk, e) refl

pub walk-absent :
    (w : Words) (t i : ℕ) (p : List ℕ) → follow w (slot t i) ≡ none → walk w t (i ∷ p) ≡ none
unfolding walk
walk-absent w t i p e = rw (walk, e) refl

pub walk-nil : (w : Words) (t : ℕ) → walk w t [] ≡ some t
unfolding walk
walk-nil w t = refl

-- A path that leads somewhere, and one more index.
pub walk-append :
    (w : Words) (t : ℕ) (p : List ℕ) (i u : ℕ)
    → walk w t p ≡ some u
    → walk w t (p ++ (i ∷ [])) ≡ follow w (slot u i)
unfolding walk
walk-append w t [] i u e =
    let same : t ≡ u = some-injective _ _ e in
    let one : walk w t (i ∷ []) ≡ follow w (slot t i) = elim (Option-cases (follow w (slot t i))) [
      | inl absent ↦ walk-absent w t i [] absent ∙ sym absent
      | inr (v, present) ↦ walk-present w t i v [] present ∙ walk-nil w v ∙ sym present
    ] in
    one ∙ ap (λ x. follow w (slot x i)) same
walk-append w t (j ∷ p) i u e = elim (Option-cases (follow w (slot t j))) [
  | inl absent ↦ absurd (none-ne-some _ (sym (walk-absent w t j p absent) ∙ e))
  | inr (v, present) ↦
      walk-present w t j v (p ++ (i ∷ [])) present
      ∙ walk-append w v p i u (sym (walk-present w t j v p present) ∙ e)
]

-- A path to a table, and on from there.
pub walk-extend :
    (w : Words) (root : ℕ) (r : List ℕ) (t i u : ℕ)
    → walk w root r ≡ some t
    → follow w (slot t i) ≡ some u
    → walk w root (r ++ (i ∷ [])) ≡ some u
walk-extend w root r t i u e f = walk-append w root r i t e ∙ f

pub Indices-append : (r : List ℕ) (i : ℕ) → Indices r → i < 512 → Indices (r ++ (i ∷ []))
Indices-append [] i h lt = (lt, tt)
Indices-append (j ∷ r) i h lt = (h.0, Indices-append r i h.1 lt)

pub follow-same : (w w' : Words) (at : ℕ) → w' at ≡ w at → follow w' at ≡ follow w at
unfolding follow
follow-same w w' at e = rw e refl

-- A path leads where it led, if the entries on the way are the same.
pub walk-same :
    (w w' : Words) (root : ℕ) (q r : List ℕ) (t : ℕ)
    → walk w root r ≡ some t
    → Indices r
    → Indices q
    → ((r' : List ℕ) (j u : ℕ)
        → length r' < length r + length q
        → Indices r'
        → j < 512
        → walk w root r' ≡ some u
        → w' (slot u j) ≡ w (slot u j))
    → walk w' t q ≡ walk w t q
walk-same w w' root [] r t e hr hq same = walk-nil w' t ∙ sym (walk-nil w t)
walk-same w w' root (j ∷ q) r t e hr hq same =
    let here : follow w' (slot t j) ≡ follow w (slot t j) =
      follow-same w w' (slot t j) (same r j t (omega arith) hr hq.0 e) in
    elim (Option-cases (follow w (slot t j))) [
      | inl absent ↦ walk-absent w' t j q (here ∙ absent) ∙ sym (walk-absent w t j q absent)
      | inr (u, present) ↦
          let longer : length (r ++ (j ∷ [])) ≡ length r + 1 = length-append r (j ∷ []) in
          let rest =
            walk-same w w' root q (r ++ (j ∷ [])) u (walk-extend w root r t j u e present)
              (Indices-append r j hr hq.0) hq.1
              (λ r' k v lt. same r' k v (omega (arith, longer))) in
          walk-present w' t j u q (here ∙ present) ∙ rest ∙ sym (walk-present w t j u q present)
    ]

pub leaf_at-walk :
    (w : Words) (root : ℕ) (p : List ℕ) (i t : ℕ)
    → walk w root p ≡ some t
    → leaf_at w root p i ≡ (if is_present (w (slot t i)) then some (w (slot t i)) else none)
unfolding leaf_at
leaf_at-walk w root p i t e = rw (leaf_at, e) refl

pub leaf_at-none :
    (w : Words) (root : ℕ) (p : List ℕ) (i : ℕ) → walk w root p ≡ none → leaf_at w root p i ≡ none
unfolding leaf_at
leaf_at-none w root p i e = rw (leaf_at, e) refl

-- The processor's walk is the path of the address, and the entry at its end.
pub translate-leaf_at :
    (w : Words) (cr3 va : ℕ)
    → translate w cr3 va ≡ leaf_at w (pa_to_va cr3) (path_of va) (table_index 12 va)
unfolding translate leaf_slot leaf_at walk
translate-leaf_at w cr3 va =
    elim (Option-cases (follow w (slot (pa_to_va cr3) (table_index 39 va)))) [
      | inl e ↦ rw (e, translate, leaf_slot, leaf_at, walk) refl
      | inr (t3, e) ↦ elim (Option-cases (follow w (slot t3 (table_index 30 va)))) [
        | inl e' ↦ rw (e, e', translate, leaf_slot, leaf_at, walk) refl
        | inr (t2, e') ↦ elim (Option-cases (follow w (slot t2 (table_index 21 va)))) [
          | inl e'' ↦ rw (e, e', e'', translate, leaf_slot, leaf_at, walk) refl
          | inr (t1, e'') ↦ rw (e, e', e'', translate, leaf_slot, leaf_at, walk) refl
        ]
      ]
    ]
