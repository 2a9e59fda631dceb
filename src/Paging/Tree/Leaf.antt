-- ===== src/Paging/Tree/Leaf.antt =====
-- What a write to the entry of a page does to the tree of page tables of mm/vmm.cpp.
use helix_kernel.Prelude.{
  ◌^◌, ℕ, ◌≤◌, ◌<◌, ◌≡◌, refl, sym, ◌∙◌, ap, none, some, List, [], length, arith, Option-cases, inl,
  inr, if◌then◌else◌,
}
use helix_kernel.Pmm.{Pmm}
use helix_kernel.Paging.{Words, put, slot, is_present}
use helix_kernel.Paging.Walk.{put_self, put_other}
use helix_kernel.Paging.Tree.{
  Holding, walk, leaf_at, Indices, IsMapped, walk-same, walk-nil, leaf_at-walk, leaf_at-none,
}
use helix_kernel.Vmm.{pa_to_va}
use helix_kernel.Paging.Tree.Page.{held-ne_slot}
use helix_kernel.Paging.Tree.Grow.{slot-injective}
use helix_kernel.Paging.Tree.Links.{Links}
use helix_kernel.Paging.Tree.Extends.{InUse-aligned}

module _ {held : Holding} (w : Words) (root : ℕ) (f : Pmm) (h : IsMapped held root w f) (p : List ℕ)
    (t i v : ℕ) (three : length p ≡ 3) (hp : Indices p) (path : walk w root p ≡ some t)
    (lt : i < 512) where
  abbrev written : Words
  written = put w (slot t i) v

  -- The entry of a table of the tree is another one, unless table and index are the same.
  other_entry :
      (q : List ℕ) (u j : ℕ)
      → length q ≤ 3
      → Indices q
      → walk w root q ≡ some u
      → j < 512
      → slot u j ≡ slot t i
      → (q ≡ p) × (j ≡ i)
  other_entry q u j l hq e lt' same =
      let (tables, indices) =
        slot-injective u t j i (InUse-aligned f u (h.tree.in_use q u l hq e))
          (InUse-aligned f t (h.tree.in_use p t (omega (arith, three)) hp path)) lt' lt same in
      (
        h.tree.apart q p t l (omega (arith, three)) hq hp (e ∙ ap (λ x. some x) tables) path,
        indices,
      )

  pub walk-written : (q : List ℕ) → length q ≤ 3 → Indices q → walk written root q ≡ walk w root q
  walk-written q l hq =
      walk-same w written root q [] root (walk-nil w root) tt hq λ r j u lt' hr hj e.
        put_other w (slot t i) v (slot u j) λ same.
          let (paths, _) = other_entry r u j (omega arith) hr e hj same in
          omega (arith, three, ap length paths)

  pub IsMapped-written : IsMapped held root written f
  IsMapped-written = record {
    well = h.well;
    shapes = h.shapes;
    once = h.once;
    low = h.low;
    tree = record {
      in_use = λ q u l hq e. h.tree.in_use q u l hq (sym (walk-written q l hq) ∙ e);
      apart = λ q r u lq lr hq hr eq er.
          h.tree.apart q r u lq lr hq hr (sym (walk-written q lq hq) ∙ eq)
            (sym (walk-written r lr hr) ∙ er);
    };
  }

  pub leaf_at-written : leaf_at written root p i ≡ (if is_present v then some v else none)
  leaf_at-written =
      leaf_at-walk written root p i t (walk-written p (omega (arith, three)) hp ∙ path)
      ∙ rw (put_self w (slot t i) v) refl

  pub leaf_at-other :
      (q : List ℕ) (j : ℕ)
      → length q ≡ 3
      → Indices q
      → j < 512
      → ((q ≡ p) → (j ≡ i) → ⊥)
      → leaf_at written root q j ≡ leaf_at w root q j
  leaf_at-other q j l hq hj ne =
      let same = walk-written q (omega (arith, l)) hq in
      elim (Option-cases (walk w root q)) [
        | inl gone ↦
            leaf_at-none written root q j (same ∙ gone) ∙ sym (leaf_at-none w root q j gone)
        | inr (u, there) ↦
            let word : written (slot u j) ≡ w (slot u j) = put_other w (slot t i) v (slot u j) λ e.
              let (paths, indices) = other_entry q u j (omega (arith, l)) hq there hj e in
              ne paths indices in
            leaf_at-walk written root q j u (same ∙ there)
            ∙ ap (λ x. if is_present x then some x else none) word
            ∙ sym (leaf_at-walk w root q j u there)
      ]

  pub callers-written :
      (y : ℕ) → y < 2 ^ 47 → 0 < held.covers y → written (pa_to_va y) ≡ w (pa_to_va y)
  callers-written y low is_held =
      put_other w (slot t i) v (pa_to_va y)
        (held-ne_slot f t i y (h.tree.in_use p t (omega (arith, three)) hp path) low is_held lt)

  -- No entry of a table changes.
  pub written-Links : (flags : ℕ) → Links flags root w written
  written-Links flags q j u l hq hj at there =
      let before = sym (walk-written q (omega (arith, l)) hq) ∙ at in
      inl (
        before,
        put_other w (slot t i) v (slot u j) λ same.
            let (paths, _) = other_entry q u j (omega (arith, l)) hq before hj same in
            omega (arith, l, three, ap length paths),
      )
