-- ===== src/Paging/Tree/Frame.antt =====
-- Writes beside the page tables of mm/vmm.cpp.
use helix_kernel.Prelude.{
  ℕ, ◌^◌, ◌≤◌, ◌<◌, ◌≡◌, sym, ◌∙◌, ap, none, some, List, [], length, arith, Option-cases, inl, inr,
  if◌then◌else◌,
}
use helix_kernel.Vmm.{pa_to_va}
use helix_kernel.Pmm.{Pmm}
use helix_kernel.Paging.{Words, put, slot, is_present}
use helix_kernel.Paging.Walk.{put_other}
use helix_kernel.Paging.Tree.{
  Holding, walk, leaf_at, Indices, IsMapped, walk-same, walk-nil, leaf_at-walk, leaf_at-none,
}
use helix_kernel.Paging.Tree.Page.{held-ne_slot}

module _ {held : Holding} (w : Words) (root : ℕ) (f : Pmm) (h : IsMapped held root w f) (y v : ℕ)
    (low : y < 2 ^ 47) (is_held : 0 < held.covers y) where
  abbrev beside : Words
  beside = put w (pa_to_va y) v

  -- The entries of the tables are kept.
  entry_same :
      (q : List ℕ) (u j : ℕ)
      → length q ≤ 3
      → Indices q
      → walk w root q ≡ some u
      → j < 512
      → beside (slot u j) ≡ w (slot u j)
  entry_same q u j l hq e lt =
      put_other w (pa_to_va y) v (slot u j)
        (λ same. held-ne_slot f u j y (h.tree.in_use q u l hq e) low is_held lt (sym same))

  walk-beside : (q : List ℕ) → length q ≤ 3 → Indices q → walk beside root q ≡ walk w root q
  walk-beside q l hq =
      walk-same w beside root q [] root (walk-nil w root) tt hq
        (λ r j u lt hr hj e. entry_same r u j (omega arith) hr e hj)

  pub IsMapped-beside : IsMapped held root beside f
  IsMapped-beside = record {
    well = h.well;
    shapes = h.shapes;
    once = h.once;
    low = h.low;
    tree = record {
      in_use = λ q u l hq e. h.tree.in_use q u l hq (sym (walk-beside q l hq) ∙ e);
      apart = λ q r u lq lr hq hr eq er.
          h.tree.apart q r u lq lr hq hr (sym (walk-beside q lq hq) ∙ eq)
            (sym (walk-beside r lr hr) ∙ er);
    };
  }

  pub leaf_at-beside :
      (q : List ℕ) (j : ℕ)
      → length q ≤ 3
      → Indices q
      → j < 512
      → leaf_at beside root q j ≡ leaf_at w root q j
  leaf_at-beside q j l hq lt =
      let same = walk-beside q l hq in
      elim (Option-cases (walk w root q)) [
        | inl gone ↦ leaf_at-none beside root q j (same ∙ gone) ∙ sym (leaf_at-none w root q j gone)
        | inr (u, there) ↦
            leaf_at-walk beside root q j u (same ∙ there)
            ∙ ap (λ x. if is_present x then some x else none) (entry_same q u j l hq there lt)
            ∙ sym (leaf_at-walk w root q j u there)
      ]
