-- ===== src/Paging/Tree/Links.antt =====
-- The entries of tables, in the tree of page tables of mm/vmm.cpp: bit 2, for user access, of those
-- that `mmap` makes.
use native.Mathlib.Decide.{ℕ_discrete}
use mathlib.Core.Bool.{true≢false}
use helix_kernel.Prelude.{
  ℕ, ◌/◌, ◌%◌, ◌≤◌, ◌<◌, ◌≡◌, ◌⊎◌, refl, sym, ◌∙◌, ap, true, some, List, length, arith, inl, inr,
}
use helix_kernel.Paging.{Words, slot, is_present}
use helix_kernel.Paging.Create.{absent-follow}
use helix_kernel.Paging.Tree.{walk, Indices}
use helix_kernel.Paging.Tree.Grow.{Grown, Roomy, kept, root-new}

-- Each entry for a table, present in the words `w'`, is one of the words `w`, or it has the bit for
-- user access of the flags.
abbrev pub Links : ℕ → ℕ → Words → Words → Type 0
Links flags root w w' =
    (q : List ℕ) (j u : ℕ)
    → length q ≤ 2
    → Indices q
    → j < 512
    → walk w' root q ≡ some u
    → is_present (w' (slot u j)) ≡ true
    → ((walk w root q ≡ some u) × (w' (slot u j) ≡ w (slot u j)))
      ⊎ (w' (slot u j) / 4 % 2 ≡ flags / 4 % 2)

pub Links-refl : (flags root : ℕ) (w : Words) → Links flags root w w
Links-refl flags root w q j u l hq lt at there = inl (at, refl)

pub Links-trans :
    (flags root : ℕ) (w w' w'' : Words)
    → Links flags root w w'
    → Links flags root w' w''
    → Links flags root w w''
Links-trans flags root w w' w'' first then q j u l hq lt at there =
    elim (then q j u l hq lt at there) [
      | inr made ↦ inr made
      | inl (at', same) ↦ elim (first q j u l hq lt at' (ap is_present (sym same) ∙ there)) [
        | inl (at0, same0) ↦ inl (at0, same ∙ same0)
        | inr made ↦ inr (ap (λ e. e / 4 % 2) same ∙ made)
      ]
    ]

-- A new table has one entry that leads to it, and none of its own.
pub Grown-Links :
    (flags root : ℕ) (w w' : Words) (p : List ℕ) (t i page : ℕ)
    → Grown w w' root p t i page
    → Roomy w root page
    → w' (slot t i) / 4 % 2 ≡ flags / 4 % 2
    → Links flags root w w'
Grown-Links flags root w w' p t i page g h entry q j u l hq lt at there =
    elim (root-new w w' root p t i page g h q u (omega (arith, l)) hq at) [
      | inl old ↦ elim (ℕ_discrete (slot u j) (slot t i)) [
        | yes same ↦ inr (ap (λ x. w' x / 4 % 2) same ∙ entry)
        | no other ↦
            inl (old, kept w w' root p t i page g h q u j (omega (arith, l)) hq old lt other)
      ]
      | inr (_, new) ↦ absurd (
          true≢false (
            sym there
            ∙ ap (λ x. is_present (w' (slot x j))) new
            ∙ absent-follow w' (slot page j) (g.empty j lt)))
    ]
