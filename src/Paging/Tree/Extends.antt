-- ===== src/Paging/Tree/Extends.antt =====
-- What new tables keep of the tree of page tables of mm/vmm.cpp.
use helix_kernel.Prelude.{◌^◌, ℕ, ◌%◌, ◌≤◌, ◌<◌, ◌≡◌, ◌≢◌, refl, sym, ◌∙◌, ap, some, List, length}
use helix_kernel.Vmm.{pa_to_va}
use helix_kernel.Pmm.{Pmm}
use helix_kernel.Paging.{Words}
use helix_kernel.Paging.Allocate.{pa_to_va-aligned, pa_to_va-distinct, pa_to_va-ne_zero}
use helix_kernel.Paging.Tree.{Holding, walk, leaf_at, Indices, InUse, IsTree, IsMapped}
use helix_kernel.Paging.Tree.Grow.{Roomy}
use helix_kernel.Paging.Tree.Links.{Links, Links-refl, Links-trans}
use helix_kernel.Paging.Tree.Page.{Given, InUse-ne, IsMapped-segtab}

-- The tables of the tree are still there, their entries for pages are the same, and so is the memory
-- that callers hold; new entries for tables have the user access of the flags.
pub record Extends (held : Holding) (flags root : ℕ) (w w' : Words) (f' : Pmm) : Type 0 where
  pub mapped : IsMapped held root w' f'
  pub kept :
      (q : List ℕ) (v : ℕ)
      → length q ≤ 3
      → Indices q
      → walk w root q ≡ some v
      → walk w' root q ≡ some v
  pub leaves :
      (q : List ℕ) (j : ℕ)
      → length q ≡ 3
      → Indices q
      → j < 512
      → leaf_at w' root q j ≡ leaf_at w root q j
  pub callers : (y : ℕ) → y < 2 ^ 47 → 0 < held.covers y → w' (pa_to_va y) ≡ w (pa_to_va y)
  pub links : Links flags root w w'

pub Extends-refl :
    {held : Holding} (flags root : ℕ) (w : Words) (f : Pmm)
    → IsMapped held root w f
    → Extends held flags root w w f
Extends-refl flags root w f h = record {
  mapped = h;
  kept = λ q v l hq e. e;
  leaves = λ q j l hq lt. refl;
  callers = λ y low is_held. refl;
  links = Links-refl flags root w;
}

-- Where no page is given.
pub Extends-segtab :
    {held : Holding} (flags root : ℕ) (w : Words) (f f' : Pmm)
    → f'.segtab ≡ f.segtab
    → IsMapped held root w f
    → Extends held flags root w w f'
Extends-segtab flags root w f f' same h = record {
  mapped = IsMapped-segtab root w f f' same h;
  kept = λ q v l hq e. e;
  leaves = λ q j l hq lt. refl;
  callers = λ y low is_held. refl;
  links = Links-refl flags root w;
}

pub Extends-trans :
    {held : Holding} (flags root : ℕ) (w w' w'' : Words) (f' f'' : Pmm)
    → Extends held flags root w w' f'
    → Extends held flags root w' w'' f''
    → Extends held flags root w w'' f''
Extends-trans flags root w w' w'' f' f'' e e' = record {
  mapped = e'.mapped;
  kept = λ q v l hq old. e'.kept q v l hq (e.kept q v l hq old);
  leaves = λ q j l hq lt. e'.leaves q j l hq lt ∙ e.leaves q j l hq lt;
  callers = λ y low is_held. e'.callers y low is_held ∙ e.callers y low is_held;
  links = Links-trans flags root w w' w'' e.links e'.links;
}

-- The table of a path of the tree.
pub InUse-aligned : {held : Holding} (f : Pmm) (t : ℕ) → InUse held f t → t % 4096 ≡ 0
InUse-aligned f t u = ap (λ x. x % 4096) u.address ∙ pa_to_va-aligned u.page u.aligned

pub InUse-ne_zero : {held : Holding} (f : Pmm) (t : ℕ) → InUse held f t → t ≢ 0
InUse-ne_zero f t u e = pa_to_va-ne_zero u.page u.low (sym u.address ∙ e)

-- The new page is none of the tables.
pub InUse-apart :
    {held : Holding} (b t : ℕ) (f f' : Pmm) → Given held b f f' → InUse held f t → t ≢ pa_to_va b
InUse-apart b t f f' g u e =
    pa_to_va-distinct u.page b u.low g.low (InUse-ne b f f' t g u) (sym u.address ∙ e)

pub Given-Roomy :
    {held : Holding} (w : Words) (root b : ℕ) (f f' : Pmm)
    → IsTree held w root f
    → Given held b f f'
    → Roomy w root (pa_to_va b)
Given-Roomy w root b f f' t g = record {
  starts = λ q u l hq e. InUse-aligned f u (t.in_use q u l hq e);
  fresh = λ q u l hq e. InUse-apart b u f f' g (t.in_use q u l hq e);
  apart = t.apart;
}
