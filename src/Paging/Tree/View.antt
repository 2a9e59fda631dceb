-- ===== src/Paging/Tree/View.antt =====
-- The page tables of mm/vmm.cpp as one function from addresses to entries: the view that forgets the
-- tables, and what `mmap` and `munmap` are to do to it.
use native.Mathlib.Decide.{ℕ_discrete}
use helix_kernel.Prelude.{
  ◌<◌, ℕ, zero, suc, ◌+◌, ◌/◌, ◌%◌, ◌^◌, ◌≡◌, refl, sym, ◌∙◌, ap, true, false, Option, none, some,
  List, [], ◌∷◌, arith, ◌==◌, if◌then◌else◌,
}
use helix_kernel.Prelude.Bits.{bit_and-index}
use helix_kernel.Vmm.{pa_to_va}
use helix_kernel.Pmm.{Pmm}
use helix_kernel.Paging.{Words, table_index, put, slot, is_present}
use helix_kernel.Paging.Walk.{translate, table_index-lt}
use helix_kernel.Paging.Range.{leaf}
use helix_kernel.Paging.Tree.{Holding, walk, Indices, path_of, IsMapped, translate-leaf_at}
use helix_kernel.Paging.Tree.Extends.{Extends}
use helix_kernel.Paging.Tree.Leaf.{
  IsMapped-written, leaf_at-written, leaf_at-other, callers-written,
}

abbrev pub Mapping : Type 0
Mapping = ℕ → Option ℕ

-- The 48 bits of an address that the processor reads, without the 12 of the place in the page.
unfoldable pub page_of : ℕ → ℕ
page_of x = x / 0x1000 % 2 ^ 36

-- The page of the address has the entry, and the others have what they had.
unfoldable pub put_page : ℕ → Option ℕ → Mapping → Mapping
put_page va e f x = if page_of x == page_of va then e else f x

-- `k` pages, one after the other, to physical pages one after the other.
unfoldable pub mapped : ℕ → ℕ → ℕ → ℕ → Mapping → Mapping
mapped zero va pa flags f = f
mapped (suc k) va pa flags f =
    mapped k (va + 0x1000) (pa + 0x1000) flags (put_page va (some (leaf pa flags)) f)

-- `k` pages, one after the other, to nothing.
unfoldable pub unmapped : ℕ → ℕ → Mapping → Mapping
unmapped zero va f = f
unmapped (suc k) va f = unmapped k (va + 0x1000) (put_page va none f)

page_of-table_index :
    (x y : ℕ)
    → table_index 39 x ≡ table_index 39 y
    → table_index 30 x ≡ table_index 30 y
    → table_index 21 x ≡ table_index 21 y
    → table_index 12 x ≡ table_index 12 y
    → page_of x ≡ page_of y
unfolding page_of table_index
page_of-table_index x y e3 e2 e1 e0 = omega (
  arith,
  e3,
  e2,
  e1,
  e0,
  bit_and-index (x / 2 ^ 39),
  bit_and-index (y / 2 ^ 39),
  bit_and-index (x / 2 ^ 30),
  bit_and-index (y / 2 ^ 30),
  bit_and-index (x / 2 ^ 21),
  bit_and-index (y / 2 ^ 21),
  bit_and-index (x / 2 ^ 12),
  bit_and-index (y / 2 ^ 12),
)

abbrev index_at : ℕ → List ℕ → ℕ
index_at n [] = 0
index_at zero (i ∷ p) = i
index_at (suc n) (i ∷ p) = index_at n p

path_of-page_of :
    (x y : ℕ) → path_of x ≡ path_of y → table_index 12 x ≡ table_index 12 y → page_of x ≡ page_of y
path_of-page_of x y paths last =
    page_of-table_index x y (ap (index_at 0) paths) (ap (index_at 1) paths) (ap (index_at 2) paths)
      last

-- The four indices of addresses of the same page.
pub record SameIndices (x y : ℕ) : Type 0 where
  pub first : table_index 39 x ≡ table_index 39 y
  pub second : table_index 30 x ≡ table_index 30 y
  pub third : table_index 21 x ≡ table_index 21 y
  pub last : table_index 12 x ≡ table_index 12 y

pub table_index-page_of : (x y : ℕ) → page_of x ≡ page_of y → SameIndices x y
unfolding page_of table_index
table_index-page_of x y e = record {
  first = omega (arith, e, bit_and-index (x / 2 ^ 39), bit_and-index (y / 2 ^ 39));
  second = omega (arith, e, bit_and-index (x / 2 ^ 30), bit_and-index (y / 2 ^ 30));
  third = omega (arith, e, bit_and-index (x / 2 ^ 21), bit_and-index (y / 2 ^ 21));
  last = omega (arith, e, bit_and-index (x / 2 ^ 12), bit_and-index (y / 2 ^ 12));
}

pub path_of-Indices : (va : ℕ) → Indices (path_of va)
path_of-Indices va = (table_index-lt 39 va, (table_index-lt 30 va, (table_index-lt 21 va, tt)))

-- Words by physical address.
abbrev pub Contents : Type 0
Contents = ℕ → ℕ

-- The memory and the allocator are well formed, the processor translates as the function says, and
-- the memory that callers hold has these contents.
pub record Refines (held : Holding) (cr3 : ℕ) (c : Contents) (s : Mapping) (w : Words) (f : Pmm)
    : Type 0 where
  pub mapped : IsMapped held (pa_to_va cr3) w f
  pub view : (x : ℕ) → translate w cr3 x ≡ s x
  pub callers : (y : ℕ) → y < 2 ^ 47 → 0 < held.covers y → w (pa_to_va y) ≡ c y

-- New tables do not show.
pub Extends-Refines :
    {held : Holding} (flags cr3 : ℕ) (c : Contents) (s : Mapping) (w w' : Words) (f f' : Pmm)
    → Refines held cr3 c s w f
    → Extends held flags (pa_to_va cr3) w w' f'
    → Refines held cr3 c s w' f'
Extends-Refines flags cr3 c s w w' f f' h e = record {
  mapped = e.mapped;
  view = λ x.
      translate-leaf_at w' cr3 x
      ∙ e.leaves (path_of x) (table_index 12 x) refl (path_of-Indices x) (table_index-lt 12 x)
      ∙ sym (translate-leaf_at w cr3 x)
      ∙ h.view x;
  callers = λ y low is_held. e.callers y low is_held ∙ h.callers y low is_held;
}

-- The entry of the address is written.
pub put-Refines :
    {held : Holding} (cr3 : ℕ) (c : Contents) (s : Mapping) (w : Words) (f : Pmm) (va t v : ℕ)
    → Refines held cr3 c s w f
    → walk w (pa_to_va cr3) (path_of va) ≡ some t
    → Refines held cr3 c
        (put_page va (if is_present v then some v else none) s)
        (put w (slot t (table_index 12 va)) v)
        f
unfolding put_page
put-Refines cr3 c s w f va t v h e =
    let root = pa_to_va cr3 in
    let i = table_index 12 va in
    let w' = put w (slot t i) v in
    let hp = path_of-Indices va in
    let lt = table_index-lt 12 va in
    record {
      mapped = IsMapped-written w root f h.mapped (path_of va) t i v refl hp e lt;
      view = λ x. elim (ℕ_discrete (page_of x) (page_of va)) [
        | yes same ↦
            let here : (page_of x == page_of va) ≡ true = ground arith in
            let idx = table_index-page_of x va same in
            rw here (
              translate-leaf_at w' cr3 x
              ∙ rw (idx.first, idx.second, idx.third, idx.last)
                  (leaf_at-written w root f h.mapped (path_of va) t i v refl hp e lt))
        | no other ↦
            let there : (page_of x == page_of va) ≡ false = ground arith in
            rw there (
              translate-leaf_at w' cr3 x
              ∙ leaf_at-other w root f h.mapped (path_of va) t i v refl hp e lt (path_of x)
                  (table_index 12 x) refl (path_of-Indices x) (table_index-lt 12 x)
                  (λ paths last. other (path_of-page_of x va paths last))
              ∙ sym (translate-leaf_at w cr3 x)
              ∙ h.view x)
      ];
      callers = λ y low is_held.
          callers-written w root f h.mapped (path_of va) t i v refl hp e lt y low is_held
          ∙ h.callers y low is_held;
    }
