-- ===== src/Paging/Tree/Lower.antt =====
-- `mmap` and `munmap` of mm/vmm.cpp on addresses of the lower half, which the direct map of the
-- kernel is no part of: they leave the way in which the kernel itself reaches memory as it is.
use Prim.Native.Nat.{bit_or}
use helix_kernel.Prelude.{
  ℕ, zero, suc, ◌+◌, ◌*◌, ◌/◌, ◌%◌, ◌^◌, ◌≤◌, ◌<◌, ◌≡◌, ◌⊎◌, refl, ◌∙◌, Option, true, false, none,
  some, List, length, arith, ltb, ◌==◌, if◌then◌else◌, inl, inr,
}
use helix_kernel.Prelude.Bits.{bit_or_step}
use helix_kernel.Vmm.{pa_to_va}
use helix_kernel.Pmm.{Pmm}
use helix_kernel.Paging.{Words, Machine, slot, is_present, mmap, munmap}
use helix_kernel.Paging.Walk.{translate}
use helix_kernel.Paging.Range.{leaf}
use helix_kernel.Paging.Tree.{Holding, walk, Indices, IsMapped}
use helix_kernel.Paging.Tree.Page.{pa_to_va_low}
use helix_kernel.Paging.Tree.Links.{Links}
use helix_kernel.Paging.Tree.Table.{Runs}
use helix_kernel.Paging.Tree.View.{Mapping, page_of, put_page, mapped, unmapped, Refines}
use helix_kernel.Paging.Tree.Mmap.{MmapOutcome, mmap-MmapOutcome}
use helix_kernel.Paging.Tree.Munmap.{munmap-Refines}

page_of-lower : (va : ℕ) → va < 2 ^ 47 → page_of va < 2 ^ 35
unfolding page_of
page_of-lower va lt = omega arith

page_of-pa_to_va : (y : ℕ) → y < 2 ^ 47 → 2 ^ 35 ≤ page_of (pa_to_va y)
unfolding page_of
page_of-pa_to_va y lt = omega (arith, pa_to_va_low y lt)

put_page-lower :
    (va : ℕ) (e : Option ℕ) (s : Mapping) (x : ℕ)
    → va < 2 ^ 47
    → 2 ^ 35 ≤ page_of x
    → put_page va e s x ≡ s x
unfolding put_page
put_page-lower va e s x lt high =
    let other : (page_of x == page_of va) ≡ false = ground (arith, page_of-lower va lt) in
    rw other refl

pub mapped-lower :
    (n va pa flags : ℕ) (s : Mapping) (x : ℕ)
    → va + n * 0x1000 ≤ 2 ^ 47
    → 2 ^ 35 ≤ page_of x
    → mapped n va pa flags s x ≡ s x
unfolding mapped
mapped-lower zero va pa flags s x le high = refl
mapped-lower (suc n) va pa flags s x le high =
    mapped-lower n (va + 0x1000) (pa + 0x1000) flags (put_page va (some (leaf pa flags)) s) x
      (omega arith) high
    ∙ put_page-lower va (some (leaf pa flags)) s x (omega arith) high

pub unmapped-lower :
    (n va : ℕ) (s : Mapping) (x : ℕ)
    → va + n * 0x1000 ≤ 2 ^ 47
    → 2 ^ 35 ≤ page_of x
    → unmapped n va s x ≡ s x
unfolding unmapped
unmapped-lower zero va s x le high = refl
unmapped-lower (suc n) va s x le high =
    unmapped-lower n (va + 0x1000) (put_page va none s) x (omega arith) high
    ∙ put_page-lower va none s x (omega arith) high

-- Each address of the direct map has the entry that it had.
abbrev pub KeepsDirect : Mapping → Mapping → Type 0
KeepsDirect f g = (y : ℕ) → y < 2 ^ 47 → g (pa_to_va y) ≡ f (pa_to_va y)

-- Each entry for a table is one that was there, unchanged, or it lets users through.
abbrev pub UserLinks : ℕ → Words → Words → Type 0
UserLinks root w w' =
    (q : List ℕ) (j u : ℕ)
    → length q ≤ 2
    → Indices q
    → j < 512
    → walk w' root q ≡ some u
    → is_present (w' (slot u j)) ≡ true
    → ((walk w root q ≡ some u) × (w' (slot u j) ≡ w (slot u j))) ⊎ (w' (slot u j) / 4 % 2 ≡ 1)

bit_or-user : (flags : ℕ) → bit_or flags 4 / 4 % 2 ≡ 1
bit_or-user flags =
    omega (arith, bit_or_step flags 4, bit_or_step (flags / 2) 2, bit_or_step (flags / 2 / 2) 1)

Links-UserLinks :
    (flags root : ℕ) (w w' : Words) → Links (bit_or flags 4) root w w' → UserLinks root w w'
Links-UserLinks flags root w w' links q j u l hq lt at there = elim (links q j u l hq lt at there) [
  | inl old ↦ inl old
  | inr made ↦ inr (made ∙ bit_or-user flags)
]

-- What `mmap` does to the mapping, to the entries for tables and to the direct map.
abbrev pub LowerOutcome : Holding → Machine → ℕ → ℕ → ℕ → ℕ → ℕ → Words → Pmm → Type 0
LowerOutcome held m n va pa flags r w f =
    MmapOutcome held (λ y. m.words (pa_to_va y)) m.current_cr3 n va pa (bit_or flags 4)
      (translate m.words m.current_cr3) m.words r w f
    × UserLinks (pa_to_va m.current_cr3) m.words w
    × KeepsDirect (translate m.words m.current_cr3) (translate w m.current_cr3)

-- `mmap` of a range of the lower half, below 2^47, on a tree of page tables apart from the memory
-- that callers hold, with a well-formed page allocator, where the physical range does not wrap: it
-- puts the pages into the mapping that the processor reads, one after the other, with the bit for
-- user access, and keeps every other page of the address space, the direct map with them, and the
-- words of the memory that callers hold; it puts in all of them and returns the address, or it stops
-- where no page is free and returns 0. Each entry for a table is one that was there, unchanged, or
-- has the bit for user access as well. The tables stay such a tree.
pub mmap-LowerOutcome :
    {held : Holding} (m : Machine) (n va pa flags : ℕ)
    → IsMapped held (pa_to_va m.current_cr3) m.words m.frames
    → va < 2 ^ 47
    → va + n * 0x1000 ≤ 2 ^ 47
    → pa + n * 0x1000 < 2 ^ 64
    → Runs m (mmap pa va n flags m) (LowerOutcome held m n va pa flags)
mmap-LowerOutcome {held} m n va pa flags h low room hp =
    let (r, w, f, run, out) = mmap-MmapOutcome m n va pa flags h (omega arith) hp in
    let user : (if ltb va 0x800000000000 then bit_or flags 4 else flags) ≡ bit_or flags 4 =
      ground arith in
    let o : MmapOutcome held (λ y. m.words (pa_to_va y)) m.current_cr3 n va pa (bit_or flags 4)
        (translate m.words m.current_cr3) m.words r w f =
      rw user at out in
    (
      r,
      w,
      f,
      run,
      (
        o,
        Links-UserLinks flags (pa_to_va m.current_cr3) m.words w o.links,
        λ y lt.
            o.view.view (pa_to_va y)
            ∙ mapped-lower o.count va pa (bit_or flags 4) (translate m.words m.current_cr3)
                (pa_to_va y) (omega (arith, o.count_le)) (page_of-pa_to_va y lt),
      ),
    )

-- `munmap` of a number of bytes in the lower half (with the last byte of the last page below 2^47)
-- on a tree of page tables apart from the memory that callers hold, with more fuel than pages: it
-- ends, and takes the pages that begin in the range, counted from the address on, out of the
-- mapping that the processor reads, and keeps every other page of the address space, the direct map
-- with them, and the words of the memory that callers hold. The tables stay such a tree, and no page
-- is freed.
pub munmap-KeepsDirect :
    {held : Holding} (fuel : ℕ) (m : Machine) (va bytes : ℕ)
    → IsMapped held (pa_to_va m.current_cr3) m.words m.frames
    → va + bytes + 0xFFF ≤ 2 ^ 47
    → (bytes + 0xFFF) / 0x1000 < fuel
    → (w : Words) × (munmap fuel va bytes m ≡ some (record m { words = w }))
      × Refines held m.current_cr3
          (λ y. m.words (pa_to_va y))
          (unmapped ((bytes + 0xFFF) / 0x1000) va (translate m.words m.current_cr3))
          w
          m.frames
      × KeepsDirect (translate m.words m.current_cr3) (translate w m.current_cr3)
munmap-KeepsDirect fuel m va bytes h room enough =
    let (w, run, out) = munmap-Refines fuel m va bytes h (omega arith) enough in
    let n = (bytes + 0xFFF) / 0x1000 in
    (
      w,
      run,
      out,
      λ y lt.
          out.view (pa_to_va y)
          ∙ unmapped-lower n va (translate m.words m.current_cr3) (pa_to_va y) (omega arith)
              (page_of-pa_to_va y lt),
    )
