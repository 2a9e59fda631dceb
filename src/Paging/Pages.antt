-- ===== src/Paging/Pages.antt =====
-- `mmap` and `munmap` of mm/vmm.cpp over several pages of one lowest table.
use Prim.Native.Nat.{bit_or}
use helix_kernel.Prelude.{
  ℕ, ◌+◌, ◌*◌, ◌/◌, ◌^◌, ◌≤◌, ◌<◌, ◌≡◌, ◌≢◌, refl, ap, ◌∙◌, none, some, ltb, if◌then◌else◌, arith,
}
use helix_kernel.Paging.{Words, Machine, mmap, munmap}
use helix_kernel.Paging.Walk.{translate, is_present-leaf}
use helix_kernel.Paging.Unmap.{munmap-unmap_count, not_present_zero}
use helix_kernel.Paging.Range.{leaf, TablesFrom, Beside, map_pages-Written, unmap_count-Written}

-- `mmap` of up to 512 pages, where the tables for all of them are there, not at address 0, and the
-- lowest is the same, in a page of its own: the processor then finds the physical pages one after the other with
-- the flags, user access added below 2^47; each other address whose entry stands in that lowest
-- table keeps its translation, and no page is allocated.
pub mmap-pages :
    (m : Machine) (n va pa flags pdpt pd pt : ℕ)
    → (pdpt ≢ 0) × (pd ≢ 0) × (pt ≢ 0)
    → n ≤ 512
    → va + n * 0x1000 < 2 ^ 64
    → pa + n * 0x1000 < 2 ^ 64
    → TablesFrom m.current_cr3 pdpt pd pt m.words va n
    → let flags' = if ltb va 0x800000000000 then bit_or flags 4 else flags in
      (w' : Words) × (mmap pa va n flags m ≡ some (va, record m { words = w' }))
      × ((i : ℕ)
          → i < n
          → translate w' m.current_cr3 (va + i * 0x1000) ≡ some (leaf (pa + i * 0x1000) flags'))
      × ((other : ℕ)
          → Beside m.current_cr3 pdpt pd pt m.words va n other
          → translate w' m.current_cr3 other ≡ translate m.words m.current_cr3 other)
unfolding mmap
mmap-pages m n va pa flags pdpt pd pt ne small hv hp t =
    let flags' = if ltb va 0x800000000000 then bit_or flags 4 else flags in
    let e = λ (i : ℕ). leaf (pa + i * 0x1000) flags' in
    let (w', run, written) =
      map_pages-Written m.current_cr3 pdpt pd pt n va pa flags' e m refl ne small hv hp t
        (λ i. refl) in
    (
      w',
      rw (mmap, run) refl,
      λ i lt. written.pages i lt ∙ rw (is_present-leaf (bit_or (pa + i * 0x1000) flags')) refl,
      λ other b. written.others other b,
    )

-- `munmap` of up to 2 MiB, where the tables for all the pages are there and the lowest is the same,
-- in a page of its own: the processor finds nothing at the pages that begin in the range, counted
-- from the address on, and keeps what it finds at each other address whose entry stands in that
-- lowest table.
pub munmap-pages :
    (fuel : ℕ) (m : Machine) (va bytes pdpt pd pt : ℕ)
    → bytes ≤ 512 * 0x1000
    → va + bytes + 0xFFF < 2 ^ 64
    → (bytes + 0xFFF) / 0x1000 < fuel
    → TablesFrom m.current_cr3 pdpt pd pt m.words va ((bytes + 0xFFF) / 0x1000)
    → (w' : Words) × (munmap fuel va bytes m ≡ some (record m { words = w' }))
      × ((i : ℕ)
          → i < (bytes + 0xFFF) / 0x1000
          → translate w' m.current_cr3 (va + i * 0x1000) ≡ none)
      × ((other : ℕ)
          → Beside m.current_cr3 pdpt pd pt m.words va ((bytes + 0xFFF) / 0x1000) other
          → translate w' m.current_cr3 other ≡ translate m.words m.current_cr3 other)
munmap-pages fuel m va bytes pdpt pd pt small room enough t =
    let n = (bytes + 0xFFF) / 0x1000 in
    let (w', run, written) =
      unmap_count-Written m.current_cr3 pdpt pd pt n va m refl (omega arith) t in
    (
      w',
      munmap-unmap_count fuel va bytes m room enough ∙ ap (λ r. some r) run,
      λ i lt. written.pages i lt ∙ rw not_present_zero refl,
      λ other b. written.others other b,
    )
