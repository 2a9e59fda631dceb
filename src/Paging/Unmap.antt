-- ===== src/Paging/Unmap.antt =====
-- What `munmap` of mm/vmm.cpp and `uacpi_kernel_unmap` take out of the page tables.
use helix_kernel.Prelude.{
  ℕ, zero, suc, ◌+◌, ◌*◌, ◌/◌, ◌%◌, ◌^◌, ◌≤◌, ◌<◌, ◌≡◌, ◌≢◌, refl, true, false, none, some, ltb,
  arith, ◌∙◌, ap,
}
use helix_kernel.Paging.{
  Machine, put, slot, table_index, is_present, unmap_page, unmap_until, munmap, kernel_unmap,
  page_size,
}
use helix_kernel.Paging.Walk.{
  translate, Tables, leaf_slot-Tables, translate-put, translate-put_other,
}

-- `k` pages from `va` on, one after the other.
unfoldable pub unmap_count : ℕ → ℕ → Machine → Machine
unmap_count zero va m = m
unmap_count (suc k) va m = unmap_count k (va + page_size) (unmap_page va m)

-- The loop from `va` up to `end`, which lies in the last of `k` pages.
unmap_until-count :
    (k fuel va end : ℕ) (m : Machine)
    → end ≤ va + k * 0x1000
    → va + k * 0x1000 < end + 0x1000
    → va + k * 0x1000 < 2 ^ 64
    → k < fuel
    → unmap_until fuel va end m ≡ some (unmap_count k va m)
unfolding unmap_until unmap_count
unmap_until-count k zero va end m lo hi h lt = absurd (omega arith)
unmap_until-count zero (suc fuel) va end m lo hi h lt =
    let stop : ltb va end ≡ false = ground arith in rw stop refl
unmap_until-count (suc k) (suc fuel) va end m lo hi h lt =
    let go : ltb va end ≡ true = ground arith in
    let next : (va + page_size) % 2 ^ 64 ≡ va + page_size = omega arith in
    rw (go, next)
      (unmap_until-count k fuel (va + page_size) end (unmap_page va m) (omega arith) (omega arith)
        (omega arith) (omega arith))

-- `munmap` of `n` bytes takes out the pages that they begin in, counted from `va` on: n / 4096,
-- rounded up.
pub munmap-unmap_count :
    (fuel va n : ℕ) (m : Machine)
    → va + n + 0xFFF < 2 ^ 64
    → (n + 0xFFF) / 0x1000 < fuel
    → munmap fuel va n m ≡ some (unmap_count ((n + 0xFFF) / 0x1000) va m)
unfolding munmap
munmap-unmap_count fuel va n m h lt =
    let whole : (va + n) % 2 ^ 64 ≡ va + n = omega arith in
    rw whole (
      unmap_until-count ((n + 0xFFF) / 0x1000) fuel va (va + n) m (omega arith) (omega arith)
        (omega arith) lt)

pub unmap_page-put :
    (m : Machine) (va pdpt pd pt : ℕ)
    → Tables m.words m.current_cr3 va pdpt pd pt
    → unmap_page va m ≡ record m { words = put m.words (slot pt (table_index 12 va)) 0 }
unfolding unmap_page
unmap_page-put m va pdpt pd pt t =
    ground (arith, leaf_slot-Tables m.words m.current_cr3 va pdpt pd pt t)

pub not_present_zero : is_present 0 ≡ false
unfolding is_present
not_present_zero = refl

-- `munmap` of up to a page of bytes, where the tables for the address are there: the processor
-- finds nothing at the address any more, and keeps what it finds at each other address whose entry
-- stands in the same lowest table.
pub munmap-translate :
    (m : Machine) (va n pdpt pd pt : ℕ)
    → Tables m.words m.current_cr3 va pdpt pd pt
    → 0 < n
    → n ≤ 0x1000
    → va + n + 0xFFF < 2 ^ 64
    → (m' : Machine) × (munmap 2 va n m ≡ some m')
      × (translate m'.words m'.current_cr3 va ≡ none)
      × ((other : ℕ)
          → Tables m.words m.current_cr3 other pdpt pd pt
          → table_index 12 va ≢ table_index 12 other
          → translate m'.words m'.current_cr3 other ≡ translate m.words m.current_cr3 other)
unfolding unmap_count
munmap-translate m va n pdpt pd pt t pos small room =
    let one : (n + 0xFFF) / 0x1000 ≡ suc zero = omega arith in
    let at = slot pt (table_index 12 va) in
    let m' = record m { words = put m.words at 0 } in
    (
      m',
      rw one at (munmap-unmap_count 2 va n m room (omega arith))
          ∙ ap (λ r. some r) (unmap_page-put m va pdpt pd pt t),
      translate-put m.words m.current_cr3 va pdpt pd pt 0 t ∙ rw not_present_zero refl,
      λ other t' ne. translate-put_other m.words m.current_cr3 va other pdpt pd pt 0 t' ne,
    )

-- `uacpi_kernel_unmap` of 1 to 2^24 bytes takes out one page, however many `uacpi_kernel_map` put
-- in: it passes a number of pages where `munmap` takes bytes.
pub kernel_unmap-unmap_page :
    (fuel addr len : ℕ) (m : Machine)
    → 0 < len
    → len ≤ 2 ^ 24
    → addr + 0x2000 < 2 ^ 64
    → kernel_unmap (suc (suc fuel)) addr len m ≡ some (unmap_page addr m)
unfolding kernel_unmap unmap_count
kernel_unmap-unmap_page fuel addr len m pos small room =
    let k = (len + 0xFFF) % 2 ^ 64 / 0x1000 in
    let one : (k + 0xFFF) / 0x1000 ≡ suc zero = omega arith in
    rw one at (munmap-unmap_count (suc (suc fuel)) addr k m (omega arith) (omega arith))
