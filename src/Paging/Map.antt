-- ===== src/Paging/Map.antt =====
-- What `mmap` of mm/vmm.cpp puts into the page tables.
use Prim.Native.Nat.{bit_or}
use helix_kernel.Prelude.{ℕ, ◌≡◌, ◌≢◌, refl, true, some, ltb, if◌then◌else◌, arith, ◌∙◌}
use helix_kernel.Vmm.{pa_to_va}
use helix_kernel.Paging.{
  Machine, put, slot, table_index, is_present, follow, get_or_create_table, set_leaf, map_page,
  map_pages, mmap,
}
use helix_kernel.Paging.Walk.{
  translate, Tables, translate-put, translate-put_other, is_present-leaf,
}

-- A table that is there is used as it is.
pub get_or_create_table-follow :
    (parent idx flags t : ℕ) (m : Machine)
    → follow m.words (slot parent idx) ≡ some t
    → get_or_create_table parent idx flags m ≡ some (t, m)
unfolding get_or_create_table follow
get_or_create_table-follow parent idx flags t m e = ground (arith, e)

-- The body of the loop, where each of the three tables is got.
pub map_page-set_leaf :
    (m m3 m2 m1 : Machine) (va pa flags t3 t2 t1 : ℕ)
    → get_or_create_table (pa_to_va m.current_cr3) (table_index 39 va) flags m ≡ some (t3, m3)
    → get_or_create_table t3 (table_index 30 va) flags m3 ≡ some (t2, m2)
    → get_or_create_table t2 (table_index 21 va) flags m2 ≡ some (t1, m1)
    → (t3 ≢ 0) × (t2 ≢ 0) × (t1 ≢ 0)
    → map_page va pa flags m ≡ set_leaf va pa flags t1 m1
unfolding map_page
map_page-set_leaf m m3 m2 m1 va pa flags t3 t2 t1 run3 run2 run1 ne =
    ground (arith, run3, run2, run1)

pub map_page-put :
    (m : Machine) (va pa flags pdpt pd pt : ℕ)
    → Tables m.words m.current_cr3 va pdpt pd pt
    → pdpt ≢ 0
    → pd ≢ 0
    → pt ≢ 0
    → map_page va pa flags m ≡ set_leaf va pa flags pt m
map_page-put m va pa flags pdpt pd pt t n3 n2 n1 =
    map_page-set_leaf m m m m va pa flags pdpt pd pt
      (get_or_create_table-follow (pa_to_va m.current_cr3) (table_index 39 va) flags pdpt m t.first)
      (get_or_create_table-follow pdpt (table_index 30 va) flags pd m t.second)
      (get_or_create_table-follow pd (table_index 21 va) flags pt m t.third) (n3, n2, n1)

-- `mmap` of one page, where the tables for the address are there: the processor then finds the
-- physical page with the flags, user access added below 2^47, at the address; each other address
-- whose entry stands in the same lowest table keeps its translation, and no page is allocated.
pub mmap-translate :
    (m : Machine) (va pa flags pdpt pd pt : ℕ)
    → Tables m.words m.current_cr3 va pdpt pd pt
    → pdpt ≢ 0
    → pd ≢ 0
    → pt ≢ 0
    → let flags' = if ltb va 0x800000000000 then bit_or flags 4 else flags in
      let e = bit_or (bit_or pa flags') 1 in
      (m' : Machine) × (mmap pa va 1 flags m ≡ some (va, m'))
      × (translate m'.words m'.current_cr3 va ≡ some e)
      × ((other : ℕ)
          → Tables m.words m.current_cr3 other pdpt pd pt
          → table_index 12 va ≢ table_index 12 other
          → translate m'.words m'.current_cr3 other ≡ translate m.words m.current_cr3 other)
      × (m'.frames ≡ m.frames)
unfolding mmap map_pages set_leaf
mmap-translate m va pa flags pdpt pd pt t n3 n2 n1 =
    let flags' = if ltb va 0x800000000000 then bit_or flags 4 else flags in
    let e = bit_or (bit_or pa flags') 1 in
    let at = slot pt (table_index 12 va) in
    let present : is_present e ≡ true = is_present-leaf (bit_or pa flags') in
    (
      record m { words = put m.words at e },
      ground (arith, map_page-put m va pa flags' pdpt pd pt t n3 n2 n1),
      translate-put m.words m.current_cr3 va pdpt pd pt e t ∙ rw present refl,
      λ other t' ne. translate-put_other m.words m.current_cr3 va other pdpt pd pt e t' ne,
      refl,
    )
