-- ===== src/Paging/Range.antt =====
-- What `mmap` and `munmap` of mm/vmm.cpp do to several pages of one lowest table.
use Prim.Native.Nat.{bit_or}
use helix_kernel.Prelude.{
  ℕ, zero, suc, ◌+◌, ◌*◌, ◌/◌, ◌%◌, ◌^◌, ◌≤◌, ◌<◌, ◌≡◌, ◌≢◌, refl, ap, ◌∙◌, true, Option, none,
  some, if◌then◌else◌, arith,
}
use helix_kernel.Prelude.Bits.{bit_and-index}
use helix_kernel.Paging.{
  Words, Machine, put, slot, table_index, is_present, set_leaf, map_pages, page_size,
}
use helix_kernel.Paging.Walk.{
  translate, Tables, Tables_put, table_index-lt, translate-put, translate-put_other,
}
use helix_kernel.Paging.Map.{map_page-put}
use helix_kernel.Paging.Unmap.{unmap_count, unmap_page-put}

-- The entry for a page.
abbrev pub leaf : ℕ → ℕ → ℕ
leaf pa flags = bit_or (bit_or pa flags) 1

-- Pages of the same 2 MiB have entries of their own.
table_index-ne :
    (va i j : ℕ)
    → i < 512
    → j < 512
    → i ≢ j
    → table_index 12 (va + i * 0x1000) ≢ table_index 12 (va + j * 0x1000)
unfolding table_index
table_index-ne va i j hi hj ne e = ne (
    omega (
      arith,
      e,
      bit_and-index ((va + i * 0x1000) / 2 ^ 12),
      bit_and-index ((va + j * 0x1000) / 2 ^ 12),
    ))

module _ (cr3 pdpt pd pt : ℕ) where
  -- The tables for the first `n` pages from `va` on.
  abbrev pub TablesFrom : Words → ℕ → ℕ → Type 0
  TablesFrom w va n = (i : ℕ) → i < n → Tables w cr3 (va + i * 0x1000) pdpt pd pt

  -- The other address has an entry in the lowest table, and not one of these pages.
  abbrev pub Beside : Words → ℕ → ℕ → ℕ → Type 0
  Beside w va n other =
      Tables w cr3 other pdpt pd pt
      × ((i : ℕ) → i < n → table_index 12 (va + i * 0x1000) ≢ table_index 12 other)

  -- What the processor makes of an entry in the lowest table.
  abbrev pub found : ℕ → Option ℕ
  found e = if is_present e then some e else none

  -- The `n` pages from `va` on have the entries `e`, and what stands beside is kept.
  pub record Written (w w' : Words) (n va : ℕ) (e : ℕ → ℕ) : Type 0 where
    pub pages : (i : ℕ) → i < n → translate w' cr3 (va + i * 0x1000) ≡ found (e i)
    pub others : (other : ℕ) → Beside w va n other → translate w' cr3 other ≡ translate w cr3 other

  abbrev put_first : Words → ℕ → ℕ → Words
  put_first w va v = put w (slot pt (table_index 12 va)) v

  Tables-put_first :
      (w : Words) (va v other : ℕ)
      → Tables w cr3 other pdpt pd pt
      → Tables (put_first w va v) cr3 other pdpt pd pt
  Tables-put_first w va v other t =
      Tables_put w cr3 other pdpt pd pt (table_index 12 va) v (table_index-lt 12 va) t

  module _ (w : Words) (n va v : ℕ) (small : suc n ≤ 512) (t : TablesFrom w va (suc n)) where
    TablesFrom-first : Tables w cr3 va pdpt pd pt
    TablesFrom-first = let e : va + 0 * 0x1000 ≡ va = omega arith in rw e at (t 0 (omega arith))

    TablesFrom-next : TablesFrom (put_first w va v) (va + 0x1000) n
    TablesFrom-next i lt =
        let e : va + 0x1000 + i * 0x1000 ≡ va + suc i * 0x1000 = omega arith in
        Tables-put_first w va v (va + 0x1000 + i * 0x1000) (rw e (t (suc i) (omega arith)))

    next-ne-first : (i : ℕ) → i < n → table_index 12 (va + 0x1000 + i * 0x1000) ≢ table_index 12 va
    next-ne-first i lt =
        let e : va + 0x1000 + i * 0x1000 ≡ va + suc i * 0x1000 = omega arith in
        let z : va + 0 * 0x1000 ≡ va = omega arith in
        rw e (rw z at (table_index-ne va (suc i) 0 (omega arith) (omega arith) (omega arith)))

    -- A first page, and the others from the next one on.
    Written-suc :
        (w' : Words) (e : ℕ → ℕ)
        → e 0 ≡ v
        → Written (put_first w va v) w' n (va + 0x1000) (λ i. e (suc i))
        → Written w w' (suc n) va e
    Written-suc w' e at_first rest = record { pages = pages; others = others }
      where
        others :
            (other : ℕ) → Beside w va (suc n) other → translate w' cr3 other ≡ translate w cr3 other
        others other (t', apart) =
            let z : va + 0 * 0x1000 ≡ va = omega arith in
            let ne : table_index 12 va ≢ table_index 12 other = rw z at (apart 0 (omega arith)) in
            let later : (i : ℕ)
                → i < n
                → table_index 12 (va + 0x1000 + i * 0x1000) ≢ table_index 12 other =
              λ i lt.
                let next : va + 0x1000 + i * 0x1000 ≡ va + suc i * 0x1000 = omega arith in
                rw next (apart (suc i) (omega arith)) in
            rest.others other (Tables-put_first w va v other t', later)
            ∙ translate-put_other w cr3 va other pdpt pd pt v t' ne

        pages : (i : ℕ) → i < suc n → translate w' cr3 (va + i * 0x1000) ≡ found (e i)
        pages zero lt =
            let z : va + 0 * 0x1000 ≡ va = omega arith in
            rw (z, at_first)
              (rest.others va (Tables-put_first w va v va TablesFrom-first, next-ne-first)
                ∙ translate-put w cr3 va pdpt pd pt v TablesFrom-first)
        pages (suc i) lt =
            let next : va + suc i * 0x1000 ≡ va + 0x1000 + i * 0x1000 = omega arith in
            rw next (rest.pages i (omega arith))

  pub map_pages-Written :
      (n va pa flags : ℕ) (e : ℕ → ℕ) (m : Machine)
      → m.current_cr3 ≡ cr3
      → (pdpt ≢ 0) × (pd ≢ 0) × (pt ≢ 0)
      → n ≤ 512
      → va + n * 0x1000 < 2 ^ 64
      → pa + n * 0x1000 < 2 ^ 64
      → TablesFrom m.words va n
      → ((i : ℕ) → e i ≡ leaf (pa + i * 0x1000) flags)
      → (w' : Words) × (map_pages n va pa flags m ≡ some (true, record m { words = w' }))
        × Written m.words w' n va e
  unfolding map_pages set_leaf
  map_pages-Written zero va pa flags e m here ne small hv hp t es =
      (m.words, refl, record { pages = λ i lt. absurd (omega arith); others = λ other b. refl })
  map_pages-Written (suc n) va pa flags e m here ne small hv hp t es =
      let v = leaf pa flags in
      let m1 = record m { words = put_first m.words va v } in
      let first = TablesFrom-first m.words n va v small t in
      let next = TablesFrom-next m.words n va v small t in
      let (w', run, written) =
        map_pages-Written n (va + 0x1000) (pa + 0x1000) flags (λ i. e (suc i)) m1 here ne
          (omega arith) (omega arith) (omega arith) next
          (λ i. es (suc i) ∙ ap (λ x. leaf x flags) (omega arith)) in
      let step = map_page-put m va pa flags pdpt pd pt (rw here first) ne.0 ne.1 ne.2 in
      let ev : (va + page_size) % 2 ^ 64 ≡ va + 0x1000 = omega arith in
      let ep : (pa + page_size) % 2 ^ 64 ≡ pa + 0x1000 = omega arith in
      (
        w',
        rw (map_pages, step, ev, ep) run,
        Written-suc m.words n va v small t w' e (es 0 ∙ ap (λ x. leaf x flags) (omega arith))
            written,
      )

  pub unmap_count-Written :
      (n va : ℕ) (m : Machine)
      → m.current_cr3 ≡ cr3
      → n ≤ 512
      → TablesFrom m.words va n
      → (w' : Words) × (unmap_count n va m ≡ record m { words = w' })
        × Written m.words w' n va (λ i. 0)
  unfolding unmap_count
  unmap_count-Written zero va m here small t =
      (m.words, refl, record { pages = λ i lt. absurd (omega arith); others = λ other b. refl })
  unmap_count-Written (suc n) va m here small t =
      let m1 = record m { words = put_first m.words va 0 } in
      let first = TablesFrom-first m.words n va 0 small t in
      let next = TablesFrom-next m.words n va 0 small t in
      let (w', run, written) = unmap_count-Written n (va + 0x1000) m1 here (omega arith) next in
      let step = unmap_page-put m va pdpt pd pt (rw here first) in
      (w', rw step run, Written-suc m.words n va 0 small t w' (λ i. 0) refl written)
