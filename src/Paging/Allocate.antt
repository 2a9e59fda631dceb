-- ===== src/Paging/Allocate.antt =====
-- How mm/vmm.cpp takes pages from the page allocator.
use helix_kernel.Prelude.{
  ℕ, ◌+◌, ◌%◌, ◌^◌, ◌≤◌, ◌<◌, ◌≡◌, ◌≢◌, refl, false, none, some, ltb, leb, ◌==◌, ◌&&◌, arith, ◌∙◌,
  ap, sym,
}
use helix_kernel.Vmm.{pa_to_va}
use mathlib.Core.Option.{some-injective}
use mathlib.Core.Path.{subst}
use helix_kernel.Pmm.{Pmm, alloc}
use helix_kernel.Pmm.Order.{order_of-page}
use helix_kernel.Pmm.Table.{IsWell, AllocOutcome, alloc-outcome}
use helix_kernel.Paging.{
  Words, Machine, put, clear, slot, is_present, next_table, table_entry, create_table, follow,
  get_or_create_table, alloc_virtual, liballoc_alloc,
}
use helix_kernel.Paging.Walk.{
  put_self, put_other, slot-ne, is_present-table_entry, next_table-table_entry,
}

pub alloc_virtual-run :
    (n b : ℕ) (f : Pmm) (m : Machine)
    → alloc n m.frames ≡ some (b, f)
    → alloc_virtual n m ≡ some (pa_to_va b, record m { frames = f })
unfolding alloc_virtual
alloc_virtual-run n b f m e = ground (arith, e)

pub pa_to_va-ne_zero : (b : ℕ) → b < 2 ^ 47 → pa_to_va b ≢ 0
unfolding pa_to_va
pa_to_va-ne_zero b h = ground arith

-- `liballoc_alloc` of 1 to 4096 pages asks for as many bytes: it gives one page, or the address
-- that `pa_to_va` makes of `nullptr`.
pub liballoc_alloc-page :
    (npages : ℕ) (m : Machine)
    → IsWell m.frames
    → 0 < npages
    → npages ≤ 0x1000
    → (b : ℕ) × (m' : Machine) × (liballoc_alloc npages m ≡ some (pa_to_va b, m'))
      × AllocOutcome 0 m.frames (b, m'.frames)
unfolding liballoc_alloc
liballoc_alloc-page npages m w pos small =
    let (o, (b, f), run, order, room, outcome) = alloc-outcome npages m.frames w (omega arith) in
    let zero_order : o ≡ 0 = some-injective _ _ (sym order ∙ order_of-page npages pos small) in
    (
      b,
      record m { frames = f },
      alloc_virtual-run npages b f m run,
      subst (λ k. AllocOutcome k m.frames (b, f)) zero_order outcome,
    )

-- `alloc` never returns `nullptr`, whatever the page allocator gives below 2^47, `nullptr`
-- included.
pub alloc_virtual-ne_zero :
    (n b : ℕ) (f : Pmm) (m : Machine)
    → alloc n m.frames ≡ some (b, f)
    → b < 2 ^ 47
    → (alloc_virtual n m ≡ some (pa_to_va b, record m { frames = f })) × (pa_to_va b ≢ 0)
alloc_virtual-ne_zero n b f m e h = (alloc_virtual-run n b f m e, pa_to_va-ne_zero b h)

pub pa_to_va-aligned : (page : ℕ) → page % 4096 ≡ 0 → pa_to_va page % 4096 ≡ 0
unfolding pa_to_va
pa_to_va-aligned page h = ground arith

clear_outside :
    (w : Words) (page x : ℕ) → (leb page x && ltb x (page + 4096)) ≡ false → clear w page x ≡ w x
unfolding clear
clear_outside w page x out = rw out refl

clear-slot : (w : Words) (page i : ℕ) → i < 512 → clear w page (slot page i) ≡ 0
unfolding clear slot
clear-slot w page i lt = ground arith

follow-zero : (w : Words) (at : ℕ) → w at ≡ 0 → follow w at ≡ none
unfolding follow is_present
follow-zero w at e = rw e refl

pub pa_to_va-distinct : (p q : ℕ) → p < 2 ^ 47 → q < 2 ^ 47 → p ≢ q → pa_to_va p ≢ pa_to_va q
unfolding pa_to_va
pa_to_va-distinct p q hp hq ne = ground arith

follow-table_entry :
    (w : Words) (at page flags : ℕ)
    → w at ≡ table_entry page flags
    → page % 4096 ≡ 0
    → page < 2 ^ 52
    → follow w at ≡ some (pa_to_va page)
unfolding follow
follow-table_entry w at page flags e al lo =
    rw (e, is_present-table_entry page flags al, next_table-table_entry page flags al lo) refl

-- Where the entry is not present and the page allocator gives a page of its own,
-- `get_or_create_table` makes a table of 512 entries that are not present, and links it.
pub get_or_create_table-create :
    (parent idx flags page : ℕ) (f : Pmm) (m : Machine)
    → is_present (m.words (slot parent idx)) ≡ false
    → alloc 1 m.frames ≡ some (page, f)
    → page ≢ 0
    → page % 4096 ≡ 0
    → page < 2 ^ 47
    → parent % 4096 ≡ 0
    → parent ≢ pa_to_va page
    → idx < 512
    → (w' : Words) × (get_or_create_table parent idx flags m
        ≡ some (pa_to_va page, record m { words = w'; frames = f }))
      × (follow w' (slot parent idx) ≡ some (pa_to_va page))
      × ((i : ℕ) → i < 512 → follow w' (slot (pa_to_va page) i) ≡ none)
      × ((x : ℕ)
          → x ≢ slot parent idx
          → (leb (pa_to_va page) x && ltb x (pa_to_va page + 4096)) ≡ false
          → w' x ≡ m.words x)
unfolding get_or_create_table create_table
get_or_create_table-create parent idx flags page f m absent gave np al lo pal ne hi =
    let at = slot parent idx in
    let va = pa_to_va page in
    let w = put (clear m.words va) at (table_entry page flags) in
    let here : w at ≡ table_entry page flags = put_self (clear m.words va) at _ in
    let next : next_table (w at) ≡ va =
      ap next_table here ∙ next_table-table_entry page flags al (omega arith) in
    let b : (page == 0) ≡ false = ground arith in
    let aligned : va % 4096 ≡ 0 = pa_to_va-aligned page al in
    (
      w,
      ground (arith, gave, absent, next),
      follow-table_entry w at page flags here al (omega arith),
      λ i hi'. follow-zero w (slot va i) (
          put_other (clear m.words va) at _ (slot va i)
            (slot-ne va parent i idx aligned pal (λ e. ne (sym e)) hi' hi)
          ∙ clear-slot m.words va i hi'),
      λ x ns out. put_other (clear m.words va) at _ x ns ∙ clear_outside m.words va x out,
    )
