-- ===== src/Paging/Tree/Munmap.antt =====
-- What `munmap` of mm/vmm.cpp does to the mapping that the page tables stand for.
use native.Mathlib.Decide.{ℕ_discrete}
use mathlib.Core.Option
use helix_kernel.Prelude.{
  ℕ, zero, suc, ◌+◌, ◌/◌, ◌^◌, ◌<◌, ◌≡◌, refl, ◌∙◌, ap, true, false, none, some, arith, ◌==◌, inl,
  inr, Option-cases,
}
use helix_kernel.Vmm.{pa_to_va}
use helix_kernel.Pmm.{Pmm}
use helix_kernel.Paging.{
  Words, Machine, table_index, put, slot, follow, leaf_slot, unmap_page, munmap,
}
use helix_kernel.Paging.Walk.{translate}
use helix_kernel.Paging.Unmap.{unmap_count, munmap-unmap_count, not_present_zero}
use helix_kernel.Paging.Tree.{Holding, walk, path_of, IsMapped, translate-leaf_at, leaf_at-none}
use helix_kernel.Paging.Tree.View.{
  Contents, Mapping, page_of, put_page, unmapped, Refines, put-Refines, table_index-page_of,
}

leaf_slot-walk :
    (w : Words) (cr3 va : ℕ)
    → leaf_slot w cr3 va
      ≡ Option.map (λ t. slot t (table_index 12 va)) (walk w (pa_to_va cr3) (path_of va))
unfolding leaf_slot walk
leaf_slot-walk w cr3 va = elim (Option-cases (follow w (slot (pa_to_va cr3) (table_index 39 va)))) [
  | inl e ↦ rw (e, leaf_slot, walk) refl
  | inr (t3, e) ↦ elim (Option-cases (follow w (slot t3 (table_index 30 va)))) [
    | inl e' ↦ rw (e, e', leaf_slot, walk) refl
    | inr (t2, e') ↦ elim (Option-cases (follow w (slot t2 (table_index 21 va)))) [
      | inl e'' ↦ rw (e, e', e'', leaf_slot, walk) refl
      | inr (t1, e'') ↦ rw (e, e', e'', leaf_slot, walk) refl
    ]
  ]
]

-- Where there is no table for the address, nothing is to be taken out.
absent-Refines :
    {held : Holding} (cr3 : ℕ) (c : Contents) (s : Mapping) (w : Words) (f : Pmm) (va : ℕ)
    → Refines held cr3 c s w f
    → walk w (pa_to_va cr3) (path_of va) ≡ none
    → Refines held cr3 c (put_page va none s) w f
unfolding put_page
absent-Refines cr3 c s w f va h e = record {
  mapped = h.mapped;
  view = λ x. elim (ℕ_discrete (page_of x) (page_of va)) [
    | yes same ↦
        let here : (page_of x == page_of va) ≡ true = ground arith in
        let idx = table_index-page_of x va same in
        rw here (
          translate-leaf_at w cr3 x
          ∙ rw (idx.first, idx.second, idx.third, idx.last)
              (leaf_at-none w (pa_to_va cr3) (path_of va) (table_index 12 va) e))
    | no other ↦ let there : (page_of x == page_of va) ≡ false = ground arith in rw there (h.view x)
  ];
  callers = h.callers;
}

pub unmap_page-Refines :
    {held : Holding} (c : Contents) (m : Machine) (s : Mapping) (va : ℕ)
    → Refines held m.current_cr3 c s m.words m.frames
    → (w : Words) × (unmap_page va m ≡ record m { words = w })
      × Refines held m.current_cr3 c (put_page va none s) w m.frames
unfolding unmap_page
unmap_page-Refines c m s va h =
    let root = pa_to_va m.current_cr3 in
    elim (Option-cases (walk m.words root (path_of va))) [
      | inl gone ↦
          let e : leaf_slot m.words m.current_cr3 va ≡ none =
            leaf_slot-walk m.words m.current_cr3 va
            ∙ ap (Option.map (λ t. slot t (table_index 12 va))) gone in
          (
            m.words,
            rw (unmap_page, e) refl,
            absent-Refines m.current_cr3 c s m.words m.frames va h gone,
          )
      | inr (t, there) ↦
          let e : leaf_slot m.words m.current_cr3 va ≡ some (slot t (table_index 12 va)) =
            leaf_slot-walk m.words m.current_cr3 va
            ∙ ap (Option.map (λ t. slot t (table_index 12 va))) there in
          let done = put-Refines m.current_cr3 c s m.words m.frames va t 0 h there in
          (
            put m.words (slot t (table_index 12 va)) 0,
            rw (unmap_page, e) refl,
            rw not_present_zero at done,
          )
    ]

unmap_count-Refines :
    {held : Holding} (c : Contents) (n : ℕ) (m : Machine) (s : Mapping) (va : ℕ)
    → Refines held m.current_cr3 c s m.words m.frames
    → (w : Words) × (unmap_count n va m ≡ record m { words = w })
      × Refines held m.current_cr3 c (unmapped n va s) w m.frames
unfolding unmap_count unmapped
unmap_count-Refines c zero m s va h = (m.words, refl, h)
unmap_count-Refines c (suc n) m s va h =
    let (w, run, one) = unmap_page-Refines c m s va h in
    let (w', run', all) =
      unmap_count-Refines c n (record m { words = w }) (put_page va none s) (va + 0x1000) one in
    (w', rw run run', all)

-- `munmap` of a number of bytes on a tree of page tables apart from the memory that callers hold,
-- where the end of the range is a page below the top of the address space, with more fuel than
-- pages: it ends, and takes the pages that begin in the range, counted from the address on, out of
-- the mapping that the processor reads, and keeps every other page of the address space and the
-- words of the memory that callers hold. The tables stay such a tree, and no page is freed.
pub munmap-Refines :
    {held : Holding} (fuel : ℕ) (m : Machine) (va bytes : ℕ)
    → IsMapped held (pa_to_va m.current_cr3) m.words m.frames
    → va + bytes + 0xFFF < 2 ^ 64
    → (bytes + 0xFFF) / 0x1000 < fuel
    → (w : Words) × (munmap fuel va bytes m ≡ some (record m { words = w }))
      × Refines held m.current_cr3
          (λ y. m.words (pa_to_va y))
          (unmapped ((bytes + 0xFFF) / 0x1000) va (translate m.words m.current_cr3))
          w
          m.frames
munmap-Refines fuel m va bytes h room enough =
    let s = translate m.words m.current_cr3 in
    let (w, run, out) =
      unmap_count-Refines (λ y. m.words (pa_to_va y)) ((bytes + 0xFFF) / 0x1000) m s va
        (record { mapped = h; view = λ x. refl; callers = λ y low is_held. refl }) in
    (w, munmap-unmap_count fuel va bytes m room enough ∙ ap (λ r. some r) run, out)
