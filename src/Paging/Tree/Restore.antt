-- ===== src/Paging/Tree/Restore.antt =====
-- `munmap` of mm/vmm.cpp after `mmap`.
use Prim.Native.Nat.{bit_or}
use native.Mathlib.Decide.{ℕ_discrete}
use helix_kernel.Prelude.{
  ℕ, zero, suc, ◌+◌, ◌*◌, ◌/◌, ◌^◌, ◌≤◌, ◌<◌, ◌≡◌, ◌≢◌, refl, sym, ◌∙◌, ap, true, false, Option,
  none, some, arith, ◌==◌, if◌then◌else◌, ltb, fun_ext,
}
use helix_kernel.Vmm.{pa_to_va}
use helix_kernel.Paging.{Machine, munmap, mmap}
use helix_kernel.Paging.Walk.{translate}
use helix_kernel.Paging.Tree.{Holding, IsMapped}
use helix_kernel.Paging.Tree.View.{Mapping, page_of, put_page, unmapped, mapped}
use helix_kernel.Paging.Tree.Mmap.{mmap-MmapOutcome}
use helix_kernel.Paging.Tree.Munmap.{munmap-Refines}

-- The address is in one of the `n` pages from `va` on.
abbrev pub Within : ℕ → ℕ → ℕ → Type 0
Within n va x = (i : ℕ) × (i < n) × (page_of x ≡ page_of (va + i * 0x1000))

pub put_page-same :
    (va : ℕ) (e : Option ℕ) (s : Mapping) (x : ℕ) → page_of x ≡ page_of va → put_page va e s x ≡ e
unfolding put_page
put_page-same va e s x same = let b : (page_of x == page_of va) ≡ true = ground arith in rw b refl

pub put_page-other :
    (va : ℕ) (e : Option ℕ) (s : Mapping) (x : ℕ) → page_of x ≢ page_of va → put_page va e s x ≡ s x
unfolding put_page
put_page-other va e s x other =
    let b : (page_of x == page_of va) ≡ false = ground arith in rw b refl

later : (n va x : ℕ) → ¬ (Within (suc n) va x) → ¬ (Within n (va + 0x1000) x)
later n va x out (i, lt, same) =
    let e : va + 0x1000 + i * 0x1000 ≡ va + suc i * 0x1000 = omega arith in
    out (suc i, omega arith, rw e at same)

first : (n va x : ℕ) → ¬ (Within (suc n) va x) → page_of x ≢ page_of va
first n va x out same =
    let e : va + 0 * 0x1000 ≡ va = omega arith in out (0, omega arith, rw e same)

pub mapped-other :
    (k va pa flags : ℕ) (s : Mapping) (x : ℕ) → ¬ (Within k va x) → mapped k va pa flags s x ≡ s x
unfolding mapped
mapped-other zero va pa flags s x out = refl
mapped-other (suc k) va pa flags s x out =
    mapped-other k (va + 0x1000) (pa + 0x1000) flags _ x (later k va x out)
    ∙ put_page-other va _ s x (first k va x out)

pub unmapped-other : (n va : ℕ) (s : Mapping) (x : ℕ) → ¬ (Within n va x) → unmapped n va s x ≡ s x
unfolding unmapped
unmapped-other zero va s x out = refl
unmapped-other (suc n) va s x out =
    unmapped-other n (va + 0x1000) _ x (later n va x out)
    ∙ put_page-other va none s x (first n va x out)

unmapped-none : (n va : ℕ) (s : Mapping) (x : ℕ) → s x ≡ none → unmapped n va s x ≡ none
unfolding unmapped
unmapped-none zero va s x e = e
unmapped-none (suc n) va s x e =
    unmapped-none n (va + 0x1000) (put_page va none s) x
      (elim (ℕ_discrete (page_of x) (page_of va)) [
        | yes same ↦ put_page-same va none s x same
        | no other ↦ put_page-other va none s x other ∙ e
      ])

pub unmapped-Within : (n va : ℕ) (s : Mapping) (x : ℕ) → Within n va x → unmapped n va s x ≡ none
unfolding unmapped
unmapped-Within zero va s x (i, lt, same) = absurd (omega arith)
unmapped-Within (suc n) va s x (zero, lt, same) =
    let e : va + 0 * 0x1000 ≡ va = omega arith in
    unmapped-none n (va + 0x1000) _ x (put_page-same va none s x (rw e at same))
unmapped-Within (suc n) va s x (suc i, lt, same) =
    let e : va + suc i * 0x1000 ≡ va + 0x1000 + i * 0x1000 = omega arith in
    unmapped-Within n (va + 0x1000) _ x (i, omega arith, rw e at same)

Within-none :
    (n va x : ℕ) → page_of x ≢ page_of va → ¬ (Within n (va + 0x1000) x) → ¬ (Within (suc n) va x)
Within-none n va x other out (zero, lt, same) =
    let e : va + 0 * 0x1000 ≡ va = omega arith in other (rw e at same)
Within-none n va x other out (suc i, lt, same) =
    let e : va + suc i * 0x1000 ≡ va + 0x1000 + i * 0x1000 = omega arith in
    out (i, omega arith, rw e at same)

Within-Dec : (n va x : ℕ) → Dec (Within n va x)
Within-Dec zero va x = no λ (i, lt, same). omega arith
Within-Dec (suc n) va x = elim (ℕ_discrete (page_of x) (page_of va)) [
  | yes same ↦ let e : va + 0 * 0x1000 ≡ va = omega arith in yes (0, omega arith, rw e same)
  | no other ↦ elim (Within-Dec n (va + 0x1000) x) [
    | yes (i, lt, same) ↦
        let e : va + suc i * 0x1000 ≡ va + 0x1000 + i * 0x1000 = omega arith in
        yes (suc i, omega arith, rw e same)
    | no out ↦ no (Within-none n va x other out)
  ]
]

-- Pages that were put in at places where nothing was, and then taken out.
restored :
    (k n va pa flags : ℕ) (s : Mapping) (x : ℕ)
    → k ≤ n
    → ((y : ℕ) → Within n va y → s y ≡ none)
    → unmapped n va (mapped k va pa flags s) x ≡ s x
restored k n va pa flags s x le nothing = elim (Within-Dec n va x) [
  | yes inside ↦ unmapped-Within n va _ x inside ∙ sym (nothing x inside)
  | no out ↦
      unmapped-other n va _ x out
      ∙ mapped-other k va pa flags s x (λ (i, lt, same). out (i, omega (arith, lt), same))
]

unmapped_ext :
    (n va : ℕ) (s s' : Mapping) (x : ℕ)
    → ((y : ℕ) → s y ≡ s' y)
    → unmapped n va s x ≡ unmapped n va s' x
unmapped_ext n va s s' x same = ap (λ f. unmapped n va f x) (fun_ext same)

-- `mmap` of some pages and then `munmap` of as many bytes, on a tree of page tables apart from the
-- memory that callers hold, with nothing at those pages, where neither range wraps, the end is a
-- page below the top of the address space and the fuel is more than the pages: whether `mmap` puts
-- in all the pages or stops for want of memory, every address translates afterwards as it did
-- before, the memory that callers hold has the words it had, and the tables are such a tree.
pub mmap-munmap :
    {held : Holding} (fuel : ℕ) (m : Machine) (n va pa flags : ℕ)
    → IsMapped held (pa_to_va m.current_cr3) m.words m.frames
    → va + n * 0x1000 + 0xFFF < 2 ^ 64
    → pa + n * 0x1000 < 2 ^ 64
    → n < fuel
    → ((x : ℕ) → Within n va x → translate m.words m.current_cr3 x ≡ none)
    → (r : ℕ) × (m1 : Machine) × (m2 : Machine) × (mmap pa va n flags m ≡ some (r, m1))
      × (munmap fuel va (n * 0x1000) m1 ≡ some m2)
      × IsMapped held (pa_to_va m.current_cr3) m2.words m2.frames
      × ((x : ℕ) → translate m2.words m.current_cr3 x ≡ translate m.words m.current_cr3 x)
      × ((y : ℕ) → y < 2 ^ 47 → 0 < held.covers y → m2.words (pa_to_va y) ≡ m.words (pa_to_va y))
mmap-munmap fuel m n va pa flags h hv hp enough nothing =
    let cr3 = m.current_cr3 in
    let s = translate m.words cr3 in
    let flags' = if ltb va 0x800000000000 then bit_or flags 4 else flags in
    let (r, w, f, run, o) = mmap-MmapOutcome m n va pa flags h (omega arith) hp in
    let m1 = record m { words = w; frames = f } in
    let (w', run', out) = munmap-Refines fuel m1 va (n * 0x1000) o.view.mapped hv (omega arith) in
    let pages : (n * 0x1000 + 0xFFF) / 0x1000 ≡ n = omega arith in
    (
      r,
      m1,
      record m1 { words = w' },
      run,
      run',
      out.mapped,
      λ x.
          out.view x
          ∙ ap (λ k. unmapped k va (translate w cr3) x) pages
          ∙ unmapped_ext n va (translate w cr3) _ x o.view.view
          ∙ restored o.count n va pa flags' s x o.count_le nothing,
      λ y low is_held. out.callers y low is_held ∙ o.view.callers y low is_held,
    )
