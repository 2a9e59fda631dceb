-- ===== src/Paging/Tree/Leak.antt =====
-- `uacpi_kernel_map` and then `uacpi_kernel_unmap` of extra/uacpi/uacpi_kernel_wrapper.cpp.
use mathlib.Core.Option.{some-injective}
use mathlib.Core.Path.{subst}
use Prim.Native.Nat.{bit_or}
use helix_kernel.Prelude.{
  ℕ, zero, suc, ◌+◌, ◌*◌, ◌/◌, ◌%◌, ◌^◌, ◌≤◌, ◌<◌, ◌≡◌, ◌≢◌, refl, sym, ◌∙◌, ap, none, some, arith,
  ltb, if◌then◌else◌, inl, inr,
}
use helix_kernel.Vmm.{pa_to_va}
use helix_kernel.Paging.{Words, Machine, kernel_map, kernel_unmap, mmap}
use helix_kernel.Paging.Walk.{translate}
use helix_kernel.Paging.Range.{leaf}
use helix_kernel.Paging.Unmap.{kernel_unmap-unmap_page}
use helix_kernel.Paging.Tree.{Holding, IsMapped}
use helix_kernel.Paging.Tree.Page.{pa_to_va_low}
use helix_kernel.Paging.Tree.View.{Mapping, Contents, page_of, put_page, mapped, Refines}
use helix_kernel.Paging.Tree.Mmap.{MmapOutcome, mmap-MmapOutcome}
use helix_kernel.Paging.Tree.Munmap.{unmap_page-Refines}
use helix_kernel.Paging.Tree.Restore.{put_page-same, put_page-other, mapped-other}

page_of-ne :
    (va i j : ℕ) → i < j → j < 2 ^ 36 → page_of (va + i * 0x1000) ≢ page_of (va + j * 0x1000)
unfolding page_of
page_of-ne va i j lt hi e = omega arith

-- Fewer than 2^36 pages do not overlap.
pub mapped-page :
    (k va pa flags i : ℕ) (s : Mapping)
    → k < 2 ^ 36
    → i < k
    → mapped k va pa flags s (va + i * 0x1000) ≡ some (leaf (pa + i * 0x1000) flags)
unfolding mapped
mapped-page zero va pa flags i s hi lt = absurd (omega arith)
mapped-page (suc k) va pa flags zero s hi lt =
    let ev : va + 0 * 0x1000 ≡ va = omega arith in
    let ep : pa + 0 * 0x1000 ≡ pa = omega arith in
    let first = put_page va (some (leaf pa flags)) s in
    rw (ev, ep)
      (mapped-other k (va + 0x1000) (pa + 0x1000) flags first va (λ (j, lt', e).
          let next : va + 0x1000 + j * 0x1000 ≡ va + suc j * 0x1000 = omega arith in
          page_of-ne va 0 (suc j) (omega arith) (omega arith) (rw ev (rw next at e)))
        ∙ put_page-same va (some (leaf pa flags)) s va refl)
mapped-page (suc k) va pa flags (suc i) s hi lt =
    let ev : va + suc i * 0x1000 ≡ va + 0x1000 + i * 0x1000 = omega arith in
    let ep : pa + suc i * 0x1000 ≡ pa + 0x1000 + i * 0x1000 = omega arith in
    rw (ev, ep) (mapped-page k (va + 0x1000) (pa + 0x1000) flags i _ (omega arith) (omega arith))

-- What is left of `n` pages, from `va` on, after `uacpi_kernel_unmap`.
abbrev Left : ℕ → ℕ → ℕ → ℕ → ℕ → ℕ → Machine → Type 0
Left fuel cr3 addr len n va m =
    (m2 : Machine) × (kernel_unmap (suc (suc fuel)) va len m ≡ some m2)
    × (translate m2.words cr3 va ≡ none)
    × ((i : ℕ)
        → 0 < i
        → i < n
        → translate m2.words cr3 (va + i * 0x1000) ≡ some (leaf (addr + i * 0x1000) 3))

mapped-Left :
    {held : Holding} (c : Contents) (s : Mapping) (fuel addr len n va : ℕ) (m : Machine)
    → 0 < len
    → len ≤ 2 ^ 24
    → va + 0x2000 < 2 ^ 64
    → n < 2 ^ 36
    → Refines held m.current_cr3 c (mapped n va addr 3 s) m.words m.frames
    → Left fuel m.current_cr3 addr len n va m
mapped-Left c s fuel addr len n va m pos small room few h =
    let (w, run, h') = unmap_page-Refines c m (mapped n va addr 3 s) va h in
    let ev : va + 0 * 0x1000 ≡ va = omega arith in
    (
      record m { words = w },
      kernel_unmap-unmap_page fuel va len m pos small room ∙ ap (λ k. some k) run,
      h'.view va ∙ put_page-same va none (mapped n va addr 3 s) va refl,
      λ i lo hi.
          h'.view (va + i * 0x1000)
          ∙ put_page-other va none (mapped n va addr 3 s) (va + i * 0x1000)
              (λ e. page_of-ne va 0 i lo (omega arith) (rw ev (sym e)))
          ∙ mapped-page n va addr 3 i s few hi,
    )

-- Where `mmap` returns an address, all the pages are in.
returned-Left :
    {held : Holding} {w0 : Words} (c : Contents) (s : Mapping) (fuel addr len n va r r' : ℕ)
    (m m1 : Machine)
    → 0 < len
    → len ≤ 2 ^ 24
    → va + 0x2000 < 2 ^ 64
    → n < 2 ^ 36
    → MmapOutcome held c m.current_cr3 n va addr 3 s w0 r' m.words m.frames
    → r' ≡ r
    → m ≡ m1
    → r ≢ 0
    → Left fuel m.current_cr3 addr len n r m1
returned-Left {held} c s fuel addr len n va r r' m m1 pos small room few o same same' ne =
    elim o.end [
      | inr (z, _, _) ↦ absurd (ne (sym same ∙ z))
      | inl (at, all) ↦
          let done : Refines held m.current_cr3 c (mapped n va addr 3 s) m.words m.frames =
            rw all at o.view in
          subst (λ k. Left fuel m.current_cr3 addr len n r k) same'
            (subst (λ k. Left fuel m.current_cr3 addr len n k m) (sym at ∙ same)
              (mapped-Left c s fuel addr len n va m pos small room few done))
    ]

-- `uacpi_kernel_map` of 1 to 2^24 bytes below 2^47 less two pages, on a tree of page
-- tables apart from the memory that callers hold, that
-- returns an address, and then `uacpi_kernel_unmap` of that address and as many bytes: the first
-- page is no longer mapped, and each other page still is, to the physical memory that it was for.
pub kernel_map-kernel_unmap :
    {held : Holding} (fuel : ℕ) (m m1 : Machine) (addr len r : ℕ)
    → IsMapped held (pa_to_va m.current_cr3) m.words m.frames
    → 0 < len
    → len ≤ 2 ^ 24
    → addr + len + 0x2000 < 2 ^ 47
    → kernel_map addr len m ≡ some (r, m1)
    → r ≢ 0
    → (m2 : Machine) × (kernel_unmap (suc (suc fuel)) r len m1 ≡ some m2)
      × (translate m2.words m.current_cr3 r ≡ none)
      × ((i : ℕ)
          → 0 < i
          → i < (len + 0xFFF) / 0x1000
          → translate m2.words m.current_cr3 (r + i * 0x1000) ≡ some (leaf (addr + i * 0x1000) 3))
unfolding kernel_map
kernel_map-kernel_unmap {held} fuel m m1 addr len r h pos small room run ne =
    let va = pa_to_va addr in
    let n = (len + 0xFFF) / 0x1000 in
    let s = translate m.words m.current_cr3 in
    let high = pa_to_va_low addr (omega arith) in
    let (r', w, f, run', o) =
      mmap-MmapOutcome m n va addr 3 h (omega (arith, high)) (omega arith) in
    let whole : (len + 0xFFF) % 2 ^ 64 ≡ len + 0xFFF = omega arith in
    let called = ap (λ k. mmap addr va (k / 0x1000) 3 m) (sym whole) in
    let e =
      some-injective (r', record m { words = w; frames = f }) (r, m1) (sym run' ∙ called ∙ run) in
    let user : (if ltb va 0x800000000000 then bit_or 3 4 else 3) ≡ 3 = ground (arith, high) in
    returned-Left (λ y. m.words (pa_to_va y)) s fuel addr len n va r r'
      (record m { words = w; frames = f }) m1 pos small (omega (arith, high)) (omega arith)
      (rw user at o) (ap (λ k. k.0) e) (ap (λ k. k.1) e) ne
