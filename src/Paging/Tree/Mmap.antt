-- ===== src/Paging/Tree/Mmap.antt =====
-- What `mmap` of mm/vmm.cpp does to the mapping that the page tables stand for.
use Prim.Native.Nat.{bit_or}
use helix_kernel.Prelude.{
  ℕ, zero, suc, ◌+◌, ◌*◌, ◌%◌, ◌^◌, ◌≤◌, ◌<◌, ◌≡◌, ◌⊎◌, refl, ap, Bool, true, false, some, arith,
  if◌then◌else◌, inl, inr, ltb,
}
use helix_kernel.Vmm.{pa_to_va}
use helix_kernel.Pmm.{Pmm}
use helix_kernel.Paging.{Words, Machine, map_page, map_pages, mmap, page_size}
use helix_kernel.Paging.Walk.{translate}
use helix_kernel.Paging.Range.{leaf}
use helix_kernel.Paging.Tree.{Holding, IsMapped}
use helix_kernel.Paging.Tree.Table.{Runs}
use helix_kernel.Paging.Tree.Links.{Links, Links-refl, Links-trans}
use helix_kernel.Paging.Tree.View.{Contents, Mapping, put_page, mapped, Refines}
use helix_kernel.Paging.Tree.MapPage.{Full, PageOutcome, map_page-PageOutcome}

-- The mapping after the pages that were put in, all of them unless no page is free.
pub record PagesOutcome (held : Holding) (c : Contents) (cr3 n va pa flags : ℕ) (s : Mapping)
    (w0 : Words) (ok : Bool) (w : Words) (f : Pmm) : Type 0 where
  pub count : ℕ
  pub count_le : count ≤ n
  pub view : Refines held cr3 c (mapped count va pa flags s) w f
  pub links : Links flags (pa_to_va cr3) w0 w
  pub end : ((ok ≡ true) × (count ≡ n)) ⊎ ((ok ≡ false) × (count < n) × Full f)

abbrev MapsPages : Holding → Contents → ℕ → ℕ → Machine → Mapping → ℕ → ℕ → Type 0
MapsPages held c n flags m s va pa =
    va + n * 0x1000 < 2 ^ 64
    → pa + n * 0x1000 < 2 ^ 64
    → Refines held m.current_cr3 c s m.words m.frames
    → Runs m (map_pages n va pa flags m) (PagesOutcome held c m.current_cr3 n va pa flags s m.words)

-- After the first page, the others are put in; or the loop stops.
after_page :
    {held : Holding} (c : Contents) (n flags : ℕ) (m : Machine) (s : Mapping) (va pa : ℕ)
    → va + suc n * 0x1000 < 2 ^ 64
    → pa + suc n * 0x1000 < 2 ^ 64
    → ((m1 : Machine) (s1 : Mapping) → MapsPages held c n flags m1 s1 (va + 0x1000) (pa + 0x1000))
    → (b : Bool) (w : Words) (f : Pmm)
    → map_page va pa flags m ≡ some (b, record m { words = w; frames = f })
    → PageOutcome held c m.current_cr3 va pa flags m.words s b w f
    → Runs m
        (map_pages (suc n) va pa flags m)
        (PagesOutcome held c m.current_cr3 (suc n) va pa flags s m.words)
unfolding map_pages mapped
after_page c n flags m s va pa hv hp others false w f run (same, links, full) = (
  false,
  w,
  f,
  rw (map_pages, run) refl,
  record {
    count = 0;
    count_le = omega arith;
    view = same;
    links = links;
    end = inr (refl, omega arith, full);
  },
)
after_page c n flags m s va pa hv hp others true w f run (one, links) =
    let m1 = record m { words = w; frames = f } in
    let (ok, w', f', run', o) =
      others m1 (put_page va (some (leaf pa flags)) s) (omega arith) (omega arith) one in
    let ev : (va + page_size) % 2 ^ 64 ≡ va + 0x1000 = omega arith in
    let ep : (pa + page_size) % 2 ^ 64 ≡ pa + 0x1000 = omega arith in
    (
      ok,
      w',
      f',
      rw (map_pages, run, ev, ep) run',
      record {
        count = suc o.count;
        count_le = omega (arith, o.count_le);
        view = o.view;
        links = Links-trans flags (pa_to_va m.current_cr3) m.words w w' links o.links;
        end = elim o.end [
          | inl (done, all) ↦ inl (done, ap suc all)
          | inr (stopped, few, full) ↦ inr (stopped, omega (arith, few), full)
        ];
      },
    )

map_pages-PagesOutcome :
    {held : Holding} (c : Contents) (n flags : ℕ) (m : Machine) (s : Mapping) (va pa : ℕ)
    → MapsPages held c n flags m s va pa
unfolding map_pages mapped
map_pages-PagesOutcome c zero flags m s va pa hv hp h = (
  true,
  m.words,
  m.frames,
  refl,
  record {
    count = 0;
    count_le = omega arith;
    view = h;
    links = Links-refl flags (pa_to_va m.current_cr3) m.words;
    end = inl (refl, refl);
  },
)
map_pages-PagesOutcome c (suc n) flags m s va pa hv hp h =
    let (b, w, f, run, out) = map_page-PageOutcome c m s va pa flags h in
    after_page c n flags m s va pa hv hp
      (λ m1 s1. map_pages-PagesOutcome c n flags m1 s1 (va + 0x1000) (pa + 0x1000)) b w f run out

-- What `mmap` returns, and the mapping after it.
pub record MmapOutcome (held : Holding) (c : Contents) (cr3 n va pa flags : ℕ) (s : Mapping)
    (w0 : Words) (r : ℕ) (w : Words) (f : Pmm) : Type 0 where
  pub count : ℕ
  pub count_le : count ≤ n
  pub view : Refines held cr3 c (mapped count va pa flags s) w f
  pub links : Links flags (pa_to_va cr3) w0 w
  pub end : ((r ≡ va) × (count ≡ n)) ⊎ ((r ≡ 0) × (count < n) × Full f)

-- `mmap` on a tree of page tables apart from the memory that callers hold, with a well-formed page
-- allocator, where neither range of addresses wraps: it puts the pages into the mapping that the
-- processor reads, one after the other, with the bit for user access below 2^47, and keeps every other page of
-- the address space and the words of the memory that callers hold; it puts in all of them and
-- returns the address, or it stops where no page is free and returns 0. The tables stay such a tree.
pub mmap-MmapOutcome :
    {held : Holding} (m : Machine) (n va pa flags : ℕ)
    → IsMapped held (pa_to_va m.current_cr3) m.words m.frames
    → va + n * 0x1000 < 2 ^ 64
    → pa + n * 0x1000 < 2 ^ 64
    → let flags' = if ltb va 0x800000000000 then bit_or flags 4 else flags in
      Runs m (mmap pa va n flags m) (
        MmapOutcome held
          (λ y. m.words (pa_to_va y))
          m.current_cr3
          n
          va
          pa
          flags'
          (translate m.words m.current_cr3)
          m.words)
unfolding mmap
mmap-MmapOutcome m n va pa flags h hv hp =
    let flags' = if ltb va 0x800000000000 then bit_or flags 4 else flags in
    let s = translate m.words m.current_cr3 in
    let (ok, w, f, run, o) =
      map_pages-PagesOutcome (λ y. m.words (pa_to_va y)) n flags' m s va pa hv hp
        (record { mapped = h; view = λ x. refl; callers = λ y low is_held. refl }) in
    (
      (if ok then va else 0),
      w,
      f,
      rw (mmap, run) refl,
      record {
        count = o.count;
        count_le = o.count_le;
        view = o.view;
        links = o.links;
        end = elim o.end [
          | inl (done, all) ↦ inl (rw done refl, all)
          | inr (stopped, few, full) ↦ inr (rw stopped refl, few, full)
        ];
      },
    )
