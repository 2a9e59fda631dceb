-- ===== src/Pmm/Linked/Run.antt =====
-- Histories of calls of `alloc` and `free` of mm/pmm.cpp with the free lists in memory, next to those
-- on sequences.
use helix_kernel.Prelude.{ℕ, ◌+◌, ◌-◌, ◌≤◌, ◌≡◌, refl, ap, some, List, [], ◌∷◌, ◌++◌, arith}
use helix_kernel.Pmm.{Pmm}
use helix_kernel.Pmm.Memory.{cover_all}
use helix_kernel.Pmm.Table.{IsWell}
use helix_kernel.Pmm.Run.{
  Held, here, cover_held, held_at-order, cover_held-split, All-append-split, Reach-Inv, start-Inv,
}
use helix_kernel.Pmm.Linked.{LinkedSegment, free_all}
use helix_kernel.Pmm.Linked.Total.{free_all-more}
use helix_kernel.Pmm.Linked.Memory.{AllStored, free_all-AllFreed}
use helix_kernel.Pmm.Linked.World.{
  Answered, took_back, calls, with_answer, linked_calls, LinkedWorld, LinkedStep, takes, fails,
  gives, writes, LinkedReach, begin, also,
}
use helix_kernel.Pmm.Linked.Fuel.{fuel-Enough}
use helix_kernel.Pmm.Linked.Stands.{Stands, takes-Stands, fails-Stands, gives-Stands, writes-Stands}

module _ (m : Pmm) (well : IsWell m) (once : (a : ℕ) → cover_all m.segtab a ≤ 1) where
  LinkedStep-Stands :
      {u v : LinkedWorld} {cs : List Answered}
      → Stands m u cs
      → (t : LinkedStep u v) → Stands m v (with_answer t cs)
  unfolding with_answer
  LinkedStep-Stands {u} st (takes {l} {gs} n o p h order run) =
      takes-Stands m well once u l gs n o p h order run st
  LinkedStep-Stands {u} st (fails n o h order run) = fails-Stands m well once u n o h order run st
  LinkedStep-Stands {u} st (gives {l} {gs} xs b ys o fuel r e order run) =
      gives-Stands m well once u l gs xs b ys o fuel r e order run st
  LinkedStep-Stands {u} st (writes xs b ys y v e lo hi) =
      writes-Stands m well once u xs b ys y v e lo hi st

  all_Stands :
      {u v : LinkedWorld} → Stands m u [] → (r : LinkedReach u v) → Stands m v (linked_calls r)
  unfolding linked_calls
  all_Stands st begin = st
  all_Stands st (also r t) = LinkedStep-Stands (all_Stands st r) t

-- Where the allocator is well formed, no memory is free twice and its lists stand in memory, after
-- any calls of `alloc` for a size whose rounding does not wrap and of `free` with a held block and its
-- size, and any writes by callers to the blocks that they hold, the memory holds the lists of an
-- allocator that the same calls, in the same order and with the same answers, reach on sequences; a
-- call of `alloc` that finds no memory is one of them.
pub LinkedReach-Stands :
    (m : Pmm) (l : ℕ → ℕ) (gs : List LinkedSegment)
    → IsWell m
    → ((a : ℕ) → cover_all m.segtab a ≤ 1)
    → AllStored l gs m.segtab
    → {w : LinkedWorld} → (r : LinkedReach (record { links = l; segments = gs; held = [] }) w)
    → Stands m w (linked_calls r)
unfolding calls
LinkedReach-Stands m l gs well once stored r =
    all_Stands m well once (record { pmm = m; reached = here; same = refl; stored = stored }) r

-- Where the allocator was well formed and no memory free twice at first, and the memory holds the
-- lists of an allocator that calls reach on sequences: `free` of each held block with its size ends,
-- the block is held no longer, and the memory holds the lists of the allocator that these calls and
-- this one reach.
pub Stands-gives :
    {cs : List Answered} (m : Pmm) (w : LinkedWorld) (xs : List Held) (b : Held) (ys : List Held)
    → IsWell m
    → ((a : ℕ) → cover_all m.segtab a ≤ 1)
    → Stands m w cs
    → w.held ≡ xs ++ (b ∷ ys)
    → (v : LinkedWorld) × LinkedStep w v
      × (v.held ≡ xs ++ ys)
      × Stands m v (took_back b.address b.bytes ∷ cs)
Stands-gives m w xs b ys well once st e =
    let i = Reach-Inv _ (start-Inv m well) st.reached in
    let (hb, _) = All-append-split st.pmm xs b ys (rw e at i.blocks) in
    let (few, enough) = fuel-Enough st.pmm.segtab i.well.valid in
    let (o, ts, l, gs, called, run, stored, _) =
      free_all-AllFreed few hb.order b.address w.links w.segments st.pmm.segtab i.well.valid
        hb.belongs
        (λ a. omega (
          arith,
          once a,
          i.conserved a,
          ap (λ k. cover_held k a) e,
          cover_held-split xs b ys a,
          held_at-order b hb.order a hb.order_eq,
        ))
        enough st.stored in
    let always : (more : ℕ)
        → few ≤ more
        → free_all more hb.order b.address w.links w.segments ≡ some (some o, l, gs) =
      λ more le.
        let sum : few + (more - few) ≡ more = omega arith in
        rw sum at (
          free_all-more few (more - few) hb.order b.address w.links w.segments (some o, l, gs)
            run) in
    (
      record { links = l; segments = gs; held = xs ++ ys },
      gives xs b ys hb.order few (some o) e hb.order_eq always,
      refl,
      gives-Stands m well once w l gs xs b ys hb.order few (some o) e hb.order_eq always st,
    )
