-- ===== src/Pmm/Linked/Stands.antt =====
-- What each call of mm/pmm.cpp on the free lists in memory is on sequences.
use mathlib.Core.Option
use mathlib.Core.Path.{subst}
use mathlib.Core.Option.{some-injective, none-ne-some}
use helix_kernel.Prelude.{
  ℕ, ◌+◌, ◌≤◌, ◌<◌, ◌≡◌, refl, sym, ◌∙◌, ap, Option, none, some, List, ◌∷◌, ◌++◌, arith,
  Option-cases, inl, inr,
}
use helix_kernel.Pmm.{
  Pmm, Segment, word, order_of, alloc, free, alloc_segments, free_segments, finish_alloc,
  finish_free,
}
use helix_kernel.Pmm.Memory.{cover_all, TableOutcome, alloc_segments-outcome}
use helix_kernel.Pmm.Table.{IsWell, Belongs-pos}
use helix_kernel.Pmm.Run.{
  Held, allocate, refused, release, Reach, next, cover_held, held_at-order, cover_held-split,
  All-append-split, held_at-inside, Reach-Inv, start, start-Inv,
}
use helix_kernel.Pmm.Linked.{LinkedSegment, assign, alloc_all, free_all}
use helix_kernel.Pmm.Linked.Chain.{assign_other}
use helix_kernel.Pmm.Linked.Memory.{
  AllStored, AllStored-kept, AllAgree, alloc_all-AllAgree, free_all-AllFreed,
}
use helix_kernel.Pmm.Linked.World.{Answered, gave, denied, took_back, answer, calls, LinkedWorld}
use helix_kernel.Pmm.Linked.Fuel.{Enough-more, fuel-Enough}

alloc-run :
    (n o b : ℕ) (ts : List Segment) (m : Pmm)
    → order_of n ≡ some o
    → alloc_segments o m.segtab ≡ some (b, ts)
    → alloc n m ≡ some (finish_alloc o m (some (b, ts)))
unfolding alloc
alloc-run n o b ts m e run = rw (e, run) refl

alloc-none :
    (n o : ℕ) (m : Pmm)
    → order_of n ≡ some o
    → alloc_segments o m.segtab ≡ none
    → alloc n m ≡ some (finish_alloc o m none)
unfolding alloc
alloc-none n o m e run = rw (e, run) refl

free-run :
    (p n o : ℕ) (k : Option ℕ) (ts : List Segment) (m : Pmm)
    → order_of n ≡ some o
    → free_segments o p m.segtab ≡ some (k, ts)
    → free p n m ≡ some (finish_free m (k, ts))
unfolding free Option.bind
free-run p n o k ts m e run = rw (e, run) refl

-- The memory stands for an allocator on sequences, which the calls reach from the one at first,
-- with the same answers.
pub record Stands (m : Pmm) (w : LinkedWorld) (cs : List Answered) : Type 0 where
  pub pmm : Pmm
  pub reached : Reach (start m) (record { pmm = pmm; held = w.held })
  pub same : calls reached ≡ cs
  pub stored : AllStored w.links w.segments pmm.segtab

module _ (m : Pmm) (well : IsWell m) (once : (a : ℕ) → cover_all m.segtab a ≤ 1) where
  pub takes-Stands :
      {cs : List Answered} (w : LinkedWorld) (l : ℕ → ℕ) (gs : List LinkedSegment) (n o p : ℕ)
      → n + 0xfff < word
      → order_of n ≡ some o
      → alloc_all o w.links w.segments ≡ some (p, l, gs)
      → Stands m w cs
      → Stands m
          (record { links = l; segments = gs; held = record { address = p; bytes = n } ∷ w.held })
          (gave n p ∷ cs)
  unfolding finish_alloc calls answer
  takes-Stands {cs} w l gs n o p h order run st =
      let i = Reach-Inv _ (start-Inv m well) st.reached in
      let agree =
        alloc_all-AllAgree o w.links w.segments st.pmm.segtab i.well.valid
          (λ a. omega (arith, once a, i.conserved a)) st.stored in
      let out = alloc_segments-outcome o st.pmm.segtab i.well.valid i.well.separate in
      elim (Option-cases (alloc_segments o st.pmm.segtab)) [
        | inl empty ↦
            let gone : alloc_all o w.links w.segments ≡ none = rw empty at agree in
            absurd (none-ne-some _ (sym gone ∙ run))
        | inr ((b, ts), found) ↦
            let (l', gs', run', stored, _) : AllAgree w.links st.pmm.segtab (some (b, ts))
                (alloc_all o w.links w.segments) =
              rw found at agree in
            let g : TableOutcome o st.pmm.segtab (some (b, ts)) = rw found at out in
            let pos = Belongs-pos o b st.pmm.segtab i.well.valid g.belongs in
            let m' = (finish_alloc o st.pmm (some (b, ts))).1 in
            let called : alloc n st.pmm ≡ some (b, m') = alloc-run n o b ts st.pmm order found in
            subst
              (λ r.
                Stands m
                  (record {
                    links = r.1;
                    segments = r.2;
                    held = record { address = r.0; bytes = n } ∷ w.held;
                  })
                  (gave n r.0 ∷ cs))
              (some-injective _ _ (sym run' ∙ run))
              (record {
                pmm = m';
                reached = next st.reached (allocate n b h called (λ z. omega (arith, z, pos)));
                same = ap (◌∷◌ (gave n b)) st.same;
                stored = stored;
              })
      ]

  pub fails-Stands :
      {cs : List Answered} (w : LinkedWorld) (n o : ℕ)
      → n + 0xfff < word
      → order_of n ≡ some o
      → alloc_all o w.links w.segments ≡ none
      → Stands m w cs
      → Stands m w (denied n ∷ cs)
  unfolding finish_alloc calls answer
  fails-Stands w n o h order run st =
      let i = Reach-Inv _ (start-Inv m well) st.reached in
      let agree =
        alloc_all-AllAgree o w.links w.segments st.pmm.segtab i.well.valid
          (λ a. omega (arith, once a, i.conserved a)) st.stored in
      elim (Option-cases (alloc_segments o st.pmm.segtab)) [
        | inl empty ↦
            let called : alloc n st.pmm ≡ some (finish_alloc o st.pmm none) =
              alloc-none n o st.pmm order empty in
            record {
              pmm = (finish_alloc o st.pmm none).1;
              reached = next st.reached (refused n h called);
              same = ap (◌∷◌ (denied n)) st.same;
              stored = st.stored;
            }
        | inr ((b, ts), found) ↦
            let (l', gs', run', _, _) : AllAgree w.links st.pmm.segtab (some (b, ts))
                (alloc_all o w.links w.segments) =
              rw found at agree in
            absurd (none-ne-some _ (sym run ∙ run'))
      ]

  pub gives-Stands :
      {cs : List Answered} (w : LinkedWorld) (l : ℕ → ℕ) (gs : List LinkedSegment) (xs : List Held)
      (b : Held) (ys : List Held) (o fuel : ℕ) (r : Option ℕ)
      → w.held ≡ xs ++ (b ∷ ys)
      → order_of b.bytes ≡ some o
      → ((more : ℕ) → fuel ≤ more → free_all more o b.address w.links w.segments ≡ some (r, l, gs))
      → Stands m w cs
      → Stands m
          (record { links = l; segments = gs; held = xs ++ ys })
          (took_back b.address b.bytes ∷ cs)
  unfolding finish_free calls answer
  gives-Stands {cs} w l gs xs b ys o fuel r e order run st =
      let i = Reach-Inv _ (start-Inv m well) st.reached in
      let (hb, _) = All-append-split st.pmm xs b ys (rw e at i.blocks) in
      let same : hb.order ≡ o = some-injective _ _ (sym hb.order_eq ∙ order) in
      let (few, enough) = fuel-Enough st.pmm.segtab i.well.valid in
      let (o', ts, l', gs', called, run', stored, _) =
        free_all-AllFreed (fuel + few) o b.address w.links w.segments st.pmm.segtab i.well.valid
          (rw same at (hb.belongs))
          (λ a. omega (
            arith,
            once a,
            i.conserved a,
            ap (λ k. cover_held k a) e,
            cover_held-split xs b ys a,
            held_at-order b o a order,
          ))
          (Enough-more few (fuel + few) st.pmm.segtab (omega arith) enough) st.stored in
      let m' = finish_free st.pmm (some o', ts) in
      let freed : free b.address b.bytes st.pmm ≡ some m' =
        free-run b.address b.bytes o (some o') ts st.pmm order called in
      subst
        (λ k.
          Stands m (record { links = k.1; segments = k.2; held = xs ++ ys })
            (took_back b.address b.bytes ∷ cs))
        (some-injective _ _ (sym run' ∙ run (fuel + few) (omega arith)))
        (record {
          pmm = m';
          reached = next st.reached (release xs b ys e freed);
          same = ap (◌∷◌ (took_back b.address b.bytes)) st.same;
          stored = stored;
        })

  pub writes-Stands :
      {cs : List Answered} (w : LinkedWorld) (xs : List Held) (b : Held) (ys : List Held) (y v : ℕ)
      → w.held ≡ xs ++ (b ∷ ys)
      → b.address ≤ y
      → y + 8 ≤ b.address + b.bytes
      → Stands m w cs
      → Stands m (record w { links = assign w.links y v }) cs
  writes-Stands w xs b ys y v e lo hi st =
      let i = Reach-Inv _ (start-Inv m well) st.reached in
      let (hb, _) = All-append-split st.pmm xs b ys (rw e at i.blocks) in
      let own = held_at-inside st.pmm b y hb lo (omega arith) in
      record {
        pmm = st.pmm;
        reached = st.reached;
        same = st.same;
        stored =
            AllStored-kept w.links (assign w.links y v) w.segments st.pmm.segtab (cover_held w.held)
              i.well.valid
              (λ x z. assign_other w.links y v x (λ same. omega (
                arith,
                z,
                ap (λ k. cover_held w.held k) same,
                own,
                ap (λ k. cover_held k y) e,
                cover_held-split xs b ys y,
              )))
              (λ a. omega (arith, once a, i.conserved a)) st.stored;
      }
