-- ===== src/Pmm/Table.antt =====
-- `alloc` and `free` of mm/pmm.cpp on the whole allocator.
use mathlib.Core.Option
use helix_kernel.Prelude.{
  ℕ, ◌+◌, ◌^◌, ◌≤◌, ◌<◌, ◌≡◌, refl, List, [], ◌∷◌, Option, none, some, arith, inl, inr, All, ◌⊎◌,
}
use helix_kernel.Pmm.{
  Segment, Pmm, word, add64, sub64, block_bytes, order_of, alloc_segments, finish_alloc, alloc,
  in_segment, free_segments, here_freed, later_freed, finish_free, free,
}
use helix_kernel.Pmm.Order.{order_of-Least}
use helix_kernel.Pmm.Cover.{in_block}
use helix_kernel.Pmm.Valid.{IsValid}
use helix_kernel.Pmm.Alloc.{SameShape}
use helix_kernel.Pmm.Free.{free_segment-Takes}
use helix_kernel.Pmm.Memory.{
  cover_all, Apart, Separate, Belongs, SameShapes, SameShapes-refl, in_segment-fits, GivesFrom,
  NoBlock, TableOutcome, alloc_segments-outcome,
}

-- The segments are well formed and share no address.
pub record IsWell (m : Pmm) : Type 0 where
  pub valid : All IsValid m.segtab
  pub separate : Separate m.segtab

Apart-shape : (s t s' t' : Segment) → SameShape s s' → SameShape t t' → Apart s t → Apart s' t'
Apart-shape s t s' t' e f ap = ground (arith, e.base, e.size, f.base, f.size)

All-Apart-shapes :
    (s s' : Segment) (ss ts : List Segment)
    → SameShape s s'
    → SameShapes ss ts
    → All (Apart s) ss
    → All (Apart s') ts
All-Apart-shapes s s' [] [] e sh aps = tt
All-Apart-shapes s s' [] (t ∷ ts) e sh aps = elim sh [ ]
All-Apart-shapes s s' (r ∷ rs) [] e sh aps = elim sh [ ]
All-Apart-shapes s s' (r ∷ rs) (t ∷ ts) e sh aps =
    (Apart-shape s r s' t e sh.0 aps.0, All-Apart-shapes s s' rs ts e sh.1 aps.1)

pub Separate-shapes : (ss ts : List Segment) → SameShapes ss ts → Separate ss → Separate ts
Separate-shapes [] [] sh sep = tt
Separate-shapes [] (t ∷ ts) sh sep = elim sh [ ]
Separate-shapes (s ∷ ss) [] sh sep = elim sh [ ]
Separate-shapes (s ∷ ss) (t ∷ ts) sh sep =
    (All-Apart-shapes s t ss ts sh.0 sh.1 sep.0, Separate-shapes ss ts sh.1 sep.1)

-- Where a block belongs depends on the shapes of the segments alone.
pub Belongs-shapes :
    (order b : ℕ) (ss ts : List Segment)
    → SameShapes ss ts
    → Belongs order b ss
    → Belongs order b ts
unfolding in_segment
Belongs-shapes order b [] [] sh h = h
Belongs-shapes order b [] (t ∷ ts) sh h = elim sh [ ]
Belongs-shapes order b (s ∷ ss) [] sh h = elim sh [ ]
Belongs-shapes order b (s ∷ ss) (t ∷ ts) sh (inl f) = inl (rw (sh.0.base, sh.0.max) f)
Belongs-shapes order b (s ∷ ss) (t ∷ ts) sh (inr (out, h)) =
    inr (rw (sh.0.base, sh.0.size) out, Belongs-shapes order b ss ts sh.1 h)

-- What `alloc` returns for a request whose order is `o`.
abbrev pub AllocOutcome : ℕ → Pmm → ℕ × Pmm → Type 0
AllocOutcome o m (p, m') =
    ((0 < p)
      × GivesFrom o p m.segtab m'.segtab
      × (m'.num_used ≡ add64 m.num_used (2 ^ o))
      × (m'.num_errors ≡ m.num_errors))
    ⊎ ((p ≡ 0) × (m' ≡ record m { num_errors = add64 m.num_errors 1 }) × All (NoBlock o) m.segtab)

pub Belongs-pos : (order b : ℕ) (ss : List Segment) → All IsValid ss → Belongs order b ss → 0 < b
Belongs-pos order b [] v h = elim h [ ]
Belongs-pos order b (s ∷ ss) v (inl f) = omega (arith, f.place, v.0.base_pos)
Belongs-pos order b (s ∷ ss) v (inr h) = Belongs-pos order b ss v.1 h.1

finish_alloc-outcome :
    (o : ℕ) (m : Pmm) (r : Option (ℕ × List Segment))
    → IsWell m
    → TableOutcome o m.segtab r
    → AllocOutcome o m (finish_alloc o m r)
unfolding finish_alloc
finish_alloc-outcome o m none w t = inr (refl, refl, t)
finish_alloc-outcome o m (some (b, ss)) w t =
    inl (Belongs-pos o b m.segtab w.valid t.belongs, t, refl, refl)

-- On a well-formed page allocator, `alloc` returns for every size whose rounding does not wrap:
-- either a block with room for the size, whose bytes leave the free lists and no others, with the
-- counter raised; or `nullptr` with the table unchanged, when no segment has a free block that is
-- large enough.
pub alloc-outcome :
    (n : ℕ) (m : Pmm)
    → IsWell m
    → n + 0xfff < word
    → (o : ℕ) × (r : ℕ × Pmm) × (alloc n m ≡ some r)
      × (order_of n ≡ some o)
      × (n ≤ block_bytes o)
      × AllocOutcome o m r
unfolding alloc
alloc-outcome n m w h =
    let (o, run, room, least, _) = order_of-Least n h in
    (
      o,
      finish_alloc o m (alloc_segments o m.segtab),
      rw run refl,
      run,
      room,
      finish_alloc-outcome o m _ w (alloc_segments-outcome o m.segtab w.valid w.separate),
    )

-- What it means that the table takes a block back.
pub record TakesBack (order p : ℕ) (ss ts : List Segment) : Type 0 where
  pub valid : All IsValid ts
  pub shapes : SameShapes ss ts
  pub conserved : (a : ℕ) → cover_all ts a ≡ cover_all ss a + in_block order p a

free_segments-TakesBack :
    (order p : ℕ) (ss : List Segment)
    → All IsValid ss
    → Belongs order p ss
    → (o : ℕ) × (ts : List Segment) × (free_segments order p ss ≡ some (some o, ts))
      × TakesBack order p ss ts
unfolding free_segments here_freed later_freed cover_all
free_segments-TakesBack order p [] v h = elim h [ ]
free_segments-TakesBack order p (s ∷ ss) v (inl f) =
    let (o, t, run, k) = free_segment-Takes order p s v.0 f in
    (
      o,
      t ∷ ss,
      rw (in_segment-fits s order p v.0 f, run) refl,
      record {
        valid = (k.valid, v.1);
        shapes = (k.shape, SameShapes-refl ss);
        conserved = λ a. omega (arith, k.conserved a);
      },
    )
free_segments-TakesBack order p (s ∷ ss) v (inr (out, h)) =
    let (o, ts, run, k) = free_segments-TakesBack order p ss v.1 h in
    (
      o,
      s ∷ ts,
      rw (out, run) refl,
      record {
        valid = (v.0, k.valid);
        shapes = (record { base = refl; size = refl; max = refl }, k.shapes);
        conserved = λ a. omega (arith, k.conserved a);
      },
    )

-- `free` of a block that the table gave away does not leave `free_list[16]`, and takes it back.
pub free-TakesBack :
    (p n o : ℕ) (m : Pmm)
    → IsWell m
    → order_of n ≡ some o
    → Belongs o p m.segtab
    → (m' : Pmm) × (free p n m ≡ some m') × TakesBack o p m.segtab m'.segtab
unfolding free finish_free Option.bind
free-TakesBack p n o m w e h =
    let (k, ts, run, t) = free_segments-TakesBack o p m.segtab w.valid h in
    (record m { segtab = ts; num_used = sub64 m.num_used (2 ^ k) }, rw (e, run) refl, t)
