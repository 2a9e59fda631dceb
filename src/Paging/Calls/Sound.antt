-- ===== src/Paging/Calls/Sound.antt =====
-- What each call of mm/vmm.cpp keeps of the page tables.
use helix_kernel.Prelude.{ℕ, ◌+◌, ◌^◌, ◌≤◌, ◌<◌, ◌≡◌, refl, ap, List, ◌∷◌, ◌++◌, All, some, arith}
use helix_kernel.Vmm.{va_to_pa, pa_to_va}
use helix_kernel.Pmm.{Pmm, free, block_bytes, order_of}
use helix_kernel.Pmm.Order.{block_bytes_pos}
use helix_kernel.Pmm.Memory.{cover_all, GivesFrom, SameShapes, SameShapes-refl}
use helix_kernel.Pmm.Table.{IsWell, free-TakesBack, Separate-shapes, Belongs-shapes}
use helix_kernel.Pmm.Run.{
  Held, IsHeld, cover_held, held_at-order, cover_held-split, All-append-split, IsHeld-shapes,
}
use helix_kernel.Paging.{Machine, free_virtual}
use helix_kernel.Paging.Tree.Page.{IsMapped-conserved, IsLow-shapes, Belongs-low}
use helix_kernel.Paging.Calls.{State, IsSound}

-- A state with the same words, where the allocator still accounts for all memory.
pub same_words :
    (u : State) (f : Pmm) (held : List Held)
    → IsSound u
    → SameShapes u.machine.frames.segtab f.segtab
    → IsWell f
    → ((x : ℕ)
        → cover_all f.segtab x + cover_held held x
          ≡ cover_all u.machine.frames.segtab x + cover_held u.held x)
    → All (IsHeld f) held
    → IsSound (record { machine = record u.machine { frames = f }; held = held })
same_words u f held s shapes well same blocks = record {
  mapped =
      IsMapped-conserved (pa_to_va u.machine.current_cr3) u.machine.words u.machine.frames f well
        (IsLow-shapes u.machine.frames.segtab f.segtab shapes s.mapped.low)
        (SameShapes-refl f.segtab) same s.mapped;
  blocks = blocks;
}

pub allocated-IsSound :
    (u : State) (n p o : ℕ) (f : Pmm)
    → IsSound u
    → order_of n ≡ some o
    → n ≤ block_bytes o
    → GivesFrom o p u.machine.frames.segtab f.segtab
    → IsSound (record {
      machine = record u.machine { frames = f };
      held = record { address = p; bytes = n } ∷ u.held;
    })
unfolding cover_held
allocated-IsSound u n p o f s e room g =
    same_words u f (record { address = p; bytes = n } ∷ u.held) s g.shapes
      (record {
        valid = g.valid;
        separate = Separate-shapes u.machine.frames.segtab f.segtab g.shapes s.mapped.well.separate;
      })
      (λ x. omega (arith, g.conserved x, held_at-order (record { address = p; bytes = n }) o x e))
      (
        record {
          order = o;
          order_eq = e;
          room = room;
          belongs = Belongs-shapes o p u.machine.frames.segtab f.segtab g.shapes g.belongs;
        },
        IsHeld-shapes u.machine.frames f u.held g.shapes s.blocks,
      )

pub va_to_pa_low : (p : ℕ) → p < 2 ^ 47 → va_to_pa (pa_to_va p) ≡ p
unfolding va_to_pa pa_to_va
va_to_pa_low p h = ground arith

-- Where a held block lies.
pub IsHeld-low :
    (u : State) (b : Held) → IsSound u → IsHeld u.machine.frames b → b.address + b.bytes ≤ 2 ^ 47
IsHeld-low u b s h = omega (
  arith,
  h.room,
  Belongs-low h.order b.address u.machine.frames.segtab s.mapped.well.valid s.mapped.low h.belongs,
)

free_virtual-run :
    (p n : ℕ) (f : Pmm) (m : Machine)
    → p < 2 ^ 47
    → free p n m.frames ≡ some f
    → free_virtual (pa_to_va p) n m ≡ some (record m { frames = f })
unfolding free_virtual
free_virtual-run p n f m low e = rw (free_virtual, va_to_pa_low p low, e) refl

-- A held block can be released.
pub release-IsSound :
    (u : State) (xs : List Held) (b : Held) (ys : List Held)
    → IsSound u
    → u.held ≡ xs ++ (b ∷ ys)
    → (f : Pmm) × (free_virtual (pa_to_va b.address) b.bytes u.machine
        ≡ some (record u.machine { frames = f }))
      × IsSound (record { machine = record u.machine { frames = f }; held = xs ++ ys })
release-IsSound u xs b ys s e =
    let (hb, hr) = All-append-split u.machine.frames xs b ys (rw e at s.blocks) in
    let (f, run, t) =
      free-TakesBack b.address b.bytes hb.order u.machine.frames s.mapped.well hb.order_eq
        hb.belongs in
    let low : b.address < 2 ^ 47 = omega (
      arith,
      block_bytes_pos hb.order,
      Belongs-low hb.order b.address u.machine.frames.segtab s.mapped.well.valid s.mapped.low
          hb.belongs,
    ) in
    (
      f,
      free_virtual-run b.address b.bytes f u.machine low run,
      same_words u f (xs ++ ys) s t.shapes
          (record {
            valid = t.valid;
            separate =
                Separate-shapes u.machine.frames.segtab f.segtab t.shapes s.mapped.well.separate;
          })
          (λ x. omega (
            arith,
            t.conserved x,
            ap (λ l. cover_held l x) e,
            cover_held-split xs b ys x,
            held_at-order b hb.order x hb.order_eq,
          ))
          (IsHeld-shapes u.machine.frames f (xs ++ ys) t.shapes hr),
    )
