-- ===== src/Paging/Calls/Steps.antt =====
-- What each call of mm/vmm.cpp does to the mapping.
use mathlib.Core.Option.{some-injective}
use mathlib.Core.Path.{subst}
use helix_kernel.Prelude.{
  ℕ, ◌+◌, ◌*◌, ◌/◌, ◌^◌, ◌≤◌, ◌<◌, ◌≡◌, ◌≢◌, refl, sym, ◌∙◌, ap, List, ◌∷◌, ◌++◌, some, arith, inl,
  inr,
}
use Prim.Native.Nat.{bit_or}
use helix_kernel.Vmm.{va_to_pa, pa_to_va}
use helix_kernel.Pmm.{Pmm, word, add64}
use helix_kernel.Pmm.Order.{block_bytes_pos}
use helix_kernel.Pmm.Memory.{GivesFrom, SameShapes-refl}
use helix_kernel.Pmm.Table.{alloc-outcome}
use helix_kernel.Pmm.Run.{
  Held, cover_held, cover_held-split, All-append-split, IsHeld-shapes, held_at-inside,
}
use helix_kernel.Paging.{
  Words, Machine, put, alloc_virtual, free_virtual, mmap, munmap, table_index,
}
use helix_kernel.Paging.Walk.{table_index-lt, translate}
use helix_kernel.Paging.Allocate.{alloc_virtual-run}
use helix_kernel.Paging.Tree.{translate-leaf_at, path_of}
use helix_kernel.Paging.Tree.Page.{IsMapped-conserved, Belongs-low, pa_to_va_low}
use helix_kernel.Paging.Tree.Frame.{IsMapped-beside, leaf_at-beside}
use helix_kernel.Paging.Tree.View.{Mapping, Contents, Refines, path_of-Indices}
use helix_kernel.Paging.Tree.Lower.{KeepsDirect, mmap-LowerOutcome, munmap-KeepsDirect}
use helix_kernel.Paging.Calls.{
  State, Call, quiet, maps, unmaps, Step, allocate, refused, release, write, map, unmap,
  translation, Allowed, holding, IsSound,
}
use helix_kernel.Paging.Calls.Sound.{
  same_words, allocated-IsSound, va_to_pa_low, IsHeld-low, release-IsSound,
}

-- The state after a call is sound, its mapping is one that the call allows, and the direct map stays.
abbrev pub Keeps : State → Call → State → Type 0
Keeps u c v =
    IsSound v
    × Allowed c (translation u) (translation v)
    × KeepsDirect (translation u) (translation v)

-- The result of `alloc`, with the block added to those that callers hold.
abbrev with_block : State → ℕ → ℕ × Machine → State
with_block u n (v, m) = record {
  machine = m;
  held = record { address = va_to_pa v; bytes = n } ∷ u.held;
}

GivesFrom-low :
    (u : State) (p o : ℕ) (f : Pmm)
    → IsSound u
    → GivesFrom o p u.machine.frames.segtab f.segtab
    → p < 2 ^ 47
GivesFrom-low u p o f s g = omega (
  arith,
  block_bytes_pos o,
  Belongs-low o p u.machine.frames.segtab s.mapped.well.valid s.mapped.low g.belongs,
)

allocate-Keeps :
    (u : State) (m : Machine) (n v : ℕ)
    → IsSound u
    → n + 0xfff < word
    → alloc_virtual n u.machine ≡ some (v, m)
    → v ≢ pa_to_va 0
    → Keeps u quiet (with_block u n (v, m))
allocate-Keeps u m n v s h run ne =
    let (o, (p, f), gave, order, room, outcome) =
      alloc-outcome n u.machine.frames s.mapped.well h in
    let e = some-injective _ _ (sym (alloc_virtual-run n p f u.machine gave) ∙ run) in
    elim outcome [
      | inr (z, _, _) ↦ absurd (ne (sym (ap (λ r. r.0) e) ∙ ap pa_to_va z))
      | inl (_, g, _, _) ↦
          let low : p < 2 ^ 47 = GivesFrom-low u p o f s g in
          let block : IsSound (with_block u n (pa_to_va p, record u.machine { frames = f })) =
            rw (va_to_pa_low p low) (allocated-IsSound u n p o f s order room g) in
          subst (λ r. Keeps u quiet (with_block u n r)) e (block, λ x. refl, λ y lt. refl)
    ]

refused-Keeps :
    (u : State) (m : Machine) (n : ℕ)
    → IsSound u
    → n + 0xfff < word
    → alloc_virtual n u.machine ≡ some (pa_to_va 0, m)
    → Keeps u quiet (record u { machine = m })
refused-Keeps u m n s h run =
    let (o, (p, f), gave, order, room, outcome) =
      alloc-outcome n u.machine.frames s.mapped.well h in
    let e = some-injective _ _ (sym (alloc_virtual-run n p f u.machine gave) ∙ run) in
    elim outcome [
      | inl (pos, g, _, _) ↦
          let low = GivesFrom-low u p o f s g in
          absurd
            (omega (arith, pos, ap (λ r. r.0) e, pa_to_va_low p low, pa_to_va_low 0 (omega arith)))
      | inr (_, same, _) ↦
          let counted = record u.machine.frames {
            num_errors = add64 u.machine.frames.num_errors 1;
          } in
          let shapes = SameShapes-refl u.machine.frames.segtab in
          let kept : IsSound (record u { machine = record u.machine { frames = counted } }) =
            same_words u counted u.held s shapes
              (record { valid = s.mapped.well.valid; separate = s.mapped.well.separate })
              (λ x. refl) (IsHeld-shapes u.machine.frames counted u.held shapes s.blocks) in
          subst (λ k. Keeps u quiet (record u { machine = k }))
            (ap (λ k. record u.machine { frames = k }) (sym same) ∙ ap (λ r. r.1) e)
            (kept, λ x. refl, λ y lt. refl)
    ]

Refines-IsSound :
    (u : State) (c : Contents) (g : Mapping) (w : Words) (f : Pmm)
    → IsSound u
    → Refines (holding u) u.machine.current_cr3 c g w f
    → IsSound (record u { machine = record u.machine { words = w; frames = f } })
Refines-IsSound u c g w f s r = record {
  mapped =
      IsMapped-conserved (pa_to_va u.machine.current_cr3) w f f r.mapped.well r.mapped.low
        (SameShapes-refl f.segtab) (λ x. refl) r.mapped;
  blocks = IsHeld-shapes u.machine.frames f u.held r.mapped.shapes s.blocks;
}

write-Keeps :
    (u : State) (xs : List Held) (b : Held) (ys : List Held) (y v : ℕ)
    → IsSound u
    → u.held ≡ xs ++ (b ∷ ys)
    → b.address ≤ y
    → y + 8 ≤ b.address + b.bytes
    → Keeps u quiet
        (record u { machine = record u.machine { words = put u.machine.words (pa_to_va y) v } })
write-Keeps u xs b ys y v s e lo hi =
    let m = u.machine in
    let hb = (All-append-split m.frames xs b ys (rw e at s.blocks)).0 in
    let low : y < 2 ^ 47 = omega (arith, IsHeld-low u b s hb) in
    let is_held : 0 < cover_held u.held y = omega (
      arith,
      ap (λ l. cover_held l y) e,
      cover_held-split xs b ys y,
      held_at-inside m.frames b y hb lo (omega arith),
    ) in
    let same : (x : ℕ)
        → translate (put m.words (pa_to_va y) v) m.current_cr3 x
          ≡ translate m.words m.current_cr3 x =
      λ x.
        translate-leaf_at (put m.words (pa_to_va y) v) m.current_cr3 x
        ∙ leaf_at-beside m.words (pa_to_va m.current_cr3) m.frames s.mapped y v low is_held
            (path_of x) (table_index 12 x) (omega arith) (path_of-Indices x) (table_index-lt 12 x)
        ∙ sym (translate-leaf_at m.words m.current_cr3 x) in
    (
      record {
        mapped = IsMapped-beside m.words (pa_to_va m.current_cr3) m.frames s.mapped y v low is_held;
        blocks = s.blocks;
      },
      same,
      λ z lt. same (pa_to_va z),
    )

map-Keeps :
    (u : State) (m : Machine) (n va pa flags r : ℕ)
    → IsSound u
    → va < 2 ^ 47
    → va + n * 0x1000 ≤ 2 ^ 47
    → pa + n * 0x1000 < 2 ^ 64
    → mmap pa va n flags u.machine ≡ some (r, m)
    → Keeps u (maps n va pa (bit_or flags 4)) (record u { machine = m })
map-Keeps u m n va pa flags r s low hv hp run =
    let (r', w, f, run', (o, _, direct)) =
      mmap-LowerOutcome u.machine n va pa flags s.mapped low hv hp in
    let e = ap (λ x. x.1) (some-injective _ _ (sym run' ∙ run)) in
    subst (λ k. Keeps u (maps n va pa (bit_or flags 4)) (record u { machine = k })) e
      (Refines-IsSound u _ _ w f s o.view, (o.count, o.count_le, o.view.view), direct)

unmap-Keeps :
    (u : State) (m : Machine) (fuel va bytes : ℕ)
    → IsSound u
    → va + bytes + 0xFFF ≤ 2 ^ 47
    → (bytes + 0xFFF) / 0x1000 < fuel
    → munmap fuel va bytes u.machine ≡ some m
    → Keeps u (unmaps ((bytes + 0xFFF) / 0x1000) va) (record u { machine = m })
unmap-Keeps u m fuel va bytes s room enough run =
    let (w, run', o, direct) = munmap-KeepsDirect fuel u.machine va bytes s.mapped room enough in
    let e = some-injective _ _ (sym run' ∙ run) in
    subst (λ k. Keeps u (unmaps ((bytes + 0xFFF) / 0x1000) va) (record u { machine = k })) e
      (Refines-IsSound u _ _ w u.machine.frames s o, o.view, direct)

release-Keeps :
    (u : State) (m : Machine) (xs : List Held) (b : Held) (ys : List Held)
    → IsSound u
    → u.held ≡ xs ++ (b ∷ ys)
    → free_virtual (pa_to_va b.address) b.bytes u.machine ≡ some m
    → Keeps u quiet (record { machine = m; held = xs ++ ys })
release-Keeps u m xs b ys s e run =
    let (f, run', s') = release-IsSound u xs b ys s e in
    subst (λ k. Keeps u quiet (record { machine = k; held = xs ++ ys }))
      (some-injective _ _ (sym run' ∙ run)) (s', λ x. refl, λ y lt. refl)

pub Step-Keeps : {u v : State} {c : Call} → IsSound u → Step u c v → Keeps u c v
Step-Keeps {u} s (allocate {m} n v h run ne) = allocate-Keeps u m n v s h run ne
Step-Keeps {u} s (refused {m} n h run) = refused-Keeps u m n s h run
Step-Keeps {u} s (release {m} xs b ys e run) = release-Keeps u m xs b ys s e run
Step-Keeps {u} s (write xs b ys y v e lo hi) = write-Keeps u xs b ys y v s e lo hi
Step-Keeps {u} s (map {m} n va pa flags r low hv hp run) =
    map-Keeps u m n va pa flags r s low hv hp run
Step-Keeps {u} s (unmap {m} fuel va bytes room enough run) =
    unmap-Keeps u m fuel va bytes s room enough run
