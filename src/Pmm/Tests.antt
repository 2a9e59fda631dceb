-- ===== src/Pmm/Tests.antt =====
-- Runs of mm/pmm.cpp, and the theorems at their states.
use mathlib.Core.Path.{subst}
use mathlib.Core.Option.{some-injective}
use helix_kernel.Prelude.{
  ℕ, ◌+◌, ◌-◌, ◌%◌, ◌^◌, ◌≤◌, ◌≡◌, refl, sym, ◌∙◌, some, none, List, [], ◌∷◌, arith, inl, All,
}
use helix_kernel.Pmm.{
  Segment, Pmm, add_block, set_list, split, alloc, order_of, alloc_segments, finish_alloc,
  order_loop, pages_of, add64, or_else, alloc_segment, take_block, find_block, block_bytes,
  free_segment,
}
use helix_kernel.Pmm.Memory.{cover_all}
use helix_kernel.Pmm.Table.{IsWell, AllocOutcome, alloc-outcome}
use helix_kernel.Pmm.Cycle.{IsUnused, alloc-free-unused}
use helix_kernel.Pmm.Initialise.Segments.{Fresh}
use helix_kernel.Pmm.Run.{
  cover_held, World, Held, Reach, here, next, start, allocate, Reach-exclusive,
}
use helix_kernel.Pmm.Initialise.{
  MemmapEntry, usable, other, no_blocks, initialise, init_entries, total_size, init_entry,
  place_entry, trim, make_segment, finish_segment, top_order_loop,
}
use helix_kernel.Pmm.Initialise.Table.{GoodEntry, AllApart, initialise-IsWell}
use helix_kernel.Pmm.Initialise.Fault.{initialise-fault}

abbrev entry : MemmapEntry
entry = record { kind = usable; base = 0x100000; length = 0x8000 }

-- Conventional memory below 1 MiB, a framebuffer, eight pages at 1 MiB.
abbrev memory_map : List MemmapEntry
memory_map =
    record { kind = usable; base = 0; length = 0x9f000 }
    ∷ record { kind = other; base = 0xfd000000; length = 0x400000 }
    ∷ entry
    ∷ []

abbrev segment : Segment
segment = record {
  base_ptr = 0x100000;
  size = 0x8000;
  pages_used = 0;
  free_list = add_block no_blocks 3 0x100000;
  max_order = 3;
}

abbrev boot : Pmm
boot = record { segtab = segment ∷ []; total_mem = 8; num_used = 0; num_errors = 0 }

initialise_runs : initialise memory_map ≡ some boot
unfolding initialise init_entries total_size init_entry place_entry trim make_segment finish_segment
    top_order_loop add64
initialise_runs = refl

memory_map-good : All GoodEntry memory_map
memory_map-good = ((λ _. omega arith), ((λ h. cc), ((λ _. omega arith), tt)))

memory_map-apart : AllApart memory_map
memory_map-apart = (((λ _ h. cc), ((λ _ _. inl (omega arith)), tt)), (((λ h _. cc), tt), (tt, tt)))

abbrev after_alloc : Pmm
after_alloc = record boot {
  segtab =
      record segment {
        pages_used = 2;
        free_list = split 2 1 0x100000 (set_list segment.free_list 3 []);
      }
      ∷ [];
  num_used = 2;
}

alloc_runs : alloc 5000 boot ≡ some (0x100000, after_alloc)
unfolding alloc order_of order_loop pages_of add64 finish_alloc alloc_segments or_else alloc_segment
    take_block find_block add_block set_list
alloc_runs = refl

boot-facts : IsWell boot × ((a : ℕ) → cover_all boot.segtab a ≤ 1)
boot-facts =
    let (m, run, well, fresh, once) =
      initialise-IsWell memory_map memory_map-good memory_map-apart in
    subst (λ m. IsWell m × ((a : ℕ) → cover_all m.segtab a ≤ 1))
      (some-injective _ _ (sym run ∙ initialise_runs)) (well, once)

abbrev held : Held
held = record { address = 0x100000; bytes = 5000 }

abbrev after_world : World
after_world = record { pmm = after_alloc; held = held ∷ [] }

after_world-reached : Reach (start boot) after_world
after_world-reached = next here (allocate 5000 0x100000 (omega arith) alloc_runs (omega arith))

initialise-IsWell_example :
    (m : Pmm) × (initialise memory_map ≡ some m)
    × IsWell m
    × All Fresh m.segtab
    × ((a : ℕ) → cover_all m.segtab a ≤ 1)
initialise-IsWell_example = initialise-IsWell memory_map memory_map-good memory_map-apart

Reach-exclusive_example : (cover_held [] 0x101000 ≡ 0) × (cover_all after_alloc.segtab 0x101000 ≡ 0)
Reach-exclusive_example =
    Reach-exclusive boot boot-facts.0 boot-facts.1 after_world-reached [] held [] refl 0x101000
      (omega arith) (omega arith)

alloc-outcome_example :
    (o : ℕ) × (r : ℕ × Pmm) × (alloc 5000 boot ≡ some r)
    × (order_of 5000 ≡ some o)
    × (5000 ≤ block_bytes o)
    × AllocOutcome o boot r
alloc-outcome_example = alloc-outcome 5000 boot boot-facts.0 (omega arith)

initialise-fault_example :
    initialise (
      record { kind = other; base = 0; length = 0x1000 }
      ∷ record { kind = usable; base = 0x100000; length = 0x10000000 }
      ∷ [])
    ≡ none
initialise-fault_example =
    initialise-fault (record { kind = other; base = 0; length = 0x1000 } ∷ [])
      (record { kind = usable; base = 0x100000; length = 0x10000000 }) [] (refl, tt) refl
      (omega arith) (omega arith) (omega arith)

segment-IsUnused : IsUnused segment
segment-IsUnused = record { valid = boot-facts.0.valid.0; lists = refl; none_used = refl }

alloc-free-unused_example :
    (t : Segment) × (s' : Segment) × (alloc_segment 1 segment ≡ some (0x100000, t))
    × (free_segment 1 0x100000 t ≡ some (3, s'))
    × (s'.free_list ≡ segment.free_list)
    × (s'.pages_used ≡ (2 + 2 ^ 64 - 8) % 2 ^ 64)
alloc-free-unused_example = alloc-free-unused segment segment-IsUnused 1 (omega arith)
