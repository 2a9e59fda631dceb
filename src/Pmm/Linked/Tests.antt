-- ===== src/Pmm/Linked/Tests.antt =====
-- The lists of mm/pmm.cpp in memory, on a segment of two pages.
use native.Mathlib.Decide.{ℕ_discrete}
use helix_kernel.Prelude.{
  ℕ, ◌≤◌, ◌≡◌, refl, some, [], ◌∷◌, All, arith, true, false, ◌==◌, if◌then◌else◌,
}
use helix_kernel.Pmm.{Pmm, Segment, block_bytes, add64}
use helix_kernel.Pmm.Order.{order_of-page}
use helix_kernel.Pmm.Cover.{in_block, cover, cover_below, cover_list}
use helix_kernel.Pmm.Valid.{FitsAt}
use helix_kernel.Pmm.Memory.{cover_all}
use helix_kernel.Pmm.Table.{IsWell}
use helix_kernel.Pmm.Run.{Held}
use helix_kernel.Pmm.Linked.{
  LinkedSegment, assign, alloc_all, alloc_linked, find_head, remove_block, split_linked, add_linked,
}
use helix_kernel.Pmm.Linked.Chain.{Chain}
use helix_kernel.Pmm.Linked.Memory.{AllStored}
use helix_kernel.Pmm.Linked.World.{
  took_back, linked_calls, LinkedWorld, LinkedStep, takes, writes, LinkedReach, begin, also,
}
use helix_kernel.Pmm.Linked.Stands.{Stands}
use helix_kernel.Pmm.Linked.Run.{LinkedReach-Stands, Stands-gives}

abbrev segment : Segment
segment = record {
  base_ptr = 0x8000;
  size = 0x2000;
  pages_used = 0;
  free_list = λ k. if k == 1 then 0x8000 ∷ [] else [];
  max_order = 1;
}

abbrev frames : Pmm
frames = record { segtab = segment ∷ []; total_mem = 2; num_used = 0; num_errors = 0 }

abbrev linked : LinkedSegment
linked = record {
  base_ptr = 0x8000;
  size = 0x2000;
  pages_used = 0;
  heads = λ k. if k == 1 then 0x8000 else 0;
  max_order = 1;
}

-- The words of the memory.
abbrev words : ℕ → ℕ
words a = 0

segment-blocks : (k : ℕ) → All (FitsAt 0x8000 1 k) (segment.free_list k)
unfolding block_bytes
segment-blocks k = elim (ℕ_discrete k 1) [
  | yes one ↦
      let b : (k == 1) ≡ true = ground arith in
      rw (b, one) (record { index = 0; place = refl; inside = omega arith }, tt)
  | no other ↦ let b : (k == 1) ≡ false = ground arith in rw b tt
]

frames-IsWell : IsWell frames
unfolding block_bytes
frames-IsWell = record {
  valid = (
    record {
      max_order_lt = omega arith;
      base_pos = omega arith;
      tree_in = omega arith;
      no_wrap = omega arith;
      blocks = segment-blocks;
    },
    tt,
  );
  separate = (tt, tt);
}

frames-cover : (a : ℕ) → cover_all frames.segtab a ≤ 1
unfolding cover_all cover cover_below cover_list in_block
frames-cover a = ground arith

linked-Chain : (k : ℕ) → Chain words (linked.heads k) (segment.free_list k)
linked-Chain k = elim (ℕ_discrete k 1) [
  | yes one ↦ let b : (k == 1) ≡ true = ground arith in rw b (refl, (omega arith), refl)
  | no other ↦ let b : (k == 1) ≡ false = ground arith in rw b refl
]

linked-Stored : AllStored words (linked ∷ []) frames.segtab
linked-Stored =
    (record { base = refl; size = refl; used = refl; max = refl; lists = linked-Chain }, tt)

abbrev first : LinkedWorld
first = record { links = words; segments = linked ∷ []; held = [] }

-- The upper page is on the list of order 0, its `next` at 0x9000.
abbrev left : LinkedSegment
left = record linked { pages_used = 1; heads = assign (assign linked.heads 1 0) 0 0x9000 }

abbrev block : Held
block = record { address = 0x8000; bytes = 0x1000 }

abbrev after_alloc : LinkedWorld
after_alloc = record { links = assign words 0x9000 0; segments = left ∷ []; held = block ∷ [] }

abbrev after_write : LinkedWorld
after_write = record after_alloc { links = assign (assign words 0x9000 0) 0x8000 7 }

first_alloc : alloc_all 0 words (linked ∷ []) ≡ some (0x8000, assign words 0x9000 0, left ∷ [])
unfolding alloc_all alloc_linked find_head remove_block split_linked add_linked assign add64
    block_bytes
first_alloc = refl

alloc_and_write : LinkedReach first after_write
alloc_and_write =
    also {v = after_write}
      (also {v = after_alloc} begin (
        takes {w = first} 0x1000 0 0x8000 (omega arith)
          (order_of-page 0x1000 (omega arith) (omega arith)) first_alloc))
      (writes {w = after_alloc} [] block [] 0x8000 7 refl (omega arith) (omega arith))

LinkedReach-Stands_example : Stands frames after_write (linked_calls alloc_and_write)
LinkedReach-Stands_example =
    LinkedReach-Stands frames words (linked ∷ []) frames-IsWell frames-cover linked-Stored
      alloc_and_write

Stands-gives_example :
    (v : LinkedWorld) × LinkedStep after_write v
    × (v.held ≡ [])
    × Stands frames v (took_back 0x8000 0x1000 ∷ linked_calls alloc_and_write)
Stands-gives_example =
    Stands-gives frames after_write [] block [] frames-IsWell frames-cover
      (LinkedReach-Stands frames words (linked ∷ []) frames-IsWell frames-cover linked-Stored
        alloc_and_write)
      refl
