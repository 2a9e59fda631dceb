-- ===== src/Paging/Tree/Tests.antt =====
-- The calls of mm/vmm.cpp on an empty root, with an allocator that has four pages.
mod Calls
mod Leak
use Prim.Native.Nat.{bit_or}
use native.Mathlib.Decide.{ℕ_discrete}
use mathlib.Core.Option.{some-injective, none-ne-some}
use helix_kernel.Prelude.{
  ◌^◌, false, ℕ, ◌+◌, ◌*◌, ◌/◌, ◌≤◌, ◌<◌, ◌≡◌, refl, sym, ◌∙◌, true, false, none, some, List, All,
  [], ◌∷◌, ◌==◌, if◌then◌else◌, arith,
}
use helix_kernel.Vmm.{pa_to_va, va_to_pa}
use helix_kernel.Pmm.{
  Pmm, Segment, block_bytes, set_list, split, alloc, order_of, order_loop, pages_of, alloc_segments,
  alloc_segment, or_else, find_block, take_block, finish_alloc, add64, FreeLists, add_block,
}
use helix_kernel.Pmm.Valid.{FitsAt}
use helix_kernel.Pmm.Cover.{in_block, cover_list, cover_below, cover}
use helix_kernel.Pmm.Memory.{cover_all, SameShapes-refl}
use helix_kernel.Pmm.Table.{IsWell}
use helix_kernel.Paging.{
  Words, Machine, mmap, munmap, is_present, slot, follow, leaf_slot, put, alloc_virtual, clear,
  table_entry, kernel_map, kernel_unmap, map_pages, map_page, set_leaf, get_or_create_table,
  create_table, next_table, table_index,
}
use helix_kernel.Paging.Walk.{translate}
use helix_kernel.Paging.Tree.{Holding, walk, IsMapped, InUse, walk-nil, walk-absent}
use helix_kernel.Paging.Tree.View.{Refines, unmapped}
use helix_kernel.Paging.Tree.Table.{Runs}
use helix_kernel.Paging.Tree.Lower.{
  LowerOutcome, KeepsDirect, mmap-LowerOutcome, munmap-KeepsDirect,
}
use helix_kernel.Paging.Tree.Leak.{kernel_map-kernel_unmap}
use helix_kernel.Paging.Range.{leaf}
use helix_kernel.Paging.Tree.Page.{IsMapped-conserved, pa_to_va_low}
use helix_kernel.Paging.Create.{inside}
use helix_kernel.Pmm.Run.{Held, cover_held}
use helix_kernel.Paging.Calls.{
  State, Step, quiet, allocate, write, Run, here, next, translation, Follows, IsSound,
}
use helix_kernel.Paging.Calls.Sound.{va_to_pa_low}
use helix_kernel.Paging.Tree.Restore.{mmap-munmap}

abbrev pub segment : Segment
segment = record {
  base_ptr = 0x8000;
  size = 0x4000;
  pages_used = 0;
  free_list = λ k. if k == 2 then 0x8000 ∷ [] else [];
  max_order = 2;
}

abbrev pub frames : Pmm
frames = record { segtab = segment ∷ []; total_mem = 4; num_used = 0; num_errors = 0 }

-- Callers hold no memory.
abbrev pub none_held : Holding
none_held = record { covers = λ x. 0; segments = frames.segtab }

abbrev pub nothing : Words
nothing a = 0

abbrev pub machine : Machine
machine = record { words = nothing; frames = frames; kernel_cr3 = 0x1000; current_cr3 = 0x1000 }

pub segment-blocks : (k : ℕ) → All (FitsAt 0x8000 2 k) (segment.free_list k)
unfolding block_bytes
segment-blocks k = elim (ℕ_discrete k 2) [
  | yes two ↦
      let b : (k == 2) ≡ true = ground arith in
      rw (b, two) (record { index = 0; place = refl; inside = omega arith }, tt)
  | no other ↦ let b : (k == 2) ≡ false = ground arith in rw b tt
]

pub frames-IsWell : IsWell frames
unfolding block_bytes
frames-IsWell = record {
  valid = (
    record {
      max_order_lt = omega arith;
      base_pos = omega arith;
      tree_in = omega arith;
      no_wrap = omega arith;
      blocks = segment-blocks;
    },
    tt,
  );
  separate = (tt, tt);
}

pub frames-cover : (x : ℕ) → cover_all frames.segtab x ≡ in_block 2 0x8000 x
unfolding cover_all cover cover_below cover_list
frames-cover x = omega arith

pub in_block-le : (x : ℕ) → in_block 2 0x8000 x ≤ 1
unfolding in_block
in_block-le x = ground arith

pub in_block-below : (x : ℕ) → x < 0x8000 → in_block 2 0x8000 x ≡ 0
unfolding in_block
in_block-below x lt = ground arith

pub follow-nothing : (at : ℕ) → follow nothing at ≡ none
unfolding follow is_present
follow-nothing at = refl

pub walk-nothing : (t u : ℕ) (p : List ℕ) → walk nothing t p ≡ some u → (p ≡ []) × (u ≡ t)
walk-nothing t u [] e = (refl, some-injective _ _ (sym e ∙ walk-nil nothing t))
walk-nothing t u (i ∷ p) e =
    absurd (none-ne-some _ (sym (walk-absent nothing t i p (follow-nothing (slot t i))) ∙ e))

pub root-InUse : InUse none_held frames (pa_to_va 0x1000)
root-InUse = record {
  page = 0x1000;
  address = refl;
  aligned = refl;
  low = omega arith;
  used = λ x lo hi. omega (arith, frames-cover x, in_block-below x (omega arith));
}

pub machine-IsMapped : IsMapped none_held (pa_to_va 0x1000) nothing frames
machine-IsMapped = record {
  well = frames-IsWell;
  shapes = SameShapes-refl frames.segtab;
  once = λ x. omega (arith, frames-cover x, in_block-le x);
  low = (record { aligned = refl; low = omega arith }, tt);
  tree = record {
    in_use = λ p t l hp e. rw ((walk-nothing (pa_to_va 0x1000) t p e).1) root-InUse;
    apart = λ p q t lp lq hp hq ep eq.
        (walk-nothing (pa_to_va 0x1000) t p ep).0 ∙ sym ((walk-nothing (pa_to_va 0x1000) t q eq).0);
  };
}

mmap-LowerOutcome_example :
    Runs machine (mmap 0x7000 0x5000 2 3 machine) (LowerOutcome none_held machine 2 0x5000 0x7000 3)
mmap-LowerOutcome_example =
    mmap-LowerOutcome machine 2 0x5000 0x7000 3 machine-IsMapped (omega arith) (omega arith)
      (omega arith)

munmap-KeepsDirect_example :
    (w : Words) × (munmap 3 0x5000 0x1800 machine ≡ some (record machine { words = w }))
    × Refines none_held 0x1000 nothing
        (unmapped ((0x1800 + 0xFFF) / 0x1000) 0x5000 (translate nothing 0x1000))
        w
        frames
    × KeepsDirect (translate nothing 0x1000) (translate w 0x1000)
munmap-KeepsDirect_example =
    munmap-KeepsDirect 3 machine 0x5000 0x1800 machine-IsMapped (omega arith) (omega arith)

translate-nothing : (x : ℕ) → translate nothing 0x1000 x ≡ none
unfolding translate leaf_slot follow is_present
translate-nothing x = refl

mmap-munmap_example :
    (r : ℕ) × (m1 : Machine) × (m2 : Machine) × (mmap 0x7000 0x5000 2 3 machine ≡ some (r, m1))
    × (munmap 3 0x5000 (2 * 0x1000) m1 ≡ some m2)
    × IsMapped none_held (pa_to_va 0x1000) m2.words m2.frames
    × ((x : ℕ) → translate m2.words 0x1000 x ≡ translate nothing 0x1000 x)
    × ((y : ℕ) → y < 2 ^ 47 → 0 < none_held.covers y → m2.words (pa_to_va y) ≡ 0)
mmap-munmap_example =
    mmap-munmap 3 machine 2 0x5000 0x7000 3 machine-IsMapped (omega arith) (omega arith)
      (omega arith) (λ x inside. translate-nothing x)
