-- ===== src/Paging/Tests.antt =====
-- The theorems on the page tables at a machine with four tables for the lowest addresses.
use helix_kernel.Prelude.{
  ℕ, zero, suc, All, ◌+◌, ◌≡◌, refl, false, some, [], ◌∷◌, ◌==◌, if◌then◌else◌, arith,
}
use helix_kernel.Vmm.{pa_to_va}
use helix_kernel.Pmm.{
  Pmm, Segment, alloc, order_of, order_loop, pages_of, alloc_segments, finish_alloc, add64,
  block_bytes,
}
use helix_kernel.Pmm.Valid.{FitsAt}
use helix_kernel.Pmm.Table.{IsWell, AllocOutcome}
use helix_kernel.Paging.{Machine, put, liballoc_alloc}
use helix_kernel.Paging.Allocate.{liballoc_alloc-page}

abbrev direct : ℕ
direct = 0xFFFF800000000000

abbrev one_frame : Segment
one_frame = record {
  base_ptr = 0x8000;
  size = 0x1000;
  pages_used = 0;
  free_list = λ k. if k == 0 then 0x8000 ∷ [] else [];
  max_order = 0;
}

abbrev frames : Pmm
frames = record { segtab = one_frame ∷ []; total_mem = 0x1000; num_used = 0; num_errors = 0 }

abbrev machine : Machine
machine = record {
  words =
      put (put (put (λ x. 0) (direct + 0x1000) 0x2003) (direct + 0x2000) 0x3003) (direct + 0x3000)
        0x4003;
  frames = frames;
  kernel_cr3 = 0x1000;
  current_cr3 = 0x1000;
}

one_block : (k : ℕ) → All (FitsAt 0x8000 0 k) (one_frame.free_list k)
unfolding block_bytes
one_block zero = (record { index = 0; place = refl; inside = omega arith }, tt)
one_block (suc k) = let b : (suc k == 0) ≡ false = ground arith in rw b tt

frames-IsWell : IsWell frames
unfolding block_bytes
frames-IsWell = record {
  valid = (
    record {
      max_order_lt = omega arith;
      base_pos = omega arith;
      tree_in = omega arith;
      no_wrap = omega arith;
      blocks = one_block;
    },
    tt,
  );
  separate = (tt, tt);
}

liballoc_alloc-page_example :
    (b : ℕ) × (m' : Machine) × (liballoc_alloc 16 machine ≡ some (pa_to_va b, m'))
    × AllocOutcome 0 frames (b, m'.frames)
liballoc_alloc-page_example =
    liballoc_alloc-page 16 machine frames-IsWell (omega arith) (omega arith)

abbrev no_frames : Pmm
no_frames = record { segtab = []; total_mem = 0; num_used = 0; num_errors = 0 }

no_frames-alloc : alloc 0x2000 no_frames ≡ some (0, record no_frames { num_errors = 1 })
unfolding alloc order_of order_loop pages_of alloc_segments finish_alloc add64
no_frames-alloc = refl
