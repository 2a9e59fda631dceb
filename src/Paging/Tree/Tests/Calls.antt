-- ===== src/Paging/Tree/Tests/Calls.antt =====
-- A caller of mm/vmm.cpp that takes a page and writes to it.
use helix_kernel.Prelude.{[], ◌∷◌}
use helix_kernel.Vmm.{pa_to_va, va_to_pa}
use helix_kernel.Pmm.{Pmm, set_list, split}
use helix_kernel.Paging.{put}
use helix_kernel.Pmm.Run.{Held}
use helix_kernel.Paging.Calls.{State, Run}
use helix_kernel.Paging.Tree.Tests.{segment, frames, nothing, machine}

abbrev start : State
start = record { machine = machine; held = [] }

-- The allocator after the first page is taken.
abbrev fewer : Pmm
fewer = record {
  segtab =
      record segment {
        pages_used = 1;
        free_list = split 2 0 0x8000 (set_list segment.free_list 2 []);
      }
      ∷ [];
  total_mem = 4;
  num_used = 1;
  num_errors = 0;
}

abbrev block : Held
block = record { address = va_to_pa (pa_to_va 0x8000); bytes = 0x1000 }

abbrev owner : State
owner = record { machine = record machine { frames = fewer }; held = block ∷ [] }

abbrev writer : State
writer = record {
  machine = record machine { words = put nothing (pa_to_va 0x8000) 7; frames = fewer };
  held = block ∷ [];
}
