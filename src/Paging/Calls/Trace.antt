-- ===== src/Paging/Calls/Trace.antt =====
-- What any calls of mm/vmm.cpp do to the mapping and to the memory that callers hold.
use helix_kernel.Prelude.{List}
use helix_kernel.Paging.Calls.{State, Call, Run, here, next, IsSound}
use helix_kernel.Paging.Calls.Steps.{Step-Keeps}

pub Run-IsSound : {u v : State} {cs : List Call} → IsSound u → Run u cs v → IsSound v
Run-IsSound s here = s
Run-IsSound s (next t r) = Run-IsSound (Step-Keeps s t).0 r
