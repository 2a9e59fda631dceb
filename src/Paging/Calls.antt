-- ===== src/Paging/Calls.antt =====
-- Histories of calls of mm/vmm.cpp by callers that also write, through the direct map, to the memory
-- that they hold, and what each call is to do to the mapping. The calls of `mmap` and `munmap` are for
-- addresses of the lower half, so that the direct map stays.
pub mod Sound
pub mod Steps
pub mod Trace
use helix_kernel.Prelude.{ℕ, ◌+◌, ◌*◌, ◌/◌, ◌^◌, ◌≤◌, ◌<◌, ◌≡◌, ◌≢◌, List, [], ◌∷◌, ◌++◌, All, some}
use Prim.Native.Nat.{bit_or}
use helix_kernel.Vmm.{va_to_pa, pa_to_va}
use helix_kernel.Pmm.{word}
use helix_kernel.Pmm.Run.{Held, IsHeld, cover_held}
use helix_kernel.Paging.{Machine, put, alloc_virtual, free_virtual, mmap, munmap}
use helix_kernel.Paging.Walk.{translate}
use helix_kernel.Paging.Tree.{Holding, IsMapped}
use helix_kernel.Paging.Tree.View.{Mapping, mapped, unmapped}

-- The machine, and the blocks that callers hold, by their physical addresses.
pub record State : Type 0 where
  pub machine : Machine
  pub held : List Held

-- What a call is to do to the mapping: nothing; or to put in up to `n` pages; or to take out `n`.
pub data Call : Type 0 where
  quiet : Call
  maps : (n va pa flags : ℕ) → Call
  unmaps : (n va : ℕ) → Call

pub data Step : State → Call → State → Type 0 where
  allocate :
      {u : State} {m : Machine} (n v : ℕ)
      → n + 0xfff < word
      → alloc_virtual n u.machine ≡ some (v, m)
      → v ≢ pa_to_va 0
      → Step u quiet
          (record { machine = m; held = record { address = va_to_pa v; bytes = n } ∷ u.held })
  refused :
      {u : State} {m : Machine} (n : ℕ)
      → n + 0xfff < word
      → alloc_virtual n u.machine ≡ some (pa_to_va 0, m)
      → Step u quiet (record u { machine = m })
  release :
      {u : State} {m : Machine} (xs : List Held) (b : Held) (ys : List Held)
      → u.held ≡ xs ++ (b ∷ ys)
      → free_virtual (pa_to_va b.address) b.bytes u.machine ≡ some m
      → Step u quiet (record { machine = m; held = xs ++ ys })
  write :
      {u : State} (xs : List Held) (b : Held) (ys : List Held) (y v : ℕ)
      → u.held ≡ xs ++ (b ∷ ys)
      → b.address ≤ y
      → y + 8 ≤ b.address + b.bytes
      → Step u quiet
          (record u { machine = record u.machine { words = put u.machine.words (pa_to_va y) v } })
  map :
      {u : State} {m : Machine} (n va pa flags r : ℕ)
      → va < 2 ^ 47
      → va + n * 0x1000 ≤ 2 ^ 47
      → pa + n * 0x1000 < 2 ^ 64
      → mmap pa va n flags u.machine ≡ some (r, m)
      → Step u (maps n va pa (bit_or flags 4)) (record u { machine = m })
  unmap :
      {u : State} {m : Machine} (fuel va bytes : ℕ)
      → va + bytes + 0xFFF ≤ 2 ^ 47
      → (bytes + 0xFFF) / 0x1000 < fuel
      → munmap fuel va bytes u.machine ≡ some m
      → Step u (unmaps ((bytes + 0xFFF) / 0x1000) va) (record u { machine = m })

pub data Run : State → List Call → State → Type 0 where
  here : {u : State} → Run u [] u
  next : {u v w : State} {c : Call} {cs : List Call} → Step u c v → Run v cs w → Run u (c ∷ cs) w

-- What the processor reads from the page tables.
abbrev pub translation : State → Mapping
translation u = translate u.machine.words u.machine.current_cr3

-- The mapping after a call. `mmap` may stop after any number of pages.
abbrev pub Allowed : Call → Mapping → Mapping → Type 0
Allowed quiet f g = (x : ℕ) → g x ≡ f x
Allowed (maps n va pa flags) f g = (k : ℕ) × (k ≤ n) × ((x : ℕ) → g x ≡ mapped k va pa flags f x)
Allowed (unmaps n va) f g = (x : ℕ) → g x ≡ unmapped n va f x

abbrev pub Follows : List Call → Mapping → Mapping → Type 0
Follows [] f h = (x : ℕ) → h x ≡ f x
Follows (c ∷ cs) f h = (g : Mapping) × Allowed c f g × Follows cs g h

abbrev pub holding : State → Holding
holding u = record { covers = cover_held u.held; segments = u.machine.frames.segtab }

-- The page tables are a tree, apart from the memory that callers hold.
pub record IsSound (u : State) : Type 0 where
  pub mapped :
      IsMapped (holding u) (pa_to_va u.machine.current_cr3) u.machine.words u.machine.frames
  pub blocks : All (IsHeld u.machine.frames) u.held
