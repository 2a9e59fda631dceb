-- ===== src/Pmm/Linked/World.antt =====
-- Histories of calls of `alloc` and `free` of mm/pmm.cpp with the free lists in memory, to which
-- the callers write as well.
use helix_kernel.Prelude.{ℕ, ◌+◌, ◌≤◌, ◌<◌, ◌≡◌, Option, none, some, List, [], ◌∷◌, ◌++◌}
use helix_kernel.Pmm.{word, order_of}
use helix_kernel.Pmm.Run.{Held, World, Step, allocate, refused, release, Reach, here, next}
use helix_kernel.Pmm.Linked.{LinkedSegment, assign, alloc_all, free_all}

-- The memory that holds the lists, the segments, and the blocks that callers hold.
pub record LinkedWorld : Type 0 where
  pub links : ℕ → ℕ
  pub segments : List LinkedSegment
  pub held : List Held

-- A call returns what it returns with every fuel from some number on.
pub data LinkedStep : LinkedWorld → LinkedWorld → Type 0 where
  takes :
      {w : LinkedWorld} {l : ℕ → ℕ} {gs : List LinkedSegment} (n o p : ℕ)
      → n + 0xfff < word
      → order_of n ≡ some o
      → alloc_all o w.links w.segments ≡ some (p, l, gs)
      → LinkedStep w
          (record { links = l; segments = gs; held = record { address = p; bytes = n } ∷ w.held })
  fails :
      {w : LinkedWorld} (n o : ℕ)
      → n + 0xfff < word
      → order_of n ≡ some o
      → alloc_all o w.links w.segments ≡ none
      → LinkedStep w w
  gives :
      {w : LinkedWorld} {l : ℕ → ℕ} {gs : List LinkedSegment} (xs : List Held) (b : Held)
      (ys : List Held) (o fuel : ℕ) (r : Option ℕ)
      → w.held ≡ xs ++ (b ∷ ys)
      → order_of b.bytes ≡ some o
      → ((more : ℕ) → fuel ≤ more → free_all more o b.address w.links w.segments ≡ some (r, l, gs))
      → LinkedStep w (record { links = l; segments = gs; held = xs ++ ys })
  writes :
      {w : LinkedWorld} (xs : List Held) (b : Held) (ys : List Held) (y v : ℕ)
      → w.held ≡ xs ++ (b ∷ ys)
      → b.address ≤ y
      → y + 8 ≤ b.address + b.bytes
      → LinkedStep w (record w { links = assign w.links y v })

pub data LinkedReach (w : LinkedWorld) : LinkedWorld → Type 0 where
  begin : LinkedReach w w
  also : {u v : LinkedWorld} → LinkedReach w u → LinkedStep u v → LinkedReach w v

-- A call with its answer.
pub data Answered : Type 0 where
  gave : (bytes address : ℕ) → Answered
  denied : (bytes : ℕ) → Answered
  took_back : (address bytes : ℕ) → Answered

-- The calls of a history on sequences, the last one first.
unfoldable pub answer : {u v : World} → Step u v → Answered
answer (allocate n p h run ne) = gave n p
answer (refused n h run) = denied n
answer (release xs b ys e run) = took_back b.address b.bytes

unfoldable pub calls : {u v : World} → Reach u v → List Answered
calls here = []
calls (next r t) = answer t ∷ calls r

-- The calls of a history on the lists in memory, without the writes of callers.
unfoldable pub with_answer : {u v : LinkedWorld} → LinkedStep u v → List Answered → List Answered
with_answer (takes n o p h order run) cs = gave n p ∷ cs
with_answer (fails n o h order run) cs = denied n ∷ cs
with_answer (gives xs b ys o fuel r e order run) cs = took_back b.address b.bytes ∷ cs
with_answer (writes xs b ys y v e lo hi) cs = cs

unfoldable pub linked_calls : {u v : LinkedWorld} → LinkedReach u v → List Answered
linked_calls begin = []
linked_calls (also r t) = with_answer t (linked_calls r)
