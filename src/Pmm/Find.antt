-- ===== src/Pmm/Find.antt =====
-- The search of `alloc` (mm/pmm.cpp) for the smallest order with a free block.
use helix_kernel.Prelude.{
  ℕ, zero, suc, ◌+◌, ◌≤◌, ◌<◌, ◌≡◌, List, [], ◌∷◌, Option, none, some, arith, List-cases, inl, inr,
}
use native.Mathlib.Decide.{ℕ_discrete}
use helix_kernel.Pmm.{FreeLists, find_block}

-- No free block in `rounds` orders from `order` on; or the first order that has one.
abbrev pub Found : ℕ → ℕ → FreeLists → Option (ℕ × ℕ × List ℕ) → Type 0
Found rounds order fl none = (k : ℕ) → order ≤ k → k < order + rounds → fl k ≡ []
Found rounds order fl (some (current, b, bs)) =
    (order ≤ current)
    × (current < order + rounds)
    × (fl current ≡ b ∷ bs)
    × ((k : ℕ) → order ≤ k → k < current → fl k ≡ [])

Found-next :
    (rounds order : ℕ) (fl : FreeLists) (o : Option (ℕ × ℕ × List ℕ))
    → fl order ≡ []
    → Found rounds (order + 1) fl o
    → Found (suc rounds) order fl o
Found-next rounds order fl none e f = λ k p q. elim (ℕ_discrete k order) [
  | yes here ↦ rw (here, e)
  | no above ↦ f k (omega arith) (omega arith)
]
Found-next rounds order fl (some (current, b, bs)) e (p, q, eq, first) = (
  omega arith,
  omega arith,
  eq,
  λ k lo hi. elim (ℕ_discrete k order) [
    | yes here ↦ rw (here, e)
    | no above ↦ first k (omega arith) hi
  ],
)

pub find_block-Found :
    (rounds order : ℕ) (fl : FreeLists) → Found rounds order fl (find_block rounds order fl)
unfolding find_block
find_block-Found zero order fl = λ k p q. absurd (omega arith)
find_block-Found (suc rounds) order fl = elim (List-cases (fl order)) [
  | inl empty ↦
      rw (empty, find_block)
        (Found-next rounds order fl _ empty (find_block-Found rounds (order + 1) fl))
  | inr (b, bs, e) ↦ rw (e, find_block) (omega arith, omega arith, e, λ k p q. absurd (omega arith))
]
