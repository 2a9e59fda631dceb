-- ===== src/Pmm/Cover.antt =====
-- How many free blocks cover an address: the view of the free lists of mm/pmm.cpp that forgets how
-- the memory is cut into blocks and in which order the lists hold them.
use native.Mathlib.Decide.{ℕ_discrete}
use helix_kernel.Prelude.{
  ℕ, zero, suc, ◌+◌, ◌≤◌, ◌<◌, ◌≡◌, refl, true, false, List, [], ◌∷◌, arith, ltb, leb, ◌==◌, ◌&&◌,
  if◌then◌else◌,
}
use helix_kernel.Pmm.{FreeLists, block_bytes, set_list, add_block, num_orders}
use helix_kernel.Pmm.Order.{block_bytes-suc}

-- 1 if the block of this order at `b` holds the address `a`, else 0.
unfoldable pub in_block : ℕ → ℕ → ℕ → ℕ
in_block order b a = if leb b a && ltb a (b + block_bytes order) then 1 else 0

unfoldable pub cover_list : ℕ → List ℕ → ℕ → ℕ
cover_list order [] a = 0
cover_list order (b ∷ bs) a = in_block order b a + cover_list order bs a

unfoldable pub cover_below : ℕ → FreeLists → ℕ → ℕ
unfolding cover_list
cover_below zero fl a = 0
cover_below (suc n) fl a = cover_below n fl a + cover_list n (fl n) a

unfoldable pub cover : FreeLists → ℕ → ℕ
unfolding cover_below
cover = cover_below num_orders

-- A block is its two halves.
pub in_block-suc :
    (k b a : ℕ) → in_block (suc k) b a ≡ in_block k b a + in_block k (b + block_bytes k) a
unfolding in_block
in_block-suc k b a = ground (arith, block_bytes-suc k)

cover_below-set_above :
    (n : ℕ) (fl : FreeLists) (k : ℕ) (bs : List ℕ) (a : ℕ)
    → n ≤ k
    → cover_below n (set_list fl k bs) a ≡ cover_below n fl a
unfolding cover_below set_list
cover_below-set_above zero fl k bs a h = refl
cover_below-set_above (suc n) fl k bs a h =
    ground (arith, cover_below-set_above n fl k bs a (omega arith))

cover_below-set :
    (n : ℕ) (fl : FreeLists) (k : ℕ) (bs : List ℕ) (a : ℕ)
    → k < n
    → cover_below n (set_list fl k bs) a + cover_list k (fl k) a
      ≡ cover_below n fl a + cover_list k bs a
unfolding cover_below set_list
cover_below-set zero fl k bs a h = absurd (omega arith)
cover_below-set (suc n) fl k bs a h = elim (ℕ_discrete n k) [
  | yes here ↦
      let same : (n == k) ≡ true = ground arith in
      rw (same, here) (omega (arith, cover_below-set_above k fl k bs a (omega arith)))
  | no below ↦
      let other : (n == k) ≡ false = ground arith in
      rw other (omega (arith, cover_below-set n fl k bs a (omega arith)))
]

-- Replacing one list changes the cover by the difference of the two lists.
pub cover-set_list :
    (fl : FreeLists) (k : ℕ) (bs : List ℕ) (a : ℕ)
    → k < num_orders
    → cover (set_list fl k bs) a + cover_list k (fl k) a ≡ cover fl a + cover_list k bs a
unfolding cover
cover-set_list fl k bs a h = cover_below-set num_orders fl k bs a h

pub cover-add_block :
    (fl : FreeLists) (k b a : ℕ)
    → k < num_orders
    → cover (add_block fl k b) a ≡ cover fl a + in_block k b a
unfolding add_block cover_list
cover-add_block fl k b a h = omega (arith, cover-set_list fl k (b ∷ fl k) a h)
