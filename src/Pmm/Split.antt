-- ===== src/Pmm/Split.antt =====
-- Splitting a block: the loop of `alloc` gives back everything but the block of the wanted order.
use helix_kernel.Prelude.{ℕ, zero, suc, ◌+◌, ◌≤◌, ◌≡◌, arith, ap}
use helix_kernel.Pmm.{FreeLists, word, add64, block_bytes, add_block, split, num_orders}
use helix_kernel.Pmm.Order.{block_bytes-suc, block_bytes_pos, add64_small}
use helix_kernel.Pmm.Cover.{in_block, cover, in_block-suc, cover-add_block}

-- The upper halves that go on the lists and the block that is left make up the block that was cut.
pub cover-split :
    (d order b : ℕ) (fl : FreeLists) (a : ℕ)
    → order + d ≤ num_orders
    → b + block_bytes (order + d) ≤ word
    → cover (split d order b fl) a + in_block order b a ≡ cover fl a + in_block (order + d) b a
unfolding split
cover-split zero order b fl a h fits = let e : order + 0 ≡ order = omega arith in rw e
cover-split (suc d) order b fl a h fits =
    let k = order + d in
    let e : order + suc d ≡ suc (order + d) = omega arith in
    let fits' : b + block_bytes (order + d) + block_bytes (order + d) ≤ word =
      omega (arith, block_bytes-suc (order + d), ap (λ n. block_bytes n) e) in
    let upper : add64 b (block_bytes (order + d)) ≡ b + block_bytes (order + d) =
      add64_small _ _ (omega (arith, block_bytes_pos (order + d))) in
    rw (e, upper)
      (omega (
        arith,
        cover-split d order b (add_block fl (order + d) (b + block_bytes (order + d))) a
            (omega arith) (omega (arith, block_bytes_pos (order + d))),
        cover-add_block fl (order + d) (b + block_bytes (order + d)) a (omega arith),
        in_block-suc (order + d) b a,
      ))
