-- ===== src/Pmm/Linked/Split.antt =====
-- Splitting a block on the free lists of mm/pmm.cpp in memory.
use helix_kernel.Prelude.{ℕ, zero, suc, ◌+◌, ◌≤◌, ◌<◌, ◌≡◌, arith, ap, refl, ◌∙◌}
use helix_kernel.Pmm.{FreeLists, word, add64, block_bytes, add_block, split, num_orders}
use helix_kernel.Pmm.Order.{block_bytes-suc, block_bytes_pos, add64_small}
use helix_kernel.Pmm.Cover.{in_block, cover, in_block-suc, cover-add_block}
use helix_kernel.Pmm.Valid.{
  FitsAt, ValidLists, ValidLists-add_block, FitsAt-upper, FitsAt-lower, FitsAt-le,
}
use helix_kernel.Pmm.Linked.{Lists, add_linked, split_linked}
use helix_kernel.Pmm.Linked.Chain.{
  Represents, Matches, assign_other, add_linked-Represents, cover-Fresh, in_block_self,
}

module _ (base max : ℕ) (small : max < num_orders) (pos : 0 < base)
    (room : base + block_bytes max ≤ word) where
  -- The upper halves go on the lists in memory as they do on the sequences.
  pub split_linked-Matches :
      (d order b : ℕ) (s : Lists) (fl : FreeLists)
      → ValidLists base max fl
      → FitsAt base max (order + d) b
      → ((a : ℕ) → cover fl a + in_block (order + d) b a ≤ 1)
      → Represents s fl
      → Matches s
          (split_linked d order b s)
          (split d order b fl)
          (λ a. cover fl a + in_block (order + d) b a)
  unfolding split split_linked add_linked
  split_linked-Matches zero order b s fl v f once r = record { represents = r; kept = λ y e. refl }
  split_linked-Matches (suc d) order b s fl v f once r =
      let k = order + d in
      let e : order + suc d ≡ suc k = omega arith in
      let f' : FitsAt base max (suc k) b = rw e at f in
      let half = b + block_bytes k in
      let upper : add64 b (block_bytes k) ≡ half =
        add64_small _ _ (omega (arith, block_bytes_pos k, block_bytes-suc k, f'.inside)) in
      let whole : (a : ℕ) → cover fl a + (in_block k b a + in_block k half a) ≤ 1 =
        λ a. omega (arith, once a, in_block-suc k b a, ap (λ n. in_block n b a) e) in
      let fresh =
        cover-Fresh base max fl half small v (omega (arith, whole half, in_block_self k half)) in
      let low : k < num_orders = omega (arith, FitsAt-le base max (suc k) b f') in
      let rest =
        split_linked-Matches d order b (add_linked k half s) (add_block fl k half)
          (ValidLists-add_block base max fl k half v (FitsAt-upper base max k b f'))
          (FitsAt-lower base max k b f')
          (λ a. omega (arith, whole a, cover-add_block fl k half a low))
          (add_linked-Represents s fl k half (λ z. omega (arith, z, block_bytes_pos k)) fresh r) in
      rw (split_linked, upper)
        (record {
          represents = rest.represents;
          kept = λ y unused.
              let outside : cover fl y + (in_block k b y + in_block k half y) ≡ 0 =
                omega (arith, unused, in_block-suc k b y, ap (λ n. in_block n b y) e) in
              rest.kept y (omega (arith, outside, cover-add_block fl k half y low))
              ∙ assign_other s.links half (s.heads k) y (λ same.
                omega (arith, outside, in_block_self k half, ap (λ x. in_block k half x) same));
        })
