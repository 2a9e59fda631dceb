-- ===== src/Pmm/Valid.antt =====
-- The well-formedness of a segment of mm/pmm.cpp: where its free blocks may lie.
use native.Mathlib.Decide.{ℕ_discrete, dec_lt}
use helix_kernel.Prelude.{
  ℕ, zero, suc, ◌+◌, ◌*◌, ◌≤◌, ◌<◌, ◌≡◌, List, ◌∷◌, All, arith, ◌==◌, true, false,
}
use helix_kernel.Pmm.{
  FreeLists, Segment, word, add64, block_bytes, set_list, add_block, split, num_orders,
}
use helix_kernel.Pmm.Order.{block_bytes-suc, block_bytes_mono, block_bytes_pos, add64_small}

-- The block of order `k` at `b` lies in the first `block_bytes max` bytes from `base` on, at a
-- multiple of its size.
pub record FitsAt (base max k b : ℕ) : Type 0 where
  pub index : ℕ
  pub place : b ≡ base + index * block_bytes k
  pub inside : b + block_bytes k ≤ base + block_bytes max

abbrev pub ValidLists : ℕ → ℕ → FreeLists → Type 0
ValidLists base max fl = (k : ℕ) → All (FitsAt base max k) (fl k)

-- The buddy tree of a segment lies in the segment, which does not wrap round the address space.
pub record IsValid (s : Segment) : Type 0 where
  pub max_order_lt : s.max_order < num_orders
  pub base_pos : 0 < s.base_ptr
  pub tree_in : block_bytes s.max_order ≤ s.size
  pub no_wrap : s.base_ptr + s.size < word
  pub blocks : ValidLists s.base_ptr s.max_order s.free_list

module _ (base max : ℕ) where
  pub ValidLists-set_list :
      (fl : FreeLists) (k : ℕ) (bs : List ℕ)
      → ValidLists base max fl
      → All (FitsAt base max k) bs
      → ValidLists base max (set_list fl k bs)
  unfolding set_list
  ValidLists-set_list fl k bs v new j = elim (ℕ_discrete j k) [
    | yes here ↦ let e : (j == k) ≡ true = ground arith in rw (e, here) new
    | no other ↦ let e : (j == k) ≡ false = ground arith in rw e (v j)
  ]

  pub ValidLists-add_block :
      (fl : FreeLists) (k b : ℕ)
      → ValidLists base max fl
      → FitsAt base max k b
      → ValidLists base max (add_block fl k b)
  unfolding add_block
  ValidLists-add_block fl k b v new = ValidLists-set_list fl k (b ∷ fl k) v (new, v k)

  -- The halves of a block.
  pub FitsAt-lower : (k b : ℕ) → FitsAt base max (suc k) b → FitsAt base max k b
  FitsAt-lower k b f = record {
    index = f.index * 2;
    place = omega (arith, f.place, half f.index);
    inside = omega (arith, f.inside, block_bytes-suc k);
  }
    where
      half : (q : ℕ) → q * 2 * block_bytes k ≡ q * block_bytes (suc k)
      half q = rw (block_bytes-suc k) (omega arith)

  pub FitsAt-upper : (k b : ℕ) → FitsAt base max (suc k) b → FitsAt base max k (b + block_bytes k)
  FitsAt-upper k b f = record {
    index = f.index * 2 + 1;
    place = omega (arith, f.place, half f.index);
    inside = omega (arith, f.inside, block_bytes-suc k);
  }
    where
      half : (q : ℕ) → (q * 2 + 1) * block_bytes k ≡ q * block_bytes (suc k) + block_bytes k
      half q = rw (block_bytes-suc k) (omega arith)

  pub split-valid :
      (d order b : ℕ) (fl : FreeLists)
      → base + block_bytes max ≤ word
      → ValidLists base max fl
      → FitsAt base max (order + d) b
      → ValidLists base max (split d order b fl) × FitsAt base max order b
  unfolding split
  split-valid zero order b fl w v f = let e : order + 0 ≡ order = omega arith in (v, rw e at f)
  split-valid (suc d) order b fl w v f =
      let e : order + suc d ≡ suc (order + d) = omega arith in
      let f' : FitsAt base max (suc (order + d)) b = rw e at f in
      let upper : add64 b (block_bytes (order + d)) ≡ b + block_bytes (order + d) =
        add64_small _ _
          (omega (arith, block_bytes_pos (order + d), block_bytes-suc (order + d), f'.inside)) in
      rw upper (
        split-valid d order b (add_block fl (order + d) (b + block_bytes (order + d))) w
          (ValidLists-add_block fl (order + d) _ v (FitsAt-upper (order + d) b f'))
          (FitsAt-lower (order + d) b f'))

-- No block is larger than the tree that it lies in.
pub FitsAt-le : (base max k b : ℕ) → FitsAt base max k b → k ≤ max
FitsAt-le base max k b f = elim (dec_lt max k) [
  | yes big ↦ absurd (
      omega (
        arith,
        f.place,
        f.inside,
        block_bytes_mono {j = suc max} {k = k} big,
        block_bytes-suc max,
        block_bytes_pos max,
      ))
  | no small ↦ omega arith
]
