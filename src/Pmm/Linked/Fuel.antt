-- ===== src/Pmm/Linked/Fuel.antt =====
-- A fuel that is enough for the walks of `free` of mm/pmm.cpp.
use native.Mathlib.Decide.{dec_lt}
use helix_kernel.Prelude.{ℕ, zero, suc, ◌+◌, ◌≤◌, ◌<◌, ◌≡◌, List, [], ◌∷◌, All, length, arith}
use helix_kernel.Pmm.{FreeLists, Segment, num_orders}
use helix_kernel.Pmm.Valid.{IsValid}
use helix_kernel.Pmm.Linked.Chain.{above-empty}
use helix_kernel.Pmm.Linked.Free.{Enough}

-- More than any list of the segments is long.
total_below : ℕ → FreeLists → ℕ
total_below zero fl = 0
total_below (suc n) fl = total_below n fl + length (fl n)

total_below-le : (n k : ℕ) (fl : FreeLists) → k < n → length (fl k) ≤ total_below n fl
unfolding total_below
total_below-le zero k fl lt = absurd (omega arith)
total_below-le (suc n) k fl lt = elim (dec_lt k n) [
  | yes less ↦ omega (arith, total_below-le n k fl less)
  | no same ↦ let e : k ≡ n = omega arith in rw e (omega arith)
]

pub Enough-more :
    (fuel more : ℕ) (ss : List Segment)
    → fuel ≤ more
    → All (λ s. Enough fuel s.free_list) ss
    → All (λ s. Enough more s.free_list) ss
Enough-more fuel more [] le h = tt
Enough-more fuel more (s ∷ ss) le h = ((λ k. omega (arith, h.0 k)), Enough-more fuel more ss le h.1)

-- Some fuel is enough.
pub fuel-Enough :
    (ss : List Segment) → All IsValid ss → (fuel : ℕ) × All (λ s. Enough fuel s.free_list) ss
fuel-Enough [] v = (0, tt)
fuel-Enough (s ∷ ss) v =
    let (fuel, rest) = fuel-Enough ss v.1 in
    let own = suc (total_below num_orders s.free_list) in
    (
      own + fuel,
      (
        (λ k. elim (dec_lt k num_orders) [
          | yes low ↦ omega (arith, total_below-le num_orders k s.free_list low)
          | no high ↦
              let empty =
                above-empty s.base_ptr s.max_order k (s.free_list k)
                  (omega (arith, v.0.max_order_lt)) (v.0.blocks k) in
              rw empty (omega arith)
        ]),
        Enough-more fuel (own + fuel) ss (omega arith) rest,
      ),
    )
