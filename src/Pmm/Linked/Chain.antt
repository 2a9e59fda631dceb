-- ===== src/Pmm/Linked/Chain.antt =====
-- What the free lists of mm/pmm.cpp in memory hold: sequences of blocks, none of them twice.
use native.Mathlib.Decide.{ℕ_discrete, dec_lt}
use helix_kernel.Prelude.{
  ℕ, zero, suc, ◌+◌, ◌≤◌, ◌<◌, ◌≡◌, ◌≢◌, refl, true, false, List, [], ◌∷◌, All, arith, ◌==◌, ap,
  ltb, leb,
}
use helix_kernel.Pmm.{FreeLists, set_list, add_block, num_orders, block_bytes}
use helix_kernel.Pmm.Order.{block_bytes_pos}
use helix_kernel.Pmm.Cover.{in_block, cover_list, cover_below, cover}
use helix_kernel.Pmm.Valid.{FitsAt, FitsAt-le, ValidLists}
use helix_kernel.Pmm.Linked.{Lists, assign, add_linked}

-- The blocks from `a` on are those of the list.
abbrev pub Chain : (ℕ → ℕ) → ℕ → List ℕ → Type 0
Chain l a [] = a ≡ 0
Chain l a (x ∷ xs) = (a ≡ x) × (x ≢ 0) × Chain l (l x) xs

-- The lists in memory are these.
abbrev pub Represents : Lists → FreeLists → Type 0
Represents s fl = (k : ℕ) → Chain s.links (s.heads k) (fl k)

-- The lists in memory are these, and only words of blocks that were free were written: `free` counts
-- the blocks that cover an address.
pub record Matches (s s' : Lists) (fl : FreeLists) (free : ℕ → ℕ) : Type 0 where
  pub represents : Represents s' fl
  pub kept : (y : ℕ) → free y ≡ 0 → s'.links y ≡ s.links y

pub assign_self : (f : ℕ → ℕ) (a v : ℕ) → assign f a v a ≡ v
unfolding assign
assign_self f a v = ground arith

pub assign_other : (f : ℕ → ℕ) (a v x : ℕ) → x ≢ a → assign f a v x ≡ f x
unfolding assign
assign_other f a v x ne = ground arith

-- A chain stays where a word outside its blocks is written.
pub Chain-assign :
    (xs : List ℕ) (l : ℕ → ℕ) (a b v : ℕ)
    → All (λ x. x ≢ b) xs
    → Chain l a xs
    → Chain (assign l b v) a xs
Chain-assign [] l a b v ne c = c
Chain-assign (x ∷ xs) l a b v (n, ne) (same, pos, c) =
    let r = Chain-assign xs l (l x) b v ne c in (same, pos, rw (assign_other l b v x n) r)

set_list-same : (fl : FreeLists) (k : ℕ) (bs : List ℕ) → set_list fl k bs k ≡ bs
unfolding set_list
set_list-same fl k bs = let b : (k == k) ≡ true = ground arith in rw b refl

set_list-other : (fl : FreeLists) (k j : ℕ) (bs : List ℕ) → j ≢ k → set_list fl k bs j ≡ fl j
unfolding set_list
set_list-other fl k j bs ne = let b : (j == k) ≡ false = ground arith in rw b refl

-- One list is changed, and the others keep their heads and blocks.
pub Represents-set_list :
    (s s' : Lists) (fl : FreeLists) (k : ℕ) (bs : List ℕ)
    → Chain s'.links (s'.heads k) bs
    → ((j : ℕ) → j ≢ k → Chain s'.links (s'.heads j) (fl j))
    → Represents s' (set_list fl k bs)
Represents-set_list s s' fl k bs here others j = elim (ℕ_discrete j k) [
  | yes same ↦ rw (same, set_list-same fl k bs) here
  | no other ↦ rw (set_list-other fl k j bs other) (others j other)
]

-- A block that is in no list.
abbrev pub Fresh : ℕ → FreeLists → Type 0
Fresh b fl = (k : ℕ) → All (λ x. x ≢ b) (fl k)

pub add_linked-Represents :
    (s : Lists) (fl : FreeLists) (k b : ℕ)
    → b ≢ 0
    → Fresh b fl
    → Represents s fl
    → Represents (add_linked k b s) (add_block fl k b)
unfolding add_linked add_block
add_linked-Represents s fl k b pos fresh r =
    Represents-set_list s (add_linked k b s) fl k (b ∷ fl k)
      (
        assign_self s.heads k b,
        pos,
        rw (assign_self s.links b (s.heads k))
            (Chain-assign (fl k) s.links (s.heads k) b (s.heads k) (fresh k) (r k)),
      )
      (λ j ne.
        rw (assign_other s.heads k b j ne)
          (Chain-assign (fl j) s.links (s.heads j) b (s.heads k) (fresh j) (r j)))

pub in_block_self : (k b : ℕ) → in_block k b b ≡ 1
unfolding in_block
in_block_self k b =
    let below : leb b b ≡ true = ground arith in
    let above : ltb b (b + block_bytes k) ≡ true = ground (arith, block_bytes_pos k) in
    rw (below, above) refl

-- A block that no block of the list covers is not in it.
pub uncovered : (k b : ℕ) (bs : List ℕ) → cover_list k bs b ≡ 0 → All (λ x. x ≢ b) bs
unfolding cover_list
uncovered k b [] e = tt
uncovered k b (x ∷ xs) e = (
  λ same. omega (arith, e, in_block_self k b, ap (λ y. in_block k y b) same),
  uncovered k b xs (omega (arith, e)),
)

-- A block of a list is covered by it.
pub first-covered : (k b : ℕ) (bs : List ℕ) → cover_list k (b ∷ bs) b ≡ 1 + cover_list k bs b
unfolding cover_list
first-covered k b bs = omega (arith, in_block_self k b)

cover_list-below :
    (n k : ℕ) (fl : FreeLists) (a : ℕ) → k < n → cover_list k (fl k) a ≤ cover_below n fl a
unfolding cover_below
cover_list-below zero k fl a lt = absurd (omega arith)
cover_list-below (suc n) k fl a lt = elim (ℕ_discrete k n) [
  | yes here ↦ rw here (omega arith)
  | no below ↦ omega (arith, cover_list-below n k fl a (omega arith))
]

cover_lists-below :
    (n j k : ℕ) (fl : FreeLists) (a : ℕ)
    → j < k
    → k < n
    → cover_list j (fl j) a + cover_list k (fl k) a ≤ cover_below n fl a
unfolding cover_below
cover_lists-below zero j k fl a lt lt' = absurd (omega arith)
cover_lists-below (suc n) j k fl a lt lt' = elim (ℕ_discrete k n) [
  | yes here ↦ rw here (omega (arith, cover_list-below n j fl a (omega arith)))
  | no below ↦ omega (arith, cover_lists-below n j k fl a lt (omega arith))
]

-- Two lists together cover an address no more often than all lists do.
pub cover-two :
    (j k : ℕ) (fl : FreeLists) (a : ℕ)
    → j ≢ k
    → j < num_orders
    → k < num_orders
    → cover_list j (fl j) a + cover_list k (fl k) a ≤ cover fl a
unfolding cover
cover-two j k fl a ne hj hk = elim (dec_lt j k) [
  | yes less ↦ cover_lists-below num_orders j k fl a less hk
  | no more ↦ omega (arith, cover_lists-below num_orders k j fl a (omega arith) hj)
]

pub cover-one :
    (k : ℕ) (fl : FreeLists) (a : ℕ) → k < num_orders → cover_list k (fl k) a ≤ cover fl a
unfolding cover
cover-one k fl a h = cover_list-below num_orders k fl a h

-- The lists of orders that no block fits are empty.
pub above-empty : (base max k : ℕ) (bs : List ℕ) → max < k → All (FitsAt base max k) bs → bs ≡ []
above-empty base max k [] lt v = refl
above-empty base max k (b ∷ bs) lt v = absurd (omega (arith, FitsAt-le base max k b v.0))

-- A block that no free block covers is in no list.
pub cover-Fresh :
    (base max : ℕ) (fl : FreeLists) (b : ℕ)
    → max < num_orders
    → ValidLists base max fl
    → cover fl b ≡ 0
    → Fresh b fl
cover-Fresh base max fl b small v e k = elim (dec_lt k num_orders) [
  | yes low ↦ uncovered k b (fl k) (omega (arith, cover-one k fl b low))
  | no high ↦ rw (above-empty base max k (fl k) (omega arith) (v k)) tt
]
