-- ===== src/Pmm/Buddy.antt =====
-- The buddy of a block in mm/pmm.cpp, and the search for it in a free list.
use helix_kernel.Prelude.{
  ℕ, suc, ◌+◌, ◌*◌, ◌/◌, ◌%◌, ◌<◌, ◌≡◌, List, [], ◌∷◌, Option, none, some, arith, inl, inr, All,
  ◌⊎◌, Bool-cases, ◌==◌, ==_iff, ◌∙◌, ap, sym,
}
use native.Mathlib.Decide.{ℕ_discrete}
use Prim.Native.Nat.{bit_xor}
use helix_kernel.Prelude.Bits.{bit_xor-pow_even, bit_xor-pow_odd}
use helix_kernel.Pmm.{word, add64, sub64, block_bytes, buddy_addr, take_buddy, lower}
use helix_kernel.Pmm.Order.{block_bytes_pos, block_bytes-suc, add64_small, sub64_small}
use helix_kernel.Pmm.Cover.{in_block, in_block-suc, cover_list}
use helix_kernel.Pmm.Valid.{FitsAt}

-- The block is the lower half of the block of the next order, or the upper half.
abbrev pub Halves : ℕ → ℕ → ℕ → ℕ → Type 0
Halves base k addr buddy =
    ((m : ℕ) × (addr ≡ base + m * block_bytes (suc k)) × (buddy ≡ addr + block_bytes k))
    ⊎ ((m : ℕ) × (buddy ≡ base + m * block_bytes (suc k)) × (addr ≡ buddy + block_bytes k))

pub xor-block_even :
    (k m : ℕ) → bit_xor (m * 2 * block_bytes k) (block_bytes k) ≡ (m * 2 + 1) * block_bytes k
unfolding block_bytes
xor-block_even k m = bit_xor-pow_even (k + 12) m

pub xor-block_odd :
    (k m : ℕ) → bit_xor ((m * 2 + 1) * block_bytes k) (block_bytes k) ≡ m * 2 * block_bytes k
unfolding block_bytes
xor-block_odd k m = bit_xor-pow_odd (k + 12) m

-- The bytes of `m` blocks of the next order.
blocks-suc : (k m : ℕ) → m * block_bytes (suc k) ≡ m * 2 * block_bytes k
blocks-suc k m = rw (block_bytes-suc k) (omega arith)

module _ (base max k addr : ℕ) (f : FitsAt base max k addr)
    (w : base + block_bytes max < word) where
  rel : sub64 addr base ≡ f.index * block_bytes k
  rel =
      sub64_small addr base (omega (arith, f.place)) (omega (arith, f.inside))
      ∙ omega (arith, f.place)

  lower_half : (m : ℕ) → f.index ≡ m * 2 → Halves base k addr (buddy_addr base k addr)
  unfolding buddy_addr
  lower_half m e =
      let place : addr ≡ base + m * 2 * block_bytes k = rw e at f.place in
      let eq : add64 base ((m * 2 + 1) * block_bytes k) ≡ addr + block_bytes k =
        add64_small base _ (omega (arith, place, f.inside)) ∙ omega (arith, place) in
      inl (m, omega (arith, place, blocks-suc k m), rw (rel, e, xor-block_even k m) eq)

  upper_half : (m : ℕ) → f.index ≡ m * 2 + 1 → Halves base k addr (buddy_addr base k addr)
  unfolding buddy_addr
  upper_half m e =
      let place : addr ≡ base + (m * 2 + 1) * block_bytes k = rw e at f.place in
      let eq : add64 base (m * 2 * block_bytes k) ≡ base + m * 2 * block_bytes k =
        add64_small base _ (omega (arith, place, f.inside)) in
      inr (
        m,
        rw (rel, e, xor-block_odd k m) (eq ∙ omega (arith, blocks-suc k m)),
        rw (rel, e, xor-block_odd k m) (omega (arith, place, eq)),
      )

  -- The address that `free` computes is that of the other half.
  pub buddy_addr-Halves : Halves base k addr (buddy_addr base k addr)
  buddy_addr-Halves = elim (ℕ_discrete (f.index % 2) 0) [
    | yes even ↦ lower_half (f.index / 2) (omega arith)
    | no odd ↦ upper_half (f.index / 2) (omega arith)
  ]

lower_first : (k addr buddy : ℕ) → buddy ≡ addr + block_bytes k → lower buddy addr ≡ addr
lower_first k addr buddy e = ground (arith, block_bytes_pos k)

lower_second : (k addr buddy : ℕ) → addr ≡ buddy + block_bytes k → lower buddy addr ≡ buddy
lower_second k addr buddy e = ground (arith, block_bytes_pos k)

module _ (base k addr buddy : ℕ) where
  -- The two halves cover what the whole block covers.
  pub in_block-merge :
      (a : ℕ)
      → Halves base k addr buddy
      → in_block (suc k) (lower buddy addr) a ≡ in_block k addr a + in_block k buddy a
  in_block-merge a (inl (m, e, up)) =
      rw (lower_first k addr buddy up)
        (in_block-suc k addr a ∙ ap (λ b. in_block k addr a + in_block k b a) (sym up))
  in_block-merge a (inr (m, e, up)) =
      rw (lower_second k addr buddy up)
        (omega (arith, in_block-suc k buddy a, ap (λ b. in_block k b a) up))

  pub FitsAt-merge :
      (max : ℕ)
      → Halves base k addr buddy
      → FitsAt base max k addr
      → FitsAt base max k buddy
      → FitsAt base max (suc k) (lower buddy addr)
  FitsAt-merge max (inl (m, e, up)) f g =
      rw (lower_first k addr buddy up)
        (record { index = m; place = e; inside = omega (arith, block_bytes-suc k, g.inside) })
  FitsAt-merge max (inr (m, e, up)) f g =
      rw (lower_second k addr buddy up)
        (record { index = m; place = e; inside = omega (arith, block_bytes-suc k, f.inside) })

-- What the walk along a free list finds.
abbrev pub Taken : ℕ → ℕ → ℕ → ℕ → List ℕ → Option (List ℕ) → Type 0
Taken base max k buddy bs none = Unit
Taken base max k buddy bs (some cs) =
    FitsAt base max k buddy
    × All (FitsAt base max k) cs
    × ((a : ℕ) → cover_list k bs a ≡ in_block k buddy a + cover_list k cs a)

pub take_buddy-Taken :
    (base max k buddy : ℕ) (bs : List ℕ)
    → All (FitsAt base max k) bs
    → Taken base max k buddy bs (take_buddy buddy bs)
unfolding take_buddy cover_list
take_buddy-Taken base max k buddy [] v = tt
take_buddy-Taken base max k buddy (b ∷ bs) v = elim (Bool-cases (b == buddy)) [
  | inl same ↦
      let e : b ≡ buddy = (==_iff b buddy).0 same in rw same (rw e at (v.0), v.1, λ a. rw e)
  | inr other ↦ rw other (skip (take_buddy buddy bs) (take_buddy-Taken base max k buddy bs v.1))
]
  where
    skip :
        (o : Option (List ℕ))
        → Taken base max k buddy bs o
        → Taken base max k buddy (b ∷ bs) (elim o [ none ↦ none | some bs' ↦ some (b ∷ bs') ])
    skip none t = tt
    skip (some cs) t = (t.0, (v.0, t.1), λ a. omega (arith, t.2 a))
