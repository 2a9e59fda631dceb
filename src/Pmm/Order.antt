-- ===== src/Pmm/Order.antt =====
-- The order that `alloc` and `free` of mm/pmm.cpp compute from a size in bytes, and block sizes.
use native.Mathlib.Nat.{pow-le-pow_right, two-pow-succ}
use native.Mathlib.Decide.{dec_lt}
use helix_kernel.Prelude.{
  ℕ, zero, suc, ◌+◌, ◌/◌, ◌%◌, ◌-◌, ◌*◌, ◌^◌, ◌≤◌, ◌<◌, ◌≡◌, refl, Bool-cases, inl, inr, some,
  arith, ltb, ltb→lt, false,
}
use helix_kernel.Pmm.{word, add64, sub64, block_bytes, order_loop, pages_of, order_of}

pub block_bytes-suc : (k : ℕ) → block_bytes (suc k) ≡ block_bytes k + block_bytes k
unfolding block_bytes
block_bytes-suc k = let e : suc k + 12 ≡ suc (k + 12) = omega arith in rw e (two-pow-succ (k + 12))

pub block_bytes_pos : (k : ℕ) → 0 < block_bytes k
unfolding block_bytes
block_bytes_pos k = pow-le-pow_right {n = 2} (omega arith) {i = 0} (omega arith)

-- In pages of 4096 bytes.
pub block_bytes_eq : (k : ℕ) → block_bytes k ≡ 2 ^ k * 4096
block_bytes_eq zero = unfold block_bytes in refl
block_bytes_eq (suc k) = rw (block_bytes-suc k, block_bytes_eq k, two-pow-succ k) (omega arith)

pub block_bytes_mono : {j k : ℕ} → j ≤ k → block_bytes j ≤ block_bytes k
block_bytes_mono {j} {k} h =
    omega (arith, block_bytes_eq j, block_bytes_eq k, pow-le-pow_right {n = 2} (omega arith) h)

pub add64_small : (a b : ℕ) → a + b < word → add64 a b ≡ a + b
unfolding add64
add64_small a b h = omega arith

pub sub64_small : (a b : ℕ) → b ≤ a → a < word → sub64 a b ≡ a - b
unfolding sub64
sub64_small a b h k = omega arith

-- The loop ends at the first order from `order` on whose block has `pages` pages.
pub record Least (pages order o : ℕ) : Type 0 where
  pub enough : pages ≤ 2 ^ o
  pub from : order ≤ o
  pub least : (k : ℕ) → order ≤ k → k < o → 2 ^ k < pages

here : {pages : ℕ} (order : ℕ) → pages ≤ 2 ^ order → Least pages order order
here order h = record { enough = h; from = omega arith; least = λ k p q. absurd (omega arith) }

next :
    {pages : ℕ} (order o : ℕ) → 2 ^ order < pages → Least pages (order + 1) o → Least pages order o
next {pages} order o h l = record {
  enough = l.enough;
  from = omega (arith, l.from);
  least = λ k p q. elim (dec_lt order k) [
    | yes above ↦ l.least k (omega arith) q
    | no at ↦ let e : k ≡ order = omega arith in rw e h
  ];
}

order_loop-Least :
    (fuel pages order : ℕ)
    → pages ≤ 2 ^ (order + fuel)
    → (o : ℕ) × (order_loop (suc fuel) pages order ≡ some o)
      × Least pages order o
      × (o ≤ order + fuel)
unfolding order_loop
order_loop-Least zero pages order h =
    let e : order + 0 ≡ order = omega arith in
    let h' : pages ≤ 2 ^ order = rw e at h in
    let big : ltb (2 ^ order) pages ≡ false = ground arith in
    (order, rw big refl, here order h', omega arith)
order_loop-Least (suc fuel) pages order h = elim (Bool-cases (ltb (2 ^ order) pages)) [
  | inl small ↦
      let e : order + suc fuel ≡ order + 1 + fuel = omega arith in
      let (o, run, l, le) = order_loop-Least fuel pages (order + 1) (rw e at h) in
      (o, rw small run, next order o (ltb→lt (2 ^ order) pages small) l, omega arith)
  | inr big ↦ (order, rw big refl, here order (ground arith), omega arith)
]

-- The order of a request is the least one whose block holds the request, and the loop finds it
-- for every size that does not wrap when it is rounded up.
pub order_of-Least :
    (n : ℕ)
    → n + 0xfff < word
    → (o : ℕ) × (order_of n ≡ some o)
      × (n ≤ block_bytes o)
      × ((k : ℕ) → k < o → block_bytes k < n)
      × (o ≤ 52)
unfolding order_of pages_of add64
order_of-Least n h =
    let (o, run, l, le) = order_loop-Least 63 (pages_of n) 0 (omega arith) in
    (
      o,
      run,
      omega (arith, l.enough, block_bytes_eq o),
      λ k lt. omega (arith, l.least k (omega arith) lt, block_bytes_eq k),
      elim (dec_lt 52 o) [
        | yes big ↦ absurd (omega (arith, l.least 52 (omega arith) big))
        | no small ↦ omega arith
      ],
    )

-- A request of up to a page has order 0.
pub order_of-page : (n : ℕ) → 0 < n → n ≤ 0x1000 → order_of n ≡ some 0
unfolding order_of order_loop pages_of add64
order_of-page n pos small = let one : (n + 0xfff) % word / 2 ^ 12 ≡ 1 = omega arith in rw one refl
