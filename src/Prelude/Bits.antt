-- ===== src/Prelude/Bits.antt =====
-- Laws of `bit_or` and `bit_and` at variables, from the digit recursion behind them.
mod Digits
pub use Digits.*
use Prim.Native.Nat.{ℕ, zero, suc, ◌+◌, ◌-◌, ◌*◌, ◌/◌, ◌%◌, ◌^◌, ◌≤◌, ◌<◌, min, max}
use Prim.Native.Nat.{bit_and, bit_or, bit_xor, bitwise, digits, differ}
use Prim.Native.Nat.{bit_and-bitwise, bit_or-bitwise, bit_xor-bitwise}
use native.Mathlib.Nat.{pow-suc}
use mathlib.Core.Path.{◌≡◌, refl, sym, ap, ◌∙◌}
use native.Mathlib.Omega.{arith}

pub bit_or_step : (a b : ℕ) → bit_or a b ≡ bit_or (a / 2) (b / 2) * 2 + max (a % 2) (b % 2)
bit_or_step a b = omega (
  arith,
  bit_or-bitwise a b,
  bit_or-bitwise (a / 2) (b / 2),
  bitwise_split (λ x. x) max (λ x. omega arith) a b,
)

bit_or-zero : (n a : ℕ) → a ≤ n → bit_or a 0 ≡ a
bit_or-zero zero zero h = refl
bit_or-zero zero (suc a) h = absurd (omega arith)
bit_or-zero (suc n) zero h = refl
bit_or-zero (suc n) (suc a) h =
    omega (arith, bit_or_step (suc a) 0, bit_or-zero n (suc a / 2) (omega arith))

-- The inclusive or of bits from `k` on with bits below `k` is their sum.
pub bit_or-disjoint : (k x y : ℕ) → y < 2 ^ k → bit_or (x * 2 ^ k) y ≡ x * 2 ^ k + y
bit_or-disjoint zero x y h =
    let e : y ≡ 0 = omega arith in
    let e' : x * 2 ^ 0 ≡ x = omega arith in rw (e, e') (bit_or-zero x x (omega arith) ∙ omega arith)
bit_or-disjoint (suc k) x y h =
    let e : x * 2 ^ suc k ≡ x * 2 ^ k * 2 = rw (pow-suc 2 k) (omega arith) in
    let h' : y < 2 ^ k * 2 = rw (pow-suc 2 k) at h in
    let ea : x * 2 ^ k * 2 / 2 ≡ x * 2 ^ k = omega arith in
    rw (e, bit_or_step (x * 2 ^ k * 2) y, ea, bit_or-disjoint k x (y / 2) (omega arith))
      (omega arith)

pub bit_and_step : (a b : ℕ) → bit_and a b ≡ bit_and (a / 2) (b / 2) * 2 + min (a % 2) (b % 2)
bit_and_step a b = omega (
  arith,
  bit_and-bitwise a b,
  bit_and-bitwise (a / 2) (b / 2),
  bitwise_split (λ x. zero) min (λ x. omega arith) a b,
)

bit_and-le_digits : (n a m : ℕ) → a ≤ n → bit_and a m ≤ m
bit_and-le_digits zero a m h =
    let e : a ≡ 0 = omega arith in rw e (omega (arith, bit_and-bitwise 0 m))
bit_and-le_digits (suc n) a m h =
    omega (arith, bit_and_step a m, bit_and-le_digits n (a / 2) (m / 2) (omega arith))

-- A conjunction is at most its mask.
pub bit_and-le : (a m : ℕ) → bit_and a m ≤ m
bit_and-le a m = bit_and-le_digits a a m (omega arith)

pub bit_and-zero : (a : ℕ) → bit_and a 0 ≡ 0
bit_and-zero a = omega (arith, bit_and-le a 0)

-- Small masks.
pub bit_and-one : (a : ℕ) → bit_and a 1 ≡ a % 2
bit_and-one a = omega (arith, bit_and_step a 1, bit_and-zero (a / 2))

pub bit_and-two : (a : ℕ) → bit_and a 2 ≡ a / 2 % 2 * 2
bit_and-two a = omega (arith, bit_and_step a 2, bit_and-one (a / 2))

pub bit_and-three : (a : ℕ) → bit_and a 3 ≡ a % 4
bit_and-three a = omega (arith, bit_and_step a 3, bit_and-one (a / 2))

bit_and-fifteen : (a : ℕ) → bit_and a 15 ≡ a % 16
bit_and-fifteen a =
    omega (arith, bit_and_step a 15, bit_and_step (a / 2) 7, bit_and-three (a / 2 / 2))

-- The mask of a register number in a configuration space: a multiple of four below 256.
pub bit_and-register : (a : ℕ) → bit_and a 0xfc ≡ a / 4 % 64 * 4
bit_and-register a = omega (
  arith,
  bit_and_step a 0xfc,
  bit_and_step (a / 2) 0x7e,
  bit_and_step (a / 2 / 2) 0x3f,
  bit_and_step (a / 2 / 2 / 2) 0x1f,
  bit_and-fifteen (a / 2 / 2 / 2 / 2),
)

pub pow_pos : (k : ℕ) → 0 < 2 ^ k
pow_pos zero = omega arith
pow_pos (suc k) = omega (arith, pow-suc 2 k, pow_pos k)

-- The mask of `k` ones keeps a number below 2^k.
pub bit_and-ones : (k a : ℕ) → a < 2 ^ k → bit_and a (2 ^ k - 1) ≡ a
bit_and-ones zero a h = omega (arith, bit_and-zero a)
bit_and-ones (suc k) a h = omega (
  arith,
  pow-suc 2 k,
  pow_pos k,
  bit_and_step a (2 ^ suc k - 1),
  bit_and-ones k (a / 2) (omega (arith, pow-suc 2 k)),
  ap (λ n. bit_and (a / 2) n) (halved k),
)
  where
    halved : (k : ℕ) → (2 ^ suc k - 1) / 2 ≡ 2 ^ k - 1
    halved k = omega (arith, pow-suc 2 k, pow_pos k)

pub bit_and-even : (a m : ℕ) → bit_and a (m * 2) ≡ bit_and (a / 2) m * 2
bit_and-even a m =
    let e : m * 2 / 2 ≡ m = omega arith in
    omega (arith, bit_and_step a (m * 2), ap (λ n. bit_and (a / 2) n) e)

-- Setting one of the lowest bits.
pub bit_or-one : (a : ℕ) → a % 2 ≡ 0 → bit_or a 1 ≡ a + 1
bit_or-one a h = omega (arith, bit_or_step a 1, bit_or-zero (a / 2) (a / 2) (omega arith))

pub bit_or-two : (a : ℕ) → a % 4 ≡ 1 → bit_or a 2 ≡ a + 2
bit_or-two a h = omega (
  arith,
  bit_or_step a 2,
  bit_or_step (a / 2) 1,
  bit_or-zero (a / 2 / 2) (a / 2 / 2) (omega arith),
)

pub bit_or-four : (a : ℕ) → a % 8 ≡ 3 → bit_or a 4 ≡ a + 4
bit_or-four a h = omega (
  arith,
  bit_or_step a 4,
  bit_or_step (a / 2) 2,
  bit_or_step (a / 2 / 2) 1,
  bit_or-zero (a / 2 / 2 / 2) (a / 2 / 2 / 2) (omega arith),
)

pub bit_or-none : (a : ℕ) → bit_or a 0 ≡ a
bit_or-none a = bit_or-zero a a (omega arith)

-- The lowest bit of an inclusive or.
pub bit_or-one_odd : (a : ℕ) → bit_or a 1 % 2 ≡ 1
bit_or-one_odd a = omega (arith, bit_or_step a 1)

pub bit_and-four : (a : ℕ) → bit_and a 4 ≡ a / 4 % 2 * 4
bit_and-four a = omega (arith, bit_and_step a 4, bit_and-two (a / 2))

-- The mask of the address in a page table entry.
pub bit_and-page :
    (a r : ℕ) → a < 2 ^ 40 → r < 4096 → bit_and (a * 4096 + r) 0x000FFFFFFFFFF000 ≡ a * 4096
bit_and-page a r ha hr =
    let x = a * 4096 + r in
    let e : x / 2 / 2 / 2 / 2 / 2 / 2 / 2 / 2 / 2 / 2 / 2 / 2 ≡ a = omega arith in
    omega (
      arith,
      bit_and-even x 0x7FFFFFFFFF800,
      bit_and-even (x / 2) 0x3FFFFFFFFFC00,
      bit_and-even (x / 2 / 2) 0x1FFFFFFFFFE00,
      bit_and-even (x / 2 / 2 / 2) 0xFFFFFFFFFF00,
      bit_and-even (x / 2 / 2 / 2 / 2) 0x7FFFFFFFFF80,
      bit_and-even (x / 2 / 2 / 2 / 2 / 2) 0x3FFFFFFFFFC0,
      bit_and-even (x / 2 / 2 / 2 / 2 / 2 / 2) 0x1FFFFFFFFFE0,
      bit_and-even (x / 2 / 2 / 2 / 2 / 2 / 2 / 2) 0xFFFFFFFFFF0,
      bit_and-even (x / 2 / 2 / 2 / 2 / 2 / 2 / 2 / 2) 0x7FFFFFFFFF8,
      bit_and-even (x / 2 / 2 / 2 / 2 / 2 / 2 / 2 / 2 / 2) 0x3FFFFFFFFFC,
      bit_and-even (x / 2 / 2 / 2 / 2 / 2 / 2 / 2 / 2 / 2 / 2) 0x1FFFFFFFFFE,
      bit_and-even (x / 2 / 2 / 2 / 2 / 2 / 2 / 2 / 2 / 2 / 2 / 2) 0xFFFFFFFFFF,
      ap (λ n. bit_and n 0xFFFFFFFFFF) e,
      bit_and-ones 40 a ha,
    )

-- The mask that aligns an address to 16 bytes.
pub bit_and-aligned : (x : ℕ) → x < 2 ^ 64 → bit_and x 0xFFFFFFFFFFFFFFF0 ≡ x / 16 * 16
bit_and-aligned x h =
    let e : x / 2 / 2 / 2 / 2 ≡ x / 16 = omega arith in
    omega (
      arith,
      bit_and-even x 0x7FFFFFFFFFFFFFF8,
      bit_and-even (x / 2) 0x3FFFFFFFFFFFFFFC,
      bit_and-even (x / 2 / 2) 0x1FFFFFFFFFFFFFFE,
      bit_and-even (x / 2 / 2 / 2) 0xFFFFFFFFFFFFFFF,
      ap (λ n. bit_and n 0xFFFFFFFFFFFFFFF) e,
      bit_and-ones 60 (x / 16) (omega arith),
    )

-- The mask of an index into a page table.
pub bit_and-index : (a : ℕ) → bit_and a 0x1FF ≡ a % 512
bit_and-index a = omega (
  arith,
  bit_and_step a 0x1FF,
  bit_and_step (a / 2) 0xFF,
  bit_and_step (a / 2 / 2) 0x7F,
  bit_and_step (a / 2 / 2 / 2) 0x3F,
  bit_and_step (a / 2 / 2 / 2 / 2) 0x1F,
  bit_and-fifteen (a / 2 / 2 / 2 / 2 / 2),
)
