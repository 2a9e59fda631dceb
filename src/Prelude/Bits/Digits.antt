-- ===== src/Prelude/Bits/Digits.antt =====
-- The digit recursion behind the bit operations, and the laws of `bit_xor`.
use Prim.Native.Nat.{ℕ, zero, suc, ◌+◌, ◌*◌, ◌/◌, ◌%◌, ◌^◌, ◌≤◌}
use Prim.Native.Nat.{bit_xor, bitwise, digits, differ}
use Prim.Native.Nat.{bit_xor-bitwise}
use native.Mathlib.Nat.{pow-suc}
use mathlib.Core.Path.{◌≡◌, refl, sym, ap, ◌∙◌}
use native.Mathlib.Omega.{arith}

module _ (z : ℕ → ℕ) (f : ℕ → ℕ → ℕ) where
  digits-zero : (n b : ℕ) → digits z f n 0 b ≡ z b
  digits-zero zero b = refl
  digits-zero (suc n) b = refl

  -- Two counts that both reach the number give the same digits.
  digits_count : (n m a b : ℕ) → a ≤ n → a ≤ m → digits z f n a b ≡ digits z f m a b
  digits_count n m zero b p q = digits-zero n b ∙ sym (digits-zero m b)
  digits_count zero m (suc a) b p q = absurd (omega arith)
  digits_count (suc n) zero (suc a) b p q = absurd (omega arith)
  digits_count (suc n) (suc m) (suc a) b p q =
      ap (λ high. high * 2 + f (suc a % 2) (b % 2))
        (digits_count n m (suc a / 2) (b / 2) (omega arith) (omega arith))

  -- An operation whose rest `z` obeys its own recursion splits off the lowest digit.
  pub bitwise_split :
      ((b : ℕ) → z b ≡ z (b / 2) * 2 + f 0 (b % 2))
      → (a b : ℕ) → bitwise z f a b ≡ bitwise z f (a / 2) (b / 2) * 2 + f (a % 2) (b % 2)
  bitwise_split rest zero b = rest b
  bitwise_split rest (suc a) b =
      ap (λ high. high * 2 + f (suc a % 2) (b % 2))
        (digits_count a (suc a / 2) (suc a / 2) (b / 2) (omega arith) (omega arith))

pub zero-bit_xor : (b : ℕ) → bit_xor 0 b ≡ b
zero-bit_xor b = bit_xor-bitwise 0 b

bit_xor_step : (a b : ℕ) → bit_xor a b ≡ bit_xor (a / 2) (b / 2) * 2 + differ (a % 2) (b % 2)
bit_xor_step a b = omega (
  arith,
  bit_xor-bitwise a b,
  bit_xor-bitwise (a / 2) (b / 2),
  bitwise_split (λ x. x) differ (λ x. omega arith) a b,
)

differ-zero : (a : ℕ) → differ a 0 ≡ a
differ-zero zero = refl
differ-zero (suc a) = refl

bit_xor-zero : (n a : ℕ) → a ≤ n → bit_xor a 0 ≡ a
bit_xor-zero zero zero h = refl
bit_xor-zero zero (suc a) h = absurd (omega arith)
bit_xor-zero (suc n) zero h = refl
bit_xor-zero (suc n) (suc a) h =
    let low : differ (suc a % 2) 0 ≡ suc a % 2 = differ-zero (suc a % 2) in
    omega (arith, bit_xor_step (suc a) 0, bit_xor-zero n (suc a / 2) (omega arith), low)

bit_xor_double : (x y : ℕ) → bit_xor (x * 2) (y * 2) ≡ bit_xor x y * 2
bit_xor_double x y =
    let ex : x * 2 / 2 ≡ x = omega arith in
    let ey : y * 2 / 2 ≡ y = omega arith in
    let lx : x * 2 % 2 ≡ 0 = omega arith in
    let ly : y * 2 % 2 ≡ 0 = omega arith in
    rw (bit_xor_step (x * 2) (y * 2), ex, ey, lx, ly) (omega arith)

bit_xor-one_even : (m : ℕ) → bit_xor (m * 2) 1 ≡ m * 2 + 1
bit_xor-one_even m =
    let e : m * 2 / 2 ≡ m = omega arith in
    let l : m * 2 % 2 ≡ 0 = omega arith in
    rw (bit_xor_step (m * 2) 1, e, l, bit_xor-zero m m (omega arith)) refl

bit_xor-one_odd : (m : ℕ) → bit_xor (m * 2 + 1) 1 ≡ m * 2
bit_xor-one_odd m =
    let e : (m * 2 + 1) / 2 ≡ m = omega arith in
    let l : (m * 2 + 1) % 2 ≡ 1 = omega arith in
    rw (bit_xor_step (m * 2 + 1) 1, e, l, bit_xor-zero m m (omega arith)) (omega arith)

-- Setting the bit `k` of a number that is an even multiple of 2^k.
pub bit_xor-pow_even : (k m : ℕ) → bit_xor (m * 2 * 2 ^ k) (2 ^ k) ≡ (m * 2 + 1) * 2 ^ k
bit_xor-pow_even zero m =
    let e : m * 2 * 2 ^ 0 ≡ m * 2 = omega arith in rw e (bit_xor-one_even m ∙ omega arith)
bit_xor-pow_even (suc k) m =
    let e : m * 2 * 2 ^ suc k ≡ m * 2 * 2 ^ k * 2 = rw (pow-suc 2 k) (omega arith) in
    rw (e, pow-suc 2 k, bit_xor_double (m * 2 * 2 ^ k) (2 ^ k), bit_xor-pow_even k m) (omega arith)

-- Clearing the bit `k` of a number that is an odd multiple of 2^k.
pub bit_xor-pow_odd : (k m : ℕ) → bit_xor ((m * 2 + 1) * 2 ^ k) (2 ^ k) ≡ m * 2 * 2 ^ k
bit_xor-pow_odd zero m =
    let e : (m * 2 + 1) * 2 ^ 0 ≡ m * 2 + 1 = omega arith in rw e (bit_xor-one_odd m ∙ omega arith)
bit_xor-pow_odd (suc k) m =
    let e : (m * 2 + 1) * 2 ^ suc k ≡ (m * 2 + 1) * 2 ^ k * 2 = rw (pow-suc 2 k) (omega arith) in
    rw (e, pow-suc 2 k, bit_xor_double ((m * 2 + 1) * 2 ^ k) (2 ^ k), bit_xor-pow_odd k m)
      (omega arith)
