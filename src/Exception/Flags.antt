-- ===== src/Exception/Flags.antt =====
-- The flags that `exception_handler` of arch/x86_64/idt/idt.cpp prints.
use Prim.Native.Nat.{bit_and}
use native.Mathlib.Nat.{pow-suc}
use helix_kernel.Prelude.{
  ℕ, zero, suc, ◌*◌, ◌/◌, ◌%◌, ◌^◌, ◌≡◌, ◌⊎◌, inl, inr, ap, ◌∙◌, refl, false, ◌==◌, if◌then◌else◌,
  arith,
}
use helix_kernel.Prelude.Bits.{bit_and-even, bit_and-one, pow_pos}
use helix_kernel.Exception.{flag_letter}

-- The digit at a place of the binary numeral.
unfoldable pub digit : ℕ → ℕ → ℕ
digit zero a = a % 2
digit (suc k) a = digit k (a / 2)

digit_cases : (k a : ℕ) → (digit k a ≡ 0) ⊎ (digit k a ≡ 1)
unfolding digit
digit_cases zero a = ground arith
digit_cases (suc k) a = digit_cases k (a / 2)

-- A mask of one bit keeps that digit.
bit_and-pow : (k a : ℕ) → bit_and a (2 ^ k) ≡ digit k a * 2 ^ k
unfolding digit
bit_and-pow zero a = omega (arith, bit_and-one a)
bit_and-pow (suc k) a =
    rw (pow-suc 2 k) (bit_and-even a (2 ^ k) ∙ ap (λ n. n * 2) (bit_and-pow k (a / 2)) ∙ regroup)
  where
    regroup : digit k (a / 2) * 2 ^ k * 2 ≡ digit k (a / 2) * (2 ^ k * 2)
    regroup = elim (digit_cases k (a / 2)) [
      | inl e ↦ rw e (omega arith)
      | inr e ↦ rw e (omega arith)
    ]

-- A letter is printed exactly where the binary digit of the flags at its bit is 1, a dash elsewhere.
pub flag_letter-digit :
    (rflags letter bit : ℕ)
    → flag_letter rflags letter bit ≡ (if digit bit rflags == 1 then letter else b'-')
unfolding flag_letter
flag_letter-digit rflags letter bit = elim (digit_cases bit rflags) [
  | inl clear ↦
      let none : bit_and rflags (2 ^ bit) ≡ 0 =
        bit_and-pow bit rflags ∙ ap (λ d. d * 2 ^ bit) clear ∙ omega arith in
      rw (none, clear) refl
  | inr set ↦
      let some : bit_and rflags (2 ^ bit) ≡ 2 ^ bit =
        bit_and-pow bit rflags ∙ ap (λ d. d * 2 ^ bit) set ∙ omega arith in
      let differs : (2 ^ bit == 0) ≡ false = ground (arith, pow_pos bit) in
      rw (some, differs, set) refl
]
