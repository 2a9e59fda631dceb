-- ===== src/Klibc/Number/Tests.antt =====
-- Numbers in memory, as klibc/cstring.cpp reads them.
use mathlib.Core.Option
use helix_kernel.Prelude.{ℕ, zero, suc, ◌+◌, ◌≡◌, refl, inl, some, List, [], ◌∷◌, length, arith}
use helix_kernel.Klibc.{Memory, is_space, is_digit}
use helix_kernel.Klibc.Number.{
  negated, strtol, strtod, skip_blanks, read_sign, read_prefix, is_x, digit_of, read_digits,
  is_blank, read_decimal,
}
use helix_kernel.Klibc.Number.Digits.{value_of, Stops, minus, sign_bytes, is_minus, strtol-value_of}
use helix_kernel.Klibc.Number.Decimal.{digits_of, strtol-digits_of}

-- The bytes of the list from address 1 on, zeros behind them.
abbrev bytes : List ℕ → Memory
bytes [] a = 0
bytes (x ∷ xs) zero = 0
bytes (x ∷ xs) (suc zero) = x
bytes (x ∷ xs) (suc (suc a)) = bytes xs (suc a)

-- " -305;"
abbrev text : Memory
text = bytes (b' ' ∷ b'-' ∷ b'3' ∷ b'0' ∷ b'5' ∷ b';' ∷ [])

Stops-here : Stops 10 b';'
unfolding digit_of
Stops-here d h = ground (arith, h)

strtol-value_of_example :
    strtol 9 1 10 text
    ≡ some (
      negated (is_minus minus) (value_of 10 0 (3 ∷ 0 ∷ 5 ∷ [])),
      1 + length {A = ℕ} (b' ' ∷ []) + length (sign_bytes minus) + length {A = ℕ} (3 ∷ 0 ∷ 5 ∷ []),
    )
unfolding is_space
strtol-value_of_example =
    strtol-value_of 9 1 10 3 (b' ' ∷ []) (0 ∷ 5 ∷ []) minus text (omega arith) (omega arith)
      (omega arith) (refl, tt) (omega arith) (refl, (refl, tt))
      (inl refl, (inl refl, (inl refl, tt))) Stops-here (omega arith) (omega arith)

strtol-digits_of_example :
    strtol 9 1 10 text
    ≡ some (
      negated (is_minus minus) 305,
      1
          + length {A = ℕ} (b' ' ∷ [])
          + length (sign_bytes minus)
          + length (digits_of (suc 305) 10 305),
    )
unfolding digits_of is_space
strtol-digits_of_example =
    strtol-digits_of 9 1 10 305 (b' ' ∷ []) minus text (omega arith) (omega arith) (omega arith)
      (omega arith) (refl, tt) (refl, (refl, tt)) (inl refl, (inl refl, (inl refl, tt))) Stops-here
      (omega arith) (omega arith)

-- "0x1fz" in base 0, and "0" alone, which is taken for no number.
hexadecimal_runs : strtol 9 1 0 (bytes (b'0' ∷ b'x' ∷ b'1' ∷ b'f' ∷ b'z' ∷ [])) ≡ some (0x1f, 5)
unfolding strtol skip_blanks read_sign read_prefix is_x digit_of read_digits is_space Option.bind
hexadecimal_runs = refl

zero_runs : strtol 9 1 0 (bytes (b'0' ∷ [])) ≡ some (0, 1)
unfolding strtol skip_blanks read_sign read_prefix is_x digit_of read_digits is_space Option.bind
zero_runs = refl

strtod_runs : strtod 9 1 (bytes (b' ' ∷ b'4' ∷ b'2' ∷ b'.' ∷ b'5' ∷ [])) ≡ some (42, 4)
unfolding strtod skip_blanks read_sign is_blank read_decimal is_digit Option.bind
strtod_runs = refl
