-- ===== src/Klibc/Number.antt =====
-- `strtol` and `strtod` of klibc/cstring.cpp. A `long` or `uint64_t` is its 64-bit pattern.
-- Where the digits of `strtol` make more than 2^63 - 1, `result`, which is a `long`, overflows: the
-- language leaves that open, and it is written as a wrap here.
pub mod Digits
pub mod Decimal
mod Tests
use mathlib.Core.Option
use helix_kernel.Prelude.{
  ℕ, zero, suc, ◌+◌, ◌-◌, ◌*◌, ◌%◌, ◌^◌, Bool, true, false, Option, none, some, ltb, leb, ◌==◌,
  if◌then◌else◌, ◌&&◌, ◌||◌,
}
use helix_kernel.Klibc.{Memory, is_digit, is_space}

-- The first loop, for the bytes that `blank` holds of.
unfoldable pub skip_blanks : (ℕ → Bool) → ℕ → ℕ → Memory → Option ℕ
skip_blanks blank zero s mem = none
skip_blanks blank (suc f) s mem =
    let rest = skip_blanks blank f (s + 1) mem in if blank (mem s) then rest else some s

-- The sign: whether it is a minus, and the address behind it.
unfoldable pub read_sign : ℕ → Memory → Bool × ℕ
read_sign s mem =
    if mem s == b'-' then (true, s + 1) else if mem s == b'+' then (false, s + 1) else (false, s)

-- `s[1] == 'x' || s[1] == 'X'`
unfoldable pub is_x : ℕ → Bool
is_x c = c == b'x' || c == b'X'

-- The base and the address behind a prefix.
unfoldable pub read_prefix : ℕ → ℕ → Memory → ℕ × ℕ
read_prefix base s mem =
    if base == 0
    then (if mem s == b'0'
        then (if is_x (mem (s + 1)) then (16, s + 2) else (8, s + 1))
        else (10, s))
    else if base == 16 && (mem s == b'0' && is_x (mem (s + 1)))
    then (base, s + 2)
    else (base, s)

-- The digit that a byte stands for.
unfoldable pub digit_of : ℕ → Option ℕ
digit_of c =
    if leb b'0' c && leb c b'9'
    then some (c - b'0')
    else if leb b'a' c && leb c b'z'
    then some (c - b'a' + 10)
    else if leb b'A' c && leb c b'Z'
    then some (c - b'A' + 10)
    else none

-- `else break;` and `if (digit >= base) break;`
abbrev pub after_digit {ℓ} : {A : Type ℓ} → Option ℕ → ℕ → A → (ℕ → A) → A
after_digit none base stop rest = stop
after_digit (some digit) base stop rest = if leb base digit then stop else rest digit

-- `while (*s)` of `strtol`: the result and where it stops. The zero at the end is no digit.
unfoldable pub read_digits : ℕ → ℕ → ℕ → ℕ → Memory → Option (ℕ × ℕ)
read_digits zero base s result mem = none
read_digits (suc f) base s result mem =
    after_digit (digit_of (mem s)) base (some (result, s))
      λ digit. read_digits f base (s + 1) ((result * base + digit) % 2 ^ 64) mem

-- `-result` on 64 bits.
abbrev pub negated : Bool → ℕ → ℕ
negated neg result = if neg then (2 ^ 64 - result) % 2 ^ 64 else result

-- `strtol`, with a base that is not negative: the value and `*endptr`.
unfoldable pub strtol : ℕ → ℕ → ℕ → Memory → Option (ℕ × ℕ)
strtol fuel nptr base mem = Option.bind (skip_blanks is_space fuel nptr mem) λ s.
    let (neg, after_sign) = read_sign s mem in
    let (radix, start) = read_prefix base after_sign mem in
    Option.map (λ r. if r.1 == start then (0, nptr) else (negated neg r.0, r.1))
      (read_digits fuel radix start 0 mem)

-- The blanks of `strtod`.
unfoldable pub is_blank : ℕ → Bool
is_blank c = c == b' ' || c == 9 || c == 10

-- `while (isdigit(*s))` of `strtod`.
unfoldable pub read_decimal : ℕ → ℕ → ℕ → Memory → Option (ℕ × ℕ)
read_decimal zero s result mem = none
read_decimal (suc f) s result mem =
    let rest = read_decimal f (s + 1) ((result * 10 + (mem s - b'0')) % 2 ^ 64) mem in
    if is_digit (mem s) then rest else some (result, s)

-- `strtod`: the value and `*endptr`.
unfoldable pub strtod : ℕ → ℕ → Memory → Option (ℕ × ℕ)
strtod fuel nptr mem = Option.bind (skip_blanks is_blank fuel nptr mem) λ s.
    let (neg, start) = read_sign s mem in
    Option.map (λ r. (negated neg r.0, r.1)) (read_decimal fuel start 0 mem)
