-- ===== src/Klibc/Number/Digits.antt =====
-- What `strtol` of klibc/cstring.cpp reads: the text of a number in some base.
use mathlib.Core.Option
use helix_kernel.Prelude.{
  ℕ, zero, suc, ◌+◌, ◌*◌, ◌%◌, ◌^◌, ◌≤◌, ◌<◌, ◌≡◌, ◌≢◌, ◌⊎◌, inl, inr, refl, ◌∙◌, ap, Bool, true,
  false, Option, none, some, List, [], ◌∷◌, ◌++◌, All, length, ltb, leb, ◌==◌, if◌then◌else◌, arith,
}
use helix_kernel.Klibc.{Memory, is_space}
use helix_kernel.Klibc.Number.{
  skip_blanks, read_sign, read_prefix, digit_of, after_digit, read_digits, negated, strtol,
}

-- The bytes of the list stand at `p`.
abbrev pub BytesAt : Memory → ℕ → List ℕ → Type 0
BytesAt mem p [] = Unit
BytesAt mem p (b ∷ bs) = (mem p ≡ b) × BytesAt mem (p + 1) bs

pub BytesAt-split :
    (mem : Memory) (p : ℕ) (xs ys : List ℕ)
    → BytesAt mem p (xs ++ ys)
    → BytesAt mem p xs × BytesAt mem (p + length xs) ys
BytesAt-split mem p [] ys h = let e : p + 0 ≡ p = omega arith in (tt, rw e h)
BytesAt-split mem p (x ∷ xs) ys h =
    let (l, r) = BytesAt-split mem (p + 1) xs ys h.1 in
    let e : p + suc (length xs) ≡ p + 1 + length xs = omega arith in ((h.0, l), rw e r)

-- The bytes of a digit, with a small letter and with a capital one.
abbrev pub digit_char : ℕ → ℕ
digit_char d = if ltb d 10 then d + b'0' else d + 87

abbrev pub capital_char : ℕ → ℕ
capital_char d = if ltb d 10 then d + b'0' else d + 55

abbrev pub IsDigitChar : ℕ → ℕ → Type 0
IsDigitChar d c = (c ≡ digit_char d) ⊎ (c ≡ capital_char d)

-- The digits stand at `p`, each with a small letter or a capital one.
abbrev pub DigitsAt : Memory → ℕ → List ℕ → Type 0
DigitsAt mem p [] = Unit
DigitsAt mem p (d ∷ ds) = IsDigitChar d (mem p) × DigitsAt mem (p + 1) ds

-- The value of digits behind `acc`, on 64 bits.
unfoldable pub value_of : ℕ → ℕ → List ℕ → ℕ
value_of base acc [] = acc
value_of base acc (d ∷ ds) = value_of base ((acc * base + d) % 2 ^ 64) ds

-- The byte is no digit of the base.
abbrev pub Stops : ℕ → ℕ → Type 0
Stops base c = (d : ℕ) → digit_of c ≡ some d → base ≤ d

pub digit_of-IsDigitChar : (d c : ℕ) → d < 36 → IsDigitChar d c → digit_of c ≡ some d
unfolding digit_of
digit_of-IsDigitChar d c h (inl e) = ground (arith, e)
digit_of-IsDigitChar d c h (inr e) = ground (arith, e)

after_digit_stop :
    (o : Option ℕ) (base : ℕ) (stop : Option (ℕ × ℕ)) (rest : ℕ → Option (ℕ × ℕ))
    → ((d : ℕ) → o ≡ some d → base ≤ d)
    → after_digit o base stop rest ≡ stop
after_digit_stop none base stop rest h = refl
after_digit_stop (some d) base stop rest h =
    let b : leb base d ≡ true = ground (arith, h d refl) in rw b refl

read_digits_lem :
    (ds : List ℕ) (fuel base s acc : ℕ) (mem : Memory)
    → base ≤ 36
    → All (λ d. d < base) ds
    → DigitsAt mem s ds
    → Stops base (mem (s + length ds))
    → length ds < fuel
    → read_digits fuel base s acc mem ≡ some (value_of base acc ds, s + length ds)
unfolding read_digits value_of
read_digits_lem ds zero base s acc mem hb all at stop lt = absurd (omega arith)
read_digits_lem [] (suc fuel) base s acc mem hb all at stop lt =
    let e : s + 0 ≡ s = omega arith in
    let stop' : Stops base (mem s) = rw e at stop in
    rw e (after_digit_stop (digit_of (mem s)) base (some (acc, s)) _ stop')
read_digits_lem (d ∷ ds) (suc fuel) base s acc mem hb all at stop lt =
    let e : s + suc (length ds) ≡ s + 1 + length ds = omega arith in
    let stop' : Stops base (mem (s + 1 + length ds)) = rw e at stop in
    let digit : digit_of (mem s) ≡ some d =
      digit_of-IsDigitChar d (mem s) (omega (arith, all.0)) at.0 in
    let b : leb base d ≡ false = ground (arith, all.0) in
    let rest =
      read_digits_lem ds fuel base (s + 1) ((acc * base + d) % 2 ^ 64) mem hb all.1 at.1 stop'
        (omega arith) in
    rw (digit, b, e) rest

skip_blanks_lem :
    (bs : List ℕ) (blank : ℕ → Bool) (fuel s : ℕ) (mem : Memory)
    → All (λ c. blank c ≡ true) bs
    → BytesAt mem s bs
    → blank (mem (s + length bs)) ≡ false
    → length bs < fuel
    → skip_blanks blank fuel s mem ≡ some (s + length bs)
unfolding skip_blanks
skip_blanks_lem bs blank zero s mem all at stop lt = absurd (omega arith)
skip_blanks_lem [] blank (suc fuel) s mem all at stop lt =
    let e : s + 0 ≡ s = omega arith in
    let stop' : blank (mem s) ≡ false = rw e at stop in rw (e, stop') refl
skip_blanks_lem (b ∷ bs) blank (suc fuel) s mem all at stop lt =
    let e : s + suc (length bs) ≡ s + 1 + length bs = omega arith in
    let stop' : blank (mem (s + 1 + length bs)) ≡ false = rw e at stop in
    let go : blank (mem s) ≡ true = ap blank at.0 ∙ all.0 in
    rw (go, e) (skip_blanks_lem bs blank fuel (s + 1) mem all.1 at.1 stop' (omega arith))

-- A sign as it is written.
pub data Sign : Type 0 where
  unsigned plus minus : Sign

abbrev pub sign_bytes : Sign → List ℕ
sign_bytes unsigned = []
sign_bytes plus = b'+' ∷ []
sign_bytes minus = b'-' ∷ []

abbrev pub is_minus : Sign → Bool
is_minus unsigned = false
is_minus plus = false
is_minus minus = true

IsDigitChar-sign :
    (d c : ℕ) → d < 36 → IsDigitChar d c → ((c == b'-') ≡ false) × ((c == b'+') ≡ false)
IsDigitChar-sign d c h (inl e) = (ground (arith, e), ground (arith, e))
IsDigitChar-sign d c h (inr e) = (ground (arith, e), ground (arith, e))

IsDigitChar-is_space : (d c : ℕ) → d < 36 → IsDigitChar d c → is_space c ≡ false
unfolding is_space
IsDigitChar-is_space d c h (inl e) = ground (arith, e)
IsDigitChar-is_space d c h (inr e) = ground (arith, e)

pub read_sign_lem :
    (sign : Sign) (d p : ℕ) (mem : Memory)
    → d < 36
    → BytesAt mem p (sign_bytes sign)
    → IsDigitChar d (mem (p + length (sign_bytes sign)))
    → read_sign p mem ≡ (is_minus sign, p + length (sign_bytes sign))
unfolding read_sign
read_sign_lem unsigned d p mem h at first =
    let e : p + 0 ≡ p = omega arith in
    let (m, q) = IsDigitChar-sign d (mem p) h (rw e at first) in rw (m, q, e) refl
read_sign_lem plus d p mem h at first = rw at.0 refl
read_sign_lem minus d p mem h at first = rw at.0 refl

read_prefix_lem :
    (base s : ℕ) (mem : Memory) → base ≢ 0 → base ≢ 16 → read_prefix base s mem ≡ (base, s)
unfolding read_prefix
read_prefix_lem base s mem h k =
    let z : (base == 0) ≡ false = ground arith in
    let x : (base == 16) ≡ false = ground arith in rw (z, x) refl

not_blank :
    (sign : Sign) (d p : ℕ) (mem : Memory)
    → d < 36
    → BytesAt mem p (sign_bytes sign)
    → IsDigitChar d (mem (p + length (sign_bytes sign)))
    → is_space (mem p) ≡ false
unfolding is_space
not_blank unsigned d p mem h at first =
    let e : p + 0 ≡ p = omega arith in IsDigitChar-is_space d (mem p) h (rw e at first)
not_blank plus d p mem h at first = rw at.0 refl
not_blank minus d p mem h at first = rw at.0 refl

-- `strtol` in a base from 2 to 36, but for 16, of white space, a sign, digits and a byte that is no
-- digit: the value of the digits, negated after a minus, on 64 bits, and the address behind them.
pub strtol-value_of :
    (fuel p base d : ℕ) (blanks ds : List ℕ) (sign : Sign) (mem : Memory)
    → 2 ≤ base
    → base ≤ 36
    → base ≢ 16
    → All (λ c. is_space c ≡ true) blanks
    → All (λ c. c < base) (d ∷ ds)
    → BytesAt mem p (blanks ++ sign_bytes sign)
    → DigitsAt mem (p + length blanks + length (sign_bytes sign)) (d ∷ ds)
    → Stops base (mem (p + length blanks + length (sign_bytes sign) + length (d ∷ ds)))
    → length blanks < fuel
    → length (d ∷ ds) < fuel
    → strtol fuel p base mem
      ≡ some (
        negated (is_minus sign) (value_of base 0 (d ∷ ds)),
        p + length blanks + length (sign_bytes sign) + length (d ∷ ds),
      )
unfolding strtol Option.bind value_of
strtol-value_of fuel p base d blanks ds sign mem lo hi hex bl all at at_digits stop lb ld =
    let (at_blanks, at_sign) = BytesAt-split mem p blanks _ at in
    let s = p + length blanks in
    let start = s + length (sign_bytes sign) in
    let small : d < 36 = omega (arith, all.0) in
    let black = not_blank sign d s mem small at_sign at_digits.0 in
    let blanks_read = skip_blanks_lem blanks is_space fuel p mem bl at_blanks black lb in
    let sign_read = read_sign_lem sign d s mem small at_sign at_digits.0 in
    let prefix = read_prefix_lem base start mem (omega arith) hex in
    let digits = read_digits_lem (d ∷ ds) fuel base start 0 mem hi all at_digits stop ld in
    let moved : (start + length (d ∷ ds) == start) ≡ false = ground arith in
    rw (blanks_read, sign_read, prefix, digits, moved) refl
