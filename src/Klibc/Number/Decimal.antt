-- ===== src/Klibc/Number/Decimal.antt =====
-- `strtol` of klibc/cstring.cpp reads back every number that is written in one of its bases.
use native.Mathlib.Nat.{div-add-mod', mod-lt, div-lt_self}
use helix_kernel.Prelude.{
  ℕ, zero, suc, ◌+◌, ◌*◌, ◌/◌, ◌%◌, ◌^◌, ◌≤◌, ◌<◌, ◌≡◌, ◌≢◌, refl, ◌∙◌, ap, sym, inl, inr, true,
  some, List, [], ◌∷◌, ◌++◌, All, length, ltb, if◌then◌else◌, arith, Bool-cases, ltb→lt,
}
use helix_kernel.Klibc.{Memory, is_space}
use helix_kernel.Klibc.Number.{negated, strtol}
use helix_kernel.Klibc.Number.Digits.{
  BytesAt, DigitsAt, value_of, Stops, Sign, sign_bytes, is_minus, strtol-value_of,
}

-- The digits of a number, with fuel above it.
unfoldable pub digits_of : ℕ → ℕ → ℕ → List ℕ
digits_of zero base n = []
digits_of (suc f) base n =
    let rest = digits_of f base (n / base) ++ (n % base) ∷ [] in if ltb n base then n ∷ [] else rest

value_of-append :
    (xs : List ℕ) (base acc d : ℕ)
    → value_of base acc (xs ++ d ∷ []) ≡ (value_of base acc xs * base + d) % 2 ^ 64
unfolding value_of
value_of-append [] base acc d = refl
value_of-append (x ∷ xs) base acc d = value_of-append xs base ((acc * base + x) % 2 ^ 64) d

All-append : (P : ℕ → Type 0) (xs : List ℕ) (d : ℕ) → All P xs → P d → All P (xs ++ d ∷ [])
All-append P [] d h p = (p, tt)
All-append P (x ∷ xs) d h p = (h.0, All-append P xs d h.1 p)

value_of-digits_of :
    (f base n : ℕ) → 2 ≤ base → n < f → n < 2 ^ 64 → value_of base 0 (digits_of f base n) ≡ n
unfolding digits_of value_of
value_of-digits_of zero base n hb hf hn = absurd (omega arith)
value_of-digits_of (suc f) base n hb hf hn = elim (Bool-cases (ltb n base)) [
  | inl small ↦ rw small (omega arith)
  | inr large ↦
      let big : base ≤ n = ground (arith, large) in
      let less : n / base < n = div-lt_self (omega arith) (omega arith) in
      let ih =
        value_of-digits_of f base (n / base) hb (omega (arith, less)) (omega (arith, less)) in
      let whole = div-add-mod' n base in
      rw (large, value_of-append (digits_of f base (n / base)) base 0 (n % base), ih, whole)
        (omega arith)
]

digits_of-lt : (f base n : ℕ) → 2 ≤ base → All (λ d. d < base) (digits_of f base n)
unfolding digits_of
digits_of-lt zero base n hb = tt
digits_of-lt (suc f) base n hb = elim (Bool-cases (ltb n base)) [
  | inl small ↦ rw small (ltb→lt n base small, tt)
  | inr large ↦ rw large (
      All-append _ (digits_of f base (n / base)) (n % base) (digits_of-lt f base (n / base) hb)
        (mod-lt n (omega arith)))
]

append-cons : (xs : List ℕ) (d : ℕ) → (e : ℕ) × (es : List ℕ) × (xs ++ d ∷ [] ≡ e ∷ es)
append-cons [] d = (d, [], refl)
append-cons (x ∷ xs) d = (x, xs ++ d ∷ [], refl)

digits_of-cons : (f base n : ℕ) → (d : ℕ) × (ds : List ℕ) × (digits_of (suc f) base n ≡ d ∷ ds)
unfolding digits_of
digits_of-cons f base n = elim (Bool-cases (ltb n base)) [
  | inl small ↦ (n, [], rw small refl)
  | inr large ↦
      let (d, ds, e) = append-cons (digits_of f base (n / base)) (n % base) in (d, ds, rw large e)
]

-- White space, a sign and the digits of a number below 2^63 in a base from 2 to 36 other than 16,
-- each letter small or capital, and behind them a byte that is no digit of the base: `strtol`
-- returns the number, negated on 64 bits after a minus, and the address where its text ends.
pub strtol-digits_of :
    (fuel p base n : ℕ) (blanks : List ℕ) (sign : Sign) (mem : Memory)
    → 2 ≤ base
    → base ≤ 36
    → base ≢ 16
    → n < 2 ^ 63
    → All (λ c. is_space c ≡ true) blanks
    → let ds = digits_of (suc n) base n in
      BytesAt mem p (blanks ++ sign_bytes sign)
      → DigitsAt mem (p + length blanks + length (sign_bytes sign)) ds
      → Stops base (mem (p + length blanks + length (sign_bytes sign) + length ds))
      → length blanks < fuel
      → length ds < fuel
      → strtol fuel p base mem
        ≡ some (negated (is_minus sign) n, p + length blanks + length (sign_bytes sign) + length ds)
strtol-digits_of fuel p base n blanks sign mem lo hi hex hn bl at digits stop lb ld =
    let (d, ds, e) = digits_of-cons n base n in
    let all = digits_of-lt (suc n) base n lo in
    let value = value_of-digits_of (suc n) base n lo (omega arith) (omega arith) in
    let read =
      strtol-value_of fuel p base d blanks ds sign mem lo hi hex bl (rw e at all) at
        (rw e at digits) (rw e at stop) lb (rw e at ld) in
    let same : value_of base 0 (d ∷ ds) ≡ n = ap (value_of base 0) (sym e) ∙ value in
    rw e (rw same at read)
