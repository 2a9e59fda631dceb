-- ===== src/Klibc/Find.antt =====
-- Searching a string of klibc/cstring.cpp for a byte.
use helix_kernel.Prelude.{
  ℕ, zero, suc, ◌+◌, ◌%◌, ◌^◌, ◌<◌, ◌≡◌, inl, inr, refl, arith, if◌then◌else◌, ◌==◌, false,
  Bool-cases, List, [], ◌∷◌, Option, none, some, length, ap,
}
use helix_kernel.Klibc.Text.{StrAt}
use helix_kernel.Klibc.{Memory, strchr}

-- The position of the first byte that is `c`.
unfoldable pub find_byte : ℕ → List ℕ → Option ℕ
find_byte c [] = none
find_byte c (x ∷ xs) =
    let rest = find_byte c xs in
    if x == c then some 0 else elim rest [ none ↦ none | some i ↦ some (suc i) ]

abbrev pub address_of : ℕ → Option ℕ → ℕ
address_of p none = 0
address_of p (some i) = p + i

-- `strchr` returns the address of the first byte that is `c`, or `nullptr`. The zero at the end
-- does not count, also for `c` = 0.
pub strchr-find_byte :
    (fuel str c : ℕ) (mem : Memory) (cs : List ℕ)
    → StrAt mem str cs
    → length cs < fuel
    → strchr fuel str c mem ≡ some (address_of str (find_byte (c % 2 ^ 8) cs))
unfolding strchr find_byte
strchr-find_byte zero str c mem cs s f = absurd (omega arith)
strchr-find_byte (suc fuel) str c mem [] s f = rw s
strchr-find_byte (suc fuel) str c mem (x ∷ xs) s f =
    let go : (x == 0) ≡ false = ground arith in
    let ih = strchr-find_byte fuel (str + 1) c mem xs s.2 (omega arith) in
    elim (Bool-cases (x == c % 2 ^ 8)) [
      | inl hit ↦ rw (s.0, go, hit) (ap (λ n. some n) (omega arith))
      | inr miss ↦ rw (s.0, go, miss, ih) (ap (λ n. some n) (shift (find_byte (c % 2 ^ 8) xs)))
    ]
  where
    shift :
        (o : Option ℕ)
        → address_of (str + 1) o ≡ address_of str (elim o [ none ↦ none | some i ↦ some (suc i) ])
    shift none = refl
    shift (some i) = omega arith
