-- ===== src/Klibc/Token/Split.antt =====
-- How `strtok_r` and `strtok` of klibc/cstring.cpp cut a string at the bytes of another.
use helix_kernel.Prelude.{
  ℕ, zero, suc, ◌+◌, ◌%◌, ◌^◌, ◌<◌, ◌≡◌, refl, ap, Bool, true, false, Option, none, some, List, [],
  ◌∷◌, length, ◌==◌, if◌then◌else◌, not, arith,
}
use helix_kernel.Klibc.{Memory, strchr}
use helix_kernel.Klibc.Text.{StrAt}
use helix_kernel.Klibc.Find.{find_byte, address_of, strchr-find_byte}
use helix_kernel.Klibc.Token.{skip}

abbrev pub is_some : Option ℕ → Bool
is_some none = false
is_some (some i) = true

-- The byte is one of the delimiters.
unfoldable pub is_delim : List ℕ → ℕ → Bool
is_delim ds c = is_some (find_byte (c % 2 ^ 8) ds)

-- How many bytes at the start are delimiters, or, with `wanted` false, are none.
unfoldable pub lead : Bool → List ℕ → List ℕ → ℕ
lead wanted ds [] = 0
lead true ds (c ∷ cs) = if is_delim ds c then suc (lead true ds cs) else 0
lead false ds (c ∷ cs) = if is_delim ds c then 0 else suc (lead false ds cs)

abbrev pub drop : ℕ → List ℕ → List ℕ
drop zero cs = cs
drop (suc n) [] = []
drop (suc n) (c ∷ cs) = drop n cs

abbrev pub take : ℕ → List ℕ → List ℕ
take zero cs = []
take (suc n) [] = []
take (suc n) (c ∷ cs) = c ∷ take n cs

module _ (d : ℕ) (ds : List ℕ) (mem : Memory) (at_d : StrAt mem d ds) (pos : 0 < d) where
  found-is_delim :
      (fuel c : ℕ)
      → length ds < fuel
      → (a : ℕ) × (strchr fuel d c mem ≡ some a) × ((a == 0) ≡ not (is_delim ds c))
  unfolding is_delim
  found-is_delim fuel c lt = (
    address_of d (find_byte (c % 2 ^ 8) ds),
    strchr-find_byte fuel d c mem ds at_d lt,
    zero_or_not (find_byte (c % 2 ^ 8) ds),
  )
    where
      zero_or_not : (o : Option ℕ) → (address_of d o == 0) ≡ not (is_some o)
      zero_or_not none = refl
      zero_or_not (some i) = ground arith

  pub skip-lead :
      (wanted : Bool) (cs : List ℕ) (f fuel s : ℕ)
      → StrAt mem s cs
      → length cs < f
      → length ds < fuel
      → skip wanted f fuel s d mem ≡ some (s + lead wanted ds cs)
  unfolding skip lead
  skip-lead wanted cs zero fuel s at lt ld = absurd (omega arith)
  skip-lead true [] (suc f) fuel s at lt ld = rw at (ap (λ n. some n) (omega arith))
  skip-lead false [] (suc f) fuel s at lt ld = rw at (ap (λ n. some n) (omega arith))
  skip-lead true (c ∷ cs) (suc f) fuel s at lt ld =
      let go : (mem s == 0) ≡ false = ground arith in
      let (a, run, test) = found-is_delim fuel (mem s) ld in
      let ih = skip-lead true cs f fuel (s + 1) at.2 (omega arith) ld in
      ground (arith, run, test, ih, ap (is_delim ds) at.0)
  skip-lead false (c ∷ cs) (suc f) fuel s at lt ld =
      let go : (mem s == 0) ≡ false = ground arith in
      let (a, run, test) = found-is_delim fuel (mem s) ld in
      let ih = skip-lead false cs f fuel (s + 1) at.2 (omega arith) ld in
      ground (arith, run, test, ih, ap (is_delim ds) at.0)
