-- ===== src/Klibc/Token/Duplicate.antt =====
-- The copy that `strdup` of klibc/cstring.cpp makes.
use native.Mathlib.Decide.{ℕ_discrete}
use helix_kernel.Prelude.{
  ℕ, suc, ◌+◌, ◌-◌, ◌^◌, ◌≤◌, ◌<◌, ◌≡◌, ◌⊎◌, refl, ◌∙◌, sym, ap, true, false, some, List, [], ◌∷◌,
  length, if◌then◌else◌, arith, ◌==◌,
}
use helix_kernel.Klibc.{Memory, store, memcpy}
use helix_kernel.Klibc.Move.{within, memmove_lem, memcpy-eq-memmove}
use helix_kernel.Klibc.Text.{StrAt, strlen-length}
use helix_kernel.Klibc.Copy.{StrAt-same, copied_at}
use helix_kernel.Klibc.Token.{strdup}

StrAt-end : (cs : List ℕ) (p : ℕ) (mem : Memory) → StrAt mem p cs → mem (p + length cs) ≡ 0
StrAt-end [] p mem at = let e : p + 0 ≡ p = omega arith in rw e at
StrAt-end (c ∷ cs) p mem at =
    let e : p + suc (length cs) ≡ p + 1 + length cs = omega arith in
    rw e (StrAt-end cs (p + 1) mem at.2)

module _ (new_str s n k : ℕ) (mem copied : Memory) where
  read_back :
      mem (s + n) ≡ 0
      → k ≤ n
      → ((y : ℕ) → copied y ≡ (if within new_str n y then mem (s + (y - new_str)) else mem y))
      → store copied (new_str + n) 0 (new_str + k) ≡ mem (s + k)
  unfolding store
  read_back end le copies = elim (ℕ_discrete k n) [
    | yes last ↦
        let b : (new_str + k == new_str + n) ≡ true = ground arith in
        rw b (sym end ∙ ap (λ j. mem (s + j)) (sym last))
    | no inner ↦
        let b : (new_str + k == new_str + n) ≡ false = ground arith in
        rw b (copies (new_str + k) ∙ copied_at new_str s n k mem (omega arith))
  ]

  outside :
      within new_str (n + 1) k ≡ false
      → copied k ≡ (if within new_str n k then mem (s + (k - new_str)) else mem k)
      → store copied (new_str + n) 0 k ≡ mem k
  unfolding store
  outside out copies = ground (arith, out, copies)

-- `strdup` of a string, where the memory that `malloc` gives shares no byte with it, leaves a copy
-- of the string there and changes no byte outside the copy.
pub strdup-StrAt :
    (fuel new_str s : ℕ) (cs : List ℕ) (mem : Memory)
    → StrAt mem s cs
    → length cs < fuel
    → length cs < 2 ^ 32
    → (new_str + length cs < s) ⊎ (s + length cs < new_str)
    → (mem' : Memory) × (strdup fuel new_str s mem ≡ some mem')
      × StrAt mem' new_str cs
      × ((x : ℕ) → within new_str (length cs + 1) x ≡ false → mem' x ≡ mem x)
unfolding strdup store
strdup-StrAt fuel new_str s cs mem at lf lw apart =
    let n = length cs in
    let copied = memcpy new_str s n mem in
    let mem' = store copied (new_str + n) 0 in
    let ordered : (new_str < s) ⊎ (s + n ≤ new_str) = ground arith in
    let same = memcpy-eq-memmove new_str s n mem ordered in
    let copies = λ (y : ℕ). ap (λ f. f y) same ∙ memmove_lem new_str s n mem y in
    let length_read = strlen-length fuel s mem cs at lf lw in
    let at_end = StrAt-end cs s mem at in
    (
      mem',
      rw length_read refl,
      StrAt-same mem mem' s new_str cs (λ k hk. read_back new_str s n k mem copied at_end hk copies)
          at,
      λ x out. outside new_str s n x mem copied out (copies x),
    )
