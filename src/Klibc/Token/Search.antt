-- ===== src/Klibc/Token/Search.antt =====
-- `strstr` of klibc/cstring.cpp finds the first occurrence of a string.
use helix_kernel.Prelude.{
  ℕ, zero, suc, ◌+◌, ◌<◌, ◌≡◌, inl, inr, refl, ap, Bool, true, false, Option, none, some, List, [],
  ◌∷◌, length, ◌==◌, if◌then◌else◌, arith, Bool-cases,
}
use helix_kernel.Klibc.{Memory}
use helix_kernel.Klibc.Text.{StrAt}
use helix_kernel.Klibc.Find.{address_of}
use helix_kernel.Klibc.Token.{match_from, strstr_loop, strstr}

unfoldable pub starts_with : List ℕ → List ℕ → Bool
starts_with [] ys = true
starts_with (x ∷ xs) [] = false
starts_with (x ∷ xs) (y ∷ ys) = let rest = starts_with xs ys in if y == x then rest else false

-- The first position at which the second list begins with the first.
unfoldable pub find_list : List ℕ → List ℕ → Option ℕ
find_list xs [] = if starts_with xs [] then some 0 else none
find_list xs (y ∷ ys) =
    let rest = find_list xs ys in
    if starts_with xs (y ∷ ys) then some 0 else elim rest [ none ↦ none | some i ↦ some (suc i) ]

match_from-starts_with :
    (xs ys : List ℕ) (fuel h n : ℕ) (mem : Memory)
    → StrAt mem n xs
    → StrAt mem h ys
    → length xs < fuel
    → (a : ℕ) × (match_from fuel h n mem ≡ some a) × ((mem a == 0) ≡ starts_with xs ys)
unfolding match_from starts_with
match_from-starts_with xs ys zero h n mem ax ay lt = absurd (omega arith)
match_from-starts_with [] [] (suc fuel) h n mem ax ay lt =
    (n, ground (arith, ax, ay), ground (arith, ax))
match_from-starts_with [] (y ∷ ys) (suc fuel) h n mem ax ay lt =
    (n, ground (arith, ax, ay.0), ground (arith, ax))
match_from-starts_with (x ∷ xs) [] (suc fuel) h n mem ax ay lt =
    (n, ground (arith, ax.0, ay), ground (arith, ax.0, ax.1))
match_from-starts_with (x ∷ xs) (y ∷ ys) (suc fuel) h n mem ax ay lt =
    let (a, run, test) =
      match_from-starts_with xs ys fuel (h + 1) (n + 1) mem ax.2 ay.2 (omega arith) in
    elim (Bool-cases (y == x)) [
      | inl same ↦ (a, ground (arith, ax.0, ay.0, ax.1, run, same), rw same test)
      | inr other ↦ (n, ground (arith, ax.0, ay.0, other), ground (arith, ax.0, ax.1, other))
    ]

shift :
    (h : ℕ) (o : Option ℕ)
    → address_of (h + 1) o ≡ address_of h (elim o [ none ↦ none | some i ↦ some (suc i) ])
shift h none = refl
shift h (some i) = omega arith

empty_at_start : (h : ℕ) (ys : List ℕ) → h ≡ address_of h (find_list [] ys)
unfolding find_list starts_with
empty_at_start h [] = omega arith
empty_at_start h (y ∷ ys) = omega arith

strstr_loop-find_list :
    (ys : List ℕ) (f fuel h n x : ℕ) (xs : List ℕ) (mem : Memory)
    → StrAt mem n (x ∷ xs)
    → StrAt mem h ys
    → length ys < f
    → length (x ∷ xs) < fuel
    → strstr_loop f fuel h n mem ≡ some (address_of h (find_list (x ∷ xs) ys))
unfolding strstr_loop find_list
strstr_loop-find_list ys zero fuel h n x xs mem ax ay lt lf = absurd (omega arith)
strstr_loop-find_list [] (suc f) fuel h n x xs mem ax ay lt lf = unfold starts_with in rw ay refl
strstr_loop-find_list (y ∷ ys) (suc f) fuel h n x xs mem ax ay lt lf =
    let go : (mem h == 0) ≡ false = ground (arith, ay.0, ay.1) in
    let (a, run, test) = match_from-starts_with (x ∷ xs) (y ∷ ys) fuel h n mem ax ay lf in
    let ih = strstr_loop-find_list ys f fuel (h + 1) n x xs mem ax ay.2 (omega arith) lf in
    elim (Bool-cases (starts_with (x ∷ xs) (y ∷ ys))) [
      | inl hit ↦ ground (arith, go, run, test, hit)
      | inr miss ↦ ground (arith, go, run, test, miss, ih, shift h (find_list (x ∷ xs) ys))
    ]

-- `strstr` returns the address of the first occurrence of the string, the start for an empty one,
-- and `nullptr` where there is none.
pub strstr-find_list :
    (fuel h n : ℕ) (xs ys : List ℕ) (mem : Memory)
    → StrAt mem n xs
    → StrAt mem h ys
    → length xs < fuel
    → length ys < fuel
    → strstr fuel h n mem ≡ some (address_of h (find_list xs ys))
unfolding strstr
strstr-find_list fuel h n [] ys mem ax ay lx ly = rw ax (ap (λ a. some a) (empty_at_start h ys))
strstr-find_list fuel h n (x ∷ xs) ys mem ax ay lx ly =
    let go : (mem n == 0) ≡ false = ground (arith, ax.0, ax.1) in
    rw go (strstr_loop-find_list ys fuel fuel h n x xs mem ax ay ly lx)
