-- ===== src/Klibc/Text.antt =====
-- The string functions of klibc/cstring.cpp on strings that end in a zero byte.
use helix_kernel.Prelude.{
  ℕ, zero, suc, ◌+◌, ◌%◌, ◌^◌, ◌<◌, ◌≡◌, inl, inr, ◌↔◌, arith, if◌then◌else◌, ◌==◌, false,
  Bool-cases, pos, ℤ, sub_ℕ, List, [], ◌∷◌, some, length, ◌∙◌, ap, sym,
}
use mathlib.Core.Option.{some-injective}
use helix_kernel.Klibc.{Memory, strlen_loop, strlen, strcmp}

-- The string of the bytes `cs` stands at the address `p`.
abbrev pub StrAt : Memory → ℕ → List ℕ → Type 0
StrAt mem p [] = mem p ≡ 0
StrAt mem p (c ∷ cs) = (mem p ≡ c) × (0 < c) × StrAt mem (p + 1) cs

strlen_loop_lem :
    (fuel str len : ℕ) (mem : Memory) (cs : List ℕ)
    → StrAt mem (str + len) cs
    → length cs < fuel
    → len + length cs < 2 ^ 32
    → strlen_loop fuel str len mem ≡ some (len + length cs)
unfolding strlen_loop
strlen_loop_lem zero str len mem cs s f w = absurd (omega arith)
strlen_loop_lem (suc fuel) str len mem [] s f w = rw s (ap (λ n. some n) (omega arith))
strlen_loop_lem (suc fuel) str len mem (c ∷ cs) s f w =
    let small : (len + 1) % 2 ^ 32 ≡ len + 1 = omega arith in
    let go : (mem (str + len) == 0) ≡ false = ground arith in
    let at : StrAt mem (str + (len + 1)) cs =
      let e : str + (len + 1) ≡ str + len + 1 = omega arith in rw e (s.2) in
    rw (go, small)
      (strlen_loop_lem fuel str (len + 1) mem cs at (omega arith) (omega arith)
        ∙ ap (λ n. some n) (omega arith))

-- `strlen` is the number of bytes before the zero, where that fits `unsigned int`.
pub strlen-length :
    (fuel str : ℕ) (mem : Memory) (cs : List ℕ)
    → StrAt mem str cs
    → length cs < fuel
    → length cs < 2 ^ 32
    → strlen fuel str mem ≡ some (length cs)
unfolding strlen
strlen-length fuel str mem cs s f w =
    let e : str + 0 ≡ str = omega arith in
    strlen_loop_lem fuel str 0 mem cs (rw e s) f (omega arith) ∙ ap (λ n. some n) (omega arith)

-- The first difference of two byte strings, each taken to end in a zero.
unfoldable pub difference : List ℕ → List ℕ → ℤ
difference [] [] = pos 0
difference [] (y ∷ ys) = sub_ℕ 0 y
difference (x ∷ xs) [] = pos x
difference (x ∷ xs) (y ∷ ys) = let rest = difference xs ys in if x == y then rest else sub_ℕ x y

pub strcmp_lem :
    (fuel s1 s2 : ℕ) (mem : Memory) (xs ys : List ℕ)
    → StrAt mem s1 xs
    → StrAt mem s2 ys
    → length xs < fuel
    → strcmp fuel s1 s2 mem ≡ some (difference xs ys)
unfolding strcmp difference
strcmp_lem zero s1 s2 mem xs ys s t f = absurd (omega arith)
strcmp_lem (suc fuel) s1 s2 mem [] [] s t f = rw (s, t)
strcmp_lem (suc fuel) s1 s2 mem [] (y ∷ ys) s t f = rw (s, t.0)
strcmp_lem (suc fuel) s1 s2 mem (x ∷ xs) [] s t f =
    let differs : (x == 0) ≡ false = ground arith in rw (s.0, t, differs) (ground arith)
strcmp_lem (suc fuel) s1 s2 mem (x ∷ xs) (y ∷ ys) s t f =
    let some_byte : (x == 0) ≡ false = ground arith in
    elim (Bool-cases (x == y)) [
      | inl same ↦
          rw (s.0, t.0, some_byte, same)
            (strcmp_lem fuel (s1 + 1) (s2 + 1) mem xs ys s.2 t.2 (omega arith))
      | inr differs ↦ rw (s.0, t.0, some_byte, differs)
    ]

-- No byte of the list is zero.
abbrev pub NoZero : List ℕ → Type 0
NoZero [] = Unit
NoZero (x ∷ xs) = (0 < x) × NoZero xs

difference-eq_zero :
    (xs ys : List ℕ) → NoZero xs → NoZero ys → (difference xs ys ≡ pos 0) ↔ (xs ≡ ys)
unfolding difference
difference-eq_zero [] [] p q = ground arith
difference-eq_zero [] (y ∷ ys) p q = ground arith
difference-eq_zero (x ∷ xs) [] p q = ground arith
difference-eq_zero (x ∷ xs) (y ∷ ys) p q = ground (arith, difference-eq_zero xs ys p.1 q.1)

NoZero-StrAt : (mem : Memory) (p : ℕ) (cs : List ℕ) → StrAt mem p cs → NoZero cs
NoZero-StrAt mem p [] s = tt
NoZero-StrAt mem p (c ∷ cs) s = (s.1, NoZero-StrAt mem (p + 1) cs s.2)

-- `strcmp` of two strings returns 0 exactly when they are equal.
pub strcmp-eq_zero :
    (fuel s1 s2 : ℕ) (mem : Memory) (xs ys : List ℕ)
    → StrAt mem s1 xs
    → StrAt mem s2 ys
    → length xs < fuel
    → (strcmp fuel s1 s2 mem ≡ some (pos 0)) ↔ (xs ≡ ys)
strcmp-eq_zero fuel s1 s2 mem xs ys s t f =
    let run = strcmp_lem fuel s1 s2 mem xs ys s t f in
    let (there, back) =
      difference-eq_zero xs ys (NoZero-StrAt mem s1 xs s) (NoZero-StrAt mem s2 ys t) in
    ((λ e. there (some-injective _ _ (sym run ∙ e))), (λ e. run ∙ ap (λ d. some d) (back e)))
