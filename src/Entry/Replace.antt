-- ===== src/Entry/Replace.antt =====
-- What the first loop of entry.cpp leaves of the command line.
use helix_kernel.Prelude.{
  ℕ, zero, suc, ◌+◌, ◌<◌, ◌≡◌, refl, sym, ap, ◌∙◌, true, false, some, List, [], ◌∷◌, length, ◌==◌,
  if◌then◌else◌, arith, Bool-cases, inl, inr,
}
use mathlib.Core.Path.{subst}
use helix_kernel.Klibc.{Memory, store}
use helix_kernel.Klibc.Text.{StrAt}
use helix_kernel.Klibc.Copy.{StrAt-store}
use helix_kernel.Entry.{cmdline_length, replace_spaces}

-- The string `cs` with zeros for its spaces.
abbrev pub Blanked : Memory → ℕ → List ℕ → Type 0
Blanked mem p [] = mem p ≡ 0
Blanked mem p (c ∷ cs) = (mem p ≡ (if c == b' ' then 0 else c)) × (0 < c) × Blanked mem (p + 1) cs

unfoldable pub spaces : List ℕ → ℕ
spaces [] = 0
spaces (c ∷ cs) = let rest = spaces cs in if c == b' ' then suc rest else rest

pub cmdline_length-length :
    (cs : List ℕ) (fuel c i : ℕ) (mem : Memory)
    → StrAt mem (c + i) cs
    → length cs < fuel
    → cmdline_length fuel c i mem ≡ some (i + length cs)
unfolding cmdline_length
cmdline_length-length cs zero c i mem at lt = absurd (omega arith)
cmdline_length-length [] (suc fuel) c i mem at lt = rw at (ap (λ n. some n) (omega arith))
cmdline_length-length (x ∷ xs) (suc fuel) c i mem at lt =
    let go : (mem (c + i) == 0) ≡ false = ground arith in
    let next : StrAt mem (c + (i + 1)) xs =
      let e : c + (i + 1) ≡ c + i + 1 = omega arith in rw e (at.2) in
    rw go (
      cmdline_length-length xs fuel c (i + 1) mem next (omega arith)
      ∙ ap (λ n. some n) (omega arith))

-- Bytes before the place that the first loop has come to are not written.
replace_spaces-before :
    (r i c argc x : ℕ) (mem : Memory) → x < c + i → (replace_spaces r i c argc mem).1 x ≡ mem x
unfolding replace_spaces store
replace_spaces-before zero i c argc x mem lt = refl
replace_spaces-before (suc r) i c argc x mem lt = elim (Bool-cases (mem (c + i) == b' ')) [
  | inl space ↦
      rw (replace_spaces, space)
        (replace_spaces-before r (i + 1) c (argc + 1) x (store mem (c + i) 0) (omega arith)
          ∙ ground arith)
  | inr other ↦
      rw (replace_spaces, other) (replace_spaces-before r (i + 1) c argc x mem (omega arith))
]

replace_spaces-none : (i c argc : ℕ) (mem : Memory) → replace_spaces zero i c argc mem ≡ (argc, mem)
unfolding replace_spaces
replace_spaces-none i c argc mem = refl

replace_spaces-space :
    (r i c argc : ℕ) (mem : Memory)
    → (mem (c + i) == b' ') ≡ true
    → replace_spaces (suc r) i c argc mem
      ≡ replace_spaces r (i + 1) c (argc + 1) (store mem (c + i) 0)
unfolding replace_spaces
replace_spaces-space r i c argc mem h = rw (replace_spaces, h) refl

replace_spaces-other :
    (r i c argc : ℕ) (mem : Memory)
    → (mem (c + i) == b' ') ≡ false
    → replace_spaces (suc r) i c argc mem ≡ replace_spaces r (i + 1) c argc mem
unfolding replace_spaces
replace_spaces-other r i c argc mem h = rw (replace_spaces, h) refl

-- What the first loop leaves: the number of arguments, and zeros for the spaces.
abbrev pub Replaced : ℕ → ℕ → List ℕ → ℕ × Memory → Type 0
Replaced argc p cs (argc', mem') = (argc' ≡ argc + spaces cs) × Blanked mem' p cs

pub replace_spaces-Replaced :
    (cs : List ℕ) (i c argc : ℕ) (mem : Memory)
    → StrAt mem (c + i) cs
    → Replaced argc (c + i) cs (replace_spaces (length cs) i c argc mem)
unfolding spaces store
replace_spaces-Replaced [] i c argc mem at =
    subst (Replaced argc (c + i) []) (sym (replace_spaces-none i c argc mem)) (omega arith, at)
replace_spaces-Replaced (x ∷ xs) i c argc mem at =
    let e : c + (i + 1) ≡ c + i + 1 = omega arith in
    elim (Bool-cases (x == b' ')) [
      | inl space ↦
          let mem1 = store mem (c + i) 0 in
          let at1 : StrAt mem1 (c + (i + 1)) xs =
            rw e (StrAt-store mem (c + i) 0 (c + i + 1) xs (inl (omega arith)) at.2) in
          let (counted, rest) = replace_spaces-Replaced xs (i + 1) c (argc + 1) mem1 at1 in
          let kept =
            replace_spaces-before (length xs) (i + 1) c (argc + 1) (c + i) mem1 (omega arith) in
          let zeroed : mem1 (c + i) ≡ 0 = ground arith in
          let step = replace_spaces-space (length xs) i c argc mem (rw at.0 space) in
          subst (Replaced argc (c + i) (x ∷ xs)) (sym step)
            (rw space (counted ∙ omega arith, (kept ∙ zeroed, at.1, rw e at rest)))
      | inr other ↦
          let at1 : StrAt mem (c + (i + 1)) xs = rw e at.2 in
          let (counted, rest) = replace_spaces-Replaced xs (i + 1) c argc mem at1 in
          let kept = replace_spaces-before (length xs) (i + 1) c argc (c + i) mem (omega arith) in
          let step = replace_spaces-other (length xs) i c argc mem (rw at.0 other) in
          subst (Replaced argc (c + i) (x ∷ xs)) (sym step)
            (rw other (counted, (kept ∙ at.0, at.1, rw e at rest)))
    ]
