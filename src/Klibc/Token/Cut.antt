-- ===== src/Klibc/Token/Cut.antt =====
-- One call of `strtok_r` or `strtok` of klibc/cstring.cpp against the token that a string begins
-- with.
use mathlib.Core.Option
use mathlib.Core.Path.{subst}
use helix_kernel.Prelude.{
  ℕ, zero, suc, ◌+◌, ◌≤◌, ◌<◌, ◌≡◌, ◌≢◌, inl, refl, sym, ap, Bool, true, false, Option, none, some,
  List, [], ◌∷◌, length, ◌==◌, if◌then◌else◌, arith,
}
use helix_kernel.Klibc.{Memory, store}
use helix_kernel.Klibc.Text.{StrAt}
use helix_kernel.Klibc.Copy.{StrAt-store}
use helix_kernel.Klibc.Token.{skip, cut_token, strtok_r, strtok}
use helix_kernel.Klibc.Token.Split.{lead, drop, take, skip-lead}

-- What stands behind the delimiter that ends a token, if one does.
abbrev pub after : List ℕ → Option (List ℕ)
after [] = none
after (e ∷ es) = some es

-- The token at the start of a string that begins with no delimiter, and what stands behind it.
abbrev pub cut : List ℕ → List ℕ → Option (List ℕ × Option (List ℕ))
cut ds [] = none
cut ds (c ∷ cs) =
    some (take (lead false ds (c ∷ cs)) (c ∷ cs), after (drop (lead false ds (c ∷ cs)) (c ∷ cs)))

abbrev pub next_token : List ℕ → List ℕ → Option (List ℕ × Option (List ℕ))
next_token ds cs = cut ds (drop (lead true ds cs) cs)

-- A call returns the token as a string, `nullptr` for none, and leaves the rest as a string at the
-- address that it saves, 0 for none.
abbrev pub Returns : Memory → Option (List ℕ × Option (List ℕ)) → ℕ × ℕ × Memory → Type 0
Returns mem none r = r ≡ (0, 0, mem)
Returns mem (some (token, none)) (t, save, mem') = (t ≢ 0) × StrAt mem' t token × (save ≡ 0)
Returns mem (some (token, some more)) (t, save, mem') =
    (t ≢ 0) × StrAt mem' t token × (save ≢ 0) × StrAt mem' save more

lead-le : (wanted : Bool) (ds cs : List ℕ) → lead wanted ds cs ≤ length cs
unfolding lead
lead-le wanted ds [] = omega arith
lead-le true ds (c ∷ cs) = ground (arith, lead-le true ds cs)
lead-le false ds (c ∷ cs) = ground (arith, lead-le false ds cs)

length-drop_le : (n : ℕ) (cs : List ℕ) → length (drop n cs) ≤ length cs
length-drop_le zero cs = omega arith
length-drop_le (suc n) [] = omega arith
length-drop_le (suc n) (c ∷ cs) = omega (arith, length-drop_le n cs)

StrAt-drop :
    (n p : ℕ) (cs : List ℕ) (mem : Memory)
    → n ≤ length cs
    → StrAt mem p cs
    → StrAt mem (p + n) (drop n cs)
StrAt-drop zero p cs mem h at = let e : p + 0 ≡ p = omega arith in rw e at
StrAt-drop (suc n) p [] mem h at = absurd (omega arith)
StrAt-drop (suc n) p (c ∷ cs) mem h at =
    let e : p + suc n ≡ p + 1 + n = omega arith in
    rw e (StrAt-drop n (p + 1) cs mem (omega arith) at.2)

-- A zero written behind `n` bytes ends the string there.
StrAt-take :
    (n p : ℕ) (cs : List ℕ) (mem : Memory)
    → n ≤ length cs
    → StrAt mem p cs
    → StrAt (store mem (p + n) 0) p (take n cs)
unfolding store
StrAt-take zero p cs mem h at = ground arith
StrAt-take (suc n) p [] mem h at = absurd (omega arith)
StrAt-take (suc n) p (c ∷ cs) mem h at =
    let e : p + suc n ≡ p + 1 + n = omega arith in
    (
      ground arith,
      at.1,
      subst (λ a. StrAt (store mem a 0) (p + 1) (take n cs)) (sym e)
          (StrAt-take n (p + 1) cs mem (omega arith) at.2),
    )

take_all : (n : ℕ) (cs : List ℕ) → drop n cs ≡ [] → take n cs ≡ cs
take_all zero cs e = sym e
take_all (suc n) [] e = refl
take_all (suc n) (c ∷ cs) e = ap (λ l. c ∷ l) (take_all n cs e)

module _ (d fuel : ℕ) (ds : List ℕ) (mem : Memory) (at_d : StrAt mem d ds) (pos : 0 < d)
    (ld : length ds < fuel) where
  -- The end of a token that starts at `s`.
  cut_end :
      (s : ℕ) (cs rest : List ℕ)
      → s ≢ 0
      → StrAt mem s cs
      → drop (lead false ds cs) cs ≡ rest
      → let e = s + lead false ds cs in
        Returns mem
          (some (take (lead false ds cs) cs, after rest))
          (if mem e == 0 then (s, 0, mem) else (s, e + 1, store mem e 0))
  cut_end s cs [] ns at e =
      let k = lead false ds cs in
      let end : mem (s + k) ≡ 0 = rw e at (StrAt-drop k s cs mem (lead-le false ds cs) at) in
      let b : (mem (s + k) == 0) ≡ true = ground (arith, end) in
      rw (b, take_all k cs e) (ns, at, refl)
  cut_end s cs (c ∷ rest) ns at e =
      let k = lead false ds cs in
      let behind : StrAt mem (s + k) (c ∷ rest) =
        rw e at (StrAt-drop k s cs mem (lead-le false ds cs) at) in
      let b : (mem (s + k) == 0) ≡ false = ground (arith, behind.0, behind.1) in
      rw b (
        ns,
        StrAt-take k s cs mem (lead-le false ds cs) at,
        omega arith,
        StrAt-store mem (s + k) 0 (s + k + 1) rest (inl (omega arith)) behind.2,
      )

  cut_token-cut :
      (s : ℕ) (cs : List ℕ)
      → s ≢ 0
      → StrAt mem s cs
      → length cs < fuel
      → (r : ℕ × ℕ × Memory) × (cut_token fuel s d mem ≡ some r) × Returns mem (cut ds cs) r
  unfolding cut_token
  cut_token-cut s [] ns at lt = ((0, 0, mem), rw at refl, refl)
  cut_token-cut s (c ∷ cs) ns at lt =
      let go : (mem s == 0) ≡ false = ground (arith, at.0, at.1) in
      let end = skip-lead d ds mem at_d pos false (c ∷ cs) fuel fuel s at lt ld in
      (
        (let e = s + lead false ds (c ∷ cs) in
            if mem e == 0 then (s, 0, mem) else (s, e + 1, store mem e 0)),
        rw (go, end) refl,
        cut_end s (c ∷ cs) (drop (lead false ds (c ∷ cs)) (c ∷ cs)) ns at refl,
      )

  strtok_r-run :
      (str saveptr p start : ℕ) (r : ℕ × ℕ × Memory)
      → (if str == 0 then saveptr else str) ≡ p
      → p ≢ 0
      → skip true fuel fuel p d mem ≡ some start
      → cut_token fuel start d mem ≡ some r
      → strtok_r fuel str d saveptr mem ≡ some r
  unfolding strtok_r Option.bind
  strtok_r-run str saveptr p start r here np skipped run =
      let b : (p == 0) ≡ false = ground arith in rw (here, b, skipped) run

  -- `strtok_r` on a string, given or saved by the call before, returns the next token as a string
  -- of its own and saves where the rest stands; it returns `nullptr` where only delimiters are left.
  pub strtok_r-next_token :
      (str saveptr p : ℕ) (cs : List ℕ)
      → (if str == 0 then saveptr else str) ≡ p
      → p ≢ 0
      → StrAt mem p cs
      → length cs < fuel
      → (r : ℕ × ℕ × Memory) × (strtok_r fuel str d saveptr mem ≡ some r)
        × Returns mem (next_token ds cs) r
  strtok_r-next_token str saveptr p cs here np at lt =
      let n = lead true ds cs in
      let start = skip-lead d ds mem at_d pos true cs fuel fuel p at lt ld in
      let (r, run, ret) =
        cut_token-cut (p + n) (drop n cs) (omega (arith, np))
          (StrAt-drop n p cs mem (lead-le true ds cs) at) (omega (arith, length-drop_le n cs)) in
      (r, strtok_r-run str saveptr p (p + n) r here np start run, ret)

-- `strtok`, with its static pointer, returns what `strtok_r` does.
pub strtok-eq-strtok_r :
    (fuel str delim next : ℕ) (mem : Memory)
    → strtok fuel str delim next mem ≡ strtok_r fuel str delim next mem
unfolding strtok strtok_r cut_token Option.bind
strtok-eq-strtok_r fuel str delim next mem = ground arith
