-- ===== src/Pmm/Linked/Walk.antt =====
-- The walk of `free` of mm/pmm.cpp along a free list in memory, with the block before at hand.
use native.Mathlib.Decide.{ℕ_discrete, dec_lt}
use helix_kernel.Prelude.{
  ℕ, zero, suc, ◌≤◌, ◌<◌, ◌≡◌, ◌≢◌, refl, sym, ◌∙◌, true, false, Option, none, some, List, [], ◌∷◌,
  All, length, arith, ◌==◌,
}
use helix_kernel.Pmm.{FreeLists, set_list, take_buddy, num_orders}
use helix_kernel.Pmm.Cover.{cover, cover_list}
use helix_kernel.Pmm.Valid.{ValidLists}
use helix_kernel.Pmm.Linked.{Lists, assign, walk_list}
use helix_kernel.Pmm.Linked.Chain.{
  Chain, Represents, Represents-set_list, Chain-assign, assign_self, assign_other, uncovered,
  first-covered, cover-two, above-empty,
}

-- What the walk does behind the block `prev`.
abbrev After : Lists → ℕ → List ℕ → Option (List ℕ) → Option (Option Lists) → Type 0
After s prev xs none r = r ≡ some none
After s prev xs (some ys) r =
    (l : ℕ → ℕ) × (r ≡ some (some (record s { links = l })))
    × Chain l (l prev) ys
    × ((y : ℕ) → All (λ x. x ≢ y) (prev ∷ xs) → l y ≡ s.links y)

After-next :
    (s : Lists) (prev x : ℕ) (xs : List ℕ) (t : Option (List ℕ)) (r : Option (Option Lists))
    → s.links prev ≡ x
    → x ≢ 0
    → All (λ z. z ≢ prev) (x ∷ xs)
    → After s x xs t r
    → After s prev (x ∷ xs) (elim t [ none ↦ none | some ys ↦ some (x ∷ ys) ]) r
After-next s prev x xs none r e pos apart a = a
After-next s prev x xs (some ys) r e pos apart (l, run, chain, kept) =
    (l, run, (kept prev apart ∙ e, pos, chain), λ y ne. kept y ne.1)

walk_list-After :
    (xs : List ℕ) (fuel buddy k prev : ℕ) (s : Lists)
    → length xs < fuel
    → prev ≢ 0
    → Chain s.links (s.links prev) xs
    → ((a : ℕ) → cover_list k (prev ∷ xs) a ≤ 1)
    → After s prev xs (take_buddy buddy xs) (walk_list fuel buddy k prev (s.links prev) s)
unfolding walk_list take_buddy cover_list
walk_list-After xs zero buddy k prev s lt pos c once = absurd (omega arith)
walk_list-After [] (suc fuel) buddy k prev s lt pos c once =
    let b : (s.links prev == 0) ≡ true = ground (arith, c) in rw b refl
walk_list-After (x ∷ xs) (suc fuel) buddy k prev s lt pos (e, nz, c) once =
    let apart : All (λ z. z ≢ prev) (x ∷ xs) =
      uncovered k prev (x ∷ xs) (omega (arith, once prev, first-covered k prev (x ∷ xs))) in
    let b : (x == 0) ≡ false = ground (arith, nz) in
    elim (ℕ_discrete x buddy) [
      | yes same ↦
          let here : (x == buddy) ≡ true = ground arith in
          let before : (prev == 0) ≡ false = ground (arith, pos) in
          let l = assign s.links prev (s.links x) in
          rw (walk_list, e, b, here, before)
            (
              l,
              refl,
              rw (assign_self s.links prev (s.links x))
                  (Chain-assign xs s.links (s.links x) prev (s.links x) apart.1 c),
              λ y ne. assign_other s.links prev (s.links x) y (λ q. ne.0 (sym q)),
            )
      | no other ↦
          let there : (x == buddy) ≡ false = ground arith in
          let rest =
            walk_list-After xs fuel buddy k x s (omega arith) nz c (λ a. omega (arith, once a)) in
          rw (walk_list, e, b, there)
            (After-next s prev x xs (take_buddy buddy xs) (walk_list fuel buddy k x (s.links x) s) e
              nz apart rest)
    ]

-- What the walk does from the head of the list of order `k` on.
abbrev pub Walked : Lists → ℕ → List ℕ → Option (List ℕ) → Option (Option Lists) → Type 0
Walked s k xs none r = r ≡ some none
Walked s k xs (some ys) r =
    (s' : Lists) × (r ≡ some (some s'))
    × Chain s'.links (s'.heads k) ys
    × ((j : ℕ) → j ≢ k → s'.heads j ≡ s.heads j)
    × ((y : ℕ) → All (λ x. x ≢ y) xs → s'.links y ≡ s.links y)

After-Walked :
    (s : Lists) (k x : ℕ) (xs : List ℕ) (t : Option (List ℕ)) (r : Option (Option Lists))
    → s.heads k ≡ x
    → x ≢ 0
    → After s x xs t r
    → Walked s k (x ∷ xs) (elim t [ none ↦ none | some ys ↦ some (x ∷ ys) ]) r
After-Walked s k x xs none r e pos a = a
After-Walked s k x xs (some ys) r e pos (l, run, chain, kept) =
    (record s { links = l }, run, (e, pos, chain), (λ j ne. refl), kept)

pub walk_list-Walked :
    (xs : List ℕ) (fuel buddy k : ℕ) (s : Lists)
    → length xs < fuel
    → Chain s.links (s.heads k) xs
    → ((a : ℕ) → cover_list k xs a ≤ 1)
    → Walked s k xs (take_buddy buddy xs) (walk_list fuel buddy k 0 (s.heads k) s)
unfolding walk_list take_buddy
walk_list-Walked xs zero buddy k s lt c once = absurd (omega arith)
walk_list-Walked [] (suc fuel) buddy k s lt c once =
    let b : (s.heads k == 0) ≡ true = ground (arith, c) in rw b refl
walk_list-Walked (x ∷ xs) (suc fuel) buddy k s lt (e, nz, c) once =
    let b : (x == 0) ≡ false = ground (arith, nz) in
    elim (ℕ_discrete x buddy) [
      | yes same ↦
          let here : (x == buddy) ≡ true = ground arith in
          let s' = record s { heads = assign s.heads k (s.links x) } in
          rw (walk_list, e, b, here)
            (
              s',
              refl,
              rw (assign_self s.heads k (s.links x)) c,
              (λ j ne. assign_other s.heads k (s.links x) j ne),
              λ y ne. refl,
            )
      | no other ↦
          let there : (x == buddy) ≡ false = ground arith in
          let rest = walk_list-After xs fuel buddy k x s (omega arith) nz c once in
          rw (walk_list, e, b, there)
            (After-Walked s k x xs (take_buddy buddy xs) (walk_list fuel buddy k x (s.links x) s) e
              nz rest)
    ]

pub Chain-same :
    (xs : List ℕ) (l l' : ℕ → ℕ) (a : ℕ) → All (λ x. l' x ≡ l x) xs → Chain l a xs → Chain l' a xs
Chain-same [] l l' a same c = c
Chain-same (x ∷ xs) l l' a (here, same) (e, pos, c) =
    (e, pos, rw here (Chain-same xs l l' (l x) same c))

pub All-map : {P Q : ℕ → Type 0} (xs : List ℕ) → ((x : ℕ) → P x → Q x) → All P xs → All Q xs
All-map [] f p = tt
All-map (x ∷ xs) f (p, ps) = (f x p, All-map xs f ps)

pub covered : (k : ℕ) (xs : List ℕ) → All (λ x. 0 < cover_list k xs x) xs
unfolding cover_list
covered k [] = tt
covered k (x ∷ xs) =
    (omega (arith, first-covered k x xs), All-map xs (λ y h. omega (arith, h)) (covered k xs))

-- The other lists keep their blocks.
pub Walked-Represents :
    (base max k buddy : ℕ) (s s' : Lists) (fl : FreeLists) (ys : List ℕ)
    → max < num_orders
    → k ≤ max
    → ValidLists base max fl
    → ((a : ℕ) → cover fl a ≤ 1)
    → Represents s fl
    → Chain s'.links (s'.heads k) ys
    → ((j : ℕ) → j ≢ k → s'.heads j ≡ s.heads j)
    → ((y : ℕ) → All (λ x. x ≢ y) (fl k) → s'.links y ≡ s.links y)
    → Represents s' (set_list fl k ys)
Walked-Represents base max k buddy s s' fl ys small le v once r chain heads kept =
    Represents-set_list s s' fl k ys chain λ j ne. elim (dec_lt j num_orders) [
      | yes low ↦
          let same =
            All-map (fl j)
              (λ x h. kept x (
                uncovered k x (fl k)
                  (omega (arith, h, once x, cover-two j k fl x ne low (omega arith)))))
              (covered j (fl j)) in
          rw (heads j ne) (Chain-same (fl j) s.links s'.links (s.heads j) same (r j))
      | no high ↦
          let empty = above-empty base max j (fl j) (omega arith) (v j) in
          rw (heads j ne) (Chain-same (fl j) s.links s'.links (s.heads j) (rw empty tt) (r j))
    ]
