-- ===== src/Hlec/Chain.antt =====
-- The chain of events of hlec/hlec.cpp as a list of addresses, and the search along it.
use native.Mathlib.Decide.{ℕ_discrete}
use helix_kernel.Prelude.{
  ℕ, zero, suc, true, false, ◌<◌, ◌≡◌, ◌≢◌, refl, ap, some, List, [], ◌∷◌, All, length, ◌==◌,
  if◌then◌else◌, arith, ◌⊎◌, inl, inr,
}
use helix_kernel.Hlec.{Event, Heap, Manager, write, get_event_for_id}

-- The events from `a` on are those at the addresses of the list.
abbrev pub Chain : Heap → ℕ → List ℕ → Type 0
Chain h a [] = a ≡ 0
Chain h a (x ∷ xs) = (a ≡ x) × (x ≢ 0) × Chain h (h x).ev_next xs

abbrev pub Absent : Heap → ℕ → List ℕ → Type 0
Absent h event_id xs = All (λ x. (h x).ev_id ≢ event_id) xs

abbrev pub DistinctIds : Heap → List ℕ → Type 0
DistinctIds h [] = Unit
DistinctIds h (x ∷ xs) = Absent h (h x).ev_id xs × DistinctIds h xs

-- The manager holds these events, in this order; identifiers are distinct and given out.
pub record Holds (m : Manager) (xs : List ℕ) : Type 0 where
  pub chain : Chain m.heap m.first_event xs
  pub distinct : DistinctIds m.heap xs
  pub issued : All (λ x. (m.heap x).ev_id < m.last_id) xs

-- The first event with the identifier, or `nullptr`.
unfoldable pub lookup_id : Heap → ℕ → List ℕ → ℕ
lookup_id h event_id [] = 0
lookup_id h event_id (x ∷ xs) = if (h x).ev_id == event_id then x else lookup_id h event_id xs

-- The list without the first event with the identifier.
unfoldable pub erase_id : Heap → ℕ → List ℕ → List ℕ
erase_id h event_id [] = []
erase_id h event_id (x ∷ xs) = if (h x).ev_id == event_id then xs else x ∷ erase_id h event_id xs

pub All-map : {P Q : ℕ → Type 0} (xs : List ℕ) → ((x : ℕ) → P x → Q x) → All P xs → All Q xs
All-map [] f p = tt
All-map (x ∷ xs) f (p, ps) = (f x p, All-map xs f ps)

-- A write at an event outside the list.
pub Chain-write :
    (xs : List ℕ) (h : Heap) (a p : ℕ) (e : Event)
    → All (λ x. x ≢ p) xs
    → Chain h a xs
    → Chain (write h p e) a xs
unfolding write
Chain-write [] h a p e ne c = c
Chain-write (x ∷ xs) h a p e (n, ne) (same, pos, c) =
    let r = Chain-write xs h (h x).ev_next p e ne c in
    let eq : write h p e x ≡ h x = ground (arith, n) in (same, pos, rw eq r)

pub Absent-address :
    (xs : List ℕ) (h : Heap) (p : ℕ) → Absent h (h p).ev_id xs → All (λ x. x ≢ p) xs
Absent-address xs h p = All-map xs (λ x n e. n (ap (λ y. (h y).ev_id) e))

-- `get_event_for_id` with more fuel than the chain is long.
pub get_event_for_id-lookup :
    (xs : List ℕ) (fuel : ℕ) (h : Heap) (a event_id : ℕ)
    → Chain h a xs
    → length xs < fuel
    → get_event_for_id fuel h a event_id ≡ some (lookup_id h event_id xs)
unfolding get_event_for_id lookup_id
get_event_for_id-lookup xs zero h a i c lt = absurd (omega arith)
get_event_for_id-lookup [] (suc fuel) h a i c lt = ground arith
get_event_for_id-lookup (x ∷ xs) (suc fuel) h a i (e, ne, c) lt =
    let rest = get_event_for_id-lookup xs fuel h (h x).ev_next i c (omega arith) in
    rw e (ground (arith, rest))

-- An identifier is absent, or there is one event with it.
pub lookup_id-cases :
    (xs : List ℕ) (h : Heap) (a event_id : ℕ)
    → Chain h a xs
    → (Absent h event_id xs × (lookup_id h event_id xs ≡ 0) × (erase_id h event_id xs ≡ xs))
      ⊎ ((lookup_id h event_id xs ≢ 0) × ((h (lookup_id h event_id xs)).ev_id ≡ event_id))
unfolding lookup_id erase_id
lookup_id-cases [] h a i c = inl (tt, refl, refl)
lookup_id-cases (x ∷ xs) h a i (e, ne, c) = elim (ℕ_discrete (h x).ev_id i) [
  | yes same ↦ let b : ((h x).ev_id == i) ≡ true = ground arith in rw b (inr (ne, same))
  | no other ↦
      let b : ((h x).ev_id == i) ≡ false = ground arith in
      rw b (elim (lookup_id-cases xs h (h x).ev_next i c) [
        | inl (absent, none_found, kept) ↦ inl ((other, absent), none_found, ap (λ l. x ∷ l) kept)
        | inr found ↦ inr found
      ])
]
