-- ===== src/Hlec/Unlink.antt =====
-- The links that `remove_event` of hlec/hlec.cpp changes, and the events that stay in the chain.
use native.Mathlib.Decide.{ℕ_discrete}
use mathlib.Core.Path.{subst}
use helix_kernel.Prelude.{
  ℕ, zero, suc, true, false, ◌<◌, ◌≡◌, ◌≢◌, refl, sym, ◌∙◌, ap, some, List, [], ◌∷◌, All, length,
  ◌==◌, arith,
}
use helix_kernel.Hlec.{Heap, write, set_next, get_prev_event_for_id}
use helix_kernel.Hlec.Chain.{
  Chain, Absent, DistinctIds, lookup_id, erase_id, All-map, Chain-write, Absent-address,
}

-- The heaps differ in the links alone.
abbrev pub SameData : Heap → Heap → Type 0
SameData h k =
    (x : ℕ)
    → ((k x).ev_id ≡ (h x).ev_id)
      × ((k x).ev_name ≡ (h x).ev_name)
      × ((k x).event_callback ≡ (h x).event_callback)
      × ((k x).quiet ≡ (h x).quiet)

pub set_next-SameData : (h : Heap) (a n : ℕ) → SameData h (set_next h a n)
unfolding set_next write
set_next-SameData h a n x = elim (ℕ_discrete x a) [
  | yes same ↦ let b : (x == a) ≡ true = ground arith in rw (b, same) (refl, refl, refl, refl)
  | no other ↦ let b : (x == a) ≡ false = ground arith in rw b (refl, refl, refl, refl)
]

set_next_self : (h : Heap) (a n : ℕ) → (set_next h a n a).ev_next ≡ n
unfolding set_next write
set_next_self h a n = let b : (a == a) ≡ true = ground arith in rw b refl

set_next_other : (h : Heap) (a x n : ℕ) → x ≢ a → (set_next h a n x).ev_next ≡ (h x).ev_next
unfolding set_next write
set_next_other h a x n ne = let b : (x == a) ≡ false = ground arith in rw b refl

pub SameData-trans : (h k l : Heap) → SameData h k → SameData k l → SameData h l
SameData-trans h k l p q x =
    ((q x).0 ∙ (p x).0, (q x).1 ∙ (p x).1, (q x).2 ∙ (p x).2, (q x).3 ∙ (p x).3)

pub Absent-SameData :
    (xs : List ℕ) (h k : Heap) (i : ℕ) → SameData h k → Absent h i xs → Absent k i xs
Absent-SameData xs h k i d = All-map xs (λ x n e. n (sym ((d x).0) ∙ e))

pub DistinctIds-SameData :
    (xs : List ℕ) (h k : Heap) → SameData h k → DistinctIds h xs → DistinctIds k xs
DistinctIds-SameData [] h k d p = tt
DistinctIds-SameData (x ∷ xs) h k d (a, p) = (
  subst (λ i. Absent k i xs) (sym ((d x).0)) (Absent-SameData xs h k (h x).ev_id d a),
  DistinctIds-SameData xs h k d p,
)

pub All-erase_id :
    (P : ℕ → Type 0) (xs : List ℕ) (h : Heap) (i : ℕ) → All P xs → All P (erase_id h i xs)
unfolding erase_id
All-erase_id P [] h i p = tt
All-erase_id P (x ∷ xs) h i (p, ps) = elim (ℕ_discrete (h x).ev_id i) [
  | yes same ↦ let b : ((h x).ev_id == i) ≡ true = ground arith in rw b ps
  | no other ↦
      let b : ((h x).ev_id == i) ≡ false = ground arith in rw b (p, All-erase_id P xs h i ps)
]

pub erase_id-DistinctIds :
    (xs : List ℕ) (h : Heap) (i : ℕ) → DistinctIds h xs → DistinctIds h (erase_id h i xs)
unfolding erase_id
erase_id-DistinctIds [] h i p = tt
erase_id-DistinctIds (x ∷ xs) h i (a, p) = elim (ℕ_discrete (h x).ev_id i) [
  | yes same ↦ let b : ((h x).ev_id == i) ≡ true = ground arith in rw b p
  | no other ↦
      let b : ((h x).ev_id == i) ≡ false = ground arith in
      rw b (All-erase_id _ xs h i a, erase_id-DistinctIds xs h i p)
]

pub erase_id-Absent :
    (xs : List ℕ) (h : Heap) (i : ℕ) → DistinctIds h xs → Absent h i (erase_id h i xs)
unfolding erase_id
erase_id-Absent [] h i p = tt
erase_id-Absent (x ∷ xs) h i (a, p) = elim (ℕ_discrete (h x).ev_id i) [
  | yes same ↦
      let b : ((h x).ev_id == i) ≡ true = ground arith in rw b (subst (λ j. Absent h j xs) same a)
  | no other ↦
      let b : ((h x).ev_id == i) ≡ false = ground arith in rw b (other, erase_id-Absent xs h i p)
]

pub no_prev :
    (xs : List ℕ) (fuel : ℕ) (h : Heap) (p i : ℕ)
    → Chain h p (p ∷ xs)
    → Absent h i xs
    → length xs < fuel
    → get_prev_event_for_id fuel h p i ≡ some 0
unfolding get_prev_event_for_id
no_prev xs zero h p i c a lt = absurd (omega arith)
no_prev [] (suc fuel) h p i (e, ne, c) a lt = ground arith
no_prev (x ∷ xs) (suc fuel) h p i (e, ne, (l, nx, c)) (n, a) lt =
    let rest = no_prev xs fuel h x i (refl, nx, c) a (omega arith) in rw l (ground (arith, rest))

-- The predecessor of an event behind the first, and the chain once it skips the event.
pub record Skips (fuel : ℕ) (h : Heap) (p i node : ℕ) (ys : List ℕ) : Type 0 where
  pub prev : ℕ
  pub found : get_prev_event_for_id fuel h p i ≡ some prev
  pub pos : prev ≢ 0
  pub member : (j : ℕ) → Absent h j (p ∷ ys) → (h prev).ev_id ≢ j
  pub chain : Chain (set_next h prev (h node).ev_next) p (p ∷ ys)

pub Chain-set_next :
    (xs : List ℕ) (h : Heap) (a p n : ℕ)
    → Absent h (h p).ev_id xs
    → Chain h a xs
    → Chain (set_next h p n) a xs
unfolding set_next
Chain-set_next xs h a p n absent = Chain-write xs h a p _ (Absent-address xs h p absent)

pub lookup_id-nil : (h : Heap) (i : ℕ) → lookup_id h i [] ≡ 0
unfolding lookup_id
lookup_id-nil h i = refl

pub lookup_id-here :
    (xs : List ℕ) (h : Heap) (x i : ℕ)
    → (h x).ev_id ≡ i
    → (lookup_id h i (x ∷ xs) ≡ x) × (erase_id h i (x ∷ xs) ≡ xs)
unfolding lookup_id erase_id
lookup_id-here xs h x i same = let b : ((h x).ev_id == i) ≡ true = ground arith in rw b (refl, refl)

pub lookup_id-there :
    (xs : List ℕ) (h : Heap) (x i : ℕ)
    → (h x).ev_id ≢ i
    → (lookup_id h i (x ∷ xs) ≡ lookup_id h i xs) × (erase_id h i (x ∷ xs) ≡ x ∷ erase_id h i xs)
unfolding lookup_id erase_id
lookup_id-there xs h x i other =
    let b : ((h x).ev_id == i) ≡ false = ground arith in rw b (refl, refl)

Skips-here :
    (xs : List ℕ) (fuel : ℕ) (h : Heap) (p x i : ℕ)
    → Chain h p (p ∷ x ∷ xs)
    → DistinctIds h (p ∷ x ∷ xs)
    → (h x).ev_id ≡ i
    → Skips (suc fuel) h p i x xs
unfolding get_prev_event_for_id
Skips-here xs fuel h p x i (e, ne, (l, nx, c)) ((n, a), d) same =
    let k = set_next h p (h x).ev_next in
    record {
      prev = p;
      found = rw l (ground (arith, same));
      pos = ne;
      member = λ j m. m.0;
      chain = (
        refl,
        ne,
        subst (λ y. Chain k y xs) (sym (set_next_self h p _))
            (Chain-set_next xs h (h x).ev_next p _ a c),
      );
    }

Skips-there :
    (ys : List ℕ) (fuel : ℕ) (h : Heap) (p x i node : ℕ)
    → (h p).ev_next ≡ x
    → p ≢ 0
    → x ≢ 0
    → Absent h (h p).ev_id (x ∷ ys)
    → (h x).ev_id ≢ i
    → Skips fuel h x i node ys
    → Skips (suc fuel) h p i node (x ∷ ys)
unfolding get_prev_event_for_id
Skips-there ys fuel h p x i node l ne nx a other s =
    let apart : p ≢ s.prev = λ same. s.member (h p).ev_id a (ap (λ y. (h y).ev_id) (sym same)) in
    record {
      prev = s.prev;
      found = rw l (ground (arith, s.found));
      pos = s.pos;
      member = λ j m. s.member j m.1;
      chain = (refl, ne, (set_next_other h s.prev p _ apart ∙ l, nx, s.chain.2));
    }

pub skips :
    (xs : List ℕ) (fuel : ℕ) (h : Heap) (p i : ℕ)
    → Chain h p (p ∷ xs)
    → DistinctIds h (p ∷ xs)
    → lookup_id h i xs ≢ 0
    → length xs < fuel
    → Skips fuel h p i (lookup_id h i xs) (erase_id h i xs)
skips xs zero h p i c d f lt = absurd (omega arith)
skips [] (suc fuel) h p i c d f lt = absurd (f (lookup_id-nil h i))
skips (x ∷ xs) (suc fuel) h p i (e, ne, (l, nx, c)) (a, d) f lt = elim (ℕ_discrete (h x).ev_id i) [
  | yes same ↦
      let (lk, er) = lookup_id-here xs h x i same in
      rw (lk, er) (Skips-here xs fuel h p x i (e, ne, (l, nx, c)) (a, d) same)
  | no other ↦
      let (lk, er) = lookup_id-there xs h x i other in
      let s = skips xs fuel h x i (refl, nx, c) d (rw lk at f) (omega arith) in
      rw (lk, er)
        (Skips-there (erase_id h i xs) fuel h p x i (lookup_id h i xs) l ne nx
          (a.0, All-erase_id _ xs h i a.1) other s)
]
