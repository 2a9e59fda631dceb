-- ===== src/Hlec/Lost.antt =====
-- `remove_event` of hlec/hlec.cpp on the last event leaves `last_event` as it is: what `new_event`
-- does then.
use mathlib.Core.Path.{subst}
use helix_kernel.Prelude.{
  ℕ, ◌<◌, ◌≤◌, ◌≡◌, ◌≢◌, sym, ◌∙◌, ap, some, List, [], ◌∷◌, All, length, arith,
}
use helix_kernel.Hlec.{
  Heap, Manager, write, set_next, alloc_event, new_event, get_event_for_id, remove_event,
}
use helix_kernel.Hlec.Chain.{
  Chain, Absent, Holds, lookup_id, erase_id, Absent-address, get_event_for_id-lookup,
}
use helix_kernel.Hlec.Unlink.{lookup_id-nil, lookup_id-there, erase_id-Absent, All-erase_id}
use helix_kernel.Hlec.Remove.{remove_event-erase}
use helix_kernel.Hlec.Create.{Last, Last-All}

lookup_id-Absent : (xs : List ℕ) (h : Heap) (i : ℕ) → Absent h i xs → lookup_id h i xs ≡ 0
lookup_id-Absent [] h i a = lookup_id-nil h i
lookup_id-Absent (x ∷ xs) h i a = (lookup_id-there xs h x i a.0).0 ∙ lookup_id-Absent xs h i a.1

length-erase_id : (xs : List ℕ) (h : Heap) (i : ℕ) → length (erase_id h i xs) ≤ length xs
unfolding erase_id
length-erase_id [] h i = omega arith
length-erase_id (x ∷ xs) h i = ground (arith, length-erase_id xs h i)

Chain-agree :
    (xs : List ℕ) (h k : Heap) (a : ℕ) → All (λ x. k x ≡ h x) xs → Chain h a xs → Chain k a xs
Chain-agree [] h k a s c = c
Chain-agree (x ∷ xs) h k a s c =
    let next = sym (ap (λ e. e.ev_next) s.0) in
    (c.0, c.1, subst (λ b. Chain k b xs) next (Chain-agree xs h k (h x).ev_next s.1 c.2))

-- `new_event` writes at the new event and at `last_event` alone, and keeps `first_event`.
new_event-elsewhere :
    (q name y : ℕ) (m : Manager)
    → m.first_event ≢ 0
    → y ≢ q
    → y ≢ m.last_event
    → ((new_event q name m).1.heap y ≡ m.heap y)
      × ((new_event q name m).1.first_event ≡ m.first_event)
unfolding new_event alloc_event set_next write
new_event-elsewhere q name y m nf nq nl = (ground arith, ground arith)

All-both :
    (P Q R : ℕ → Type 0) (xs : List ℕ)
    → ((x : ℕ) → P x → Q x → R x)
    → All P xs
    → All Q xs
    → All R xs
All-both P Q R [] f p q = tt
All-both P Q R (x ∷ xs) f p q = (f x p.0 q.0, All-both P Q R xs f p.1 q.1)

-- Where `last_event` is not in the chain, the new event does not get into it.
new_event-stale :
    (p : ℕ) (xs : List ℕ) (fuel q name : ℕ) (m : Manager)
    → Holds m (p ∷ xs)
    → All (λ x. x ≢ m.last_event) (p ∷ xs)
    → All (λ x. x ≢ q) (p ∷ xs)
    → length (p ∷ xs) < fuel
    → get_event_for_id fuel (new_event q name m).1.heap (new_event q name m).1.first_event m.last_id
      ≡ some 0
new_event-stale p xs fuel q name m v nl nq lt =
    let n = (new_event q name m).1 in
    let start : m.first_event ≢ 0 = λ e. v.chain.1 (sym v.chain.0 ∙ e) in
    let same : All (λ x. n.heap x ≡ m.heap x) (p ∷ xs) =
      All-both _ _ _ (p ∷ xs) (λ x a b. (new_event-elsewhere q name x m start b a).0) nl nq in
    let first = (new_event-elsewhere q name p m start nq.0 nl.0).1 in
    let c = Chain-agree (p ∷ xs) m.heap n.heap m.first_event same v.chain in
    let c' = subst (λ a. Chain n.heap a (p ∷ xs)) (sym first) c in
    let absent : Absent n.heap m.last_id (p ∷ xs) =
      All-both _ _ _ (p ∷ xs) (λ x s lt e. absurd (omega (arith, lt, e, ap (λ d. d.ev_id) s))) same
        v.issued in
    get_event_for_id-lookup (p ∷ xs) fuel n.heap n.first_event m.last_id c' lt
    ∙ ap some (lookup_id-Absent (p ∷ xs) n.heap m.last_id absent)

-- After the last of several events is removed, the next new event cannot be found: `last_event`
-- still names the freed event, and `new_event` links the new one there.
pub remove_event-new_event :
    (p : ℕ) (xs : List ℕ) (fuel q name : ℕ) (m : Manager)
    → Holds m (p ∷ xs)
    → Last m.last_event (p ∷ xs)
    → p ≢ m.last_event
    → All (λ x. x ≢ q) (p ∷ xs)
    → length (p ∷ xs) < fuel
    → (n : Manager) × (remove_event fuel (m.heap m.last_event).ev_id m ≡ some n)
      × (get_event_for_id fuel
            (new_event q name n).1.heap
            (new_event q name n).1.first_event
            n.last_id
          ≡ some 0)
remove_event-new_event p xs fuel q name m v l several nq lt =
    let z = m.last_event in
    let i = (m.heap z).ev_id in
    let (n, ran, r) = remove_event-erase (p ∷ xs) fuel i m v lt in
    let other : (m.heap p).ev_id ≢ i = first_differs xs v.distinct.0 l in
    let (lk, er) = lookup_id-there xs m.heap p i other in
    let ys = erase_id m.heap i xs in
    let w = subst (λ l. Holds n l) er r.holds in
    let gone : Absent m.heap i (p ∷ ys) = (other, erase_id-Absent xs m.heap i v.distinct.1) in
    let apart = Absent-address (p ∷ ys) m.heap z gone in
    let apart' = subst (λ y. All (λ x. x ≢ y) (p ∷ ys)) (sym r.last) apart in
    (
      n,
      ran,
      new_event-stale p ys fuel q name n w apart' (nq.0, All-erase_id _ xs m.heap i nq.1)
          (omega (arith, lt, length-erase_id xs m.heap i)),
    )
  where
    first_differs :
        (ys : List ℕ)
        → Absent m.heap (m.heap p).ev_id ys
        → Last m.last_event (p ∷ ys)
        → (m.heap p).ev_id ≢ (m.heap m.last_event).ev_id
    first_differs [] a l = absurd (several (sym l))
    first_differs (y ∷ ys) a l =
        λ e. Last-All (λ w. (m.heap w).ev_id ≢ (m.heap p).ev_id) m.last_event y ys l a (sym e)
