-- ===== src/Hlec/Remove.antt =====
-- `remove_event` of hlec/hlec.cpp takes one event out of the chain.
use native.Mathlib.Decide.{ℕ_discrete}
use mathlib.Core.Path.{subst}
use helix_kernel.Prelude.{
  ℕ, zero, suc, false, ◌<◌, ◌≡◌, ◌≢◌, refl, sym, ◌∙◌, ap, some, List, [], ◌∷◌, All, length, ◌==◌,
  arith, inl, inr,
}
use helix_kernel.Hlec.{
  Heap, Manager, set_next, get_prev_event_for_id, get_event_for_id, unlink, unlink_found,
  remove_event,
}
use helix_kernel.Hlec.Chain.{
  Chain, Absent, DistinctIds, Holds, lookup_id, erase_id, All-map, get_event_for_id-lookup,
  lookup_id-cases,
}
use helix_kernel.Hlec.Unlink.{
  SameData, set_next-SameData, SameData-trans, Absent-SameData, DistinctIds-SameData, All-erase_id,
  erase_id-DistinctIds, erase_id-Absent, no_prev, Chain-set_next, Skips, skips, lookup_id-nil,
  lookup_id-here, lookup_id-there,
}

-- A manager whose heap differs in the links, and whose chain holds some of the events.
Holds-relinked :
    (m : Manager) (k : Heap) (a : ℕ) (ys : List ℕ)
    → SameData m.heap k
    → Chain k a ys
    → DistinctIds m.heap ys
    → All (λ x. (m.heap x).ev_id < m.last_id) ys
    → Holds (record m { heap = k; first_event = a }) ys
Holds-relinked m k a ys d c u i = record {
  chain = c;
  distinct = DistinctIds-SameData ys m.heap k d u;
  issued = All-map ys (λ x lt. subst (λ n. n < m.last_id) (sym (d x).0) lt) i;
}

-- What a removal leaves: the other events in their order, with their data.
pub record Removed (m n : Manager) (event_id : ℕ) (xs : List ℕ) : Type 0 where
  pub holds : Holds n (erase_id m.heap event_id xs)
  pub same_data : SameData m.heap n.heap
  pub last : n.last_event ≡ m.last_event
  pub counter : n.last_id ≡ m.last_id

unlink-nothing : (prev : ℕ) (m : Manager) → unlink prev 0 m ≡ m
unfolding unlink
unlink-nothing prev m = refl

unlink-first :
    (p : ℕ) (xs : List ℕ) (m : Manager)
    → Holds m (p ∷ xs)
    → Removed m (unlink 0 p m) (m.heap p).ev_id (p ∷ xs)
unfolding unlink
unlink-first p xs m s =
    let (e, ne, c) = s.chain in
    let (a, d) = s.distinct in
    let (lk, er) = lookup_id-here xs m.heap p (m.heap p).ev_id refl in
    let b : (p == 0) ≡ false = ground arith in
    rw b record {
      holds = rw er (
          Holds-relinked m (set_next m.heap p 0) (m.heap p).ev_next xs
            (set_next-SameData m.heap p 0) (Chain-set_next xs m.heap (m.heap p).ev_next p 0 a c) d
            s.issued.1);
      same_data = set_next-SameData m.heap p 0;
      last = refl;
      counter = refl;
    }

unlink-behind :
    (p : ℕ) (xs : List ℕ) (m : Manager) (fuel i node : ℕ)
    → Holds m (p ∷ xs)
    → (m.heap p).ev_id ≢ i
    → node ≢ 0
    → (m.heap node).ev_id ≡ i
    → (s : Skips fuel m.heap p i node (erase_id m.heap i xs))
    → Removed m (unlink s.prev node m) i (p ∷ xs)
unfolding unlink
unlink-behind p xs m fuel i node v other ne same s =
    let h = m.heap in
    let (lk, er) = lookup_id-there xs h p i other in
    let bn : (node == 0) ≡ false = ground arith in
    let bp : (s.prev == 0) ≡ false = ground (arith, s.pos) in
    let k = set_next h s.prev (h node).ev_next in
    let dk = set_next-SameData h s.prev (h node).ev_next in
    let ys = p ∷ erase_id h i xs in
    let gone : Absent h i ys = (other, erase_id-Absent xs h i v.distinct.1) in
    let gone' : Absent k (k node).ev_id ys =
      subst (λ j. Absent k j ys) (sym ((dk node).0 ∙ same)) (Absent-SameData ys h k i dk gone) in
    let d = SameData-trans h k (set_next k node 0) dk (set_next-SameData k node 0) in
    let c = Chain-set_next ys k p node 0 gone' s.chain in
    let c' = subst (λ a. Chain (set_next k node 0) a ys) (sym v.chain.0) c in
    rw (bn, bp)
      record {
        holds = rw er (
            Holds-relinked m (set_next k node 0) m.first_event ys d c'
              (All-erase_id _ xs h i v.distinct.0, erase_id-DistinctIds xs h i v.distinct.1)
              (v.issued.0, All-erase_id _ xs h i v.issued.1));
        same_data = d;
        last = refl;
        counter = refl;
      }

no_prev_event :
    (xs : List ℕ) (fuel i : ℕ) (m : Manager)
    → Holds m xs
    → length xs < fuel
    → Absent m.heap i xs
    → get_prev_event_for_id fuel m.heap m.first_event i ≡ some 0
unfolding get_prev_event_for_id
no_prev_event xs zero i m v lt absent = absurd (omega arith)
no_prev_event [] (suc fuel) i m v lt absent = ground (arith, v.chain)
no_prev_event (p ∷ xs) (suc fuel) i m v lt absent =
    rw (v.chain.0)
      (no_prev xs (suc fuel) m.heap p i (refl, v.chain.1, v.chain.2) absent.1 (omega arith))

remove_event-some :
    (xs : List ℕ) (fuel i : ℕ) (m : Manager)
    → Holds m xs
    → length xs < fuel
    → get_event_for_id fuel m.heap m.first_event i ≡ some (lookup_id m.heap i xs)
    → lookup_id m.heap i xs ≢ 0
    → (m.heap (lookup_id m.heap i xs)).ev_id ≡ i
    → (n : Manager) × (remove_event fuel i m ≡ some n) × Removed m n i xs
unfolding remove_event unlink_found
remove_event-some [] fuel i m v lt got ne same = absurd (ne (lookup_id-nil m.heap i))
remove_event-some (p ∷ xs) fuel i m v lt got ne same = elim (ℕ_discrete (m.heap p).ev_id i) [
  | yes here ↦
      let (lk, er) = lookup_id-here xs m.heap p i here in
      let absent = subst (λ j. Absent m.heap j xs) here v.distinct.0 in
      let prev = no_prev xs fuel m.heap p i (refl, v.chain.1, v.chain.2) absent (omega arith) in
      (
        unlink 0 p m,
        rw (got, lk, v.chain.0, prev) refl,
        subst (λ j. Removed m (unlink 0 p m) j (p ∷ xs)) here (unlink-first p xs m v),
      )
  | no other ↦
      let (lk, er) = lookup_id-there xs m.heap p i other in
      let ne' = rw lk at ne in
      let same' = rw lk at same in
      let s = skips xs fuel m.heap p i (refl, v.chain.1, v.chain.2) v.distinct ne' (omega arith) in
      (
        unlink s.prev (lookup_id m.heap i xs) m,
        rw (got, lk, v.chain.0, s.found) refl,
        unlink-behind p xs m fuel i (lookup_id m.heap i xs) v other ne' same' s,
      )
]

-- No event has the identifier.
remove_event-none :
    (xs : List ℕ) (fuel i : ℕ) (m : Manager)
    → Holds m xs
    → length xs < fuel
    → Absent m.heap i xs
    → erase_id m.heap i xs ≡ xs
    → get_event_for_id fuel m.heap m.first_event i ≡ some 0
    → (n : Manager) × (remove_event fuel i m ≡ some n) × Removed m n i xs
unfolding remove_event unlink_found
remove_event-none xs fuel i m v lt absent kept got =
    let prev : get_prev_event_for_id fuel m.heap m.first_event i ≡ some 0 =
      no_prev_event xs fuel i m v lt absent in
    (
      m,
      rw (prev, got) (ap some (unlink-nothing 0 m)),
      record {
        holds = rw kept v;
        same_data = λ x. (refl, refl, refl, refl);
        last = refl;
        counter = refl;
      },
    )

-- With more fuel than the chain is long, `remove_event` ends, and it takes the event with the
-- identifier out of the chain, if there is one; the other events keep their order and data.
pub remove_event-erase :
    (xs : List ℕ) (fuel event_id : ℕ) (m : Manager)
    → Holds m xs
    → length xs < fuel
    → (n : Manager) × (remove_event fuel event_id m ≡ some n) × Removed m n event_id xs
unfolding remove_event unlink_found
remove_event-erase xs fuel i m v lt =
    let got = get_event_for_id-lookup xs fuel m.heap m.first_event i v.chain lt in
    elim (lookup_id-cases xs m.heap m.first_event i v.chain) [
      | inl (absent, zero_found, kept) ↦
          remove_event-none xs fuel i m v lt absent kept (got ∙ ap some zero_found)
      | inr (ne, same) ↦ remove_event-some xs fuel i m v lt got ne same
    ]
