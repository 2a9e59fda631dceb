-- ===== src/Hlec/Create.antt =====
-- `new_event` of hlec/hlec.cpp puts an event at the end of the chain.
use mathlib.Core.Path.{subst}
use helix_kernel.Prelude.{
  ℕ, true, ◌+◌, ◌%◌, ◌^◌, ◌<◌, ◌≡◌, ◌≢◌, refl, sym, ◌∙◌, ap, List, [], ◌∷◌, ◌++◌, All, arith,
}
use helix_kernel.Hlec.{Heap, Manager, write, set_next, alloc_event, new_event}
use helix_kernel.Hlec.Chain.{Chain, Absent, DistinctIds, Holds, All-map}

-- `z` is the last address of a list that is not empty.
abbrev pub Last : ℕ → List ℕ → Type 0
Last z [] = Unit
Last z (x ∷ []) = z ≡ x
Last z (x ∷ y ∷ ys) = Last z (y ∷ ys)

Last-append : (xs : List ℕ) (q : ℕ) → Last q (xs ++ q ∷ [])
Last-append [] q = refl
Last-append (x ∷ []) q = refl
Last-append (x ∷ y ∷ ys) q = Last-append (y ∷ ys) q

-- A property of every address of a list holds of its last.
pub Last-All : (P : ℕ → Type 0) (z x : ℕ) (xs : List ℕ) → Last z (x ∷ xs) → All P (x ∷ xs) → P z
Last-All P z x [] l a = subst P (sym l) a.0
Last-All P z x (y ∷ ys) l a = Last-All P z y ys l a.1

All-append : (P : ℕ → Type 0) (xs : List ℕ) (q : ℕ) → All P xs → P q → All P (xs ++ q ∷ [])
All-append P [] q a p = (p, tt)
All-append P (x ∷ xs) q a p = (a.0, All-append P xs q a.1 p)

-- The chain with an event behind the last, in a heap that links the two.
Chain-append :
    (xs : List ℕ) (h k : Heap) (a x z q : ℕ)
    → Chain h a (x ∷ xs)
    → DistinctIds h (x ∷ xs)
    → Last z (x ∷ xs)
    → ((y : ℕ) → y ≢ z → y ≢ q → (k y).ev_next ≡ (h y).ev_next)
    → All (λ w. w ≢ q) (x ∷ xs)
    → (k z).ev_next ≡ q
    → (k q).ev_next ≡ 0
    → q ≢ 0
    → Chain k a (x ∷ xs ++ q ∷ [])
Chain-append [] h k a x z q c d l same apart ez eq nq =
    (c.0, c.1, (subst (λ y. (k y).ev_next ≡ q) l ez, nq, eq))
Chain-append (y ∷ ys) h k a x z q (e, ne, c) d l same apart ez eq nq =
    let other : x ≢ z =
      λ e. Last-All (λ w. (h w).ev_id ≢ (h x).ev_id) z y ys l d.0 (ap (λ w. (h w).ev_id) (sym e)) in
    let rest = Chain-append ys h k (h x).ev_next y z q c d.1 l same apart.1 ez eq nq in
    (e, ne, subst (λ b. Chain k b (y ∷ ys ++ q ∷ [])) (sym (same x other apart.0)) rest)

DistinctIds-append :
    (xs : List ℕ) (h k : Heap) (q : ℕ)
    → All (λ w. (k w).ev_id ≡ (h w).ev_id) xs
    → DistinctIds h xs
    → Absent h (k q).ev_id xs
    → DistinctIds k (xs ++ q ∷ [])
DistinctIds-append [] h k q s d a = (tt, tt)
DistinctIds-append (x ∷ xs) h k q (sx, s) (dx, d) (ax, a) = (
  All-append _ xs q (agree xs s dx) (λ e. ax (sym sx ∙ sym e)),
  DistinctIds-append xs h k q s d a,
)
  where
    agree :
        (ys : List ℕ)
        → All (λ w. (k w).ev_id ≡ (h w).ev_id) ys
        → Absent h (h x).ev_id ys
        → Absent k (k x).ev_id ys
    agree [] s n = tt
    agree (y ∷ ys) s n = (λ e. n.0 (sym s.0 ∙ e ∙ sx), agree ys s.1 n.1)

-- What `new_event` writes.
pub record Created (q : ℕ) (m n : Manager) : Type 0 where
  pub new_id : (n.heap q).ev_id ≡ m.last_id
  pub no_callback : (n.heap q).event_callback ≡ 0
  pub is_quiet : (n.heap q).quiet ≡ true
  pub ends : (n.heap q).ev_next ≡ 0
  pub same_id : (y : ℕ) → y ≢ q → (n.heap y).ev_id ≡ (m.heap y).ev_id
  pub same_next : (y : ℕ) → y ≢ m.last_event → y ≢ q → (n.heap y).ev_next ≡ (m.heap y).ev_next
  pub last : n.last_event ≡ q
  pub counter : n.last_id ≡ (m.last_id + 1) % 2 ^ 64

new_event-behind :
    (q name : ℕ) (m : Manager)
    → q ≢ 0
    → m.first_event ≢ 0
    → m.last_event ≢ q
    → ((new_event q name m).0 ≡ q)
      × Created q m (new_event q name m).1
      × ((new_event q name m).1.first_event ≡ m.first_event)
      × (((new_event q name m).1.heap m.last_event).ev_next ≡ q)
unfolding new_event alloc_event set_next write
new_event-behind q name m nq nf apart = (
  ground arith,
  record {
    new_id = ground arith;
    no_callback = ground arith;
    is_quiet = ground arith;
    ends = ground arith;
    same_id = λ y ny. ground arith;
    same_next = λ y nl ny. ground arith;
    last = ground arith;
    counter = ground arith;
  },
  ground arith,
  ground arith,
)

new_event-first :
    (q name : ℕ) (m : Manager)
    → q ≢ 0
    → m.first_event ≡ 0
    → ((new_event q name m).0 ≡ q)
      × Created q m (new_event q name m).1
      × ((new_event q name m).1.first_event ≡ q)
unfolding new_event alloc_event set_next write
new_event-first q name m nq first = (
  ground arith,
  record {
    new_id = ground arith;
    no_callback = ground arith;
    is_quiet = ground arith;
    ends = ground arith;
    same_id = λ y ny. ground arith;
    same_next = λ y nl ny. ground arith;
    last = ground arith;
    counter = ground arith;
  },
  ground arith,
)

-- The events of a manager after `new_event`.
Created-Holds :
    (xs : List ℕ) (q : ℕ) (m n : Manager)
    → Holds m xs
    → Created q m n
    → All (λ x. x ≢ q) xs
    → m.last_id + 1 < 2 ^ 64
    → Chain n.heap n.first_event (xs ++ q ∷ [])
    → Holds n (xs ++ q ∷ [])
Created-Holds xs q m n v w apart small c =
    let counter : n.last_id ≡ m.last_id + 1 = omega (arith, w.counter) in
    record {
      chain = c;
      distinct =
          DistinctIds-append xs m.heap n.heap q (All-map xs w.same_id apart) v.distinct
            (All-map xs (λ x lt e. absurd (omega (arith, lt, e, w.new_id))) v.issued);
      issued =
          All-append _ xs q (still_issued xs v.issued apart) (omega (arith, counter, w.new_id));
    }
  where
    still_issued :
        (ys : List ℕ)
        → All (λ x. (m.heap x).ev_id < m.last_id) ys
        → All (λ x. x ≢ q) ys
        → All (λ x. (n.heap x).ev_id < n.last_id) ys
    still_issued [] i a = tt
    still_issued (y ∷ ys) i a =
        (omega (arith, i.0, w.counter, w.same_id y a.0), still_issued ys i.1 a.1)

-- Where memory for a new event is free and the last event is known, `new_event` puts it at the end
-- of the chain: quiet, without callback, with the next identifier.
pub new_event-append :
    (xs : List ℕ) (q name : ℕ) (m : Manager)
    → Holds m xs
    → Last m.last_event xs
    → q ≢ 0
    → All (λ x. x ≢ q) xs
    → m.last_id + 1 < 2 ^ 64
    → ((new_event q name m).0 ≡ q)
      × Holds (new_event q name m).1 (xs ++ q ∷ [])
      × Last (new_event q name m).1.last_event (xs ++ q ∷ [])
      × Created q m (new_event q name m).1
new_event-append [] q name m v l nq apart small =
    let (r, w, f) = new_event-first q name m nq v.chain in
    (r, Created-Holds [] q m _ v w tt small (f, nq, w.ends), w.last, w)
new_event-append (x ∷ xs) q name m v l nq apart small =
    let differs = Last-All (λ z. z ≢ q) m.last_event x xs l apart in
    let n = (new_event q name m).1 in
    let (r, w, f, k) = new_event-behind q name m nq (λ e. v.chain.1 (sym v.chain.0 ∙ e)) differs in
    let c =
      Chain-append xs m.heap n.heap m.first_event x m.last_event q v.chain v.distinct l w.same_next
        apart k w.ends nq in
    (
      r,
      Created-Holds (x ∷ xs) q m n v w apart small
          (subst (λ a. Chain n.heap a (x ∷ xs ++ q ∷ [])) (sym f) c),
      subst (λ z. Last z (x ∷ xs ++ q ∷ [])) (sym w.last) (Last-append (x ∷ xs) q),
      w,
    )
