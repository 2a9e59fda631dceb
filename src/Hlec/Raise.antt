-- ===== src/Hlec/Raise.antt =====
-- Callbacks, quietness and `raise_event` of hlec/hlec.cpp for an event of the chain.
use native.Mathlib.Decide.{ℕ_discrete}
use mathlib.Core.Path.{subst}
use helix_kernel.Prelude.{
  ℕ, true, false, ◌<◌, ◌≡◌, ◌≢◌, refl, sym, ◌∙◌, ap, Bool, some, List, [], ◌∷◌, ◌++◌, length, ◌==◌,
  arith,
}
use helix_kernel.Hlec.{
  Event, Heap, Manager, write, get_event_for_id, register_context_callback, put_context_quiet,
  raise_context, register_event_callback, put_event_quiet, raise_event, refused, calls,
}
use helix_kernel.Hlec.Chain.{
  Chain, Absent, DistinctIds, Holds, lookup_id, All-map, get_event_for_id-lookup,
}
use helix_kernel.Hlec.Unlink.{lookup_id-here, lookup_id-there}

Absent-middle : (ys zs : List ℕ) (h : Heap) (x i : ℕ) → Absent h i (ys ++ x ∷ zs) → (h x).ev_id ≢ i
Absent-middle [] zs h x i a = a.0
Absent-middle (y ∷ ys) zs h x i a = Absent-middle ys zs h x i a.1

-- The search for the identifier of an event of the chain finds this event.
pub lookup_id-member :
    (ys zs : List ℕ) (h : Heap) (x : ℕ)
    → DistinctIds h (ys ++ x ∷ zs)
    → lookup_id h (h x).ev_id (ys ++ x ∷ zs) ≡ x
lookup_id-member [] zs h x d = (lookup_id-here zs h x (h x).ev_id refl).0
lookup_id-member (y ∷ ys) zs h x d =
    let other : (h y).ev_id ≢ (h x).ev_id = λ e. Absent-middle ys zs h x (h y).ev_id d.0 (sym e) in
    (lookup_id-there (ys ++ x ∷ zs) h y (h x).ev_id other).0 ∙ lookup_id-member ys zs h x d.1

pub get_event-member :
    (ys zs : List ℕ) (fuel x : ℕ) (m : Manager)
    → Holds m (ys ++ x ∷ zs)
    → length (ys ++ x ∷ zs) < fuel
    → get_event_for_id fuel m.heap m.first_event (m.heap x).ev_id ≡ some x
get_event-member ys zs fuel x m v lt =
    get_event_for_id-lookup (ys ++ x ∷ zs) fuel m.heap m.first_event (m.heap x).ev_id v.chain lt
    ∙ ap some (lookup_id-member ys zs m.heap x v.distinct)

-- The heaps have the same links and identifiers.
abbrev SameLinks : Heap → Heap → Type 0
SameLinks h k = (x : ℕ) → ((k x).ev_id ≡ (h x).ev_id) × ((k x).ev_next ≡ (h x).ev_next)

Chain-SameLinks : (xs : List ℕ) (h k : Heap) (a : ℕ) → SameLinks h k → Chain h a xs → Chain k a xs
Chain-SameLinks [] h k a s c = c
Chain-SameLinks (x ∷ xs) h k a s c =
    (c.0, c.1, subst (λ b. Chain k b xs) (sym (s x).1) (Chain-SameLinks xs h k (h x).ev_next s c.2))

DistinctIds-SameLinks :
    (xs : List ℕ) (h k : Heap) → SameLinks h k → DistinctIds h xs → DistinctIds k xs
DistinctIds-SameLinks [] h k s d = tt
DistinctIds-SameLinks (x ∷ xs) h k s d =
    (All-map xs (λ y n e. n (sym (s y).0 ∙ e ∙ (s x).0)) d.0, DistinctIds-SameLinks xs h k s d.1)

Holds-SameLinks :
    (xs : List ℕ) (m : Manager) (k : Heap)
    → SameLinks m.heap k
    → Holds m xs
    → Holds (record m { heap = k }) xs
Holds-SameLinks xs m k s v = record {
  chain = Chain-SameLinks xs m.heap k m.first_event s v.chain;
  distinct = DistinctIds-SameLinks xs m.heap k s v.distinct;
  issued = All-map xs (λ x lt. subst (λ n. n < m.last_id) (sym (s x).0) lt) v.issued;
}

write-SameLinks :
    (h : Heap) (a : ℕ) (e : Event)
    → e.ev_id ≡ (h a).ev_id
    → e.ev_next ≡ (h a).ev_next
    → SameLinks h (write h a e)
unfolding write
write-SameLinks h a e i n x = elim (ℕ_discrete x a) [
  | yes same ↦ let b : (x == a) ≡ true = ground arith in rw (b, same) (i, n)
  | no other ↦ let b : (x == a) ≡ false = ground arith in rw b (refl, refl)
]

write_self : (h : Heap) (a : ℕ) (e : Event) → write h a e a ≡ e
unfolding write
write_self h a e = let b : (a == a) ≡ true = ground arith in rw b refl

-- A call changed the callback or the quietness of the event `x`.
record Updated (m n : Manager) (x : ℕ) (xs : List ℕ) (callback : ℕ) (quiet : Bool) : Type 0 where
  holds : Holds n xs
  same_id : (n.heap x).ev_id ≡ (m.heap x).ev_id
  has_callback : (n.heap x).event_callback ≡ callback
  has_quiet : (n.heap x).quiet ≡ quiet

write-Updated :
    (xs : List ℕ) (x : ℕ) (m : Manager) (e : Event)
    → Holds m xs
    → e.ev_id ≡ (m.heap x).ev_id
    → e.ev_next ≡ (m.heap x).ev_next
    → Updated m (record m { heap = write m.heap x e }) x xs e.event_callback e.quiet
write-Updated xs x m e v i n = record {
  holds = Holds-SameLinks xs m (write m.heap x e) (write-SameLinks m.heap x e i n) v;
  same_id = ap (λ d. d.ev_id) (write_self m.heap x e) ∙ i;
  has_callback = ap (λ d. d.event_callback) (write_self m.heap x e);
  has_quiet = ap (λ d. d.quiet) (write_self m.heap x e);
}

register-Updated :
    (xs : List ℕ) (x callback : ℕ) (m : Manager)
    → Holds m xs
    → x ≢ 0
    → ((register_context_callback x callback m).0 ≡ true)
      × Updated m (register_context_callback x callback m).1 x xs callback (m.heap x).quiet
unfolding register_context_callback
register-Updated xs x callback m v ne =
    let b : (x == 0) ≡ false = ground arith in rw b (refl, write-Updated xs x m _ v refl refl)

put_quiet-Updated :
    (xs : List ℕ) (x : ℕ) (quiet : Bool) (m : Manager)
    → Holds m xs
    → x ≢ 0
    → Updated m (put_context_quiet quiet x m) x xs (m.heap x).event_callback quiet
unfolding put_context_quiet
put_quiet-Updated xs x quiet m v ne =
    let b : (x == 0) ≡ false = ground arith in rw b (write-Updated xs x m _ v refl refl)

-- The search in a manager that came from `m` by such calls.
get_event-updated :
    (ys zs : List ℕ) (fuel x i : ℕ) (n : Manager)
    → Holds n (ys ++ x ∷ zs)
    → length (ys ++ x ∷ zs) < fuel
    → (n.heap x).ev_id ≡ i
    → get_event_for_id fuel n.heap n.first_event i ≡ some x
get_event-updated ys zs fuel x i n v lt e =
    subst (λ j. get_event_for_id fuel n.heap n.first_event j ≡ some x) e
      (get_event-member ys zs fuel x n v lt)

raise_context-calls :
    (x argc args callback : ℕ) (n : Manager)
    → x ≢ 0
    → callback ≢ 0
    → (n.heap x).event_callback ≡ callback
    → (n.heap x).quiet ≡ false
    → raise_context x argc args n ≡ calls callback argc args
unfolding raise_context
raise_context-calls x argc args callback n ne nc ec eq =
    let b : (x == 0) ≡ false = ground arith in
    let c : (callback == 0) ≡ false = ground arith in rw (b, eq, ec, c) refl

raise_context-quiet :
    (x argc args : ℕ) (n : Manager)
    → (n.heap x).quiet ≡ true
    → raise_context x argc args n ≡ refused
unfolding raise_context
raise_context-quiet x argc args n eq = ground (arith, eq)

-- After its callback is registered an event can be raised once it is no longer quiet, and no
-- longer after it is set quiet again.
pub raise_event-cycle :
    (ys zs : List ℕ) (fuel x callback argc args : ℕ) (m : Manager)
    → Holds m (ys ++ x ∷ zs)
    → length (ys ++ x ∷ zs) < fuel
    → x ≢ 0
    → callback ≢ 0
    → let i = (m.heap x).ev_id in
      let n1 = (register_context_callback x callback m).1 in
      let n2 = put_context_quiet false x n1 in
      let n3 = put_context_quiet true x n2 in
      (register_event_callback fuel i callback m ≡ some (true, n1))
      × (put_event_quiet fuel false i n1 ≡ some n2)
      × (raise_event fuel i argc args n2 ≡ some (calls callback argc args))
      × (put_event_quiet fuel true i n2 ≡ some n3)
      × (raise_event fuel i argc args n3 ≡ some refused)
unfolding register_event_callback put_event_quiet raise_event
raise_event-cycle ys zs fuel x callback argc args m v lt ne nc =
    let xs = ys ++ x ∷ zs in
    let n1 = (register_context_callback x callback m).1 in
    let n2 = put_context_quiet false x n1 in
    let n3 = put_context_quiet true x n2 in
    let (ok, u1) = register-Updated xs x callback m v ne in
    let u2 = put_quiet-Updated xs x false n1 u1.holds ne in
    let u3 = put_quiet-Updated xs x true n2 u2.holds ne in
    let i1 = u1.same_id in
    let i2 = u2.same_id ∙ i1 in
    let i3 = u3.same_id ∙ i2 in
    let got0 = get_event-member ys zs fuel x m v lt in
    let got1 = get_event-updated ys zs fuel x _ n1 u1.holds lt i1 in
    let got2 = get_event-updated ys zs fuel x _ n2 u2.holds lt i2 in
    let got3 = get_event-updated ys zs fuel x _ n3 u3.holds lt i3 in
    (
      rw got0 (ap (λ r. some (r, n1)) ok),
      rw got1 refl,
      rw got2 (
          ap some (
            raise_context-calls x argc args callback n2 ne nc (u2.has_callback ∙ u1.has_callback)
              u2.has_quiet)),
      rw got2 refl,
      rw got3 (ap some (raise_context-quiet x argc args n3 u3.has_quiet)),
    )
