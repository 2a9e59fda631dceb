-- ===== src/Irq/Ownership.antt =====
-- Who can change an entry of the interrupt table of arch/x86_64/idt/idt.cpp.
use helix_kernel.Prelude.{
  ℕ, ◌<◌, ◌≡◌, ◌≢◌, ◌⊎◌, refl, true, false, none, some, List, [], ◌∷◌, arith, All, ◌∙◌,
}
use helix_kernel.Irq.{
  IrqTable, num_irqs, set_entry, register_irq, remove_irq, unmask_irq, mask_irq, stub_handler,
}

-- A call of the interrupt manager; `register` has the key that `malloc` would return.
pub data Op : Type 0 where
  register : (key irq handler : ℕ) → Op
  remove unmask mask : (irq key : ℕ) → Op

unfoldable pub apply : Op → IrqTable → IrqTable
apply (register key irq handler) t = (register_irq key irq handler t).1
apply (remove irq key) t = remove_irq irq key t
apply (unmask irq key) t = unmask_irq irq key t
apply (mask irq key) t = mask_irq irq key t

unfoldable pub run : List Op → IrqTable → IrqTable
run [] t = t
run (op ∷ ops) t = run ops (apply op t)

-- The call does not present this key for this interrupt.
abbrev pub WithoutKey : ℕ → ℕ → Op → Type 0
WithoutKey i k (register key irq handler) = Unit
WithoutKey i k (remove irq key) = (irq ≢ i) ⊎ (key ≢ k)
WithoutKey i k (unmask irq key) = (irq ≢ i) ⊎ (key ≢ k)
WithoutKey i k (mask irq key) = (irq ≢ i) ⊎ (key ≢ k)

apply-same :
    (op : Op) (t : IrqTable) (i k : ℕ)
    → (t i).used ≡ true
    → (t i).protection_key ≡ k
    → WithoutKey i k op
    → apply op t i ≡ t i
unfolding apply register_irq remove_irq unmask_irq mask_irq set_entry
apply-same (register key irq handler) t i k u e w = ground arith
apply-same (remove irq key) t i k u e w = ground arith
apply-same (unmask irq key) t i k u e w = ground arith
apply-same (mask irq key) t i k u e w = ground arith

-- No calls, in whatever order, change a registered entry without its protection key.
pub run-same :
    (ops : List Op) (t : IrqTable) (i k : ℕ)
    → (t i).used ≡ true
    → (t i).protection_key ≡ k
    → All (WithoutKey i k) ops
    → run ops t i ≡ t i
unfolding run
run-same [] t i k u e w = refl
run-same (op ∷ ops) t i k u e w =
    let same = apply-same op t i k u e w.0 in
    run-same ops (apply op t) i k (rw same u) (rw same e) w.1 ∙ same

-- A registration with a handler on a free interrupt succeeds; the handler runs only between
-- `unmask_irq` and `mask_irq` with its key, and after `remove_irq` the interrupt is free again.
pub register_irq-cycle :
    (key irq handler : ℕ) (t : IrqTable)
    → irq < num_irqs
    → handler ≢ 0
    → key ≢ 0
    → (t irq).used ≡ false
    → let (got, t1) = register_irq key irq handler t in
      let t2 = unmask_irq irq key t1 in
      let t3 = mask_irq irq key t2 in
      let t4 = remove_irq irq key t2 in
      (got ≡ key)
      × (stub_handler irq t1 ≡ none)
      × (stub_handler irq t2 ≡ some handler)
      × (stub_handler irq t3 ≡ none)
      × (stub_handler irq t4 ≡ none)
      × ((t4 irq).used ≡ false)
unfolding register_irq unmask_irq mask_irq remove_irq stub_handler set_entry
register_irq-cycle key irq handler t lt nh nk free = ground arith

-- An entry whose key is `nullptr`.
apply-stuck :
    (op : Op) (t : IrqTable) (i h : ℕ)
    → (t i).used ≡ true
    → (t i).protection_key ≡ 0
    → (t i).handler ≡ h
    → ((apply op t i).used ≡ true)
      × ((apply op t i).protection_key ≡ 0)
      × ((apply op t i).handler ≡ h)
unfolding apply register_irq remove_irq unmask_irq mask_irq set_entry
apply-stuck (register key irq handler) t i h u e eh = ground arith
apply-stuck (remove irq key) t i h u e eh = ground arith
apply-stuck (unmask irq key) t i h u e eh = ground arith
apply-stuck (mask irq key) t i h u e eh = ground arith

run-stuck :
    (ops : List Op) (t : IrqTable) (i h : ℕ)
    → (t i).used ≡ true
    → (t i).protection_key ≡ 0
    → (t i).handler ≡ h
    → ((run ops t i).used ≡ true) × ((run ops t i).handler ≡ h)
unfolding run
run-stuck [] t i h u e eh = (u, eh)
run-stuck (op ∷ ops) t i h u e eh =
    let (u', e', eh') = apply-stuck op t i h u e eh in run-stuck ops (apply op t) i h u' e' eh'

-- Where `malloc` fails, `register_irq` returns `nullptr` and yet keeps the interrupt: after any
-- calls it is still in use, with that handler.
pub register_irq-out_of_memory :
    (irq handler : ℕ) (t : IrqTable) (ops : List Op)
    → irq < num_irqs
    → handler ≢ 0
    → (t irq).used ≡ false
    → ((register_irq 0 irq handler t).0 ≡ 0)
      × ((run ops (register_irq 0 irq handler t).1 irq).used ≡ true)
      × ((run ops (register_irq 0 irq handler t).1 irq).handler ≡ handler)
unfolding register_irq set_entry
register_irq-out_of_memory irq handler t ops lt nh free =
    ground (arith, run-stuck ops (register_irq 0 irq handler t).1 irq handler)
