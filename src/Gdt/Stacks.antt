-- ===== src/Gdt/Stacks.antt =====
-- The writes of arch/x86_64/gdt/gdt.cpp to the stacks stay inside the arrays.
use helix_kernel.Prelude.{
  ℕ, zero, suc, ◌≤◌, ◌<◌, ◌≡◌, refl, ap, ◌∙◌, ℤ, pos, negsuc, List, [], ◌∷◌, arith, leb, ◌&&◌, ◌==◌,
  if◌then◌else◌, Bool-cases, inl, inr,
}
use helix_kernel.Gdt.{Tss, update_stack, set_rsp, set_ist, put, same_index, at_most, one_less}

-- A call; `update` has the stack pointer of the moment first.
pub data Op : Type 0 where
  update : (current rsp : ℕ) → Op
  level_stack interrupt_stack : (index : ℤ) (rsp : ℕ) → Op

unfoldable pub apply : Op → Tss → Tss
apply (update current rsp) t = update_stack current rsp t
apply (level_stack index rsp) t = set_rsp index rsp t
apply (interrupt_stack index rsp) t = set_ist index rsp t

unfoldable pub run : List Op → Tss → Tss
run [] t = t
run (op ∷ ops) t = run ops (apply op t)

-- The index is none of an array of `n`.
abbrev pub Outside : ℕ → ℤ → Type 0
Outside n (pos i) = n ≤ i
Outside n (negsuc i) = Unit

put-Outside : (n k v : ℕ) (f : ℤ → ℕ) (x : ℤ) → Outside n x → k < n → put f (pos k) v x ≡ f x
unfolding put same_index
put-Outside n k v f (pos i) out lt = ground arith
put-Outside n k v f (negsuc i) out lt = refl

set_rsp-inside :
    (level : ℤ) (rsp : ℕ) (t : Tss) (i : ℤ) → Outside 3 i → (set_rsp level rsp t).rsp i ≡ t.rsp i
unfolding set_rsp at_most
set_rsp-inside (pos k) rsp t i out = elim (Bool-cases (leb 0 k && leb k 2)) [
  | inl within ↦ rw (set_rsp, within) (put-Outside 3 k rsp t.rsp i out (ground arith))
  | inr without ↦ rw (set_rsp, without) refl
]
set_rsp-inside (negsuc k) rsp t i out = refl

set_ist-inside :
    (index : ℤ) (rsp : ℕ) (t : Tss) (j : ℤ) → Outside 7 j → (set_ist index rsp t).ist j ≡ t.ist j
unfolding set_ist at_most one_less
set_ist-inside (pos zero) rsp t j out = refl
set_ist-inside (pos (suc k)) rsp t j out = elim (Bool-cases (leb 1 (suc k) && leb (suc k) 7)) [
  | inl within ↦ rw (set_ist, within) (put-Outside 7 k rsp t.ist j out (ground arith))
  | inr without ↦ rw (set_ist, without) refl
]
set_ist-inside (negsuc k) rsp t j out = refl

set_rsp-ist : (level : ℤ) (rsp : ℕ) (t : Tss) → (set_rsp level rsp t).ist ≡ t.ist
unfolding set_rsp
set_rsp-ist level rsp t = elim (Bool-cases (at_most (pos 0) level && at_most level (pos 2))) [
  | inl within ↦ rw (set_rsp, within) refl
  | inr without ↦ rw (set_rsp, without) refl
]

set_ist-rsp : (index : ℤ) (rsp : ℕ) (t : Tss) → (set_ist index rsp t).rsp ≡ t.rsp
unfolding set_ist
set_ist-rsp index rsp t = elim (Bool-cases (at_most (pos 1) index && at_most index (pos 7))) [
  | inl within ↦ rw (set_ist, within) refl
  | inr without ↦ rw (set_ist, without) refl
]

apply-inside :
    (op : Op) (t : Tss) (i j : ℤ)
    → Outside 3 i
    → Outside 7 j
    → ((apply op t).rsp i ≡ t.rsp i) × ((apply op t).ist j ≡ t.ist j)
unfolding apply update_stack
apply-inside (update current rsp) t i j hi hj =
    let top = if rsp == 0 then current else rsp in
    (put-Outside 3 0 top t.rsp i hi (omega arith), put-Outside 7 0 top t.ist j hj (omega arith))
apply-inside (level_stack n rsp) t i j hi hj =
    (set_rsp-inside n rsp t i hi, ap (λ g. g j) (set_rsp-ist n rsp t))
apply-inside (interrupt_stack n rsp) t i j hi hj =
    (ap (λ g. g i) (set_ist-rsp n rsp t), set_ist-inside n rsp t j hj)

-- No sequence of calls, with whatever levels and indices, writes in front of or behind the three
-- stacks by level or the seven interrupt stacks.
pub run-inside :
    (ops : List Op) (t : Tss) (i j : ℤ)
    → Outside 3 i
    → Outside 7 j
    → ((run ops t).rsp i ≡ t.rsp i) × ((run ops t).ist j ≡ t.ist j)
unfolding run
run-inside [] t i j hi hj = (refl, refl)
run-inside (op ∷ ops) t i j hi hj =
    let (a, b) = apply-inside op t i j hi hj in
    let (c, d) = run-inside ops (apply op t) i j hi hj in (c ∙ a, d ∙ b)
