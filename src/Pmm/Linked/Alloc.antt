-- ===== src/Pmm/Linked/Alloc.antt =====
-- `alloc` of mm/pmm.cpp on the free lists of a segment in memory.
use mathlib.Core.Option
use mathlib.Core.Path.{subst}
use helix_kernel.Prelude.{
  ℕ, zero, suc, ◌+◌, ◌-◌, ◌≤◌, ◌≡◌, refl, ◌∙◌, ap, true, false, Option, none, some, List, ◌∷◌,
  arith, ◌==◌, List-cases, inl, inr, All,
}
use helix_kernel.Pmm.{FreeLists, Segment, set_list, find_block, take_block, alloc_segment}
use helix_kernel.Pmm.Cover.{in_block, cover, cover_list, cover-set_list}
use helix_kernel.Pmm.Find.{Found, find_block-Found}
use helix_kernel.Pmm.Valid.{IsValid, FitsAt, ValidLists-set_list}
use helix_kernel.Pmm.Linked.{Lists, assign, remove_block, find_head, split_linked, alloc_linked}
use helix_kernel.Pmm.Linked.Chain.{
  Chain, Represents, Represents-set_list, Matches, assign_self, assign_other,
}
use helix_kernel.Pmm.Linked.Split.{split_linked-Matches}

-- The search by the heads finds the order that the search by the lists finds.
find_head-find_block :
    (rounds current : ℕ) (s : Lists) (fl : FreeLists)
    → Represents s fl
    → find_head rounds current s ≡ Option.map (λ r. r.0) (find_block rounds current fl)
unfolding find_head find_block
find_head-find_block zero current s fl r = refl
find_head-find_block (suc rounds) current s fl r =
    let rest = find_head-find_block rounds (current + 1) s fl r in
    elim (List-cases (fl current)) [
      | inl empty ↦
          let head : s.heads current ≡ 0 =
            subst (Chain s.links (s.heads current)) empty (r current) in
          let b : (s.heads current == 0) ≡ true = ground arith in
          rw (find_head, find_block, b, empty) rest
      | inr (x, xs, some_block) ↦
          let (head, pos, _) = subst (Chain s.links (s.heads current)) some_block (r current) in
          let b : (s.heads current == 0) ≡ false = ground (arith, head, pos) in
          rw (find_head, find_block, b, some_block) refl
    ]

-- The first block of a list is taken.
remove_block-Represents :
    (k b : ℕ) (bs : List ℕ) (s : Lists) (fl : FreeLists)
    → fl k ≡ b ∷ bs
    → Represents s fl
    → (s' : Lists) × (remove_block k s ≡ (b, s'))
      × Represents s' (set_list fl k bs)
      × (s'.links ≡ s.links)
unfolding remove_block
remove_block-Represents k b bs s fl e r =
    let (head, pos, rest) = subst (Chain s.links (s.heads k)) e (r k) in
    let s' = record s { heads = assign s.heads k (s.links b) } in
    let there : (b == 0) ≡ false = ground (arith, pos) in
    (
      s',
      rw (remove_block, head, there) refl,
      Represents-set_list s s' fl k bs (rw (assign_self s.heads k (s.links b)) rest)
          (λ j ne. rw (assign_other s.heads k (s.links b) j ne) (r j)),
      refl,
    )

-- What `alloc` on the lists in memory does, by what it does on the sequences.
abbrev pub Agrees : Lists → FreeLists → Option (ℕ × Segment) → Option (ℕ × Lists) → Type 0
Agrees s fl none r = r ≡ none
Agrees s fl (some (b, t)) r =
    (s' : Lists) × (r ≡ some (b, s')) × Matches s s' t.free_list (cover fl)

module _ (order : ℕ) (g : Segment) (s : Lists) (v : IsValid g)
    (once : (a : ℕ) → cover g.free_list a ≤ 1) (r : Represents s g.free_list) where
  taken-Agrees :
      (found : Option (ℕ × ℕ × List ℕ))
      → Found (g.max_order + 1 - order) order g.free_list found
      → find_head (g.max_order + 1 - order) order s ≡ Option.map (λ x. x.0) found
      → Agrees s g.free_list (take_block order g found) (alloc_linked order g.max_order s)
  unfolding take_block alloc_linked cover_list
  taken-Agrees none f e = rw (alloc_linked, e) refl
  taken-Agrees (some (k, b, bs)) (lo, hi, list, _) e =
      let max = g.max_order in
      let rest = set_list g.free_list k bs in
      let (s', run, r', same) = remove_block-Represents k b bs s g.free_list list r in
      let d : order + (k - order) ≡ k = omega arith in
      let blocks : All (FitsAt g.base_ptr max k) (b ∷ bs) = rw list at (v.blocks k) in
      let total : (a : ℕ)
          → cover rest a + in_block (order + (k - order)) b a ≡ cover g.free_list a =
        λ a. omega (
          arith,
          cover-set_list g.free_list k bs a (omega (arith, v.max_order_lt)),
          ap (λ l. cover_list k l a) list,
          ap (λ n. in_block n b a) d,
        ) in
      let done =
        split_linked-Matches g.base_ptr max v.max_order_lt v.base_pos
          (omega (arith, v.tree_in, v.no_wrap)) (k - order) order b s' rest
          (ValidLists-set_list g.base_ptr max g.free_list k bs v.blocks blocks.1)
          (rw (← d) at (blocks.0)) (λ a. omega (arith, total a, once a)) r' in
      (
        split_linked (k - order) order b s',
        rw (alloc_linked, e, run) refl,
        record {
          represents = done.represents;
          kept = λ y unused. done.kept y (total y ∙ unused) ∙ ap (λ l. l y) same;
        },
      )

  -- `alloc` on the lists in memory takes the block that it takes on the sequences, leaves the lists
  -- of the same sequences, and writes only to memory that was free.
  pub alloc_linked-Agrees :
      Agrees s g.free_list (alloc_segment order g) (alloc_linked order g.max_order s)
  unfolding alloc_segment
  alloc_linked-Agrees =
      let rounds = g.max_order + 1 - order in
      taken-Agrees (find_block rounds order g.free_list) (find_block-Found rounds order g.free_list)
        (find_head-find_block rounds order s g.free_list r)
