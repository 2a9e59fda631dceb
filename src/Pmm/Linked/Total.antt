-- ===== src/Pmm/Linked/Total.antt =====
-- More fuel for the walks of `free` of mm/pmm.cpp.
use mathlib.Core.Option.{none-ne-some}
use helix_kernel.Prelude.{
  ℕ, zero, suc, ◌+◌, ◌-◌, ◌≡◌, Option, none, some, List, [], ◌∷◌, arith, Option-cases, Bool-cases,
  inl, inr, ltb, leb, ◌&&◌, ◌==◌,
}
use helix_kernel.Pmm.{add64, buddy_addr, lower}
use helix_kernel.Pmm.Linked.{
  Lists, LinkedSegment, lists_of, walk_list, merge_linked, free_linked, free_all,
}

walk_list-more :
    (fuel extra buddy order prev curr : ℕ) (s : Lists) (r : Option Lists)
    → walk_list fuel buddy order prev curr s ≡ some r
    → walk_list (fuel + extra) buddy order prev curr s ≡ some r
unfolding walk_list
walk_list-more zero extra buddy order prev curr s r e = absurd (none-ne-some _ e)
walk_list-more (suc fuel) extra buddy order prev curr s r e =
    let more : suc fuel + extra ≡ suc (fuel + extra) = omega arith in
    rw more (elim (Bool-cases (curr == 0)) [
      | inl end ↦ rw (walk_list, end) (rw (walk_list, end) at e)
      | inr on ↦ elim (Bool-cases (curr == buddy)) [
        | inl found ↦ rw (walk_list, on, found) (rw (walk_list, on, found) at e)
        | inr other ↦
            rw (walk_list, on, other)
              (walk_list-more fuel extra buddy order curr (s.links curr) s r
                (rw (walk_list, on, other) at e))
      ]
    ])

merge_linked-more :
    (d fuel extra base order addr : ℕ) (s : Lists) (r : ℕ × ℕ × Lists)
    → merge_linked fuel d base order addr s ≡ some r
    → merge_linked (fuel + extra) d base order addr s ≡ some r
unfolding merge_linked
merge_linked-more zero fuel extra base order addr s r e = e
merge_linked-more (suc d) fuel extra base order addr s r e =
    let buddy = buddy_addr base order addr in
    elim (Option-cases (walk_list fuel buddy order 0 (s.heads order) s)) [
      | inl out ↦ absurd (none-ne-some _ (rw (merge_linked, out) at e))
      | inr (none, gone) ↦
          let same = walk_list-more fuel extra buddy order 0 (s.heads order) s none gone in
          rw (merge_linked, same) (rw (merge_linked, gone) at e)
      | inr (some s', found) ↦
          let same = walk_list-more fuel extra buddy order 0 (s.heads order) s (some s') found in
          rw (merge_linked, same)
            (merge_linked-more d fuel extra base (order + 1) (lower buddy addr) s' r
              (rw (merge_linked, found) at e))
    ]

free_linked-more :
    (fuel extra base max order addr : ℕ) (s : Lists) (r : ℕ × Lists)
    → free_linked fuel base max order addr s ≡ some r
    → free_linked (fuel + extra) base max order addr s ≡ some r
unfolding free_linked
free_linked-more fuel extra base max order addr s r e =
    elim (Option-cases (merge_linked fuel (max - order) base order addr s)) [
      | inl out ↦ absurd (none-ne-some _ (rw (free_linked, out) at e))
      | inr (q, merged) ↦
          let same = merge_linked-more (max - order) fuel extra base order addr s q merged in
          rw (free_linked, same) (rw (free_linked, merged) at e)
    ]

pub free_all-more :
    (fuel extra order addr : ℕ) (l : ℕ → ℕ) (gs : List LinkedSegment)
    (r : Option ℕ × (ℕ → ℕ) × List LinkedSegment)
    → free_all fuel order addr l gs ≡ some r
    → free_all (fuel + extra) order addr l gs ≡ some r
unfolding free_all
free_all-more fuel extra order addr l [] r e = e
free_all-more fuel extra order addr l (g ∷ gs) r e =
    elim (Bool-cases (leb g.base_ptr addr && ltb addr (add64 g.base_ptr g.size))) [
      | inl place ↦
          elim (Option-cases (free_linked fuel g.base_ptr g.max_order order addr (lists_of l g))) [
            | inl out ↦ absurd (none-ne-some _ (rw (free_all, place, out) at e))
            | inr (q, freed) ↦
                let same =
                  free_linked-more fuel extra g.base_ptr g.max_order order addr (lists_of l g) q
                    freed in
                rw (free_all, place, same) (rw (free_all, place, freed) at e)
          ]
      | inr other ↦ elim (Option-cases (free_all fuel order addr l gs)) [
        | inl out ↦ absurd (none-ne-some _ (rw (free_all, other, out) at e))
        | inr (q, freed) ↦
            let same = free_all-more fuel extra order addr l gs q freed in
            rw (free_all, other, same) (rw (free_all, other, freed) at e)
      ]
    ]
