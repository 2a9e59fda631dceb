-- ===== src/Paging/Tree/Grow.antt =====
-- What a new table does to the tree of page tables of mm/vmm.cpp.
use native.Mathlib.Decide.{ℕ_discrete}
use mathlib.Core.Option.{some-injective, none-ne-some}
use mathlib.Core.List.{append_assoc}
use helix_kernel.Prelude.{
  ℕ, ◌+◌, ◌%◌, ◌≤◌, ◌<◌, ◌≡◌, ◌≢◌, ◌⊎◌, refl, sym, ◌∙◌, ap, false, none, some, List, [], ◌∷◌, ◌++◌,
  length, length-append, arith, Option-cases, inl, inr, if◌then◌else◌,
}
use helix_kernel.Paging.{Words, slot, follow, is_present}
use helix_kernel.Paging.Create.{inside, absent-follow}
use helix_kernel.Paging.Walk.{slot-outside}
use helix_kernel.Paging.Tree.{
  walk, leaf_at, Indices, walk-nil, walk-present, walk-absent, walk-extend, Indices-append,
  follow-same, leaf_at-walk, leaf_at-none,
}

-- The words `w'` have a new empty table `page` at the index `i` of the table `t`, to which the path
-- `p` leads, and are the words `w` elsewhere.
pub record Grown (w w' : Words) (root : ℕ) (p : List ℕ) (t i page : ℕ) : Type 0 where
  pub path : walk w root p ≡ some t
  pub short : length p ≤ 2
  pub indices : Indices p
  pub index : i < 512
  pub absent : follow w (slot t i) ≡ none
  pub link : follow w' (slot t i) ≡ some page
  pub empty : (j : ℕ) → j < 512 → follow w' (slot page j) ≡ none
  pub same : (x : ℕ) → x ≢ slot t i → inside page x ≡ false → w' x ≡ w x
  pub aligned : page % 4096 ≡ 0

-- The tables of the tree start pages of their own, and the new one is none of them.
pub record Roomy (w : Words) (root page : ℕ) : Type 0 where
  pub starts :
      (q : List ℕ) (u : ℕ) → length q ≤ 3 → Indices q → walk w root q ≡ some u → u % 4096 ≡ 0
  pub fresh : (q : List ℕ) (u : ℕ) → length q ≤ 3 → Indices q → walk w root q ≡ some u → u ≢ page
  pub apart :
      (q r : List ℕ) (u : ℕ)
      → length q ≤ 3
      → length r ≤ 3
      → Indices q
      → Indices r
      → walk w root q ≡ some u
      → walk w root r ≡ some u
      → q ≡ r

pub slot-injective :
    (t u i j : ℕ)
    → t % 4096 ≡ 0
    → u % 4096 ≡ 0
    → i < 512
    → j < 512
    → slot t i ≡ slot u j
    → (t ≡ u) × (i ≡ j)
unfolding slot
slot-injective t u i j ht hu hi hj e = (omega arith, omega arith)

module _ (w w' : Words) (root : ℕ) (p : List ℕ) (t i page : ℕ) (g : Grown w w' root p t i page)
    (h : Roomy w root page) where
  -- The word of a table is kept, but at the link.
  pub kept :
      (r : List ℕ) (u j : ℕ)
      → length r ≤ 3
      → Indices r
      → walk w root r ≡ some u
      → j < 512
      → slot u j ≢ slot t i
      → w' (slot u j) ≡ w (slot u j)
  kept r u j lr hr e lt ne =
      g.same (slot u j) ne
        (slot-outside u page j (h.starts r u lr hr e) g.aligned (h.fresh r u lr hr e) lt)

  -- A path that led somewhere leads there still.
  pub walk-old :
      (q r : List ℕ) (u v : ℕ)
      → walk w root r ≡ some u
      → length r + length q ≤ 3
      → Indices r
      → Indices q
      → walk w u q ≡ some v
      → walk w' u q ≡ some v
  walk-old [] r u v e l hr hq old = walk-nil w' u ∙ sym (walk-nil w u) ∙ old
  walk-old (j ∷ q) r u v e l hr hq old = elim (Option-cases (follow w (slot u j))) [
    | inl gone ↦ absurd (none-ne-some _ (sym (walk-absent w u j q gone) ∙ old))
    | inr (x, there) ↦
        let ne : slot u j ≢ slot t i =
          λ same. none-ne-some _ (sym g.absent ∙ ap (follow w) (sym same) ∙ there) in
        let here = follow-same w w' (slot u j) (kept r u j (omega arith) hr e hq.0 ne) in
        let longer : length (r ++ (j ∷ [])) ≡ length r + 1 = length-append r (j ∷ []) in
        walk-present w' u j x q (here ∙ there)
        ∙ walk-old q (r ++ (j ∷ [])) x v (walk-extend w root r u j x e there)
            (omega (arith, longer)) (Indices-append r j hr hq.0) hq.1
            (sym (walk-present w u j x q there) ∙ old)
  ]

  -- Nothing lies behind the new table.
  walk-page : (q : List ℕ) (v : ℕ) → Indices q → walk w' page q ≡ some v → (q ≡ []) × (v ≡ page)
  walk-page [] v hq now = (refl, some-injective _ _ (sym now ∙ walk-nil w' page))
  walk-page (j ∷ q) v hq now =
      absurd (none-ne-some _ (sym (walk-absent w' page j q (g.empty j hq.0)) ∙ now))

  -- A path that leads somewhere now led there before, or it is the one to the new table.
  pub walk-new :
      (q r : List ℕ) (u v : ℕ)
      → walk w root r ≡ some u
      → length r + length q ≤ 3
      → Indices r
      → Indices q
      → walk w' u q ≡ some v
      → (walk w u q ≡ some v) ⊎ ((r ++ q ≡ p ++ (i ∷ [])) × (v ≡ page))
  walk-new [] r u v e l hr hq now = inl (walk-nil w u ∙ sym (walk-nil w' u) ∙ now)
  walk-new (j ∷ q) r u v e l hr hq now = elim (ℕ_discrete (slot u j) (slot t i)) [
    | yes same ↦
        let p3 : length p ≤ 3 = omega (arith, g.short) in
        let (tables, indices) =
          slot-injective u t j i (h.starts r u (omega arith) hr e)
            (h.starts p t p3 g.indices g.path) hq.0 g.index same in
        let paths : r ≡ p =
          h.apart r p t (omega arith) p3 hr g.indices (e ∙ ap (λ x. some x) tables) g.path in
        let link : follow w' (slot u j) ≡ some page = ap (follow w') same ∙ g.link in
        let (end, there) = walk-page q v hq.1 (sym (walk-present w' u j page q link) ∙ now) in
        inr (rw (paths, indices, end) refl, there)
    | no other ↦
        let here = follow-same w w' (slot u j) (kept r u j (omega arith) hr e hq.0 other) in
        elim (Option-cases (follow w (slot u j))) [
          | inl gone ↦ absurd (none-ne-some _ (sym (walk-absent w' u j q (here ∙ gone)) ∙ now))
          | inr (x, there) ↦
              let longer : length (r ++ (j ∷ [])) ≡ length r + 1 = length-append r (j ∷ []) in
              let rest =
                walk-new q (r ++ (j ∷ [])) x v (walk-extend w root r u j x e there)
                  (omega (arith, longer)) (Indices-append r j hr hq.0) hq.1
                  (sym (walk-present w' u j x q (here ∙ there)) ∙ now) in
              elim rest [
                | inl old ↦ inl (walk-present w u j x q there ∙ old)
                | inr (paths, new) ↦ inr (sym (append_assoc r (j ∷ []) q) ∙ paths, new)
              ]
        ]
  ]

  pub root-old :
      (q : List ℕ) (v : ℕ)
      → length q ≤ 3
      → Indices q
      → walk w root q ≡ some v
      → walk w' root q ≡ some v
  root-old q v l hq old = walk-old q [] root v (walk-nil w root) (omega arith) tt hq old

  pub root-new :
      (q : List ℕ) (v : ℕ)
      → length q ≤ 3
      → Indices q
      → walk w' root q ≡ some v
      → (walk w root q ≡ some v) ⊎ ((q ≡ p ++ (i ∷ [])) × (v ≡ page))
  root-new q v l hq now = walk-new q [] root v (walk-nil w root) (omega arith) tt hq now

  pub root-page : walk w' root (p ++ (i ∷ [])) ≡ some page
  root-page =
      walk-extend w' root p t i page (root-old p t (omega (arith, g.short)) g.indices g.path) g.link

  -- The entries of the lowest tables are what they were.
  pub leaf_at-kept :
      (q : List ℕ) (j : ℕ)
      → length q ≡ 3
      → Indices q
      → j < 512
      → leaf_at w' root q j ≡ leaf_at w root q j
  leaf_at-kept q j l hq lt = elim (Option-cases (walk w root q)) [
    | inr (u, old) ↦
        let ne : slot u j ≢ slot t i = λ same.
          let p3 : length p ≤ 3 = omega (arith, g.short) in
          let (tables, _) =
            slot-injective u t j i (h.starts q u (omega arith) hq old)
              (h.starts p t p3 g.indices g.path) lt g.index same in
          let paths : q ≡ p =
            h.apart q p t (omega arith) p3 hq g.indices (old ∙ ap (λ x. some x) tables) g.path in
          omega (arith, g.short, ap length paths) in
        let word = kept q u j (omega arith) hq old lt ne in
        leaf_at-walk w' root q j u (root-old q u (omega arith) hq old)
        ∙ ap (λ x. if is_present x then some x else none) word
        ∙ sym (leaf_at-walk w root q j u old)
    | inl gone ↦ elim (Option-cases (walk w' root q)) [
      | inl still ↦ leaf_at-none w' root q j still ∙ sym (leaf_at-none w root q j gone)
      | inr (v, now) ↦ elim (root-new q v (omega arith) hq now) [
        | inl old ↦ absurd (none-ne-some _ (sym gone ∙ old))
        | inr (_, new) ↦
            let clear : is_present (w' (slot page j)) ≡ false =
              absent-follow w' (slot page j) (g.empty j lt) in
            leaf_at-walk w' root q j page (now ∙ ap (λ x. some x) new)
            ∙ rw clear (sym (leaf_at-none w root q j gone))
      ]
    ]
  ]

  -- The tables are apart still.
  pub apart-kept :
      (q r : List ℕ) (u : ℕ)
      → length q ≤ 3
      → length r ≤ 3
      → Indices q
      → Indices r
      → walk w' root q ≡ some u
      → walk w' root r ≡ some u
      → q ≡ r
  apart-kept q r u lq lr hq hr eq er = elim (root-new q u lq hq eq) [
    | inl old ↦ elim (root-new r u lr hr er) [
      | inl old' ↦ h.apart q r u lq lr hq hr old old'
      | inr (_, new') ↦ absurd (h.fresh q u lq hq old new')
    ]
    | inr (path, new) ↦ elim (root-new r u lr hr er) [
      | inl old' ↦ absurd (h.fresh r u lr hr old' new)
      | inr (path', _) ↦ path ∙ sym path'
    ]
  ]
