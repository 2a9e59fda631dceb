-- ===== src/Paging/Tree/Table.antt =====
-- What `get_or_create_table` of mm/vmm.cpp does to the tree of page tables.
use mathlib.Core.Path.{subst}
use mathlib.Core.Option.{some-injective}
use helix_kernel.Prelude.{
  ℕ, ◌+◌, ◌/◌, ◌%◌, ◌==◌, false, ◌≤◌, ◌<◌, ◌≡◌, ◌≢◌, ◌⊎◌, refl, sym, ◌∙◌, ap, Option, none, some,
  List, All, [], ◌∷◌, ◌++◌, length, length-append, arith, Option-cases, inl, inr,
}
use helix_kernel.Vmm.{pa_to_va}
use helix_kernel.Pmm.{Pmm, alloc}
use helix_kernel.Pmm.Order.{order_of-page}
use helix_kernel.Pmm.Memory.{GivesFrom, NoBlock, SameShapes-trans}
use helix_kernel.Pmm.Table.{alloc-outcome}
use helix_kernel.Paging.{
  Words, Machine, put, clear, slot, follow, get_or_create_table, create_table, table_entry,
  next_table,
}
use helix_kernel.Paging.Walk.{put_self, table_entry_eq}
use helix_kernel.Paging.Tree.Links.{Grown-Links}
use helix_kernel.Paging.Map.{get_or_create_table-follow}
use helix_kernel.Paging.Create.{absent-follow}
use helix_kernel.Paging.Allocate.{get_or_create_table-create, pa_to_va-aligned, pa_to_va-ne_zero}
use helix_kernel.Paging.Tree.{Holding, walk, Indices, IsTree, IsMapped, walk-extend, Indices-append}
use helix_kernel.Paging.Tree.Grow.{
  Grown, Roomy, root-old, root-new, root-page, leaf_at-kept, apart-kept,
}
use helix_kernel.Paging.Tree.Page.{Given, GivesFrom-Given, InUse-Given, held-ne_slot, held-outside}
use helix_kernel.Paging.Tree.Extends.{
  Extends, Extends-refl, Extends-segtab, InUse-aligned, InUse-ne_zero, InUse-apart, Given-Roomy,
}

module _ {held : Holding} (w w' : Words) (root : ℕ) (p : List ℕ) (t i b : ℕ) (f f' : Pmm)
    (h : IsMapped held root w f) (given : Given held b f f')
    (g : Grown w w' root p t i (pa_to_va b)) where
  roomy : Roomy w root (pa_to_va b)
  roomy = Given-Roomy w root b f f' h.tree given

  Grown-IsTree : IsTree held w' root f'
  Grown-IsTree = record {
    in_use = λ q u l hq e. elim (root-new w w' root p t i (pa_to_va b) g roomy q u l hq e) [
      | inl old ↦ InUse-Given b u f f' given (h.tree.in_use q u l hq old)
      | inr (_, new) ↦ record {
        page = b;
        address = new;
        aligned = given.aligned;
        low = given.low;
        used = given.used;
      }
    ];
    apart = apart-kept w w' root p t i (pa_to_va b) g roomy;
  }

  Grown-Extends :
      (flags : ℕ) → w' (slot t i) / 4 % 2 ≡ flags / 4 % 2 → Extends held flags root w w' f'
  Grown-Extends flags entry = record {
    mapped = record {
      well = given.well';
      shapes = SameShapes-trans held.segments f.segtab f'.segtab h.shapes given.shapes;
      once = λ x. omega (arith, given.fewer x, h.once x);
      low = given.low';
      tree = Grown-IsTree;
    };
    kept = root-old w w' root p t i (pa_to_va b) g roomy;
    leaves = leaf_at-kept w w' root p t i (pa_to_va b) g roomy;
    callers = λ y low is_held.
        g.same (pa_to_va y)
          (held-ne_slot f t i y (h.tree.in_use p t (omega (arith, g.short)) g.indices g.path) low
            is_held g.index)
          (held-outside b y f f' given low is_held);
    links = Grown-Links flags root w w' p t i (pa_to_va b) g roomy entry;
  }

  Grown-page : walk w' root (p ++ (i ∷ [])) ≡ some (pa_to_va b)
  Grown-page = root-page w w' root p t i (pa_to_va b) g roomy

-- The entry that leads to a new table.
created-entry :
    (t i flags b : ℕ) (f' : Pmm) (m : Machine) (w' : Words)
    → follow m.words (slot t i) ≡ none
    → alloc 1 m.frames ≡ some (b, f')
    → b ≢ 0
    → b % 4096 ≡ 0
    → get_or_create_table t i flags m ≡ some (pa_to_va b, record m { words = w'; frames = f' })
    → w' (slot t i) / 4 % 2 ≡ flags / 4 % 2
unfolding get_or_create_table create_table
created-entry t i flags b f' m w' gone gave ne aligned run =
    let absent = absent-follow m.words (slot t i) gone in
    let nonzero : (b == 0) ≡ false = ground arith in
    let w = put (clear m.words (pa_to_va b)) (slot t i) (table_entry b flags) in
    let made : get_or_create_table t i flags m
        ≡ some (next_table (w (slot t i)), record m { words = w; frames = f' }) =
      rw (get_or_create_table, absent, gave, create_table, nonzero) refl in
    let same : w' (slot t i) ≡ table_entry b flags =
      ap (λ r. r.1.words (slot t i)) (some-injective _ _ (sym run ∙ made))
      ∙ put_self (clear m.words (pa_to_va b)) (slot t i) (table_entry b flags) in
    omega (arith, same, table_entry_eq b flags aligned)

-- The table, in the tree at the index after the path; or 0, where no page is free.
pub record Got (held : Holding) (flags root : ℕ) (w w' : Words) (f' : Pmm) (p : List ℕ) (i r : ℕ)
    : Type 0 where
  pub extends : Extends held flags root w w' f'
  pub table :
      ((r ≡ 0) × All (NoBlock 0) f'.segtab) ⊎ ((r ≢ 0) × (walk w' root (p ++ (i ∷ [])) ≡ some r))

-- The run of a call that only changes words and allocator.
abbrev pub Runs :
    {A : Type 0} → Machine → Option (A × Machine) → (A → Words → Pmm → Type 0) → Type 0
Runs {A} m run P =
    (r : A) × (w' : Words) × (f' : Pmm) × (run ≡ some (r, record m { words = w'; frames = f' }))
    × P r w' f'

module _ {held : Holding} (m : Machine) (root : ℕ) (p : List ℕ) (t i flags : ℕ)
    (h : IsMapped held root m.words m.frames) (short : length p ≤ 2) (hp : Indices p)
    (path : walk m.words root p ≡ some t) (lt : i < 512) where
  present_table :
      (u : ℕ)
      → follow m.words (slot t i) ≡ some u
      → Runs m
          (get_or_create_table t i flags m)
          (λ r w' f'. Got held flags root m.words w' f' p i r)
  present_table u there =
      let longer : length (p ++ (i ∷ [])) ≡ length p + 1 = length-append p (i ∷ []) in
      let at = walk-extend m.words root p t i u path there in
      let used =
        h.tree.in_use (p ++ (i ∷ [])) u (omega (arith, longer)) (Indices-append p i hp lt) at in
      (
        u,
        m.words,
        m.frames,
        get_or_create_table-follow t i flags u m there,
        record {
          extends = Extends-refl flags root m.words m.frames h;
          table = inr (InUse-ne_zero m.frames u used, at);
        },
      )

  created_table :
      (b : ℕ) (f' : Pmm)
      → follow m.words (slot t i) ≡ none
      → alloc 1 m.frames ≡ some (b, f')
      → 0 < b
      → GivesFrom 0 b m.frames.segtab f'.segtab
      → Runs m
          (get_or_create_table t i flags m)
          (λ r w' f'. Got held flags root m.words w' f' p i r)
  created_table b f' gone gave pos gives =
      let given : Given held b m.frames f' =
        GivesFrom-Given b m.frames f' h.well h.once h.low gives in
      let used = h.tree.in_use p t (omega arith) hp path in
      let starts = InUse-aligned m.frames t used in
      let (w', run, link, empty, same) =
        get_or_create_table-create t i flags b f' m (absent-follow m.words _ gone) gave
          (λ z. omega (arith, z)) given.aligned given.low starts
          (InUse-apart b t m.frames f' given used) lt in
      let grown : Grown m.words w' root p t i (pa_to_va b) = record {
        path = path;
        short = short;
        indices = hp;
        index = lt;
        absent = gone;
        link = link;
        empty = empty;
        same = same;
        aligned = pa_to_va-aligned b given.aligned;
      } in
      let entry =
        created-entry t i flags b f' m w' gone gave (λ z. omega (arith, z)) given.aligned run in
      (
        pa_to_va b,
        w',
        f',
        run,
        record {
          extends = Grown-Extends m.words w' root p t i b m.frames f' h given grown flags entry;
          table = inr (
            pa_to_va-ne_zero b given.low,
            Grown-page m.words w' root p t i b m.frames f' h given grown,
          );
        },
      )

  no_table :
      (f' : Pmm)
      → follow m.words (slot t i) ≡ none
      → alloc 1 m.frames ≡ some (0, f')
      → f'.segtab ≡ m.frames.segtab
      → All (NoBlock 0) f'.segtab
      → Runs m
          (get_or_create_table t i flags m)
          (λ r w' f'. Got held flags root m.words w' f' p i r)
  unfolding get_or_create_table create_table
  no_table f' gone gave same full = (
    0,
    m.words,
    f',
    rw (get_or_create_table, absent-follow m.words _ gone, gave, create_table) refl,
    record {
      extends = Extends-segtab flags root m.words m.frames f' same h;
      table = inl (refl, full);
    },
  )

  -- `get_or_create_table` at a table of the tree.
  pub get_or_create_table-Got :
      Runs m (get_or_create_table t i flags m) (λ r w' f'. Got held flags root m.words w' f' p i r)
  get_or_create_table-Got = elim (Option-cases (follow m.words (slot t i))) [
    | inr (u, there) ↦ present_table u there
    | inl gone ↦
        let (o, (b, f'), run, order, room, outcome) =
          alloc-outcome 1 m.frames h.well (omega arith) in
        let zero_order : o ≡ 0 =
          some-injective _ _ (sym order ∙ order_of-page 1 (omega arith) (omega arith)) in
        elim outcome [
          | inl (pos, gives, _, _) ↦
              created_table b f' gone run pos
                (subst (λ k. GivesFrom k b m.frames.segtab f'.segtab) zero_order gives)
          | inr (z, same, full) ↦
              no_table f' gone (run ∙ ap (λ x. some (x, f')) z) (ap (λ x. x.segtab) same) (
                rw (ap (λ (x : Pmm). x.segtab) same)
                  (subst (λ k. All (NoBlock k) m.frames.segtab) zero_order full))
        ]
  ]
