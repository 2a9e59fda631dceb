-- ===== src/Paging/Tree/MapPage.antt =====
-- What the body of the loop of `mmap` of mm/vmm.cpp does to the mapping.
use Prim.Native.Nat.{bit_or}
use helix_kernel.Prelude.{
  ℕ, ◌≤◌, ◌<◌, ◌≡◌, ◌≢◌, refl, ◌∙◌, ap, Bool, true, false, Option, some, List, All, [], ◌∷◌, ◌++◌,
  length, arith, ◌==◌, inl, inr,
}
use helix_kernel.Vmm.{pa_to_va}
use helix_kernel.Pmm.{Pmm}
use helix_kernel.Pmm.Memory.{NoBlock}
use helix_kernel.Paging.{
  Words, Machine, table_index, put, slot, get_or_create_table, then_table, set_leaf, map_page,
}
use helix_kernel.Paging.Walk.{table_index-lt, is_present-leaf}
use helix_kernel.Paging.Range.{leaf}
use helix_kernel.Paging.Tree.{Holding, walk, Indices, path_of, IsMapped, walk-nil}
use helix_kernel.Paging.Tree.Extends.{Extends, Extends-trans}
use helix_kernel.Paging.Tree.Table.{Runs, get_or_create_table-Got}
use helix_kernel.Paging.Tree.Links.{Links, Links-trans}
use helix_kernel.Paging.Tree.Leaf.{written-Links}
use helix_kernel.Paging.Tree.View.{
  path_of-Indices, Contents, Mapping, put_page, Refines, Extends-Refines, put-Refines,
}

-- No page is free.
abbrev pub Full : Pmm → Type 0
Full f = All (NoBlock 0) f.segtab

pub then_table-zero :
    (m : Machine) (k : ℕ → Machine → Option (Bool × Machine))
    → then_table (some (0, m)) k ≡ some (false, m)
then_table-zero m k = refl

pub then_table-ne_zero :
    (t : ℕ) (m : Machine) (k : ℕ → Machine → Option (Bool × Machine))
    → t ≢ 0
    → then_table (some (t, m)) k ≡ k t m
then_table-ne_zero t m k ne = let b : (t == 0) ≡ false = ground arith in rw b refl

module _ (P : Bool → Words → Pmm → Type 0) where
  -- A table of the tree is got, and the rest is run with it; or no page is free.
  then_table-Runs :
      {held : Holding} (m : Machine) (root : ℕ) (p : List ℕ) (t i flags : ℕ)
      (k : ℕ → Machine → Option (Bool × Machine))
      → IsMapped held root m.words m.frames
      → length p ≤ 2
      → Indices p
      → walk m.words root p ≡ some t
      → i < 512
      → ((w : Words) (f : Pmm) → Extends held flags root m.words w f → Full f → P false w f)
      → ((u : ℕ) (w : Words) (f : Pmm)
          → Extends held flags root m.words w f
          → walk w root (p ++ (i ∷ [])) ≡ some u
          → Runs m (k u (record m { words = w; frames = f })) P)
      → Runs m (then_table (get_or_create_table t i flags m) k) P
  then_table-Runs m root p t i flags k h short hp path lt stop go =
      let (u, w, f, run, got) = get_or_create_table-Got m root p t i flags h short hp path lt in
      elim got.table [
        | inl (z, full) ↦ (
          false,
          w,
          f,
          ap (λ r. then_table r k) (run ∙ ap (λ x. some (x, record m { words = w; frames = f })) z),
          stop w f got.extends full,
        )
        | inr (ne, at) ↦
            let (b, w', f', run', done) = go u w f got.extends at in
            (b, w', f', ap (λ r. then_table r k) run ∙ then_table-ne_zero u _ k ne ∙ run', done)
      ]

-- What the body of the loop does to a mapping: the page is put in, or no page is free.
abbrev pub PageOutcome :
    Holding → Contents → ℕ → ℕ → ℕ → ℕ → Words → Mapping → Bool → Words → Pmm → Type 0
PageOutcome held c cr3 va pa flags w0 s true w f =
    Refines held cr3 c (put_page va (some (leaf pa flags)) s) w f × Links flags (pa_to_va cr3) w0 w
PageOutcome held c cr3 va pa flags w0 s false w f =
    Refines held cr3 c s w f × Links flags (pa_to_va cr3) w0 w × Full f

pub map_page-PageOutcome :
    {held : Holding} (c : Contents) (m : Machine) (s : Mapping) (va pa flags : ℕ)
    → Refines held m.current_cr3 c s m.words m.frames
    → Runs m (map_page va pa flags m) (PageOutcome held c m.current_cr3 va pa flags m.words s)
unfolding map_page set_leaf
map_page-PageOutcome {held} c m s va pa flags h =
    let cr3 = m.current_cr3 in
    let root = pa_to_va cr3 in
    let P = PageOutcome held c cr3 va pa flags m.words s in
    let i39 = table_index-lt 39 va in
    let i30 = table_index-lt 30 va in
    let i21 = table_index-lt 21 va in
    let stop : (w : Words) (f : Pmm) → Extends held flags root m.words w f → Full f → P false w f =
      λ w f e full. (Extends-Refines flags cr3 c s m.words w m.frames f h e, e.links, full) in
    then_table-Runs P m root [] root (table_index 39 va) flags _ h.mapped (omega arith) tt
      (walk-nil m.words root) i39 stop
      λ t3 w3 f3 e3 at3.
        then_table-Runs P (record m { words = w3; frames = f3 }) root (table_index 39 va ∷ []) t3
          (table_index 30 va) flags _ e3.mapped (omega arith) (i39, tt) at3 i30
          (λ w f e full. stop w f (Extends-trans flags root m.words w3 w f3 f e3 e) full)
          λ t2 w2 f2 e2 at2.
            let e2' = Extends-trans flags root m.words w3 w2 f3 f2 e3 e2 in
            then_table-Runs P (record m { words = w2; frames = f2 }) root
              (table_index 39 va ∷ table_index 30 va ∷ []) t2 (table_index 21 va) flags _ e2.mapped
              (omega arith) (i39, (i30, tt)) at2 i21
              (λ w f e full. stop w f (Extends-trans flags root m.words w2 w f2 f e2' e) full)
              λ t1 w1 f1 e1 at1.
                let e1' = Extends-trans flags root m.words w2 w1 f2 f1 e2' e1 in
                (
                  true,
                  put w1 (slot t1 (table_index 12 va)) (leaf pa flags),
                  f1,
                  refl,
                  let done =
                        put-Refines cr3 c s w1 f1 va t1 (leaf pa flags)
                          (Extends-Refines flags cr3 c s m.words w1 m.frames f1 h e1') at1 in
                      let links =
                        written-Links w1 root f1 e1'.mapped (path_of va) t1 (table_index 12 va)
                          (leaf pa flags) refl (path_of-Indices va) at1 (table_index-lt 12 va)
                          flags in
                      (
                        rw (is_present-leaf (bit_or pa flags)) at done,
                        Links-trans flags root m.words w1 _ e1'.links links,
                      ),
                )
