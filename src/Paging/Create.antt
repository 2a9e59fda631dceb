-- ===== src/Paging/Create.antt =====
-- What `mmap` of mm/vmm.cpp does where no table for the address is there.
use Prim.Native.Nat.{bit_or}
use helix_kernel.Prelude.{
  ℕ, ◌+◌, ◌%◌, ◌^◌, ◌<◌, ◌≡◌, ◌≢◌, refl, ◌∙◌, Bool, false, none, some, ltb, leb, ◌&&◌,
  if◌then◌else◌, arith,
}
use helix_kernel.Vmm.{pa_to_va}
use helix_kernel.Pmm.{Pmm, alloc}
use helix_kernel.Paging.{
  Words, Machine, put, slot, table_index, is_present, follow, set_leaf, map_page, map_pages, mmap,
}
use helix_kernel.Paging.Walk.{
  translate, Tables, table_index-lt, slot-ne, slot-outside, translate-put, put_other,
  is_present-leaf,
}
use helix_kernel.Paging.Map.{map_page-set_leaf}
use helix_kernel.Paging.Allocate.{
  get_or_create_table-create, pa_to_va-aligned, pa_to_va-ne_zero, pa_to_va-distinct,
}

-- A page that the allocator can give for a table.
pub record Usable (p : ℕ) : Type 0 where
  pub nonzero : p ≢ 0
  pub aligned : p % 4096 ≡ 0
  pub low : p < 2 ^ 47

pub absent-follow : (w : Words) (at : ℕ) → follow w at ≡ none → is_present (w at) ≡ false
unfolding follow
absent-follow w at e = ground arith

follow-kept : (w w' : Words) (at : ℕ) → w' at ≡ w at → follow w' at ≡ follow w at
unfolding follow
follow-kept w w' at e = rw e refl

-- The address lies in the page of the table.
abbrev pub inside : ℕ → ℕ → Bool
inside table x = leb table x && ltb x (table + 4096)

outside-ne : (t i x : ℕ) → i < 512 → inside t x ≡ false → x ≢ slot t i
unfolding slot
outside-ne t i x lt out e = ground arith

-- A machine whose root has no entry for the address, and three pages that its allocator gives one
-- after the other, each in a place of its own.
pub record Fresh (m : Machine) (va p3 p2 p1 : ℕ) (f3 f2 f1 : Pmm) : Type 0 where
  pub root_aligned : pa_to_va m.current_cr3 % 4096 ≡ 0
  pub absent : is_present (m.words (slot (pa_to_va m.current_cr3) (table_index 39 va))) ≡ false
  pub gave3 : alloc 1 m.frames ≡ some (p3, f3)
  pub gave2 : alloc 1 f3 ≡ some (p2, f2)
  pub gave1 : alloc 1 f2 ≡ some (p1, f1)
  pub usable : Usable p3 × Usable p2 × Usable p1
  pub apart : (p3 ≢ p2) × (p3 ≢ p1) × (p2 ≢ p1)
  pub own :
      (pa_to_va m.current_cr3 ≢ pa_to_va p3)
      × (pa_to_va m.current_cr3 ≢ pa_to_va p2)
      × (pa_to_va m.current_cr3 ≢ pa_to_va p1)

-- The address is in none of the three pages, and not the root's entry.
abbrev pub Elsewhere : Machine → ℕ → ℕ → ℕ → ℕ → ℕ → Type 0
Elsewhere m va p3 p2 p1 x =
    (x ≢ slot (pa_to_va m.current_cr3) (table_index 39 va))
    × (inside (pa_to_va p3) x ≡ false)
    × (inside (pa_to_va p2) x ≡ false)
    × (inside (pa_to_va p1) x ≡ false)

-- Four tables, each at the start of a page of its own.
record Placed (root t3 t2 t1 : ℕ) : Type 0 where
  starts : (root % 4096 ≡ 0) × (t3 % 4096 ≡ 0) × (t2 % 4096 ≡ 0) × (t1 % 4096 ≡ 0)
  from_root : (root ≢ t3) × (root ≢ t2) × (root ≢ t1)
  others : (t3 ≢ t2) × (t3 ≢ t1) × (t2 ≢ t1)

Fresh-Placed :
    (m : Machine) (va p3 p2 p1 : ℕ) (f3 f2 f1 : Pmm)
    → Fresh m va p3 p2 p1 f3 f2 f1
    → Placed (pa_to_va m.current_cr3) (pa_to_va p3) (pa_to_va p2) (pa_to_va p1)
Fresh-Placed m va p3 p2 p1 f3 f2 f1 h =
    let (u3, u2, u1) = h.usable in
    let (n32, n31, n21) = h.apart in
    record {
      starts = (
        h.root_aligned,
        pa_to_va-aligned p3 u3.aligned,
        pa_to_va-aligned p2 u2.aligned,
        pa_to_va-aligned p1 u1.aligned,
      );
      from_root = h.own;
      others = (
        pa_to_va-distinct p3 p2 u3.low u2.low n32,
        pa_to_va-distinct p3 p1 u3.low u1.low n31,
        pa_to_va-distinct p2 p1 u2.low u1.low n21,
      );
    }

-- The links of a table and of the one below it survive the making of a third.
keeps_links :
    (w w' : Words) (t parent page i j : ℕ)
    → (t % 4096 ≡ 0) × (parent % 4096 ≡ 0) × (page % 4096 ≡ 0)
    → (t ≢ parent) × (t ≢ page)
    → i < 512
    → j < 512
    → ((x : ℕ) → x ≢ slot parent j → inside page x ≡ false → w' x ≡ w x)
    → follow w' (slot t i) ≡ follow w (slot t i)
keeps_links w w' t parent page i j (at, ap', ag) (np, ng) hi hj same =
    follow-kept w w' (slot t i)
      (same (slot t i) (slot-ne t parent i j at ap' np hi hj) (slot-outside t page i at ag ng hi))

-- The three tables are made one behind the other, and then the entry is written.
map_page-create :
    (m : Machine) (va pa flags p3 p2 p1 : ℕ) (f3 f2 f1 : Pmm)
    → Fresh m va p3 p2 p1 f3 f2 f1
    → (w : Words) × (map_page va pa flags m
        ≡ set_leaf va pa flags (pa_to_va p1) (record m { words = w; frames = f1 }))
      × Tables w m.current_cr3 va (pa_to_va p3) (pa_to_va p2) (pa_to_va p1)
      × ((x : ℕ) → Elsewhere m va p3 p2 p1 x → w x ≡ m.words x)
map_page-create m va pa flags p3 p2 p1 f3 f2 f1 h =
    let placed = Fresh-Placed m va p3 p2 p1 f3 f2 f1 h in
    let (u3, u2, u1) = h.usable in
    let (a4, a3, a2, a1) = placed.starts in
    let (o3, o2, o1) = placed.from_root in
    let (d32, d31, d21) = placed.others in
    let i39 = table_index-lt 39 va in
    let i30 = table_index-lt 30 va in
    let i21 = table_index-lt 21 va in
    let (w3, run3, link3, empty3, same3) =
      get_or_create_table-create _ (table_index 39 va) flags p3 f3 m h.absent h.gave3 u3.nonzero
        u3.aligned u3.low a4 o3 i39 in
    let (w2, run2, link2, empty2, same2) =
      get_or_create_table-create (pa_to_va p3) (table_index 30 va) flags p2 f2
        (record m { words = w3; frames = f3 }) (absent-follow w3 _ (empty3 _ i30)) h.gave2
        u2.nonzero u2.aligned u2.low a3 d32 i30 in
    let (w1, run1, link1, empty1, same1) =
      get_or_create_table-create (pa_to_va p2) (table_index 21 va) flags p1 f1
        (record m { words = w2; frames = f2 }) (absent-follow w2 _ (empty2 _ i21)) h.gave1
        u1.nonzero u1.aligned u1.low a2 d21 i21 in
    (
      w1,
      map_page-set_leaf m _ _ _ va pa flags _ _ _ run3 run2 run1
          (pa_to_va-ne_zero p3 u3.low, pa_to_va-ne_zero p2 u2.low, pa_to_va-ne_zero p1 u1.low),
      record {
        first =
            keeps_links w2 w1 _ _ _ _ _ (a4, a2, a1) (o2, o1) i39 i21 same1
            ∙ keeps_links w3 w2 _ _ _ _ _ (a4, a3, a2) (o3, o2) i39 i30 same2
            ∙ link3;
        second = keeps_links w2 w1 _ _ _ _ _ (a3, a2, a1) (d32, d31) i30 i21 same1 ∙ link2;
        third = link1;
        aligned = placed.starts;
        apart = (o1, d31, d21);
      },
      λ x (ne, out3, out2, out1).
          same1 x (outside-ne (pa_to_va p2) _ x i21 out2) out1
          ∙ same2 x (outside-ne (pa_to_va p3) _ x i30 out3) out2
          ∙ same3 x ne out3,
    )

-- `mmap` of one page, where the root has no entry for the address and the page allocator gives
-- three pages one after the other, each not `nullptr`, at the start of a page, below 2^47 and apart
-- from the others and from the root, which starts a page as well: the processor then finds the
-- physical page with the flags, user access added below 2^47, at the address; nothing changes
-- outside the three pages but the entry of the root.
pub mmap-create :
    (m : Machine) (va pa flags p3 p2 p1 : ℕ) (f3 f2 f1 : Pmm)
    → Fresh m va p3 p2 p1 f3 f2 f1
    → let flags' = if ltb va 0x800000000000 then bit_or flags 4 else flags in
      (w' : Words) × (mmap pa va 1 flags m ≡ some (va, record m { words = w'; frames = f1 }))
      × (translate w' m.current_cr3 va ≡ some (bit_or (bit_or pa flags') 1))
      × ((x : ℕ) → Elsewhere m va p3 p2 p1 x → w' x ≡ m.words x)
unfolding mmap map_pages set_leaf
mmap-create m va pa flags p3 p2 p1 f3 f2 f1 h =
    let flags' = if ltb va 0x800000000000 then bit_or flags 4 else flags in
    let e = bit_or (bit_or pa flags') 1 in
    let pt = pa_to_va p1 in
    let (w, run, tables, same) = map_page-create m va pa flags' p3 p2 p1 f3 f2 f1 h in
    (
      put w (slot pt (table_index 12 va)) e,
      rw (mmap, map_pages, run) refl,
      translate-put w m.current_cr3 va _ _ pt e tables
          ∙ rw (is_present-leaf (bit_or pa flags')) refl,
      λ x out.
          put_other w _ e x (outside-ne pt (table_index 12 va) x (table_index-lt 12 va) out.3)
          ∙ same x out,
    )
