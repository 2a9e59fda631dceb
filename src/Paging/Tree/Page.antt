-- ===== src/Paging/Tree/Page.antt =====
-- A page that the page allocator of mm/pmm.cpp gives for a table of mm/vmm.cpp.
use helix_kernel.Prelude.{
  ℕ, ◌+◌, ◌%◌, ◌^◌, ◌≤◌, ◌<◌, ◌≡◌, ◌≢◌, refl, true, List, [], ◌∷◌, All, arith, ap, false, ◌∙◌, ◌*◌,
  inl, inr, leb, ltb,
}
use helix_kernel.Pmm.{Pmm, Segment, block_bytes}
use helix_kernel.Pmm.Cover.{in_block}
use helix_kernel.Pmm.Alloc.{SameShape}
use helix_kernel.Pmm.Valid.{IsValid}
use helix_kernel.Pmm.Memory.{cover_all, Belongs, SameShapes, GivesFrom}
use helix_kernel.Pmm.Table.{IsWell, Separate-shapes}
use native.Mathlib.Decide.{dec_lt}
use helix_kernel.Vmm.{pa_to_va}
use helix_kernel.Paging.{Words, slot}
use helix_kernel.Paging.Create.{inside}
use helix_kernel.Paging.Tree.{Holding, IsLow, InUse, IsMapped}

IsLow-shape : (s t : Segment) → SameShape s t → IsLow s → IsLow t
IsLow-shape s t e h = record { aligned = rw e.base h.aligned; low = rw (e.base, e.size) h.low }

pub IsLow-shapes : (ss ts : List Segment) → SameShapes ss ts → All IsLow ss → All IsLow ts
IsLow-shapes [] [] sh h = tt
IsLow-shapes [] (t ∷ ts) sh h = elim sh [ ]
IsLow-shapes (s ∷ ss) [] sh h = elim sh [ ]
IsLow-shapes (s ∷ ss) (t ∷ ts) sh h = (IsLow-shape s t sh.0 h.0, IsLow-shapes ss ts sh.1 h.1)

-- A page of a low segment.
Belongs-page :
    (b : ℕ) (ss : List Segment)
    → All IsValid ss
    → All IsLow ss
    → Belongs 0 b ss
    → (b % 4096 ≡ 0) × (b + 4096 ≤ 2 ^ 47)
unfolding block_bytes
Belongs-page b [] v l h = elim h [ ]
Belongs-page b (s ∷ ss) v l (inl f) =
    (omega (arith, f.place, l.0.aligned), omega (arith, f.inside, v.0.tree_in, l.0.low))
Belongs-page b (s ∷ ss) v l (inr h) = Belongs-page b ss v.1 l.1 h.1

-- A block of any order lies below 2^47.
pub Belongs-low :
    (o b : ℕ) (ss : List Segment)
    → All IsValid ss
    → All IsLow ss
    → Belongs o b ss
    → b + block_bytes o ≤ 2 ^ 47
Belongs-low o b [] v l h = elim h [ ]
Belongs-low o b (s ∷ ss) v l (inl f) = omega (arith, f.inside, v.0.tree_in, l.0.low)
Belongs-low o b (s ∷ ss) v l (inr h) = Belongs-low o b ss v.1 l.1 h.1

in_block-inside : (b x : ℕ) → b ≤ x → x < b + 4096 → in_block 0 b x ≡ 1
unfolding in_block block_bytes
in_block-inside b x lo hi =
    let below : leb b x ≡ true = ground arith in
    let above : ltb x (b + 4096) ≡ true = ground arith in rw (below, above) refl

-- What the allocator keeps when it gives the page `b` away.
pub record Given (held : Holding) (b : ℕ) (f f' : Pmm) : Type 0 where
  pub aligned : b % 4096 ≡ 0
  pub low : b < 2 ^ 47
  pub was_free : (x : ℕ) → b ≤ x → x < b + 4096 → (cover_all f.segtab x ≡ 1) × (held.covers x ≡ 0)
  pub used : (x : ℕ) → b ≤ x → x < b + 4096 → cover_all f'.segtab x + held.covers x ≡ 0
  pub fewer : (x : ℕ) → cover_all f'.segtab x ≤ cover_all f.segtab x
  pub shapes : SameShapes f.segtab f'.segtab
  pub well' : IsWell f'
  pub low' : All IsLow f'.segtab

pub GivesFrom-Given :
    {held : Holding} (b : ℕ) (f f' : Pmm)
    → IsWell f
    → ((x : ℕ) → cover_all f.segtab x + held.covers x ≤ 1)
    → All IsLow f.segtab
    → GivesFrom 0 b f.segtab f'.segtab
    → Given held b f f'
GivesFrom-Given b f f' w once low g =
    let (aligned, hi) = Belongs-page b f.segtab w.valid low g.belongs in
    record {
      aligned = aligned;
      low = omega (arith, hi);
      was_free = λ x p q. (
        omega (arith, g.conserved x, in_block-inside b x p q, once x),
        omega (arith, g.conserved x, in_block-inside b x p q, once x),
      );
      used = λ x p q. omega (arith, g.conserved x, in_block-inside b x p q, once x);
      fewer = λ x. omega (arith, g.conserved x);
      shapes = g.shapes;
      well' = record {
        valid = g.valid;
        separate = Separate-shapes f.segtab f'.segtab g.shapes w.separate;
      };
      low' = IsLow-shapes f.segtab f'.segtab g.shapes low;
    }

-- A table stays in use.
pub InUse-Given :
    {held : Holding} (b t : ℕ) (f f' : Pmm) → Given held b f f' → InUse held f t → InUse held f' t
InUse-Given b t f f' g u = record {
  page = u.page;
  address = u.address;
  aligned = u.aligned;
  low = u.low;
  used = λ x p q. omega (arith, g.fewer x, u.used x p q);
}

-- A page that was free is no table.
pub InUse-ne :
    {held : Holding} (b : ℕ) (f f' : Pmm) (t : ℕ)
    → Given held b f f'
    → (u : InUse held f t) → u.page ≢ b
InUse-ne b f f' t g u e = omega (
  arith,
  g.was_free b (omega arith) (omega arith),
  u.used b (omega (arith, e)) (omega (arith, e)),
)

-- Only what is free or held counts, and where the segments lie.
pub IsMapped-conserved :
    {held held' : Holding} (root : ℕ) (w : Words) (f f' : Pmm)
    → IsWell f'
    → All IsLow f'.segtab
    → SameShapes held'.segments f'.segtab
    → ((x : ℕ) → cover_all f'.segtab x + held'.covers x ≡ cover_all f.segtab x + held.covers x)
    → IsMapped held root w f
    → IsMapped held' root w f'
IsMapped-conserved root w f f' well low shapes same h = record {
  well = well;
  shapes = shapes;
  once = λ x. omega (arith, same x, h.once x);
  low = low;
  tree = record {
    in_use = λ p t l hp e.
        let u = h.tree.in_use p t l hp e in
        record {
          page = u.page;
          address = u.address;
          aligned = u.aligned;
          low = u.low;
          used = λ x lo hi. same x ∙ u.used x lo hi;
        };
    apart = h.tree.apart;
  };
}

pub IsMapped-segtab :
    {held : Holding} (root : ℕ) (w : Words) (f f' : Pmm)
    → f'.segtab ≡ f.segtab
    → IsMapped held root w f
    → IsMapped held root w f'
IsMapped-segtab {held} root w f f' same h =
    IsMapped-conserved root w f f'
      (record { valid = rw same h.well.valid; separate = rw same h.well.separate }) (rw same h.low)
      (rw same h.shapes) (λ x. ap (λ ss. cover_all ss x + held.covers x) same) h

pub pa_to_va_low : (y : ℕ) → y < 2 ^ 47 → pa_to_va y ≡ y + 0xFFFF800000000000
unfolding pa_to_va
pa_to_va_low y h = ground arith

-- A word of memory that callers hold is no entry of a table.
pub held-ne_slot :
    {held : Holding} (f : Pmm) (t i y : ℕ)
    → InUse held f t
    → y < 2 ^ 47
    → 0 < held.covers y
    → i < 512
    → pa_to_va y ≢ slot t i
unfolding slot
held-ne_slot f t i y u low is_held lt e =
    let here : y ≡ u.page + i * 8 =
      omega (arith, e, u.address, pa_to_va_low y low, pa_to_va_low u.page u.low) in
    omega (arith, u.used y (omega arith) (omega arith))

-- It is not in a page that is given for a table.
pub held-outside :
    {held : Holding} (b y : ℕ) (f f' : Pmm)
    → Given held b f f'
    → y < 2 ^ 47
    → 0 < held.covers y
    → inside (pa_to_va b) (pa_to_va y) ≡ false
unfolding pa_to_va
held-outside {held} b y f f' g low is_held = elim (dec_lt y b) [
  | yes below ↦ ground (arith, g.low)
  | no above ↦ elim (dec_lt y (b + 4096)) [
    | yes within ↦ absurd (omega (arith, (g.was_free y (omega arith) within).1))
    | no beyond ↦ ground (arith, g.low)
  ]
]

-- It is not in the page of a table.
pub InUse-outside :
    {held : Holding} (f : Pmm) (t y : ℕ)
    → InUse held f t
    → y < 2 ^ 47
    → 0 < held.covers y
    → inside t (pa_to_va y) ≡ false
InUse-outside f t y u low is_held = elim (dec_lt y u.page) [
  | yes below ↦ ground (arith, u.address, pa_to_va_low y low, pa_to_va_low u.page u.low)
  | no above ↦ elim (dec_lt y (u.page + 4096)) [
    | yes within ↦ absurd (omega (arith, u.used y (omega arith) within))
    | no beyond ↦ ground (arith, u.address, pa_to_va_low y low, pa_to_va_low u.page u.low)
  ]
]
