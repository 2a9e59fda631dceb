-- ===== src/Pmm/Run.antt =====
-- Histories of calls of `alloc` and `free` (mm/pmm.cpp): which bytes are free and which are held.
use mathlib.Core.Option.{some-injective}
use mathlib.Core.Path.{subst}
use helix_kernel.Prelude.{
  ℕ, ◌+◌, ◌≤◌, ◌<◌, ◌≡◌, ◌≢◌, refl, List, [], ◌∷◌, ◌++◌, none, some, arith, inl, inr, All, ◌∙◌, sym,
  ap,
}
use helix_kernel.Pmm.{Pmm, word, add64, block_bytes, order_of, alloc, free}
use helix_kernel.Pmm.Cover.{in_block}
use helix_kernel.Pmm.Memory.{cover_all, Belongs, SameShapes, SameShapes-refl}
use helix_kernel.Pmm.Table.{
  IsWell, Separate-shapes, Belongs-shapes, AllocOutcome, alloc-outcome, free-TakesBack,
}

-- A block that a caller holds: its address and the size that the caller asked for.
pub record Held : Type 0 where
  pub address : ℕ
  pub bytes : ℕ

pub record World : Type 0 where
  pub pmm : Pmm
  pub held : List Held

-- The calls that callers may make: any request whose rounding does not wrap, and the release of a
-- held block with the size that it was asked for with.
pub data Step : World → World → Type 0 where
  allocate :
      {w : World} {m : Pmm} (n p : ℕ)
      → n + 0xfff < word
      → alloc n w.pmm ≡ some (p, m)
      → p ≢ 0
      → Step w (record { pmm = m; held = record { address = p; bytes = n } ∷ w.held })
  refused :
      {w : World} {m : Pmm} (n : ℕ)
      → n + 0xfff < word
      → alloc n w.pmm ≡ some (0, m)
      → Step w (record w { pmm = m })
  release :
      {w : World} {m : Pmm} (xs : List Held) (b : Held) (ys : List Held)
      → w.held ≡ xs ++ (b ∷ ys)
      → free b.address b.bytes w.pmm ≡ some m
      → Step w (record { pmm = m; held = xs ++ ys })

pub data Reach (w : World) : World → Type 0 where
  here : Reach w w
  next : {u v : World} → Reach w u → Step u v → Reach w v

-- 1 if the block holds the address, by the order that its size gives.
unfoldable pub held_at : Held → ℕ → ℕ
held_at b a = elim (order_of b.bytes) [ none ↦ 0 | some o ↦ in_block o b.address a ]

-- How many held blocks cover an address.
unfoldable pub cover_held : List Held → ℕ → ℕ
cover_held [] a = 0
cover_held (b ∷ bs) a = held_at b a + cover_held bs a

-- A held block has room for its bytes, in the segment that its address belongs to.
pub record IsHeld (m : Pmm) (b : Held) : Type 0 where
  pub order : ℕ
  pub order_eq : order_of b.bytes ≡ some order
  pub room : b.bytes ≤ block_bytes order
  pub belongs : Belongs order b.address m.segtab

pub record Inv (total : ℕ → ℕ) (w : World) : Type 0 where
  pub well : IsWell w.pmm
  pub blocks : All (IsHeld w.pmm) w.held
  pub conserved : (a : ℕ) → cover_all w.pmm.segtab a + cover_held w.held a ≡ total a

pub All-append-split :
    (m : Pmm) (xs : List Held) (b : Held) (ys : List Held)
    → All (IsHeld m) (xs ++ (b ∷ ys))
    → IsHeld m b × All (IsHeld m) (xs ++ ys)
All-append-split m [] b ys h = h
All-append-split m (x ∷ xs) b ys h =
    let (hb, hr) = All-append-split m xs b ys h.1 in (hb, (h.0, hr))

pub cover_held-split :
    (xs : List Held) (b : Held) (ys : List Held) (a : ℕ)
    → cover_held (xs ++ (b ∷ ys)) a ≡ held_at b a + cover_held (xs ++ ys) a
unfolding cover_held
cover_held-split [] b ys a = refl
cover_held-split (x ∷ xs) b ys a = omega (arith, cover_held-split xs b ys a)

pub IsHeld-shapes :
    (m m' : Pmm) (bs : List Held)
    → SameShapes m.segtab m'.segtab
    → All (IsHeld m) bs
    → All (IsHeld m') bs
IsHeld-shapes m m' [] sh h = tt
IsHeld-shapes m m' (b ∷ bs) sh h = (
  record {
    order = h.0.order;
    order_eq = h.0.order_eq;
    room = h.0.room;
    belongs = Belongs-shapes h.0.order b.address m.segtab m'.segtab sh h.0.belongs;
  },
  IsHeld-shapes m m' bs sh h.1,
)

pub held_at-order :
    (b : Held) (o a : ℕ) → order_of b.bytes ≡ some o → held_at b a ≡ in_block o b.address a
unfolding held_at
held_at-order b o a e = rw (e, held_at)

module _ (total : ℕ → ℕ) where
  allocate-Inv :
      (w : World) (m : Pmm) (n p o : ℕ)
      → Inv total w
      → order_of n ≡ some o
      → n ≤ block_bytes o
      → p ≢ 0
      → AllocOutcome o w.pmm (p, m)
      → Inv total (record { pmm = m; held = record { address = p; bytes = n } ∷ w.held })
  unfolding cover_held
  allocate-Inv w m n p o i e room ne (inr (z, _, _)) = absurd (ne z)
  allocate-Inv w m n p o i e room ne (inl (_, g, _, _)) = record {
    well = record {
      valid = g.valid;
      separate = Separate-shapes w.pmm.segtab m.segtab g.shapes i.well.separate;
    };
    blocks = (
      record {
        order = o;
        order_eq = e;
        room = room;
        belongs = Belongs-shapes o p w.pmm.segtab m.segtab g.shapes g.belongs;
      },
      IsHeld-shapes w.pmm m w.held g.shapes i.blocks,
    );
    conserved = λ a. omega (
      arith,
      g.conserved a,
      i.conserved a,
      held_at-order (record { address = p; bytes = n }) o a e,
    );
  }

  refused-Inv :
      (w : World) (m : Pmm) (o : ℕ)
      → Inv total w
      → AllocOutcome o w.pmm (0, m)
      → Inv total (record w { pmm = m })
  refused-Inv w m o i (inl (h, _, _, _)) = absurd (omega arith)
  refused-Inv w m o i (inr (_, e, _)) = rw e (record {
    well = record { valid = i.well.valid; separate = i.well.separate };
    blocks =
        IsHeld-shapes w.pmm (record w.pmm { num_errors = add64 w.pmm.num_errors 1 }) w.held
          (SameShapes-refl w.pmm.segtab) i.blocks;
    conserved = i.conserved;
  })

  -- A held block can be released: `free` returns, and the invariant holds afterwards.
  release-Inv :
      (w : World) (xs : List Held) (b : Held) (ys : List Held)
      → Inv total w
      → w.held ≡ xs ++ (b ∷ ys)
      → (m : Pmm) × (free b.address b.bytes w.pmm ≡ some m)
        × Inv total (record { pmm = m; held = xs ++ ys })
  release-Inv w xs b ys i e =
      let (hb, hr) = All-append-split w.pmm xs b ys (rw e at i.blocks) in
      let (m, run, t) =
        free-TakesBack b.address b.bytes hb.order w.pmm i.well hb.order_eq hb.belongs in
      (
        m,
        run,
        record {
          well = record {
            valid = t.valid;
            separate = Separate-shapes w.pmm.segtab m.segtab t.shapes i.well.separate;
          };
          blocks = IsHeld-shapes w.pmm m (xs ++ ys) t.shapes hr;
          conserved = λ a. omega (
            arith,
            t.conserved a,
            i.conserved a,
            ap (λ l. cover_held l a) e,
            cover_held-split xs b ys a,
            held_at-order b hb.order a hb.order_eq,
          );
        },
      )

  Step-Inv : {u v : World} → Inv total u → Step u v → Inv total v
  Step-Inv {u} i (allocate {m} n p h run ne) =
      let (o, r, run', e, room, out) = alloc-outcome n u.pmm i.well h in
      allocate-Inv u m n p o i e room ne
        (subst (AllocOutcome o u.pmm) (some-injective _ _ (sym run' ∙ run)) out)
  Step-Inv {u} i (refused {m} n h run) =
      let (o, r, run', e, room, out) = alloc-outcome n u.pmm i.well h in
      refused-Inv u m o i (subst (AllocOutcome o u.pmm) (some-injective _ _ (sym run' ∙ run)) out)
  Step-Inv {u} i (release {m} xs b ys e run) =
      let (m', run', i') = release-Inv u xs b ys i e in
      subst (λ k. Inv total (record { pmm = k; held = xs ++ ys }))
        (some-injective _ _ (sym run' ∙ run)) i'

  pub Reach-Inv : {u v : World} → Inv total u → Reach u v → Inv total v
  Reach-Inv i here = i
  Reach-Inv i (next r s) = Step-Inv (Reach-Inv i r) s

-- The allocator before any call: callers hold nothing.
abbrev pub start : Pmm → World
start m = record { pmm = m; held = [] }

pub start-Inv : (m : Pmm) → IsWell m → Inv (cover_all m.segtab) (start m)
unfolding cover_held
start-Inv m w = record { well = w; blocks = tt; conserved = λ a. omega arith }

module _ (m : Pmm) (well : IsWell m) {v : World} (r : Reach (start m) v) where
  -- After any calls of `alloc` and `free`, the free and the held blocks cover each address as often
  -- as the free blocks did before the calls: no memory is lost and none appears.
  pub Reach-conserved :
      (a : ℕ) → cover_all v.pmm.segtab a + cover_held v.held a ≡ cover_all m.segtab a
  Reach-conserved = (Reach-Inv _ (start-Inv m well) r).conserved

  -- After any calls, the release of a held block does not leave `free_list[16]`, and the world
  -- that it leads to is reached by those calls and this one.
  pub release-total :
      (xs : List Held) (b : Held) (ys : List Held)
      → v.held ≡ xs ++ (b ∷ ys)
      → (m' : Pmm) × (free b.address b.bytes v.pmm ≡ some m')
        × Reach (start m) (record { pmm = m'; held = xs ++ ys })
  release-total xs b ys e =
      let (m', run, _) = release-Inv _ v xs b ys (Reach-Inv _ (start-Inv m well) r) e in
      (m', run, next r (release xs b ys e run))

pub held_at-inside :
    (m : Pmm) (b : Held) (a : ℕ)
    → IsHeld m b
    → b.address ≤ a
    → a < b.address + b.bytes
    → held_at b a ≡ 1
unfolding in_block
held_at-inside m b a h lo hi = rw (held_at-order b h.order a h.order_eq) (ground (arith, h.room))

-- Where the allocator is well formed and no two free blocks overlap at first, no byte of a held block
-- is, after any calls of `alloc` for a size whose rounding does not wrap and of `free` with a held
-- block and the size that it was asked for with, a byte of another held block or of a free one.
pub Reach-exclusive :
    (m : Pmm)
    → IsWell m
    → ((a : ℕ) → cover_all m.segtab a ≤ 1)
    → {v : World} → Reach (start m) v
    → (xs : List Held) (b : Held) (ys : List Held) → v.held ≡ xs ++ (b ∷ ys)
    → (a : ℕ) → b.address ≤ a
    → a < b.address + b.bytes
    → (cover_held (xs ++ ys) a ≡ 0) × (cover_all v.pmm.segtab a ≡ 0)
Reach-exclusive m well once {v} r xs b ys e a lo hi =
    let i = Reach-Inv _ (start-Inv m well) r in
    let own =
      held_at-inside v.pmm b a (All-append-split v.pmm xs b ys (rw e at i.blocks)).0 lo hi in
    omega
      (arith, once a, i.conserved a, ap (λ l. cover_held l a) e, cover_held-split xs b ys a, own)
