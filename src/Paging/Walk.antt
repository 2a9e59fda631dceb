-- ===== src/Paging/Walk.antt =====
-- The walk of the processor through the page tables of mm/vmm.cpp, and writes to one entry.
use Prim.Native.Nat.{bit_or}
use helix_kernel.Prelude.{
  ℕ, zero, suc, ◌∙◌, ◌+◌, ◌*◌, ◌/◌, ◌%◌, ◌^◌, ◌<◌, ◌≡◌, ◌≢◌, refl, true, false, Option, none, some,
  ltb, leb, ◌&&◌, if◌then◌else◌, arith,
}
use helix_kernel.Prelude.Bits.{
  bit_and-le, bit_and-one, bit_and-four, bit_and-page, bit_or-one, bit_or-two, bit_or-four,
  bit_or-none, bit_or-one_odd,
}
use helix_kernel.Vmm.{pa_to_va}
use helix_kernel.Paging.{
  Words, put, table_index, slot, is_present, next_table, table_entry, follow, leaf_slot,
}

-- The entry that the processor finds for an address, if all four are present.
unfoldable pub translate : Words → ℕ → ℕ → Option ℕ
translate w cr3 va = elim (leaf_slot w cr3 va) [
  | none ↦ none
  | some at ↦ if is_present (w at) then some (w at) else none
]

pub put_self : (w : Words) (a v : ℕ) → put w a v a ≡ v
unfolding put
put_self w a v = ground arith

pub put_other : (w : Words) (a v x : ℕ) → x ≢ a → put w a v x ≡ w x
unfolding put
put_other w a v x ne = ground arith

pub table_index-lt : (shift va : ℕ) → table_index shift va < 512
unfolding table_index
table_index-lt shift va = omega (arith, bit_and-le (va / 2 ^ shift) 0x1FF)

-- Entries of different tables stand at different addresses.
pub slot-ne :
    (t u i j : ℕ) → t % 4096 ≡ 0 → u % 4096 ≡ 0 → t ≢ u → i < 512 → j < 512 → slot t i ≢ slot u j
unfolding slot
slot-ne t u i j ht hu ne hi hj e = ne (omega arith)

slot-index-ne : (t i j : ℕ) → i ≢ j → slot t j ≢ slot t i
unfolding slot
slot-index-ne t i j ne e = ne (omega arith)

-- A slot lies in the page of its table.
pub slot-outside :
    (t u i : ℕ)
    → t % 4096 ≡ 0
    → u % 4096 ≡ 0
    → t ≢ u
    → i < 512
    → (leb u (slot t i) && ltb (slot t i) (u + 4096)) ≡ false
unfolding slot
slot-outside t u i ht hu ne hi = ground arith

pub table_entry_eq :
    (page flags : ℕ) → page % 4096 ≡ 0 → table_entry page flags ≡ page + 3 + flags / 4 % 2 * 4
unfolding table_entry
table_entry_eq page flags h =
    rw (bit_or-one page (omega arith), bit_or-two (page + 1) (omega arith), bit_and-four flags)
      (or_user (flags / 4 % 2) (page + 1 + 2) (omega arith) (omega arith) ∙ omega arith)
  where
    or_user : (b x : ℕ) → b < 2 → x % 8 ≡ 3 → bit_or x (b * 4) ≡ x + b * 4
    or_user zero x lt e = bit_or-none x ∙ omega arith
    or_user (suc zero) x lt e = bit_or-four x e
    or_user (suc (suc b)) x lt e = absurd (omega arith)

pub is_present-table_entry :
    (page flags : ℕ) → page % 4096 ≡ 0 → is_present (table_entry page flags) ≡ true
unfolding is_present
is_present-table_entry page flags h =
    ground (arith, bit_and-one (table_entry page flags), table_entry_eq page flags h)

pub next_table-table_entry :
    (page flags : ℕ)
    → page % 4096 ≡ 0
    → page < 2 ^ 52
    → next_table (table_entry page flags) ≡ pa_to_va page
unfolding next_table
next_table-table_entry page flags ha hb =
    let low = 3 + flags / 4 % 2 * 4 in
    let e : table_entry page flags ≡ page / 4096 * 4096 + low =
      omega (arith, table_entry_eq page flags ha) in
    let back : page / 4096 * 4096 ≡ page = omega arith in
    rw (e, bit_and-page (page / 4096) low (omega arith) (omega arith), back) refl

-- An entry with the flag is present.
pub is_present-leaf : (e : ℕ) → is_present (bit_or e 1) ≡ true
unfolding is_present
is_present-leaf e = ground (arith, bit_and-one (bit_or e 1), bit_or-one_odd e)

-- The three tables that the walk for an address goes through, each at the start of a page, and the
-- lowest in a page of its own.
pub record Tables (w : Words) (cr3 va pdpt pd pt : ℕ) : Type 0 where
  pub first : follow w (slot (pa_to_va cr3) (table_index 39 va)) ≡ some pdpt
  pub second : follow w (slot pdpt (table_index 30 va)) ≡ some pd
  pub third : follow w (slot pd (table_index 21 va)) ≡ some pt
  pub aligned : (pa_to_va cr3 % 4096 ≡ 0) × (pdpt % 4096 ≡ 0) × (pd % 4096 ≡ 0) × (pt % 4096 ≡ 0)
  pub apart : (pa_to_va cr3 ≢ pt) × (pdpt ≢ pt) × (pd ≢ pt)

pub leaf_slot-Tables :
    (w : Words) (cr3 va pdpt pd pt : ℕ)
    → Tables w cr3 va pdpt pd pt
    → leaf_slot w cr3 va ≡ some (slot pt (table_index 12 va))
unfolding leaf_slot
leaf_slot-Tables w cr3 va pdpt pd pt t = ground (arith, t.first, t.second, t.third)

follow-put : (w : Words) (at v x : ℕ) → x ≢ at → follow (put w at v) x ≡ follow w x
unfolding follow
follow-put w at v x ne = rw (put_other w at v x ne) refl

-- A write to the entry of the address in the lowest table keeps the tables above it.
pub Tables_put :
    (w : Words) (cr3 va pdpt pd pt i v : ℕ)
    → i < 512
    → Tables w cr3 va pdpt pd pt
    → Tables (put w (slot pt i) v) cr3 va pdpt pd pt
Tables_put w cr3 va pdpt pd pt i v lt t =
    let (a4, a3, a2, a1) = t.aligned in
    let (n4, n3, n2) = t.apart in
    let keeps = λ (u shift : ℕ) (a : u % 4096 ≡ 0) (n : u ≢ pt).
      follow-put w (slot pt i) v (slot u (table_index shift va))
        (slot-ne u pt (table_index shift va) i a a1 n (table_index-lt shift va) lt) in
    record {
      first = keeps (pa_to_va cr3) 39 a4 n4 ∙ t.first;
      second = keeps pdpt 30 a3 n3 ∙ t.second;
      third = keeps pd 21 a2 n2 ∙ t.third;
      aligned = t.aligned;
      apart = t.apart;
    }

-- What the processor finds after a write to the entry of the address.
pub translate-put :
    (w : Words) (cr3 va pdpt pd pt v : ℕ)
    → Tables w cr3 va pdpt pd pt
    → translate (put w (slot pt (table_index 12 va)) v) cr3 va
      ≡ (if is_present v then some v else none)
unfolding translate
translate-put w cr3 va pdpt pd pt v t =
    let at = slot pt (table_index 12 va) in
    let t' = Tables_put w cr3 va pdpt pd pt (table_index 12 va) v (table_index-lt 12 va) t in
    ground (arith, leaf_slot-Tables (put w at v) cr3 va pdpt pd pt t', put_self w at v)

-- Another address of the same lowest table keeps its translation.
pub translate-put_other :
    (w : Words) (cr3 va va' pdpt pd pt v : ℕ)
    → Tables w cr3 va' pdpt pd pt
    → table_index 12 va ≢ table_index 12 va'
    → translate (put w (slot pt (table_index 12 va)) v) cr3 va' ≡ translate w cr3 va'
unfolding translate
translate-put_other w cr3 va va' pdpt pd pt v t ne =
    let at = slot pt (table_index 12 va) in
    let i = table_index 12 va' in
    let t' = Tables_put w cr3 va' pdpt pd pt (table_index 12 va) v (table_index-lt 12 va) t in
    let other : slot pt i ≢ at = slot-index-ne pt (table_index 12 va) i ne in
    ground (
      arith,
      leaf_slot-Tables (put w at v) cr3 va' pdpt pd pt t',
      leaf_slot-Tables w cr3 va' pdpt pd pt t,
      put_other w at v (slot pt i) other,
    )
