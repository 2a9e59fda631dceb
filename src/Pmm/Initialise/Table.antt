-- ===== src/Pmm/Initialise/Table.antt =====
-- The table of segments that `initialise` of mm/pmm.cpp builds from the memory map.
use helix_kernel.Prelude.{
  ℕ, ◌+◌, ◌-◌, ◌/◌, ◌^◌, ◌≤◌, ◌<◌, ◌≡◌, refl, true, none, some, List, [], ◌∷◌, arith, Bool-cases,
  inl, inr, ◌⊎◌, All, ltb, leb, ◌&&◌,
}
use helix_kernel.Pmm.{Segment, Pmm, word, add64, max_segtab}
use helix_kernel.Pmm.Order.{add64_small}
use helix_kernel.Pmm.Cover.{in_block}
use helix_kernel.Pmm.Valid.{IsValid}
use helix_kernel.Pmm.Memory.{cover_all, Apart, Separate}
use helix_kernel.Pmm.Table.{IsWell}
use helix_kernel.Pmm.Initialise.{
  MemmapEntry, is_managed, one_mib, trim, EntryResult, skip, stop, fault, added, place_entry,
  init_entry, init_entries, total_size, initialise,
}
use helix_kernel.Pmm.Initialise.Segments.{Fresh, make_segment-Fresh}

-- An entry that the allocator manages does not wrap, and lies below 1 MiB or has between a page
-- and 256 MiB (exclusive) above it.
pub record IsGood (e : MemmapEntry) : Type 0 where
  pub no_wrap : e.base + e.length < word
  pub room :
      (e.base + e.length ≤ one_mib)
      ⊎ ((one_mib + 4096 ≤ e.base + e.length) × (4096 ≤ e.length) × (e.length < 2 ^ 28))

abbrev pub GoodEntry : MemmapEntry → Type 0
GoodEntry e = is_managed e.kind ≡ true → IsGood e

-- The range of a segment lies in the range of a managed entry.
abbrev pub Within : Segment → MemmapEntry → Type 0
Within s e =
    (is_managed e.kind ≡ true) × (e.base ≤ s.base_ptr) × (s.base_ptr + s.size ≤ e.base + e.length)

-- Managed entries share no address.
abbrev pub EntriesApart : MemmapEntry → MemmapEntry → Type 0
EntriesApart e f =
    is_managed e.kind ≡ true
    → is_managed f.kind ≡ true
    → (e.base + e.length ≤ f.base) ⊎ (f.base + f.length ≤ e.base)

abbrev pub AllApart : List MemmapEntry → Type 0
AllApart [] = Unit
AllApart (e ∷ es) = All (EntriesApart e) es × AllApart es

-- What an iteration does with a good entry: no fault, and a segment within the entry.
abbrev pub EntryOutcome : MemmapEntry → EntryResult → Type 0
EntryOutcome e skip = Unit
EntryOutcome e stop = Unit
EntryOutcome e fault = ⊥
EntryOutcome e (added s) = Fresh s × Within s e

trim-outcome :
    (e : MemmapEntry)
    → IsGood e
    → (trim e.base e.length ≡ none)
      ⊎ ((base : ℕ) × (len : ℕ) × (trim e.base e.length ≡ some (base, len))
          × (0 < base)
          × (base + len < word)
          × (4096 ≤ len)
          × (len < 2 ^ 28)
          × (e.base ≤ base)
          × (base + len ≤ e.base + e.length))
unfolding trim
trim-outcome e g =
    let sum : add64 e.base e.length ≡ e.base + e.length = add64_small e.base e.length g.no_wrap in
    elim (Bool-cases (leb (e.base + e.length) one_mib)) [
      | inl below ↦ inl (rw (sum, below) refl)
      | inr above ↦ elim (Bool-cases (ltb e.base one_mib)) [
        | inl low ↦ inr (
          one_mib,
          e.length - (one_mib - e.base),
          rw (sum, above, low) refl,
          omega arith,
          ground (arith, g.no_wrap),
          ground (arith, g.room),
          ground (arith, g.room),
          ground arith,
          ground arith,
        )
        | inr high ↦ inr (
          e.base,
          e.length,
          rw (sum, above, high) refl,
          ground arith,
          g.no_wrap,
          ground (arith, g.room),
          ground (arith, g.room),
          omega arith,
          omega arith,
        )
      ]
    ]

place_entry-outcome :
    (e : MemmapEntry) (num_segtab : ℕ)
    → is_managed e.kind ≡ true
    → IsGood e
    → EntryOutcome e (place_entry num_segtab (trim e.base e.length))
unfolding place_entry
place_entry-outcome e n managed g = elim (trim-outcome e g) [
  | inl gone ↦ rw gone tt
  | inr (base, len, cut, pos, wrap, lo, hi, from, to) ↦
      let (s, run, eb, es, fresh) = make_segment-Fresh base len pos wrap lo hi in
      rw cut (elim (Bool-cases (leb max_segtab n)) [
        | inl full ↦ rw full tt
        | inr free ↦ rw (free, run) (fresh, (managed, omega arith, omega arith))
      ])
]

init_entry-outcome :
    (e : MemmapEntry) (num_segtab : ℕ) → GoodEntry e → EntryOutcome e (init_entry e num_segtab)
unfolding init_entry
init_entry-outcome e n good = elim (Bool-cases (is_managed e.kind)) [
  | inl managed ↦ rw managed (place_entry-outcome e n managed (good managed))
  | inr ignored ↦ rw ignored tt
]

-- A segment that lies in no entry of `es` is apart from what the entries of `es` add.
record Built (es : List MemmapEntry) (ss : List Segment) : Type 0 where
  fresh : All Fresh ss
  separate : Separate ss
  outside :
      (s : Segment) (e : MemmapEntry) → Within s e → All (EntriesApart e) es → All (Apart s) ss

EntryResult-cases :
    (e : MemmapEntry) (r : EntryResult)
    → EntryOutcome e r
    → (r ≡ skip) ⊎ (r ≡ stop) ⊎ ((s : Segment) × (r ≡ added s) × Fresh s × Within s e)
EntryResult-cases e skip h = inl refl
EntryResult-cases e stop h = inr (inl refl)
EntryResult-cases e fault h = elim h [ ]
EntryResult-cases e (added s) h = inr (inr (s, refl, h.0, h.1))

Built-nil : (es : List MemmapEntry) → Built es []
Built-nil es = record { fresh = tt; separate = tt; outside = λ s e w aps. tt }

Built-skip :
    (e : MemmapEntry) (es : List MemmapEntry) (ss : List Segment) → Built es ss → Built (e ∷ es) ss
Built-skip e es ss b = record {
  fresh = b.fresh;
  separate = b.separate;
  outside = λ s f w aps. b.outside s f w aps.1;
}

Within-Apart :
    (s t : Segment) (e f : MemmapEntry) → Within s e → Within t f → EntriesApart e f → Apart s t
Within-Apart s t e f v w ap = ground (arith, ap v.0 w.0)

Built-added :
    (s : Segment) (e : MemmapEntry) (es : List MemmapEntry) (ss : List Segment)
    → Fresh s
    → Within s e
    → All (EntriesApart e) es
    → Built es ss
    → Built (e ∷ es) (s ∷ ss)
Built-added s e es ss f w aps b = record {
  fresh = (f, b.fresh);
  separate = (b.outside s e w aps, b.separate);
  outside = λ t g v ap. (Within-Apart t s g e v w ap.0, b.outside t g v ap.1);
}

init_entries-Built :
    (es : List MemmapEntry) (num_segtab : ℕ)
    → All GoodEntry es
    → AllApart es
    → (ss : List Segment) × (init_entries es num_segtab ≡ some ss) × Built es ss
unfolding init_entries
init_entries-Built [] n good apart = ([], refl, Built-nil [])
init_entries-Built (e ∷ es) n good apart =
    elim (EntryResult-cases e (init_entry e n) (init_entry-outcome e n good.0)) [
      | inl is ↦
          let (ss, run, b) = init_entries-Built es n good.1 apart.1 in
          (ss, rw (is, init_entries) run, Built-skip e es ss b)
      | inr (inl is) ↦ ([], rw (is, init_entries) refl, Built-nil (e ∷ es))
      | inr (inr (s, is, f, w)) ↦
          let (ss, run, b) = init_entries-Built es (n + 1) good.1 apart.1 in
          (s ∷ ss, rw (is, init_entries, run) refl, Built-added s e es ss f w apart.0 b)
    ]

-- The addresses of a segment are covered by no segment that is apart from it.
in_block-outside :
    (s t : Segment) (a : ℕ)
    → IsValid t
    → Apart s t
    → s.base_ptr ≤ a
    → a < s.base_ptr + s.size
    → in_block t.max_order t.base_ptr a ≡ 0
unfolding in_block
in_block-outside s t a v ap lo hi = ground (arith, v.tree_in)

cover_all-Apart :
    (s : Segment) (ss : List Segment) (a : ℕ)
    → All Fresh ss
    → All (Apart s) ss
    → s.base_ptr ≤ a
    → a < s.base_ptr + s.size
    → cover_all ss a ≡ 0
unfolding cover_all
cover_all-Apart s [] a f aps lo hi = refl
cover_all-Apart s (t ∷ ts) a f aps lo hi =
    let rest = cover_all-Apart s ts a f.1 aps.1 lo hi in
    let none_here : in_block t.max_order t.base_ptr a ≡ 0 =
      in_block-outside s t a f.0.valid aps.0 lo hi in
    omega (arith, f.0.one_block a)

cover_all-once : (ss : List Segment) (a : ℕ) → All Fresh ss → Separate ss → cover_all ss a ≤ 1
unfolding cover_all in_block
cover_all-once [] a f sep = omega arith
cover_all-once (s ∷ ss) a f sep =
    elim (Bool-cases (leb s.base_ptr a && ltb a (s.base_ptr + s.size))) [
      | inl own ↦ ground (arith, f.0.one_block a, cover_all-Apart s ss a f.1 sep.0)
      | inr other ↦
          ground (arith, f.0.one_block a, f.0.valid.tree_in, cover_all-once ss a f.1 sep.1)
    ]

All-IsValid : (ss : List Segment) → All Fresh ss → All IsValid ss
All-IsValid [] f = tt
All-IsValid (s ∷ ss) f = (f.0.valid, All-IsValid ss f.1)

-- For a memory map whose managed entries are good and share no address, `initialise` stays within
-- `free_list[16]`; its segments are well formed, and their free blocks overlap nowhere.
pub initialise-IsWell :
    (es : List MemmapEntry)
    → All GoodEntry es
    → AllApart es
    → (m : Pmm) × (initialise es ≡ some m)
      × IsWell m
      × All Fresh m.segtab
      × ((a : ℕ) → cover_all m.segtab a ≤ 1)
unfolding initialise
initialise-IsWell es good apart =
    let (ss, run, b) = init_entries-Built es 0 good apart in
    let m : Pmm = record {
      segtab = ss;
      total_mem = add64 (total_size ss) 0xfff / 0x1000;
      num_used = 0;
      num_errors = 0;
    } in
    (
      m,
      rw run refl,
      record { valid = All-IsValid ss b.fresh; separate = b.separate },
      b.fresh,
      λ a. cover_all-once ss a b.fresh b.separate,
    )
