-- ===== src/Pmm/Initialise/Fault.antt =====
-- Where `initialise` of mm/pmm.cpp writes outside its array of free lists.
use helix_kernel.Prelude.{
  ◌+◌, ◌^◌, ◌≤◌, ◌<◌, ◌≡◌, refl, true, false, none, List, [], ◌∷◌, ◌++◌, arith, All, ltb, leb,
}
use helix_kernel.Pmm.{word, add64}
use helix_kernel.Pmm.Order.{add64_small}
use helix_kernel.Pmm.Initialise.{
  MemmapEntry, is_managed, one_mib, trim, skip, fault, place_entry, init_entry, init_entries,
  initialise,
}
use helix_kernel.Pmm.Initialise.Segments.{make_segment-fault}

init_entries-fault :
    (xs : List MemmapEntry) (e : MemmapEntry) (es : List MemmapEntry)
    → All (λ x. is_managed x.kind ≡ false) xs
    → init_entry e 0 ≡ fault
    → init_entries (xs ++ (e ∷ es)) 0 ≡ none
unfolding init_entries init_entry
init_entries-fault [] e es un f = rw (f, init_entries) refl
init_entries-fault (x ∷ xs) e es un f =
    let skipped : init_entry x 0 ≡ skip = rw un.0 refl in
    rw (skipped, init_entries) (init_entries-fault xs e es un.1 f)

-- Where the first entry that the allocator manages starts at 1 MiB or above, has 256 MiB or more and
-- ends below 2^64, `initialise` writes outside `free_list[16]`.
pub initialise-fault :
    (xs : List MemmapEntry) (e : MemmapEntry) (es : List MemmapEntry)
    → All (λ x. is_managed x.kind ≡ false) xs
    → is_managed e.kind ≡ true
    → one_mib ≤ e.base
    → e.base + e.length < word
    → 2 ^ 28 ≤ e.length
    → initialise (xs ++ (e ∷ es)) ≡ none
unfolding initialise init_entry place_entry trim
initialise-fault xs e es un managed above w big =
    let sum : add64 e.base e.length ≡ e.base + e.length = add64_small e.base e.length w in
    let not_below : leb (e.base + e.length) one_mib ≡ false = ground arith in
    let not_low : ltb e.base one_mib ≡ false = ground arith in
    let f : init_entry e 0 ≡ fault =
      rw (managed, sum, not_below, not_low)
        (make_segment-fault e.base e.length big (omega arith)) in
    rw (init_entries-fault xs e es un f)
