-- ===== src/Protocols/Answers.antt =====
-- What the queries of protocols/graphics.cpp and protocols/memmap.cpp answer.
use mathlib.Core.Path.{subst}
use mathlib.Core.Option.{some-injective}
use helix_kernel.Prelude.{
  ℕ, zero, suc, ◌+◌, ◌^◌, ◌<◌, ◌≡◌, refl, some, List, [], ◌∷◌, length, get_elem?, arith,
}
use helix_kernel.Pmm.Initialise.{MemmapEntry}
use helix_kernel.Protocols.{
  KernelGraphics, get_width, get_bpp, get_stride, MemMap, make_memmap, get_num_entries, get_entry,
}

-- Where a line has as many 32-bit words as pixels, `get_stride` says one more.
pub get_stride-width :
    (g : KernelGraphics)
    → g.main_framebuffer.bpp ≡ 32
    → g.main_framebuffer.width < 2 ^ 32
    → get_stride g ≡ get_width g + 1
unfolding get_stride get_width get_bpp
get_stride-width g word small = rw word (omega arith)

get_elem?-inside :
    (xs : List MemmapEntry) (i : ℕ) → i < length xs → (e : MemmapEntry) × (get_elem? xs i ≡ some e)
get_elem?-inside [] i lt = absurd (omega arith)
get_elem?-inside (x ∷ xs) zero lt = (x, refl)
get_elem?-inside (x ∷ xs) (suc i) lt = get_elem?-inside xs i (omega arith)

-- A memory map that is made has an entry, and `get_entry` reads one for every index below
-- `get_num_entries`.
pub make_memmap-get_entry :
    (response : List MemmapEntry) (m : MemMap) (idx : ℕ)
    → make_memmap (some response) ≡ some m
    → idx < get_num_entries m
    → (e : MemmapEntry) × (get_entry m idx ≡ some e)
unfolding make_memmap get_num_entries get_entry
make_memmap-get_entry [] m idx made lt = ground arith
make_memmap-get_entry (e ∷ es) m idx made lt =
    subst (λ m. idx < get_num_entries m → (e : MemmapEntry) × (get_entry m idx ≡ some e))
      (some-injective _ _ made) (get_elem?-inside (e ∷ es) idx) lt
