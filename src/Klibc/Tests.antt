-- ===== src/Klibc/Tests.antt =====
-- Runs of klibc/cstring.cpp, and the theorems at their memories.
use helix_kernel.Prelude.{
  ℕ, zero, suc, ◌+◌, ◌-◌, ◌≡◌, inr, refl, arith, if◌then◌else◌, false, List, [], ◌∷◌, some,
}
use helix_kernel.Klibc.{Memory, memmove, strcat, copy_down, store}
use helix_kernel.Klibc.Move.{within, memmove_lem}
use helix_kernel.Klibc.Text.{StrAt}
use helix_kernel.Klibc.Copy.{strcat-append}

-- The bytes of the list from address 0 on, zeros behind them.
abbrev bytes : List ℕ → Memory
bytes [] a = 0
bytes (x ∷ xs) zero = x
bytes (x ∷ xs) (suc a) = bytes xs a

-- "ab", "abc", "ab"
abbrev mem : Memory
mem = bytes (97 ∷ 98 ∷ 0 ∷ 97 ∷ 98 ∷ 99 ∷ 0 ∷ 97 ∷ 98 ∷ [])

-- An overlapping move by one byte upwards.
memmove_runs : (memmove 1 0 3 mem 1 ≡ 97) × (memmove 1 0 3 mem 2 ≡ 98) × (memmove 1 0 3 mem 3 ≡ 0)
unfolding memmove copy_down store
memmove_runs = (refl, refl, refl)

memmove_lem_example : memmove 1 0 3 mem 2 ≡ (if within 1 3 2 then mem (0 + (2 - 1)) else mem 2)
memmove_lem_example = memmove_lem 1 0 3 mem 2

strcat-append_example :
    (mem' : Memory) × (strcat 10 7 3 mem ≡ some mem')
    × StrAt mem' 7 (97 ∷ 98 ∷ 97 ∷ 98 ∷ 99 ∷ [])
    × ((x : ℕ) → within 9 4 x ≡ false → mem' x ≡ mem x)
strcat-append_example =
    strcat-append 10 7 3 mem (97 ∷ 98 ∷ []) (97 ∷ 98 ∷ 99 ∷ []) (omega arith) (omega arith)
      (inr (omega arith)) (omega arith) (omega arith)
