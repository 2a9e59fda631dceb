-- ===== src/Entry/Tests.antt =====
-- A command line of entry.cpp.
use helix_kernel.Prelude.{ℕ, ◌≡◌, some, List, [], ◌∷◌, length, arith, refl, if◌then◌else◌, ◌==◌}
use helix_kernel.Klibc.{Memory, store}
use helix_kernel.Entry.{
  calls_main, kernel_entry, collect_args, put_arg, parse_cmdline, call_main, replace_spaces,
  cmdline_length,
}
use helix_kernel.Entry.Arguments.{ArgsAt, split_spaces, kernel_entry-split_spaces}

-- "a  b" at address 1
abbrev line : Memory
line x =
    if x == 1
    then b'a'
    else if x == 2
    then b' '
    else if x == 3
    then b' '
    else if x == 4
    then b'b'
    else 0

kernel_entry-split_spaces_example :
    (argv : List ℕ) × (mem' : Memory) × (kernel_entry 40 9 (some 1) line
      ≡ some (calls_main (length (split_spaces (b'a' ∷ b' ' ∷ b' ' ∷ b'b' ∷ []))) argv mem'))
    × ArgsAt mem' argv (split_spaces (b'a' ∷ b' ' ∷ b' ' ∷ b'b' ∷ []))
kernel_entry-split_spaces_example =
    kernel_entry-split_spaces 40 9 1 line (b'a' ∷ b' ' ∷ b' ' ∷ b'b' ∷ []) (omega arith)
      (refl, omega arith, (refl, omega arith, (refl, omega arith, (refl, omega arith, refl))))
      (omega arith) (omega arith) (omega arith)

-- Three arguments, the second one empty.
argv_runs :
    kernel_entry 24 9 (some 1) line
    ≡ some (calls_main 3 (1 ∷ 3 ∷ 4 ∷ []) (store (store line 2 0) 3 0))
unfolding kernel_entry cmdline_length parse_cmdline call_main collect_args put_arg replace_spaces
    store
argv_runs = refl
