-- ===== src/Entry/Arguments.antt =====
-- The arguments that entry.cpp gives `main`, against the command line cut at its spaces.
use helix_kernel.Prelude.{
  ℕ, suc, ◌+◌, ◌≤◌, ◌<◌, ◌≡◌, refl, sym, ap, ◌∙◌, true, false, some, List, [], ◌∷◌, ◌++◌, ◌^◌,
  length, length-append, ltb, leb, ◌*◌, ◌-◌, ◌==◌, if◌then◌else◌, arith, Bool-cases, inl, inr,
}
use mathlib.Core.List.{append-nil, append_assoc}
use helix_kernel.Klibc.{Memory}
use helix_kernel.Klibc.Text.{StrAt}
use helix_kernel.Entry.Replace.{Blanked, spaces, cmdline_length-length, replace_spaces-Replaced}
use helix_kernel.Entry.{
  calls_main, cmdline_length, replace_spaces, put_arg, collect_args, call_main, parse_cmdline,
  kernel_entry,
}

abbrev pub cons_first : ℕ → List (List ℕ) → List (List ℕ)
cons_first c [] = []
cons_first c (w ∷ ws) = (c ∷ w) ∷ ws

-- The string cut at each space.
unfoldable pub split_spaces : List ℕ → List (List ℕ)
split_spaces [] = [] ∷ []
split_spaces (c ∷ cs) =
    let rest = split_spaces cs in if c == b' ' then [] ∷ rest else cons_first c rest

-- The pointers are those of the strings, in order.
abbrev pub ArgsAt : Memory → List ℕ → List (List ℕ) → Type 0
ArgsAt mem [] [] = Unit
ArgsAt mem (p ∷ ps) (w ∷ ws) = StrAt mem p w × ArgsAt mem ps ws
ArgsAt mem [] (w ∷ ws) = ⊥
ArgsAt mem (p ∷ ps) [] = ⊥

-- The addresses behind the spaces.
unfoldable behind : ℕ → List ℕ → List ℕ
behind p [] = []
behind p (c ∷ cs) = let rest = behind (p + 1) cs in if c == b' ' then (p + 1) ∷ rest else rest

cons_first-ArgsAt :
    (m : Memory) (p c : ℕ) (ps : List ℕ) (ws : List (List ℕ))
    → m p ≡ c
    → 0 < c
    → ArgsAt m ((p + 1) ∷ ps) ws
    → ArgsAt m (p ∷ ps) (cons_first c ws)
cons_first-ArgsAt m p c ps [] e pos h = absurd h
cons_first-ArgsAt m p c ps (w ∷ ws) e pos h = ((e, pos, h.0), h.1)

Blanked-ArgsAt :
    (cs : List ℕ) (m : Memory) (p : ℕ)
    → Blanked m p cs
    → ArgsAt m (p ∷ behind p cs) (split_spaces cs)
unfolding split_spaces behind
Blanked-ArgsAt [] m p b = (b, tt)
Blanked-ArgsAt (c ∷ cs) m p b =
    let rest = Blanked-ArgsAt cs m (p + 1) b.2 in
    elim (Bool-cases (c == b' ')) [
      | inl space ↦ rw (space) (rw space at b.0, rest)
      | inr other ↦
          rw (other) (
            cons_first-ArgsAt m p c (behind (p + 1) cs) (split_spaces cs) (rw other at b.0) b.1
              rest)
    ]

length-cons_first : (c : ℕ) (ws : List (List ℕ)) → length (cons_first c ws) ≡ length ws
length-cons_first c [] = refl
length-cons_first c (w ∷ ws) = refl

length-split_spaces : (cs : List ℕ) → length (split_spaces cs) ≡ suc (spaces cs)
unfolding split_spaces spaces
length-split_spaces [] = refl
length-split_spaces (c ∷ cs) = elim (Bool-cases (c == b' ')) [
  | inl space ↦ rw space (ap suc (length-split_spaces cs))
  | inr other ↦ rw other (length-cons_first c (split_spaces cs) ∙ length-split_spaces cs)
]

collect_args-zero :
    (r i c argc : ℕ) (m : Memory) (acc : List ℕ)
    → (m (c + i) == 0) ≡ true
    → ltb (length acc) argc ≡ true
    → collect_args (suc r) i c argc m (some acc)
      ≡ collect_args r (i + 1) c argc m (some (acc ++ ((c + i + 1) ∷ [])))
unfolding collect_args put_arg
collect_args-zero r i c argc m acc h room = rw (collect_args, h, room) refl

collect_args-other :
    (r i c argc : ℕ) (m : Memory) (acc : List ℕ)
    → (m (c + i) == 0) ≡ false
    → collect_args (suc r) i c argc m (some acc) ≡ collect_args r (i + 1) c argc m (some acc)
unfolding collect_args
collect_args-other r i c argc m acc h = rw (collect_args, h) refl

collect_args-behind :
    (cs : List ℕ) (i c argc : ℕ) (m : Memory) (acc : List ℕ)
    → Blanked m (c + i) cs
    → length acc + spaces cs ≤ argc
    → collect_args (length cs) i c argc m (some acc) ≡ some (acc ++ behind (c + i) cs)
unfolding collect_args put_arg spaces behind
collect_args-behind [] i c argc m acc b le = ap (λ l. some l) (sym (append-nil acc))
collect_args-behind (x ∷ xs) i c argc m acc b le =
    let e : c + (i + 1) ≡ c + i + 1 = omega arith in
    elim (Bool-cases (x == b' ')) [
      | inl space ↦
          let zeroed : (m (c + i) == 0) ≡ true = rw (b.0, space) refl in
          let room : ltb (length acc) argc ≡ true = ground arith in
          let more : length (acc ++ ((c + i + 1) ∷ [])) + spaces xs ≤ argc =
            ground (arith, length-append acc ((c + i + 1) ∷ [])) in
          let rest =
            collect_args-behind xs (i + 1) c argc m (acc ++ ((c + i + 1) ∷ [])) (rw e b.2) more in
          let step = collect_args-zero (length xs) i c argc m acc zeroed room in
          step
          ∙ rw e at rest
          ∙ ap (λ l. some l) (append_assoc acc ((c + i + 1) ∷ []) (behind (c + i + 1) xs))
          ∙ rw space refl
      | inr other ↦
          let kept : (m (c + i) == 0) ≡ false = ground arith in
          let le' : length acc + spaces xs ≤ argc = ground arith in
          let rest = collect_args-behind xs (i + 1) c argc m acc (rw e b.2) le' in
          collect_args-other (length xs) i c argc m acc kept ∙ rw e at rest ∙ rw other refl
    ]

put_arg-first : (argc p : ℕ) → 0 < argc → put_arg argc p (some []) ≡ some (p ∷ [])
unfolding put_arg
put_arg-first argc p lt = ground arith

spaces-le : (cs : List ℕ) → spaces cs ≤ length cs
unfolding spaces
spaces-le [] = omega arith
spaces-le (c ∷ cs) = ground (arith, spaces-le cs)

parse_cmdline-split_spaces :
    (stack_room cmdline : ℕ) (mem : Memory) (cs : List ℕ)
    → StrAt mem cmdline cs
    → length cs < 2 ^ 31 - 1
    → (length cs + 1) * 8 ≤ stack_room
    → (argv : List ℕ) × (mem' : Memory) × (parse_cmdline stack_room (length cs) cmdline mem
        ≡ calls_main (length (split_spaces cs)) argv mem')
      × ArgsAt mem' argv (split_spaces cs)
unfolding parse_cmdline call_main
parse_cmdline-split_spaces stack_room cmdline mem cs at small room =
    let z : cmdline + 0 ≡ cmdline = omega arith in
    let q = replace_spaces (length cs) 0 cmdline 1 mem in
    let (counted, blank) = replace_spaces-Replaced cs 0 cmdline 1 mem (rw z at) in
    let count : q.0 ≡ length (split_spaces cs) =
      counted ∙ sym (length-split_spaces cs ∙ omega arith) in
    let held : leb (2 ^ 31) q.0 ≡ false = ground (arith, counted, spaces-le cs, small) in
    let placed : ltb stack_room (q.0 * 8) ≡ false = ground (arith, counted, spaces-le cs, room) in
    let first = put_arg-first q.0 cmdline (omega arith) in
    let collected = collect_args-behind cs 0 cmdline q.0 q.1 (cmdline ∷ []) blank (omega arith) in
    (
      cmdline ∷ behind cmdline cs,
      q.1,
      rw (held, placed, first, rw z at collected, count) refl,
      Blanked-ArgsAt cs q.1 cmdline (rw z at blank),
    )

-- Where the boot loader gives a command line of fewer than 2^31 - 1 bytes, and the stack has room
-- for a pointer for each byte of it and one more, `kernel_entry` gets to `main` with as many
-- arguments as the line has parts between its spaces, empty parts included, and `argv` points at
-- these parts, each ended by a zero; `argc` does not overflow, and no pointer is written outside
-- `argv`.
pub kernel_entry-split_spaces :
    (stack_room fuel cmdline : ℕ) (mem : Memory) (cs : List ℕ)
    → 0 < cmdline
    → StrAt mem cmdline cs
    → length cs < fuel
    → length cs < 2 ^ 31 - 1
    → (length cs + 1) * 8 ≤ stack_room
    → (argv : List ℕ) × (mem' : Memory) × (kernel_entry stack_room fuel (some cmdline) mem
        ≡ some (calls_main (length (split_spaces cs)) argv mem'))
      × ArgsAt mem' argv (split_spaces cs)
unfolding kernel_entry
kernel_entry-split_spaces stack_room fuel cmdline mem cs pos at lt small room =
    let z : cmdline + 0 ≡ cmdline = omega arith in
    let measured : cmdline_length fuel cmdline 0 mem ≡ some (length cs) =
      cmdline_length-length cs fuel cmdline 0 mem (rw z at) lt ∙ ap (λ n. some n) (omega arith) in
    let (argv, mem', parsed, args) =
      parse_cmdline-split_spaces stack_room cmdline mem cs at small room in
    let given : (cmdline == 0) ≡ false = ground arith in
    (argv, mem', rw (kernel_entry, given, measured) (ap (λ x. some x) parsed), args)
