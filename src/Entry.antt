-- ===== src/Entry.antt =====
-- entry.cpp: how `kernel_entry` makes `argc` and `argv` of the command line, on the bytes of Klibc.
-- The calls of the constructors in between do not touch the command line. The size of the stack is
-- an argument.
pub mod Replace
pub mod Arguments
mod Tests
use helix_kernel.Prelude.{
  ℕ, zero, suc, ◌+◌, Option, none, some, List, [], ◌∷◌, ◌++◌, length, ltb, leb, ◌*◌, ◌^◌, ◌==◌,
  if◌then◌else◌,
}
use helix_kernel.Klibc.{Memory, store}

-- `while (cmdline[cmdline_len] != '\0') cmdline_len++;`, on fuel.
unfoldable pub cmdline_length : ℕ → ℕ → ℕ → Memory → Option ℕ
cmdline_length zero cmdline cmdline_len mem = none
cmdline_length (suc fuel) cmdline cmdline_len mem =
    let rest = cmdline_length fuel cmdline (cmdline_len + 1) mem in
    if mem (cmdline + cmdline_len) == 0 then some cmdline_len else rest

-- The first loop, with the rounds left: `argc` and the memory.
unfoldable pub replace_spaces : ℕ → ℕ → ℕ → ℕ → Memory → ℕ × Memory
replace_spaces zero i cmdline argc mem = (argc, mem)
replace_spaces (suc r) i cmdline argc mem =
    let (argc', mem') =
      if mem (cmdline + i) == b' ' then (argc + 1, store mem (cmdline + i) 0) else (argc, mem) in
    replace_spaces r (i + 1) cmdline argc' mem'

-- `arg_ptrs[j++] = last_start`: `none` is a write outside the array of `argc` pointers.
unfoldable pub put_arg : ℕ → ℕ → Option (List ℕ) → Option (List ℕ)
put_arg argc last_start none = none
put_arg argc last_start (some arg_ptrs) =
    if ltb (length arg_ptrs) argc then some (arg_ptrs ++ (last_start ∷ [])) else none

-- The second loop, with the rounds left.
unfoldable pub collect_args : ℕ → ℕ → ℕ → ℕ → Memory → Option (List ℕ) → Option (List ℕ)
unfolding put_arg
collect_args zero i cmdline argc mem arg_ptrs = arg_ptrs
collect_args (suc r) i cmdline argc mem arg_ptrs =
    collect_args r (i + 1) cmdline argc mem
      (if mem (cmdline + i) == 0 then put_arg argc (cmdline + i + 1) arg_ptrs else arg_ptrs)

-- What `kernel_entry` comes to: `cli;hlt` before anything else, an `argc` that no `int` holds, an
-- `arg_ptrs` that the stack has no room for, a write outside `arg_ptrs`, or the call of `main`.
pub data Entered : Type 0 where
  halted argc_overflow stack_overflow out_of_bounds : Entered
  calls_main : (argc : ℕ) (argv : List ℕ) (mem : Memory) → Entered

unfoldable pub call_main : ℕ → Option (List ℕ) → Memory → Entered
call_main argc none mem = out_of_bounds
call_main argc (some argv) mem = calls_main argc argv mem

-- `stack_room` is the number of bytes that the stack has left for `arg_ptrs`.
unfoldable pub parse_cmdline : ℕ → ℕ → ℕ → Memory → Entered
unfolding put_arg call_main
parse_cmdline stack_room cmdline_len cmdline mem =
    let (argc, mem') = replace_spaces cmdline_len 0 cmdline 1 mem in
    if leb (2 ^ 31) argc
    then argc_overflow
    else if ltb stack_room (argc * 8)
    then stack_overflow
    else call_main argc
        (collect_args cmdline_len 0 cmdline argc mem' (put_arg argc cmdline (some []))) mem'

-- `kernel_entry`: the response's command line, `none` where there is no response.
unfoldable pub kernel_entry : ℕ → ℕ → Option ℕ → Memory → Option Entered
kernel_entry stack_room fuel none mem = some halted
kernel_entry stack_room fuel (some cmdline) mem =
    if cmdline == 0 then some halted else elim (cmdline_length fuel cmdline 0 mem) [
      | none ↦ none
      | some cmdline_len ↦ some (parse_cmdline stack_room cmdline_len cmdline mem)
    ]
