-- ===== src/Gdt/Tests.antt =====
-- The theorems on arch/x86_64/gdt/gdt.cpp at concrete addresses.
use helix_kernel.Prelude.{◌≡◌, pos, negsuc, List, [], ◌∷◌, arith}
use helix_kernel.Gdt.{Tss}
use helix_kernel.Gdt.Stacks.{Op, update, level_stack, interrupt_stack, run, run-inside}

abbrev calls : List Op
calls =
    level_stack (pos 3) 0x1000
    ∷ interrupt_stack (pos 7) 0x2000
    ∷ interrupt_stack (pos 0) 0x3000
    ∷ interrupt_stack (negsuc 0) 0x3000
    ∷ update 0x4000 0
    ∷ []

abbrev stacks : Tss
stacks = record { rsp = λ i. 3; ist = λ i. 7; iopb_offset = 104 }

run-inside_example : ((run calls stacks).rsp (pos 3) ≡ 3) × ((run calls stacks).ist (negsuc 0) ≡ 7)
run-inside_example = run-inside calls stacks (pos 3) (negsuc 0) (omega arith) tt
