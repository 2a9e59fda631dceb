-- ===== src/Gdt/Segment.antt =====
-- The task state segment that arch/x86_64/gdt/gdt.cpp describes to the processor.
use helix_kernel.Prelude.{ℕ, ◌+◌, ◌*◌, ◌^◌, ◌≤◌, ◌<◌, ◌≡◌, pos, arith}
use helix_kernel.Gdt.{TssEntry, install_tss, initialise, put, same_index}

-- The address that the processor puts together from the descriptor.
unfoldable pub base : TssEntry → ℕ
base e = e.base_low + e.base_mid1 * 2 ^ 16 + e.base_mid2 * 2 ^ 24 + e.base_high * 2 ^ 32

-- `initialise` describes the segment at its address, with its last byte as the limit; the kernel
-- stack is the stack of level 0 and the first interrupt stack, and the others are 0.
pub initialise-base :
    (s_gdt s_tss kernel_stack i : ℕ)
    → s_tss < 2 ^ 64
    → kernel_stack + 8192 < 2 ^ 64
    → 1 ≤ i
    → let t = initialise s_gdt s_tss kernel_stack in
      (base t.tss_entry ≡ s_tss)
      × (t.tss_entry.limit_low + 1 ≡ t.tss.iopb_offset)
      × (t.tss.rsp (pos 0) ≡ kernel_stack + 8192)
      × (t.tss.ist (pos 0) ≡ kernel_stack + 8192)
      × (t.tss.rsp (pos i) ≡ 0)
      × (t.tss.ist (pos i) ≡ 0)
unfolding initialise base install_tss put same_index
initialise-base s_gdt s_tss kernel_stack i hs hk hi =
    (omega arith, omega arith, ground arith, ground arith, ground arith, ground arith)
