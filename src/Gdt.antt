-- ===== src/Gdt.antt =====
-- arch/x86_64/gdt/gdt.cpp: the descriptor of the task state segment, and the stacks in that
-- segment. The addresses of the static objects are arguments.
pub mod Segment
pub mod Stacks
mod Tests
use helix_kernel.Prelude.{
  ℕ, zero, suc, Bool, true, false, ◌+◌, ◌-◌, ◌*◌, ◌/◌, ◌%◌, ◌^◌, ltb, leb, ◌==◌, ◌&&◌,
  if◌then◌else◌, ℤ, pos, negsuc, List, [], ◌∷◌,
}

-- `GDTEntry`
pub record GdtEntry : Type 0 where
  pub limit_low : ℕ
  pub base_low : ℕ
  pub base_mid : ℕ
  pub access : ℕ
  pub granularity : ℕ
  pub base_high : ℕ

-- `TSSEntry`
pub record TssEntry : Type 0 where
  pub limit_low : ℕ
  pub base_low : ℕ
  pub base_mid1 : ℕ
  pub access : ℕ
  pub granularity : ℕ
  pub base_mid2 : ℕ
  pub base_high : ℕ
  pub reserved : ℕ

-- `TSS`: three stacks by privilege level, seven interrupt stacks. An index outside an array stands
-- for the memory in front of it or behind it.
pub record Tss : Type 0 where
  pub rsp : ℤ → ℕ
  pub ist : ℤ → ℕ
  pub iopb_offset : ℕ

-- `s_gdt`, `s_gdtr` and `s_tss`.
pub record Tables : Type 0 where
  pub segments : List GdtEntry
  pub tss_entry : TssEntry
  pub gdtr_limit : ℕ
  pub gdtr_base : ℕ
  pub tss : Tss

-- The sizes of the packed structures in bytes.
abbrev pub sizeof_tss : ℕ
sizeof_tss = 104

abbrev pub sizeof_gdt : ℕ
sizeof_gdt = 56

abbrev entry : ℕ → ℕ → GdtEntry
entry access granularity = record {
  limit_low = 0;
  base_low = 0;
  base_mid = 0;
  access = access;
  granularity = granularity;
  base_high = 0;
}

-- `default_gdt`, without the last entry, which `install_tss` fills.
abbrev pub default_gdt : List GdtEntry
default_gdt = entry 0 0 ∷ entry 0x9A 0xA0 ∷ entry 0x92 0xA0 ∷ entry 0xF2 0xA0 ∷ entry 0xFA 0xA0 ∷ []

-- `install_tss`, with the address of `s_tss`.
unfoldable pub install_tss : ℕ → TssEntry
install_tss base =
    let limit = sizeof_tss - 1 in
    record {
      limit_low = limit % 2 ^ 16;
      base_low = base % 2 ^ 16;
      base_mid1 = base / 2 ^ 16 % 2 ^ 8;
      access = 0x89;
      granularity = 0x00;
      base_mid2 = base / 2 ^ 24 % 2 ^ 8;
      base_high = base / 2 ^ 32 % 2 ^ 32;
      reserved = 0;
    }

-- The tests on the `int` of a call.
unfoldable pub same_index : ℤ → ℤ → Bool
same_index (pos a) (pos b) = a == b
same_index (pos a) (negsuc b) = false
same_index (negsuc a) (pos b) = false
same_index (negsuc a) (negsuc b) = a == b

unfoldable pub at_most : ℤ → ℤ → Bool
at_most (pos a) (pos b) = leb a b
at_most (pos a) (negsuc b) = false
at_most (negsuc a) (pos b) = true
at_most (negsuc a) (negsuc b) = leb b a

-- `index - 1`
unfoldable pub one_less : ℤ → ℤ
one_less (pos zero) = negsuc zero
one_less (pos (suc n)) = pos n
one_less (negsuc n) = negsuc (suc n)

unfoldable pub put : (ℤ → ℕ) → ℤ → ℕ → ℤ → ℕ
put f i v x = if same_index x i then v else f x

-- `initialise`, up to the two loads.
unfoldable pub initialise : ℕ → ℕ → ℕ → Tables
initialise s_gdt s_tss kernel_stack =
    let top = (kernel_stack + 8192) % 2 ^ 64 in
    record {
      segments = default_gdt;
      tss_entry = install_tss s_tss;
      gdtr_limit = sizeof_gdt - 1;
      gdtr_base = s_gdt;
      tss = record {
        rsp = put (λ level. 0) (pos 0) top;
        ist = put (λ index. 0) (pos 0) top;
        iopb_offset = sizeof_tss;
      };
    }

-- `update_stack`; `current` is what the stack pointer holds.
unfoldable pub update_stack : ℕ → ℕ → Tss → Tss
update_stack current rsp t =
    let top = if rsp == 0 then current else rsp in
    record t { rsp = put t.rsp (pos 0) top; ist = put t.ist (pos 0) top }

unfoldable pub set_rsp : ℤ → ℕ → Tss → Tss
set_rsp level rsp t =
    if at_most (pos 0) level && at_most level (pos 2)
    then record t { rsp = put t.rsp level rsp }
    else t

unfoldable pub set_ist : ℤ → ℕ → Tss → Tss
set_ist index rsp t =
    if at_most (pos 1) index && at_most index (pos 7)
    then record t { ist = put t.ist (one_less index) rsp }
    else t
