-- ===== src/Vmm.antt =====
-- mm/vmm.cpp: the direct map between physical and virtual addresses, and the copies between user
-- and kernel memory. Addresses are `uint64_t`.
pub mod Address
pub mod UserCopy
mod Tests
use helix_kernel.Prelude.{ℕ, ◌+◌, ◌-◌, ◌%◌, ◌^◌, ℤ, pos, negsuc, leb, ◌==◌, if◌then◌else◌}
use helix_kernel.Klibc.{Memory, memcpy}

-- `va_to_pa`; the subtraction wraps.
unfoldable pub va_to_pa : ℕ → ℕ
va_to_pa va = if leb va 0x800000000000 then va else (va + 2 ^ 64 - 0xFFFF800000000000) % 2 ^ 64

-- `pa_to_va`; the addition wraps.
unfoldable pub pa_to_va : ℕ → ℕ
pa_to_va pa = if leb 0xFFFF800000000000 pa then pa else (pa + 0xFFFF800000000000) % 2 ^ 64

-- `copy_to_user`, its parameter `data` called `data_pointer` here: the result and the memory.
unfoldable pub copy_to_user : ℕ → ℕ → ℕ → Memory → ℤ × Memory
copy_to_user data_pointer user_memory n mem =
    if data_pointer == 0
    then (negsuc 0, mem)
    else if user_memory == 0
    then (negsuc 0, mem)
    else (pos 0, memcpy data_pointer user_memory n mem)

unfoldable pub copy_from_user : ℕ → ℕ → ℕ → Memory → ℤ × Memory
copy_from_user data_pointer kernel_memory n mem =
    if data_pointer == 0
    then (negsuc 0, mem)
    else if kernel_memory == 0
    then (negsuc 0, mem)
    else (pos 0, memcpy kernel_memory data_pointer n mem)
