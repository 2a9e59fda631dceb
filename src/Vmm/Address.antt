-- ===== src/Vmm/Address.antt =====
-- Between which addresses the direct map of mm/vmm.cpp is a round trip.
use helix_kernel.Prelude.{ℕ, ◌-◌, ◌^◌, ◌≤◌, ◌<◌, ◌≡◌, arith}
use helix_kernel.Vmm.{va_to_pa, pa_to_va}

-- The physical addresses below 2^47 and the upper 2^47 virtual addresses correspond one to one.
pub va_to_pa-pa_to_va :
    (pa va : ℕ)
    → pa < 2 ^ 47
    → 2 ^ 64 - 2 ^ 47 < va
    → va < 2 ^ 64
    → (va_to_pa (pa_to_va pa) ≡ pa)
      × (pa_to_va (va_to_pa va) ≡ va)
      × (2 ^ 64 - 2 ^ 47 ≤ pa_to_va pa)
      × (va_to_pa va < 2 ^ 47)
unfolding va_to_pa pa_to_va
va_to_pa-pa_to_va pa va hp lo hi = (ground arith, ground arith, ground arith, ground arith)

-- A physical address of 48 bits with the highest set comes back without it.
pub pa_to_va-wraps : (pa : ℕ) → 2 ^ 47 ≤ pa → pa < 2 ^ 48 → va_to_pa (pa_to_va pa) ≡ pa - 2 ^ 47
unfolding va_to_pa pa_to_va
pa_to_va-wraps pa lo hi = ground arith
