-- ===== src/Vmm/Tests.antt =====
-- The theorems on mm/vmm.cpp at concrete addresses.
use helix_kernel.Prelude.{◌+◌, ◌%◌, ◌^◌, ◌≡◌, inr, pos, arith}
use helix_kernel.Klibc.{Memory}
use helix_kernel.Vmm.{copy_to_user}
use helix_kernel.Vmm.UserCopy.{copy_to_user_lem}

abbrev bytes : Memory
bytes a = a % 2 ^ 8

copy_to_user_lem_example :
    let (result, after) = copy_to_user 0x900000 0x400000 16 bytes in
    (result ≡ pos 0)
    × (after (0x400000 + 5) ≡ bytes (0x400000 + 5))
    × (after (0x900000 + 5) ≡ bytes (0x400000 + 5))
copy_to_user_lem_example =
    copy_to_user_lem 0x900000 0x400000 16 5 bytes (omega arith) (omega arith) (inr (omega arith))
      (omega arith)
