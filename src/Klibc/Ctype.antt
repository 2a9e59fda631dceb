-- ===== src/Klibc/Ctype.antt =====
-- Letters and their cases in klibc/cctype.cpp.
use helix_kernel.Prelude.{ℕ, ◌+◌, ◌≤◌, ◌≡◌, false, arith}
use helix_kernel.Klibc.{is_alpha, to_upper, to_lower}

-- `toupper` of a lower-case letter and `tolower` of an upper-case letter are no letters.
pub to_upper-lower :
    (c : ℕ)
    → ((b'a' ≤ c) × (c ≤ b'z') → (to_upper c ≡ c + 0x20) × (is_alpha (to_upper c) ≡ false))
      × ((b'A' ≤ c) × (c ≤ b'Z') → (to_lower c + 0x20 ≡ c) × (is_alpha (to_lower c) ≡ false))
unfolding to_upper to_lower is_alpha
to_upper-lower c = ground arith
