-- ===== src/Exception/Tests.antt =====
-- The report of `exception_handler` on the flags of a running kernel.
use helix_kernel.Prelude.{◌≡◌, refl, [], ◌∷◌}
use helix_kernel.Exception.{flag_letter, flag_letters}

-- Interrupts on, the parity and the zero flag set.
flags_run : flag_letters 0x246 ≡ b'-' ∷ b'-' ∷ b'I' ∷ b'-' ∷ b'Z' ∷ b'-' ∷ b'P' ∷ b'-' ∷ []
unfolding flag_letters flag_letter
flags_run = refl
