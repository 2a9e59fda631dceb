-- ===== src/Uacpi/Wait.antt =====
-- When uacpi_kernel_wait_for_event of extra/uacpi/uacpi_kernel_wrapper.cpp returns.
use helix_kernel.Prelude.{
  ℕ, zero, suc, refl, ltb, ◌≤◌, ◌<◌, ◌*◌, ◌%◌, ◌^◌, ◌+◌, ◌≡◌, inl, inr, List, some, arith,
  Bool-cases,
}
use helix_kernel.Uacpi.{Events, Between, happen_all, empty_loop, sleep}

-- The events after so many turns of a waiting call.
unfoldable pub events_after : (ℕ → List Between) → ℕ → ℕ → Events → Events
events_after others zero turn e = e
events_after others (suc k) turn e = events_after others k (turn + 1) (happen_all (others turn) e)

empty_loop-end : (fuel i n : ℕ) → i ≤ n → n < i + fuel → empty_loop fuel i n ≡ some n
unfolding empty_loop
empty_loop-end zero i n le lt = absurd (omega arith)
empty_loop-end (suc fuel) i n le lt = elim (Bool-cases (ltb i n)) [
  | inl more ↦ let rest = empty_loop-end fuel (i + 1) n (ground arith) (omega arith) in rw more rest
  | inr over ↦ let e : i ≡ n = ground arith in rw (over, e) refl
]

-- `uacpi_kernel_sleep` ends, after as many turns as the product of its argument and 1000 has
-- left of it in 64 bits.
pub sleep-turns :
    (fuel msec : ℕ) → msec * 1000 % 2 ^ 64 < fuel → sleep fuel msec ≡ some (msec * 1000 % 2 ^ 64)
unfolding sleep
sleep-turns fuel msec lt = empty_loop-end fuel 0 (msec * 1000 % 2 ^ 64) (omega arith) (omega arith)
