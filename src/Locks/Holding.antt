-- ===== src/Locks/Holding.antt =====
-- What the mutex and spinlock calls of extra/uacpi/uacpi_kernel_wrapper.cpp leave when they return.
use helix_kernel.Prelude.{
  ℕ, zero, suc, ◌+◌, ◌<◌, ◌≡◌, ◌≢◌, ◌⊎◌, refl, Bool, true, false, none, some, arith, Bool-cases,
  inl, inr,
}
use helix_kernel.Uacpi.{ok}
use helix_kernel.Locks.{Locks, set_locked, mutex_lock, acquire_mutex}

-- The locks after so many turns of a waiting call.
unfoldable pub after_turns : (ℕ → Locks → Locks) → ℕ → ℕ → Locks → Locks
after_turns others zero turn l = l
after_turns others (suc k) turn l = after_turns others k (turn + 1) (others turn l)

set_locked-same : (x : ℕ) (b : Bool) (l : Locks) → set_locked x b l x ≡ b
unfolding set_locked
set_locked-same x b l = ground arith

set_locked-other : (x y : ℕ) (b : Bool) (l : Locks) → y ≢ x → set_locked x b l y ≡ l y
unfolding set_locked
set_locked-other x y b l other = ground arith

module _ (others : ℕ → Locks → Locks) (mutexp : ℕ) where
  -- The reads before the turn find the mutex locked.
  abbrev pub Waits : ℕ → ℕ → Locks → Type 0
  Waits k turn l = (j : ℕ) → j < k → after_turns others j turn l mutexp ≡ true

  -- The call took the mutex at the first read that found it unlocked, and changed no other lock.
  pub record Taken (fuel turn : ℕ) (l l' : Locks) : Type 0 where
    pub turns : ℕ
    pub turns_lt : turns < fuel
    pub waits : Waits turns turn l
    pub free : after_turns others turns turn l mutexp ≡ false
    pub locks : l' mutexp ≡ true
    pub keeps : (x : ℕ) → x ≢ mutexp → l' x ≡ after_turns others turns turn l x

  Waits-suc :
      (k turn : ℕ) (l : Locks)
      → l mutexp ≡ true
      → Waits k (turn + 1) (others turn l)
      → Waits (suc k) turn l
  unfolding after_turns
  Waits-suc k turn l held rest zero lt = held
  Waits-suc k turn l held rest (suc j) lt = rest j (omega arith)

  mutex_lock-Taken :
      (fuel turn : ℕ) (l : Locks)
      → ((l' : Locks) × (mutex_lock others fuel mutexp turn l ≡ some l') × Taken fuel turn l l')
        ⊎ ((mutex_lock others fuel mutexp turn l ≡ none) × Waits fuel turn l)
  unfolding mutex_lock after_turns
  mutex_lock-Taken zero turn l = inr (refl, λ j lt. absurd (omega arith))
  mutex_lock-Taken (suc fuel) turn l = elim (Bool-cases (l mutexp)) [
    | inl held ↦ elim (mutex_lock-Taken fuel (turn + 1) (others turn l)) [
      | inl (l', run, t) ↦ inl (
        l',
        rw held run,
        record {
          turns = suc t.turns;
          turns_lt = omega (arith, t.turns_lt);
          waits = Waits-suc t.turns turn l held t.waits;
          free = t.free;
          locks = t.locks;
          keeps = t.keeps;
        },
      )
      | inr (run, waits) ↦ inr (rw held run, Waits-suc fuel turn l held waits)
    ]
    | inr now ↦ inl (
      set_locked mutexp true l,
      rw now refl,
      record {
        turns = 0;
        turns_lt = omega arith;
        waits = λ j lt. absurd (omega arith);
        free = now;
        locks = set_locked-same mutexp true l;
        keeps = λ x other. set_locked-other mutexp x true l other;
      },
    )
  ]

  -- Where each turn of the wait reads the lock again, and nothing runs between the last read and the
  -- write: whatever its timeout, `uacpi_kernel_acquire_mutex` either returns within so many turns,
  -- at the first read that finds the mutex unlocked, with the mutex locked and every other lock as
  -- that read found it; or each read of these turns found the mutex locked, and the call still
  -- waits.
  pub acquire_mutex-after_turns :
      (fuel timeout : ℕ) (l : Locks)
      → ((l' : Locks) × (acquire_mutex others fuel mutexp timeout l ≡ some (ok, l'))
          × Taken fuel 0 l l')
        ⊎ ((acquire_mutex others fuel mutexp timeout l ≡ none) × Waits fuel 0 l)
  unfolding acquire_mutex
  acquire_mutex-after_turns fuel timeout l = elim (mutex_lock-Taken fuel 0 l) [
    | inl (l', run, taken) ↦ inl (l', rw (acquire_mutex, run) refl, taken)
    | inr (run, waits) ↦ inr (rw (acquire_mutex, run) refl, waits)
  ]
