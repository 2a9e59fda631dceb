-- ===== src/Locks/Tests.antt =====
-- The mutex calls of extra/uacpi/uacpi_kernel_wrapper.cpp on one mutex.
use helix_kernel.Prelude.{ℕ, ◌≡◌, ◌⊎◌, refl, true, false, none, some, ◌==◌, if◌then◌else◌}
use helix_kernel.Uacpi.{ok}
use helix_kernel.Locks.{
  Locks, set_locked, mutex_lock, mutex_unlock, acquire_mutex, release_mutex, lock_spinlock,
  unlock_spinlock,
}
use helix_kernel.Locks.Holding.{Taken, Waits, acquire_mutex-after_turns}

abbrev held : Locks
held x = x == 0x6000

-- The holder unlocks behind the third turn.
abbrev holder : ℕ → Locks → Locks
holder turn l = if turn == 2 then mutex_unlock 0x6000 l else l

acquire_mutex-after_turns_example :
    ((l' : Locks) × (acquire_mutex holder 4 0x6000 5 held ≡ some (ok, l'))
      × Taken holder 0x6000 4 0 held l')
    ⊎ ((acquire_mutex holder 4 0x6000 5 held ≡ none) × Waits holder 0x6000 4 0 held)
acquire_mutex-after_turns_example = acquire_mutex-after_turns holder 0x6000 4 5 held

-- The lock is taken, given back, and taken again.
lock_runs :
    (l : Locks) × (lock_spinlock (λ turn l. l) 1 0x7000 held ≡ some (0, l))
    × (lock_spinlock (λ turn l. l) 9 0x7000 l ≡ none)
    × (unlock_spinlock 0x7000 0 l 0x7000 ≡ false)
unfolding lock_spinlock unlock_spinlock acquire_mutex release_mutex mutex_lock mutex_unlock
    set_locked
lock_runs = (set_locked 0x7000 true held, refl, refl, refl)
