-- ===== src/Locks.antt =====
-- mutex/mutex.cpp as calls of one thread, and the mutex and spinlock calls of
-- extra/uacpi/uacpi_kernel_wrapper.cpp. Locks are told apart by their addresses; what other threads
-- do behind each turn of a waiting loop is an argument.
pub mod Holding
mod Tests
use helix_kernel.Prelude.{
  ℕ, zero, suc, ◌+◌, Bool, true, false, Option, none, some, ◌==◌, if◌then◌else◌,
}
use helix_kernel.Uacpi.{Status, ok}

-- `internal_mutex`: `locked` by the address of the mutex.
abbrev pub Locks : Type 0
Locks = ℕ → Bool

unfoldable pub set_locked : ℕ → Bool → Locks → Locks
set_locked mutexp b l x = if x == mutexp then b else l x

-- `create_mutex`: the address is what `malloc` returned, and `none` is the write through `nullptr`.
unfoldable pub create_mutex : ℕ → Locks → Option (ℕ × Locks)
create_mutex fresh l = if fresh == 0 then none else some (fresh, set_locked fresh false l)

-- `mutex_unlock`
unfoldable pub mutex_unlock : ℕ → Locks → Locks
mutex_unlock mutexp l = set_locked mutexp false l

module _ (others : ℕ → Locks → Locks) where
  -- `mutex_lock`, on fuel, from a turn of its loop on: `none` is a call that still waits. Nothing
  -- runs between the last read and the write, and every turn reads the lock again: `locked` is not
  -- volatile, so the latter is up to the compiler.
  unfoldable pub mutex_lock : ℕ → ℕ → ℕ → Locks → Option Locks
  mutex_lock zero mutexp turn l = none
  mutex_lock (suc fuel) mutexp turn l =
      let rest = mutex_lock fuel mutexp (turn + 1) (others turn l) in
      if l mutexp then rest else some (set_locked mutexp true l)

  -- `destroy_mutex`, which locks and then frees.
  unfoldable pub destroy_mutex : ℕ → ℕ → Locks → Option Locks
  unfolding mutex_lock
  destroy_mutex fuel mutexp l = mutex_lock fuel mutexp 0 l

  -- `uacpi_kernel_acquire_mutex`: the timeout is not read.
  unfoldable pub acquire_mutex : ℕ → ℕ → ℕ → Locks → Option (Status × Locks)
  acquire_mutex fuel mutex timeout l = elim (mutex_lock fuel mutex 0 l) [
    | none ↦ none
    | some l' ↦ some (ok, l')
  ]

  -- `uacpi_kernel_free_mutex` and `uacpi_kernel_free_spinlock`
  unfoldable pub free_mutex : ℕ → ℕ → Locks → Option Locks
  free_mutex fuel mutex l = destroy_mutex fuel mutex l

  unfoldable pub free_spinlock : ℕ → ℕ → Locks → Option Locks
  free_spinlock fuel spinlock l = free_mutex fuel spinlock l

  -- `uacpi_kernel_lock_spinlock`: the flags are 0.
  unfoldable pub lock_spinlock : ℕ → ℕ → Locks → Option (ℕ × Locks)
  lock_spinlock fuel spinlock l = elim (acquire_mutex fuel spinlock 0xFFFF l) [
    | none ↦ none
    | some (status, l') ↦ some (0, l')
  ]

-- `uacpi_kernel_create_mutex` and `uacpi_kernel_create_spinlock`
unfoldable pub kernel_create_mutex : ℕ → Locks → Option (ℕ × Locks)
kernel_create_mutex fresh l = create_mutex fresh l

unfoldable pub create_spinlock : ℕ → Locks → Option (ℕ × Locks)
create_spinlock fresh l = kernel_create_mutex fresh l

-- `uacpi_kernel_release_mutex` and `uacpi_kernel_unlock_spinlock`
unfoldable pub release_mutex : ℕ → Locks → Locks
unfolding mutex_unlock
release_mutex mutex l = mutex_unlock mutex l

unfoldable pub unlock_spinlock : ℕ → ℕ → Locks → Locks
unfolding release_mutex
unlock_spinlock spinlock flags l = release_mutex spinlock l
