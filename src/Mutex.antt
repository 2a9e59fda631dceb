-- ===== src/Mutex.antt =====
-- mutex/mutex.cpp: the steps of the threads that use one mutex. A thread is a number. The loop of
-- `mutex_lock` reads the lock and a later instruction sets it, so other threads step in between.
pub mod Exclusion
mod Tests
use helix_kernel.Prelude.{ℕ, ◌≡◌, Bool, true, false, ◌==◌, if◌then◌else◌}

-- Where a thread is: outside, behind the loop of `mutex_lock`, or back from `mutex_lock`.
pub data Place : Type 0 where
  outside passed holding : Place

pub record State : Type 0 where
  pub locked : Bool
  pub place : ℕ → Place

-- `create_mutex`, before any call.
abbrev pub create_mutex : State
create_mutex = record { locked = false; place = λ thread. outside }

unfoldable pub move : State → ℕ → Place → Bool → State
move s i p locked = record {
  locked = locked;
  place = λ thread. if thread == i then p else s.place thread;
}

-- One step: a loop that ends, the write behind it, and `mutex_unlock`. A turn of the loop that finds
-- the lock set changes nothing. `mutex_unlock` itself does not ask who calls it: that only a holder
-- does is up to the callers.
pub data Step : State → State → Type 0 where
  loop_ends :
      (s : State) (i : ℕ) → s.place i ≡ outside → s.locked ≡ false → Step s (move s i passed false)
  set_locked : (s : State) (i : ℕ) → s.place i ≡ passed → Step s (move s i holding true)
  mutex_unlock : (s : State) (i : ℕ) → s.place i ≡ holding → Step s (move s i outside false)

-- What steps reach from a new mutex.
pub data Reach : State → Type 0 where
  start : Reach create_mutex
  next : (s t : State) → Reach s → Step s t → Reach t

-- The steps of a `mutex_lock` that nothing interrupts, and of a `mutex_unlock` by a holder.
pub data WholeStep : State → State → Type 0 where
  mutex_lock :
      (s : State) (i : ℕ)
      → s.place i ≡ outside
      → s.locked ≡ false
      → WholeStep s (move (move s i passed false) i holding true)
  whole_unlock : (s : State) (i : ℕ) → s.place i ≡ holding → WholeStep s (move s i outside false)

pub data WholeReach : State → Type 0 where
  whole_start : WholeReach create_mutex
  whole_next : (s t : State) → WholeReach s → WholeStep s t → WholeReach t
