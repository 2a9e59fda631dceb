-- ===== src/Mutex/Tests.antt =====
-- The theorems on mutex/mutex.cpp for two threads.
use helix_kernel.Prelude.{◌≡◌, refl, arith, true, false}
use helix_kernel.Mutex.{
  State, holding, passed, create_mutex, move, Reach, whole_start, whole_next, mutex_lock,
}
use helix_kernel.Mutex.Exclusion.{IsExclusive, WholeReach-IsExclusive, Reach-both}

abbrev first_holds : State
first_holds = move (move create_mutex 1 passed false) 1 holding true

WholeReach-IsExclusive_example : IsExclusive first_holds
WholeReach-IsExclusive_example =
    WholeReach-IsExclusive first_holds
      (whole_next create_mutex first_holds whole_start (mutex_lock create_mutex 1 refl refl))

Reach-both_example : (s : State) × Reach s × (s.place 1 ≡ holding) × (s.place 2 ≡ holding)
Reach-both_example = Reach-both 1 2 (omega arith)
