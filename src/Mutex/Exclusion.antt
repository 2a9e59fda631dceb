-- ===== src/Mutex/Exclusion.antt =====
-- When mutex/mutex.cpp keeps threads apart.
use helix_kernel.Prelude.{ℕ, ◌≡◌, ◌≢◌, refl, true, false, arith}
use helix_kernel.Mutex.{
  State, passed, holding, create_mutex, move, loop_ends, set_locked, Reach, start, next, WholeStep,
  mutex_lock, whole_unlock, WholeReach, whole_start, whole_next,
}

pub record IsExclusive (s : State) : Type 0 where
  pub free : s.locked ≡ false → (i : ℕ) → s.place i ≢ holding
  pub one : (i j : ℕ) → s.place i ≡ holding → s.place j ≡ holding → i ≡ j

step-IsExclusive : (s t : State) → WholeStep s t → IsExclusive s → IsExclusive t
unfolding move
step-IsExclusive a b (mutex_lock s i o l) v = record {
  free = λ e j. absurd (ground (arith, e));
  one = λ j k hj hk. ground (arith, hj, hk, v.free l j, v.free l k);
}
step-IsExclusive a b (whole_unlock s i h) v = record {
  free = λ e j hj. ground (arith, hj, v.one i j h);
  one = λ j k hj hk. ground (arith, hj, hk, v.one j k);
}

-- In every state that a new mutex reaches where nothing interrupts `mutex_lock` between its read and
-- its write and only a thread that holds the mutex unlocks it, at most one thread holds the mutex,
-- and none does while it is not locked.
pub WholeReach-IsExclusive : (s : State) → WholeReach s → IsExclusive s
WholeReach-IsExclusive s whole_start = record {
  free = λ e i h. ground (arith, h);
  one = λ i j h. absurd (ground (arith, h));
}
WholeReach-IsExclusive b (whole_next s t r w) = step-IsExclusive s t w (WholeReach-IsExclusive s r)

-- Any two threads can come to hold the mutex at once: both leave the loop before one sets the
-- lock.
pub Reach-both :
    (i j : ℕ) → i ≢ j → (s : State) × Reach s × (s.place i ≡ holding) × (s.place j ≡ holding)
unfolding move
Reach-both i j ne =
    let s1 = move create_mutex i passed false in
    let s2 = move s1 j passed false in
    let s3 = move s2 i holding true in
    let s4 = move s3 j holding true in
    let t1 = loop_ends create_mutex i refl refl in
    let t2 = loop_ends s1 j (ground arith) refl in
    let t3 = set_locked s2 i (ground arith) in
    let t4 = set_locked s3 j (ground arith) in
    (
      s4,
      next s3 s4 (next s2 s3 (next s1 s2 (next create_mutex s1 start t1) t2) t3) t4,
      ground arith,
      ground arith,
    )
