-- ===== src/RemoveLock/Calls.antt =====
-- The calls of o_core/o_core/remove_lock.c when nothing comes between their steps.
use windows_system_wide_filt.Base.{
  ℕ, Status, success, delete_pending, true, false, if◌then◌else◌, ◌==◌, ◌≡◌, ◌<◌, ◌≤◌, ◌+◌, ◌^◌,
  arith, refl, dec32, inc32,
}
use windows_system_wide_filt.RemoveLock.{
  RemoveLock, increment, decrement, set_remove_lock_in_signal_state,
}

-- `OcRlReleaseRemoveLock`.
unfoldable pub release_remove_lock : RemoveLock → RemoveLock
release_remove_lock m =
    let left = decrement m in
    if left.reference_count == 0 then set_remove_lock_in_signal_state left else left

-- `OcRlAcquireRemoveLock`.
unfoldable pub acquire_remove_lock : RemoveLock → RemoveLock × Status
acquire_remove_lock m =
    let taken = increment m in
    let left = decrement taken in
    let back = if left.reference_count == 0 then set_remove_lock_in_signal_state left else left in
    if taken.removed then (back, delete_pending) else (taken, success)

-- A count that somebody holds and that can be counted up.
pub record Held (m : RemoveLock) : Type 0 where
  pub positive : 1 ≤ m.reference_count
  pub room : m.reference_count + 1 < 2 ^ 32

same_count : (m : RemoveLock) (n : ℕ) → m.reference_count ≡ n → record m { reference_count = n } ≡ m
same_count m n e = rw (← e) refl

back_again : (m : RemoveLock) → Held m → dec32 (inc32 m.reference_count) ≡ m.reference_count
back_again m held = omega (arith, held.positive, held.room)

pub acquire-refused :
    (m : RemoveLock) → Held m → m.removed ≡ true → acquire_remove_lock m ≡ (m, delete_pending)
unfolding acquire_remove_lock
acquire-refused m held doomed =
    let some_left : (m.reference_count == 0) ≡ false = ground (arith, held.positive) in
    rw (back_again m held, doomed, some_left) refl

pub acquire-granted :
    (m : RemoveLock) → m.removed ≡ false → acquire_remove_lock m ≡ (increment m, success)
unfolding acquire_remove_lock
acquire-granted m stays = rw stays refl

pub release-acquired : (m : RemoveLock) → Held m → release_remove_lock (increment m) ≡ m
unfolding release_remove_lock
release-acquired m held =
    let some_left : (m.reference_count == 0) ≡ false = ground (arith, held.positive) in
    rw (back_again m held, some_left) refl
