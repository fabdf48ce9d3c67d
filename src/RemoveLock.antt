-- ===== src/RemoveLock.antt =====
-- The remove lock of o_core/o_core/remove_lock.c under any number of threads: each interlocked
-- operation and each operation on the event is one step.
pub mod Counts
pub mod Calls
pub mod Invariant
pub mod Safety
pub mod Wakeup
use windows_system_wide_filt.Base.{
  ℕ, Bool, List, Option, System, [], dec32, false, if◌then◌else◌, inc32, is_nonneg, none, not, some,
  suc, true, zero, ◌&&◌, ◌==◌, ◌∷◌,
}

-- `OC_REMOVE_LOCK_HEADER`. The event is a notification event: once set it stays set.
pub record RemoveLock : Type 0 where
  pub reference_count : ℕ
  pub remove_event : Bool
  pub removed : Bool

-- `OcRlInitializeRemoveLock`.
unfoldable pub initialize_remove_lock : RemoveLock
initialize_remove_lock = record { reference_count = 1; remove_event = false; removed = false }

-- `OcRlSetRemoveLockInSignalState`.
abbrev pub set_remove_lock_in_signal_state : RemoveLock → RemoveLock
set_remove_lock_in_signal_state m = record m { remove_event = true }

-- Where a thread stands. A thread holds the lock at most once.
pub data Pc : Type 0 where
  outside : Pc
  acquiring : Pc  -- in `OcRlAcquireRemoveLock`, before it reads `Removed`
  backing_out : Pc  -- there, before the decrement that gives the lock up
  signalling : Pc  -- the counter has reached 0, before the event is set
  holding : Pc  -- `OcRlAcquireRemoveLock` has returned `STATUS_SUCCESS`
  removing_first : Pc  -- in `OcRlReleaseRemoveLockAndWait`, before the first decrement
  removing : Pc  -- there, before the second decrement
  waiting : Pc  -- there, before the wait
  gone : Pc  -- `OcRlReleaseRemoveLockAndWait` has returned

-- Which function a thread calls next.
pub data Choice : Type 0 where
  acquire : Choice
  release : Choice
  remove : Choice

abbrev pub increment : RemoveLock → RemoveLock
increment m = record m { reference_count = inc32 m.reference_count }

abbrev pub decrement : RemoveLock → RemoveLock
decrement m = record m { reference_count = dec32 m.reference_count }

-- A `LONG` is greater than 0.
abbrev pub is_pos : ℕ → Bool
is_pos w = is_nonneg w && not (w == 0)

-- After a decrement: the thread that takes the counter to 0 goes on to set the event.
abbrev pub after_release : RemoveLock → Pc
after_release m = if m.reference_count == 0 then signalling else outside

-- The next step of a thread. Only a holder may release, and only a holder may remove; nothing is
-- asked of a thread for which the wait is over.
unfoldable pub move : Choice → RemoveLock → Pc → Option (RemoveLock × Pc)
move acquire m outside = some (increment m, acquiring)
move release m holding = some (decrement m, after_release (decrement m))
move remove m holding =
    if m.removed then some (m, removing) else some (record m { removed = true }, removing_first)
move c m acquiring = some (m, if m.removed then backing_out else holding)
move c m backing_out = some (decrement m, after_release (decrement m))
move c m signalling = some (set_remove_lock_in_signal_state m, outside)
move c m removing_first = some (decrement m, removing)
move c m removing =
    some (decrement m, if is_pos (decrement m).reference_count then waiting else gone)
move c m waiting = if m.remove_event then some (m, gone) else none
move c m p = none

-- `n` threads outside a lock that has been initialised.
abbrev pub all_outside : ℕ → List Pc
all_outside zero = []
all_outside (suc n) = outside ∷ all_outside n

unfoldable pub start : ℕ → System RemoveLock Pc
unfolding initialize_remove_lock
start n = record { mem = initialize_remove_lock; threads = all_outside n }
