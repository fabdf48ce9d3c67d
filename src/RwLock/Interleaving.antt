-- ===== src/RwLock/Interleaving.antt =====
-- The lock under any number of threads, an interlocked operation at a time.
use windows_system_wide_filt.Base.{
  ℕ, zero, suc, Option, some, if◌then◌else◌, inc32, dec32, is_nonneg, System, List, [], ◌∷◌,
}
use windows_system_wide_filt.RwLock.{
  RwSpinLock, release_read, release_write, raw_try_lock_for_write, initialize_rw_lock,
}

-- Where a thread stands.
pub data Pc : Type 0 where
  outside : Pc
  undo : Pc  -- in `OcRwRawTryLockForRead`, between the decrement and the increment that undoes it
  reading : Pc
  writing : Pc

-- What a thread outside the lock does next; elsewhere its next step is fixed.
pub data Choice : Type 0 where
  for_read : Choice
  for_write : Choice

-- The next interlocked operation of a thread. An attempt that fails leaves the thread outside, from
-- where the spin loops of the acquire functions try again.
unfoldable pub move : Choice → RwSpinLock → Pc → Option (RwSpinLock × Pc)
unfolding release_read release_write raw_try_lock_for_write
move for_read lock outside =
    if is_nonneg (dec32 lock) then some (dec32 lock, reading) else some (dec32 lock, undo)
move for_write lock outside =
    let (lock', taken) = raw_try_lock_for_write lock in
    some (lock', if taken then writing else outside)
move c lock undo = some (inc32 lock, outside)
move c lock reading = some (release_read lock, outside)
move c lock writing = some (release_write lock, outside)

abbrev pub outsiders : Pc → ℕ
outsiders outside = 1
outsiders _ = 0

abbrev pub readers : Pc → ℕ
readers reading = 1
readers _ = 0

abbrev pub undoing : Pc → ℕ
undoing undo = 1
undoing _ = 0

abbrev pub writers : Pc → ℕ
writers writing = 1
writers _ = 0

abbrev pub everybody : Pc → ℕ
everybody _ = 1

-- `n` threads outside a lock that has been initialised.
abbrev pub all_outside : ℕ → List Pc
all_outside zero = []
all_outside (suc n) = outside ∷ all_outside n

unfoldable pub start : ℕ → System RwSpinLock Pc
unfolding initialize_rw_lock
start n = record { mem = initialize_rw_lock; threads = all_outside n }
