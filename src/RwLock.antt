-- ===== src/RwLock.antt =====
-- The reader-writer spin lock of include/ocrwspinlock.h: one word, 0x01000000 with no owner, that
-- many less one for each reader, and 0 for a writer.
pub mod Interleaving
pub mod Exclusion
pub mod Acquire
use windows_system_wide_filt.Base.{
  ℕ, Bool, true, false, if◌then◌else◌, ◌==◌, inc32, dec32, add32, is_nonneg,
}

-- `OC_RW_SPIN_LOCK`, by its field `RwLock`.
abbrev pub RwSpinLock : Type 0
RwSpinLock = ℕ

abbrev pub no_owner : RwSpinLock
no_owner = 0x01000000

pub initialize_rw_lock : RwSpinLock
initialize_rw_lock = no_owner

-- The whole of `OcRwRawTryLockForRead` with nobody in between: the word left, and the result.
unfoldable pub raw_try_lock_for_read : RwSpinLock → RwSpinLock × Bool
raw_try_lock_for_read lock =
    let lock' = dec32 lock in if is_nonneg lock' then (lock', true) else (inc32 lock', false)

unfoldable pub raw_try_lock_for_write : RwSpinLock → RwSpinLock × Bool
raw_try_lock_for_write lock = if lock == no_owner then (0, true) else (lock, false)

unfoldable pub release_read : RwSpinLock → RwSpinLock
release_read lock = inc32 lock

unfoldable pub release_write : RwSpinLock → RwSpinLock
release_write lock = add32 lock 0x01000000
