-- ===== src/RemoveLock/Safety.antt =====
-- What the remove lock promises its clients.
use windows_system_wide_filt.Base.{
  ℕ, List, System, arith, bit, not, run, some, total, true, ◌+◌, ◌-◌, ◌<◌, ◌^◌, ◌≡◌, ◌≤◌, ◌⊎◌,
}
use windows_system_wide_filt.RemoveLock.{
  Pc, Choice, RemoveLock, acquiring, backing_out, move, start, acquire, release, remove,
}
use windows_system_wide_filt.RemoveLock.Counts.{
  holders, firsts, leavers, references, removers, signallers, waiters,
}
use windows_system_wide_filt.RemoveLock.Invariant.{run-Inv}

-- `OC_RL_REFERENCE_COUNT_DISTRUST_THRESHOLD`, `ULONG_MAX - 0x100`.
abbrev pub distrust_threshold : ℕ
distrust_threshold = 2 ^ 32 - 1 - 0x100

refused :
    (m : RemoveLock) (c : Choice) → m.removed ≡ true → move c m acquiring ≡ some (m, backing_out)
unfolding move
refused m acquire h = rw h
refused m release h = rw h
refused m remove h = rw h

module _ (n : ℕ) (l : List (ℕ × Choice)) {t : System RemoveLock Pc} (few : n ≤ 2 ^ 20)
    (ran : run move l (start n) ≡ some t) where
  -- The counter is exact and never wraps: after any schedule of up to 2 ^ 20 threads over a new lock
  -- it is the number of references, with the initial one until the lock is removed, and lies below
  -- the threshold that the code asserts.
  pub reference_count-exact :
      (t.mem.reference_count ≡ bit (not t.mem.removed) + total references t.threads)
      × (t.mem.reference_count < distrust_threshold)
  reference_count-exact = let v = run-Inv n l few ran in (v.counted, ground arith)

  -- The wait protects: after any schedule of up to 2 ^ 20 threads, if
  -- `OcRlReleaseRemoveLockAndWait` has returned to some thread, then no thread holds the lock or is
  -- giving it up in that function, and every thread that is inside `OcRlAcquireRemoveLock` will be
  -- refused.
  pub wait_protects :
      1 ≤ total leavers t.threads
      → (total holders t.threads + total firsts t.threads + total removers t.threads ≡ 0)
        × ((c : Choice) → move c t.mem acquiring ≡ some (t.mem, backing_out))
  wait_protects returned =
      let v = run-Inv n l few ran in (ground arith, λ c. refused t.mem c (ground arith))

  -- A single waiter is woken: after any schedule of up to 2 ^ 20 threads, if one thread waits in
  -- `OcRlReleaseRemoveLockAndWait`, none has returned from it, and no reference is left, then the
  -- event is set or some thread is about to set it.
  pub lone_waiter_is_woken :
      total waiters t.threads ≡ 1
      → total leavers t.threads ≡ 0
      → total references t.threads ≡ 0
      → (t.mem.remove_event ≡ true) ⊎ (1 ≤ total signallers t.threads)
  lone_waiter_is_woken one none_left spent = let v = run-Inv n l few ran in ground arith
