-- ===== src/Tests/RwLock.antt =====
-- The reader-writer spin lock on concrete schedules.
use windows_system_wide_filt.Base.{
  ℕ, List, System, [], add32, arith, refl, run, some, total, ◌++◌, ◌∷◌, ◌≡◌, ◌⊎◌,
}
use windows_system_wide_filt.RwLock.{no_owner, RwSpinLock}
use windows_system_wide_filt.RwLock.Interleaving.{
  Pc, Choice, for_read, for_write, move, outside, readers, start, undo, writers, writing,
}
use windows_system_wide_filt.RwLock.Exclusion.{writer_excludes}
use windows_system_wide_filt.RwLock.Acquire.{
  Cpu, acquire_lock_for_read, acquire_lock_for_write, acquire_lock_for_read-exact, first_free,
  is_free,
}

-- Thread 0 writes, thread 1 fails to read and has not undone its attempt.
abbrev contended : List (ℕ × Choice)
contended = (0, for_write) ∷ (1, for_read) ∷ []

abbrev contended_end : System RwSpinLock Pc
contended_end = record { mem = 0xffffffff; threads = writing ∷ undo ∷ outside ∷ [] }

contended-run : run move contended (start 3) ≡ some contended_end
unfolding run move start
contended-run = refl

-- The writer releases before the attempt is undone: the word ends as if nobody had come.
released-run :
    run move (contended ++ (0, for_read) ∷ (1, for_read) ∷ []) (start 3)
    ≡ some (record { mem = no_owner; threads = outside ∷ outside ∷ outside ∷ [] })
unfolding run move start
released-run = refl

writer_excludes_example :
    (total writers contended_end.threads ≡ 0)
    ⊎ (total writers contended_end.threads ≡ 1) × (total readers contended_end.threads ≡ 0)
writer_excludes_example = writer_excludes 3 contended (omega arith) contended-run

-- A writer holds the lock at the first attempt, and has released it at the second.
abbrev writer_leaves : List (RwSpinLock → RwSpinLock)
writer_leaves = (λ w. add32 w 0x01000000) ∷ []

abbrev caller : Cpu
caller = record { irql = 1; delays = [] }

abbrev reader : Cpu
reader = record { irql = 2; delays = 1 ∷ [] }

acquire_lock_for_read-exact_example :
    acquire_lock_for_read writer_leaves 0 caller ≡ some (0x00ffffff, reader, 1)
unfolding first_free is_free
acquire_lock_for_read-exact_example =
    acquire_lock_for_read-exact writer_leaves 0 caller (omega arith) ((λ w word. omega arith), tt)

write_taken :
    acquire_lock_for_write ((λ _. no_owner) ∷ []) 0x00ffffff caller
    ≡ some (0, record { irql = 2; delays = [] }, 1)
unfolding acquire_lock_for_write
write_taken = refl
