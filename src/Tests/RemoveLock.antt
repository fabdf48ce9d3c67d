-- ===== src/Tests/RemoveLock.antt =====
-- The remove lock on concrete schedules.
use windows_system_wide_filt.Base.{
  ℕ, List, System, [], arith, bit, false, none, not, refl, run, some, step, suc, total, true, ◌++◌,
  ◌+◌, ◌<◌, ◌∷◌, ◌≡◌, ◌≤◌, ◌⊎◌,
}
use windows_system_wide_filt.RemoveLock.{
  Pc, Choice, RemoveLock, acquire, acquiring, backing_out, gone, move, outside, release, remove,
  removing, signalling, start, waiting,
}
use windows_system_wide_filt.RemoveLock.Counts.{
  holders, firsts, leavers, references, removers, signallers, waiters,
}
use windows_system_wide_filt.RemoveLock.Safety.{
  wait_protects, distrust_threshold, lone_waiter_is_woken, reference_count-exact,
}
use windows_system_wide_filt.RemoveLock.Wakeup.{wakeup_is_lost}

-- Thread 0 removes and waits; thread 1, which came before, then releases and sets the event.
abbrev one_remover : List (ℕ × Choice)
one_remover =
    (0, acquire)
    ∷ (0, acquire)
    ∷ (1, acquire)
    ∷ (1, acquire)
    ∷ (0, remove)
    ∷ (0, remove)
    ∷ (0, remove)
    ∷ (1, release)
    ∷ []

abbrev spent : System RemoveLock Pc
spent = record {
  mem = record { reference_count = 0; remove_event = false; removed = true };
  threads = waiting ∷ signalling ∷ outside ∷ [];
}

spent-run : run move one_remover (start 3) ≡ some spent
unfolding run move start
spent-run = refl

-- Then the event is set, the wait ends, and a third thread comes too late.
abbrev returned : System RemoveLock Pc
returned = record {
  mem = record { reference_count = 1; remove_event = true; removed = true };
  threads = gone ∷ outside ∷ acquiring ∷ [];
}

abbrev to_return : List (ℕ × Choice)
to_return = one_remover ++ (1, release) ∷ (0, remove) ∷ (2, acquire) ∷ []

returned-run : run move to_return (start 3) ≡ some returned
unfolding run move start
returned-run = refl

reference_count-exact_example :
    (◌≡◌ {A = ℕ} 1 (bit (not true) + total references returned.threads)) × (1 < distrust_threshold)
reference_count-exact_example = reference_count-exact 3 to_return (omega arith) returned-run

wait_protects_example :
    (total holders returned.threads
        + total firsts returned.threads
        + total removers returned.threads
      ≡ 0)
    × ((c : Choice) → move c returned.mem acquiring ≡ some (returned.mem, backing_out))
wait_protects_example = wait_protects 3 to_return (omega arith) returned-run (omega arith)

lone_waiter_is_woken_example : (false ≡ true) ⊎ (1 ≤ total signallers spent.threads)
lone_waiter_is_woken_example =
    lone_waiter_is_woken 3 one_remover (omega arith) spent-run refl refl refl

-- Two threads hold the lock and both remove it.
abbrev two_removers : List (ℕ × Choice)
two_removers =
    (0, acquire)
    ∷ (0, acquire)
    ∷ (1, acquire)
    ∷ (1, acquire)
    ∷ (0, remove)
    ∷ (0, remove)
    ∷ (0, remove)
    ∷ (1, remove)
    ∷ []

abbrev at_last : System RemoveLock Pc
at_last = record {
  mem = record { reference_count = 1; remove_event = false; removed = true };
  threads = waiting ∷ removing ∷ [];
}

at_last-run : run move two_removers (start 2) ≡ some at_last
unfolding run move start
at_last-run = refl

abbrev lost : System RemoveLock Pc
lost = record {
  mem = record { reference_count = 0; remove_event = false; removed = true };
  threads = waiting ∷ gone ∷ [];
}

last_step : step move 1 remove at_last ≡ some lost
unfolding step move
last_step = refl

wakeup_is_lost_example :
    (total waiters lost.threads ≡ total waiters at_last.threads)
    × (total leavers lost.threads ≡ suc (total leavers at_last.threads))
    × (step move 0 remove lost ≡ none)
wakeup_is_lost_example =
    wakeup_is_lost 2 two_removers 1 0 remove remove (omega arith) at_last-run refl refl refl refl
      last_step (λ e. cc)
