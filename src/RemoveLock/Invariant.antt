-- ===== src/RemoveLock/Invariant.antt =====
-- What the counter, the flag and the event of the remove lock say about the threads.
use windows_system_wide_filt.Base.{
  List, System, arith, bit, not, some, total, true, ◌*◌, ◌+◌, ◌^◌, ◌≡◌, ◌≤◌, ◌⊎◌, Stepped, refl,
  run, run_inv, suc, zero, ℕ,
}
use windows_system_wide_filt.RemoveLock.{
  Pc, Choice, RemoveLock, acquire, acquiring, backing_out, gone, holding, move, outside, release,
  remove, removing, removing_first, signalling, waiting, all_outside, start,
}
use windows_system_wide_filt.RemoveLock.Counts.{
  Changed, acquirers, everybody, firsts, holders, leavers, quitters, references, removers,
  signallers, changed, references-split, waiters,
}

pub record Inv (s : System RemoveLock Pc) : Type 0 where
  pub few : total everybody s.threads ≤ 2 ^ 20
  pub inside : total references s.threads ≤ 2 * total everybody s.threads
  -- the counter counts the references, and the initial one until the lock is removed
  pub counted : s.mem.reference_count ≡ bit (not s.mem.removed) + total references s.threads
  -- once the event is set or about to be, or a wait is over, nobody holds the lock
  pub over :
      (total signallers s.threads + bit s.mem.remove_event + total leavers s.threads ≡ 0)
      ⊎ (s.mem.removed ≡ true)
        × (total holders s.threads + total firsts s.threads + total removers s.threads ≡ 0)
  -- nobody waits, or is on the way to, unless the lock is removed
  pub asked :
      (s.mem.removed ≡ true)
      ⊎ (total firsts s.threads + total removers s.threads + total waiters s.threads ≡ 0)
  -- who takes the counter to 0 sets the event, or leaves
  pub spent :
      (1 ≤ s.mem.reference_count)
      ⊎ (1 ≤ total signallers s.threads + bit s.mem.remove_event + total leavers s.threads)

abbrev at : RemoveLock → List Pc → System RemoveLock Pc
at m ps = record { mem = m; threads = ps }

move-Inv :
    (c : Choice) (m m' : RemoveLock) (p q : Pc) (ps qs : List Pc)
    → total references ps
      ≡ total acquirers ps
        + total quitters ps
        + total holders ps
        + 2 * total firsts ps
        + total removers ps
    → move c m p ≡ some (m', q)
    → Changed ps qs p q
    → Inv (at m ps)
    → Inv (at m' qs)
unfolding move
move-Inv acquire m m' outside q ps qs e h ch v = ground arith
move-Inv release m m' outside q ps qs e h ch v = cc
move-Inv remove m m' outside q ps qs e h ch v = cc
move-Inv acquire m m' holding q ps qs e h ch v = cc
move-Inv release m m' holding q ps qs e h ch v = ground arith
move-Inv remove m m' holding q ps qs e h ch v = ground arith
move-Inv c m m' acquiring q ps qs e h ch v = ground arith
move-Inv c m m' backing_out q ps qs e h ch v = ground arith
move-Inv c m m' signalling q ps qs e h ch v = ground arith
move-Inv c m m' removing_first q ps qs e h ch v = ground arith
move-Inv c m m' removing q ps qs e h ch v = ground arith
move-Inv c m m' waiting q ps qs e h ch v = ground arith
move-Inv acquire m m' gone q ps qs e h ch v = cc
move-Inv release m m' gone q ps qs e h ch v = cc
move-Inv remove m m' gone q ps qs e h ch v = cc

Stepped-Inv :
    (i : ℕ) (c : Choice) (s t : System RemoveLock Pc) → Stepped move i c s t → Inv s → Inv t
Stepped-Inv i c s t d v =
    move-Inv c s.mem t.mem d.before d.after s.threads t.threads (references-split s.threads) d.moved
      (rw d.stands (changed i s.threads d.after d.stood)) v

-- Nobody stands anywhere but outside.
all_outside-totals :
    (n : ℕ)
    → (total references (all_outside n) ≡ 0)
      × (total signallers (all_outside n) ≡ 0)
      × (total firsts (all_outside n) ≡ 0)
      × (total removers (all_outside n) ≡ 0)
      × (total waiters (all_outside n) ≡ 0)
      × (total leavers (all_outside n) ≡ 0)
      × (total everybody (all_outside n) ≡ n)
all_outside-totals zero = (refl, refl, refl, refl, refl, refl, refl)
all_outside-totals (suc n) = omega (arith, all_outside-totals n)

start-Inv : (n : ℕ) → n ≤ 2 ^ 20 → Inv (start n)
unfolding start
start-Inv n h = ground (arith, all_outside-totals n)

pub run-Inv :
    (n : ℕ) (l : List (ℕ × Choice)) {t : System RemoveLock Pc}
    → n ≤ 2 ^ 20
    → run move l (start n) ≡ some t
    → Inv t
run-Inv n l few h = run_inv move Inv Stepped-Inv l (start n) h (start-Inv n few)
