-- ===== src/RemoveLock/Wakeup.antt =====
-- Where the wake-up of the remove lock is lost: of two threads that remove the lock, the one that
-- comes last takes the counter to 0 and returns without setting the event.
use windows_system_wide_filt.Base.{
  ℕ, List, Option-cases, System, arith, false, get_elem?, inl, inr, none, refl, run, some, step,
  step-eq-some, suc, total, total-ge, ◌^◌, ◌≡◌, ◌≢◌, ◌≤◌,
}
use windows_system_wide_filt.RemoveLock.{
  Pc, Choice, RemoveLock, acquire, gone, move, outside, release, remove, removing, start, waiting,
}
use windows_system_wide_filt.RemoveLock.Invariant.{run-Inv}
use windows_system_wide_filt.RemoveLock.Counts.{
  Changed, changed, leavers, references, signallers, waiters, removers,
}

-- A thread with no reference and nothing to signal only acts to acquire, or when the event is set.
blocked_move :
    (d : Choice) (m : RemoveLock) (p : Pc)
    → references p ≡ 0
    → signallers p ≡ 0
    → m.remove_event ≡ false
    → d ≢ acquire
    → move d m p ≡ none
unfolding move
blocked_move acquire m p r s e ne = absurd (ne refl)
blocked_move release m outside r s e ne = refl
blocked_move release m waiting r s e ne = rw e
blocked_move release m gone r s e ne = refl
blocked_move release m p r s e ne = absurd (omega arith)
blocked_move remove m outside r s e ne = refl
blocked_move remove m waiting r s e ne = rw e
blocked_move remove m gone r s e ne = refl
blocked_move remove m p r s e ne = absurd (omega arith)

blocked :
    (s : System RemoveLock Pc) (j : ℕ) (d : Choice)
    → total references s.threads ≡ 0
    → total signallers s.threads ≡ 0
    → s.mem.remove_event ≡ false
    → d ≢ acquire
    → step move j d s ≡ none
unfolding step
blocked s j d r g e ne = elim (Option-cases (get_elem? s.threads j)) [
  | inl out ↦ rw out
  | inr (p, there) ↦
      let r0 = total-ge references s.threads j there in
      let g0 = total-ge signallers s.threads j there in
      rw (there, blocked_move d s.mem p (omega arith) (omega arith) e ne)
]

last_removal :
    (c : Choice) (m m' : RemoveLock) (p q : Pc) (ps qs : List Pc)
    → move c m p ≡ some (m', q)
    → Changed ps qs p q
    → p ≡ removing
    → m.reference_count ≡ 1
    → total references ps ≡ 1
    → total signallers ps ≡ 0
    → m.remove_event ≡ false
    → (total references qs ≡ 0)
      × (total signallers qs ≡ 0)
      × (m'.remove_event ≡ false)
      × (total waiters qs ≡ total waiters ps)
      × (total leavers qs ≡ suc (total leavers ps))
unfolding move
last_removal acquire m m' removing q ps qs h ch e k r s v = ground arith
last_removal release m m' removing q ps qs h ch e k r s v = ground arith
last_removal remove m m' removing q ps qs h ch e k r s v = ground arith
last_removal c m m' p q ps qs h ch e k r s v = cc

-- A lost wake-up: let the schedule have led to a state where thread `i` is about to give up the
-- last reference in `OcRlReleaseRemoveLockAndWait` while others wait there and the event is not set.
-- After its step one more thread has returned from that function and the others still wait, and no
-- thread can make any step but to start a new call of `OcRlAcquireRemoveLock`.
pub wakeup_is_lost :
    (n : ℕ) (l : List (ℕ × Choice)) {t u : System RemoveLock Pc} (i j : ℕ) (c d : Choice)
    → n ≤ 2 ^ 20
    → run move l (start n) ≡ some t
    → get_elem? t.threads i ≡ some removing
    → total references t.threads ≡ 1
    → total signallers t.threads ≡ 0
    → t.mem.remove_event ≡ false
    → step move i c t ≡ some u
    → d ≢ acquire
    → (total waiters u.threads ≡ total waiters t.threads)
      × (total leavers u.threads ≡ suc (total leavers t.threads))
      × (step move j d u ≡ none)
wakeup_is_lost n l {t} {u} i j c d few ran at_last one none_signals unset stepped ne =
    let v = run-Inv n l few ran in
    let w = step-eq-some move i c t stepped in
    let e : w.before ≡ removing = ground (arith, w.stood) in
    let counted : t.mem.reference_count ≡ 1 =
      ground (arith, total-ge removers t.threads i at_last, v.counted, v.asked) in
    let after =
      last_removal c t.mem u.mem w.before w.after t.threads u.threads w.moved
        (rw w.stands (changed i t.threads w.after w.stood)) e counted one none_signals unset in
    (after.3, after.4, blocked u j d after.0 after.1 after.2 ne)
