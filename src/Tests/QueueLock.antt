-- ===== src/Tests/QueueLock.antt =====
-- The queue lock with two wait blocks and a barrier.
use windows_system_wide_filt.Base.{
  [], ◌∷◌, ◌≡◌, some, none, true, false, refl, arith, lookup, ℕ, ap, erase, sym, update,
}
use windows_system_wide_filt.QueueLock.{
  QueueLock, WaitBlock, insert_barrier, is_barrier_next, unlink, remove_barrier, set_event,
  acquire_lock_with_context, initialize_queue_lock, insert_wait_block_in_list, link_last,
}
use windows_system_wide_filt.QueueLock.Order.{
  Ordered, Queued, first_granted, head_of, none_runs, runs,
}
use windows_system_wide_filt.QueueLock.Calls.{
  Shared, InOrder, NoBarrierNext, acquire, exec, release, release_lock_with_context,
  set_event_of_next, signal, take_barrier, wake,
}
use windows_system_wide_filt.QueueLock.Settled.{is_due, settle}
use windows_system_wide_filt.QueueLock.Steps.{exec-InOrder}
use windows_system_wide_filt.QueueLock.Reachable.{
  Reached, Reached-InOrder, initialized, next, owner_is_oldest, oldest_has_lock,
}
use windows_system_wide_filt.QueueLock.Race.{barrier_is_woken_late}

-- The block that has the lock, a barrier behind it, and a block that waits behind both.
abbrev owner : WaitBlock
owner = record {
  context = 5;
  next = 200;
  barrier = true;
  native = false;
  event = false;
  waits = false;
}

abbrev fence : WaitBlock
fence = record {
  context = 5;
  next = 300;
  barrier = false;
  native = true;
  event = false;
  waits = false;
}

abbrev waiter : WaitBlock
waiter = record {
  context = 5;
  next = 0;
  barrier = false;
  native = false;
  event = false;
  waits = true;
}

abbrev fenced : QueueLock
fenced = (100, owner) ∷ (200, fence) ∷ (300, waiter) ∷ []

fenced-Ordered : Ordered fenced
unfolding lookup Queued head_of none_runs first_granted
fenced-Ordered = record {
  distinct = (refl, (refl, (refl, tt)));
  queued = (
    (λ e. ground arith),
    refl,
    refl,
    ((λ e. ground arith), refl, refl, ((λ e. ground arith), refl, refl, tt)),
  );
  granted = λ c. ground arith;
}

-- No event is left to be set.
abbrev with_none : QueueLock → Shared
with_none lock = record { lock = lock; signals = [] }

fenced-InOrder : InOrder (with_none fenced)
unfolding settle is_due
fenced-InOrder = record {
  ordered = fenced-Ordered;
  distinct = tt;
  awaited = λ n t. absurd (ground arith);
}

-- The removal of the barrier wakes nobody, since the block before it still has the lock.
fence_goes : (s : Shared) × (exec (take_barrier 200) (with_none fenced) ≡ some s) × InOrder s
unfolding lookup
fence_goes = exec-InOrder (take_barrier 200) (with_none fenced) fenced-InOrder (fence, refl, refl)

abbrev lone : WaitBlock
lone = record {
  context = 5;
  next = 0;
  barrier = false;
  native = false;
  event = false;
  waits = false;
}

-- A thread acquires the lock, and another one comes.
abbrev behind_it : WaitBlock
behind_it = record {
  context = 5;
  next = 0;
  barrier = false;
  native = false;
  event = false;
  waits = true;
}

abbrev before_it : WaitBlock
before_it = record {
  context = 5;
  next = 200;
  barrier = false;
  native = false;
  event = false;
  waits = false;
}

abbrev two_blocks : QueueLock
two_blocks = (100, before_it) ∷ (200, behind_it) ∷ []

two_blocks-Reached : Reached (with_none two_blocks)
unfolding initialize_queue_lock exec acquire_lock_with_context insert_wait_block_in_list link_last
    lookup
two_blocks-Reached =
    next (acquire 200 5) (with_none ((100, lone) ∷ [])) (with_none two_blocks)
      (next (acquire 100 5) (with_none []) (with_none ((100, lone) ∷ [])) initialized
        (refl, (λ e. ground arith)) refl)
      (refl, (λ e. ground arith)) refl

owner_is_oldest_example : (head_of 5 two_blocks ≡ 100) × (◌≡◌ {A = ℕ} 100 100)
unfolding lookup
owner_is_oldest_example =
    owner_is_oldest 100 100 before_it before_it (with_none two_blocks) two_blocks-Reached refl refl
      refl refl refl

-- The first thread has released the lock and has still to set the event of the second one.
abbrev half_released : Shared
half_released = record { lock = (200, behind_it) ∷ []; signals = (200, 100) ∷ [] }

no_barrier_next : NoBarrierNext before_it two_blocks
unfolding lookup
no_barrier_next n h =
    let e : some behind_it ≡ some n = h in
    let e' : behind_it ≡ n = cc in ap (λ b. b.native) (sym e')

half_released-Reached : Reached half_released
unfolding exec release_lock_with_context unlink lookup erase wake
half_released-Reached =
    next (release 100 false) (with_none two_blocks) half_released two_blocks-Reached
      (before_it, refl, refl, refl, λ e. no_barrier_next) refl

half_released-InOrder : InOrder half_released
half_released-InOrder = Reached-InOrder half_released half_released-Reached

exec-InOrder_example : (s : Shared) × (exec (signal 200) half_released ≡ some s) × InOrder s
unfolding is_due
exec-InOrder_example = exec-InOrder (signal 200) half_released half_released-InOrder refl

abbrev woken : WaitBlock
woken = record {
  context = 5;
  next = 0;
  barrier = false;
  native = false;
  event = true;
  waits = true;
}

woken-Reached : Reached (with_none ((200, woken) ∷ []))
unfolding exec set_event_of_next set_event lookup update erase is_due
woken-Reached =
    next (signal 200) half_released (with_none ((200, woken) ∷ [])) half_released-Reached refl refl

oldest_has_lock_example : runs woken ≡ true
unfolding lookup head_of is_due
oldest_has_lock_example =
    oldest_has_lock 200 woken (with_none ((200, woken) ∷ [])) woken-Reached refl refl refl refl

lone-Ordered : Ordered ((100, lone) ∷ [])
unfolding lookup Queued head_of none_runs first_granted
lone-Ordered = record {
  distinct = (refl, tt);
  queued = ((λ e. ground arith), refl, refl, tt);
  granted = λ c. ground arith;
}

barrier_is_woken_late_example :
    (lock2 : QueueLock) × (lock3 : QueueLock) × (is_barrier_next 100 ((100, lone) ∷ [])
      ≡ some false)
    × (unlink 100 (insert_barrier 200 5 ((100, lone) ∷ [])).0 ≡ some (lock2, 200))
    × (remove_barrier 200 lock2 ≡ some lock3)
    × (set_event 200 lock3 ≡ none)
unfolding lookup
barrier_is_woken_late_example =
    barrier_is_woken_late 200 100 lone ((100, lone) ∷ []) lone-Ordered refl refl refl refl refl
      (λ e. ground arith)
