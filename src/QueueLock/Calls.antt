-- ===== src/QueueLock/Calls.antt =====
-- The calls of the queue lock, in any order, one step for what is done under the spin lock.
use windows_system_wide_filt.Base.{
  ℕ, Bool, Option, ◌≡◌, true, ◌∷◌, if◌then◌else◌, Distinct, erase, false, lookup, none, some, ◌&&◌,
  ◌==◌, ◌>>=◌, ◌≢◌,
}
use windows_system_wide_filt.QueueLock.{
  QueueLock, WaitBlock, set_event, unlink, acquire_lock_with_context, finish_wait, insert_barrier,
  release_before_barrier, remove_barrier,
}
use windows_system_wide_filt.QueueLock.Order.{Ordered, runs}
use windows_system_wide_filt.QueueLock.Settled.{Signals, is_due, settle}
use windows_system_wide_filt.QueueLock.Waiting.{waiting}

-- A queue lock, and the events that calls of `OcQlReleaseLockWithContext` have left the spin lock to
-- set and have not set yet.
pub record Shared : Type 0 where
  pub lock : QueueLock
  pub signals : Signals

unfoldable pub wake : ℕ → ℕ → Signals → Signals
wake address n signals = if n == 0 then signals else (n, address) ∷ signals

abbrev pub on_lock : Shared → Option QueueLock → Option Shared
on_lock s r = r >>= λ lock'. some (record s { lock = lock' })

-- `OcQlReleaseLockWithContext` with the barrier flag as it has read it, up to the end of what it does
-- under the spin lock. The event of the next block is set under it only if there is a barrier.
unfoldable pub release_lock_with_context : ℕ → Bool → Shared → Option Shared
release_lock_with_context address flag s =
    if flag
    then on_lock s (release_before_barrier address s.lock)
    else unlink address s.lock >>= λ r.
        some (record { lock = r.0; signals = wake address r.1 s.signals })

-- The last statement of `OcQlReleaseLockWithContext`, out of the spin lock.
unfoldable pub set_event_of_next : ℕ → Shared → Option Shared
set_event_of_next n s = do
  lock' ← set_event n s.lock
  some (record { lock = lock'; signals = erase n s.signals })

-- A step, with the address of the wait block.
pub data Call : Type 0 where
  acquire : (address context : ℕ) → Call
  go_on : (address : ℕ) → Call  -- the wait of an acquisition is over
  release : (address : ℕ) (flag : Bool) → Call  -- the flag has been read before
  signal : (address : ℕ) → Call  -- a release ends
  put_barrier : (address context : ℕ) → Call
  take_barrier : (address : ℕ) → Call

unfoldable pub exec : Call → Shared → Option Shared
exec (acquire address context) s =
    some (record s { lock = (acquire_lock_with_context address context s.lock).0 })
exec (go_on address) s = on_lock s (finish_wait address s.lock)
exec (release address flag) s = release_lock_with_context address flag s
exec (signal address) s = set_event_of_next address s
exec (put_barrier address context) s =
    some (record s { lock = (insert_barrier address context s.lock).0 })
exec (take_barrier address) s = on_lock s (remove_barrier address s.lock)

-- The next block is no barrier.
abbrev pub NoBarrierNext : WaitBlock → QueueLock → Type 0
NoBarrierNext b lock = (n : WaitBlock) → lookup b.next lock ≡ some n → n.native ≡ false

-- What the caller owes: a new block is in memory of its own; only a thread that has the lock and does
-- not wait releases it, and if it has read that no barrier is next, none has come since; a wait is
-- over only once the event is set; an event is set by a release that has not set it yet; a barrier is
-- there.
abbrev pub Allowed : Call → Shared → Type 0
Allowed (acquire address context) s = (lookup address s.lock ≡ none) × (address ≢ 0)
Allowed (go_on address) s =
    (b : WaitBlock) × (lookup address s.lock ≡ some b)
    × (b.native ≡ false)
    × (b.waits && b.event ≡ true)
Allowed (release address flag) s =
    (b : WaitBlock) × (lookup address s.lock ≡ some b)
    × (runs b ≡ true)
    × (b.waits ≡ false)
    × (flag ≡ false → NoBarrierNext b s.lock)
Allowed (signal address) s = is_due s.signals address ≡ true
Allowed (put_barrier address context) s = (lookup address s.lock ≡ none) × (address ≢ 0)
Allowed (take_barrier address) s =
    (b : WaitBlock) × (lookup address s.lock ≡ some b) × (b.native ≡ true)

-- The list is in order but for the events still to be set, each of which is set by one release, and
-- only for a block that waits for it.
pub record InOrder (s : Shared) : Type 0 where
  pub ordered : Ordered (settle (is_due s.signals) s.lock)
  pub distinct : Distinct s.signals
  pub awaited : (n : ℕ) → is_due s.signals n ≡ true → waiting n s.lock ≡ true
