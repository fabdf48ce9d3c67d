-- ===== src/QueueLock/Reachable.antt =====
-- The states that a queue lock can reach.
use windows_system_wide_filt.Base.{
  ℕ, ◌≡◌, some, true, refl, lookup, ◌∙◌, sym, ap, step, subst, Bool, [], arith, false, ◌∷◌,
}
use windows_system_wide_filt.QueueLock.{QueueLock, WaitBlock, initialize_queue_lock}
use windows_system_wide_filt.QueueLock.Order.{
  Queued, head_of, first_granted, runs, granted_is_oldest,
}
use windows_system_wide_filt.QueueLock.Calls.{Shared, Call, Allowed, exec, InOrder}
use windows_system_wide_filt.QueueLock.Steps.{exec-InOrder}
use windows_system_wide_filt.QueueLock.Settled.{settle, with_event, is_due, lookup-settle}

abbrev pub initial : Shared
initial = record { lock = initialize_queue_lock; signals = [] }

-- The states that steps lead to from a lock that has been initialised, each made as its caller owes.
pub data Reached : Shared → Type 0 where
  initialized : Reached initial
  next :
      (call : Call) (s s' : Shared)
      → Reached s
      → Allowed call s
      → exec call s ≡ some s'
      → Reached s'

initial-InOrder : InOrder initial
unfolding initialize_queue_lock Queued first_granted settle is_due
initial-InOrder = record {
  ordered = record { distinct = tt; queued = tt; granted = λ c. refl };
  distinct = tt;
  awaited = λ n t. absurd (ground arith);
}

pub Reached-InOrder : (s : Shared) → Reached s → InOrder s
Reached-InOrder _ initialized = initial-InOrder
Reached-InOrder _ (next call s s' before allowed step) =
    let (after, e, i) = exec-InOrder call s (Reached-InOrder s before) allowed in
    subst InOrder (cc) i

head_of-settle :
    (f : ℕ → Bool) (c : ℕ) (lock : QueueLock) → head_of c (settle f lock) ≡ head_of c lock
unfolding settle head_of
head_of-settle f c [] = refl
head_of-settle f c ((p, x) ∷ lock) = ground (arith, head_of-settle f c lock)

oldest_granted :
    (a : ℕ) (b : WaitBlock) (lock : QueueLock)
    → first_granted b.context lock ≡ true
    → head_of b.context lock ≡ a
    → lookup a lock ≡ some b
    → b.native ≡ false
    → runs b ≡ true
unfolding first_granted head_of lookup
oldest_granted a b [] granted first there plain = cc
oldest_granted a b ((p, x) ∷ lock) granted first there plain =
    ground (arith, oldest_granted a b lock)

-- One owner, and in order: whatever steps have been made of a queue lock, each as its caller owes
-- (see `Allowed`; so no release that has read that no barrier is next finds one), a wait block that has the lock is the oldest one on the list with its context, and
-- a second block of the context that has the lock is the same block. A barrier that is the oldest
-- block of its context so keeps all others of the context from having it.
pub owner_is_oldest :
    (a a' : ℕ) (b b' : WaitBlock) (s : Shared)
    → Reached s
    → lookup a s.lock ≡ some b
    → runs b ≡ true
    → lookup a' s.lock ≡ some b'
    → runs b' ≡ true
    → b'.context ≡ b.context
    → (head_of b.context s.lock ≡ a) × (a' ≡ a)
owner_is_oldest a a' b b' s reached there running there' running' contexts =
    let i = Reached-InOrder s reached in
    let f = is_due s.signals in
    let settled = settle f s.lock in
    let on = lookup-settle f a b s.lock there in
    let on' = lookup-settle f a' b' s.lock there' in
    let e = granted_is_oldest a (with_event (f a) b) settled i.ordered on (ground arith) in
    let e' = granted_is_oldest a' (with_event (f a') b') settled i.ordered on' (ground arith) in
    let first : head_of b.context s.lock ≡ a = sym (head_of-settle f b.context s.lock) ∙ e in
    (first, sym e' ∙ ap (λ c. head_of c settled) contexts ∙ e)

-- No wakeup is lost: whatever steps have been made of a queue lock, each as its caller owes (see
-- `Allowed`; so no release that has read that no barrier is next finds one), the oldest wait block of a context, if it is no barrier, has the lock, unless a release
-- has still to set its event.
pub oldest_has_lock :
    (a : ℕ) (b : WaitBlock) (s : Shared)
    → Reached s
    → lookup a s.lock ≡ some b
    → head_of b.context s.lock ≡ a
    → b.native ≡ false
    → is_due s.signals a ≡ false
    → runs b ≡ true
oldest_has_lock a b s reached there first plain idle =
    let i = Reached-InOrder s reached in
    let f = is_due s.signals in
    let r =
      oldest_granted a (with_event (f a) b) (settle f s.lock) (i.ordered.granted b.context)
        (head_of-settle f b.context s.lock ∙ first) (lookup-settle f a b s.lock there) plain in
    ground arith
