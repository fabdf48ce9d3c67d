-- ===== src/QueueLock/Order.antt =====
-- The links of the list of wait blocks and the order in which the lock is granted.
use windows_system_wide_filt.Base.{
  ℕ, Bool, [], ◌∷◌, ◌≡◌, ◌≢◌, ◌==◌, ◌&&◌, ◌||◌, not, true, false, if◌then◌else◌, Distinct, arith,
  lookup, some, refl,
}
use windows_system_wide_filt.QueueLock.{QueueLock, WaitBlock}

-- The oldest block with a context, 0 if there is none.
unfoldable pub head_of : ℕ → QueueLock → ℕ
head_of c [] = 0
head_of c ((p, b) ∷ lock) = let later = head_of c lock in if b.context == c then p else later

-- Whether a context has a block.
unfoldable pub has : ℕ → QueueLock → Bool
has c [] = false
has c ((p, b) ∷ lock) = let later = has c lock in if b.context == c then true else later

-- The lock is granted to a block, which is no barrier: its thread does not wait, or need not any more.
abbrev pub runs : WaitBlock → Bool
runs b = not b.native && (not b.waits || b.event)

-- No block of a context has the lock.
unfoldable pub none_runs : ℕ → QueueLock → Bool
none_runs c [] = true
none_runs c ((p, b) ∷ lock) =
    let later = none_runs c lock in if (b.context == c) && runs b then false else later

-- The oldest block of a context, if it is no barrier, has the lock.
unfoldable pub first_granted : ℕ → QueueLock → Bool
first_granted c [] = true
first_granted c ((p, b) ∷ lock) =
    let later = first_granted c lock in if b.context == c then b.native || runs b else later

-- Each block is linked to the next one of its context, and no block behind it of its context has the
-- lock.
unfoldable pub Queued : QueueLock → Type 0
Queued [] = Unit
Queued ((p, b) ∷ lock) =
    (p ≢ 0) × (b.next ≡ head_of b.context lock) × (none_runs b.context lock ≡ true) × Queued lock

pub record Ordered (lock : QueueLock) : Type 0 where
  pub distinct : Distinct lock
  pub queued : Queued lock
  pub granted : (c : ℕ) → first_granted c lock ≡ true

pub head_absent : (c : ℕ) (lock : QueueLock) → has c lock ≡ false → head_of c lock ≡ 0
unfolding head_of has
head_absent c [] h = refl
head_absent c ((p, b) ∷ lock) h = ground (arith, head_absent c lock)

pub none_runs-lookup :
    (c a : ℕ) (b : WaitBlock) (lock : QueueLock)
    → none_runs c lock ≡ true
    → lookup a lock ≡ some b
    → b.context ≡ c
    → runs b ≡ false
unfolding none_runs lookup
none_runs-lookup c a b [] n h e = cc
none_runs-lookup c a b ((p, x) ∷ lock) n h e = ground (arith, none_runs-lookup c a b lock)

oldest :
    (a : ℕ) (b : WaitBlock) (lock : QueueLock)
    → Queued lock
    → lookup a lock ≡ some b
    → runs b ≡ true
    → head_of b.context lock ≡ a
unfolding head_of Queued lookup
oldest a b [] q there running = cc
oldest a b ((p, x) ∷ lock) (_, _, behind, q) there running =
    ground (arith, oldest a b lock q, none_runs-lookup x.context a b lock behind)

-- The lock is granted in order: in an ordered list, a block that has the lock is the oldest of its
-- context; so no two of a context have it, and none that waits is passed by a younger one. None
-- behind a barrier of its context has it.
pub granted_is_oldest :
    (a : ℕ) (b : WaitBlock) (lock : QueueLock)
    → Ordered lock
    → lookup a lock ≡ some b
    → runs b ≡ true
    → head_of b.context lock ≡ a
granted_is_oldest a b lock o there running = oldest a b lock o.queued there running
