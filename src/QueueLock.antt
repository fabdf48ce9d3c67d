-- ===== src/QueueLock.antt =====
-- The queue lock of o_core/o_core/queue_lock.c. The list of wait blocks is an association list from
-- the address of a block to its fields, oldest first; an access to a block that is not on the list is
-- a fault, `none`. What is done under the spin lock is one step; what `OcQlReleaseLockWithContext` does
-- before and after it is in Calls.
pub mod Order
pub mod Insertion
pub mod Removal
pub mod Barrier
pub mod Operations
pub mod Settled
pub mod Waiting
pub mod Calls
pub mod Handover
pub mod Steps
pub mod Race
pub mod Reachable
use windows_system_wide_filt.Base.{
  ℕ, Bool, List, Option, [], ◌∷◌, ◌++◌, some, none, lookup, update, erase, not, true, false, ◌&&◌,
  ◌||◌, ◌==◌, if◌then◌else◌, ◌>>=◌,
}

-- `OC_QUEUE_WAIT_BLOCK`. `next` is `Next` without its flags, 0 for `NULL`; `barrier` and `native` are
-- the two flags; `waits` says that the thread of the block waits for the event.
pub record WaitBlock : Type 0 where
  pub context : ℕ
  pub next : ℕ
  pub barrier : Bool
  pub native : Bool
  pub event : Bool
  pub waits : Bool

-- `OC_QUEUE_LOCK`.
abbrev pub QueueLock : Type 0
QueueLock = List (ℕ × WaitBlock)

unfoldable pub initialize_queue_lock : QueueLock
initialize_queue_lock = []

-- `OcQlInitializeWaitBlock`, with the context and the flags.
abbrev pub new_block : ℕ → Bool → WaitBlock
new_block context native = record {
  context = context;
  next = 0;
  barrier = false;
  native = native;
  event = false;
  waits = false;
}

-- The search of `OcInsertWaitBlockInList` from the end of the list: the last block with the context
-- gets the new one as its next, and the flag. The result says whether there is one.
unfoldable pub link_last : ℕ → ℕ → Bool → QueueLock → QueueLock × Bool
link_last context address flag [] = ([], false)
link_last context address flag ((p, b) ∷ lock) =
    let (lock', found) = link_last context address flag lock in
    if found
    then ((p, b) ∷ lock', true)
    else if b.context == context
    then ((p, record b { next = address; barrier = b.barrier || flag }) ∷ lock', true)
    else ((p, b) ∷ lock', false)

-- `OcInsertWaitBlockInList`; the flag of the result is `FirstContextEntry`. `waits` is the wait of the
-- caller for the event, which follows if the block is not the first.
unfoldable pub insert_wait_block_in_list :
    ℕ → WaitBlock → Bool → Bool → QueueLock → QueueLock × Bool
insert_wait_block_in_list address block flag waits lock =
    let (lock', found) = link_last block.context address flag lock in
    (lock' ++ (address, record block { waits = waits && found }) ∷ [], not found)

-- `OcQlAcquireLockWithContext`, up to its wait.
unfoldable pub acquire_lock_with_context : ℕ → ℕ → QueueLock → QueueLock × Bool
acquire_lock_with_context address context lock =
    insert_wait_block_in_list address (new_block context false) false true lock

-- The wait is over: the event is set, and the wait resets it.
unfoldable pub finish_wait : ℕ → QueueLock → Option QueueLock
finish_wait address lock = do
  b ← lookup address lock
  if b.waits && b.event
      then some (update address (record b { waits = false; event = false }) lock)
      else none

-- `KeSetEvent` for a block, if there is one.
unfoldable pub set_event : ℕ → QueueLock → Option QueueLock
set_event address lock =
    if address == 0
    then some lock
    else do b ← lookup address lock; some (update address (record b { event = true }) lock)

-- `OcQlReleaseLockWithContext` reads the barrier flag without the spin lock.
unfoldable pub is_barrier_next : ℕ → QueueLock → Option Bool
is_barrier_next address lock = do b ← lookup address lock; some b.barrier

-- Its branch for a barrier, all of it under the spin lock.
unfoldable pub release_before_barrier : ℕ → QueueLock → Option QueueLock
release_before_barrier address lock = do
  b ← lookup address lock
  lock' ← set_event b.next lock
  some (erase address lock')

-- The other branch, under the spin lock; the event of the block that is returned is set after it.
unfoldable pub unlink : ℕ → QueueLock → Option (QueueLock × ℕ)
unlink address lock = do b ← lookup address lock; some (erase address lock, b.next)

-- `OcQlInsertBarrier`.
unfoldable pub insert_barrier : ℕ → ℕ → QueueLock → QueueLock × Bool
insert_barrier address context lock =
    insert_wait_block_in_list address (new_block context true) true false lock

-- The search of `OcQlRemoveBarrier` from the barrier backwards: the block whose next is the barrier
-- gets the barrier's next, and its flag. The result says whether there is one.
unfoldable pub relink : ℕ → WaitBlock → QueueLock → QueueLock × Bool
relink address block [] = ([], false)
relink address block ((p, b) ∷ lock) =
    let (lock', found) = relink address block lock in
    if p == address
    then ((p, b) ∷ lock, false)
    else if found
    then ((p, b) ∷ lock', true)
    else if b.next == address
    then ((p, record b { next = block.next; barrier = b.barrier || block.barrier }) ∷ lock, true)
    else ((p, b) ∷ lock, false)

-- `OcQlRemoveBarrier`.
unfoldable pub remove_barrier : ℕ → QueueLock → Option QueueLock
remove_barrier address lock = do
  b ← lookup address lock
  let linked = relink address b lock
  lock' ← (if linked.1 then some linked.0 else set_event b.next linked.0)
  some (erase address lock')
