-- ===== src/Lib.antt =====
-- A verification library for a set of Windows drivers that filter all input and output of the
-- system. It is about the parts that the other parts stand on: the three locks, the object
-- manager, the hash table, the IRP tracker, the ledger of references and the work items, about
-- the completion hooker, about the requests that worker threads go on with, about the tree of
-- devices, about what kind of device a request is for, and about the descriptors that grant
-- access to it.
--
-- The filter drivers (o_filter, o_hooker) pass what happens to the core driver (o_core), which
-- keeps its data in reference-counted objects (common/objects), finds them through hash tables
-- (common/hash), and guards itself by a reader-writer spin lock (include/ocrwspinlock.h), by
-- remove locks (o_core/o_core/remove_lock.c) and by queue locks (o_core/o_core/queue_lock.c),
-- whose wait blocks queue for each context and can be held up by barriers. A line of a hash
-- table is guarded by a spin lock, and both a table and its entries are objects: an entry holds
-- a reference to its table, and a thread that uses an entry holds a reference to it.
--
--   Base: names of the standard library, status codes (Results), Boolean tests (Tests), lists
--     with a native length (Lists), 32-bit words (Word), association lists (Assoc), and a system
--     of threads over a shared memory (Threads).
--   RwLock: OC_RW_SPIN_LOCK. The word is one machine word; an interlocked operation is one step.
--     Interleaving has the threads, Exclusion the safety under any schedule, Acquire the loops
--     that spin.
--   RemoveLock: OC_REMOVE_LOCK_HEADER, with a count of steps for each caller. Counts and
--     Invariant relate the counter to the callers, Safety and Wakeup say who waits and who is
--     woken.
--   Object: types, headers, and the functions OcOb*. Invariant is well-formedness, Preserve its
--     lemmas, Operations the functions in any order, Lifetime the last reference. References is
--     about a reference that is taken and given back, Held about several that are held at once,
--     Others about the objects beside one that goes.
--   Hash: State has the bodies of hash objects and entries and the delete methods, Operations
--     the functions OcHs* for one key, Sweep those for all lines. Find, Remove, Insert, Create,
--     Manager, Traverse and Purge are about these, Roundtrip about an insertion and what
--     follows, Interleaved about a removal in the middle of a search.
--   QueueLock: OC_QUEUE_LOCK and its wait blocks. Order says when a list is in order, Insertion,
--     Removal, Barrier and Operations that it stays so. Calls has the calls as steps in any
--     order, where a release may still have an event to set after the spin lock; Settled is the
--     list as it will be then, Waiting says which blocks wait, Handover and Steps are about each
--     step, Reachable about what holds after any steps, Race about a barrier that comes while a
--     block is being released.
--   IrpTracker: the list of requests in flight of o_core/o_core/irp.c. Tracking is about what
--     the list says of them.
--   Ledger: the references by tag of common/objects/dbobject.c, which a checked build counts.
--     Failure is about an allocation that fails, Balance about a reference and its end, Balanced
--     and Calls about the counts.
--   WorkItems: the work items of common/wthreads/ocwthread.c. They are posted, and the
--     dispatcher calls each with its parameters, of which there are at most ten. Posting is
--     about posting and processing them.
--   Irp: a request packet and its stack locations, with the macros of the driver kit.
--     CompletionHooker: o_core/o_core/complhooker.c, with the two functions of
--     o_hooker/o_hooker/driverhooker.c that it calls. Completion has a packet on its way up,
--     Postponing what leaves it to a worker thread. Hooking is about the hook, InPlace and
--     Refinement about a completion in place, Postponed, Restart and Worker about one that is
--     postponed.
--   IoWorker: o_core/o_core/ioworkerthread.c, with OcTplReferenceSharedWorkItemList of
--     common/wthreads/octhreadpool.c. Processing has the worker thread. Copy, Outcomes, Posting
--     and Posted have the lemmas for each step, Refused is about errors, Balance about a request
--     that is posted and processed.
--   DeviceTypes: the types of devices in o_core/o_core/security_descr.c. Setting has how the
--     tables are set, Tables is about the tables of types, Merged and Inference about the types
--     of a stack of devices, which is the list that OcCrTraverseTopDown of
--     o_core/o_core/devdatabase.c goes down.
--   SecurityDescriptors: OcSdSetSecurityDescriptor and OcIsAccessGranted of
--     o_core/o_core/security_descr.c, over the object manager. Checking has OcIsAccessGranted.
--     Check is about a check, Setting and Roundtrip about a descriptor that is set and checked
--     then, Refused about errors, Bounds about an index beyond the table, Outlives about a
--     descriptor that is exchanged in the middle of a check.
--   DeviceTree: OcCrTraverseFromDownToTop of o_core/o_core/devdatabase.c with its stack of
--     devices. Forest is the tree as it is meant; Pushing, Round, Expand and Hanging are about
--     one round of the loop, DepthFirst and Visits about the loop, FromDownToTop about the
--     function, Overflow about a device with both kinds of relations.
--   Tests: each theorem at a concrete run.
--
-- Shared memory is explicit. A lock is a word and a program point for each thread, and a
-- schedule is any list of steps, so that a theorem about schedules is about every interleaving
-- of the interlocked operations. The object manager and the hash table are a store that each
-- call changes: types, headers and bodies by address, in association lists. An access to an
-- address where nothing stands is a fault and has no result. Addresses are numbers, and the
-- address of a body stands for that of its header.
--
-- Counters are 32-bit words and wrap. Where a theorem needs that a count is not at its end, its
-- conditions say so. The spin loops go over a list of what the other processors do between two
-- attempts, and have no result if they still spin at its end; the way through the tree of
-- devices has a number of rounds, and the number of devices is enough; all other loops are over
-- lists or over the lines of a table.
--
-- The model is that of the release build: what is compiled under DBG alone, and assertions, are
-- left out. The ledger is compiled always, and called in a checked build. What an allocator
-- returns is an argument. A context function is a function on the state of the client of the
-- table, and the contexts in a table are not NULL. Of the calls of the kernel, the ones that
-- raise or lower the interrupt level do that, an event is a flag, and others that only wait do
-- nothing.
--
-- Not modelled: the drivers themselves (o_filter, o_hooker) and the rest of the core driver,
-- which are calls of the kernel on its own structures for the most part, and the worker threads
-- that process the work items.
pub mod Base
pub mod RwLock
pub mod RemoveLock
pub mod Object
pub mod Hash
pub mod QueueLock
pub mod IrpTracker
pub mod Ledger
pub mod WorkItems
pub mod Irp
pub mod CompletionHooker
pub mod IoWorker
pub mod DeviceTypes
pub mod SecurityDescriptors
pub mod DeviceTree
mod Tests
