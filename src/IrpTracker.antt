-- ===== src/IrpTracker.antt =====
-- The IRP tracker of o_core/o_core/irp.c: the requests that are in flight, in a list of entries that
-- are allocated from a pool or lie in the request's own stack location. The list is an association
-- list from the address of an entry, from the head; each function is one step, since the list is
-- guarded by a spin lock. An access to an entry that is not on the list is a fault, `none`.
pub mod Tracking
use windows_system_wide_filt.Base.{
  ℕ, Bool, List, Option, [], ◌∷◌, some, none, lookup, erase, not, true, false, if◌then◌else◌, ◌==◌,
  ◌>>=◌, ◌+◌, ◌-◌,
}

-- `OC_IRP_TRACK_ENTRY`, with its one flag.
pub record TrackEntry : Type 0 where
  pub from_pool : Bool
  pub irp : ℕ

-- `g_IrpTrackerInitialized`, how many lookaside lists have been initialised and not deleted, how many
-- entries are allocated from them, the list, and the completion routines that are set: the request
-- and the context.
pub record IrpTracker : Type 0 where
  pub initialized : Bool
  pub lookaside_lists : ℕ
  pub allocated : ℕ
  pub list : List (ℕ × TrackEntry)
  pub routines : List (ℕ × ℕ)

-- What is returned for an entry: nothing, the entry, or the pointer that the caller cannot use.
pub data Inserted : Type 0 where
  no_entry : Inserted
  entry_at : (address : ℕ) → Inserted
  invalid_pointer : Inserted

unfoldable pub initialize_irp_tracker : IrpTracker → IrpTracker
initialize_irp_tracker s =
    if s.initialized then s else record s { lookaside_lists = s.lookaside_lists + 1; list = [] }

unfoldable pub uninitialize_irp_tracker : IrpTracker → IrpTracker
uninitialize_irp_tracker s =
    if not s.initialized
    then s
    else record s { lookaside_lists = s.lookaside_lists - 1; initialized = false }

-- `OcCrTrackerRemoveEntry`.
unfoldable pub remove_entry : ℕ → IrpTracker → Option IrpTracker
remove_entry address s = do
  e ← lookup address s.list
  let s' = record s { list = erase address s.list }
  some (if e.from_pool then record s' { allocated = s.allocated - 1 } else s')

-- `OcCrTrackerCompletionRoutine`, which the system calls when the request is completed, and takes off
-- the request. Marking the request as pending does nothing to the tracker.
unfoldable pub complete : ℕ → IrpTracker → Option IrpTracker
complete irp s = do
  address ← lookup irp s.routines
  remove_entry address (record s { routines = erase irp s.routines })

-- `OcCrInsertIrpInProcessedList`. `allocated` is what the lookaside list returns, `embedded` the
-- address of the entry in the stack location of the request.
unfoldable pub insert_irp_in_processed_list :
    ℕ → Bool → Option ℕ → ℕ → IrpTracker → IrpTracker × Inserted
insert_irp_in_processed_list irp true none embedded s = (s, no_entry)
insert_irp_in_processed_list irp true (some address) embedded s = (
  record s {
    allocated = s.allocated + 1;
    list = (address, record { from_pool = true; irp = irp }) ∷ s.list;
  },
  entry_at address,
)
insert_irp_in_processed_list irp false allocated embedded s = (
  record s {
    list = (embedded, record { from_pool = false; irp = irp }) ∷ s.list;
    routines = (irp, embedded) ∷ s.routines;
  },
  invalid_pointer,
)

-- The search of `OcCrTrackerIsIrpInList`.
unfoldable pub find_irp : ℕ → List (ℕ × TrackEntry) → Bool
find_irp irp [] = false
find_irp irp ((address, e) ∷ list) =
    let later = find_irp irp list in if e.irp == irp then true else later

unfoldable pub is_irp_in_list : ℕ → IrpTracker → Bool
is_irp_in_list irp s = find_irp irp s.list
