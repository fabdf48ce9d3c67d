-- ===== src/Irp.antt =====
-- A request packet and its stack locations, as the drivers of the repository see them, with the
-- macros of the driver kit that they apply to it. An access to a location that the packet does not
-- have is a fault, `none`.
use windows_system_wide_filt.Base.{
  ℕ, Bool, List, Option, some, none, true, false, ◌>>=◌, ◌+◌, ◌-◌, if◌then◌else◌, zero, suc, ltb,
  length, get_elem?, set, is_nonneg, ◌&&◌, ◌||◌, not,
}

-- The address of a completion routine: that of the hooker, or that of another driver.
pub data Routine : Type 0 where
  hooker_completion_routine : Routine
  native_routine : (address : ℕ) → Routine

-- `Control` of a stack location, a field for each bit; the other bits together are a number.
pub record Control : Type 0 where
  pub pending_returned : Bool
  pub invoke_on_cancel : Bool
  pub invoke_on_success : Bool
  pub invoke_on_error : Bool
  pub other_flags : ℕ

abbrev pub no_control : Control
no_control = record {
  pending_returned = false;
  invoke_on_cancel = false;
  invoke_on_success = false;
  invoke_on_error = false;
  other_flags = 0;
}

pub record StackLocation : Type 0 where
  pub completion_routine : Option Routine
  pub context : ℕ
  pub control : Control
  pub device_object : ℕ

-- The locations are numbered from 1, `stack` holds them in that order. A packet whose current
-- location is beyond the last is one that has no driver left above.
pub record Irp : Type 0 where
  pub status : ℕ
  pub cancel : Bool
  pub pending_returned : Bool
  pub current_location : ℕ
  pub stack : List StackLocation

-- The stack location with a number.
abbrev pub location : ℕ → Irp → Option StackLocation
location zero irp = none
location (suc i) irp = get_elem? irp.stack i

abbrev pub put_location : ℕ → StackLocation → Irp → Irp
put_location zero l irp = irp
put_location (suc i) l irp = record irp { stack = set irp.stack i l }

-- `IoSkipCurrentIrpStackLocation`.
abbrev pub skip_current_location : Irp → Irp
skip_current_location irp = record irp { current_location = irp.current_location + 1 }

-- `IoSetNextIrpStackLocation`.
abbrev pub set_next_location : Irp → Irp
set_next_location irp = record irp { current_location = irp.current_location - 1 }

-- `IoMarkIrpPending`.
unfoldable pub mark_irp_pending : Irp → Option Irp
mark_irp_pending irp = do
  l ← location irp.current_location irp
  some (
      put_location irp.current_location
        (record l { control = record l.control { pending_returned = true } }) irp)

-- `IoSetCompletionRoutine`: the flags of the next location are those to invoke the routine alone.
unfoldable pub set_completion_routine :
    (routine : Option Routine) (context : ℕ) (on_success on_error on_cancel : Bool)
    → Irp
    → Option Irp
set_completion_routine routine context on_success on_error on_cancel irp = do
  l ← location (irp.current_location - 1) irp
  some (
      put_location (irp.current_location - 1)
        (record l {
          completion_routine = routine;
          context = context;
          control = record no_control {
            invoke_on_success = on_success;
            invoke_on_error = on_error;
            invoke_on_cancel = on_cancel;
          };
        })
        irp)

-- Mark a packet as pending if a lower driver has, unless no driver is left above.
unfoldable pub mark_pending_if_returned : Irp → Option Irp
mark_pending_if_returned irp =
    if irp.pending_returned && ltb irp.current_location (length irp.stack + 1)
    then mark_irp_pending irp
    else some irp

-- Whether a completion routine with these flags is to be called.
unfoldable pub is_invoked : Control → Irp → Bool
is_invoked c irp =
    (is_nonneg irp.status && c.invoke_on_success)
    || (not (is_nonneg irp.status) && c.invoke_on_error)
    || (irp.cancel && c.invoke_on_cancel)
