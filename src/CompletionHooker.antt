-- ===== src/CompletionHooker.antt =====
-- The completion hooker of o_core/o_core/complhooker.c, and the two functions of
-- o_hooker/o_hooker/driverhooker.c that it calls. One packet is on its way: the `Irp` of each context
-- is this packet. The address of a context stands for that of its `HookerContext`, and an access to
-- a context that is not allocated is a fault, `none`.
pub mod Completion
pub mod Postponing
pub mod Hooking
pub mod InPlace
pub mod Refinement
pub mod Postponed
pub mod Restart
pub mod Worker
use windows_system_wide_filt.Base.{
  ℕ, Bool, List, Option, Status, ◌∷◌, some, none, true, false, ◌>>=◌, ◌+◌, ◌==◌, if◌then◌else◌,
  lookup, update, erase, inc32, not, ◌||◌, ◌-◌, success, insufficient_resources, delete_pending,
  nt_success,
}
use windows_system_wide_filt.RemoveLock.{RemoveLock}
use windows_system_wide_filt.RemoveLock.Calls.{acquire_remove_lock, release_remove_lock}
use windows_system_wide_filt.WorkItems.{WorkItemList}
use windows_system_wide_filt.Irp.{
  Irp, Control, StackLocation, Routine, hooker_completion_routine, location, put_location,
  skip_current_location, set_next_location, set_completion_routine,
}

-- `OC_CMHK_CONTEXT`, with a field for each of its flags.
pub record CompletionContext : Type 0 where
  pub original_completion_routine : Option Routine
  pub original_control : Control
  pub original_context : ℕ
  pub callback : ℕ
  pub callback_context : ℕ
  pub hooker_cookie : ℕ
  pub depth : ℕ
  pub device_object : ℕ
  pub completion_event : Option ℕ
  pub native_called : Bool
  pub completion_pended : Bool
  pub irql : ℕ

-- `OC_CMHK_WAIT_BLOCK`.
pub record WaitBlock : Type 0 where
  pub completion_event : ℕ
  pub wait_for_completion : Bool

-- What the hooker works on: `Global.RemoveLock`, the cookie it was given, the hooker driver's
-- current connection object (0 for `NULL`) and the number of references to it, the contexts, the
-- events that have been set, the event that the thread waits for, the queue of the threads that
-- complete packets (`none` if there is none), the interrupt level, the packet, and the state of the
-- other drivers.
pub record Hooker (C : Type 0) : Type 0 where
  pub remove_lock : RemoveLock
  pub cookie : ℕ
  pub connection_object : ℕ
  pub connection_references : ℕ
  pub contexts : List (ℕ × CompletionContext)
  pub events_set : List ℕ
  pub waits_for : Option ℕ
  pub completion_threads : Option (WorkItemList Unit)
  pub irql : ℕ
  pub irp : Irp
  pub client : C

abbrev pub passive_level : ℕ
passive_level = 0

abbrev pub dispatch_level : ℕ
dispatch_level = 2

-- The address of `OcCmHkCallCompletionCallbackWR` in a work item.
abbrev pub call_completion_callback_address : ℕ
call_completion_callback_address = 1

module _ {C : Type 0} where
  -- `OcHoookerAcquireCookieForCompletionRoutine`. A cookie of `NULL` while there is no connection is a
  -- reference to `NULL`.
  unfoldable pub acquire_cookie_for_completion_routine :
      (cookie : ℕ) → Hooker C → Option (Hooker C × Bool)
  acquire_cookie_for_completion_routine cookie s =
      if cookie == s.connection_object
      then (if s.connection_object == 0
          then none
          else some (record s { connection_references = inc32 s.connection_references }, true))
      else some (s, false)

  -- `OcCmHkFreeCompletionContext`.
  unfoldable pub free_completion_context : ℕ → Hooker C → Option (Hooker C)
  free_completion_context address s = do
    c ← lookup address s.contexts
    some (record s {
      contexts = erase address s.contexts;
      events_set = elim c.completion_event [ none ↦ s.events_set | some e ↦ e ∷ s.events_set ];
    })

-- The flags of two controls that have no other flag in common.
abbrev pub add_control : Control → Control → Control
add_control c d = record {
  pending_returned = c.pending_returned || d.pending_returned;
  invoke_on_cancel = c.invoke_on_cancel || d.invoke_on_cancel;
  invoke_on_success = c.invoke_on_success || d.invoke_on_success;
  invoke_on_error = c.invoke_on_error || d.invoke_on_error;
  other_flags = c.other_flags + d.other_flags;
}

-- The middle block of `OcCmHkHookCompletionRoutineInCurrentStack`: the hooker's routine is set with
-- all flags, and the old flags that have nothing to do with it are added.
unfoldable pub set_hook : (address : ℕ) → Irp → Option Irp
set_hook address irp = do
  let skipped = skip_current_location irp
  old ← location (skipped.current_location - 1) skipped
  let control = record old.control {
    invoke_on_success = false;
    invoke_on_error = false;
    invoke_on_cancel = false;
  }
  hooked ← set_completion_routine (some hooker_completion_routine) address true true true skipped
  new ← location (hooked.current_location - 1) hooked
  some (
      set_next_location (
        put_location (hooked.current_location - 1)
          (record new { control = add_control new.control control }) hooked))

-- The context that the hook fills in.
abbrev pub new_context :
    (callback callback_context : ℕ) → StackLocation → (cookie : ℕ) → CompletionContext
new_context callback callback_context l cookie = record {
  original_completion_routine = l.completion_routine;
  original_control = l.control;
  original_context = l.context;
  callback = callback;
  callback_context = callback_context;
  hooker_cookie = cookie;
  depth = 0;
  device_object = 0;
  completion_event = none;
  native_called = false;
  completion_pended = false;
  irql = 0;
}

module _ {C : Type 0} where
  -- The depth of a hook over a location: one more than that of the hook that it covers.
  unfoldable pub hook_depth : StackLocation → Hooker C → Option ℕ
  hook_depth l s = elim l.completion_routine [
    | some hooker_completion_routine ↦ (do
      covered ← lookup l.context s.contexts
      some (covered.depth + 1))
    | _ ↦ some 0
  ]

  -- `OcCmHkHookCompletionRoutineInCurrentStack`, after the context has been allocated at `address`.
  unfoldable pub hook_with_context :
      (callback callback_context address : ℕ) → Hooker C → Option (Hooker C × Status)
  hook_with_context callback callback_context address s = do
    l ← location s.irp.current_location s.irp
    let c = new_context callback callback_context l s.cookie
    r ←
        acquire_cookie_for_completion_routine s.cookie
          (record s { contexts = (address, c) ∷ s.contexts })
    if not r.1
        then (do
          freed ←
              free_completion_context address
                (record r.0 { remove_lock = release_remove_lock r.0.remove_lock })
          some (freed, delete_pending))
        else (do
          irp ← set_hook address r.0.irp
          depth ← hook_depth l r.0
          some (
            record r.0 {
              irp = irp;
              contexts = update address (record c { depth = depth }) r.0.contexts;
            },
            success,
          ))

  -- `OcCmHkHookCompletionRoutineInCurrentStack`. `allocated` is the context that the allocator gives.
  unfoldable pub hook_completion_routine_in_current_stack :
      (callback callback_context : ℕ) (allocated : Option ℕ) → Hooker C → Option (Hooker C × Status)
  hook_completion_routine_in_current_stack callback callback_context allocated s =
      let r = acquire_remove_lock s.remove_lock in
      let locked = record s { remove_lock = r.0 } in
      if not (nt_success r.1) then some (locked, r.1) else elim allocated [
        | none ↦ some (record s { remove_lock = release_remove_lock r.0 }, insufficient_resources)
        | some address ↦ hook_with_context callback callback_context address locked
      ]

-- `OcCmHkGlobal`, but for what counts and lists the contexts: whether it has been initialised, and
-- whether its lookaside list exists.
pub record HookerGlobal : Type 0 where
  pub initialized : Bool
  pub lookaside_list : Bool

-- `OcCmHkInitializeCompletionHooker`.
unfoldable pub initialize_completion_hooker : HookerGlobal → HookerGlobal
initialize_completion_hooker g = record { initialized = true; lookaside_list = true }

-- `OcCmHkUninitializeCompletionHooker`.
unfoldable pub uninitialize_completion_hooker : HookerGlobal → HookerGlobal
uninitialize_completion_hooker g =
    if not g.initialized then g else record { initialized = false; lookaside_list = false }
