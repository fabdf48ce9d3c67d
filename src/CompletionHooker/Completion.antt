-- ===== src/CompletionHooker/Completion.antt =====
-- A hooked packet on its way up: `OcCmHkCompletionRoutine` and `OcCmHkContinueCompletion` of
-- o_core/o_core/complhooker.c, and `OcHookerCompletionRoutine` of o_hooker/o_hooker/driverhooker.c.
-- The completion routines of other drivers and `IoCompleteRequest` change the packet and the state of
-- the other drivers; both are arguments.
use windows_system_wide_filt.Base.{
  ℕ, Option, Status, none, some, true, ◌>>=◌, zero, suc, if◌then◌else◌, lookup, update, dec32,
  success, more_processing_required, run, ◌+◌,
}
use windows_system_wide_filt.RemoveLock.Calls.{release_remove_lock}
use windows_system_wide_filt.Irp.{
  Irp, Routine, hooker_completion_routine, native_routine, set_completion_routine, is_invoked,
  set_next_location, mark_pending_if_returned, no_control, location, put_location,
}
use windows_system_wide_filt.CompletionHooker.{Hooker, CompletionContext, free_completion_context}

-- What a completion routine does to the state of the hooker, and what it returns.
abbrev pub Effect : Type 0 → Type 0
Effect C = Hooker C → Option (Hooker C × Status)

-- A call of a completion routine, with the device object and the context.
abbrev pub Caller : Type 0 → Type 0
Caller C = Routine → (device_object context : ℕ) → Effect C

-- A callback of the hooker: it is given `OcCmHkContinueCompletion`, the completion context and its own
-- context.
abbrev pub Callback : Type 0 → Type 0
Callback C = (ℕ → Effect C) → (completion_context callback_context : ℕ) → Effect C

module _ {C : Type 0} where
  -- Mark the packet as pending if necessary, and return a status.
  abbrev pub return_marked : Status → Effect C
  return_marked status s = do
    irp ← mark_pending_if_returned s.irp
    some (record s { irp = irp }, status)

  -- The branch of `OcCmHkContinueCompletion` for a completion that has been pended.
  unfoldable pub restart_completion :
      (complete_request : Irp → C → Irp × C) → CompletionContext → Effect C
  restart_completion complete_request c s = do
    restored ←
        set_completion_routine c.original_completion_routine c.original_context
          c.original_control.invoke_on_success c.original_control.invoke_on_error
          c.original_control.invoke_on_cancel s.irp
    irp ← mark_pending_if_returned (set_next_location restored)
    let r = complete_request irp s.client
    some (record s { irp = r.0; client = r.1 }, more_processing_required)

  -- The branch of `OcCmHkContinueCompletion` for a completion in place.
  unfoldable pub call_native : Caller C → CompletionContext → Effect C
  call_native call c s = elim c.original_completion_routine [
    | none ↦ return_marked success s
    | some routine ↦
        if is_invoked c.original_control s.irp
        then call routine c.device_object c.original_context s
        else return_marked success s
  ]

  unfoldable pub continue_completion :
      (complete_request : Irp → C → Irp × C) → Caller C → ℕ → Effect C
  continue_completion complete_request call address s = do
    c ← lookup address s.contexts
    r ←
        if c.completion_pended
        then restart_completion complete_request c s
        else call_native call c s
    freed ← free_completion_context address r.0
    some (record freed { remove_lock = release_remove_lock freed.remove_lock }, r.1)

  -- `OcCmHkCompletionRoutine`. `run` calls a callback by its address.
  unfoldable pub call_completion_routine :
      (run : ℕ → (completion_context callback_context : ℕ) → Effect C)
      → (device_object address : ℕ) → Effect C
  call_completion_routine run device_object address s = do
    c ← lookup address s.contexts
    if c.native_called
        then return_marked success s
        else run c.callback address c.callback_context (record s {
          contexts =
              update address
                (record c { native_called = true; device_object = device_object; irql = s.irql })
                s.contexts;
        })

  -- `OcHookerCompletionRoutine`, over a client's completion routine.
  unfoldable pub call_hooker :
      (completion : (device_object context : ℕ) → Effect C) → (device_object address : ℕ) → Effect C
  call_hooker completion device_object address s = do
    c ← lookup address s.contexts
    r ← completion device_object address s
    some (record r.0 { connection_references = dec32 r.0.connection_references }, r.1)

-- The other drivers: their completion routines, `IoCompleteRequest`, and the callbacks by address.
pub record Drivers (C : Type 0) : Type 0 where
  pub native : (address device_object context : ℕ) → Irp → C → Irp × C × Status
  pub complete_request : Irp → C → Irp × C
  pub callback : ℕ → Callback C

module _ {C : Type 0} where
  -- A call of a completion routine by its address, through at most so many hooks.
  unfoldable pub invoke : Drivers C → ℕ → Caller C
  invoke d n (native_routine address) device_object context s =
      let r = d.native address device_object context s.irp s.client in
      some (record s { irp = r.0; client = r.1 }, r.2)
  invoke d zero hooker_completion_routine device_object context s = none
  invoke d (suc n) hooker_completion_routine device_object context s =
      call_hooker
        (call_completion_routine
          (λ callback. d.callback callback (continue_completion d.complete_request (invoke d n))))
        device_object context s

  -- The contract of the I/O manager for one stack location of a packet that is being completed: the
  -- packet is pending if the location says so, the location is left and cleared, and its routine is
  -- called for the outcomes it asked for, with the device object of the location above.
  unfoldable pub complete_location : Caller C → Effect C
  complete_location call s = do
    l ← location s.irp.current_location s.irp
    let above = s.irp.current_location + 1
    let left =
        record (put_location s.irp.current_location
          (record l { completion_routine = none; context = 0; control = no_control }) s.irp) {
            pending_returned = l.control.pending_returned;
            current_location = above;
          }
    let device_object : ℕ = elim (location above left) [ none ↦ 0 | some l' ↦ l'.device_object ]
    elim l.completion_routine [
      | none ↦ return_marked success (record s { irp = left })
      | some routine ↦
          if is_invoked l.control left
          then call routine device_object l.context (record s { irp = left })
          else return_marked success (record s { irp = left })
    ]
