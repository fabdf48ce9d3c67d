-- ===== src/CompletionHooker/Postponing.antt =====
-- Completion in a worker thread: the functions of o_core/o_core/complhooker.c that postpone a callback,
-- and the example of a callback there.
use windows_system_wide_filt.Base.{
  ℕ, Bool, Option, Status, [], ◌∷◌, none, some, true, false, ◌>>=◌, if◌then◌else◌, lookup, update,
  not, ◌&&◌, ◌==◌, success, insufficient_resources, more_processing_required, nt_success, run,
}
use windows_system_wide_filt.WorkItems.{post_work_item_internal, WorkItemList}
use windows_system_wide_filt.Irp.{Irp}
use windows_system_wide_filt.CompletionHooker.{
  Hooker, WaitBlock, passive_level, dispatch_level, call_completion_callback_address,
}
use windows_system_wide_filt.CompletionHooker.Completion.{Effect, Callback}

-- The event that a thread waits for that has postponed a callback.
abbrev pub wait_event : Option WaitBlock → Option ℕ
wait_event none = none
wait_event (some block) = if block.wait_for_completion then some block.completion_event else none

module _ {C : Type 0} where
  -- `OcCmHkGetIrpFromCompletionContext`.
  abbrev pub irp_from_completion_context : ℕ → Hooker C → Option Irp
  irp_from_completion_context address s = do c ← lookup address s.contexts; some s.irp

  -- `OcCmHkGetIrqlFromCompletionContext`.
  abbrev pub irql_from_completion_context : ℕ → Hooker C → Option ℕ
  irql_from_completion_context address s = do c ← lookup address s.contexts; some c.irql

  -- `OcCmHkCanCompletionBePostponed`.
  unfoldable pub can_completion_be_postponed : ℕ → Hooker C → Option Bool
  can_completion_be_postponed address s = do
    irql ← irql_from_completion_context address s
    irp ← irp_from_completion_context address s
    some (not ((irql == dispatch_level) && not irp.pending_returned))

  -- `OcChHkPrepareCompletionContextForPostponing`.
  unfoldable pub prepare_completion_context_for_postponing :
      ℕ → Option WaitBlock → Hooker C → Option (Hooker C × Option WaitBlock)
  prepare_completion_context_for_postponing address none s = do
    c ← lookup address s.contexts
    some (
      record s { contexts = update address (record c { completion_pended = true }) s.contexts },
      none,
    )
  prepare_completion_context_for_postponing address (some block) s = do
    c ← lookup address s.contexts
    let c' = record c { completion_pended = true }
    if s.irp.pending_returned
        then some (record s { contexts = update address c' s.contexts }, some block)
        else some (
          record s {
            contexts =
                update address (record c' { completion_event = some block.completion_event })
                  s.contexts;
            irp = record s.irp { pending_returned = true };
          },
          some (record block { wait_for_completion = true }),
        )

  -- What `OcCmHkPostponeCallbackInWorkerThread` does after a failure to post.
  abbrev pub forget_postponing : ℕ → Hooker C → Option (Hooker C)
  forget_postponing address s = do
    c ← lookup address s.contexts
    some (record s {
      contexts =
          update address (record c { completion_pended = false; completion_event = none })
            s.contexts;
    })

  -- `OcCmHkPostponeCallbackInWorkerThread`, with the queue of the threads. `memory` says whether a work
  -- item can be allocated.
  unfoldable pub post_callback :
      (memory : Bool)
      → (callback address callback_context : ℕ) → WaitBlock
      → WorkItemList Unit
      → Hooker C
      → Option (Hooker C × Option WaitBlock × Status)
  post_callback memory callback address callback_context block queue s = do
    p ← prepare_completion_context_for_postponing address (some block) s
    posted ←
        post_work_item_internal false call_completion_callback_address
          (callback ∷ address ∷ callback_context ∷ []) memory queue
    if not (nt_success posted.1)
        then (do
          s' ← forget_postponing address p.0
          some (s', some (record block { wait_for_completion = false }), insufficient_resources))
        else some (record p.0 { completion_threads = some posted.0 }, p.1, success)

  -- `OcCmHkPostponeCallbackInWorkerThread`.
  unfoldable pub postpone_callback_in_worker_thread :
      (memory : Bool)
      → (callback address callback_context : ℕ) → WaitBlock
      → Hooker C
      → Option (Hooker C × Option WaitBlock × Status)
  postpone_callback_in_worker_thread memory callback address callback_context block s =
      elim s.completion_threads [
        | none ↦ some (s, some block, insufficient_resources)
        | some queue ↦ post_callback memory callback address callback_context block queue s
      ]

  -- `OcCmHkIrpCompletionTestCallback`, up to its wait. `callback` is its own address, and `event` that
  -- of the event on its stack.
  unfoldable pub irp_completion_test_callback : (memory : Bool) → (callback event : ℕ) → Callback C
  irp_completion_test_callback memory callback event continue address callback_context s = do
    can ← can_completion_be_postponed address s
    if not (s.irql == passive_level) && can
        then (do
          r ←
              postpone_callback_in_worker_thread memory callback address callback_context
                (record { completion_event = event; wait_for_completion = false }) s
          if not (nt_success r.2)
              then continue address r.0
              else some (record r.0 { waits_for = wait_event r.1 }, more_processing_required))
        else continue address s

  -- `OcCmHkCallCompletionCallbackWR`. `run` calls a callback by its address.
  abbrev pub call_completion_callback :
      (run : ℕ → (address callback_context : ℕ) → Effect C)
      → (callback address callback_context : ℕ) → Effect C
  call_completion_callback run callback address callback_context s =
      run callback address callback_context s
