-- ===== src/CompletionHooker/Worker.antt =====
-- The example of a callback in o_core/o_core/complhooker.c, in the thread that completes a packet and in
-- the worker thread that it leaves it to.
use windows_system_wide_filt.Irp.{location, StackLocation, Irp}
use windows_system_wide_filt.CompletionHooker.InPlace.{InPlace, continue-branch, finish}
use windows_system_wide_filt.WorkItems.{WorkItemList}
use windows_system_wide_filt.CompletionHooker.Completion.{
  Effect, Drivers, Caller, complete_location, continue_completion, restart_completion,
}
use windows_system_wide_filt.Base.{
  ℕ, Bool, Option-cases, [], false, if◌then◌else◌, inl, inr, lookup, more_processing_required, none,
  refl, some, true, ◌++◌, ◌==◌, ◌∷◌, ◌≡◌, Option, erase, ◌>>=◌, List, Status, ap, erase-update,
  lookup-update_self, update, ◌∙◌,
}
use windows_system_wide_filt.CompletionHooker.{
  Hooker, CompletionContext, call_completion_callback_address, passive_level, WaitBlock,
  free_completion_context,
}
use windows_system_wide_filt.CompletionHooker.Postponed.{
  prepared, post-accepted, postpone-queued, pended,
}
use windows_system_wide_filt.CompletionHooker.Postponing.{
  irp_completion_test_callback, can_completion_be_postponed, call_completion_callback,
}
use windows_system_wide_filt.WorkItems.Posting.{item_of}
use windows_system_wide_filt.CompletionHooker.Restart.{
  covering, restored-completes, marked_packet, restored_packet, restart-eq,
}
use windows_system_wide_filt.RemoveLock.Calls.{release_remove_lock}
use windows_system_wide_filt.CompletionHooker.Refinement.{packet_above}

waits-eq :
    (b : Bool) (x y : Option ℕ)
    → (if (if b then false else true) then x else y) ≡ (if b then y else x)
waits-eq true x y = refl
waits-eq false x y = refl

events-eq :
    (marked : Bool) (event : ℕ) (before : Option ℕ) (events : List ℕ)
    → before ≡ none
    → (elim (if marked then before else some event) as (λ x. List ℕ) [
      | none ↦ events
      | some e ↦ e ∷ events
    ])
      ≡ (if marked then events else event ∷ events)
events-eq true event before events silent = rw silent refl
events-eq false event before events silent = refl

module _ {C : Type 0} where
  test_callback_there :
      (memory : Bool) (callback event : ℕ) (continue : ℕ → Effect C) (address callback_context : ℕ)
      (c : CompletionContext) (s : Hooker C)
      → s.irql ≡ passive_level
      → lookup address s.contexts ≡ some c
      → irp_completion_test_callback memory callback event continue address callback_context s
        ≡ continue address s
  unfolding irp_completion_test_callback can_completion_be_postponed
  test_callback_there memory callback event continue address callback_context c s low there =
      rw (there, low) refl

  -- At the passive level `OcCmHkIrpCompletionTestCallback` continues the completion in place.
  pub test_callback-InPlace :
      (d : Drivers C) (memory : Bool) (callback event : ℕ)
      → d.callback callback ≡ irp_completion_test_callback memory callback event
      → InPlace d callback passive_level
  test_callback-InPlace d memory callback event is_test continue address callback_context s low
        allocated =
      elim (Option-cases (lookup address s.contexts)) [
        | inl e ↦ absurd (allocated e)
        | inr (c, e) ↦
            rw is_test (
              test_callback_there memory callback event continue address callback_context c s low e)
      ]

  -- The state in which the thread that completes the packet leaves it to a worker thread.
  abbrev pub left_to_worker :
      (callback event address callback_context : ℕ)
      → CompletionContext
      → WorkItemList Unit
      → Hooker C
      → Hooker C
  left_to_worker callback event address callback_context c queue s =
      record (prepared event address c s) {
        completion_threads = some (record queue {
          list_head =
              queue.list_head
              ++ item_of call_completion_callback_address
                  (callback ∷ address ∷ callback_context ∷ [])
                ∷ [];
          wakeup_event = true;
        });
        waits_for = if s.irp.pending_returned then none else some event;
      }

  pub test_callback-postpones :
      (callback event : ℕ) (continue : ℕ → Effect C) (address callback_context : ℕ)
      (c : CompletionContext) (queue : WorkItemList Unit) (s : Hooker C)
      → (s.irql == passive_level) ≡ false
      → can_completion_be_postponed address s ≡ some true
      → s.completion_threads ≡ some queue
      → lookup address s.contexts ≡ some c
      → irp_completion_test_callback true callback event continue address callback_context s
        ≡ some (
          left_to_worker callback event address callback_context c queue s,
          more_processing_required,
        )
  unfolding irp_completion_test_callback
  test_callback-postpones callback event continue address callback_context c queue s high can queued
        there =
      let block : WaitBlock = record { completion_event = event; wait_for_completion = false } in
      rw
        (
          high,
          can,
          postpone-queued true callback address callback_context block s queued,
          post-accepted callback address callback_context block c queue s there,
        )
        (ap
          (λ w. some (
            record (left_to_worker callback event address callback_context c queue s) {
              waits_for = w;
            },
            more_processing_required,
          ))
          (waits-eq s.irp.pending_returned (some event) none))

  finish-freed :
      (address : ℕ) (c : CompletionContext) (s : Hooker C) (status : Status)
      → lookup address s.contexts ≡ some c
      → finish address (some (s, status))
        ≡ some (
          record s {
            contexts = erase address s.contexts;
            events_set = elim c.completion_event [
              | none ↦ s.events_set
              | some e ↦ e ∷ s.events_set
            ];
            remove_lock = release_remove_lock s.remove_lock;
          },
          status,
        )
  unfolding free_completion_context
  finish-freed address c s status there = rw there refl

  -- The worker thread, for a completion that has been prepared.
  worker-restarts :
      (complete_request : Irp → C → Irp × C) (call : Caller C) (event address : ℕ) (marked : Bool)
      (irp : Irp) (l : StackLocation) (c : CompletionContext)
      (contexts : List (ℕ × CompletionContext)) (s : Hooker C)
      → location irp.current_location irp ≡ some l
      → s.irp ≡ record (packet_above l irp) { pending_returned = true }
      → s.contexts ≡ update address (pended marked event (covering l c)) contexts
      → lookup address contexts ≡ some (covering l c)
      → c.completion_event ≡ none
      → continue_completion complete_request call address s
        ≡ some (
          record s {
            irp = (complete_request (restored_packet l irp) s.client).0;
            client = (complete_request (restored_packet l irp) s.client).1;
            contexts = erase address contexts;
            events_set = if marked then s.events_set else event ∷ s.events_set;
            remove_lock = release_remove_lock s.remove_lock;
          },
          more_processing_required,
        )
  worker-restarts complete_request call event address marked irp l c contexts s at above ready there
        silent =
      let c' = pended marked event (covering l c) in
      let there' : lookup address s.contexts ≡ some c' =
        ap (lookup address) ready ∙ lookup-update_self address c' (covering l c) contexts there in
      let after = record s {
        irp = (complete_request (restored_packet l irp) s.client).0;
        client = (complete_request (restored_packet l irp) s.client).1;
      } in
      continue-branch complete_request call address c' s there'
      ∙ ap (finish address) (
          ap (λ p. restart_completion complete_request c' (record s { irp = p })) above
          ∙ restart-eq complete_request irp (pended marked event c) l s at)
      ∙ finish-freed address c' after more_processing_required there'
      ∙ (λ i. some (
        record after {
          contexts = (ap (erase address) ready ∙ erase-update address c' contexts) i;
          events_set = events-eq marked event c.completion_event s.events_set silent i;
          remove_lock = release_remove_lock s.remove_lock;
        },
        more_processing_required,
      ))

  -- A postponed completion ends as one in place would, for a packet that is pending. The packet has left
  -- its location `l`, which the context covers; the thread is not at the passive level, and the completion
  -- can be postponed; the threads that complete packets have a queue, and memory is there. Then
  -- `OcCmHkIrpCompletionTestCallback` posts the callback, and when a worker thread runs it, a packet is
  -- handed to `IoCompleteRequest` that completes, in every state and whatever routine there is to call, as
  -- the packet before it left `l` would, if `l` is marked as pending. The context is freed once, its event
  -- is set if the first thread waits for it, and one hold of the remove lock is given up.
  pub postponed-restarts :
      (complete_request : Irp → C → Irp × C) (call : Caller C)
      (callback event address callback_context : ℕ) (irp : Irp) (l : StackLocation)
      (c : CompletionContext) (queue : WorkItemList Unit) (s : Hooker C)
      → location irp.current_location irp ≡ some l
      → s.irp ≡ packet_above l irp
      → (s.irql == passive_level) ≡ false
      → can_completion_be_postponed address s ≡ some true
      → s.completion_threads ≡ some queue
      → lookup address s.contexts ≡ some (covering l c)
      → c.completion_event ≡ none
      → (handed : Irp) × ((do
        posted ←
            irp_completion_test_callback true callback event
              (continue_completion complete_request call)
              address
              callback_context
              s
        call_completion_callback
            (λ _.
              irp_completion_test_callback true callback event
                (continue_completion complete_request call))
            callback
            address
            callback_context
            (record posted.0 { irql = passive_level }))
          ≡ some (
            record (left_to_worker callback event address callback_context (covering l c) queue s) {
              irql = passive_level;
              irp = (complete_request handed s.client).0;
              client = (complete_request handed s.client).1;
              contexts = erase address s.contexts;
              events_set = if s.irp.pending_returned then s.events_set else event ∷ s.events_set;
              remove_lock = release_remove_lock s.remove_lock;
            },
            more_processing_required,
          ))
        × ((s' : Hooker C)
            → complete_location call (record s' { irp = handed })
              ≡ complete_location call (record s' { irp = marked_packet l irp }))
  postponed-restarts complete_request call callback event address callback_context irp l c queue s
        at above high can queued there silent =
      let left = left_to_worker callback event address callback_context (covering l c) queue s in
      (
        restored_packet l irp,
        rw
            (test_callback-postpones callback event (continue_completion complete_request call)
              address callback_context (covering l c) queue s high can queued there)
            (test_callback_there true callback event (continue_completion complete_request call)
                address callback_context (pended s.irp.pending_returned event (covering l c))
                (record left { irql = passive_level }) refl
                (lookup-update_self address _ _ s.contexts there)
              ∙ worker-restarts complete_request call event address s.irp.pending_returned irp l c
                  s.contexts (record left { irql = passive_level }) at
                  (λ i. record (above i) { pending_returned = true }) refl there silent),
        λ s'. restored-completes call irp l s' at,
      )
