-- ===== src/CompletionHooker/Postponed.antt =====
-- A completion of o_core/o_core/complhooker.c that a worker thread goes on with.
use windows_system_wide_filt.Irp.{Irp}
use windows_system_wide_filt.Base.{
  ℕ, Bool, [], false, if◌then◌else◌, insufficient_resources, lookup, refl, some, success, true,
  update, ◌++◌, ◌∷◌, ◌≡◌, lookup-update_self, none, sym, update-update, update_self, Option, Status,
  ap, ◌∙◌,
}
use windows_system_wide_filt.CompletionHooker.{
  Hooker, CompletionContext, WaitBlock, call_completion_callback_address,
}
use windows_system_wide_filt.CompletionHooker.Postponing.{
  prepare_completion_context_for_postponing, postpone_callback_in_worker_thread, post_callback,
}
use windows_system_wide_filt.WorkItems.Posting.{item_of, post_refused, post_three}
use windows_system_wide_filt.WorkItems.{WorkItemList}

-- The context of a postponed completion. `marked` says whether the packet had been marked as pending.
abbrev pub pended : (marked : Bool) (event : ℕ) → CompletionContext → CompletionContext
pended marked event c = record c {
  completion_pended = true;
  completion_event = if marked then c.completion_event else some event;
}

module _ {C : Type 0} where
  -- The state of a postponed completion, before it is posted.
  abbrev pub prepared : (event address : ℕ) → CompletionContext → Hooker C → Hooker C
  prepared event address c s = record s {
    contexts = update address (pended s.irp.pending_returned event c) s.contexts;
    irp = record s.irp { pending_returned = true };
  }

  prepare_at :
      (address : ℕ) (block : WaitBlock) (marked : Bool) (irp : Irp) (c : CompletionContext)
      (s : Hooker C)
      → lookup address s.contexts ≡ some c
      → prepare_completion_context_for_postponing address
          (some block)
          (record s { irp = record irp { pending_returned = marked } })
        ≡ some (
          prepared block.completion_event address c
              (record s { irp = record irp { pending_returned = marked } }),
          some (record block {
            wait_for_completion = if marked then block.wait_for_completion else true;
          }),
        )
  unfolding prepare_completion_context_for_postponing
  prepare_at address block true irp c s there = rw there refl
  prepare_at address block false irp c s there = rw there refl

  prepare-eq :
      (address : ℕ) (block : WaitBlock) (c : CompletionContext) (s : Hooker C)
      → lookup address s.contexts ≡ some c
      → prepare_completion_context_for_postponing address (some block) s
        ≡ some (
          prepared block.completion_event address c s,
          some (record block {
            wait_for_completion =
                if s.irp.pending_returned then block.wait_for_completion else true;
          }),
        )
  prepare-eq address block c s there =
      prepare_at address block s.irp.pending_returned s.irp c s there

forgotten-eq :
    (marked : Bool) (event : ℕ) (c : CompletionContext)
    → c.completion_pended ≡ false
    → c.completion_event ≡ none
    → record (pended marked event c) { completion_pended = false; completion_event = none } ≡ c
forgotten-eq marked event c at_once silent =
    λ i. record c { completion_pended = sym at_once i; completion_event = sym silent i }

module _ {C : Type 0} where
  pub postpone-queued :
      (memory : Bool) (callback address callback_context : ℕ) (block : WaitBlock) (s : Hooker C)
      {queue : WorkItemList Unit}
      → s.completion_threads ≡ some queue
      → postpone_callback_in_worker_thread memory callback address callback_context block s
        ≡ post_callback memory callback address callback_context block queue s
  unfolding postpone_callback_in_worker_thread
  postpone-queued memory callback address callback_context block s queued =
      ap
        (λ o. elim o as (λ x. Option (Hooker C × Option WaitBlock × Status)) [
          | none ↦ some (s, some block, insufficient_resources)
          | some queue ↦ post_callback memory callback address callback_context block queue s
        ])
        queued

  post-refused :
      (callback address callback_context : ℕ) (block : WaitBlock) (c : CompletionContext)
      (queue : WorkItemList Unit) (s : Hooker C)
      → lookup address s.contexts ≡ some c
      → c.completion_pended ≡ false
      → c.completion_event ≡ none
      → post_callback false callback address callback_context block queue s
        ≡ some (
          record s { irp = record s.irp { pending_returned = true } },
          some (record block { wait_for_completion = false }),
          insufficient_resources,
        )
  unfolding post_callback
  post-refused callback address callback_context block c queue s there at_once silent =
      let e = pended s.irp.pending_returned block.completion_event c in
      rw
        (
          prepare-eq address block c s there,
          post_refused,
          lookup-update_self address e c s.contexts there,
          update-update,
          forgotten-eq s.irp.pending_returned block.completion_event c at_once silent,
          update_self address c s.contexts there,
        )
        refl

  -- A callback that could not be posted leaves the packet marked. If the threads that complete packets
  -- have a queue but no memory is there for a work item, then `OcCmHkPostponeCallbackInWorkerThread`
  -- returns an error, asks for no wait, and puts everything back but for one thing: the packet says that
  -- it is pending, whether or not it did before. The context is allocated and has not been postponed.
  pub postpone-refused_marks :
      (callback address callback_context : ℕ) (block : WaitBlock) (c : CompletionContext)
      (queue : WorkItemList Unit) (s : Hooker C)
      → s.completion_threads ≡ some queue
      → lookup address s.contexts ≡ some c
      → c.completion_pended ≡ false
      → c.completion_event ≡ none
      → postpone_callback_in_worker_thread false callback address callback_context block s
        ≡ some (
          record s { irp = record s.irp { pending_returned = true } },
          some (record block { wait_for_completion = false }),
          insufficient_resources,
        )
  postpone-refused_marks callback address callback_context block c queue s queued there at_once
        silent =
      postpone-queued false callback address callback_context block s queued
      ∙ post-refused callback address callback_context block c queue s there at_once silent

  pub post-accepted :
      (callback address callback_context : ℕ) (block : WaitBlock) (c : CompletionContext)
      (queue : WorkItemList Unit) (s : Hooker C)
      → lookup address s.contexts ≡ some c
      → post_callback true callback address callback_context block queue s
        ≡ some (
          record (prepared block.completion_event address c s) {
            completion_threads = some (record queue {
              list_head =
                  queue.list_head
                  ++ item_of call_completion_callback_address
                      (callback ∷ address ∷ callback_context ∷ [])
                    ∷ [];
              wakeup_event = true;
            });
          },
          some (record block {
            wait_for_completion =
                if s.irp.pending_returned then block.wait_for_completion else true;
          }),
          success,
        )
  unfolding post_callback
  post-accepted callback address callback_context block c queue s there =
      rw (prepare-eq address block c s there, post_three) refl
