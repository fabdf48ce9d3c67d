-- ===== src/IoWorker/Balance.antt =====
-- A request that a worker thread goes on with, from `OcCrIoPostponeNodeFunctionInWorkerThread` to the end
-- of `OcCrIoNodeFunctionWR` of o_core/o_core/ioworkerthread.c.
use windows_system_wide_filt.RemoveLock.{increment}
use windows_system_wide_filt.Irp.{Irp}
use windows_system_wide_filt.Object.{ObjectHeader, Store, dereference_object}
use windows_system_wide_filt.Base.{
  ℕ, ==_refl, arith, false, lookup, refl, some, success, true, update, ◌+◌, ◌<◌, ◌==◌, ◌>>=◌, ◌^◌,
  ◌∙◌, ◌≡◌, ◌≤◌, ap, if◌then◌else◌,
}
use windows_system_wide_filt.Object.References.{referenced, dereference-referenced}
use windows_system_wide_filt.IoWorker.{
  Requests, NodeContext, free_node_context_copy, postpone_node_function_in_worker_thread,
}
use windows_system_wide_filt.IoWorker.Posting.{with_request}
use windows_system_wide_filt.IoWorker.Posted.{postpone-accepted}
use windows_system_wide_filt.RemoveLock.Calls.{release_remove_lock, release-acquired}
use windows_system_wide_filt.IoWorker.Refused.{Postponable, Copy-made}
use windows_system_wide_filt.IoWorker.Outcomes.{flagged, with_copy, free-Copy}
use windows_system_wide_filt.IoWorker.Processing.{RequestDrivers, io_node_function, pass_on}
use windows_system_wide_filt.IoWorker.Copy.{release_copy}

module _ {S : Type 0} where
  -- To process a request changes the decision and the status in its context, neither its flags nor its
  -- device.
  abbrev pub KeepsCopy : RequestDrivers S → Type 0
  KeepsCopy d =
      (node_function device : ℕ) (c : NodeContext) (irp : Irp) (client : S)
      → ((d.process_request node_function device c irp client).0.flags ≡ c.flags)
        × ((d.process_request node_function device c irp client).0.original_device_object
            ≡ c.original_device_object)

  -- What the worker thread makes of the packet and of the other parts.
  abbrev pub processed :
      RequestDrivers S → (node_function device : ℕ) → NodeContext → Irp → S → Irp × S
  processed d node_function device c irp client =
      let r = d.process_request node_function device c irp client in pass_on d r.0 (r.1, r.2)

  worker-eq :
      (d : RequestDrivers S) (node_function device address : ℕ) (c : NodeContext) (store : Store S)
      (s : Requests S) (h : ObjectHeader)
      → lookup device store.objects ≡ some h
      → 1 ≤ h.ref_count
      → h.ref_count + 1 < 2 ^ 32
      → io_node_function d node_function device address
          (with_copy address c (referenced device h store) s)
        ≡ (let p = processed d node_function device c s.irp store.client in
            do
              freed ← free_node_context_copy address (
                  with_copy address
                    (d.process_request node_function device c s.irp store.client).0
                    (record store { client = p.1 })
                    (record s { irp = p.0; node_lock = release_remove_lock s.node_lock }))
              some (freed, success))
  unfolding io_node_function lookup update
  worker-eq d node_function device address c store s h there positive small =
      let p = processed d node_function device c s.irp store.client in
      rw
        (
          ==_refl,
          dereference-referenced device h (record store { client = p.1 }) there positive small,
        )
        refl

  -- A request that is left to a worker thread costs nothing in the end. If memory is there, no removal
  -- has begun, and there is a queue, then `OcCrIoPostponeNodeFunctionInWorkerThread` posts the request,
  -- and after a worker thread has run `OcCrIoNodeFunctionWR` with what was posted, every object has the
  -- references that it had, the remove lock its count, and the copy of the context is freed: all that has
  -- changed is the queue, and what to process the request and to pass it on have done to the packet, which
  -- is marked as pending before, and to the other parts. To process a request keeps the flags and the
  -- device of its context; the other conditions are those of `Postponable`.
  pub postponed-balanced :
      (d : RequestDrivers S) (address node_function device : ℕ) (context : NodeContext)
      (s : Requests S) (ready : Postponable device context s)
      → s.node_lock.removed ≡ false
      → (s.work_item_list_object == 0) ≡ false
      → KeepsCopy d
      → (c : NodeContext) × ((do
        posted ←
            postpone_node_function_in_worker_thread
              (some address)
              true
              node_function
              device
              context
              s
        io_node_function d node_function device address posted.0)
          ≡ some (
            record s {
              queue = with_request node_function device address s.queue;
              irp = (processed d node_function device c ready.marked s.store.client).0;
              store = record s.store {
                client = (processed d node_function device c ready.marked s.store.client).1;
              };
            },
            success,
          ))
  postponed-balanced d address node_function device context s ready stays there keeps =
      let k = Copy-made address device context s ready in
      let c = flagged true k.copy in
      let counted = k.still_counted device ready.counted in
      let p = processed d node_function device c ready.marked k.store.client in
      let changed = (d.process_request node_function device c ready.marked k.store.client).0 in
      let kept = keeps node_function device c ready.marked k.store.client in
      let queue = with_request node_function device address s.queue in
      let posted = record s {
        node_lock = increment s.node_lock;
        irp = ready.marked;
        queue = queue;
      } in
      let released : release_copy changed (record k.store { client = p.1 })
          ≡ some (record s.store { client = p.1 }) =
        (λ i.
          if (kept.0 i).device_object_referenced
          then dereference_object (kept.1 i) (record k.store { client = p.1 })
          else some (record k.store { client = p.1 }))
        ∙ k.released p.1 in
      let freed =
        free-Copy address context s k changed p.1 (release_remove_lock (increment s.node_lock)) p.0
          queue (ap (λ f. f.allocated_from_pool) kept.0 ∙ k.from_pool) released in
      (
        c,
        rw
            (postpone-accepted address node_function device context s k ready.marked stays there
              ready.other (ready.queued there) ready.counted ready.markable)
            (worker-eq d node_function device address c k.store posted counted.header counted.there
                counted.positive (omega (arith, counted.small))
              ∙ rw (freed, release-acquired s.node_lock ready.held)
                  (λ i. some (
                    record s {
                      queue = queue;
                      irp = (processed d node_function device c ready.marked (k.same_client i)).0;
                      store = record s.store {
                        client =
                            (processed d node_function device c ready.marked (k.same_client i)).1;
                      };
                    },
                    success,
                  ))),
      )
