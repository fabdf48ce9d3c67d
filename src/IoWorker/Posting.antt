-- ===== src/IoWorker/Posting.antt =====
-- The call of `OcWthPostWorkItemParam3` in `OcCrIoPostponeNodeFunctionInWorkerThread` of
-- o_core/o_core/ioworkerthread.c, with the references around it.
use windows_system_wide_filt.Object.{Store}
use windows_system_wide_filt.WorkItems.{WorkItemList}
use windows_system_wide_filt.Base.{
  ℕ, Bool, ==_refl, [], false, insufficient_resources, lookup, refl, some, success, true, update,
  ◌++◌, ◌∷◌, ◌≡◌,
}
use windows_system_wide_filt.IoWorker.{
  Requests, NodeContext, node_function_address, post_node_function, set_pending_flag, tell_pended,
}
use windows_system_wide_filt.WorkItems.Posting.{post_three, item_of, post_refused}
use windows_system_wide_filt.Object.References.{Counted, reference-eq, give_back, referenced}
use windows_system_wide_filt.Irp.{Irp, mark_irp_pending}
use windows_system_wide_filt.IoWorker.Outcomes.{flagged, with_copy}

-- The queue with a request on it.
abbrev pub with_request :
    (node_function node_device_object address : ℕ) → WorkItemList Unit → WorkItemList Unit
with_request node_function node_device_object address queue = record queue {
  list_head =
      queue.list_head
      ++ item_of node_function_address (node_function ∷ node_device_object ∷ address ∷ []) ∷ [];
  wakeup_event = true;
}

module _ {S : Type 0} where
  flag-copy :
      (flag : Bool) (address : ℕ) (c : NodeContext) (store : Store S) (s : Requests S)
      → set_pending_flag flag address (with_copy address c store s)
        ≡ some (with_copy address (flagged flag c) store s)
  unfolding lookup update
  flag-copy flag address c store s = rw ==_refl refl

  pub post_node-refused :
      (node_function node_device_object address : ℕ) (context c : NodeContext) (store : Store S)
      (s : Requests S) (irp : Irp)
      → Counted 1 node_device_object store
      → mark_irp_pending s.irp ≡ some irp
      → post_node_function false node_function node_device_object address context
          (with_copy address c store s)
        ≡ some (
          with_copy address (flagged false c) store (record s { irp = irp }),
          context,
          insufficient_resources,
        )
  unfolding post_node_function
  post_node-refused node_function node_device_object address context c store s irp device marked =
      rw
        (
          flag-copy true address c store s,
          reference-eq 1 node_device_object store device,
          marked,
          post_refused,
          flag-copy false address (flagged true c)
              (referenced node_device_object device.header store) (record s { irp = irp }),
          give_back 0 node_device_object store device,
        )
        refl

  pub post_node-accepted :
      (node_function node_device_object address : ℕ) (context c : NodeContext) (store : Store S)
      (s : Requests S) (irp : Irp) (device : Counted 1 node_device_object store)
      → mark_irp_pending s.irp ≡ some irp
      → post_node_function true node_function node_device_object address context
          (with_copy address c store s)
        ≡ some (
          with_copy address
              (flagged true c)
              (referenced node_device_object device.header store)
              (record s {
                irp = irp;
                queue = with_request node_function node_device_object address s.queue;
              }),
          tell_pended context,
          success,
        )
  unfolding post_node_function
  post_node-accepted node_function node_device_object address context c store s irp device marked =
      rw
        (
          flag-copy true address c store s,
          reference-eq 1 node_device_object store device,
          marked,
          post_three,
        )
        refl
