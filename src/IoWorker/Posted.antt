-- ===== src/IoWorker/Posted.antt =====
-- `OcCrIoPostponeNodeFunctionInWorkerThread` of o_core/o_core/ioworkerthread.c with a queue to post to.
use windows_system_wide_filt.RemoveLock.{increment}
use windows_system_wide_filt.IoWorker.Copy.{Copy}
use windows_system_wide_filt.Object.{Store}
use windows_system_wide_filt.Base.{
  ℕ, arith, false, insufficient_resources, lookup-update_other, refl, some, success, true, ◌==◌,
  ◌∙◌, ◌≡◌,
}
use windows_system_wide_filt.Object.References.{
  referenced, Counted, give_back, give_back_under, reference-eq, referenced-Counted,
}
use windows_system_wide_filt.IoWorker.{
  Requests, NodeContext, post_with_list, postpone_node_function_in_worker_thread,
  reference_shared_work_item_list, tell_pended,
}
use windows_system_wide_filt.IoWorker.Posting.{post_node-refused, post_node-accepted, with_request}
use windows_system_wide_filt.RemoveLock.Calls.{Held, release-acquired, release_remove_lock}
use windows_system_wide_filt.Irp.{Irp, mark_irp_pending}
use windows_system_wide_filt.IoWorker.Outcomes.{postpone-granted, give_up, flagged, with_copy}

module _ {S : Type 0} where
  list_referenced :
      (address : ℕ) (c : NodeContext) (store : Store S) (s : Requests S)
      (queue : Counted 2 s.work_item_list_object store)
      → (s.work_item_list_object == 0) ≡ false
      → reference_shared_work_item_list (with_copy address c store s)
        ≡ some (
          with_copy address c (referenced s.work_item_list_object queue.header store) s,
          s.work_item_list_object,
        )
  unfolding reference_shared_work_item_list
  list_referenced address c store s queue there =
      rw (there, reference-eq 2 s.work_item_list_object store queue) refl

  post_with_list-refused :
      (node_function node_device_object address : ℕ) (context c : NodeContext) (store : Store S)
      (s : Requests S) (irp : Irp)
      → (s.work_item_list_object == 0) ≡ false
      → Counted 2 s.work_item_list_object store
      → Counted 2 node_device_object store
      → mark_irp_pending s.irp ≡ some irp
      → post_with_list false node_function node_device_object address context
          (with_copy address c store s)
        ≡ some (
          with_copy address (flagged false c) store (record s { irp = irp }),
          context,
          insufficient_resources,
        )
  unfolding post_with_list
  post_with_list-refused node_function node_device_object address context c store s irp there queue
        device marked =
      let list = s.work_item_list_object in
      let device' = referenced-Counted 1 list node_device_object store queue device in
      rw
        (
          list_referenced address c store s queue there,
          there,
          post_node-refused node_function node_device_object address context c
              (referenced list queue.header store) s irp device' marked,
          give_back 1 list store queue,
        )
        refl

  -- The device is another object than the queue, so that its header is what it was.
  abbrev device_under :
      (list device : ℕ) (store : Store S) (q : Counted 2 list store)
      → Counted 2 device store
      → (list == device) ≡ false
      → Counted 1 device (referenced list q.header store)
  device_under list device store q c ne = record {
    header = c.header;
    there = lookup-update_other list device _ store.objects ne ∙ c.there;
    positive = c.positive;
    small = omega (arith, c.small);
  }

  post_with_list-accepted :
      (node_function node_device_object address : ℕ) (context c : NodeContext) (store : Store S)
      (s : Requests S) (irp : Irp)
      → (s.work_item_list_object == 0) ≡ false
      → (s.work_item_list_object == node_device_object) ≡ false
      → Counted 2 s.work_item_list_object store
      → (device : Counted 2 node_device_object store) → mark_irp_pending s.irp ≡ some irp
      → post_with_list true node_function node_device_object address context
          (with_copy address c store s)
        ≡ some (
          with_copy address
              (flagged true c)
              (referenced node_device_object device.header store)
              (record s {
                irp = irp;
                queue = with_request node_function node_device_object address s.queue;
              }),
          tell_pended context,
          success,
        )
  unfolding post_with_list
  post_with_list-accepted node_function node_device_object address context c store s irp there other
        queue device marked =
      let list = s.work_item_list_object in
      let queue1 : Counted 1 list store = record {
        header = queue.header;
        there = queue.there;
        positive = queue.positive;
        small = omega (arith, queue.small);
      } in
      let device' = device_under list node_device_object store queue device other in
      rw
        (
          list_referenced address c store s queue there,
          there,
          post_node-accepted node_function node_device_object address context c
              (referenced list queue.header store) s irp device' marked,
          give_back_under 0 list node_device_object store queue1 device' other,
        )
        refl

  pub postpone-refused :
      (address node_function node_device_object : ℕ) (context : NodeContext) (s : Requests S)
      (k : Copy address context s) (irp : Irp)
      → Held s.node_lock
      → s.node_lock.removed ≡ false
      → (s.work_item_list_object == 0) ≡ false
      → Counted 3 s.work_item_list_object s.store
      → Counted 3 node_device_object s.store
      → mark_irp_pending s.irp ≡ some irp
      → postpone_node_function_in_worker_thread
          (some address)
          false
          node_function
          node_device_object
          context
          s
        ≡ some (record s { irp = irp }, context, insufficient_resources)
  postpone-refused address node_function node_device_object context s k irp held stays there queue
        device marked =
      let locked = record s { node_lock = increment s.node_lock } in
      let ended =
        give_up address context s k (flagged false k.copy)
          (release_remove_lock (increment s.node_lock)) irp k.from_pool refl refl in
      postpone-granted address false node_function node_device_object context s k stays (
        post_with_list-refused node_function node_device_object address context k.copy k.store
          locked irp there (k.still_counted s.work_item_list_object queue)
          (k.still_counted node_device_object device) marked)
      ∙ rw (ended, release-acquired s.node_lock held) refl

  pub postpone-accepted :
      (address node_function node_device_object : ℕ) (context : NodeContext) (s : Requests S)
      (k : Copy address context s) (irp : Irp)
      → s.node_lock.removed ≡ false
      → (s.work_item_list_object == 0) ≡ false
      → (s.work_item_list_object == node_device_object) ≡ false
      → Counted 3 s.work_item_list_object s.store
      → (device : Counted 3 node_device_object s.store) → mark_irp_pending s.irp ≡ some irp
      → postpone_node_function_in_worker_thread
          (some address)
          true
          node_function
          node_device_object
          context
          s
        ≡ some (
          with_copy address
              (flagged true k.copy)
              (referenced node_device_object
                (k.still_counted node_device_object device).header
                k.store)
              (record s {
                node_lock = increment s.node_lock;
                irp = irp;
                queue = with_request node_function node_device_object address s.queue;
              }),
          tell_pended context,
          success,
        )
  postpone-accepted address node_function node_device_object context s k irp stays there other queue
        device marked =
      postpone-granted address true node_function node_device_object context s k stays (
        post_with_list-accepted node_function node_device_object address context k.copy k.store
          (record s { node_lock = increment s.node_lock }) irp there other
          (k.still_counted s.work_item_list_object queue)
          (k.still_counted node_device_object device) marked)
