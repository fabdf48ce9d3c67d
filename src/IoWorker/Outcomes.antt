-- ===== src/IoWorker/Outcomes.antt =====
-- What `OcCrIoPostponeNodeFunctionInWorkerThread` of o_core/o_core/ioworkerthread.c comes to.
use windows_system_wide_filt.WorkItems.{WorkItemList}
use windows_system_wide_filt.Irp.{Irp}
use windows_system_wide_filt.RemoveLock.{RemoveLock, increment}
use windows_system_wide_filt.Object.{Store}
use windows_system_wide_filt.Base.{
  ℕ, Bool, ==_refl, erase-cons_self, lookup, refl, some, true, ◌∷◌, ◌≡◌, Status, delete_pending,
  false, if◌then◌else◌, insufficient_resources, nt_success, ◌==◌, ◌>>=◌, ◌∙◌,
}
use windows_system_wide_filt.IoWorker.{
  Requests, NodeContext, free_node_context_copy, post_with_list,
  postpone_node_function_in_worker_thread, reference_shared_work_item_list,
}
use windows_system_wide_filt.IoWorker.Copy.{Copy, release_copy}
use windows_system_wide_filt.RemoveLock.Calls.{
  Held, release-acquired, release_remove_lock, acquire-refused, acquire-granted,
}

-- The copy with its pending flag.
abbrev pub flagged : Bool → NodeContext → NodeContext
flagged flag c = record c { flags = record c.flags { node_pending = flag } }

module _ {S : Type 0} where
  -- The requests with a copy.
  abbrev pub with_copy : (address : ℕ) → NodeContext → Store S → Requests S → Requests S
  with_copy address c store s = record s { store = store; contexts = (address, c) ∷ s.contexts }

  -- The end of a copy, whatever its pending flag.
  pub free-Copy :
      (address : ℕ) (context : NodeContext) (s : Requests S) (k : Copy address context s)
      (c : NodeContext) (client : S) (lock : RemoveLock) (irp : Irp) (queue : WorkItemList Unit)
      → c.flags.allocated_from_pool ≡ true
      → release_copy c (record k.store { client = client })
        ≡ some (record s.store { client = client })
      → free_node_context_copy address (
          with_copy address c
            (record k.store { client = client })
            (record s { node_lock = lock; irp = irp; queue = queue }))
        ≡ some (record s {
          node_lock = lock;
          irp = irp;
          queue = queue;
          store = record s.store { client = client };
        })
  unfolding free_node_context_copy lookup
  free-Copy address context s k c client lock irp queue from_pool released =
      rw (==_refl, released, from_pool, erase-cons_self) refl

  same_store :
      {address : ℕ} {context : NodeContext} (s : Requests S) (k : Copy address context s)
      → record s.store { client = k.store.client } ≡ s.store
  same_store s k = λ i. record s.store { client = k.same_client i }

  -- The end of the copy, after an error.
  pub give_up :
      (address : ℕ) (context : NodeContext) (s : Requests S) (k : Copy address context s)
      (c : NodeContext) (lock : RemoveLock) (irp : Irp)
      → c.flags.allocated_from_pool ≡ true
      → c.flags.device_object_referenced ≡ k.copy.flags.device_object_referenced
      → c.original_device_object ≡ k.copy.original_device_object
      → free_node_context_copy address
          (with_copy address c k.store (record s { node_lock = lock; irp = irp }))
        ≡ some (record s { node_lock = lock; irp = irp })
  give_up address context s k c lock irp from_pool same_flag same_device =
      let released : release_copy c k.store ≡ some (record s.store { client = k.store.client }) =
        rw (same_flag, same_device) (k.released k.store.client) in
      free-Copy address context s k c k.store.client lock irp s.queue from_pool released
      ∙ (λ i. some (record s { node_lock = lock; irp = irp; store = same_store s k i }))

  pub postpone-removed :
      (address : ℕ) (memory : Bool) (node_function node_device_object : ℕ) (context : NodeContext)
      (s : Requests S) (k : Copy address context s)
      → Held s.node_lock
      → s.node_lock.removed ≡ true
      → postpone_node_function_in_worker_thread
          (some address)
          memory
          node_function
          node_device_object
          context
          s
        ≡ some (record s { node_lock = release_remove_lock s.node_lock }, context, delete_pending)
  unfolding postpone_node_function_in_worker_thread
  postpone-removed address memory node_function node_device_object context s k held doomed =
      let ended =
        give_up address context s k k.copy (release_remove_lock s.node_lock) s.irp k.from_pool refl
          refl in
      rw (k.created, acquire-refused s.node_lock held doomed, ended) refl

  -- What follows once the lock is held.
  pub postpone-granted :
      (address : ℕ) (memory : Bool) (node_function node_device_object : ℕ) (context : NodeContext)
      (s : Requests S) (k : Copy address context s) {r : Requests S × NodeContext × Status}
      → s.node_lock.removed ≡ false
      → post_with_list memory node_function node_device_object address context
          (with_copy address k.copy k.store (record s { node_lock = increment s.node_lock }))
        ≡ some r
      → postpone_node_function_in_worker_thread
          (some address)
          memory
          node_function
          node_device_object
          context
          s
        ≡ (if nt_success r.2 then some r else (do
          freed ←
              free_node_context_copy address
                (record r.0 { node_lock = release_remove_lock r.0.node_lock })
          some (freed, r.1, r.2)))
  unfolding postpone_node_function_in_worker_thread
  postpone-granted address memory node_function node_device_object context s k stays posted =
      rw (k.created, acquire-granted s.node_lock stays, posted) refl

  pub postpone-no_list :
      (address : ℕ) (memory : Bool) (node_function node_device_object : ℕ) (context : NodeContext)
      (s : Requests S) (k : Copy address context s)
      → Held s.node_lock
      → s.node_lock.removed ≡ false
      → (s.work_item_list_object == 0) ≡ true
      → postpone_node_function_in_worker_thread
          (some address)
          memory
          node_function
          node_device_object
          context
          s
        ≡ some (s, context, insufficient_resources)
  unfolding post_with_list reference_shared_work_item_list
  postpone-no_list address memory node_function node_device_object context s k held stays null =
      let ended =
        give_up address context s k k.copy (release_remove_lock (increment s.node_lock)) s.irp
          k.from_pool refl refl in
      let listless : post_with_list memory node_function node_device_object address context
            (with_copy address k.copy k.store (record s { node_lock = increment s.node_lock }))
          ≡ some (
            with_copy address k.copy k.store (record s { node_lock = increment s.node_lock }),
            context,
            insufficient_resources,
          ) =
        rw null refl in
      postpone-granted address memory node_function node_device_object context s k stays listless
      ∙ rw (ended, release-acquired s.node_lock held) refl
