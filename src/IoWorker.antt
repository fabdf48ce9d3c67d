-- ===== src/IoWorker.antt =====
-- Requests that a worker thread goes on with: o_core/o_core/ioworkerthread.c, with the function of
-- common/wthreads/octhreadpool.c that it takes the queue from. The device, the device that the caller's
-- context refers to and the queue are objects of the object manager. An access to a context that is not
-- allocated is a fault, `none`.
pub mod Processing
pub mod Copy
pub mod Outcomes
pub mod Posting
pub mod Posted
pub mod Balance
pub mod Refused
use windows_system_wide_filt.RemoveLock.{RemoveLock}
use windows_system_wide_filt.Base.{
  ℕ, Bool, Option, Status, List, [], erase, false, if◌then◌else◌, insufficient_resources, lookup,
  none, not, nt_success, pending, some, true, update, ◌==◌, ◌>>=◌, ◌∷◌,
}
use windows_system_wide_filt.Object.{Store, dereference_object, reference_object}
use windows_system_wide_filt.Irp.{Irp, mark_irp_pending}
use windows_system_wide_filt.RemoveLock.Calls.{acquire_remove_lock, release_remove_lock}
use windows_system_wide_filt.WorkItems.{WorkItemList, post_work_item_internal}

-- `OC_FILTER_IRP_DECISION`.
pub data PnpDecision : Type 0 where
  send_irp_to_lower_skip_stack : PnpDecision
  send_irp_to_lower_dont_skip_stack : PnpDecision
  return_code : PnpDecision

-- `OC_HOOKED_DRV_IRP_DECISION`.
pub data HookedDecision : Type 0 where
  call_original : HookedDecision
  return_status : HookedDecision

-- `OC_NODE_CTX_FLAGS`, a field for each bit that the file uses.
pub record NodeFlags : Type 0 where
  pub hooked_driver : Bool
  pub pnp_filter_driver : Bool
  pub node_pending : Bool
  pub allocated_from_pool : Bool
  pub device_object_referenced : Bool

-- `OC_NODE_CTX`, with the decisions of the two structures that extend it. The device object is 0 for
-- `NULL`.
pub record NodeContext : Type 0 where
  pub flags : NodeFlags
  pub original_device_object : ℕ
  pub status_code : Status
  pub pnp_filter_irp_decision : PnpDecision
  pub hooked_driver_irp_decision : HookedDecision

-- The store of objects, the remove lock of the device, the copies of contexts by address, the list of
-- the thread pool (0 for `NULL`) and what is on it, and the packet.
pub record Requests (S : Type 0) : Type 0 where
  pub store : Store S
  pub node_lock : RemoveLock
  pub contexts : List (ℕ × NodeContext)
  pub work_item_list_object : ℕ
  pub queue : WorkItemList Unit
  pub irp : Irp

-- The address of `OcCrIoNodeFunctionWR` in a work item.
abbrev pub node_function_address : ℕ
node_function_address = 2

-- What `OcCrIoPostponeNodeFunctionInWorkerThread` tells its caller in the caller's context.
unfoldable pub tell_pended : NodeContext → NodeContext
tell_pended context =
    let told = record context { status_code = pending } in
    if context.flags.pnp_filter_driver
    then record told { pnp_filter_irp_decision = return_code }
    else record told { hooked_driver_irp_decision = return_status }

module _ {S : Type 0} where
  -- `OcTplReferenceSharedWorkItemList`, on the pool for requests.
  unfoldable pub reference_shared_work_item_list : Requests S → Option (Requests S × ℕ)
  reference_shared_work_item_list s = if s.work_item_list_object == 0 then some (s, 0) else do
    store ← reference_object s.work_item_list_object s.store
    some (record s { store = store }, s.work_item_list_object)

  -- `OcCrCreateNodeCtxCopy`. `allocated` is the copy that the allocator gives.
  unfoldable pub create_node_ctx_copy :
      (allocated : Option ℕ) → NodeContext → Requests S → Option (Requests S × Option ℕ)
  create_node_ctx_copy none context s = some (s, none)
  create_node_ctx_copy (some address) context s =
      let copied = record context.flags { allocated_from_pool = true } in
      if context.original_device_object == 0
      then some (
        record s { contexts = (address, record context { flags = copied }) ∷ s.contexts },
        some address,
      )
      else (do
        store ← reference_object context.original_device_object s.store
        some (
          record s {
            store = store;
            contexts =
                (
                  address,
                  record context { flags = record copied { device_object_referenced = true } },
                )
                ∷ s.contexts;
          },
          some address,
        ))

  -- `OcCrFreeNodeContextCopy`.
  unfoldable pub free_node_context_copy : (address : ℕ) → Requests S → Option (Requests S)
  free_node_context_copy address s = do
    c ← lookup address s.contexts
    store ←
        if c.flags.device_object_referenced
        then dereference_object c.original_device_object s.store
        else some s.store
    if not c.flags.allocated_from_pool
        then some (record s { store = store })
        else some (record s { store = store; contexts = erase address s.contexts })

  -- Set or clear `OcNodePendingFlag` of a copy.
  abbrev pub set_pending_flag : Bool → (address : ℕ) → Requests S → Option (Requests S)
  set_pending_flag flag address s = do
    c ← lookup address s.contexts
    some (record s {
      contexts =
          update address (record c { flags = record c.flags { node_pending = flag } }) s.contexts;
    })

  -- `OcCrIoPostponeNodeFunctionInWorkerThread`, once the list has been referenced. `memory` says whether
  -- a work item can be allocated.
  unfoldable pub post_node_function :
      (memory : Bool)
      → (node_function node_device_object address : ℕ) → NodeContext
      → Requests S
      → Option (Requests S × NodeContext × Status)
  post_node_function memory node_function node_device_object address context s = do
    flagged ← set_pending_flag true address s
    store ← reference_object node_device_object flagged.store
    irp ← mark_irp_pending s.irp
    posted ←
        post_work_item_internal false node_function_address
          (node_function ∷ node_device_object ∷ address ∷ []) memory s.queue
    let s' = record flagged { store = store; irp = irp; queue = posted.0 }
    if nt_success posted.1 then some (s', tell_pended context, posted.1) else (do
      cleared ← set_pending_flag false address s'
      left ← dereference_object node_device_object cleared.store
      some (record cleared { store = left }, context, posted.1))

  -- The same, from where the lock is acquired to `__exit`.
  unfoldable pub post_with_list :
      (memory : Bool)
      → (node_function node_device_object address : ℕ) → NodeContext
      → Requests S
      → Option (Requests S × NodeContext × Status)
  post_with_list memory node_function node_device_object address context s = do
    l ← reference_shared_work_item_list s
    if l.1 == 0 then some (l.0, context, insufficient_resources) else (do
      r ← post_node_function memory node_function node_device_object address context l.0
      store ← dereference_object l.1 r.0.store
      some (record r.0 { store = store }, r.1, r.2))

  -- `OcCrIoPostponeNodeFunctionInWorkerThread`. What follows `__exit` is the same for every error, that of
  -- the remove lock included.
  unfoldable pub postpone_node_function_in_worker_thread :
      (allocated : Option ℕ) (memory : Bool)
      → (node_function node_device_object : ℕ) → NodeContext
      → Requests S
      → Option (Requests S × NodeContext × Status)
  postpone_node_function_in_worker_thread allocated memory node_function node_device_object context
        s =
      do
        copy ← create_node_ctx_copy allocated context s
        elim copy.1 [
          | none ↦ some (copy.0, context, insufficient_resources)
          | some address ↦ (do
            let lock = acquire_remove_lock copy.0.node_lock
            let locked = record copy.0 { node_lock = lock.0 }
            r ←
                if nt_success lock.1
                then post_with_list memory node_function node_device_object address context locked
                else some (locked, context, lock.1)
            if nt_success r.2 then some r else (do
              freed ←
                  free_node_context_copy address
                    (record r.0 { node_lock = release_remove_lock r.0.node_lock })
              some (freed, r.1, r.2)))
        ]
