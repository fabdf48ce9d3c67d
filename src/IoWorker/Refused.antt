-- ===== src/IoWorker/Refused.antt =====
-- A request that `OcCrIoPostponeNodeFunctionInWorkerThread` of o_core/o_core/ioworkerthread.c does not
-- leave to a worker thread.
use windows_system_wide_filt.RemoveLock.{RemoveLock}
use windows_system_wide_filt.IoWorker.Copy.{Copy-device, Copy-null, Copy}
use windows_system_wide_filt.Object.References.{Counted}
use windows_system_wide_filt.Base.{
  ℕ, Bool, Status, Bool-cases, false, if_true, if◌then◌else◌, inl, inr, nt_success, some, sym, ◌==◌,
  ◌≡◌, Option, ap, delete_pending, if_false, insufficient_resources, success, true, ◌∙◌,
}
use windows_system_wide_filt.IoWorker.{
  Requests, NodeContext, postpone_node_function_in_worker_thread, tell_pended,
}
use windows_system_wide_filt.Irp.{Irp, mark_irp_pending}
use windows_system_wide_filt.RemoveLock.Calls.{Held, release_remove_lock}
use windows_system_wide_filt.IoWorker.Posted.{postpone-accepted, postpone-refused}
use windows_system_wide_filt.IoWorker.Outcomes.{postpone-removed, postpone-no_list}

module _ {S : Type 0} where
  -- What the caller owes. The context is its own, not a copy; the devices and the queue are objects with
  -- references and room for a few more, and the queue is not the device; somebody holds the remove lock,
  -- whose count is not at its end; the packet has a current location.
  pub record Postponable (device : ℕ) (context : NodeContext) (s : Requests S) : Type 0 where
    pub own : context.flags.device_object_referenced ≡ false
    pub original :
        (context.original_device_object == 0) ≡ false
        → Counted 3 context.original_device_object s.store
    pub counted : Counted 3 device s.store
    pub queued : (s.work_item_list_object == 0) ≡ false → Counted 3 s.work_item_list_object s.store
    pub other : (s.work_item_list_object == device) ≡ false
    pub held : Held s.node_lock
    pub marked : Irp
    pub markable : mark_irp_pending s.irp ≡ some marked

  pub Copy-made :
      (address device : ℕ) (context : NodeContext) (s : Requests S)
      → Postponable device context s
      → Copy address context s
  Copy-made address device context s ready =
      elim (Bool-cases (context.original_device_object == 0)) [
        | inl e ↦ Copy-null address context s ready.own e
        | inr e ↦ Copy-device address context s e (ready.original e)
      ]

  read_off :
      (lock lock' : RemoveLock) (irp irp' : Irp) (context context' : NodeContext)
      (s s' : Requests S) (status status' : Status) {m : Option (Requests S × NodeContext × Status)}
      → m ≡ some (record s { node_lock = lock; irp = irp }, context, status)
      → m ≡ some (s', context', status')
      → lock' ≡ lock
      → irp' ≡ irp
      → (context' ≡ context) × (s' ≡ record s { node_lock = lock'; irp = irp' })
  read_off lock lock' irp irp' context context' s s' status status' e h same same' =
      let state : s' ≡ record s { node_lock = lock; irp = irp } = cc in
      (cc, state ∙ (λ i. record s { node_lock = sym same i; irp = sym same' i }))

  not_success :
      (context context' : NodeContext) (s s' : Requests S) (status : Status)
      {m : Option (Requests S × NodeContext × Status)}
      → m ≡ some (s, context, success)
      → m ≡ some (s', context', status)
      → nt_success status ≡ true
  not_success context context' s s' status e h =
      let same : success ≡ status = cc in ap nt_success (sym same)

  -- Only the remove lock is off after an error, when it is the lock that failed. If
  -- `OcCrIoPostponeNodeFunctionInWorkerThread` returns an error although it got memory for the copy, then
  -- the caller's context is as it was, the copy is freed, and every object has the references that it
  -- had, and so has the remove lock if no removal has begun. The packet is as it was if a removal has begun or
  -- the pool has no list; otherwise, when no work item could be allocated, it stays marked as pending. If a
  -- removal has begun, `OcRlAcquireRemoveLock` has given its count back already and
  -- `OcRlReleaseRemoveLock` is called once more than that. The conditions are those of `Postponable`.
  pub postpone-error_exact :
      (address : ℕ) (memory : Bool) (node_function device : ℕ) (context context' : NodeContext)
      (s s' : Requests S) (status : Status)
      → (ready : Postponable device context s)
      → postpone_node_function_in_worker_thread (some address) memory node_function device context s
        ≡ some (s', context', status)
      → nt_success status ≡ false
      → (context' ≡ context)
        × (s' ≡ record s {
          node_lock = if s.node_lock.removed then release_remove_lock s.node_lock else s.node_lock;
          irp =
              if s.node_lock.removed
              then s.irp
              else (if s.work_item_list_object == 0 then s.irp else ready.marked);
        })
  postpone-error_exact address memory node_function device context context' s s' status ready h
        failed =
      let k = Copy-made address device context s ready in
      let lock = if s.node_lock.removed then release_remove_lock s.node_lock else s.node_lock in
      let unposted = if s.work_item_list_object == 0 then s.irp else ready.marked in
      let irp = if s.node_lock.removed then s.irp else unposted in
      elim (Bool-cases s.node_lock.removed) [
        | inl doomed ↦
            read_off (release_remove_lock s.node_lock) lock s.irp irp context context' s s'
              delete_pending status
              (postpone-removed address memory node_function device context s k ready.held doomed) h
              (if_true _ _ _ doomed) (if_true _ _ _ doomed)
        | inr stays ↦ elim (Bool-cases (s.work_item_list_object == 0)) [
          | inl null ↦
              read_off s.node_lock lock s.irp irp context context' s s' insufficient_resources
                status
                (postpone-no_list address memory node_function device context s k ready.held stays
                  null)
                h (if_false _ _ _ stays) (if_false _ _ _ stays ∙ if_true _ _ _ null)
          | inr there ↦ elim (Bool-cases memory) [
            | inl enough ↦
                let fine =
                  not_success (tell_pended context) context' _ s' status
                    (postpone-accepted address node_function device context s k ready.marked stays
                      there ready.other (ready.queued there) ready.counted ready.markable)
                    (rw (← enough) h) in
                absurd cc
            | inr short ↦
                read_off s.node_lock lock ready.marked irp context context' s s'
                  insufficient_resources status
                  (postpone-refused address node_function device context s k ready.marked ready.held
                    stays there (ready.queued there) ready.counted ready.markable)
                  (rw (← short) h) (if_false _ _ _ stays)
                  (if_false _ _ _ stays ∙ if_false _ _ _ there)
          ]
        ]
      ]
