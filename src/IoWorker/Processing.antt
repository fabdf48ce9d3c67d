-- ===== src/IoWorker/Processing.antt =====
-- `OcCrIoNodeFunctionWR` of o_core/o_core/ioworkerthread.c, which a worker thread runs for a request. The
-- processing of the request, the driver below and the original dispatch functions are arguments.
use windows_system_wide_filt.Base.{
  ℕ, Option, Status, if◌then◌else◌, lookup, some, success, update, ◌>>=◌,
}
use windows_system_wide_filt.Object.{dereference_object}
use windows_system_wide_filt.RemoveLock.Calls.{release_remove_lock}
use windows_system_wide_filt.Irp.{Irp, skip_current_location}
use windows_system_wide_filt.IoWorker.{
  Requests, NodeContext, free_node_context_copy, call_original, return_code, return_status,
  send_irp_to_lower_dont_skip_stack, send_irp_to_lower_skip_stack,
}

-- What other parts and other drivers do to the packet and their own state:
-- `OcCrProcessIrpBasedDeviceRequest` with the completion function for the kind of the context, which may
-- change the decision, `IoCallDriver` for the driver below, and the original dispatch function.
pub record RequestDrivers (S : Type 0) : Type 0 where
  pub process_request :
      (node_function node_device_object : ℕ) → NodeContext → Irp → S → NodeContext × Irp × S
  pub call_lower_driver : Irp → S → Irp × S
  pub call_original_dispatch : Irp → S → Irp × S

module _ {S : Type 0} where
  -- Give the packet to a driver.
  abbrev pub send : (Irp → S → Irp × S) → Irp × S → Irp × S
  send driver p = driver p.0 p.1

  -- The part of `OcCrIoNodeFunctionWR` after the request has been processed: the packet goes to the next
  -- driver if the decision says so.
  unfoldable pub pass_on : RequestDrivers S → NodeContext → Irp × S → Irp × S
  pass_on d c p =
      if c.flags.pnp_filter_driver
      then elim c.pnp_filter_irp_decision [
        | return_code ↦ p
        | send_irp_to_lower_skip_stack ↦ send d.call_lower_driver (skip_current_location p.0, p.1)
        | send_irp_to_lower_dont_skip_stack ↦ send d.call_lower_driver p
      ]
      else elim c.hooked_driver_irp_decision [
        | return_status ↦ p
        | call_original ↦ send d.call_original_dispatch p
      ]

  -- `OcCrIoNodeFunctionWR`.
  unfoldable pub io_node_function :
      RequestDrivers S
      → (node_function node_device_object address : ℕ) → Requests S
      → Option (Requests S × Status)
  io_node_function d node_function node_device_object address s = do
    c ← lookup address s.contexts
    let r = d.process_request node_function node_device_object c s.irp s.store.client
    let p = pass_on d r.0 (r.1, r.2)
    store ← dereference_object node_device_object (record s.store { client = p.1 })
    freed ← free_node_context_copy address (record s {
      store = store;
      irp = p.0;
      node_lock = release_remove_lock s.node_lock;
      contexts = update address r.0 s.contexts;
    })
    some (freed, success)
