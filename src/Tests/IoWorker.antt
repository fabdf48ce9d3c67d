-- ===== src/Tests/IoWorker.antt =====
-- A request for a device that the caller's context refers to as well, and the theorems at it.
use windows_system_wide_filt.Object.References.{Counted}
use windows_system_wide_filt.Base.{
  ℕ, [], arith, delete_pending, erase, false, lookup, none, refl, some, success, true, update, ◌+◌,
  ◌>>=◌, ◌∷◌, ◌≡◌,
}
use windows_system_wide_filt.IoWorker.{
  Requests, NodeContext, call_original, create_node_ctx_copy, free_node_context_copy,
  postpone_node_function_in_worker_thread, send_irp_to_lower_skip_stack,
}
use windows_system_wide_filt.RemoveLock.Calls.{release_remove_lock, acquire_remove_lock}
use windows_system_wide_filt.IoWorker.Processing.{RequestDrivers, io_node_function}
use windows_system_wide_filt.Irp.{Irp, no_control, mark_irp_pending}
use windows_system_wide_filt.IoWorker.Refused.{postpone-error_exact, Postponable}
use windows_system_wide_filt.Object.{ObjectType, ObjectHeader, reference_object, dereference_object}
use windows_system_wide_filt.IoWorker.Balance.{processed, postponed-balanced}
use windows_system_wide_filt.IoWorker.Posting.{with_request}

abbrev device_type : ObjectType ℕ
device_type = record {
  ref_count = 2;
  flags = record {
    marked_for_deletion = false;
    use_std_pool_allocator = false;
    objects_in_list = false;
    zero_object_body = false;
  };
  list_head = [];
  methods = record { delete_object_method = none; delete_object_type_method = none };
  lookaside = true;
  objects_body_size = 8;
  tag = 0;
}

abbrev one_reference : ObjectHeader
one_reference = record { ref_count = 1; object_type = 1; zeroed = 0 }

abbrev pnp_context : NodeContext
pnp_context = record {
  flags = record {
    hooked_driver = false;
    pnp_filter_driver = true;
    node_pending = false;
    allocated_from_pool = false;
    device_object_referenced = false;
  };
  original_device_object = 20;
  status_code = success;
  pnp_filter_irp_decision = send_irp_to_lower_skip_stack;
  hooked_driver_irp_decision = call_original;
}

abbrev request : Requests ℕ
request = record {
  store = record {
    initialized = true;
    types = (1, device_type) ∷ [];
    objects = (20, one_reference) ∷ (30, one_reference) ∷ [];
    client = 0;
  };
  node_lock = record { reference_count = 1; removed = false; remove_event = false };
  contexts = [];
  work_item_list_object = 30;
  queue = record {
    private_list = false;
    list_head = [];
    wakeup_event = false;
    events_set = 0;
    client = tt;
  };
  irp = record {
    status = 0;
    cancel = false;
    pending_returned = false;
    current_location = 1;
    stack =
        record { completion_routine = none; context = 0; control = no_control; device_object = 9 }
        ∷ [];
  };
}

-- To process a request counts 1, the lower driver 100, the original one 1000.
abbrev counting : RequestDrivers ℕ
counting = record {
  process_request = λ node_function device c irp client. (c, irp, client + 1);
  call_lower_driver = λ irp client. (irp, client + 100);
  call_original_dispatch = λ irp client. (irp, client + 1000);
}

-- The packet, marked as pending.
abbrev marked_request : Irp
marked_request = record request.irp {
  stack =
      record {
        completion_routine = none;
        context = 0;
        control = record no_control { pending_returned = true };
        device_object = 9;
      }
      ∷ [];
}

request_counted :
    (body : ℕ)
    → lookup body request.store.objects ≡ some one_reference
    → Counted 3 body request.store
request_counted body there = record {
  header = one_reference;
  there = there;
  positive = omega arith;
  small = omega arith;
}

device_there : lookup 20 request.store.objects ≡ some one_reference
unfolding lookup
device_there = refl

queue_there : lookup 30 request.store.objects ≡ some one_reference
unfolding lookup
queue_there = refl

request_markable : mark_irp_pending request.irp ≡ some marked_request
unfolding mark_irp_pending
request_markable = refl

abbrev request_postponable : Postponable 20 pnp_context request
request_postponable = record {
  own = refl;
  original = λ e. request_counted 20 device_there;
  counted = request_counted 20 device_there;
  queued = λ e. request_counted 30 queue_there;
  other = refl;
  held = record { positive = omega arith; room = omega arith };
  marked = marked_request;
  markable = request_markable;
}

postponed-balanced_example :
    (c : NodeContext) × ((do
      posted ← postpone_node_function_in_worker_thread (some 100) true 5 20 pnp_context request
      io_node_function counting 5 20 100 posted.0)
      ≡ some (
        record request {
          queue = with_request 5 20 100 request.queue;
          irp = (processed counting 5 20 c marked_request 0).0;
          store = record request.store { client = (processed counting 5 20 c marked_request 0).1 };
        },
        success,
      ))
postponed-balanced_example =
    postponed-balanced counting 100 5 20 pnp_context request request_postponable refl refl
      (λ node_function device c irp client. (refl, refl))

-- The device is being removed.
abbrev removing_request : Requests ℕ
removing_request = record request {
  node_lock = record { reference_count = 1; removed = true; remove_event = false };
}

removing-Postponable : Postponable 20 pnp_context removing_request
removing-Postponable = record {
  own = refl;
  original = λ e. request_counted 20 device_there;
  counted = request_counted 20 device_there;
  queued = λ e. request_counted 30 queue_there;
  other = refl;
  held = record { positive = omega arith; room = omega arith };
  marked = marked_request;
  markable = request_markable;
}

-- The holder's own count is given up.
abbrev one_release_too_many : Requests ℕ
one_release_too_many = record removing_request {
  node_lock = record { reference_count = 0; removed = true; remove_event = true };
}

removing_released :
    postpone_node_function_in_worker_thread (some 100) true 5 20 pnp_context removing_request
    ≡ some (one_release_too_many, pnp_context, delete_pending)
unfolding postpone_node_function_in_worker_thread create_node_ctx_copy free_node_context_copy
    reference_object dereference_object acquire_remove_lock release_remove_lock lookup update erase
removing_released = refl

postpone-error_exact_example :
    (pnp_context ≡ pnp_context)
    × (one_release_too_many ≡ record removing_request {
      node_lock = release_remove_lock removing_request.node_lock;
      irp = removing_request.irp;
    })
postpone-error_exact_example =
    postpone-error_exact 100 true 5 20 pnp_context pnp_context removing_request one_release_too_many
      delete_pending removing-Postponable removing_released refl
