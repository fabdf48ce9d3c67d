-- ===== src/Tests/CompletionHooker.antt =====
-- Runs of the completion hooker, and its theorems at them.
use windows_system_wide_filt.RemoveLock.Calls.{Held, acquire_remove_lock, release_remove_lock}
use windows_system_wide_filt.WorkItems.{WorkItemList}
use windows_system_wide_filt.RemoveLock.{RemoveLock}
use windows_system_wide_filt.Base.{
  ℕ, [], arith, false, insufficient_resources, none, refl, some, success, true, ◌+◌, ◌>>=◌, ◌∷◌,
  ◌≡◌, delete_pending, erase, lookup, more_processing_required,
}
use windows_system_wide_filt.CompletionHooker.{
  Hooker, hook_completion_routine_in_current_stack, acquire_cookie_for_completion_routine,
  free_completion_context, hook_with_context, new_context, passive_level,
}
use windows_system_wide_filt.CompletionHooker.Hooking.{Connected, hook-refused_unchanged}
use windows_system_wide_filt.CompletionHooker.Completion.{
  Drivers, invoke, complete_location, continue_completion,
}
use windows_system_wide_filt.CompletionHooker.Postponing.{
  irp_completion_test_callback, call_completion_callback, can_completion_be_postponed,
  postpone_callback_in_worker_thread,
}
use windows_system_wide_filt.Irp.{Irp, StackLocation, no_control, native_routine}
use windows_system_wide_filt.CompletionHooker.Refinement.{hook-complete_refines, packet_above}
use windows_system_wide_filt.CompletionHooker.Worker.{
  test_callback-InPlace, left_to_worker, postponed-restarts,
}
use windows_system_wide_filt.CompletionHooker.Restart.{covering, marked_packet}
use windows_system_wide_filt.CompletionHooker.Postponed.{postpone-refused_marks}

-- The location of a driver that wants to know of successes only.
abbrev on_success_location : StackLocation
on_success_location = record {
  completion_routine = some (native_routine 50);
  context = 3;
  control = record no_control { pending_returned = true; invoke_on_success = true };
  device_object = 9;
}

abbrev upper_location : StackLocation
upper_location = record {
  completion_routine = none;
  context = 0;
  control = no_control;
  device_object = 8;
}

abbrev packet : Irp
packet = record {
  status = 0;
  cancel = false;
  pending_returned = false;
  current_location = 1;
  stack = on_success_location ∷ upper_location ∷ [];
}

abbrev idle_lock : RemoveLock
idle_lock = record { reference_count = 1; removed = false; remove_event = false }

abbrev empty_queue : WorkItemList Unit
empty_queue = record {
  private_list = false;
  list_head = [];
  wakeup_event = false;
  events_set = 0;
  client = tt;
}

abbrev idle : Hooker ℕ
idle = record {
  remove_lock = idle_lock;
  cookie = 7;
  connection_object = 7;
  connection_references = 1;
  contexts = [];
  events_set = [];
  waits_for = none;
  completion_threads = some empty_queue;
  irql = 0;
  irp = packet;
  client = 0;
}

-- A driver counts the calls of its routine, and `IoCompleteRequest` adds 10; the callback 6 is the
-- example.
abbrev drivers : Drivers ℕ
drivers = record {
  native = λ address device_object context irp client. (irp, client + device_object, success);
  complete_request = λ irp client. (irp, client + 10);
  callback = λ callback. irp_completion_test_callback true callback 40;
}

idle-Held : Held idle.remove_lock
idle-Held = record { positive = omega arith; room = omega arith }

idle-Connected : Connected idle
idle-Connected = record { same = refl; exists = refl; room = omega arith }

-- The hooker driver has another connection by now.
abbrev disconnected : Hooker ℕ
disconnected = record idle { connection_object = 8 }

disconnected_refused :
    hook_completion_routine_in_current_stack 6 0 (some 100) disconnected
    ≡ some (disconnected, delete_pending)
unfolding hook_completion_routine_in_current_stack hook_with_context
    acquire_cookie_for_completion_routine free_completion_context acquire_remove_lock
    release_remove_lock lookup erase
disconnected_refused = refl

hook-refused_unchanged_example : disconnected ≡ disconnected
hook-refused_unchanged_example =
    hook-refused_unchanged 6 0 (some 100) disconnected disconnected delete_pending idle-Held
      (λ e. absurd cc) disconnected_refused refl

hook-complete_refines_example :
    (do
      hook ← hook_completion_routine_in_current_stack 6 0 (some 100) idle
      complete_location (invoke drivers 1) hook.0)
    ≡ complete_location (invoke drivers 0) idle
hook-complete_refines_example =
    hook-complete_refines drivers 0 6 0 100 on_success_location idle idle-Held refl idle-Connected
      refl (λ e. absurd cc) (test_callback-InPlace drivers true 6 40 refl)

-- The packet has been hooked, and has left its location at the dispatch level.
abbrev completing : Hooker ℕ
completing = record idle {
  contexts = (100, new_context 6 0 on_success_location 7) ∷ [];
  irql = 2;
  irp = packet_above on_success_location packet;
}

completing_can : can_completion_be_postponed 100 completing ≡ some true
unfolding can_completion_be_postponed lookup
completing_can = refl

completing_there :
    lookup 100 completing.contexts
    ≡ some (covering on_success_location (new_context 6 0 on_success_location 7))
unfolding lookup
completing_there = refl

postponed-restarts_example :
    (handed : Irp) × ((do
      posted ←
          irp_completion_test_callback true 6 40
            (continue_completion drivers.complete_request (invoke drivers 0))
            100
            0
            completing
      call_completion_callback
          (λ _.
            irp_completion_test_callback true 6 40
              (continue_completion drivers.complete_request (invoke drivers 0)))
          6
          100
          0
          (record posted.0 { irql = passive_level }))
      ≡ some (
        record (left_to_worker 6 40 100 0
            (covering on_success_location (new_context 6 0 on_success_location 7))
            empty_queue
            completing) {
              irql = passive_level;
              irp = handed;
              client = 10;
              contexts = erase 100 completing.contexts;
              events_set = [];
              remove_lock = release_remove_lock idle_lock;
            },
        more_processing_required,
      ))
    × ((s' : Hooker ℕ)
        → complete_location (invoke drivers 0) (record s' { irp = handed })
          ≡ complete_location
              (invoke drivers 0)
              (record s' { irp = marked_packet on_success_location packet }))
postponed-restarts_example =
    postponed-restarts drivers.complete_request (invoke drivers 0) 6 40 100 0 packet
      on_success_location (new_context 6 0 on_success_location 7) empty_queue completing refl refl
      refl completing_can refl completing_there refl

-- No other driver has marked the packet as pending.
abbrev synchronous : Hooker ℕ
synchronous = record completing {
  irp = record (packet_above on_success_location packet) { pending_returned = false };
  irql = 1;
}

postpone-refused_marks_example :
    postpone_callback_in_worker_thread false 6 100 0
      (record { completion_event = 40; wait_for_completion = false })
      synchronous
    ≡ some (
      record synchronous { irp = record synchronous.irp { pending_returned = true } },
      some (record { completion_event = 40; wait_for_completion = false }),
      insufficient_resources,
    )
postpone-refused_marks_example =
    postpone-refused_marks 6 100 0 (record { completion_event = 40; wait_for_completion = false })
      (new_context 6 0 on_success_location 7) empty_queue synchronous refl completing_there refl
      refl
