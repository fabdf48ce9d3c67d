-- ===== src/CompletionHooker/Restart.antt =====
-- The packet with which `OcCmHkContinueCompletion` of o_core/o_core/complhooker.c restarts a completion.
use windows_system_wide_filt.Base.{
  ℕ, List, [], arith, get_elem?, get_elem?-set_self, length, ltb, more_processing_required, some,
  suc, true, zero, ◌+◌, ◌-◌, ◌∷◌, ◌≡◌, Bool, Option, false, none, refl, set, set-set, ap,
  if◌then◌else◌, success, sym, ◌∙◌,
}
use windows_system_wide_filt.CompletionHooker.{Hooker, CompletionContext}
use windows_system_wide_filt.Irp.{
  location, StackLocation, Irp, set_completion_routine, mark_pending_if_returned, put_location,
  mark_irp_pending, Routine, no_control, is_invoked,
}
use windows_system_wide_filt.CompletionHooker.Completion.{
  restart_completion, Caller, complete_location, Effect, return_marked,
}
use windows_system_wide_filt.CompletionHooker.Refinement.{packet_above}

-- The location `l` of a packet that is pending, with the flags to invoke its routine alone.
abbrev pub pending_location : StackLocation → StackLocation
pending_location l = record l {
  control = record l.control { pending_returned = true; other_flags = 0 };
}

-- The packet before its location `l` was left, marked as pending.
abbrev pub restored_packet : StackLocation → Irp → Irp
restored_packet l irp =
    put_location irp.current_location (pending_location l) (record irp { pending_returned = true })

get_elem?-below :
    {A : Type 0} (xs : List A) (i : ℕ) {x : A}
    → get_elem? xs i ≡ some x
    → ltb (suc i) (length xs + 1) ≡ true
get_elem?-below [] i there = cc
get_elem?-below (x ∷ xs) zero there = ground arith
get_elem?-below (x ∷ xs) (suc i) there = ground (arith, get_elem?-below xs i there)

-- A location that is the next one is written.
set_completion_routine-next :
    (routine : Option Routine) (context : ℕ) (on_success on_error on_cancel : Bool) (i : ℕ)
    (irp : Irp) {l : StackLocation}
    → location i irp ≡ some l
    → set_completion_routine routine context on_success on_error on_cancel
        (record irp { current_location = i + 1 })
      ≡ some (
          put_location i
            (record l {
              completion_routine = routine;
              context = context;
              control = record no_control {
                invoke_on_success = on_success;
                invoke_on_error = on_error;
                invoke_on_cancel = on_cancel;
              };
            })
            (record irp { current_location = i + 1 }))
unfolding set_completion_routine
set_completion_routine-next routine context on_success on_error on_cancel zero irp there = absurd cc
set_completion_routine-next routine context on_success on_error on_cancel (suc i) irp there =
    let back : suc i + 1 - 1 ≡ suc i = omega arith in rw (back, there) refl

-- A location of the packet is marked.
mark_pending-marks :
    (i : ℕ) (irp : Irp) {l : StackLocation}
    → location i irp ≡ some l
    → mark_pending_if_returned (record irp { current_location = i; pending_returned = true })
      ≡ some (
          put_location i
            (record l { control = record l.control { pending_returned = true } })
            (record irp { current_location = i; pending_returned = true }))
unfolding mark_pending_if_returned mark_irp_pending
mark_pending-marks zero irp there = absurd cc
mark_pending-marks (suc i) irp there = rw (get_elem?-below irp.stack i there, there) refl

-- A context that covers the location `l`.
abbrev pub covering : StackLocation → CompletionContext → CompletionContext
covering l c = record c {
  original_completion_routine = l.completion_routine;
  original_context = l.context;
  original_control = l.control;
}

-- The packet with its location `l` marked as pending.
abbrev pub marked_packet : StackLocation → Irp → Irp
marked_packet l irp =
    put_location irp.current_location
      (record l { control = record l.control { pending_returned = true } }) irp

module _ {C : Type 0} where
  restart_at :
      (complete_request : Irp → C → Irp × C) (i : ℕ) (irp : Irp) (c : CompletionContext)
      (l : StackLocation) (s : Hooker C)
      → location i irp ≡ some l
      → restart_completion complete_request
          (record c {
            original_completion_routine = l.completion_routine;
            original_context = l.context;
            original_control = l.control;
          })
          (record s {
            irp = record (packet_above l (record irp { current_location = i })) {
              pending_returned = true;
            };
          })
        ≡ (let r =
              complete_request (restored_packet l (record irp { current_location = i })) s.client in
            some (record s { irp = r.0; client = r.1 }, more_processing_required))
  unfolding restart_completion
  restart_at complete_request zero irp c l s there = absurd cc
  restart_at complete_request (suc i) irp c l s there =
      let back : suc i + 1 - 1 ≡ suc i = omega arith in
      let cleared = record l { completion_routine = none; context = 0; control = no_control } in
      let written = record l {
        control = record l.control { pending_returned = false; other_flags = 0 };
      } in
      let stack1 = set irp.stack i cleared in
      let stack2 = set stack1 i written in
      let there1 : get_elem? stack1 i ≡ some cleared =
        get_elem?-set_self irp.stack i cleared there in
      let there2 : get_elem? stack2 i ≡ some written = get_elem?-set_self stack1 i written there1 in
      rw
        (
          set_completion_routine-next l.completion_routine l.context l.control.invoke_on_success
              l.control.invoke_on_error l.control.invoke_on_cancel (suc i)
              (record irp { pending_returned = true; stack = stack1 }) there1,
          back,
          mark_pending-marks (suc i) (record irp { stack = stack2 }) there2,
          set-set,
        )
        (rw set-set refl)

  pub restart-eq :
      (complete_request : Irp → C → Irp × C) (irp : Irp) (c : CompletionContext) (l : StackLocation)
      (s : Hooker C)
      → location irp.current_location irp ≡ some l
      → restart_completion complete_request
          (covering l c)
          (record s { irp = record (packet_above l irp) { pending_returned = true } })
        ≡ some (
          record s {
            irp = (complete_request (restored_packet l irp) s.client).0;
            client = (complete_request (restored_packet l irp) s.client).1;
          },
          more_processing_required,
        )
  restart-eq complete_request irp c l s there =
      restart_at complete_request irp.current_location irp c l s there

  -- What happens to a packet above the location `l`.
  abbrev leave : Caller C → StackLocation → Irp → Effect C
  leave call l left s =
      let device_object : ℕ = elim (location left.current_location left) [
        | none ↦ 0
        | some l' ↦ l'.device_object
      ] in
      elim l.completion_routine [
        | none ↦ return_marked success (record s { irp = left })
        | some routine ↦
            if is_invoked l.control left
            then call routine device_object l.context (record s { irp = left })
            else return_marked success (record s { irp = left })
      ]

  complete-leave :
      (call : Caller C) (l : StackLocation) (s : Hooker C)
      → location s.irp.current_location s.irp ≡ some l
      → complete_location call s ≡ leave call l (packet_above l s.irp) s
  unfolding complete_location
  complete-leave call l s there = rw there refl

  leave-same :
      (call : Caller C) (l : StackLocation) (left left' : Irp) (s : Hooker C)
      → left ≡ left'
      → leave call (pending_location l) left s
        ≡ leave call (record l { control = record l.control { pending_returned = true } }) left' s
  unfolding is_invoked
  leave-same call l left left' s e = ap (λ p. leave call (pending_location l) p s) e

  restored_at :
      (call : Caller C) (i : ℕ) (irp : Irp) (l : StackLocation) (s : Hooker C)
      → location i irp ≡ some l
      → complete_location call
          (record s { irp = restored_packet l (record irp { current_location = i }) })
        ≡ complete_location call
            (record s { irp = marked_packet l (record irp { current_location = i }) })
  restored_at call zero irp l s there = absurd cc
  restored_at call (suc i) irp l s there =
      let at : Irp = record irp { current_location = suc i } in
      let marked : StackLocation = record l {
        control = record l.control { pending_returned = true };
      } in
      complete-leave call (pending_location l) (record s { irp = restored_packet l at })
        (get_elem?-set_self irp.stack i (pending_location l) there)
      ∙ leave-same call l (packet_above (pending_location l) (restored_packet l at))
          (packet_above marked (marked_packet l at)) s (rw set-set (rw set-set refl))
      ∙ sym (
          complete-leave call marked (record s { irp = marked_packet l at })
            (get_elem?-set_self irp.stack i marked there))

  pub restored-completes :
      (call : Caller C) (irp : Irp) (l : StackLocation) (s : Hooker C)
      → location irp.current_location irp ≡ some l
      → complete_location call (record s { irp = restored_packet l irp })
        ≡ complete_location call (record s { irp = marked_packet l irp })
  restored-completes call irp l s there = restored_at call irp.current_location irp l s there
