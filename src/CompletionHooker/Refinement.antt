-- ===== src/CompletionHooker/Refinement.antt =====
-- A hooked packet of o_core/o_core/complhooker.c against one that nobody hooked.
use windows_system_wide_filt.RemoveLock.Calls.{Held}
use windows_system_wide_filt.Base.{
  ℕ, Bool-cases, Option-cases, get_elem?-set_self, inl, inr, is_nonneg, none, refl, set-set, some,
  suc, true, zero, ◌+◌, ◌≡◌, ◌≢◌, false, sym, ◌>>=◌, ◌∙◌,
}
use windows_system_wide_filt.CompletionHooker.{
  Hooker, new_context, hook_completion_routine_in_current_stack,
}
use windows_system_wide_filt.CompletionHooker.InPlace.{
  answer, outcome, marked-answer, InPlace, call_hooker-InPlace,
}
use windows_system_wide_filt.Irp.{
  location, Control, Irp, StackLocation, native_routine, put_location, hooker_completion_routine,
  is_invoked, no_control,
}
use windows_system_wide_filt.CompletionHooker.Completion.{invoke, Drivers, complete_location}
use windows_system_wide_filt.CompletionHooker.Hooking.{
  framed, hooked, hooked_location, Connected, hook-eq, hook_depth-uncovered,
}

-- The packet when the location `l` has been left.
abbrev pub packet_above : StackLocation → Irp → Irp
packet_above l irp =
    record (put_location irp.current_location
      (record l { completion_routine = none; context = 0; control = no_control }) irp) {
        pending_returned = l.control.pending_returned;
        current_location = irp.current_location + 1;
      }

-- The device object of the location above.
abbrev pub device_above : StackLocation → Irp → ℕ
device_above l irp = elim (location (irp.current_location + 1) (packet_above l irp)) [
  | none ↦ 0
  | some l' ↦ l'.device_object
]

is_invoked-all :
    (c : Control) (irp : Irp)
    → is_invoked
        (record c { invoke_on_success = true; invoke_on_error = true; invoke_on_cancel = true })
        irp
      ≡ true
unfolding is_invoked
is_invoked-all c irp = elim (Bool-cases (is_nonneg irp.status)) [
  | inl e ↦ rw e refl
  | inr e ↦ rw e refl
]

module _ {C : Type 0} where
  pub complete-uncovered :
      (d : Drivers C) (n : ℕ) (l : StackLocation) (s : Hooker C)
      → location s.irp.current_location s.irp ≡ some l
      → l.completion_routine ≢ some hooker_completion_routine
      → complete_location (invoke d n) s
        ≡ answer s (
            outcome d l.completion_routine l.control
              (device_above l s.irp)
              l.context
              (packet_above l s.irp)
              s.client)
  unfolding complete_location outcome invoke
  complete-uncovered d n l s there other = elim (Option-cases l.completion_routine) [
    | inl e ↦ rw (there, e) (marked-answer (record s { irp = packet_above l s.irp }))
    | inr (native_routine a, e) ↦ elim (Bool-cases (is_invoked l.control (packet_above l s.irp))) [
      | inl called ↦ rw (there, e, called) refl
      | inr ignored ↦
          rw (there, e, ignored) (marked-answer (record s { irp = packet_above l s.irp }))
    ]
    | inr (hooker_completion_routine, e) ↦ absurd (other e)
  ]

  complete-hooked_at :
      (d : Drivers C) (n callback callback_context address i : ℕ) (irp : Irp) (l : StackLocation)
      (s : Hooker C)
      → location i irp ≡ some l
      → complete_location (invoke d n) (
          hooked callback callback_context address l 0
            (record s { irp = record irp { current_location = i } }))
        ≡ invoke d n hooker_completion_routine
            (device_above l (record irp { current_location = i }))
            address
            (framed address
              (new_context callback callback_context l s.cookie)
              (record s { irp = packet_above l (record irp { current_location = i }) }))
  unfolding complete_location
  complete-hooked_at d n callback callback_context address zero irp l s there = absurd cc
  complete-hooked_at d n callback callback_context address (suc i) irp l s there =
      rw
        (
          get_elem?-set_self irp.stack i (hooked_location address l) there,
          set-set,
          is_invoked-all l.control,
        )
        refl

  -- A hook is invisible to the driver whose completion routine it covers. If the location of the packet
  -- has a routine of another driver or none, `OcCmHkHookCompletionRoutineInCurrentStack` is granted, and
  -- the callback continues the completion in place, then to complete the hooked location ends in the
  -- state, and with the status, in which to complete the location without the hook ends: the routine is
  -- called or left out as before with the same arguments, the packet is marked pending in the same
  -- cases, a fault is a fault, and the context, the hold of the remove lock and the reference to the
  -- connection are gone. The remove lock is not being removed and it has a hold, neither its count nor
  -- that of the connection is at its end, and the hooker has a connection with this cookie.
  pub hook-complete_refines :
      (d : Drivers C) (n callback callback_context address : ℕ) (l : StackLocation) (s : Hooker C)
      → Held s.remove_lock
      → s.remove_lock.removed ≡ false
      → Connected s
      → location s.irp.current_location s.irp ≡ some l
      → l.completion_routine ≢ some hooker_completion_routine
      → InPlace d callback s.irql
      → (do
        hook ← hook_completion_routine_in_current_stack callback callback_context (some address) s
        complete_location (invoke d (suc n)) hook.0)
        ≡ complete_location (invoke d n) s
  hook-complete_refines d n callback callback_context address l s held stays connected there other
        in_place =
      let c = new_context callback callback_context l s.cookie in
      let left = record s { irp = packet_above l s.irp } in
      let granted =
        hook-eq callback callback_context address 0 l s stays connected there
          (hook_depth-uncovered l (framed address c s) other) in
      rw granted (
        complete-hooked_at d (suc n) callback callback_context address s.irp.current_location s.irp
          l s there
        ∙ call_hooker-InPlace d n (device_above l s.irp) address c left held connected.room in_place
            refl other refl refl
        ∙ sym (complete-uncovered d n l s there other))
