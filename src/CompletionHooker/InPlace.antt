-- ===== src/CompletionHooker/InPlace.antt =====
-- What `OcCmHkContinueCompletion` and the functions that call it in o_core/o_core/complhooker.c do to a
-- packet that is completed in place.
use windows_system_wide_filt.CompletionHooker.Hooking.{framed}
use windows_system_wide_filt.Base.{
  ℕ, Option, Bool-cases, Option-cases, Status, if◌then◌else◌, inl, inr, lookup, none, some, success,
  ◌>>=◌, ◌≡◌, ◌≢◌, refl, ==_refl, erase-cons_self, false, inc32, ap, arith, dec32, suc, true,
  update, ◌+◌, ◌<◌, ◌^◌, ◌∙◌, run, if_false,
}
use windows_system_wide_filt.CompletionHooker.{Hooker, CompletionContext, free_completion_context}
use windows_system_wide_filt.Irp.{
  mark_pending_if_returned, native_routine, is_invoked, hooker_completion_routine, Control, Irp,
  Routine,
}
use windows_system_wide_filt.CompletionHooker.Completion.{
  call_native, Drivers, Effect, invoke, return_marked, continue_completion, Caller,
  call_completion_routine, call_hooker, restart_completion,
}
use windows_system_wide_filt.RemoveLock.Calls.{Held, release_remove_lock, release-acquired}

-- What the context says once the completion has started.
abbrev pub started : (device_object irql : ℕ) → CompletionContext → CompletionContext
started device_object irql c = record c {
  native_called = true;
  device_object = device_object;
  irql = irql;
}

module _ {C : Type 0} where
  -- What the driver of one location does to a packet on its way up and to the other drivers, without the
  -- hooker.
  unfoldable pub outcome :
      Drivers C
      → (routine : Option Routine) (control : Control) (device_object context : ℕ) → Irp
      → C
      → Option (Irp × C × Status)
  outcome d (some (native_routine address)) control device_object context irp client =
      if is_invoked control irp
      then some (d.native address device_object context irp client)
      else (do marked ← mark_pending_if_returned irp; some (marked, client, success))
  outcome d routine control device_object context irp client = do
    marked ← mark_pending_if_returned irp
    some (marked, client, success)

  -- A callback of this driver that continues a completion in place at an interrupt level.
  abbrev pub InPlace : Drivers C → (callback level : ℕ) → Type 0
  InPlace d callback level =
      (continue : ℕ → Effect C) (address callback_context : ℕ) (s : Hooker C)
      → s.irql ≡ level
      → lookup address s.contexts ≢ none
      → d.callback callback continue address callback_context s ≡ continue address s

  -- The state after a driver has changed the packet and the other drivers.
  abbrev pub answer : Hooker C → Option (Irp × C × Status) → Option (Hooker C × Status)
  answer s r = do r' ← r; some (record s { irp = r'.0; client = r'.1 }, r'.2)

  pub marked-answer :
      (s : Hooker C)
      → return_marked success s
        ≡ answer s (do marked ← mark_pending_if_returned s.irp; some (marked, s.client, success))
  marked-answer s = elim (Option-cases (mark_pending_if_returned s.irp)) [
    | inl e ↦ rw e refl
    | inr (marked, e) ↦ rw e refl
  ]

  call_native-outcome :
      (d : Drivers C) (n : ℕ) (c : CompletionContext) (s : Hooker C)
      → c.original_completion_routine ≢ some hooker_completion_routine
      → call_native (invoke d n) c s
        ≡ answer s (
            outcome d c.original_completion_routine c.original_control c.device_object
              c.original_context s.irp s.client)
  unfolding call_native outcome invoke
  call_native-outcome d n c s other = elim (Option-cases c.original_completion_routine) [
    | inl e ↦ rw e (marked-answer s)
    | inr (native_routine a, e) ↦ elim (Bool-cases (is_invoked c.original_control s.irp)) [
      | inl called ↦ rw (e, called) refl
      | inr ignored ↦ rw (e, ignored) (marked-answer s)
    ]
    | inr (hooker_completion_routine, e) ↦ absurd (other e)
  ]

  -- The end of `OcCmHkContinueCompletion`.
  abbrev pub finish : (address : ℕ) → Option (Hooker C × Status) → Option (Hooker C × Status)
  finish address r = do
    r' ← r
    freed ← free_completion_context address r'.0
    some (record freed { remove_lock = release_remove_lock freed.remove_lock }, r'.1)

  pub continue-branch :
      (complete_request : Irp → C → Irp × C) (call : Caller C) (address : ℕ) (c : CompletionContext)
      (s : Hooker C)
      → lookup address s.contexts ≡ some c
      → continue_completion complete_request call address s
        ≡ finish address (
            if c.completion_pended
            then restart_completion complete_request c s
            else call_native call c s)
  unfolding continue_completion
  continue-branch complete_request call address c s there = rw there refl

  finish-framed :
      (address : ℕ) (c : CompletionContext) (s : Hooker C) (r : Option (Irp × C × Status))
      → Held s.remove_lock
      → c.completion_event ≡ none
      → finish address (answer (framed address c s) r)
        ≡ answer (record s { connection_references = inc32 s.connection_references }) r
  unfolding free_completion_context lookup
  finish-framed address c s none held silent = refl
  finish-framed address c s (some r) held silent =
      rw (==_refl, silent, erase-cons_self, release-acquired s.remove_lock held) refl

  framed-there :
      (address : ℕ) (c : CompletionContext) (s : Hooker C)
      → lookup address (framed address c s).contexts ≡ some c
  unfolding lookup
  framed-there address c s = rw ==_refl refl

  continue-framed :
      (d : Drivers C) (n address : ℕ) (c : CompletionContext) (s : Hooker C)
      → Held s.remove_lock
      → c.original_completion_routine ≢ some hooker_completion_routine
      → c.completion_pended ≡ false
      → c.completion_event ≡ none
      → continue_completion d.complete_request (invoke d n) address (framed address c s)
        ≡ answer
            (record s { connection_references = inc32 s.connection_references })
            (outcome d c.original_completion_routine c.original_control c.device_object
              c.original_context s.irp s.client)
  unfolding lookup
  continue-framed d n address c s held other at_once silent =
      continue-branch d.complete_request (invoke d n) address c (framed address c s)
        (rw ==_refl refl)
      ∙ ap (finish address) (
          if_false c.completion_pended _ _ at_once
          ∙ call_native-outcome d n c (framed address c s) other)
      ∙ finish-framed address c s
          (outcome d c.original_completion_routine c.original_control c.device_object
            c.original_context s.irp s.client)
          held silent

  release_connection :
      (s : Hooker C) (r : Option (Irp × C × Status))
      → s.connection_references + 1 < 2 ^ 32
      → (do
        r' ← answer (record s { connection_references = inc32 s.connection_references }) r
        some (record r'.0 { connection_references = dec32 r'.0.connection_references }, r'.1))
        ≡ answer s r
  release_connection s none room = refl
  release_connection s (some r) room =
      let back : dec32 (inc32 s.connection_references) ≡ s.connection_references =
        omega (arith, room) in
      rw back refl

  invoke-hooker :
      (d : Drivers C) (n device_object address : ℕ) (s : Hooker C)
      → invoke d (suc n) hooker_completion_routine device_object address s
        ≡ call_hooker
            (call_completion_routine (λ callback.
              d.callback callback (continue_completion d.complete_request (invoke d n))))
            device_object
            address
            s
  unfolding invoke
  invoke-hooker d n device_object address s = refl

  first_call :
      (run : ℕ → (completion_context callback_context : ℕ) → Effect C) (device_object address : ℕ)
      (c : CompletionContext) (s : Hooker C)
      → c.native_called ≡ false
      → call_completion_routine run device_object address (framed address c s)
        ≡ run c.callback address c.callback_context
            (framed address (started device_object s.irql c) s)
  unfolding call_completion_routine lookup update
  first_call run device_object address c s first = rw ==_refl (if_false c.native_called _ _ first)

  pub call_hooker-InPlace :
      (d : Drivers C) (n device_object address : ℕ) (c : CompletionContext) (s : Hooker C)
      → Held s.remove_lock
      → s.connection_references + 1 < 2 ^ 32
      → InPlace d c.callback s.irql
      → c.native_called ≡ false
      → c.original_completion_routine ≢ some hooker_completion_routine
      → c.completion_pended ≡ false
      → c.completion_event ≡ none
      → invoke d (suc n) hooker_completion_routine device_object address (framed address c s)
        ≡ answer s (
            outcome d c.original_completion_routine c.original_control device_object
              c.original_context s.irp s.client)
  unfolding call_hooker lookup
  call_hooker-InPlace d n device_object address c s held room in_place first other at_once silent =
      let run : ℕ → (completion_context callback_context : ℕ) → Effect C =
        λ callback. d.callback callback (continue_completion d.complete_request (invoke d n)) in
      let c' = started device_object s.irql c in
      let continued =
        first_call run device_object address c s first
        ∙ in_place (continue_completion d.complete_request (invoke d n)) address c.callback_context
            (framed address c' s) refl (λ e. let there = framed-there address c' s in cc)
        ∙ continue-framed d n address c' s held other at_once silent in
      invoke-hooker d n device_object address (framed address c s)
      ∙ rw (==_refl, continued) (release_connection s _ room)
