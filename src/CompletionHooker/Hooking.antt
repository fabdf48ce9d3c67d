-- ===== src/CompletionHooker/Hooking.antt =====
-- What `OcCmHkHookCompletionRoutineInCurrentStack` of o_core/o_core/complhooker.c leaves behind.
use windows_system_wide_filt.RemoveLock.{increment}
use windows_system_wide_filt.Base.{
  ℕ, some, true, ◌≡◌, ◌+◌, ◌-◌, zero, suc, arith, get_elem?-set_self, set-set, Option-cases, false,
  inc32, inl, inr, refl, success, update, ◌<◌, ◌==◌, ◌^◌, ◌∷◌, ◌≢◌, ==_refl, Status, erase, lookup,
  Bool-cases, Option, delete_pending, none, nt_success, ap, insufficient_resources, ◌∙◌,
}
use windows_system_wide_filt.Irp.{
  Irp, StackLocation, hooker_completion_routine, location, put_location, set_completion_routine,
  native_routine,
}
use windows_system_wide_filt.CompletionHooker.{
  set_hook, Hooker, acquire_cookie_for_completion_routine, hook_completion_routine_in_current_stack,
  hook_depth, hook_with_context, new_context, CompletionContext, free_completion_context,
}
use windows_system_wide_filt.RemoveLock.Calls.{
  acquire-granted, Held, release-acquired, acquire-refused,
}

-- The location that the hook writes over `l`.
abbrev pub hooked_location : (address : ℕ) → StackLocation → StackLocation
hooked_location address l = record l {
  completion_routine = some hooker_completion_routine;
  context = address;
  control = record l.control {
    invoke_on_success = true;
    invoke_on_error = true;
    invoke_on_cancel = true;
  };
}

set_hook-at :
    (address n : ℕ) (irp : Irp) (l : StackLocation)
    → location n irp ≡ some l
    → set_hook address (record irp { current_location = n })
      ≡ some (put_location n (hooked_location address l) (record irp { current_location = n }))
unfolding set_hook set_completion_routine
set_hook-at address zero irp l there = absurd cc
set_hook-at address (suc i) irp l there =
    let back : suc i + 1 - 1 ≡ suc i = omega arith in
    let none_lost : 0 + l.control.other_flags ≡ l.control.other_flags = omega arith in
    rw (back, there)
      (rw (back, get_elem?-set_self irp.stack i _ there, back, set-set, none_lost) refl)

pub set_hook-eq :
    (address : ℕ) (irp : Irp) (l : StackLocation)
    → location irp.current_location irp ≡ some l
    → set_hook address irp
      ≡ some (put_location irp.current_location (hooked_location address l) irp)
set_hook-eq address irp l there = set_hook-at address irp.current_location irp l there

same_state :
    {S : Type 0} {m : Option (S × Status)} {s s' : S} {status status' : Status}
    → m ≡ some (s, status)
    → m ≡ some (s', status')
    → s' ≡ s
same_state e e' = cc

same_status :
    {S : Type 0} {m : Option (S × Status)} {s s' : S} {status status' : Status}
    → m ≡ some (s, status)
    → m ≡ some (s', status')
    → status ≡ status'
same_status e e' = cc

module _ {C : Type 0} where
  -- The hooker driver has given out the cookie, and may refer to its connection once more.
  pub record Connected (s : Hooker C) : Type 0 where
    pub same : (s.cookie == s.connection_object) ≡ true
    pub exists : (s.connection_object == 0) ≡ false
    pub room : s.connection_references + 1 < 2 ^ 32

  -- What a hook without a cover leaves behind.
  abbrev pub hooked :
      (callback callback_context address : ℕ) (l : StackLocation) (depth : ℕ) → Hooker C → Hooker C
  hooked callback callback_context address l depth s = record s {
    remove_lock = increment s.remove_lock;
    connection_references = inc32 s.connection_references;
    contexts =
        (address, record (new_context callback callback_context l s.cookie) { depth = depth })
        ∷ s.contexts;
    irp = put_location s.irp.current_location (hooked_location address l) s.irp;
  }

  pub hook_depth-uncovered :
      (l : StackLocation) (s : Hooker C)
      → l.completion_routine ≢ some hooker_completion_routine
      → hook_depth l s ≡ some 0
  unfolding hook_depth
  hook_depth-uncovered l s other = elim (Option-cases l.completion_routine) [
    | inl e ↦ rw e refl
    | inr (native_routine a, e) ↦ rw e refl
    | inr (hooker_completion_routine, e) ↦ absurd (other e)
  ]

  -- The state with a context, its hold of the remove lock and its reference to the connection.
  abbrev pub framed : (address : ℕ) (c : CompletionContext) → Hooker C → Hooker C
  framed address c s = record s {
    remove_lock = increment s.remove_lock;
    connection_references = inc32 s.connection_references;
    contexts = (address, c) ∷ s.contexts;
  }

  hook_with_context-eq :
      (callback callback_context address depth : ℕ) (l : StackLocation) (s : Hooker C)
      → Connected s
      → location s.irp.current_location s.irp ≡ some l
      → hook_depth l (framed address (new_context callback callback_context l s.cookie) s)
        ≡ some depth
      → hook_with_context callback callback_context address
          (record s { remove_lock = increment s.remove_lock })
        ≡ some (hooked callback callback_context address l depth s, success)
  unfolding hook_with_context acquire_cookie_for_completion_routine update
  hook_with_context-eq callback callback_context address depth l s connected there deep =
      rw (there, connected.same, connected.exists, set_hook-eq address s.irp l there, deep, ==_refl)
        refl

  pub hook-eq :
      (callback callback_context address depth : ℕ) (l : StackLocation) (s : Hooker C)
      → s.remove_lock.removed ≡ false
      → Connected s
      → location s.irp.current_location s.irp ≡ some l
      → hook_depth l (framed address (new_context callback callback_context l s.cookie) s)
        ≡ some depth
      → hook_completion_routine_in_current_stack callback callback_context (some address) s
        ≡ some (hooked callback callback_context address l depth s, success)
  unfolding hook_completion_routine_in_current_stack
  hook-eq callback callback_context address depth l s stays connected there deep =
      rw (acquire-granted s.remove_lock stays)
        (hook_with_context-eq callback callback_context address depth l s connected there deep)

  disconnected-eq :
      (callback callback_context address : ℕ) (l : StackLocation) (s : Hooker C)
      → Held s.remove_lock
      → (s.cookie == s.connection_object) ≡ false
      → location s.irp.current_location s.irp ≡ some l
      → hook_with_context callback callback_context address
          (record s { remove_lock = increment s.remove_lock })
        ≡ some (s, delete_pending)
  unfolding hook_with_context acquire_cookie_for_completion_routine free_completion_context lookup
      erase
  disconnected-eq callback callback_context address l s held other there =
      rw (there, other, ==_refl, release-acquired s.remove_lock held) refl

  beyond-fault :
      (callback callback_context address : ℕ) (s : Hooker C)
      → location s.irp.current_location s.irp ≡ none
      → hook_with_context callback callback_context address
          (record s { remove_lock = increment s.remove_lock })
        ≡ none
  unfolding hook_with_context
  beyond-fault callback callback_context address s beyond = rw beyond refl

  uncovered-fault :
      (callback callback_context address : ℕ) (l : StackLocation) (s : Hooker C)
      → Connected s
      → location s.irp.current_location s.irp ≡ some l
      → hook_depth l (framed address (new_context callback callback_context l s.cookie) s) ≡ none
      → hook_with_context callback callback_context address
          (record s { remove_lock = increment s.remove_lock })
        ≡ none
  unfolding hook_with_context acquire_cookie_for_completion_routine
  uncovered-fault callback callback_context address l s connected there deep =
      rw (there, connected.same, connected.exists, set_hook-eq address s.irp l there, deep) refl

  Connected-success :
      (callback callback_context address : ℕ) (l : StackLocation) (s s' : Hooker C)
      (status : Status)
      → Connected s
      → location s.irp.current_location s.irp ≡ some l
      → hook_with_context callback callback_context address
          (record s { remove_lock = increment s.remove_lock })
        ≡ some (s', status)
      → success ≡ status
  Connected-success callback callback_context address l s s' status connected there h =
      elim (Option-cases
        (hook_depth l (framed address (new_context callback callback_context l s.cookie) s))) [
          | inl e ↦
              let fault = uncovered-fault callback callback_context address l s connected there e in
              absurd cc
          | inr (depth, e) ↦
              same_status
                (hook_with_context-eq callback callback_context address depth l s connected there e)
                h
        ]

  -- A hook that is refused leaves nothing behind: if `OcCmHkHookCompletionRoutineInCurrentStack` returns
  -- an error, then the remove lock, the references to the connection, the contexts and the packet are
  -- what they were. The count of the remove lock is at least 1 and not at its end, and if the hooker
  -- still knows the cookie then it has a connection, with a count of references that is not at its end.
  pub hook-refused_unchanged :
      (callback callback_context : ℕ) (allocated : Option ℕ) (s s' : Hooker C) (status : Status)
      → Held s.remove_lock
      → ((s.cookie == s.connection_object) ≡ true → Connected s)
      → hook_completion_routine_in_current_stack callback callback_context allocated s
        ≡ some (s', status)
      → nt_success status ≡ false
      → s' ≡ s
  unfolding hook_completion_routine_in_current_stack
  hook-refused_unchanged callback callback_context none s s' status held connected h failed =
      elim (Bool-cases s.remove_lock.removed) [
        | inl e ↦
            same_state {status = delete_pending} (rw (acquire-refused s.remove_lock held e) refl) h
        | inr e ↦
            same_state {status = insufficient_resources}
              (rw (acquire-granted s.remove_lock e, release-acquired s.remove_lock held) refl) h
      ]
  hook-refused_unchanged callback callback_context (some address) s s' status held connected h
        failed =
      elim (Bool-cases s.remove_lock.removed) [
        | inl e ↦
            same_state {status = delete_pending} (rw (acquire-refused s.remove_lock held e) refl) h
        | inr e ↦
            let h' : hook_with_context callback callback_context address
                  (record s { remove_lock = increment s.remove_lock })
                ≡ some (s', status) =
              rw (← h, acquire-granted s.remove_lock e) refl in
            elim (Option-cases (location s.irp.current_location s.irp)) [
              | inl beyond ↦
                  let fault = beyond-fault callback callback_context address s beyond in absurd cc
              | inr (l, there) ↦ elim (Bool-cases (s.cookie == s.connection_object)) [
                | inl same ↦
                    let granted =
                      Connected-success callback callback_context address l s s' status
                        (connected same) there h' in
                    let impossible : true ≡ false = ap nt_success granted ∙ failed in absurd cc
                | inr other ↦
                    same_state
                      (disconnected-eq callback callback_context address l s held other there) h'
              ]
            ]
      ]
