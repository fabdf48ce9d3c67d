-- ===== src/Ledger/Failure.antt =====
-- An allocation that fails.
use windows_system_wide_filt.Base.{
  [], inc32, ◌++◌, ◌∷◌, ap, ℕ, Bool, List, ◌≡◌, some, none, false, ◌&&◌, insufficient_resources,
  Bool-cases, Option-cases, inl, inr, lookup, refl, true,
}
use windows_system_wide_filt.Ledger.{
  Ledger, reference_object_with_tag, dereference_object_with_tag, add_ref, ObjectInfo, new_info,
}

add_ref_fails :
    (file_name : List ℕ) (number_line tag : ℕ) (ref name : Bool) (info : ObjectInfo) (s : Ledger)
    → (ref && name) ≡ false
    → add_ref file_name number_line tag ref name info s ≡ (s, insufficient_resources)
unfolding add_ref
add_ref_fails file_name number_line tag false name info s fails = refl
add_ref_fails file_name number_line tag true name info s fails = rw fails refl

-- A failed call returns the ledger with the lock held.
returns_locked :
    (file_name : List ℕ) (number_line tag : ℕ) (room ref name : Bool) (s : Ledger)
    → s.locked ≡ false
    → (ref && name) ≡ false
    → (s' : Ledger) × (reference_object_with_tag file_name number_line tag room ref name s
        ≡ some (s', insufficient_resources))
      × (s'.locked ≡ true)
unfolding reference_object_with_tag
returns_locked file_name number_line tag room ref name s free fails =
    let held : Ledger = record s { locked = true } in
    let longer : Ledger = record held {
      infos = s.infos ++ (tag, new_info) ∷ [];
      ref_count = inc32 s.ref_count;
    } in
    let fails_for = add_ref_fails file_name number_line tag ref name in
    elim (Option-cases (lookup tag s.infos)) [
      | inl out ↦ elim (Bool-cases room) [
        | inl r ↦ (longer, rw (free, out, r) (ap some (fails_for new_info longer fails)), refl)
        | inr r ↦ (held, rw (free, out, r) refl, refl)
      ]
      | inr (info, there) ↦ (held, rw (free, there) (ap some (fails_for info held fails)), refl)
    ]

-- A failure blocks the ledger: if the allocation of a reference or of its file name fails,
-- `CrReferenceObjectWithTag` returns an error and holds the spin lock; after that no call of it and
-- none of `CrObDereferenceObjectWithTag`, for whatever tag and memory, comes to an end.
pub failure_blocks :
    (file_name file_name' : List ℕ) (number_line number_line' tag tag' : ℕ)
    (room ref name room' ref' name' : Bool) (s : Ledger)
    → s.locked ≡ false
    → (ref && name) ≡ false
    → (s' : Ledger) × (reference_object_with_tag file_name number_line tag room ref name s
        ≡ some (s', insufficient_resources))
      × (dereference_object_with_tag tag' s' ≡ none)
      × (reference_object_with_tag file_name' number_line' tag' room' ref' name' s' ≡ none)
unfolding reference_object_with_tag dereference_object_with_tag
failure_blocks file_name file_name' number_line number_line' tag tag' room ref name room' ref' name'
      s free fails =
    let (s', e, locked) = returns_locked file_name number_line tag room ref name s free fails in
    (s', e, rw locked refl, rw locked refl)
