-- ===== src/SecurityDescriptors/Checking.antt =====
-- `OcIsAccessGranted` of o_core/o_core/security_descr.c.
use windows_system_wide_filt.Base.{ℕ, ◌>>=◌, if◌then◌else◌, not, Option, none, some}
use windows_system_wide_filt.DeviceTypes.{sd_table_index_by_device_type}
use windows_system_wide_filt.SecurityDescriptors.{
  CheckRequest, Kernel, Descriptors, is_place, dereference_descriptor, descriptor_object,
}
use windows_system_wide_filt.Object.{reference_object}

module _ {D : Type 0} where
  -- What `OcIsAccessGranted` does under the lock: the object and its descriptor, if it has one; the object
  -- is referenced then.
  unfoldable pub take_descriptor :
      (index sd_type : ℕ) → Descriptors D → Option (Descriptors D × ℕ × Option D)
  take_descriptor index sd_type d = if not (is_place index sd_type) then none else (do
    let body = d.sd_objects index sd_type
    object ← descriptor_object body d
    elim object.security_descriptor [
      | none ↦ some (d, body, none)
      | some descriptor ↦ (do
        store ← reference_object body d.store
        some (record d { store = store }, body, some descriptor))
    ])

  -- What it does with the descriptor then.
  unfoldable pub check_descriptor :
      Kernel D
      → CheckRequest
      → (body : ℕ) → Option D
      → Descriptors D
      → Option (Descriptors D × CheckRequest)
  check_descriptor k request body none d =
      let index = sd_table_index_by_device_type request.device_type in
      some (d, record request { is_access_granted = d.action_for_null_sd index request.sd_type })
  check_descriptor k request body (some descriptor) d = do
    let mapping = d.generic_mapping (sd_table_index_by_device_type request.device_type)
    let desired = k.map_generic_mask request.desired_access mapping
    let checked =
        k.access_check descriptor request.subject_security_context request.subject_context_locked
          desired mapping request.access_mode
    d' ← dereference_descriptor body d
    some (
      d',
      record request {
        is_access_granted = checked.0;
        granted_access = checked.1;
        access_status = checked.2;
      },
    )

  -- `OcIsAccessGranted`, which always returns `STATUS_SUCCESS`.
  unfoldable pub is_access_granted :
      Kernel D → CheckRequest → Descriptors D → Option (Descriptors D × CheckRequest)
  is_access_granted k request d = do
    taken ← take_descriptor (sd_table_index_by_device_type request.device_type) request.sd_type d
    check_descriptor k request taken.1 taken.2 taken.0
