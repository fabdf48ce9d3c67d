-- ===== src/SecurityDescriptors.antt =====
-- The security descriptors of o_core/o_core/security_descr.c: one object for each place of the table, which
-- is read and exchanged under a lock. What the kernel says of descriptors is given. An access to an
-- object that is gone, or to a place outside the table, is a fault, `none`.
pub mod Checking
pub mod Check
pub mod Setting
pub mod Roundtrip
pub mod Refused
pub mod Bounds
pub mod Outlives
use windows_system_wide_filt.DeviceTypes.{sd_table_index_by_device_type}
use windows_system_wide_filt.DeviceTypes.Setting.{write}
use windows_system_wide_filt.Object.{Store, create_object_ex, dereference_object}
use windows_system_wide_filt.Base.{
  some, true, false, List, none, ltb, Status, Bool, ℕ, Option, erase, if◌then◌else◌,
  invalid_parameter, lookup, not, nt_success, success, ◌&&◌, ◌*◌, ◌==◌, ◌>>=◌, ◌∷◌,
}
use windows_system_wide_filt.Base.{ℕ, ◌>>=◌, ◌*◌, ◌&&◌, if◌then◌else◌, not, ◌==◌, ◌∷◌}

-- `KPROCESSOR_MODE`.
pub data AccessMode : Type 0 where
  kernel_mode : AccessMode
  user_mode : AccessMode

abbrev pub is_user_mode : AccessMode → Bool
is_user_mode kernel_mode = false
is_user_mode user_mode = true

-- The number of entries of `g_SdTable`, and of descriptors in an entry.
abbrev pub sd_table_size : ℕ
sd_table_size = 45

abbrev pub maximum_sd_type : ℕ
maximum_sd_type = 3

-- 4 * PAGE_SIZE * PAGE_SIZE.
abbrev pub greatest_buffer : ℕ
greatest_buffer = 4 * (4096 * 4096)

-- `GENERIC_MAPPING`.
pub record GenericMapping : Type 0 where
  pub generic_read : ℕ
  pub generic_write : ℕ
  pub generic_execute : ℕ
  pub generic_all : ℕ

-- `OC_CHECK_SECURITY_REQUEST`, with what its pointers point to.
pub record CheckRequest : Type 0 where
  pub sd_type : ℕ
  pub device_type : ℕ
  pub subject_security_context : ℕ
  pub subject_context_locked : Bool
  pub desired_access : ℕ
  pub access_mode : AccessMode
  pub granted_access : ℕ
  pub access_status : Status
  pub is_access_granted : Bool

-- The functions of the kernel.
pub record Kernel (D : Type 0) : Type 0 where
  pub valid_security_descriptor : D → Bool
  pub length_security_descriptor : D → ℕ
  pub map_generic_mask : ℕ → GenericMapping → ℕ
  pub access_check :
      D
      → (subject : ℕ) (locked : Bool) (desired : ℕ) → GenericMapping
      → AccessMode
      → Bool × ℕ × Status

-- The caller's memory: what the probe raises, what stands there then, what the copy raises, and what has
-- been copied.
pub record CallerBuffer (D : Type 0) : Type 0 where
  pub probe_raises : Status
  pub probed : D
  pub copy_raises : Status
  pub copied : D

-- `OC_SECURITY_DESCRIPTOR_OBJECT`.
pub record DescriptorObject (D : Type 0) : Type 0 where
  pub device_type : ℕ
  pub sd_type : ℕ
  pub sd_size : ℕ
  pub security_descriptor : Option D

-- The store with `g_OcSecurityDescriptorObjectType`, the bodies of the objects, and `g_SdTable`.
pub record Descriptors (D : Type 0) : Type 0 where
  pub store : Store Unit
  pub descriptor_type : ℕ
  pub bodies : List (ℕ × DescriptorObject D)
  pub sd_objects : ℕ → ℕ → ℕ
  pub action_for_null_sd : ℕ → ℕ → Bool
  pub generic_mapping : ℕ → GenericMapping

-- Whether an entry and a type of descriptors are places of the table.
abbrev pub is_place : (index sd_type : ℕ) → Bool
is_place index sd_type = ltb index sd_table_size && ltb sd_type maximum_sd_type

module _ {D : Type 0} where
  -- Give a reference back. The body of an object that goes, goes with it.
  unfoldable pub dereference_descriptor : (body : ℕ) → Descriptors D → Option (Descriptors D)
  dereference_descriptor body d = do
    store ← dereference_object body d.store
    some (record d {
      store = store;
      bodies = elim (lookup body store.objects) [
        | none ↦ erase body d.bodies
        | some header ↦ d.bodies
      ];
    })

  -- The body of an object.
  unfoldable pub descriptor_object : (body : ℕ) → Descriptors D → Option (DescriptorObject D)
  descriptor_object body d =
      if body == 0 then none else do header ← lookup body d.store.objects; lookup body d.bodies

  -- The check of the caller's buffer.
  unfoldable pub probe_buffer :
      Kernel D → AccessMode → (sd_buffer_size : ℕ) → CallerBuffer D → Status
  probe_buffer k mode sd_buffer_size b =
      if not (is_user_mode mode)
      then success
      else (if not (nt_success b.probe_raises)
          then b.probe_raises
          else (if not (k.valid_security_descriptor b.probed)
              then invalid_parameter
              else (if ltb sd_buffer_size (k.length_security_descriptor b.probed)
                  then invalid_parameter
                  else success)))

  -- The check of the copy.
  unfoldable pub check_copy : Kernel D → AccessMode → (sd_exact_size : ℕ) → CallerBuffer D → Status
  check_copy k mode sd_exact_size b =
      let raised = if is_user_mode mode then b.copy_raises else success in
      if not (nt_success raised)
      then raised
      else (if not (k.valid_security_descriptor b.copied)
          then invalid_parameter
          else (if not (k.length_security_descriptor b.copied == sd_exact_size)
              then invalid_parameter
              else success))

  -- The exchange of the objects, and the end of the old one.
  unfoldable pub exchange : (index sd_type body : ℕ) → Descriptors D → Option (Descriptors D)
  exchange index sd_type body d =
      if not (is_place index sd_type)
      then none
      else (let old = d.sd_objects index sd_type in
          let d' = record d { sd_objects = write index sd_type body d.sd_objects } in
          if old == 0 then some d' else dereference_descriptor old d')

  -- What `OcSdSetSecurityDescriptor` does with its new object.
  unfoldable pub fill_descriptor :
      Kernel D
      → (sd_type device_type : ℕ) → CallerBuffer D
      → AccessMode
      → (body : ℕ) → Descriptors D
      → Option (Descriptors D × Status)
  fill_descriptor k sd_type device_type b mode body d =
      let exact = k.length_security_descriptor b.probed in
      let rc = check_copy k mode exact b in
      let new : DescriptorObject D = record {
        device_type = device_type;
        sd_type = sd_type;
        sd_size = 0;
        security_descriptor = none;
      } in
      if nt_success rc
      then (do
        let filled = record new { sd_size = exact; security_descriptor = some b.copied }
        d' ←
            exchange (sd_table_index_by_device_type device_type) sd_type body
              (record d { bodies = (body, filled) ∷ d.bodies })
        some (d', rc))
      else (do
        d' ← dereference_descriptor body (record d { bodies = (body, new) ∷ d.bodies })
        some (d', rc))

  -- `OcSdSetSecurityDescriptor`. `allocated` is what the allocator gives.
  unfoldable pub set_security_descriptor :
      Kernel D
      → (sd_type device_type : ℕ) → CallerBuffer D
      → (sd_buffer_size : ℕ) → AccessMode
      → (allocated : Option ℕ) → Descriptors D
      → Option (Descriptors D × Status)
  set_security_descriptor k sd_type device_type b sd_buffer_size mode allocated d =
      let probed = probe_buffer k mode sd_buffer_size b in
      if ltb greatest_buffer sd_buffer_size
      then some (d, invalid_parameter)
      else (if ltb sd_table_size (sd_table_index_by_device_type device_type)
          then some (d, invalid_parameter)
          else (if not (nt_success probed) then some (d, probed) else (do
            created ←
                create_object_ex d.descriptor_type (k.length_security_descriptor b.probed) allocated
                  d.store
            let d' = record d { store = created.0 }
            elim created.2 [
              | none ↦ some (d', created.1)
              | some body ↦ fill_descriptor k sd_type device_type b mode body d'
            ])))
