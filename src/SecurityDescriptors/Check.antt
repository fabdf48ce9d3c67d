-- ===== src/SecurityDescriptors/Check.antt =====
-- What `OcIsAccessGranted` of o_core/o_core/security_descr.c says of a request, for any state of the entry.
use windows_system_wide_filt.Base.{
  ℕ, ◌≡◌, ◌<◌, ◌==◌, ◌⊎◌, Option, arith, false, lookup, none, refl, some, true, inl, inr,
}
use windows_system_wide_filt.SecurityDescriptors.{
  is_place, maximum_sd_type, descriptor_object, dereference_descriptor, sd_table_size, CheckRequest,
  DescriptorObject, Descriptors, Kernel,
}
use windows_system_wide_filt.SecurityDescriptors.Checking.{
  take_descriptor, is_access_granted, check_descriptor,
}
use windows_system_wide_filt.DeviceTypes.{sd_table_index_by_device_type}
use windows_system_wide_filt.Object.References.{give_back, Counted, reference-eq, referenced}

-- The place of a request's descriptor.
abbrev pub place_of : CheckRequest → ℕ
place_of request = sd_table_index_by_device_type request.device_type

pub place-true :
    (index sd_type : ℕ)
    → index < sd_table_size
    → sd_type < maximum_sd_type
    → is_place index sd_type ≡ true
place-true index sd_type small small' = ground arith

module _ {D : Type 0} where
  -- An object stands at this address, and can be referenced so many times more.
  pub record Stored (room body : ℕ) (object : DescriptorObject D) (d : Descriptors D) : Type 0 where
    pub nonzero : (body == 0) ≡ false
    pub counted : Counted room body d.store
    pub there : lookup body d.bodies ≡ some object

  -- What an entry leads to: nothing, or an object.
  abbrev pub Entry : (body : ℕ) → Descriptors D → Type 0
  Entry body d = (body ≡ 0) ⊎ ((object : DescriptorObject D) × Stored 1 body object d)

  -- The answer to a request, given the descriptor.
  abbrev pub answer : Kernel D → CheckRequest → Descriptors D → Option D → CheckRequest
  answer k request d none = record request {
    is_access_granted = d.action_for_null_sd (place_of request) request.sd_type;
  }
  answer k request d (some descriptor) =
      let mapping = d.generic_mapping (place_of request) in
      let checked =
        k.access_check descriptor request.subject_security_context request.subject_context_locked
          (k.map_generic_mask request.desired_access mapping) mapping request.access_mode in
      record request {
        is_access_granted = checked.0;
        granted_access = checked.1;
        access_status = checked.2;
      }

  pub descriptor_object-Stored :
      {room body : ℕ} {object : DescriptorObject D} (d : Descriptors D)
      → Stored room body object d
      → descriptor_object body d ≡ some object
  unfolding descriptor_object
  descriptor_object-Stored d stored = rw (stored.nonzero, stored.counted.there, stored.there) refl

  -- With one more reference to the object.
  abbrev pub with_reference :
      (room body : ℕ) (d : Descriptors D) → Counted room body d.store → Descriptors D
  with_reference room body d c = record d { store = referenced body c.header d.store }

  pub dereference-with_reference :
      (body : ℕ) (d : Descriptors D) (c : Counted 1 body d.store)
      → dereference_descriptor body (with_reference 1 body d c) ≡ some d
  unfolding dereference_descriptor
  dereference-with_reference body d c = rw (give_back 0 body d.store c, c.there) refl

  check-case :
      (k : Kernel D) (request : CheckRequest) (d : Descriptors D) (object : DescriptorObject D)
      (descriptor : Option D)
      → object.security_descriptor ≡ descriptor
      → is_place (place_of request) request.sd_type ≡ true
      → Stored 1 (d.sd_objects (place_of request) request.sd_type) object d
      → is_access_granted k request d ≡ some (d, answer k request d descriptor)
  unfolding is_access_granted take_descriptor check_descriptor
  check-case k request d object none e place stored =
      rw (place, descriptor_object-Stored d stored, e) refl
  check-case k request d object (some descriptor) e place stored =
      let body = d.sd_objects (place_of request) request.sd_type in
      rw
        (
          place,
          descriptor_object-Stored d stored,
          e,
          reference-eq 1 body d.store stored.counted,
          dereference-with_reference body d stored.counted,
        )
        refl

  -- A check is exact. For an entry that is in the table: if an object stands there, with its reference and
  -- room for one more, `OcIsAccessGranted` answers what the kernel says of the object's descriptor and the
  -- mapped access, or the action for no descriptor if the object has none, and the state is as before; if
  -- nothing stands there, the function goes through a null pointer.
  pub is_access_granted-exact :
      (k : Kernel D) (request : CheckRequest) (d : Descriptors D)
      → place_of request < sd_table_size
      → request.sd_type < maximum_sd_type
      → (entry : Entry (d.sd_objects (place_of request) request.sd_type) d)
      → is_access_granted k request d ≡ elim entry [
        | inl nothing ↦ none
        | inr stored ↦ some (d, answer k request d stored.0.security_descriptor)
      ]
  unfolding is_access_granted take_descriptor descriptor_object
  is_access_granted-exact k request d small small' (inl nothing) =
      rw (place-true (place_of request) request.sd_type small small', nothing) refl
  is_access_granted-exact k request d small small' (inr stored) =
      check-case k request d stored.0 stored.0.security_descriptor refl
        (place-true (place_of request) request.sd_type small small') stored.1
