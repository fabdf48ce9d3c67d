-- ===== src/SecurityDescriptors/Roundtrip.antt =====
-- A descriptor that is set in o_core/o_core/security_descr.c, and a check against it.
use windows_system_wide_filt.DeviceTypes.Setting.{write}
use windows_system_wide_filt.Object.Lifetime.{placed}
use windows_system_wide_filt.SecurityDescriptors.Setting.{
  write_self, different, and_false, Allocates, OldEntry, Replaced, exchange-replaces,
}
use windows_system_wide_filt.Base.{
  ℕ, ◌≡◌, ◌<◌, ◌==◌, not, ◌≤◌, ◌∷◌, ==_refl, ==_sym, arith, false, lookup, lookup-update_self, ltb,
  refl, some, success, ap, if◌then◌else◌, inl, inr, none, subst, sym, ◌+◌, ◌∙◌, ◌⊎◌, u32_mod, ◌%◌,
}
use windows_system_wide_filt.Object.{ObjectType, place_object, create_object_ex, ObjectHeader}
use windows_system_wide_filt.SecurityDescriptors.{
  CallerBuffer, AccessMode, DescriptorObject, CheckRequest, Descriptors, Kernel, sd_table_size,
  probe_buffer, set_security_descriptor, greatest_buffer, fill_descriptor, check_copy,
  maximum_sd_type,
}
use windows_system_wide_filt.SecurityDescriptors.Checking.{is_access_granted}
use windows_system_wide_filt.SecurityDescriptors.Check.{
  Stored, place_of, answer, is_access_granted-exact, place-true,
}

module _ {D : Type 0} where
  -- The object that a request gets, with the copy of the caller's descriptor.
  abbrev pub filled_object : Kernel D → CheckRequest → CallerBuffer D → DescriptorObject D
  filled_object k request b = record {
    device_type = request.device_type;
    sd_type = request.sd_type;
    sd_size = k.length_security_descriptor b.probed;
    security_descriptor = some b.copied;
  }

  -- What is checked of the caller's buffer.
  pub record Accepted (k : Kernel D) (mode : AccessMode) (sd_buffer_size : ℕ) (b : CallerBuffer D)
      : Type 0 where
    pub small : sd_buffer_size ≤ greatest_buffer
    pub probed : probe_buffer k mode sd_buffer_size b ≡ success
    pub copied : check_copy k mode (k.length_security_descriptor b.probed) b ≡ success

  -- The state once the object has its memory.
  abbrev pub with_object :
      (exact body : ℕ) → ObjectType Unit → DescriptorObject D → Descriptors D → Descriptors D
  with_object exact body type object d = record d {
    store = place_object d.descriptor_type exact type body d.store;
    bodies = (body, object) ∷ d.bodies;
  }

  pub with_object-Stored :
      (exact body : ℕ) (type : ObjectType Unit) (object : DescriptorObject D) (d : Descriptors D)
      → (body == 0) ≡ false
      → Stored 1 body object (with_object exact body type object d)
  unfolding place_object lookup
  with_object-Stored exact body type object d nonzero = record {
    nonzero = nonzero;
    counted = record {
      header = record {
        ref_count = 1;
        object_type = d.descriptor_type;
        zeroed =
            if type.flags.zero_object_body then (type.objects_body_size + exact) % u32_mod else 0;
      };
      there = rw (==_refl body) refl;
      positive = omega arith;
      small = omega arith;
    };
    there = rw (==_refl body) refl;
  }

  pub type_after_placing :
      (exact body : ℕ) (type : ObjectType Unit) (d : Descriptors D)
      → lookup d.descriptor_type d.store.types ≡ some type
      → lookup d.descriptor_type (place_object d.descriptor_type exact type body d.store).types
        ≡ some (placed body type)
  unfolding place_object
  type_after_placing exact body type d there =
      lookup-update_self d.descriptor_type _ type d.store.types there

  pub object_after_placing :
      (exact body other : ℕ) (type : ObjectType Unit) (d : Descriptors D)
      → (other == body) ≡ false
      → lookup other (place_object d.descriptor_type exact type body d.store).objects
        ≡ lookup other d.store.objects
  unfolding place_object lookup
  object_after_placing exact body other type d ne = rw (==_sym other body ne) refl

  pub create-eq :
      (exact body : ℕ) (d : Descriptors D) (a : Allocates body d)
      → create_object_ex d.descriptor_type exact (some body) d.store
        ≡ some (place_object d.descriptor_type exact a.type body d.store, success, some body)
  unfolding create_object_ex
  create-eq exact body d a = rw (a.type_there, a.from_pool, and_false (not (exact == 0))) refl

  pub set-eq :
      (k : Kernel D) (request : CheckRequest) (b : CallerBuffer D) (sd_buffer_size : ℕ)
      (mode : AccessMode) (body : ℕ) (d : Descriptors D) (a : Allocates body d)
      → place_of request ≤ sd_table_size
      → sd_buffer_size ≤ greatest_buffer
      → probe_buffer k mode sd_buffer_size b ≡ success
      → set_security_descriptor k request.sd_type request.device_type b sd_buffer_size mode
          (some body)
          d
        ≡ fill_descriptor k request.sd_type request.device_type b mode body (record d {
          store =
              place_object d.descriptor_type
                (k.length_security_descriptor b.probed)
                a.type
                body
                d.store;
        })
  unfolding set_security_descriptor
  set-eq k request b sd_buffer_size mode body d a small few probed =
      let fits : ltb greatest_buffer sd_buffer_size ≡ false = ground arith in
      let inside : ltb sd_table_size (place_of request) ≡ false = ground arith in
      rw (fits, inside, probed, create-eq (k.length_security_descriptor b.probed) body d a) refl

  old_after_placing :
      (exact body old : ℕ) (type : ObjectType Unit) (d : Descriptors D)
      → lookup body d.store.objects ≡ none
      → OldEntry old d
      → (old ≡ 0)
        ⊎ ((h : ObjectHeader) × (lookup old
                (place_object d.descriptor_type exact type body d.store).objects
              ≡ some h)
            × (h.object_type ≡ d.descriptor_type)
            × ((old == body) ≡ false))
  old_after_placing exact body old type d fresh (inl nothing) = inl nothing
  old_after_placing exact body old type d fresh (inr (h, there, same)) =
      let ne = different old body h d.store.objects there fresh in
      inr (h, object_after_placing exact body old type d ne ∙ there, same, ne)

  pub set-replaces :
      (k : Kernel D) (request : CheckRequest) (b : CallerBuffer D) (sd_buffer_size : ℕ)
      (mode : AccessMode) (body : ℕ) (d : Descriptors D)
      → place_of request < sd_table_size
      → request.sd_type < maximum_sd_type
      → Accepted k mode sd_buffer_size b
      → (a : Allocates body d) → OldEntry (d.sd_objects (place_of request) request.sd_type) d
      → (d' : Descriptors D) × (set_security_descriptor k request.sd_type request.device_type b
            sd_buffer_size mode
            (some body)
            d
          ≡ some (d', success))
        × Replaced (place_of request) request.sd_type body (filled_object k request b) d d'
  unfolding fill_descriptor
  set-replaces k request b sd_buffer_size mode body d small small' accepted a old =
      let exact = k.length_security_descriptor b.probed in
      let object = filled_object k request b in
      let replaced =
        exchange-replaces (place_of request) request.sd_type body object (placed body a.type)
          (with_object exact body a.type object d)
          (place-true (place_of request) request.sd_type small small')
          (old_after_placing exact body _ a.type d a.fresh old)
          (type_after_placing exact body a.type d a.type_there)
          (with_object-Stored exact body a.type object d a.nonzero) in
      rw
        (
          set-eq k request b sd_buffer_size mode body d a (omega (arith, small)) accepted.small
              accepted.probed,
          accepted.copied,
          replaced.1,
        )
        (replaced.0, refl, replaced.2)

  answer-Frame :
      (k : Kernel D) (request : CheckRequest) (descriptor : D) (d d' : Descriptors D)
      → d'.generic_mapping ≡ d.generic_mapping
      → answer k request d' (some descriptor) ≡ answer k request d (some descriptor)
  answer-Frame k request descriptor d d' same = rw same refl

  -- A descriptor that has been set is the one that is checked. For a place of the table and a buffer that
  -- passes the checks, where the allocator gives memory and the entry was empty or had an object of the
  -- type of descriptors: `OcSdSetSecurityDescriptor` succeeds and changes that entry of the table alone,
  -- and after it `OcIsAccessGranted` answers a request for that place what the kernel says of the
  -- descriptor that has been copied, and leaves the state as it is.
  pub set-check :
      (k : Kernel D) (request : CheckRequest) (b : CallerBuffer D) (sd_buffer_size : ℕ)
      (mode : AccessMode) (body : ℕ) (d : Descriptors D)
      → place_of request < sd_table_size
      → request.sd_type < maximum_sd_type
      → Accepted k mode sd_buffer_size b
      → Allocates body d
      → OldEntry (d.sd_objects (place_of request) request.sd_type) d
      → (d' : Descriptors D) × (set_security_descriptor k request.sd_type request.device_type b
            sd_buffer_size mode
            (some body)
            d
          ≡ some (d', success))
        × (d'.sd_objects ≡ write (place_of request) request.sd_type body d.sd_objects)
        × (is_access_granted k request d' ≡ some (d', answer k request d (some b.copied)))
  set-check k request b sd_buffer_size mode body d small small' accepted a old =
      let replaced =
        set-replaces k request b sd_buffer_size mode body d small small' accepted a old in
      let d' = replaced.0 in
      let object = filled_object k request b in
      let table : d'.sd_objects ≡ write (place_of request) request.sd_type body d.sd_objects =
        ap (λ x. x.sd_objects) replaced.2.1 in
      let at_place : body ≡ d'.sd_objects (place_of request) request.sd_type = sym (
        ap (λ t. t (place_of request) request.sd_type) table
        ∙ write_self (place_of request) request.sd_type body d.sd_objects) in
      let stored = subst (λ o. Stored 1 o object d') at_place replaced.2.0 in
      let checked = is_access_granted-exact k request d' small small' (inr (object, stored)) in
      let same = answer-Frame k request b.copied d d' (ap (λ x. x.generic_mapping) replaced.2.1) in
      (d', replaced.1, table, rw checked (rw same refl))
