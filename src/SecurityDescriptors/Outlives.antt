-- ===== src/SecurityDescriptors/Outlives.antt =====
-- A descriptor that is exchanged while a check of o_core/o_core/security_descr.c works with it.
use windows_system_wide_filt.Object.Lifetime.{placed}
use windows_system_wide_filt.DeviceTypes.Setting.{write}
use windows_system_wide_filt.SecurityDescriptors.Setting.{different, Allocates}
use windows_system_wide_filt.Base.{
  ℕ, ◌≡◌, ◌<◌, ◌==◌, ◌∙◌, ==_sym, false, lookup, lookup-update_absent, refl, some, success, true,
  update, arith,
}
use windows_system_wide_filt.Object.Others.{dereference-leaves}
use windows_system_wide_filt.SecurityDescriptors.{
  DescriptorObject, AccessMode, CallerBuffer, CheckRequest, Kernel, Descriptors, exchange, is_place,
  dereference_descriptor, fill_descriptor, set_security_descriptor, maximum_sd_type, sd_table_size,
}
use windows_system_wide_filt.SecurityDescriptors.Checking.{take_descriptor, check_descriptor}
use windows_system_wide_filt.Object.{Store, ObjectType, ObjectHeader, place_object}
use windows_system_wide_filt.SecurityDescriptors.Roundtrip.{
  Accepted, with_object, object_after_placing, type_after_placing, filled_object, set-eq,
}
use windows_system_wide_filt.Object.References.{
  referenced, Counted, reference-eq, dereference-referenced,
}
use windows_system_wide_filt.SecurityDescriptors.Check.{
  answer, Stored, place-true, place_of, with_reference, descriptor_object-Stored,
}

place-referenced :
    (exact body old t : ℕ) (h : ObjectHeader) (type : ObjectType Unit) (s : Store Unit)
    → (old == body) ≡ false
    → place_object t exact type body (referenced old h s)
      ≡ referenced old h (place_object t exact type body s)
unfolding place_object update
place-referenced exact body old t h type s ne = rw (==_sym old body ne) refl

module _ {D : Type 0} where
  -- The state after a check has taken the descriptor and another thread has exchanged it.
  abbrev pub exchanged :
      Kernel D
      → CheckRequest
      → CallerBuffer D
      → (body : ℕ) → ObjectType Unit
      → Descriptors D
      → Descriptors D
  exchanged k request b body type d =
      record (with_object (k.length_security_descriptor b.probed) body type
        (filled_object k request b) d) {
          sd_objects = write (place_of request) request.sd_type body d.sd_objects;
        }

  -- The exchange, when the old object has a reference more.
  exchange-referenced :
      (k : Kernel D) (request : CheckRequest) (b : CallerBuffer D) (body : ℕ)
      (type : ObjectType Unit) (object : DescriptorObject D) (d : Descriptors D)
      → is_place (place_of request) request.sd_type ≡ true
      → (stored : Stored 1 (d.sd_objects (place_of request) request.sd_type) object d)
      → (d.sd_objects (place_of request) request.sd_type == body) ≡ false
      → let exact = k.length_security_descriptor b.probed in
        let old = d.sd_objects (place_of request) request.sd_type in
        exchange (place_of request) request.sd_type body (
          with_object exact body type
            (filled_object k request b)
            (with_reference 1 old d stored.counted))
        ≡ some (exchanged k request b body type d)
  unfolding exchange dereference_descriptor
  exchange-referenced k request b body type object d place stored ne =
      let exact = k.length_security_descriptor b.probed in
      let old = d.sd_objects (place_of request) request.sd_type in
      let h = stored.counted.header in
      let after = place_object d.descriptor_type exact type body d.store in
      let there : lookup old after.objects ≡ some h =
        object_after_placing exact body old type d ne ∙ stored.counted.there in
      let back =
        dereference-referenced old h after there stored.counted.positive stored.counted.small in
      rw
        (
          place,
          stored.nonzero,
          place-referenced exact body old d.descriptor_type h type d.store ne,
          back,
          there,
        )
        refl

  -- Memory for an object is there still when another object has a reference more.
  abbrev Allocates-referenced :
      (body old : ℕ) (d : Descriptors D) (c : Counted 1 old d.store)
      → Allocates body d
      → Allocates body (with_reference 1 old d c)
  Allocates-referenced body old d c a = record {
    type = a.type;
    type_there = a.type_there;
    from_pool = a.from_pool;
    fresh = lookup-update_absent old body _ d.store.objects a.fresh;
    nonzero = a.nonzero;
  }

  set-exchanged :
      (k : Kernel D) (request : CheckRequest) (b : CallerBuffer D) (sd_buffer_size : ℕ)
      (mode : AccessMode) (body : ℕ) (object : DescriptorObject D) (d : Descriptors D)
      → place_of request < sd_table_size
      → request.sd_type < maximum_sd_type
      → Accepted k mode sd_buffer_size b
      → (a : Allocates body d)
      → (stored : Stored 1 (d.sd_objects (place_of request) request.sd_type) object d)
      → set_security_descriptor k request.sd_type request.device_type b sd_buffer_size mode
          (some body)
          (with_reference 1 _ d stored.counted)
        ≡ some (exchanged k request b body a.type d, success)
  unfolding fill_descriptor
  set-exchanged k request b sd_buffer_size mode body object d small small' accepted a stored =
      let old = d.sd_objects (place_of request) request.sd_type in
      let ne =
        different old body stored.counted.header d.store.objects stored.counted.there a.fresh in
      rw
        (
          set-eq k request b sd_buffer_size mode body (with_reference 1 old d stored.counted)
              (Allocates-referenced body old d stored.counted a) (omega (arith, small))
              accepted.small accepted.probed,
          accepted.copied,
          exchange-referenced k request b body a.type object d
              (place-true (place_of request) request.sd_type small small') stored ne,
        )
        refl

  end_of_check :
      (k : Kernel D) (request : CheckRequest) (b : CallerBuffer D) (body : ℕ) (descriptor : D)
      (object : DescriptorObject D) (d : Descriptors D)
      → (a : Allocates body d)
      → (stored : Stored 1 (d.sd_objects (place_of request) request.sd_type) object d)
      → stored.counted.header.object_type ≡ d.descriptor_type
      → (d' : Descriptors D) × (check_descriptor k request
            (d.sd_objects (place_of request) request.sd_type)
            (some descriptor)
            (exchanged k request b body a.type d)
          ≡ some (d', answer k request d (some descriptor)))
        × (d'.sd_objects ≡ write (place_of request) request.sd_type body d.sd_objects)
  unfolding check_descriptor dereference_descriptor
  end_of_check k request b body descriptor object d a stored same =
      let exact = k.length_security_descriptor b.probed in
      let old = d.sd_objects (place_of request) request.sd_type in
      let ne =
        different old body stored.counted.header d.store.objects stored.counted.there a.fresh in
      let there = object_after_placing exact body old a.type d ne ∙ stored.counted.there in
      let type_there : lookup stored.counted.header.object_type
            (place_object d.descriptor_type exact a.type body d.store).types
          ≡ some (placed body a.type) =
        rw same (type_after_placing exact body a.type d a.type_there) in
      let ended =
        dereference-leaves old body stored.counted.header (placed body a.type)
          (place_object d.descriptor_type exact a.type body d.store) ne there type_there in
      rw ended.1 (_, refl, refl)

  -- A descriptor outlives its replacement while a check works with it. When `OcIsAccessGranted` has taken
  -- the descriptor of an object under the lock, and `OcSdSetSecurityDescriptor` then succeeds for the same
  -- place, before the check goes on, the check still answers what the kernel says of the descriptor that it
  -- has taken, without an access to an object that is gone; afterwards the table has the new object.
  pub descriptor_outlives_replacement :
      (k : Kernel D) (request : CheckRequest) (b : CallerBuffer D) (sd_buffer_size : ℕ)
      (mode : AccessMode) (body : ℕ) (descriptor : D) (object : DescriptorObject D)
      (d : Descriptors D)
      → place_of request < sd_table_size
      → request.sd_type < maximum_sd_type
      → Accepted k mode sd_buffer_size b
      → Allocates body d
      → (stored : Stored 1 (d.sd_objects (place_of request) request.sd_type) object d)
      → object.security_descriptor ≡ some descriptor
      → stored.counted.header.object_type ≡ d.descriptor_type
      → let old = d.sd_objects (place_of request) request.sd_type in
        (d1 : Descriptors D) × (d2 : Descriptors D) × (d3 : Descriptors D) × (take_descriptor
            (place_of request)
            request.sd_type
            d
          ≡ some (d1, old, some descriptor))
        × (set_security_descriptor k request.sd_type request.device_type b sd_buffer_size mode
              (some body)
              d1
            ≡ some (d2, success))
        × (check_descriptor k request old (some descriptor) d2
            ≡ some (d3, answer k request d (some descriptor)))
        × (d3.sd_objects ≡ write (place_of request) request.sd_type body d.sd_objects)
  unfolding take_descriptor
  descriptor_outlives_replacement k request b sd_buffer_size mode body descriptor object d small
        small' accepted a stored e same =
      let ended = end_of_check k request b body descriptor object d a stored same in
      let replaced =
        set-exchanged k request b sd_buffer_size mode body object d small small' accepted a
          stored in
      (
        _,
        _,
        ended.0,
        rw
            (
              place-true (place_of request) request.sd_type small small',
              descriptor_object-Stored d stored,
              e,
              reference-eq 1 _ d.store stored.counted,
            )
            refl,
        replaced,
        ended.1,
        ended.2,
      )
