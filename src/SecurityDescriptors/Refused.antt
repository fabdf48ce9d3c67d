-- ===== src/SecurityDescriptors/Refused.antt =====
-- Errors of `OcSdSetSecurityDescriptor` of o_core/o_core/security_descr.c.
use windows_system_wide_filt.Object.Invariant.{WellFormed, one}
use windows_system_wide_filt.Base.{
  ℕ, ◌≡◌, ◌<◌, ◌==◌, ◌>>=◌, not, ◌⊎◌, ◌+◌, ◌^◌, ==_refl, Bool-cases, Option, Status, arith, erase,
  false, inl, inr, insufficient_resources, invalid_parameter, lookup, ltb, none, nt_success, refl,
  some, total, true,
}
use windows_system_wide_filt.Object.{ObjectType, create_object_ex}
use windows_system_wide_filt.Object.Lifetime.{create-dereference}
use windows_system_wide_filt.SecurityDescriptors.{
  AccessMode, CallerBuffer, CheckRequest, Descriptors, Kernel, greatest_buffer, probe_buffer,
  check_copy, fill_descriptor, dereference_descriptor, sd_table_size, set_security_descriptor,
}
use windows_system_wide_filt.SecurityDescriptors.Setting.{and_false}
use windows_system_wide_filt.SecurityDescriptors.Check.{place_of}

module _ {D : Type 0} where
  -- Why a descriptor is refused.
  abbrev pub Refusal :
      Kernel D
      → CheckRequest
      → CallerBuffer D
      → (sd_buffer_size : ℕ) → AccessMode
      → (allocated : Option ℕ) → Type 0
  Refusal k request b sd_buffer_size mode allocated =
      (greatest_buffer < sd_buffer_size)
      ⊎ (sd_table_size < place_of request)
      ⊎ (nt_success (probe_buffer k mode sd_buffer_size b) ≡ false)
      ⊎ (allocated ≡ none)
      ⊎ (nt_success (check_copy k mode (k.length_security_descriptor b.probed) b) ≡ false)

  -- The store is in order, with the type of descriptors, and has room for one object more.
  pub record Manages (d : Descriptors D) : Type 0 where
    pub type : ObjectType Unit
    pub type_there : lookup d.descriptor_type d.store.types ≡ some type
    pub from_pool : type.flags.use_std_pool_allocator ≡ true
    pub well_formed : WellFormed d.store
    pub room : total one d.store.objects + 1 < 2 ^ 32

  -- Nothing stands where the allocator gives memory.
  abbrev pub FreshMemory : Option ℕ → Descriptors D → Type 0
  FreshMemory none d = Unit
  FreshMemory (some body) d = lookup body d.store.objects ≡ none

  -- It returns an error, and the state is as before.
  abbrev pub Unchanged : Option (Descriptors D × Status) → Descriptors D → Type 0
  Unchanged r d = (status : Status) × (r ≡ some (d, status)) × (nt_success status ≡ false)

  -- From the creation of the object on.
  abbrev after_probe :
      Kernel D
      → CheckRequest
      → CallerBuffer D
      → AccessMode
      → (allocated : Option ℕ) → Descriptors D
      → Option (Descriptors D × Status)
  after_probe k request b mode allocated d = do
    created ←
        create_object_ex d.descriptor_type (k.length_security_descriptor b.probed) allocated d.store
    let d' = record d { store = created.0 }
    elim created.2 [
      | none ↦ some (d', created.1)
      | some body ↦ fill_descriptor k request.sd_type request.device_type b mode body d'
    ]

  no_memory-Unchanged :
      (k : Kernel D) (request : CheckRequest) (b : CallerBuffer D) (mode : AccessMode)
      (d : Descriptors D)
      → Manages d
      → Unchanged (after_probe k request b mode none d) d
  unfolding create_object_ex
  no_memory-Unchanged k request b mode d m =
      rw (m.type_there, m.from_pool, and_false (not (k.length_security_descriptor b.probed == 0)))
        (insufficient_resources, refl, refl)

  bad_copy-Unchanged :
      (k : Kernel D) (request : CheckRequest) (b : CallerBuffer D) (mode : AccessMode) (body : ℕ)
      (d : Descriptors D)
      → Manages d
      → lookup body d.store.objects ≡ none
      → nt_success (check_copy k mode (k.length_security_descriptor b.probed) b) ≡ false
      → Unchanged (after_probe k request b mode (some body) d) d
  unfolding fill_descriptor dereference_descriptor erase
  bad_copy-Unchanged k request b mode body d m fresh bad =
      let c =
        create-dereference d.descriptor_type (k.length_security_descriptor b.probed) body m.type
          d.store m.well_formed m.type_there fresh m.room (inr m.from_pool) in
      rw (c.1, bad, c.2, fresh, ==_refl body) (_, refl, bad)

  after_probe-Unchanged :
      (k : Kernel D) (request : CheckRequest) (b : CallerBuffer D) (mode : AccessMode)
      (allocated : Option ℕ) (d : Descriptors D)
      → Manages d
      → FreshMemory allocated d
      → (allocated ≡ none)
        ⊎ (nt_success (check_copy k mode (k.length_security_descriptor b.probed) b) ≡ false)
      → Unchanged (after_probe k request b mode allocated d) d
  after_probe-Unchanged k request b mode none d m fresh bad =
      no_memory-Unchanged k request b mode d m
  after_probe-Unchanged k request b mode (some body) d m fresh (inl bad) = absurd cc
  after_probe-Unchanged k request b mode (some body) d m fresh (inr bad) =
      bad_copy-Unchanged k request b mode body d m fresh bad

  -- A descriptor that is refused changes nothing. If the buffer is too great, the index that the device type
  -- leads to is greater than the number of entries (one that is equal to it is not refused), the probe or the copy finds a fault, or there is no memory, `OcSdSetSecurityDescriptor`
  -- returns an error, and the store, the objects and the table are as before; an object that it has
  -- created is deleted. The store is well formed, has the type of descriptors and room for one more
  -- object, and nothing stands where memory is given.
  pub set-refused_unchanged :
      (k : Kernel D) (request : CheckRequest) (b : CallerBuffer D) (sd_buffer_size : ℕ)
      (mode : AccessMode) (allocated : Option ℕ) (d : Descriptors D)
      → Manages d
      → FreshMemory allocated d
      → Refusal k request b sd_buffer_size mode allocated
      → (status : Status) × (set_security_descriptor k request.sd_type request.device_type b
            sd_buffer_size mode allocated d
          ≡ some (d, status))
        × (nt_success status ≡ false)
  unfolding set_security_descriptor
  set-refused_unchanged k request b sd_buffer_size mode allocated d m fresh refusal =
      elim (Bool-cases (ltb greatest_buffer sd_buffer_size)) [
        | inl e ↦ rw e (invalid_parameter, refl, refl)
        | inr few ↦ elim (Bool-cases (ltb sd_table_size (place_of request))) [
          | inl e ↦ rw (few, e) (invalid_parameter, refl, refl)
          | inr small ↦ elim (Bool-cases (nt_success (probe_buffer k mode sd_buffer_size b))) [
            | inr e ↦ rw (few, small, e) (_, refl, e)
            | inl e ↦
                let left : (allocated ≡ none)
                    ⊎ (nt_success (check_copy k mode (k.length_security_descriptor b.probed) b)
                        ≡ false) =
                  ground arith in
                rw (few, small, e) (after_probe-Unchanged k request b mode allocated d m fresh left)
          ]
        ]
      ]
