-- ===== src/Tests/SecurityDescriptors.antt =====
-- A descriptor for hard drives, and the theorems on security descriptors at it.
use windows_system_wide_filt.Object.Invariant.{WellFormed}
use windows_system_wide_filt.SecurityDescriptors.Setting.{Allocates}
use windows_system_wide_filt.Base.{
  ℕ, ◌≡◌, ◌&&◌, ◌==◌, if◌then◌else◌, not, ◌∷◌, ◌+◌, Status, [], arith, false, inr, lookup, none,
  nt_success, pending, refl, some, success, true, update,
}
use windows_system_wide_filt.SecurityDescriptors.{
  CheckRequest, CallerBuffer, Kernel, Descriptors, probe_buffer, set_security_descriptor,
  descriptor_object, user_mode, check_copy,
}
use windows_system_wide_filt.SecurityDescriptors.Checking.{
  is_access_granted, check_descriptor, take_descriptor,
}
use windows_system_wide_filt.DeviceTypes.{sd_table_index_by_device_type, minor_type_base}
use windows_system_wide_filt.DeviceTypes.Setting.{write}
use windows_system_wide_filt.SecurityDescriptors.Outlives.{descriptor_outlives_replacement}
use windows_system_wide_filt.Object.{ObjectType, Store, place_object}
use windows_system_wide_filt.SecurityDescriptors.Check.{Stored, is_access_granted-exact}
use windows_system_wide_filt.SecurityDescriptors.Refused.{set-refused_unchanged}
use windows_system_wide_filt.SecurityDescriptors.Roundtrip.{Accepted, set-check}
use windows_system_wide_filt.Object.Preserve.{place_object-WellFormed}
use windows_system_wide_filt.SecurityDescriptors.Bounds.{set-beyond_table}

-- Descriptors are numbers, 0 is no valid one, and 5 grants all.
abbrev kernel : Kernel ℕ
kernel = record {
  valid_security_descriptor = λ descriptor. not (descriptor == 0);
  length_security_descriptor = λ descriptor. 8;
  map_generic_mask = λ desired mapping. desired;
  access_check =
      λ descriptor subject locked desired mapping mode. (descriptor == 5, desired, success);
}

abbrev descriptor_type : ObjectType Unit
descriptor_type = record {
  ref_count = 0;
  flags = record {
    marked_for_deletion = false;
    use_std_pool_allocator = true;
    objects_in_list = false;
    zero_object_body = false;
  };
  list_head = [];
  methods = record { delete_object_method = none; delete_object_type_method = none };
  lookaside = false;
  objects_body_size = 24;
  tag = 0;
}

abbrev empty_store : Store Unit
empty_store = record {
  initialized = true;
  types = (1, descriptor_type) ∷ [];
  objects = [];
  client = tt;
}

empty_store-WellFormed : WellFormed empty_store
unfolding lookup
empty_store-WellFormed = record {
  consistent = record {
    few = omega arith;
    types_distinct = (refl, tt);
    objects_distinct = tt;
    typed = λ o h there. ground arith;
    held = λ o h there. ground arith;
    counted = λ t type there. ground arith;
    listed = λ t type b there asked. ground arith;
  };
  marked = λ t type there marked. ground arith;
}

-- The descriptor 5 for hard drives.
abbrev one_descriptor : Descriptors ℕ
one_descriptor = record {
  store = place_object 1 8 descriptor_type 50 empty_store;
  descriptor_type = 1;
  bodies =
      (50, record { device_type = 4; sd_type = 0; sd_size = 8; security_descriptor = some 5 }) ∷ [];
  sd_objects = λ index sd_type. if (index == 4) && (sd_type == 0) then 50 else 0;
  action_for_null_sd = λ index sd_type. sd_type == 0;
  generic_mapping =
      λ index. record { generic_read = 1; generic_write = 2; generic_execute = 4; generic_all = 7 };
}

one_descriptor-WellFormed : WellFormed one_descriptor.store
unfolding lookup
one_descriptor-WellFormed =
    place_object-WellFormed empty_store 1 8 50 descriptor_type empty_store-WellFormed refl refl
      (omega arith)

-- A request for a device of this type.
abbrev request_for : (device_type : ℕ) → CheckRequest
request_for device_type = record {
  sd_type = 0;
  device_type = device_type;
  subject_security_context = 0;
  subject_context_locked = false;
  desired_access = 3;
  access_mode = user_mode;
  granted_access = 0;
  access_status = pending;
  is_access_granted = false;
}

-- A buffer with a descriptor that stays as it is.
abbrev buffer_with : ℕ → CallerBuffer ℕ
buffer_with descriptor = record {
  probe_raises = success;
  probed = descriptor;
  copy_raises = success;
  copied = descriptor;
}

-- No descriptor has been set for floppies: the check goes through a null pointer, whatever the action for
-- no descriptor says.
floppy_faults : is_access_granted kernel (request_for 1) one_descriptor ≡ none
unfolding is_access_granted take_descriptor descriptor_object sd_table_index_by_device_type
floppy_faults = refl

abbrev drive_stored :
    Stored 1 50
      (record { device_type = 4; sd_type = 0; sd_size = 8; security_descriptor = some 5 })
      one_descriptor
unfolding place_object lookup
drive_stored = record {
  nonzero = refl;
  counted = record {
    header = record { ref_count = 1; object_type = 1; zeroed = 0 };
    there = refl;
    positive = omega arith;
    small = omega arith;
  };
  there = refl;
}

abbrev drive_accepted : Accepted kernel user_mode 8 (buffer_with 6)
unfolding probe_buffer check_copy
drive_accepted = record { small = omega arith; probed = refl; copied = refl }

abbrev memory_given : Allocates 60 one_descriptor
unfolding place_object lookup update
memory_given = record {
  type = record descriptor_type { ref_count = 1 };
  type_there = refl;
  from_pool = refl;
  fresh = refl;
  nonzero = refl;
}

is_access_granted-exact_example :
    is_access_granted kernel (request_for 4) one_descriptor
    ≡ some (
      one_descriptor,
      record (request_for 4) {
        is_access_granted = true;
        granted_access = 3;
        access_status = success;
      },
    )
unfolding sd_table_index_by_device_type
is_access_granted-exact_example =
    is_access_granted-exact kernel (request_for 4) one_descriptor (omega arith) (omega arith) (
      inr (
        record { device_type = 4; sd_type = 0; sd_size = 8; security_descriptor = some 5 },
        drive_stored,
      ))

set-check_example :
    (d' : Descriptors ℕ) × (set_security_descriptor kernel 0 4
        (buffer_with 6)
        8
        user_mode
        (some 60)
        one_descriptor
      ≡ some (d', success))
    × (d'.sd_objects ≡ write 4 0 60 one_descriptor.sd_objects)
    × (is_access_granted kernel (request_for 4) d'
        ≡ some (
          d',
          record (request_for 4) {
            is_access_granted = false;
            granted_access = 3;
            access_status = success;
          },
        ))
unfolding sd_table_index_by_device_type place_object lookup
set-check_example =
    set-check kernel (request_for 4) (buffer_with 6) 8 user_mode 60 one_descriptor (omega arith)
      (omega arith) drive_accepted memory_given
      (inr (record { ref_count = 1; object_type = 1; zeroed = 0 }, refl, refl))

set-refused_unchanged_example :
    (status : Status) × (set_security_descriptor kernel 0 4
        (record (buffer_with 6) { copied = 0 })
        8
        user_mode
        (some 60)
        one_descriptor
      ≡ some (one_descriptor, status))
    × (nt_success status ≡ false)
unfolding place_object lookup update check_copy
set-refused_unchanged_example =
    set-refused_unchanged kernel (request_for 4) (record (buffer_with 6) { copied = 0 }) 8 user_mode
      (some 60) one_descriptor
      (record {
        type = record descriptor_type { ref_count = 1 };
        type_there = refl;
        from_pool = refl;
        well_formed = one_descriptor-WellFormed;
        room = omega arith;
      })
      refl (inr (inr (inr (inr refl))))

descriptor_outlives_replacement_example :
    (d1 : Descriptors ℕ) × (d2 : Descriptors ℕ) × (d3 : Descriptors ℕ) × (take_descriptor 4 0
        one_descriptor
      ≡ some (d1, 50, some 5))
    × (set_security_descriptor kernel 0 4 (buffer_with 6) 8 user_mode (some 60) d1
        ≡ some (d2, success))
    × (check_descriptor kernel (request_for 4) 50 (some 5) d2
        ≡ some (
          d3,
          record (request_for 4) {
            is_access_granted = true;
            granted_access = 3;
            access_status = success;
          },
        ))
    × (d3.sd_objects ≡ write 4 0 60 one_descriptor.sd_objects)
unfolding sd_table_index_by_device_type drive_stored
descriptor_outlives_replacement_example =
    descriptor_outlives_replacement kernel (request_for 4) (buffer_with 6) 8 user_mode 60 5
      (record { device_type = 4; sd_type = 0; sd_size = 8; security_descriptor = some 5 })
      one_descriptor (omega arith) (omega arith) drive_accepted memory_given drive_stored refl refl

-- The first device type beyond the table.
set-beyond_table_example :
    set_security_descriptor kernel 0
      (minor_type_base + 29)
      (buffer_with 6)
      8
      user_mode
      (some 60)
      one_descriptor
    ≡ none
unfolding sd_table_index_by_device_type
set-beyond_table_example =
    set-beyond_table kernel (request_for (minor_type_base + 29)) (buffer_with 6) 8 user_mode 60
      one_descriptor refl drive_accepted memory_given
