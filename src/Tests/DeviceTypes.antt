-- ===== src/Tests/DeviceTypes.antt =====
-- A disk on a USB hub, and the theorems on device types at it.
use windows_system_wide_filt.DeviceTypes.Merged.{Merged}
use windows_system_wide_filt.Base.{
  ℕ, [], arith, false, if◌then◌else◌, none, refl, some, true, ◌&&◌, ◌==◌, ◌∷◌, ◌≡◌,
}
use windows_system_wide_filt.DeviceTypes.{
  TypeTables, Device, TypeStack, bare_device_types, determine_device_type_internal,
  fix_up_bare_device_types, full_device_type, node_bare_device_type, redefined_type,
  traverse_top_down,
}
use windows_system_wide_filt.DeviceTypes.Setting.{set_major_types_redefinition}
use windows_system_wide_filt.DeviceTypes.Tables.{set_redefinition-exact}

-- No type leads anywhere; setup classes and buses are their own types.
abbrev plain_tables : TypeTables
plain_tables = record {
  upper_and_lower_types_to_minor_type = λ upper lower. 0;
  upper_and_lower_types_to_major_type = λ upper lower. 0;
  device_type_and_setup_class_to_type = λ device_type setup_class. 0;
  device_setup_class_to_device_type = λ setup_class. setup_class;
  device_enumerator_to_device_type = λ bus. bus;
}

-- A hard drive (4) on a USB hub (7) is removable (3).
abbrev usb_tables : TypeTables
usb_tables = record plain_tables {
  upper_and_lower_types_to_major_type =
      λ upper lower. if (upper == 4) && (lower == 7) then 3 else 0;
}

abbrev disk : Device
disk = record {
  enumerator = 1;
  device_property_object = some (record { setup_class_guid_index = 4; usb_class_id = none });
}

abbrev hub : Device
hub = record {
  enumerator = 7;
  device_property_object = some (record { setup_class_guid_index = 7; usb_class_id = some 8 });
}

abbrev room_for : ℕ → TypeStack
room_for entries = record { number_of_entries = entries; full_device_types = [] }

-- The disk is a removable one, and the hub is a USB storage.
disk_is_removable : full_device_type usb_tables (disk ∷ hub ∷ []) (room_for 3) ≡ (
  record {
    number_of_entries = 3;
    full_device_types =
        record { fdo_major_type = 3; pdo_major_type = 1; pdo_minor_type = 0 }
        ∷ record { fdo_major_type = 7; pdo_major_type = 7; pdo_minor_type = 281 }
        ∷ [];
  },
  true,
)
unfolding full_device_type traverse_top_down determine_device_type_internal bare_device_types
    node_bare_device_type fix_up_bare_device_types redefined_type
disk_is_removable = refl

-- `FALSE` for a buffer that is great enough: the second hub has nothing new to say.
one_entry_is_enough : full_device_type usb_tables (hub ∷ hub ∷ []) (room_for 1) ≡ (
  record {
    number_of_entries = 1;
    full_device_types =
        record { fdo_major_type = 7; pdo_major_type = 7; pdo_minor_type = 281 } ∷ [];
  },
  false,
)
unfolding full_device_type traverse_top_down determine_device_type_internal bare_device_types
    node_bare_device_type fix_up_bare_device_types redefined_type
one_entry_is_enough = refl

set_redefinition-exact_example :
    (set_major_types_redefinition 0 7 3 plain_tables).upper_and_lower_types_to_major_type 4 7 ≡ 3
set_redefinition-exact_example =
    set_redefinition-exact 0 7 3 plain_tables 4 7 (omega arith) (omega arith) refl (omega arith)
      (omega arith)
