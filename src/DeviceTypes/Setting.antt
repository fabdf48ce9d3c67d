-- ===== src/DeviceTypes/Setting.antt =====
-- How o_core/o_core/security_descr.c sets the tables of types.
use windows_system_wide_filt.Base.{
  ℕ, ◌==◌, ◌&&◌, ◌||◌, ◌+◌, if◌then◌else◌, Bool, false, suc, true, zero,
}
use windows_system_wide_filt.DeviceTypes.{
  TypeTables, types_count, setup_class_unknown, device_type_unknown,
}

-- Write to a table with two indices.
abbrev pub write : (i j v : ℕ) → (ℕ → ℕ → ℕ) → ℕ → ℕ → ℕ
write i j v m i' j' = if (i == i') && (j == j') then v else m i' j'

-- The loops that fill a row or a column, from the index `i` on.
unfoldable pub write_types :
    (is_row : Bool) (fixed inferred : ℕ) (left i : ℕ) → (ℕ → ℕ → ℕ) → ℕ → ℕ → ℕ
write_types is_row fixed inferred zero i m = m
write_types is_row fixed inferred (suc left) i m =
    write_types is_row fixed inferred left (i + 1)
      (if is_row then write fixed i inferred m else write i fixed inferred m)

-- What `OcSetTypesTranslation` and `OcSetMajorTypesRedefinition` do to their tables: a type that is
-- unknown stands for all.
unfoldable pub set_inferred_type : (upper lower inferred : ℕ) → (ℕ → ℕ → ℕ) → ℕ → ℕ → ℕ
set_inferred_type upper lower inferred m =
    if (upper == device_type_unknown) || (lower == device_type_unknown)
    then (if lower == device_type_unknown
        then write_types true upper inferred types_count 0 m
        else write_types false lower inferred types_count 0 m)
    else write upper lower inferred m

-- `OcSetTypesTranslation`.
unfoldable pub set_types_translation : (upper lower inferred : ℕ) → TypeTables → TypeTables
set_types_translation upper lower inferred t = record t {
  upper_and_lower_types_to_minor_type =
      set_inferred_type upper lower inferred t.upper_and_lower_types_to_minor_type;
}

-- `OcSetMajorTypesRedefinition`.
unfoldable pub set_major_types_redefinition : (upper lower inferred : ℕ) → TypeTables → TypeTables
set_major_types_redefinition upper lower inferred t = record t {
  upper_and_lower_types_to_major_type =
      set_inferred_type upper lower inferred t.upper_and_lower_types_to_major_type;
}

-- `OcSetLowerTypeAndUpperSetupClassTranslation`, where the number of setup classes is an argument.
unfoldable pub set_lower_type_and_upper_setup_class_translation :
    (setup_classes device_type setup_class inferred : ℕ) → TypeTables → TypeTables
set_lower_type_and_upper_setup_class_translation setup_classes device_type setup_class inferred t =
    let m = t.device_type_and_setup_class_to_type in
    record t {
      device_type_and_setup_class_to_type =
          if setup_class == setup_class_unknown
          then write_types true device_type inferred setup_classes 0 m
          else write device_type setup_class inferred m;
    }
