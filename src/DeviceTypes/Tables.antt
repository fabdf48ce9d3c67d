-- ===== src/DeviceTypes/Tables.antt =====
-- The tables of types of o_core/o_core/security_descr.c.
use windows_system_wide_filt.Base.{
  ℕ, Bool, arith, false, if◌then◌else◌, leb, ltb, suc, true, zero, ◌&&◌, ◌+◌, ◌<◌, ◌==◌, ◌||◌, ◌≡◌,
  ◌≤◌, ◌⊎◌, ◌^◌,
}
use windows_system_wide_filt.DeviceTypes.{
  types_count, device_type_by_sd_table_index, device_type_unknown, minor_type_base,
  sd_table_index_by_device_type, TypeTables,
}
use windows_system_wide_filt.DeviceTypes.Setting.{
  set_inferred_type, write, write_types, set_major_types_redefinition,
}

write_types-row :
    (fixed inferred left i : ℕ) (m : ℕ → ℕ → ℕ) (upper lower : ℕ)
    → write_types true fixed inferred left i m upper lower ≡ (
        if (fixed == upper) && (leb i lower && ltb lower (i + left))
        then inferred
        else m upper lower)
unfolding write_types
write_types-row fixed inferred zero i m upper lower = ground arith
write_types-row fixed inferred (suc left) i m upper lower =
    ground
      (arith, write_types-row fixed inferred left (i + 1) (write fixed i inferred m) upper lower)

write_types-column :
    (fixed inferred left i : ℕ) (m : ℕ → ℕ → ℕ) (upper lower : ℕ)
    → write_types false fixed inferred left i m upper lower ≡ (
        if (fixed == lower) && (leb i upper && ltb upper (i + left))
        then inferred
        else m upper lower)
unfolding write_types
write_types-column fixed inferred zero i m upper lower = ground arith
write_types-column fixed inferred (suc left) i m upper lower =
    ground
      (arith, write_types-column fixed inferred left (i + 1) (write i fixed inferred m) upper lower)

-- Whether the types of a device and a bus are meant by those of a call, where an unknown one stands for
-- all.
abbrev pub is_meant : (upper lower upper' lower' : ℕ) → Bool
is_meant upper lower upper' lower' =
    ((upper == upper') || (upper == device_type_unknown))
    && ((lower == lower') || (lower == device_type_unknown))

set_inferred_type-exact :
    (upper lower inferred : ℕ) (m : ℕ → ℕ → ℕ) (upper' lower' : ℕ)
    → ((upper == device_type_unknown) && (lower == device_type_unknown)) ≡ false
    → upper' < types_count
    → lower' < types_count
    → set_inferred_type upper lower inferred m upper' lower'
      ≡ (if is_meant upper lower upper' lower' then inferred else m upper' lower')
unfolding set_inferred_type
set_inferred_type-exact upper lower inferred m upper' lower' one_known small small' = ground (
  arith,
  write_types-row upper inferred types_count 0 m upper' lower',
  write_types-column lower inferred types_count 0 m upper' lower',
)

-- A table of types is written where it is meant to be: after `OcSetMajorTypesRedefinition` the types of a
-- device and a bus lead to the new type exactly if the call means them, where an unknown type in the call
-- stands for all; all other pairs lead where they did. All four types are below the number of types,
-- and a type in the call is known, as the function asserts.
pub set_redefinition-exact :
    (upper lower inferred : ℕ) (t : TypeTables) (upper' lower' : ℕ)
    → upper < types_count
    → lower < types_count
    → ((upper == device_type_unknown) && (lower == device_type_unknown)) ≡ false
    → upper' < types_count
    → lower' < types_count
    → (set_major_types_redefinition upper lower inferred t).upper_and_lower_types_to_major_type
        upper' lower'
      ≡ (if is_meant upper lower upper' lower'
          then inferred
          else t.upper_and_lower_types_to_major_type upper' lower')
unfolding set_major_types_redefinition
set_redefinition-exact upper lower inferred t upper' lower' inside inside' one_known small small' =
    set_inferred_type-exact upper lower inferred t.upper_and_lower_types_to_major_type upper' lower'
      one_known small small'

-- A device type and its place in the table of security descriptors determine each other.
pub index-type :
    (device_type : ℕ)
    → (device_type < types_count) ⊎ (minor_type_base ≤ device_type)
    → device_type < 2 ^ 32
    → device_type_by_sd_table_index (sd_table_index_by_device_type device_type) ≡ device_type
unfolding device_type_by_sd_table_index sd_table_index_by_device_type
index-type device_type known small = ground arith
