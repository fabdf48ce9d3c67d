-- ===== src/DeviceTypes/Inference.antt =====
-- The types that `OcCrGetFullDeviceType` of o_core/o_core/security_descr.c collects, against what they
-- mean.
use windows_system_wide_filt.Base.{
  ℕ, List, [], false, if◌then◌else◌, length, map, true, ◌++◌, ◌∷◌, ◌≡◌, ◌≤◌, ◌⊎◌,
}
use windows_system_wide_filt.DeviceTypes.{
  FullDeviceType, Device, TypeContext, TypeTables, bare_device_types, is_last, redefine,
}
use windows_system_wide_filt.DeviceTypes.Merged.{Merged}

-- A type as the buses of the devices below redefine it, from the top.
unfoldable pub redefined_below : TypeTables → List Device → FullDeviceType → FullDeviceType
redefined_below t [] f = f
redefined_below t (d ∷ devices) f =
    redefined_below t devices (redefine t (bare_device_types t d).pdo_major_type f)

-- The types of all devices, each as the devices below it redefine it.
unfoldable pub inferred_types : TypeTables → List Device → List FullDeviceType
inferred_types t [] = []
inferred_types t (d ∷ devices) =
    redefined_below t devices (bare_device_types t d) ∷ inferred_types t devices

-- A stack with so many entries, and these in use.
abbrev pub stack_of : (entries : ℕ) → List FullDeviceType → TypeContext
stack_of entries fs = record {
  device_type_stack = record { number_of_entries = entries; full_device_types = fs };
  buffer_exhausted = false;
}

-- The entries after a device.
abbrev after_device : TypeTables → Device → List FullDeviceType → List FullDeviceType
after_device t d fs =
    let f = bare_device_types t d in
    let redefined = map (redefine t f.pdo_major_type) fs in
    if is_last f redefined then redefined else redefined ++ f ∷ []

-- What the traversal ends with.
abbrev pub Collected : (entries : ℕ) → List FullDeviceType → TypeContext → Type 0
Collected entries gs c =
    ((c.buffer_exhausted ≡ false)
      × Merged c.device_type_stack.full_device_types gs
      × (length c.device_type_stack.full_device_types ≤ entries))
    ⊎ ((c.buffer_exhausted ≡ true) × (length c.device_type_stack.full_device_types ≡ entries))
