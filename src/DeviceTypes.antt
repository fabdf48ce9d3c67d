-- ===== src/DeviceTypes.antt =====
-- What kind of device a request is for: the tables of types of o_core/o_core/security_descr.c, and the
-- function that goes down the stack of devices and collects their types. The devices that
-- `OcCrTraverseTopDown` of o_core/o_core/devdatabase.c visits are a list, from the top. A table is a
-- function of its indices.
pub mod Setting
pub mod Merged
pub mod Inference
pub mod Tables
use windows_system_wide_filt.Base.{
  ℕ, Bool, Option, List, [], false, if◌then◌else◌, leb, length, ltb, map, none, not, some, true,
  ◌&&◌, ◌++◌, ◌+◌, ◌-◌, ◌==◌, ◌||◌, ◌∷◌, u32_mod, ◌%◌,
}

-- `TYPES_COUNT`, `MINOR_TYPE_BASE`, `DEVICE_TYPE_UNKNOWN`.
abbrev pub types_count : ℕ
types_count = 16

abbrev pub minor_type_base : ℕ
minor_type_base = 256

abbrev pub device_type_unknown : ℕ
device_type_unknown = 0

-- `en_OC_GUID_DEVCLASS_UNKNOWN`.
abbrev pub setup_class_unknown : ℕ
setup_class_unknown = 0

-- The minor types for the classes of a USB device.
abbrev pub minor_type_hidusb : ℕ
minor_type_hidusb = 256 + 12

abbrev pub minor_type_usbprint : ℕ
minor_type_usbprint = 256 + 8

abbrev pub minor_type_usbstor : ℕ
minor_type_usbstor = 256 + 25

-- `OC_FULL_DEVICE_TYPE`.
pub record FullDeviceType : Type 0 where
  pub fdo_major_type : ℕ
  pub pdo_major_type : ℕ
  pub pdo_minor_type : ℕ

-- `OC_FULL_DEVICE_TYPE_STACK`, with its valid entries: `NumberOfValidEntries` is their number.
pub record TypeStack : Type 0 where
  pub number_of_entries : ℕ
  pub full_device_types : List FullDeviceType

-- What `OC_DEVICE_TYPE_CONTEXT` is used for.
pub record TypeContext : Type 0 where
  pub device_type_stack : TypeStack
  pub buffer_exhausted : Bool

-- The property object of a device: the setup class, and the class of a USB device.
pub record DeviceProperty : Type 0 where
  pub setup_class_guid_index : ℕ
  pub usb_class_id : Option ℕ

-- The bus that enumerates a device, and its property object, if it has one.
pub record Device : Type 0 where
  pub enumerator : ℕ
  pub device_property_object : Option DeviceProperty

-- The tables.
pub record TypeTables : Type 0 where
  pub upper_and_lower_types_to_minor_type : ℕ → ℕ → ℕ
  pub upper_and_lower_types_to_major_type : ℕ → ℕ → ℕ
  pub device_type_and_setup_class_to_type : ℕ → ℕ → ℕ
  pub device_setup_class_to_device_type : ℕ → ℕ
  pub device_enumerator_to_device_type : ℕ → ℕ

-- `OcSdGetSdTableIndexByDeviceType`. The arithmetic is that of 32-bit words.
unfoldable pub sd_table_index_by_device_type : ℕ → ℕ
sd_table_index_by_device_type device_type =
    if ltb device_type types_count
    then device_type
    else (device_type + (u32_mod - minor_type_base + types_count)) % u32_mod

-- `OcSdGetDeviceTypeBySdTableIndex`.
unfoldable pub device_type_by_sd_table_index : ℕ → ℕ
device_type_by_sd_table_index index =
    if ltb index types_count then index else (index + (minor_type_base - types_count)) % u32_mod

-- `OcGetFdoMofifiedType` and what is done with it: the type of a device, given the type of a lower bus.
unfoldable pub redefined_type : TypeTables → (fdo_type pdo_type : ℕ) → ℕ
redefined_type t fdo_type pdo_type =
    let redefined = t.upper_and_lower_types_to_major_type fdo_type pdo_type in
    if not (redefined == device_type_unknown) && not (redefined == fdo_type)
    then redefined
    else fdo_type

-- `OcGetNodeBareDeviceType`.
unfoldable pub node_bare_device_type :
    TypeTables → (bus_enumerator setup_class_guid_index : ℕ) → FullDeviceType
node_bare_device_type t bus_enumerator setup_class_guid_index =
    let fdo = t.device_setup_class_to_device_type setup_class_guid_index in
    let pdo = t.device_enumerator_to_device_type bus_enumerator in
    record {
      fdo_major_type = redefined_type t fdo pdo;
      pdo_major_type = pdo;
      pdo_minor_type = t.device_type_and_setup_class_to_type pdo setup_class_guid_index;
    }

-- The minor type for a class of USB devices, if it has one.
abbrev pub usb_minor_type : (usb_class_id otherwise : ℕ) → ℕ
usb_minor_type usb_class_id otherwise =
    if usb_class_id == 3
    then minor_type_hidusb
    else (if usb_class_id == 8
        then minor_type_usbstor
        else (if usb_class_id == 7 then minor_type_usbprint else otherwise))

-- `OcFixUpBareDeviceTypes`.
unfoldable pub fix_up_bare_device_types : Device → FullDeviceType → FullDeviceType
fix_up_bare_device_types d f = elim d.device_property_object [
  | none ↦ f
  | some property ↦ elim property.usb_class_id [
    | none ↦ f
    | some usb_class_id ↦ record f { pdo_minor_type = usb_minor_type usb_class_id f.pdo_minor_type }
  ]
]

-- The first four steps for a device.
unfoldable pub bare_device_types : TypeTables → Device → FullDeviceType
bare_device_types t d =
    let setup_class : ℕ = elim d.device_property_object [
      | none ↦ setup_class_unknown
      | some property ↦ property.setup_class_guid_index
    ] in
    fix_up_bare_device_types d (node_bare_device_type t d.enumerator setup_class)

-- Whether two entries say the same.
abbrev pub same_types : FullDeviceType → FullDeviceType → Bool
same_types f g =
    (f.fdo_major_type == g.fdo_major_type)
    && (f.pdo_major_type == g.pdo_major_type)
    && (f.pdo_minor_type == g.pdo_minor_type)

-- The fifth step, for all entries.
abbrev pub redefine : TypeTables → (pdo_type : ℕ) → FullDeviceType → FullDeviceType
redefine t pdo_type f = record f { fdo_major_type = redefined_type t f.fdo_major_type pdo_type }

-- Whether the last entry is this one.
abbrev pub is_last : FullDeviceType → List FullDeviceType → Bool
is_last f [] = false
is_last f (g ∷ []) = same_types f g
is_last f (g ∷ h ∷ gs) = is_last f (h ∷ gs)

-- `OcCrDetermineDeviceTypeInternal`: the context, and whether to go on.
unfoldable pub determine_device_type_internal :
    TypeTables → Device → TypeContext → TypeContext × Bool
determine_device_type_internal t d c =
    let stack = c.device_type_stack in
    if length stack.full_device_types == stack.number_of_entries
    then (record c { buffer_exhausted = true }, false)
    else (let f = bare_device_types t d in
        let redefined = map (redefine t f.pdo_major_type) stack.full_device_types in
        (
          record c {
            device_type_stack = record stack {
              full_device_types = if is_last f redefined then redefined else redefined ++ f ∷ [];
            };
          },
          true,
        ))

-- `OcCrTraverseTopDown`, over the devices that there are.
unfoldable pub traverse_top_down : {C : Type 0} → (Device → C → C × Bool) → List Device → C → C
traverse_top_down node_function [] c = c
traverse_top_down node_function (d ∷ devices) c =
    let r = node_function d c in
    let rest = traverse_top_down node_function devices r.0 in if r.1 then rest else r.0

-- `OcCrGetFullDeviceType`: the stack, and what it returns.
unfoldable pub full_device_type : TypeTables → List Device → TypeStack → TypeStack × Bool
full_device_type t devices stack =
    let empty = record stack { full_device_types = [] } in
    if (stack.number_of_entries == 0) || leb 32 stack.number_of_entries
    then (empty, true)
    else (let c =
          traverse_top_down (determine_device_type_internal t) devices
            (record { device_type_stack = empty; buffer_exhausted = false }) in
        (c.device_type_stack, not c.buffer_exhausted))
