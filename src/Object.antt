-- ===== src/Object.antt =====
-- The object manager of common/objects/ocobject.c: object types, reference counts, and the methods
-- that are called when an object or a type goes. An operation that touches an address where no
-- object or no type stands is a fault, `none`. The build is the release build: what stands under
-- DBG checks and poisons, and is left out.
pub mod Invariant
pub mod Preserve
pub mod Operations
pub mod Lifetime
pub mod References
pub mod Others
pub mod Held
use windows_system_wide_filt.Base.{
  ℕ, Bool, List, Option, Status, [], dec32, erase, false, if◌then◌else◌, inc32,
  insufficient_resources, invalid_parameter_2, lookup, none, not, remove, some, success, true,
  update, ◌&&◌, ◌++◌, ◌+◌, ◌==◌, ◌∷◌, ◌>>=◌, u32_mod, ◌%◌,
}

-- `OC_OBJECT_TYPE_FLAGS`, a field for each bit.
pub record Flags : Type 0 where
  pub marked_for_deletion : Bool
  pub use_std_pool_allocator : Bool
  pub objects_in_list : Bool
  pub zero_object_body : Bool

-- `OC_OBJECT_METHODS`. A method is given the address, and changes the state of its client alone.
pub record Methods (S : Type 0) : Type 0 where
  pub delete_object_method : Option (ℕ → S → S)
  pub delete_object_type_method : Option (ℕ → S → S)

-- `OC_OBJECT_TYPE_INITIALIZER`.
pub record TypeInitializer (S : Type 0) : Type 0 where
  pub flags : Flags
  pub tag : ℕ
  pub objects_body_size : ℕ
  pub methods : Methods S

-- `OC_OBJECT_TYPE`. `list_head` holds the addresses of the headers in the list, from its head;
-- `lookaside` says whether the lookaside list has been initialised.
pub record ObjectType (S : Type 0) : Type 0 where
  pub ref_count : ℕ
  pub flags : Flags
  pub list_head : List ℕ
  pub methods : Methods S
  pub lookaside : Bool
  pub objects_body_size : ℕ
  pub tag : ℕ

-- `OC_OBJECT_HEADER`, with the number of bytes of the body that have been zeroed.
pub record ObjectHeader : Type 0 where
  pub ref_count : ℕ
  pub object_type : ℕ
  pub zeroed : ℕ

-- `g_OcObManagerInitialized`, the types and the objects by address, and the state of the clients.
pub record Store (S : Type 0) : Type 0 where
  pub initialized : Bool
  pub types : List (ℕ × ObjectType S)
  pub objects : List (ℕ × ObjectHeader)
  pub client : S

module _ {S : Type 0} where
  -- Call a method, if there is one.
  abbrev pub call : Option (ℕ → S → S) → ℕ → S → S
  call none address client = client
  call (some method) address client = method address client

  unfoldable pub initialize_object_manager : Store S → Store S × Status
  initialize_object_manager s = (record s { initialized = true }, success)

  unfoldable pub uninitialize_object_manager : Store S → Store S
  uninitialize_object_manager s = if not s.initialized then s else record s { initialized = false }

  abbrev pub is_object_manager_initialized : Store S → Bool
  is_object_manager_initialized s = s.initialized

  -- `OcObInitializeObjectType`, over memory that the caller has allocated at `address`.
  unfoldable pub initialize_object_type : TypeInitializer S → ℕ → Store S → Store S
  initialize_object_type initializer address s =
      let flags = record initializer.flags { marked_for_deletion = false } in
      let new : ObjectType S = record {
        ref_count = 0;
        flags = flags;
        list_head = [];
        methods = initializer.methods;
        lookaside = not flags.use_std_pool_allocator;
        objects_body_size = initializer.objects_body_size;
        tag = initializer.tag;
      } in
      record s { types = (address, new) ∷ erase address s.types }

  -- `OcObDeleteObjectType`. A type that goes takes its lookaside list along, and its memory is the
  -- client's again.
  unfoldable pub delete_object_type : ℕ → Store S → Option (Store S)
  delete_object_type address s = do
    type ← lookup address s.types
    if not (type.ref_count == 0)
        then some (
            let marked = record type.flags { marked_for_deletion = true } in
            record s { types = update address (record type { flags = marked }) s.types })
        else some (record s {
          types = erase address s.types;
          client = call type.methods.delete_object_type_method address s.client;
        })

  -- What `OcObCreateObjectEx` does with the memory that it has got: the header, the count of the
  -- type, its list, and the body.
  unfoldable pub place_object : ℕ → ℕ → ObjectType S → ℕ → Store S → Store S
  place_object address additional type body s =
      let listed =
        if type.flags.objects_in_list then type.list_head ++ body ∷ [] else type.list_head in
      let zeroed =
        if type.flags.zero_object_body
        then (type.objects_body_size + additional) % u32_mod
        else 0 in
      record s {
        types =
            update address (record type { ref_count = inc32 type.ref_count; list_head = listed })
              s.types;
        objects =
            (body, record { ref_count = 1; object_type = address; zeroed = zeroed }) ∷ s.objects;
      }

  -- `OcObCreateObjectEx`. `allocated` is what the allocator returns, `none` for `NULL`. The result
  -- has the status and, on success, the body.
  unfoldable pub create_object_ex :
      ℕ → ℕ → Option ℕ → Store S → Option (Store S × Status × Option ℕ)
  create_object_ex address additional allocated s = do
    type ← lookup address s.types
    if not (additional == 0) && not type.flags.use_std_pool_allocator
        then some (s, invalid_parameter_2, none)
        else elim allocated [
          | none ↦ some (s, insufficient_resources, none)
          | some body ↦ some (place_object address additional type body s, success, some body)
        ]

  unfoldable pub create_object : ℕ → Option ℕ → Store S → Option (Store S × Status × Option ℕ)
  create_object address allocated s = create_object_ex address 0 allocated s

  -- `OcObDeleteObject`, for the object at `body` whose header is `header`.
  unfoldable pub delete_object : ℕ → ObjectHeader → Store S → Option (Store S)
  delete_object body header s = do
    type ← lookup header.object_type s.types
    let client = call type.methods.delete_object_method body s.client
    let listed = if type.flags.objects_in_list then remove body type.list_head else type.list_head
    let left = record type { ref_count = dec32 type.ref_count; list_head = listed }
    let s' = record s {
      types = update header.object_type left s.types;
      objects = erase body s.objects;
      client = client;
    }
    if (left.ref_count == 0) && left.flags.marked_for_deletion
        then delete_object_type header.object_type s'
        else some s'

  unfoldable pub dereference_object : ℕ → Store S → Option (Store S)
  dereference_object body s = do
    header ← lookup body s.objects
    let header' = record header { ref_count = dec32 header.ref_count }
    let s' = record s { objects = update body header' s.objects }
    if not (header'.ref_count == 0) then some s' else delete_object body header' s'

  unfoldable pub reference_object : ℕ → Store S → Option (Store S)
  reference_object body s = do
    header ← lookup body s.objects
    some (record s {
      objects = update body (record header { ref_count = inc32 header.ref_count }) s.objects;
    })
