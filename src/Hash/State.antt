-- ===== src/Hash/State.antt =====
-- The state of the hash manager, and what is called when its objects go.
use windows_system_wide_filt.Base.{
  ℕ, Bool, List, Option, erase, false, if◌then◌else◌, lookup, none, some, true, update, ◌-◌, ◌≡◌,
}
use windows_system_wide_filt.Object.{Store, Flags, TypeInitializer}

-- `OC_HASH_OBJECT`. `lines` is the array of hash heads, `none` for `NULL`; a line has the addresses
-- of its entries, from the head. `KeyValueToHashIndexFunction` is left out: the code stores
-- `OcHsUniversalHashKeyFunction` there always.
pub record HashObject : Type 0 where
  pub from_pool : Bool
  pub number_of_hash_lines : ℕ
  pub lines : Option (List (List ℕ))

-- `FunctionForContext`, with what it does to the client's state.
abbrev pub FunctionForContext : Type 0 → Type 0
FunctionForContext C = ℕ → C → C

-- `OC_HASH_ENTRY_OBJECT`.
pub record HashEntryObject (C : Type 0) : Type 0 where
  pub purge_disabled : ℕ
  pub key_value : ℕ
  pub context : ℕ
  pub delete_context_function : Option (FunctionForContext C)

-- `g_IsHashManagerInitialized`, `g_OcHsEventHashObjectTypeUninitialized`, the bodies of the objects
-- by address, the number of arrays of heads that are allocated, and the client's state.
pub record HashState (C : Type 0) : Type 0 where
  pub is_hash_manager_initialized : Bool
  pub type_uninitialized : Bool
  pub hashes : List (ℕ × HashObject)
  pub entries : List (ℕ × HashEntryObject C)
  pub arrays : ℕ
  pub client : C

-- The addresses of `g_OcHsHashObjectType` and `g_OcHsHashEntryObjectType`.
abbrev pub hash_object_type : ℕ
hash_object_type = 1

abbrev pub hash_entry_object_type : ℕ
hash_entry_object_type = 2

abbrev pub no_flags : Flags
no_flags = record {
  marked_for_deletion = false;
  use_std_pool_allocator = false;
  objects_in_list = false;
  zero_object_body = false;
}

module _ {C : Type 0} where
  abbrev pub call_context : Option (FunctionForContext C) → ℕ → C → C
  call_context none context client = client
  call_context (some function) context client = function context client

  -- `OcHsDeleteHashObject`, and the body that goes with the object.
  unfoldable pub delete_hash_object : ℕ → HashState C → HashState C
  delete_hash_object address s = elim (lookup address s.hashes) [
    | none ↦ s
    | some h ↦
        let rest = erase address s.hashes in
        if h.from_pool
        then elim h.lines [
          | none ↦ record s { hashes = rest }
          | some heads ↦ record s { hashes = rest; arrays = s.arrays - 1 }
        ]
        else record s { hashes = rest }
  ]

  -- `OcHsDeleteHashEntryObject`, and the body that goes with the object.
  unfoldable pub delete_hash_entry_object : ℕ → HashState C → HashState C
  delete_hash_entry_object address s = elim (lookup address s.entries) [
    | none ↦ s
    | some e ↦ record s {
      entries = erase address s.entries;
      client = call_context e.delete_context_function e.context s.client;
    }
  ]

  -- `OcHsDeleteHashObjectType`.
  unfoldable pub delete_hash_object_type : ℕ → HashState C → HashState C
  delete_hash_object_type address s = record s { type_uninitialized = true }

  -- The initializers of `OcHsInitializeHashManager`; the sizes are those of the 32-bit build.
  abbrev pub hash_object_initializer : TypeInitializer (HashState C)
  hash_object_initializer = record {
    flags = no_flags;
    tag = 0x6848634f;
    objects_body_size = 16;
    methods = record {
      delete_object_method = some delete_hash_object;
      delete_object_type_method = some delete_hash_object_type;
    };
  }

  abbrev pub hash_entry_object_initializer : TypeInitializer (HashState C)
  hash_entry_object_initializer = record {
    flags = no_flags;
    tag = 0x6548634f;
    objects_body_size = 24;
    methods = record {
      delete_object_method = some delete_hash_entry_object;
      delete_object_type_method = none;
    };
  }

  -- Overwrite the body of an entry, and that of a hash object.
  abbrev pub with_entry : ℕ → HashEntryObject C → Store (HashState C) → Store (HashState C)
  with_entry address e s = record s {
    client = record s.client { entries = update address e s.client.entries };
  }

  abbrev pub with_hash : ℕ → HashObject → Store (HashState C) → Store (HashState C)
  with_hash address h s = record s {
    client = record s.client { hashes = update address h s.client.hashes };
  }

  -- Call a context function on the client's state.
  abbrev pub with_context :
      Option (FunctionForContext C) → ℕ → Store (HashState C) → Store (HashState C)
  with_context function context s = record s {
    client = record s.client { client = call_context function context s.client.client };
  }

  pub delete_hash_entry_object-eq :
      (entry : ℕ) (e : HashEntryObject C) (s : HashState C)
      → lookup entry s.entries ≡ some e
      → delete_hash_entry_object entry s ≡ record s {
        entries = erase entry s.entries;
        client = call_context e.delete_context_function e.context s.client;
      }
  unfolding delete_hash_entry_object
  delete_hash_entry_object-eq entry e s there = rw (delete_hash_entry_object, there)
