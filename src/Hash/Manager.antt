-- ===== src/Hash/Manager.antt =====
-- Starting and stopping the hash manager, and creating a hash object.
use windows_system_wide_filt.Base.{
  ℕ, Bool, Distinct, Distinct-erase, Option, erase, lookup, lookup-erase, lookup-erase_absent,
  lookup-erase_self, none, some, success, true, ◌≡◌,
}
use windows_system_wide_filt.Object.{
  Store, ObjectType, create_object, create_object_ex, delete_object_type,
}
use windows_system_wide_filt.Hash.State.{
  HashState, delete_hash_object_type, hash_entry_object_initializer, hash_entry_object_type,
  hash_object_initializer, hash_object_type,
}
use windows_system_wide_filt.Hash.Operations.{
  create_hash, initialize_hash_manager, uninitialize_hash_manager,
}

module _ {C : Type 0} (s : Store (HashState C)) where
  -- A manager that runs, whose two types have no objects.
  pub record Idle : Type 0 where
    pub objects_initialized : s.initialized ≡ true
    pub running : s.client.is_hash_manager_initialized ≡ true
    pub hash_type : ObjectType (HashState C)
    pub entry_type : ObjectType (HashState C)
    pub has_hash_type : lookup hash_object_type s.types ≡ some hash_type
    pub has_entry_type : lookup hash_entry_object_type s.types ≡ some entry_type
    pub no_hashes : hash_type.ref_count ≡ 0
    pub no_entries : entry_type.ref_count ≡ 0
    pub hash_methods : hash_type.methods ≡ hash_object_initializer.methods
    pub entry_methods : entry_type.methods ≡ hash_entry_object_initializer.methods
    pub distinct : Distinct s.types

  -- The store without the two types.
  abbrev stopped : Store (HashState C)
  stopped = record s {
    types = erase hash_object_type (erase hash_entry_object_type s.types);
    client = record s.client { type_uninitialized = true };
  }

  uninitialize-stopped : Idle → uninitialize_hash_manager s ≡ some (stopped, true)
  unfolding uninitialize_hash_manager delete_object_type delete_hash_object_type
  uninitialize-stopped idle =
      let look = lookup-erase hash_entry_object_type hash_object_type s.types idle.distinct in
      rw (
        idle.running, idle.has_entry_type, idle.no_entries, idle.entry_methods, look,
        idle.has_hash_type, idle.no_hashes, idle.hash_methods,
      )

  -- The hash manager cannot be started again: when `OcHsUninitializeHashManager` stops a manager whose
  -- types have no objects, its wait is over at once and both types are gone; but the flag stays set,
  -- so that `OcHsInitializeHashManager` then returns success and initialises nothing, and
  -- `OcHsCreateHash`, whatever it is asked, uses a type that is not there.
  pub restart_has_no_types :
      (number : ℕ) (allocated : Option ℕ) (array : Bool)
      → Idle
      → (s' : Store (HashState C)) × (uninitialize_hash_manager s ≡ some (s', true))
        × (lookup hash_object_type s'.types ≡ none)
        × (lookup hash_entry_object_type s'.types ≡ none)
        × (initialize_hash_manager s' ≡ (s', success))
        × (create_hash number allocated array s' ≡ none)
  unfolding initialize_hash_manager create_hash create_object create_object_ex
  restart_has_no_types number allocated array idle =
      let no_hash =
        lookup-erase_self hash_object_type (erase hash_entry_object_type s.types)
          (Distinct-erase hash_entry_object_type s.types idle.distinct) in
      (
        stopped,
        uninitialize-stopped idle,
        no_hash,
        lookup-erase_absent hash_object_type hash_entry_object_type
            (erase hash_entry_object_type s.types)
            (lookup-erase_self hash_entry_object_type s.types idle.distinct),
        rw (idle.objects_initialized, idle.running),
        rw no_hash,
      )
