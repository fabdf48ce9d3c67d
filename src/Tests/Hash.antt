-- ===== src/Tests/Hash.antt =====
-- The hash table on a store with one hash object of two lines, with one entry on the second.
use windows_system_wide_filt.Base.{
  ℕ, List, [], ◌∷◌, some, none, lookup, ◌≡◌, refl, true, false, arith, success, count,
}
use windows_system_wide_filt.Object.{Store, ObjectType, ObjectHeader}
use windows_system_wide_filt.Hash.State.{
  HashState, HashObject, HashEntryObject, FunctionForContext, no_flags, hash_object_initializer,
  hash_entry_object_initializer, hash_object_type, hash_entry_object_type,
}
use windows_system_wide_filt.Hash.Operations.{
  create_hash, find_context_by_key_value, find_under_lock, find_after_lock, insert_context_in_hash,
  remove_context_by_key_value, initialize_hash_manager, uninitialize_hash_manager, hash_line,
  universal_hash_key_function, first_with_key,
}
use windows_system_wide_filt.Hash.Sweep.{traverse_all_entries_in_hash, purge_entry}
use windows_system_wide_filt.Hash.Find.{Leads, Stands}
use windows_system_wide_filt.Hash.Remove.{Standing}
use windows_system_wide_filt.Hash.Insert.{Room}
use windows_system_wide_filt.Hash.Interleaved.{context_outlives_removal}
use windows_system_wide_filt.Hash.Roundtrip.{insert-find, insert-remove}
use windows_system_wide_filt.Hash.Create.{Ready}
use windows_system_wide_filt.Hash.Manager.{Idle, restart_has_no_types}
use windows_system_wide_filt.Hash.Purge.{AtHead, purge-remove}
use windows_system_wide_filt.Hash.Traverse.{
  traverse-all_contexts, AllStand, LinesStand, contexts, call_all, all_contexts,
}

-- Context functions that log.
abbrev use_it : FunctionForContext (List ℕ)
use_it context seen = context ∷ seen

abbrev drop_it : FunctionForContext (List ℕ)
drop_it context seen = 0 ∷ context ∷ seen

abbrev hash_type : ℕ → ObjectType (HashState (List ℕ))
hash_type count = record {
  ref_count = count;
  flags = no_flags;
  list_head = [];
  methods = hash_object_initializer.methods;
  lookaside = true;
  objects_body_size = 16;
  tag = 0x6848634f;
}

abbrev entry_type : ℕ → ObjectType (HashState (List ℕ))
entry_type count = record {
  ref_count = count;
  flags = no_flags;
  list_head = [];
  methods = hash_entry_object_initializer.methods;
  lookaside = true;
  objects_body_size = 24;
  tag = 0x6548634f;
}

abbrev table : HashObject
table = record { from_pool = true; number_of_hash_lines = 2; lines = some ([] ∷ (200 ∷ []) ∷ []) }

abbrev held_context : HashEntryObject (List ℕ)
held_context = record {
  purge_disabled = 0;
  key_value = 32;
  context = 7;
  delete_context_function = none;
}

abbrev entry_header : ObjectHeader
entry_header = record { ref_count = 1; object_type = 2; zeroed = 0 }

abbrev table_header : ObjectHeader
table_header = record { ref_count = 2; object_type = 1; zeroed = 0 }

abbrev store : Store (HashState (List ℕ))
store = record {
  initialized = true;
  types = (2, entry_type 1) ∷ (1, hash_type 1) ∷ [];
  objects = (200, entry_header) ∷ (100, table_header) ∷ [];
  client = record {
    is_hash_manager_initialized = true;
    type_uninitialized = false;
    hashes = (100, table) ∷ [];
    entries = (200, held_context) ∷ [];
    arrays = 1;
    client = [];
  };
}

store-Stands : Stands 200 store
unfolding lookup
store-Stands = record {
  body = held_context;
  header = entry_header;
  has_body = refl;
  has_header = refl;
  referenced = omega arith;
  count_room = omega arith;
  purge_room = omega arith;
}

store-Leads : Leads 100 32 store 200
unfolding lookup hash_line universal_hash_key_function first_with_key
store-Leads = record {
  home = table;
  index = 1;
  line = 200 ∷ [];
  stands = store-Stands;
  on_line = refl;
  first = refl;
}

store-Standing : Standing 100 200 entry_header store
unfolding lookup
store-Standing = record {
  type = entry_type 1;
  hash_header = table_header;
  typed = refl;
  has_type = refl;
  methods = refl;
  unmarked = refl;
  has_hash = refl;
  owned = omega arith;
  hash_small = omega arith;
  apart = refl;
  distinct = (refl, (refl, tt));
  bodies_distinct = (refl, tt);
}

store-Room : Room 100 32 300 store
unfolding lookup universal_hash_key_function
store-Room = record {
  home = table;
  index = 1;
  heads = [] ∷ (200 ∷ []) ∷ [];
  line = 200 ∷ [];
  type = entry_type 1;
  hash_header = table_header;
  has_hash = refl;
  hashed = refl;
  has_heads = refl;
  has_line = refl;
  has_hash_header = refl;
  owned = omega arith;
  hash_room = omega arith;
  has_type = refl;
  initialised = (refl, refl);
  type_room = omega arith;
  free_header = refl;
  free_body = refl;
  distinct = (refl, (refl, tt));
  bodies_distinct = (refl, tt);
}

store-Ready : Ready 400 store
unfolding lookup
store-Ready = record {
  type = hash_type 1;
  has_type = refl;
  methods = refl;
  flags = refl;
  type_room = omega arith;
  free_header = refl;
  free_body = refl;
}

context_outlives_removal_example :
    (s1 : Store (HashState (List ℕ))) × (s2 : Store (HashState (List ℕ))) × (s3 : Store
      (HashState (List ℕ)))
    × (find_under_lock 100 32 store ≡ some (s1, some 200))
    × (remove_context_by_key_value 100 32 (some drop_it) s1 ≡ some s2)
    × (s2.client.client ≡ [])
    × (find_after_lock (some use_it) 200 s2 ≡ some (s3, 7))
    × (s3.client.client ≡ 0 ∷ 7 ∷ 7 ∷ [])
    × (lookup 200 s3.client.entries ≡ none)
unfolding store-Leads store-Stands
context_outlives_removal_example =
    context_outlives_removal 100 32 store store-Leads store-Standing refl (omega arith)
      (some drop_it) (some use_it)

insert-find_example :
    (s' : Store (HashState (List ℕ))) × (insert_context_in_hash 100 32 9
        (some use_it)
        (some 300)
        store
      ≡ some (s', success))
    × (find_context_by_key_value 100 32 none s' ≡ some (s', 9))
insert-find_example = insert-find 100 32 9 300 store store-Room (some use_it) none refl

insert-remove_example :
    (s' : Store (HashState (List ℕ))) × (insert_context_in_hash 100 32 9
        (some use_it)
        (some 300)
        store
      ≡ some (s', success))
    × (remove_context_by_key_value 100 32 (some drop_it) s'
        ≡ some (record store { client = record store.client { client = 0 ∷ 9 ∷ 9 ∷ [] } }))
insert-remove_example = insert-remove 100 32 9 300 store store-Room (some use_it) drop_it refl

abbrev idle_store : Store (HashState (List ℕ))
idle_store = record store {
  types = (2, entry_type 0) ∷ (1, hash_type 0) ∷ [];
  objects = [];
  client = record store.client { hashes = []; entries = []; arrays = 0 };
}

idle_store-Idle : Idle idle_store
unfolding lookup
idle_store-Idle = record {
  objects_initialized = refl;
  running = refl;
  hash_type = hash_type 0;
  entry_type = entry_type 0;
  has_hash_type = refl;
  has_entry_type = refl;
  no_hashes = refl;
  no_entries = refl;
  hash_methods = refl;
  entry_methods = refl;
  distinct = (refl, (refl, tt));
}

restart_has_no_types_example :
    (s' : Store (HashState (List ℕ))) × (uninitialize_hash_manager idle_store ≡ some (s', true))
    × (lookup hash_object_type s'.types ≡ none)
    × (lookup hash_entry_object_type s'.types ≡ none)
    × (initialize_hash_manager s' ≡ (s', success))
    × (create_hash 4 (some 500) true s' ≡ none)
restart_has_no_types_example = restart_has_no_types idle_store 4 (some 500) true idle_store-Idle

traverse-all_contexts_example :
    traverse_all_entries_in_hash 100 use_it store
    ≡ some (record store { client = record store.client { client = 7 ∷ [] } })
unfolding lookup LinesStand AllStand contexts all_contexts call_all
traverse-all_contexts_example =
    traverse-all_contexts 100 store use_it table ([] ∷ (200 ∷ []) ∷ []) refl refl refl
      (tt, ((store-Stands, tt), tt))

store-AtHead : AtHead 100 1 200 [] store
unfolding lookup universal_hash_key_function
store-AtHead = record {
  home = table;
  heads = [] ∷ (200 ∷ []) ∷ [];
  body = held_context;
  has_hash = refl;
  has_heads = refl;
  has_line = refl;
  has_body = refl;
  hashed = refl;
  enabled = refl;
}

purge-remove_example :
    purge_entry 100 1 (some drop_it) 200 [] store
    ≡ remove_context_by_key_value 100 32 (some drop_it) store
unfolding store-AtHead
purge-remove_example = purge-remove 100 1 200 [] store store-AtHead (some drop_it)
