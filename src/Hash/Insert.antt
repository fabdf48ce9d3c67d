-- ===== src/Hash/Insert.antt =====
-- What inserting a context does, that it is then found, and that removing it undoes the insertion.
use windows_system_wide_filt.Base.{
  ℕ, ==_iff, Bool-cases, Distinct, List, Option, arith, false, get_elem?, inc32, inl, inr, lookup,
  none, set, some, success, update, ◌+◌, ◌<◌, ◌==◌, ◌^◌, ◌∷◌, ◌≡◌, ◌≤◌,
}
use windows_system_wide_filt.Object.{
  Store, ObjectHeader, ObjectType, create_object, create_object_ex, place_object, reference_object,
}
use windows_system_wide_filt.Hash.State.{
  HashState, FunctionForContext, HashEntryObject, HashObject, call_context,
  hash_entry_object_initializer, hash_entry_object_type, no_flags,
}
use windows_system_wide_filt.Hash.Operations.{
  hash_line, insert_context_in_hash, universal_hash_key_function, place_entry,
}

-- What an insertion finds: the hash object with the key's line, its header, and the type of the
-- entries, which is not marked for deletion; no count is at its end, and `entry` is free memory.
pub record Room {C : Type 0} (hash key entry : ℕ) (s : Store (HashState C)) : Type 0 where
  pub home : HashObject
  pub index : ℕ
  pub heads : List (List ℕ)
  pub line : List ℕ
  pub type : ObjectType (HashState C)
  pub hash_header : ObjectHeader
  pub has_hash : lookup hash s.client.hashes ≡ some home
  pub hashed : universal_hash_key_function home key ≡ some index
  pub has_heads : home.lines ≡ some heads
  pub has_line : get_elem? heads index ≡ some line
  pub has_hash_header : lookup hash s.objects ≡ some hash_header
  pub owned : 1 ≤ hash_header.ref_count
  pub hash_room : hash_header.ref_count + 1 < 2 ^ 32
  pub has_type : lookup hash_entry_object_type s.types ≡ some type
  pub initialised : (type.methods ≡ hash_entry_object_initializer.methods) × (type.flags ≡ no_flags)
  pub type_room : type.ref_count + 1 < 2 ^ 32
  pub free_header : lookup entry s.objects ≡ none
  pub free_body : lookup entry s.client.entries ≡ none
  pub distinct : Distinct s.objects
  pub bodies_distinct : Distinct s.client.entries

module _ {C : Type 0} (hash key context entry : ℕ) (s : Store (HashState C))
    (room : Room hash key entry s) (function : Option (FunctionForContext C)) where
  abbrev pub new_entry : HashEntryObject C
  new_entry = record {
    purge_disabled = 0;
    key_value = key;
    context = context;
    delete_context_function = none;
  }

  abbrev pub new_header : ObjectHeader
  new_header = record { ref_count = 1; object_type = hash_entry_object_type; zeroed = 0 }

  abbrev pub more_hash : ObjectHeader
  more_hash = record room.hash_header { ref_count = room.hash_header.ref_count + 1 }

  abbrev pub longer : HashObject
  longer = record room.home { lines = some (set room.heads room.index (entry ∷ room.line)) }

  -- The store with the new entry at the head of its line.
  abbrev pub inserted : Store (HashState C)
  inserted = record s {
    types =
        update hash_entry_object_type (record room.type { ref_count = room.type.ref_count + 1 })
          s.types;
    objects = update hash more_hash ((entry, new_header) ∷ s.objects);
    client = record s.client {
      hashes = update hash longer s.client.hashes;
      entries = (entry, new_entry) ∷ s.client.entries;
      client = call_context function context s.client.client;
    };
  }

  pub entry_ne_hash : (entry == hash) ≡ false
  entry_ne_hash = elim (Bool-cases (entry == hash)) [
    | inl same ↦
        let e : lookup hash s.objects ≡ none = rw (← (==_iff entry hash).0 same) room.free_header in
        absurd (ground (arith, room.has_hash_header))
    | inr other ↦ other
  ]

  -- The store when the entry has been created and initialised.
  abbrev created : Store (HashState C)
  created = place_entry entry key context (place_object hash_entry_object_type 0 room.type entry s)

  created_line : hash_line hash key created ≡ some (room.home, room.index, room.line)
  unfolding hash_line place_object
  created_line = rw (room.has_hash, room.hashed, room.has_heads, room.has_line)

  hash_referenced :
      reference_object hash created
      ≡ some (record created { objects = update hash more_hash ((entry, new_header) ∷ s.objects) })
  unfolding reference_object place_object lookup
  hash_referenced =
      let h : inc32 room.hash_header.ref_count ≡ room.hash_header.ref_count + 1 =
        omega (arith, room.hash_room) in
      rw (entry_ne_hash, room.has_hash_header, room.initialised.1, h)

  pub insert-inserted :
      (context == 0) ≡ false
      → insert_context_in_hash hash key context function (some entry) s ≡ some (inserted, success)
  unfolding insert_context_in_hash create_object create_object_ex
  insert-inserted given =
      let r : inc32 room.type.ref_count ≡ room.type.ref_count + 1 = omega (arith, room.type_room) in
      rw (given, room.has_type, created_line, hash_referenced)
        (unfold place_object in rw (r, room.initialised.1, room.has_heads))
