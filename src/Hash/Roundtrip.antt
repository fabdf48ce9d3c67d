-- ===== src/Hash/Roundtrip.antt =====
-- An insertion, and then a search or a removal by the same key.
use windows_system_wide_filt.Base.{
  ℕ, ==_refl, Option, arith, get_elem?-set_self, lookup, lookup-update_other, lookup-update_self,
  some, ◌∙◌, ◌∷◌, ◌≡◌, Distinct, Distinct-update, ap, false, refl, success, ◌+◌, ◌<◌, ◌==◌, ◌^◌,
  ◌≤◌, dec32, erase, remove, set-set, set_self, update, update-update, update_self, ◌-◌,
  erase-cons_self, update-cons_other, sym,
}
use windows_system_wide_filt.Object.{Store, ObjectType}
use windows_system_wide_filt.Object.Preserve.{left}
use windows_system_wide_filt.Hash.State.{
  HashState, FunctionForContext, call_context, hash_entry_object_type, with_context,
}
use windows_system_wide_filt.Hash.Operations.{
  hash_line, first_with_key, universal_hash_key_function, find_context_by_key_value,
  insert_context_in_hash, remove_context_by_key_value, set_line,
}
use windows_system_wide_filt.Hash.Find.{Leads, find_context-eq}
use windows_system_wide_filt.Hash.Insert.{
  Room, inserted, longer, more_hash, new_entry, new_header, entry_ne_hash, insert-inserted,
}
use windows_system_wide_filt.Hash.Remove.{remove-taken_out, taken_out, Standing}

module _ {C : Type 0} (hash key context entry : ℕ) (s : Store (HashState C))
    (room : Room hash key entry s) (function : Option (FunctionForContext C)) where
  abbrev after : Store (HashState C)
  after = inserted hash key context entry s room function

  new_line :
      hash_line hash key after
      ≡ some (longer hash key context entry s room function, room.index, entry ∷ room.line)
  unfolding hash_line universal_hash_key_function
  new_line =
      rw
        (lookup-update_self hash (longer hash key context entry s room function) room.home
          s.client.hashes room.has_hash)
        (rw
          (room.hashed, get_elem?-set_self room.heads room.index (entry ∷ room.line) room.has_line))

  new_first : first_with_key key (entry ∷ room.line) after.client.entries ≡ some (some entry)
  unfolding first_with_key lookup
  new_first = ground arith

  new_body :
      lookup entry after.client.entries ≡ some (new_entry hash key context entry s room function)
  unfolding lookup
  new_body = rw ==_refl

  new_there : lookup entry after.objects ≡ some (new_header hash key context entry s room function)
  unfolding lookup
  new_there =
      lookup-update_other hash entry (more_hash hash key context entry s room function) _
        (ground (arith, entry_ne_hash hash key context entry s room function))
      ∙ rw ==_refl

  one_reference : (◌≤◌ 1 1) × (1 + 1 < 2 ^ 32) × (0 + 1 < 2 ^ 32)
  one_reference = omega arith

  abbrev inserted_Leads : Leads hash key after entry
  inserted_Leads = record {
    home = longer hash key context entry s room function;
    index = room.index;
    line = entry ∷ room.line;
    stands = record {
      body = new_entry hash key context entry s room function;
      header = new_header hash key context entry s room function;
      has_body = new_body;
      has_header = new_there;
      referenced = one_reference.0;
      count_room = one_reference.1;
      purge_room = one_reference.2;
    };
    on_line = new_line;
    first = new_first;
  }

  -- Inserted and found: a context that is inserted under a key, with the lines, types and memory that
  -- the insertion finds in order and no count at its end, is the one that
  -- `OcHsFindContextByKeyValue` then returns for the key, whatever contexts the key had before. The
  -- search calls its function on the context, and changes nothing else.
  pub insert-find :
      (use_function : Option (FunctionForContext C))
      → (context == 0) ≡ false
      → (s' : Store (HashState C)) × (insert_context_in_hash hash key context function
            (some entry)
            s
          ≡ some (s', success))
        × (find_context_by_key_value hash key use_function s'
            ≡ some (with_context use_function context s', context))
  insert-find use_function given = (
    after,
    insert-inserted hash key context entry s room function given,
    find_context-eq hash key after inserted_Leads use_function,
  )

  new_hash_there :
      lookup hash after.objects ≡ some (more_hash hash key context entry s room function)
  unfolding lookup
  new_hash_there =
      lookup-update_self hash (more_hash hash key context entry s room function) room.hash_header _
        (rw (entry_ne_hash hash key context entry s room function) room.has_hash_header)

  new_apart : Distinct after.objects
  new_apart =
      Distinct-update hash (more_hash hash key context entry s room function) _
        (room.free_header, room.distinct)

  abbrev inserted_type : ObjectType (HashState C)
  inserted_type = record room.type { ref_count = room.type.ref_count + 1 }

  new_type_there : lookup hash_entry_object_type after.types ≡ some inserted_type
  new_type_there =
      lookup-update_self hash_entry_object_type inserted_type room.type s.types room.has_type

  new_unmarked : inserted_type.flags.marked_for_deletion ≡ false
  new_unmarked = rw room.initialised.1

  new_bounds : (1 < room.hash_header.ref_count + 1) × (room.hash_header.ref_count + 1 < 2 ^ 32)
  new_bounds = omega (arith, room.owned, room.hash_room)

  abbrev inserted_Standing :
      Standing hash entry (new_header hash key context entry s room function) after
  inserted_Standing = record {
    type = inserted_type;
    hash_header = more_hash hash key context entry s room function;
    typed = refl;
    has_type = new_type_there;
    methods = room.initialised.0;
    unmarked = new_unmarked;
    has_hash = new_hash_there;
    owned = new_bounds.0;
    hash_small = new_bounds.1;
    apart = entry_ne_hash hash key context entry s room function;
    distinct = new_apart;
    bodies_distinct = (room.free_body, room.bodies_distinct);
  }

  types_back : update hash_entry_object_type (left entry inserted_type) after.types ≡ s.types
  types_back =
      let r : dec32 (room.type.ref_count + 1) ≡ room.type.ref_count =
        omega (arith, room.type_room) in
      let e : left entry inserted_type ≡ room.type =
        simp (r, room.initialised.1) (λ i. record room.type { flags = sym room.initialised.1 i }) in
      rw (update-update, e) (update_self hash_entry_object_type room.type s.types room.has_type)

  objects_back :
      update hash
        (record room.hash_header { ref_count = room.hash_header.ref_count + 1 - 1 })
        (erase entry after.objects)
      ≡ s.objects
  objects_back =
      let more = more_hash hash key context entry s room function in
      let new = new_header hash key context entry s room function in
      let ne = entry_ne_hash hash key context entry s room function in
      let r : room.hash_header.ref_count + 1 - 1 ≡ room.hash_header.ref_count = omega arith in
      rw (update-cons_other hash entry more new s.objects ne, erase-cons_self, update-update, r)
        (update_self hash room.hash_header s.objects room.has_hash_header)

  line_back :
      set_line room.index
        (remove entry (entry ∷ room.line))
        (longer hash key context entry s room function)
      ≡ room.home
  unfolding remove
  line_back =
      rw (==_refl, set-set, set_self room.heads room.index room.line room.has_line)
        (rw (← room.has_heads))

  hashes_back :
      update hash
        (set_line room.index
          (remove entry (entry ∷ room.line))
          (longer hash key context entry s room function))
        after.client.hashes
      ≡ s.client.hashes
  hashes_back =
      rw (line_back, update-update) (update_self hash room.home s.client.hashes room.has_hash)

  entries_back : erase entry after.client.entries ≡ s.client.entries
  entries_back = erase-cons_self entry _ s.client.entries

  undone :
      (delete_function : FunctionForContext C)
      → taken_out hash key after inserted_Leads inserted_Standing (some delete_function)
        ≡ record s {
          client = record s.client {
            client = delete_function context (call_context function context s.client.client);
          };
        }
  undone delete_function = λ i. record s {
    types = types_back i;
    objects = objects_back i;
    client = record s.client {
      hashes = hashes_back i;
      entries = entries_back i;
      client = delete_function context (call_context function context s.client.client);
    };
  }

  -- Inserted and removed: removing a context that has just been inserted undoes the insertion. The
  -- lines, the types, the objects, every count and the other contexts are what they were before it;
  -- the function of the insertion and then that of the removal have been called for the context.
  pub insert-remove :
      (delete_function : FunctionForContext C)
      → (context == 0) ≡ false
      → (s' : Store (HashState C)) × (insert_context_in_hash hash key context function
            (some entry)
            s
          ≡ some (s', success))
        × (remove_context_by_key_value hash key (some delete_function) s'
            ≡ some (record s {
              client = record s.client {
                client = delete_function context (call_context function context s.client.client);
              };
            }))
  insert-remove delete_function given = (
    after,
    insert-inserted hash key context entry s room function given,
    remove-taken_out hash key after inserted_Leads inserted_Standing (some delete_function) refl
        ∙ ap some (undone delete_function),
  )
