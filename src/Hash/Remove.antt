-- ===== src/Hash/Remove.antt =====
-- What removing a context does: at once where nobody else holds its entry, and later where a thread
-- that is finding it does.
use windows_system_wide_filt.Base.{
  ℕ, Distinct, Option, arith, erase, false, lookup, lookup-update, none, remove, some, update, ◌-◌,
  ◌<◌, ◌==◌, ◌^◌, ◌≡◌, ==_refl, erase-update, lookup-erase, refl,
}
use windows_system_wide_filt.Object.{Store, ObjectHeader, ObjectType, call}
use windows_system_wide_filt.Object.Preserve.{left}
use windows_system_wide_filt.Hash.State.{
  HashState, FunctionForContext, HashEntryObject, HashObject, call_context,
  hash_entry_object_initializer, hash_entry_object_type, with_entry, with_hash,
  delete_hash_entry_object,
}
use windows_system_wide_filt.Hash.Operations.{
  free_removed_hash_entry_object, remove_context_by_key_value, set_delete_function, set_line,
}
use windows_system_wide_filt.Hash.Find.{Leads}
use windows_system_wide_filt.Object.Lifetime.{dereference_more-eq, dereference_last-eq, goes_along}

-- What stands around an entry: its type, which is not marked for deletion, and the hash object, which
-- is referenced by its owner and by its entry.
pub record Standing {C : Type 0} (hash entry : ℕ) (header : ObjectHeader) (s : Store (HashState C))
    : Type 0 where
  pub type : ObjectType (HashState C)
  pub hash_header : ObjectHeader
  pub typed : header.object_type ≡ hash_entry_object_type
  pub has_type : lookup hash_entry_object_type s.types ≡ some type
  pub methods : type.methods ≡ hash_entry_object_initializer.methods
  pub unmarked : type.flags.marked_for_deletion ≡ false
  pub has_hash : lookup hash s.objects ≡ some hash_header
  pub owned : 1 < hash_header.ref_count
  pub hash_small : hash_header.ref_count < 2 ^ 32
  pub apart : (entry == hash) ≡ false
  pub distinct : Distinct s.objects
  pub bodies_distinct : Distinct s.client.entries

-- The delete function that an entry is left with.
abbrev pub kept_function :
    {C : Type 0} → Option (FunctionForContext C) → HashEntryObject C → Option (FunctionForContext C)
kept_function none e = e.delete_context_function
kept_function (some function) e = some function

module _ {C : Type 0} (hash key : ℕ) (s : Store (HashState C)) {entry : ℕ}
    (at : Leads hash key s entry) (st : Standing hash entry at.header s)
    (function : Option (FunctionForContext C)) where
  abbrev pub less_hash : ObjectHeader
  less_hash = record st.hash_header { ref_count = st.hash_header.ref_count - 1 }

  abbrev pub less_header : ObjectHeader
  less_header = record at.header { ref_count = at.header.ref_count - 1 }

  -- The hash object without the entry.
  abbrev pub shorter : HashObject
  shorter = set_line at.index (remove entry at.line) at.home

  -- The entry is off its line, and told what to call when it goes.
  abbrev pub unlinked : Store (HashState C)
  unlinked = with_entry entry (set_delete_function function at.body) (with_hash hash shorter s)

  -- The store after the removal, if others hold the entry.
  abbrev pub still_held : Store (HashState C)
  still_held = record unlinked {
    objects = update hash less_hash (update entry less_header s.objects);
  }

  -- The store after the removal, if nobody does.
  abbrev pub taken_out : Store (HashState C)
  taken_out = record s {
    types = update hash_entry_object_type (left entry st.type) s.types;
    objects = update hash less_hash (erase entry s.objects);
    client = record s.client {
      hashes = update hash shorter s.client.hashes;
      entries = erase entry s.client.entries;
      client = call_context (kept_function function at.body) at.body.context s.client.client;
    };
  }

  pub remove-still_held :
      1 < at.header.ref_count → remove_context_by_key_value hash key function s ≡ some still_held
  unfolding remove_context_by_key_value free_removed_hash_entry_object
  remove-still_held more =
      let first =
        dereference_more-eq entry at.header unlinked at.has_header more
          (omega (arith, at.count_room)) in
      let look = lookup-update entry hash less_header at.header s.objects at.has_header in
      let second =
        dereference_more-eq hash st.hash_header
          (record unlinked { objects = update entry less_header s.objects })
          (rw (look, st.apart) st.has_hash) st.owned st.hash_small in
      rw (at.on_line, at.first, at.has_body, first) second

  entry_goes : call st.type.methods.delete_object_method entry unlinked.client ≡ record s.client {
    hashes = update hash shorter s.client.hashes;
    entries = erase entry s.client.entries;
    client = call_context (kept_function function at.body) at.body.context s.client.client;
  }
  unfolding delete_hash_entry_object
  entry_goes =
      let look =
        lookup-update entry entry (set_delete_function function at.body) at.body s.client.entries
          at.has_body in
      rw (st.methods, delete_hash_entry_object, look, ==_refl, erase-update) (kept function)
    where
      kept :
          (f : Option (FunctionForContext C))
          → record s.client {
            hashes = update hash shorter s.client.hashes;
            entries = erase entry s.client.entries;
            client =
                call_context
                  (set_delete_function f at.body).delete_context_function
                  (set_delete_function f at.body).context
                  s.client.client;
          }
            ≡ record s.client {
              hashes = update hash shorter s.client.hashes;
              entries = erase entry s.client.entries;
              client = call_context (kept_function f at.body) at.body.context s.client.client;
            }
      kept none = refl
      kept (some f) = refl

  pub remove-taken_out :
      at.header.ref_count ≡ 1 → remove_context_by_key_value hash key function s ≡ some taken_out
  unfolding remove_context_by_key_value free_removed_hash_entry_object
  remove-taken_out last =
      let first =
        dereference_last-eq entry at.header st.type unlinked at.has_header last
          (rw st.typed st.has_type) in
      let stays : goes_along st.type ≡ false = ground (arith, st.unmarked) in
      let look = lookup-erase entry hash s.objects st.distinct in
      let gone = record unlinked {
        types = update hash_entry_object_type (left entry st.type) s.types;
        objects = erase entry s.objects;
        client = taken_out.client;
      } in
      let second =
        dereference_more-eq hash st.hash_header gone (rw (look, st.apart) st.has_hash) st.owned
          st.hash_small in
      rw (at.on_line, at.first, at.has_body, first, stays, st.typed, entry_goes) second
