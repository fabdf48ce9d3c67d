-- ===== src/Hash/Interleaved.antt =====
-- A removal between the two halves of finding a context: the context stays valid.
use windows_system_wide_filt.Base.{
  ℕ, ==_refl, List, [], arith, lookup, lookup-update, refl, some, update, ◌∙◌, ◌∷◌, ◌≡◌,
  Distinct-update, Option, none, ◌+◌, ◌<◌, ◌^◌, ◌≤◌, dec32, erase, lookup-erase_self,
  lookup-update_other, lookup-update_self, erase-update, false,
}
use windows_system_wide_filt.Object.{Store, ObjectHeader, dereference_object}
use windows_system_wide_filt.Hash.State.{
  HashState, HashEntryObject, FunctionForContext, call_context, with_context, with_entry,
  delete_hash_entry_object, delete_hash_entry_object-eq,
}
use windows_system_wide_filt.Hash.Operations.{
  hash_line, first_with_key, find_after_lock, find_under_lock, remove_context_by_key_value,
  set_delete_function,
}
use windows_system_wide_filt.Hash.Find.{
  Leads, held_store, more_header, pinned_body, find_under_lock-eq,
}
use windows_system_wide_filt.Hash.Remove.{
  Standing, still_held, kept_function, remove-still_held, less_header, less_hash,
}
use windows_system_wide_filt.Object.Lifetime.{
  dereference_last-eq, after_delete, client_after, goes_along,
}

-- The first entry with a key does not change when a body is overwritten with the same key.
pub first_with_key-update :
    {C : Type 0} (key entry : ℕ) (e e' : HashEntryObject C) (line : List ℕ)
    (m : List (ℕ × HashEntryObject C))
    → lookup entry m ≡ some e
    → e'.key_value ≡ e.key_value
    → first_with_key key line (update entry e' m) ≡ first_with_key key line m
unfolding first_with_key
first_with_key-update key entry e e' [] m there same = refl
first_with_key-update key entry e e' (x ∷ line) m there same = ground (
  arith,
  lookup-update entry x e' e m there,
  first_with_key-update key entry e e' line m there same,
)

module _ {C : Type 0} (hash key : ℕ) (s : Store (HashState C)) {entry : ℕ}
    (at : Leads hash key s entry) (st : Standing hash entry at.header s)
    (last : at.header.ref_count ≡ 1) (room : at.body.purge_disabled + 2 < 2 ^ 32) where
  pub held_line : hash_line hash key (held_store s at.stands) ≡ some (at.home, at.index, at.line)
  unfolding hash_line
  held_line = at.on_line

  pub held_first :
      first_with_key key at.line (held_store s at.stands).client.entries ≡ some (some entry)
  held_first =
      first_with_key-update key entry at.body (pinned_body s at.stands) at.line s.client.entries
        at.has_body refl
      ∙ at.first

  pub held_body :
      lookup entry (held_store s at.stands).client.entries ≡ some (pinned_body s at.stands)
  held_body = rw (
    lookup-update entry entry (pinned_body s at.stands) at.body s.client.entries at.has_body,
    ==_refl,
  )

  pub held_header : lookup entry (held_store s at.stands).objects ≡ some (more_header s at.stands)
  held_header = rw (
    lookup-update entry entry (more_header s at.stands) at.header s.objects at.has_header,
    ==_refl,
  )

  pub held_hash : lookup hash (held_store s at.stands).objects ≡ some st.hash_header
  held_hash =
      rw
        (
          lookup-update entry hash (more_header s at.stands) at.header s.objects at.has_header,
          st.apart,
        )
        st.has_hash

  pub held_bounds :
      (1 ≤ at.header.ref_count + 1)
      × (at.header.ref_count + 1 + 1 < 2 ^ 32)
      × (at.body.purge_disabled + 1 + 1 < 2 ^ 32)
  held_bounds = omega (arith, last, room)

  -- The key leads to the entry also while it is held.
  abbrev pub held_Leads : Leads hash key (held_store s at.stands) entry
  held_Leads = record {
    home = at.home;
    index = at.index;
    line = at.line;
    stands = record {
      body = pinned_body s at.stands;
      header = more_header s at.stands;
      has_body = held_body;
      has_header = held_header;
      referenced = held_bounds.0;
      count_room = held_bounds.1;
      purge_room = held_bounds.2;
    };
    on_line = held_line;
    first = held_first;
  }

  abbrev pub held_Standing : Standing hash entry (more_header s at.stands) (held_store s at.stands)
  held_Standing = record {
    type = st.type;
    hash_header = st.hash_header;
    typed = st.typed;
    has_type = st.has_type;
    methods = st.methods;
    unmarked = st.unmarked;
    has_hash = held_hash;
    owned = st.owned;
    hash_small = st.hash_small;
    apart = st.apart;
    distinct = Distinct-update entry (more_header s at.stands) s.objects st.distinct;
    bodies_distinct =
        Distinct-update entry (pinned_body s at.stands) s.client.entries st.bodies_distinct;
  }

  -- The store after the removal.
  abbrev pub removed_store : Option (FunctionForContext C) → Store (HashState C)
  removed_store kept = still_held hash key (held_store s at.stands) held_Leads held_Standing kept

  -- The last reference to the entry, and the state in which the second half gives it up.
  abbrev last_header : Option (FunctionForContext C) → ObjectHeader
  last_header kept = less_header hash key (held_store s at.stands) held_Leads held_Standing kept

  abbrev used_store : (kept use_function : Option (FunctionForContext C)) → Store (HashState C)
  used_store kept use_function =
      with_entry entry
        (record (set_delete_function kept (pinned_body s at.stands)) {
          purge_disabled = at.body.purge_disabled;
        })
        (with_context use_function at.body.context (removed_store kept))

  last_there :
      (kept : Option (FunctionForContext C))
      → lookup entry (removed_store kept).objects ≡ some (last_header kept)
  last_there kept =
      lookup-update_other hash entry
        (less_hash hash key (held_store s at.stands) held_Leads held_Standing kept) _
        (ground (arith, st.apart))
      ∙ lookup-update_self entry (last_header kept) (more_header s at.stands)
          (held_store s at.stands).objects held_header

  body_there :
      (kept : Option (FunctionForContext C))
      → lookup entry (removed_store kept).client.entries
        ≡ some (set_delete_function kept (pinned_body s at.stands))
  body_there kept =
      lookup-update_self entry (set_delete_function kept (pinned_body s at.stands))
        (pinned_body s at.stands) (held_store s at.stands).client.entries held_body

  -- What is left in the end.
  abbrev end_store : (kept use_function : Option (FunctionForContext C)) → Store (HashState C)
  end_store kept use_function =
      after_delete entry at.header.object_type st.type (used_store kept use_function)

  entry_given_up :
      (kept use_function : Option (FunctionForContext C))
      → dereference_object entry (used_store kept use_function) ≡ some (end_store kept use_function)
  entry_given_up kept use_function =
      dereference_last-eq entry (last_header kept) st.type (used_store kept use_function)
        (last_there kept) (omega arith) (rw st.typed st.has_type)

  second_half :
      (kept use_function : Option (FunctionForContext C))
      → find_after_lock use_function entry (removed_store kept)
        ≡ some (end_store kept use_function, at.body.context)
  unfolding find_after_lock
  second_half none use_function =
      let p : dec32 (at.body.purge_disabled + 1) ≡ at.body.purge_disabled = omega (arith, room) in
      rw (body_there none, p, entry_given_up none use_function)
  second_half (some f) use_function =
      let p : dec32 (at.body.purge_disabled + 1) ≡ at.body.purge_disabled = omega (arith, room) in
      rw (body_there (some f), p, entry_given_up (some f) use_function)

  -- The type stays, and its method is that of the entries.
  entry_method :
      (client : HashState C)
      → client_after entry at.header.object_type st.type client
        ≡ delete_hash_entry_object entry client
  entry_method client =
      let stays : goes_along st.type ≡ false = ground (arith, st.unmarked) in rw (stays, st.methods)

  entry_deleted :
      (kept use_function : Option (FunctionForContext C))
      → (end_store kept use_function).client ≡ record s.client {
        hashes = (removed_store kept).client.hashes;
        entries = erase entry s.client.entries;
        client =
            call_context
              (kept_function kept at.body)
              at.body.context
              (call_context use_function at.body.context s.client.client);
      }
  entry_deleted none use_function =
      entry_method (used_store none use_function).client
      ∙ delete_hash_entry_object-eq entry at.body (used_store none use_function).client (
          lookup-update_self entry at.body (pinned_body s at.stands)
            (removed_store none).client.entries (body_there none))
      ∙ rw (erase-update, erase-update, erase-update)
  entry_deleted (some f) use_function =
      let told : HashEntryObject C = record at.body { delete_context_function = some f } in
      entry_method (used_store (some f) use_function).client
      ∙ delete_hash_entry_object-eq entry told (used_store (some f) use_function).client (
          lookup-update_self entry told
            (record (pinned_body s at.stands) { delete_context_function = some f })
            (removed_store (some f)).client.entries (body_there (some f)))
      ∙ rw (erase-update, erase-update, erase-update)

  -- A context outlives its removal while it is being used: if the first half of
  -- `OcHsFindContextByKeyValue` has found an entry that only the table holds, and
  -- `OcHsRemoveContextByKeyValue` then removes it before the second half, the removal succeeds and
  -- calls no function for the context. The second half still gets the context and calls its own
  -- function first; then the entry goes, and the function that was given to the removal (or, if none
  -- was, the one that the entry had) is called for the context, once.
  pub context_outlives_removal :
      (kept use_function : Option (FunctionForContext C))
      → (s1 : Store (HashState C)) × (s2 : Store (HashState C)) × (s3 : Store (HashState C))
        × (find_under_lock hash key s ≡ some (s1, some entry))
        × (remove_context_by_key_value hash key kept s1 ≡ some s2)
        × (s2.client.client ≡ s.client.client)
        × (find_after_lock use_function entry s2 ≡ some (s3, at.body.context))
        × (s3.client.client
            ≡ call_context
                (kept_function kept at.body)
                at.body.context
                (call_context use_function at.body.context s.client.client))
        × (lookup entry s3.client.entries ≡ none)
  context_outlives_removal kept use_function = (
    held_store s at.stands,
    removed_store kept,
    end_store kept use_function,
    find_under_lock-eq hash key s at,
    remove-still_held hash key (held_store s at.stands) held_Leads held_Standing kept (omega arith),
    refl,
    second_half kept use_function,
    rw (entry_deleted kept use_function),
    rw (entry_deleted kept use_function)
        (lookup-erase_self entry s.client.entries st.bodies_distinct),
  )
