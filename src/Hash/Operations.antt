-- ===== src/Hash/Operations.antt =====
-- The functions of the hash table. What the allocator returns is an argument, `none` for `NULL`.
use windows_system_wide_filt.Base.{
  ℕ, Bool, List, Option, Status, [], bit, dec32, false, get_elem?, if◌then◌else◌, inc32,
  insufficient_resources, invalid_parameter, invalid_parameter_3, lookup, none, not, remove,
  replicate, set, some, success, true, ◌%◌, ◌+◌, ◌/◌, ◌==◌, ◌>>=◌, ◌^◌, ◌∷◌,
}
use windows_system_wide_filt.Object.{
  Store, create_object, delete_object_type, dereference_object, initialize_object_type,
  is_object_manager_initialized, reference_object,
}
use windows_system_wide_filt.Hash.State.{
  HashState, FunctionForContext, HashEntryObject, HashObject, hash_entry_object_initializer,
  hash_entry_object_type, hash_object_initializer, hash_object_type, with_context, with_entry,
  with_hash,
}

-- `OcHsUniversalHashKeyFunction`.
unfoldable pub universal_hash_key_function : HashObject → ℕ → Option ℕ
universal_hash_key_function h key =
    if h.number_of_hash_lines == 0 then none else some (key / 2 ^ 5 % h.number_of_hash_lines)

-- The body of a new hash object; the array of heads is there if its allocation succeeds.
abbrev pub new_hash : ℕ → Bool → HashObject
new_hash number array = record {
  from_pool = true;
  number_of_hash_lines = number;
  lines = if array then some (replicate number []) else none;
}

-- Write one line of a hash object.
abbrev pub set_line : ℕ → List ℕ → HashObject → HashObject
set_line index line h = record h {
  lines = elim h.lines [ none ↦ none | some heads ↦ some (set heads index line) ];
}

module _ {C : Type 0} where
  abbrev pub set_initialized : Store (HashState C) → Store (HashState C)
  set_initialized s = record s {
    client = record s.client { is_hash_manager_initialized = true; type_uninitialized = false };
  }

  unfoldable pub initialize_hash_manager : Store (HashState C) → Store (HashState C) × Status
  initialize_hash_manager s =
      if not (is_object_manager_initialized s)
      then (s, invalid_parameter)
      else if s.client.is_hash_manager_initialized
      then (s, success)
      else (
        initialize_object_type hash_entry_object_initializer hash_entry_object_type
            (initialize_object_type hash_object_initializer hash_object_type (set_initialized s)),
        success,
      )

  -- The flag of the result says whether the wait for the event is over at once.
  unfoldable pub uninitialize_hash_manager :
      Store (HashState C) → Option (Store (HashState C) × Bool)
  uninitialize_hash_manager s =
      if not s.client.is_hash_manager_initialized then some (s, true) else do
        s1 ← delete_object_type hash_entry_object_type s
        s2 ← delete_object_type hash_object_type s1
        some (s2, s2.client.type_uninitialized)

  abbrev pub place_hash : ℕ → ℕ → Bool → Store (HashState C) → Store (HashState C)
  place_hash address number array s = record s {
    client = record s.client {
      hashes = (address, new_hash number array) ∷ s.client.hashes;
      arrays = s.client.arrays + bit array;
    };
  }

  unfoldable pub create_hash :
      ℕ → Option ℕ → Bool → Store (HashState C) → Option (Store (HashState C) × Status × Option ℕ)
  create_hash number allocated array s = do
    r ← create_object hash_object_type allocated s
    elim r.2 [
      | none ↦ some (r.0, r.1, none)
      | some address ↦
          let placed = place_hash address number array r.0 in
          if array
          then some (placed, success, some address)
          else do s' ← dereference_object address placed; some (s', insufficient_resources, none)
    ]

  -- The line for a key: the hash object, the index, and what is on the line.
  unfoldable pub hash_line : ℕ → ℕ → Store (HashState C) → Option (HashObject × ℕ × List ℕ)
  hash_line hash key s = do
    h ← lookup hash s.client.hashes
    index ← universal_hash_key_function h key
    heads ← h.lines
    line ← get_elem? heads index
    some (h, index, line)

  abbrev pub place_entry : ℕ → ℕ → ℕ → Store (HashState C) → Store (HashState C)
  place_entry address key context s = record s {
    client = record s.client {
      entries =
          (
            address,
            record {
              purge_disabled = 0;
              key_value = key;
              context = context;
              delete_context_function = none;
            },
          )
          ∷ s.client.entries;
    };
  }

  unfoldable pub insert_context_in_hash :
      ℕ
      → ℕ
      → ℕ
      → Option (FunctionForContext C)
      → Option ℕ
      → Store (HashState C)
      → Option (Store (HashState C) × Status)
  insert_context_in_hash hash key context function allocated s =
      if context == 0 then some (s, invalid_parameter_3) else do
        r ← create_object hash_entry_object_type allocated s
        elim r.2 [
          | none ↦ some (r.0, r.1)
          | some entry ↦ do
            let s1 = place_entry entry key context r.0
            l ← hash_line hash key s1
            s2 ← reference_object hash s1
            some (
              with_hash hash (set_line l.1 (entry ∷ l.2) l.0) (with_context function context s2),
              success,
            )
        ]

  -- `OcHsFreeRemovedHashEntryObject`.
  unfoldable pub free_removed_hash_entry_object :
      ℕ → ℕ → Store (HashState C) → Option (Store (HashState C))
  free_removed_hash_entry_object hash entry s = do
    s' ← dereference_object entry s
    dereference_object hash s'

  -- The first entry of a line that has the key. A line that names an entry with no body is a fault.
  unfoldable pub first_with_key : ℕ → List ℕ → List (ℕ × HashEntryObject C) → Option (Option ℕ)
  first_with_key key [] entries = some none
  first_with_key key (entry ∷ line) entries =
      let later = first_with_key key line entries in
      elim (lookup entry entries) [
        | none ↦ none
        | some e ↦ if e.key_value == key then some (some entry) else later
      ]

  -- `OcHsFindContextByKeyValue` under the lock of the line: the entry that is found is referenced
  -- and its purge disabled.
  unfoldable pub find_under_lock :
      ℕ → ℕ → Store (HashState C) → Option (Store (HashState C) × Option ℕ)
  find_under_lock hash key s = do
    l ← hash_line hash key s
    found ← first_with_key key l.2 s.client.entries
    elim found [
      | none ↦ some (s, none)
      | some entry ↦ do
        e ← lookup entry s.client.entries
        s' ← reference_object entry s
        some
            (with_entry entry (record e { purge_disabled = inc32 e.purge_disabled }) s', some entry)
    ]

  -- The rest of it: the context function is called, purge enabled, the entry dereferenced.
  unfoldable pub find_after_lock :
      Option (FunctionForContext C) → ℕ → Store (HashState C) → Option (Store (HashState C) × ℕ)
  find_after_lock function entry s = do
    e ← lookup entry s.client.entries
    s' ← dereference_object entry (
        with_entry entry (record e { purge_disabled = dec32 e.purge_disabled })
          (with_context function e.context s))
    some (s', e.context)

  -- The whole function with nobody in between; the result is the context, 0 for `NULL`.
  unfoldable pub find_context_by_key_value :
      ℕ → ℕ → Option (FunctionForContext C) → Store (HashState C) → Option (Store (HashState C) × ℕ)
  find_context_by_key_value hash key function s = do
    r ← find_under_lock hash key s
    elim r.1 [ none ↦ some (r.0, 0) | some entry ↦ find_after_lock function entry r.0 ]

  -- The function for the context, if one is given, is kept for the time when the entry goes.
  abbrev pub set_delete_function :
      Option (FunctionForContext C) → HashEntryObject C → HashEntryObject C
  set_delete_function none e = e
  set_delete_function (some function) e = record e { delete_context_function = some function }

  unfoldable pub remove_context_by_key_value :
      ℕ → ℕ → Option (FunctionForContext C) → Store (HashState C) → Option (Store (HashState C))
  remove_context_by_key_value hash key function s = do
    l ← hash_line hash key s
    found ← first_with_key key l.2 s.client.entries
    elim found [
      | none ↦ some s
      | some entry ↦ do
        e ← lookup entry s.client.entries
        free_removed_hash_entry_object hash entry (
            with_entry entry (set_delete_function function e)
              (with_hash hash (set_line l.1 (remove entry l.2) l.0) s))
    ]
