-- ===== src/Object/Lifetime.antt =====
-- What the last dereference does, and what an object that is created and dereferenced leaves.
use windows_system_wide_filt.Base.{
  ℕ, Bool, Bool-cases, dec32, erase, if◌then◌else◌, inl, inr, lookup, some, update, ◌&&◌, ◌==◌, ◌≡◌,
  arith, erase-update, false, refl, true, ◌-◌, ◌<◌, ◌^◌, ◌∙◌, ==_refl, lookup-update, lookup-erase,
  none, success, total, total-lookup, ◌+◌, ◌≤◌, ◌⊎◌, List, [], count, inc32, not, update-update,
  update_self, ◌++◌, ◌∷◌, remove-append_fresh, u32_mod, ◌%◌,
}
use windows_system_wide_filt.Object.{
  Store, ObjectHeader, ObjectType, call, dereference_object, delete_object, delete_object_type,
  create_object_ex, place_object,
}
use windows_system_wide_filt.Object.Invariant.{WellFormed, of_type, one, total-le_one, entry}
use windows_system_wide_filt.Object.Preserve.{left}

module _ {S : Type 0} where
  -- The type goes along with its last object.
  abbrev pub goes_along : ObjectType S → Bool
  goes_along type = (dec32 type.ref_count == 0) && type.flags.marked_for_deletion

  -- What the methods make of the client's state.
  abbrev pub client_after : ℕ → ℕ → ObjectType S → S → S
  client_after o t type client =
      let after = call type.methods.delete_object_method o client in
      if goes_along type then call type.methods.delete_object_type_method t after else after

  -- The store after the object has gone.
  abbrev pub after_delete : ℕ → ℕ → ObjectType S → Store S → Store S
  after_delete o t type s = record s {
    types = if goes_along type then erase t s.types else update t (left o type) s.types;
    objects = erase o s.objects;
    client = client_after o t type s.client;
  }

  pub delete_unused-eq :
      (t : ℕ) (type : ObjectType S) (s : Store S)
      → lookup t s.types ≡ some type
      → (type.ref_count == 0) ≡ true
      → delete_object_type t s
        ≡ some (record s {
          types = erase t s.types;
          client = call type.methods.delete_object_type_method t s.client;
        })
  unfolding delete_object_type
  delete_unused-eq t type s there unused = rw (there, unused)

  pub delete_object-eq :
      (o : ℕ) (h : ObjectHeader) (type : ObjectType S) (s : Store S)
      → lookup h.object_type s.types ≡ some type
      → delete_object o h s ≡ some (after_delete o h.object_type type s)
  unfolding delete_object
  delete_object-eq o h type s typed = elim (Bool-cases (goes_along type)) [
    | inl goes ↦
        rw (typed, goes)
          (delete_unused-eq h.object_type (left o type)
              (record s {
                types = update h.object_type (left o type) s.types;
                objects = erase o s.objects;
                client = call type.methods.delete_object_method o s.client;
              })
              (rw (
                lookup-update h.object_type h.object_type (left o type) type s.types typed,
                ==_refl,
              ))
              (ground arith)
            ∙ rw erase-update refl)
    | inr stays ↦ rw (typed, stays)
  ]

  pub dereference_last-eq :
      (o : ℕ) (h : ObjectHeader) (type : ObjectType S) (s : Store S)
      → lookup o s.objects ≡ some h
      → h.ref_count ≡ 1
      → lookup h.object_type s.types ≡ some type
      → dereference_object o s ≡ some (after_delete o h.object_type type s)
  unfolding dereference_object
  dereference_last-eq o h type s there last typed =
      rw (there, last)
        (delete_object-eq o (record h { ref_count = 0 }) type
            (record s { objects = update o (record h { ref_count = 0 }) s.objects }) typed
          ∙ rw erase-update refl)

  pub dereference_more-eq :
      (o : ℕ) (h : ObjectHeader) (s : Store S)
      → lookup o s.objects ≡ some h
      → 1 < h.ref_count
      → h.ref_count < 2 ^ 32
      → dereference_object o s
        ≡ some
            (record s { objects = update o (record h { ref_count = h.ref_count - 1 }) s.objects })
  unfolding dereference_object
  dereference_more-eq o h s there more small =
      let d : dec32 h.ref_count ≡ h.ref_count - 1 = omega arith in
      let ne : (h.ref_count - 1 == 0) ≡ false = ground arith in rw (there, d, ne)

-- The last reference: on a well-formed store, dereferencing an object that has one reference left
-- succeeds and takes the object away, after its type's delete method has been called once for it.
-- If the type was marked for deletion and this was its last object, the type goes too and its own
-- method is called after the object's; else the type stays, with one object less.
pub dereference_last :
    {S : Type 0} (o : ℕ) (h : ObjectHeader) (type : ObjectType S) (s : Store S)
    → WellFormed s
    → lookup o s.objects ≡ some h
    → h.ref_count ≡ 1
    → lookup h.object_type s.types ≡ some type
    → let goes = (type.ref_count == 1) && type.flags.marked_for_deletion in
      let deleted = call type.methods.delete_object_method o s.client in
      (s' : Store S) × (dereference_object o s ≡ some s')
      × (lookup o s'.objects ≡ none)
      × (lookup h.object_type s'.types ≡ (if goes then none else some (left o type)))
      × (s'.client ≡ (
          if goes
          then call type.methods.delete_object_type_method h.object_type deleted
          else deleted))
dereference_last o h type s w there last typed =
    let c = w.consistent in
    let gone = lookup-erase o o s.objects c.objects_distinct in
    let type_gone = lookup-erase h.object_type h.object_type s.types c.types_distinct in
    let type_left = lookup-update h.object_type h.object_type (left o type) type s.types typed in
    let positive : 1 ≤ type.ref_count = ground (
      arith,
      c.counted h.object_type type typed,
      total-lookup (of_type h.object_type) o h s.objects there,
    ) in
    let small : type.ref_count < 2 ^ 32 =
      omega
        (arith, c.counted h.object_type type typed, total-le_one h.object_type s.objects, c.few) in
    let same : goes_along type ≡ ((type.ref_count == 1) && type.flags.marked_for_deletion) =
      ground arith in
    (
      after_delete o h.object_type type s,
      dereference_last-eq o h type s there last typed,
      rw (gone, ==_refl),
      rw (← same) (elim (Bool-cases (goes_along type)) [
        | inl goes ↦ rw (goes, type_gone, ==_refl)
        | inr stays ↦ rw (stays, type_left, ==_refl)
      ]),
      rw (← same),
    )

-- The type of a new object.
abbrev pub placed : {S : Type 0} → ℕ → ObjectType S → ObjectType S
placed body type = record type {
  ref_count = inc32 type.ref_count;
  list_head = if type.flags.objects_in_list then type.list_head ++ body ∷ [] else type.list_head;
}

pub left-placed :
    {S : Type 0} (body : ℕ) (type : ObjectType S)
    → type.ref_count + 1 < 2 ^ 32
    → (type.flags.objects_in_list ≡ true → count body type.list_head ≡ 0)
    → left body (placed body type) ≡ type
left-placed body type small fresh =
    let r : dec32 (inc32 type.ref_count) ≡ type.ref_count = omega arith in
    elim (Bool-cases type.flags.objects_in_list) [
      | inl listed ↦ simp (r, listed, remove-append_fresh body type.list_head (fresh listed))
      | inr plain ↦ simp (r, plain)
    ]

absent : (t b : ℕ) (m : List (ℕ × ObjectHeader)) → lookup b m ≡ none → total (entry t b) m ≡ 0
unfolding lookup
absent t b [] h = refl
absent t b ((o, k) ∷ m) h = ground (arith, absent t b m)

place-dereference :
    {S : Type 0} (address additional body : ℕ) (type : ObjectType S) (s : Store S)
    → lookup address s.types ≡ some type
    → type.ref_count + 1 < 2 ^ 32
    → (type.flags.objects_in_list ≡ true → count body type.list_head ≡ 0)
    → (type.flags.marked_for_deletion ≡ true → 1 ≤ type.ref_count)
    → dereference_object body (place_object address additional type body s)
      ≡ some (record s { client = call type.methods.delete_object_method body s.client })
unfolding place_object lookup erase
place-dereference address additional body type s there small fresh marked =
    let s' = place_object address additional type body s in
    let look = lookup-update address address (placed body type) type s.types there in
    let stays : goes_along (placed body type) ≡ false = ground arith in
    dereference_last-eq body
      (record {
        ref_count = 1;
        object_type = address;
        zeroed =
            if type.flags.zero_object_body
            then (type.objects_body_size + additional) % u32_mod
            else 0;
      })
      (placed body type) s' (rw ==_refl) refl (rw (look, ==_refl))
    ∙ rw (
      stays,
      ==_refl,
      update-update,
      left-placed body type small fresh,
      update_self address type s.types there,
    )

-- Created and dereferenced: on a well-formed store, an object that is created in free memory and
-- dereferenced at once leaves the store as it was, but for what its type's delete method makes of the
-- client's state.
pub create-dereference :
    {S : Type 0} (address additional body : ℕ) (type : ObjectType S) (s : Store S)
    → WellFormed s
    → lookup address s.types ≡ some type
    → lookup body s.objects ≡ none
    → total one s.objects + 1 < 2 ^ 32
    → (additional ≡ 0) ⊎ (type.flags.use_std_pool_allocator ≡ true)
    → (s' : Store S) × (create_object_ex address additional (some body) s
        ≡ some (s', success, some body))
      × (dereference_object body s'
          ≡ some (record s { client = call type.methods.delete_object_method body s.client }))
unfolding create_object_ex
create-dereference address additional body type s w there free room fits =
    let c = w.consistent in
    let taken : (not (additional == 0) && not type.flags.use_std_pool_allocator) ≡ false =
      ground arith in
    (
      place_object address additional type body s,
      rw (there, taken),
      place-dereference address additional body type s there
          (omega (arith, c.counted address type there, total-le_one address s.objects))
          (λ listed.
            omega
              (arith, c.listed address type body there listed, absent address body s.objects free))
          (w.marked address type there),
    )
