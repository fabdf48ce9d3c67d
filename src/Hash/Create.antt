-- ===== src/Hash/Create.antt =====
-- Creating a hash object: what it gives, and that a failure leaves nothing behind.
use windows_system_wide_filt.Base.{
  ℕ, Bool, arith, bit, false, get_elem?, inc32, lookup, none, refl, replicate, some, suc, success,
  update, zero, ◌+◌, ◌<◌, ◌^◌, ◌∷◌, ◌≡◌, ==_refl, Option, [], dec32, erase-cons_self,
  insufficient_resources, lookup-update_self, sym, true, update-update, update_self, ◌%◌, ◌/◌, ◌==◌,
  ◌∙◌, ◌≤◌, List,
}
use windows_system_wide_filt.Object.{
  Store, ObjectType, create_object, create_object_ex, place_object, dereference_object,
  ObjectHeader, call,
}
use windows_system_wide_filt.Object.Preserve.{left}
use windows_system_wide_filt.Hash.State.{
  HashState, hash_object_initializer, hash_object_type, no_flags, FunctionForContext,
  delete_hash_object,
}
use windows_system_wide_filt.Hash.Operations.{
  new_hash, create_hash, find_context_by_key_value, hash_line, universal_hash_key_function,
  first_with_key,
}
use windows_system_wide_filt.Object.Lifetime.{goes_along, dereference_last-eq}
use windows_system_wide_filt.Hash.Find.{find_nothing}

-- The type of the hash objects is initialised, and `address` is free memory.
pub record Ready {C : Type 0} (address : ℕ) (s : Store (HashState C)) : Type 0 where
  pub type : ObjectType (HashState C)
  pub has_type : lookup hash_object_type s.types ≡ some type
  pub methods : type.methods ≡ hash_object_initializer.methods
  pub flags : type.flags ≡ no_flags
  pub type_room : type.ref_count + 1 < 2 ^ 32
  pub free_header : lookup address s.objects ≡ none
  pub free_body : lookup address s.client.hashes ≡ none

get_elem?-replicate : {A : Type 0} (n i : ℕ) (x : A) → i < n → get_elem? (replicate n x) i ≡ some x
get_elem?-replicate zero i x h = absurd (omega arith)
get_elem?-replicate (suc n) zero x h = refl
get_elem?-replicate (suc n) (suc i) x h = get_elem?-replicate n i x (omega arith)

module _ {C : Type 0} (number address : ℕ) (s : Store (HashState C)) (ready : Ready address s) where
  abbrev one_more : ObjectType (HashState C)
  one_more = record ready.type { ref_count = ready.type.ref_count + 1 }

  -- The store with the new object, whose array of heads is there or not.
  abbrev with_object : Bool → Store (HashState C)
  with_object array = record s {
    types = update hash_object_type one_more s.types;
    objects =
        (address, record { ref_count = 1; object_type = hash_object_type; zeroed = 0 }) ∷ s.objects;
    client = record s.client {
      hashes = (address, new_hash number array) ∷ s.client.hashes;
      arrays = s.client.arrays + bit array;
    };
  }

  object_created :
      create_object hash_object_type (some address) s
      ≡ some (record (with_object false) { client = s.client }, success, some address)
  unfolding create_object create_object_ex place_object
  object_created =
      let r : inc32 ready.type.ref_count ≡ ready.type.ref_count + 1 =
        omega (arith, ready.type_room) in
      rw ready.has_type (rw (ready.flags, r) refl)

  new_line :
      (key : ℕ)
      → 1 ≤ number
      → hash_line address key (with_object true)
        ≡ some (new_hash number true, key / 2 ^ 5 % number, [])
  unfolding hash_line universal_hash_key_function lookup
  new_line key some_line =
      let n : (number == 0) ≡ false = ground arith in
      rw (
        ==_refl,
        n,
        get_elem?-replicate {A = List ℕ} number (key / 2 ^ 5 % number) [] (grind arith),
      )

  -- A new table is empty: with the type initialised and memory for the object and for at least one
  -- line, `OcHsCreateHash` succeeds, and in the table that it returns every key falls on a line, and
  -- finding its context returns `NULL` and changes nothing.
  pub create_hash-find :
      (key : ℕ) (use_function : Option (FunctionForContext C))
      → 1 ≤ number
      → (s' : Store (HashState C)) × (create_hash number (some address) true s
          ≡ some (s', success, some address))
        × (find_context_by_key_value address key use_function s' ≡ some (s', 0))
  unfolding create_hash first_with_key
  create_hash-find key use_function some_line = (
    with_object true,
    rw object_created refl,
    find_nothing address key (with_object true) use_function (new_hash number true)
        (key / 2 ^ 5 % number) [] (new_line key some_line) refl,
  )

  types_back : update hash_object_type (left address one_more) (with_object false).types ≡ s.types
  types_back =
      let r : dec32 (ready.type.ref_count + 1) ≡ ready.type.ref_count =
        omega (arith, ready.type_room) in
      let e : left address one_more ≡ ready.type =
        simp (r, ready.flags) (λ i. record ready.type { flags = sym ready.flags i }) in
      rw (update-update, e) (update_self hash_object_type ready.type s.types ready.has_type)

  client_back : delete_hash_object address (with_object false).client ≡ s.client
  unfolding delete_hash_object lookup
  client_back =
      let z : s.client.arrays + 0 ≡ s.client.arrays = omega arith in
      rw (delete_hash_object, ==_refl, erase-cons_self, z)

  method_back :
      call one_more.methods.delete_object_method address (with_object false).client ≡ s.client
  method_back = rw ready.methods client_back

  object_gone : dereference_object address (with_object false) ≡ some s
  unfolding lookup
  object_gone =
      let header : ObjectHeader = record {
        ref_count = 1;
        object_type = hash_object_type;
        zeroed = 0;
      } in
      let unmarked : ready.type.flags.marked_for_deletion ≡ false = rw ready.flags in
      let stays : goes_along one_more ≡ false = ground (arith, unmarked) in
      let typed = lookup-update_self hash_object_type one_more ready.type s.types ready.has_type in
      dereference_last-eq address header one_more (with_object false) (rw ==_refl) refl typed
      ∙ rw stays λ i. some (record s {
        types = types_back i;
        objects = erase-cons_self address header s.objects i;
        client = method_back i;
      })

  -- A failed creation leaves nothing behind: if the array of heads cannot be allocated,
  -- `OcHsCreateHash` returns the error, no object, and the store that it was given.
  pub create_hash-fails :
      create_hash number (some address) false s ≡ some (s, insufficient_resources, none)
  unfolding create_hash
  create_hash-fails = rw (object_created, object_gone)
