-- ===== src/Tests/Object.antt =====
-- The object manager on a store with one type and one object.
use windows_system_wide_filt.Base.{
  ℕ, List, [], ◌∷◌, some, none, lookup, ◌≡◌, refl, true, false, arith, success, inl, erase, update,
  remove,
}
use windows_system_wide_filt.Object.{
  Store, ObjectType, place_object, create_object_ex, dereference_object,
}
use windows_system_wide_filt.Object.Invariant.{WellFormed}
use windows_system_wide_filt.Object.Preserve.{place_object-WellFormed}
use windows_system_wide_filt.Object.Operations.{exec, exec-WellFormed, create}
use windows_system_wide_filt.Object.Lifetime.{dereference_last, create-dereference}

-- A delete method that logs the address.
abbrev log : ℕ → List ℕ → List ℕ
log address addresses = address ∷ addresses

abbrev plain_type : ObjectType (List ℕ)
plain_type = record {
  ref_count = 0;
  flags = record {
    marked_for_deletion = false;
    use_std_pool_allocator = true;
    objects_in_list = true;
    zero_object_body = true;
  };
  list_head = [];
  methods = record { delete_object_method = some log; delete_object_type_method = some log };
  lookaside = false;
  objects_body_size = 16;
  tag = 7;
}

abbrev one_type : Store (List ℕ)
one_type = record { initialized = true; types = (1, plain_type) ∷ []; objects = []; client = [] }

one_type-WellFormed : WellFormed one_type
unfolding lookup
one_type-WellFormed = record {
  consistent = record {
    few = omega arith;
    types_distinct = (refl, tt);
    objects_distinct = tt;
    typed = λ o h there. ground arith;
    held = λ o h there. ground arith;
    counted = λ t type there. ground arith;
    listed = λ t type b there asked. ground arith;
  };
  marked = λ t type there marked. ground arith;
}

abbrev used_type : ObjectType (List ℕ)
used_type = record plain_type { ref_count = 1; list_head = 64 ∷ [] }

abbrev one_object : Store (List ℕ)
one_object = place_object 1 8 plain_type 64 one_type

one_object-WellFormed : WellFormed one_object
unfolding lookup
one_object-WellFormed =
    place_object-WellFormed one_type 1 8 64 plain_type one_type-WellFormed refl refl (omega arith)

exec-WellFormed_example :
    (s' : Store (List ℕ)) × (exec (create 1 0 (some 96)) one_object ≡ some s') × WellFormed s'
unfolding lookup place_object update
exec-WellFormed_example =
    exec-WellFormed (create 1 0 (some 96)) one_object one_object-WellFormed
      (λ out. ground arith, omega arith, λ body same. ground (arith, same))

dereference_last_example :
    (s' : Store (List ℕ)) × (dereference_object 64 one_object ≡ some s')
    × (lookup 64 s'.objects ≡ none)
    × (lookup 1 s'.types ≡ some plain_type)
    × (s'.client ≡ 64 ∷ [])
unfolding lookup place_object update erase remove
dereference_last_example =
    dereference_last 64 (record { ref_count = 1; object_type = 1; zeroed = 24 }) used_type
      one_object one_object-WellFormed refl refl refl

create-dereference_example :
    (s' : Store (List ℕ)) × (create_object_ex 1 0 (some 96) one_object
      ≡ some (s', success, some 96))
    × (dereference_object 96 s' ≡ some (record one_object { client = 96 ∷ [] }))
unfolding lookup place_object update
create-dereference_example =
    create-dereference 1 0 96 used_type one_object one_object-WellFormed refl refl (omega arith)
      (inl refl)
