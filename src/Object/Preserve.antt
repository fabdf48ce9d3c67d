-- ===== src/Object/Preserve.antt =====
-- Every operation of the object manager keeps a store well formed.
use windows_system_wide_filt.Base.{
  ℕ, Distinct-erase, Distinct-update, [], arith, count-append, dec32, erase, if◌then◌else◌, inc32,
  lookup, lookup-erase, lookup-update, none, remove, some, total, total-erase, update, ◌++◌, ◌+◌,
  ◌<◌, ◌^◌, ◌∷◌, ◌≡◌, count-remove, false, total-lookup, true, ◌&&◌, ◌==◌, ◌≤◌,
}
use windows_system_wide_filt.Object.{Store, ObjectHeader, ObjectType, place_object}
use windows_system_wide_filt.Object.Invariant.{
  WellFormed, Consistent, of_type, one, total-le_one, entry, Consistent-update,
}

module _ {S : Type 0} (s : Store S) (address additional body : ℕ) (type : ObjectType S) where
  place_object-Consistent :
      Consistent s
      → lookup address s.types ≡ some type
      → lookup body s.objects ≡ none
      → total one s.objects + 1 < 2 ^ 32
      → Consistent (place_object address additional type body s)
  unfolding place_object lookup
  place_object-Consistent c there free room =
      let new : ObjectType S = record type {
        ref_count = inc32 type.ref_count;
        list_head =
            if type.flags.objects_in_list then type.list_head ++ body ∷ [] else type.list_head;
      } in
      let look = λ (t : ℕ). lookup-update address t new type s.types there in
      record {
        few = omega arith;
        types_distinct = Distinct-update address new s.types c.types_distinct;
        objects_distinct = (free, c.objects_distinct);
        typed = λ p k e. ground (arith, c.typed p k, look k.object_type);
        held = λ p k e. ground (arith, c.held p k);
        counted = λ t u e. ground (
          arith,
          look t,
          c.counted t u,
          c.counted address type there,
          total-le_one address s.objects,
        );
        listed = λ t u b e l. ground (
          arith,
          look t,
          c.listed t u b,
          c.listed address type b there,
          count-append b type.list_head (body ∷ []),
        );
      }

  pub place_object-WellFormed :
      WellFormed s
      → lookup address s.types ≡ some type
      → lookup body s.objects ≡ none
      → total one s.objects + 1 < 2 ^ 32
      → WellFormed (place_object address additional type body s)
  unfolding place_object
  place_object-WellFormed w there free room = record {
    consistent = place_object-Consistent w.consistent there free room;
    marked = λ t u e m. ground (
      arith,
      w.marked t u,
      w.consistent.counted address type there,
      total-le_one address s.objects,
      w.consistent.few,
      lookup-update address t
          (record type {
            ref_count = inc32 type.ref_count;
            list_head =
                if type.flags.objects_in_list then type.list_head ++ body ∷ [] else type.list_head;
          })
          type s.types there,
    );
  }

-- The type of an object that goes.
abbrev pub left : {S : Type 0} → ℕ → ObjectType S → ObjectType S
left o type = record type {
  ref_count = dec32 type.ref_count;
  list_head = if type.flags.objects_in_list then remove o type.list_head else type.list_head;
}

module _ {S : Type 0} (s : Store S) (o : ℕ) (h : ObjectHeader) (type : ObjectType S)
    (client : S) where
  -- The store without the object.
  abbrev pub without : Store S
  without = record s {
    types = update h.object_type (left o type) s.types;
    objects = erase o s.objects;
    client = client;
  }

  pub without-Consistent :
      Consistent s
      → lookup o s.objects ≡ some h
      → lookup h.object_type s.types ≡ some type
      → Consistent without
  without-Consistent c there typed =
      let look = λ (t : ℕ). lookup-update h.object_type t (left o type) type s.types typed in
      let gone = λ (p : ℕ). lookup-erase o p s.objects c.objects_distinct in
      record {
        few = omega (arith, total-erase one o h s.objects there, c.few);
        types_distinct = Distinct-update h.object_type (left o type) s.types c.types_distinct;
        objects_distinct = Distinct-erase o s.objects c.objects_distinct;
        typed = λ p k e. ground (arith, gone p, c.typed p k, look k.object_type);
        held = λ p k e. ground (arith, gone p, c.held p k);
        counted = λ t u e. ground (
          arith,
          look t,
          c.counted t u,
          c.counted h.object_type type typed,
          total-erase (of_type t) o h s.objects there,
          total-le_one t s.objects,
          c.few,
        );
        listed = λ t u b e l. ground (
          arith,
          look t,
          c.listed t u b,
          c.listed h.object_type type b typed,
          c.listed h.object_type type o typed,
          total-lookup (entry h.object_type o) o h s.objects there,
          count-remove o b type.list_head,
          total-erase (entry t b) o h s.objects there,
        );
      }

  -- The type is still referenced, or is not marked.
  pub without-WellFormed :
      WellFormed s
      → lookup o s.objects ≡ some h
      → lookup h.object_type s.types ≡ some type
      → (((left o type).ref_count == 0) && type.flags.marked_for_deletion) ≡ false
      → WellFormed without
  without-WellFormed w there typed kept = record {
    consistent = without-Consistent w.consistent there typed;
    marked = λ t u e m.
        ground
          (arith, w.marked t u, lookup-update h.object_type t (left o type) type s.types typed);
  }

module _ {S : Type 0} (s : Store S) (address : ℕ) (type : ObjectType S) (client : S) where
  -- A type with no objects goes.
  pub type_gone-WellFormed :
      Consistent s
      → ((t : ℕ) (u : ObjectType S)
          → lookup t s.types ≡ some u
          → (address == t) ≡ false
          → u.flags.marked_for_deletion ≡ true
          → 1 ≤ u.ref_count)
      → lookup address s.types ≡ some type
      → type.ref_count ≡ 0
      → WellFormed (record s { types = erase address s.types; client = client })
  type_gone-WellFormed c marked there unused =
      let gone = λ (t : ℕ). lookup-erase address t s.types c.types_distinct in
      record {
        consistent = record {
          few = c.few;
          types_distinct = Distinct-erase address s.types c.types_distinct;
          objects_distinct = c.objects_distinct;
          typed = λ p k e. ground (
            arith,
            gone k.object_type,
            c.typed p k e,
            c.counted address type there,
            total-lookup (of_type address) p k s.objects e,
          );
          held = c.held;
          counted = λ t u e. ground (arith, gone t, c.counted t u);
          listed = λ t u b e l. ground (arith, gone t, c.listed t u b);
        };
        marked = λ t u e m. ground (arith, gone t, marked t u);
      }

  -- A type that is in use is marked.
  pub type_marked-WellFormed :
      WellFormed s
      → lookup address s.types ≡ some type
      → (type.ref_count == 0) ≡ false
      → WellFormed (record s {
        types =
            update address
              (record type { flags = record type.flags { marked_for_deletion = true } })
              s.types;
      })
  type_marked-WellFormed w there used =
      let c = w.consistent in
      let new : ObjectType S = record type {
        flags = record type.flags { marked_for_deletion = true };
      } in
      let look = λ (t : ℕ). lookup-update address t new type s.types there in
      record {
        consistent = record {
          few = c.few;
          types_distinct = Distinct-update address new s.types c.types_distinct;
          objects_distinct = c.objects_distinct;
          typed = λ p k e. ground (arith, look k.object_type, c.typed p k e);
          held = c.held;
          counted = λ t u e. ground (arith, look t, c.counted t u, c.counted address type there);
          listed =
              λ t u b e l. ground (arith, look t, c.listed t u b, c.listed address type b there);
        };
        marked = λ t u e m. ground (arith, look t, w.marked t u);
      }

-- A header is overwritten by another of the same type.
pub header-WellFormed :
    {S : Type 0} (s : Store S) (o : ℕ) (h h' : ObjectHeader)
    → WellFormed s
    → lookup o s.objects ≡ some h
    → h'.object_type ≡ h.object_type
    → (1 ≤ h'.ref_count) × (h'.ref_count < 2 ^ 32)
    → WellFormed (record s { objects = update o h' s.objects })
header-WellFormed s o h h' w there same held = record {
  consistent = Consistent-update s o h h' w.consistent there same held;
  marked = w.marked;
}
