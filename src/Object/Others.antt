-- ===== src/Object/Others.antt =====
-- What the end of one reference leaves of the other objects of common/objects/ocobject.c.
use windows_system_wide_filt.Base.{
  ℕ, ◌≡◌, ◌==◌, if◌then◌else◌, Bool-cases, List, [], arith, dec32, erase, false, inl, inr, lookup,
  lookup-update_other, lookup-update_self, refl, remove, some, update, ◌∙◌, ◌∷◌, ap, ◌&&◌,
}
use windows_system_wide_filt.Object.{
  ObjectType, Store, ObjectHeader, delete_object, delete_object_type, dereference_object,
}

lookup-erase_other :
    {V : Type 0} (k j : ℕ) (m : List (ℕ × V)) → (k == j) ≡ false → lookup j (erase k m) ≡ lookup j m
unfolding lookup erase
lookup-erase_other k j [] ne = refl
lookup-erase_other k j ((i, u) ∷ m) ne = ground (arith, lookup-erase_other k j m ne)

module _ {S : Type 0} where
  -- The other object is as before.
  abbrev pub SameAt : (other : ℕ) → Store S → Store S → Type 0
  SameAt other s s' = lookup other s'.objects ≡ lookup other s.objects

  delete_type-keeps :
      (address : ℕ) (type : ObjectType S) (s : Store S)
      → lookup address s.types ≡ some type
      → (s' : Store S) × (delete_object_type address s ≡ some s') × (s'.objects ≡ s.objects)
  unfolding delete_object_type
  delete_type-keeps address type s there = elim (Bool-cases (type.ref_count == 0)) [
    | inl e ↦ rw (there, e) (_, refl, refl)
    | inr e ↦ rw (there, e) (_, refl, refl)
  ]

  delete-leaves :
      (body other : ℕ) (h : ObjectHeader) (type : ObjectType S) (s : Store S)
      → (body == other) ≡ false
      → lookup h.object_type s.types ≡ some type
      → (s' : Store S) × (delete_object body h s ≡ some s') × SameAt other s s'
  unfolding delete_object
  delete-leaves body other h type s ne there =
      let left : ObjectType S = record type {
        ref_count = dec32 type.ref_count;
        list_head =
            if type.flags.objects_in_list then remove body type.list_head else type.list_head;
      } in
      let again : lookup h.object_type (update h.object_type left s.types) ≡ some left =
        lookup-update_self h.object_type left type s.types there in
      let same = lookup-erase_other body other s.objects ne in
      let type_gone = delete_type-keeps h.object_type left _ again in
      elim (Bool-cases ((dec32 type.ref_count == 0) && type.flags.marked_for_deletion)) [
        | inl e ↦ rw (there, e) (type_gone.0, type_gone.1, ap (lookup other) type_gone.2 ∙ same)
        | inr e ↦ rw (there, e) (_, refl, same)
      ]

  -- The end of a reference leaves another object as it is.
  pub dereference-leaves :
      (body other : ℕ) (h : ObjectHeader) (type : ObjectType S) (s : Store S)
      → (body == other) ≡ false
      → lookup body s.objects ≡ some h
      → lookup h.object_type s.types ≡ some type
      → (s' : Store S) × (dereference_object body s ≡ some s') × SameAt other s s'
  unfolding dereference_object
  dereference-leaves body other h type s ne there type_there =
      let h' = record h { ref_count = dec32 h.ref_count } in
      let same = lookup-update_other body other h' s.objects ne in
      elim (Bool-cases (dec32 h.ref_count == 0)) [
        | inl e ↦
            let deleted =
              delete-leaves body other h' type (record s { objects = update body h' s.objects }) ne
                type_there in
            rw (there, e) (deleted.0, deleted.1, deleted.2 ∙ same)
        | inr e ↦ rw (there, e) (_, refl, same)
      ]
