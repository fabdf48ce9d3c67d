-- ===== src/Ledger/Balance.antt =====
-- A reference and its end.
use windows_system_wide_filt.Base.{
  ℕ, List, [], ◌∷◌, ◌++◌, ◌≡◌, ◌+◌, ◌<◌, ◌^◌, some, none, true, false, refl, lookup, erase, success,
  arith, ==_refl, dec32, erase-update, inc32, lookup-update_self, sym, update, ◌∙◌,
}
use windows_system_wide_filt.Ledger.{
  Ledger, reference_object_with_tag, dereference_object_with_tag, add_ref, ObjectInfo, ObjectRef,
  new_info,
}

lookup-append :
    {V : Type 0} (k : ℕ) (v : V) (m : List (ℕ × V))
    → lookup k m ≡ none
    → lookup k (m ++ (k, v) ∷ []) ≡ some v
unfolding lookup
lookup-append k v [] h = rw ==_refl refl
lookup-append k v ((i, u) ∷ m) h = ground (arith, lookup-append k v m)

erase-append :
    {V : Type 0} (k : ℕ) (v : V) (m : List (ℕ × V))
    → lookup k m ≡ none
    → erase k (m ++ (k, v) ∷ []) ≡ m
unfolding lookup erase
erase-append k v [] h = rw ==_refl refl
erase-append k v ((i, u) ∷ m) h = ground (arith, erase-append k v m)

-- Referenced and dereferenced: with memory for it, a reference with a new tag is put on the ledger,
-- and the end of the reference leaves the ledger as it was.
pub reference-dereference :
    (file_name : List ℕ) (number_line tag : ℕ) (s : Ledger)
    → s.locked ≡ false
    → lookup tag s.infos ≡ none
    → s.ref_count + 1 < 2 ^ 32
    → (s' : Ledger) × (reference_object_with_tag file_name number_line tag true true true s
        ≡ some (s', success))
      × (lookup tag s'.infos
          ≡ some (record {
            ref_count = 1;
            refs = (record { file_name = file_name; number_line = number_line }) ∷ [];
          }))
      × (dereference_object_with_tag tag s' ≡ some s)
unfolding reference_object_with_tag dereference_object_with_tag add_ref
reference-dereference file_name number_line tag s free new room =
    let new_ref : ObjectRef = record { file_name = file_name; number_line = number_line } in
    let info : ObjectInfo = record { ref_count = 1; refs = new_ref ∷ [] } in
    let appended = s.infos ++ (tag, new_info) ∷ [] in
    let put = lookup-append tag new_info s.infos new in
    let there : lookup tag (update tag info appended) ≡ some info =
      lookup-update_self tag info new_info appended put in
    let gone : erase tag (update tag info appended) ≡ s.infos =
      erase-update tag info appended ∙ erase-append tag new_info s.infos new in
    let back : dec32 (inc32 s.ref_count) ≡ s.ref_count = omega (arith, room) in
    (
      record s { locked = false; ref_count = inc32 s.ref_count; infos = update tag info appended },
      rw (free, new) refl,
      there,
      rw there (λ i. some (record s { locked = sym free i; ref_count = back i; infos = gone i })),
    )
