-- ===== src/Ledger/Balanced.antt =====
-- When the counts of the ledger are right, and that adding a reference keeps them so.
use windows_system_wide_filt.Base.{
  ℕ, List, [], ◌∷◌, ◌++◌, ◌≡◌, ◌+◌, ◌<◌, ◌≤◌, ◌^◌, ◌==◌, some, none, true, false, refl, lookup,
  update, success, inc32, arith, ==_refl, length, total, Distinct, if◌then◌else◌, Option-cases, inl,
  inr, Distinct-update, total-append, total-update, Bool-cases, lookup-update, subst, sym, ◌∙◌,
}
use windows_system_wide_filt.Ledger.{
  Ledger, ObjectInfo, ObjectRef, reference_object_with_tag, add_ref, new_info,
}

abbrev pub one : ℕ × ObjectInfo → ℕ
one e = 1

-- A tag has as many references as it counts, and at least one.
abbrev pub Good : ObjectInfo → Type 0
Good info = (info.ref_count ≡ length info.refs) × (1 ≤ info.ref_count) × (info.ref_count < 2 ^ 32)

-- The lock is free, the count of tags is right, each tag has as many references as it counts, and
-- none stays without a reference.
pub record Balanced (s : Ledger) : Type 0 where
  pub free : s.locked ≡ false
  pub distinct : Distinct s.infos
  pub tags : s.ref_count ≡ total one s.infos
  pub few : total one s.infos < 2 ^ 32
  pub counted : (tag : ℕ) (info : ObjectInfo) → lookup tag s.infos ≡ some info → Good info

pub update-Good :
    (tag t : ℕ) (new old i : ObjectInfo) (m : List (ℕ × ObjectInfo))
    → lookup tag m ≡ some old
    → Good new
    → ((tag == t) ≡ false → lookup t m ≡ some i → Good i)
    → lookup t (update tag new m) ≡ some i
    → Good i
update-Good tag t new old i m there good others h =
    let look = lookup-update tag t new old m there in
    elim (Bool-cases (tag == t)) [
      | inl e ↦
          let here : lookup t (update tag new m) ≡ some new = look ∙ rw e refl in
          subst Good (cc) good
      | inr e ↦ others e (sym (look ∙ rw e refl) ∙ h)
    ]

lookup-append :
    (k t : ℕ) (v : ObjectInfo) (m : List (ℕ × ObjectInfo))
    → lookup k m ≡ none
    → lookup t (m ++ (k, v) ∷ []) ≡ (if k == t then some v else lookup t m)
unfolding lookup
lookup-append k t v [] h = refl
lookup-append k t v ((i, u) ∷ m) h = ground (arith, lookup-append k t v m)

Distinct-append :
    (k : ℕ) (v : ObjectInfo) (m : List (ℕ × ObjectInfo))
    → lookup k m ≡ none
    → Distinct m
    → Distinct (m ++ (k, v) ∷ [])
unfolding lookup
Distinct-append k v [] h d = (refl, tt)
Distinct-append k v ((i, u) ∷ m) h (d, ds) =
    (ground (arith, lookup-append k i v m), Distinct-append k v m (ground arith) ds)

length-append_one : (x : ObjectRef) (xs : List ObjectRef) → length (xs ++ x ∷ []) ≡ length xs + 1
length-append_one x [] = omega arith
length-append_one x (y ∷ xs) = omega (arith, length-append_one x xs)

pub add_ref-Balanced :
    (file_name : List ℕ) (number_line tag : ℕ) (s : Ledger)
    → Balanced s
    → total one s.infos + 1 < 2 ^ 32
    → ((info : ObjectInfo) → lookup tag s.infos ≡ some info → info.ref_count + 1 < 2 ^ 32)
    → (s' : Ledger) × (reference_object_with_tag file_name number_line tag true true true s
        ≡ some (s', success))
      × Balanced s'
unfolding reference_object_with_tag add_ref
add_ref-Balanced file_name number_line tag s b few room =
    let new_ref : ObjectRef = record { file_name = file_name; number_line = number_line } in
    elim (Option-cases (lookup tag s.infos)) [
      | inl out ↦
          let info : ObjectInfo = record { ref_count = 1; refs = new_ref ∷ [] } in
          let longer = s.infos ++ (tag, new_info) ∷ [] in
          let put : lookup tag longer ≡ some new_info =
            rw (lookup-append tag tag new_info s.infos out, ==_refl) refl in
          let size : total one (update tag info longer) ≡ total one s.infos + 1 = omega (
            arith,
            total-update one tag info new_info longer put,
            total-append one s.infos ((tag, new_info) ∷ []),
          ) in
          (
            record s {
              locked = false;
              ref_count = inc32 s.ref_count;
              infos = update tag info longer;
            },
            rw (b.free, out) refl,
            record {
              free = refl;
              distinct =
                  Distinct-update tag info longer
                    (Distinct-append tag new_info s.infos out b.distinct);
              tags = omega (arith, size, b.tags);
              few = omega (arith, size);
              counted = λ t i there.
                  update-Good tag t info new_info i longer put (omega arith)
                    (λ e h.
                      b.counted t i
                        (sym (lookup-append tag t new_info s.infos out ∙ rw e refl) ∙ h))
                    there;
            },
          )
      | inr (old, there) ↦
          let info : ObjectInfo = record {
            ref_count = inc32 old.ref_count;
            refs = old.refs ++ new_ref ∷ [];
          } in
          let grown : inc32 old.ref_count ≡ old.ref_count + 1 = omega (arith, room old there) in
          let size : total one (update tag info s.infos) ≡ total one s.infos =
            omega (arith, total-update one tag info old s.infos there) in
          let good : Good info =
            omega (
              arith,
              length-append_one new_ref old.refs,
              b.counted tag old there,
              room old there,
            ) in
          (
            record s { locked = false; infos = update tag info s.infos },
            rw (b.free, there) refl,
            record {
              free = refl;
              distinct = Distinct-update tag info s.infos b.distinct;
              tags = b.tags ∙ sym size;
              few = omega (arith, size, b.few);
              counted = λ t i h.
                  update-Good tag t info old i s.infos there good (λ e h'. b.counted t i h') h;
            },
          )
    ]
