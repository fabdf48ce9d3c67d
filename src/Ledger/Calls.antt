-- ===== src/Ledger/Calls.antt =====
-- The calls of the ledger, in any order.
use windows_system_wide_filt.Base.{
  ℕ, List, [], ◌∷◌, ◌≡◌, ◌+◌, ◌<◌, ◌≤◌, ◌^◌, ◌==◌, some, none, true, refl, lookup, update, arith,
  length, total, if◌then◌else◌, Option-cases, inl, inr, Distinct-update, total-update, Bool-cases,
  sym, ◌∙◌, Distinct-erase, Option, dec32, erase, lookup-erase, total-erase, ◌>>=◌,
}
use windows_system_wide_filt.Ledger.{
  Ledger, ObjectInfo, ObjectRef, reference_object_with_tag, dereference_object_with_tag,
}
use windows_system_wide_filt.Ledger.Balanced.{Balanced, Good, one, add_ref-Balanced, update-Good}

not_there :
    (tag : ℕ) (s : Ledger)
    → Balanced s
    → lookup tag s.infos ≡ none
    → dereference_object_with_tag tag s ≡ some s
unfolding dereference_object_with_tag
not_there tag s b out = rw (b.free, out) (λ i. some (record s { locked = b.free i }))

dereference_there-Balanced :
    (tag counter : ℕ) (refs : List ObjectRef) (s : Ledger)
    → Balanced s
    → lookup tag s.infos ≡ some (record { ref_count = counter; refs = refs })
    → (s' : Ledger) × (dereference_object_with_tag tag s ≡ some s') × Balanced s'
unfolding dereference_object_with_tag
dereference_there-Balanced tag counter [] s b there = absurd (omega (arith, b.counted tag _ there))
dereference_there-Balanced tag counter (first ∷ rest) s b there =
    let old : ObjectInfo = record { ref_count = counter; refs = first ∷ rest } in
    let good = b.counted tag old there in
    let shrunk : dec32 counter ≡ length rest = omega (arith, good) in
    elim (Bool-cases (length rest == 0)) [
      | inl last ↦
          let size = total-erase one tag old s.infos there in
          let look : (t : ℕ)
              → lookup t (erase tag s.infos) ≡ (if tag == t then none else lookup t s.infos) =
            λ t. lookup-erase tag t s.infos b.distinct in
          (
            record s { ref_count = dec32 s.ref_count; infos = erase tag s.infos },
            rw (b.free, there, shrunk, last)
                (λ i. some (record s {
                  locked = b.free i;
                  ref_count = dec32 s.ref_count;
                  infos = erase tag s.infos;
                })),
            record {
              free = b.free;
              distinct = Distinct-erase tag s.infos b.distinct;
              tags = omega (arith, size, b.tags, b.few);
              few = omega (arith, size, b.few);
              counted = λ t i h. elim (Bool-cases (tag == t)) [
                | inl e ↦
                    let gone : lookup t (erase tag s.infos) ≡ none = look t ∙ rw e refl in absurd cc
                | inr e ↦ b.counted t i (sym (look t ∙ rw e refl) ∙ h)
              ];
            },
          )
      | inr more ↦
          let info : ObjectInfo = record { ref_count = length rest; refs = rest } in
          let size : total one (update tag info s.infos) ≡ total one s.infos =
            omega (arith, total-update one tag info old s.infos there) in
          let some_left : 1 ≤ length rest = ground arith in
          let good' : Good info = omega (arith, good, some_left) in
          (
            record s { infos = update tag info s.infos },
            rw (b.free, there, shrunk, more)
                (λ i. some (record s { locked = b.free i; infos = update tag info s.infos })),
            record {
              free = b.free;
              distinct = Distinct-update tag info s.infos b.distinct;
              tags = b.tags ∙ sym size;
              few = omega (arith, size, b.few);
              counted = λ t i h.
                  update-Good tag t info old i s.infos there good' (λ e h'. b.counted t i h') h;
            },
          )
    ]

-- A call, made while memory is there for it.
pub data Call : Type 0 where
  refer : (file_name : List ℕ) → (number_line tag : ℕ) → Call
  dereference : (tag : ℕ) → Call

unfoldable pub exec : Call → Ledger → Option Ledger
exec (refer file_name number_line tag) s = do
  r ← reference_object_with_tag file_name number_line tag true true true s
  some r.0
exec (dereference tag) s = dereference_object_with_tag tag s

-- No count is at its end.
abbrev pub RoomFor : Call → Ledger → Type 0
RoomFor (refer file_name number_line tag) s =
    (total one s.infos + 1 < 2 ^ 32)
    × ((info : ObjectInfo) → lookup tag s.infos ≡ some info → info.ref_count + 1 < 2 ^ 32)
RoomFor (dereference tag) s = Unit

-- The ledger is balanced: while memory is there and no count is at its end, every call comes to an
-- end, releases the lock, and leaves each tag with as many references on its list as it counts, no
-- tag without a reference, and a count of tags that is right. A dereference of a tag that is not
-- there is such a call too.
pub exec-Balanced :
    (call : Call) (s : Ledger)
    → Balanced s
    → RoomFor call s
    → (s' : Ledger) × (exec call s ≡ some s') × Balanced s'
unfolding exec
exec-Balanced (refer file_name number_line tag) s b (few, room) =
    let (s', e, b') = add_ref-Balanced file_name number_line tag s b few room in (s', rw e refl, b')
exec-Balanced (dereference tag) s b _ = elim (Option-cases (lookup tag s.infos)) [
  | inl out ↦ (s, not_there tag s b out, b)
  | inr (old, there) ↦ dereference_there-Balanced tag old.ref_count old.refs s b there
]
