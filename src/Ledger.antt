-- ===== src/Ledger.antt =====
-- The ledger of references by tag of common/objects/dbobject.c, which the checked build keeps to find
-- lost references. The list of tags is an association list in the order of insertion. A call that
-- waits for the spin lock while nobody will release it, and an access to a reference that is not
-- there, have no result, `none`.
pub mod Failure
pub mod Balance
pub mod Balanced
pub mod Calls
use windows_system_wide_filt.Base.{
  ℕ, Bool, List, Option, Status, [], ◌∷◌, ◌++◌, some, none, lookup, update, erase, not, true, false,
  if◌then◌else◌, ◌==◌, inc32, dec32, success, insufficient_resources, count,
}

-- `CR_OBJECT_REF`, with the file name as it is copied.
pub record ObjectRef : Type 0 where
  pub file_name : List ℕ
  pub number_line : ℕ

-- `CR_OBJECT_INFO`; its tag is the key of the association list.
pub record ObjectInfo : Type 0 where
  pub ref_count : ℕ
  pub refs : List ObjectRef

-- `g_CrRefCount`, `g_CrSpinLock` and `g_CrListHead`.
pub record Ledger : Type 0 where
  pub ref_count : ℕ
  pub locked : Bool
  pub infos : List (ℕ × ObjectInfo)

-- `CrInitializeObjectList` leaves the count as it is.
unfoldable pub initialize_object_list : Ledger → Ledger
initialize_object_list s = record s { locked = false; infos = [] }

-- The second half of `CrReferenceObjectWithTag`. `ref` and `name` say whether the two allocations
-- succeed. The failures return while the lock is held.
unfoldable pub add_ref : List ℕ → ℕ → ℕ → Bool → Bool → ObjectInfo → Ledger → Ledger × Status
add_ref file_name number_line tag ref name info s =
    if not ref
    then (s, insufficient_resources)
    else if not name
    then (s, insufficient_resources)
    else (
      record s {
        locked = false;
        infos =
            update tag
              (record {
                ref_count = inc32 info.ref_count;
                refs =
                    info.refs ++ (record { file_name = file_name; number_line = number_line }) ∷ [];
              })
              s.infos;
      },
      success,
    )

abbrev pub new_info : ObjectInfo
new_info = record { ref_count = 0; refs = [] }

-- `CrReferenceObjectWithTag`; `room` says whether the allocation of a new tag succeeds.
unfoldable pub reference_object_with_tag :
    List ℕ → ℕ → ℕ → (room ref name : Bool) → Ledger → Option (Ledger × Status)
reference_object_with_tag file_name number_line tag room ref name s =
    if s.locked
    then none
    else let held = record s { locked = true } in
      elim (lookup tag s.infos) [
        | none ↦
            if not room
            then some (held, insufficient_resources)
            else some (
                add_ref file_name number_line tag ref name new_info (record held {
                  infos = s.infos ++ (tag, new_info) ∷ [];
                  ref_count = inc32 s.ref_count;
                }))
        | some info ↦ some (add_ref file_name number_line tag ref name info held)
      ]

-- `CrObDereferenceObjectWithTag`: the oldest reference goes, and the tag with the last one.
unfoldable pub dereference_object_with_tag : ℕ → Ledger → Option Ledger
dereference_object_with_tag tag s = if s.locked then none else elim (lookup tag s.infos) [
  | none ↦ some s
  | some info ↦ elim info.refs [
    | [] ↦ none
    | ◌∷◌ first rest ↦
        let count = dec32 info.ref_count in
        if count == 0
        then some (record s { infos = erase tag s.infos; ref_count = dec32 s.ref_count })
        else some
            (record s { infos = update tag (record { ref_count = count; refs = rest }) s.infos })
  ]
]
