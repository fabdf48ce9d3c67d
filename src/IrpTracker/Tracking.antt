-- ===== src/IrpTracker/Tracking.antt =====
-- What the tracker knows of the requests.
use windows_system_wide_filt.Base.{
  ℕ, Bool, List, [], ◌∷◌, some, lookup, erase, not, true, false, if◌then◌else◌, ◌==◌, ◌+◌, ◌-◌,
  ◌||◌, ◌≡◌, refl, arith, bit, total, total-erase, ==_refl, Bool-cases, inl, inr,
}
use windows_system_wide_filt.IrpTracker.{
  IrpTracker, TrackEntry, insert_irp_in_processed_list, remove_entry, complete, find_irp,
  is_irp_in_list, entry_at, invalid_pointer,
}

-- How many entries a request has on the list.
abbrev pub entries_of : ℕ → IrpTracker → ℕ
entries_of irp s = total (λ e. bit (e.1.irp == irp)) s.list

find-total :
    (irp : ℕ) (list : List (ℕ × TrackEntry))
    → find_irp irp list ≡ not (total (λ e. bit (e.1.irp == irp)) list == 0)
unfolding find_irp
find-total irp [] = refl
find-total irp ((a, e) ∷ list) = ground (arith, find-total irp list)

-- The answer counts: `OcCrTrackerIsIrpInList` finds a request just when an entry of it is on the
-- list, and removing an entry that is there takes off one entry of its request and none of another.
pub remove_entry-counts :
    (address irp : ℕ) (e : TrackEntry) (s : IrpTracker)
    → lookup address s.list ≡ some e
    → (s' : IrpTracker) × (remove_entry address s ≡ some s')
      × (entries_of irp s' + bit (e.irp == irp) ≡ entries_of irp s)
      × (is_irp_in_list irp s' ≡ not (entries_of irp s == bit (e.irp == irp)))
unfolding remove_entry is_irp_in_list
remove_entry-counts address irp e s there =
    let less = total-erase (λ e. bit (e.1.irp == irp)) address e s.list there in
    let found = find-total irp (erase address s.list) in
    (
      (if e.from_pool
          then record s { list = erase address s.list; allocated = s.allocated - 1 }
          else record s { list = erase address s.list }),
      rw there refl,
      (elim (Bool-cases e.from_pool) [ inl f ↦ rw f less | inr f ↦ rw f less ]),
      (elim (Bool-cases e.from_pool) [
        | inl f ↦ rw f (ground (arith, less, found))
        | inr f ↦ rw f (ground (arith, less, found))
      ]),
    )

-- A request is tracked while it is in flight: if there is memory for the entry,
-- `OcCrInsertIrpInProcessedList` makes `OcCrTrackerIsIrpInList` find the request and changes the
-- answer for no other one. When it is done, by `OcCrTrackerRemoveEntry` on the entry that was returned
-- or, for an embedded entry, by the completion routine, the tracker is what it was before.
pub tracked_in_flight :
    (irp address embedded : ℕ) (allocate : Bool) (s : IrpTracker)
    → let (s', returned) = insert_irp_in_processed_list irp allocate (some address) embedded s in
      (is_irp_in_list irp s' ≡ true)
      × ((other : ℕ) → is_irp_in_list other s' ≡ ((irp == other) || is_irp_in_list other s))
      × (returned ≡ (if allocate then entry_at address else invalid_pointer))
      × ((if allocate then remove_entry address s' else complete irp s') ≡ some s)
unfolding insert_irp_in_processed_list is_irp_in_list find_irp remove_entry complete lookup erase
tracked_in_flight irp address embedded true s =
    let r : s.allocated + 1 - 1 ≡ s.allocated = omega arith in
    (
      rw ==_refl refl,
      λ other. ground arith,
      refl,
      rw ==_refl (λ i. some (record s { allocated = r i })),
    )
tracked_in_flight irp address embedded false s =
    (rw ==_refl refl, λ other. ground arith, refl, rw (==_refl irp, ==_refl embedded) refl)
