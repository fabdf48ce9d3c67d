-- ===== src/Tests/IrpTracker.antt =====
-- The IRP tracker with one request from the pool.
use windows_system_wide_filt.Base.{ℕ, [], ◌∷◌, ◌≡◌, some, true, false, refl, ◌==◌, ◌||◌}
use windows_system_wide_filt.IrpTracker.{
  IrpTracker, TrackEntry, insert_irp_in_processed_list, complete, is_irp_in_list,
  initialize_irp_tracker, uninitialize_irp_tracker, invalid_pointer,
}
use windows_system_wide_filt.IrpTracker.Tracking.{tracked_in_flight}

abbrev pool_entry : TrackEntry
pool_entry = record { from_pool = true; irp = 70 }

abbrev tracker : IrpTracker
tracker = record {
  initialized = false;
  lookaside_lists = 1;
  allocated = 1;
  list = (10, pool_entry) ∷ [];
  routines = [];
}

tracked_in_flight_example :
    let (s', returned) = insert_irp_in_processed_list 80 false (some 20) 30 tracker in
    (is_irp_in_list 80 s' ≡ true)
    × ((other : ℕ) → is_irp_in_list other s' ≡ ((80 == other) || is_irp_in_list other tracker))
    × (returned ≡ invalid_pointer)
    × (complete 80 s' ≡ some tracker)
tracked_in_flight_example = tracked_in_flight 80 20 30 false tracker

-- Each pair of calls leaves one more lookaside list behind.
lookaside_list_is_left :
    uninitialize_irp_tracker (initialize_irp_tracker tracker)
    ≡ record tracker { lookaside_lists = 2; list = [] }
unfolding initialize_irp_tracker uninitialize_irp_tracker
lookaside_list_is_left = refl
