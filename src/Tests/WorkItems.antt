-- ===== src/Tests/WorkItems.antt =====
-- Two calls that are posted to an empty list.
use windows_system_wide_filt.Base.{
  ℕ, List, [], ◌∷◌, ◌++◌, ◌≡◌, some, none, true, false, refl, arith,
}
use windows_system_wide_filt.WorkItems.{
  WorkItemList, post_work_item_internal, process_all_work_items, store_parameters,
}
use windows_system_wide_filt.WorkItems.Posting.{call_in_order, post_all, posted_in_order}

abbrev idle_list : WorkItemList (List ℕ)
idle_list = record {
  private_list = false;
  list_head = [];
  wakeup_event = false;
  events_set = 0;
  client = [];
}

-- A function that logs its address and its first parameters.
abbrev log_call : ℕ → List ℕ → List ℕ → List ℕ
log_call function_address parameters seen = function_address ∷ (parameters ++ seen)

posted_in_order_example :
    (s' : WorkItemList (List ℕ)) × (s'' : WorkItemList (List ℕ)) × (post_all
        ((1, 5 ∷ []) ∷ (2, []) ∷ [])
        idle_list
      ≡ some s')
    × (process_all_work_items log_call s' ≡ some s'')
    × (s''.client ≡ 2 ∷ 1 ∷ 5 ∷ [])
    × (s''.list_head ≡ [])
    × (s''.events_set ≡ 0)
unfolding call_in_order
posted_in_order_example =
    posted_in_order log_call ((1, 5 ∷ []) ∷ (2, []) ∷ []) idle_list (omega arith, (omega arith, tt))
      refl

-- A synchronous call stores its parameter behind the header on the stack.
synchronous_parameter_overflows : post_work_item_internal true 1 (5 ∷ []) true idle_list ≡ none
unfolding post_work_item_internal store_parameters
synchronous_parameter_overflows = refl
