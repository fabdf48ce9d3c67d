-- ===== src/WorkItems.antt =====
-- The work items of common/wthreads/ocwthread.c: a list of calls that threads post and worker threads
-- make. What a work item's function does to the state of the clients is an argument. An access beyond the
-- end of an array, and the bug check for too many parameters, are a fault, `none`.
pub mod Posting
use windows_system_wide_filt.Base.{
  ℕ, Bool, List, Option, Status, [], ◌∷◌, ◌++◌, some, none, not, true, false, ◌&&◌, if◌then◌else◌,
  ◌+◌, ◌>>=◌, zero, suc, length, success, insufficient_resources, count, ltb,
}

-- `OC_WORKITEM_HEADER` and the parameters behind it.
pub record WorkItem : Type 0 where
  pub function_address : ℕ
  pub number_of_parameters : ℕ
  pub parameters : List ℕ
  pub allocated_on_stack : Bool
  pub caller_event : Bool

-- `OC_WORK_ITEM_LIST_OBJECT`, the number of events of callers that have been set, and the state of the
-- clients.
pub record WorkItemList (C : Type 0) : Type 0 where
  pub private_list : Bool
  pub list_head : List WorkItem
  pub wakeup_event : Bool
  pub events_set : ℕ
  pub client : C

-- Store parameters into memory that has so many slots.
unfoldable pub store_parameters : ℕ → List ℕ → Option (List ℕ)
store_parameters slots [] = some []
store_parameters zero (p ∷ parameters) = none
store_parameters (suc slots) (p ∷ parameters) = do
  stored ← store_parameters slots parameters
  some (p ∷ stored)

-- Whether other work items are left.
abbrev pub is_list_empty : List WorkItem → Bool
is_list_empty [] = true
is_list_empty (item ∷ items) = false

-- `OC_WORKITEM_PARAMETERS_MAX_NUMBER`.
abbrev pub parameters_max_number : ℕ
parameters_max_number = 10

-- Read so many parameters.
unfoldable pub read_parameters : ℕ → List ℕ → Option (List ℕ)
read_parameters zero stored = some []
read_parameters (suc count) [] = none
read_parameters (suc count) (p ∷ stored) = do
  parameters ← read_parameters count stored
  some (p ∷ parameters)

module _ {C : Type 0} where
  -- `OcWthPostWorkItemInternal`, up to the wait of a synchronous call. The work item of such a call is
  -- a header on the stack, which has no slots behind it; another one is allocated with a slot for each
  -- parameter, if `memory` is there: the lookaside lists are an array with an entry for each number of
  -- parameters up to the greatest.
  unfoldable pub post_work_item_internal :
      (synchronous_call : Bool)
      → (function_address : ℕ) → List ℕ
      → (memory : Bool) → WorkItemList C
      → Option (WorkItemList C × Status)
  post_work_item_internal synchronous_call function_address parameters memory s =
      if not synchronous_call && ltb parameters_max_number (length parameters)
      then none
      else (if not synchronous_call && not memory then some (s, insufficient_resources) else do
        stored ← store_parameters (if synchronous_call then 0 else length parameters) parameters
        some (
          record s {
            list_head =
                s.list_head
                ++ (record {
                  function_address = function_address;
                  number_of_parameters = length parameters;
                  parameters = stored;
                  allocated_on_stack = synchronous_call;
                  caller_event = synchronous_call;
                })
                  ∷ [];
            wakeup_event = true;
          },
          success,
        ))

  -- `OcWthFreeWorkItem`: a caller that waits is told.
  unfoldable pub free_work_item : WorkItem → WorkItemList C → WorkItemList C
  free_work_item item s =
      if item.caller_event then record s { events_set = s.events_set + 1 } else s

  -- `OcWthCallCallWorkItemFunction`: a case for each number of parameters up to the greatest, and a bug
  -- check. What a function does with its parameters is `call`.
  unfoldable pub call_work_item_function :
      (call : ℕ → List ℕ → C → C)
      → (function_address number_of_parameters : ℕ) (stored : List ℕ) → C
      → Option C
  call_work_item_function call function_address number_of_parameters stored client =
      if ltb parameters_max_number number_of_parameters then none else do
        parameters ← read_parameters number_of_parameters stored
        some (call function_address parameters client)

  -- The `while` of `OcWthProcessAllWorkItems`, over the items on the list, while nobody posts.
  unfoldable pub process_items :
      (ℕ → List ℕ → C → C) → List WorkItem → WorkItemList C → Option (WorkItemList C)
  process_items call [] s = some s
  process_items call (item ∷ items) s = do
    let woken = s.wakeup_event
    client ←
        call_work_item_function call item.function_address item.number_of_parameters item.parameters
          s.client
    process_items call items (
        free_work_item item (record s {
          list_head = items;
          wakeup_event = if not s.private_list && not (is_list_empty items) then true else woken;
          client = client;
        }))

  unfoldable pub process_all_work_items :
      (ℕ → List ℕ → C → C) → WorkItemList C → Option (WorkItemList C)
  process_all_work_items call s = process_items call s.list_head s
