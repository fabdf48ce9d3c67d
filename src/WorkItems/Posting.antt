-- ===== src/WorkItems/Posting.antt =====
-- Posting work items and processing them.
use windows_system_wide_filt.Base.{
  ℕ, List, Option, [], ◌∷◌, ◌++◌, ◌≡◌, ◌≤◌, some, true, false, ◌>>=◌, length, refl, arith, ap, sym,
  ◌∙◌, insufficient_resources, success, ltb,
}
use windows_system_wide_filt.WorkItems.{
  WorkItem, WorkItemList, store_parameters, post_work_item_internal, process_items, free_work_item,
  process_all_work_items, call_work_item_function, parameters_max_number, read_parameters,
}

store-length :
    (parameters : List ℕ) → store_parameters (length parameters) parameters ≡ some parameters
unfolding store_parameters
store-length [] = refl
store-length (p ∷ parameters) = rw (store-length parameters) refl

append_nil : {A : Type 0} (xs : List A) → xs ++ [] ≡ xs
append_nil [] = refl
append_nil (x ∷ xs) = ap (◌∷◌ x) (append_nil xs)

append_one : {A : Type 0} (xs : List A) (y : A) (ys : List A) → (xs ++ y ∷ []) ++ ys ≡ xs ++ y ∷ ys
append_one [] y ys = refl
append_one (x ∷ xs) y ys = ap (◌∷◌ x) (append_one xs y ys)

-- The work item of an asynchronous call.
abbrev pub item_of : ℕ → List ℕ → WorkItem
item_of function_address parameters = record {
  function_address = function_address;
  number_of_parameters = length parameters;
  parameters = parameters;
  allocated_on_stack = false;
  caller_event = false;
}

-- Posting three parameters, with memory for a work item and without.
pub post_three :
    (address p q r : ℕ) (queue : WorkItemList Unit)
    → post_work_item_internal false address (p ∷ q ∷ r ∷ []) true queue
      ≡ some (
        record queue {
          list_head = queue.list_head ++ item_of address (p ∷ q ∷ r ∷ []) ∷ [];
          wakeup_event = true;
        },
        success,
      )
unfolding post_work_item_internal store_parameters
post_three address p q r queue = refl

pub post_refused :
    (address p q r : ℕ) (queue : WorkItemList Unit)
    → post_work_item_internal false address (p ∷ q ∷ r ∷ []) false queue
      ≡ some (queue, insufficient_resources)
unfolding post_work_item_internal
post_refused address p q r queue = refl

read-all : (parameters : List ℕ) → read_parameters (length parameters) parameters ≡ some parameters
unfolding read_parameters
read-all [] = refl
read-all (p ∷ parameters) = rw (read-all parameters) refl

-- No call has more parameters than a work item can have.
abbrev pub Few : List (ℕ × List ℕ) → Type 0
Few [] = Unit
Few ((function_address, parameters) ∷ calls) =
    (length parameters ≤ parameters_max_number) × Few calls

unfoldable items_of : List (ℕ × List ℕ) → List WorkItem
items_of [] = []
items_of ((function_address, parameters) ∷ calls) =
    item_of function_address parameters ∷ items_of calls

module _ {C : Type 0} where
  -- Post several asynchronous calls, memory being there.
  unfoldable pub post_all : List (ℕ × List ℕ) → WorkItemList C → Option (WorkItemList C)
  post_all [] s = some s
  post_all ((function_address, parameters) ∷ calls) s = do
    r ← post_work_item_internal false function_address parameters true s
    post_all calls r.0

  -- Make several calls, in order.
  unfoldable pub call_in_order : (ℕ → List ℕ → C → C) → List (ℕ × List ℕ) → C → C
  call_in_order call [] client = client
  call_in_order call ((function_address, parameters) ∷ calls) client =
      call_in_order call calls (call function_address parameters client)

  -- A list whose items have been processed: nobody has been told, as no call waits.
  abbrev Processed :
      (ℕ → List ℕ → C → C) → List (ℕ × List ℕ) → WorkItemList C → Option (WorkItemList C) → Type 0
  Processed call calls s r =
      (s' : WorkItemList C) × (r ≡ some s')
      × (s'.client ≡ call_in_order call calls s.client)
      × (s'.list_head ≡ [])
      × (s'.events_set ≡ s.events_set)

  process-items_of :
      (call : ℕ → List ℕ → C → C) (calls : List (ℕ × List ℕ)) (s : WorkItemList C)
      → Few calls
      → s.list_head ≡ items_of calls
      → Processed call calls s (process_items call (items_of calls) s)
  unfolding process_items items_of call_in_order free_work_item call_work_item_function
  process-items_of call [] s few queue = (s, refl, refl, queue, refl)
  process-items_of call ((f, ps) ∷ calls) s (few, all_few) queue =
      let inside : ltb parameters_max_number (length ps) ≡ false = ground arith in
      rw (inside, read-all ps) (process-items_of call calls _ all_few refl)

  post_all-items :
      (calls : List (ℕ × List ℕ)) (s : WorkItemList C)
      → Few calls
      → (s' : WorkItemList C) × (post_all calls s ≡ some s')
        × (s'.list_head ≡ s.list_head ++ items_of calls)
        × (s'.client ≡ s.client)
        × (s'.events_set ≡ s.events_set)
  unfolding post_all post_work_item_internal items_of
  post_all-items [] s few = (s, refl, sym (append_nil s.list_head), refl, refl)
  post_all-items ((f, ps) ∷ calls) s (few, all_few) =
      let item = item_of f ps in
      let inside : ltb parameters_max_number (length ps) ≡ false = ground arith in
      let posted : WorkItemList C = record s {
        list_head = s.list_head ++ item ∷ [];
        wakeup_event = true;
      } in
      let (s', e, listed, same, told) = post_all-items calls posted all_few in
      (
        s',
        rw (inside, store-length ps) e,
        listed ∙ append_one s.list_head item (items_of calls),
        same,
        told,
      )

  -- Posted calls are made once and in order: with memory for the work items, asynchronous calls with at
  -- most ten parameters that are posted to an empty list are all made by the next
  -- `OcWthProcessAllWorkItems`, each once, with its own parameters and in the order of posting; no caller
  -- is told, and the list is empty afterwards.
  pub posted_in_order :
      (call : ℕ → List ℕ → C → C) (calls : List (ℕ × List ℕ)) (s : WorkItemList C)
      → Few calls
      → s.list_head ≡ []
      → (s' : WorkItemList C) × (s'' : WorkItemList C) × (post_all calls s ≡ some s')
        × (process_all_work_items call s' ≡ some s'')
        × (s''.client ≡ call_in_order call calls s.client)
        × (s''.list_head ≡ [])
        × (s''.events_set ≡ s.events_set)
  unfolding process_all_work_items
  posted_in_order call calls s few no_items =
      let (s', e, listed, same, told) = post_all-items calls s few in
      let queue : s'.list_head ≡ items_of calls = listed ∙ ap (λ l. l ++ items_of calls) no_items in
      let (s'', e', made, nothing_left, told') = process-items_of call calls s' few queue in
      (
        s',
        s'',
        e,
        ap (λ l. process_items call l s') queue ∙ e',
        made ∙ ap (call_in_order call calls) same,
        nothing_left,
        told' ∙ told,
      )
