-- ===== src/DeviceTree.antt =====
-- The way through the tree of devices of o_core/o_core/devdatabase.c: from a device up to all that are
-- connected with it through relations. Devices and relations are objects of the object manager, and the
-- stack of devices is memory that grows; to write beyond it, or to touch an object that is gone, is a
-- fault, `none`. The tree does not change on the way.
pub mod Forest
pub mod Pushing
pub mod Round
pub mod Expand
pub mod Hanging
pub mod DepthFirst
pub mod Visits
pub mod FromDownToTop
pub mod Overflow
use windows_system_wide_filt.Base.{
  ℕ, ◌>>=◌, ◌&&◌, if◌then◌else◌, not, ◌==◌, ◌∷◌, ◌-◌, ◌+◌, Bool, List, Option, Status, [], false,
  insufficient_resources, length, lookup, ltb, none, nt_success, some, suc, success, true, zero,
}
use windows_system_wide_filt.Object.{Store, dereference_object, reference_object}

-- What the traversal reads of `OC_DEVICE_OBJECT`: the PDO (0 for `NULL`), whether its PnP type is that of a
-- PDO or of a lowest device, and the objects of its bus and removal relations (0 for `NULL`).
pub record DeviceNode : Type 0 where
  pub pdo : ℕ
  pub is_lowest : Bool
  pub bus_relations : ℕ
  pub removal_relations : ℕ

-- The devices, and the lists of devices of the relations, `none` for `NULL`.
pub record Tree : Type 0 where
  pub devices : List (ℕ × DeviceNode)
  pub relations : List (ℕ × Option (List ℕ))

-- The state of `OcCrTraverseFromDownToTop`: the objects, the stack from its top with the number of its
-- entries, the number of allocations so far, and the state of the node function.
pub record Traversal (S C : Type 0) : Type 0 where
  pub store : Store S
  pub stack : List ℕ
  pub capacity : ℕ
  pub allocations : ℕ
  pub client : C

-- `OcCrReturnPDO`.
unfoldable pub return_pdo : ℕ → DeviceNode → ℕ
return_pdo device node = if not (node.pdo == 0) && not node.is_lowest then node.pdo else device

-- The number of indices that `OcCrTraverseFromDownToTop` makes room for: `0x0 + c` in its expression is
-- the condition of the second choice, which is the third operand of the first.
unfoldable pub indices_to_push : (bus removal : Option (List ℕ)) → ℕ
indices_to_push (some devices) removal = length devices
indices_to_push none (some devices) = length devices
indices_to_push none none = 0

module _ {S : Type 0} where
  -- Reference an object, if there is one.
  abbrev pub reference_if : ℕ → Store S → Option (Store S)
  reference_if object s = if object == 0 then some s else reference_object object s

  -- Give back what is left on the stack.
  unfoldable pub dereference_all : List ℕ → Store S → Option (Store S)
  dereference_all [] s = some s
  dereference_all (device ∷ devices) s = do
    s' ← dereference_object device s
    dereference_all devices s'

  -- Read a device.
  abbrev pub device_at : Tree → ℕ → Store S → Option DeviceNode
  device_at tree device s = do header ← lookup device s.objects; lookup device tree.devices

  -- Read the list of relations; `NULL` has none.
  abbrev pub relations_at : Tree → ℕ → Store S → Option (Option (List ℕ))
  relations_at tree relations s =
      if relations == 0
      then some none
      else do header ← lookup relations s.objects; lookup relations tree.relations

module _ {S C : Type 0} where
  -- `OcCrTuneDeviceStackForPushing`, in entries. `grants` says whether an allocation has memory.
  unfoldable pub tune_device_stack :
      (grants : ℕ → Bool) (entries : ℕ) → Traversal S C → Traversal S C × Status
  tune_device_stack grants entries t =
      let asked = record t { allocations = t.allocations + 1 } in
      if entries == 0
      then (t, success)
      else (if grants t.allocations
          then (record asked { capacity = t.capacity + entries }, success)
          else (asked, insufficient_resources))

  -- Push a device with a reference.
  unfoldable pub push : ℕ → Traversal S C → Option (Traversal S C)
  push device t = if length t.stack == t.capacity then none else do
    store ← reference_object device t.store
    some (record t { store = store; stack = device ∷ t.stack })

  -- `OcCrPushOnStackObjectsFromRealtions`, for the objects of the relations.
  unfoldable pub push_on_stack : List ℕ → Traversal S C → Option (Traversal S C)
  push_on_stack [] t = some t
  push_on_stack (device ∷ devices) t = do
    pushed ← if device == 0 then some t else push device t
    push_on_stack devices pushed

  -- Push the devices of a relations object, if there is one, and give it back.
  unfoldable pub push_relations :
      (relations : ℕ) → Option (List ℕ) → Traversal S C → Option (Traversal S C)
  push_relations relations devices t = if relations == 0 then some t else do
    pushed ← elim devices [ none ↦ some t | some listed ↦ push_on_stack listed t ]
    store ← dereference_object relations pushed.store
    some (record pushed { store = store })

module _ {S C : Type 0} (tree : Tree) (grants : ℕ → Bool) (node_function : ℕ → C → C × Bool) where
  -- One round of the loop, once the node function has said to go on: whether to go on, and the status.
  unfoldable pub expand :
      (device : ℕ) → DeviceNode → Traversal S C → Option (Traversal S C × Bool × Status)
  expand device node t = do
    s1 ← reference_if node.bus_relations t.store
    s2 ← reference_if node.removal_relations s1
    bus ← relations_at tree node.bus_relations s2
    removal ← relations_at tree node.removal_relations s2
    let left = t.capacity - length t.stack
    let wanted = indices_to_push bus removal
    let tuned =
        tune_device_stack grants (if ltb left wanted then wanted - left else 0)
          (record t { store = s2 })
    if not (nt_success tuned.1)
        then (do
          store ← dereference_object device tuned.0.store
          some (record tuned.0 { store = store }, false, tuned.1))
        else (do
          pushed ← push_relations node.bus_relations bus tuned.0
          all ← push_relations node.removal_relations removal pushed
          store ← dereference_object device all.store
          some (record all { store = store }, true, success))

  -- One round of the loop.
  unfoldable pub visit : Traversal S C → Option (Traversal S C × Bool × Status)
  visit t = elim t.stack [
    | [] ↦ none
    | device ∷ devices ↦ (do
      node ← device_at tree device t.store
      let called = node_function device t.client
      let popped = record t { stack = devices; client = called.0 }
      if called.1 then expand device node popped else (do
        store ← dereference_object device t.store
        some (record popped { store = store }, false, success)))
  ]

  -- The loop, for so many rounds at most.
  unfoldable pub visit_all : (rounds : ℕ) → Traversal S C → Option (Traversal S C × Status)
  visit_all zero t = none
  visit_all (suc rounds) t = do
    visited ← visit t
    let rest = visit_all rounds visited.0
    if not visited.1
        then some (visited.0, visited.2)
        else elim visited.0.stack [ [] ↦ some (visited.0, success) | device ∷ devices ↦ rest ]

  -- `OcCrTraverseFromDownToTop`.
  unfoldable pub traverse_from_down_to_top :
      (rounds device : ℕ) → Store S → C → Option (Store S × C × Status)
  traverse_from_down_to_top rounds device s client = do
    node ← device_at tree device s
    let pdo = return_pdo device node
    let tuned =
        tune_device_stack grants 4
          (record { store = s; stack = []; capacity = 0; allocations = 0; client = client })
    if not (nt_success tuned.1) then some (s, client, tuned.1) else (do
      first ← push pdo tuned.0
      second ← if pdo == device then some first else push device first
      visited ← visit_all rounds second
      store ← dereference_all visited.0.stack visited.0.store
      some (store, visited.0.client, visited.1))
