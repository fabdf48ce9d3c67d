-- ===== src/DeviceTree/FromDownToTop.antt =====
-- All of `OcCrTraverseFromDownToTop` of o_core/o_core/devdatabase.c.
use windows_system_wide_filt.Object.{Store}
use windows_system_wide_filt.Base.{
  ℕ, ◌≡◌, ◌==◌, if◌then◌else◌, ◌∷◌, ◌+◌, ◌≤◌, ◌>>=◌, ◌<◌, Bool, Bool-cases, List, [], arith, inl,
  inr, length, refl, some, success, true, Option, Status,
}
use windows_system_wide_filt.DeviceTree.Pushing.{push-eq, with_stack}
use windows_system_wide_filt.DeviceTree.Forest.{
  size, Shows, Forest, Known, depth_first, Shows-AllKnown, and_one,
}
use windows_system_wide_filt.DeviceTree.Visits.{go_on-Ends}
use windows_system_wide_filt.DeviceTree.{
  push, Traversal, Tree, dereference_all, return_pdo, tune_device_stack, visit_all,
  traverse_from_down_to_top,
}
use windows_system_wide_filt.DeviceTree.DepthFirst.{dereference_all-eq}
use windows_system_wide_filt.Object.Held.{bumps, Counted-le}

-- The stack that the traversal starts with: the device, and its PDO below it.
abbrev pub first_devices : (device pdo : ℕ) → List ℕ
first_devices device pdo = if pdo == device then pdo ∷ [] else device ∷ pdo ∷ []

module _ {S C : Type 0} (tree : Tree) (grants : ℕ → Bool) (node_function : ℕ → C → C × Bool)
    (room : ℕ) (s : Store S) (all : (n : ℕ) → grants n ≡ true) where
  -- The traversal with room for four devices.
  abbrev empty_stack : C → Traversal S C
  empty_stack client = record {
    store = s;
    stack = [];
    capacity = 0 + 4;
    allocations = 1;
    client = client;
  }

  -- The loop, and what comes after it.
  abbrev rest_of : (rounds : ℕ) → Traversal S C → Option (Store S × C × Status)
  rest_of rounds t = do
    visited ← visit_all tree grants node_function rounds t
    store ← dereference_all visited.0.stack visited.0.store
    some (store, visited.0.client, visited.1)

  loop_and_end :
      (rounds device : ℕ) (devices : List ℕ) (f : Forest) (client : C)
      → Shows tree room s (device ∷ devices) f
      → size f ≤ rounds
      → size f + 4 ≤ room
      → length devices + 1 ≤ 4
      → rest_of rounds (with_stack (device ∷ devices) s (empty_stack client))
        ≡ some (s, (depth_first node_function f client).0, success)
  loop_and_end rounds device devices f client shows enough fits few =
      let e =
        go_on-Ends tree grants node_function room s all rounds (empty_stack client) shows enough
          fits (omega (arith, few)) in
      rw (e.2, dereference_all-eq tree room s e.1 e.4 e.5, e.3) refl

  first-push :
      (device : ℕ) (stack : List ℕ) (client : C)
      → Known tree room s device
      → length stack < 4
      → 4 ≤ room
      → push device (with_stack stack s (empty_stack client))
        ≡ some (with_stack (device ∷ stack) s (empty_stack client))
  first-push device stack client k few fits =
      push-eq tree room s s 4 (λ x c. Counted-le 4 room x s fits c) device stack
        (empty_stack client) k few (omega (arith, few))

  tuned-first :
      (client : C)
      → tune_device_stack grants 4
          (record { store = s; stack = []; capacity = 0; allocations = 0; client = client })
        ≡ (empty_stack client, success)
  unfolding tune_device_stack
  tuned-first client = rw (all 0) refl

  -- The tree is visited depth first, and all references are given back. Let a device and its PDO stand in
  -- a tree whose relations are the forest `f`, where no device has both bus relations and removal
  -- relations with devices, every allocation has memory, and each object can be referenced as often as
  -- the forest has devices and four times more. Then `OcCrTraverseFromDownToTop` returns success within as
  -- many rounds as there are devices; the node function has seen the devices from the first one on, each
  -- before those that hang on it, until it said to stop; and the objects are as before.
  pub traverse-depth_first :
      (rounds device : ℕ) (f : Forest) (client : C)
      → (k : Known tree room s device)
      → Shows tree room s (first_devices device (return_pdo device k.node)) f
      → size f ≤ rounds
      → size f + 4 ≤ room
      → traverse_from_down_to_top tree grants node_function rounds device s client
        ≡ some (s, (depth_first node_function f client).0, success)
  unfolding traverse_from_down_to_top bumps
  traverse-depth_first rounds device f client k shows enough fits =
      let pdo = return_pdo device k.node in
      let room4 : 4 ≤ room = omega (arith, fits) in
      elim (Bool-cases (pdo == device)) [
        | inl e ↦
            let shows' : Shows tree room s (pdo ∷ []) f = rw e at shows in
            elim (Shows-AllKnown tree room s shows') [
              | and_one k' others ↦
                  rw
                    (
                      k.counted.there,
                      k.there,
                      tuned-first client,
                      first-push pdo [] client k' (omega arith) room4,
                      e,
                    )
                    (loop_and_end rounds pdo [] f client shows' enough fits (omega arith))
            ]
        | inr e ↦
            let shows' : Shows tree room s (device ∷ pdo ∷ []) f = rw e at shows in
            elim (Shows-AllKnown tree room s shows') [
              | and_one k' (and_one k'' others) ↦
                  rw
                    (
                      k.counted.there,
                      k.there,
                      tuned-first client,
                      first-push pdo [] client k'' (omega arith) room4,
                      e,
                      first-push device (pdo ∷ []) client k (omega arith) room4,
                    )
                    (loop_and_end rounds device (pdo ∷ []) f client shows' enough fits
                      (omega arith))
            ]
      ]
