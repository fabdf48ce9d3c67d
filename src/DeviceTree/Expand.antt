-- ===== src/DeviceTree/Expand.antt =====
-- What hangs on a device comes on the stack of `OcCrTraverseFromDownToTop` of o_core/o_core/devdatabase.c.
use windows_system_wide_filt.DeviceTree.Forest.{listed}
use windows_system_wide_filt.Base.{
  ℕ, ◌≡◌, ◌==◌, if◌then◌else◌, ◌+◌, ◌-◌, ◌≤◌, ◌⊎◌, Bool, Bool-cases, List, Option, [], arith, inl,
  inr, length, ltb, none, refl, some, success, true, Status, ◌>>=◌,
}
use windows_system_wide_filt.DeviceTree.{
  DeviceNode, expand, Tree, Traversal, reference_if, tune_device_stack, relations_at,
  indices_to_push, push_relations,
}
use windows_system_wide_filt.Object.{Store, dereference_object}

-- The number of entries by which the stack grows.
abbrev pub growth : {S C : Type 0} → Traversal S C → (bus removal : Option (List ℕ)) → ℕ
growth t bus removal =
    let left = t.capacity - length t.stack in
    let wanted = indices_to_push bus removal in if ltb left wanted then wanted - left else 0

-- After the stack has grown.
abbrev pub grown : {S C : Type 0} → ℕ → Traversal S C → Traversal S C
grown entries t = record t {
  capacity = t.capacity + entries;
  allocations = if entries == 0 then t.allocations else t.allocations + 1;
}

pub tune-eq :
    {S C : Type 0} (grants : ℕ → Bool) (entries : ℕ) (t : Traversal S C)
    → ((n : ℕ) → grants n ≡ true)
    → tune_device_stack grants entries t ≡ (grown entries t, success)
unfolding tune_device_stack
tune-eq grants entries t all = elim (Bool-cases (entries == 0)) [
  | inl e ↦ let same : t.capacity ≡ t.capacity + entries = ground arith in rw (e, ← same) refl
  | inr e ↦ rw (e, all t.allocations) refl
]

-- Room is made for all, if only one kind of relations has devices.
pub enough-wanted :
    (bus removal : Option (List ℕ))
    → (bus ≡ none) ⊎ (listed removal ≡ [])
    → length (listed bus) + length (listed removal) ≤ indices_to_push bus removal
unfolding indices_to_push
enough-wanted none none one = omega arith
enough-wanted none (some devices) one = omega arith
enough-wanted (some devices) removal (inl absent) = absurd cc
enough-wanted (some devices) removal (inr empty_list) = rw empty_list (omega arith)

module _ {S C : Type 0} (tree : Tree) (grants : ℕ → Bool) (node_function : ℕ → C → C × Bool) where
  -- What is left of a round once the bus relations have been pushed.
  abbrev pub after_bus_of :
      (device : ℕ)
      → DeviceNode
      → Option (List ℕ)
      → Traversal S C
      → Option (Traversal S C × Bool × Status)
  after_bus_of device node removal t = do
    all ← push_relations node.removal_relations removal t
    store ← dereference_object device all.store
    some (record all { store = store }, true, success)

  pub expand-steps :
      (device : ℕ) (node : DeviceNode) (t t1 t2 : Traversal S C) (s1 s2 : Store S)
      (bus removal : Option (List ℕ))
      → reference_if node.bus_relations t.store ≡ some s1
      → reference_if node.removal_relations s1 ≡ some s2
      → relations_at tree node.bus_relations s2 ≡ some bus
      → relations_at tree node.removal_relations s2 ≡ some removal
      → tune_device_stack grants (growth t bus removal) (record t { store = s2 }) ≡ (t1, success)
      → push_relations node.bus_relations bus t1 ≡ some t2
      → expand tree grants node_function device node t ≡ after_bus_of device node removal t2
  unfolding expand
  expand-steps device node t t1 t2 s1 s2 bus removal e1 e2 e3 e4 e5 e6 =
      rw (e1, e2, e3, e4, e5, e6) refl
