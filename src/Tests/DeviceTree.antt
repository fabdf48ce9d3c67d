-- ===== src/Tests/DeviceTree.antt =====
-- A hub with two devices, and the theorems on the tree of devices at it.
use windows_system_wide_filt.Object.References.{Counted}
use windows_system_wide_filt.Object.{ObjectHeader, Store}
use windows_system_wide_filt.Base.{
  ℕ, ◌≡◌, ◌∷◌, Bool, List, [], arith, inl, inr, lookup, none, refl, some, success, true,
}
use windows_system_wide_filt.DeviceTree.Forest.{
  nobody, Shows, grow, Known, size, pushed, Forest, and_one, depth_first, empty, hangs, nothing,
}
use windows_system_wide_filt.DeviceTree.Hanging.{at_device}
use windows_system_wide_filt.DeviceTree.Overflow.{both_relations_overflow}
use windows_system_wide_filt.DeviceTree.FromDownToTop.{traverse-depth_first, first_devices}
use windows_system_wide_filt.DeviceTree.{
  DeviceNode, Tree, expand, Traversal, traverse_from_down_to_top, return_pdo,
}

abbrev header : ObjectHeader
header = record { ref_count = 1; object_type = 1; zeroed = 0 }

abbrev store : Store Unit
store = record {
  initialized = true;
  types = [];
  objects =
      (20, header) ∷ (21, header) ∷ (30, header) ∷ (31, header) ∷ (40, header) ∷ (41, header) ∷ [];
  client = tt;
}

abbrev leaf : DeviceNode
leaf = record { pdo = 0; is_lowest = true; bus_relations = 0; removal_relations = 0 }

-- A hub with bus relations, and one with removal relations as well.
abbrev hub : DeviceNode
hub = record { pdo = 0; is_lowest = true; bus_relations = 40; removal_relations = 0 }

abbrev mixed_hub : DeviceNode
mixed_hub = record { pdo = 0; is_lowest = true; bus_relations = 40; removal_relations = 41 }

abbrev tree : Tree
tree = record {
  devices = (20, hub) ∷ (21, mixed_hub) ∷ (30, leaf) ∷ (31, leaf) ∷ [];
  relations = (40, some (30 ∷ 31 ∷ [])) ∷ (41, some (31 ∷ 30 ∷ 31 ∷ [])) ∷ [];
}

-- The node function remembers the devices, the last one first.
abbrev remember : ℕ → List ℕ → List ℕ × Bool
remember device devices = (device ∷ devices, true)

abbrev always : ℕ → Bool
always n = true

counted_at : (x : ℕ) → lookup x store.objects ≡ some header → Counted 16 x store
counted_at x there = record {
  header = header;
  there = there;
  positive = omega arith;
  small = omega arith;
}

abbrev leaf_30 : Known tree 16 store 30
unfolding lookup
leaf_30 = record {
  nonzero = refl;
  node = leaf;
  there = refl;
  counted = counted_at 30 refl;
  bus = none;
  removal = none;
  has_bus = inl (refl, refl);
  has_removal = inl (refl, refl);
}

abbrev leaf_31 : Known tree 16 store 31
unfolding lookup
leaf_31 = record {
  nonzero = refl;
  node = leaf;
  there = refl;
  counted = counted_at 31 refl;
  bus = none;
  removal = none;
  has_bus = inl (refl, refl);
  has_removal = inl (refl, refl);
}

abbrev hub_20 : Known tree 16 store 20
unfolding lookup
hub_20 = record {
  nonzero = refl;
  node = hub;
  there = refl;
  counted = counted_at 20 refl;
  bus = some (30 ∷ 31 ∷ []);
  removal = none;
  has_bus = inr (refl, refl, counted_at 40 refl);
  has_removal = inl (refl, refl);
}

abbrev hub_21 : Known tree 16 store 21
unfolding lookup
hub_21 = record {
  nonzero = refl;
  node = mixed_hub;
  there = refl;
  counted = counted_at 21 refl;
  bus = some (30 ∷ 31 ∷ []);
  removal = some (31 ∷ 30 ∷ 31 ∷ []);
  has_bus = inr (refl, refl, counted_at 40 refl);
  has_removal = inr (refl, refl, counted_at 41 refl);
}

-- The hub with its two devices.
abbrev hub_forest : Forest
hub_forest = grow 20 (grow 31 empty (grow 30 empty empty)) empty

hub-Shows : Shows tree 16 store (first_devices 20 20) hub_forest
unfolding pushed hub_20 leaf_30 leaf_31
hub-Shows =
    hangs hub_20 (inr refl)
      (hangs leaf_31 (inl refl) nothing (hangs leaf_30 (inl refl) nothing nothing)) nothing

traverse-depth_first_example :
    traverse_from_down_to_top tree always remember 3 20 store []
    ≡ some (store, 30 ∷ 31 ∷ 20 ∷ [], success)
unfolding depth_first size return_pdo hub_20
traverse-depth_first_example =
    traverse-depth_first tree always remember 16 store (λ n. refl) 3 20 hub_forest [] hub_20
      hub-Shows (omega arith) (omega arith)

-- The second hub is the only one on the stack.
abbrev one_hub : Traversal Unit (List ℕ)
one_hub = record { store = store; stack = []; capacity = 4; allocations = 1; client = [] }

both_relations_overflow_example :
    expand tree always remember 21 mixed_hub (at_device tree always remember 16 store 21 [] one_hub)
    ≡ none
unfolding hub_21
both_relations_overflow_example =
    both_relations_overflow tree always remember 16 store 21 hub_21 (30 ∷ 31 ∷ [])
      (31 ∷ 30 ∷ 31 ∷ []) [] one_hub refl refl (and_one leaf_30 (and_one leaf_31 nobody))
      (and_one leaf_31 (and_one leaf_30 (and_one leaf_31 nobody))) (omega arith) (omega arith)
      (omega arith) (omega arith) (λ n. refl)
