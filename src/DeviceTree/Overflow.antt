-- ===== src/DeviceTree/Overflow.antt =====
-- A device with both kinds of relations, for `OcCrTraverseFromDownToTop` of o_core/o_core/devdatabase.c.
use windows_system_wide_filt.Object.References.{Counted}
use windows_system_wide_filt.DeviceTree.Expand.{growth, grown}
use windows_system_wide_filt.Object.{Store}
use windows_system_wide_filt.Base.{
  ℕ, ◌≡◌, ◌+◌, ◌∙◌, ◌≤◌, ◌⊎◌, ◌<◌, Bool, List, Option, arith, inl, inr, length, none, refl, some,
  suc, true, subst,
}
use windows_system_wide_filt.DeviceTree.Pushing.{push_on_stack-overflow, bump_if, with_stack}
use windows_system_wide_filt.DeviceTree.Forest.{
  pushed, HasRelations, AllKnown, Known, length-pushed,
}
use windows_system_wide_filt.DeviceTree.Hanging.{at_device, expand-after_bus}
use windows_system_wide_filt.DeviceTree.{expand, Traversal, Tree, indices_to_push, push_relations}
use windows_system_wide_filt.Object.Held.{bump, Counted-le, Counted-bump}

module _ {S C : Type 0} (tree : Tree) (room : ℕ) (s base : Store S) (q : ℕ)
    (transfer : (x : ℕ) → Counted room x s → Counted (suc q) x base) where
  push_relations-overflow :
      (relations : ℕ) (devices stack : List ℕ) (t : Traversal S C)
      → HasRelations tree room s relations (some devices)
      → AllKnown tree room s devices
      → length stack ≤ t.capacity
      → t.capacity < length devices + length stack
      → length devices + length stack ≤ q
      → push_relations relations (some devices) (with_stack stack (bump_if relations base) t) ≡ none
  unfolding push_relations
  push_relations-overflow relations devices stack t (inl (null, no_devices)) known inside over few =
      absurd cc
  push_relations-overflow relations devices stack t (inr (nonzero, there, counted)) known inside
        over few =
      let overflow =
        push_on_stack-overflow tree room s (bump relations base) q
          (λ x c. Counted-bump q relations x base (transfer x c)) devices stack t known inside over
          few in
      rw (nonzero, overflow) refl

-- The stack grows for the bus relations alone.
grown-for_bus :
    {S C : Type 0} (t : Traversal S C) (bus : List ℕ) (removal : Option (List ℕ))
    → length t.stack ≤ t.capacity
    → ((grown (growth t (some bus) removal) t).capacity ≡ t.capacity)
      ⊎ ((grown (growth t (some bus) removal) t).capacity ≡ length t.stack + length bus)
unfolding indices_to_push
grown-for_bus t bus removal inside = ground arith

grown-holds_bus :
    {S C : Type 0} (t : Traversal S C) (bus : List ℕ) (removal : Option (List ℕ))
    → length t.stack ≤ t.capacity
    → length bus + length t.stack ≤ (grown (growth t (some bus) removal) t).capacity
unfolding indices_to_push
grown-holds_bus t bus removal inside = ground arith

module _ {S C : Type 0} (tree : Tree) (grants : ℕ → Bool) (node_function : ℕ → C → C × Bool)
    (room : ℕ) (s : Store S) where
  -- A device with bus relations and with removal relations overflows the stack. Let the round of the loop
  -- come to a device with a list of bus relations and at least one device in its removal relations, where
  -- the entries of the stack do not suffice for the stack and all of them. Every allocation has memory, and
  -- the objects can be referenced. Then `OcCrTraverseFromDownToTop` writes beyond the stack that it has
  -- grown.
  pub both_relations_overflow :
      (device : ℕ) (k : Known tree room s device) (bus removal stack : List ℕ) (t : Traversal S C)
      → k.bus ≡ some bus
      → k.removal ≡ some removal
      → AllKnown tree room s bus
      → AllKnown tree room s removal
      → length stack + length bus + length removal + 5 ≤ room
      → 1 ≤ length removal
      → length stack ≤ t.capacity
      → t.capacity < length stack + length bus + length removal
      → ((n : ℕ) → grants n ≡ true)
      → expand tree grants node_function device k.node
          (at_device tree grants node_function room s device stack t)
        ≡ none
  both_relations_overflow device k bus removal stack t has_bus has_removal known_bus known_removal
        fits nonempty inside over all =
      let t0 = at_device tree grants node_function room s device stack t in
      let stack1 = pushed bus stack in
      let long : length stack1 ≡ length bus + length stack = length-pushed bus stack in
      let holds = grown-holds_bus t0 bus (some removal) inside in
      let grows = grown-for_bus t0 bus (some removal) inside in
      let tg = grown (growth t0 (some bus) (some removal)) t in
      let too_few : tg.capacity < length removal + length stack1 = ground (arith, long, grows) in
      let after =
        expand-after_bus tree grants node_function room s k stack t (rw has_bus known_bus)
          (rw has_bus (omega (arith, fits))) (rw (has_bus, has_removal) holds) all in
      let overflow =
        push_relations-overflow tree room s (bump device s)
          (length stack + length bus + length removal)
          (λ x c. Counted-bump _ device x s (Counted-le _ room x s (omega (arith, fits)) c))
          k.node.removal_relations removal stack1 tg
          (subst (HasRelations tree room s k.node.removal_relations) has_removal k.has_removal)
          known_removal (omega (arith, long, holds)) too_few (omega (arith, long)) in
      after ∙ rw (has_removal, has_bus, overflow) refl
