-- ===== src/DeviceTree/Hanging.antt =====
-- The references of one round of `OcCrTraverseFromDownToTop` of o_core/o_core/devdatabase.c: those of the
-- device and of its relations are given back, those of the stack stay.
use windows_system_wide_filt.Object.References.{Counted}
use windows_system_wide_filt.Object.{Store}
use windows_system_wide_filt.Base.{
  ℕ, ◌≡◌, ◌+◌, ◌∙◌, ◌≤◌, ◌⊎◌, Bool, List, [], ap, arith, length, none, some, subst, suc, success,
  sym, true, refl,
}
use windows_system_wide_filt.Object.Held.{
  bump, bumps, Counted-bump, Counted-le, dereference-under, bumps-bump, Counted-bumps,
}
use windows_system_wide_filt.DeviceTree.Expand.{
  grown, expand-steps, enough-wanted, tune-eq, growth, after_bus_of,
}
use windows_system_wide_filt.DeviceTree.Round.{
  bump_if-swap, bump_if-bumps, Counted-bump_if, reference_if-eq, push_relations-eq, relations_at-eq,
}
use windows_system_wide_filt.DeviceTree.Pushing.{with_stack, bump_if}
use windows_system_wide_filt.DeviceTree.{expand, Traversal, Tree, push_relations}
use windows_system_wide_filt.DeviceTree.Forest.{pushed, AllKnown, listed, Known, length-pushed}

module _ {S : Type 0} where
  -- The references under the stack while a round works: the device, and its relations.
  abbrev pub under_stack : (device bus removal : ℕ) → Store S → Store S
  under_stack device bus removal s = bump_if bus (bump_if removal (bump device s))

  -- The same, as they are taken.
  abbrev pub as_taken : (device bus removal : ℕ) → List ℕ → Store S → Store S
  as_taken device bus removal stack s = bump_if removal (bump_if bus (bump device (bumps stack s)))

  pub taken-under :
      (device bus removal : ℕ) (stack : List ℕ) (s : Store S)
      → as_taken device bus removal stack s ≡ bumps stack (under_stack device bus removal s)
  taken-under device bus removal stack s =
      ap (λ x. bump_if removal (bump_if bus x)) (sym (bumps-bump stack device s))
      ∙ ap (bump_if removal) (bump_if-bumps bus stack (bump device s))
      ∙ bump_if-bumps removal stack (bump_if bus (bump device s))
      ∙ ap (bumps stack) (bump_if-swap removal bus (bump device s))

  pub Counted-device :
      (n room device x : ℕ) (stack : List ℕ) (s : Store S)
      → length stack + suc n ≤ room
      → Counted room x s
      → Counted n x (bump device (bumps stack s))
  Counted-device n room device x stack s le c =
      Counted-bump n device x (bumps stack s)
        (Counted-bumps (suc n) x stack s (Counted-le (length stack + suc n) room x s le c))

  pub Counted-base :
      (n room device removal x : ℕ) (s : Store S)
      → n + 2 ≤ room
      → Counted room x s
      → Counted n x (bump_if removal (bump device s))
  Counted-base n room device removal x s le c =
      Counted-bump_if n removal x (bump device s)
        (Counted-bump (suc n) device x s (Counted-le (suc (suc n)) room x s (omega (arith, le)) c))

module _ {S C : Type 0} (tree : Tree) (grants : ℕ → Bool) (node_function : ℕ → C → C × Bool)
    (room : ℕ) (s : Store S) where
  -- The state of a round once the device has been taken from the stack.
  abbrev pub at_device : (device : ℕ) (stack : List ℕ) → Traversal S C → Traversal S C
  at_device device stack t = record t { store = bump device (bumps stack s); stack = stack }

  -- The stack and the references once the bus relations have been pushed.
  abbrev pub with_bus :
      {device : ℕ} → Known tree room s device → List ℕ → Traversal S C → Traversal S C
  with_bus {device = device} k stack t =
      with_stack (pushed (listed k.bus) stack) (bump_if k.node.removal_relations (bump device s))
        (grown (growth (at_device device stack t) k.bus k.removal) t)

  pub expand-after_bus :
      {device : ℕ} (k : Known tree room s device) (stack : List ℕ) (t : Traversal S C)
      → AllKnown tree room s (listed k.bus)
      → length stack + length (listed k.bus) + 5 ≤ room
      → length (listed k.bus) + length stack
        ≤ (grown (growth (at_device device stack t) k.bus k.removal) t).capacity
      → ((n : ℕ) → grants n ≡ true)
      → expand tree grants node_function device k.node (at_device device stack t)
        ≡ after_bus_of tree grants node_function device k.node k.removal (with_bus k stack t)
  expand-after_bus {device = device} k stack t known_bus fits room_bus all =
      let node = k.node in
      let t0 = at_device device stack t in
      let taken = as_taken device node.bus_relations node.removal_relations stack s in
      let tg = grown (growth t0 k.bus k.removal) t in
      let base = bump_if node.removal_relations (bump device s) in
      let q = length stack + length (listed k.bus) in
      let counted_at : (n x : ℕ)
          → length stack + suc n ≤ room
          → Counted room x s
          → Counted n x t0.store =
        λ n x le c. Counted-device n room device x stack s le c in
      let s1 =
        reference_if-eq tree room s t0.store 0 (λ x c. counted_at 1 x (omega (arith, fits)) c)
          node.bus_relations k.bus k.has_bus in
      let s2 =
        reference_if-eq tree room s (bump_if node.bus_relations t0.store) 0
          (λ x c. Counted-bump_if 1 _ x t0.store (counted_at 2 x (omega (arith, fits)) c))
          node.removal_relations k.removal k.has_removal in
      let still : (x : ℕ) → Counted room x s → Counted 1 x taken = λ x c.
        Counted-bump_if 1 node.removal_relations x (bump_if node.bus_relations t0.store) (
          Counted-bump_if 2 node.bus_relations x t0.store
            (counted_at 3 x (omega (arith, fits)) c)) in
      let bus_at = relations_at-eq tree room s taken 0 still node.bus_relations k.bus k.has_bus in
      let removal_at =
        relations_at-eq tree room s taken 0 still node.removal_relations k.removal k.has_removal in
      let tuned = tune-eq grants (growth t0 k.bus k.removal) (record t0 { store = taken }) all in
      let bus_pushed =
        push_relations-eq tree room s base q
          (λ x c.
            Counted-base (suc q) room device node.removal_relations x s (omega (arith, fits)) c)
          node.bus_relations k.bus stack tg k.has_bus known_bus room_bus (omega arith) in
      let bus_pushed' =
        subst
          (λ x.
            push_relations node.bus_relations k.bus (record tg { store = x; stack = stack })
            ≡ some (with_bus k stack t))
          (sym (taken-under device node.bus_relations node.removal_relations stack s)) bus_pushed in
      expand-steps tree grants node_function device node t0 _ _ _ _ k.bus k.removal s1 s2 bus_at
        removal_at tuned bus_pushed'

  pub expand-eq :
      {device : ℕ} (k : Known tree room s device) (stack : List ℕ) (t : Traversal S C)
      → (k.bus ≡ none) ⊎ (listed k.removal ≡ [])
      → AllKnown tree room s (listed k.bus)
      → AllKnown tree room s (listed k.removal)
      → length stack + length (listed k.bus) + length (listed k.removal) + 5 ≤ room
      → length stack ≤ t.capacity
      → ((n : ℕ) → grants n ≡ true)
      → expand tree grants node_function device k.node (at_device device stack t)
        ≡ some (
          with_stack
              (pushed (listed k.removal) (pushed (listed k.bus) stack))
              s
              (grown (growth (at_device device stack t) k.bus k.removal) t),
          true,
          success,
        )
  expand-eq {device = device} k stack t one known_bus known_removal fits inside all =
      let bus = listed k.bus in
      let removal = listed k.removal in
      let tg = grown (growth (at_device device stack t) k.bus k.removal) t in
      let stack1 = pushed bus stack in
      let stack2 = pushed removal stack1 in
      let enough = enough-wanted k.bus k.removal one in
      let long1 : length stack1 ≡ length bus + length stack = length-pushed bus stack in
      let long2 : length stack2 ≡ length removal + length stack1 = length-pushed removal stack1 in
      let q = length stack + length bus + length removal in
      let room_bus : length bus + length stack ≤ tg.capacity = ground (arith, enough, inside) in
      let room_removal : length removal + length stack1 ≤ tg.capacity =
        ground (arith, enough, inside, long1) in
      let after = expand-after_bus k stack t known_bus (omega (arith, fits)) room_bus all in
      let removal_pushed =
        push_relations-eq tree room s (bump device s) q
          (λ x c.
            Counted-bump (suc q) device x s
              (Counted-le (suc (suc q)) room x s (omega (arith, fits)) c))
          k.node.removal_relations k.removal stack1 tg k.has_removal known_removal room_removal
          (omega (arith, long1)) in
      let back =
        dereference-under 0 device stack2 s
          (Counted-le _ room device s (omega (arith, fits, long1, long2)) k.counted) in
      after ∙ rw (removal_pushed, back) refl
