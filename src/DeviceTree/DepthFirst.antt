-- ===== src/DeviceTree/DepthFirst.antt =====
-- The loop of `OcCrTraverseFromDownToTop` of o_core/o_core/devdatabase.c against the tree as it is meant.
use windows_system_wide_filt.Object.{Store}
use windows_system_wide_filt.Base.{
  ℕ, ◌≡◌, ◌∷◌, ◌+◌, ◌≤◌, Bool, List, Option, Status, [], arith, false, length, refl, some, suc,
  success, true,
}
use windows_system_wide_filt.DeviceTree.{expand, visit, Traversal, Tree, visit_all, dereference_all}
use windows_system_wide_filt.Object.Held.{
  bumps, dereference-bump, Counted-bump, Counted-le, Counted-bumps,
}
use windows_system_wide_filt.DeviceTree.Forest.{Known, Forest, AllKnown, depth_first, and_one}
use windows_system_wide_filt.DeviceTree.Pushing.{with_stack}
use windows_system_wide_filt.DeviceTree.Hanging.{at_device}

pub dereference_all-eq :
    {S : Type 0} (tree : Tree) (room : ℕ) (s : Store S) (stack : List ℕ)
    → AllKnown tree room s stack
    → length stack ≤ room
    → dereference_all stack (bumps stack s) ≡ some s
unfolding dereference_all bumps
dereference_all-eq tree room s [] known fits = refl
dereference_all-eq tree room s (device ∷ stack) (and_one k known) fits =
    let counted =
      Counted-bumps 1 device stack s (Counted-le _ room device s (omega (arith, fits)) k.counted) in
    rw (dereference-bump 0 device (bumps stack s) counted)
      (dereference_all-eq tree room s stack known (omega (arith, fits)))

module _ {S C : Type 0} (tree : Tree) (grants : ℕ → Bool) (node_function : ℕ → C → C × Bool)
    (room : ℕ) (s : Store S) (all : (n : ℕ) → grants n ≡ true) where
  -- What is left to do after a round.
  abbrev pub go_on : (rounds : ℕ) → Traversal S C → Option (Traversal S C × Status)
  go_on rounds t = elim t.stack [
    | [] ↦ some (t, success)
    | device ∷ devices ↦ visit_all tree grants node_function rounds t
  ]

  -- The loop has ended, with these references on the stack, and the node function has seen the forest.
  abbrev pub Ends : Forest → C → Option (Traversal S C × Status) → Type 0
  Ends f client r =
      (t : Traversal S C) × (stack : List ℕ) × (r ≡ some (with_stack stack s t, success))
      × (t.client ≡ (depth_first node_function f client).0)
      × AllKnown tree room s stack
      × (length stack ≤ room)

  pub stop :
      (rounds device : ℕ) (stack : List ℕ) (t : Traversal S C)
      → Known tree room s device
      → length stack + 1 ≤ room
      → (node_function device t.client).1 ≡ false
      → visit_all tree grants node_function (suc rounds) (with_stack (device ∷ stack) s t)
        ≡ some
            (with_stack stack s (record t { client = (node_function device t.client).0 }), success)
  unfolding visit_all visit bumps
  stop rounds device stack t k fits refused =
      let counted = Counted-bumps 1 device stack s (Counted-le _ room device s fits k.counted) in
      let there = Counted-bump 0 device device (bumps stack s) counted in
      rw (there.there, k.there, refused, dereference-bump 0 device (bumps stack s) counted) refl

  pub next :
      (rounds device : ℕ) (stack : List ℕ) (t v : Traversal S C)
      → (k : Known tree room s device) → length stack + 1 ≤ room
      → (node_function device t.client).1 ≡ true
      → expand tree grants node_function device k.node (
          at_device tree grants node_function room s device stack
            (record t { client = (node_function device t.client).0 }))
        ≡ some (v, true, success)
      → visit_all tree grants node_function (suc rounds) (with_stack (device ∷ stack) s t)
        ≡ go_on rounds v
  unfolding visit_all visit bumps
  next rounds device stack t v k fits accepted expanded =
      let counted = Counted-bumps 1 device stack s (Counted-le _ room device s fits k.counted) in
      let there = Counted-bump 0 device device (bumps stack s) counted in
      rw (there.there, k.there, accepted, expanded) refl
