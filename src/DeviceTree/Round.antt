-- ===== src/DeviceTree/Round.antt =====
-- One round of the loop of `OcCrTraverseFromDownToTop` of o_core/o_core/devdatabase.c.
use windows_system_wide_filt.Object.References.{Counted}
use windows_system_wide_filt.Object.{Store, dereference_object}
use windows_system_wide_filt.Base.{
  ℕ, ◌≡◌, ◌==◌, ◌+◌, ◌≤◌, Bool-cases, List, Option, arith, inl, inr, length, none, refl, some, suc,
  sym, false,
}
use windows_system_wide_filt.Object.Held.{
  bump-swap, bumps, dereference-under, bumps-bump, Counted-bump, reference-bump, Counted-le,
}
use windows_system_wide_filt.DeviceTree.Forest.{
  AllKnown, listed, HasRelations, pushed, length-pushed,
}
use windows_system_wide_filt.DeviceTree.{
  Traversal, Tree, reference_if, relations_at, push_relations, push_on_stack,
}
use windows_system_wide_filt.DeviceTree.Pushing.{with_stack, bump_if, push_on_stack-eq}

module _ {S : Type 0} where
  pub bump_if-bumps :
      (object : ℕ) (xs : List ℕ) (s : Store S)
      → bump_if object (bumps xs s) ≡ bumps xs (bump_if object s)
  bump_if-bumps object xs s = elim (Bool-cases (object == 0)) [
    | inl e ↦ rw e refl
    | inr e ↦ rw e (sym (bumps-bump xs object s))
  ]

  pub bump_if-swap : (x y : ℕ) (s : Store S) → bump_if x (bump_if y s) ≡ bump_if y (bump_if x s)
  bump_if-swap x y s = elim (Bool-cases (x == 0)) [
    | inl e ↦ rw e refl
    | inr e ↦ elim (Bool-cases (y == 0)) [
      | inl e' ↦ rw (e, e') refl
      | inr e' ↦ rw (e, e') (bump-swap x y s)
    ]
  ]

  pub Counted-bump_if :
      (room x y : ℕ) (s : Store S) → Counted (suc room) y s → Counted room y (bump_if x s)
  Counted-bump_if room x y s c = elim (Bool-cases (x == 0)) [
    | inl e ↦ rw e (Counted-le room (suc room) y s (omega arith) c)
    | inr e ↦ rw e (Counted-bump room x y s c)
  ]

  module _ (tree : Tree) (room : ℕ) (s store : Store S) (q : ℕ)
      (transfer : (x : ℕ) → Counted room x s → Counted (suc q) x store) where
    pub reference_if-eq :
        (relations : ℕ) (devices : Option (List ℕ))
        → HasRelations tree room s relations devices
        → reference_if relations store ≡ some (bump_if relations store)
    reference_if-eq relations devices (inl (null, _)) = rw null refl
    reference_if-eq relations devices (inr (nonzero, there, counted)) =
        rw (nonzero, reference-bump (suc q) relations store (transfer relations counted)) refl

    pub relations_at-eq :
        (relations : ℕ) (devices : Option (List ℕ))
        → HasRelations tree room s relations devices
        → relations_at tree relations store ≡ some devices
    relations_at-eq relations devices (inl (null, no_devices)) = rw (null, no_devices) refl
    relations_at-eq relations devices (inr (nonzero, there, counted)) =
        rw (nonzero, (transfer relations counted).there, there) refl

module _ {S C : Type 0} (tree : Tree) (room : ℕ) (s base : Store S) (q : ℕ)
    (transfer : (x : ℕ) → Counted room x s → Counted (suc q) x base) where
  pushed_devices :
      (devices : Option (List ℕ)) (t : Traversal S C)
      → (elim devices [ none ↦ some t | some listed' ↦ push_on_stack listed' t ])
        ≡ push_on_stack (listed devices) t
  unfolding push_on_stack
  pushed_devices none t = refl
  pushed_devices (some devices) t = refl

  nonzero_relations :
      (relations : ℕ) (devices : Option (List ℕ)) (t t' : Traversal S C) (store : Store S)
      → (relations == 0) ≡ false
      → push_on_stack (listed devices) t ≡ some t'
      → dereference_object relations t'.store ≡ some store
      → push_relations relations devices t ≡ some (record t' { store = store })
  unfolding push_relations
  nonzero_relations relations devices t t' store nonzero all back =
      rw (nonzero, pushed_devices devices t, all, back) refl

  pub push_relations-eq :
      (relations : ℕ) (devices : Option (List ℕ)) (stack : List ℕ) (t : Traversal S C)
      → HasRelations tree room s relations devices
      → AllKnown tree room s (listed devices)
      → length (listed devices) + length stack ≤ t.capacity
      → length (listed devices) + length stack ≤ q
      → push_relations relations devices (with_stack stack (bump_if relations base) t)
        ≡ some (with_stack (pushed (listed devices) stack) base t)
  unfolding push_relations pushed
  push_relations-eq relations devices stack t (inl (null, no_devices)) known fits few =
      rw (null, no_devices) refl
  push_relations-eq relations devices stack t (inr (nonzero, there, counted)) known fits few =
      let stack' = pushed (listed devices) stack in
      let all =
        push_on_stack-eq tree room s (bump_if relations base) q
          (λ x c. Counted-bump_if q relations x base (transfer x c)) (listed devices) stack t known
          fits few in
      let long : length stack' ≡ length (listed devices) + length stack =
        length-pushed (listed devices) stack in
      let back : dereference_object relations (bumps stack' (bump_if relations base))
          ≡ some (bumps stack' base) =
        rw nonzero (
          dereference-under 0 relations stack' base (
            Counted-le _ (suc q) relations base (omega (arith, long, few))
              (transfer relations counted))) in
      nonzero_relations relations devices (with_stack stack (bump_if relations base) t)
        (with_stack stack' (bump_if relations base) t) (bumps stack' base) nonzero all back
