-- ===== src/DeviceTree/Pushing.antt =====
-- Devices that are pushed on the stack of `OcCrTraverseFromDownToTop` of o_core/o_core/devdatabase.c.
use windows_system_wide_filt.Object.References.{Counted}
use windows_system_wide_filt.Object.{Store}
use windows_system_wide_filt.Base.{
  ℕ, ◌≡◌, ◌==◌, if◌then◌else◌, ◌∷◌, ◌+◌, ◌≤◌, ◌<◌, Bool-cases, List, [], arith, false, inl, inr,
  length, none, refl, some,
}
use windows_system_wide_filt.DeviceTree.{push, Traversal, Tree, push_on_stack}
use windows_system_wide_filt.DeviceTree.Forest.{Known, AllKnown, pushed, and_one}
use windows_system_wide_filt.Object.Held.{bumps, bump, reference-bump, Counted-bumps, Counted-le}

module _ {S C : Type 0} where
  -- The traversal with this stack, whose devices are referenced.
  abbrev pub with_stack : List ℕ → Store S → Traversal S C → Traversal S C
  with_stack stack base t = record t { store = bumps stack base; stack = stack }

module _ {S : Type 0} where
  -- With a reference to an object, if there is one.
  abbrev pub bump_if : ℕ → Store S → Store S
  bump_if object s = if object == 0 then s else bump object s

module _ {S C : Type 0} (tree : Tree) (room : ℕ) (s base : Store S) (q : ℕ)
    (transfer : (x : ℕ) → Counted room x s → Counted q x base) where
  pub push-eq :
      (device : ℕ) (stack : List ℕ) (t : Traversal S C)
      → Known tree room s device
      → length stack < t.capacity
      → length stack + 1 ≤ q
      → push device (with_stack stack base t) ≡ some (with_stack (device ∷ stack) base t)
  unfolding push bumps
  push-eq device stack t k fits few =
      let more : (length stack == t.capacity) ≡ false = ground arith in
      let counted =
        Counted-bumps 0 device stack base
          (Counted-le _ q device base (omega arith) (transfer device k.counted)) in
      rw (more, reference-bump 0 device (bumps stack base) counted) refl

  pub push_on_stack-eq :
      (devices stack : List ℕ) (t : Traversal S C)
      → AllKnown tree room s devices
      → length devices + length stack ≤ t.capacity
      → length devices + length stack ≤ q
      → push_on_stack devices (with_stack stack base t)
        ≡ some (with_stack (pushed devices stack) base t)
  unfolding push_on_stack pushed
  push_on_stack-eq [] stack t known fits few = refl
  push_on_stack-eq (device ∷ devices) stack t (and_one k known) fits few =
      rw (k.nonzero, push-eq device stack t k (omega (arith, fits)) (omega (arith, few)))
        (push_on_stack-eq devices (device ∷ stack) t known (omega (arith, fits))
          (omega (arith, few)))

  pub push_on_stack-overflow :
      (devices stack : List ℕ) (t : Traversal S C)
      → AllKnown tree room s devices
      → length stack ≤ t.capacity
      → t.capacity < length devices + length stack
      → length devices + length stack ≤ q
      → push_on_stack devices (with_stack stack base t) ≡ none
  unfolding push_on_stack push
  push_on_stack-overflow [] stack t known fits over few = absurd (omega (arith, fits, over))
  push_on_stack-overflow (device ∷ devices) stack t (and_one k known) fits over few =
      elim (Bool-cases (length stack == t.capacity)) [
        | inl e ↦ rw (k.nonzero, e) refl
        | inr e ↦
            let less : length stack < t.capacity = ground arith in
            rw (k.nonzero, push-eq device stack t k less (omega (arith, few)))
              (push_on_stack-overflow devices (device ∷ stack) t known (omega (arith, less))
                (omega (arith, over)) (omega (arith, few)))
      ]
