-- ===== src/DeviceTree/Visits.antt =====
-- `OcCrTraverseFromDownToTop` of o_core/o_core/devdatabase.c visits the tree as it is meant, and gives all
-- references back.
use windows_system_wide_filt.Object.{Store}
use windows_system_wide_filt.DeviceTree.{Tree, Traversal}
use windows_system_wide_filt.Base.{
  ℕ, ◌≡◌, ◌+◌, ◌∙◌, ◌≤◌, ◌⊎◌, ◌++◌, Bool, List, Option, [], ap, arith, false, length, none, refl,
  suc, sym, true, zero, Bool-cases, inl, inr, subst,
}
use windows_system_wide_filt.DeviceTree.DepthFirst.{next, stop, Ends, go_on}
use windows_system_wide_filt.DeviceTree.Forest.{
  hangs, nothing, nobody, grow, grow, Shows, pushed, Known, size, Forest, listed,
  depth_first-beside, hanging_on, depth_first, pushed-append, and_beside, AllKnown-pushed,
  Shows-AllKnown, Shows-append, length-Shows, length-pushed, size-beside,
}
use windows_system_wide_filt.DeviceTree.Pushing.{with_stack}
use windows_system_wide_filt.DeviceTree.Expand.{growth, grown, enough-wanted}
use windows_system_wide_filt.DeviceTree.Hanging.{at_device, expand-eq}

grown-enough :
    {S C : Type 0} (t : Traversal S C) (bus removal : Option (List ℕ))
    → (bus ≡ none) ⊎ (listed removal ≡ [])
    → length t.stack ≤ t.capacity
    → length (listed removal) + (length (listed bus) + length t.stack)
      ≤ (grown (growth t bus removal) t).capacity
grown-enough t bus removal one inside = ground (arith, enough-wanted bus removal one)

module _ {S C : Type 0} (tree : Tree) (grants : ℕ → Bool) (node_function : ℕ → C → C × Bool)
    (room : ℕ) (s : Store S) (all : (n : ℕ) → grants n ≡ true) where
  -- What hangs on a device, above the rest of the stack.
  hanging-append :
      {device : ℕ} (k : Known tree room s device) (stack : List ℕ)
      → hanging_on tree room s k ++ stack ≡ pushed (listed k.removal) (pushed (listed k.bus) stack)
  hanging-append k stack = sym (
      ap (pushed (listed k.removal)) (pushed-append (listed k.bus) [] stack)
      ∙ pushed-append (listed k.removal) (pushed (listed k.bus) []) stack)

  ended_early :
      (device : ℕ) (above beside : Forest) (t : Traversal S C)
      → (node_function device t.client).1 ≡ false
      → (depth_first node_function (grow device above beside) t.client).0
        ≡ (node_function device t.client).0
  unfolding depth_first
  ended_early device above beside t refused = rw refused refl

  goes_on :
      (device : ℕ) (above beside : Forest) (t : Traversal S C)
      → (node_function device t.client).1 ≡ true
      → (depth_first node_function (and_beside above beside) (node_function device t.client).0).0
        ≡ (depth_first node_function (grow device above beside) t.client).0
  unfolding depth_first
  goes_on device above beside t accepted =
      let r = node_function device t.client in
      let a = depth_first node_function above r.0 in
      rw (accepted, depth_first-beside node_function above beside r.0) refl

  pub go_on-Ends :
      (rounds : ℕ) {devices : List ℕ} {f : Forest} (t : Traversal S C)
      → Shows tree room s devices f
      → size f ≤ rounds
      → size f + 4 ≤ room
      → length devices ≤ t.capacity
      → Ends tree grants node_function room s all f t.client
          (go_on tree grants node_function room s all rounds (with_stack devices s t))
  unfolding size depth_first
  go_on-Ends rounds t nothing enough fits inside = (t, [], refl, refl, nobody, omega arith)
  go_on-Ends zero t (hangs k one above beside) enough fits inside = absurd (omega (arith, enough))
  go_on-Ends (suc rounds) t
        (hangs {device = device} {devices = stack} {above = f} {beside = g} k one above beside)
        enough fits inside =
      let client = (node_function device t.client).0 in
      let called = record t { client = client } in
      let room_stack : length stack ≤ size g = length-Shows tree room s beside in
      let fits_stack : length stack + 1 ≤ room = omega (arith, fits, room_stack) in
      elim (Bool-cases (node_function device t.client).1) [
        | inr refused ↦ (
          called,
          stack,
          stop tree grants node_function room s all rounds device stack t k fits_stack refused,
          sym (ended_early device f g t refused),
          Shows-AllKnown tree room s beside,
          omega (arith, fits_stack),
        )
        | inl accepted ↦
            let bus = listed k.bus in
            let removal = listed k.removal in
            let hanging = Shows-AllKnown tree room s above in
            let known_removal = (AllKnown-pushed tree room s removal (pushed bus []) hanging).0 in
            let known_bus =
              (AllKnown-pushed tree room s bus []
                (AllKnown-pushed tree room s removal (pushed bus []) hanging).1).0 in
            let t0 = at_device tree grants node_function room s device stack called in
            let tg = grown (growth t0 k.bus k.removal) called in
            let stack2 = pushed removal (pushed bus stack) in
            let long2 : length stack2 ≡ length removal + (length bus + length stack) =
              length-pushed removal (pushed bus stack)
              ∙ ap (λ n. length removal + n) (length-pushed bus stack) in
            let hanging_long : length removal + length bus ≤ size f = omega (
              arith,
              length-Shows tree room s above,
              length-pushed removal (pushed bus []),
              length-pushed bus [],
            ) in
            let expanded =
              expand-eq tree grants node_function room s k stack called one known_bus known_removal
                (omega (arith, hanging_long, room_stack, fits)) (omega (arith, inside)) all in
            let shows : Shows tree room s stack2 (and_beside f g) =
              subst (λ x. Shows tree room s x (and_beside f g)) (hanging-append k stack)
                (Shows-append tree room s above beside) in
            let sizes = size-beside f g in
            let rest =
              go_on-Ends rounds tg shows (omega (arith, sizes, enough)) (omega (arith, sizes, fits))
                (omega
                  (arith, long2, grown-enough t0 k.bus k.removal one (omega (arith, inside)))) in
            let one_round =
              next tree grants node_function room s all rounds device stack t
                (with_stack stack2 s tg) k fits_stack accepted expanded in
            (
              rest.0,
              rest.1,
              one_round ∙ rest.2,
              rest.3 ∙ goes_on device f g t accepted,
              rest.4,
              rest.5,
            )
      ]
