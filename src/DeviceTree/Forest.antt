-- ===== src/DeviceTree/Forest.antt =====
-- The tree of devices of o_core/o_core/devdatabase.c as it is meant: each device with those below it.
use windows_system_wide_filt.Object.References.{Counted}
use windows_system_wide_filt.Object.{Store}
use windows_system_wide_filt.DeviceTree.{DeviceNode, Tree}
use windows_system_wide_filt.Base.{
  ℕ, ◌≡◌, ◌==◌, if◌then◌else◌, ◌∷◌, ◌+◌, ◌≤◌, ◌⊎◌, Bool, Bool-cases, List, Option, [], arith, false,
  inl, inr, length, lookup, none, refl, some, true, ◌++◌,
}

-- A device with the devices that hang on it, and the devices beside it.
pub data Forest : Type 0 where
  empty : Forest
  grow : (device : ℕ) → (above beside : Forest) → Forest

unfoldable pub size : Forest → ℕ
size empty = 0
size (grow device above beside) = 1 + size above + size beside

-- Two forests beside each other.
unfoldable pub and_beside : Forest → Forest → Forest
and_beside empty g = g
and_beside (grow device above beside) g = grow device above (and_beside beside g)

-- Visit each device before those that hang on it, until the node function says to stop.
unfoldable pub depth_first : {C : Type 0} → (ℕ → C → C × Bool) → Forest → C → C × Bool
depth_first node_function empty c = (c, true)
depth_first node_function (grow device above beside) c =
    let r = node_function device c in
    let a = depth_first node_function above r.0 in
    let b = depth_first node_function beside a.0 in if r.1 then (if a.1 then b else a) else r

pub size-beside : (f g : Forest) → size (and_beside f g) ≡ size f + size g
unfolding size and_beside
size-beside empty g = omega arith
size-beside (grow device above beside) g = omega (arith, size-beside beside g)

pub depth_first-beside :
    {C : Type 0} (node_function : ℕ → C → C × Bool) (f g : Forest) (c : C)
    → depth_first node_function (and_beside f g) c ≡ (
        if (depth_first node_function f c).1
        then depth_first node_function g (depth_first node_function f c).0
        else depth_first node_function f c)
unfolding depth_first and_beside
depth_first-beside node_function empty g c = refl
depth_first-beside node_function (grow device above beside) g c =
    let r = node_function device c in
    let a = depth_first node_function above r.0 in
    elim (Bool-cases r.1) [
      | inr e ↦ simp e
      | inl e ↦ elim (Bool-cases a.1) [
        | inr e' ↦ simp (e, e')
        | inl e' ↦ simp (e, e', depth_first-beside node_function beside g a.0)
      ]
    ]

-- The devices of relations.
abbrev pub listed : Option (List ℕ) → List ℕ
listed none = []
listed (some devices) = devices

-- The stack once these have been pushed.
unfoldable pub pushed : List ℕ → List ℕ → List ℕ
pushed [] stack = stack
pushed (device ∷ devices) stack = pushed devices (device ∷ stack)

module _ {S : Type 0} (tree : Tree) (room : ℕ) (s : Store S) where
  -- An object of relations stands there, or there is none.
  abbrev pub HasRelations : (relations : ℕ) → Option (List ℕ) → Type 0
  HasRelations relations devices =
      ((relations ≡ 0) × (devices ≡ none))
      ⊎ (((relations == 0) ≡ false)
          × (lookup relations tree.relations ≡ some devices)
          × Counted room relations s)

  -- A device stands there with its relations.
  pub record Known (device : ℕ) : Type 0 where
    pub nonzero : (device == 0) ≡ false
    pub node : DeviceNode
    pub there : lookup device tree.devices ≡ some node
    pub counted : Counted room device s
    pub bus : Option (List ℕ)
    pub removal : Option (List ℕ)
    pub has_bus : HasRelations node.bus_relations bus
    pub has_removal : HasRelations node.removal_relations removal

  -- The devices that hang on a device, as the stack has them.
  abbrev pub hanging_on : {device : ℕ} → Known device → List ℕ
  hanging_on k = pushed (listed k.removal) (pushed (listed k.bus) [])

  -- The devices, with all that hang on them, are this forest, and no device has both bus relations and
  -- removal relations with devices.
  pub data Shows : List ℕ → Forest → Type 0 where
    nothing : Shows [] empty
    hangs :
        {device : ℕ} {devices : List ℕ} {above beside : Forest}
        → (k : Known device) → (k.bus ≡ none) ⊎ (listed k.removal ≡ [])
        → Shows (hanging_on k) above
        → Shows devices beside
        → Shows (device ∷ devices) (grow device above beside)

  -- Each device is known.
  pub data AllKnown : List ℕ → Type 0 where
    nobody : AllKnown []
    and_one :
        {device : ℕ} {devices : List ℕ}
        → Known device
        → AllKnown devices
        → AllKnown (device ∷ devices)

  pub Shows-AllKnown : {devices : List ℕ} {f : Forest} → Shows devices f → AllKnown devices
  Shows-AllKnown nothing = nobody
  Shows-AllKnown (hangs k one above beside) = and_one k (Shows-AllKnown beside)

  pub length-Shows : {devices : List ℕ} {f : Forest} → Shows devices f → length devices ≤ size f
  unfolding size
  length-Shows nothing = omega arith
  length-Shows (hangs k one above beside) = omega (arith, length-Shows beside)

  pub Shows-append :
      {devices others : List ℕ} {f g : Forest}
      → Shows devices f
      → Shows others g
      → Shows (devices ++ others) (and_beside f g)
  unfolding and_beside
  Shows-append nothing g = g
  Shows-append (hangs k one above beside) g = hangs k one above (Shows-append beside g)

  -- What is known of a stack is known of what has been pushed, and of the stack before.
  pub AllKnown-pushed :
      (devices stack : List ℕ) → AllKnown (pushed devices stack) → AllKnown devices × AllKnown stack
  unfolding pushed
  AllKnown-pushed [] stack known = (nobody, known)
  AllKnown-pushed (device ∷ devices) stack known =
      let before = AllKnown-pushed devices (device ∷ stack) known in
      elim before.1 [ and_one k rest ↦ (and_one k before.0, rest) ]

pub length-pushed :
    (devices stack : List ℕ) → length (pushed devices stack) ≡ length devices + length stack
unfolding pushed
length-pushed [] stack = omega arith
length-pushed (device ∷ devices) stack = omega (arith, length-pushed devices (device ∷ stack))

pub pushed-append :
    (devices stack others : List ℕ)
    → pushed devices (stack ++ others) ≡ pushed devices stack ++ others
unfolding pushed
pushed-append [] stack others = refl
pushed-append (device ∷ devices) stack others = pushed-append devices (device ∷ stack) others
