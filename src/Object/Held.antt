-- ===== src/Object/Held.antt =====
-- Several references that are held at once, for the functions of common/objects/ocobject.c.
use windows_system_wide_filt.Base.{
  ℕ, ◌≡◌, ◌==◌, if◌then◌else◌, ◌∷◌, ◌∙◌, Bool-cases, List, [], ap, arith, inc32, inl, inr, lookup,
  refl, some, suc, sym, update, false, length, lookup-update_self, ◌+◌, ◌≤◌,
}
use windows_system_wide_filt.Object.References.{referenced, Counted, give_back, reference-eq}
use windows_system_wide_filt.Object.{Store, ObjectHeader, dereference_object, reference_object}

-- Count an object up, where it stands.
unfoldable pub bumped : ℕ → List (ℕ × ObjectHeader) → List (ℕ × ObjectHeader)
bumped x [] = []
bumped x ((j, h) ∷ m) =
    if j == x then (j, record h { ref_count = inc32 h.ref_count }) ∷ m else (j, h) ∷ bumped x m

bumped-update :
    (x : ℕ) (h : ObjectHeader) (m : List (ℕ × ObjectHeader))
    → lookup x m ≡ some h
    → bumped x m ≡ update x (record h { ref_count = inc32 h.ref_count }) m
unfolding lookup update bumped
bumped-update x h [] there = absurd cc
bumped-update x h ((j, g) ∷ m) there = elim (Bool-cases (j == x)) [
  | inl e ↦ let same : g ≡ h = ground arith in rw (e, same) refl
  | inr e ↦ rw e (ap (◌∷◌ (j, g)) (bumped-update x h m (ground arith)))
]

bumped-swap :
    (x y : ℕ) (m : List (ℕ × ObjectHeader)) → bumped x (bumped y m) ≡ bumped y (bumped x m)
unfolding bumped
bumped-swap x y [] = refl
bumped-swap x y ((j, h) ∷ m) = ground (arith, bumped-swap x y m)

lookup-bumped_self :
    (x : ℕ) (h : ObjectHeader) (m : List (ℕ × ObjectHeader))
    → lookup x m ≡ some h
    → lookup x (bumped x m) ≡ some (record h { ref_count = inc32 h.ref_count })
lookup-bumped_self x h m there =
    rw (bumped-update x h m there)
      (lookup-update_self x (record h { ref_count = inc32 h.ref_count }) h m there)

lookup-bumped_other :
    (x y : ℕ) (m : List (ℕ × ObjectHeader)) → (x == y) ≡ false → lookup y (bumped x m) ≡ lookup y m
unfolding lookup bumped
lookup-bumped_other x y [] ne = refl
lookup-bumped_other x y ((j, h) ∷ m) ne = ground (arith, lookup-bumped_other x y m ne)

module _ {S : Type 0} where
  -- With one more reference to an object.
  abbrev pub bump : ℕ → Store S → Store S
  bump x s = record s { objects = bumped x s.objects }

  -- With these references.
  unfoldable pub bumps : List ℕ → Store S → Store S
  bumps [] s = s
  bumps (x ∷ xs) s = bump x (bumps xs s)

  bump-referenced :
      (room x : ℕ) (s : Store S) (c : Counted room x s) → bump x s ≡ referenced x c.header s
  bump-referenced room x s c =
      λ i. record s { objects = bumped-update x c.header s.objects c.there i }

  pub reference-bump :
      (room x : ℕ) (s : Store S) → Counted room x s → reference_object x s ≡ some (bump x s)
  reference-bump room x s c = reference-eq room x s c ∙ ap some (sym (bump-referenced room x s c))

  pub dereference-bump :
      (room x : ℕ) (s : Store S) → Counted (suc room) x s → dereference_object x (bump x s) ≡ some s
  dereference-bump room x s c = rw (bump-referenced (suc room) x s c) (give_back room x s c)

  pub Counted-le : (few many x : ℕ) (s : Store S) → few ≤ many → Counted many x s → Counted few x s
  Counted-le few many x s le c = record {
    header = c.header;
    there = c.there;
    positive = c.positive;
    small = omega (arith, c.small);
  }

  pub Counted-bump :
      (room x y : ℕ) (s : Store S) → Counted (suc room) y s → Counted room y (bump x s)
  Counted-bump room x y s c = elim (Bool-cases (x == y)) [
    | inl e ↦
        let same : x ≡ y = ground arith in
        record {
          header = record c.header { ref_count = inc32 c.header.ref_count };
          there = rw same (lookup-bumped_self y c.header s.objects c.there);
          positive = omega (arith, c.small, c.positive);
          small = omega (arith, c.small, c.positive);
        }
    | inr e ↦ record {
      header = c.header;
      there = lookup-bumped_other x y s.objects e ∙ c.there;
      positive = c.positive;
      small = omega (arith, c.small);
    }
  ]

  -- The room that some references leave.
  pub Counted-bumps :
      (room y : ℕ) (xs : List ℕ) (s : Store S)
      → Counted (length xs + room) y s
      → Counted room y (bumps xs s)
  unfolding bumps
  Counted-bumps room y [] s c = Counted-le room (0 + room) y s (omega arith) c
  Counted-bumps room y (x ∷ xs) s c =
      Counted-bump room x y (bumps xs s)
        (Counted-bumps (suc room) y xs s (Counted-le _ _ y s (omega arith) c))

  pub bump-swap : (x y : ℕ) (s : Store S) → bump x (bump y s) ≡ bump y (bump x s)
  bump-swap x y s = λ i. record s { objects = bumped-swap x y s.objects i }

  pub bumps-bump : (xs : List ℕ) (y : ℕ) (s : Store S) → bumps xs (bump y s) ≡ bump y (bumps xs s)
  unfolding bumps
  bumps-bump [] y s = refl
  bumps-bump (x ∷ xs) y s = ap (bump x) (bumps-bump xs y s) ∙ bump-swap x y (bumps xs s)

  -- A reference that lies under others is given back.
  pub dereference-under :
      (room x : ℕ) (xs : List ℕ) (s : Store S)
      → Counted (length xs + suc room) x s
      → dereference_object x (bumps xs (bump x s)) ≡ some (bumps xs s)
  dereference-under room x xs s c =
      rw (bumps-bump xs x s)
        (dereference-bump room x (bumps xs s) (Counted-bumps (suc room) x xs s c))
