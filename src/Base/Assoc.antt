-- ===== src/Base/Assoc.antt =====
-- Memory as an association list from addresses to what stands there.
use windows_system_wide_filt.Base.Tests.{◌==◌, if◌then◌else◌, Bool-cases, ==_refl}
use windows_system_wide_filt.Base.Lists.{total}
use Prim.Native.Nat.{ℕ, ◌+◌, ◌≤◌}
use mathlib.Core.Path.{◌≡◌, refl}
use mathlib.Core.Logic.{inl, inr}
use mathlib.Core.Bool.{false}
use mathlib.Core.Option.{Option, none, some}
use mathlib.Core.List.{List, [], ◌∷◌}
use native.Mathlib.Omega.{arith}

module _ {ℓ} {V : Type ℓ} where
  unfoldable pub lookup : ℕ → List (ℕ × V) → Option V
  lookup k [] = none
  lookup k ((j, v) ∷ m) = if j == k then some v else lookup k m

  -- Overwrite what stands at an address; nothing changes where nothing stands.
  unfoldable pub update : ℕ → V → List (ℕ × V) → List (ℕ × V)
  update k v [] = []
  update k v ((j, w) ∷ m) = if j == k then (j, v) ∷ m else (j, w) ∷ update k v m

  unfoldable pub erase : ℕ → List (ℕ × V) → List (ℕ × V)
  erase k [] = []
  erase k ((j, w) ∷ m) = if j == k then m else (j, w) ∷ erase k m

  -- No address stands twice.
  abbrev pub Distinct : List (ℕ × V) → Type ℓ
  Distinct [] = Unit
  Distinct ((k, v) ∷ m) = (lookup k m ≡ none) × Distinct m

  pub lookup-update :
      (k j : ℕ) (v w : V) (m : List (ℕ × V))
      → lookup k m ≡ some w
      → lookup j (update k v m) ≡ (if k == j then some v else lookup j m)
  unfolding lookup update
  lookup-update k j v w [] h = cc
  lookup-update k j v w ((i, u) ∷ m) h = ground (arith, lookup-update k j v w m)

  pub lookup-update_absent :
      (k j : ℕ) (v : V) (m : List (ℕ × V)) → lookup j m ≡ none → lookup j (update k v m) ≡ none
  unfolding lookup update
  lookup-update_absent k j v [] h = refl
  lookup-update_absent k j v ((i, u) ∷ m) h = ground (arith, lookup-update_absent k j v m)

  pub Distinct-update : (k : ℕ) (v : V) (m : List (ℕ × V)) → Distinct m → Distinct (update k v m)
  unfolding update
  Distinct-update k v [] d = tt
  Distinct-update k v ((i, u) ∷ m) d = elim (Bool-cases (i == k)) [
    | inl e ↦ rw e d
    | inr e ↦ rw e (lookup-update_absent k i v m d.0, Distinct-update k v m d.1)
  ]

  pub lookup-erase_absent :
      (k j : ℕ) (m : List (ℕ × V)) → lookup j m ≡ none → lookup j (erase k m) ≡ none
  unfolding lookup erase
  lookup-erase_absent k j [] h = refl
  lookup-erase_absent k j ((i, u) ∷ m) h = ground (arith, lookup-erase_absent k j m)

  pub Distinct-erase : (k : ℕ) (m : List (ℕ × V)) → Distinct m → Distinct (erase k m)
  unfolding erase
  Distinct-erase k [] d = tt
  Distinct-erase k ((i, u) ∷ m) d = elim (Bool-cases (i == k)) [
    | inl e ↦ rw e d.1
    | inr e ↦ rw e (lookup-erase_absent k i m d.0, Distinct-erase k m d.1)
  ]

  lookup_same : (i j : ℕ) (m : List (ℕ × V)) → lookup i m ≡ none → i ≡ j → lookup j m ≡ none
  lookup_same i j m h e = rw (← e) h

  pub lookup-erase :
      (k j : ℕ) (m : List (ℕ × V))
      → Distinct m
      → lookup j (erase k m) ≡ (if k == j then none else lookup j m)
  unfolding lookup erase
  lookup-erase k j [] d = ground arith
  lookup-erase k j ((i, u) ∷ m) d = ground (arith, lookup-erase k j m d.1, d.0, lookup_same i j m)

  pub total-update :
      (f : ℕ × V → ℕ) (k : ℕ) (v w : V) (m : List (ℕ × V))
      → lookup k m ≡ some w
      → total f (update k v m) + f (k, w) ≡ total f m + f (k, v)
  unfolding lookup update
  total-update f k v w [] h = cc
  total-update f k v w ((i, u) ∷ m) h = ground (arith, total-update f k v w m)

  pub total-erase :
      (f : ℕ × V → ℕ) (k : ℕ) (w : V) (m : List (ℕ × V))
      → lookup k m ≡ some w
      → total f (erase k m) + f (k, w) ≡ total f m
  unfolding lookup erase
  total-erase f k w [] h = cc
  total-erase f k w ((i, u) ∷ m) h = ground (arith, total-erase f k w m)

  pub total-lookup :
      (f : ℕ × V → ℕ) (k : ℕ) (w : V) (m : List (ℕ × V))
      → lookup k m ≡ some w
      → f (k, w) ≤ total f m
  total-lookup f k w m h = omega (arith, total-erase f k w m h)

  pub erase-update : (k : ℕ) (v : V) (m : List (ℕ × V)) → erase k (update k v m) ≡ erase k m
  unfolding update erase
  erase-update k v [] = refl
  erase-update k v ((i, u) ∷ m) = ground (arith, erase-update k v m)

  pub update-update :
      (k : ℕ) (v w : V) (m : List (ℕ × V)) → update k v (update k w m) ≡ update k v m
  unfolding update
  update-update k v w [] = refl
  update-update k v w ((i, u) ∷ m) = ground (arith, update-update k v w m)

  pub update_self : (k : ℕ) (v : V) (m : List (ℕ × V)) → lookup k m ≡ some v → update k v m ≡ m
  unfolding lookup update
  update_self k v [] h = cc
  update_self k v ((i, u) ∷ m) h = ground (arith, update_self k v m)

  pub erase_absent : (k : ℕ) (m : List (ℕ × V)) → lookup k m ≡ none → erase k m ≡ m
  unfolding lookup erase
  erase_absent k [] h = refl
  erase_absent k ((i, u) ∷ m) h = ground (arith, erase_absent k m)

  pub lookup-update_self :
      (k : ℕ) (v w : V) (m : List (ℕ × V)) → lookup k m ≡ some w → lookup k (update k v m) ≡ some v
  lookup-update_self k v w m h = rw (lookup-update k k v w m h, ==_refl)

  pub lookup-update_other :
      (k j : ℕ) (v : V) (m : List (ℕ × V)) → (k == j) ≡ false → lookup j (update k v m) ≡ lookup j m
  unfolding lookup update
  lookup-update_other k j v [] ne = refl
  lookup-update_other k j v ((i, u) ∷ m) ne = ground (arith, lookup-update_other k j v m ne)

  pub lookup-erase_self : (k : ℕ) (m : List (ℕ × V)) → Distinct m → lookup k (erase k m) ≡ none
  lookup-erase_self k m d = rw (lookup-erase k k m d, ==_refl)

  pub erase-cons_self : (k : ℕ) (v : V) (m : List (ℕ × V)) → erase k ((k, v) ∷ m) ≡ m
  unfolding erase
  erase-cons_self k v m = rw ==_refl

  pub update-cons_other :
      (k i : ℕ) (v u : V) (m : List (ℕ × V))
      → (i == k) ≡ false
      → update k v ((i, u) ∷ m) ≡ (i, u) ∷ update k v m
  unfolding update
  update-cons_other k i v u m ne = rw ne

  pub lookup-erase_other :
      (k j : ℕ) (m : List (ℕ × V)) → (k == j) ≡ false → lookup j (erase k m) ≡ lookup j m
  unfolding lookup erase
  lookup-erase_other k j [] ne = refl
  lookup-erase_other k j ((i, u) ∷ m) ne = ground (arith, lookup-erase_other k j m ne)

  pub erase-update_other :
      (k j : ℕ) (v : V) (m : List (ℕ × V))
      → (k == j) ≡ false
      → erase k (update j v m) ≡ update j v (erase k m)
  unfolding update erase
  erase-update_other k j v [] ne = refl
  erase-update_other k j v ((i, u) ∷ m) ne = ground (arith, erase-update_other k j v m ne)

  pub update-update_other :
      (k j : ℕ) (v w : V) (m : List (ℕ × V))
      → (k == j) ≡ false
      → update k v (update j w m) ≡ update j w (update k v m)
  unfolding update
  update-update_other k j v w [] ne = refl
  update-update_other k j v w ((i, u) ∷ m) ne = ground (arith, update-update_other k j v w m ne)
