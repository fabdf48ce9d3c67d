-- ===== src/DeviceTypes/Merged.antt =====
-- Lists of the types that o_core/o_core/security_descr.c collects, of which one has several equal entries
-- in a row where the other has one.
use windows_system_wide_filt.Base.{List, [], arith, map, refl, true, ◌++◌, ◌∷◌, ◌≡◌}
use windows_system_wide_filt.DeviceTypes.{FullDeviceType, same_types, is_last}

-- The first list has some entries that the second repeats in a row only once, and is the same otherwise.
pub data Merged : List FullDeviceType → List FullDeviceType → Type 0 where
  nothing : Merged [] []
  keep :
      {f : FullDeviceType} {fs gs : List FullDeviceType} → Merged fs gs → Merged (f ∷ fs) (f ∷ gs)
  repeated :
      {f : FullDeviceType} {fs gs : List FullDeviceType}
      → Merged (f ∷ fs) (f ∷ gs)
      → Merged (f ∷ fs) (f ∷ f ∷ gs)

pub Merged-map :
    (r : FullDeviceType → FullDeviceType) {fs gs : List FullDeviceType}
    → Merged fs gs
    → Merged (map r fs) (map r gs)
Merged-map r nothing = nothing
Merged-map r (keep m) = keep (Merged-map r m)
Merged-map r (repeated m) = repeated (Merged-map r m)

pub Merged-append :
    (f : FullDeviceType) {fs gs : List FullDeviceType}
    → Merged fs gs
    → Merged (fs ++ f ∷ []) (gs ++ f ∷ [])
Merged-append f nothing = keep nothing
Merged-append f (keep m) = keep (Merged-append f m)
Merged-append f (repeated m) = repeated (Merged-append f m)

same_types-eq : (f g : FullDeviceType) → same_types f g ≡ true → f ≡ g
same_types-eq f g same =
    let a : f.fdo_major_type ≡ g.fdo_major_type = ground arith in
    let b : f.pdo_major_type ≡ g.pdo_major_type = ground arith in
    let c : f.pdo_minor_type ≡ g.pdo_minor_type = ground arith in
    λ i. record { fdo_major_type = a i; pdo_major_type = b i; pdo_minor_type = c i }

Merged-empty : {gs : List FullDeviceType} → Merged [] gs → gs ≡ []
Merged-empty nothing = refl

-- An entry that is the last one already.
pub Merged-last :
    (f : FullDeviceType) {fs gs : List FullDeviceType}
    → Merged fs gs
    → is_last f fs ≡ true
    → Merged fs (gs ++ f ∷ [])
Merged-last f nothing last = absurd cc
Merged-last f (keep {f = g} {fs = []} {gs = gs} m) last =
    let e : gs ≡ [] = Merged-empty m in rw e (rw (same_types-eq f g last) (repeated (keep nothing)))
Merged-last f (keep {fs = h ∷ hs} m) last = keep (Merged-last f m last)
Merged-last f (repeated m) last = repeated (Merged-last f m last)
