-- ===== src/Object/References.antt =====
-- References to objects that are taken and given back, for the functions of common/objects/ocobject.c.
use windows_system_wide_filt.Base.{
  ℕ, some, ◌≡◌, ◌+◌, ◌<◌, ◌≤◌, ◌^◌, ◌==◌, false, lookup, update, inc32, dec32, arith, refl,
  lookup-update_self, update-update, update_self, lookup-update_other, Bool-cases, inl, inr, suc,
  ◌∙◌, ==_sym, lookup-update, update-update_other,
}
use windows_system_wide_filt.Object.{Store, ObjectHeader, reference_object, dereference_object}

module _ {S : Type 0} where
  -- An object stands there, with a reference, and can be referenced so many times more.
  pub record Counted (room body : ℕ) (s : Store S) : Type 0 where
    pub header : ObjectHeader
    pub there : lookup body s.objects ≡ some header
    pub positive : 1 ≤ header.ref_count
    pub small : header.ref_count + room < 2 ^ 32

  pub Counted-weaken :
      (room body : ℕ) (s : Store S) → Counted (suc room) body s → Counted room body s
  Counted-weaken room body s c = record {
    header = c.header;
    there = c.there;
    positive = c.positive;
    small = omega (arith, c.small);
  }

  -- The store with one more reference to an object that has this header.
  abbrev pub referenced : (body : ℕ) → ObjectHeader → Store S → Store S
  referenced body header s = record s {
    objects = update body (record header { ref_count = inc32 header.ref_count }) s.objects;
  }

  pub reference-eq :
      (room body : ℕ) (s : Store S) (c : Counted room body s)
      → reference_object body s ≡ some (referenced body c.header s)
  unfolding reference_object
  reference-eq room body s c = rw c.there refl

  pub dereference-referenced :
      (body : ℕ) (h : ObjectHeader) (s : Store S)
      → lookup body s.objects ≡ some h
      → 1 ≤ h.ref_count
      → h.ref_count + 1 < 2 ^ 32
      → dereference_object body (referenced body h s) ≡ some s
  unfolding dereference_object
  dereference-referenced body h s there positive small =
      let up = record h { ref_count = inc32 h.ref_count } in
      let back : dec32 (inc32 h.ref_count) ≡ h.ref_count = omega (arith, positive, small) in
      let some_left : (h.ref_count == 0) ≡ false = ground (arith, positive) in
      rw
        (
          lookup-update_self body up h s.objects there,
          update-update,
          back,
          some_left,
          update_self body h s.objects there,
        )
        refl

  pub give_back :
      (room body : ℕ) (s : Store S) (c : Counted (suc room) body s)
      → dereference_object body (referenced body c.header s) ≡ some s
  give_back room body s c =
      dereference-referenced body c.header s c.there c.positive (omega (arith, c.small))

  -- A reference is given back while another object has one more.
  pub give_back_under :
      (room body other : ℕ) (s : Store S) (c : Counted (suc room) body s)
      (c' : Counted (suc room) other (referenced body c.header s))
      → (body == other) ≡ false
      → dereference_object body (referenced other c'.header (referenced body c.header s))
        ≡ some (referenced other c'.header s)
  give_back_under room body other s c c' ne =
      let up = record c.header { ref_count = inc32 c.header.ref_count } in
      let up' = record c'.header { ref_count = inc32 c'.header.ref_count } in
      let swapped : referenced other c'.header (referenced body c.header s)
          ≡ referenced body c.header (referenced other c'.header s) =
        λ i. record s {
          objects = update-update_other other body up' up s.objects (==_sym body other ne) i;
        } in
      let there : lookup body (update other up' s.objects) ≡ some c.header =
        lookup-update_other other body up' s.objects (==_sym body other ne) ∙ c.there in
      rw swapped (
        dereference-referenced body c.header (referenced other c'.header s) there c.positive
          (omega (arith, c.small)))

  -- Another reference leaves an object counted, with room for one reference less.
  pub referenced-Counted :
      (room body other : ℕ) (s : Store S) (c : Counted (suc room) body s)
      → (h : Counted (suc room) other s) → Counted room other (referenced body c.header s)
  referenced-Counted room body other s c h = elim (Bool-cases (body == other)) [
    | inl e ↦ record {
      header = record c.header { ref_count = inc32 c.header.ref_count };
      there = lookup-update body other _ c.header s.objects c.there ∙ rw e refl;
      positive = omega (arith, c.small, c.positive);
      small = omega (arith, c.small, c.positive);
    }
    | inr e ↦ record {
      header = h.header;
      there = lookup-update_other body other _ s.objects e ∙ h.there;
      positive = h.positive;
      small = omega (arith, h.small);
    }
  ]
