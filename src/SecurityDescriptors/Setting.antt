-- ===== src/SecurityDescriptors/Setting.antt =====
-- What `OcSdSetSecurityDescriptor` of o_core/o_core/security_descr.c leaves when it succeeds, and what a
-- check says then.
use windows_system_wide_filt.SecurityDescriptors.Check.{Stored}
use windows_system_wide_filt.Object.{ObjectType, ObjectHeader}
use windows_system_wide_filt.DeviceTypes.Setting.{write}
use windows_system_wide_filt.Base.{
  ℕ, ◌≡◌, ◌&&◌, ◌==◌, ◌⊎◌, ◌∙◌, ==_refl, Bool, List, Option, erase, false, lookup,
  lookup-erase_other, none, refl, some, true, Bool-cases, ap, arith, inl, inr, sym,
}
use windows_system_wide_filt.Object.Others.{dereference-leaves}
use windows_system_wide_filt.SecurityDescriptors.{
  Descriptors, DescriptorObject, dereference_descriptor, exchange, is_place,
}

pub and_false : (b : Bool) → (b && false) ≡ false
and_false true = refl
and_false false = refl

pub write_self : (i j v : ℕ) (m : ℕ → ℕ → ℕ) → write i j v m i j ≡ v
write_self i j v m = rw (==_refl i, ==_refl j) refl

pub different :
    (old body : ℕ) (h : ObjectHeader) (m : List (ℕ × ObjectHeader))
    → lookup old m ≡ some h
    → lookup body m ≡ none
    → (old == body) ≡ false
different old body h m there fresh = elim (Bool-cases (old == body)) [
  | inl e ↦
      let same : old ≡ body = ground arith in
      let clash : some h ≡ none = sym there ∙ ap (λ x. lookup x m) same ∙ fresh in absurd cc
  | inr e ↦ e
]

module _ {D : Type 0} where
  -- What an entry leads to before: nothing, or an object of the type of descriptors.
  abbrev pub OldEntry : (old : ℕ) → Descriptors D → Type 0
  OldEntry old d =
      (old ≡ 0)
      ⊎ ((h : ObjectHeader) × (lookup old d.store.objects ≡ some h)
          × (h.object_type ≡ d.descriptor_type))

  -- The type of descriptors is there, its objects come from the pool, and the allocator gives an address
  -- where nothing stands.
  pub record Allocates (body : ℕ) (d : Descriptors D) : Type 0 where
    pub type : ObjectType Unit
    pub type_there : lookup d.descriptor_type d.store.types ≡ some type
    pub from_pool : type.flags.use_std_pool_allocator ≡ true
    pub fresh : lookup body d.store.objects ≡ none
    pub nonzero : (body == 0) ≡ false

  -- All but the store and the bodies is the same.
  abbrev pub Frame : Descriptors D → Descriptors D → Type 0
  Frame d d' = d' ≡ record d { store = d'.store; bodies = d'.bodies }

  kept_body :
      (old body : ℕ) (header : Option ObjectHeader) (m : List (ℕ × DescriptorObject D))
      → (old == body) ≡ false
      → lookup body (elim header [ none ↦ erase old m | some _ ↦ m ]) ≡ lookup body m
  kept_body old body none m ne = lookup-erase_other old body m ne
  kept_body old body (some h) m ne = refl

  pub dereference_descriptor-leaves :
      (room old body : ℕ) (object : DescriptorObject D) (h : ObjectHeader) (type : ObjectType Unit)
      (d : Descriptors D)
      → (old == body) ≡ false
      → lookup old d.store.objects ≡ some h
      → lookup h.object_type d.store.types ≡ some type
      → Stored room body object d
      → (d' : Descriptors D) × (dereference_descriptor old d ≡ some d')
        × Stored room body object d'
        × Frame d d'
  unfolding dereference_descriptor
  dereference_descriptor-leaves room old body object h type d ne there type_there stored =
      let left = dereference-leaves old body h type d.store ne there type_there in
      rw left.1 (
        _,
        refl,
        record {
          nonzero = stored.nonzero;
          counted = record {
            header = stored.counted.header;
            there = left.2 ∙ stored.counted.there;
            positive = stored.counted.positive;
            small = stored.counted.small;
          };
          there = kept_body old body (lookup old left.0.objects) d.bodies ne ∙ stored.there;
        },
        refl,
      )

  -- The new object has taken its place.
  abbrev pub Replaced :
      (index sd_type body : ℕ) → DescriptorObject D → Descriptors D → Descriptors D → Type 0
  Replaced index sd_type body object d d' =
      Stored 1 body object d'
      × (d' ≡ record d {
        store = d'.store;
        bodies = d'.bodies;
        sd_objects = write index sd_type body d.sd_objects;
      })

  -- The objects do not depend on the table.
  Stored-moved :
      {room body : ℕ} {object : DescriptorObject D} (table : ℕ → ℕ → ℕ) (d : Descriptors D)
      → Stored room body object d
      → Stored room body object (record d { sd_objects = table })
  Stored-moved table d stored = record {
    nonzero = stored.nonzero;
    counted = stored.counted;
    there = stored.there;
  }

  pub exchange-replaces :
      (index sd_type body : ℕ) (object : DescriptorObject D) (type : ObjectType Unit)
      (d : Descriptors D)
      → is_place index sd_type ≡ true
      → (old : (d.sd_objects index sd_type ≡ 0)
          ⊎ ((h : ObjectHeader) × (lookup (d.sd_objects index sd_type) d.store.objects ≡ some h)
              × (h.object_type ≡ d.descriptor_type)
              × ((d.sd_objects index sd_type == body) ≡ false)))
      → lookup d.descriptor_type d.store.types ≡ some type
      → Stored 1 body object d
      → (d' : Descriptors D) × (exchange index sd_type body d ≡ some d')
        × Replaced index sd_type body object d d'
  unfolding exchange
  exchange-replaces index sd_type body object type d place old type_there stored =
      let d1 = record d { sd_objects = write index sd_type body d.sd_objects } in
      let stored1 = Stored-moved (write index sd_type body d.sd_objects) d stored in
      elim (Bool-cases (d.sd_objects index sd_type == 0)) [
        | inl e ↦ rw (place, e) (_, refl, (stored1, refl))
        | inr e ↦ elim old [
          | inl nothing ↦
              let is_zero : (d.sd_objects index sd_type == 0) ≡ true = rw nothing (==_refl 0) in
              absurd cc
          | inr o ↦
              let type_there' : lookup o.0.object_type d.store.types ≡ some type =
                rw o.2 type_there in
              let ended =
                dereference_descriptor-leaves 1 (d.sd_objects index sd_type) body object o.0 type d1
                  o.3 o.1 type_there' stored1 in
              rw (place, e) (ended.0, ended.1, (ended.2, ended.3))
        ]
      ]
