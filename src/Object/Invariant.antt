-- ===== src/Object/Invariant.antt =====
-- Well-formed stores: the counts, the lists and the marks of the types agree with the objects.
use windows_system_wide_filt.Base.{
  ℕ, Distinct, Distinct-update, List, [], arith, bit, count, if◌then◌else◌, lookup, lookup-update,
  none, some, total, total-update, true, update, ◌<◌, ◌==◌, ◌^◌, ◌∷◌, ◌≡◌, ◌≢◌, ◌≤◌, ==_iff,
  ==_refl, Bool-cases, inl, inr, refl,
}
use windows_system_wide_filt.Object.{Store, ObjectHeader, ObjectType}

abbrev pub one : ℕ × ObjectHeader → ℕ
one e = 1

-- Objects of a type.
abbrev pub of_type : ℕ → ℕ × ObjectHeader → ℕ
of_type t (o, h) = bit (h.object_type == t)

-- The object at an address, if it has the type.
abbrev pub entry : ℕ → ℕ → ℕ × ObjectHeader → ℕ
entry t b (o, h) = if h.object_type == t then bit (o == b) else 0

-- What holds at every moment, also while an object is being deleted.
pub record Consistent {S : Type 0} (s : Store S) : Type 0 where
  pub few : total one s.objects < 2 ^ 32
  pub types_distinct : Distinct s.types
  pub objects_distinct : Distinct s.objects
  -- the type of an object stands
  pub typed :
      (o : ℕ) (h : ObjectHeader) → lookup o s.objects ≡ some h → lookup h.object_type s.types ≢ none
  -- an object is referenced
  pub held :
      (o : ℕ) (h : ObjectHeader)
      → lookup o s.objects ≡ some h
      → (1 ≤ h.ref_count) × (h.ref_count < 2 ^ 32)
  -- a type counts its objects
  pub counted :
      (t : ℕ) (type : ObjectType S)
      → lookup t s.types ≡ some type
      → type.ref_count ≡ total (of_type t) s.objects
  -- and lists them, if it is asked to
  pub listed :
      (t : ℕ) (type : ObjectType S) (b : ℕ)
      → lookup t s.types ≡ some type
      → type.flags.objects_in_list ≡ true
      → count b type.list_head ≡ total (entry t b) s.objects

-- Besides, a type that is marked for deletion is still referenced.
pub record WellFormed {S : Type 0} (s : Store S) : Type 0 where
  pub consistent : Consistent s
  pub marked :
      (t : ℕ) (type : ObjectType S)
      → lookup t s.types ≡ some type
      → type.flags.marked_for_deletion ≡ true
      → 1 ≤ type.ref_count

pub total-le_one : (t : ℕ) (m : List (ℕ × ObjectHeader)) → total (of_type t) m ≤ total one m
total-le_one t [] = omega arith
total-le_one t ((o, h) ∷ m) = ground (arith, total-le_one t m)

pub entry-le : (t b : ℕ) (m : List (ℕ × ObjectHeader)) → total (entry t b) m ≤ total (of_type t) m
entry-le t b [] = omega arith
entry-le t b ((o, h) ∷ m) = ground (arith, entry-le t b m)

lookup_later :
    (i p : ℕ) (u k : ObjectHeader) (m : List (ℕ × ObjectHeader))
    → lookup i m ≡ none
    → lookup p m ≡ some k
    → lookup p ((i, u) ∷ m) ≡ some k
unfolding lookup
lookup_later i p u k m new there = elim (Bool-cases (i == p)) [
  | inl same ↦ let e : lookup p m ≡ none = rw (← (==_iff i p).0 same) new in cc
  | inr other ↦ rw other there
]

-- A type that no object has.
pub no_objects :
    (t : ℕ) (m : List (ℕ × ObjectHeader))
    → Distinct m
    → ((p : ℕ) (k : ObjectHeader) → lookup p m ≡ some k → k.object_type ≢ t)
    → total (of_type t) m ≡ 0
unfolding lookup
no_objects t [] d other = refl
no_objects t ((i, u) ∷ m) d other = ground (
  arith,
  no_objects t m d.1 (λ p k e. other p k (lookup_later i p u k m d.0 e)),
  other i u (rw ==_refl),
)

lookup_type :
    {S : Type 0} (m : List (ℕ × ObjectType S)) (h h' : ObjectHeader)
    → h'.object_type ≡ h.object_type
    → lookup h'.object_type m ≡ lookup h.object_type m
lookup_type m h h' e = rw e

module _ {S : Type 0} (s : Store S) (o : ℕ) (h h' : ObjectHeader) where
  -- A header is overwritten by another of the same type.
  pub Consistent-update :
      Consistent s
      → lookup o s.objects ≡ some h
      → h'.object_type ≡ h.object_type
      → (1 ≤ h'.ref_count) × (h'.ref_count < 2 ^ 32)
      → Consistent (record s { objects = update o h' s.objects })
  Consistent-update c there same held = record {
    few = omega (arith, total-update one o h' h s.objects there, c.few);
    types_distinct = c.types_distinct;
    objects_distinct = Distinct-update o h' s.objects c.objects_distinct;
    typed = λ p k e. ground (
      arith,
      lookup-update o p h' h s.objects there,
      c.typed p k,
      c.typed o h there,
      lookup_type s.types h h' same,
    );
    held = λ p k e. ground (arith, lookup-update o p h' h s.objects there, c.held p k);
    counted = λ t type e.
        ground (arith, c.counted t type e, total-update (of_type t) o h' h s.objects there);
    listed = λ t type b e l.
        ground (arith, c.listed t type b e l, total-update (entry t b) o h' h s.objects there);
  }
