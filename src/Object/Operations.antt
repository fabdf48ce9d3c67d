-- ===== src/Object/Operations.antt =====
-- The operations of the object manager in any order: none faults and each keeps the store well
-- formed, if it is called as the code asks.
use mathlib.Core.Logic.{dite}
use native.Mathlib.Decide.{dec_lt}
use windows_system_wide_filt.Base.{
  ℕ, Bool-cases, Option, arith, erase-update, erase_absent, inl, inr, lookup, none, some, total,
  ◌+◌, ◌<◌, ◌==◌, ◌>>=◌, ◌^◌, ◌≡◌, ◌≢◌, ==_refl, erase, lookup-update, subst, Option-cases, inc32,
  not, refl, ◌&&◌, ◌-◌,
}
use windows_system_wide_filt.Object.{
  Store, ObjectHeader, ObjectType, TypeInitializer, call, create_object_ex, delete_object_type,
  dereference_object, initialize_object_type, reference_object, place_object,
}
use windows_system_wide_filt.Object.Invariant.{WellFormed, one, entry-le, no_objects}
use windows_system_wide_filt.Object.Preserve.{
  left, type_gone-WellFormed, type_marked-WellFormed, without, without-Consistent,
  without-WellFormed, header-WellFormed, place_object-WellFormed,
}
use windows_system_wide_filt.Object.Lifetime.{
  after_delete, goes_along, dereference_last-eq, dereference_more-eq,
}

-- A call of the manager.
pub data Call (S : Type 0) : Type 0 where
  initialize_type : TypeInitializer S → (address : ℕ) → Call S
  delete_type : (address : ℕ) → Call S
  create : (address additional : ℕ) (allocated : Option ℕ) → Call S
  reference : (body : ℕ) → Call S
  dereference : (body : ℕ) → Call S

module _ {S : Type 0} where
  unfoldable pub exec : Call S → Store S → Option (Store S)
  exec (initialize_type initializer address) s = some (initialize_object_type initializer address s)
  exec (delete_type address) s = delete_object_type address s
  exec (create address additional allocated) s = do
    r ← create_object_ex address additional allocated s
    some r.0
  exec (reference body) s = reference_object body s
  exec (dereference body) s = dereference_object body s

  -- What the caller owes: a type is initialised in memory of its own, the addresses name types and
  -- objects that stand, what the allocator gives is free, and no count is near its end.
  abbrev pub Allowed : Call S → Store S → Type 0
  Allowed (initialize_type initializer address) s = lookup address s.types ≡ none
  Allowed (delete_type address) s = lookup address s.types ≢ none
  Allowed (create address additional allocated) s =
      (lookup address s.types ≢ none)
      × (total one s.objects + 1 < 2 ^ 32)
      × ((body : ℕ) → allocated ≡ some body → lookup body s.objects ≡ none)
  Allowed (reference body) s =
      (h : ObjectHeader) × (lookup body s.objects ≡ some h) × (h.ref_count + 1 < 2 ^ 32)
  Allowed (dereference body) s = lookup body s.objects ≢ none

  initialize-WellFormed :
      (initializer : TypeInitializer S) (t : ℕ) (s : Store S)
      → WellFormed s
      → lookup t s.types ≡ none
      → WellFormed (initialize_object_type initializer t s)
  unfolding initialize_object_type lookup
  initialize-WellFormed initializer t s w free =
      let c = w.consistent in
      let kept = erase_absent t s.types free in
      let none_yet =
        no_objects t s.objects c.objects_distinct (λ p k e same. c.typed p k e (rw same free)) in
      record {
        consistent = record {
          few = c.few;
          types_distinct = rw kept (free, c.types_distinct);
          objects_distinct = c.objects_distinct;
          typed = λ p k e. rw kept (ground (arith, c.typed p k e));
          held = c.held;
          counted = λ u type e. ground (arith, c.counted u type, none_yet);
          listed =
              λ u type b e l. ground (arith, c.listed u type b, none_yet, entry-le t b s.objects);
        };
        marked = λ u type e m. ground (arith, w.marked u type);
      }

  delete_type-WellFormed :
      (t : ℕ) (type : ObjectType S) (s : Store S)
      → WellFormed s
      → lookup t s.types ≡ some type
      → (s' : Store S) × (delete_object_type t s ≡ some s') × WellFormed s'
  unfolding delete_object_type
  delete_type-WellFormed t type s w there = elim (Bool-cases (type.ref_count == 0)) [
    | inl unused ↦ (
      _,
      rw (there, unused),
      type_gone-WellFormed s t type (call type.methods.delete_object_type_method t s.client)
          w.consistent (λ u v e ne m. w.marked u v e m) there (ground arith),
    )
    | inr used ↦ (_, rw (there, used), type_marked-WellFormed s t type s.client w there used)
  ]

  after_delete-WellFormed :
      (o : ℕ) (h : ObjectHeader) (type : ObjectType S) (s : Store S)
      → WellFormed s
      → lookup o s.objects ≡ some h
      → lookup h.object_type s.types ≡ some type
      → WellFormed (after_delete o h.object_type type s)
  after_delete-WellFormed o h type s w there typed = elim (Bool-cases (goes_along type)) [
    | inl goes ↦
        let client = call type.methods.delete_object_method o s.client in
        let all = without-Consistent s o h type client w.consistent there typed in
        rw goes (
          subst
            (λ m. WellFormed (record s {
              types = m;
              objects = erase o s.objects;
              client = call type.methods.delete_object_type_method h.object_type client;
            }))
            (erase-update h.object_type (left o type) s.types)
            (type_gone-WellFormed (without s o h type client) h.object_type (left o type)
              (call type.methods.delete_object_type_method h.object_type client) all
              (λ u v e ne m. ground (
                arith,
                w.marked u v,
                lookup-update h.object_type u (left o type) type s.types typed,
              ))
              (rw (
                lookup-update h.object_type h.object_type (left o type) type s.types typed,
                ==_refl,
              ))
              (ground arith)))
    | inr stays ↦ rw stays (without-WellFormed s o h type _ w there typed stays)
  ]

  dereference-WellFormed :
      (o : ℕ) (h : ObjectHeader) (s : Store S)
      → WellFormed s
      → lookup o s.objects ≡ some h
      → (s' : Store S) × (dereference_object o s ≡ some s') × WellFormed s'
  dereference-WellFormed o h s w there =
      let c = w.consistent in
      elim (Option-cases (lookup h.object_type s.types)) [
        | inl untyped ↦ absurd (c.typed o h there untyped)
        | inr (type, typed) ↦
            dite (dec_lt 1 h.ref_count)
              (λ more. (
                _,
                dereference_more-eq o h s there more (c.held o h there).1,
                header-WellFormed s o h (record h { ref_count = h.ref_count - 1 }) w there refl
                    (omega (arith, c.held o h there)),
              ))
              (λ last. (
                _,
                dereference_last-eq o h type s there (omega (arith, c.held o h there)) typed,
                after_delete-WellFormed o h type s w there typed,
              ))
      ]

  -- Well-formedness is kept and nothing faults: on a well-formed store, every call of the manager
  -- that is made as its callers owe (see `Allowed`) succeeds and leaves a well-formed store: the
  -- reference count of each type is the number of its objects, the list of a type that keeps one
  -- holds exactly these, every object is referenced and has its type, and a type marked for deletion
  -- stands only while objects of it do.
  pub exec-WellFormed :
      (call : Call S) (s : Store S)
      → WellFormed s
      → Allowed call s
      → (s' : Store S) × (exec call s ≡ some s') × WellFormed s'
  unfolding exec create_object_ex reference_object
  exec-WellFormed (initialize_type initializer address) s w free =
      (_, refl, initialize-WellFormed initializer address s w free)
  exec-WellFormed (delete_type address) s w stands = elim (Option-cases (lookup address s.types)) [
    | inl out ↦ absurd (stands out)
    | inr (type, there) ↦ delete_type-WellFormed address type s w there
  ]
  exec-WellFormed (create address additional none) s w (stands, room, free) =
      elim (Option-cases (lookup address s.types)) [
        | inl out ↦ absurd (stands out)
        | inr (type, there) ↦
            elim (Bool-cases (not (additional == 0) && not type.flags.use_std_pool_allocator)) [
              | inl refused ↦ (s, rw (there, refused), w)
              | inr taken ↦ (s, rw (there, taken), w)
            ]
      ]
  exec-WellFormed (create address additional (some body)) s w (stands, room, free) =
      elim (Option-cases (lookup address s.types)) [
        | inl out ↦ absurd (stands out)
        | inr (type, there) ↦
            elim (Bool-cases (not (additional == 0) && not type.flags.use_std_pool_allocator)) [
              | inl refused ↦ (s, rw (there, refused), w)
              | inr taken ↦ (
                place_object address additional type body s,
                rw (there, taken),
                place_object-WellFormed s address additional body type w there (free body refl)
                    room,
              )
            ]
      ]
  exec-WellFormed (reference body) s w (h, there, room) = (
    _,
    rw there,
    header-WellFormed s body h (record h { ref_count = inc32 h.ref_count }) w there refl
        (omega arith),
  )
  exec-WellFormed (dereference body) s w stands = elim (Option-cases (lookup body s.objects)) [
    | inl out ↦ absurd (stands out)
    | inr (h, there) ↦ dereference-WellFormed body h s w there
  ]
