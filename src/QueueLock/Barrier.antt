-- ===== src/QueueLock/Barrier.antt =====
-- The search for the block before a barrier.
use windows_system_wide_filt.Base.{
  ℕ, [], ◌∷◌, ◌≡◌, ◌==◌, not, false, Distinct, arith, lookup, erase, some, refl, ==_iff, Bool-cases,
  ap, inl, inr, sym, ◌∙◌, true, ◌||◌, ◌⊎◌, Distinct-erase, lookup-erase_absent, none,
}
use windows_system_wide_filt.QueueLock.{QueueLock, WaitBlock, relink}
use windows_system_wide_filt.QueueLock.Order.{Queued, head_of, Ordered, first_granted, none_runs}
use windows_system_wide_filt.QueueLock.Removal.{
  lookup_apart, lookup_first, head-lookup, Queued-erase, granted-erase, head-erase, next-erase,
  none_runs-erase,
}

module _ (a : ℕ) (b : WaitBlock) where
  abbrev pub relinked : QueueLock → QueueLock
  relinked lock = erase a (relink a b lock).0

  -- A block that is linked to the barrier has its context.
  head_context :
      (d : ℕ) (lock : QueueLock)
      → Distinct lock
      → lookup a lock ≡ some b
      → Queued lock
      → head_of d lock ≡ a
      → b.context ≡ d
  unfolding head_of lookup Queued
  head_context d [] ds h q e = cc
  head_context d ((p, x) ∷ lock) (out, ds) h (pz, _, _, q) e = elim (Bool-cases (p == a)) [
    | inl s ↦ elim (Bool-cases (x.context == d)) [
      | inl e' ↦
          ap (λ y. y.context) (sym (lookup_first p a x b lock s h)) ∙ (==_iff x.context d).0 e'
      | inr e' ↦
          let (y, there, _) = head-lookup d a lock ds (ground arith) (ground arith) in
          let apart = lookup_apart p a y lock out there in absurd (ground arith)
    ]
    | inr s ↦ head_context d lock ds (ground arith) q (ground arith)
  ]

  pub relink-found :
      (lock : QueueLock)
      → Distinct lock
      → Queued lock
      → lookup a lock ≡ some b
      → (relink a b lock).1 ≡ not (head_of b.context lock == a)
  unfolding relink lookup head_of Queued
  relink-found [] ds q h = cc
  relink-found ((p, x) ∷ lock) (out, ds) (pz, next, _, q) h = elim (Bool-cases (p == a)) [
    | inl s ↦
        let same : x.context ≡ b.context = ap (λ y. y.context) (lookup_first p a x b lock s h) in
        ground (arith, same)
    | inr s ↦
        let later = relink-found lock ds q (ground arith) in
        let linked : x.next ≡ a → b.context ≡ x.context =
          λ e. head_context x.context lock ds (ground arith) q (sym next ∙ e) in
        ground (arith, linked, later, next)
  ]

  pub relink-absent : (lock : QueueLock) → (relink a b lock).1 ≡ false → (relink a b lock).0 ≡ lock
  unfolding relink
  relink-absent [] e = refl
  relink-absent ((p, x) ∷ lock) e = ground arith

  -- The block that takes over the barrier's link.
  abbrev pub relinked_block : WaitBlock → WaitBlock
  relinked_block x = record x { next = b.next; barrier = x.barrier || b.barrier }

  -- A barrier on an ordered list that is not the oldest block of its context.
  pub record Behind (lock : QueueLock) : Type 0 where
    pub distinct : Distinct lock
    pub queued : Queued lock
    pub there : lookup a lock ≡ some b
    pub not_first : (head_of b.context lock == a) ≡ false

  -- Either the search ends further on, or the first block is the one.
  relinked-cons :
      (p : ℕ) (x : WaitBlock) (lock : QueueLock)
      → Behind ((p, x) ∷ lock)
      → Behind lock × (relinked ((p, x) ∷ lock) ≡ (p, x) ∷ relinked lock)
        ⊎ (x.context ≡ b.context)
          × (lookup a lock ≡ some b)
          × (head_of b.context lock ≡ a)
          × (relinked ((p, x) ∷ lock) ≡ (p, relinked_block x) ∷ erase a lock)
  unfolding relink lookup head_of Queued erase
  relinked-cons p x lock behind =
      let (pz, next, _, q) = behind.queued in
      let there = behind.there in
      let not_first = behind.not_first in
      let s : (p == a) ≡ false = elim (Bool-cases (p == a)) [
        | inl s ↦
            let same : x.context ≡ b.context =
              ap (λ y. y.context) (lookup_first p a x b lock s there) in
            absurd (ground (arith, same))
        | inr s ↦ s
      ] in
      let h : lookup a lock ≡ some b = ground arith in
      let found = relink-found lock behind.distinct.1 q h in
      elim (Bool-cases (head_of b.context lock == a)) [
        | inl first ↦
            let contexts : x.context ≡ b.context = ground arith in
            let f : (relink a b lock).1 ≡ false = ground arith in
            let link : (x.next == a) ≡ true = rw (next, contexts) first in
            inr (contexts, h, (==_iff (head_of b.context lock) a).0 first, rw (s, f, link, s) refl)
        | inr other ↦
            let f : (relink a b lock).1 ≡ true = ground arith in
            inl (
              record { distinct = behind.distinct.1; queued = q; there = h; not_first = other },
              rw (s, f, s) refl,
            )
      ]

  relinked_nil : relinked [] ≡ []
  unfolding relink erase
  relinked_nil = refl

  head-relinked :
      (d : ℕ) (lock : QueueLock) → Behind lock → head_of d (relinked lock) ≡ head_of d lock
  unfolding head_of
  head-relinked d [] behind = rw relinked_nil refl
  head-relinked d ((p, x) ∷ lock) behind = elim (relinked-cons p x lock behind) [
    | inl (further, e) ↦ rw e (ground (arith, head-relinked d lock further))
    | inr (contexts, there, first, e) ↦ rw e (ground (arith, head-erase d a b lock there, contexts))
  ]

  none_runs-relinked :
      (d : ℕ) (lock : QueueLock)
      → Behind lock
      → none_runs d lock ≡ true
      → none_runs d (relinked lock) ≡ true
  unfolding none_runs
  none_runs-relinked d [] behind quiet = rw relinked_nil refl
  none_runs-relinked d ((p, x) ∷ lock) behind quiet = elim (relinked-cons p x lock behind) [
    | inl (further, e) ↦ rw e (ground (arith, none_runs-relinked d lock further))
    | inr (contexts, there, first, e) ↦ rw e (ground (arith, none_runs-erase d a lock))
  ]

  granted-relinked :
      (d : ℕ) (lock : QueueLock)
      → Behind lock
      → first_granted d (relinked lock) ≡ first_granted d lock
  unfolding first_granted
  granted-relinked d [] behind = rw relinked_nil refl
  granted-relinked d ((p, x) ∷ lock) behind = elim (relinked-cons p x lock behind) [
    | inl (further, e) ↦ rw e (ground (arith, granted-relinked d lock further))
    | inr (contexts, there, first, e) ↦
        rw e (ground (arith, granted-erase d a b lock there, contexts))
  ]

  lookup-relinked :
      (j : ℕ) (lock : QueueLock)
      → Behind lock
      → lookup j lock ≡ none
      → lookup j (relinked lock) ≡ none
  unfolding lookup
  lookup-relinked j [] behind out = rw relinked_nil refl
  lookup-relinked j ((p, x) ∷ lock) behind out = elim (relinked-cons p x lock behind) [
    | inl (further, e) ↦ rw e (ground (arith, lookup-relinked j lock further))
    | inr (contexts, there, first, e) ↦ rw e (ground (arith, lookup-erase_absent a j lock))
  ]

  Distinct-relinked : (lock : QueueLock) → Behind lock → Distinct (relinked lock)
  Distinct-relinked [] behind = rw relinked_nil tt
  Distinct-relinked ((p, x) ∷ lock) behind = elim (relinked-cons p x lock behind) [
    | inl (further, e) ↦
        rw e (lookup-relinked p lock further behind.distinct.0, Distinct-relinked lock further)
    | inr (contexts, there, first, e) ↦
        rw e
          (lookup-erase_absent a p lock behind.distinct.0, Distinct-erase a lock behind.distinct.1)
  ]

  Queued-relinked : (lock : QueueLock) → Behind lock → Queued (relinked lock)
  unfolding Queued
  Queued-relinked [] behind = rw relinked_nil tt
  Queued-relinked ((p, x) ∷ lock) behind =
      let (pz, next, quiet, q) = behind.queued in
      elim (relinked-cons p x lock behind) [
        | inl (further, e) ↦ rw e (
          pz,
          next ∙ sym (head-relinked x.context lock further),
          none_runs-relinked x.context lock further quiet,
          Queued-relinked lock further,
        )
        | inr (contexts, there, first, e) ↦ rw e (
          pz,
          next-erase a b lock q there first ∙ ap (λ c. head_of c (erase a lock)) (sym contexts),
          none_runs-erase x.context a lock quiet,
          Queued-erase a b lock q there first,
        )
      ]

  pub relinked-Ordered : (lock : QueueLock) → Behind lock → Ordered lock → Ordered (relinked lock)
  relinked-Ordered lock behind o = record {
    distinct = Distinct-relinked lock behind;
    queued = Queued-relinked lock behind;
    granted = λ c. granted-relinked c lock behind ∙ o.granted c;
  }
