-- ===== src/QueueLock/Removal.antt =====
-- Taking a wait block off keeps the list in order.
use windows_system_wide_filt.Base.{
  ℕ, [], ◌∷◌, ◌≡◌, ◌==◌, ◌&&◌, not, true, false, arith, lookup, update, erase, some, Bool-cases,
  inl, inr, refl, ==_iff, Distinct, ◌||◌, ◌≢◌, ap, none, sym, ◌∙◌, Distinct-erase, Distinct-update,
  subst,
}
use windows_system_wide_filt.QueueLock.{QueueLock, WaitBlock, set_event}
use windows_system_wide_filt.QueueLock.Order.{
  Queued, head_of, runs, none_runs, first_granted, Ordered,
}

-- Another block of the list does not count for a context.
pub head-erase :
    (d a : ℕ) (b : WaitBlock) (lock : QueueLock)
    → lookup a lock ≡ some b
    → (b.context == d) ≡ false
    → head_of d (erase a lock) ≡ head_of d lock
unfolding head_of lookup erase
head-erase d a b [] h ne = cc
head-erase d a b ((p, x) ∷ lock) h ne = ground (arith, head-erase d a b lock)

pub granted-erase :
    (d a : ℕ) (b : WaitBlock) (lock : QueueLock)
    → lookup a lock ≡ some b
    → (b.context == d) ≡ false
    → first_granted d (erase a lock) ≡ first_granted d lock
unfolding first_granted lookup erase
granted-erase d a b [] h ne = cc
granted-erase d a b ((p, x) ∷ lock) h ne = ground (arith, granted-erase d a b lock)

pub none_runs-erase :
    (d a : ℕ) (lock : QueueLock) → none_runs d lock ≡ true → none_runs d (erase a lock) ≡ true
unfolding none_runs erase
none_runs-erase d a [] h = refl
none_runs-erase d a ((p, x) ∷ lock) h = ground (arith, none_runs-erase d a lock)

-- Without its oldest block, a context is led by the next of that block.
pub next-erase :
    (a : ℕ) (b : WaitBlock) (lock : QueueLock)
    → Queued lock
    → lookup a lock ≡ some b
    → head_of b.context lock ≡ a
    → b.next ≡ head_of b.context (erase a lock)
unfolding Queued head_of lookup erase
next-erase a b [] q h first = cc
next-erase a b ((p, x) ∷ lock) (_, next, _, q) h first = ground (arith, next-erase a b lock q)

pub Queued-erase :
    (a : ℕ) (b : WaitBlock) (lock : QueueLock)
    → Queued lock
    → lookup a lock ≡ some b
    → head_of b.context lock ≡ a
    → Queued (erase a lock)
unfolding Queued head_of lookup erase
Queued-erase a b [] q h first = cc
Queued-erase a b ((p, x) ∷ lock) (pz, next, behind, q) h first = elim (Bool-cases (p == a)) [
  | inl e ↦ rw e q
  | inr e ↦ rw e (
    pz,
    ground (arith, head-erase x.context a b lock),
    none_runs-erase x.context a lock behind,
    Queued-erase a b lock q (ground arith) (ground arith),
  )
]

-- A block is overwritten, its context and its next kept.
head-update :
    (d n : ℕ) (b b' : WaitBlock) (lock : QueueLock)
    → lookup n lock ≡ some b
    → b'.context ≡ b.context
    → head_of d (update n b' lock) ≡ head_of d lock
unfolding head_of lookup update
head-update d n b b' [] h e = cc
head-update d n b b' ((p, x) ∷ lock) h e = ground (arith, head-update d n b b' lock)

none_runs-update :
    (d n : ℕ) (b b' : WaitBlock) (lock : QueueLock)
    → lookup n lock ≡ some b
    → b'.context ≡ b.context
    → ((b.context == d) && not (runs b) ≡ true → runs b' ≡ false)
    → none_runs d lock ≡ true
    → none_runs d (update n b' lock) ≡ true
unfolding none_runs lookup update
none_runs-update d n b b' [] h e w q = cc
none_runs-update d n b b' ((p, x) ∷ lock) h e w q =
    ground (arith, none_runs-update d n b b' lock, w)

pub granted-update_other :
    (d n : ℕ) (b b' : WaitBlock) (lock : QueueLock)
    → lookup n lock ≡ some b
    → b'.context ≡ b.context
    → (b.context == d) ≡ false
    → first_granted d (update n b' lock) ≡ first_granted d lock
unfolding first_granted lookup update
granted-update_other d n b b' [] h e ne = cc
granted-update_other d n b b' ((p, x) ∷ lock) h e ne =
    ground (arith, granted-update_other d n b b' lock)

pub lookup_apart :
    (p n : ℕ) (b : WaitBlock) (lock : QueueLock)
    → lookup p lock ≡ none
    → lookup n lock ≡ some b
    → (p == n) ≡ false
lookup_apart p n b lock out there = elim (Bool-cases (p == n)) [
  | inl e ↦ let same : lookup n lock ≡ none = rw (← (==_iff p n).0 e) out in absurd (cc)
  | inr e ↦ e
]

pub lookup_first :
    (p n : ℕ) (x b : WaitBlock) (lock : QueueLock)
    → (p == n) ≡ true
    → lookup n ((p, x) ∷ lock) ≡ some b
    → x ≡ b
unfolding lookup
lookup_first p n x b lock e h = ground arith

-- The oldest block of a context is on the list.
pub head-lookup :
    (c n : ℕ) (lock : QueueLock)
    → Distinct lock
    → head_of c lock ≡ n
    → n ≢ 0
    → (b : WaitBlock) × (lookup n lock ≡ some b) × (b.context ≡ c)
unfolding head_of lookup
head-lookup c n [] d h nz = absurd (ground arith)
head-lookup c n ((p, x) ∷ lock) (d, ds) h nz = elim (Bool-cases (x.context == c)) [
  | inl e ↦ (x, ground arith, (==_iff x.context c).0 e)
  | inr e ↦
      let (b, there, same) = head-lookup c n lock ds (ground arith) nz in
      (b, rw (lookup_apart p n b lock d there) there, same)
]

-- The event of the oldest block of a context is set.
pub set-Queued :
    (n : ℕ) (b b' : WaitBlock) (lock : QueueLock)
    → Queued lock
    → lookup n lock ≡ some b
    → head_of b.context lock ≡ n
    → b'.context ≡ b.context
    → b'.next ≡ b.next
    → Queued (update n b' lock)
unfolding Queued head_of lookup update
set-Queued n b b' [] q h first e l = cc
set-Queued n b b' ((p, x) ∷ lock) (pz, next, behind, q) h first e l = elim (Bool-cases (p == n)) [
  | inl s ↦
      let same = lookup_first p n x b lock s h in
      let contexts : x.context ≡ b'.context = ap (λ y. y.context) same ∙ sym e in
      let links : b'.next ≡ x.next = l ∙ ap (λ y. y.next) (sym same) in
      rw s (
        pz,
        links ∙ next ∙ ap (λ c. head_of c lock) contexts,
        subst (λ c. none_runs c lock ≡ true) contexts behind,
        q,
      )
  | inr s ↦ rw s (
    pz,
    ground (arith, head-update x.context n b b' lock),
    none_runs-update x.context n b b' lock (ground arith) e (λ w. ground arith) behind,
    set-Queued n b b' lock q (ground arith) (ground arith) e l,
  )
]

pub granted-set :
    (n : ℕ) (b b' : WaitBlock) (lock : QueueLock)
    → lookup n lock ≡ some b
    → head_of b.context lock ≡ n
    → b'.context ≡ b.context
    → (b'.native || runs b') ≡ true
    → first_granted b.context (update n b' lock) ≡ true
unfolding head_of lookup update first_granted
granted-set n b b' [] h first e r = cc
granted-set n b b' ((p, x) ∷ lock) h first e r = ground (arith, granted-set n b b' lock)

granted_nobody :
    (c : ℕ) (lock : QueueLock) → Queued lock → head_of c lock ≡ 0 → first_granted c lock ≡ true
unfolding Queued head_of first_granted
granted_nobody c [] q h = refl
granted_nobody c ((p, x) ∷ lock) (pz, next, behind, q) h = ground (arith, granted_nobody c lock q)

-- The oldest block of a context goes, and the event of the next one of its context is set: the list
-- is in order again.
pub handed_over :
    (a : ℕ) (b : WaitBlock) (lock : QueueLock)
    → Ordered lock
    → lookup a lock ≡ some b
    → head_of b.context lock ≡ a
    → (lock' : QueueLock) × (set_event b.next (erase a lock) ≡ some lock') × Ordered lock'
unfolding set_event
handed_over a b lock o there first =
    let rest = erase a lock in
    let rest_distinct = Distinct-erase a lock o.distinct in
    let rest_queued = Queued-erase a b lock o.queued there first in
    let next = next-erase a b lock o.queued there first in
    elim (Bool-cases (b.next == 0)) [
      | inl last ↦ (
        rest,
        rw last refl,
        record {
          distinct = rest_distinct;
          queued = rest_queued;
          granted = λ c. elim (Bool-cases (b.context == c)) [
            | inl e ↦ granted_nobody c rest rest_queued (ground (arith, (==_iff b.context c).0 e))
            | inr e ↦ granted-erase c a b lock there e ∙ o.granted c
          ];
        },
      )
      | inr more ↦
          let (n, n_there, same) =
            head-lookup b.context b.next rest rest_distinct (sym next) (ground arith) in
          let n' : WaitBlock = record n { event = true } in
          let n_first : head_of n.context rest ≡ b.next = rw same (sym next) in
          (
            update b.next n' rest,
            rw (more, n_there) refl,
            record {
              distinct = Distinct-update b.next n' rest rest_distinct;
              queued = set-Queued b.next n n' rest rest_queued n_there n_first refl refl;
              granted = λ c. elim (Bool-cases (n.context == c)) [
                | inl e ↦
                    subst (λ d. first_granted d (update b.next n' rest) ≡ true)
                      ((==_iff n.context c).0 e)
                      (granted-set b.next n n' rest n_there n_first refl (ground arith))
                | inr e ↦
                    granted-update_other c b.next n n' rest n_there refl e
                    ∙ granted-erase c a b lock there (rw (← same) e)
                    ∙ o.granted c
              ];
            },
          )
    ]
