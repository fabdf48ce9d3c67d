-- ===== src/QueueLock/Handover.antt =====
-- A wait block goes while events are still to be set: by a release, or as a barrier.
use windows_system_wide_filt.Base.{
  ℕ, ◌≡◌, false, ◌&&◌, Bool, Bool-cases, inl, inr, lookup, none, not, some, ==_iff, Distinct-erase,
  Option-cases, ap, arith, erase, lookup-erase_other, refl, sym, true, update, ◌==◌, ◌∙◌, ◌≢◌,
  subst, ◌>>=◌, ◌∷◌,
}
use windows_system_wide_filt.QueueLock.{QueueLock, WaitBlock, set_event}
use windows_system_wide_filt.QueueLock.Order.{Ordered, runs, head_of, granted_is_oldest}
use windows_system_wide_filt.QueueLock.Settled.{
  is_due, settle, lookup-settle, with_event, lookup-settle_absent, settle-update, settle-erase,
  Distinct-settle, is_due-lookup, settle-set,
}
use windows_system_wide_filt.QueueLock.Waiting.{
  lookup-waiting, waiting-lookup, waiting-erase, waiting-set_event, waiting,
}
use windows_system_wide_filt.QueueLock.Calls.{Shared, InOrder, NoBarrierNext, wake}
use windows_system_wide_filt.QueueLock.Removal.{head-lookup, next-erase, handed_over}
use windows_system_wide_filt.QueueLock.Operations.{nonzero, next_apart, set-erase}

-- The next of the oldest block of a context is on the list, and does not have the lock.
next_on_list :
    (a : ℕ) (b : WaitBlock) (lock : QueueLock)
    → Ordered lock
    → lookup a lock ≡ some b
    → head_of b.context lock ≡ a
    → b.next ≢ 0
    → (n : WaitBlock) × (lookup b.next lock ≡ some n) × (runs n ≡ false)
next_on_list a b lock o there first nz =
    let apart = next_apart a b lock o there first in
    let (n, inside, same) =
      head-lookup b.context b.next (erase a lock) (Distinct-erase a lock o.distinct)
        (sym (next-erase a b lock o.queued there first)) nz in
    let there' : lookup b.next lock ≡ some n =
      sym (lookup-erase_other a b.next lock apart) ∙ inside in
    (
      n,
      there',
      elim (Bool-cases (runs n)) [
        | inr f ↦ f
        | inl t ↦
            let e = granted_is_oldest b.next n lock o there' t in
            let e' : a ≡ b.next = sym first ∙ ap (λ c. head_of c lock) (sym same) ∙ e in
            absurd (ground (arith, ==_iff a b.next))
      ],
    )

pub apart_due : (f : ℕ → Bool) (n p : ℕ) → f n ≡ false → f p ≡ true → (n == p) ≡ false
apart_due f n p off on = elim (Bool-cases (n == p)) [
  | inr e ↦ e
  | inl e ↦ let same = ap f ((==_iff n p).0 e) in absurd cc
]

module _ (s : Shared) (i : InOrder s) where
  abbrev pub due : ℕ → Bool
  due = is_due s.signals

  abbrev pub settled : QueueLock
  settled = settle due s.lock

  -- No event is to be set of a block that does not wait.
  pub undue :
      (a : ℕ) (b : WaitBlock)
      → lookup a s.lock ≡ some b
      → (b.waits && (not b.event && not b.native)) ≡ false
      → due a ≡ false
  undue a b there w = elim (Bool-cases (due a)) [
    | inr f ↦ f
    | inl t ↦ ground (arith, i.awaited a t, lookup-waiting a b s.lock there)
  ]

  pub undue_absent : (a : ℕ) → lookup a s.lock ≡ none → due a ≡ false
  undue_absent a out = elim (Bool-cases (due a)) [
    | inr f ↦ f
    | inl t ↦ let (b, there, _, _, _) = waiting-lookup a s.lock (i.awaited a t) in absurd cc
  ]

  -- The event of a block that is not due is set.
  pub set_event-settle :
      (n : ℕ) (lock m : QueueLock)
      → set_event n (settle due lock) ≡ some m
      → (lock' : QueueLock) × (set_event n lock ≡ some lock') × (settle due lock' ≡ m)
  unfolding set_event
  set_event-settle n lock m h = elim (Bool-cases (n == 0)) [
    | inl z ↦ (lock, rw z refl, (let r : some (settle due lock) ≡ some m = rw (← h, z) refl in cc))
    | inr z ↦ elim (Option-cases (lookup n lock)) [
      | inl out ↦
          let e : set_event n (settle due lock) ≡ none =
            rw (z, lookup-settle_absent due n lock out) refl in
          let r : none ≡ some m = sym e ∙ h in absurd cc
      | inr (b, there) ↦
          let b' : WaitBlock = record b { event = true } in
          let e : set_event n (settle due lock)
              ≡ some (update n (record b' { event = true }) (settle due lock)) =
            rw (z, lookup-settle due n b lock there) refl in
          let r : some (update n b' (settle due lock)) ≡ some m = sym e ∙ h in
          let r' : update n b' (settle due lock) ≡ m = cc in
          (update n b' lock, rw (z, there) refl, settle-update due n b' lock ∙ r')
    ]
  ]

  module _ (a : ℕ) (b : WaitBlock) (there : lookup a settled ≡ some b)
      (first : head_of b.context settled ≡ a) where
    pub next_undue : due b.next ≡ false
    next_undue = elim (Bool-cases (due b.next)) [
      | inr f ↦ f
      | inl t ↦
          let (x, on_list, w, e, plain) = waiting-lookup b.next s.lock (i.awaited b.next t) in
          let on_settled = lookup-settle due b.next x s.lock on_list in
          let nz = nonzero b.next (with_event (due b.next) x) settled i.ordered.queued on_settled in
          let (n, there', idle) = next_on_list a b settled i.ordered there first nz in
          let same : n ≡ with_event (due b.next) x = cc in
          let idle' : runs (with_event (due b.next) x) ≡ false = ap runs (sym same) ∙ idle in
          absurd (ground arith)
    ]

  module _ (a : ℕ) (b : WaitBlock) (there : lookup a s.lock ≡ some b) (idle : due a ≡ false)
      (first : head_of b.context settled ≡ a) where
    abbrev b' : WaitBlock
    b' = with_event (due a) b

    there' : lookup a settled ≡ some b'
    there' = lookup-settle due a b s.lock there

    -- The oldest block of a context goes, and the event of the next one is set before anybody else
    -- gets the spin lock.
    pub handed_over_at_once :
        (lock' : QueueLock) × ((set_event b.next s.lock >>= λ l. some (erase a l)) ≡ some lock')
        × InOrder (record s { lock = lock' })
    handed_over_at_once =
        let apart = next_apart a b' settled i.ordered there' first in
        let (m, e, o) = handed_over a b' settled i.ordered there' first in
        let quiet = next_undue a b' there' first in
        let (l, e', same) =
          set_event-settle b.next (erase a s.lock) m (rw (settle-erase due a s.lock) e) in
        (
          l,
          set-erase b.next a s.lock apart ∙ e',
          record {
            ordered = subst Ordered (sym same) o;
            distinct = i.distinct;
            awaited = λ p t.
                waiting-set_event p b.next (erase a s.lock) l (apart_due due b.next p quiet t) e'
                ∙ waiting-erase p a s.lock (apart_due due a p idle t)
                ∙ i.awaited p t;
          },
        )

    -- The next block waits for its event.
    next_block :
        b.next ≢ 0
        → NoBarrierNext b s.lock
        → (x : WaitBlock) × (lookup b.next (erase a s.lock) ≡ some x)
          × ((x.waits && (not x.event && not x.native)) ≡ true)
    next_block nz plain =
        let apart = next_apart a b' settled i.ordered there' first in
        let (n, n_there, quiet) = next_on_list a b' settled i.ordered there' first nz in
        elim (Option-cases (lookup b.next s.lock)) [
          | inl out ↦ let gone = lookup-settle_absent due b.next s.lock out in absurd cc
          | inr (x, on_list) ↦
              let on_settled = lookup-settle due b.next x s.lock on_list in
              let same : n ≡ with_event (due b.next) x = cc in
              let quiet' : runs (with_event (due b.next) x) ≡ false = ap runs (sym same) ∙ quiet in
              let no_barrier = plain x on_list in
              (x, lookup-erase_other a b.next s.lock apart ∙ on_list, ground arith)
        ]

    pushed :
        (m : QueueLock)
        → (b.next == 0) ≡ false
        → NoBarrierNext b s.lock
        → set_event b.next (erase a settled) ≡ some m
        → Ordered m
        → InOrder (record { lock = erase a s.lock; signals = (b.next, a) ∷ s.signals })
    unfolding set_event is_due
    pushed m z plain e o =
        let quiet = next_undue a b' there' first in
        let (x, on_list, w) = next_block (ground arith) plain in
        let rest = erase a s.lock in
        let distinct = Distinct-erase a s.lock (Distinct-settle due s.lock i.ordered.distinct) in
        let x' : WaitBlock = record x { event = true } in
        let (l, e', same) = set_event-settle b.next rest m (rw (settle-erase due a s.lock) e) in
        let r : some (update b.next x' rest) ≡ some l = rw (← e', z, on_list) refl in
        let r' : update b.next x' rest ≡ l = cc in
        let now =
          settle-set due (is_due ((b.next, a) ∷ s.signals)) b.next (λ p. ground arith) x rest
            distinct on_list in
        record {
          ordered = subst Ordered (sym (now ∙ ap (settle due) r' ∙ same)) o;
          distinct = (is_due-lookup b.next s.signals quiet, i.distinct);
          awaited = λ p t. elim (Bool-cases (b.next == p)) [
            | inl h ↦
                ap (λ q. waiting q rest) (sym ((==_iff b.next p).0 h))
                ∙ lookup-waiting b.next x rest on_list
                ∙ w
            | inr h ↦
                let t' : due p ≡ true = ground arith in
                waiting-erase p a s.lock (apart_due due a p idle t') ∙ i.awaited p t'
          ];
        }

    -- It goes, and the event of the next one is left to be set.
    pub handed_over_later :
        NoBarrierNext b s.lock
        → InOrder (record { lock = erase a s.lock; signals = wake a b.next s.signals })
    unfolding wake set_event is_due
    handed_over_later plain =
        let apart = next_apart a b' settled i.ordered there' first in
        let (m, e, o) = handed_over a b' settled i.ordered there' first in
        let quiet = next_undue a b' there' first in
        elim (Bool-cases (b.next == 0)) [
          | inl z ↦
              let r : some (erase a settled) ≡ some m = rw (← e, z) refl in
              let r' : m ≡ erase a settled = cc in
              rw z (record {
                ordered = subst Ordered (r' ∙ sym (settle-erase due a s.lock)) o;
                distinct = i.distinct;
                awaited =
                    λ p t. waiting-erase p a s.lock (apart_due due a p idle t) ∙ i.awaited p t;
              })
          | inr z ↦ rw z (pushed m z plain e o)
        ]
