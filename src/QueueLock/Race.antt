-- ===== src/QueueLock/Race.antt =====
-- A barrier that comes and goes while the block before it is being released.
use windows_system_wide_filt.Base.{
  ℕ, [], ◌∷◌, ◌≡◌, ◌==◌, ◌||◌, true, false, arith, lookup, some, none, Bool-cases, inl, inr, refl,
  ==_refl, ap, sym, ◌∙◌, Distinct-erase, erase, lookup-erase_other, ◌≢◌, lookup-erase_self,
}
use windows_system_wide_filt.QueueLock.{
  unlink, relink, QueueLock, WaitBlock, link_last, insert_barrier, insert_wait_block_in_list,
  is_barrier_next, new_block, remove_barrier, set_event,
}
use windows_system_wide_filt.QueueLock.Insertion.{inserted, link_last-has, insert-Ordered}
use windows_system_wide_filt.QueueLock.Order.{
  runs, granted_is_oldest, Queued, head_of, has, Ordered,
}
use windows_system_wide_filt.QueueLock.Removal.{
  lookup_first, Queued-erase, lookup_apart, next-erase,
}
use windows_system_wide_filt.QueueLock.Insertion.{link_last-has}
use windows_system_wide_filt.QueueLock.Barrier.{relink-found, relink-absent}

has_none : (c : ℕ) (lock : QueueLock) → Queued lock → head_of c lock ≡ 0 → has c lock ≡ false
unfolding Queued head_of has
has_none c [] q h = refl
has_none c ((p, x) ∷ lock) (pz, _, _, q) h = ground (arith, has_none c lock q)

module _ (n a : ℕ) (b new : WaitBlock) where
  -- The last block of a context gets the new one as its next.
  lookup-linked :
      (lock : QueueLock)
      → Queued lock
      → lookup a lock ≡ some b
      → b.next ≡ 0
      → new.context ≡ b.context
      → lookup a (inserted n new true lock)
        ≡ some (record b { next = n; barrier = b.barrier || true })
  unfolding Queued lookup link_last
  lookup-linked [] q h z e = cc
  lookup-linked ((p, x) ∷ lock) (pz, next, _, q) h z e =
      let found = link_last-has n new true lock in
      elim (Bool-cases (p == a)) [
        | inl s ↦
            let same = lookup_first p a x b lock s h in
            let contexts : x.context ≡ new.context = ap (λ y. y.context) same ∙ sym e in
            let last : x.next ≡ 0 = ap (λ y. y.next) same ∙ z in
            let f : (link_last new.context n true lock).1 ≡ false =
              found
              ∙ ap (λ c. has c lock) (sym contexts)
              ∙ has_none x.context lock q (sym next ∙ last) in
            let c : (x.context == new.context) ≡ true = rw contexts (==_refl new.context) in
            rw (f, c, s)
              (ap {A = WaitBlock} (λ y. some (record y { next = n; barrier = y.barrier || true }))
                same)
        | inr s ↦ let later = lookup-linked lock q (ground arith) z e in ground (arith, later)
      ]

  lookup-last :
      (lock : QueueLock) → lookup n lock ≡ none → lookup n (inserted n new true lock) ≡ some new
  unfolding lookup link_last
  lookup-last [] h = rw ==_refl refl
  lookup-last ((p, x) ∷ lock) h = ground (arith, lookup-last lock)

-- A wakeup of a barrier that is gone: if the block that has the lock is the last of its context, and
-- while it is being released a barrier of the context is inserted after the barrier flag has been
-- read, and removed before the event is set, then `OcQlReleaseLockWithContext` sets the event of the
-- barrier's block when that is no longer on the list, and the caller of `OcQlRemoveBarrier` may have
-- reused it.
pub barrier_is_woken_late :
    (n a : ℕ) (b : WaitBlock) (lock : QueueLock)
    → Ordered lock
    → lookup a lock ≡ some b
    → runs b ≡ true
    → b.next ≡ 0
    → b.barrier ≡ false
    → lookup n lock ≡ none
    → n ≢ 0
    → (lock2 : QueueLock) × (lock3 : QueueLock) × (is_barrier_next a lock ≡ some false)
      × (unlink a (insert_barrier n b.context lock).0 ≡ some (lock2, n))
      × (remove_barrier n lock2 ≡ some lock3)
      × (set_event n lock3 ≡ none)
unfolding is_barrier_next unlink insert_barrier insert_wait_block_in_list remove_barrier set_event
barrier_is_woken_late n a b lock o there running last plain free nz =
    let new = new_block b.context true in
    let lock1 = inserted n new true lock in
    let o1 : Ordered lock1 =
      insert-Ordered n new true false lock
        (record { no_next = refl; no_event = refl; may_wait = refl }) o free nz in
    let b1 : WaitBlock = record b { next = n; barrier = b.barrier || true } in
    let there1 : lookup a lock1 ≡ some b1 = lookup-linked n a b new lock o.queued there last refl in
    let first1 : head_of b.context lock1 ≡ a = granted_is_oldest a b1 lock1 o1 there1 running in
    let lock2 = erase a lock1 in
    let apart : (a == n) ≡ false = ground (arith, lookup_apart n a b lock free there) in
    let first2 : head_of b.context lock2 ≡ n =
      sym (next-erase a b1 lock1 o1.queued there1 first1) in
    let there2 : lookup n lock2 ≡ some new =
      lookup-erase_other a n lock1 apart ∙ lookup-last n a b new lock free in
    let distinct2 = Distinct-erase a lock1 o1.distinct in
    let queued2 = Queued-erase a b1 lock1 o1.queued there1 first1 in
    let f : (relink n new lock2).1 ≡ false =
      rw (relink-found n new lock2 distinct2 queued2 there2, first2, ==_refl) refl in
    let z : (n == 0) ≡ false = ground arith in
    (
      lock2,
      erase n lock2,
      rw (there, plain) refl,
      rw there1 refl,
      rw (there2, f, relink-absent n new lock2 f) refl,
      rw (z, lookup-erase_self n lock2 distinct2) refl,
    )
