-- ===== src/QueueLock/Steps.antt =====
-- Every step of the queue lock keeps it in order.
use windows_system_wide_filt.Base.{
  ℕ, Bool, ◌≡◌, true, false, arith, ◌==◌, ◌&&◌, ◌||◌, ◌≢◌, ==_iff, Bool-cases, Distinct-erase,
  Option-cases, ap, erase, inl, inr, lookup, lookup-erase_self, none, refl, some, subst, sym,
  update, ◌∙◌,
}
use windows_system_wide_filt.QueueLock.{
  QueueLock, WaitBlock, set_event, unlink, acquire_lock_with_context, finish_wait, insert_barrier,
  insert_wait_block_in_list, link_last, new_block, release_before_barrier, relink, remove_barrier,
}
use windows_system_wide_filt.QueueLock.Order.{Ordered, runs, granted_is_oldest, head_of}
use windows_system_wide_filt.QueueLock.Settled.{
  is_due, settle, Distinct-settle, is_due-absent, is_due-erase, lookup-settle, lookup-settle_absent,
  settle-append, settle-erase, settle-link_last, settle-relink, settle-set, settle-update,
  with_event,
}
use windows_system_wide_filt.QueueLock.Waiting.{
  waiting-append, waiting-erase, waiting-link_last, waiting-lookup, waiting-relink, waiting-update,
}
use windows_system_wide_filt.QueueLock.Calls.{
  Shared, InOrder, Allowed, Call, NoBarrierNext, acquire, exec, go_on, put_barrier, release,
  release_lock_with_context, set_event_of_next, signal, take_barrier,
}
use windows_system_wide_filt.QueueLock.Handover.{
  apart_due, settled, due, handed_over_at_once, handed_over_later, undue, undue_absent,
}
use windows_system_wide_filt.QueueLock.Insertion.{IsNew, insert-Ordered}
use windows_system_wide_filt.QueueLock.Barrier.{relink-absent, relink-found, relinked-Ordered}
use windows_system_wide_filt.QueueLock.Operations.{nonzero, go_on-Ordered}

insert-settle :
    (f : ℕ → Bool) (a : ℕ) (block : WaitBlock) (flag waits : Bool) (lock : QueueLock)
    → f a ≡ false
    → block.event ≡ false
    → settle f (insert_wait_block_in_list a block flag waits lock).0
      ≡ (insert_wait_block_in_list a block flag waits (settle f lock)).0
unfolding insert_wait_block_in_list
insert-settle f a block flag waits lock idle quiet =
    let linked = link_last block.context a flag lock in
    settle-append f a (record block { waits = waits && linked.1 }) linked.0
    ∙ (rw (settle-link_last f block.context a flag lock, idle, quiet) refl)

module _ (s : Shared) (i : InOrder s) where
  insert-InOrder :
      (a : ℕ) (block : WaitBlock) (flag waits : Bool)
      → IsNew block waits
      → lookup a s.lock ≡ none
      → a ≢ 0
      → InOrder (record s { lock = (insert_wait_block_in_list a block flag waits s.lock).0 })
  unfolding insert_wait_block_in_list
  insert-InOrder a block flag waits new free nz =
      let f = due s i in
      record {
        ordered =
            subst Ordered
              (sym
                (insert-settle f a block flag waits s.lock (undue_absent s i a free) new.no_event))
              (insert-Ordered a block flag waits (settled s i) new i.ordered
                (lookup-settle_absent f a s.lock free) nz);
        distinct = i.distinct;
        awaited = λ p t.
            waiting-append p a _ _
              (waiting-link_last p block.context a flag s.lock ∙ i.awaited p t);
      }

  go_on-InOrder :
      (a : ℕ) (b : WaitBlock)
      → lookup a s.lock ≡ some b
      → b.native ≡ false
      → (b.waits && b.event) ≡ true
      → (s' : Shared) × (exec (go_on a) s ≡ some s') × InOrder s'
  unfolding exec finish_wait
  go_on-InOrder a b there plain ready =
      let f = due s i in
      let idle : f a ≡ false = undue s i a b there (ground arith) in
      let b' : WaitBlock = record b { waits = false; event = false } in
      let on_settled = lookup-settle f a b s.lock there in
      let ready' : (b.waits && (b.event || f a)) ≡ true = ground arith in
      let (m, e, o) =
        go_on-Ordered a (with_event (f a) b) (settled s i) i.ordered on_settled plain ready' in
      let r : some (update a b' (settled s i)) ≡ some m = rw (← e, on_settled, ready') refl in
      let r' : update a b' (settled s i) ≡ m = cc in
      let moved : settle f (update a b' s.lock) ≡ update a b' (settled s i) =
        rw (settle-update f a b' s.lock, idle) refl in
      (
        record s { lock = update a b' s.lock },
        rw (there, ready) refl,
        record {
          ordered = subst Ordered (sym (moved ∙ r')) o;
          distinct = i.distinct;
          awaited = λ p t.
              waiting-update p a b b' s.lock (apart_due (due s i) a p idle t) there ∙ i.awaited p t;
        },
      )

  release-InOrder :
      (a : ℕ) (b : WaitBlock) (flag : Bool)
      → lookup a s.lock ≡ some b
      → runs b ≡ true
      → b.waits ≡ false
      → (flag ≡ false → NoBarrierNext b s.lock)
      → (s' : Shared) × (release_lock_with_context a flag s ≡ some s') × InOrder s'
  unfolding release_lock_with_context release_before_barrier unlink
  release-InOrder a b flag there running awake plain =
      let f = due s i in
      let idle : f a ≡ false = undue s i a b there (ground arith) in
      let on_settled = lookup-settle f a b s.lock there in
      let first =
        granted_is_oldest a (with_event (f a) b) (settled s i) i.ordered on_settled
          (ground arith) in
      elim (Bool-cases flag) [
        | inl t ↦
            let (l, e, i') = handed_over_at_once s i a b there idle first in
            (record s { lock = l }, rw (t, there, e) refl, i')
        | inr t ↦ (_, rw (t, there) refl, handed_over_later s i a b there idle first (plain t))
      ]

  signal-InOrder :
      (n : ℕ) → due s i n ≡ true → (s' : Shared) × (set_event_of_next n s ≡ some s') × InOrder s'
  unfolding set_event_of_next set_event
  signal-InOrder n t =
      let f = due s i in
      let (x, there, w, quiet, plain) = waiting-lookup n s.lock (i.awaited n t) in
      let nz =
        nonzero n (with_event (f n) x) (settled s i) i.ordered.queued
          (lookup-settle f n x s.lock there) in
      let z : (n == 0) ≡ false = ground arith in
      let x' : WaitBlock = record x { event = true } in
      elim (Option-cases (lookup n s.signals)) [
        | inl out ↦ let no = is_due-absent n s.signals out in absurd cc
        | inr (a, on) ↦
            let left = erase n s.signals in
            let same =
              settle-set (is_due left) f n (λ p. is_due-erase n a p s.signals i.distinct on) x
                s.lock (Distinct-settle f s.lock i.ordered.distinct) there in
            let gone = is_due-absent n left (lookup-erase_self n s.signals i.distinct) in
            (
              record { lock = update n x' s.lock; signals = left },
              rw (z, there) refl,
              record {
                ordered = subst Ordered same i.ordered;
                distinct = Distinct-erase n s.signals i.distinct;
                awaited = λ p t'.
                    let ne = apart_due (is_due left) n p gone t' in
                    let t2 : f p ≡ true =
                      ground (arith, is_due-erase n a p s.signals i.distinct on) in
                    waiting-update p n x x' s.lock ne there ∙ i.awaited p t2;
              },
            )
      ]

  take_barrier-InOrder :
      (a : ℕ) (b : WaitBlock)
      → lookup a s.lock ≡ some b
      → b.native ≡ true
      → (s' : Shared) × (exec (take_barrier a) s ≡ some s') × InOrder s'
  unfolding exec remove_barrier
  take_barrier-InOrder a b there native =
      let f = due s i in
      let idle : f a ≡ false = undue s i a b there (ground arith) in
      let b' : WaitBlock = with_event (f a) b in
      let on_settled = lookup-settle f a b s.lock there in
      let found = relink-found a b' (settled s i) i.ordered.distinct i.ordered.queued on_settled in
      let both = settle-relink f a (f a) b s.lock in
      let flag : (relink a b' (settled s i)).1 ≡ (relink a b s.lock).1 = ap (λ r. r.1) both in
      elim (Bool-cases (head_of b.context (settled s i) == a)) [
        | inl e ↦
            let first = (==_iff (head_of b.context (settled s i)) a).0 e in
            let off : (relink a b s.lock).1 ≡ false = rw (← flag, found, e) refl in
            let (l, e', i') = handed_over_at_once s i a b there idle first in
            (record s { lock = l }, rw (there, off, relink-absent a b s.lock off, e') refl, i')
        | inr e ↦
            let on : (relink a b s.lock).1 ≡ true = rw (← flag, found, e) refl in
            let rest = (relink a b s.lock).0 in
            (
              record s { lock = erase a rest },
              rw (there, on) refl,
              record {
                ordered = subst Ordered (ap (λ r. erase a r.0) both ∙ sym (settle-erase f a rest)) (
                    relinked-Ordered a b' (settled s i)
                      (record {
                        distinct = i.ordered.distinct;
                        queued = i.ordered.queued;
                        there = on_settled;
                        not_first = e;
                      })
                      i.ordered);
                distinct = i.distinct;
                awaited = λ p t.
                    waiting-erase p a rest (apart_due (due s i) a p idle t)
                    ∙ waiting-relink p a b s.lock
                    ∙ i.awaited p t;
              },
            )
      ]

-- The queue lock keeps its order: from a state that is in order (see `InOrder`) every step that is made
-- as its caller owes (see `Allowed`) succeeds and leads to one that is in order. A release that has
-- read that no barrier is next is two steps: what it does under the spin lock, and the event that it
-- sets after it. Any other steps may come between the two, and between the read and the first of
-- them, but the next block must not be a barrier by then. In order means: if the events that releases
-- have still to set are taken as set, each wait block is linked to the next one of its context, none
-- behind it of the context has the lock, and the oldest one of each context has it, unless it is a
-- barrier; and each such event is set by one release only, and for a block on the list that waits.
pub exec-InOrder :
    (call : Call) (s : Shared)
    → InOrder s
    → Allowed call s
    → (s' : Shared) × (exec call s ≡ some s') × InOrder s'
unfolding exec acquire_lock_with_context insert_barrier
exec-InOrder (acquire a c) s i (free, nz) = (
  _,
  refl,
  insert-InOrder s i a (new_block c false) false true
      (record { no_next = refl; no_event = refl; may_wait = refl }) free nz,
)
exec-InOrder (go_on a) s i (b, there, plain, ready) = go_on-InOrder s i a b there plain ready
exec-InOrder (release a flag) s i (b, there, running, awake, plain) =
    release-InOrder s i a b flag there running awake plain
exec-InOrder (signal n) s i t = signal-InOrder s i n t
exec-InOrder (put_barrier a c) s i (free, nz) = (
  _,
  refl,
  insert-InOrder s i a (new_block c true) true false
      (record { no_next = refl; no_event = refl; may_wait = refl }) free nz,
)
exec-InOrder (take_barrier a) s i (b, there, native) = take_barrier-InOrder s i a b there native
