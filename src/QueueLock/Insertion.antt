-- ===== src/QueueLock/Insertion.antt =====
-- A new wait block keeps the list in order.
use windows_system_wide_filt.Base.{
  ℕ, Bool, [], ◌∷◌, ◌++◌, ◌≡◌, ◌==◌, ◌&&◌, not, if◌then◌else◌, arith, refl, Distinct, false, lookup,
  none, true, ◌||◌, ◌≢◌, Bool-cases, inl, inr,
}
use windows_system_wide_filt.QueueLock.{QueueLock, WaitBlock, link_last, insert_wait_block_in_list}
use windows_system_wide_filt.QueueLock.Order.{
  head_of, has, runs, none_runs, Queued, first_granted, head_absent, Ordered,
}

module _ (a : ℕ) (new : WaitBlock) (flag : Bool) where
  abbrev pub inserted : QueueLock → QueueLock
  inserted lock = (link_last new.context a flag lock).0 ++ (a, new) ∷ []

  pub link_last-has :
      (lock : QueueLock) → (link_last new.context a flag lock).1 ≡ has new.context lock
  unfolding link_last has
  link_last-has [] = refl
  link_last-has ((p, b) ∷ lock) = ground (arith, link_last-has lock)

  head-inserted :
      (d : ℕ) (lock : QueueLock)
      → head_of d (inserted lock)
        ≡ (if has d lock then head_of d lock else if new.context == d then a else 0)
  unfolding link_last has head_of
  head-inserted d [] = ground arith
  head-inserted d ((p, b) ∷ lock) = ground (arith, head-inserted d lock)

  none_runs-inserted :
      (d : ℕ) (lock : QueueLock)
      → none_runs d (inserted lock) ≡ (none_runs d lock && not ((new.context == d) && runs new))
  unfolding link_last none_runs
  none_runs-inserted d [] = ground arith
  none_runs-inserted d ((p, b) ∷ lock) = ground (arith, none_runs-inserted d lock)

  granted-inserted :
      (d : ℕ) (lock : QueueLock)
      → first_granted d (inserted lock) ≡ (
          if has d lock
          then first_granted d lock
          else if new.context == d
          then new.native || runs new
          else true)
  unfolding link_last has first_granted
  granted-inserted d [] = ground arith
  granted-inserted d ((p, b) ∷ lock) = ground (arith, granted-inserted d lock)

  lookup-inserted :
      (p : ℕ) (lock : QueueLock) → lookup p lock ≡ none → p ≢ a → lookup p (inserted lock) ≡ none
  unfolding link_last lookup
  lookup-inserted p [] h ne = ground arith
  lookup-inserted p ((q, b) ∷ lock) h ne = ground (arith, lookup-inserted p lock)

  Distinct-inserted :
      (lock : QueueLock) → Distinct lock → lookup a lock ≡ none → Distinct (inserted lock)
  unfolding link_last lookup
  Distinct-inserted [] d free = (refl, tt)
  Distinct-inserted ((p, b) ∷ lock) (d, ds) free =
      let found = (link_last new.context a flag lock).1 in
      let here = lookup-inserted p lock d (ground arith) in
      let later = Distinct-inserted lock ds (ground arith) in
      elim (Bool-cases found) [
        | inl f ↦ rw f (here, later)
        | inr f ↦ elim (Bool-cases (b.context == new.context)) [
          | inl e ↦ rw (f, e) (here, later)
          | inr e ↦ rw (f, e) (here, later)
        ]
      ]

  Queued-inserted :
      (lock : QueueLock)
      → Queued lock
      → a ≢ 0
      → new.next ≡ 0
      → (has new.context lock ≡ true → runs new ≡ false)
      → Queued (inserted lock)
  unfolding link_last Queued has head_of none_runs
  Queued-inserted [] q nz nx w = (nz, nx, refl, tt)
  Queued-inserted ((p, b) ∷ lock) (pz, next, behind, q) nz nx w =
      let found = (link_last new.context a flag lock).1 in
      let has_it = link_last-has lock in
      let later = Queued-inserted lock q nz nx (λ h. ground (arith, w)) in
      let quiet : none_runs b.context (inserted lock) ≡ true =
        ground (arith, none_runs-inserted b.context lock, w) in
      let head = head-inserted b.context lock in
      elim (Bool-cases found) [
        | inl f ↦ rw f (pz, ground (arith, head, head_absent b.context lock), quiet, later)
        | inr f ↦ elim (Bool-cases (b.context == new.context)) [
          | inl e ↦ rw (f, e) (pz, ground (arith, head, head_absent b.context lock), quiet, later)
          | inr e ↦ rw (f, e) (pz, ground (arith, head, head_absent b.context lock), quiet, later)
        ]
      ]

-- What is asked of the fields of a new block.
pub record IsNew (block : WaitBlock) (waits : Bool) : Type 0 where
  pub no_next : block.next ≡ 0
  pub no_event : block.event ≡ false
  pub may_wait : (block.native || waits) ≡ true

pub insert-Ordered :
    (a : ℕ) (block : WaitBlock) (flag waits : Bool) (lock : QueueLock)
    → IsNew block waits
    → Ordered lock
    → lookup a lock ≡ none
    → a ≢ 0
    → Ordered (insert_wait_block_in_list a block flag waits lock).0
unfolding insert_wait_block_in_list
insert-Ordered a block flag waits lock is_new o free nz =
    let found = (link_last block.context a flag lock).1 in
    let new : WaitBlock = record block { waits = waits && found } in
    let has_it : found ≡ has block.context lock = link_last-has a block flag lock in
    record {
      distinct = Distinct-inserted a new flag lock o.distinct free;
      queued =
          Queued-inserted a new flag lock o.queued nz is_new.no_next
            (λ h. ground (arith, has_it, is_new.may_wait, is_new.no_event));
      granted = λ c. ground (arith, granted-inserted a new flag c lock, o.granted c, has_it);
    }
