-- ===== src/QueueLock/Operations.antt =====
-- One operation on an ordered list: the end of a wait and the removal of a barrier.
use windows_system_wide_filt.Base.{
  ℕ, [], ◌∷◌, ◌≡◌, ◌≢◌, ◌==◌, ◌&&◌, true, false, arith, lookup, update, erase, some, Bool-cases,
  inl, inr, refl, ◌>>=◌, Option-cases, ==_iff, Distinct-erase, Distinct-update, lookup-erase_other,
  lookup-erase_self, subst, sym, ◌∙◌, ap, erase-update_other,
}
use windows_system_wide_filt.QueueLock.{
  QueueLock, WaitBlock, finish_wait, remove_barrier, set_event, relink,
}
use windows_system_wide_filt.QueueLock.Order.{
  Ordered, Queued, head_of, granted_is_oldest, first_granted,
}
use windows_system_wide_filt.QueueLock.Removal.{
  handed_over, next-erase, head-lookup, granted-set, granted-update_other, set-Queued,
}
use windows_system_wide_filt.QueueLock.Barrier.{relinked-Ordered, relink-found, relink-absent}

pub set-erase :
    (n a : ℕ) (lock : QueueLock)
    → (a == n) ≡ false
    → (set_event n lock >>= λ lock'. some (erase a lock')) ≡ set_event n (erase a lock)
unfolding set_event
set-erase n a lock ne = elim (Bool-cases (n == 0)) [
  | inl z ↦ rw z refl
  | inr z ↦ elim (Option-cases (lookup n lock)) [
    | inl out ↦ rw (z, lookup-erase_other a n lock ne, out) refl
    | inr (b, there) ↦
        rw (z, lookup-erase_other a n lock ne, there)
          (ap some (erase-update_other a n (record b { event = true }) lock ne))
  ]
]

pub nonzero :
    (a : ℕ) (b : WaitBlock) (lock : QueueLock) → Queued lock → lookup a lock ≡ some b → a ≢ 0
unfolding Queued lookup
nonzero a b [] q h = cc
nonzero a b ((p, x) ∷ lock) (pz, _, _, q) h = ground (arith, nonzero a b lock q)

pub next_apart :
    (a : ℕ) (b : WaitBlock) (lock : QueueLock)
    → Ordered lock
    → lookup a lock ≡ some b
    → head_of b.context lock ≡ a
    → (a == b.next) ≡ false
next_apart a b lock o there first = elim (Bool-cases (a == b.next)) [
  | inl e ↦
      let same : b.next ≡ a = sym ((==_iff a b.next).0 e) in
      let (x, inside, _) =
        head-lookup b.context a (erase a lock) (Distinct-erase a lock o.distinct)
          (sym (next-erase a b lock o.queued there first) ∙ same)
          (nonzero a b lock o.queued there) in
      let out = lookup-erase_self a lock o.distinct in absurd cc
  | inr e ↦ e
]

pub remove-Ordered :
    (a : ℕ) (b : WaitBlock) (lock : QueueLock)
    → Ordered lock
    → lookup a lock ≡ some b
    → (lock' : QueueLock) × (remove_barrier a lock ≡ some lock') × Ordered lock'
unfolding remove_barrier
remove-Ordered a b lock o there =
    let found = relink-found a b lock o.distinct o.queued there in
    elim (Bool-cases (head_of b.context lock == a)) [
      | inl e ↦
          let first = (==_iff (head_of b.context lock) a).0 e in
          let f : (relink a b lock).1 ≡ false = rw (found, e) refl in
          let (lock', e', o') = handed_over a b lock o there first in
          (
            lock',
            rw (there, f, relink-absent a b lock f)
                (set-erase b.next a lock (next_apart a b lock o there first) ∙ e'),
            o',
          )
      | inr e ↦
          let f : (relink a b lock).1 ≡ true = rw (found, e) refl in
          (
            _,
            rw (there, f) refl,
            relinked-Ordered a b lock
                (record { distinct = o.distinct; queued = o.queued; there = there; not_first = e })
                o,
          )
    ]

pub go_on-Ordered :
    (a : ℕ) (b : WaitBlock) (lock : QueueLock)
    → Ordered lock
    → lookup a lock ≡ some b
    → b.native ≡ false
    → (b.waits && b.event) ≡ true
    → (lock' : QueueLock) × (finish_wait a lock ≡ some lock') × Ordered lock'
unfolding finish_wait
go_on-Ordered a b lock o there plain ready =
    let first = granted_is_oldest a b lock o there (ground arith) in
    let b' : WaitBlock = record b { waits = false; event = false } in
    (
      update a b' lock,
      rw (there, ready) refl,
      record {
        distinct = Distinct-update a b' lock o.distinct;
        queued = set-Queued a b b' lock o.queued there first refl refl;
        granted = λ c. elim (Bool-cases (b.context == c)) [
          | inl e ↦
              subst (λ d. first_granted d (update a b' lock) ≡ true) ((==_iff b.context c).0 e)
                (granted-set a b b' lock there first refl (ground arith))
          | inr e ↦ granted-update_other c a b b' lock there refl e ∙ o.granted c
        ];
      },
    )
