-- ===== src/QueueLock/Waiting.antt =====
-- The wait blocks whose events are still to be set wait for them.
use windows_system_wide_filt.Base.{
  ℕ, Bool, [], ◌∷◌, ◌≡◌, ◌++◌, ◌==◌, ◌&&◌, not, true, false, if◌then◌else◌, arith, refl, Bool-cases,
  erase, inl, inr, lookup, none, some, update, Option-cases, ap, sym, ◌∙◌,
}
use windows_system_wide_filt.QueueLock.{QueueLock, WaitBlock, link_last, relink, set_event}

-- A block that is no barrier is on the list, waits, and its event is not set.
unfoldable pub waiting : ℕ → QueueLock → Bool
waiting n [] = false
waiting n ((p, b) ∷ lock) =
    let later = waiting n lock in if p == n then b.waits && (not b.event && not b.native) else later

pub waiting-lookup :
    (n : ℕ) (lock : QueueLock)
    → waiting n lock ≡ true
    → (b : WaitBlock) × (lookup n lock ≡ some b)
      × (b.waits ≡ true)
      × (b.event ≡ false)
      × (b.native ≡ false)
unfolding waiting lookup
waiting-lookup n [] h = absurd (ground arith)
waiting-lookup n ((p, x) ∷ lock) h = elim (Bool-cases (p == n)) [
  | inl e ↦ (x, rw e refl, ground arith, ground arith, ground arith)
  | inr e ↦
      let (b, there, w, x', y) = waiting-lookup n lock (ground arith) in (b, rw e there, w, x', y)
]

pub lookup-waiting :
    (n : ℕ) (b : WaitBlock) (lock : QueueLock)
    → lookup n lock ≡ some b
    → waiting n lock ≡ (b.waits && (not b.event && not b.native))
unfolding waiting lookup
lookup-waiting n b [] h = cc
lookup-waiting n b ((p, x) ∷ lock) h = ground (arith, lookup-waiting n b lock)

pub waiting-erase :
    (n a : ℕ) (lock : QueueLock) → (a == n) ≡ false → waiting n (erase a lock) ≡ waiting n lock
unfolding waiting erase
waiting-erase n a [] ne = refl
waiting-erase n a ((p, x) ∷ lock) ne = ground (arith, waiting-erase n a lock)

pub waiting-update :
    (n a : ℕ) (b b' : WaitBlock) (lock : QueueLock)
    → (a == n) ≡ false
    → lookup a lock ≡ some b
    → waiting n (update a b' lock) ≡ waiting n lock
unfolding waiting update lookup
waiting-update n a b b' [] ne h = cc
waiting-update n a b b' ((p, x) ∷ lock) ne h = ground (arith, waiting-update n a b b' lock)

pub waiting-append :
    (n a : ℕ) (b : WaitBlock) (lock : QueueLock)
    → waiting n lock ≡ true
    → waiting n (lock ++ (a, b) ∷ []) ≡ true
unfolding waiting
waiting-append n a b [] h = absurd (ground arith)
waiting-append n a b ((p, x) ∷ lock) h = ground (arith, waiting-append n a b lock)

pub waiting-link_last :
    (n c a : ℕ) (flag : Bool) (lock : QueueLock)
    → waiting n (link_last c a flag lock).0 ≡ waiting n lock
unfolding waiting link_last
waiting-link_last n c a flag [] = refl
waiting-link_last n c a flag ((p, x) ∷ lock) = ground (arith, waiting-link_last n c a flag lock)

pub waiting-relink :
    (n a : ℕ) (b : WaitBlock) (lock : QueueLock) → waiting n (relink a b lock).0 ≡ waiting n lock
unfolding waiting relink
waiting-relink n a b [] = refl
waiting-relink n a b ((p, x) ∷ lock) = ground (arith, waiting-relink n a b lock)

pub waiting-set_event :
    (p n : ℕ) (lock lock' : QueueLock)
    → (n == p) ≡ false
    → set_event n lock ≡ some lock'
    → waiting p lock' ≡ waiting p lock
unfolding set_event
waiting-set_event p n lock lock' ne h = elim (Bool-cases (n == 0)) [
  | inl z ↦
      let r : some lock ≡ some lock' = rw (← h, z) refl in
      let e : lock ≡ lock' = cc in ap (waiting p) (sym e)
  | inr z ↦ elim (Option-cases (lookup n lock)) [
    | inl out ↦ let r : none ≡ some lock' = rw (← h, z, out) refl in absurd cc
    | inr (b, there) ↦
        let b' : WaitBlock = record b { event = true } in
        let r : some (update n b' lock) ≡ some lock' = rw (← h, z, there) refl in
        let e : update n b' lock ≡ lock' = cc in
        ap (waiting p) (sym e) ∙ waiting-update p n b b' lock ne there
  ]
]
