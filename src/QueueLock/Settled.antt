-- ===== src/QueueLock/Settled.antt =====
-- The list of wait blocks as it will be once the events that a release still has to set are set.
use windows_system_wide_filt.Base.{
  ℕ, Bool, List, [], ◌∷◌, ◌≡◌, ◌++◌, ◌==◌, ◌||◌, true, false, if◌then◌else◌, arith, refl, ==_iff,
  Bool-cases, Distinct, erase, inl, inr, lookup, none, some, update,
}
use windows_system_wide_filt.QueueLock.{QueueLock, WaitBlock, link_last, relink}
use windows_system_wide_filt.QueueLock.Removal.{lookup_first}

-- The events still to be set: the block with the event, and the block whose release sets it.
abbrev pub Signals : Type 0
Signals = List (ℕ × ℕ)

-- Whether the event of a block is still to be set.
unfoldable pub is_due : Signals → ℕ → Bool
is_due [] p = false
is_due ((n, a) ∷ signals) p = let later = is_due signals p in if n == p then true else later

abbrev pub with_event : Bool → WaitBlock → WaitBlock
with_event e b = record b { event = b.event || e }

unfoldable pub settle : (ℕ → Bool) → QueueLock → QueueLock
settle f [] = []
settle f ((p, b) ∷ lock) = (p, with_event (f p) b) ∷ settle f lock

pub is_due-lookup : (p : ℕ) (signals : Signals) → is_due signals p ≡ false → lookup p signals ≡ none
unfolding is_due lookup
is_due-lookup p [] h = refl
is_due-lookup p ((n, a) ∷ signals) h = ground (arith, is_due-lookup p signals)

pub is_due-erase :
    (n a p : ℕ) (signals : Signals)
    → Distinct signals
    → lookup n signals ≡ some a
    → is_due signals p ≡ (is_due (erase n signals) p || (p == n))
unfolding is_due lookup erase
is_due-erase n a p [] d h = cc
is_due-erase n a p ((q, x) ∷ signals) (d, ds) h = ground (arith, is_due-erase n a p signals)

pub is_due-absent : (p : ℕ) (signals : Signals) → lookup p signals ≡ none → is_due signals p ≡ false
unfolding is_due lookup
is_due-absent p [] h = refl
is_due-absent p ((n, a) ∷ signals) h = ground (arith, is_due-absent p signals)

module _ (f : ℕ → Bool) where
  pub lookup-settle :
      (a : ℕ) (b : WaitBlock) (lock : QueueLock)
      → lookup a lock ≡ some b
      → lookup a (settle f lock) ≡ some (with_event (f a) b)
  unfolding settle lookup
  lookup-settle a b [] h = cc
  lookup-settle a b ((p, x) ∷ lock) h = elim (Bool-cases (p == a)) [
    | inl e ↦
        let same = lookup_first p a x b lock e h in
        let is_a = (==_iff p a).0 e in rw (e, is_a, same) refl
    | inr e ↦ rw e (lookup-settle a b lock (ground arith))
  ]

  pub lookup-settle_absent :
      (a : ℕ) (lock : QueueLock) → lookup a lock ≡ none → lookup a (settle f lock) ≡ none
  unfolding settle lookup
  lookup-settle_absent a [] h = refl
  lookup-settle_absent a ((p, x) ∷ lock) h = ground (arith, lookup-settle_absent a lock)

  absent_before :
      (a : ℕ) (lock : QueueLock) → lookup a (settle f lock) ≡ none → lookup a lock ≡ none
  unfolding settle lookup
  absent_before a [] h = refl
  absent_before a ((p, x) ∷ lock) h = ground (arith, absent_before a lock)

  pub Distinct-settle : (lock : QueueLock) → Distinct (settle f lock) → Distinct lock
  unfolding settle
  Distinct-settle [] d = tt
  Distinct-settle ((p, x) ∷ lock) (out, d) = (absent_before p lock out, Distinct-settle lock d)

  pub settle-erase : (a : ℕ) (lock : QueueLock) → settle f (erase a lock) ≡ erase a (settle f lock)
  unfolding settle erase
  settle-erase a [] = refl
  settle-erase a ((p, x) ∷ lock) = ground (arith, settle-erase a lock)

  pub settle-update :
      (a : ℕ) (b : WaitBlock) (lock : QueueLock)
      → settle f (update a b lock) ≡ update a (with_event (f a) b) (settle f lock)
  unfolding settle update
  settle-update a b [] = refl
  settle-update a b ((p, x) ∷ lock) = elim (Bool-cases (p == a)) [
    | inl e ↦ let same = (==_iff p a).0 e in rw (e, same) refl
    | inr e ↦ rw (e, settle-update a b lock) refl
  ]

  pub settle-append :
      (a : ℕ) (b : WaitBlock) (lock : QueueLock)
      → settle f (lock ++ (a, b) ∷ []) ≡ settle f lock ++ (a, with_event (f a) b) ∷ []
  unfolding settle
  settle-append a b [] = refl
  settle-append a b ((p, x) ∷ lock) = rw (settle-append a b lock) refl

  pub settle-link_last :
      (c a : ℕ) (flag : Bool) (lock : QueueLock)
      → link_last c a flag (settle f lock)
        ≡ (settle f (link_last c a flag lock).0, (link_last c a flag lock).1)
  unfolding settle link_last
  settle-link_last c a flag [] = refl
  settle-link_last c a flag ((p, x) ∷ lock) = elim (Bool-cases (link_last c a flag lock).1) [
    | inl t ↦ rw (settle-link_last c a flag lock, t) refl
    | inr t ↦ elim (Bool-cases (x.context == c)) [
      | inl e ↦ rw (settle-link_last c a flag lock, t, e) refl
      | inr e ↦ rw (settle-link_last c a flag lock, t, e) refl
    ]
  ]

  pub settle-relink :
      (a : ℕ) (e : Bool) (b : WaitBlock) (lock : QueueLock)
      → relink a (with_event e b) (settle f lock)
        ≡ (settle f (relink a b lock).0, (relink a b lock).1)
  unfolding settle relink
  settle-relink a e b [] = refl
  settle-relink a e b ((p, x) ∷ lock) = elim (Bool-cases (p == a)) [
    | inl s ↦ rw s refl
    | inr s ↦ elim (Bool-cases (relink a b lock).1) [
      | inl t ↦ rw (settle-relink a e b lock, s, t) refl
      | inr t ↦ elim (Bool-cases (x.next == a)) [
        | inl n ↦ rw (settle-relink a e b lock, s, t, n) refl
        | inr n ↦ rw (settle-relink a e b lock, s, t, n) refl
      ]
    ]
  ]

module _ (f g : ℕ → Bool) (n : ℕ) (same : (p : ℕ) → g p ≡ (f p || (p == n))) where
  settle_outside : (lock : QueueLock) → lookup n lock ≡ none → settle g lock ≡ settle f lock
  unfolding settle lookup
  settle_outside [] h = refl
  settle_outside ((p, x) ∷ lock) h = elim (Bool-cases (p == n)) [
    | inl e ↦ absurd (ground arith)
    | inr e ↦
        let at_p : g p ≡ f p = ground (arith, same p) in
        rw (at_p, settle_outside lock (ground arith)) refl
  ]

  -- An event that is set need not be set any more.
  pub settle-set :
      (b : WaitBlock) (lock : QueueLock)
      → Distinct lock
      → lookup n lock ≡ some b
      → settle g lock ≡ settle f (update n (record b { event = true }) lock)
  unfolding settle lookup update
  settle-set b [] d h = cc
  settle-set b ((p, x) ∷ lock) (out, d) h = elim (Bool-cases (p == n)) [
    | inl e ↦
        let first = lookup_first p n x b lock e h in
        let is_n = (==_iff p n).0 e in
        let at_p : (x.event || g p) ≡ true = ground (arith, same p) in
        let rest = settle_outside lock (rw (← is_n) out) in rw (e, at_p, rest, is_n, first) refl
    | inr e ↦
        let at_p : g p ≡ f p = ground (arith, same p) in
        rw (e, at_p, settle-set b lock d (ground arith)) refl
  ]
