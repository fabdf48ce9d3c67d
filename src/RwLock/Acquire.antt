-- ===== src/RwLock/Acquire.antt =====
-- The acquire and release functions of include/ocrwspinlock.h on one processor: the spin loops, the
-- interrupt level, and the rests between attempts to read. Between two attempts the other
-- processors change the word in any way: the list `others` holds what they do there, an entry for
-- each failed attempt, and `none` is a loop that is still spinning when the list ends.
use windows_system_wide_filt.Base.{
  ℕ, suc, ◌≡◌, Option, none, some, List, [], ◌∷◌, ◌++◌, arith, leb, if◌then◌else◌, refl, Bool-cases,
  inl, inr, replicate, replicate-append, Option-cases, ◌==◌, Bool, ltb, ◌&&◌, ◌-◌, ◌<◌, ◌^◌, dec32,
  false, inc32, is_nonneg, true, ◌∙◌,
}
use windows_system_wide_filt.RwLock.{
  RwSpinLock, raw_try_lock_for_read, raw_try_lock_for_write, release_read, release_write, no_owner,
}

abbrev pub passive_level : ℕ
passive_level = 0

abbrev pub apc_level : ℕ
apc_level = 1

abbrev pub dispatch_level : ℕ
dispatch_level = 2

-- The interrupt level of the processor, and the levels at which `KeDelayExecutionThread` was called.
pub record Cpu : Type 0 where
  pub irql : ℕ
  pub delays : List ℕ

-- `KeRaiseIrql( DISPATCH_LEVEL, … )`: the level that was found is the one that is stored.
abbrev pub raise_irql : Cpu → Cpu × ℕ
raise_irql cpu = (record cpu { irql = dispatch_level }, cpu.irql)

-- `KeLowerIrql`.
abbrev pub lower_irql : ℕ → Cpu → Cpu
lower_irql level cpu = record cpu { irql = level }

-- The body of the `while`: the level goes down to the stored one, the thread rests where the level allows
-- it, and the level goes up again.
unfoldable pub rest : ℕ → Cpu → Cpu × ℕ
rest old cpu =
    let lowered = lower_irql old cpu in
    let delays =
      if leb lowered.irql apc_level then lowered.irql ∷ lowered.delays else lowered.delays in
    raise_irql (record lowered { delays = delays })

-- The `while` of `OcRwAcquireLockForRead`.
pub read_loop :
    List (RwSpinLock → RwSpinLock) → RwSpinLock → Cpu → ℕ → Option (RwSpinLock × Cpu × ℕ)
unfolding rest raw_try_lock_for_read
read_loop [] lock cpu old =
    let (lock', taken) = raw_try_lock_for_read lock in
    if taken then some (lock', cpu, old) else none
read_loop (other ∷ others) lock cpu old =
    let (lock', taken) = raw_try_lock_for_read lock in
    let (cpu', old') = rest old cpu in
    let again = read_loop others (other lock') cpu' old' in
    if taken then some (lock', cpu, old) else again

unfoldable pub acquire_lock_for_read :
    List (RwSpinLock → RwSpinLock) → RwSpinLock → Cpu → Option (RwSpinLock × Cpu × ℕ)
unfolding read_loop
acquire_lock_for_read others lock cpu =
    let (raised, old) = raise_irql cpu in read_loop others lock raised old

-- The `while` of `OcRwAcquireLockForWrite`, which has no body.
pub write_loop : List (RwSpinLock → RwSpinLock) → RwSpinLock → Option RwSpinLock
unfolding raw_try_lock_for_write
write_loop [] lock =
    let (lock', taken) = raw_try_lock_for_write lock in if taken then some lock' else none
write_loop (other ∷ others) lock =
    let (lock', taken) = raw_try_lock_for_write lock in
    let again = write_loop others (other lock') in if taken then some lock' else again

unfoldable pub acquire_lock_for_write :
    List (RwSpinLock → RwSpinLock) → RwSpinLock → Cpu → Option (RwSpinLock × Cpu × ℕ)
unfolding write_loop
acquire_lock_for_write others lock cpu =
    let (raised, old) = raise_irql cpu in
    elim (write_loop others lock) [ none ↦ none | some lock' ↦ some (lock', raised, old) ]

unfoldable pub release_read_lock : RwSpinLock → Cpu → ℕ → RwSpinLock × Cpu
unfolding release_read
release_read_lock lock cpu old = (release_read lock, lower_irql old cpu)

unfoldable pub release_write_lock : RwSpinLock → Cpu → ℕ → RwSpinLock × Cpu
unfolding release_write
release_write_lock lock cpu old = (release_write lock, lower_irql old cpu)

-- `k` rests at a level, where it allows them.
abbrev pub rests : ℕ → ℕ → List ℕ
rests level k = if leb level apc_level then replicate k level else []

rests-append :
    (level k : ℕ) (ds : List ℕ)
    → rests level k ++ (if leb level apc_level then level ∷ ds else ds) ≡ rests level (suc k) ++ ds
rests-append level k ds = elim (Bool-cases (leb level apc_level)) [
  | inl low ↦ rw low (replicate-append level k ds)
  | inr high ↦ rw high
]

-- A word that leaves room for one reader more: no writer holds it, and no attempt has taken it below 0.
unfoldable pub is_free : RwSpinLock → Bool
is_free w = ltb 0 w && leb w 0x80000000

-- One failed attempt more.
abbrev pub one_more : Option (ℕ × RwSpinLock) → Option (ℕ × RwSpinLock)
one_more none = none
one_more (some (failed, w)) = some (suc failed, w)

-- The first free word that the processor comes to, with the number of attempts that failed before, where
-- the others alone change the word.
unfoldable pub first_free : List (RwSpinLock → RwSpinLock) → RwSpinLock → Option (ℕ × RwSpinLock)
first_free [] w = if is_free w then some (0, w) else none
first_free (other ∷ others) w =
    let later = first_free others (other w) in if is_free w then some (0, w) else one_more later

-- The other processors leave a word of 32 bits.
abbrev pub KeepWords : List (RwSpinLock → RwSpinLock) → Type 0
KeepWords [] = Unit
KeepWords (other ∷ others) = ((w : RwSpinLock) → w < 2 ^ 32 → other w < 2 ^ 32) × KeepWords others

-- What is left after an acquisition that takes its reader off a word.
abbrev pub locked : ℕ → List ℕ → Option (ℕ × RwSpinLock) → Option (RwSpinLock × Cpu × ℕ)
locked level delays none = none
locked level delays (some (failed, w)) =
    some (w - 1, record { irql = dispatch_level; delays = rests level failed ++ delays }, level)

no_rests : (level : ℕ) (delays : List ℕ) → delays ≡ rests level 0 ++ delays
no_rests level delays = elim (Bool-cases (leb level apc_level)) [
  | inl low ↦ rw low refl
  | inr high ↦ rw high refl
]

locked-one_more :
    (level : ℕ) (delays : List ℕ) (o : Option (ℕ × RwSpinLock))
    → locked level (if leb level apc_level then level ∷ delays else delays) o
      ≡ locked level delays (one_more o)
locked-one_more level delays none = refl
locked-one_more level delays (some (failed, w)) = rw (rests-append level failed delays) refl

-- An attempt takes its reader off a free word, and leaves any other word as it is.
try-free :
    (lock : RwSpinLock)
    → lock < 2 ^ 32
    → is_free lock ≡ true
    → raw_try_lock_for_read lock ≡ (lock - 1, true)
unfolding raw_try_lock_for_read is_free
try-free lock word free =
    let taken : dec32 lock ≡ lock - 1 = ground arith in
    let got : is_nonneg (dec32 lock) ≡ true = ground arith in rw (got, taken) refl

try-held :
    (lock : RwSpinLock)
    → lock < 2 ^ 32
    → is_free lock ≡ false
    → raw_try_lock_for_read lock ≡ (lock, false)
unfolding raw_try_lock_for_read is_free
try-held lock word held =
    let restored : inc32 (dec32 lock) ≡ lock = omega (arith, word) in
    let missed : is_nonneg (dec32 lock) ≡ false = ground arith in rw (missed, restored) refl

read_loop-exact :
    (others : List (RwSpinLock → RwSpinLock)) (lock : RwSpinLock) (level : ℕ) (delays : List ℕ)
    → lock < 2 ^ 32
    → KeepWords others
    → read_loop others lock (record { irql = dispatch_level; delays = delays }) level
      ≡ locked level delays (first_free others lock)
unfolding read_loop first_free rest
read_loop-exact [] lock level delays word keep = elim (Bool-cases (is_free lock)) [
  | inl free ↦ rw (try-free lock word free, free, ← no_rests level delays) refl
  | inr held ↦ rw (try-held lock word held, held) refl
]
read_loop-exact (other ∷ others) lock level delays word (keep, all_keep) =
    elim (Bool-cases (is_free lock)) [
      | inl free ↦ rw (try-free lock word free, free, ← no_rests level delays) refl
      | inr held ↦
          let later =
            read_loop-exact others (other lock) level
              (if leb level apc_level then level ∷ delays else delays) (keep lock word) all_keep in
          rw (try-held lock word held, held)
            (later ∙ locked-one_more level delays (first_free others (other lock)))
    ]

-- Taking the lock for reading: for any changes that the other processors make to the word between the
-- attempts, `OcRwAcquireLockForRead` takes one reader off the first free word that it comes to, and off no
-- other: the attempts that failed before have left the word as the others alone would have. When it
-- returns, the processor is at `DISPATCH_LEVEL`, the stored level is the caller's, and the thread has
-- rested once for each failed attempt, at the caller's level, if that is not above `APC_LEVEL`, and not at
-- all otherwise. It spins on exactly if no word that it comes to is free. The others leave 32-bit words.
pub acquire_lock_for_read-exact :
    (others : List (RwSpinLock → RwSpinLock)) (lock : RwSpinLock) (cpu : Cpu)
    → lock < 2 ^ 32
    → KeepWords others
    → acquire_lock_for_read others lock cpu ≡ locked cpu.irql cpu.delays (first_free others lock)
unfolding acquire_lock_for_read
acquire_lock_for_read-exact others lock cpu word keep =
    read_loop-exact others lock cpu.irql cpu.delays word keep

write_loop-takes :
    (others : List (RwSpinLock → RwSpinLock)) (lock : RwSpinLock) {lock' : RwSpinLock}
    → write_loop others lock ≡ some lock'
    → lock' ≡ 0
unfolding write_loop
write_loop-takes [] lock h = ground arith
write_loop-takes (other ∷ others) lock h = elim (Bool-cases (lock == no_owner)) [
  | inl got ↦ let e = rw got at h in cc
  | inr missed ↦ write_loop-takes others (other lock) (rw missed at h)
]

-- Taking the lock for writing and releasing it: whatever the other processors do between the
-- attempts, when `OcRwAcquireLockForWrite` returns, the word is 0 and the processor is at
-- `DISPATCH_LEVEL`, and if nobody else then tries the lock, the release restores the free word and
-- the caller's level.
pub acquire-release_write_lock :
    (others : List (RwSpinLock → RwSpinLock)) (lock : RwSpinLock) (cpu : Cpu) {lock' : RwSpinLock}
    {cpu' : Cpu} {old : ℕ}
    → acquire_lock_for_write others lock cpu ≡ some (lock', cpu', old)
    → (lock' ≡ 0)
      × (cpu'.irql ≡ dispatch_level)
      × (release_write_lock lock' cpu' old ≡ (no_owner, cpu))
unfolding acquire_lock_for_write release_write_lock
acquire-release_write_lock others lock cpu h = elim (Option-cases (write_loop others lock)) [
  | inl spinning ↦ absurd (ground arith)
  | inr (w, got) ↦ let zero_word = write_loop-takes others lock got in ground arith
]
