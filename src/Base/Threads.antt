-- ===== src/Base/Threads.antt =====
-- Interleavings: `n` threads over a shared memory, each at a program point. A schedule names, for
-- each step, the thread that runs and the choice that it makes; a step that the thread cannot make
-- there is `none`.
use Prim.Native.Nat.{ℕ}
use mathlib.Core.Path.{◌≡◌, subst}
use mathlib.Core.Option.{Option, some}
use native.Mathlib.Omega.{arith}
use mathlib.Core.List.{List, [], ◌∷◌}
use windows_system_wide_filt.Base.Tests.{◌>>=◌, >>=-eq-some}
use windows_system_wide_filt.Base.Lists.{get_elem?, set}

-- The shared memory and the program points of the threads.
pub record System (M P : Type 0) : Type 0 where
  pub mem : M
  pub threads : List P

module _ {M P C : Type 0} (move : C → M → P → Option (M × P)) where
  unfoldable pub step : ℕ → C → System M P → Option (System M P)
  step i c s = do
    p ← get_elem? s.threads i
    (m, q) ← move c s.mem p
    some (record { mem = m; threads = set s.threads i q })

  unfoldable pub run : List (ℕ × C) → System M P → Option (System M P)
  unfolding step
  run [] s = some s
  run ((i, c) ∷ rest) s = step i c s >>= run rest

  -- What a step did.
  pub record Stepped (i : ℕ) (c : C) (s t : System M P) : Type 0 where
    pub before : P
    pub after : P
    pub stood : get_elem? s.threads i ≡ some before
    pub moved : move c s.mem before ≡ some (t.mem, after)
    pub stands : t.threads ≡ set s.threads i after

  pub step-eq-some :
      (i : ℕ) (c : C) (s : System M P) {t : System M P} → step i c s ≡ some t → Stepped i c s t
  unfolding step
  step-eq-some i c s h =
      let (p, stood, h1) = >>=-eq-some (get_elem? s.threads i) _ h in
      let (r, moved, h2) = >>=-eq-some (move c s.mem p) _ h1 in
      record { before = p; after = r.1; stood = stood; moved = ground arith; stands = ground arith }

  -- The rule of invariants: what every step keeps, every schedule keeps.
  pub run_inv :
      (Inv : System M P → Type 0)
      → ((i : ℕ) (c : C) (s t : System M P) → Stepped i c s t → Inv s → Inv t)
      → (l : List (ℕ × C)) (s : System M P) {t : System M P} → run l s ≡ some t
      → Inv s
      → Inv t
  unfolding run
  run_inv Inv keep [] s {t} h v = let e : s ≡ t = cc in subst Inv e v
  run_inv Inv keep ((i, c) ∷ rest) s h v =
      let (u, first, later) = >>=-eq-some (step i c s) (run rest) h in
      run_inv Inv keep rest u later (keep i c s u (step-eq-some i c s first) v)
