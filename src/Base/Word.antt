-- ===== src/Base/Word.antt =====
-- 32-bit words as the numbers below 2 ^ 32, and the interlocked operations of the kernel on them:
-- each is one atomic read and write, and wraps around.
use Prim.Native.Nat.{ℕ, ◌+◌, ◌-◌, ◌%◌, ◌^◌}
use mathlib.Core.Bool.{Bool}
use windows_system_wide_filt.Base.Tests.{ltb}

abbrev pub u32_mod : ℕ
u32_mod = 2 ^ 32

-- `InterlockedIncrement`: what it stores and returns.
abbrev pub inc32 : ℕ → ℕ
inc32 w = (w + 1) % u32_mod

-- `InterlockedDecrement`: what it stores and returns.
abbrev pub dec32 : ℕ → ℕ
dec32 w = (w + u32_mod - 1) % u32_mod

-- `InterlockedExchangeAdd`: what it stores.
abbrev pub add32 : ℕ → ℕ → ℕ
add32 w k = (w + k) % u32_mod

-- A word read as a `LONG` is at least 0.
abbrev pub is_nonneg : ℕ → Bool
is_nonneg w = ltb w (2 ^ 31)
