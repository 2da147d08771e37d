-- ===== src/Prelude/Words.antt =====
-- 64-bit counters keep their wrap-around.
use Prim.Native.Nat.{ℕ, ◌+◌, ◌%◌, ◌^◌, ◌<◌}
use mathlib.Core.Path.{◌≡◌}
use native.Mathlib.Omega.{arith}

abbrev pub u64_mod : ℕ
u64_mod = 2 ^ 64

-- `version.wrapping_add(1)`.
unfoldable pub wrapping_inc : ℕ → ℕ
wrapping_inc n = (n + 1) % u64_mod

pub wrapping_inc-of_lt : (n : ℕ) → n + 1 < u64_mod → wrapping_inc n ≡ n + 1
unfolding wrapping_inc
wrapping_inc-of_lt n h = omega arith
