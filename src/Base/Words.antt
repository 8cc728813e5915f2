-- ===== src/Base/Words.antt =====
-- 64-bit and 32-bit machine arithmetic: every operation wraps.
use Prim.Native.Nat.{ℕ, ◌+◌, ◌-◌, ◌%◌, ◌^◌, ◌≤◌, ◌<◌}
use mathlib.Core.Path.{◌≡◌}
use native.Mathlib.Omega.{arith}

unfoldable pub add64 : ℕ → ℕ → ℕ
add64 a b = (a + b) % 2 ^ 64

-- The modulus goes first, since `-` on ℕ stops at 0.
unfoldable pub sub64 : ℕ → ℕ → ℕ
sub64 a b = (a + 2 ^ 64 - b) % 2 ^ 64

-- The complement of all 64 bits.
unfoldable pub not64 : ℕ → ℕ
not64 a = 2 ^ 64 - 1 - a

pub add64-eq-add : (a b : ℕ) → a + b < 2 ^ 64 → add64 a b ≡ a + b
unfolding add64
add64-eq-add a b h = omega arith

pub sub64-eq-sub : (a b : ℕ) → b ≤ a → a < 2 ^ 64 → sub64 a b ≡ a - b
unfolding sub64
sub64-eq-sub a b h l = omega arith

pub not64_lem : (a : ℕ) → not64 a ≡ 2 ^ 64 - 1 - a
unfolding not64
not64_lem a = omega arith
