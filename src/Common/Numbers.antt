-- ===== src/Common/Numbers.antt =====
-- Integer operations of Rust's standard library on unsigned integers.
use Prim.Native.Nat.{ℕ, ◌+◌, ◌-◌, ◌*◌, ◌/◌, ◌%◌, ◌^◌, ◌≤◌, ◌<◌}
use mathlib.Core.Bool.{Bool}
use native.Mathlib.Omega.{arith}
use native.Mathlib.Nat.{div-add-mod}
use distributed_jbod.Common.Tests.{◌==◌, if◌then◌else◌}

-- `a.div_ceil(b)`, for `b > 0`.
unfoldable pub div_ceil : ℕ → ℕ → ℕ
div_ceil a b = if a % b == 0 then a / b else a / b + 1

-- `a * b` on `u64` or `usize`, which wraps.
abbrev pub mul_u64 : ℕ → ℕ → ℕ
mul_u64 a b = a * b % 2 ^ 64

abbrev pub add_u64 : ℕ → ℕ → ℕ
add_u64 a b = (a + b) % 2 ^ 64

-- `a - b` on `u64`, which wraps.
abbrev pub sub_u64 : ℕ → ℕ → ℕ
sub_u64 a b = (a + 2 ^ 64 - b) % 2 ^ 64

-- `a.is_multiple_of(b)`.
abbrev pub is_multiple_of : ℕ → ℕ → Bool
is_multiple_of a b = a % b == 0

-- The rounded-up quotient is the least `q` with `a ≤ q * b`.
pub div_ceil_bounds : (a b : ℕ) → 0 < b → (a ≤ div_ceil a b * b) × (div_ceil a b * b < a + b)
unfolding div_ceil
div_ceil_bounds a b h = grind (arith, div-add-mod a b)

pub div_ceil_pos : (a b : ℕ) → 0 < a → 0 < b → 0 < div_ceil a b
div_ceil_pos a b ha hb = grind (arith, div_ceil_bounds a b)
