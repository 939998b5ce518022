-- ===== src/Common/Words.antt =====
-- Rust's unsigned integers over the native numbers: saturating and checked arithmetic. A value of
-- an unsigned type is a number, and `saturating_sub` is the `-` of the native numbers.
use Prim.Native.Nat.{ℕ, zero, suc, ◌≤◌, ◌+◌, ◌-◌, ◌*◌, ◌/◌, ◌^◌, min}
use mathlib.Core.Option.{Option, none, some}
use native.Mathlib.Omega.{arith}
use cerulea.Common.Tests.{leb, ◌==◌, if◌then◌else◌}

abbrev pub u32_max : ℕ
u32_max = 2 ^ 32 - 1

abbrev pub u64_max : ℕ
u64_max = 2 ^ 64 - 1

abbrev pub u128_max : ℕ
u128_max = 2 ^ 128 - 1

-- The first argument of each is the largest value of the type.
abbrev pub saturating_add : ℕ → ℕ → ℕ → ℕ
saturating_add top a b = min (a + b) top

abbrev pub saturating_mul : ℕ → ℕ → ℕ → ℕ
saturating_mul top a b = min (a * b) top

abbrev pub saturated_into : ℕ → ℕ → ℕ
saturated_into top a = min a top

abbrev pub checked_add : ℕ → ℕ → ℕ → Option ℕ
checked_add top a b = if leb (a + b) top then some (a + b) else none

abbrev pub checked_mul : ℕ → ℕ → ℕ → Option ℕ
checked_mul top a b = if leb (a * b) top then some (a * b) else none

abbrev pub checked_sub : ℕ → ℕ → Option ℕ
checked_sub a b = if leb b a then some (a - b) else none

abbrev pub checked_div : ℕ → ℕ → Option ℕ
checked_div a b = if b == 0 then none else some (a / b)

pub mul-le : (f s t : ℕ) → s ≤ t → f * s ≤ f * t
mul-le zero s t h = omega arith
mul-le (suc f) s t h = omega (arith, mul-le f s t h, h)
