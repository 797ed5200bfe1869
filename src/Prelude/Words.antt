-- ===== src/Prelude/Words.antt =====
-- The unsigned integer types of Rust and of `alloy` as native numbers with their ranges written out.
use Prim.Native.Nat.{ℕ, ◌+◌, ◌-◌, ◌*◌, ◌/◌, ◌^◌, ◌≤◌}
use mathlib.Core.Path.{◌≡◌}
use mathlib.Core.Option.{Option, none, some}
use native.Mathlib.Omega.{arith}
use dex_arbitrage.Prelude.Tests.{leb, ◌==◌, if◌then◌else◌}

abbrev pub u64_max : ℕ
u64_max = 2 ^ 64 - 1

abbrev pub u128_max : ℕ
u128_max = 2 ^ 128 - 1

abbrev pub u256_max : ℕ
u256_max = 2 ^ 256 - 1

-- `saturating_add` and `saturating_mul` at a width whose largest value is `top`.
unfoldable pub saturating_add : ℕ → ℕ → ℕ → ℕ
saturating_add top a b = if leb (a + b) top then a + b else top

unfoldable pub saturating_mul : ℕ → ℕ → ℕ → ℕ
saturating_mul top a b = if leb (a * b) top then a * b else top

-- `checked_add`, `checked_sub`, `checked_mul` and `checked_div`.
unfoldable pub checked_add : ℕ → ℕ → ℕ → Option ℕ
checked_add top a b = if leb (a + b) top then some (a + b) else none

unfoldable pub checked_sub : ℕ → ℕ → Option ℕ
checked_sub a b = if leb b a then some (a - b) else none

unfoldable pub checked_mul : ℕ → ℕ → ℕ → Option ℕ
checked_mul top a b = if leb (a * b) top then some (a * b) else none

unfoldable pub checked_div : ℕ → ℕ → Option ℕ
checked_div a b = if b == 0 then none else some (a / b)

pub saturating_add-le : (top a b : ℕ) → saturating_add top a b ≤ top
unfolding saturating_add
saturating_add-le top a b = ground arith

pub saturating_add-le_add : (top a b : ℕ) → saturating_add top a b ≤ a + b
unfolding saturating_add
saturating_add-le_add top a b = ground arith

pub le-saturating_add : (top a b : ℕ) → a ≤ top → a ≤ saturating_add top a b
unfolding saturating_add
le-saturating_add top a b h = ground arith

pub saturating_add_exact : (top a b : ℕ) → a + b ≤ top → saturating_add top a b ≡ a + b
unfolding saturating_add
saturating_add_exact top a b h = ground arith

pub saturating_mul-le : (top a b : ℕ) → saturating_mul top a b ≤ top
unfolding saturating_mul
saturating_mul-le top a b = ground arith

pub saturating_mul-le_mul : (top a b : ℕ) → saturating_mul top a b ≤ a * b
unfolding saturating_mul
saturating_mul-le_mul top a b = ground arith

pub saturating_mul_exact : (top a b : ℕ) → a * b ≤ top → saturating_mul top a b ≡ a * b
unfolding saturating_mul
saturating_mul_exact top a b h = ground arith
