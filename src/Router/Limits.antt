-- ===== src/Router/Limits.antt =====
-- src/router/v3_limits.rs and src/router/split_decision.rs. The environment's basis points are an
-- argument.
use native.Mathlib.Nat.{mul-le-mul_left}
use dex_arbitrage.Prelude.{
  ℕ, ◌+◌, ◌-◌, ◌*◌, ◌/◌, ◌^◌, ◌≤◌, ◌<◌, ◌≡◌, arith, Bool, true, false, ◌||◌, ◌&&◌, ◌==◌, ltb, leb,
  if◌then◌else◌, min, max, saturating_mul, saturating_mul_exact, u128_max, u256_max,
}

abbrev pub min_sqrt_ratio_plus_one : ℕ
min_sqrt_ratio_plus_one = 4_295_128_740

abbrev pub max_sqrt_ratio_minus_one : ℕ
max_sqrt_ratio_minus_one = 1461446703485210103287273052203988822378723970341

unfoldable pub sqrt_price_limit_x96 : (bps current : ℕ) → (zero_for_one : Bool) → ℕ
sqrt_price_limit_x96 bps current zero_for_one =
    if bps == 0 || current == 0
    then if zero_for_one then min_sqrt_ratio_plus_one else max_sqrt_ratio_minus_one
    else let raw =
        saturating_mul u256_max current (if zero_for_one then 10_000 - bps else 10_000 + bps)
        / 10_000 in
      if zero_for_one then max raw min_sqrt_ratio_plus_one else min raw max_sqrt_ratio_minus_one

unfoldable pub u160_saturating_from_u256 : ℕ → ℕ
u160_saturating_from_u256 value = if leb (2 ^ 160) value then 2 ^ 160 - 1 else value

unfoldable pub sqrt_price_limit_u160 : (bps current : ℕ) → (zero_for_one : Bool) → ℕ
sqrt_price_limit_u160 bps current zero_for_one =
    u160_saturating_from_u256 (sqrt_price_limit_x96 bps current zero_for_one)

unfoldable pub should_split : (parallel_pool_count total_input min_slice : ℕ) → Bool
should_split count total_input min_slice =
    ltb 1 count && leb (saturating_mul u128_max min_slice 2) total_input

-- The scaled price does not saturate, and lies on its side of the price.
scaled :
    (current factor : ℕ)
    → current ≤ max_sqrt_ratio_minus_one
    → factor ≤ 20_000
    → saturating_mul u256_max current factor ≡ current * factor
scaled current factor h k =
    let wide : current * factor ≤ current * 20_000 = mul-le-mul_left current k in
    saturating_mul_exact u256_max current factor (omega arith)

-- Where the price lies, and what the limit must be.
pub record Limits (current limit : ℕ) (zero_for_one : Bool) : Type 0 where
  pub above : min_sqrt_ratio_plus_one ≤ limit
  pub below : limit ≤ max_sqrt_ratio_minus_one
  pub down : zero_for_one ≡ true → limit ≤ current
  pub up : zero_for_one ≡ false → current ≤ limit

-- For a price within Uniswap's bounds and a slippage below the whole, the limit that is sent, as a
-- number of 160 bits too, is within these bounds, at most the price where the pool sells its first
-- token and at least the price otherwise.
pub sqrt_price_limit_u160-Limits :
    (bps current : ℕ) (zero_for_one : Bool)
    → bps < 10_000
    → min_sqrt_ratio_plus_one ≤ current
    → current ≤ max_sqrt_ratio_minus_one
    → Limits current (sqrt_price_limit_u160 bps current zero_for_one) zero_for_one
      × (sqrt_price_limit_u160 bps current zero_for_one
          ≡ sqrt_price_limit_x96 bps current zero_for_one)
unfolding sqrt_price_limit_u160 sqrt_price_limit_x96 u160_saturating_from_u256
sqrt_price_limit_u160-Limits bps current true h low high =
    let exact = scaled current (10_000 - bps) high (omega arith) in
    let share : current * (10_000 - bps) ≤ current * 10_000 =
      mul-le-mul_left {m = 10_000 - bps} {n = 10_000} current (omega arith) in
    (
      record {
        above = ground (arith, exact);
        below = ground (arith, exact);
        down = λ e. ground (arith, exact);
        up = λ e. absurd (ground arith);
      },
      ground (arith, exact),
    )
sqrt_price_limit_u160-Limits bps current false h low high =
    let exact = scaled current (10_000 + bps) high (omega arith) in
    let share : current * 10_000 ≤ current * (10_000 + bps) =
      mul-le-mul_left {m = 10_000} {n = 10_000 + bps} current (omega arith) in
    (
      record {
        above = ground (arith, exact);
        below = ground (arith, exact);
        down = λ e. absurd (ground arith);
        up = λ e. ground (arith, exact);
      },
      ground (arith, exact),
    )
