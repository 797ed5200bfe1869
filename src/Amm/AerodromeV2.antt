-- ===== src/Amm/AerodromeV2.antt =====
-- src/amm/aerodrome_v2.rs: the quotes.
use dex_arbitrage.Prelude.{
  ℕ, ◌-◌, ◌/◌, Bool, Option, none, some, leb, ◌==◌, ◌||◌, if◌then◌else◌, checked_add, checked_sub,
  u256_max,
}
use dex_arbitrage.Types.{AerodromeV2PoolState}
use dex_arbitrage.Amm.{◌>>=◌, sat_mul, sat_add}
use dex_arbitrage.Amm.StableCurve.{one_e18, mul_div, stable_k, solve_stable_y, u256_to_u128}

unfoldable pub stable_quote :
    (amount_in reserve_in reserve_out decimals_in decimals_out : ℕ) → Option ℕ
stable_quote amount_in reserve_in reserve_out decimals_in decimals_out =
    if decimals_in == 0 || decimals_out == 0 then none else (do
      xy ← stable_k reserve_in reserve_out decimals_in decimals_out
      reserve_in_scaled ← mul_div reserve_in one_e18 decimals_in
      reserve_out_scaled ← mul_div reserve_out one_e18 decimals_out
      amount_in_scaled ← mul_div amount_in one_e18 decimals_in
      x0 ← checked_add u256_max reserve_in_scaled amount_in_scaled
      y ← solve_stable_y 255 x0 xy reserve_out_scaled
      dy_scaled ← checked_sub reserve_out_scaled y
      out ← mul_div dy_scaled decimals_out one_e18
      u256_to_u128 out)

unfoldable pub amount_in_after_fee : (amount_in fee_ppm : ℕ) → Option ℕ
amount_in_after_fee amount_in fee_ppm =
    if leb 1_000_000 fee_ppm
    then none
    else some (sat_mul amount_in (1_000_000 - fee_ppm) / 1_000_000)

-- The quote once the fee is off: the pool is stable or a product pool.
unfoldable pub quote_after_fee : AerodromeV2PoolState → Bool → ℕ → Option ℕ
quote_after_fee state zero_for_one amount_in =
    let reserve_in = if zero_for_one then state.reserve0 else state.reserve1 in
    let reserve_out = if zero_for_one then state.reserve1 else state.reserve0 in
    let decimals_in = if zero_for_one then state.decimals0 else state.decimals1 in
    let decimals_out = if zero_for_one then state.decimals1 else state.decimals0 in
    if reserve_in == 0 || reserve_out == 0
    then none
    else if state.stable
    then stable_quote amount_in reserve_in reserve_out decimals_in decimals_out
    else some (sat_mul amount_in reserve_out / sat_add reserve_in amount_in)

unfoldable pub quote_exact_in : AerodromeV2PoolState → Bool → ℕ → Option ℕ
quote_exact_in state zero_for_one amount_in =
    if amount_in == 0 then some 0 else elim (amount_in_after_fee amount_in state.fee_ppm) [
      | none ↦ none
      | some after_fee ↦
          if after_fee == 0 then some 0 else quote_after_fee state zero_for_one after_fee
    ]
