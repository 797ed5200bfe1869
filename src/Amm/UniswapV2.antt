-- ===== src/Amm/UniswapV2.antt =====
-- src/amm/uniswap_v2.rs
use dex_arbitrage.Prelude.{ℕ, ◌-◌, Bool, Option, none, some, ◌==◌, ◌||◌, if◌then◌else◌}
use dex_arbitrage.Types.{V2PoolState}
use dex_arbitrage.Amm.{sat_mul, product_quote}

unfoldable pub quote_exact_in : V2PoolState → Bool → ℕ → Option ℕ
quote_exact_in state zero_for_one amount_in =
    if amount_in == 0
    then some 0
    else let reserve_in = if zero_for_one then state.reserve0 else state.reserve1 in
      let reserve_out = if zero_for_one then state.reserve1 else state.reserve0 in
      if reserve_in == 0 || reserve_out == 0
      then none
      else some
          (product_quote (sat_mul amount_in (1_000_000 - state.fee_ppm)) reserve_in reserve_out)
