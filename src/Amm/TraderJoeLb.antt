-- ===== src/Amm/TraderJoeLb.antt =====
-- src/amm/trader_joe_lb.rs
use dex_arbitrage.Prelude.{ℕ, Bool, Option, none, some, ◌==◌, ◌||◌, if◌then◌else◌}
use dex_arbitrage.Types.{TraderJoeLbPoolState}
use dex_arbitrage.Amm.{sat_mul, product_quote}

unfoldable pub quote_exact_in : TraderJoeLbPoolState → Bool → ℕ → Option ℕ
quote_exact_in state swap_for_y amount_in =
    if amount_in == 0
    then some 0
    else let reserve_in = if swap_for_y then state.reserve_x else state.reserve_y in
      let reserve_out = if swap_for_y then state.reserve_y else state.reserve_x in
      if reserve_in == 0 || reserve_out == 0
      then none
      else some (product_quote (sat_mul amount_in 997_000) reserve_in reserve_out)
