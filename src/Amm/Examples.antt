-- ===== src/Amm/Examples.antt =====
-- The quotes on the pools of tests/amm_math_tests.rs' size.
use dex_arbitrage.Prelude.{
  ◌+◌, ◌-◌, ◌*◌, ◌≤◌, refl, true, arith, saturating_mul, saturating_add, checked_mul, checked_div,
  checked_add, checked_sub,
}
use dex_arbitrage.Types.{V2PoolState, TraderJoeLbPoolState, AerodromeV2PoolState}
use dex_arbitrage.Amm.{product_quote}
use dex_arbitrage.Amm.UniswapV2
use dex_arbitrage.Amm.TraderJoeLb
use dex_arbitrage.Amm.AerodromeV2
use dex_arbitrage.Amm.StableCurve.{
  stable_f, stable_d, stable_k, solve_stable_y, stable_round, grow_y, grow_by, shrink_y, shrink_by,
  one_e18,
}
use dex_arbitrage.Amm.Quotes.{
  v2_quote-le_reserve, v2_quote-product, v2_quote_mono, joe_quote-product,
}
use dex_arbitrage.Amm.Solver.{Crossing, solve_stable_y-Crossing, aerodrome_quote-le_reserve}

abbrev v2 : V2PoolState
v2 = record { reserve0 = 1_000_000; reserve1 = 2_000_000; fee_ppm = 3_000 }

abbrev joe : TraderJoeLbPoolState
joe = record { reserve_x = 1_000_000; reserve_y = 2_000_000; bin_step = 10; active_id = 0 }

abbrev stable_pool : AerodromeV2PoolState
stable_pool = record {
  reserve0 = 1_000_000_000_000_000_000_000;
  reserve1 = 1_000_000_000_000_000_000_000;
  decimals0 = one_e18;
  decimals1 = one_e18;
  stable = true;
  fee_ppm = 500;
}

v2_quote-le_reserve_example : 19743 ≤ 2_000_000
unfolding UniswapV2.quote_exact_in product_quote saturating_mul saturating_add
v2_quote-le_reserve_example = v2_quote-le_reserve v2 true 10_000 19743 refl

v2_quote-product_example : 1_000_000 * 2_000_000 ≤ (1_000_000 + 10_000) * (2_000_000 - 19743)
unfolding UniswapV2.quote_exact_in product_quote saturating_mul saturating_add
v2_quote-product_example = v2_quote-product v2 true 10_000 19743 refl (omega arith)

v2_quote_mono_example : 19743 ≤ 39100
unfolding UniswapV2.quote_exact_in product_quote saturating_mul saturating_add
v2_quote_mono_example =
    v2_quote_mono v2 true 10_000 20_000 19743 39100 refl refl (omega arith) (omega arith)

joe_quote-product_example :
    (19743 ≤ 2_000_000) × (1_000_000 * 2_000_000 ≤ (1_000_000 + 10_000) * (2_000_000 - 19743))
unfolding TraderJoeLb.quote_exact_in product_quote saturating_mul saturating_add
joe_quote-product_example = joe_quote-product joe true 10_000 19743 refl (omega arith)

solve_stable_y-Crossing_example :
    Crossing 1_001_000_000_000_000_000_000 2_000_000_000_000_000_000_000_000_000_000
      999_000_000_000_500_000_000
unfolding solve_stable_y stable_round stable_f stable_d grow_y grow_by shrink_y shrink_by
    checked_mul checked_div checked_add checked_sub
solve_stable_y-Crossing_example =
    solve_stable_y-Crossing 255 1_001_000_000_000_000_000_000
      2_000_000_000_000_000_000_000_000_000_000 1_000_000_000_000_000_000_000
      999_000_000_000_500_000_000 refl

aerodrome_quote-le_reserve_example : 999_499_999_500_999_250 ≤ 1_000_000_000_000_000_000_000
unfolding AerodromeV2.quote_exact_in AerodromeV2.amount_in_after_fee AerodromeV2.quote_after_fee
    AerodromeV2.stable_quote stable_k solve_stable_y stable_round stable_f stable_d grow_y grow_by
    shrink_y shrink_by checked_mul checked_div checked_add checked_sub saturating_mul
aerodrome_quote-le_reserve_example =
    aerodrome_quote-le_reserve stable_pool true 1_000_000_000_000_000_000 999_499_999_500_999_250
      refl
