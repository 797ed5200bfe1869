-- ===== src/Risk/Examples.antt =====
-- The risk manager on a small plan and a short day.
use dex_arbitrage.Prelude.{
  ℕ, ◌+◌, ◌≡◌, ◌↔◌, [], ◌∷◌, arith, ok, List, Option, none, some, true, false, All, keep,
}
use dex_arbitrage.Prelude.Int.{pos, negsuc, ◌+ℤ◌, wrap_i128}
use dex_arbitrage.Prelude.Map.{lookup, insert}
use dex_arbitrage.Types.{CapitalSource, ExactPlan, TokenInfo}
use dex_arbitrage.Risk.{
  RiskManager, new, pre_trade_check, pnl_of, mark_submitted, mark_finalized, close_one,
}
use dex_arbitrage.Risk.Depeg.{
  Pegged, collect_prices, stable_routes_allowed, stable_routes_allowed-Pegged,
}
use dex_arbitrage.Risk.Depeg
use dex_arbitrage.Risk.Check.{Permitted, pre_trade_check-Permitted}
use dex_arbitrage.Risk.Positions.{
  Event, submitted, finalized, failed, run, step, realized_on, run-balance,
}

abbrev limits : RiskManager
limits = new (record {
  max_position_usd_e8 = 1000;
  max_flash_loan_usd_e8 = 5000;
  min_net_profit_usd_e8 = 10;
  daily_loss_limit_usd_e8 = 50;
  max_concurrent_tx = 2;
})

abbrev plan : ExactPlan
plan = record {
  snapshot_id = 1;
  input_token = 7;
  output_token = 7;
  input_amount = 900;
  output_amount = 925;
  gross_profit_raw = pos 25;
  flash_premium_ppm = 0;
  flash_fee_raw = 0;
  net_profit_before_gas_raw = pos 25;
  contract_min_profit_raw = 20;
  input_value_usd_e8 = 900;
  flash_loan_value_usd_e8 = 0;
  gross_profit_usd_e8 = pos 25;
  flash_fee_usd_e8 = pos 0;
  actual_flash_fee_usd_e8 = pos 0;
  gas_cost_usd_e8 = pos 5;
  net_profit_usd_e8 = pos 20;
  expected_profit = pos 20;
  gas_limit = 21000;
  gas_l2_execution_cost_wei = 1;
  gas_l1_data_fee_wei = 1;
  gas_cost_wei = 2;
  capital_source = CapitalSource.self_funded;
  flash_loan_amount = 0;
  actual_flash_fee_raw = 0;
  hops = [];
}

pre_trade_check-Permitted_example :
    (pre_trade_check limits plan 3 ≡ ok tt) ↔ Permitted limits plan 3
pre_trade_check-Permitted_example = pre_trade_check-Permitted limits plan 3

abbrev day_events : List Event
day_events = submitted ∷ submitted ∷ finalized (negsuc 4) 3 ∷ failed ∷ []

run-balance_example :
    ((run limits day_events).open_tx_count + 2 ≡ 0 + 2)
    × (pnl_of (run limits day_events) 3 ≡ pnl_of limits 3 +ℤ realized_on 3 day_events)
unfolding new step mark_submitted mark_finalized close_one pnl_of lookup insert ◌+ℤ◌ wrap_i128
run-balance_example = run-balance limits day_events 3 (omega arith)

abbrev dollar : ℕ → Option ℕ → TokenInfo
dollar address price = record {
  address = address;
  symbol = "USD";
  decimals = 6;
  is_stable = true;
  is_cycle_anchor = true;
  flash_loan_enabled = true;
  allow_self_funded = true;
  behavior = record {
    fee_on_transfer = false;
    rebasing = false;
    erc4626 = false;
    callback_token = false;
    rate_oraclized = false;
  };
  manual_price_usd_e8 = price;
  max_position_usd_e8 = none;
  max_flash_loan_usd_e8 = none;
}

abbrev dollars : List TokenInfo
dollars = dollar 1 (some 99_900_000) ∷ dollar 2 none ∷ []

stable_routes_allowed-Pegged_example :
    (stable_routes_allowed (Depeg.new 990_000 dollars) ≡ true)
    ↔ All
        (λ t. Pegged 990_000 (collect_prices dollars []) t.address)
        (keep (λ t. t.is_stable) dollars)
stable_routes_allowed-Pegged_example = stable_routes_allowed-Pegged 990_000 dollars
