-- ===== src/Capital/Examples.antt =====
-- A plan that is paid in part by the executor.
use dex_arbitrage.Prelude.{
  ◌≡◌, refl, true, false, some, none, [], ◌∷◌, saturating_mul, checked_mul, checked_div,
}
use dex_arbitrage.Prelude.Int.{pos, ◌-ℤ◌, wrap_i128}
use dex_arbitrage.Prelude.Map.{Map, lookup, insert}
use dex_arbitrage.Types.{TokenInfo, ExactPlan, CapitalSource, CapitalChoice}
use dex_arbitrage.Valuation.{amount_to_usd_e8, narrow_mul_div, calculate_net_profit_before_gas_raw}
use dex_arbitrage.Capital.{
  CachedBalance, BalanceReads, fetch_balance, executor_balance, choose, choose_with,
  choice_from_balance_and_fees, capital_source_of, loan_source,
}
use dex_arbitrage.Capital.Choice.{Covers, choose-Chosen}

abbrev token : TokenInfo
token = record {
  address = 7;
  symbol = "USDC";
  decimals = 6;
  is_stable = true;
  is_cycle_anchor = true;
  flash_loan_enabled = true;
  allow_self_funded = true;
  behavior = record {
    fee_on_transfer = false;
    rebasing = false;
    erc4626 = false;
    callback_token = false;
    rate_oraclized = false;
  };
  manual_price_usd_e8 = some 100_000_000;
  max_position_usd_e8 = none;
  max_flash_loan_usd_e8 = none;
}

abbrev plan : ExactPlan
plan = record {
  snapshot_id = 1;
  input_token = 7;
  output_token = 7;
  input_amount = 1_000_000;
  output_amount = 1_100_000;
  gross_profit_raw = pos 100_000;
  flash_premium_ppm = 900;
  flash_fee_raw = 900;
  net_profit_before_gas_raw = pos 99_100;
  contract_min_profit_raw = 0;
  input_value_usd_e8 = 0;
  flash_loan_value_usd_e8 = 0;
  gross_profit_usd_e8 = pos 0;
  flash_fee_usd_e8 = pos 0;
  actual_flash_fee_usd_e8 = pos 0;
  gas_cost_usd_e8 = pos 0;
  net_profit_usd_e8 = pos 0;
  expected_profit = pos 0;
  gas_limit = 0;
  gas_l2_execution_cost_wei = 0;
  gas_l1_data_fee_wei = 0;
  gas_cost_wei = 0;
  capital_source = CapitalSource.self_funded;
  flash_loan_amount = 0;
  actual_flash_fee_raw = 0;
  hops = [];
}

abbrev mixed : CapitalChoice
mixed = record {
  source = CapitalSource.mixed_flash_loan;
  loan_amount_raw = 600_000;
  flash_fee_raw = 540;
  actual_flash_fee_raw = 540;
  net_profit_before_gas_raw = pos 99_460;
}

-- The cached balance is too old, and the node answers 400,000.
abbrev reads : BalanceReads
reads = record {
  now = 90;
  fetched_at = 95;
  ttl = 30;
  executor_address = some 3;
  balance_of = λ asked. some 400_000;
}

abbrev old_balances : Map CachedBalance
old_balances = (7, record { fetched_at = 10; value = 900_000 }) ∷ []

choose-Chosen_example :
    Covers reads old_balances plan token true 200_000_000
      ((7, record { fetched_at = 95; value = 400_000 }) ∷ [])
      mixed
unfolding choose executor_balance fetch_balance lookup insert choose_with
    choice_from_balance_and_fees capital_source_of loan_source amount_to_usd_e8 narrow_mul_div
    calculate_net_profit_before_gas_raw checked_mul checked_div saturating_mul wrap_i128 ◌-ℤ◌
choose-Chosen_example =
    choose-Chosen reads old_balances ((7, record { fetched_at = 95; value = 400_000 }) ∷ []) plan
      token true 200_000_000 mixed refl

abbrev flash_only : TokenInfo
flash_only = record token { allow_self_funded = false }

abbrev whole_loan : CapitalChoice
whole_loan = record {
  source = CapitalSource.flash_loan;
  loan_amount_raw = 1_000_000;
  flash_fee_raw = 900;
  actual_flash_fee_raw = 900;
  net_profit_before_gas_raw = pos 99_100;
}

-- Without the token's flag the whole input is borrowed and no balance is read.
no_own_part :
    choose reads old_balances plan flash_only true 200_000_000 ≡ (old_balances, some whole_loan)
unfolding choose choose_with choice_from_balance_and_fees capital_source_of loan_source
    amount_to_usd_e8 narrow_mul_div calculate_net_profit_before_gas_raw checked_mul checked_div
    saturating_mul wrap_i128 ◌-ℤ◌
no_own_part = refl
