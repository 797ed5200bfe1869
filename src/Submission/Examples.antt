-- ===== src/Submission/Examples.antt =====
-- One transaction through both managers.
use dex_arbitrage.Prelude.{◌≡◌, arith, true, [], ◌∷◌}
use dex_arbitrage.Prelude.Int.{pos, negsuc}
use dex_arbitrage.Types.{CapitalSource, ExecutablePlan, ExactPlan}
use dex_arbitrage.Nonce.{with_replacement}
use dex_arbitrage.Submission.{reverted, outcome, accepted, Managers, execute}
use dex_arbitrage.Submission.Accounts.{Booked, verdict_of, execute-Booked}

abbrev exact : ExactPlan
exact = record {
  snapshot_id = 1;
  input_token = 7;
  output_token = 7;
  input_amount = 900;
  output_amount = 925;
  gross_profit_raw = pos 25;
  flash_premium_ppm = 0;
  flash_fee_raw = 0;
  net_profit_before_gas_raw = pos 25;
  contract_min_profit_raw = 20;
  input_value_usd_e8 = 900;
  flash_loan_value_usd_e8 = 0;
  gross_profit_usd_e8 = pos 25;
  flash_fee_usd_e8 = pos 0;
  actual_flash_fee_usd_e8 = pos 0;
  gas_cost_usd_e8 = pos 5;
  net_profit_usd_e8 = pos 20;
  expected_profit = pos 20;
  gas_limit = 21000;
  gas_l2_execution_cost_wei = 1;
  gas_l1_data_fee_wei = 1;
  gas_cost_wei = 2;
  capital_source = CapitalSource.self_funded;
  flash_loan_amount = 0;
  actual_flash_fee_raw = 0;
  hops = [];
}

abbrev executable : ExecutablePlan
executable = record {
  exact = exact;
  calldata = [];
  nonce = 0;
  max_priority_fee_per_gas = 2;
  max_fee_per_gas = 30;
  deadline_unix = 1000;
}

abbrev managers : Managers
managers = record {
  nonces = with_replacement true;
  risk = record {
    max_position_usd_e8 = 1000;
    max_flash_loan_usd_e8 = 5000;
    min_profit_usd_e8 = 10;
    daily_loss_limit_usd_e8 = 50;
    max_concurrent_tx = 2;
    open_tx_count = 1;
    daily_pnl_usd_e8 = (3, negsuc 6) ∷ [];
  };
}

execute-Booked_example :
    Booked managers
      (execute managers executable 3 (accepted 77 10 11 (outcome reverted))).0
      executable
      3
      (accepted 77 10 11 (outcome reverted))
    × ((execute managers executable 3 (accepted 77 10 11 (outcome reverted))).1
        ≡ verdict_of (accepted 77 10 11 (outcome reverted)))
execute-Booked_example =
    execute-Booked managers executable 3 (accepted 77 10 11 (outcome reverted)) (omega arith)
      (unfold with_replacement in omega arith)
