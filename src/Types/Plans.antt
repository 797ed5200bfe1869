-- ===== src/Types/Plans.antt =====
-- src/types.rs: plans, from the router's hops to what the executor is sent.
use Prim.Native.String.{String}
use dex_arbitrage.Prelude.{ℕ, Bool, List}
use dex_arbitrage.Prelude.Int.{ℤ}

pub data CapitalSource : Type 0 where
  self_funded flash_loan mixed_flash_loan : CapitalSource

pub record CapitalChoice : Type 0 where
  pub source : CapitalSource
  pub loan_amount_raw : ℕ
  pub flash_fee_raw : ℕ
  pub actual_flash_fee_raw : ℕ
  pub net_profit_before_gas_raw : ℤ

pub data AdapterType : Type 0 where
  uniswap_v2_like uniswap_v3_like trader_joe_lb curve_plain balancer_weighted : AdapterType
  aerodrome_v2_like : AdapterType

pub data SplitExtra : Type 0 where
  none : SplitExtra
  v2 : (fee_ppm : ℕ) → SplitExtra
  aerodrome_v2 : (stable : Bool) (fee_ppm : ℕ) → SplitExtra
  v3 : (zero_for_one : Bool) (sqrt_price_limit_x96 : ℕ) → SplitExtra
  trader_joe_lb : SplitExtra
  curve : (i j : ℤ) (underlying : Bool) → SplitExtra
  balancer : (pool_id : ℕ) → SplitExtra

pub record SplitPlan : Type 0 where
  pub dex_name : String
  pub pool_id : ℕ
  pub adapter_type : AdapterType
  pub token_in : ℕ
  pub token_out : ℕ
  pub amount_in : ℕ
  pub min_amount_out : ℕ
  pub expected_amount_out : ℕ
  pub extra : SplitExtra

pub record HopPlan : Type 0 where
  pub token_in : ℕ
  pub token_out : ℕ
  pub total_in : ℕ
  pub total_out : ℕ
  pub splits : List SplitPlan

pub record ExactPlan : Type 0 where
  pub snapshot_id : ℕ
  pub input_token : ℕ
  pub output_token : ℕ
  pub input_amount : ℕ
  pub output_amount : ℕ
  pub gross_profit_raw : ℤ
  pub flash_premium_ppm : ℕ
  pub flash_fee_raw : ℕ
  pub net_profit_before_gas_raw : ℤ
  pub contract_min_profit_raw : ℕ
  pub input_value_usd_e8 : ℕ
  pub flash_loan_value_usd_e8 : ℕ
  pub gross_profit_usd_e8 : ℤ
  pub flash_fee_usd_e8 : ℤ
  pub actual_flash_fee_usd_e8 : ℤ
  pub gas_cost_usd_e8 : ℤ
  pub net_profit_usd_e8 : ℤ
  pub expected_profit : ℤ
  pub gas_limit : ℕ
  pub gas_l2_execution_cost_wei : ℕ
  pub gas_l1_data_fee_wei : ℕ
  pub gas_cost_wei : ℕ
  pub capital_source : CapitalSource
  pub flash_loan_amount : ℕ
  pub actual_flash_fee_raw : ℕ
  pub hops : List HopPlan

pub record ExecutablePlan : Type 0 where
  pub exact : ExactPlan
  pub calldata : List ℕ
  pub max_fee_per_gas : ℕ
  pub max_priority_fee_per_gas : ℕ
  pub nonce : ℕ
  pub deadline_unix : ℕ
