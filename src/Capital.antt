-- ===== src/Capital.antt =====
-- src/execution/capital_selector.rs: who pays for a plan. The clock, the environment and the call of
-- the node are arguments.
pub mod Sources
pub mod Choice
mod Examples
use dex_arbitrage.Prelude.{
  ℕ, ◌-◌, ◌/◌, ◌≤◌, Bool, true, false, ◌||◌, ◌&&◌, not, Option, none, some, ltb, leb, ◌==◌,
  if◌then◌else◌, saturating_mul, u128_max, min, Result, ok, err,
}
use dex_arbitrage.Prelude.Int.{ℤ, pos, negsuc, ltb_ℤ, ◌≤ℤ◌}
use dex_arbitrage.Prelude.Map.{Map, lookup, insert}
use dex_arbitrage.Types.{TokenInfo, ExactPlan, CapitalSource, CapitalChoice}
use dex_arbitrage.Valuation.{amount_to_usd_e8, calculate_net_profit_before_gas_raw}

-- `x <= 0`
abbrev pub not_positive : ℤ → Bool
not_positive (pos n) = n == 0
not_positive (negsuc n) = true

-- The source of a loan: the token and the pool must allow it, and its value must be known and within
-- the cap.
unfoldable pub loan_source :
    ExactPlan
    → TokenInfo
    → (aave_pool_configured : Bool) (global_flash_cap_usd_e8 loan_amount : ℕ) → Option CapitalSource
loan_source plan token aave_pool_configured global_flash_cap_usd_e8 loan_amount =
    if not token.flash_loan_enabled || not aave_pool_configured
    then none
    else let cap_usd_e8 : ℕ = elim token.max_flash_loan_usd_e8 [
      | none ↦ global_flash_cap_usd_e8
      | some own ↦ own
    ] in
      elim (amount_to_usd_e8 loan_amount token) [
        | none ↦ none
        | some value ↦
            if ltb cap_usd_e8 value
            then none
            else if loan_amount == plan.input_amount
            then some CapitalSource.flash_loan
            else some CapitalSource.mixed_flash_loan
      ]

unfoldable pub capital_source_of :
    ExactPlan
    → TokenInfo
    → (aave_pool_configured : Bool) (global_flash_cap_usd_e8 loan_amount : ℕ) → Option CapitalSource
capital_source_of plan token aave_pool_configured global_flash_cap_usd_e8 loan_amount =
    if loan_amount == 0
    then (if token.allow_self_funded then some CapitalSource.self_funded else none)
    else loan_source plan token aave_pool_configured global_flash_cap_usd_e8 loan_amount

unfoldable pub choice_from_balance_and_fees :
    ExactPlan
    → TokenInfo
    → (aave_pool_configured : Bool) (global_flash_cap_usd_e8 loan_amount actual_flash_fee_raw : ℕ)
    → Option CapitalChoice
choice_from_balance_and_fees plan token aave_pool_configured global_flash_cap_usd_e8 loan_amount
      actual_flash_fee_raw =
    let net_profit =
      calculate_net_profit_before_gas_raw plan.input_amount plan.output_amount
        actual_flash_fee_raw in
    if ltb plan.input_amount loan_amount
    then none
    else if not_positive net_profit
    then none
    else elim (capital_source_of plan token aave_pool_configured global_flash_cap_usd_e8
        loan_amount) [
          | none ↦ none
          | some source ↦ some (record {
            source = source;
            loan_amount_raw = loan_amount;
            flash_fee_raw = actual_flash_fee_raw;
            actual_flash_fee_raw = actual_flash_fee_raw;
            net_profit_before_gas_raw = net_profit;
          })
        ]

pub record CachedBalance : Type 0 where
  pub fetched_at : ℕ
  pub value : ℕ

-- What `executor_balance` reads: the clock at its start and after the call, the time to live, the
-- executor's address, and the node's answer, where a balance above u128 is already the largest.
pub record BalanceReads : Type 0 where
  pub now : ℕ
  pub fetched_at : ℕ
  pub ttl : ℕ
  pub executor_address : Option ℕ
  pub balance_of : ℕ → Option ℕ

-- The call that is made when the cache does not serve; `none` is an error.
unfoldable pub fetch_balance : BalanceReads → Map CachedBalance → ℕ → Map CachedBalance × Option ℕ
fetch_balance reads cache token = elim reads.executor_address [
  | none ↦ (cache, some 0)
  | some executor ↦ elim (reads.balance_of token) [
    | none ↦ (cache, none)
    | some raw ↦
        let value = min raw u128_max in
        (insert token (record { fetched_at = reads.fetched_at; value = value }) cache, some value)
  ]
]

unfoldable pub executor_balance :
    BalanceReads → Map CachedBalance → ℕ → Map CachedBalance × Option ℕ
executor_balance reads cache token = elim (lookup token cache) [
  | none ↦ fetch_balance reads cache token
  | some cached ↦
      if leb (reads.now - cached.fetched_at) reads.ttl
      then (cache, some cached.value)
      else fetch_balance reads cache token
]

-- The part of `choose` behind the balance: the executor pays what it can.
unfoldable pub choose_with :
    ExactPlan
    → TokenInfo
    → (aave_pool_configured : Bool) (max_flash_loan_usd_e8 executor_balance : ℕ)
    → Option CapitalChoice
choose_with plan token aave_pool_configured max_flash_loan_usd_e8 balance =
    let own_amount = min balance plan.input_amount in
    let loan_amount = plan.input_amount - own_amount in
    choice_from_balance_and_fees plan token aave_pool_configured max_flash_loan_usd_e8 loan_amount
      (saturating_mul u128_max loan_amount plan.flash_premium_ppm / 1_000_000)

-- An error of `executor_balance` counts as a balance of 0.
unfoldable pub choose :
    BalanceReads
    → Map CachedBalance
    → ExactPlan
    → TokenInfo
    → (aave_pool_configured : Bool) (max_flash_loan_usd_e8 : ℕ)
    → Map CachedBalance × Option CapitalChoice
choose reads cache plan token aave_pool_configured max_flash_loan_usd_e8 =
    if not_positive plan.gross_profit_raw
    then (cache, none)
    else if token.allow_self_funded
    then (let (cache', balance) = executor_balance reads cache plan.input_token in
        let known : ℕ = elim balance [ none ↦ 0 | some value ↦ value ] in
        (cache', choose_with plan token aave_pool_configured max_flash_loan_usd_e8 known))
    else (cache, choose_with plan token aave_pool_configured max_flash_loan_usd_e8 0)
