-- ===== src/Risk.antt =====
-- src/risk/limits.rs: the risk manager. The day key is an argument of the calls that read the clock,
-- and the days of `daily_pnl_usd_e8` are numbers.
pub mod Depeg
pub mod Check
pub mod Positions
mod Examples
use dex_arbitrage.Prelude.{
  ℕ, ◌+◌, ◌-◌, ◌%◌, ◌^◌, Bool, true, false, ◌||◌, ◌&&◌, ◌/◌, [], Option, none, some, ltb, leb, ◌==◌,
  if◌then◌else◌, Result, ok, err,
}
use dex_arbitrage.Prelude.Map.{Map, lookup, insert}
use dex_arbitrage.Prelude.Int.{ℤ, pos, negsuc, ◌+ℤ◌, ltb_ℤ, wrap_i128, pos_part, neg_part}
use dex_arbitrage.Types.{CapitalSource, ExactPlan, ExecutablePlan}

pub record RiskManager : Type 0 where
  pub max_position_usd_e8 : ℕ
  pub max_flash_loan_usd_e8 : ℕ
  pub min_profit_usd_e8 : ℕ
  pub daily_loss_limit_usd_e8 : ℕ
  pub max_concurrent_tx : ℕ
  pub open_tx_count : ℕ
  pub daily_pnl_usd_e8 : Map ℤ

-- The settings that `new` reads.
pub record RiskSettings : Type 0 where
  pub max_position_usd_e8 : ℕ
  pub max_flash_loan_usd_e8 : ℕ
  pub min_net_profit_usd_e8 : ℕ
  pub daily_loss_limit_usd_e8 : ℕ
  pub max_concurrent_tx : ℕ

unfoldable pub new : RiskSettings → RiskManager
new s = record {
  max_position_usd_e8 = s.max_position_usd_e8;
  max_flash_loan_usd_e8 = s.max_flash_loan_usd_e8;
  min_profit_usd_e8 = s.min_net_profit_usd_e8;
  daily_loss_limit_usd_e8 = s.daily_loss_limit_usd_e8;
  max_concurrent_tx = s.max_concurrent_tx;
  open_tx_count = 0;
  daily_pnl_usd_e8 = [];
}

-- The messages of `bail!`, with the values that they show.
pub data Rejection : Type 0 where
  exceeds_max_position : (value limit : ℕ) → Rejection
  exceeds_max_flash_loan : (value limit : ℕ) → Rejection
  below_min_profit : (profit : ℤ) (limit : ℕ) → Rejection
  max_concurrent_tx_reached : Rejection
  daily_loss_exceeds_limit : (loss limit : ℕ) → Rejection

abbrev pub takes_flash_loan : CapitalSource → Bool
takes_flash_loan CapitalSource.self_funded = false
takes_flash_loan CapitalSource.flash_loan = true
takes_flash_loan CapitalSource.mixed_flash_loan = true

-- `*map.get(&day_key).unwrap_or(&0)`
unfoldable pub pnl_of : RiskManager → ℕ → ℤ
pnl_of r day = elim (lookup day r.daily_pnl_usd_e8) [ none ↦ pos 0 | some pnl ↦ pnl ]

-- `profit as u128` is reached only where the profit is not negative; `unsigned_abs` of a loss is its
-- negative part.
unfoldable pub pre_trade_check : RiskManager → ExactPlan → (day : ℕ) → Result Rejection (Unit {0})
pre_trade_check r p day =
    if ltb r.max_position_usd_e8 p.input_value_usd_e8
    then err (exceeds_max_position p.input_value_usd_e8 r.max_position_usd_e8)
    else if takes_flash_loan p.capital_source
        && ltb r.max_flash_loan_usd_e8 p.flash_loan_value_usd_e8
    then err (exceeds_max_flash_loan p.flash_loan_value_usd_e8 r.max_flash_loan_usd_e8)
    else if ltb_ℤ p.net_profit_usd_e8 (pos 0)
        || ltb (pos_part p.net_profit_usd_e8) r.min_profit_usd_e8
    then err (below_min_profit p.net_profit_usd_e8 r.min_profit_usd_e8)
    else if leb r.max_concurrent_tx r.open_tx_count
    then err max_concurrent_tx_reached
    else if ltb_ℤ (pnl_of r day) (pos 0) && ltb r.daily_loss_limit_usd_e8 (neg_part (pnl_of r day))
    then err (daily_loss_exceeds_limit (neg_part (pnl_of r day)) r.daily_loss_limit_usd_e8)
    else ok tt

-- `usize` is 64 bits wide, and `fetch_add` and `fetch_sub` wrap.
unfoldable pub mark_submitted : RiskManager → RiskManager
mark_submitted r = record r { open_tx_count = (r.open_tx_count + 1) % 2 ^ 64 }

-- `fetch_sub(1)`, then `store(0)` where the count was 0 before.
unfoldable pub close_one : RiskManager → RiskManager
close_one r =
    let after = (r.open_tx_count + 2 ^ 64 - 1) % 2 ^ 64 in
    record r { open_tx_count = if r.open_tx_count == 0 then 0 else after }

-- `*daily.entry(day_key).or_default() += realized`, which wraps in a release build.
unfoldable pub mark_finalized : RiskManager → ℤ → (day : ℕ) → RiskManager
mark_finalized r realized day =
    if r.open_tx_count == 0 then close_one r else (record (close_one r) {
      daily_pnl_usd_e8 = insert day (wrap_i128 (pnl_of r day +ℤ realized)) r.daily_pnl_usd_e8;
    })

unfoldable pub mark_failed_submission : RiskManager → RiskManager
mark_failed_submission r = close_one r

-- `seconds` since the epoch, 0 for a clock before it.
unfoldable pub current_day_key : (seconds : ℕ) → ℕ
current_day_key seconds = seconds / 86_400
