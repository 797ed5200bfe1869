-- ===== src/Risk/Check.antt =====
-- src/risk/limits.rs, `pre_trade_check` against the limits read as one condition.
use dex_arbitrage.Prelude.{ℕ, ◌≤◌, ◌<◌, ◌≡◌, false, ◌⊎◌, ◌↔◌, arith, ok}
use dex_arbitrage.Prelude.Int.{pos, ◌≤ℤ◌, neg_part}
use dex_arbitrage.Types.{ExactPlan}
use dex_arbitrage.Risk.{RiskManager, takes_flash_loan, pnl_of, pre_trade_check}

-- What the limits ask of a plan on a day.
pub record Permitted (r : RiskManager) (p : ExactPlan) (day : ℕ) : Type 0 where
  pub position : p.input_value_usd_e8 ≤ r.max_position_usd_e8
  pub flash_loan :
      (takes_flash_loan p.capital_source ≡ false)
      ⊎ (p.flash_loan_value_usd_e8 ≤ r.max_flash_loan_usd_e8)
  pub profit : pos r.min_profit_usd_e8 ≤ℤ p.net_profit_usd_e8
  pub concurrent : r.open_tx_count < r.max_concurrent_tx
  pub loss : neg_part (pnl_of r day) ≤ r.daily_loss_limit_usd_e8

check-Permitted :
    (r : RiskManager) (p : ExactPlan) (day : ℕ)
    → pre_trade_check r p day ≡ ok tt
    → Permitted r p day
unfolding pre_trade_check
check-Permitted r p day h = ground arith

Permitted-check :
    (r : RiskManager) (p : ExactPlan) (day : ℕ)
    → Permitted r p day
    → pre_trade_check r p day ≡ ok tt
unfolding pre_trade_check
Permitted-check r p day v = ground arith

-- `pre_trade_check` accepts a plan exactly when its value, its flash loan if it takes one, its profit,
-- the number of open transactions and the day's loss are within the limits.
pub pre_trade_check-Permitted :
    (r : RiskManager) (p : ExactPlan) (day : ℕ)
    → (pre_trade_check r p day ≡ ok tt) ↔ Permitted r p day
pre_trade_check-Permitted r p day = (check-Permitted r p day, Permitted-check r p day)
