-- ===== src/Valuation/Examples.antt =====
-- The tokens of the module's own tests.
use dex_arbitrage.Prelude.{ℕ, ◌+◌, ◌*◌, ◌≤◌, ◌<◌, refl, false, some, none, checked_mul, checked_div}
use dex_arbitrage.Types.{TokenInfo}
use dex_arbitrage.Valuation.{pow10, amount_to_usd_e8, usd_e8_to_amount, narrow_mul_div}
use dex_arbitrage.Valuation.RoundTrip.{usd_e8_to_amount-amount_to_usd_e8}

abbrev make_token : ℕ → ℕ → TokenInfo
make_token decimals price = record {
  address = 0;
  symbol = "TEST";
  decimals = decimals;
  is_stable = false;
  is_cycle_anchor = false;
  flash_loan_enabled = false;
  allow_self_funded = false;
  behavior = record {
    fee_on_transfer = false;
    rebasing = false;
    erc4626 = false;
    callback_token = false;
    rate_oraclized = false;
  };
  manual_price_usd_e8 = some price;
  max_position_usd_e8 = none;
  max_flash_loan_usd_e8 = none;
}

usd_e8_to_amount-amount_to_usd_e8_example :
    (9_999_900 ≤ 10_000_000) × (10_000_000 * pow10 6 < (9_999_900 + 1) * pow10 6 + 300_000_000)
unfolding usd_e8_to_amount amount_to_usd_e8 narrow_mul_div checked_mul checked_div
usd_e8_to_amount-amount_to_usd_e8_example =
    usd_e8_to_amount-amount_to_usd_e8 10_000_000 300_000_000 33_333 9_999_900
      (make_token 6 300_000_000) refl refl refl
