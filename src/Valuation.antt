-- ===== src/Valuation.antt =====
-- src/risk/valuation.rs: conversions between raw token amounts and dollars, and profits. `U256::pow`
-- is the power modulo 2 ^ 256.
pub mod RoundTrip
pub mod Profit
mod Examples
use dex_arbitrage.Prelude.{
  ℕ, ◌-◌, ◌*◌, ◌/◌, ◌%◌, ◌^◌, Bool, Option, none, some, ltb, leb, ◌==◌, if◌then◌else◌, checked_mul,
  checked_div, u128_max, u256_max,
}
use dex_arbitrage.Prelude.Int.{ℤ, pos, negsuc, ◌-ℤ◌, wrap_i128}
use dex_arbitrage.Types.{TokenInfo}

abbrev pub pow10 : ℕ → ℕ
pow10 decimals = 10 ^ decimals % 2 ^ 256

-- `a.checked_mul(b)?.checked_div(c)?`, and `None` for what does not fit in a u128.
unfoldable pub narrow_mul_div : ℕ → ℕ → ℕ → Option ℕ
narrow_mul_div a b c = elim (checked_mul u256_max a b) [
  | none ↦ none
  | some product ↦ elim (checked_div product c) [
    | none ↦ none
    | some value ↦ if ltb u128_max value then none else some value
  ]
]

unfoldable pub amount_to_usd_e8 : ℕ → TokenInfo → Option ℕ
amount_to_usd_e8 amount_raw token = elim token.manual_price_usd_e8 [
  | none ↦ none
  | some price_e8 ↦
      if price_e8 == 0
      then none
      else if pow10 token.decimals == 0
      then none
      else narrow_mul_div amount_raw price_e8 (pow10 token.decimals)
]

unfoldable pub usd_e8_to_amount : ℕ → TokenInfo → Option ℕ
usd_e8_to_amount usd_e8 token = elim token.manual_price_usd_e8 [
  | none ↦ none
  | some price_e8 ↦
      if price_e8 == 0 then none else narrow_mul_div usd_e8 (pow10 token.decimals) price_e8
]

unfoldable pub native_gas_to_usd_e8 :
    (gas_cost_wei native_price_usd_e8 native_decimals : ℕ) → Option ℕ
native_gas_to_usd_e8 gas_cost_wei native_price_usd_e8 native_decimals =
    if native_price_usd_e8 == 0
    then none
    else narrow_mul_div gas_cost_wei native_price_usd_e8 (pow10 native_decimals)

-- `as i128` and the subtractions wrap.
unfoldable pub calculate_net_profit_before_gas_raw :
    (input_amount output_amount flash_fee_raw : ℕ) → ℤ
calculate_net_profit_before_gas_raw input_amount output_amount flash_fee_raw =
    let gross = wrap_i128 (wrap_i128 (pos output_amount) -ℤ wrap_i128 (pos input_amount)) in
    wrap_i128 (gross -ℤ wrap_i128 (pos flash_fee_raw))

abbrev pub i128_max : ℕ
i128_max = 2 ^ 127 - 1

-- `saturating_mul` of two numbers that are not negative, then the quotient.
unfoldable pub calculate_contract_min_profit_raw : ℤ → (min_profit_realization_bps : ℕ) → ℕ
calculate_contract_min_profit_raw (negsuc n) bps = 0
calculate_contract_min_profit_raw (pos net) bps =
    if net == 0 then 0 else (if leb (net * bps) i128_max then net * bps else i128_max) / 10_000
