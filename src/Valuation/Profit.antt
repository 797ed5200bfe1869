-- ===== src/Valuation/Profit.antt =====
-- src/risk/valuation.rs: the profit before gas and the profit that the contract must realize.
use native.Mathlib.Nat.{mul-le-mul_left}
use dex_arbitrage.Prelude.{ℕ, ◌*◌, ◌^◌, ◌≤◌, ◌<◌, ◌≡◌, arith}
use dex_arbitrage.Prelude.Int.{ℤ, pos, negsuc, ◌-ℤ◌, wrap_i128-Fits, pos_part, -ℤ_bounds}
use dex_arbitrage.Valuation.{calculate_net_profit_before_gas_raw, calculate_contract_min_profit_raw}

-- Where the input, the output and the fee are below 2 ^ 126, the profit before gas is the output less
-- the input and the fee, with no wrap.
pub net_profit_exact :
    (input output fee : ℕ)
    → input < 2 ^ 126
    → output < 2 ^ 126
    → fee < 2 ^ 126
    → calculate_net_profit_before_gas_raw input output fee ≡ pos output -ℤ pos input -ℤ pos fee
unfolding calculate_net_profit_before_gas_raw
net_profit_exact input output fee hi ho hf =
    let gross = pos output -ℤ pos input in
    rw
      (
        wrap_i128-Fits (pos output) (omega arith),
        wrap_i128-Fits (pos input) (omega arith),
        wrap_i128-Fits (pos fee) (omega arith),
        wrap_i128-Fits gross (omega (arith, -ℤ_bounds)),
      )
      (wrap_i128-Fits (gross -ℤ pos fee) (omega (arith, -ℤ_bounds)))

-- The profit that the contract is told to insist on is at most the profit that was computed, and 0
-- where there is none, for any share up to the whole.
pub min_profit-le :
    (net : ℤ) (bps : ℕ) → bps ≤ 10_000 → calculate_contract_min_profit_raw net bps ≤ pos_part net
unfolding calculate_contract_min_profit_raw
min_profit-le (negsuc n) bps h = omega arith
min_profit-le (pos net) bps h =
    let share : net * bps ≤ net * 10_000 = mul-le-mul_left net h in ground arith
