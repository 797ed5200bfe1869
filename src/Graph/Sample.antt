-- ===== src/Graph/Sample.antt =====
-- Two tokens and a pool, from which the examples build a graph.
use dex_arbitrage.Prelude.{ℕ, true, false, Option, none, some, List, [], ◌∷◌}
use dex_arbitrage.Prelude.Int.{pos}
use dex_arbitrage.Types.{AmmKind, PoolAdmissionStatus, PoolSpecificState, PoolState, TokenInfo}
use dex_arbitrage.Graph.{GraphSnapshot}
use dex_arbitrage.Graph.Build.{Rate, SpotRates, snapshot_of, empty_tables}

abbrev pub token : ℕ → TokenInfo
token address = record {
  address = address;
  symbol = "T";
  decimals = 18;
  is_stable = false;
  is_cycle_anchor = true;
  flash_loan_enabled = true;
  allow_self_funded = true;
  behavior = record {
    fee_on_transfer = false;
    rebasing = false;
    erc4626 = false;
    callback_token = false;
    rate_oraclized = false;
  };
  manual_price_usd_e8 = none;
  max_position_usd_e8 = none;
  max_flash_loan_usd_e8 = none;
}

abbrev flat : Rate
flat = record {
  spot_rate_q128 = 1;
  weight_log_q32 = pos 0;
  liquidity = record { estimated_usd_e8 = 0; safe_capacity_in = 9 };
}

abbrev pub rates : SpotRates
rates = record {
  uniswap_v2 = λ s dir. flat;
  aerodrome_v2 = λ s dir. flat;
  uniswap_v3 = λ s dir. flat;
  trader_joe_lb = λ s dir. flat;
  curve = λ s i j. flat;
  balancer = λ s i j. flat;
}

abbrev pub pool_at : ℕ → PoolState
pool_at pool_id = record {
  pool_id = pool_id;
  dex_name = "v2";
  kind = AmmKind.uniswap_v2_like;
  token_addresses = 11 ∷ 12 ∷ [];
  token_symbols = [];
  factory = none;
  registry = none;
  vault = none;
  quoter = none;
  admission_status = PoolAdmissionStatus.allowed;
  health = record {
    stale = false;
    paused = false;
    quarantined = false;
    confidence_bps = 10_000;
    last_successful_refresh_block = 1;
    last_refresh_at = 1;
    recent_revert_count = 0;
  };
  state =
      PoolSpecificState.uniswap_v2_like
        (record { reserve0 = 100; reserve1 = 200; fee_ppm = 3_000 });
  last_updated_block = 1;
  extras = [];
}

abbrev pub tokens : List TokenInfo
tokens = token 11 ∷ token 12 ∷ []

abbrev pub built_or_empty : Option GraphSnapshot → GraphSnapshot
built_or_empty none = snapshot_of 0 none [] [] (empty_tables 0)
built_or_empty (some g) = g
