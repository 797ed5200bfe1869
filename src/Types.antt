-- ===== src/Types.antt =====
-- src/types.rs: the data that the components share. Addresses, hashes and instants are numbers; a
-- field of a machine-width integer type is a number whose range the theorems state.
mod Plans
pub use Plans.*
use Prim.Native.String.{String}
use dex_arbitrage.Prelude.{ℕ, ◌-◌, Bool, List, Option, ◌||◌, false, leb, ltb, if◌then◌else◌}
use dex_arbitrage.Prelude.Int.{ℤ}

pub data AmmKind : Type 0 where
  uniswap_v2_like aerodrome_v2_like uniswap_v3_like trader_joe_lb curve_plain : AmmKind
  balancer_weighted : AmmKind

pub data FinalityLevel : Type 0 where
  pending sealed finalized : FinalityLevel

pub data PoolAdmissionStatus : Type 0 where
  allowed quarantined excluded : PoolAdmissionStatus

pub record TokenBehavior : Type 0 where
  pub fee_on_transfer : Bool
  pub rebasing : Bool
  pub erc4626 : Bool
  pub callback_token : Bool
  pub rate_oraclized : Bool

unfoldable pub is_exotic : TokenBehavior → Bool
is_exotic b =
    b.fee_on_transfer || (b.rebasing || (b.erc4626 || (b.callback_token || b.rate_oraclized)))

pub record TokenInfo : Type 0 where
  pub address : ℕ
  pub symbol : String
  pub decimals : ℕ
  pub is_stable : Bool
  pub is_cycle_anchor : Bool
  pub flash_loan_enabled : Bool
  pub allow_self_funded : Bool
  pub behavior : TokenBehavior
  pub manual_price_usd_e8 : Option ℕ
  pub max_position_usd_e8 : Option ℕ
  pub max_flash_loan_usd_e8 : Option ℕ

pub record LiquidityInfo : Type 0 where
  pub estimated_usd_e8 : ℕ
  pub safe_capacity_in : ℕ

-- `last_refresh_at` is in the unit of the clock that `healthy` reads.
pub record PoolHealth : Type 0 where
  pub stale : Bool
  pub paused : Bool
  pub quarantined : Bool
  pub confidence_bps : ℕ
  pub last_successful_refresh_block : ℕ
  pub last_refresh_at : ℕ
  pub recent_revert_count : ℕ

-- `elapsed` fails where the refresh lies in the future of `now`.
unfoldable pub healthy : PoolHealth → ℕ → ℕ → ℕ → Bool
healthy h min_confidence_bps staleness_timeout now =
    if h.paused || (h.quarantined || h.stale)
    then false
    else if ltb h.confidence_bps min_confidence_bps
    then false
    else leb now (h.last_refresh_at) || leb (now - h.last_refresh_at) staleness_timeout

pub record V2PoolState : Type 0 where
  pub reserve0 : ℕ
  pub reserve1 : ℕ
  pub fee_ppm : ℕ

pub record AerodromeV2PoolState : Type 0 where
  pub reserve0 : ℕ
  pub reserve1 : ℕ
  pub decimals0 : ℕ
  pub decimals1 : ℕ
  pub stable : Bool
  pub fee_ppm : ℕ

pub record V3PoolState : Type 0 where
  pub sqrt_price_x96 : ℕ
  pub liquidity : ℕ
  pub tick : ℤ
  pub fee : ℕ
  pub tick_spacing : ℤ

pub record TraderJoeLbPoolState : Type 0 where
  pub reserve_x : ℕ
  pub reserve_y : ℕ
  pub bin_step : ℕ
  pub active_id : ℕ

pub record CurvePoolState : Type 0 where
  pub balances : List ℕ
  pub amp : ℕ
  pub fee : ℕ
  pub supports_underlying : Bool

pub record BalancerPoolState : Type 0 where
  pub pool_id : ℕ
  pub balances : List ℕ
  pub normalized_weights_1e18 : List ℕ
  pub swap_fee_ppm : ℕ

pub data PoolSpecificState : Type 0 where
  uniswap_v2_like : V2PoolState → PoolSpecificState
  aerodrome_v2_like : AerodromeV2PoolState → PoolSpecificState
  uniswap_v3_like : V3PoolState → PoolSpecificState
  trader_joe_lb : TraderJoeLbPoolState → PoolSpecificState
  curve_plain : CurvePoolState → PoolSpecificState
  balancer_weighted : BalancerPoolState → PoolSpecificState

pub record PoolState : Type 0 where
  pub pool_id : ℕ
  pub dex_name : String
  pub kind : AmmKind
  pub token_addresses : List ℕ
  pub token_symbols : List String
  pub factory : Option ℕ
  pub registry : Option ℕ
  pub vault : Option ℕ
  pub quoter : Option ℕ
  pub admission_status : PoolAdmissionStatus
  pub health : PoolHealth
  pub state : PoolSpecificState
  pub last_updated_block : ℕ
  pub extras : List (String × String)

pub record EdgeRef : Type 0 where
  pub from : ℕ
  pub edge_idx : ℕ

pub record Edge : Type 0 where
  pub from : ℕ
  pub to : ℕ
  pub pool_id : ℕ
  pub amm_kind : AmmKind
  pub fee_ppm : ℕ
  pub weight_log_q32 : ℤ
  pub spot_rate_q128 : ℕ
  pub liquidity : LiquidityInfo
  pub pool_health : PoolHealth
  pub dex_name : String

pub record BlockRef : Type 0 where
  pub number : ℕ
  pub hash : ℕ
  pub parent_hash : ℕ
  pub finality : FinalityLevel
