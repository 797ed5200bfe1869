-- ===== src/Gas.antt =====
-- src/risk/gas_tracker.rs: the gas quote and its cache. The node's answers, one for each attempt, the
-- clock, the environment and the risk buffer, which is in f64, are arguments.
pub mod Retry
pub mod Sources
mod Examples
use dex_arbitrage.Prelude.{
  ℕ, zero, suc, ◌+◌, ◌-◌, ◌*◌, ◌/◌, ◌==◌, ltb, leb, Bool, true, false, not, List, Option, none,
  some, if◌then◌else◌, min, saturating_add, saturating_mul, u128_max, u256_max, u64_max, ◌^◌,
}

pub record GasQuote : Type 0 where
  pub max_fee_per_gas : ℕ
  pub max_priority_fee_per_gas : ℕ
  pub l2_execution_cost_wei : ℕ
  pub l1_data_fee_wei : ℕ
  pub buffered_total_cost_wei : ℕ

pub record CachedGasQuote : Type 0 where
  pub fetched_at : ℕ
  pub base : ℕ
  pub priority : ℕ

-- `buffered` is `max_fee * (1.0 + risk_buffer_pct)`; `is_base` says whether the chain is Base.
pub record GasTracker : Type 0 where
  pub is_base : Bool
  pub ceiling_wei : ℕ
  pub buffered : ℕ → ℕ
  pub cache : Option CachedGasQuote

pub record Environment : Type 0 where
  pub ttl : ℕ
  pub stale_ttl : ℕ
  pub attempts : ℕ

-- The readings of the clock: at the start, after a failed refresh and after a refresh.
pub record Clock : Type 0 where
  pub start : ℕ
  pub refused_at : ℕ
  pub refreshed_at : ℕ

-- `for attempt in 1..=attempts`, with `left` attempts to go.
unfoldable pub retry {ℓ} : {A : Type ℓ} → (answer : ℕ → Option A) → (attempt left : ℕ) → Option A
retry answer attempt zero = none
retry answer attempt (suc left) = elim (answer attempt) [
  | some x ↦ some x
  | none ↦ retry answer (suc attempt) left
]

-- The node's answers for each attempt, and the value that a returned text of bytes decodes to.
pub record Node : Type 0 where
  pub gas_price : ℕ → Option ℕ
  pub max_priority_fee_per_gas : ℕ → Option ℕ
  pub l1_fee_call : ℕ → Option (List ℕ)
  pub abi_decode_returns : List ℕ → Option ℕ

unfoldable pub fetch_gas_quote : Node → (attempt : ℕ) → Option (ℕ × ℕ)
fetch_gas_quote node attempt = elim (node.gas_price attempt) [
  | none ↦ none
  | some base ↦ elim (node.max_priority_fee_per_gas attempt) [
    | none ↦ some (base, base / 20)
    | some priority ↦ some (base, priority)
  ]
]

unfoldable pub fetch_gas_quote_with_retry : Node → Environment → Option (ℕ × ℕ)
fetch_gas_quote_with_retry node env = retry (fetch_gas_quote node) 1 env.attempts

-- An answer that cannot be decoded is an error at once: the call is not made again.
unfoldable pub estimate_l1_data_fee : GasTracker → Node → Environment → Option ℕ
estimate_l1_data_fee t node env =
    if not t.is_base then some 0 else elim (retry node.l1_fee_call 1 env.attempts) [
      | none ↦ none
      | some raw ↦ node.abi_decode_returns raw
    ]

-- What is quoted from: the fees and whether they are fresh.
pub data Fees : Type 0 where
  known : (base priority : ℕ) → (fresh : Bool) → Fees
  unknown : Fees

abbrev refreshed : Option (ℕ × ℕ) → Fees
refreshed none = unknown
refreshed (some fees) = known fees.0 fees.1 true

unfoldable pub fees_of : GasTracker → Node → Environment → Clock → Fees
fees_of t node env clock = elim t.cache [
  | none ↦ refreshed (fetch_gas_quote_with_retry node env)
  | some cached ↦
      if leb (clock.start - cached.fetched_at) env.ttl
      then known cached.base cached.priority false
      else elim (fetch_gas_quote_with_retry node env) [
        | some fees ↦ known fees.0 fees.1 true
        | none ↦
            if leb (clock.refused_at - cached.fetched_at) env.stale_ttl
            then known cached.base cached.priority false
            else unknown
      ]
]

abbrev pub quote_from : GasTracker → (base priority gas_limit l1_data_fee_wei : ℕ) → GasQuote
quote_from t base priority gas_limit l1_data_fee_wei =
    let buffered = t.buffered (saturating_add u128_max base priority) in
    record {
      max_fee_per_gas = buffered;
      max_priority_fee_per_gas = min priority buffered;
      l2_execution_cost_wei = buffered * gas_limit;
      l1_data_fee_wei = l1_data_fee_wei;
      buffered_total_cost_wei = saturating_add u256_max (buffered * gas_limit) l1_data_fee_wei;
    }

-- The quote, or `none` for an error, and the tracker after it.
unfoldable pub quote :
    GasTracker → Node → Environment → Clock → (gas_limit : ℕ) → Option GasQuote × GasTracker
quote t node env clock gas_limit = elim (fees_of t node env clock) [
  | unknown ↦ (none, t)
  | known base priority fresh ↦
      let kept : GasTracker =
        if fresh
        then record t {
          cache =
              some (record { fetched_at = clock.refreshed_at; base = base; priority = priority });
        }
        else t in
      elim (estimate_l1_data_fee t node env) [
        | none ↦ (none, kept)
        | some fee ↦ (some (quote_from t base priority gas_limit fee), kept)
      ]
]

unfoldable pub above_ceiling : GasTracker → GasQuote → Bool
above_ceiling t quoted = ltb t.ceiling_wei quoted.max_fee_per_gas

-- In milliseconds, doubled for each attempt up to the fifth.
unfoldable pub gas_quote_retry_delay : (base_ms attempt : ℕ) → ℕ
gas_quote_retry_delay base_ms attempt = saturating_mul u64_max base_ms (2 ^ min (attempt - 1) 4)
