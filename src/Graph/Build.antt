-- ===== src/Graph/Build.antt =====
-- src/graph/model.rs: `GraphSnapshot::build`.
use dex_arbitrage.Prelude.{
  ℕ, zero, suc, ◌-◌, Bool, true, false, Option, none, some, List, [], ◌∷◌, ◌++◌, ◌==◌,
  if◌then◌else◌, get_elem?, length, replicate,
}
use dex_arbitrage.Prelude.Int.{ℤ}
use dex_arbitrage.Prelude.Map.{Map, lookup, insert}
use dex_arbitrage.Types.{
  BlockRef, TokenInfo, Edge, EdgeRef, LiquidityInfo, PoolState, PoolSpecificState, V2PoolState,
  AerodromeV2PoolState, V3PoolState, TraderJoeLbPoolState, CurvePoolState, BalancerPoolState,
}
use dex_arbitrage.Graph.{GraphSnapshot, PairMap, lookup_pair, insert_pair, or_default}

-- The `spot_rate` functions of the pools.
pub record Rate : Type 0 where
  pub spot_rate_q128 : ℕ
  pub weight_log_q32 : ℤ
  pub liquidity : LiquidityInfo

pub record SpotRates : Type 0 where
  pub uniswap_v2 : V2PoolState → Bool → Rate
  pub aerodrome_v2 : AerodromeV2PoolState → Bool → Rate
  pub uniswap_v3 : V3PoolState → Bool → Rate
  pub trader_joe_lb : TraderJoeLbPoolState → Bool → Rate
  pub curve : CurvePoolState → ℕ → ℕ → Rate
  pub balancer : BalancerPoolState → ℕ → ℕ → Rate

unfoldable pub index_tokens : ℕ → List TokenInfo → Map ℕ → Map ℕ
index_tokens idx [] indices = indices
index_tokens idx (token ∷ tokens) indices =
    index_tokens (suc idx) tokens (insert token.address idx indices)

-- The positions of the tokens that pass a test.
unfoldable pub positions : (TokenInfo → Bool) → ℕ → List TokenInfo → List ℕ
positions test idx [] = []
positions test idx (token ∷ tokens) =
    let rest = positions test (suc idx) tokens in if test token then idx ∷ rest else rest

abbrev pub new_edge : PoolState → (from to fee_ppm : ℕ) → Rate → Edge
new_edge pool from to fee_ppm rate = record {
  from = from;
  to = to;
  pool_id = pool.pool_id;
  amm_kind = pool.kind;
  fee_ppm = fee_ppm;
  weight_log_q32 = rate.weight_log_q32;
  spot_rate_q128 = rate.spot_rate_q128;
  liquidity = rate.liquidity;
  pool_health = pool.health;
  dex_name = pool.dex_name;
}

unfoldable pub two_edges : PoolState → Map ℕ → (fee_ppm : ℕ) → (Bool → Rate) → List ℕ → List Edge
two_edges pool indices fee_ppm compute (first ∷ second ∷ []) = elim (lookup first indices) [
  | none ↦ []
  | some a ↦ elim (lookup second indices) [
    | none ↦ []
    | some b ↦
        new_edge pool a b fee_ppm (compute true) ∷ new_edge pool b a fee_ppm (compute false) ∷ []
  ]
]
two_edges pool indices fee_ppm compute addresses = []

unfoldable pub build_two_token_edges : PoolState → Map ℕ → (fee_ppm : ℕ) → (Bool → Rate) → List Edge
build_two_token_edges pool indices fee_ppm compute =
    two_edges pool indices fee_ppm compute pool.token_addresses

-- The inner loop, from the position `j` on; `address` is the token at `i`.
unfoldable pub edges_from :
    PoolState → Map ℕ → (fee_ppm : ℕ) → (ℕ → ℕ → Rate) → (i address j : ℕ) → List ℕ → List Edge
edges_from pool indices fee_ppm compute i address j [] = []
edges_from pool indices fee_ppm compute i address j (other ∷ others) =
    let rest = edges_from pool indices fee_ppm compute i address (suc j) others in
    if i == j then rest else elim (lookup address indices) [
      | none ↦ rest
      | some from ↦ elim (lookup other indices) [
        | none ↦ rest
        | some to ↦ new_edge pool from to fee_ppm (compute i j) ∷ rest
      ]
    ]

-- The outer loop, from the position `i` on.
unfoldable pub edges_between :
    PoolState → Map ℕ → (fee_ppm : ℕ) → (ℕ → ℕ → Rate) → (i : ℕ) → List ℕ → List Edge
edges_between pool indices fee_ppm compute i [] = []
edges_between pool indices fee_ppm compute i (address ∷ addresses) =
    edges_from pool indices fee_ppm compute i address 0 pool.token_addresses
    ++ edges_between pool indices fee_ppm compute (suc i) addresses

unfoldable pub build_n_token_edges : PoolState → Map ℕ → (fee_ppm : ℕ) → (ℕ → ℕ → Rate) → List Edge
build_n_token_edges pool indices fee_ppm compute =
    edges_between pool indices fee_ppm compute 0 pool.token_addresses

unfoldable pub build_edges_for_pool : SpotRates → PoolState → Map ℕ → List Edge
build_edges_for_pool rates pool indices = elim pool.state [
  | PoolSpecificState.uniswap_v2_like state ↦
      build_two_token_edges pool indices state.fee_ppm (rates.uniswap_v2 state)
  | PoolSpecificState.aerodrome_v2_like state ↦
      build_two_token_edges pool indices state.fee_ppm (rates.aerodrome_v2 state)
  | PoolSpecificState.uniswap_v3_like state ↦
      build_two_token_edges pool indices state.fee (rates.uniswap_v3 state)
  | PoolSpecificState.trader_joe_lb state ↦
      build_two_token_edges pool indices 0 (rates.trader_joe_lb state)
  | PoolSpecificState.curve_plain state ↦
      build_n_token_edges pool indices state.fee (rates.curve state)
  | PoolSpecificState.balancer_weighted state ↦
      build_n_token_edges pool indices state.swap_fee_ppm (rates.balancer state)
]

-- The four tables that the loop of `build` fills.
pub record Tables : Type 0 where
  pub adjacency : List (List Edge)
  pub reverse_adj : List (List EdgeRef)
  pub pool_to_edges : Map (List EdgeRef)
  pub pair_to_edges : PairMap (List EdgeRef)

-- `rows[i].push(x)`
unfoldable pub push_at {ℓ} : {A : Type ℓ} → List (List A) → ℕ → A → Option (List (List A))
push_at [] i x = none
push_at (row ∷ rows) zero x = some ((row ++ x ∷ []) ∷ rows)
push_at (row ∷ rows) (suc i) x = elim (push_at rows i x) [
  | none ↦ none
  | some pushed ↦ some (row ∷ pushed)
]

-- The reference to the edge that was pushed last, and the tables with it filed.
abbrev pub last_ref : List (List Edge) → Edge → EdgeRef
last_ref adjacency e = record {
  from = e.from;
  edge_idx = length (or_default (get_elem? adjacency e.from)) - 1;
}

abbrev pub file_ref :
    Tables → (pool_id : ℕ) → Edge → List (List Edge) → List (List EdgeRef) → Tables
file_ref t pool_id e adjacency reverse_adj =
    let edge_ref = last_ref adjacency e in
    record {
      adjacency = adjacency;
      reverse_adj = reverse_adj;
      pool_to_edges =
          insert pool_id (or_default (lookup pool_id t.pool_to_edges) ++ edge_ref ∷ [])
            t.pool_to_edges;
      pair_to_edges =
          insert_pair (e.from, e.to)
            (or_default (lookup_pair (e.from, e.to) t.pair_to_edges) ++ edge_ref ∷ [])
            t.pair_to_edges;
    }

unfoldable pub push_edge : Tables → (pool_id : ℕ) → Edge → Option Tables
push_edge t pool_id e = elim (push_at t.adjacency e.from e) [
  | none ↦ none
  | some adjacency ↦ elim (push_at t.reverse_adj e.to (last_ref adjacency e)) [
    | none ↦ none
    | some reverse_adj ↦ some (file_ref t pool_id e adjacency reverse_adj)
  ]
]

unfoldable pub push_edges : Tables → (pool_id : ℕ) → List Edge → Option Tables
push_edges t pool_id [] = some t
push_edges t pool_id (e ∷ es) = elim (push_edge t pool_id e) [
  | none ↦ none
  | some pushed ↦ push_edges pushed pool_id es
]

unfoldable pub push_pools : SpotRates → Map ℕ → Map PoolState → Tables → Option Tables
push_pools rates indices [] t = some t
push_pools rates indices ((key, pool) ∷ pools) t =
    elim (push_edges t pool.pool_id (build_edges_for_pool rates pool indices)) [
      | none ↦ none
      | some pushed ↦ push_pools rates indices pools pushed
    ]

abbrev pub empty_tables : ℕ → Tables
empty_tables n = record {
  adjacency = replicate n [];
  reverse_adj = replicate n [];
  pool_to_edges = [];
  pair_to_edges = [];
}

abbrev pub snapshot_of :
    ℕ → Option BlockRef → List TokenInfo → Map PoolState → Tables → GraphSnapshot
snapshot_of snapshot_id block_ref tokens pools t = record {
  snapshot_id = snapshot_id;
  block_ref = block_ref;
  tokens = tokens;
  token_to_index = index_tokens 0 tokens [];
  stable_token_indices = positions (λ token. token.is_stable) 0 tokens;
  cycle_anchor_indices = positions (λ token. token.is_cycle_anchor) 0 tokens;
  adjacency = t.adjacency;
  reverse_adj = t.reverse_adj;
  pools = pools;
  pool_to_edges = t.pool_to_edges;
  pair_to_edges = t.pair_to_edges;
}

unfoldable pub build :
    SpotRates → ℕ → Option BlockRef → List TokenInfo → Map PoolState → Option GraphSnapshot
build rates snapshot_id block_ref tokens pools =
    elim (push_pools rates (index_tokens 0 tokens []) pools (empty_tables (length tokens))) [
      | none ↦ none
      | some t ↦ some (snapshot_of snapshot_id block_ref tokens pools t)
    ]
