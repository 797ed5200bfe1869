-- ===== src/Router/Split.antt =====
-- src/router/split_optimizer.rs: the split of an input over the pools of a pair.
use Prim.Native.Nat.{compare, Ordering}
use dex_arbitrage.Prelude.{
  ℕ, zero, suc, ◌+◌, ◌-◌, ◌/◌, ◌==◌, ltb, leb, Bool, true, false, ◌||◌, ◌&&◌, Option, none, some,
  List, [], ◌∷◌, ◌++◌, if◌then◌else◌, get_elem?, set, length, take, min, max, saturating_add,
  u128_max,
}
use dex_arbitrage.Prelude.Int.{pos}
use dex_arbitrage.Prelude.Sorting.{compare_ℤ, then_with, sort_by}
use dex_arbitrage.Types.{
  AmmKind, AdapterType, Edge, EdgeRef, PoolSpecificState, PoolState, SplitExtra, SplitPlan,
}
use dex_arbitrage.Graph.{GraphSnapshot, edge, pool}
use dex_arbitrage.Router.Float.{F64}
use dex_arbitrage.Router.Limits.{sqrt_price_limit_x96}

pub record SplitOptimizer : Type 0 where
  pub max_parallel_pools : ℕ
  pub pair_edge_scan_limit : ℕ
  pub split_min_output_bps : ℕ

-- A pair of optional edges: a missing one comes last.
abbrev compare_found : Option Edge → Option Edge → (Edge → Edge → Ordering) → Ordering
compare_found (some a) (some b) cmp = cmp a b
compare_found (some a) none cmp = Ordering.lt
compare_found none (some b) cmp = Ordering.gt
compare_found none none cmp = Ordering.eq

unfoldable pub compare_edge_refs_for_price : GraphSnapshot → EdgeRef → EdgeRef → Ordering
compare_edge_refs_for_price g left right = compare_found (edge g left) (edge g right) (λ a b.
    then_with (compare_ℤ a.weight_log_q32 b.weight_log_q32) (
      then_with (compare b.liquidity.safe_capacity_in a.liquidity.safe_capacity_in)
        (compare a.pool_id b.pool_id)))

-- `false` before `true`.
abbrev compare_bool : Bool → Bool → Ordering
compare_bool false true = Ordering.lt
compare_bool true false = Ordering.gt
compare_bool true true = Ordering.eq
compare_bool false false = Ordering.eq

unfoldable pub compare_edge_refs_for_capacity :
    GraphSnapshot → (target_input : ℕ) → EdgeRef → EdgeRef → Ordering
compare_edge_refs_for_capacity g target_input left right =
    compare_found (edge g left) (edge g right) (λ a b.
      then_with
        (compare_bool (ltb 0 target_input && leb target_input b.liquidity.safe_capacity_in)
          (ltb 0 target_input && leb target_input a.liquidity.safe_capacity_in))
        (then_with (compare b.liquidity.safe_capacity_in a.liquidity.safe_capacity_in)
          (then_with (compare_ℤ a.weight_log_q32 b.weight_log_q32) (compare a.pool_id b.pool_id))))

unfoldable pub has_ref : List EdgeRef → EdgeRef → Bool
has_ref [] r = false
has_ref (first ∷ rest) r = (first.from == r.from && first.edge_idx == r.edge_idx) || has_ref rest r

unfoldable pub push_unique : List EdgeRef → (refs : List EdgeRef) → (max_edges : ℕ) → List EdgeRef
push_unique out [] max_edges = out
push_unique out (r ∷ refs) max_edges =
    let with_it = push_unique (out ++ r ∷ []) refs max_edges in
    let without = push_unique out refs max_edges in
    if leb max_edges (length out) then out else if has_ref out r then without else with_it

unfoldable pub ranked_pair_edges :
    GraphSnapshot → List EdgeRef → (max_edges target_input : ℕ) → List EdgeRef
ranked_pair_edges g refs max_edges target_input =
    let bound = max max_edges 1 in
    let by_price = sort_by (compare_edge_refs_for_price g) refs in
    let cheap = push_unique [] (take ((bound + 1) / 2) by_price) bound in
    let by_capacity = sort_by (compare_edge_refs_for_capacity g target_input) refs in
    sort_by (compare_edge_refs_for_price g) (push_unique cheap by_capacity bound)

-- `AdapterType::from`
unfoldable pub adapter_from : AmmKind → AdapterType
adapter_from AmmKind.uniswap_v2_like = AdapterType.uniswap_v2_like
adapter_from AmmKind.aerodrome_v2_like = AdapterType.aerodrome_v2_like
adapter_from AmmKind.uniswap_v3_like = AdapterType.uniswap_v3_like
adapter_from AmmKind.trader_joe_lb = AdapterType.trader_joe_lb
adapter_from AmmKind.curve_plain = AdapterType.curve_plain
adapter_from AmmKind.balancer_weighted = AdapterType.balancer_weighted

unfoldable pub position : (idx : ℕ) → List ℕ → (token : ℕ) → Option ℕ
position idx [] token = none
position idx (first ∷ rest) token =
    if first == token then some idx else position (suc idx) rest token

abbrev is_first : List ℕ → ℕ → Bool
is_first [] token = false
is_first (first ∷ rest) token = first == token

-- `none` where a Curve pool lacks a token, and the split is skipped.
unfoldable pub extra_of : (limit_bps : ℕ) → PoolState → (token_in token_out : ℕ) → Option SplitExtra
extra_of limit_bps p token_in token_out = elim p.state [
  | PoolSpecificState.uniswap_v2_like state ↦ some (SplitExtra.v2 state.fee_ppm)
  | PoolSpecificState.aerodrome_v2_like state ↦
      some (SplitExtra.aerodrome_v2 state.stable state.fee_ppm)
  | PoolSpecificState.uniswap_v3_like state ↦
      let zero_for_one = is_first p.token_addresses token_in in
      some (
        SplitExtra.v3 zero_for_one
          (sqrt_price_limit_x96 limit_bps state.sqrt_price_x96 zero_for_one))
  | PoolSpecificState.trader_joe_lb state ↦ some SplitExtra.trader_joe_lb
  | PoolSpecificState.curve_plain state ↦ elim (position 0 p.token_addresses token_in) [
    | none ↦ none
    | some i ↦ elim (position 0 p.token_addresses token_out) [
      | none ↦ none
      | some j ↦ some (SplitExtra.curve (pos i) (pos j) state.supports_underlying)
    ]
  ]
  | PoolSpecificState.balancer_weighted state ↦ some (SplitExtra.balancer state.pool_id)
]

abbrev pub is_trader_joe : PoolSpecificState → Bool
is_trader_joe (PoolSpecificState.trader_joe_lb state) = true
is_trader_joe _ = false

-- What the split reads: the quotes of the pools (`none` is an error), which do not change meanwhile,
-- the order in which the answers to a list of jobs arrive, the operations on f64 that the allocations
-- over V2 pools are computed with, and the environment's basis points.
pub record Quotes : Type 1 where
  pub quote_pool : PoolState → (token_in token_out amount_in : ℕ) → Option ℕ
  pub arrive : (A : Type 0) → List A → List A
  pub Number : Type 0
  pub f64 : F64 Number
  pub limit_bps : ℕ

-- The answer of the optimizer. `panicked` is an index out of bounds.
pub data Outcome : Type 0 where
  plans : List SplitPlan → (total_out : ℕ) → Outcome
  failed : Outcome
  panicked : Outcome
  out_of_fuel : Outcome

pub record Allocation : Type 0 where
  pub allocations : List ℕ
  pub quoted_outputs : List ℕ
  pub assigned : ℕ
  pub active_allocations : ℕ

pub record Job : Type 0 where
  pub idx : ℕ
  pub pool_id : ℕ
  pub amount : ℕ

pub record Quoted : Type 0 where
  pub job : Job
  pub marginal : ℕ
  pub total_quote : ℕ

-- `list[idx]`, of a list that is known to be long enough.
abbrev pub at : List ℕ → ℕ → ℕ
at xs idx = elim (get_elem? xs idx) [ none ↦ 0 | some x ↦ x ]

-- How the loop ends; `starved` has no fuel left.
pub data Looped : Type 0 where
  ended : Allocation → Looped
  erred : Looped
  starved : Looped

module _ (o : SplitOptimizer) (q : Quotes) (g : GraphSnapshot) (token_in token_out : ℕ) where
  -- The pools that may take one more slice.
  unfoldable pub quote_jobs : Allocation → (slice idx : ℕ) → List EdgeRef → List Job
  quote_jobs a slice idx [] = []
  quote_jobs a slice idx (r ∷ refs) =
      let rest = quote_jobs a slice (suc idx) refs in
      let amount = saturating_add u128_max (at a.allocations idx) slice in
      if at a.allocations idx == 0 && leb o.max_parallel_pools a.active_allocations
      then rest
      else elim (edge g r) [
        | none ↦ rest
        | some e ↦
            if ltb 0 e.liquidity.safe_capacity_in && ltb e.liquidity.safe_capacity_in amount
            then rest
            else record { idx = idx; pool_id = e.pool_id; amount = amount } ∷ rest
      ]

  -- A pool that the snapshot lacks gives nothing.
  abbrev pub quote_job : (pool_id amount : ℕ) → Option ℕ
  quote_job pool_id amount = elim (pool g pool_id) [
    | none ↦ some 0
    | some p ↦ q.quote_pool p token_in token_out amount
  ]

  -- The answers as they arrive, up to the first error.
  unfoldable pub rank : Allocation → List Job → Option (List Quoted)
  rank a [] = some []
  rank a (j ∷ jobs) = elim (quote_job j.pool_id j.amount) [
    | none ↦ none
    | some total ↦ elim (rank a jobs) [
      | none ↦ none
      | some rest ↦ some (
          record { job = j; marginal = total - at a.quoted_outputs j.idx; total_quote = total }
          ∷ rest)
    ]
  ]

  abbrev pub assign : Allocation → (slice : ℕ) → Quoted → Allocation
  assign a slice w = record {
    allocations =
        set a.allocations w.job.idx (saturating_add u128_max (at a.allocations w.job.idx) slice);
    quoted_outputs = set a.quoted_outputs w.job.idx w.total_quote;
    assigned = saturating_add u128_max a.assigned slice;
    active_allocations =
        if at a.allocations w.job.idx == 0 then a.active_allocations + 1 else a.active_allocations;
  }

  -- `while assigned < total_in`
  unfoldable pub greedy : (fuel total_in min_slice : ℕ) → List EdgeRef → Allocation → Looped
  greedy zero total_in min_slice refs a = if ltb a.assigned total_in then starved else ended a
  greedy (suc fuel) total_in min_slice refs a =
      let slice = min (total_in - a.assigned) min_slice in
      if ltb a.assigned total_in
      then elim (rank a (q.arrive Job (quote_jobs a slice 0 refs))) [
        | none ↦ erred
        | some ranked ↦ elim (sort_by (λ x y. compare y.marginal x.marginal) ranked) [
          | [] ↦ ended a
          | w ∷ rest ↦ elim (w.marginal == 0) [
            | true ↦ ended a
            | false ↦ greedy fuel total_in min_slice refs (assign a slice w)
          ]
        ]
      ]
      else ended a
