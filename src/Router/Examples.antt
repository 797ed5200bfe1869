-- ===== src/Router/Examples.antt =====
-- The split of 80 units over two pools that pay half of what comes in.
use dex_arbitrage.Prelude.{
  keep, false, ℕ, ◌/◌, ◌≡◌, refl, arith, true, none, some, List, [], ◌∷◌, map, saturating_mul,
  saturating_add,
}
use dex_arbitrage.Prelude.Map.{lookup, insert, remove}
use dex_arbitrage.Types.{SplitPlan}
use dex_arbitrage.Graph.{
  GraphSnapshot, edge, pool, pair_edges, token_index, lookup_pair, insert_pair,
}
use dex_arbitrage.Graph.Build.{
  build, push_pools, push_edges, push_edge, push_at, build_edges_for_pool, build_two_token_edges,
  two_edges, index_tokens, positions,
}
use dex_arbitrage.Graph.Sample.{rates, tokens, pool_at, built_or_empty}
use dex_arbitrage.Router.Limits.{
  sqrt_price_limit_u160, sqrt_price_limit_x96, Limits, sqrt_price_limit_u160-Limits,
  u160_saturating_from_u256, should_split,
}
use dex_arbitrage.Router.Split.{
  SplitOptimizer, Quotes, Outcome, plans, failed, panicked, out_of_fuel,
  compare_edge_refs_for_price, compare_edge_refs_for_capacity, has_ref, push_unique,
  ranked_pair_edges, adapter_from, position, extra_of, quote_jobs, rank, greedy,
}
use dex_arbitrage.Router.V2Legs.{
  zero_for_one_of, from_state, marginal_at, allocation_at_marginal, capacity_remaining,
  f64_to_u128_saturating, leg_at, legs_of,
}
use dex_arbitrage.Router.V2Split.{
  sum_u128, any_above_zero, remove_excess, marginals, add_remaining, without_excess, with_remaining,
  rebalance_to_total, finite_capacity_sum, highest_marginal, total_at, bisect, guess, guesses,
  solve_many, solve_allocations, optimal_v2_allocations,
}
use dex_arbitrage.Router.V2Examples.{fixed, fixed-GuessesFit}
use dex_arbitrage.Router.Optimize.{
  optimize_pair, make_plan, plan_of, materialize, materialize_allocations_with_quotes, single_jobs,
  best_of, single_best, split_greedily, split_pools,
}
use dex_arbitrage.Prelude.Sorting.{sort_by, insert_by}
use dex_arbitrage.Router.Plans.{Splits}
use dex_arbitrage.Router.QuoteCache.{
  QuoteKey, QuoteCache, get, touch, insert_quote, with_room, insert_in, insert_key, remove_key,
  lookup_key, evict, evict_old_segments, oldest_of,
}
use dex_arbitrage.Router.QuoteHistory.{Call, ask, put, run, remembered, Remembers, run_lem}
use dex_arbitrage.Router.Pair.{optimize_pair-Splits}

abbrev graph : GraphSnapshot
graph = built_or_empty (build rates 1 none tokens ((50, pool_at 50) ∷ (51, pool_at 51) ∷ []))

abbrev optimizer : SplitOptimizer
optimizer = record {
  max_parallel_pools = 2;
  pair_edge_scan_limit = 4;
  split_min_output_bps = 9_950;
}

abbrev quotes : Quotes
quotes = record {
  quote_pool = λ p token_in token_out amount_in. some (amount_in / 2);
  arrive = λ A jobs. jobs;
  Number = ℕ;
  f64 = fixed;
  limit_bps = 200;
}

optimize_pair-Splits_example : Splits 11 12 16 2 (optimize_pair optimizer quotes graph 11 12 16)
optimize_pair-Splits_example =
    optimize_pair-Splits optimizer quotes graph 11 12 16 (omega arith) (omega arith)
      (λ A P jobs all. all) (fixed-GuessesFit graph 11 12 16) (omega arith)

sqrt_price_limit_u160-Limits_example :
    Limits 1_000_000_000_000 (sqrt_price_limit_u160 200 1_000_000_000_000 true) true
    × (sqrt_price_limit_u160 200 1_000_000_000_000 true
        ≡ sqrt_price_limit_x96 200 1_000_000_000_000 true)
sqrt_price_limit_u160-Limits_example =
    sqrt_price_limit_u160-Limits 200 1_000_000_000_000 true (omega arith) (omega arith)
      (omega arith)

abbrev paid : Outcome → List (ℕ × ℕ)
paid (plans ps total_out) = map (λ (p : SplitPlan). (p.amount_in, p.expected_amount_out)) ps
paid failed = []
paid panicked = []
paid out_of_fuel = []

-- The two pools are alike, and each takes the 8 units that its capacity of 9 allows.
two_splits : paid (optimize_pair optimizer quotes graph 11 12 16) ≡ (8, 4) ∷ (8, 4) ∷ []
unfolding sort_by insert_by saturating_mul saturating_add edge pool pair_edges token_index
    lookup_pair insert_pair lookup insert build push_pools push_edges push_edge push_at
    build_edges_for_pool build_two_token_edges two_edges index_tokens positions sqrt_price_limit_x96
    u160_saturating_from_u256 sqrt_price_limit_u160 should_split compare_edge_refs_for_price
    compare_edge_refs_for_capacity has_ref push_unique ranked_pair_edges adapter_from position
    extra_of quote_jobs rank greedy make_plan plan_of materialize
    materialize_allocations_with_quotes single_jobs best_of single_best split_greedily split_pools
    optimize_pair sum_u128 zero_for_one_of any_above_zero remove_excess from_state marginal_at
    allocation_at_marginal capacity_remaining f64_to_u128_saturating marginals add_remaining
    without_excess with_remaining rebalance_to_total finite_capacity_sum highest_marginal total_at
    bisect guess guesses solve_many solve_allocations leg_at legs_of optimal_v2_allocations
two_splits = refl

-- Without a finite marginal output the loop over slices finds the same splits.
sliced :
    paid (
      optimize_pair optimizer
        (record quotes { f64 = record fixed { is_finite = λ x. false } })
        graph
        11
        12
        16)
    ≡ (8, 4) ∷ (8, 4) ∷ []
unfolding sort_by insert_by saturating_mul saturating_add edge pool pair_edges token_index
    lookup_pair insert_pair lookup insert build push_pools push_edges push_edge push_at
    build_edges_for_pool build_two_token_edges two_edges index_tokens positions sqrt_price_limit_x96
    u160_saturating_from_u256 sqrt_price_limit_u160 should_split compare_edge_refs_for_price
    compare_edge_refs_for_capacity has_ref push_unique ranked_pair_edges adapter_from position
    extra_of quote_jobs rank greedy make_plan plan_of materialize
    materialize_allocations_with_quotes single_jobs best_of single_best split_greedily split_pools
    optimize_pair sum_u128 zero_for_one_of any_above_zero remove_excess from_state marginal_at
    allocation_at_marginal capacity_remaining f64_to_u128_saturating marginals add_remaining
    without_excess with_remaining rebalance_to_total finite_capacity_sum highest_marginal total_at
    bisect guess guesses solve_many solve_allocations leg_at legs_of optimal_v2_allocations
sliced = refl

abbrev key : ℕ → QuoteKey
key amount_in = record {
  snapshot_id = 1;
  pool_id = 50;
  token_in = 11;
  token_out = 12;
  amount_in = amount_in;
}

abbrev calls : List Call
calls = put (key 8) 4 ∷ put (key 9) 5 ∷ ask (key 8) ∷ put (key 10) 6 ∷ []

-- With room for two entries.
abbrev cache : QuoteCache
cache = run (record { max_segments = 1; max_entries_per_segment = 2; segments = [] }) calls

run_lem_example : Remembers cache (λ k. remembered none k calls)
run_lem_example = run_lem calls 1 2 (omega arith)

-- The entry that was asked for is newer than the one between.
answered : ((get (key 8) cache).0 ≡ some 4) × ((get (key 9) cache).0 ≡ none)
unfolding get touch insert_quote with_room insert_in insert_key remove_key lookup_key evict
    evict_old_segments oldest_of lookup insert remove keep
answered = (refl, refl)
