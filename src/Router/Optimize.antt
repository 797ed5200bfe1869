-- ===== src/Router/Optimize.antt =====
-- src/router/split_optimizer.rs: `optimize_pair` and what becomes of the allocations.
use Prim.Native.Nat.{compare, Ordering}
use dex_arbitrage.Prelude.{
  ℕ, suc, ◌/◌, ◌==◌, ltb, Bool, true, false, ◌&&◌, not, Option, none, some, List, [], ◌∷◌, ◌++◌,
  if◌then◌else◌, get_elem?, replicate, length, take, max, saturating_add, saturating_mul, u128_max,
}
use dex_arbitrage.Prelude.Sorting.{then_with, sort_by}
use dex_arbitrage.Types.{EdgeRef, PoolState, SplitPlan}
use dex_arbitrage.Graph.{GraphSnapshot, edge, pool, pair_edges}
use dex_arbitrage.Router.Limits.{should_split}
use dex_arbitrage.Router.V2Split.{unsolved, solved, out_of_bounds, optimal_v2_allocations}
use dex_arbitrage.Router.Split.{
  SplitOptimizer, Quotes, Outcome, plans, failed, panicked, out_of_fuel, ended, erred, starved,
  greedy, ranked_pair_edges, adapter_from, extra_of, is_trader_joe, quote_job,
}

-- The plan for one allocation.
pub data Made : Type 0 where
  skipped : Made
  made : SplitPlan → Made
  refused : Made

abbrev pub by_output : SplitPlan → SplitPlan → Ordering
by_output a b =
    then_with (compare b.expected_amount_out a.expected_amount_out) (compare a.pool_id b.pool_id)

-- `expected_outputs.and_then(|outputs| outputs.get(idx))`, where it is above 0.
abbrev pub known_output : Option (List ℕ) → ℕ → Option ℕ
known_output none idx = none
known_output (some outputs) idx = elim (get_elem? outputs idx) [
  | none ↦ none
  | some expected ↦ if ltb 0 expected then some expected else none
]

abbrev pub first_of {ℓ} : {A : Type ℓ} → Option A → Option A → Option A
first_of none other = other
first_of (some x) other = some x

module _ (o : SplitOptimizer) (q : Quotes) (g : GraphSnapshot) (token_in token_out : ℕ) where
  unfoldable pub make_plan : PoolState → (allocation expected : ℕ) → Made
  make_plan p allocation expected =
      if expected == 0 then skipped else elim (extra_of q.limit_bps p token_in token_out) [
        | none ↦ skipped
        | some extra ↦ made (record {
          dex_name = p.dex_name;
          pool_id = p.pool_id;
          adapter_type = adapter_from p.kind;
          token_in = token_in;
          token_out = token_out;
          amount_in = allocation;
          min_amount_out =
              if is_trader_joe p.state
              then 0
              else saturating_mul u128_max expected o.split_min_output_bps / 10_000;
          expected_amount_out = expected;
          extra = extra;
        })
      ]

  unfoldable pub plan_of : EdgeRef → (allocation : ℕ) → (known : Option ℕ) → Made
  plan_of r allocation known = elim (edge g r) [
    | none ↦ skipped
    | some e ↦ elim (pool g e.pool_id) [
      | none ↦ skipped
      | some p ↦ elim (first_of known (q.quote_pool p token_in token_out allocation)) [
        | none ↦ refused
        | some expected ↦ make_plan p allocation expected
      ]
    ]
  ]

  -- The loop over the allocations, and the sorting at its end.
  unfoldable pub materialize :
      List EdgeRef
      → (expected_outputs : Option (List ℕ)) → (idx : ℕ) → (allocations : List ℕ) → List SplitPlan
      → (total_out : ℕ) → Outcome
  materialize refs expected_outputs idx [] done total_out = plans (sort_by by_output done) total_out
  materialize refs expected_outputs idx (allocation ∷ rest) done total_out =
      elim (allocation == 0) [
        | true ↦ materialize refs expected_outputs (suc idx) rest done total_out
        | false ↦ elim (get_elem? refs idx) [
          | none ↦ panicked
          | some r ↦ elim (plan_of r allocation (known_output expected_outputs idx)) [
            | skipped ↦ materialize refs expected_outputs (suc idx) rest done total_out
            | refused ↦ failed
            | made p ↦
                materialize refs expected_outputs (suc idx) rest (done ++ p ∷ [])
                  (saturating_add u128_max total_out p.expected_amount_out)
          ]
        ]
      ]

  unfoldable pub materialize_allocations_with_quotes :
      List EdgeRef → (allocations : List ℕ) → (expected_outputs : Option (List ℕ)) → Outcome
  materialize_allocations_with_quotes refs allocations expected_outputs =
      materialize refs expected_outputs 0 allocations [] 0

  unfoldable pub single_jobs : (total_in : ℕ) → List EdgeRef → List (EdgeRef × ℕ)
  single_jobs total_in [] = []
  single_jobs total_in (r ∷ refs) =
      let rest = single_jobs total_in refs in
      elim (edge g r) [
        | none ↦ rest
        | some e ↦
            if ltb 0 e.liquidity.safe_capacity_in && ltb e.liquidity.safe_capacity_in total_in
            then rest
            else (r, e.pool_id) ∷ rest
      ]

  -- `quote > *out`, or no best yet.
  abbrev beats : Option (EdgeRef × ℕ) → ℕ → Bool
  beats none quote = true
  beats (some best) quote = ltb best.1 quote

  -- The first of the best answers, as they arrive; `none` is an error.
  unfoldable pub best_of :
      (total_in : ℕ) → List (EdgeRef × ℕ) → Option (EdgeRef × ℕ) → Option (Option (EdgeRef × ℕ))
  best_of total_in [] best = some best
  best_of total_in (job ∷ jobs) best = elim (quote_job o q g token_in token_out job.1 total_in) [
    | none ↦ none
    | some quote ↦
        best_of total_in jobs
          (if ltb 0 quote && beats best quote then some (job.0, quote) else best)
  ]

  unfoldable pub single_best : List EdgeRef → (total_in : ℕ) → Outcome
  single_best refs total_in =
      elim (best_of total_in (q.arrive (EdgeRef × ℕ) (single_jobs total_in refs)) none) [
        | none ↦ failed
        | some none ↦ plans [] 0
        | some (some best) ↦
            materialize_allocations_with_quotes (best.0 ∷ []) (total_in ∷ []) (some (best.1 ∷ []))
      ]

  -- A round takes an eighth of the input or all that is left, so that sixteen are enough.
  unfoldable pub split_greedily : List EdgeRef → (total_in min_slice : ℕ) → Outcome
  split_greedily refs total_in min_slice =
      elim (greedy o q g token_in token_out 16 total_in min_slice refs (record {
        allocations = replicate (length refs) 0;
        quoted_outputs = replicate (length refs) 0;
        assigned = 0;
        active_allocations = 0;
      })) [
        | ended a ↦ materialize_allocations_with_quotes refs a.allocations (some a.quoted_outputs)
        | erred ↦ failed
        | starved ↦ out_of_fuel
      ]

  -- The allocations over V2 pools are taken unless no plan comes of them.
  unfoldable pub split_pools : List EdgeRef → (total_in min_slice : ℕ) → Outcome
  split_pools refs total_in min_slice =
      let v2_refs = take o.max_parallel_pools refs in
      elim (optimal_v2_allocations q.f64 g v2_refs token_in token_out total_in) [
        | unsolved ↦ split_greedily refs total_in min_slice
        | out_of_bounds ↦ panicked
        | solved allocations ↦ elim (materialize_allocations_with_quotes v2_refs allocations none) [
          | plans [] total_out ↦ split_greedily refs total_in min_slice
          | plans (p ∷ ps) total_out ↦ plans (p ∷ ps) total_out
          | failed ↦ failed
          | panicked ↦ panicked
          | out_of_fuel ↦ out_of_fuel
        ]
      ]

  unfoldable pub optimize_pair : (total_in : ℕ) → Outcome
  optimize_pair total_in =
      let refs =
        ranked_pair_edges g (pair_edges g token_in token_out) o.pair_edge_scan_limit total_in in
      let min_slice = max (total_in / 8) 1 in
      elim refs [
        | [] ↦ plans [] 0
        | r ∷ rest ↦
            if not (should_split (length (r ∷ rest)) total_in min_slice)
            then single_best (r ∷ rest) total_in
            else split_pools (r ∷ rest) total_in min_slice
      ]
