-- ===== src/Router/Pair.antt =====
-- src/router/split_optimizer.rs: `optimize_pair` as a whole.
use dex_arbitrage.Prelude.{
  ℕ, ◌/◌, ◌≤◌, arith, not, none, some, List, [], ◌∷◌, if◌then◌else◌, length, max, u128_max,
  Bool-cases, Option-cases, inl, inr, take,
}
use dex_arbitrage.Prelude.Sorting.{length-take-le}
use dex_arbitrage.Types.{EdgeRef}
use dex_arbitrage.Graph.{GraphSnapshot, pair_edges}
use dex_arbitrage.Router.Limits.{should_split}
use dex_arbitrage.Router.Split.{
  SplitOptimizer, Quotes, Outcome, plans, failed, panicked, out_of_fuel, Looped, ended, erred,
  starved, ranked_pair_edges,
}
use dex_arbitrage.Router.V2Split.{Solved, unsolved, solved, out_of_bounds, optimal_v2_allocations}
use dex_arbitrage.Router.V2Totals.{GuessesFit, Shares, optimal_v2_allocations-Shares}
use dex_arbitrage.Router.Optimize.{
  materialize_allocations_with_quotes, single_jobs, best_of, single_best, split_greedily,
  split_pools, optimize_pair,
}
use dex_arbitrage.Router.Sums.{used}
use dex_arbitrage.Router.Greedy.{Reorders}
use dex_arbitrage.Router.Slices.{Ends, greedy-enough}
use dex_arbitrage.Router.Plans.{Splits, materialize_allocations-Splits}

used-length : (xs : List ℕ) → used xs ≤ length xs
used-length [] = omega arith
used-length (x ∷ xs) = ground (arith, used-length xs)

module _ (o : SplitOptimizer) (q : Quotes) (g : GraphSnapshot) (token_in token_out total_in : ℕ)
    (bps : o.split_min_output_bps ≤ 10_000) (parallel : 1 ≤ o.max_parallel_pools)
    (arrival : Reorders q)
    (fit : GuessesFit q.f64 g token_in token_out total_in o.max_parallel_pools)
    (bounded : total_in ≤ u128_max) where
  abbrev Spl : Outcome → Type 0
  Spl = Splits token_in token_out total_in o.max_parallel_pools

  none-Spl : Spl (plans [] 0)
  none-Spl = record {
    amounts = omega arith;
    count = omega arith;
    good = tt;
    sorted = tt;
    output = omega arith;
  }

  split_greedily-Spl :
      (refs : List EdgeRef)
      → Spl (split_greedily o q g token_in token_out refs total_in (max (total_in / 8) 1))
  unfolding split_greedily
  split_greedily-Spl refs =
      after _ (greedy-enough o q g token_in token_out refs total_in arrival bounded)
    where
      after :
          (l : Looped)
          → Ends o q g token_in token_out refs total_in arrival bounded l
          → Spl (elim l [
            | ended a ↦
                materialize_allocations_with_quotes o q g token_in token_out refs a.allocations
                  (some a.quoted_outputs)
            | erred ↦ failed
            | starved ↦ out_of_fuel
          ])
      after (ended a) h =
          materialize_allocations-Splits o q g token_in token_out bps refs (some a.quoted_outputs)
            total_in o.max_parallel_pools a.allocations (omega (arith, h.size))
            (omega (arith, h.adds, h.within)) (omega (arith, h.counted, h.few))
      after erred h = tt
      after starved h = absurd h

  single_best-Spl : (refs : List EdgeRef) → Spl (single_best o q g token_in token_out refs total_in)
  unfolding single_best
  single_best-Spl refs =
      elim (Option-cases (
        best_of o q g token_in token_out total_in
          (q.arrive (EdgeRef × ℕ) (single_jobs o q g token_in token_out total_in refs)) none)) [
            | inl e ↦ rw (single_best, e) tt
            | inr (best, e) ↦ elim (Option-cases best) [
              | inl k ↦ rw (single_best, e, k) none-Spl
              | inr (b, k) ↦
                  rw (single_best, e, k)
                    (materialize_allocations-Splits o q g token_in token_out bps (b.0 ∷ [])
                      (some (b.1 ∷ [])) total_in o.max_parallel_pools (total_in ∷ []) (omega arith)
                      (omega arith) (ground arith))
            ]
          ]

  split_pools-Spl :
      (refs : List EdgeRef)
      → Spl (split_pools o q g token_in token_out refs total_in (max (total_in / 8) 1))
  unfolding split_pools
  split_pools-Spl refs =
      let v2_refs = take o.max_parallel_pools refs in
      let few = length-take-le o.max_parallel_pools refs in
      by_solution (optimal_v2_allocations q.f64 g v2_refs token_in token_out total_in) (
        optimal_v2_allocations-Shares q.f64 g v2_refs token_in token_out total_in
          o.max_parallel_pools fit few bounded)
    where
      taken :
          (out : Outcome)
          → Spl out
          → Spl (elim out [
            | plans [] total_out ↦
                split_greedily o q g token_in token_out refs total_in (max (total_in / 8) 1)
            | plans (p ∷ ps) total_out ↦ plans (p ∷ ps) total_out
            | failed ↦ failed
            | panicked ↦ panicked
            | out_of_fuel ↦ out_of_fuel
          ])
      taken (plans [] total_out) h = split_greedily-Spl refs
      taken (plans (p ∷ ps) total_out) h = h
      taken failed h = h
      taken panicked h = h
      taken out_of_fuel h = h

      by_solution :
          (s : Solved)
          → Shares (length (take o.max_parallel_pools refs)) total_in s
          → Spl (elim s [
            | unsolved ↦
                split_greedily o q g token_in token_out refs total_in (max (total_in / 8) 1)
            | out_of_bounds ↦ panicked
            | solved allocations ↦
                elim (materialize_allocations_with_quotes o q g token_in token_out
                  (take o.max_parallel_pools refs)
                  allocations
                  none) [
                    | plans [] total_out ↦
                        split_greedily o q g token_in token_out refs total_in (max (total_in / 8) 1)
                    | plans (p ∷ ps) total_out ↦ plans (p ∷ ps) total_out
                    | failed ↦ failed
                    | panicked ↦ panicked
                    | out_of_fuel ↦ out_of_fuel
                  ]
          ])
      by_solution unsolved w = split_greedily-Spl refs
      by_solution out_of_bounds w = absurd w
      by_solution (solved allocations) w =
          let v2_refs = take o.max_parallel_pools refs in
          let short : length v2_refs ≤ o.max_parallel_pools =
            length-take-le o.max_parallel_pools refs in
          taken _ (
            materialize_allocations-Splits o q g token_in token_out bps v2_refs none total_in
              o.max_parallel_pools allocations (omega (arith, w.0)) (omega (arith, w.1))
              (omega (arith, used-length allocations, w.0, short)))

-- Where the answers to the jobs arrive in some order, the share of the output to insist on is at most
-- the whole, at least one pool is allowed, the input is a u128, and the amounts that the bisection
-- guesses for at most `max_parallel_pools` V2 pools, before they are rebalanced, add up to a u128,
-- `optimize_pair` ends, with 16 rounds for its loop, with no index out of bounds, in an error of a
-- quote or in splits: each pays something in and expects something out, of which it asks for no more;
-- together they pay in at most the input, over at most `max_parallel_pools` pools; the best comes
-- first; and the output is the sum of what they expect, or the largest u128 if that is less.
pub optimize_pair-Splits :
    (o : SplitOptimizer) (q : Quotes) (g : GraphSnapshot) (token_in token_out total_in : ℕ)
    → o.split_min_output_bps ≤ 10_000
    → 1 ≤ o.max_parallel_pools
    → Reorders q
    → GuessesFit q.f64 g token_in token_out total_in o.max_parallel_pools
    → total_in ≤ u128_max
    → Splits token_in token_out total_in o.max_parallel_pools
        (optimize_pair o q g token_in token_out total_in)
unfolding optimize_pair
optimize_pair-Splits o q g token_in token_out total_in bps parallel arrival fit bounded =
    over (ranked_pair_edges g (pair_edges g token_in token_out) o.pair_edge_scan_limit total_in)
  where
    over :
        (refs : List EdgeRef)
        → Splits token_in token_out total_in o.max_parallel_pools (elim refs [
          | [] ↦ plans [] 0
          | r ∷ rest ↦
              if not (should_split (length (r ∷ rest)) total_in (max (total_in / 8) 1))
              then single_best o q g token_in token_out (r ∷ rest) total_in
              else split_pools o q g token_in token_out (r ∷ rest) total_in (max (total_in / 8) 1)
        ])
    over [] = none-Spl o q g token_in token_out total_in bps parallel arrival fit bounded
    over (r ∷ rest) =
        elim (Bool-cases (should_split (length (r ∷ rest)) total_in (max (total_in / 8) 1))) [
          | inl e ↦ rw e (
              split_pools-Spl o q g token_in token_out total_in bps parallel arrival fit bounded
                (r ∷ rest))
          | inr e ↦ rw e (
              single_best-Spl o q g token_in token_out total_in bps parallel arrival fit bounded
                (r ∷ rest))
        ]
