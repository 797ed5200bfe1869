-- ===== src/Detector.antt =====
-- src/detector/: the search for cycles through the edges that changed. The clock is read once, `now`;
-- the memo tables of `find_candidates` are left out, since with one clock they only repeat an answer.
pub mod Search
pub mod Outgoing
pub mod Walk
pub mod Routes
pub mod Candidate
pub mod Policy
pub mod Select
pub mod Chosen
pub mod Kept
pub mod Cycle
pub mod Find
pub mod SimpleCycle
pub mod Closed
pub mod Gathering
pub mod ChangedPairs
pub mod Cycles
pub mod Answer
mod Examples
use Prim.Native.Nat.{compare, Ordering}
use Prim.Native.String.{String}
use dex_arbitrage.Prelude.{
  ℕ, zero, suc, ◌+◌, ◌-◌, ◌*◌, ◌/◌, ◌^◌, Bool, true, false, ◌||◌, ◌&&◌, not, Option, none, some,
  List, [], ◌∷◌, ◌++◌, map, ◌==◌, ltb, leb, if◌then◌else◌, get_elem?, length, take, keep, min, max,
}
use dex_arbitrage.Prelude.Int.{ℤ, pos}
use dex_arbitrage.Prelude.Sorting.{compare_ℤ, then_with, is_lt, sort_by}
use dex_arbitrage.Prelude.Map.{Map, lookup, insert}
use dex_arbitrage.Types.{AmmKind, Edge, EdgeRef, TokenInfo, healthy}
use dex_arbitrage.Graph.{GraphSnapshot, edge, lookup_pair, or_default}

pub record SearchTuning : Type 0 where
  pub top_k_paths_per_side : ℕ
  pub max_virtual_branches_per_node : ℕ
  pub path_beam_width : ℕ
  pub max_candidates_per_refresh : ℕ
  pub candidate_selection_buffer_multiplier : ℕ
  pub dedup_token_paths : Bool
  pub max_pair_edges_per_pair : ℕ
  pub pool_variants_per_token_path : ℕ
  pub canonical_variants_per_cycle : ℕ
  pub anchor_variants_per_cycle : ℕ

-- `screening_cutoff_q32` is what `new` computes in f64.
pub record PathFinder : Type 0 where
  pub max_hops : ℕ
  pub screening_cutoff_q32 : ℤ
  pub min_pool_confidence_bps : ℕ
  pub staleness_timeout : ℕ
  pub min_trade_usd_e8 : ℕ
  pub tuning : SearchTuning

pub record SearchPath : Type 0 where
  pub edge_refs : List EdgeRef
  pub tokens : List ℕ
  pub score_q32 : ℤ
  pub capacity_hint : ℕ

-- What the search reads besides the snapshot: itself, the clock and the least trade of each token.
pub record View : Type 0 where
  pub finder : PathFinder
  pub now : ℕ
  pub min_trade_raw_by_token : List (Option ℕ)

-- A better edge first: `confidence_bps` and the capacity downwards, the weight upwards.
abbrev by_quality : Edge → Edge → Ordering
by_quality a b = then_with (compare b.pool_health.confidence_bps a.pool_health.confidence_bps) (
    then_with (compare b.liquidity.safe_capacity_in a.liquidity.safe_capacity_in)
      (compare_ℤ a.weight_log_q32 b.weight_log_q32))

-- `iter().enumerate()`
unfoldable pub enumerate : ℕ → List Edge → List (ℕ × Edge)
enumerate idx [] = []
enumerate idx (e ∷ es) = (idx, e) ∷ enumerate (suc idx) es

unfoldable pub ranked_outgoing : GraphSnapshot → (vertex : ℕ) → List EdgeRef
ranked_outgoing g vertex =
    map (λ (pair : ℕ × Edge). record { from = vertex; edge_idx = pair.0 })
      (sort_by (λ a b. by_quality a.1 b.1)
        (enumerate 0 (or_default (get_elem? g.adjacency vertex))))

abbrev pub by_weight : Edge → Edge → Ordering
by_weight a b = then_with (compare_ℤ a.weight_log_q32 b.weight_log_q32) (
    then_with (compare b.liquidity.safe_capacity_in a.liquidity.safe_capacity_in) (
      then_with (compare b.pool_health.confidence_bps a.pool_health.confidence_bps)
        (compare a.pool_id b.pool_id)))

unfoldable pub compare_edge_refs : GraphSnapshot → EdgeRef → EdgeRef → Ordering
compare_edge_refs g left right = elim (edge g left) [
  | none ↦ Ordering.gt
  | some a ↦ elim (edge g right) [ none ↦ Ordering.lt | some b ↦ by_weight a b ]
]

unfoldable pub better_edge_ref : GraphSnapshot → EdgeRef → EdgeRef → Bool
better_edge_ref g left right = is_lt (compare_edge_refs g left right)

-- A missing or absent least trade asks nothing.
abbrev below_min_trade : List (Option ℕ) → Edge → Bool
below_min_trade minima e = elim (get_elem? minima e.from) [
  | some (some min_trade_raw) ↦ ltb e.liquidity.safe_capacity_in min_trade_raw
  | _ ↦ false
]

unfoldable pub edge_is_usable : View → Edge → Bool
edge_is_usable v e =
    if e.spot_rate_q128 == 0 || e.liquidity.safe_capacity_in == 0
    then false
    else if not
        (healthy e.pool_health v.finder.min_pool_confidence_bps v.finder.staleness_timeout v.now)
    then false
    else not (below_min_trade v.min_trade_raw_by_token e)

-- `by_to.entry(edge.to).or_default().push(edge_ref)` for the usable edges.
unfoldable pub group_by_to :
    View → GraphSnapshot → List EdgeRef → Map (List EdgeRef) → Map (List EdgeRef)
group_by_to v g [] by_to = by_to
group_by_to v g (r ∷ refs) by_to = elim (edge g r) [
  | none ↦ group_by_to v g refs by_to
  | some e ↦ group_by_to v g refs (
      if edge_is_usable v e
      then insert e.to (or_default (lookup e.to by_to) ++ r ∷ []) by_to
      else by_to)
]

-- `into_values()`, each list sorted and cut.
unfoldable pub best_of_groups : View → GraphSnapshot → Map (List EdgeRef) → List EdgeRef
best_of_groups v g [] = []
best_of_groups v g ((to, refs) ∷ rest) =
    take v.finder.tuning.max_pair_edges_per_pair (sort_by (compare_edge_refs g) refs)
    ++ best_of_groups v g rest

unfoldable pub virtual_outgoing : View → GraphSnapshot → (vertex : ℕ) → List EdgeRef
virtual_outgoing v g vertex =
    sort_by (compare_edge_refs g)
      (best_of_groups v g (group_by_to v g (ranked_outgoing g vertex) []))

-- `map(...).unwrap_or(false)`
abbrev pub usable_ref : View → GraphSnapshot → EdgeRef → Bool
usable_ref v g r = elim (edge g r) [ none ↦ false | some e ↦ edge_is_usable v e ]

unfoldable pub candidate_pair_edges : View → GraphSnapshot → (from to : ℕ) → List EdgeRef
candidate_pair_edges v g from to = elim (lookup_pair (from, to) g.pair_to_edges) [
  | none ↦ []
  | some refs ↦
      take v.finder.tuning.max_pair_edges_per_pair
        (sort_by (compare_edge_refs g) (keep (usable_ref v g) refs))
]
