-- ===== src/Detector/Examples.antt =====
-- Two tokens with two pools between them: the cycles through both pools, and the choice among three
-- candidates.
use Prim.Native.String.{String}
use dex_arbitrage.Prelude.{
  ℕ, ◌≡◌, refl, true, false, Option, none, some, List, [], ◌∷◌, map, ◌==◌, if◌then◌else◌,
  saturating_mul, saturating_add, keep,
}
use dex_arbitrage.Prelude.Int.{ℤ, pos, negsuc, ◌+ℤ◌}
use dex_arbitrage.Prelude.Map.{lookup, insert}
use dex_arbitrage.Types.{AmmKind, EdgeRef, PoolState, healthy, is_exotic}
use dex_arbitrage.Graph.{GraphSnapshot, lookup_pair, insert_pair, edge}
use dex_arbitrage.Graph.Build.{
  build, push_pools, push_edges, push_edge, push_at, build_edges_for_pool, build_two_token_edges,
  two_edges, index_tokens, positions,
}
use dex_arbitrage.Graph.Sample.{rates, tokens, pool_at, built_or_empty}
use dex_arbitrage.Graph.Distance.{
  DistanceCache, recompute, explore, mark_all, mark, search, scan, visit,
}
use dex_arbitrage.Detector.{
  PathFinder, enumerate, ranked_outgoing, compare_edge_refs, better_edge_ref, edge_is_usable,
  group_by_to, best_of_groups, virtual_outgoing, candidate_pair_edges,
}
use dex_arbitrage.Detector.Search.{
  find_top_paths, saturate_i64, sort_paths, contains, grow_edge, grow_edges, grow_path,
  grow_frontier, rounds,
}
use dex_arbitrage.Detector.Routes.{Best, find_top_paths-Best}
use dex_arbitrage.Detector.Candidate.{
  CandidateHop, CandidatePath, has_text, compare_rotation, best_start, rotated,
  candidate_token_cycle_key, canonical_token_cycle_key, canonical_pool_cycle_key,
  canonical_anchor_pool_cycle_key, route_texts, route_cycle_key,
}
use dex_arbitrage.Detector.Select.{
  finalize_candidates_with_tuning, screening_edge_bps, candidate_profit_potential_usd_e8,
  candidate_ordering, lookup_text, insert_text, beats_last, replace_last, insert_token_path_variant,
  flatten_candidate_map, candidate_selection_budget, consider, select, fill,
}
use dex_arbitrage.Detector.Kept.{Chosen, finalize_candidates_with_tuning-Chosen}
use dex_arbitrage.Detector.Cycle.{
  Setting, view_of, best_by_pair, changed_virtual_pairs, anchor_can_participate, all_new,
  forms_simple_cycle, path_of, route_has_min_start_capacity, materialize_candidate,
}
use dex_arbitrage.Detector.Find.{
  find_candidates, each, finalize_candidates, gather, try_cycle, try_anchor, try_pair, search_pairs,
}
use dex_arbitrage.Detector.Policy.{
  execution_token_policy, token_excluded_by_execution_policy, token_allowed_by_execution_policy,
  each_token, route_tokens_allowed, token_quality_bps, least_quality, route_quality_bps,
}
use dex_arbitrage.Prelude.Sorting.{sort_by, insert_by}
use dex_arbitrage.Valuation.{amount_to_usd_e8, usd_e8_to_amount}
use dex_arbitrage.Detector.Answer.{Found, find_candidates-Found}

abbrev pools : List (ℕ × PoolState)
pools = (50, pool_at 50) ∷ (51, pool_at 51) ∷ []

abbrev graph : GraphSnapshot
graph = built_or_empty (build rates 1 none tokens pools)

abbrev finder : PathFinder
finder = record {
  max_hops = 3;
  screening_cutoff_q32 = pos 1;
  min_pool_confidence_bps = 5_000;
  staleness_timeout = 100;
  min_trade_usd_e8 = 1;
  tuning = record {
    top_k_paths_per_side = 4;
    max_virtual_branches_per_node = 4;
    path_beam_width = 4;
    max_candidates_per_refresh = 2;
    candidate_selection_buffer_multiplier = 4;
    dedup_token_paths = true;
    max_pair_edges_per_pair = 2;
    pool_variants_per_token_path = 3;
    canonical_variants_per_cycle = 3;
    anchor_variants_per_cycle = 1;
  };
}

-- One letter for each of the addresses.
abbrev show : ℕ → String
show address =
    if address == 11 then "A" else if address == 12 then "B" else if address == 50 then "P" else "Q"

abbrev setting : Setting
setting = record {
  finder = finder;
  env = record {
    require_trusted_route_tokens = false;
    trusted_symbols = [];
    trusted_tokens = [];
    excluded_symbol_contains = [];
    excluded_tokens = [];
    allow_flash_loan_tokens = false;
    fill_rotated_candidates = false;
    prefilter_max_changed_edges = 8_192;
    large_refresh_threshold = 8_192;
    large_refresh_multiplier = 1;
  };
  show = show;
  route_start_capacity_raw = λ g refs. some 9;
  now = 5;
}

abbrev changed : List EdgeRef
changed = record { from = 0; edge_idx = 0 } ∷ []

abbrev flags : DistanceCache
flags = record {
  snapshot_id = 1;
  reachable_from_anchor = true ∷ true ∷ [];
  reachable_to_anchor = true ∷ true ∷ [];
}

find_top_paths-Best_example :
    Best (view_of setting graph) graph 0 1 2 (find_top_paths (view_of setting graph) graph 0 1 2)
unfolding build push_pools push_edges push_edge push_at build_edges_for_pool build_two_token_edges
    two_edges index_tokens lookup insert
find_top_paths-Best_example =
    find_top_paths-Best rates 1 none tokens pools (view_of setting graph) graph 0 1 2 refl

find_candidates-Found_example :
    Found setting graph changed (find_candidates setting graph changed flags)
unfolding build push_pools push_edges push_edge push_at build_edges_for_pool build_two_token_edges
    two_edges index_tokens lookup insert positions recompute explore mark_all mark search scan visit
find_candidates-Found_example =
    find_candidates-Found rates 1 none tokens pools setting graph changed flags refl refl

abbrev hop : (from to pool_id : ℕ) → CandidateHop
hop from to pool_id = record {
  from = from;
  to = to;
  pool_id = pool_id;
  amm_kind = AmmKind.uniswap_v2_like;
  dex_name = "v2";
}

abbrev candidate : (score : ℤ) → (pool_id : ℕ) → CandidatePath
candidate score pool_id = record {
  snapshot_id = 1;
  start_token = 11;
  start_symbol = "T";
  screening_score_q32 = score;
  route_capacity_usd_e8 = 1_000_000_000;
  route_quality_bps = 10_000;
  cycle_key = show pool_id;
  path = hop 11 12 pool_id ∷ hop 12 11 pool_id ∷ [];
}

abbrev three : List CandidatePath
three = candidate (negsuc 2) 50 ∷ candidate (negsuc 1) 51 ∷ candidate (negsuc 0) 50 ∷ []

finalize_candidates_with_tuning-Chosen_example :
    Chosen show
      (λ c. c.start_token ≡ 11)
      8
      2
      2
      false
      (finalize_candidates_with_tuning show three 8 2 2 false)
finalize_candidates_with_tuning-Chosen_example =
    finalize_candidates_with_tuning-Chosen show (λ c. c.start_token ≡ 11) three 8 2 2 false
      (refl, (refl, (refl, tt)))

-- The third one has the cycle of the first.
two_kept :
    map (λ c. c.screening_score_q32) (finalize_candidates_with_tuning show three 8 2 2 false)
    ≡ negsuc 2 ∷ negsuc 1 ∷ []
unfolding sort_by insert_by saturating_mul screening_edge_bps candidate_profit_potential_usd_e8
    candidate_ordering lookup_text insert_text consider select fill finalize_candidates_with_tuning
    has_text compare_rotation best_start rotated canonical_token_cycle_key canonical_pool_cycle_key
    canonical_anchor_pool_cycle_key
two_kept = refl

abbrev pools_of : Option (List CandidatePath) → Option (List (List ℕ))
pools_of none = none
pools_of (some cs) =
    some (map (λ (c : CandidatePath). map (λ (h : CandidateHop). h.pool_id) c.path) cs)

-- Out and back through the pool of the changed edge, from either anchor.
two_cycles :
    pools_of (find_candidates setting graph changed flags)
    ≡ some ((50 ∷ 50 ∷ []) ∷ (50 ∷ 50 ∷ []) ∷ [])
unfolding sort_by insert_by saturating_mul build push_pools push_edges push_edge push_at
    build_edges_for_pool build_two_token_edges two_edges index_tokens lookup insert positions
    lookup_pair insert_pair edge healthy keep saturating_add ◌+ℤ◌ is_exotic amount_to_usd_e8
    usd_e8_to_amount enumerate ranked_outgoing compare_edge_refs better_edge_ref edge_is_usable
    group_by_to best_of_groups virtual_outgoing candidate_pair_edges saturate_i64 sort_paths
    contains grow_edge grow_edges grow_path grow_frontier rounds find_top_paths has_text
    compare_rotation best_start rotated candidate_token_cycle_key canonical_token_cycle_key
    canonical_pool_cycle_key canonical_anchor_pool_cycle_key route_texts route_cycle_key
    execution_token_policy token_excluded_by_execution_policy token_allowed_by_execution_policy
    each_token route_tokens_allowed token_quality_bps least_quality route_quality_bps
    screening_edge_bps candidate_profit_potential_usd_e8 candidate_ordering lookup_text insert_text
    beats_last replace_last insert_token_path_variant flatten_candidate_map
    candidate_selection_budget consider select fill finalize_candidates_with_tuning best_by_pair
    changed_virtual_pairs anchor_can_participate all_new forms_simple_cycle path_of
    route_has_min_start_capacity materialize_candidate each finalize_candidates gather try_cycle
    try_anchor try_pair search_pairs find_candidates
two_cycles = refl
