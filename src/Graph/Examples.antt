-- ===== src/Graph/Examples.antt =====
-- The graph of two tokens and one pool, and a store with room for two snapshots.
use dex_arbitrage.Prelude.{ℕ, ◌≡◌, refl, arith, true, none, some, [], ◌∷◌, All}
use dex_arbitrage.Types.{FinalityLevel}
use dex_arbitrage.Graph.{GraphSnapshot, pair_edges, token_index, lookup_pair, insert_pair}
use dex_arbitrage.Prelude.Map.{lookup, insert}
use dex_arbitrage.Graph.Build.{
  build, snapshot_of, empty_tables, push_pools, push_edges, push_edge, push_at,
  build_edges_for_pool, build_two_token_edges, two_edges, index_tokens, positions,
}
use dex_arbitrage.Graph.Sample.{rates, tokens, pool_at, built_or_empty}
use dex_arbitrage.Graph.Distance.{recompute, explore, mark_all, mark, search, scan, visit}
use dex_arbitrage.Graph.Distance.Reach.{Recomputed, recompute-build}
use dex_arbitrage.Graph.Snapshot.{Built, build-Built, Joins, pair_edges-Joins}
use dex_arbitrage.Graph.Updater.{Rebuilt, rebuild, rebuild-Rebuilt}
use dex_arbitrage.Graph.Store.{GraphStore, new, publish, drop_front, find_last, rollback_to_block}
use dex_arbitrage.Graph.Ring.{
  Newest, publish_all, publish_all-Newest, Restored, rollback_to_block-Restored,
}

build-Built_example : Built tokens (build rates 1 none tokens ((50, pool_at 50) ∷ []))
build-Built_example = build-Built rates 1 none tokens ((50, pool_at 50) ∷ [])

abbrev graph : GraphSnapshot
graph = built_or_empty (build rates 1 none tokens ((50, pool_at 50) ∷ []))

pair_edges-Joins_example : All (Joins graph 11 12) (pair_edges graph 11 12)
unfolding build push_pools push_edges push_edge push_at build_edges_for_pool build_two_token_edges
    two_edges index_tokens lookup insert
pair_edges-Joins_example =
    pair_edges-Joins rates 1 none tokens ((50, pool_at 50) ∷ []) graph 11 12 refl

one_pair_edge : pair_edges graph 11 12 ≡ record { from = 0; edge_idx = 0 } ∷ []
unfolding build push_pools push_edges push_edge push_at build_edges_for_pool build_two_token_edges
    two_edges index_tokens lookup insert pair_edges token_index lookup_pair insert_pair
one_pair_edge = refl

abbrev at_block : ℕ → GraphSnapshot
at_block number =
    snapshot_of number
      (some (record {
        number = number;
        hash = number;
        parent_hash = 0;
        finality = FinalityLevel.sealed;
      }))
      [] [] (empty_tables 0)

abbrev two_slots : GraphStore
two_slots = publish (new (at_block 5) 2) (at_block 6)

publish_all-Newest_example :
    Newest 2
      (at_block 5 ∷ at_block 6 ∷ at_block 7 ∷ [])
      (publish_all two_slots (at_block 7 ∷ [])).ring
unfolding new publish drop_front
publish_all-Newest_example = publish_all-Newest two_slots (at_block 7 ∷ []) (omega arith)

rollback_to_block-Restored_example : Restored two_slots 5 (rollback_to_block two_slots 5)
rollback_to_block-Restored_example = rollback_to_block-Restored two_slots 5

rolled_back : (rollback_to_block two_slots 5).0.current ≡ at_block 5
unfolding new publish drop_front rollback_to_block find_last
rolled_back = refl

rebuild-Rebuilt_example :
    Rebuilt tokens
      (50 ∷ 51 ∷ [])
      (rebuild rates 2 none tokens ((50, pool_at 50) ∷ []) (50 ∷ 51 ∷ []))
rebuild-Rebuilt_example = rebuild-Rebuilt rates 2 none tokens ((50, pool_at 50) ∷ []) (50 ∷ 51 ∷ [])

recompute-build_example : Recomputed graph (recompute graph)
unfolding build push_pools push_edges push_edge push_at build_edges_for_pool build_two_token_edges
    two_edges index_tokens lookup insert
recompute-build_example = recompute-build rates 1 none tokens ((50, pool_at 50) ∷ []) graph refl

both_reached :
    recompute graph
    ≡ some (record {
      snapshot_id = 1;
      reachable_from_anchor = true ∷ true ∷ [];
      reachable_to_anchor = true ∷ true ∷ [];
    })
unfolding build push_pools push_edges push_edge push_at build_edges_for_pool build_two_token_edges
    two_edges index_tokens lookup insert positions recompute explore mark_all mark search scan visit
both_reached = refl
