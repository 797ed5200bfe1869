-- ===== src/Graph/Updater.antt =====
-- src/graph/updater.rs: a rebuilt snapshot and the edges of the pools that changed.
use dex_arbitrage.Prelude.{
  ℕ, ◌≡◌, refl, Option, none, some, List, [], ◌∷◌, ◌++◌, All, Any, inl, inr, length, ◌∙◌,
}
use dex_arbitrage.Prelude.Map.{Map, lookup}
use dex_arbitrage.Types.{BlockRef, TokenInfo, Edge, EdgeRef, PoolState}
use dex_arbitrage.Graph.{GraphSnapshot, or_default, edge}
use dex_arbitrage.Graph.Build.{SpotRates, build}
use dex_arbitrage.Graph.Rows.{All-weaken}
use dex_arbitrage.Graph.Edges.{All-append}
use dex_arbitrage.Graph.Indexed.{Leads, Indexed}
use dex_arbitrage.Graph.Snapshot.{build-Built, tables_of, edge-row_of}

unfoldable pub changed_edges : GraphSnapshot → List ℕ → List EdgeRef
changed_edges g [] = []
changed_edges g (pool_id ∷ pool_ids) =
    or_default (lookup pool_id g.pool_to_edges) ++ changed_edges g pool_ids

unfoldable pub rebuild :
    SpotRates
    → ℕ
    → Option BlockRef
    → List TokenInfo
    → Map PoolState
    → List ℕ
    → Option (GraphSnapshot × List EdgeRef)
rebuild rates next_snapshot_id block_ref tokens pools changed_pool_ids =
    elim (build rates next_snapshot_id block_ref tokens pools) [
      | none ↦ none
      | some snapshot ↦ some (snapshot, changed_edges snapshot changed_pool_ids)
    ]

-- A reference to an edge of one of the pools.
pub record OfPools (g : GraphSnapshot) (pool_ids : List ℕ) (r : EdgeRef) : Type 0 where
  pub target : Edge
  pub found : edge g r ≡ some target
  pub of_pool : Any (λ id. target.pool_id ≡ id) pool_ids

changed_edges-OfPools :
    (n : ℕ) (g : GraphSnapshot) (pool_ids : List ℕ)
    → Indexed n (tables_of g)
    → All (OfPools g pool_ids) (changed_edges g pool_ids)
unfolding changed_edges
changed_edges-OfPools n g [] ix = tt
changed_edges-OfPools n g (id ∷ ids) ix =
    All-append (OfPools g (id ∷ ids)) (or_default (lookup id g.pool_to_edges)) (changed_edges g ids)
      (All-weaken (Leads g.adjacency (λ e. e.pool_id ≡ id)) (OfPools g (id ∷ ids))
        (or_default (lookup id g.pool_to_edges))
        (λ r l. record {
          target = l.target;
          found = edge-row_of g r ∙ l.found;
          of_pool = inl l.holds;
        })
        (ix.pools id))
      (All-weaken (OfPools g ids) (OfPools g (id ∷ ids)) (changed_edges g ids)
        (λ r o. record { target = o.target; found = o.found; of_pool = inr o.of_pool })
        (changed_edges-OfPools n g ids ix))

-- What `rebuild` gives.
pub record Rebuilt (tokens : List TokenInfo) (pool_ids : List ℕ)
    (result : Option (GraphSnapshot × List EdgeRef)) : Type 0 where
  pub graph : GraphSnapshot
  pub changed : List EdgeRef
  pub done : result ≡ some (graph, changed)
  pub token_rows : graph.tokens ≡ tokens
  pub resolves : All (OfPools graph pool_ids) changed

-- `rebuild` gives a snapshot of its tokens, without a panic, and every edge reference that it returns
-- resolves in that snapshot to an edge of one of the changed pools.
pub rebuild-Rebuilt :
    (rates : SpotRates) (id : ℕ) (block_ref : Option BlockRef) (tokens : List TokenInfo)
    (pools : Map PoolState) (pool_ids : List ℕ)
    → Rebuilt tokens pool_ids (rebuild rates id block_ref tokens pools pool_ids)
unfolding rebuild
rebuild-Rebuilt rates id block_ref tokens pools pool_ids =
    let built = build-Built rates id block_ref tokens pools in
    record {
      graph = built.graph;
      changed = changed_edges built.graph pool_ids;
      done = rw (rebuild, built.done) refl;
      token_rows = built.token_rows;
      resolves = changed_edges-OfPools (length tokens) built.graph pool_ids built.indexed;
    }
