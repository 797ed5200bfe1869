-- ===== src/Graph/Distance/Reach.antt =====
-- src/graph/distance_cache.rs: `recompute` on a built snapshot.
use dex_arbitrage.Prelude.{
  ℕ, suc, ◌<◌, ◌≡◌, refl, ap, sym, subst, arith, ◌∙◌, true, Option, some, List, [], ◌∷◌, map,
  length, get_elem?, ◌↔◌, All,
}
use dex_arbitrage.Prelude.Map.{Map}
use dex_arbitrage.Types.{BlockRef, TokenInfo, PoolState}
use dex_arbitrage.Graph.{GraphSnapshot}
use dex_arbitrage.Graph.Build.{SpotRates, build}
use dex_arbitrage.Graph.Snapshot.{Built, build-Built, positions-All}
use dex_arbitrage.Graph.Distance.{DistanceCache, successors, predecessors, recompute}
use dex_arbitrage.Graph.Distance.Loop.{Reach, Ranged, explore-Finds}

-- The flags of the cache are those of the tokens in reach.
pub record Decides (g : GraphSnapshot) (cache : DistanceCache) : Type 0 where
  pub from_anchor :
      (v : ℕ)
      → (get_elem? cache.reachable_from_anchor v ≡ some true)
        ↔ Reach (successors g) g.cycle_anchor_indices v
  pub to_anchor :
      (v : ℕ)
      → (get_elem? cache.reachable_to_anchor v ≡ some true)
        ↔ Reach (predecessors g) g.cycle_anchor_indices v

pub record Recomputed (g : GraphSnapshot) (result : Option DistanceCache) : Type 0 where
  pub cache : DistanceCache
  pub done : result ≡ some cache
  pub same_snapshot : cache.snapshot_id ≡ g.snapshot_id
  pub from_size : length cache.reachable_from_anchor ≡ length g.tokens
  pub to_size : length cache.reachable_to_anchor ≡ length g.tokens
  pub decided : Decides g cache

recompute-Recomputed :
    (g : GraphSnapshot)
    → Ranged (length g.tokens) (successors g) g.cycle_anchor_indices
    → Ranged (length g.tokens) (predecessors g) g.cycle_anchor_indices
    → Recomputed g (recompute g)
unfolding recompute
recompute-Recomputed g out back =
    let forward = explore-Finds (length g.tokens) (successors g) g.cycle_anchor_indices out in
    let backward = explore-Finds (length g.tokens) (predecessors g) g.cycle_anchor_indices back in
    record {
      cache = record {
        snapshot_id = g.snapshot_id;
        reachable_from_anchor = forward.seen;
        reachable_to_anchor = backward.seen;
      };
      done = rw (recompute, forward.ends, backward.ends) refl;
      same_snapshot = refl;
      from_size = forward.sized;
      to_size = backward.sized;
      decided = record { from_anchor = forward.decides; to_anchor = backward.decides };
    }

-- `length` and `All` through `map`.
length-map {ℓ κ} :
    {A : Type ℓ} {B : Type κ} (f : A → B) (xs : List A) → length (map f xs) ≡ length xs
length-map f [] = refl
length-map f (x ∷ xs) = ap suc (length-map f xs)

All-map :
    {A : Type 0} (f : A → ℕ) (n : ℕ) (xs : List A)
    → All (λ x. f x < n) xs
    → All (λ v. v < n) (map f xs)
All-map f n [] a = tt
All-map f n (x ∷ xs) a = (a.0, All-map f n xs a.1)

rows-map :
    {A : Type 0} (f : A → ℕ) (n : ℕ) (rows : List (List A))
    → All (λ row. All (λ x. f x < n) row) rows
    → All (λ row. All (λ v. v < n) row) (map (λ row. map f row) rows)
rows-map f n [] a = tt
rows-map f n (row ∷ rows) a = (All-map f n row a.0, rows-map f n rows a.1)

-- On a snapshot that `build` gives, whatever the spot rates, `recompute` ends with no panic and with
-- the fuel of one round for each token and each anchor, and flags, one for each token, exactly the tokens that edges lead
-- to from an anchor, and exactly those from which filed edges lead to one.
pub recompute-build :
    (rates : SpotRates) (snapshot_id : ℕ) (block_ref : Option BlockRef) (tokens : List TokenInfo)
    (pools : Map PoolState) (g : GraphSnapshot)
    → build rates snapshot_id block_ref tokens pools ≡ some g
    → Recomputed g (recompute g)
unfolding build
recompute-build rates snapshot_id block_ref tokens pools g h =
    let built = build-Built rates snapshot_id block_ref tokens pools in
    let same : built.graph ≡ g = some_inj built.done h in
    subst (λ x. Recomputed x (recompute x)) same (on_built built)
  where
    some_inj : {x : Option GraphSnapshot} {a b : GraphSnapshot} → x ≡ some a → x ≡ some b → a ≡ b
    some_inj p q = ground arith

    on_built :
        (b : Built tokens (build rates snapshot_id block_ref tokens pools))
        → Recomputed b.graph (recompute b.graph)
    on_built b =
        let size : length b.graph.tokens ≡ length tokens = ap length b.token_rows in
        let anchors : All (λ v. v < length b.graph.tokens) b.graph.cycle_anchor_indices =
          rw (size, b.anchors)
            (positions-All (λ token. token.is_cycle_anchor) (length tokens) 0 tokens
              (omega arith)) in
        recompute-Recomputed b.graph
          (record {
            row_count =
                length-map (λ row. map (λ e. e.to) row) b.graph.adjacency
                ∙ b.indexed.rows
                ∙ sym size;
            entries =
                rw size (rows-map (λ e. e.to) (length tokens) b.graph.adjacency b.indexed.targets);
            starts = anchors;
          })
          (record {
            row_count =
                length-map (λ row. map (λ r. r.from) row) b.graph.reverse_adj
                ∙ b.indexed.reverse_rows
                ∙ sym size;
            entries =
                rw size
                  (rows-map (λ r. r.from) (length tokens) b.graph.reverse_adj b.indexed.origins);
            starts = anchors;
          })
