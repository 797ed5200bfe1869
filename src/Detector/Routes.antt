-- ===== src/Detector/Routes.antt =====
-- src/detector/path_finder.rs: the paths that `find_top_paths` gives.
use dex_arbitrage.Prelude.{
  ℕ, zero, suc, ◌+◌, ◌≤◌, ◌≡◌, refl, ap, subst, arith, ◌∙◌, Option, some, List, [], ◌∷◌, ◌++◌, ◌==◌,
  ◌⊎◌, All, length, length-append, take, max, Bool-cases, inl, inr, Option-cases,
}
use dex_arbitrage.Prelude.Map.{Map}
use dex_arbitrage.Prelude.Sorting.{
  sort_by, Ordered, Total, sort_by-All, take-All, length-take-le, sort_by-Ordered, take-Ordered,
}
use dex_arbitrage.Types.{BlockRef, EdgeRef, PoolState, TokenInfo}
use dex_arbitrage.Graph.{GraphSnapshot, edge}
use dex_arbitrage.Graph.Build.{SpotRates, build}
use dex_arbitrage.Graph.Rows.{All-snoc}
use dex_arbitrage.Graph.Snapshot.{Sound, build-Sound}
use dex_arbitrage.Detector.{SearchPath, View, edge_is_usable}
use dex_arbitrage.Detector.Search.{
  by_score, sort_paths, contains, last, initial, extend, Round, grow_edge, grow_edges, grow_path,
  grow_frontier, rounds, find_top_paths,
}
use dex_arbitrage.Detector.Outgoing.{virtual_outgoing-All}
use dex_arbitrage.Detector.Walk.{Simple, last-snoc, initial-Simple, extend-Simple}

-- A simple path of exactly `hops` edges.
record Partial (v : View) (g : GraphSnapshot) (start hops : ℕ) (p : SearchPath) : Type 0 where
  simple : Simple v g start p
  edges : length p.edge_refs ≡ hops

-- A simple path to the target of at most `max_hops` edges.
pub record Route (v : View) (g : GraphSnapshot) (start target max_hops : ℕ) (p : SearchPath)
    : Type 0 where
  pub simple : Simple v g start p
  pub ends : last p.tokens ≡ some target
  pub within : length p.edge_refs ≤ max_hops

module _ (v : View) (g : GraphSnapshot) (start target max_hops : ℕ) (sound : Sound g) where
  record RoundHolds (hops : ℕ) (round : Round) : Type 0 where
    arrived : All (Route v g start target max_hops) round.out
    going : All (Partial v g start hops) round.next_frontier

  module _ (hops : ℕ) (room : suc hops ≤ max_hops) where
    grow_edge-RoundHolds :
        (current : SearchPath) (node : ℕ) (r : EdgeRef) (round : Round)
        → Partial v g start hops current
        → last current.tokens ≡ some node
        → r.from ≡ node
        → RoundHolds (suc hops) round
        → RoundHolds (suc hops) (grow_edge v g target current r round)
    unfolding grow_edge
    grow_edge-RoundHolds current node r round p l h i = elim (Option-cases (edge g r)) [
      | inl k ↦ rw (grow_edge, k) i
      | inr (e, k) ↦ elim (Bool-cases (edge_is_usable v e)) [
        | inr u ↦ rw (grow_edge, k, u) i
        | inl u ↦ elim (Bool-cases (contains current.tokens e.to)) [
          | inl c ↦ rw (grow_edge, k, u, c) i
          | inr c ↦
              let s =
                extend-Simple v g start node current r e p.simple l k u (sound.home r e k ∙ h) c in
              let more : length (current.edge_refs ++ r ∷ []) ≡ suc hops =
                omega (arith, length-append current.edge_refs (r ∷ []), p.edges) in
              elim (Bool-cases (e.to == target)) [
                | inl t ↦
                    let here : e.to ≡ target = ground arith in
                    rw (grow_edge, k, u, c, t)
                      (record {
                        arrived =
                            All-snoc (Route v g start target max_hops) round.out
                              (extend current r e) i.arrived
                              (record {
                                simple = s;
                                ends = last-snoc current.tokens e.to ∙ ap some here;
                                within = omega (arith, more);
                              });
                        going = i.going;
                      })
                | inr t ↦
                    rw (grow_edge, k, u, c, t)
                      (record {
                        arrived = i.arrived;
                        going =
                            All-snoc (Partial v g start (suc hops)) round.next_frontier
                              (extend current r e) i.going (record { simple = s; edges = more });
                      })
              ]
        ]
      ]
    ]

    grow_edges-RoundHolds :
        (current : SearchPath) (node : ℕ) (refs : List EdgeRef) (round : Round)
        → Partial v g start hops current
        → last current.tokens ≡ some node
        → All (λ r. r.from ≡ node) refs
        → RoundHolds (suc hops) round
        → RoundHolds (suc hops) (grow_edges v g target current refs round)
    unfolding grow_edges
    grow_edges-RoundHolds current node [] round p l a i = i
    grow_edges-RoundHolds current node (r ∷ refs) round p l a i =
        grow_edges-RoundHolds current node refs (grow_edge v g target current r round) p l a.1
          (grow_edge-RoundHolds current node r round p l a.0 i)

    grow_path-RoundHolds :
        (current : SearchPath) (round : Round)
        → Partial v g start hops current
        → RoundHolds (suc hops) round
        → RoundHolds (suc hops) (grow_path v g target current round)
    unfolding grow_path
    grow_path-RoundHolds current round p i = elim (Option-cases (last current.tokens)) [
      | inl e ↦ rw (grow_path, e) i
      | inr (node, e) ↦
          rw (grow_path, e)
            (grow_edges-RoundHolds current node _ round p e
              (take-All (λ r. r.from ≡ node) v.finder.tuning.max_virtual_branches_per_node _
                (virtual_outgoing-All v g node))
              i)
    ]

    grow_frontier-RoundHolds :
        (frontier : List SearchPath) (round : Round)
        → All (Partial v g start hops) frontier
        → RoundHolds (suc hops) round
        → RoundHolds (suc hops) (grow_frontier v g target frontier round)
    unfolding grow_frontier
    grow_frontier-RoundHolds [] round a i = i
    grow_frontier-RoundHolds (current ∷ frontier) round a i =
        grow_frontier-RoundHolds frontier (grow_path v g target current round) a.1
          (grow_path-RoundHolds current round a.0 i)

  cut-All :
      (P : SearchPath → Type 0) (n : ℕ) (ps : List SearchPath)
      → All P ps
      → All P (take n (sort_paths ps))
  unfolding sort_paths
  cut-All P n ps a = take-All P n (sort_by by_score ps) (sort_by-All P by_score ps a)

  list-cases :
      (ps : List SearchPath)
      → (ps ≡ []) ⊎ ((p : SearchPath) × (rest : List SearchPath) × (ps ≡ p ∷ rest))
  list-cases [] = inl refl
  list-cases (p ∷ rest) = inr (p, rest, refl)

  rounds-All :
      (left hops : ℕ) (frontier out : List SearchPath)
      → hops + left ≤ max_hops
      → All (Partial v g start hops) frontier
      → All (Route v g start target max_hops) out
      → All (Route v g start target max_hops) (rounds v g target left frontier out)
  unfolding rounds
  rounds-All zero hops frontier out h a b = b
  rounds-All (suc left) hops frontier out h a b =
      let grown =
        grow_frontier-RoundHolds hops (omega arith) frontier
          (record { out = out; next_frontier = [] }) a (record { arrived = b; going = tt }) in
      let round = grow_frontier v g target frontier (record { out = out; next_frontier = [] }) in
      let out' =
        cut-All (Route v g start target max_hops) v.finder.tuning.top_k_paths_per_side round.out
          grown.arrived in
      let next =
        cut-All (Partial v g start (suc hops)) v.finder.tuning.path_beam_width round.next_frontier
          grown.going in
      elim (list-cases (take v.finder.tuning.path_beam_width (sort_paths round.next_frontier))) [
        | inl e ↦ rw (rounds, e) out'
        | inr (p, rest, e) ↦
            rw (rounds, e)
              (rounds-All left (suc hops) (p ∷ rest) _ (omega arith)
                (subst (All (Partial v g start (suc hops))) e next) out')
      ]

by_score-Total : Total by_score
by_score-Total = record { flip = λ x y h. ground arith; trans = λ x y z h k. ground arith }

cut-Ordered : (n : ℕ) (ps : List SearchPath) → Ordered by_score (take n (sort_paths ps))
unfolding sort_paths
cut-Ordered n ps =
    take-Ordered by_score n (sort_by by_score ps) (sort_by-Ordered by_score by_score-Total ps)

-- What a search promises of its answer.
pub record Best (v : View) (g : GraphSnapshot) (start target max_hops : ℕ) (paths : List SearchPath)
    : Type 0 where
  pub routes : All (Route v g start target max_hops) paths
  pub at_most : length paths ≤ max 1 v.finder.tuning.top_k_paths_per_side
  pub sorted : Ordered by_score paths

pub find_top_paths-Sound :
    (v : View) (g : GraphSnapshot) (start target max_hops : ℕ)
    → Sound g
    → Best v g start target max_hops (find_top_paths v g start target max_hops)
unfolding find_top_paths
find_top_paths-Sound v g start target max_hops sound =
    let first = initial-Simple v g start in
    let top = v.finder.tuning.top_k_paths_per_side in
    elim (Bool-cases (start == target)) [
      | inl e ↦
          let same : start ≡ target = ground arith in
          rw (find_top_paths, e)
            (record {
              routes = (record { simple = first; ends = ap some same; within = omega arith }, tt);
              at_most = ground arith;
              sorted = (tt, tt);
            })
      | inr e ↦
          rw (find_top_paths, e)
            (record {
              routes =
                  cut-All v g start target max_hops sound (Route v g start target max_hops) top _ (
                    rounds-All v g start target max_hops sound max_hops 0 (initial start ∷ []) []
                      (omega arith) (record { simple = first; edges = refl }, tt) tt);
              at_most = ground (
                arith,
                length-take-le top
                    (sort_paths (rounds v g target max_hops (initial start ∷ []) [])),
              );
              sorted = cut-Ordered top _;
            })
    ]

-- On a snapshot that `build` gives, each path that `find_top_paths` returns is a chain of usable
-- edges from `start` to `target` that no token is on twice, of at most `max_hops` edges, its score the
-- saturating sum of their weights and its hint at most each of their capacities; there are at most
-- `top_k_paths_per_side` of them, or one if that is 0, and they come in the order of the scores.
pub find_top_paths-Best :
    (rates : SpotRates) (snapshot_id : ℕ) (block_ref : Option BlockRef) (tokens : List TokenInfo)
    (pools : Map PoolState) (v : View) (g : GraphSnapshot) (start target max_hops : ℕ)
    → build rates snapshot_id block_ref tokens pools ≡ some g
    → Best v g start target max_hops (find_top_paths v g start target max_hops)
find_top_paths-Best rates snapshot_id block_ref tokens pools v g start target max_hops h =
    find_top_paths-Sound v g start target max_hops
      (build-Sound rates snapshot_id block_ref tokens pools g h)
