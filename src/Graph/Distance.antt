-- ===== src/Graph/Distance.antt =====
-- src/graph/distance_cache.rs: which tokens an anchor reaches, and which reach an anchor. The two
-- loops are one search over the rows of a table; `panicked` is an index out of bounds.
pub mod Scan
pub mod Loop
pub mod Reach
use dex_arbitrage.Prelude.{
  ℕ, zero, suc, ◌+◌, Bool, true, false, Option, none, some, List, [], ◌∷◌, ◌++◌, map, get_elem?,
  set, length, replicate,
}
use dex_arbitrage.Types.{Edge, EdgeRef}
use dex_arbitrage.Graph.{GraphSnapshot}

pub record Search : Type 0 where
  pub seen : List Bool
  pub queue : List ℕ

-- `seen[v] = true; queue.push_back(v)`
unfoldable pub mark : Search → ℕ → Option Search
mark s v = elim (get_elem? s.seen v) [
  | none ↦ none
  | some _ ↦ some (record { seen = set s.seen v true; queue = s.queue ++ v ∷ [] })
]

-- `if !seen[v] { ... }`
unfoldable pub visit : Search → ℕ → Option Search
visit s v = elim (get_elem? s.seen v) [
  | none ↦ none
  | some true ↦ some s
  | some false ↦ some (record { seen = set s.seen v true; queue = s.queue ++ v ∷ [] })
]

unfoldable pub mark_all : Search → List ℕ → Option Search
mark_all s [] = some s
mark_all s (v ∷ vs) = elim (mark s v) [ none ↦ none | some t ↦ mark_all t vs ]

unfoldable pub scan : Search → List ℕ → Option Search
scan s [] = some s
scan s (v ∷ vs) = elim (visit s v) [ none ↦ none | some t ↦ scan t vs ]

pub data Outcome : Type 0 where
  found : (seen : List Bool) → Outcome
  panicked : Outcome
  out_of_fuel : Outcome

-- `while let Some(node) = queue.pop_front()`
unfoldable pub search : (rows : List (List ℕ)) → (fuel : ℕ) → Search → Outcome
search rows zero s = elim s.queue [ [] ↦ found s.seen | u ∷ rest ↦ out_of_fuel ]
search rows (suc fuel) s = elim s.queue [
  | [] ↦ found s.seen
  | u ∷ rest ↦ elim (get_elem? rows u) [
    | none ↦ panicked
    | some row ↦ elim (scan (record s { queue = rest }) row) [
      | none ↦ panicked
      | some t ↦ search rows fuel t
    ]
  ]
]

-- The search from the anchors, over `n` tokens.
unfoldable pub explore : (n : ℕ) → (rows : List (List ℕ)) → (anchors : List ℕ) → Outcome
explore n rows anchors = elim (mark_all (record { seen = replicate n false; queue = [] }) anchors) [
  | none ↦ panicked
  | some s ↦ search rows (n + length anchors) s
]

pub record DistanceCache : Type 0 where
  pub snapshot_id : ℕ
  pub reachable_from_anchor : List Bool
  pub reachable_to_anchor : List Bool

abbrev pub successors : GraphSnapshot → List (List ℕ)
successors g = map (λ row. map (λ e. e.to) row) g.adjacency

abbrev pub predecessors : GraphSnapshot → List (List ℕ)
predecessors g = map (λ row. map (λ r. r.from) row) g.reverse_adj

-- `none`: a panic, or the fuel has run out.
unfoldable pub recompute : GraphSnapshot → Option DistanceCache
recompute g =
    let n = length g.tokens in
    elim (explore n (successors g) g.cycle_anchor_indices) [
      | found from_anchor ↦ elim (explore n (predecessors g) g.cycle_anchor_indices) [
        | found to_anchor ↦ some (record {
          snapshot_id = g.snapshot_id;
          reachable_from_anchor = from_anchor;
          reachable_to_anchor = to_anchor;
        })
        | _ ↦ none
      ]
      | _ ↦ none
    ]
