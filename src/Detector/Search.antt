-- ===== src/Detector/Search.antt =====
-- src/detector/path_finder.rs: `find_top_paths`, a search by rounds with a bounded frontier.
use Prim.Native.Nat.{compare, Ordering}
use dex_arbitrage.Prelude.{
  ℕ, zero, suc, ◌-◌, ◌^◌, Bool, false, ◌||◌, Option, none, some, List, [], ◌∷◌, ◌++◌, ◌==◌, ltb,
  if◌then◌else◌, length, take, min, u128_max,
}
use dex_arbitrage.Prelude.Int.{ℤ, pos, negsuc, ◌+ℤ◌}
use dex_arbitrage.Prelude.Sorting.{compare_ℤ, then_with, sort_by}
use dex_arbitrage.Types.{Edge, EdgeRef}
use dex_arbitrage.Graph.{GraphSnapshot, edge}
use dex_arbitrage.Detector.{SearchPath, View, edge_is_usable, virtual_outgoing}

-- `saturating_add` on i64.
unfoldable pub saturate_i64 : ℤ → ℤ
saturate_i64 (pos n) = if ltb n (2 ^ 63) then pos n else pos (2 ^ 63 - 1)
saturate_i64 (negsuc n) = if ltb n (2 ^ 63) then negsuc n else negsuc (2 ^ 63 - 1)

abbrev pub add_i64 : ℤ → ℤ → ℤ
add_i64 a b = saturate_i64 (a +ℤ b)

abbrev pub by_score : SearchPath → SearchPath → Ordering
by_score a b = then_with (compare_ℤ a.score_q32 b.score_q32) (
    then_with (compare b.capacity_hint a.capacity_hint)
      (compare (length a.edge_refs) (length b.edge_refs)))

unfoldable pub sort_paths : List SearchPath → List SearchPath
sort_paths paths = sort_by by_score paths

unfoldable pub contains : List ℕ → ℕ → Bool
contains [] token = false
contains (first ∷ rest) token = first == token || contains rest token

-- `tokens.last()`
abbrev pub last : List ℕ → Option ℕ
last [] = none
last (x ∷ []) = some x
last (x ∷ y ∷ rest) = last (y ∷ rest)

abbrev pub initial : (start : ℕ) → SearchPath
initial start = record {
  edge_refs = [];
  tokens = start ∷ [];
  score_q32 = pos 0;
  capacity_hint = u128_max;
}

abbrev pub extend : SearchPath → EdgeRef → Edge → SearchPath
extend p r e = record {
  edge_refs = p.edge_refs ++ r ∷ [];
  tokens = p.tokens ++ e.to ∷ [];
  score_q32 = add_i64 p.score_q32 e.weight_log_q32;
  capacity_hint =
      if ltb 0 e.liquidity.safe_capacity_in
      then min p.capacity_hint e.liquidity.safe_capacity_in
      else p.capacity_hint;
}

-- The two lists that a round fills: the paths at the target, and those that go on.
pub record Round : Type 0 where
  pub out : List SearchPath
  pub next_frontier : List SearchPath

module _ (v : View) (g : GraphSnapshot) (target : ℕ) where
  unfoldable pub grow_edge : SearchPath → EdgeRef → Round → Round
  grow_edge current r round = elim (edge g r) [
    | none ↦ round
    | some e ↦
        if edge_is_usable v e
        then if contains current.tokens e.to
          then round
          else if e.to == target
          then record round { out = round.out ++ extend current r e ∷ [] }
          else record round { next_frontier = round.next_frontier ++ extend current r e ∷ [] }
        else round
  ]

  unfoldable pub grow_edges : SearchPath → List EdgeRef → Round → Round
  grow_edges current [] round = round
  grow_edges current (r ∷ refs) round = grow_edges current refs (grow_edge current r round)

  -- `expect` on the last token: a path always has one.
  unfoldable pub grow_path : SearchPath → Round → Round
  grow_path current round = elim (last current.tokens) [
    | none ↦ round
    | some node ↦
        grow_edges current
          (take v.finder.tuning.max_virtual_branches_per_node (virtual_outgoing v g node)) round
  ]

  unfoldable pub grow_frontier : List SearchPath → Round → Round
  grow_frontier [] round = round
  grow_frontier (current ∷ frontier) round = grow_frontier frontier (grow_path current round)

  -- `for _ in 0..max_hops`
  unfoldable pub rounds : (left : ℕ) → (frontier out : List SearchPath) → List SearchPath
  rounds zero frontier out = out
  rounds (suc left) frontier out =
      let round = grow_frontier frontier (record { out = out; next_frontier = [] }) in
      let out' = take v.finder.tuning.top_k_paths_per_side (sort_paths round.out) in
      elim (take v.finder.tuning.path_beam_width (sort_paths round.next_frontier)) [
        | [] ↦ out'
        | p ∷ ps ↦ rounds left (p ∷ ps) out'
      ]

unfoldable pub find_top_paths : View → GraphSnapshot → (start target max_hops : ℕ) → List SearchPath
find_top_paths v g start target max_hops =
    let found = rounds v g target max_hops (initial start ∷ []) [] in
    if start == target
    then initial start ∷ []
    else take v.finder.tuning.top_k_paths_per_side (sort_paths found)
