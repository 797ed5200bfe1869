-- ===== src/Detector/Outgoing.antt =====
-- src/detector/path_finder.rs: what `virtual_outgoing` offers.
use dex_arbitrage.Prelude.{
  ℕ, ◌≡◌, refl, List, [], ◌∷◌, ◌++◌, All, map, ◌==◌, Bool-cases, inl, inr, Option-cases,
}
use dex_arbitrage.Prelude.Map.{Map, lookup, insert}
use dex_arbitrage.Prelude.Sorting.{sort_by-All, take-All, append-All}
use dex_arbitrage.Types.{Edge, EdgeRef}
use dex_arbitrage.Graph.{GraphSnapshot, edge, or_default}
use dex_arbitrage.Graph.Rows.{All-snoc}
use dex_arbitrage.Detector.{
  View, ranked_outgoing, compare_edge_refs, edge_is_usable, group_by_to, best_of_groups,
  virtual_outgoing,
}

map-All :
    (vertex : ℕ) (es : List (ℕ × Edge))
    → All
        (λ (r : EdgeRef). r.from ≡ vertex)
        (map (λ (pair : ℕ × Edge). record { from = vertex; edge_idx = pair.0 }) es)
map-All vertex [] = tt
map-All vertex (e ∷ es) = (refl, map-All vertex es)

ranked_outgoing-All :
    (g : GraphSnapshot) (vertex : ℕ) → All (λ r. r.from ≡ vertex) (ranked_outgoing g vertex)
unfolding ranked_outgoing
ranked_outgoing-All g vertex = map-All vertex _

module _ (P : EdgeRef → Type 0) where
  abbrev AllIn : Map (List EdgeRef) → Type 0
  AllIn m = All (λ entry. All P entry.1) m

  lookup-AllIn : (key : ℕ) (m : Map (List EdgeRef)) → AllIn m → All P (or_default (lookup key m))
  unfolding lookup
  lookup-AllIn key [] a = tt
  lookup-AllIn key ((first, refs) ∷ rest) a = elim (Bool-cases (first == key)) [
    | inl e ↦ rw (lookup, e) a.0
    | inr e ↦ rw (lookup, e) (lookup-AllIn key rest a.1)
  ]

  insert-AllIn :
      (key : ℕ) (refs : List EdgeRef) (m : Map (List EdgeRef))
      → All P refs
      → AllIn m
      → AllIn (insert key refs m)
  unfolding insert
  insert-AllIn key refs [] p a = (p, tt)
  insert-AllIn key refs ((first, old) ∷ rest) p a = elim (Bool-cases (first == key)) [
    | inl e ↦ rw (insert, e) (p, a.1)
    | inr e ↦ rw (insert, e) (a.0, insert-AllIn key refs rest p a.1)
  ]

  group_by_to-AllIn :
      (v : View) (g : GraphSnapshot) (refs : List EdgeRef) (by_to : Map (List EdgeRef))
      → All P refs
      → AllIn by_to
      → AllIn (group_by_to v g refs by_to)
  unfolding group_by_to
  group_by_to-AllIn v g [] by_to p a = a
  group_by_to-AllIn v g (r ∷ refs) by_to p a = elim (Option-cases (edge g r)) [
    | inl k ↦ rw (group_by_to, k) (group_by_to-AllIn v g refs by_to p.1 a)
    | inr (e, k) ↦ elim (Bool-cases (edge_is_usable v e)) [
      | inl u ↦
          rw (group_by_to, k, u)
            (group_by_to-AllIn v g refs
              (insert e.to (or_default (lookup e.to by_to) ++ r ∷ []) by_to) p.1
              (insert-AllIn e.to (or_default (lookup e.to by_to) ++ r ∷ []) by_to
                (All-snoc P (or_default (lookup e.to by_to)) r (lookup-AllIn e.to by_to a) p.0) a))
      | inr u ↦ rw (group_by_to, k, u) (group_by_to-AllIn v g refs by_to p.1 a)
    ]
  ]

  best_of_groups-All :
      (v : View) (g : GraphSnapshot) (m : Map (List EdgeRef))
      → AllIn m
      → All P (best_of_groups v g m)
  unfolding best_of_groups
  best_of_groups-All v g [] a = tt
  best_of_groups-All v g ((to, refs) ∷ rest) a =
      append-All P _ _
        (take-All P v.finder.tuning.max_pair_edges_per_pair _
          (sort_by-All P (compare_edge_refs g) refs a.0))
        (best_of_groups-All v g rest a.1)

pub virtual_outgoing-All :
    (v : View) (g : GraphSnapshot) (vertex : ℕ)
    → All (λ r. r.from ≡ vertex) (virtual_outgoing v g vertex)
unfolding virtual_outgoing
virtual_outgoing-All v g vertex =
    sort_by-All (λ r. r.from ≡ vertex) (compare_edge_refs g) _
      (best_of_groups-All (λ r. r.from ≡ vertex) v g _
        (group_by_to-AllIn (λ r. r.from ≡ vertex) v g (ranked_outgoing g vertex) []
          (ranked_outgoing-All g vertex) tt))
