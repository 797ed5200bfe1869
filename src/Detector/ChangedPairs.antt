-- ===== src/Detector/ChangedPairs.antt =====
-- src/detector/path_finder.rs: the changed pairs and the edges between them.
use dex_arbitrage.Prelude.{
  ℕ, ◌≡◌, refl, subst, arith, ◌∙◌, ◌&&◌, ◌==◌, some, List, [], ◌∷◌, All, Any, keep, Bool-cases,
  Option-cases, inl, inr,
}
use dex_arbitrage.Prelude.Sorting.{sort_by-All, take-All}
use dex_arbitrage.Types.{EdgeRef}
use dex_arbitrage.Graph.{GraphSnapshot, PairMap, edge, lookup_pair, insert_pair, or_default}
use dex_arbitrage.Graph.Indexed.{Leads}
use dex_arbitrage.Graph.Snapshot.{Sound, edge-row_of}
use dex_arbitrage.Detector.{
  View, edge_is_usable, usable_ref, better_edge_ref, compare_edge_refs, candidate_pair_edges,
}
use dex_arbitrage.Detector.Walk.{Hop}
use dex_arbitrage.Detector.Cycle.{Pair, best_by_pair, changed_virtual_pairs}
use dex_arbitrage.Detector.SimpleCycle.{Joining}

-- A pair with a changed edge, which the reference leads to.
pub record ChangedPair (g : GraphSnapshot) (changed_edges : List EdgeRef) (entry : Pair × EdgeRef)
    : Type 0 where
  pub joining : Joining g entry.0.0 entry.0.1 entry.1
  pub changed : Any (Joining g entry.0.0 entry.0.1) changed_edges

module _ (P : Pair × EdgeRef → Type 0) where
  insert_pair-All :
      (key : Pair) (r : EdgeRef) (m : PairMap EdgeRef)
      → P (key, r)
      → All P m
      → All P (insert_pair key r m)
  unfolding insert_pair
  insert_pair-All key r [] p a = (p, tt)
  insert_pair-All key r ((first, old) ∷ rest) p a =
      elim (Bool-cases (first.0 == key.0 && first.1 == key.1)) [
        | inl e ↦
            let left : key.0 ≡ first.0 = ground arith in
            let right : key.1 ≡ first.1 = ground arith in
            rw (insert_pair, e)
              (subst (λ y. P ((first.0, y), r)) right (subst (λ x. P ((x, key.1), r)) left p), a.1)
        | inr e ↦ rw (insert_pair, e) (a.0, insert_pair-All key r rest p a.1)
      ]

module _ (g : GraphSnapshot) (changed_edges : List EdgeRef) where
  best_by_pair-All :
      (refs : List EdgeRef) (m : PairMap EdgeRef)
      → ((from to : ℕ) → Any (Joining g from to) refs → Any (Joining g from to) changed_edges)
      → All (ChangedPair g changed_edges) m
      → All (ChangedPair g changed_edges) (best_by_pair g refs m)
  unfolding best_by_pair
  best_by_pair-All [] m f a = a
  best_by_pair-All (r ∷ refs) m f a = elim (Option-cases (edge g r)) [
    | inl k ↦ rw (best_by_pair, k) (best_by_pair-All refs m (λ from to h. f from to (inr h)) a)
    | inr (e, k) ↦
        let here : Joining g e.from e.to r = record {
          target = e;
          found = k;
          leaves = refl;
          enters = refl;
        } in
        let added =
          insert_pair-All (ChangedPair g changed_edges) (e.from, e.to) r m
            (record { joining = here; changed = f e.from e.to (inl here) }) a in
        let more = λ (m' : PairMap EdgeRef) (a' : All (ChangedPair g changed_edges) m').
          best_by_pair-All refs m' (λ from to h. f from to (inr h)) a' in
        elim (Option-cases (lookup_pair (e.from, e.to) m)) [
          | inl l ↦ rw (best_by_pair, k, l) (more (insert_pair (e.from, e.to) r m) added)
          | inr (current, l) ↦ elim (Bool-cases (better_edge_ref g r current)) [
            | inl b ↦ rw (best_by_pair, k, l, b) (more (insert_pair (e.from, e.to) r m) added)
            | inr b ↦ rw (best_by_pair, k, l, b) (more m a)
          ]
        ]
  ]

  pub changed_virtual_pairs-All :
      All (ChangedPair g changed_edges) (changed_virtual_pairs g changed_edges)
  unfolding changed_virtual_pairs
  changed_virtual_pairs-All =
      sort_by-All (ChangedPair g changed_edges) _ (best_by_pair g changed_edges [])
        (best_by_pair-All changed_edges [] (λ from to h. h) tt)

-- The references of a pair that are kept lead along usable edges between its tokens.
keep-Hop :
    (v : View) (g : GraphSnapshot) (from to : ℕ) (refs : List EdgeRef)
    → All (Leads g.adjacency (λ e. (e.from ≡ from) × (e.to ≡ to))) refs
    → All (λ r. Hop v g r from to) (keep (usable_ref v g) refs)
unfolding keep
keep-Hop v g from to [] a = tt
keep-Hop v g from to (r ∷ refs) a =
    let found : edge g r ≡ some a.0.target = edge-row_of g r ∙ a.0.found in
    elim (Bool-cases (edge_is_usable v a.0.target)) [
      | inl u ↦
          rw (keep, usable_ref, found, u)
            (
              record {
                target = a.0.target;
                found = found;
                usable = u;
                leaves = a.0.holds.0;
                enters = a.0.holds.1;
              },
              keep-Hop v g from to refs a.1,
            )
      | inr u ↦ rw (keep, usable_ref, found, u) (keep-Hop v g from to refs a.1)
    ]

pub candidate_pair_edges-Hop :
    (v : View) (g : GraphSnapshot) (from to : ℕ)
    → Sound g
    → All (λ r. Hop v g r from to) (candidate_pair_edges v g from to)
unfolding candidate_pair_edges
candidate_pair_edges-Hop v g from to sound =
    elim (Option-cases (lookup_pair (from, to) g.pair_to_edges)) [
      | inl e ↦ rw (candidate_pair_edges, e) tt
      | inr (refs, e) ↦
          let leads : All (Leads g.adjacency (λ x. (x.from ≡ from) × (x.to ≡ to))) refs =
            subst (λ o. All (Leads g.adjacency (λ x. (x.from ≡ from) × (x.to ≡ to))) (or_default o))
              e (sound.pairs (from, to)) in
          rw (candidate_pair_edges, e)
            (take-All (λ r. Hop v g r from to) _ _
              (sort_by-All (λ r. Hop v g r from to) (compare_edge_refs g) _
                (keep-Hop v g from to refs leads)))
    ]
