-- ===== src/Detector/Cycles.antt =====
-- src/detector/path_finder.rs: what each turn of the loops of `find_candidates` leaves.
use dex_arbitrage.Prelude.{
  ℕ, ◌+◌, ◌-◌, ◌<◌, ◌≡◌, refl, subst, arith, Bool, true, false, ◌||◌, some, List, [], ◌∷◌, ◌++◌,
  All, Any, length, get_elem?, ltb, Bool-cases, inl, inr,
}
use dex_arbitrage.Prelude.Int.{ltb_ℤ}
use dex_arbitrage.Types.{EdgeRef}
use dex_arbitrage.Graph.{GraphSnapshot}
use dex_arbitrage.Graph.Snapshot.{Sound}
use dex_arbitrage.Graph.Distance.{DistanceCache}
use dex_arbitrage.Detector.{SearchPath, View}
use dex_arbitrage.Detector.Search.{add_i64}
use dex_arbitrage.Detector.Walk.{Hop}
use dex_arbitrage.Detector.Routes.{Route, find_top_paths-Sound}
use dex_arbitrage.Detector.Candidate.{CandidatePath, has_text, route_cycle_key}
use dex_arbitrage.Detector.Cycle.{
  Pair, view_of, Attempt, done, dropped, panicked, anchor_can_participate, forms_simple_cycle,
}
use dex_arbitrage.Detector.SimpleCycle.{OnDone, within}
use dex_arbitrage.Detector.Closed.{
  IsCycle, forms_simple_cycle-Closed, materialize_candidate-IsCycle,
}
use dex_arbitrage.Detector.Find.{
  Gathered, Step, go, failed, Refresh, gather, try_cycle, try_anchor, try_pair,
}
use dex_arbitrage.Detector.ChangedPairs.{ChangedPair, candidate_pair_edges-Hop}
use dex_arbitrage.Detector.Gathering.{Leaves, each-Leaves, Holding, Answers, gather-Leaves}

-- The tokens that a cache has a flag for.
pub record Sized (g : GraphSnapshot) (cache : DistanceCache) : Type 0 where
  pub from_size : length cache.reachable_from_anchor ≡ length g.tokens
  pub to_size : length cache.reachable_to_anchor ≡ length g.tokens

record Anchor (g : GraphSnapshot) (idx : ℕ) : Type 0 where
  member : Any (λ other. other ≡ idx) g.cycle_anchor_indices
  in_range : idx < length g.tokens

anchors-All :
    (n : ℕ) (anchors rest : List ℕ)
    → ((idx : ℕ) → Any (λ other. other ≡ idx) rest → Any (λ other. other ≡ idx) anchors)
    → All (λ v. v < n) rest
    → All (λ idx. Any (λ other. other ≡ idx) anchors × (idx < n)) rest
anchors-All n anchors [] f a = tt
anchors-All n anchors (x ∷ rest) f a =
    ((f x (inl refl), a.0), anchors-All n anchors rest (λ idx h. f idx (inr h)) a.1)

module _ (q : Refresh) (changed_edges : List EdgeRef) (sound : Sound q.graph) where
  abbrev pub P : CandidatePath → Type 0
  P = IsCycle q.setting q.graph changed_edges

  abbrev pub Turn : Step → Type 0
  Turn = Leaves (Holding P) (Answers P q.setting)

  module _ (entry : Pair × EdgeRef) (pair : ChangedPair q.graph changed_edges entry)
      (anchor_idx : ℕ)
      (anchor : Any (λ other. other ≡ anchor_idx) q.graph.cycle_anchor_indices
        × (anchor_idx < length q.graph.tokens)) where
    abbrev v : View
    v = view_of q.setting q.graph

    abbrev side : ℕ
    side = q.setting.finder.max_hops - 1

    made :
        (c : Attempt CandidatePath) (st : Gathered)
        → Holding P st
        → OnDone P c
        → Turn (elim c [ done c ↦ gather q c st | dropped ↦ go st | panicked ↦ failed ])
    made (done c) st h p = gather-Leaves P q c st p h
    made dropped st h p = h
    made panicked st h p = p

    try_cycle-Turn :
        (r : EdgeRef) (prefix suffix : SearchPath) (st : Gathered)
        → Hop v q.graph r entry.0.0 entry.0.1
        → Route v q.graph anchor_idx entry.0.0 side prefix
        → Route v q.graph entry.0.1 anchor_idx side suffix
        → Holding P st
        → Turn (try_cycle q anchor_idx entry.0.1 entry.1 r prefix suffix st)
    unfolding try_cycle
    try_cycle-Turn r prefix suffix st k a b h =
        let total = length prefix.edge_refs + 1 + length suffix.edge_refs in
        let key = route_cycle_key q.setting.show q.graph prefix r suffix in
        let score = add_i64 (add_i64 prefix.score_q32 k.target.weight_log_q32) suffix.score_q32 in
        elim (Bool-cases (ltb q.setting.finder.max_hops total || ltb total 2)) [
          | inl e ↦ rw (try_cycle, e) h
          | inr e ↦ elim (Bool-cases (forms_simple_cycle prefix entry.0.1 suffix)) [
            | inr f ↦ rw (try_cycle, e, f) h
            | inl f ↦ elim (Bool-cases (ltb_ℤ score q.setting.finder.screening_cutoff_q32)) [
              | inr c ↦ rw (try_cycle, e, f, k.found, c) h
              | inl c ↦ elim (Bool-cases (has_text st.dedup key)) [
                | inl d ↦ rw (try_cycle, e, f, k.found, c, d) h
                | inr d ↦
                    rw (try_cycle, e, f, k.found, c, d)
                      (made _ (record st { dedup = key ∷ st.dedup })
                        (record { listed = h.listed; mapped = h.mapped })
                        (materialize_candidate-IsCycle q.setting q.graph sound changed_edges
                          anchor_idx key score (prefix.edge_refs ++ r ∷ suffix.edge_refs)
                          (forms_simple_cycle-Closed q.setting q.graph sound anchor_idx entry.0.0
                            entry.0.1 side r prefix suffix anchor.0 anchor.1 a k b f (ground arith)
                            (ground arith))
                          c entry.1 q.use_route_capacity_filter entry.0.0 entry.0.1 pair.joining
                          pair.changed))
              ]
            ]
          ]
        ]

    try_anchor-Turn :
        (refs : List EdgeRef) (st : Gathered)
        → All (λ r. Hop v q.graph r entry.0.0 entry.0.1) refs
        → Holding P st
        → Turn (try_anchor q entry.0.0 entry.0.1 entry.1 refs anchor_idx st)
    unfolding try_anchor
    try_anchor-Turn refs st hops h =
        let prefixes = find_top_paths-Sound v q.graph anchor_idx entry.0.0 side sound in
        let suffixes = find_top_paths-Sound v q.graph entry.0.1 anchor_idx side sound in
        elim (Bool-cases (anchor_can_participate q.graph anchor_idx entry.0.0 entry.0.1)) [
          | inr e ↦ rw (try_anchor, e) h
          | inl e ↦
              rw (try_anchor, e)
                (each-Leaves (Holding P) (Answers P q.setting)
                  (λ r. Hop v q.graph r entry.0.0 entry.0.1) _ refs st
                  (λ r st k h.
                    each-Leaves (Holding P) (Answers P q.setting)
                      (Route v q.graph anchor_idx entry.0.0 side) _ _ st
                      (λ prefix st a h.
                        each-Leaves (Holding P) (Answers P q.setting)
                          (Route v q.graph entry.0.1 anchor_idx side) _ _ st
                          (λ suffix st b h. try_cycle-Turn r prefix suffix st k a b h)
                          suffixes.routes h)
                      prefixes.routes h)
                  hops h)
        ]

  pub try_pair-Turn :
      (cache : DistanceCache) (entry : Pair × EdgeRef) (st : Gathered)
      → Sized q.graph cache
      → ChangedPair q.graph changed_edges entry
      → Holding P st
      → Turn (try_pair q cache entry st)
  unfolding try_pair
  try_pair-Turn cache entry st sized pair h =
      let from_in : entry.0.0 < length q.graph.tokens =
        subst (λ x. x < length q.graph.tokens) pair.joining.leaves
          (sound.source entry.1 pair.joining.target pair.joining.found) in
      let to_in : entry.0.1 < length q.graph.tokens =
        subst (λ x. x < length q.graph.tokens) pair.joining.enters
          (sound.target entry.1 pair.joining.target pair.joining.found) in
      let (from_flag, f) =
        within cache.reachable_from_anchor entry.0.0 (rw sized.from_size from_in) in
      let (to_flag, t) = within cache.reachable_to_anchor entry.0.1 (rw sized.to_size to_in) in
      flags from_flag to_flag f t
    where
      flags :
          (from_flag to_flag : Bool)
          → get_elem? cache.reachable_from_anchor entry.0.0 ≡ some from_flag
          → get_elem? cache.reachable_to_anchor entry.0.1 ≡ some to_flag
          → Turn (try_pair q cache entry st)
      flags false to_flag f t = rw (try_pair, f) h
      flags true false f t = rw (try_pair, f, t) h
      flags true true f t =
          rw (try_pair, f, t)
            (each-Leaves (Holding P) (Answers P q.setting)
              (λ idx.
                Any (λ other. other ≡ idx) q.graph.cycle_anchor_indices
                × (idx < length q.graph.tokens))
              _ q.graph.cycle_anchor_indices st
              (λ idx st a h.
                try_anchor-Turn entry pair idx a _ st
                  (candidate_pair_edges-Hop (view_of q.setting q.graph) q.graph entry.0.0 entry.0.1
                    sound)
                  h)
              (anchors-All (length q.graph.tokens) q.graph.cycle_anchor_indices
                q.graph.cycle_anchor_indices (λ idx m. m) sound.anchors)
              h)
