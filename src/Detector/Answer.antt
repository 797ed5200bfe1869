-- ===== src/Detector/Answer.antt =====
-- src/detector/path_finder.rs: the answer of `find_candidates`.
use dex_arbitrage.Prelude.{
  ℕ, ◌≡◌, refl, subst, arith, ◌||◌, ◌==◌, Option, none, some, List, [], ◌∷◌, All, length, ltb,
  Bool-cases, inl, inr, if◌then◌else◌,
}
use dex_arbitrage.Prelude.Map.{Map}
use dex_arbitrage.Types.{BlockRef, EdgeRef, PoolState, TokenInfo}
use dex_arbitrage.Graph.{GraphSnapshot}
use dex_arbitrage.Graph.Build.{SpotRates, build}
use dex_arbitrage.Graph.Snapshot.{Sound, build-Sound}
use dex_arbitrage.Graph.Distance.{DistanceCache, recompute}
use dex_arbitrage.Graph.Distance.Reach.{recompute-build}
use dex_arbitrage.Detector.Candidate.{CandidatePath}
use dex_arbitrage.Detector.Cycle.{Pair, Setting, changed_virtual_pairs}
use dex_arbitrage.Detector.Closed.{IsCycle}
use dex_arbitrage.Detector.Find.{
  Step, go, answer, failed, finalize_candidates, try_pair, search_pairs, refresh_of,
  find_candidates,
}
use dex_arbitrage.Detector.ChangedPairs.{ChangedPair, changed_virtual_pairs-All}
use dex_arbitrage.Detector.Gathering.{
  Leaves, each-Leaves, Holding, Answers, finalize_gathered-Answers,
}
use dex_arbitrage.Detector.Cycles.{Sized, try_pair-Turn}
use dex_arbitrage.Detector.Select.{flatten_candidate_map}

-- The search ends with no panic, and all that it gives are cycles.
pub record Found (s : Setting) (g : GraphSnapshot) (changed_edges : List EdgeRef)
    (result : Option (List CandidatePath)) : Type 0 where
  pub candidates : List CandidatePath
  pub ends : result ≡ some candidates
  pub answers : Answers (IsCycle s g changed_edges) s candidates

none-Answers : (s : Setting) (P : CandidatePath → Type 0) → Answers P s []
none-Answers s P = record {
  members = tt;
  at_most = omega arith;
  once = λ k. omega arith;
  per_token_cycle = λ f k. omega arith;
  per_anchor_cycle = λ f k. omega arith;
}

module _ (s : Setting) (g : GraphSnapshot) (changed_edges : List EdgeRef) (cache : DistanceCache)
    (sound : Sound g) (sized : Sized g cache) where
  abbrev P : CandidatePath → Type 0
  P = IsCycle s g changed_edges

  finished :
      (step : Step)
      → Leaves (Holding P) (Answers P s) step
      → Found s g changed_edges (elim step [
        | go st ↦ some (
            finalize_candidates s (
              if s.finder.tuning.dedup_token_paths
              then flatten_candidate_map st.token_path_candidates
              else st.candidates))
        | answer candidates ↦ some candidates
        | failed ↦ none
      ])
  finished (go st) h = record {
    candidates = _;
    ends = refl;
    answers = finalize_gathered-Answers P s st h;
  }
  finished (answer cs) h = record { candidates = cs; ends = refl; answers = h }
  finished failed h = absurd h

  search_pairs-Found :
      (changed : ℕ) (pairs : List (Pair × EdgeRef))
      → All (ChangedPair g changed_edges) pairs
      → Found s g changed_edges (search_pairs (refresh_of s g changed) cache pairs)
  unfolding search_pairs
  search_pairs-Found changed [] a = record {
    candidates = [];
    ends = refl;
    answers = none-Answers s P;
  }
  search_pairs-Found changed (pair ∷ pairs) a = finished _ (
      each-Leaves (Holding P) (Answers P s) (ChangedPair g changed_edges)
        (try_pair (refresh_of s g changed) cache) (pair ∷ pairs) _
        (λ entry st p h.
          try_pair-Turn (refresh_of s g changed) changed_edges sound cache entry st sized p h)
        a (record { listed = tt; mapped = tt }))

  find_candidates-Sound : Found s g changed_edges (find_candidates s g changed_edges cache)
  unfolding find_candidates
  find_candidates-Sound = elim (Bool-cases (ltb s.finder.max_hops 2 || length changed_edges == 0)) [
    | inl e ↦
        rw (find_candidates, e)
          (record { candidates = []; ends = refl; answers = none-Answers s P })
    | inr e ↦
        rw (find_candidates, e)
          (search_pairs-Found (length changed_edges) (changed_virtual_pairs g changed_edges)
            (changed_virtual_pairs-All g changed_edges))
  ]

-- On a snapshot that `build` gives, with the distance cache that `recompute` gives for it, the search
-- returns, with no index out of bounds. Each candidate is a chain of usable edges from an anchor back
-- to it, that is on no other token twice, of at least 2 and at most `max_hops` edges, one of them
-- between two tokens that a changed edge joins, with a score below the cutoff; its hops have the
-- addresses and the pools of these edges, each starts where the last one ended, and the first at the
-- start token, where the last one ends. There are at most `max_candidates_per_refresh` candidates, or
-- one if that is 0, no two with the same start and cycle of pools, and where the rotated ones are not
-- filled in, a cycle of tokens, and such a cycle from one start, occurs no more often than its bound,
-- which counts as 1 if it is 0.
pub find_candidates-Found :
    (rates : SpotRates) (snapshot_id : ℕ) (block_ref : Option BlockRef) (tokens : List TokenInfo)
    (pools : Map PoolState) (s : Setting) (g : GraphSnapshot) (changed_edges : List EdgeRef)
    (cache : DistanceCache)
    → build rates snapshot_id block_ref tokens pools ≡ some g
    → recompute g ≡ some cache
    → Found s g changed_edges (find_candidates s g changed_edges cache)
find_candidates-Found rates snapshot_id block_ref tokens pools s g changed_edges cache h k =
    let fresh = recompute-build rates snapshot_id block_ref tokens pools g h in
    let same : fresh.cache ≡ cache = ground (arith, fresh.done) in
    find_candidates-Sound s g changed_edges cache
      (build-Sound rates snapshot_id block_ref tokens pools g h)
      (subst (Sized g) same (record { from_size = fresh.from_size; to_size = fresh.to_size }))
