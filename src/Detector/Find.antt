-- ===== src/Detector/Find.antt =====
-- src/detector/path_finder.rs: the loops of `find_candidates`.
use Prim.Native.String.{String}
use dex_arbitrage.Prelude.{
  ℕ, ◌+◌, ◌-◌, ◌==◌, ltb, leb, Bool, true, false, ◌||◌, not, Option, none, some, List, [], ◌∷◌,
  ◌++◌, if◌then◌else◌, get_elem?, length, saturating_add, u64_max,
}
use dex_arbitrage.Prelude.Int.{ltb_ℤ}
use dex_arbitrage.Types.{EdgeRef}
use dex_arbitrage.Graph.{GraphSnapshot, edge}
use dex_arbitrage.Graph.Distance.{DistanceCache}
use dex_arbitrage.Detector.{SearchPath, candidate_pair_edges}
use dex_arbitrage.Detector.Search.{add_i64, find_top_paths}
use dex_arbitrage.Detector.Candidate.{
  CandidatePath, has_text, candidate_token_cycle_key, route_cycle_key,
}
use dex_arbitrage.Detector.Select.{
  TextMap, insert_token_path_variant, flatten_candidate_map, candidate_selection_budget,
  finalize_candidates_with_tuning,
}
use dex_arbitrage.Detector.Cycle.{
  Pair, Setting, view_of, done, dropped, panicked, changed_virtual_pairs, anchor_can_participate,
  forms_simple_cycle, materialize_candidate,
}

-- What the loops change.
pub record Gathered : Type 0 where
  pub candidates : List CandidatePath
  pub token_path_candidates : TextMap (List CandidatePath)
  pub token_path_candidate_count : ℕ
  pub dedup : List String

-- What a turn of a loop leaves: the lists, or the answer of the whole search.
pub data Step : Type 0 where
  go : Gathered → Step
  answer : List CandidatePath → Step
  failed : Step

-- A `for` loop whose body may return from the search.
unfoldable pub each {ℓ} : {A : Type ℓ} → (A → Gathered → Step) → List A → Gathered → Step
each body [] st = go st
each body (x ∷ xs) st = elim (body x st) [
  | go next ↦ each body xs next
  | answer candidates ↦ answer candidates
  | failed ↦ failed
]

unfoldable pub finalize_candidates : Setting → List CandidatePath → List CandidatePath
finalize_candidates s candidates =
    finalize_candidates_with_tuning s.show candidates s.finder.tuning.max_candidates_per_refresh
      s.finder.tuning.canonical_variants_per_cycle s.finder.tuning.anchor_variants_per_cycle
      s.env.fill_rotated_candidates

-- What the arguments of the search fix.
pub record Refresh : Type 0 where
  pub setting : Setting
  pub graph : GraphSnapshot
  pub use_route_capacity_filter : Bool
  pub selection_budget : ℕ

module _ (q : Refresh) where
  abbrev s : Setting
  s = q.setting

  abbrev g : GraphSnapshot
  g = q.graph

  unfoldable pub gather : CandidatePath → Gathered → Step
  gather c st =
      let added =
        insert_token_path_variant st.token_path_candidates (candidate_token_cycle_key s.show c) c
          s.finder.tuning.pool_variants_per_token_path in
      let count =
        if added.1
        then saturating_add u64_max st.token_path_candidate_count 1
        else st.token_path_candidate_count in
      let candidates = st.candidates ++ c ∷ [] in
      if s.finder.tuning.dedup_token_paths
      then if leb q.selection_budget count
        then answer (finalize_candidates s (flatten_candidate_map added.0))
        else go (record st { token_path_candidates = added.0; token_path_candidate_count = count })
      else if leb q.selection_budget (length candidates)
      then answer (finalize_candidates s candidates)
      else go (record st { candidates = candidates })

  unfoldable pub try_cycle :
      (anchor_idx to : ℕ)
      → (changed_edge_ref changed_path_ref : EdgeRef) → (prefix suffix : SearchPath) → Gathered
      → Step
  try_cycle anchor_idx to changed_edge_ref changed_path_ref prefix suffix st =
      let total_hops = length prefix.edge_refs + 1 + length suffix.edge_refs in
      if ltb s.finder.max_hops total_hops || ltb total_hops 2
      then go st
      else if not (forms_simple_cycle prefix to suffix)
      then go st
      else elim (edge g changed_path_ref) [
        | none ↦ go st
        | some changed ↦
            let score =
              add_i64 (add_i64 prefix.score_q32 changed.weight_log_q32) suffix.score_q32 in
            let key = route_cycle_key s.show g prefix changed_path_ref suffix in
            let st' : Gathered = record st { dedup = key ∷ st.dedup } in
            if not (ltb_ℤ score s.finder.screening_cutoff_q32)
            then go st
            else if has_text st.dedup key
            then go st
            else elim (materialize_candidate s g anchor_idx key score
                (prefix.edge_refs ++ changed_path_ref ∷ suffix.edge_refs) changed_edge_ref
                q.use_route_capacity_filter) [
                  | done c ↦ gather c st'
                  | dropped ↦ go st'
                  | panicked ↦ failed
                ]
      ]

  -- An empty side leaves nothing to loop over, as `continue` does.
  unfoldable pub try_anchor :
      (from to : ℕ)
      → (changed_edge_ref : EdgeRef) → List EdgeRef
      → (anchor_idx : ℕ) → Gathered
      → Step
  try_anchor from to changed_edge_ref changed_candidate_edges anchor_idx st =
      let prefixes = find_top_paths (view_of s g) g anchor_idx from (s.finder.max_hops - 1) in
      let suffixes = find_top_paths (view_of s g) g to anchor_idx (s.finder.max_hops - 1) in
      if not (anchor_can_participate g anchor_idx from to)
      then go st
      else each
          (λ changed_path_ref.
            each
              (λ prefix.
                each
                  (λ suffix.
                    try_cycle anchor_idx to changed_edge_ref changed_path_ref prefix suffix)
                  suffixes)
              prefixes)
          changed_candidate_edges st

  -- The flag of `to` is read only if that of `from` is up. With no edges left the loop does nothing.
  unfoldable pub try_pair : DistanceCache → Pair × EdgeRef → Gathered → Step
  try_pair cache entry st = elim (get_elem? cache.reachable_from_anchor entry.0.0) [
    | none ↦ failed
    | some false ↦ go st
    | some true ↦ elim (get_elem? cache.reachable_to_anchor entry.0.1) [
      | none ↦ failed
      | some false ↦ go st
      | some true ↦
          let changed_candidate_edges = candidate_pair_edges (view_of s g) g entry.0.0 entry.0.1 in
          each (try_anchor entry.0.0 entry.0.1 entry.1 changed_candidate_edges)
            g.cycle_anchor_indices st
    ]
  ]

  -- `none`: a panic.
  unfoldable pub search_pairs : DistanceCache → List (Pair × EdgeRef) → Option (List CandidatePath)
  search_pairs cache [] = some []
  search_pairs cache (pair ∷ pairs) =
      elim (each (try_pair cache) (pair ∷ pairs) (record {
        candidates = [];
        token_path_candidates = [];
        token_path_candidate_count = 0;
        dedup = [];
      })) [
        | go st ↦ some (
            finalize_candidates s (
              if s.finder.tuning.dedup_token_paths
              then flatten_candidate_map st.token_path_candidates
              else st.candidates))
        | answer candidates ↦ some candidates
        | failed ↦ none
      ]

abbrev pub refresh_of : Setting → GraphSnapshot → (changed : ℕ) → Refresh
refresh_of s g changed = record {
  setting = s;
  graph = g;
  use_route_capacity_filter = leb changed s.env.prefilter_max_changed_edges;
  selection_budget = candidate_selection_budget s.finder.tuning.max_candidates_per_refresh (
      if ltb s.env.large_refresh_threshold changed
      then s.env.large_refresh_multiplier
      else s.finder.tuning.candidate_selection_buffer_multiplier);
}

unfoldable pub find_candidates :
    Setting
    → GraphSnapshot
    → (changed_edges : List EdgeRef) → DistanceCache
    → Option (List CandidatePath)
find_candidates s g changed_edges cache =
    if ltb s.finder.max_hops 2 || length changed_edges == 0
    then some []
    else search_pairs (refresh_of s g (length changed_edges)) cache
        (changed_virtual_pairs g changed_edges)
