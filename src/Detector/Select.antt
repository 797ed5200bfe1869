-- ===== src/Detector/Select.antt =====
-- src/detector/path_finder.rs: the ranking of candidates and the choice of those that are kept. A map
-- with texts as keys is an association list.
use Prim.Native.Nat.{compare, Ordering}
use Prim.Native.String.{String, ◌++◌ as ◌⧺◌}
use dex_arbitrage.Prelude.{
  ℕ, suc, ◌/◌, ◌^◌, ◌==◌, ltb, leb, Bool, true, false, ◌||◌, ◌&&◌, not, Option, none, some, List,
  [], ◌∷◌, ◌++◌, map, if◌then◌else◌, length, max, saturating_mul, u128_max, u64_max,
}
use dex_arbitrage.Prelude.Int.{ℤ, pos, negsuc}
use dex_arbitrage.Prelude.Sorting.{compare_ℤ, then_with, is_lt, sort_by}
use dex_arbitrage.Detector.Candidate.{
  CandidatePath, same_text, has_text, canonical_token_cycle_key, canonical_anchor_pool_cycle_key,
}

unfoldable pub screening_edge_bps : ℤ → ℕ
screening_edge_bps (pos n) = 0
screening_edge_bps (negsuc n) = saturating_mul u128_max (suc n) 10_000 / 2 ^ 32

unfoldable pub candidate_profit_potential_usd_e8 : CandidatePath → ℕ
candidate_profit_potential_usd_e8 c =
    saturating_mul u128_max
      (saturating_mul u128_max c.route_capacity_usd_e8 (screening_edge_bps c.screening_score_q32))
      c.route_quality_bps
    / 100_000_000

abbrev by_potential : (left right : ℕ) → (scores : Ordering) → Ordering
by_potential left right scores = if left == 0 && right == 0 then scores else compare right left

unfoldable pub candidate_ordering : CandidatePath → CandidatePath → Ordering
candidate_ordering left right =
    let scores = compare_ℤ left.screening_score_q32 right.screening_score_q32 in
    then_with
      (by_potential (candidate_profit_potential_usd_e8 left)
        (candidate_profit_potential_usd_e8 right) scores)
      (then_with scores (
        then_with (compare right.route_capacity_usd_e8 left.route_capacity_usd_e8)
          (compare (length left.path) (length right.path))))

abbrev pub TextMap : Type 0 → Type 0
TextMap V = List (String × V)

module _ {V : Type 0} where
  unfoldable pub lookup_text : String → TextMap V → Option V
  lookup_text key [] = none
  lookup_text key ((first, value) ∷ rest) =
      if same_text first key then some value else lookup_text key rest

  unfoldable pub insert_text : String → V → TextMap V → TextMap V
  insert_text key value [] = (key, value) ∷ []
  insert_text key value ((first, old) ∷ rest) =
      if same_text first key
      then (first, value) ∷ rest
      else (first, old) ∷ insert_text key value rest

-- `entry(key).or_insert(0)`
abbrev pub count_of : String → TextMap ℕ → ℕ
count_of key counts = elim (lookup_text key counts) [ none ↦ 0 | some n ↦ n ]

abbrev pub variants_of : String → TextMap (List CandidatePath) → List CandidatePath
variants_of key m = elim (lookup_text key m) [ none ↦ [] | some variants ↦ variants ]

-- `variants.last()` is worse than the candidate.
unfoldable pub beats_last : CandidatePath → List CandidatePath → Bool
beats_last c [] = false
beats_last c (worst ∷ []) = is_lt (candidate_ordering c worst)
beats_last c (x ∷ y ∷ rest) = beats_last c (y ∷ rest)

-- `*variants.last_mut() = candidate`
unfoldable pub replace_last : CandidatePath → List CandidatePath → List CandidatePath
replace_last c [] = []
replace_last c (worst ∷ []) = c ∷ []
replace_last c (x ∷ y ∷ rest) = x ∷ replace_last c (y ∷ rest)

-- The new map, and whether the list of the key has grown.
unfoldable pub insert_token_path_variant :
    TextMap (List CandidatePath)
    → String
    → CandidatePath
    → (max_variants : ℕ) → TextMap (List CandidatePath) × Bool
insert_token_path_variant m key c max_variants =
    let variants = variants_of key m in
    if ltb (length variants) (max max_variants 1)
    then (insert_text key (sort_by candidate_ordering (variants ++ c ∷ [])) m, true)
    else if beats_last c variants
    then (insert_text key (sort_by candidate_ordering (replace_last c variants)) m, false)
    else (m, false)

-- `into_values().flat_map(...)`
unfoldable pub flatten_candidate_map : TextMap (List CandidatePath) → List CandidatePath
flatten_candidate_map [] = []
flatten_candidate_map ((key, variants) ∷ rest) = variants ++ flatten_candidate_map rest

unfoldable pub candidate_selection_budget : (max_candidates_per_refresh multiplier : ℕ) → ℕ
candidate_selection_budget max_candidates multiplier =
    saturating_mul u64_max max_candidates (max multiplier 1)

-- What the first loop over the candidates has chosen and counted.
pub record Selection : Type 0 where
  pub selected : List CandidatePath
  pub pool_cycles : List String
  pub token_cycle_counts : TextMap ℕ
  pub anchor_cycle_counts : TextMap ℕ

-- `format!("{}:{}", token_key, candidate.start_token)`
abbrev pub anchor_key_of : (show : ℕ → String) → CandidatePath → String
anchor_key_of show c = canonical_token_cycle_key show c ⧺ (":" ⧺ show c.start_token)

module _ (show : ℕ → String) (max_candidates variants_per_cycle variants_per_anchor : ℕ) where
  unfoldable pub consider : CandidatePath → Selection → Selection
  consider c s =
      let pool_key = canonical_anchor_pool_cycle_key show c in
      let token_key = canonical_token_cycle_key show c in
      let count = count_of token_key s.token_cycle_counts in
      let anchor_count = count_of (anchor_key_of show c) s.anchor_cycle_counts in
      if has_text s.pool_cycles pool_key
      then s
      else if leb variants_per_cycle count
      then record s { pool_cycles = pool_key ∷ s.pool_cycles }
      else if leb variants_per_anchor anchor_count
      then record s { pool_cycles = pool_key ∷ s.pool_cycles }
      else record {
        selected = s.selected ++ c ∷ [];
        pool_cycles = pool_key ∷ s.pool_cycles;
        token_cycle_counts = insert_text token_key (suc count) s.token_cycle_counts;
        anchor_cycle_counts =
            insert_text (anchor_key_of show c) (suc anchor_count) s.anchor_cycle_counts;
      }

  -- The first loop: it ends once enough are selected, which is looked at after each selection.
  unfoldable pub select : List CandidatePath → Selection → List CandidatePath
  select [] s = s.selected
  select (c ∷ cs) s =
      let t = consider c s in
      let rest = select cs t in
      if ltb (length s.selected) (length t.selected) && leb max_candidates (length t.selected)
      then t.selected
      else rest

-- The second loop: what is left, as long as there is room.
unfoldable pub fill :
    (show : ℕ → String)
    → (max_candidates : ℕ) → List CandidatePath
    → (pool_cycles : List String) → (selected : List CandidatePath) → List CandidatePath
fill show max_candidates [] pool_cycles selected = selected
fill show max_candidates (c ∷ cs) pool_cycles selected =
    let pool_key = canonical_anchor_pool_cycle_key show c in
    let with_it = fill show max_candidates cs (pool_key ∷ pool_cycles) (selected ++ c ∷ []) in
    let without = fill show max_candidates cs pool_cycles selected in
    if leb max_candidates (length selected)
    then selected
    else if has_text pool_cycles pool_key
    then without
    else with_it

-- An early return of the first loop leaves no room either.
unfoldable pub finalize_candidates_with_tuning :
    (show : ℕ → String)
    → List CandidatePath
    → (max_candidates_per_refresh canonical_variants_per_cycle anchor_variants_per_cycle : ℕ)
    → (fill_rotated_candidates : Bool) → List CandidatePath
finalize_candidates_with_tuning show candidates max_candidates per_cycle per_anchor fill_rotated =
    let sorted = sort_by candidate_ordering candidates in
    let selected = select show max_candidates (max per_cycle 1) (max per_anchor 1) sorted (record {
      selected = [];
      pool_cycles = [];
      token_cycle_counts = [];
      anchor_cycle_counts = [];
    }) in
    if not fill_rotated || leb max_candidates (length selected)
    then selected
    else fill show max_candidates sorted (map (canonical_anchor_pool_cycle_key show) selected)
        selected
