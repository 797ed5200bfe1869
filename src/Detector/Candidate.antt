-- ===== src/Detector/Candidate.antt =====
-- src/types.rs and src/detector/path_finder.rs: a candidate and the texts that name its cycle. The
-- text of an address is alloy's, `show`.
use Prim.Native.Nat.{Ordering}
use Prim.Native.String.{String, compare, ◌++◌ as ◌⧺◌}
use dex_arbitrage.Prelude.{
  ℕ, zero, suc, ◌+◌, ◌-◌, ◌%◌, Bool, true, false, ◌||◌, none, some, List, [], ◌∷◌, ◌++◌, map,
  if◌then◌else◌, get_elem?, length, take,
}
use dex_arbitrage.Prelude.Int.{ℤ}
use dex_arbitrage.Prelude.Sorting.{then_with, is_gt}
use dex_arbitrage.Types.{AmmKind, EdgeRef}
use dex_arbitrage.Graph.{GraphSnapshot, edge}
use dex_arbitrage.Detector.{SearchPath}

pub record CandidateHop : Type 0 where
  pub from : ℕ
  pub to : ℕ
  pub pool_id : ℕ
  pub amm_kind : AmmKind
  pub dex_name : String

pub record CandidatePath : Type 0 where
  pub snapshot_id : ℕ
  pub start_token : ℕ
  pub start_symbol : String
  pub screening_score_q32 : ℤ
  pub route_capacity_usd_e8 : ℕ
  pub route_quality_bps : ℕ
  pub cycle_key : String
  pub path : List CandidateHop

abbrev pub same_text : String → String → Bool
same_text a b = elim (compare a b) [ Ordering.eq ↦ true | _ ↦ false ]

unfoldable pub has_text : List String → String → Bool
has_text [] text = false
has_text (first ∷ rest) text = same_text first text || has_text rest text

-- `parts.join(separator)`
abbrev pub join : (separator : String) → List String → String
join separator [] = ""
join separator (part ∷ []) = part
join separator (part ∷ next ∷ rest) = part ⧺ (separator ⧺ join separator (next ∷ rest))

-- `tokens[index]`, where the answer for an index out of bounds is not used.
abbrev at_or {ℓ} : {A : Type ℓ} → A → List A → ℕ → A
at_or other xs index = elim (get_elem? xs index) [ none ↦ other | some x ↦ x ]

module _ {ℓ} {A : Type ℓ} (cmp : A → A → Ordering) (xs : List A) where
  abbrev compare_at : ℕ → ℕ → Ordering
  compare_at lhs rhs = elim (get_elem? xs lhs) [
    | none ↦ Ordering.eq
    | some a ↦ elim (get_elem? xs rhs) [ none ↦ Ordering.eq | some b ↦ cmp a b ]
  ]

  -- `for offset in 0..tokens.len()`, the first difference deciding.
  unfoldable pub compare_rotation : (todo offset left right : ℕ) → Ordering
  compare_rotation zero offset left right = Ordering.eq
  compare_rotation (suc todo) offset left right =
      then_with (compare_at ((left + offset) % length xs) ((right + offset) % length xs))
        (compare_rotation todo (suc offset) left right)

  -- `min_by` over the starts that are left: the first of the least ones.
  unfoldable pub best_start : (todo next best : ℕ) → ℕ
  best_start zero next best = best
  best_start (suc todo) next best =
      best_start todo (suc next)
        (if is_gt (compare_rotation (length xs) 0 best next) then next else best)

  -- The entries from the best start on.
  unfoldable pub rotated : (todo offset start : ℕ) → List A
  rotated zero offset start = []
  rotated (suc todo) offset start = elim (get_elem? xs ((start + offset) % length xs)) [
    | none ↦ rotated todo (suc offset) start
    | some x ↦ x ∷ rotated todo (suc offset) start
  ]

  abbrev least_rotation : List A
  least_rotation = rotated (length xs) 0 (best_start (length xs - 1) 1 0)

module _ (show : ℕ → String) where
  unfoldable pub candidate_token_cycle_key : CandidatePath → String
  candidate_token_cycle_key c = join ">" (show c.start_token ∷ map (λ hop. show hop.to) c.path)

  -- The first token once more at the end.
  unfoldable pub canonical_token_cycle_key : CandidatePath → String
  canonical_token_cycle_key c =
      let tokens =
        c.start_token ∷ map (λ (hop : CandidateHop). hop.to) (take (length c.path - 1) c.path) in
      let least = least_rotation Prim.Native.Nat.compare tokens in
      join ">" (map show least ++ show (at_or c.start_token least 0) ∷ [])

  abbrev hop_text : (from to pool_id : ℕ) → String
  hop_text from to pool_id = show from ⧺ (">" ⧺ (show to ⧺ (":" ⧺ show pool_id)))

  unfoldable pub canonical_pool_cycle_key : CandidatePath → String
  canonical_pool_cycle_key c = elim c.path [
    | [] ↦ show c.start_token
    | hop ∷ hops ↦ join "|" (
        least_rotation compare
          (map (λ (h : CandidateHop). hop_text h.from h.to h.pool_id) (hop ∷ hops)))
  ]

  unfoldable pub canonical_anchor_pool_cycle_key : CandidatePath → String
  canonical_anchor_pool_cycle_key c = show c.start_token ⧺ (":" ⧺ canonical_pool_cycle_key c)

  -- `filter_map`: a reference that leads nowhere is left out.
  unfoldable pub route_texts : GraphSnapshot → List EdgeRef → List String
  route_texts g [] = []
  route_texts g (r ∷ refs) = elim (edge g r) [
    | none ↦ route_texts g refs
    | some e ↦ elim (get_elem? g.tokens e.from) [
      | none ↦ route_texts g refs
      | some from ↦ elim (get_elem? g.tokens e.to) [
        | none ↦ route_texts g refs
        | some to ↦ hop_text from.address to.address e.pool_id ∷ route_texts g refs
      ]
    ]
  ]

  unfoldable pub route_cycle_key : GraphSnapshot → SearchPath → EdgeRef → SearchPath → String
  route_cycle_key g prefix changed_edge_ref suffix =
      join "|" (route_texts g (prefix.edge_refs ++ changed_edge_ref ∷ suffix.edge_refs))
