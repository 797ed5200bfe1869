-- ===== src/Detector/Cycle.antt =====
-- src/detector/path_finder.rs: `find_candidates`. Its loops change one record of lists and end early
-- with an answer; `panicked` is an index out of bounds. The capacity of a route is in f64 and a
-- parameter.
use Prim.Native.Nat.{compare}
use Prim.Native.String.{String}
use dex_arbitrage.Prelude.{
  ℕ, ◌-◌, ◌==◌, ltb, leb, Bool, true, false, ◌||◌, ◌&&◌, not, Option, none, some, List, [], ◌∷◌,
  ◌++◌, map, if◌then◌else◌, get_elem?, length, take, max,
}
use dex_arbitrage.Prelude.Int.{ℤ, pos}
use dex_arbitrage.Prelude.Sorting.{compare_ℤ, then_with, sort_by}
use dex_arbitrage.Types.{EdgeRef, TokenInfo}
use dex_arbitrage.Valuation.{amount_to_usd_e8, usd_e8_to_amount}
use dex_arbitrage.Graph.{GraphSnapshot, PairMap, edge, lookup_pair, insert_pair}
use dex_arbitrage.Detector.{PathFinder, SearchPath, View, better_edge_ref}
use dex_arbitrage.Detector.Search.{contains, last}
use dex_arbitrage.Detector.Candidate.{CandidateHop, CandidatePath}
use dex_arbitrage.Detector.Policy.{
  Environment, execution_token_policy, route_tokens_allowed, route_quality_bps,
}

abbrev pub Pair : Type 0
Pair = ℕ × ℕ

-- One reference for each pair of tokens: the best of the changed ones.
unfoldable pub best_by_pair : GraphSnapshot → List EdgeRef → PairMap EdgeRef → PairMap EdgeRef
best_by_pair g [] by_pair = by_pair
best_by_pair g (r ∷ refs) by_pair = elim (edge g r) [
  | none ↦ best_by_pair g refs by_pair
  | some e ↦ best_by_pair g refs (elim (lookup_pair (e.from, e.to) by_pair) [
    | none ↦ insert_pair (e.from, e.to) r by_pair
    | some current ↦
        if better_edge_ref g r current then insert_pair (e.from, e.to) r by_pair else by_pair
  ])
]

-- `map(...).unwrap_or(i64::MAX)`
abbrev score_or_max : GraphSnapshot → EdgeRef → ℤ
score_or_max g r = elim (edge g r) [
  | none ↦ pos 9_223_372_036_854_775_807
  | some e ↦ e.weight_log_q32
]

unfoldable pub changed_virtual_pairs : GraphSnapshot → List EdgeRef → List (Pair × EdgeRef)
changed_virtual_pairs g changed_edges =
    sort_by
      (λ (a b : Pair × EdgeRef).
        then_with (compare_ℤ (score_or_max g a.1) (score_or_max g b.1))
          (then_with (compare a.0.0 b.0.0) (compare a.0.1 b.0.1)))
      (best_by_pair g changed_edges [])

unfoldable pub anchor_can_participate :
    GraphSnapshot → (anchor_idx changed_from changed_to : ℕ) → Bool
anchor_can_participate g anchor_idx changed_from changed_to =
    anchor_idx == changed_from
    || (anchor_idx == changed_to
        || elim (get_elem? g.adjacency anchor_idx) [ some (e ∷ es) ↦ true | _ ↦ false ])

-- `skip(1)`
abbrev pub rest_of : List ℕ → List ℕ
rest_of [] = []
rest_of (x ∷ xs) = xs

-- `seen.insert(token)` for each token in turn.
unfoldable pub all_new : (seen : List ℕ) → List ℕ → Bool
all_new seen [] = true
all_new seen (token ∷ tokens) = if contains seen token then false else all_new (token ∷ seen) tokens

abbrev same_ends : List ℕ → Bool
same_ends [] = true
same_ends (x ∷ xs) = elim (last (x ∷ xs)) [ none ↦ false | some y ↦ x == y ]

unfoldable pub forms_simple_cycle :
    (prefix : SearchPath) → (changed_to : ℕ) → (suffix : SearchPath) → Bool
forms_simple_cycle prefix changed_to suffix =
    let tokens = prefix.tokens ++ changed_to ∷ rest_of suffix.tokens in
    if ltb (length tokens) 3 || not (same_ends tokens)
    then false
    else all_new [] (take (length tokens - 1) tokens)

-- What a fallible step gives.
pub data Attempt {ℓ} (A : Type ℓ) : Type ℓ where
  done : A → Attempt A
  dropped : Attempt A
  panicked : Attempt A

-- The hops of a route, and whether one of them is from `from` to `to`.
unfoldable pub path_of :
    GraphSnapshot → (from to : ℕ) → List EdgeRef → Attempt (List CandidateHop × Bool)
path_of g from to [] = done ([], false)
path_of g from to (r ∷ refs) = elim (edge g r) [
  | none ↦ dropped
  | some e ↦ elim (get_elem? g.tokens e.from) [
    | none ↦ panicked
    | some source ↦ elim (get_elem? g.tokens e.to) [
      | none ↦ panicked
      | some sink ↦ elim (path_of g from to refs) [
        | done rest ↦ done (
          record {
            from = source.address;
            to = sink.address;
            pool_id = e.pool_id;
            amm_kind = e.amm_kind;
            dex_name = e.dex_name;
          }
              ∷ rest.0,
          (e.from == from && e.to == to) || rest.1,
        )
        | dropped ↦ dropped
        | panicked ↦ panicked
      ]
    ]
  ]
]

-- What the whole search reads.
pub record Setting : Type 0 where
  pub finder : PathFinder
  pub env : Environment
  pub show : ℕ → String
  pub route_start_capacity_raw : GraphSnapshot → List EdgeRef → Option ℕ
  pub now : ℕ

abbrev pub view_of : Setting → GraphSnapshot → View
view_of s g = record {
  finder = s.finder;
  now = s.now;
  min_trade_raw_by_token = map (usd_e8_to_amount s.finder.min_trade_usd_e8) g.tokens;
}

-- A missing least trade asks nothing.
unfoldable pub route_has_min_start_capacity :
    Setting → GraphSnapshot → (anchor_idx : ℕ) → List EdgeRef → Bool
route_has_min_start_capacity s g anchor_idx refs =
    elim (get_elem? (view_of s g).min_trade_raw_by_token anchor_idx) [
      | some (some min_trade_raw) ↦ elim (s.route_start_capacity_raw g refs) [
        | none ↦ false
        | some capacity ↦ leb (max min_trade_raw 1) capacity
      ]
      | _ ↦ true
    ]

-- `and_then(...).unwrap_or(0)`
abbrev route_capacity_usd : Setting → GraphSnapshot → TokenInfo → List EdgeRef → ℕ
route_capacity_usd s g anchor refs = elim (s.route_start_capacity_raw g refs) [
  | none ↦ 0
  | some capacity ↦ elim (amount_to_usd_e8 capacity anchor) [ none ↦ 0 | some usd ↦ usd ]
]

unfoldable pub materialize_candidate :
    Setting
    → GraphSnapshot
    → (anchor_idx : ℕ) → (key : String) → (score_q32 : ℤ) → List EdgeRef
    → (changed_edge_ref : EdgeRef) → (use_route_capacity_filter : Bool) → Attempt CandidatePath
materialize_candidate s g anchor_idx key score_q32 refs changed_edge_ref use_filter =
    elim (edge g changed_edge_ref) [
      | none ↦ dropped
      | some changed ↦ elim (path_of g changed.from changed.to refs) [
        | dropped ↦ dropped
        | panicked ↦ panicked
        | done found ↦
            if not found.1
            then dropped
            else if not
                (route_tokens_allowed s.env g anchor_idx refs (execution_token_policy s.env g))
            then dropped
            else if use_filter && not (route_has_min_start_capacity s g anchor_idx refs)
            then dropped
            else elim (get_elem? g.tokens anchor_idx) [
              | none ↦ panicked
              | some anchor ↦ done (record {
                snapshot_id = g.snapshot_id;
                start_token = anchor.address;
                start_symbol = anchor.symbol;
                screening_score_q32 = score_q32;
                route_capacity_usd_e8 = route_capacity_usd s g anchor refs;
                route_quality_bps = route_quality_bps g anchor refs;
                cycle_key = key;
                path = found.0;
              })
            ]
      ]
    ]
