-- ===== src/Graph.antt =====
-- src/graph/: the pool graph. The spot rates of src/amm/ are in f64 and a parameter of `build`; a
-- `none` of `build` is a panic on an index out of bounds.
pub mod Build
pub mod Rows
pub mod Edges
pub mod Indexed
pub mod Snapshot
pub mod Store
pub mod Ring
pub mod Updater
pub mod Distance
pub mod Sample
mod Examples
use dex_arbitrage.Prelude.{
  ℕ, zero, suc, ◌+◌, ◌-◌, Bool, true, false, Option, none, some, List, [], ◌∷◌, ◌++◌, ◌==◌, ◌&&◌,
  if◌then◌else◌, get_elem?, length,
}
use dex_arbitrage.Prelude.Int.{ℤ}
use dex_arbitrage.Prelude.Map.{Map, lookup, insert}
use dex_arbitrage.Types.{BlockRef, TokenInfo, Edge, EdgeRef, PoolState}

-- `HashMap<(usize, usize), _>`
abbrev pub PairMap : Type 0 → Type 0
PairMap V = List ((ℕ × ℕ) × V)

unfoldable pub lookup_pair : {V : Type 0} → ℕ × ℕ → PairMap V → Option V
lookup_pair key [] = none
lookup_pair key ((first, value) ∷ rest) =
    if first.0 == key.0 && first.1 == key.1 then some value else lookup_pair key rest

unfoldable pub insert_pair : {V : Type 0} → ℕ × ℕ → V → PairMap V → PairMap V
insert_pair key value [] = (key, value) ∷ []
insert_pair key value ((first, old) ∷ rest) =
    if first.0 == key.0 && first.1 == key.1
    then (first, value) ∷ rest
    else (first, old) ∷ insert_pair key value rest

pub record GraphSnapshot : Type 0 where
  pub snapshot_id : ℕ
  pub block_ref : Option BlockRef
  pub tokens : List TokenInfo
  pub token_to_index : Map ℕ
  pub stable_token_indices : List ℕ
  pub cycle_anchor_indices : List ℕ
  pub adjacency : List (List Edge)
  pub reverse_adj : List (List EdgeRef)
  pub pools : Map PoolState
  pub pool_to_edges : Map (List EdgeRef)
  pub pair_to_edges : PairMap (List EdgeRef)

unfoldable pub token_index : GraphSnapshot → ℕ → Option ℕ
token_index g address = lookup address g.token_to_index

-- A missing entry is an empty list.
abbrev pub or_default {ℓ} : {A : Type ℓ} → Option (List A) → List A
or_default none = []
or_default (some xs) = xs

unfoldable pub pair_edges : GraphSnapshot → (from to : ℕ) → List EdgeRef
pair_edges g from to = elim (token_index g from) [
  | none ↦ []
  | some fi ↦ elim (token_index g to) [
    | none ↦ []
    | some ti ↦ or_default (lookup_pair (fi, ti) g.pair_to_edges)
  ]
]

unfoldable pub edge : GraphSnapshot → EdgeRef → Option Edge
edge g edge_ref = elim (get_elem? g.adjacency edge_ref.from) [
  | none ↦ none
  | some row ↦ get_elem? row edge_ref.edge_idx
]

unfoldable pub pool : GraphSnapshot → ℕ → Option PoolState
pool g pool_id = lookup pool_id g.pools
