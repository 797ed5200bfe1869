-- ===== src/Graph/Store.antt =====
-- src/graph/snapshot.rs: the current snapshot and the ring of the latest ones, oldest first.
use dex_arbitrage.Prelude.{
  ℕ, Bool, false, Option, none, some, List, [], ◌∷◌, ◌++◌, ◌==◌, leb, ltb, if◌then◌else◌, length,
  find,
}
use dex_arbitrage.Graph.{GraphSnapshot}

pub record GraphStore : Type 0 where
  pub current : GraphSnapshot
  pub ring : List GraphSnapshot
  pub max_snapshots : ℕ

unfoldable pub new : GraphSnapshot → (max_snapshots : ℕ) → GraphStore
new initial max_snapshots = record {
  current = initial;
  ring = initial ∷ [];
  max_snapshots = max_snapshots;
}

unfoldable pub load : GraphStore → GraphSnapshot
load s = s.current

-- `while ring.len() > max { ring.pop_front(); }`
unfoldable pub drop_front : (max : ℕ) → List GraphSnapshot → List GraphSnapshot
drop_front max [] = []
drop_front max (oldest ∷ ring) =
    let dropped = drop_front max ring in
    if ltb max (length (oldest ∷ ring)) then dropped else oldest ∷ ring

unfoldable pub publish : GraphStore → GraphSnapshot → GraphStore
publish s snapshot = record s {
  current = snapshot;
  ring = drop_front s.max_snapshots (s.ring ++ snapshot ∷ []);
}

-- `if let Some(snapshot) = ... { self.current.store(snapshot) }`
abbrev store_found : GraphStore → Option GraphSnapshot → GraphStore × Option GraphSnapshot
store_found s none = (s, none)
store_found s (some snapshot) = (record s { current = snapshot }, some snapshot)

unfoldable pub rollback_to_snapshot :
    GraphStore → (snapshot_id : ℕ) → GraphStore × Option GraphSnapshot
rollback_to_snapshot s snapshot_id =
    store_found s (find (λ snapshot. snapshot.snapshot_id == snapshot_id) s.ring)

-- `block_ref.map(|block| block.number <= block_number).unwrap_or(false)`
abbrev pub not_after : ℕ → GraphSnapshot → Bool
not_after block_number snapshot = elim snapshot.block_ref [
  | none ↦ false
  | some block ↦ leb block.number block_number
]

-- `iter().rev().find(...)`: the last that passes the test.
unfoldable pub find_last : (GraphSnapshot → Bool) → List GraphSnapshot → Option GraphSnapshot
find_last test [] = none
find_last test (x ∷ xs) = elim (find_last test xs) [
  | some y ↦ some y
  | none ↦ if test x then some x else none
]

unfoldable pub rollback_to_block :
    GraphStore → (block_number : ℕ) → GraphStore × Option GraphSnapshot
rollback_to_block s block_number = store_found s (find_last (not_after block_number) s.ring)
