-- ===== src/Resume/Examples.antt =====
-- A store of two snapshots, and a reorganization back to the block of the first.
use dex_arbitrage.Prelude.{ℕ, ◌≡◌, refl, some, []}
use dex_arbitrage.Types.{FinalityLevel}
use dex_arbitrage.Graph.{GraphSnapshot}
use dex_arbitrage.Graph.Build.{snapshot_of, empty_tables}
use dex_arbitrage.Graph.Store.{GraphStore, new, publish, drop_front, rollback_to_block, find_last}
use dex_arbitrage.Reorg.{detected}
use dex_arbitrage.Resume.{resume_at, handle_reorg_event}
use dex_arbitrage.Resume.Window.{Resumed, handle_reorg_event-Resumed}

abbrev at_block : ℕ → GraphSnapshot
at_block number =
    snapshot_of number
      (some (record {
        number = number;
        hash = number;
        parent_hash = 0;
        finality = FinalityLevel.sealed;
      }))
      [] [] (empty_tables 0)

abbrev store : GraphStore
store = publish (new (at_block 50) 8) (at_block 60)

handle_reorg_event-Resumed_example :
    Resumed 10 store 55 (handle_reorg_event 10 store (detected 55 61 6))
handle_reorg_event-Resumed_example = handle_reorg_event-Resumed 10 store (detected 55 61 6)

polls_from_40 : (handle_reorg_event 10 store (detected 55 61 6)).1 ≡ 40
unfolding new publish drop_front rollback_to_block find_last resume_at handle_reorg_event
polls_from_40 = refl
