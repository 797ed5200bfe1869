-- ===== src/Resume.antt =====
-- src/engine.rs, `handle_reorg_event`: the graph goes back to the common ancestor, and the polling of
-- events with it.
pub mod Window
mod Examples
use dex_arbitrage.Prelude.{ℕ, ◌-◌, Option, none, some}
use dex_arbitrage.Graph.{GraphSnapshot}
use dex_arbitrage.Graph.Store.{GraphStore, rollback_to_block}
use dex_arbitrage.Reorg.{ReorgEvent, detected, rollback, replay}

-- `block_ref.map(|block| block.number).unwrap_or(block)`
abbrev pub block_of : GraphSnapshot → ℕ → ℕ
block_of g block = elim g.block_ref [ none ↦ block | some known ↦ known.number ]

-- The store and `poll_from_block` after a rollback to a block.
unfoldable pub resume_at : (event_backfill_blocks : ℕ) → GraphStore → (block : ℕ) → GraphStore × ℕ
resume_at backfill store block =
    let (back, found) = rollback_to_block store block in
    (back, elim found [ some g ↦ block_of g block - backfill | none ↦ block - backfill ])

unfoldable pub handle_reorg_event :
    (event_backfill_blocks : ℕ) → GraphStore → ReorgEvent → GraphStore × ℕ
handle_reorg_event backfill store (detected common_ancestor_block new_chain_block depth) =
    resume_at backfill store common_ancestor_block
handle_reorg_event backfill store (rollback from_block to_block) = resume_at backfill store to_block
handle_reorg_event backfill store (replay from_block to_block) = resume_at backfill store to_block
