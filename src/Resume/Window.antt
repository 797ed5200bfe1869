-- ===== src/Resume/Window.antt =====
-- src/engine.rs: after a reorganization no block above the one that is gone back to is skipped.
use dex_arbitrage.Prelude.{
  ℕ, ◌-◌, ◌≤◌, ◌≡◌, refl, arith, false, Option, some, All, Option-cases, inl, inr, subst, sym,
}
use dex_arbitrage.Types.{BlockRef}
use dex_arbitrage.Graph.{GraphSnapshot}
use dex_arbitrage.Graph.Store.{GraphStore, not_after, rollback_to_block}
use dex_arbitrage.Graph.Ring.{Restored, back, nothing, rollback_to_block-Restored}
use dex_arbitrage.Reorg.{ReorgEvent, detected, rollback, replay}
use dex_arbitrage.Resume.{block_of, resume_at, handle_reorg_event}

-- The block that an event goes back to.
abbrev pub goes_back_to : ReorgEvent → ℕ
goes_back_to (detected common_ancestor_block new_chain_block depth) = common_ancestor_block
goes_back_to (rollback from_block to_block) = to_block
goes_back_to (replay from_block to_block) = to_block

-- The store is back at a snapshot of a block `known` up to the given one, and polling starts the
-- window before that; or no snapshot of the ring was of such a block, the store is as before, and
-- polling starts the window before the given block.
pub data Resumed (backfill : ℕ) (s : GraphStore) (block : ℕ) : GraphStore × ℕ → Type 0 where
  at :
      (g : GraphSnapshot) (known : BlockRef)
      → g.block_ref ≡ some known
      → known.number ≤ block
      → Resumed backfill s block (record s { current = g }, known.number - backfill)
  in_place :
      All (λ x. not_after block x ≡ false) s.ring → Resumed backfill s block (s, block - backfill)

resume_at-Resumed :
    (backfill : ℕ) (s : GraphStore) (block : ℕ)
    → Resumed backfill s block (resume_at backfill s block)
unfolding resume_at
resume_at-Resumed backfill s block =
    from_rollback (rollback_to_block s block) refl (rollback_to_block-Restored s block)
  where
    block_of-known :
        (g : GraphSnapshot) (known : BlockRef)
        → g.block_ref ≡ some known
        → block_of g block ≡ known.number
    block_of-known g known k = ground arith

    from_rollback :
        (r : GraphStore × Option GraphSnapshot)
        → rollback_to_block s block ≡ r
        → Restored s block r
        → Resumed backfill s block (resume_at backfill s block)
    from_rollback _ q (back older newer g e t all) = elim (Option-cases g.block_ref) [
      | inl n ↦ absurd (ground arith)
      | inr (known, k) ↦
          rw (resume_at, q)
            (subst (λ b. Resumed backfill s block (record s { current = g }, b - backfill))
              (sym (block_of-known g known k)) (at g known k (ground arith)))
    ]
    from_rollback _ q (nothing all) = rw (resume_at, q) (in_place all)

-- After a reorganization the store is back at a snapshot of a known block up to the one that the
-- event names, and polling starts the backfill window before that snapshot's block; or, where the
-- ring has no such snapshot, the store is as before and polling starts the window before the named
-- block.
pub handle_reorg_event-Resumed :
    (backfill : ℕ) (s : GraphStore) (event : ReorgEvent)
    → Resumed backfill s (goes_back_to event) (handle_reorg_event backfill s event)
unfolding handle_reorg_event
handle_reorg_event-Resumed backfill s (detected common_ancestor_block new_chain_block depth) =
    resume_at-Resumed backfill s common_ancestor_block
handle_reorg_event-Resumed backfill s (rollback from_block to_block) =
    resume_at-Resumed backfill s to_block
handle_reorg_event-Resumed backfill s (replay from_block to_block) =
    resume_at-Resumed backfill s to_block
