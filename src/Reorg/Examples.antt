-- ===== src/Reorg/Examples.antt =====
-- The reorg detector on the blocks of the module's own tests: 100, then 101, then forks of them.
use dex_arbitrage.Prelude.{ℕ, ◌≡◌, refl, true, false, some, [], arith, ok}
use dex_arbitrage.Prelude.Map.{insert}
use dex_arbitrage.Types.{BlockRef, FinalityLevel}
use dex_arbitrage.Reorg.{
  ReorgDetector, rollback, finished, deadlock, new, append_block, prune, update_chain,
  rollback_to_block,
}
use dex_arbitrage.Reorg.Chain.{at}
use dex_arbitrage.Reorg.Invariant.{IsValid, new-IsValid, append_block-Appended}
use dex_arbitrage.Reorg.Steps.{entry_of, next_event}
use dex_arbitrage.Reorg.Update.{Takes, update_chain-Takes, update_chain-deadlock}
use dex_arbitrage.Reorg.Rollback.{RolledBack, rollback_to_block-RolledBack}
use dex_arbitrage.Reorg.Links.{all_linked, update_chain-all_linked, update_chain-unlinked}

abbrev block : ℕ → ℕ → ℕ → BlockRef
block number hash parent_hash = record {
  number = number;
  hash = hash;
  parent_hash = parent_hash;
  finality = FinalityLevel.sealed;
}

abbrev one_block : ReorgDetector
one_block = append_block new (entry_of (block 100 1 0))

abbrev two_blocks : ReorgDetector
two_blocks = append_block one_block (entry_of (block 101 2 1))

two_blocks-IsValid : IsValid two_blocks
unfolding append_block prune new insert
two_blocks-IsValid =
    (append_block-Appended one_block (entry_of (block 101 2 1))
      (append_block-Appended new (entry_of (block 100 1 0)) new-IsValid (omega arith) tt).valid
      (omega arith) (omega arith, tt)).valid

update_chain-Takes_example :
    Takes two_blocks (block 102 3 2) (update_chain false two_blocks (block 102 3 2))
unfolding append_block prune new insert
update_chain-Takes_example =
    update_chain-Takes false two_blocks (block 102 3 2) refl two_blocks-IsValid (omega arith) refl

update_chain-deadlock_example : update_chain false two_blocks (block 102 3 7) ≡ deadlock
unfolding append_block prune new insert
update_chain-deadlock_example =
    update_chain-deadlock false two_blocks (block 102 3 7) refl two_blocks-IsValid refl

rollback_to_block-RolledBack_example :
    RolledBack 100 two_blocks.chain (rollback_to_block two_blocks 100)
rollback_to_block-RolledBack_example =
    rollback_to_block-RolledBack two_blocks 100 two_blocks-IsValid

update_chain-all_linked_example :
    (e : ReorgDetector) × (update_chain false two_blocks (block 101 9 1)
      ≡ finished e (ok (next_event two_blocks.chain (block 101 9 1))))
    × (all_linked e.chain ≡ true)
unfolding append_block prune new insert all_linked at
update_chain-all_linked_example =
    update_chain-all_linked false two_blocks (block 101 9 1) refl two_blocks-IsValid (omega arith)
      refl refl refl

update_chain-unlinked_example :
    (e : ReorgDetector) × (update_chain false two_blocks (block 101 9 8)
      ≡ finished e (ok (some (rollback 101 101))))
    × (all_linked e.chain ≡ false)
unfolding append_block prune new insert
update_chain-unlinked_example =
    update_chain-unlinked false two_blocks (block 101 9 8) (entry_of (block 101 2 1))
      (entry_of (block 100 1 0)) [] refl two_blocks-IsValid (omega arith) refl refl refl refl refl
