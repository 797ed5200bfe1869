-- ===== src/Reorg/Update.antt =====
-- src/reorg/mod.rs, `update_chain`: what each block does to the chain, and when the call hangs.
use dex_arbitrage.Prelude.{
  ℕ, ◌+◌, ◌<◌, ◌≡◌, refl, true, false, Bool, Option, none, List, [], ◌∷◌, ◌==◌, arith, inl, inr,
  Bool-cases, u64_max, ok, ◌∙◌, Order-cases,
}
use dex_arbitrage.Prelude.Map.{Map}
use dex_arbitrage.Types.{BlockRef}
use dex_arbitrage.Reorg.{
  BlockHistoryEntry, ReorgDetector, ReorgEvent, Outcome, finished, deadlock, append_block,
  handle_reorg_at_same_height, update_chain,
}
use dex_arbitrage.Reorg.Invariant.{IsValid, append_block-Appended}
use dex_arbitrage.Reorg.Steps.{
  mismatch, entry_of, next_chain, next_event, tipped, replaced-IsValid, repeated, replaced,
  extended, skipped, mismatched, known, forked,
}

-- How a call ends that takes `next_chain`.
abbrev pub Takes : ReorgDetector → BlockRef → Outcome (Option ReorgEvent) → Type 0
Takes d b o =
    (e : ReorgDetector) × (o ≡ finished e (ok (next_event d.chain b)))
    × IsValid e
    × (e.chain ≡ next_chain d.chain b)

first-Takes :
    (by_hash : Map ℕ) (by_number : Map BlockHistoryEntry) (b : BlockRef)
    → let d : ReorgDetector = record {
      chain = [];
      block_by_hash = by_hash;
      block_by_number = by_number;
    } in
      IsValid d → b.number < u64_max → Takes d b (update_chain false d b)
unfolding update_chain
first-Takes by_hash by_number b v small =
    let a = append_block-Appended _ (entry_of b) v small tt in (_, refl, a.valid, a.kept)

module _ (tip : BlockHistoryEntry) (rest : List BlockHistoryEntry) (by_hash : Map ℕ)
    (by_number : Map BlockHistoryEntry) where
  abbrev d : ReorgDetector
  d = tipped tip rest by_hash by_number

  module _ (b : BlockRef) (v : IsValid d) where
    same-Takes : b.number ≡ tip.number → Takes d b (update_chain false d b)
    unfolding handle_reorg_at_same_height
    same-Takes n = elim (Bool-cases (b.hash == tip.hash)) [
      | inl h ↦ (d, repeated tip rest by_hash by_number b v n h ∙ ground arith, v, ground arith)
      | inr h ↦ (
        _,
        replaced tip rest by_hash by_number b v n h ∙ ground arith,
        replaced-IsValid tip rest by_hash by_number b v n,
        ground arith,
      )
    ]

    newer-Takes :
        tip.number < b.number
        → b.number < u64_max
        → update_chain false d b ≡ finished (append_block d (entry_of b)) (ok none)
        → Takes d b (update_chain false d b)
    newer-Takes n small q =
        let a = append_block-Appended d (entry_of b) v small (n, v.indexed.falling.1) in
        (_, q ∙ ground arith, a.valid, a.kept ∙ ground arith)

    tipped-Takes : b.number < u64_max → mismatch d b ≡ false → Takes d b (update_chain false d b)
    tipped-Takes small m = elim (Order-cases b.number tip.number) [
      | inl n ↦ (d, known tip rest by_hash by_number b v n m ∙ ground arith, v, ground arith)
      | inr (inl n) ↦ same-Takes n
      | inr (inr n) ↦ elim (Bool-cases (b.number == tip.number + 1)) [
        | inl e ↦
            newer-Takes n small
              (extended tip rest by_hash by_number b v (ground arith) (ground arith))
        | inr e ↦ newer-Takes n small (skipped tip rest by_hash by_number b v (ground arith))
      ]
    ]

    tipped-deadlock : mismatch d b ≡ true → update_chain false d b ≡ deadlock
    tipped-deadlock m = elim (Bool-cases (b.number == tip.number + 1)) [
      | inl e ↦ mismatched tip rest by_hash by_number b v (ground arith) (ground arith)
      | inr e ↦ forked tip rest by_hash by_number b v (ground arith) m
    ]

-- A block that is no mismatch is taken in at once: where `lock` waits in a thread that holds the
-- mutex, the detector is valid and the block's number is below 2 ^ 64 - 1, `update_chain` returns,
-- the chain becomes `next_chain`, the event is `next_event`, and the detector is valid again.
pub update_chain-Takes :
    (relock : Bool) (d : ReorgDetector) (b : BlockRef)
    → relock ≡ false
    → IsValid d
    → b.number < u64_max
    → mismatch d b ≡ false
    → Takes d b (update_chain relock d b)
update_chain-Takes relock d b wait v small m =
    rw wait (go d.chain d.block_by_hash d.block_by_number v m)
  where
    go :
        (es : List BlockHistoryEntry) (by_hash : Map ℕ) (by_number : Map BlockHistoryEntry)
        → let e : ReorgDetector = record {
          chain = es;
          block_by_hash = by_hash;
          block_by_number = by_number;
        } in
          IsValid e → mismatch e b ≡ false → Takes e b (update_chain false e b)
    go [] by_hash by_number w n = first-Takes by_hash by_number b w small
    go (tip ∷ rest) by_hash by_number w n = tipped-Takes tip rest by_hash by_number b w small n

-- A block that is a mismatch hangs the caller: where `lock` waits in a thread that holds the mutex
-- and the detector is valid, `update_chain` never returns from a block whose parent is not the tip
-- below it, nor from an older block with another hash than the chain's.
pub update_chain-deadlock :
    (relock : Bool) (d : ReorgDetector) (b : BlockRef)
    → relock ≡ false
    → IsValid d
    → mismatch d b ≡ true
    → update_chain relock d b ≡ deadlock
update_chain-deadlock relock d b wait v m =
    rw wait (go d.chain d.block_by_hash d.block_by_number v m)
  where
    go :
        (es : List BlockHistoryEntry) (by_hash : Map ℕ) (by_number : Map BlockHistoryEntry)
        → let e : ReorgDetector = record {
          chain = es;
          block_by_hash = by_hash;
          block_by_number = by_number;
        } in
          IsValid e → mismatch e b ≡ true → update_chain false e b ≡ deadlock
    go [] by_hash by_number w n = cc
    go (tip ∷ rest) by_hash by_number w n = tipped-deadlock tip rest by_hash by_number b w n
