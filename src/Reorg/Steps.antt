-- ===== src/Reorg/Steps.antt =====
-- src/reorg/mod.rs, `update_chain`: which way a block takes through it.
use dex_arbitrage.Prelude.{
  ℕ, ◌+◌, ◌<◌, ◌≡◌, refl, true, false, not, Bool, Option, none, some, List, [], ◌∷◌, ◌==◌, ◌&&◌,
  ltb, if◌then◌else◌, take, arith, ◌∙◌, ok,
}
use dex_arbitrage.Prelude.Map.{Map, insert, remove}
use dex_arbitrage.Types.{BlockRef}
use dex_arbitrage.Reorg.{
  BlockHistoryEntry, ReorgDetector, ReorgEvent, rollback, finished, deadlock, append_block,
  max_block_history, find_common_ancestor, handle_parent_mismatch, handle_reorg_with_older_block,
  handle_reorg_with_gap, handle_reorg_at_same_height, update_tip, update_chain,
}
use dex_arbitrage.Reorg.Chain.{at, at_above, Falling}
use dex_arbitrage.Reorg.Agrees.{pop-Agrees, push-Agrees}
use dex_arbitrage.Reorg.Invariant.{IsValid}

-- The block does not extend the chain that the detector has.
abbrev pub mismatch : ReorgDetector → BlockRef → Bool
mismatch d b = elim d.chain [
  | [] ↦ false
  | tip ∷ rest ↦
      if b.number == tip.number + 1
      then not (b.parent_hash == tip.hash)
      else ltb b.number tip.number
        && (elim (at b.number d.chain) [ none ↦ false | some known ↦ not (known.hash == b.hash) ])
]

abbrev pub entry_of : BlockRef → BlockHistoryEntry
entry_of b = record {
  number = b.number;
  hash = b.hash;
  parent_hash = b.parent_hash;
  finality = b.finality;
}

-- The chain that a block with no mismatch leaves, and the event that the caller is told of.
abbrev pub next_chain : List BlockHistoryEntry → BlockRef → List BlockHistoryEntry
next_chain [] b = entry_of b ∷ []
next_chain (tip ∷ rest) b =
    if b.number == tip.number
    then (if b.hash == tip.hash then tip ∷ rest else entry_of b ∷ rest)
    else if ltb tip.number b.number
    then take max_block_history (entry_of b ∷ tip ∷ rest)
    else tip ∷ rest

abbrev pub next_event : List BlockHistoryEntry → BlockRef → Option ReorgEvent
next_event [] b = none
next_event (tip ∷ rest) b =
    if b.number == tip.number
    then (if b.hash == tip.hash then none else some (rollback tip.number tip.number))
    else none

-- With both map mutexes held the search for the ancestor never gets its first one.
mismatch-deadlock :
    (d : ReorgDetector) (e : BlockHistoryEntry)
    → handle_parent_mismatch false (record { block_by_hash = true; block_by_number = true }) d e
      ≡ deadlock
unfolding handle_parent_mismatch find_common_ancestor
mismatch-deadlock d e = refl

module _ (tip : BlockHistoryEntry) (rest : List BlockHistoryEntry) (by_hash : Map ℕ)
    (by_number : Map BlockHistoryEntry) where
  abbrev pub tipped : ReorgDetector
  tipped = record { chain = tip ∷ rest; block_by_hash = by_hash; block_by_number = by_number }

  pub replaced-IsValid :
      (b : BlockRef)
      → IsValid tipped
      → b.number ≡ tip.number
      → IsValid (record {
        chain = entry_of b ∷ rest;
        block_by_hash = insert b.hash b.number (remove tip.hash by_hash);
        block_by_number = insert b.number (entry_of b) (remove tip.number by_number);
      })
  replaced-IsValid b v same =
      let (under, f) = v.indexed.falling in
      let f' : Falling b.number rest = rw same f in
      record {
        indexed = record {
          falling = (omega arith, f');
          agrees =
              push-Agrees (entry_of b) (at_above b.number b.number rest f' (omega arith))
                (pop-Agrees tip rest f v.indexed.agrees);
        };
        short = omega (arith, v.short);
      }

  -- The five ways through `update_chain` that return.
  module _ (b : BlockRef) (v : IsValid tipped) where
    pub repeated :
        b.number ≡ tip.number
        → (b.hash == tip.hash) ≡ true
        → update_chain false tipped b ≡ finished tipped (ok none)
    unfolding update_chain update_tip
    repeated n h = ground arith

    pub replaced :
        b.number ≡ tip.number
        → (b.hash == tip.hash) ≡ false
        → update_chain false tipped b ≡ handle_reorg_at_same_height tipped tip rest (entry_of b)
    unfolding update_chain update_tip
    replaced n h = ground arith

    pub extended :
        b.number ≡ tip.number + 1
        → (b.parent_hash == tip.hash) ≡ true
        → update_chain false tipped b ≡ finished (append_block tipped (entry_of b)) (ok none)
    unfolding update_chain update_tip
    extended n h = ground (arith, v.indexed.falling.0)

    pub skipped :
        tip.number + 1 < b.number
        → update_chain false tipped b ≡ finished (append_block tipped (entry_of b)) (ok none)
    unfolding update_chain update_tip handle_reorg_with_gap
    skipped n = ground (arith, v.indexed.falling.0)

    pub older :
        b.number < tip.number
        → update_chain false tipped b
          ≡ handle_reorg_with_older_block false
              (record { block_by_hash = true; block_by_number = true })
              tipped
              (entry_of b)
    unfolding update_chain update_tip
    older n = ground (arith, v.indexed.falling.0)

    pub mismatched :
        b.number ≡ tip.number + 1
        → (b.parent_hash == tip.hash) ≡ false
        → update_chain false tipped b ≡ deadlock
    unfolding update_chain update_tip
    mismatched n h = ground (arith, v.indexed.falling.0, mismatch-deadlock tipped (entry_of b))

    pub known :
        b.number < tip.number
        → mismatch tipped b ≡ false
        → update_chain false tipped b ≡ finished tipped (ok none)
    unfolding handle_reorg_with_older_block
    known n m = older n ∙ ground (arith, v.indexed.agrees.indexed b.number)

    pub forked :
        b.number < tip.number → mismatch tipped b ≡ true → update_chain false tipped b ≡ deadlock
    unfolding handle_reorg_with_older_block
    forked n m =
        older n
        ∙ ground (arith, v.indexed.agrees.indexed b.number, mismatch-deadlock tipped (entry_of b))
