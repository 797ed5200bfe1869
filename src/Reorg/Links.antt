-- ===== src/Reorg/Links.antt =====
-- src/reorg/mod.rs: parent hashes along the chain. A replacement of the tip does not look at them.
use dex_arbitrage.Prelude.{
  ℕ, zero, suc, ◌+◌, ◌<◌, ◌≡◌, refl, true, false, Bool, some, List, [], ◌∷◌, ◌==◌, ◌||◌, ◌&&◌, not,
  take, arith, inl, inr, Order-cases, u64_max, ◌∙◌, ap, ok,
}
use dex_arbitrage.Types.{BlockRef}
use dex_arbitrage.Reorg.{
  BlockHistoryEntry, ReorgDetector, rollback, finished, update_chain, max_block_history,
}
use dex_arbitrage.Reorg.Invariant.{IsValid}
use dex_arbitrage.Reorg.Steps.{mismatch, entry_of, next_chain, next_event}
use dex_arbitrage.Reorg.Update.{update_chain-Takes}

-- Of two neighbours with consecutive numbers, the newer names the older as its parent.
abbrev pub linked : BlockHistoryEntry → BlockHistoryEntry → Bool
linked e p = not (e.number == p.number + 1) || e.parent_hash == p.hash

unfoldable pub all_linked : List BlockHistoryEntry → Bool
all_linked [] = true
all_linked (e ∷ []) = true
all_linked (e ∷ p ∷ es) = linked e p && all_linked (p ∷ es)

-- A block that would replace the tip names the entry below the tip.
abbrev pub replaces_well : List BlockHistoryEntry → BlockRef → Bool
replaces_well (tip ∷ below ∷ rest) b =
    not (b.number == tip.number) || (b.hash == tip.hash || linked (entry_of b) below)
replaces_well _ b = true

all_linked-take :
    (k : ℕ) (es : List BlockHistoryEntry) → all_linked es ≡ true → all_linked (take k es) ≡ true
unfolding all_linked
all_linked-take zero es h = refl
all_linked-take (suc k) [] h = refl
all_linked-take (suc zero) (e ∷ []) h = refl
all_linked-take (suc (suc k)) (e ∷ []) h = refl
all_linked-take (suc zero) (e ∷ p ∷ es) h = refl
all_linked-take (suc (suc k)) (e ∷ p ∷ es) h = ground (arith, all_linked-take (suc k) (p ∷ es))

all_linked-push :
    (e tip : BlockHistoryEntry) (rest : List BlockHistoryEntry)
    → linked e tip ≡ true
    → all_linked (tip ∷ rest) ≡ true
    → all_linked (e ∷ tip ∷ rest) ≡ true
unfolding all_linked
all_linked-push e tip rest l h = ground arith

module _ (d : ReorgDetector) (tip : BlockHistoryEntry) (rest : List BlockHistoryEntry)
    (b : BlockRef) where
  newer-linked :
      tip.number < b.number
      → mismatch (record d { chain = tip ∷ rest }) b ≡ false
      → linked (entry_of b) tip ≡ true
  newer-linked n m = ground arith

  newer-all_linked :
      tip.number < b.number
      → mismatch (record d { chain = tip ∷ rest }) b ≡ false
      → all_linked (tip ∷ rest) ≡ true
      → all_linked (next_chain (tip ∷ rest) b) ≡ true
  newer-all_linked n m h =
      let p =
        all_linked-take max_block_history (entry_of b ∷ tip ∷ rest)
          (all_linked-push (entry_of b) tip rest (newer-linked n m) h) in
      let q : next_chain (tip ∷ rest) b ≡ take max_block_history (entry_of b ∷ tip ∷ rest) =
        ground arith in
      rw q p

  older-all_linked :
      b.number < tip.number
      → all_linked (tip ∷ rest) ≡ true
      → all_linked (next_chain (tip ∷ rest) b) ≡ true
  older-all_linked n h = let q : next_chain (tip ∷ rest) b ≡ tip ∷ rest = ground arith in rw q h

same-all_linked :
    (tip : BlockHistoryEntry) (rest : List BlockHistoryEntry) (b : BlockRef)
    → b.number ≡ tip.number
    → replaces_well (tip ∷ rest) b ≡ true
    → all_linked (tip ∷ rest) ≡ true
    → all_linked (next_chain (tip ∷ rest) b) ≡ true
unfolding all_linked
same-all_linked tip [] b n r h = ground arith
same-all_linked tip (below ∷ rest) b n r h = ground arith

next_chain-linked :
    (d : ReorgDetector) (es : List BlockHistoryEntry) (b : BlockRef)
    → mismatch (record d { chain = es }) b ≡ false
    → replaces_well es b ≡ true
    → all_linked es ≡ true
    → all_linked (next_chain es b) ≡ true
next_chain-linked d [] b m r h = unfold all_linked in refl
next_chain-linked d (tip ∷ rest) b m r h = elim (Order-cases b.number tip.number) [
  | inl n ↦ older-all_linked d tip rest b n h
  | inr (inl n) ↦ same-all_linked tip rest b n r h
  | inr (inr n) ↦ newer-all_linked d tip rest b n m h
]

-- Parent links survive an update: for a valid detector whose neighbours with consecutive numbers are
-- linked, and a block below 2 ^ 64 - 1 that is no mismatch and, should it replace the tip, names the
-- entry below as its parent, the chain that `update_chain` leaves is linked in the same way.
pub update_chain-all_linked :
    (relock : Bool) (d : ReorgDetector) (b : BlockRef)
    → relock ≡ false
    → IsValid d
    → b.number < u64_max
    → mismatch d b ≡ false
    → replaces_well d.chain b ≡ true
    → all_linked d.chain ≡ true
    → (e : ReorgDetector) × (update_chain relock d b ≡ finished e (ok (next_event d.chain b)))
      × (all_linked e.chain ≡ true)
update_chain-all_linked relock d b wait v small m r h =
    let (e, q, w, c) = update_chain-Takes relock d b wait v small m in
    (e, q, rw c (next_chain-linked d d.chain b m r h))

replaced-unlinked :
    (es : List BlockHistoryEntry) (tip below : BlockHistoryEntry) (rest : List BlockHistoryEntry)
    (b : BlockRef)
    → es ≡ tip ∷ below ∷ rest
    → tip.number ≡ below.number + 1
    → b.number ≡ tip.number
    → (b.hash == tip.hash) ≡ false
    → (b.parent_hash == below.hash) ≡ false
    → all_linked (next_chain es b) ≡ false
unfolding all_linked
replaced-unlinked es tip below rest b q n s h p = rw q (ground arith)

-- A replacement of the tip is not checked against the entry below: a block with the tip's number,
-- another hash and a parent that is not the entry below is taken in by a valid detector, with the
-- rollback event, and leaves a chain with a broken parent link.
pub update_chain-unlinked :
    (relock : Bool) (d : ReorgDetector) (b : BlockRef) (tip below : BlockHistoryEntry)
    (rest : List BlockHistoryEntry)
    → relock ≡ false
    → IsValid d
    → b.number < u64_max
    → d.chain ≡ tip ∷ below ∷ rest
    → tip.number ≡ below.number + 1
    → b.number ≡ tip.number
    → (b.hash == tip.hash) ≡ false
    → (b.parent_hash == below.hash) ≡ false
    → (e : ReorgDetector) × (update_chain relock d b
        ≡ finished e (ok (some (rollback tip.number tip.number))))
      × (all_linked e.chain ≡ false)
update_chain-unlinked relock d b tip below rest wait v small q n s h p =
    let (e, eq, w, c) = update_chain-Takes relock d b wait v small (rw q (ground arith)) in
    let ev : next_event d.chain b ≡ some (rollback tip.number tip.number) = rw q (ground arith) in
    (
      e,
      eq ∙ ap (λ x. finished e (ok x)) ev,
      rw c (replaced-unlinked d.chain tip below rest b q n s h p),
    )
