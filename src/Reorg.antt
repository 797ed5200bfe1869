-- ===== src/Reorg.antt =====
-- src/reorg/mod.rs: the reorg detector. The deque `chain` is a list whose head is its back (the
-- tip). The three mutexes are told apart only by whether the running thread holds them.
pub mod Chain
pub mod Agrees
pub mod Invariant
pub mod Steps
pub mod Update
pub mod Rollback
pub mod Links
mod Examples
use dex_arbitrage.Prelude.{
  ℕ, zero, suc, ◌+◌, ◌-◌, ◌%◌, ◌^◌, Bool, true, false, ◌&&◌, not, Option, none, some, List, [], ◌∷◌,
  ltb, leb, ◌==◌, if◌then◌else◌, length, Result, ok, err,
}
use dex_arbitrage.Prelude.Map.{Map, lookup, insert, remove}
use dex_arbitrage.Types.{FinalityLevel, BlockRef}

abbrev pub max_block_history : ℕ
max_block_history = 128

pub data ReorgEvent : Type 0 where
  detected : (common_ancestor_block new_chain_block depth : ℕ) → ReorgEvent
  rollback : (from_block to_block : ℕ) → ReorgEvent
  replay : (from_block to_block : ℕ) → ReorgEvent

pub record BlockHistoryEntry : Type 0 where
  pub number : ℕ
  pub hash : ℕ
  pub parent_hash : ℕ
  pub finality : FinalityLevel

pub record ReorgDetector : Type 0 where
  pub chain : List BlockHistoryEntry
  pub block_by_hash : Map ℕ
  pub block_by_number : Map BlockHistoryEntry

pub data Error : Type 0 where
  target_not_in_history block_number_not_found : ℕ → Error

-- A call returns with the state it leaves, or waits for ever for a mutex of its own thread.
pub data Outcome (A : Type 0) : Type 0 where
  finished : ReorgDetector → Result Error A → Outcome A
  deadlock : Outcome A

-- Which mutexes the caller holds.
pub record Held : Type 0 where
  pub block_by_hash : Bool
  pub block_by_number : Bool

unfoldable pub new : ReorgDetector
new = record { chain = []; block_by_hash = []; block_by_number = [] }

unfoldable pub current_tip : ReorgDetector → Option BlockHistoryEntry
current_tip d = elim d.chain [ [] ↦ none | tip ∷ rest ↦ some tip ]

unfoldable pub get_by_number : ReorgDetector → ℕ → Option BlockHistoryEntry
get_by_number d number = lookup number d.block_by_number

unfoldable pub get_by_hash : ReorgDetector → ℕ → Option BlockHistoryEntry
get_by_hash d hash = elim (lookup hash d.block_by_hash) [
  | none ↦ none
  | some number ↦ lookup number d.block_by_number
]

-- `pop_front`: the oldest entry, with the deque that it leaves.
unfoldable pub pop_front {ℓ} : {A : Type ℓ} → List A → Option (List A × A)
pop_front [] = none
pop_front (x ∷ xs) = elim (pop_front xs) [
  | none ↦ some ([], x)
  | some (rest, old) ↦ some (x ∷ rest, old)
]

-- The loop `while chain.len() > MAX_BLOCK_HISTORY`, with a bound on its rounds.
unfoldable pub prune : ℕ → ReorgDetector → ReorgDetector
prune zero d = d
prune (suc rounds) d =
    let popped : ReorgDetector = elim (pop_front d.chain) [
      | none ↦ d
      | some (rest, old) ↦ prune rounds (record {
        chain = rest;
        block_by_hash = remove old.hash d.block_by_hash;
        block_by_number = remove old.number d.block_by_number;
      })
    ] in
    if ltb max_block_history (length d.chain) then popped else d

unfoldable pub append_block : ReorgDetector → BlockHistoryEntry → ReorgDetector
append_block d entry = prune (length d.chain + 1) (record {
  chain = entry ∷ d.chain;
  block_by_hash = insert entry.hash entry.number d.block_by_hash;
  block_by_number = insert entry.number entry d.block_by_number;
})

-- `while let Some(tip) = chain.back()`: pops the tip until `stop` holds of it.
unfoldable pub pop_until :
    (BlockHistoryEntry → Bool)
    → List BlockHistoryEntry
    → Map ℕ
    → Map BlockHistoryEntry
    → ReorgDetector
pop_until stop [] by_hash by_number = record {
  chain = [];
  block_by_hash = by_hash;
  block_by_number = by_number;
}
pop_until stop (tip ∷ rest) by_hash by_number =
    let popped = pop_until stop rest (remove tip.hash by_hash) (remove tip.number by_number) in
    if stop tip
    then record { chain = tip ∷ rest; block_by_hash = by_hash; block_by_number = by_number }
    else popped

unfoldable pub handle_reorg_at_same_height :
    ReorgDetector
    → (old_tip : BlockHistoryEntry) (rest : List BlockHistoryEntry) (entry : BlockHistoryEntry)
    → Outcome (Option ReorgEvent)
handle_reorg_at_same_height d old_tip rest entry =
    finished
      (record {
        chain = entry ∷ rest;
        block_by_hash = insert entry.hash entry.number (remove old_tip.hash d.block_by_hash);
        block_by_number = insert entry.number entry (remove old_tip.number d.block_by_number);
      })
      (ok (some (rollback old_tip.number old_tip.number)))

unfoldable pub handle_reorg_with_gap :
    ReorgDetector → BlockHistoryEntry → Outcome (Option ReorgEvent)
handle_reorg_with_gap d entry = elim (lookup entry.parent_hash d.block_by_hash) [
  | some parent ↦ finished (append_block d entry) (ok none)
  | none ↦ finished (append_block d entry) (ok none)
]

-- `relock` says what `parking_lot::Mutex::lock` does in a thread that holds the mutex already:
-- return (`true`) or wait for ever (`false`).
module _ (relock : Bool) where
  unfoldable pub find_common_ancestor : Held → ReorgDetector → ℕ → Outcome BlockHistoryEntry
  find_common_ancestor held d target =
      if held.block_by_hash && not relock
      then deadlock
      else if held.block_by_number && not relock
      then deadlock
      else elim (lookup target d.block_by_hash) [
        | none ↦ finished d (err (target_not_in_history target))
        | some number ↦ elim (lookup number d.block_by_number) [
          | none ↦ finished d (err (block_number_not_found number))
          | some entry ↦ finished d (ok entry)
        ]
      ]

  unfoldable pub handle_parent_mismatch :
      Held → ReorgDetector → BlockHistoryEntry → Outcome (Option ReorgEvent)
  handle_parent_mismatch held d entry = elim (find_common_ancestor held d entry.parent_hash) [
    | deadlock ↦ deadlock
    | finished e (err x) ↦ finished e (err x)
    | finished e (ok ancestor) ↦
        let from_block : ℕ = elim e.chain [ [] ↦ 0 | tip ∷ rest ↦ tip.number ] in
        let back =
          pop_until (λ tip. tip.hash == ancestor.hash) e.chain e.block_by_hash e.block_by_number in
        finished (append_block back entry)
          (ok (some (detected ancestor.number entry.number (from_block - ancestor.number))))
  ]

  unfoldable pub handle_reorg_with_older_block :
      Held → ReorgDetector → BlockHistoryEntry → Outcome (Option ReorgEvent)
  handle_reorg_with_older_block held d entry = elim (lookup entry.number d.block_by_number) [
    | some existing ↦
        if existing.hash == entry.hash
        then finished d (ok none)
        else handle_parent_mismatch held d entry
    | none ↦ finished d (ok none)
  ]

  -- `match chain.back()`, with the mutexes of the maps held.
  unfoldable pub update_tip :
      Held
      → ReorgDetector
      → BlockHistoryEntry
      → (tip : BlockHistoryEntry) (rest : List BlockHistoryEntry) → Outcome (Option ReorgEvent)
  update_tip held d entry tip rest =
      if entry.number == tip.number
      then if entry.hash == tip.hash
        then finished d (ok none)
        else handle_reorg_at_same_height d tip rest entry
      else if entry.number == (tip.number + 1) % 2 ^ 64
      then if entry.parent_hash == tip.hash
        then finished (append_block d entry) (ok none)
        else handle_parent_mismatch held d entry
      else if ltb tip.number entry.number
      then handle_reorg_with_gap d entry
      else handle_reorg_with_older_block held d entry

  unfoldable pub update_chain : ReorgDetector → BlockRef → Outcome (Option ReorgEvent)
  update_chain d block =
      let held : Held = record { block_by_hash = true; block_by_number = true } in
      let entry : BlockHistoryEntry = record {
        number = block.number;
        hash = block.hash;
        parent_hash = block.parent_hash;
        finality = block.finality;
      } in
      elim d.chain [
        | [] ↦ finished (append_block d entry) (ok none)
        | tip ∷ rest ↦ update_tip held d entry tip rest
      ]

unfoldable pub rollback_to_block : ReorgDetector → ℕ → ReorgDetector
rollback_to_block d block_number =
    pop_until (λ tip. leb tip.number block_number) d.chain d.block_by_hash d.block_by_number
