-- ===== src/Nonce.antt =====
-- src/execution/nonce_manager.rs: the nonce manager. Instants are numbers in the unit of the
-- timeouts, and the current instant is an argument of each call that reads the clock. Each method
-- that takes its locks one after the other is one step here; `Races` takes `sync` and `reconcile`
-- apart.
pub mod Invariant
pub mod Reconcile
pub mod Settled
pub mod History
pub mod Replace
pub mod Races
mod Examples
use dex_arbitrage.Prelude.{
  ℕ, ◌+◌, ◌-◌, ◌%◌, ◌^◌, Bool, true, false, Option, none, some, List, [], ◌∷◌, map, ltb, leb, ◌==◌,
  if◌then◌else◌, keep, saturating_add, u128_max, Result, ok, err,
}
use dex_arbitrage.Prelude.Lock.{Run, done, deadlock, lock}
use dex_arbitrage.Prelude.Map.{Map, lookup, insert, remove}

pub data NonceState : Type 0 where
  reserved : NonceState
  submitted : (tx_hash submitted_at : ℕ) → NonceState
  included : NonceState
  dropped : NonceState

pub record PendingNonce : Type 0 where
  pub nonce : ℕ
  pub tx_hash : ℕ
  pub submitted_at : ℕ
  pub max_priority_fee : ℕ
  pub max_fee : ℕ

pub record NonceManager : Type 0 where
  pub next_nonce : ℕ
  pub states : Map NonceState
  pub pending_txs : Map PendingNonce
  pub replacement_enabled : Bool

unfoldable pub with_replacement : Bool → NonceManager
with_replacement replacement_enabled = record {
  next_nonce = 0;
  states = [];
  pending_txs = [];
  replacement_enabled = replacement_enabled;
}

unfoldable pub new : NonceManager
unfolding with_replacement
new = with_replacement true

-- `onchain` is the answer of the node to `get_transaction_count` at "pending".
unfoldable pub sync : NonceManager → ℕ → NonceManager
sync m onchain = if ltb m.next_nonce onchain then record m { next_nonce = onchain } else m

-- `fetch_add` wraps.
unfoldable pub reserve : NonceManager → NonceManager × ℕ
reserve m = (
  record m {
    next_nonce = (m.next_nonce + 1) % 2 ^ 64;
    states = insert m.next_nonce reserved m.states;
  },
  m.next_nonce,
)

unfoldable pub mark_submitted :
    NonceManager → (nonce tx_hash max_priority_fee max_fee state_at pending_at : ℕ) → NonceManager
mark_submitted m nonce tx_hash max_priority_fee max_fee state_at pending_at = record m {
  states = insert nonce (submitted tx_hash state_at) m.states;
  pending_txs =
      insert nonce
        (record {
          nonce = nonce;
          tx_hash = tx_hash;
          submitted_at = pending_at;
          max_priority_fee = max_priority_fee;
          max_fee = max_fee;
        })
        m.pending_txs;
}

unfoldable pub mark_included : NonceManager → ℕ → NonceManager
mark_included m nonce = record m {
  states = insert nonce included m.states;
  pending_txs = remove nonce m.pending_txs;
}

unfoldable pub mark_dropped : NonceManager → ℕ → NonceManager
mark_dropped m nonce = record m {
  states = insert nonce dropped m.states;
  pending_txs = remove nonce m.pending_txs;
}

-- The values of a map, in its iteration order.
unfoldable pub values {ℓ} : {V : Type ℓ} → Map V → List V
values [] = []
values ((k, v) ∷ m) = v ∷ values m

unfoldable pub pending_nonces : NonceManager → List PendingNonce
pending_nonces m = values m.pending_txs

-- `submitted_at.elapsed() > timeout`; `elapsed` is 0 where the clock reads an earlier instant.
abbrev pub elapsed_over : (now timeout submitted_at : ℕ) → Bool
elapsed_over now timeout submitted_at = ltb timeout (now - submitted_at)

unfoldable pub is_stuck : NonceManager → (nonce timeout now : ℕ) → Bool
is_stuck m nonce timeout now = elim (lookup nonce m.states) [
  | some (submitted tx_hash submitted_at) ↦ elapsed_over now timeout submitted_at
  | _ ↦ false
]

-- `min_by_key(|p| p.nonce)`: the first of the least.
unfoldable pub min_by_nonce : List PendingNonce → Option PendingNonce
min_by_nonce [] = none
min_by_nonce (p ∷ ps) = elim (min_by_nonce ps) [
  | none ↦ some p
  | some q ↦ if ltb q.nonce p.nonce then some q else some p
]

unfoldable pub next_replacable : NonceManager → (timeout now : ℕ) → Option PendingNonce
next_replacable m timeout now =
    if m.replacement_enabled
    then min_by_nonce (keep (λ p. elapsed_over now timeout p.submitted_at) (values m.pending_txs))
    else none

unfoldable pub calculate_bumped_fees : PendingNonce → (priority_bump base_bump : ℕ) → ℕ × ℕ
calculate_bumped_fees pending priority_bump base_bump = (
  saturating_add u128_max pending.max_priority_fee priority_bump,
  saturating_add u128_max pending.max_fee base_bump,
)

-- The guard of `states` is a temporary of the `if let` and lives until the end of its body, in which
-- `mark_dropped` locks `states` again.
unfoldable pub cancel : (relock : Bool) → NonceManager → ℕ → Run (NonceManager × Bool)
cancel relock m nonce = elim (lookup nonce m.states) [
  | some (submitted tx_hash submitted_at) ↦ lock relock true (done (mark_dropped m nonce, true))
  | _ ↦ done (m, false)
]

unfoldable pub current_nonce : NonceManager → ℕ
current_nonce m = m.next_nonce

unfoldable pub get_state : NonceManager → ℕ → Option NonceState
get_state m nonce = lookup nonce m.states

-- The answer of the node to `get_transaction_receipt_status`.
pub data ReceiptAnswer : Type 0 where
  status : Bool → ReceiptAnswer
  unknown : ReceiptAnswer
  failed : ReceiptAnswer

unfoldable pub receipt_update : ReceiptAnswer → Option NonceState
receipt_update (status true) = some included
receipt_update (status false) = some dropped
receipt_update unknown = none
receipt_update failed = some dropped

unfoldable pub receipt_updates : (ℕ → ReceiptAnswer) → List PendingNonce → List (ℕ × NonceState)
receipt_updates answer [] = []
receipt_updates answer (p ∷ ps) = elim (receipt_update (answer p.tx_hash)) [
  | none ↦ receipt_updates answer ps
  | some state ↦ (p.nonce, state) ∷ receipt_updates answer ps
]

-- `states.iter_mut()`: the nonces below `onchain` become `Included` and are no longer pending.
unfoldable pub include_below : ℕ → Map NonceState → Map NonceState
include_below onchain [] = []
include_below onchain ((nonce, state) ∷ states) =
    (nonce, (if ltb nonce onchain then included else state)) ∷ include_below onchain states

unfoldable pub remove_below : ℕ → Map NonceState → Map PendingNonce → Map PendingNonce
remove_below onchain [] pending_txs = pending_txs
remove_below onchain ((nonce, state) ∷ states) pending_txs =
    remove_below onchain states
      (if ltb nonce onchain then remove nonce pending_txs else pending_txs)

unfoldable pub apply_updates : List (ℕ × NonceState) → NonceManager → NonceManager
apply_updates [] m = m
apply_updates ((nonce, state) ∷ updates) m =
    apply_updates updates
      (record m { states = insert nonce state m.states; pending_txs = remove nonce m.pending_txs })

-- What `reconcile` does once the node has answered: `current` and the updates are from before.
unfoldable pub settle : NonceManager → (current onchain : ℕ) → List (ℕ × NonceState) → NonceManager
settle m current onchain updates =
    let below : NonceManager = record m {
      states = include_below onchain m.states;
      pending_txs = remove_below onchain m.states m.pending_txs;
    } in
    let applied = apply_updates updates below in
    if ltb current onchain then record applied { next_nonce = onchain } else applied

-- `reconcile` with nothing else running; `onchain` is the node's count at "latest".
unfoldable pub reconcile : NonceManager → ℕ → (ℕ → ReceiptAnswer) → NonceManager
reconcile m onchain answer =
    settle m m.next_nonce onchain
      (receipt_updates answer (keep (λ p. leb onchain p.nonce) (values m.pending_txs)))
