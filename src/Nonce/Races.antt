-- ===== src/Nonce/Races.antt =====
-- src/execution/nonce_manager.rs: `reconcile` while other tasks reserve. It loads the counter, waits
-- for the node's receipts, and then compares and stores by what it loaded.
use dex_arbitrage.Prelude.{ℕ, zero, suc, ◌+◌, ◌^◌, ◌≤◌, ◌<◌, ◌≡◌, some, List, arith}
use dex_arbitrage.Prelude.Map.{lookup, lookup-insert}
use dex_arbitrage.Nonce.{NonceState, reserved, NonceManager, reserve, settle, get_state}

-- Reservations by other tasks.
pub reserve_times : ℕ → NonceManager → NonceManager
reserve_times zero m = m
reserve_times (suc k) m = (reserve (reserve_times k m)).0

pub reserve_times-next :
    (k : ℕ) (m : NonceManager)
    → m.next_nonce + k < 2 ^ 64
    → (reserve_times k m).next_nonce ≡ m.next_nonce + k
unfolding reserve_times reserve
reserve_times-next zero m h = omega arith
reserve_times-next (suc k) m h = omega (arith, reserve_times-next k m (omega arith))

reserve_times-reserved :
    (k : ℕ) (m : NonceManager) (n : ℕ)
    → m.next_nonce + k < 2 ^ 64
    → m.next_nonce ≤ n
    → n < m.next_nonce + k
    → lookup n (reserve_times k m).states ≡ some reserved
unfolding reserve_times reserve
reserve_times-reserved zero m n h l u = absurd (omega arith)
reserve_times-reserved (suc k) m n h l u =
    let r = reserve_times k m in
    let next = reserve_times-next k m (omega arith) in
    ground
      (arith, lookup-insert r.next_nonce n reserved r.states, next, reserve_times-reserved k m n)

-- A reconciliation can hand a nonce out again: if it loads a counter below the node's count, and
-- `k` reservations by other tasks take the counter past that count before it stores, then that
-- count is already reserved and the next reservation returns it once more.
pub settle-reserve_times :
    (m : NonceManager) (k onchain : ℕ) (updates : List (ℕ × NonceState))
    → m.next_nonce < onchain
    → onchain < m.next_nonce + k
    → m.next_nonce + k < 2 ^ 64
    → (get_state (reserve_times k m) onchain ≡ some reserved)
      × ((reserve (settle (reserve_times k m) m.next_nonce onchain updates)).1 ≡ onchain)
unfolding get_state reserve settle
settle-reserve_times m k onchain updates below over small =
    (reserve_times-reserved k m onchain small (omega arith) over, ground arith)
