-- ===== src/Submission/Accounts.antt =====
-- src/engine.rs: what a transaction leaves in the two managers, on each path.
use dex_arbitrage.Prelude.{
  ℕ, ◌+◌, ◌^◌, ◌<◌, ◌≡◌, refl, true, false, Bool, none, some, arith, ◌⊎◌, inl, inr,
}
use dex_arbitrage.Prelude.Int.{ℤ, ◌+ℤ◌, wrap_i128}
use dex_arbitrage.Prelude.Map.{Map, lookup, insert, remove, lookup-insert, lookup-remove}
use dex_arbitrage.Types.{ExecutablePlan}
use dex_arbitrage.Nonce.{NonceManager, NonceState, get_state}
use dex_arbitrage.Nonce
use dex_arbitrage.Risk.{RiskManager, pnl_of}
use dex_arbitrage.Risk
use dex_arbitrage.Risk.Positions.{finalized-pnl}
use dex_arbitrage.Submission.{
  included, reverted, timed_out, outcome, receipt_error, SubmitAnswer, accepted, refused,
  CandidateVerdict, submitted, submission_rejected, Managers, i128_to_i64_saturating, neg_i128,
  settle_receipt, settle_submission, execute,
}

-- The state of the nonce at the end, and what the day's ledger gains.
abbrev pub final_state : SubmitAnswer → NonceState
final_state (accepted h at1 at2 (outcome included)) = NonceState.included
final_state (accepted h at1 at2 (outcome reverted)) = NonceState.included
final_state (accepted h at1 at2 _) = NonceState.submitted h at1
final_state refused = NonceState.dropped

abbrev pub ledger_after : ExecutablePlan → SubmitAnswer → ℤ → ℤ
ledger_after plan (accepted h at1 at2 (outcome included)) pnl =
    wrap_i128 (pnl +ℤ i128_to_i64_saturating plan.exact.net_profit_usd_e8)
ledger_after plan (accepted h at1 at2 (outcome reverted)) pnl =
    wrap_i128 (pnl +ℤ neg_i128 plan.exact.gas_cost_usd_e8)
ledger_after plan _ pnl = pnl

abbrev pub is_open : SubmitAnswer → Bool
is_open (accepted h at1 at2 (outcome included)) = false
is_open (accepted h at1 at2 (outcome reverted)) = false
is_open (accepted h at1 at2 _) = true
is_open refused = false

-- What each end of a transaction says of its verdict.
abbrev pub verdict_of : SubmitAnswer → CandidateVerdict
verdict_of (accepted h at1 at2 (outcome included)) = submitted
verdict_of _ = submission_rejected

-- The books after a transaction: the count is as before, the day's ledger has the realized amount,
-- the nonce has its final state, it is no longer pending unless its end is unknown, and the counter
-- has moved on by one.
pub record Booked (m e : Managers) (plan : ExecutablePlan) (day : ℕ) (answer : SubmitAnswer)
    : Type 0 where
  pub open_count : e.risk.open_tx_count ≡ m.risk.open_tx_count
  pub ledger : pnl_of e.risk day ≡ ledger_after plan answer (pnl_of m.risk day)
  pub state : get_state e.nonces m.nonces.next_nonce ≡ some (final_state answer)
  pub settled : (is_open answer ≡ true) ⊎ (lookup m.nonces.next_nonce e.nonces.pending_txs ≡ none)
  pub next : e.nonces.next_nonce ≡ m.nonces.next_nonce + 1

insert-same {ℓ} : {V : Type ℓ} (k : ℕ) (v : V) (m : Map V) → lookup k (insert k v m) ≡ some v
insert-same k v m = ground (arith, lookup-insert k k v m)

remove-same {ℓ} : {V : Type ℓ} (k : ℕ) (m : Map V) → lookup k (remove k m) ≡ none
remove-same k m = ground (arith, lookup-remove k k m)

failed-open :
    (r : RiskManager)
    → r.open_tx_count + 1 < 2 ^ 64
    → (Risk.mark_failed_submission (Risk.mark_submitted r)).open_tx_count ≡ r.open_tx_count
unfolding Risk.mark_submitted Risk.mark_failed_submission Risk.close_one
failed-open r h = ground arith

finalized-open :
    (r : RiskManager) (z : ℤ) (day : ℕ)
    → r.open_tx_count + 1 < 2 ^ 64
    → (Risk.mark_finalized (Risk.mark_submitted r) z day).open_tx_count ≡ r.open_tx_count
unfolding Risk.mark_submitted Risk.mark_finalized Risk.close_one
finalized-open r z day h = ground arith

submitted-pnl : (r : RiskManager) (day : ℕ) → pnl_of (Risk.mark_submitted r) day ≡ pnl_of r day
unfolding Risk.mark_submitted pnl_of
submitted-pnl r day = refl

submitted-positive :
    (r : RiskManager) → r.open_tx_count + 1 < 2 ^ 64 → 0 < (Risk.mark_submitted r).open_tx_count
unfolding Risk.mark_submitted
submitted-positive r h = omega arith

closed-pnl :
    (r : RiskManager) (z : ℤ) (day : ℕ)
    → r.open_tx_count + 1 < 2 ^ 64
    → pnl_of (Risk.mark_finalized (Risk.mark_submitted r) z day) day ≡ wrap_i128 (pnl_of r day +ℤ z)
closed-pnl r z day h = ground (
  arith,
  finalized-pnl (Risk.mark_submitted r) z day day (submitted-positive r h),
  submitted-pnl r day,
)

failed-pnl :
    (r : RiskManager) (day : ℕ)
    → pnl_of (Risk.mark_failed_submission (Risk.mark_submitted r)) day ≡ pnl_of r day
unfolding Risk.mark_submitted Risk.mark_failed_submission Risk.close_one pnl_of
failed-pnl r day = refl

-- A transaction leaves the books in order on every path: where the nonce counter and the count of
-- open transactions do not wrap, `execute` answers with the verdict of its end and the managers are
-- `Booked`.
pub execute-Booked :
    (m : Managers) (plan : ExecutablePlan) (day : ℕ) (answer : SubmitAnswer)
    → m.risk.open_tx_count + 1 < 2 ^ 64
    → m.nonces.next_nonce + 1 < 2 ^ 64
    → Booked m (execute m plan day answer).0 plan day answer
      × ((execute m plan day answer).1 ≡ verdict_of answer)
unfolding execute settle_submission settle_receipt Nonce.reserve Nonce.mark_submitted
    Nonce.mark_included Nonce.mark_dropped get_state
execute-Booked m plan day (accepted h a b (outcome included)) ho hn = (
  record {
    open_count = finalized-open m.risk (i128_to_i64_saturating plan.exact.net_profit_usd_e8) day ho;
    ledger = closed-pnl m.risk (i128_to_i64_saturating plan.exact.net_profit_usd_e8) day ho;
    state = insert-same m.nonces.next_nonce NonceState.included _;
    settled = inr (remove-same m.nonces.next_nonce _);
    next = omega arith;
  },
  refl,
)
execute-Booked m plan day (accepted h a b (outcome reverted)) ho hn = (
  record {
    open_count = finalized-open m.risk (neg_i128 plan.exact.gas_cost_usd_e8) day ho;
    ledger = closed-pnl m.risk (neg_i128 plan.exact.gas_cost_usd_e8) day ho;
    state = insert-same m.nonces.next_nonce NonceState.included _;
    settled = inr (remove-same m.nonces.next_nonce _);
    next = omega arith;
  },
  refl,
)
execute-Booked m plan day (accepted h a b (outcome timed_out)) ho hn = (
  record {
    open_count = failed-open m.risk ho;
    ledger = failed-pnl m.risk day;
    state = insert-same m.nonces.next_nonce (NonceState.submitted h a) _;
    settled = inl refl;
    next = omega arith;
  },
  refl,
)
execute-Booked m plan day (accepted h a b receipt_error) ho hn = (
  record {
    open_count = failed-open m.risk ho;
    ledger = failed-pnl m.risk day;
    state = insert-same m.nonces.next_nonce (NonceState.submitted h a) _;
    settled = inl refl;
    next = omega arith;
  },
  refl,
)
execute-Booked m plan day refused ho hn = (
  record {
    open_count = failed-open m.risk ho;
    ledger = failed-pnl m.risk day;
    state = insert-same m.nonces.next_nonce NonceState.dropped _;
    settled = inr (remove-same m.nonces.next_nonce _);
    next = omega arith;
  },
  refl,
)
