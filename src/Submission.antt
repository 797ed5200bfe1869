-- ===== src/Submission.antt =====
-- src/engine.rs, `process_candidate` from the reservation of a nonce on: one transaction's way
-- through the nonce manager and the risk manager. The answers of the submitter are arguments.
pub mod Accounts
mod Examples
use dex_arbitrage.Prelude.{ℕ, ◌-◌, ◌^◌, Bool, true, false, if◌then◌else◌, ltb}
use dex_arbitrage.Prelude.Int.{ℤ, pos, negsuc, ◌-ℤ◌, wrap_i128, ltb_ℤ}
use dex_arbitrage.Types.{ExecutablePlan}
use dex_arbitrage.Nonce.{NonceManager}
use dex_arbitrage.Nonce
use dex_arbitrage.Risk.{RiskManager}
use dex_arbitrage.Risk

pub data ReceiptOutcome : Type 0 where
  included reverted timed_out : ReceiptOutcome

-- What `wait_for_receipt` returns, and what `submit` returns, with the hash and the two instants at
-- which `mark_submitted` reads the clock.
pub data ReceiptAnswer : Type 0 where
  outcome : ReceiptOutcome → ReceiptAnswer
  receipt_error : ReceiptAnswer

pub data SubmitAnswer : Type 0 where
  accepted : (tx_hash state_at pending_at : ℕ) → ReceiptAnswer → SubmitAnswer
  refused : SubmitAnswer

pub data CandidateVerdict : Type 0 where
  no_route validation_rejected depeg_rejected risk_rejected : CandidateVerdict
  simulated submitted submission_rejected : CandidateVerdict

pub record Managers : Type 0 where
  pub nonces : NonceManager
  pub risk : RiskManager

-- `clamp(i64::MIN, i64::MAX)`
unfoldable pub i128_to_i64_saturating : ℤ → ℤ
i128_to_i64_saturating (pos n) = if ltb n (2 ^ 63) then pos n else pos (2 ^ 63 - 1)
i128_to_i64_saturating (negsuc n) = if ltb n (2 ^ 63) then negsuc n else negsuc (2 ^ 63 - 1)

-- `-x` on i128
unfoldable pub neg_i128 : ℤ → ℤ
neg_i128 z = wrap_i128 (pos 0 -ℤ z)

unfoldable pub settle_receipt :
    Managers → ExecutablePlan → (nonce day : ℕ) → ReceiptAnswer → Managers × CandidateVerdict
settle_receipt m plan nonce day (outcome included) = (
  record {
    nonces = Nonce.mark_included m.nonces nonce;
    risk = Risk.mark_finalized m.risk (i128_to_i64_saturating plan.exact.net_profit_usd_e8) day;
  },
  submitted,
)
settle_receipt m plan nonce day (outcome reverted) = (
  record {
    nonces = Nonce.mark_included m.nonces nonce;
    risk = Risk.mark_finalized m.risk (neg_i128 plan.exact.gas_cost_usd_e8) day;
  },
  submission_rejected,
)
settle_receipt m plan nonce day (outcome timed_out) =
    (record m { risk = Risk.mark_failed_submission m.risk }, submission_rejected)
settle_receipt m plan nonce day receipt_error =
    (record m { risk = Risk.mark_failed_submission m.risk }, submission_rejected)

unfoldable pub settle_submission :
    Managers → ExecutablePlan → (nonce day : ℕ) → SubmitAnswer → Managers × CandidateVerdict
settle_submission m plan nonce day (accepted tx_hash state_at pending_at answer) =
    settle_receipt
      (record m {
        nonces =
            Nonce.mark_submitted m.nonces nonce tx_hash plan.max_priority_fee_per_gas
              plan.max_fee_per_gas state_at pending_at;
      })
      plan nonce day answer
settle_submission m plan nonce day refused = (
  record { nonces = Nonce.mark_dropped m.nonces nonce; risk = Risk.mark_failed_submission m.risk },
  submission_rejected,
)

unfoldable pub execute :
    Managers → ExecutablePlan → (day : ℕ) → SubmitAnswer → Managers × CandidateVerdict
execute m plan day answer =
    let (nonces, nonce) = Nonce.reserve m.nonces in
    settle_submission (record { nonces = nonces; risk = Risk.mark_submitted m.risk })
      (record plan { nonce = nonce }) nonce day answer
