-- ===== src/Risk/Positions.antt =====
-- src/risk/limits.rs: the count of open transactions and the daily ledger over a series of events.
use dex_arbitrage.Prelude.{
  ℕ, suc, ◌+◌, ◌^◌, ◌<◌, ◌≡◌, refl, List, [], ◌∷◌, arith, ◌==◌, if◌then◌else◌, ◌∙◌, sym, ap,
}
use dex_arbitrage.Prelude.Map.{lookup-insert}
use dex_arbitrage.Prelude.Int.{ℤ, pos, ◌+ℤ◌, FitsI128, wrap_i128, wrap_i128-Fits, +ℤ_zero, +ℤ_assoc}
use dex_arbitrage.Risk.{
  RiskManager, pnl_of, mark_submitted, close_one, mark_finalized, mark_failed_submission,
}

pub data Event : Type 0 where
  submitted : Event
  finalized : (realized : ℤ) (day : ℕ) → Event
  failed : Event

unfoldable pub step : RiskManager → Event → RiskManager
step r submitted = mark_submitted r
step r (finalized realized day) = mark_finalized r realized day
step r failed = mark_failed_submission r

unfoldable pub run : RiskManager → List Event → RiskManager
run r [] = r
run r (e ∷ es) = run (step r e) es

-- No count wraps, nothing is closed that is not open, and each day's sum is an `i128`.
abbrev pub Allows : RiskManager → Event → Type 0
Allows r submitted = r.open_tx_count + 1 < 2 ^ 64
Allows r (finalized realized day) = (0 < r.open_tx_count) × FitsI128 (pnl_of r day +ℤ realized)
Allows r failed = 0 < r.open_tx_count

abbrev pub AllowsAll : RiskManager → List Event → Type 0
AllowsAll r [] = Unit
AllowsAll r (e ∷ es) = (r.open_tx_count < 2 ^ 64) × Allows r e × AllowsAll (step r e) es

abbrev pub opens : List Event → ℕ
opens [] = 0
opens (submitted ∷ es) = suc (opens es)
opens (e ∷ es) = opens es

abbrev pub closes : List Event → ℕ
closes [] = 0
closes (submitted ∷ es) = closes es
closes (e ∷ es) = suc (closes es)

-- What an event adds to the ledger of a day, and the sum of that.
abbrev pub change_on : ℕ → Event → ℤ
change_on day (finalized realized on) = if on == day then realized else pos 0
change_on day _ = pos 0

unfoldable pub realized_on : ℕ → List Event → ℤ
realized_on day [] = pos 0
realized_on day (e ∷ es) = change_on day e +ℤ realized_on day es

step-open :
    (r : RiskManager) (e : Event)
    → r.open_tx_count < 2 ^ 64
    → Allows r e
    → (step r e).open_tx_count + closes (e ∷ []) ≡ r.open_tx_count + opens (e ∷ [])
unfolding step mark_submitted mark_finalized mark_failed_submission close_one
step-open r submitted b a = omega arith
step-open r (finalized realized day) b a = ground arith
step-open r failed b a = ground arith

pub finalized-pnl :
    (r : RiskManager) (realized : ℤ) (on day : ℕ)
    → 0 < r.open_tx_count
    → pnl_of (mark_finalized r realized on) day
      ≡ (if on == day then wrap_i128 (pnl_of r on +ℤ realized) else pnl_of r day)
unfolding mark_finalized close_one pnl_of
finalized-pnl r realized on day h =
    ground (arith, lookup-insert on day (wrap_i128 (pnl_of r on +ℤ realized)) r.daily_pnl_usd_e8)

step-pnl :
    (r : RiskManager) (e : Event) (day : ℕ)
    → Allows r e
    → pnl_of (step r e) day ≡ pnl_of r day +ℤ change_on day e
unfolding step mark_submitted mark_failed_submission close_one
step-pnl r submitted day a = unfold pnl_of in sym (+ℤ_zero (pnl_of r day))
step-pnl r failed day a = unfold pnl_of in sym (+ℤ_zero (pnl_of r day))
step-pnl r (finalized realized on) day a =
    finalized-pnl r realized on day a.0
    ∙ ground (arith, wrap_i128-Fits (pnl_of r on +ℤ realized) a.1, +ℤ_zero (pnl_of r day))

-- Over any series of submissions, finalizations and failures in which nothing is closed that is not
-- open and no count or day's sum overflows, the open transactions are those at the start, plus the
-- submissions, less the closings, and each day's ledger grows by what was realized on that day.
pub run-balance :
    (r : RiskManager) (es : List Event) (day : ℕ)
    → AllowsAll r es
    → ((run r es).open_tx_count + closes es ≡ r.open_tx_count + opens es)
      × (pnl_of (run r es) day ≡ pnl_of r day +ℤ realized_on day es)
unfolding run realized_on
run-balance r [] day a = (refl, sym (+ℤ_zero (pnl_of r day)))
run-balance r (e ∷ es) day a =
    let ih = run-balance (step r e) es day a.2 in
    (
      counted e (step-open r e a.0 a.1) ih.0,
      ih.1
          ∙ ap (λ z. z +ℤ realized_on day es) (step-pnl r e day a.1)
          ∙ +ℤ_assoc (pnl_of r day) (change_on day e) (realized_on day es),
    )
  where
    counted :
        (e : Event)
        → (step r e).open_tx_count + closes (e ∷ []) ≡ r.open_tx_count + opens (e ∷ [])
        → (run (step r e) es).open_tx_count + closes es ≡ (step r e).open_tx_count + opens es
        → (run (step r e) es).open_tx_count + closes (e ∷ es) ≡ r.open_tx_count + opens (e ∷ es)
    counted submitted h k = omega arith
    counted (finalized realized on) h k = omega arith
    counted failed h k = omega arith
