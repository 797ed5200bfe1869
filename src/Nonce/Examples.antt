-- ===== src/Nonce/Examples.antt =====
-- The nonce manager on small runs.
use dex_arbitrage.Prelude.{◌≤◌, ◌≡◌, refl, true, false, some, [], ◌∷◌, arith, All, Any, keep}
use dex_arbitrage.Prelude.Lock.{done, deadlock}
use dex_arbitrage.Prelude.Map.{lookup, insert}
use dex_arbitrage.Nonce.{
  reserved, PendingNonce, NonceManager, new, with_replacement, reserve, mark_submitted, unknown,
  cancel, get_state, next_replacable, values, settle, reconcile, min_by_nonce,
}
use dex_arbitrage.Nonce.Invariant.{IsValid, with_replacement-IsValid}
use dex_arbitrage.Nonce.Replace.{stuck, next_replacable-some, Ends, cancel_lem}
use dex_arbitrage.Nonce.Settled.{Settles, reconcile-pending}
use dex_arbitrage.Nonce.History.{
  reserves, submits, syncs, drops, call, call-IsValid, issued_nonces, Rising, issued_nonces-Rising,
}
use dex_arbitrage.Nonce.Races.{reserve_times, settle-reserve_times}

-- Nonce 0 is reserved, then its transaction with hash 77 is submitted at the instant 10.
abbrev one_reserved : NonceManager
one_reserved = call (with_replacement true) reserves

abbrev one_pending : NonceManager
one_pending = call one_reserved (submits 0 77 2 30 10 10)

abbrev first_pending : PendingNonce
first_pending = record {
  nonce = 0;
  tx_hash = 77;
  submitted_at = 10;
  max_priority_fee = 2;
  max_fee = 30;
}

one_pending-IsValid : IsValid one_pending
unfolding call reserve with_replacement
one_pending-IsValid =
    call-IsValid one_reserved (submits 0 77 2 30 10 10)
      (call-IsValid (with_replacement true) reserves (with_replacement-IsValid true) (omega arith))
      (omega arith)

call-IsValid_example : IsValid (call one_pending (drops 0))
unfolding call reserve with_replacement mark_submitted
call-IsValid_example = call-IsValid one_pending (drops 0) one_pending-IsValid (omega arith)

issued_nonces-Rising_example :
    Rising 0 (issued_nonces (with_replacement true) (reserves ∷ syncs 5 ∷ reserves ∷ []))
unfolding with_replacement
issued_nonces-Rising_example =
    issued_nonces-Rising (with_replacement true) (reserves ∷ syncs 5 ∷ reserves ∷ []) 5
      (omega arith) (omega arith) (omega arith)

next_replacable-some_example :
    (one_pending.replacement_enabled ≡ true)
    × Any (λ q. (q ≡ first_pending) × (stuck 5 20 q ≡ true)) (values one_pending.pending_txs)
    × All (λ q. 0 ≤ q.nonce) (keep (stuck 5 20) (values one_pending.pending_txs))
unfolding call reserve with_replacement mark_submitted next_replacable insert values min_by_nonce
    keep
next_replacable-some_example = next_replacable-some one_pending 5 20 first_pending refl

cancel_lem_example : Ends one_pending (get_state one_pending 0) (cancel false one_pending 0)
cancel_lem_example = cancel_lem false one_pending 0 refl

-- From the submitted nonce, and from one that was never reserved.
cancelled :
    (cancel false one_pending 0 ≡ deadlock)
    × (cancel false one_pending 5 ≡ done (one_pending, false))
unfolding call reserve with_replacement mark_submitted cancel lookup insert
cancelled = (refl, refl)

reconcile-pending_example :
    Settles one_pending 0 (λ h. unknown) (reconcile one_pending 0 (λ h. unknown))
reconcile-pending_example = reconcile-pending one_pending 0 (λ h. unknown) one_pending-IsValid

settle-reserve_times_example :
    (get_state (reserve_times 3 new) 2 ≡ some reserved)
    × ((reserve (settle (reserve_times 3 new) new.next_nonce 2 [])).1 ≡ 2)
unfolding new
settle-reserve_times_example =
    settle-reserve_times new 3 2 [] (omega arith) (omega arith) (omega arith)
