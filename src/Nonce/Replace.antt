-- ===== src/Nonce/Replace.antt =====
-- src/execution/nonce_manager.rs: replacement and cancellation.
use dex_arbitrage.Prelude.{
  ℕ, ◌≤◌, ◌≡◌, refl, true, false, Bool, Option, none, some, List, [], ◌∷◌, ltb, arith, inl, inr,
  Bool-cases, Option-cases, keep, Any-keep, subst, All, Any,
}
use dex_arbitrage.Prelude.Lock.{Run, done, deadlock, lock}
use dex_arbitrage.Prelude.Map.{lookup}
use dex_arbitrage.Nonce.{
  NonceState, reserved, submitted, included, dropped, PendingNonce, NonceManager, elapsed_over,
  values, min_by_nonce, next_replacable, cancel, get_state, mark_dropped,
}

abbrev pub stuck : (timeout now : ℕ) → PendingNonce → Bool
stuck timeout now p = elapsed_over now timeout p.submitted_at

-- The least nonce of a list.
pub record IsLeast (ps : List PendingNonce) (p : PendingNonce) : Type 0 where
  pub among : Any (λ q. q ≡ p) ps
  pub least : All (λ q. p.nonce ≤ q.nonce) ps

All-le :
    (a b : ℕ) (ps : List PendingNonce)
    → a ≤ b
    → All (λ q. b ≤ q.nonce) ps
    → All (λ q. a ≤ q.nonce) ps
All-le a b [] h k = tt
All-le a b (p ∷ ps) h k = (omega arith, All-le a b ps h k.1)

min_by_nonce-none : (ps : List PendingNonce) → min_by_nonce ps ≡ none → ps ≡ []
unfolding min_by_nonce
min_by_nonce-none [] h = refl
min_by_nonce-none (p ∷ ps) h = absurd (ground arith)

min_by_nonce-IsLeast :
    (ps : List PendingNonce) (p : PendingNonce) → min_by_nonce ps ≡ some p → IsLeast ps p
unfolding min_by_nonce
min_by_nonce-IsLeast [] p h = absurd (ground arith)
min_by_nonce-IsLeast (x ∷ ps) p h = elim (Option-cases (min_by_nonce ps)) [
  | inl e ↦
      let q : x ≡ p = ground arith in
      record { among = inl q; least = (ground arith, rw (min_by_nonce-none ps e) tt) }
  | inr (y, e) ↦
      let ih = min_by_nonce-IsLeast ps y e in
      elim (Bool-cases (ltb y.nonce x.nonce)) [
        | inl l ↦
            let q : y ≡ p = ground arith in
            record {
              among = inr (subst (λ z. Any (λ w. w ≡ z) ps) q ih.among);
              least = (
                ground arith,
                subst (λ (z : PendingNonce). All (λ w. z.nonce ≤ w.nonce) ps) q ih.least,
              );
            }
        | inr l ↦
            let q : x ≡ p = ground arith in
            record {
              among = inl q;
              least = (ground arith, All-le p.nonce y.nonce ps (ground arith) ih.least);
            }
      ]
]

-- What is offered for replacement is a pending transaction over its time, replacement being enabled,
-- and no other pending transaction over its time has a smaller nonce.
pub next_replacable-some :
    (m : NonceManager) (timeout now : ℕ) (p : PendingNonce)
    → next_replacable m timeout now ≡ some p
    → (m.replacement_enabled ≡ true)
      × Any (λ q. (q ≡ p) × (stuck timeout now q ≡ true)) (values m.pending_txs)
      × All (λ q. p.nonce ≤ q.nonce) (keep (stuck timeout now) (values m.pending_txs))
unfolding next_replacable
next_replacable-some m timeout now p h = elim (Bool-cases m.replacement_enabled) [
  | inl e ↦
      let least =
        min_by_nonce-IsLeast (keep (stuck timeout now) (values m.pending_txs)) p (ground arith) in
      (e, Any-keep (stuck timeout now) (λ q. q ≡ p) (values m.pending_txs) least.among, least.least)
  | inr e ↦ absurd (ground arith)
]

-- How a cancellation ends for what is known of the nonce: it never returns from a submitted
-- transaction, and otherwise it returns `false` with the manager as it was.
abbrev pub Ends : NonceManager → Option NonceState → Run (NonceManager × Bool) → Type 0
Ends m (some (submitted tx_hash submitted_at)) result = result ≡ deadlock
Ends m (some reserved) result = result ≡ done (m, false)
Ends m (some included) result = result ≡ done (m, false)
Ends m (some dropped) result = result ≡ done (m, false)
Ends m none result = result ≡ done (m, false)

-- A nonce whose transaction is submitted cannot be cancelled: where `lock` waits in a thread that
-- holds the mutex, `cancel` never returns from a nonce whose state is submitted, and from each other
-- nonce, one without a state included, it returns `false` and changes nothing.
pub cancel_lem :
    (relock : Bool) (m : NonceManager) (nonce : ℕ)
    → relock ≡ false
    → Ends m (get_state m nonce) (cancel relock m nonce)
unfolding cancel get_state
cancel_lem relock m nonce wait = by_state (lookup nonce m.states)
  where
    by_state :
        (s : Option NonceState)
        → Ends m s (elim s [
          | some (submitted tx_hash submitted_at) ↦
              lock relock true (done (mark_dropped m nonce, true))
          | _ ↦ done (m, false)
        ])
    by_state none = refl
    by_state (some reserved) = refl
    by_state (some (submitted h t)) = rw wait refl
    by_state (some included) = refl
    by_state (some dropped) = refl
