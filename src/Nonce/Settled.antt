-- ===== src/Nonce/Settled.antt =====
-- src/execution/nonce_manager.rs, `reconcile`: what is left pending, and that the invariant is kept.
use dex_arbitrage.Prelude.{
  ℕ, ◌≤◌, ◌≡◌, refl, true, false, Bool, none, some, List, [], ◌∷◌, max, ltb, leb, arith, inl, inr,
  Bool-cases, Option-cases, keep, All, Any, subst, ◌≢◌, ap, ◌∙◌, ltb→lt, le→leb, sym,
}
use dex_arbitrage.Prelude.Map.{Map, lookup}
use dex_arbitrage.Nonce.{
  NonceState, PendingNonce, NonceManager, values, ReceiptAnswer, status, unknown, failed,
  receipt_update, receipt_updates, apply_updates, settle, reconcile,
}
use dex_arbitrage.Nonce.Invariant.{IsValid, raise-IsValid}
use dex_arbitrage.Nonce.Reconcile.{
  below, below-Filed, below-IsValid, apply_updates-IsValid, apply_updates-next,
  apply_updates-pending, receipt_updates-Targets, All-keep, remove_below-keeps,
}

lookup-Any :
    (n : ℕ) (ps : Map PendingNonce) (p : PendingNonce)
    → lookup n ps ≡ some p
    → Any (λ q. q ≡ p) (values ps)
unfolding lookup values
lookup-Any n [] p h = absurd (ground arith)
lookup-Any n ((k, q) ∷ ps) p h = ground (arith, lookup-Any n ps p)

Any-keep_intro :
    (f : PendingNonce → Bool) (ps : List PendingNonce) (p : PendingNonce)
    → f p ≡ true
    → Any (λ q. q ≡ p) ps
    → Any (λ q. q ≡ p) (keep f ps)
unfolding keep
Any-keep_intro f [] p e h = h
Any-keep_intro f (q ∷ ps) p e (inl h) = rw (ap f h ∙ e) (inl h)
Any-keep_intro f (q ∷ ps) p e (inr h) =
    let ih = Any-keep_intro f ps p e h in
    elim (Bool-cases (f q)) [ inl t ↦ rw t (inr ih) | inr t ↦ rw t ih ]

module _ (answer : ℕ → ReceiptAnswer) (q : PendingNonce) (ps : List PendingNonce) where
  updates_none :
      receipt_update (answer q.tx_hash) ≡ none
      → receipt_updates answer (q ∷ ps) ≡ receipt_updates answer ps
  unfolding receipt_updates
  updates_none t = ground arith

  updates_some :
      (s : NonceState)
      → receipt_update (answer q.tx_hash) ≡ some s
      → receipt_updates answer (q ∷ ps) ≡ (q.nonce, s) ∷ receipt_updates answer ps
  unfolding receipt_updates
  updates_some s t = ground arith

-- No update is for this nonce.
abbrev Spares : ℕ → List (ℕ × NonceState) → Type 0
Spares n us = All (λ u. u.0 ≢ n) us

-- A transaction that the node knows an outcome of gets an update.
updated :
    (answer : ℕ → ReceiptAnswer) (ps : List PendingNonce) (p : PendingNonce) (s : NonceState)
    → receipt_update (answer p.tx_hash) ≡ some s
    → Any (λ q. q ≡ p) ps
    → ¬ Spares p.nonce (receipt_updates answer ps)
updated answer [] p s e h a = absurd h
updated answer (q ∷ ps) p s e (inl h) a =
    let t : receipt_update (answer q.tx_hash) ≡ some s =
      ap (λ (x : PendingNonce). receipt_update (answer x.tx_hash)) h ∙ e in
    (subst (Spares p.nonce) (updates_some answer q ps s t) a).0
      (ap (λ (x : PendingNonce). x.nonce) h)
updated answer (q ∷ ps) p s e (inr h) a = elim (Option-cases (receipt_update (answer q.tx_hash))) [
  | inl t ↦ updated answer ps p s e h (subst (Spares p.nonce) (updates_none answer q ps t) a)
  | inr (z, t) ↦
      updated answer ps p s e h (subst (Spares p.nonce) (updates_some answer q ps z t) a).1
]

receipt_update-none : (a : ReceiptAnswer) → receipt_update a ≡ none → a ≡ unknown
unfolding receipt_update
receipt_update-none (status true) h = cc
receipt_update-none (status false) h = cc
receipt_update-none unknown h = refl
receipt_update-none failed h = cc

pub reconcile-next :
    (m : NonceManager) (onchain : ℕ) (answer : ℕ → ReceiptAnswer)
    → (reconcile m onchain answer).next_nonce ≡ max m.next_nonce onchain
unfolding reconcile settle
reconcile-next m onchain answer =
    let us = receipt_updates answer (keep (λ p. leb onchain p.nonce) (values m.pending_txs)) in
    ground (arith, apply_updates-next us (below m onchain))

-- What `reconcile` leaves: a valid manager, the counter, and what is still pending.
pub record Settles (m : NonceManager) (onchain : ℕ) (answer : ℕ → ReceiptAnswer) (m' : NonceManager)
    : Type 0 where
  pub valid : IsValid m'
  pub counter : m'.next_nonce ≡ max m.next_nonce onchain
  pub left :
      (n : ℕ) (p : PendingNonce)
      → lookup n m'.pending_txs ≡ some p
      → (onchain ≤ n) × (lookup n m.pending_txs ≡ some p) × (answer p.tx_hash ≡ unknown)

module _ (m : NonceManager) (onchain : ℕ) (answer : ℕ → ReceiptAnswer) (v : IsValid m) where
  abbrev checks : List PendingNonce
  checks = keep (λ p. leb onchain p.nonce) (values m.pending_txs)

  abbrev settled : NonceManager
  settled = apply_updates (receipt_updates answer checks) (below m onchain)

  settled-IsValid : IsValid settled
  settled-IsValid =
      apply_updates-IsValid (receipt_updates answer checks) (below m onchain)
        (below-IsValid m onchain v)
        (receipt_updates-Targets answer m.next_nonce checks
          (All-keep m.next_nonce (λ p. leb onchain p.nonce) (values m.pending_txs) v.low))

  -- `reconcile` keeps a valid manager valid.
  pub reconcile-IsValid : IsValid (reconcile m onchain answer)
  unfolding reconcile settle
  reconcile-IsValid = elim (Bool-cases (ltb m.next_nonce onchain)) [
    | inl h ↦ rw h (
        raise-IsValid settled onchain settled-IsValid (
          omega (
            arith,
            apply_updates-next (receipt_updates answer checks) (below m onchain),
            ltb→lt m.next_nonce onchain h,
          )))
    | inr h ↦ rw h settled-IsValid
  ]

  settled-unknown :
      (n : ℕ) (p : PendingNonce)
      → lookup n settled.pending_txs ≡ some p
      → (onchain ≤ n) × (lookup n m.pending_txs ≡ some p) × (answer p.tx_hash ≡ unknown)
  settled-unknown n p h =
      let (there, spared) =
        apply_updates-pending (receipt_updates answer checks) (below m onchain) n p h in
      let (f, above) = below-Filed m onchain n p v there in
      let before = remove_below-keeps onchain n m.states m.pending_txs p there in
      (
        above,
        before,
        elim (Option-cases (receipt_update (answer p.tx_hash))) [
          | inl e ↦ receipt_update-none (answer p.tx_hash) e
          | inr (s, e) ↦ absurd (
              updated answer checks p s e
                (Any-keep_intro (λ q. leb onchain q.nonce) (values m.pending_txs) p
                  (le→leb onchain p.nonce (omega (arith, f.key)))
                  (lookup-Any n m.pending_txs p before))
                (subst (λ k. Spares k (receipt_updates answer checks)) (sym f.key) spared))
        ],
      )

  -- `reconcile` leaves a valid manager valid, with the larger of its counter and the node's count; and
  -- a transaction that is still pending afterwards was pending before under the same nonce, which is
  -- at least the node's count, and the node has no receipt of it yet.
  pub reconcile-pending : Settles m onchain answer (reconcile m onchain answer)
  reconcile-pending = record {
    valid = reconcile-IsValid;
    counter = reconcile-next m onchain answer;
    left = λ n p h.
        let same : (reconcile m onchain answer).pending_txs ≡ settled.pending_txs =
          unfold reconcile settle in ground arith in
        settled-unknown n p (subst (λ z. lookup n z ≡ some p) same h);
  }
