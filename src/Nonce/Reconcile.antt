-- ===== src/Nonce/Reconcile.antt =====
-- src/execution/nonce_manager.rs, `reconcile`: the loops over the states and over the updates.
use dex_arbitrage.Prelude.{
  ℕ, ◌≤◌, ◌<◌, ◌≡◌, refl, Bool, none, some, List, [], ◌∷◌, ◌==◌, ltb, if◌then◌else◌, arith, inl,
  inr, Bool-cases, Option-cases, keep, All, ◌≢◌,
}
use dex_arbitrage.Prelude.Map.{Map, lookup, insert, remove, lookup-remove}
use dex_arbitrage.Nonce.{
  NonceState, included, PendingNonce, NonceManager, ReceiptAnswer, receipt_updates, include_below,
  remove_below, apply_updates,
}
use dex_arbitrage.Nonce.Invariant.{Filed, IsValid, Low, remove-Low, settled, settled-IsValid}

abbrev mark : ℕ → ℕ → NonceState → NonceState
mark onchain n s = if ltb n onchain then included else s

lookup-include_below :
    (onchain n : ℕ) (states : Map NonceState)
    → lookup n (include_below onchain states)
      ≡ (elim (lookup n states) [ none ↦ none | some s ↦ some (mark onchain n s) ])
unfolding lookup include_below
lookup-include_below onchain n [] = refl
lookup-include_below onchain n ((k, s) ∷ states) =
    ground (arith, lookup-include_below onchain n states)

pub remove_below-keeps :
    (onchain n : ℕ) (states : Map NonceState) (ps : Map PendingNonce) (p : PendingNonce)
    → lookup n (remove_below onchain states ps) ≡ some p
    → lookup n ps ≡ some p
unfolding remove_below
remove_below-keeps onchain n [] ps p h = h
remove_below-keeps onchain n ((k, s) ∷ states) ps p h =
    let rest : Map PendingNonce = if ltb k onchain then remove k ps else ps in
    let ih : lookup n rest ≡ some p = remove_below-keeps onchain n states rest p h in
    ground (arith, lookup-remove k n ps)

remove_below-above :
    (onchain n : ℕ) (states : Map NonceState) (ps : Map PendingNonce) (p : PendingNonce)
    (s : NonceState)
    → lookup n (remove_below onchain states ps) ≡ some p
    → lookup n states ≡ some s
    → onchain ≤ n
unfolding remove_below lookup
remove_below-above onchain n [] ps p s h q = absurd (ground arith)
remove_below-above onchain n ((k, t) ∷ states) ps p s h q =
    let rest : Map PendingNonce = if ltb k onchain then remove k ps else ps in
    let there : lookup n rest ≡ some p = remove_below-keeps onchain n states rest p h in
    elim (Bool-cases (k == n)) [
      | inl e ↦ ground (arith, lookup-remove k n ps)
      | inr e ↦ remove_below-above onchain n states rest p s h (ground arith)
    ]

remove_below-Low :
    (onchain bound : ℕ) (states : Map NonceState) (ps : Map PendingNonce)
    → Low bound ps
    → Low bound (remove_below onchain states ps)
unfolding remove_below
remove_below-Low onchain bound [] ps l = l
remove_below-Low onchain bound ((k, s) ∷ states) ps l = elim (Bool-cases (ltb k onchain)) [
  | inl e ↦ rw e (remove_below-Low onchain bound states (remove k ps) (remove-Low bound k ps l))
  | inr e ↦ rw e (remove_below-Low onchain bound states ps l)
]

abbrev pub below : NonceManager → ℕ → NonceManager
below m onchain = record m {
  states = include_below onchain m.states;
  pending_txs = remove_below onchain m.states m.pending_txs;
}

pub below-Filed :
    (m : NonceManager) (onchain n : ℕ) (p : PendingNonce)
    → IsValid m
    → lookup n (below m onchain).pending_txs ≡ some p
    → Filed (below m onchain) n p × (onchain ≤ n)
below-Filed m onchain n p v h =
    let f = v.filed n p (remove_below-keeps onchain n m.states m.pending_txs p h) in
    let above = remove_below-above onchain n m.states m.pending_txs p _ h f.state in
    (
      record {
        key = f.key;
        at = f.at;
        state = ground (arith, lookup-include_below onchain n m.states, f.state);
      },
      above,
    )

pub below-IsValid : (m : NonceManager) (onchain : ℕ) → IsValid m → IsValid (below m onchain)
below-IsValid m onchain v = record {
  filed = λ n p h. (below-Filed m onchain n p v h).0;
  issued = λ n s h. elim (Option-cases (lookup n m.states)) [
    | inl e ↦ absurd (ground (arith, lookup-include_below onchain n m.states))
    | inr (t, e) ↦ v.issued n t e
  ];
  low = remove_below-Low onchain m.next_nonce m.states m.pending_txs v.low;
}

abbrev pub Targets : ℕ → List (ℕ × NonceState) → Type 0
Targets bound us = All (λ u. u.0 < bound) us

pub apply_updates-IsValid :
    (us : List (ℕ × NonceState)) (m : NonceManager)
    → IsValid m
    → Targets m.next_nonce us
    → IsValid (apply_updates us m)
unfolding apply_updates
apply_updates-IsValid [] m v t = v
apply_updates-IsValid ((n, s) ∷ us) m v t =
    apply_updates-IsValid us (settled m n s v t.0) (settled-IsValid m n s v t.0) t.1

pub apply_updates-next :
    (us : List (ℕ × NonceState)) (m : NonceManager) → (apply_updates us m).next_nonce ≡ m.next_nonce
unfolding apply_updates
apply_updates-next [] m = refl
apply_updates-next ((n, s) ∷ us) m = apply_updates-next us _

-- What is pending after the updates was pending before, and no update is about it.
pub apply_updates-pending :
    (us : List (ℕ × NonceState)) (m : NonceManager) (n : ℕ) (p : PendingNonce)
    → lookup n (apply_updates us m).pending_txs ≡ some p
    → (lookup n m.pending_txs ≡ some p) × All (λ u. u.0 ≢ n) us
unfolding apply_updates
apply_updates-pending [] m n p h = (h, tt)
apply_updates-pending ((k, s) ∷ us) m n p h =
    let ih =
      apply_updates-pending us
        (record m { states = insert k s m.states; pending_txs = remove k m.pending_txs }) n p h in
    (
      ground (arith, ih.0, lookup-remove k n m.pending_txs),
      (λ e. ground (arith, ih.0, lookup-remove k n m.pending_txs), ih.1),
    )

pub receipt_updates-Targets :
    (answer : ℕ → ReceiptAnswer) (bound : ℕ) (ps : List PendingNonce)
    → All (λ p. p.nonce < bound) ps
    → Targets bound (receipt_updates answer ps)
unfolding receipt_updates
receipt_updates-Targets answer bound [] l = tt
receipt_updates-Targets answer bound (p ∷ ps) l =
    ground (arith, receipt_updates-Targets answer bound ps l.1)

pub All-keep :
    (bound : ℕ) (f : PendingNonce → Bool) (ps : List PendingNonce)
    → All (λ p. p.nonce < bound) ps
    → All (λ p. p.nonce < bound) (keep f ps)
unfolding keep
All-keep bound f [] l = tt
All-keep bound f (p ∷ ps) l = ground (arith, All-keep bound f ps l.1)
