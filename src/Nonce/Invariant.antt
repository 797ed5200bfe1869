-- ===== src/Nonce/Invariant.antt =====
-- src/execution/nonce_manager.rs: the invariant of the manager, and the methods that keep it.
use dex_arbitrage.Prelude.{
  ℕ, ◌+◌, ◌^◌, ◌≤◌, ◌<◌, ◌≡◌, Bool, none, some, [], ◌∷◌, ◌==◌, ltb, arith, inl, inr, Bool-cases,
  Option-cases, All,
}
use dex_arbitrage.Prelude.Map.{Map, lookup, insert, remove, lookup-insert, lookup-remove}
use dex_arbitrage.Nonce.{
  NonceState, reserved, submitted, PendingNonce, NonceManager, with_replacement, sync, reserve,
  mark_submitted, values,
}

-- A pending transaction is filed under its nonce, whose state is `Submitted` with its hash.
pub record Filed (m : NonceManager) (n : ℕ) (p : PendingNonce) : Type 0 where
  pub key : p.nonce ≡ n
  pub at : ℕ
  pub state : lookup n m.states ≡ some (submitted p.tx_hash at)

-- Every pending transaction is below the bound.
abbrev pub Low : ℕ → Map PendingNonce → Type 0
Low bound ps = All (λ p. p.nonce < bound) (values ps)

pub Low-mono : {a b : ℕ} (ps : Map PendingNonce) → a ≤ b → Low a ps → Low b ps
unfolding values
Low-mono [] h l = tt
Low-mono ((k, p) ∷ ps) h l = (omega arith, Low-mono ps h l.1)

pub remove-Low : (bound k : ℕ) (ps : Map PendingNonce) → Low bound ps → Low bound (remove k ps)
unfolding values remove
remove-Low bound k [] l = tt
remove-Low bound k ((j, p) ∷ ps) l = ground (arith, remove-Low bound k ps l.1)

insert-Low :
    (bound k : ℕ) (p : PendingNonce) (ps : Map PendingNonce)
    → p.nonce < bound
    → Low bound ps
    → Low bound (insert k p ps)
unfolding values insert
insert-Low bound k p [] h l = (h, tt)
insert-Low bound k p ((j, q) ∷ ps) h l = ground (arith, insert-Low bound k p ps h l.1)

pub record IsValid (m : NonceManager) : Type 0 where
  pub filed : (n : ℕ) (p : PendingNonce) → lookup n m.pending_txs ≡ some p → Filed m n p
  pub issued : (n : ℕ) (s : NonceState) → lookup n m.states ≡ some s → n < m.next_nonce
  pub low : Low m.next_nonce m.pending_txs

pub with_replacement-IsValid : (b : Bool) → IsValid (with_replacement b)
unfolding with_replacement lookup values
with_replacement-IsValid b = record {
  filed = λ n p h. absurd (ground arith);
  issued = λ n s h. absurd (ground arith);
  low = tt;
}

-- No state is known of a nonce from the counter on.
pub fresh-state :
    (m : NonceManager) (n : ℕ) → IsValid m → m.next_nonce ≤ n → lookup n m.states ≡ none
fresh-state m n v h = elim (Option-cases (lookup n m.states)) [
  | inl e ↦ e
  | inr (s, e) ↦ absurd (omega (arith, v.issued n s e))
]

-- The counter may be raised.
pub raise-IsValid :
    (m : NonceManager) (k : ℕ)
    → IsValid m
    → m.next_nonce ≤ k
    → IsValid (record m { next_nonce = k })
raise-IsValid m k v h = record {
  filed = λ n p e. let f = v.filed n p e in record { key = f.key; at = f.at; state = f.state };
  issued = λ n s e. omega (arith, v.issued n s e);
  low = Low-mono m.pending_txs h v.low;
}

pub sync-IsValid : (m : NonceManager) (onchain : ℕ) → IsValid m → IsValid (sync m onchain)
unfolding sync
sync-IsValid m onchain v = elim (Bool-cases (ltb m.next_nonce onchain)) [
  | inl h ↦ rw h (raise-IsValid m onchain v (ground arith))
  | inr h ↦ rw h v
]

reserve-Filed :
    (m : NonceManager) (n : ℕ) (p : PendingNonce)
    → IsValid m
    → lookup n m.pending_txs ≡ some p
    → Filed (reserve m).0 n p
unfolding reserve
reserve-Filed m n p v e =
    let f = v.filed n p e in
    record {
      key = f.key;
      at = f.at;
      state = ground (
        arith,
        lookup-insert m.next_nonce n reserved m.states,
        v.issued n (submitted p.tx_hash f.at) f.state,
        f.state,
      );
    }

pub reserve-IsValid :
    (m : NonceManager) → IsValid m → m.next_nonce + 1 < 2 ^ 64 → IsValid (reserve m).0
unfolding reserve
reserve-IsValid m v small = record {
  filed = λ n p e. reserve-Filed m n p v e;
  issued = λ n s e. ground (arith, lookup-insert m.next_nonce n reserved m.states, v.issued n s);
  low = Low-mono m.pending_txs (ground arith) v.low;
}

module _ (m : NonceManager) (nonce : ℕ) (state : NonceState) (v : IsValid m)
    (old : nonce < m.next_nonce) where
  -- `mark_included`, `mark_dropped` and an update of `reconcile`.
  abbrev pub settled : NonceManager
  settled = record m {
    states = insert nonce state m.states;
    pending_txs = remove nonce m.pending_txs;
  }

  settled-Filed :
      (n : ℕ) (p : PendingNonce)
      → lookup n (remove nonce m.pending_txs) ≡ some p
      → Filed settled n p
  settled-Filed n p e =
      let l : lookup n m.pending_txs ≡ some p =
        ground (arith, lookup-remove nonce n m.pending_txs) in
      let f = v.filed n p l in
      record {
        key = f.key;
        at = f.at;
        state = ground (
          arith,
          lookup-remove nonce n m.pending_txs,
          lookup-insert nonce n state m.states,
          f.state,
        );
      }

  pub settled-IsValid : IsValid settled
  settled-IsValid = record {
    filed = settled-Filed;
    issued = λ n s e. ground (arith, lookup-insert nonce n state m.states, v.issued n s);
    low = remove-Low m.next_nonce nonce m.pending_txs v.low;
  }

abbrev pending : (nonce tx_hash priority fee at : ℕ) → PendingNonce
pending nonce tx_hash priority fee at = record {
  nonce = nonce;
  tx_hash = tx_hash;
  submitted_at = at;
  max_priority_fee = priority;
  max_fee = fee;
}

module _ (m : NonceManager) (nonce tx_hash priority fee at1 at2 : ℕ) (v : IsValid m)
    (old : nonce < m.next_nonce) where
  mark_submitted-Filed :
      (n : ℕ) (p : PendingNonce)
      → lookup n (mark_submitted m nonce tx_hash priority fee at1 at2).pending_txs ≡ some p
      → Filed (mark_submitted m nonce tx_hash priority fee at1 at2) n p
  unfolding mark_submitted
  mark_submitted-Filed n p e = elim (Bool-cases (nonce == n)) [
    | inl h ↦ record {
      key =
          ground
            (arith, lookup-insert nonce n (pending nonce tx_hash priority fee at2) m.pending_txs);
      at = at1;
      state = ground (
        arith,
        lookup-insert nonce n (pending nonce tx_hash priority fee at2) m.pending_txs,
        lookup-insert nonce n (submitted tx_hash at1) m.states,
      );
    }
    | inr h ↦
        let l : lookup n m.pending_txs ≡ some p =
          ground
            (arith, lookup-insert nonce n (pending nonce tx_hash priority fee at2) m.pending_txs) in
        let f = v.filed n p l in
        record {
          key = f.key;
          at = f.at;
          state = ground (arith, lookup-insert nonce n (submitted tx_hash at1) m.states, f.state);
        }
  ]

  pub mark_submitted-IsValid : IsValid (mark_submitted m nonce tx_hash priority fee at1 at2)
  mark_submitted-IsValid = record {
    filed = mark_submitted-Filed;
    issued =
        unfold mark_submitted in
        λ n s e.
          ground (arith, lookup-insert nonce n (submitted tx_hash at1) m.states, v.issued n s);
    low =
        unfold mark_submitted in
        insert-Low m.next_nonce nonce (pending nonce tx_hash priority fee at2) m.pending_txs old
          v.low;
  }
