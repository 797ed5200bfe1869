-- ===== src/Nonce/History.antt =====
-- src/execution/nonce_manager.rs: series of method calls, each run to its end before the next.
use dex_arbitrage.Prelude.{ℕ, ◌+◌, ◌^◌, ◌≤◌, ◌<◌, List, [], ◌∷◌, arith, All, length}
use dex_arbitrage.Nonce.{
  included, dropped, NonceManager, ReceiptAnswer, sync, reserve, mark_submitted, mark_included,
  mark_dropped, reconcile,
}
use dex_arbitrage.Nonce.Invariant.{
  IsValid, sync-IsValid, reserve-IsValid, mark_submitted-IsValid, settled-IsValid,
}
use dex_arbitrage.Nonce.Settled.{reconcile-IsValid, reconcile-next}

pub data Call : Type 0 where
  syncs : (onchain : ℕ) → Call
  reserves : Call
  submits : (nonce tx_hash max_priority_fee max_fee state_at pending_at : ℕ) → Call
  includes : (nonce : ℕ) → Call
  drops : (nonce : ℕ) → Call
  reconciles : (onchain : ℕ) (answer : ℕ → ReceiptAnswer) → Call

-- The manager after a call.
unfoldable pub call : NonceManager → Call → NonceManager
call m (syncs onchain) = sync m onchain
call m reserves = (reserve m).0
call m (submits nonce tx_hash priority fee at1 at2) =
    mark_submitted m nonce tx_hash priority fee at1 at2
call m (includes nonce) = mark_included m nonce
call m (drops nonce) = mark_dropped m nonce
call m (reconciles onchain answer) = reconcile m onchain answer

-- What the program and the node keep to: a mark is of a nonce that was issued, and the counter does
-- not wrap.
abbrev pub Permits : NonceManager → Call → Type 0
Permits m reserves = m.next_nonce + 1 < 2 ^ 64
Permits m (submits nonce tx_hash priority fee at1 at2) = nonce < m.next_nonce
Permits m (includes nonce) = nonce < m.next_nonce
Permits m (drops nonce) = nonce < m.next_nonce
Permits m _ = Unit

-- Every method keeps the manager valid, where a mark is of a nonce below the counter and a
-- reservation does not wrap the counter.
pub call-IsValid : (m : NonceManager) (c : Call) → IsValid m → Permits m c → IsValid (call m c)
unfolding call mark_included mark_dropped
call-IsValid m (syncs onchain) v h = sync-IsValid m onchain v
call-IsValid m reserves v h = reserve-IsValid m v h
call-IsValid m (submits nonce tx_hash priority fee at1 at2) v h =
    mark_submitted-IsValid m nonce tx_hash priority fee at1 at2 v h
call-IsValid m (includes nonce) v h = settled-IsValid m nonce included v h
call-IsValid m (drops nonce) v h = settled-IsValid m nonce dropped v h
call-IsValid m (reconciles onchain answer) v h = reconcile-IsValid m onchain answer v

-- The nonces that `reserve` hands out, in order.
unfoldable pub issued_nonces : NonceManager → List Call → List ℕ
issued_nonces m [] = []
issued_nonces m (reserves ∷ cs) = (reserve m).1 ∷ issued_nonces (call m reserves) cs
issued_nonces m (c ∷ cs) = issued_nonces (call m c) cs

-- Each number is at least the bound, and more than those before it.
abbrev pub Rising : ℕ → List ℕ → Type 0
Rising bound [] = Unit
Rising bound (n ∷ ns) = (bound ≤ n) × Rising (n + 1) ns

Rising-mono : (a b : ℕ) (ns : List ℕ) → a ≤ b → Rising b ns → Rising a ns
Rising-mono a b [] h r = tt
Rising-mono a b (n ∷ ns) h r = (omega arith, r.1)

-- The counts that the node answers stay within a bound.
abbrev pub Within : ℕ → Call → Type 0
Within top (syncs onchain) = onchain ≤ top
Within top (reconciles onchain answer) = onchain ≤ top
Within top _ = Unit

Within-suc : (top : ℕ) (c : Call) → Within top c → Within (top + 1) c
Within-suc top (syncs onchain) w = omega arith
Within-suc top (reconciles onchain answer) w = omega arith
Within-suc top _ w = tt

Within-mono : (top : ℕ) (cs : List Call) → All (Within top) cs → All (Within (top + 1)) cs
Within-mono top [] w = tt
Within-mono top (c ∷ cs) w = (Within-suc top c w.0, Within-mono top cs w.1)

-- The counter only rises, by one at a reservation, and past the bound by reservations only.
call-next :
    (m : NonceManager) (c : Call) (top : ℕ)
    → Within top c
    → m.next_nonce ≤ top
    → top + 1 < 2 ^ 64
    → (m.next_nonce ≤ (call m c).next_nonce) × ((call m c).next_nonce ≤ top + 1)
unfolding call sync reserve mark_submitted mark_included mark_dropped
call-next m (syncs onchain) top w h small = ground arith
call-next m reserves top w h small = ground arith
call-next m (submits nonce tx_hash priority fee at1 at2) top w h small = ground arith
call-next m (includes nonce) top w h small = ground arith
call-next m (drops nonce) top w h small = ground arith
call-next m (reconciles onchain answer) top w h small =
    omega (arith, reconcile-next m onchain answer)

-- No nonce is handed out twice: the nonces of any series of calls rise, from the counter on, where
-- the counter and the node's answers are at most `top` and `top` plus the number of calls is below
-- 2 ^ 64.
pub issued_nonces-Rising :
    (m : NonceManager) (cs : List Call) (top : ℕ)
    → All (Within top) cs
    → m.next_nonce ≤ top
    → top + length cs < 2 ^ 64
    → Rising m.next_nonce (issued_nonces m cs)
unfolding issued_nonces reserve
issued_nonces-Rising m [] top w h small = tt
issued_nonces-Rising m (reserves ∷ cs) top w h small =
    let n = call-next m reserves top tt h (omega arith) in
    let later =
      issued_nonces-Rising (call m reserves) cs (top + 1) (Within-mono top cs w.1) n.1
        (omega arith) in
    (
      unfold reserve in omega arith,
      Rising-mono (m.next_nonce + 1) (call m reserves).next_nonce _
          (unfold call reserve in omega arith) later,
    )
issued_nonces-Rising m (c ∷ cs) top w h small =
    let n = call-next m c top w.0 h (omega arith) in
    Rising-mono m.next_nonce (call m c).next_nonce _ n.0
      (issued_nonces-Rising (call m c) cs (top + 1) (Within-mono top cs w.1) n.1 (omega arith))
