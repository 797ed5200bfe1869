-- ===== src/Gas/Sources.antt =====
-- src/risk/gas_tracker.rs: where the fees of a quote come from, and when there are none.
use dex_arbitrage.Prelude.{
  ℕ, ◌-◌, ◌≤◌, ◌<◌, ◌≡◌, refl, sym, subst, arith, leb, true, false, List, Option, none, some,
  if◌then◌else◌, Bool-cases, Option-cases, inl, inr,
}
use dex_arbitrage.Gas.{
  GasQuote, CachedGasQuote, GasTracker, Environment, Clock, Node, retry, fetch_gas_quote,
  fetch_gas_quote_with_retry, estimate_l1_data_fee, Fees, known, unknown, fees_of, quote_from,
  quote,
}
use dex_arbitrage.Gas.Retry.{First, Never, retry-First, retry-Never}

-- A cached quote is older than the time it may be used without a refresh, or there is none.
abbrev pub Expired : Option CachedGasQuote → (now limit : ℕ) → Type 0
Expired none now limit = Unit
Expired (some cached) now limit = limit < now - cached.fetched_at

-- What the fees may be: of a recent cached quote; of the first attempt that the node answers; of an
-- older cached quote, where it answers none; or none.
pub data Source (t : GasTracker) (node : Node) (env : Environment) (clock : Clock)
    : Fees → Type 0 where
  recent :
      (cached : CachedGasQuote)
      → t.cache ≡ some cached
      → clock.start - cached.fetched_at ≤ env.ttl
      → Source t node env clock (known cached.base cached.priority false)
  fetched :
      (fees : ℕ × ℕ)
      → Expired t.cache clock.start env.ttl
      → First (fetch_gas_quote node) 1 env.attempts fees
      → Source t node env clock (known fees.0 fees.1 true)
  stale :
      (cached : CachedGasQuote)
      → t.cache ≡ some cached
      → Expired t.cache clock.start env.ttl
      → clock.refused_at - cached.fetched_at ≤ env.stale_ttl
      → Never (fetch_gas_quote node) 1 env.attempts
      → Source t node env clock (known cached.base cached.priority false)
  lost :
      Expired t.cache clock.start env.ttl
      → Expired t.cache clock.refused_at env.stale_ttl
      → Never (fetch_gas_quote node) 1 env.attempts
      → Source t node env clock unknown

module _ (t : GasTracker) (node : Node) (env : Environment) (clock : Clock) where
  -- The source of fees that the code is known to compute.
  given_by :
      (fees : Fees)
      → fees_of t node env clock ≡ fees
      → Source t node env clock fees
      → Source t node env clock (fees_of t node env clock)
  given_by fees e source = subst (Source t node env clock) (sym e) source

  older :
      (cached : CachedGasQuote) (now limit : ℕ)
      → t.cache ≡ some cached
      → leb (now - cached.fetched_at) limit ≡ false
      → Expired t.cache now limit
  older cached now limit h k =
      let late : limit < now - cached.fetched_at = ground arith in
      subst (λ c. Expired c now limit) (sym h) late

  empty : (now limit : ℕ) → t.cache ≡ none → Expired t.cache now limit
  empty now limit h = subst (λ c. Expired c now limit) (sym h) tt

  fees_of-Source : Source t node env clock (fees_of t node env clock)
  unfolding fees_of fetch_gas_quote_with_retry
  fees_of-Source = elim (Option-cases t.cache) [
    | inl e ↦ elim (Option-cases (retry (fetch_gas_quote node) 1 env.attempts)) [
      | inl r ↦ given_by unknown (rw (fees_of, e, fetch_gas_quote_with_retry, r) refl) (
          lost (empty clock.start env.ttl e) (empty clock.refused_at env.stale_ttl e)
            (retry-Never (fetch_gas_quote node) 1 env.attempts r))
      | inr (fees, r) ↦
          given_by (known fees.0 fees.1 true) (rw (fees_of, e, fetch_gas_quote_with_retry, r) refl)
            (fetched fees (empty clock.start env.ttl e)
              (retry-First (fetch_gas_quote node) 1 env.attempts fees r))
    ]
    | inr (cached, e) ↦ elim (Bool-cases (leb (clock.start - cached.fetched_at) env.ttl)) [
      | inl k ↦
          given_by (known cached.base cached.priority false) (rw (fees_of, e, k) refl)
            (recent cached e (ground arith))
      | inr k ↦ elim (Option-cases (retry (fetch_gas_quote node) 1 env.attempts)) [
        | inr (fees, r) ↦
            given_by (known fees.0 fees.1 true)
              (rw (fees_of, e, k, fetch_gas_quote_with_retry, r) refl)
              (fetched fees (older cached clock.start env.ttl e k)
                (retry-First (fetch_gas_quote node) 1 env.attempts fees r))
        | inl r ↦ elim (Bool-cases (leb (clock.refused_at - cached.fetched_at) env.stale_ttl)) [
          | inl m ↦
              given_by (known cached.base cached.priority false)
                (rw (fees_of, e, k, fetch_gas_quote_with_retry, r, m) refl)
                (stale cached e (older cached clock.start env.ttl e k) (ground arith)
                  (retry-Never (fetch_gas_quote node) 1 env.attempts r))
          | inr m ↦ given_by unknown (rw (fees_of, e, k, fetch_gas_quote_with_retry, r, m) refl) (
              lost (older cached clock.start env.ttl e k)
                (older cached clock.refused_at env.stale_ttl e m)
                (retry-Never (fetch_gas_quote node) 1 env.attempts r))
        ]
      ]
    ]
  ]

-- The fee for the data on the first layer: nothing but on Base, where the first answered attempt is
-- decoded.
pub data DataFee (t : GasTracker) (node : Node) (env : Environment) : Option ℕ → Type 0 where
  free : t.is_base ≡ false → DataFee t node env (some 0)
  charged :
      (raw : List ℕ) (fee : ℕ)
      → t.is_base ≡ true
      → First node.l1_fee_call 1 env.attempts raw
      → node.abi_decode_returns raw ≡ some fee
      → DataFee t node env (some fee)
  undecodable :
      (raw : List ℕ)
      → t.is_base ≡ true
      → First node.l1_fee_call 1 env.attempts raw
      → node.abi_decode_returns raw ≡ none
      → DataFee t node env none
  unanswered : t.is_base ≡ true → Never node.l1_fee_call 1 env.attempts → DataFee t node env none

module _ (t : GasTracker) (node : Node) (env : Environment) where
  decoded :
      (raw : List ℕ)
      → t.is_base ≡ true
      → First node.l1_fee_call 1 env.attempts raw
      → DataFee t node env (node.abi_decode_returns raw)
  decoded raw e first = elim (Option-cases (node.abi_decode_returns raw)) [
    | inl d ↦ subst (DataFee t node env) (sym d) (undecodable raw e first d)
    | inr (fee, d) ↦ subst (DataFee t node env) (sym d) (charged raw fee e first d)
  ]

  estimate_l1_data_fee-DataFee : DataFee t node env (estimate_l1_data_fee t node env)
  unfolding estimate_l1_data_fee
  estimate_l1_data_fee-DataFee = elim (Bool-cases t.is_base) [
    | inr e ↦
        let k : estimate_l1_data_fee t node env ≡ some 0 = rw (estimate_l1_data_fee, e) refl in
        subst (DataFee t node env) (sym k) (free e)
    | inl e ↦ elim (Option-cases (retry node.l1_fee_call 1 env.attempts)) [
      | inl r ↦
          let k : estimate_l1_data_fee t node env ≡ none = rw (estimate_l1_data_fee, e, r) refl in
          subst (DataFee t node env) (sym k)
            (unanswered e (retry-Never node.l1_fee_call 1 env.attempts r))
      | inr (raw, r) ↦
          let k : estimate_l1_data_fee t node env ≡ node.abi_decode_returns raw =
            rw (estimate_l1_data_fee, e, r) refl in
          subst (DataFee t node env) (sym k)
            (decoded raw e (retry-First node.l1_fee_call 1 env.attempts raw r))
    ]
  ]

-- The cache after the fees are known.
abbrev pub cache_after : GasTracker → Clock → Fees → Option CachedGasQuote
cache_after t clock unknown = t.cache
cache_after t clock (known base priority false) = t.cache
cache_after t clock (known base priority true) =
    some (record { fetched_at = clock.refreshed_at; base = base; priority = priority })

-- The answer that the two sources decide.
abbrev pub answer_from : GasTracker → (gas_limit : ℕ) → Fees → Option ℕ → Option GasQuote
answer_from t gas_limit unknown fee = none
answer_from t gas_limit (known base priority fresh) none = none
answer_from t gas_limit (known base priority fresh) (some fee) =
    some (quote_from t base priority gas_limit fee)

-- What a quote refines: some fees and some data fee with their sources, which decide the answer and
-- the cache.
pub record Answered (t : GasTracker) (node : Node) (env : Environment) (clock : Clock)
    (gas_limit : ℕ) (result : Option GasQuote × GasTracker) : Type 0 where
  pub fees : Fees
  pub data_fee : Option ℕ
  pub source : Source t node env clock fees
  pub data_source : DataFee t node env data_fee
  pub answer : result.0 ≡ answer_from t gas_limit fees data_fee
  pub cached : result.1 ≡ record t { cache = cache_after t clock fees }

-- The fees of a quote are those of the cached quote while it is recent, else those of the first of
-- the allowed attempts that the node answers, which are cached with their time, even if the quote
-- fails afterwards; if it answers none, they are those of the cached quote while it may be used
-- stale, and otherwise the quote fails and the tracker is as before. On Base the quote also fails
-- where no attempt for the data fee is answered, or the first answer to one cannot be decoded, after
-- which no further attempt is made; elsewhere that fee is 0.
pub quote-Answered :
    (t : GasTracker) (node : Node) (env : Environment) (clock : Clock) (gas_limit : ℕ)
    → Answered t node env clock gas_limit (quote t node env clock gas_limit)
unfolding quote
quote-Answered t node env clock gas_limit = record {
  fees = fees_of t node env clock;
  data_fee = estimate_l1_data_fee t node env;
  source = fees_of-Source t node env clock;
  data_source = estimate_l1_data_fee-DataFee t node env;
  answer = (both (fees_of t node env clock) (estimate_l1_data_fee t node env)).0;
  cached = (both (fees_of t node env clock) (estimate_l1_data_fee t node env)).1;
}
  where
    both :
        (fees : Fees) (fee : Option ℕ)
        → let result : Option GasQuote × GasTracker = elim fees [
          | unknown ↦ (none, t)
          | known base priority fresh ↦
              let kept : GasTracker =
                if fresh
                then record t {
                  cache = some (record {
                    fetched_at = clock.refreshed_at;
                    base = base;
                    priority = priority;
                  });
                }
                else t in
              elim fee [
                | none ↦ (none, kept)
                | some x ↦ (some (quote_from t base priority gas_limit x), kept)
              ]
        ] in
          (result.0 ≡ answer_from t gas_limit fees fee)
          × (result.1 ≡ record t { cache = cache_after t clock fees })
    both unknown fee = (refl, refl)
    both (known base priority true) none = (refl, refl)
    both (known base priority true) (some x) = (refl, refl)
    both (known base priority false) none = (refl, refl)
    both (known base priority false) (some x) = (refl, refl)
