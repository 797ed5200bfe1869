-- ===== src/Capital/Choice.antt =====
-- src/execution/capital_selector.rs: what a choice of capital guarantees.
use dex_arbitrage.Prelude.{
  ℕ, ◌+◌, ◌-◌, ◌/◌, ◌≤◌, ◌<◌, ◌≡◌, refl, true, false, Bool, Option, none, some, leb, ◌⊎◌, arith,
  saturating_mul, u128_max, min, inl, inr, Option-cases, Bool-cases, subst, sym,
}
use dex_arbitrage.Prelude.Int.{pos, ◌≤ℤ◌}
use dex_arbitrage.Prelude.Map.{Map, lookup, insert}
use dex_arbitrage.Types.{TokenInfo, ExactPlan, CapitalChoice}
use dex_arbitrage.Capital.{
  not_positive, choose_with, CachedBalance, BalanceReads, fetch_balance, executor_balance, choose,
}
use dex_arbitrage.Capital.Sources.{Chosen, positive, choose_with-Chosen}

-- No cached balance may be used: there is none, or it is older than its time to live.
abbrev pub Expired : BalanceReads → Option CachedBalance → Type 0
Expired reads none = Unit
Expired reads (some cached) = reads.ttl < reads.now - cached.fetched_at

-- What the executor is taken to own, and the cache of balances afterwards: nothing is read and nothing
-- counted where the token may not be self-funded; else it is the recent balance of the cache, the
-- answer of the node, which is cached, or 0 where there is no executor or no answer.
pub data Owns (reads : BalanceReads) (cache : Map CachedBalance) (plan : ExactPlan)
    (token : TokenInfo) : Map CachedBalance → ℕ → Type 0 where
  not_allowed : token.allow_self_funded ≡ false → Owns reads cache plan token cache 0
  recent :
      (cached : CachedBalance)
      → token.allow_self_funded ≡ true
      → lookup plan.input_token cache ≡ some cached
      → reads.now - cached.fetched_at ≤ reads.ttl
      → Owns reads cache plan token cache cached.value
  fetched :
      (executor raw : ℕ)
      → token.allow_self_funded ≡ true
      → Expired reads (lookup plan.input_token cache)
      → reads.executor_address ≡ some executor
      → reads.balance_of plan.input_token ≡ some raw
      → Owns reads cache plan token
          (insert plan.input_token
            (record { fetched_at = reads.fetched_at; value = min raw u128_max })
            cache)
          (min raw u128_max)
  unread :
      token.allow_self_funded ≡ true
      → Expired reads (lookup plan.input_token cache)
      → (reads.executor_address ≡ none) ⊎ (reads.balance_of plan.input_token ≡ none)
      → Owns reads cache plan token cache 0

-- An error counts as 0.
abbrev or_zero : Option ℕ → ℕ
or_zero none = 0
or_zero (some value) = value

module _ (reads : BalanceReads) (cache : Map CachedBalance) (plan : ExactPlan)
    (token : TokenInfo) where
  abbrev Pair : Map CachedBalance × Option ℕ → Type 0
  Pair (cache', balance) = Owns reads cache plan token cache' (or_zero balance)

  fetch_balance-Owns :
      token.allow_self_funded ≡ true
      → Expired reads (lookup plan.input_token cache)
      → Pair (fetch_balance reads cache plan.input_token)
  unfolding fetch_balance
  fetch_balance-Owns allowed old = elim (Option-cases reads.executor_address) [
    | inl e ↦
        let k : fetch_balance reads cache plan.input_token ≡ (cache, some 0) =
          rw (fetch_balance, e) refl in
        subst Pair (sym k) (unread allowed old (inl e))
    | inr (executor, e) ↦ elim (Option-cases (reads.balance_of plan.input_token)) [
      | inl b ↦
          let k : fetch_balance reads cache plan.input_token ≡ (cache, none) =
            rw (fetch_balance, e, b) refl in
          subst Pair (sym k) (unread allowed old (inr b))
      | inr (raw, b) ↦
          let value : ℕ = min raw u128_max in
          let entry : CachedBalance = record { fetched_at = reads.fetched_at; value = value } in
          let k : fetch_balance reads cache plan.input_token
              ≡ (insert plan.input_token entry cache, some value) =
            rw (fetch_balance, e, b) refl in
          subst Pair (sym k) (fetched executor raw allowed old e b)
    ]
  ]

  executor_balance-Owns :
      token.allow_self_funded ≡ true → Pair (executor_balance reads cache plan.input_token)
  unfolding executor_balance
  executor_balance-Owns allowed = elim (Option-cases (lookup plan.input_token cache)) [
    | inl e ↦
        let k : executor_balance reads cache plan.input_token
            ≡ fetch_balance reads cache plan.input_token =
          rw (executor_balance, e) refl in
        subst Pair (sym k) (fetch_balance-Owns allowed (subst (Expired reads) (sym e) tt))
    | inr (cached, e) ↦ elim (Bool-cases (leb (reads.now - cached.fetched_at) reads.ttl)) [
      | inl young ↦
          let k : executor_balance reads cache plan.input_token ≡ (cache, some cached.value) =
            rw (executor_balance, e, young) refl in
          subst Pair (sym k) (recent cached allowed e (ground arith))
      | inr aged ↦
          let k : executor_balance reads cache plan.input_token
              ≡ fetch_balance reads cache plan.input_token =
            rw (executor_balance, e, aged) refl in
          let late : reads.ttl < reads.now - cached.fetched_at = ground arith in
          subst Pair (sym k) (fetch_balance-Owns allowed (subst (Expired reads) (sym e) late))
    ]
  ]

-- How a choice of `choose` covers its plan, with what the executor is taken to own.
pub record Covers (reads : BalanceReads) (cache : Map CachedBalance) (plan : ExactPlan)
    (token : TokenInfo) (pool : Bool) (global : ℕ) (cache' : Map CachedBalance) (c : CapitalChoice)
    : Type 0 where
  pub own : ℕ
  pub known : Owns reads cache plan token cache' own
  pub gross : pos 1 ≤ℤ plan.gross_profit_raw
  pub shares : c.loan_amount_raw + min own plan.input_amount ≡ plan.input_amount
  pub chosen :
      Chosen plan token pool global
        (plan.input_amount - own)
        (saturating_mul u128_max (plan.input_amount - own) plan.flash_premium_ppm / 1_000_000)
        c

-- A choice of `choose` is for a plan with a gross profit and covers it: the loan and what the executor
-- pays add up to the input. The executor pays the smaller of the input and its balance, which counts
-- as 0 and is not read where the token may not be self-funded, and else is that of a recent entry of
-- the cache, or the node's answer, which is then cached, or 0 where there is no executor or no answer.
-- The fee is the premium on the loan; the profit after the fee is at least 1; and the source is the
-- executor alone, which the token must allow, a flash loan, or both, exactly as nothing, all or part
-- of the input is borrowed, a loan being enabled, valued and within the cap.
pub choose-Chosen :
    (reads : BalanceReads) (cache cache' : Map CachedBalance) (plan : ExactPlan) (token : TokenInfo)
    (pool : Bool) (global : ℕ) (c : CapitalChoice)
    → choose reads cache plan token pool global ≡ (cache', some c)
    → Covers reads cache plan token pool global cache' c
unfolding choose
choose-Chosen reads cache cache' plan token pool global c h =
    elim (Bool-cases (not_positive plan.gross_profit_raw)) [
      | inl e ↦ absurd (ground arith)
      | inr e ↦ elim (Bool-cases token.allow_self_funded) [
        | inl a ↦
            let balance = executor_balance reads cache plan.input_token in
            let same : balance.0 ≡ cache' = ground arith in
            from (or_zero balance.1) e
              (subst (λ k. Owns reads cache plan token k (or_zero balance.1)) same
                (executor_balance-Owns reads cache plan token a))
              (ground arith)
        | inr a ↦
            let same : cache ≡ cache' = ground arith in
            from 0 e (subst (λ k. Owns reads cache plan token k 0) same (not_allowed a))
              (ground arith)
      ]
    ]
  where
    from :
        (own : ℕ)
        → not_positive plan.gross_profit_raw ≡ false
        → Owns reads cache plan token cache' own
        → choose_with plan token pool global own ≡ some c
        → Covers reads cache plan token pool global cache' c
    from own e known k =
        let (adds, v) = choose_with-Chosen plan token pool global own c k in
        record {
          own = own;
          known = known;
          gross = positive plan.gross_profit_raw e;
          shares = adds;
          chosen = v;
        }
