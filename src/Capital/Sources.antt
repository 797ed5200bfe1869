-- ===== src/Capital/Sources.antt =====
-- src/execution/capital_selector.rs: the loan, the source and the profit of a choice for a known
-- balance.
use dex_arbitrage.Prelude.{
  ℕ, ◌+◌, ◌-◌, ◌/◌, ◌≤◌, ◌<◌, ◌≡◌, true, false, Bool, none, some, ◌==◌, arith, saturating_mul,
  u128_max, min, inl, inr, Option-cases, Bool-cases, subst, sym,
}
use dex_arbitrage.Prelude.Int.{ℤ, pos, negsuc, ◌≤ℤ◌}
use dex_arbitrage.Types.{TokenInfo, ExactPlan, CapitalSource, CapitalChoice}
use dex_arbitrage.Valuation.{amount_to_usd_e8, calculate_net_profit_before_gas_raw}
use dex_arbitrage.Capital.{
  not_positive, loan_source, capital_source_of, choice_from_balance_and_fees, choose_with,
}

-- The cap of a loan in the token.
abbrev pub flash_cap : TokenInfo → ℕ → ℕ
flash_cap token global = elim token.max_flash_loan_usd_e8 [ none ↦ global | some own ↦ own ]

-- A loan that the token and the pool allow and whose value is within the cap.
pub record Lendable (token : TokenInfo) (pool : Bool) (global loan : ℕ) : Type 0 where
  pub enabled : token.flash_loan_enabled ≡ true
  pub configured : pool ≡ true
  pub usd : ℕ
  pub valued : amount_to_usd_e8 loan token ≡ some usd
  pub capped : usd ≤ flash_cap token global

-- Each source is taken in the one case that it names.
abbrev pub Suits : ExactPlan → TokenInfo → Bool → (global loan : ℕ) → CapitalSource → Type 0
Suits plan token pool global loan CapitalSource.self_funded =
    (loan ≡ 0) × (token.allow_self_funded ≡ true)
Suits plan token pool global loan CapitalSource.flash_loan =
    (0 < loan) × (loan ≡ plan.input_amount) × Lendable token pool global loan
Suits plan token pool global loan CapitalSource.mixed_flash_loan =
    (0 < loan) × (loan < plan.input_amount) × Lendable token pool global loan

module _ (plan : ExactPlan) (token : TokenInfo) (pool : Bool) (global loan : ℕ) where
  loan-Lendable :
      (s : CapitalSource)
      → loan_source plan token pool global loan ≡ some s
      → Lendable token pool global loan
  unfolding loan_source
  loan-Lendable s h = elim (Option-cases (amount_to_usd_e8 loan token)) [
    | inl e ↦ absurd (ground arith)
    | inr (usd, e) ↦ record {
      enabled = ground arith;
      configured = ground arith;
      usd = usd;
      valued = e;
      capped = ground arith;
    }
  ]

  loan-Suits :
      (s : CapitalSource)
      → 0 < loan
      → loan ≤ plan.input_amount
      → loan_source plan token pool global loan ≡ some s
      → Suits plan token pool global loan s
  unfolding loan_source
  loan-Suits CapitalSource.self_funded some_loan fits h = absurd (ground arith)
  loan-Suits CapitalSource.flash_loan some_loan fits h =
      (some_loan, ground arith, loan-Lendable CapitalSource.flash_loan h)
  loan-Suits CapitalSource.mixed_flash_loan some_loan fits h =
      (some_loan, ground arith, loan-Lendable CapitalSource.mixed_flash_loan h)

  source-Suits :
      (s : CapitalSource)
      → loan ≤ plan.input_amount
      → capital_source_of plan token pool global loan ≡ some s
      → Suits plan token pool global loan s
  unfolding capital_source_of
  source-Suits CapitalSource.self_funded fits h = elim (Bool-cases (loan == 0)) [
    | inl e ↦ (ground arith, ground arith)
    | inr e ↦ absurd (
        (omega (
          arith,
          (loan-Suits CapitalSource.self_funded (ground arith) fits (ground arith)).0,
          let p : 0 < loan = ground arith in p,
        )))
  ]
  source-Suits CapitalSource.flash_loan fits h = elim (Bool-cases (loan == 0)) [
    | inl e ↦ absurd (ground arith)
    | inr e ↦ loan-Suits CapitalSource.flash_loan (ground arith) fits (ground arith)
  ]
  source-Suits CapitalSource.mixed_flash_loan fits h = elim (Bool-cases (loan == 0)) [
    | inl e ↦ absurd (ground arith)
    | inr e ↦ loan-Suits CapitalSource.mixed_flash_loan (ground arith) fits (ground arith)
  ]

-- What a choice of a loan for a plan says.
pub record Chosen (plan : ExactPlan) (token : TokenInfo) (pool : Bool) (global loan fee : ℕ)
    (c : CapitalChoice) : Type 0 where
  pub borrowed : c.loan_amount_raw ≡ loan
  pub fits : loan ≤ plan.input_amount
  pub charged : c.actual_flash_fee_raw ≡ fee
  pub net :
      c.net_profit_before_gas_raw
      ≡ calculate_net_profit_before_gas_raw plan.input_amount plan.output_amount fee
  pub profitable : pos 1 ≤ℤ c.net_profit_before_gas_raw
  pub suits : Suits plan token pool global loan c.source

pub positive : (z : ℤ) → not_positive z ≡ false → pos 1 ≤ℤ z
positive (pos n) h = ground arith
positive (negsuc n) h = absurd (ground arith)

choice-Chosen :
    (plan : ExactPlan) (token : TokenInfo) (pool : Bool) (global loan fee : ℕ) (c : CapitalChoice)
    → choice_from_balance_and_fees plan token pool global loan fee ≡ some c
    → Chosen plan token pool global loan fee c
unfolding choice_from_balance_and_fees
choice-Chosen plan token pool global loan fee c h =
    let net = calculate_net_profit_before_gas_raw plan.input_amount plan.output_amount fee in
    elim (Option-cases (capital_source_of plan token pool global loan)) [
      | inl e ↦ absurd (ground arith)
      | inr (s, e) ↦
          let fits : loan ≤ plan.input_amount = ground arith in
          let same : c.source ≡ s = ground arith in
          let net_is : c.net_profit_before_gas_raw ≡ net = ground arith in
          let gain : not_positive net ≡ false = ground arith in
          record {
            borrowed = ground arith;
            fits = fits;
            charged = ground arith;
            net = net_is;
            profitable = rw net_is (positive net gain);
            suits =
                subst (Suits plan token pool global loan) (sym same)
                  (source-Suits plan token pool global loan s fits e);
          }
    ]

-- A choice of `choose_with` borrows what the balance does not cover.
pub choose_with-Chosen :
    (plan : ExactPlan) (token : TokenInfo) (pool : Bool) (global balance : ℕ) (c : CapitalChoice)
    → choose_with plan token pool global balance ≡ some c
    → (c.loan_amount_raw + min balance plan.input_amount ≡ plan.input_amount)
      × Chosen plan token pool global
          (plan.input_amount - balance)
          (saturating_mul u128_max (plan.input_amount - balance) plan.flash_premium_ppm / 1_000_000)
          c
unfolding choose_with
choose_with-Chosen plan token pool global balance c h =
    let e : plan.input_amount - min balance plan.input_amount ≡ plan.input_amount - balance =
      omega arith in
    let v =
      choice-Chosen plan token pool global (plan.input_amount - balance)
        (saturating_mul u128_max (plan.input_amount - balance) plan.flash_premium_ppm / 1_000_000) c
        (rw e at h) in
    (omega (arith, v.borrowed), v)
