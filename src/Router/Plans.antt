-- ===== src/Router/Plans.antt =====
-- src/router/split_optimizer.rs: the plans that come of allocations.
use native.Mathlib.Nat.{mul-le-mul_left}
use dex_arbitrage.Prelude.{
  ℕ, zero, suc, ◌+◌, ◌*◌, ◌/◌, ◌≤◌, ◌<◌, ◌≡◌, refl, ap, sym, subst, arith, ◌∙◌, ◌==◌, Bool, true,
  false, Option, some, List, [], ◌∷◌, ◌++◌, if◌then◌else◌, get_elem?, length, length-append, All,
  min, saturating_add, saturating_mul, saturating_mul-le_mul, u128_max, Bool-cases, Option-cases,
  inl, inr,
}
use dex_arbitrage.Prelude.Sorting.{Ordered, Total, sort_by-All, sort_by-Ordered, length-sort_by}
use dex_arbitrage.Types.{EdgeRef, PoolState, SplitPlan}
use dex_arbitrage.Graph.{GraphSnapshot, edge, pool}
use dex_arbitrage.Graph.Rows.{All-snoc}
use dex_arbitrage.Router.Split.{
  SplitOptimizer, Quotes, Outcome, plans, failed, panicked, out_of_fuel, extra_of, is_trader_joe,
}
use dex_arbitrage.Router.Optimize.{
  Made, skipped, made, refused, by_output, known_output, first_of, make_plan, plan_of, materialize,
  materialize_allocations_with_quotes,
}
use dex_arbitrage.Router.Sums.{sum, used, sum_of, sum_of-snoc, sum_of-sort_by}

-- A split that pays something in, expects something out, and asks for no more than that.
pub record Good (token_in token_out : ℕ) (p : SplitPlan) : Type 0 where
  pub from : p.token_in ≡ token_in
  pub to : p.token_out ≡ token_out
  pub pays : 0 < p.amount_in
  pub expects : 0 < p.expected_amount_out
  pub asks : p.min_amount_out ≤ p.expected_amount_out

-- Splits of at most an input over a bounded number of pools, the best first.
pub record Covers (token_in token_out total_in pools : ℕ) (ps : List SplitPlan) (total_out : ℕ)
    : Type 0 where
  pub amounts : sum_of (λ p. p.amount_in) ps ≤ total_in
  pub count : length ps ≤ pools
  pub good : All (Good token_in token_out) ps
  pub sorted : Ordered by_output ps
  pub output : total_out ≡ min (sum_of (λ p. p.expected_amount_out) ps) u128_max

abbrev pub Splits : (token_in token_out total_in pools : ℕ) → Outcome → Type 0
Splits token_in token_out total_in pools (plans ps total_out) =
    Covers token_in token_out total_in pools ps total_out
Splits token_in token_out total_in pools failed = Unit
Splits token_in token_out total_in pools panicked = ⊥
Splits token_in token_out total_in pools out_of_fuel = ⊥

by_output-Total : Total by_output
by_output-Total = record { flip = λ x y h. ground arith; trans = λ x y z h k. ground arith }

share_le :
    (expected bps : ℕ) → bps ≤ 10_000 → saturating_mul u128_max expected bps / 10_000 ≤ expected
share_le expected bps h =
    let whole : expected * bps ≤ expected * 10_000 = mul-le-mul_left expected h in
    omega (arith, saturating_mul-le_mul u128_max expected bps)

module _ (o : SplitOptimizer) (q : Quotes) (g : GraphSnapshot) (token_in token_out : ℕ)
    (bps : o.split_min_output_bps ≤ 10_000) where
  -- What is known of the plan for an allocation.
  abbrev OnMade : (allocation : ℕ) → Made → Type 0
  OnMade allocation skipped = Unit
  OnMade allocation (made p) = Good token_in token_out p × (p.amount_in ≡ allocation)
  OnMade allocation refused = Unit

  make_plan-OnMade :
      (p : PoolState) (allocation expected : ℕ)
      → 0 < allocation
      → OnMade allocation (make_plan o q g token_in token_out p allocation expected)
  unfolding make_plan
  make_plan-OnMade p allocation expected h = elim (Bool-cases (expected == 0)) [
    | inl e ↦ rw (make_plan, e) tt
    | inr e ↦ elim (Option-cases (extra_of q.limit_bps p token_in token_out)) [
      | inl k ↦ rw (make_plan, e, k) tt
      | inr (extra, k) ↦
          rw (make_plan, e, k)
            (
              record {
                from = refl;
                to = refl;
                pays = h;
                expects = ground arith;
                asks = asks (is_trader_joe p.state);
              },
              refl,
            )
    ]
  ]
    where
      asks :
          (b : Bool)
          → (if b then 0 else saturating_mul u128_max expected o.split_min_output_bps / 10_000)
            ≤ expected
      asks true = omega arith
      asks false = share_le expected o.split_min_output_bps bps

  plan_of-OnMade :
      (r : EdgeRef) (allocation : ℕ) (known : Option ℕ)
      → 0 < allocation
      → OnMade allocation (plan_of o q g token_in token_out r allocation known)
  unfolding plan_of
  plan_of-OnMade r allocation known h = elim (Option-cases (edge g r)) [
    | inl e ↦ rw (plan_of, e) tt
    | inr (x, e) ↦ elim (Option-cases (pool g x.pool_id)) [
      | inl k ↦ rw (plan_of, e, k) tt
      | inr (p, k) ↦
          elim (Option-cases (first_of known (q.quote_pool p token_in token_out allocation))) [
            | inl l ↦ rw (plan_of, e, k, l) tt
            | inr (expected, l) ↦ rw (plan_of, e, k, l) (make_plan-OnMade p allocation expected h)
          ]
    ]
  ]

  -- The plans so far, with allocations still to come.
  pub record Partly (total_in pools left more : ℕ) (ps : List SplitPlan) (total_out : ℕ)
      : Type 0 where
    pub amounts : sum_of (λ p. p.amount_in) ps + left ≤ total_in
    pub count : length ps + more ≤ pools
    pub good : All (Good token_in token_out) ps
    pub output : total_out ≡ min (sum_of (λ p. p.expected_amount_out) ps) u128_max

  add_plan :
      (total_in pools left more allocation : ℕ) (ps : List SplitPlan) (total_out : ℕ)
      (p : SplitPlan)
      → Partly total_in pools (allocation + left) (1 + more) ps total_out
      → Good token_in token_out p
      → p.amount_in ≡ allocation
      → Partly total_in pools left more
          (ps ++ p ∷ [])
          (saturating_add u128_max total_out p.expected_amount_out)
  unfolding saturating_add
  add_plan total_in pools left more allocation ps total_out p h good same = record {
    amounts = omega (arith, h.amounts, sum_of-snoc (λ (p : SplitPlan). p.amount_in) ps p);
    count = omega (arith, h.count, length-append ps (p ∷ []));
    good = All-snoc (Good token_in token_out) ps p h.good good;
    output = ground (arith, h.output, sum_of-snoc (λ (p : SplitPlan). p.expected_amount_out) ps p);
  }

  module _ (refs : List EdgeRef) (outputs : Option (List ℕ)) (total_in pools : ℕ) where
    abbrev Spl : Outcome → Type 0
    Spl = Splits token_in token_out total_in pools

    found_at :
        (xs : List EdgeRef) (i : ℕ) → i < length xs → (r : EdgeRef) × (get_elem? xs i ≡ some r)
    found_at [] i h = absurd (omega arith)
    found_at (x ∷ xs) zero h = (x, refl)
    found_at (x ∷ xs) (suc i) h = found_at xs i (omega arith)

    pub materialize-Splits :
        (idx : ℕ) (allocations : List ℕ) (ps : List SplitPlan) (total_out : ℕ)
        → idx + length allocations ≤ length refs
        → Partly total_in pools (sum allocations) (used allocations) ps total_out
        → Spl (materialize o q g token_in token_out refs outputs idx allocations ps total_out)
    unfolding materialize
    materialize-Splits idx [] ps total_out h i = record {
      amounts =
          omega (arith, sum_of-sort_by (λ (p : SplitPlan). p.amount_in) by_output ps, i.amounts);
      count = omega (arith, length-sort_by by_output ps, i.count);
      good = sort_by-All (Good token_in token_out) by_output ps i.good;
      sorted = sort_by-Ordered by_output by_output-Total ps;
      output =
          i.output
          ∙ ap (λ n. min n u128_max)
              (sym (sum_of-sort_by (λ (p : SplitPlan). p.expected_amount_out) by_output ps));
    }
    materialize-Splits idx (allocation ∷ rest) ps total_out h i =
        elim (Bool-cases (allocation == 0)) [
          | inl e ↦
              let zero_now : allocation ≡ 0 = ground arith in
              rw (materialize, e)
                (materialize-Splits (suc idx) rest ps total_out (omega arith) (record {
                  amounts = omega (arith, i.amounts);
                  count = ground (arith, i.count);
                  good = i.good;
                  output = i.output;
                }))
          | inr e ↦
              let (r, f) = found_at refs idx (omega arith) in
              let positive : 0 < allocation = ground arith in
              let counted : used (allocation ∷ rest) ≡ 1 + used rest = ground arith in
              let here : Partly total_in pools (allocation + sum rest) (1 + used rest) ps
                  total_out =
                subst (λ n. Partly total_in pools (allocation + sum rest) n ps total_out) counted
                  i in
              next (λ ps' total' i'. materialize-Splits (suc idx) rest ps' total' (omega arith) i')
                r e f here
                (plan_of o q g token_in token_out r allocation (known_output outputs idx)) refl
                (plan_of-OnMade r allocation (known_output outputs idx) positive)
        ]
      where
        next :
            ((ps' : List SplitPlan) (total' : ℕ)
              → Partly total_in pools (sum rest) (used rest) ps' total'
              → Spl (materialize o q g token_in token_out refs outputs (suc idx) rest ps' total'))
            → (r : EdgeRef) → (allocation == 0) ≡ false
            → get_elem? refs idx ≡ some r
            → Partly total_in pools (allocation + sum rest) (1 + used rest) ps total_out
            → (m : Made)
            → plan_of o q g token_in token_out r allocation (known_output outputs idx) ≡ m
            → OnMade allocation m
            → Spl (
                materialize o q g token_in token_out refs outputs idx
                  (allocation ∷ rest)
                  ps
                  total_out)
        next go r e f here skipped k n =
            rw (materialize, e, f, k)
              (go ps total_out (record {
                amounts = omega (arith, here.amounts);
                count = omega (arith, here.count);
                good = here.good;
                output = here.output;
              }))
        next go r e f here (made p) k n =
            rw (materialize, e, f, k)
              (go (ps ++ p ∷ []) (saturating_add u128_max total_out p.expected_amount_out) (
                add_plan total_in pools (sum rest) (used rest) allocation ps total_out p here n.0
                  n.1))
        next go r e f here refused k n = rw (materialize, e, f, k) tt

    -- Allocations that add up to at most the input, over at most as many pools.
    pub materialize_allocations-Splits :
        (allocations : List ℕ)
        → length allocations ≤ length refs
        → sum allocations ≤ total_in
        → used allocations ≤ pools
        → Spl
            (materialize_allocations_with_quotes o q g token_in token_out refs allocations outputs)
    unfolding materialize_allocations_with_quotes
    materialize_allocations-Splits allocations size adds few =
        materialize-Splits 0 allocations [] 0 (omega arith)
          (record { amounts = omega arith; count = omega arith; good = tt; output = omega arith })
