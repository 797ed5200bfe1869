-- ===== src/Router/V2Totals.antt =====
-- src/router/v2_split.rs: the number and the sum of the allocations of a solution.
use dex_arbitrage.Prelude.{
  ℕ, suc, ◌≤◌, ◌≡◌, refl, sym, subst, arith, ◌==◌, Bool, true, false, ◌||◌, not, Option, none, some,
  List, [], ◌∷◌, map, if◌then◌else◌, length, u128_max, Bool-cases, Option-cases, inl, inr,
}
use dex_arbitrage.Types.{EdgeRef}
use dex_arbitrage.Graph.{GraphSnapshot}
use dex_arbitrage.Router.Float.{F64}
use dex_arbitrage.Router.V2Legs.{V2AllocationLeg, leg_at, legs_of}
use dex_arbitrage.Router.V2Split.{
  Solved, unsolved, solved, out_of_bounds, sum_u128, any_above_zero, without_excess, with_remaining,
  rebalance_to_total, finite_capacity_sum, over_capacity, guesses, highest_marginal, solve_many,
  solve_allocations, optimal_v2_allocations,
}
use dex_arbitrage.Router.Sums.{sum}
use dex_arbitrage.Router.V2Rebalance.{
  Within, widen, sum_u128-sum, without_excess-Within, with_remaining-Within,
}

-- What a solution has: one amount for each leg, which together are the input. No index was out of
-- bounds.
abbrev pub Shares : (size total_in : ℕ) → Solved → Type 0
Shares size total_in unsolved = Unit
Shares size total_in (solved xs) = (length xs ≡ size) × (sum xs ≡ total_in)
Shares size total_in out_of_bounds = ⊥

module _ {Number : Type 0} (f : F64 Number) where
  rebalance_to_total-Shares :
      (legs : List (V2AllocationLeg Number)) (xs : List ℕ) (total_in : ℕ)
      → length legs ≡ length xs
      → sum xs ≤ u128_max
      → total_in ≤ u128_max
      → Shares (length legs) total_in (rebalance_to_total f legs xs total_in)
  unfolding rebalance_to_total
  rebalance_to_total-Shares legs xs total_in l h k =
      lower (without_excess f legs xs total_in) (without_excess-Within f legs xs total_in)
    where
      raise :
          (r : Option (List ℕ))
          → Within (length legs) u128_max r
          → Shares (length legs) total_in (elim r [
            | none ↦ out_of_bounds
            | some raised ↦ if sum_u128 raised == total_in then solved raised else unsolved
          ])
      raise none w = w
      raise (some raised) w = elim (Bool-cases (sum_u128 raised == total_in)) [
        | inl e ↦
            let all : sum_u128 raised ≡ total_in = ground arith in
            rw e (w.0, omega (arith, sum_u128-sum raised w.1, all))
        | inr e ↦ rw e tt
      ]

      lower :
          (r : Option (List ℕ))
          → Within (length xs) (sum xs) r
          → Shares (length legs) total_in (elim r [
            | none ↦ out_of_bounds
            | some lowered ↦ elim (with_remaining f legs lowered total_in) [
              | none ↦ out_of_bounds
              | some raised ↦ if sum_u128 raised == total_in then solved raised else unsolved
            ]
          ])
      lower none w = w
      lower (some lowered) w =
          let same : length legs ≡ length lowered = omega (arith, l, w.0) in
          raise (with_remaining f legs lowered total_in) (
            widen (with_remaining f legs lowered total_in) (sym same) (omega arith)
              (with_remaining-Within f legs lowered total_in same (omega (arith, w.1, h)) k))

  length-map : {A : Type 0} (g : A → ℕ) (xs : List A) → length (map g xs) ≡ length xs
  length-map g [] = refl
  length-map g (x ∷ xs) = omega (arith, length-map g xs)

  length-guesses :
      (legs : List (V2AllocationLeg Number)) (total_in : ℕ)
      → length (guesses f legs total_in) ≡ length legs
  unfolding guesses
  length-guesses legs total_in = length-map _ legs

  solve_many-Shares :
      (legs : List (V2AllocationLeg Number)) (total_in : ℕ)
      → sum (guesses f legs total_in) ≤ u128_max
      → total_in ≤ u128_max
      → Shares (length legs) total_in (solve_many f legs total_in)
  unfolding solve_many
  solve_many-Shares legs total_in h k =
      let r = rebalance_to_total f legs (guesses f legs total_in) total_in in
      let high = highest_marginal f f.zero legs in
      elim (Bool-cases (over_capacity f (finite_capacity_sum f 0 legs) total_in)) [
        | inl e ↦ rw (solve_many, e) tt
        | inr e ↦ elim (Bool-cases (not (f.is_finite high) || f.less_eq high f.zero)) [
          | inl u ↦ rw (solve_many, e, u) tt
          | inr u ↦
              rw (solve_many, e, u)
                (kept r (
                  rebalance_to_total-Shares legs (guesses f legs total_in) total_in
                    (sym (length-guesses legs total_in)) h k))
        ]
      ]
    where
      kept :
          (r : Solved)
          → Shares (length legs) total_in r
          → Shares (length legs) total_in (elim r [
            | unsolved ↦ unsolved
            | out_of_bounds ↦ out_of_bounds
            | solved xs ↦ if any_above_zero xs then solved xs else unsolved
          ])
      kept unsolved w = w
      kept out_of_bounds w = w
      kept (solved xs) w = elim (Bool-cases (any_above_zero xs)) [
        | inl e ↦ rw e w
        | inr e ↦ rw e tt
      ]

  solve_allocations-Shares :
      (legs : List (V2AllocationLeg Number)) (total_in : ℕ)
      → sum (guesses f legs total_in) ≤ u128_max
      → total_in ≤ u128_max
      → Shares (length legs) total_in (solve_allocations f legs total_in)
  unfolding solve_allocations
  solve_allocations-Shares [] total_in h k = tt
  solve_allocations-Shares (leg ∷ []) total_in h k = alone _
    where
      alone : (over : Bool) → Shares 1 total_in (if over then unsolved else solved (total_in ∷ []))
      alone true = tt
      alone false = (refl, omega arith)
  solve_allocations-Shares (leg ∷ other ∷ legs) total_in h k =
      solve_many-Shares (leg ∷ other ∷ legs) total_in h k

  pub length-legs_of :
      (g : GraphSnapshot) (token_in token_out : ℕ) (refs : List EdgeRef)
      (legs : List (V2AllocationLeg Number))
      → legs_of f g token_in token_out refs ≡ some legs
      → length legs ≡ length refs
  unfolding legs_of
  length-legs_of g token_in token_out [] legs h = ground arith
  length-legs_of g token_in token_out (r ∷ refs) legs h =
      elim (Option-cases (leg_at f g token_in token_out r)) [
        | inl e ↦ absurd (ground arith)
        | inr (leg, e) ↦ elim (Option-cases (legs_of f g token_in token_out refs)) [
          | inl k ↦ absurd (ground arith)
          | inr (rest, k) ↦
              let same : leg ∷ rest ≡ legs = ground arith in
              let ih = length-legs_of g token_in token_out refs rest k in
              subst (λ ls. length ls ≡ suc (length refs)) same (omega (arith, ih))
        ]
      ]

  -- The amounts that the bisection guesses for the legs of at most `pools` pools add up to a u128.
  abbrev pub GuessesFit : GraphSnapshot → (token_in token_out total_in pools : ℕ) → Type 0
  GuessesFit g token_in token_out total_in pools =
      (refs : List EdgeRef) (legs : List (V2AllocationLeg Number))
      → length refs ≤ pools
      → legs_of f g token_in token_out refs ≡ some legs
      → sum (guesses f legs total_in) ≤ u128_max

  pub optimal_v2_allocations-Shares :
      (g : GraphSnapshot) (refs : List EdgeRef) (token_in token_out total_in pools : ℕ)
      → GuessesFit g token_in token_out total_in pools
      → length refs ≤ pools
      → total_in ≤ u128_max
      → Shares (length refs) total_in (optimal_v2_allocations f g refs token_in token_out total_in)
  unfolding optimal_v2_allocations
  optimal_v2_allocations-Shares g [] token_in token_out total_in pools fit few k = tt
  optimal_v2_allocations-Shares g (r ∷ refs) token_in token_out total_in pools fit few k =
      elim (Bool-cases (total_in == 0)) [
        | inl z ↦ rw (optimal_v2_allocations, z) tt
        | inr z ↦ elim (Option-cases (legs_of f g token_in token_out (r ∷ refs))) [
          | inl e ↦ rw (optimal_v2_allocations, z, e) tt
          | inr (legs, e) ↦
              rw (optimal_v2_allocations, z, e)
                (subst (λ n. Shares n total_in (solve_allocations f legs total_in))
                  (length-legs_of g token_in token_out (r ∷ refs) legs e)
                  (solve_allocations-Shares legs total_in (fit (r ∷ refs) legs few e) k))
        ]
      ]
