-- ===== src/Router/V2Capacity.antt =====
-- src/router/v2_split.rs: the guesses for legs with capacities.
use native.Mathlib.Nat.{mul-le-mul_left, mul-suc}
use dex_arbitrage.Prelude.{
  ℕ, suc, ◌+◌, ◌*◌, ◌≤◌, ◌≡◌, subst, arith, some, List, [], ◌∷◌, map, length, u128_max,
  Option-cases, inl, inr,
}
use dex_arbitrage.Types.{EdgeRef}
use dex_arbitrage.Graph.{GraphSnapshot}
use dex_arbitrage.Router.Float.{F64}
use dex_arbitrage.Router.V2Legs.{V2AllocationLeg, leg_at, legs_of}
use dex_arbitrage.Router.V2Split.{guess, guesses, bisect, highest_marginal}
use dex_arbitrage.Router.V2Totals.{GuessesFit}
use dex_arbitrage.Router.Sums.{sum}

module _ {Number : Type 0} (f : F64 Number) where
  -- Every edge that the split may take has a capacity of at most `room`.
  abbrev Capped : GraphSnapshot → (token_in token_out room : ℕ) → Type 0
  Capped g token_in token_out room =
      (r : EdgeRef) (leg : V2AllocationLeg Number)
      → leg_at f g token_in token_out r ≡ some leg
      → (capacity : ℕ) × (leg.capacity ≡ some capacity) × (capacity ≤ room)

  guess-le_capacity :
      (high : Number) (leg : V2AllocationLeg Number) (capacity : ℕ)
      → leg.capacity ≡ some capacity
      → guess f high leg ≤ capacity
  unfolding guess
  guess-le_capacity high leg capacity e = ground arith

  sum-guess-le :
      (g : GraphSnapshot) (token_in token_out room : ℕ) (high : Number) (refs : List EdgeRef)
      (legs : List (V2AllocationLeg Number))
      → Capped g token_in token_out room
      → legs_of f g token_in token_out refs ≡ some legs
      → sum (map (guess f high) legs) ≤ room * length refs
  unfolding legs_of
  sum-guess-le g token_in token_out room high [] legs capped h =
      let same : [] ≡ legs = ground arith in
      subst (λ ls. sum (map (guess f high) ls) ≤ room * 0) same (omega arith)
  sum-guess-le g token_in token_out room high (r ∷ refs) legs capped h =
      elim (Option-cases (leg_at f g token_in token_out r)) [
        | inl e ↦ absurd (ground arith)
        | inr (leg, e) ↦ elim (Option-cases (legs_of f g token_in token_out refs)) [
          | inl k ↦ absurd (ground arith)
          | inr (rest, k) ↦
              let same : leg ∷ rest ≡ legs = ground arith in
              let (capacity, limited, small) = capped r leg e in
              let one = guess-le_capacity high leg capacity limited in
              let ih = sum-guess-le g token_in token_out room high refs rest capped k in
              let all : guess f high leg + sum (map (guess f high) rest)
                  ≤ room * suc (length refs) =
                omega (arith, one, small, ih, mul-suc room (length refs)) in
              subst (λ ls. sum (map (guess f high) ls) ≤ room * suc (length refs)) same all
        ]
      ]

  -- Where every edge has a capacity and there is room for `pools` of them in a u128, the guesses add up
  -- to a u128 whatever the operations on f64 answer.
  pub capacities-GuessesFit :
      (g : GraphSnapshot) (token_in token_out total_in pools room : ℕ)
      → Capped g token_in token_out room
      → room * pools ≤ u128_max
      → GuessesFit f g token_in token_out total_in pools
  unfolding guesses
  capacities-GuessesFit g token_in token_out total_in pools room capped fits refs legs few h =
      let high = bisect f legs total_in 80 f.zero (highest_marginal f f.zero legs) in
      let less = sum-guess-le g token_in token_out room high refs legs capped h in
      omega (arith, less, fits, mul-le-mul_left room few)
