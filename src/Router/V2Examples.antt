-- ===== src/Router/V2Examples.antt =====
-- src/router/v2_split.rs on small pools, with numbers of six decimals in the place of f64.
use Prim.Native.Nat.{compare}
use dex_arbitrage.Prelude.{
  ℕ, zero, suc, ◌+◌, ◌-◌, ◌*◌, ◌/◌, ◌^◌, ◌≤◌, ◌≡◌, refl, arith, ltb, leb, Option-cases, some, none,
  Option, List, [], ◌∷◌, map, min, max, length, inl, inr, saturating_add,
}
use dex_arbitrage.Prelude.Sorting.{sort_by, insert_by}
use dex_arbitrage.Graph.{GraphSnapshot}
use dex_arbitrage.Router.Float.{F64}
use dex_arbitrage.Router.V2Legs.{
  V2AllocationLeg, marginal_at, allocation_at_marginal, capacity_remaining, f64_to_u128_saturating,
}
use dex_arbitrage.Router.V2Split.{
  solved, sum_u128, any_above_zero, remove_excess, marginals, add_remaining, without_excess,
  with_remaining, rebalance_to_total, finite_capacity_sum, highest_marginal, total_at, bisect,
  guess, guesses, solve_many, solve_allocations,
}
use dex_arbitrage.Router.V2Totals.{GuessesFit, length-legs_of}
use dex_arbitrage.Router.Sums.{sum}

-- Newton's iteration for a square root.
abbrev newton : (steps n x : ℕ) → ℕ
newton zero n x = x
newton (suc steps) n x = newton steps n ((x + n / x) / 2)

-- From 2^100 on a number counts as infinite. `powi` is asked for squares only.
abbrev pub fixed : F64 ℕ
fixed = record {
  zero = 0;
  two = 2_000_000;
  ppm = 1_000_000_000_000;
  largest = 2 ^ 99;
  add = λ x y. x + y;
  sub = λ x y. x - y;
  mul = λ x y. x * y / 1_000_000;
  div = λ x y. x * 1_000_000 / y;
  powi = λ x n. x * x / 1_000_000;
  sqrt = λ x. newton 20 (x * 1_000_000) (2 ^ 48);
  round = λ x. (x + 500_000) / 1_000_000 * 1_000_000;
  max_of = λ x y. max x y;
  min_of = λ x y. min x y;
  less_eq = λ x y. leb x y;
  greater = λ x y. ltb y x;
  greater_eq = λ x y. leb y x;
  partial_cmp = λ x y. some (compare x y);
  is_finite = λ x. ltb x (2 ^ 100);
  from_u128 = λ n. n * 1_000_000;
  to_u128 = λ x. x / 1_000_000;
}

f64_to_u128_saturating-le : (v : ℕ) → f64_to_u128_saturating fixed v ≤ 2 ^ 100
unfolding f64_to_u128_saturating
f64_to_u128_saturating-le v = ground arith

guess-le : (high : ℕ) (leg : V2AllocationLeg ℕ) → guess fixed high leg ≤ 2 ^ 100
unfolding guess
guess-le high leg =
    let amount = fixed.round (allocation_at_marginal fixed leg high) in
    elim (Option-cases leg.capacity) [
      | inl e ↦ rw (guess, e) (omega (arith, f64_to_u128_saturating-le amount))
      | inr (c, e) ↦ rw (guess, e) (omega (arith, f64_to_u128_saturating-le amount))
    ]

sum-guess-le :
    (high : ℕ) (legs : List (V2AllocationLeg ℕ))
    → sum (map (guess fixed high) legs) ≤ 2 ^ 100 * length legs
sum-guess-le high [] = omega arith
sum-guess-le high (leg ∷ legs) = omega (arith, guess-le high leg, sum-guess-le high legs)

pub fixed-GuessesFit :
    (g : GraphSnapshot) (token_in token_out total_in : ℕ)
    → GuessesFit fixed g token_in token_out total_in 2
unfolding guesses
fixed-GuessesFit g token_in token_out total_in refs legs few h = omega (
  arith,
  sum-guess-le (bisect fixed legs total_in 80 0 (highest_marginal fixed 0 legs)) legs,
  length-legs_of fixed g token_in token_out refs legs h,
  few,
)

abbrev leg : (reserve_in reserve_out : ℕ) → Option ℕ → V2AllocationLeg ℕ
leg reserve_in reserve_out capacity = record {
  numerator = reserve_out * 1_000_000_000_000;
  denominator_const = reserve_in * 1_000_000_000_000;
  denominator_slope = 1_000_000_000_000;
  capacity = capacity;
}

-- Two legs alike, the first with room for 3 only.
capped :
    solve_allocations fixed (leg 100 200 (some 3) ∷ leg 100 200 none ∷ []) 16 ≡ solved (3 ∷ 13 ∷ [])
unfolding solve_allocations solve_many rebalance_to_total without_excess with_remaining guesses
    guess bisect total_at highest_marginal finite_capacity_sum add_remaining remove_excess marginals
    f64_to_u128_saturating capacity_remaining allocation_at_marginal marginal_at sum_u128
    any_above_zero sort_by insert_by saturating_add
capped = refl

-- Three shares of 17 are rounded to 6, and the excess is taken from the first.
lowered :
    solve_allocations fixed (leg 100 200 none ∷ leg 100 200 none ∷ leg 100 200 none ∷ []) 17
    ≡ solved (5 ∷ 6 ∷ 6 ∷ [])
unfolding solve_allocations solve_many rebalance_to_total without_excess with_remaining guesses
    guess bisect total_at highest_marginal finite_capacity_sum add_remaining remove_excess marginals
    f64_to_u128_saturating capacity_remaining allocation_at_marginal marginal_at sum_u128
    any_above_zero sort_by insert_by saturating_add
lowered = refl
