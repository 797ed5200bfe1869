-- ===== src/Router/V2Split.antt =====
-- src/router/v2_split.rs: the allocations over Uniswap V2 pools by their marginal outputs. The
-- operations on `f64` are an argument; what is done on integers is done here.
use Prim.Native.Nat.{Ordering}
use dex_arbitrage.Prelude.{
  ℕ, zero, suc, ◌+◌, ◌-◌, ◌%◌, ◌^◌, ◌==◌, ltb, Bool, false, ◌||◌, not, Option, none, some, List, [],
  ◌∷◌, map, if◌then◌else◌, get_elem?, set, min, saturating_add, u128_max,
}
use dex_arbitrage.Prelude.Sorting.{sort_by}
use dex_arbitrage.Types.{EdgeRef}
use dex_arbitrage.Graph.{GraphSnapshot}
use dex_arbitrage.Router.Float.{F64, cmp_or_equal}
use dex_arbitrage.Router.V2Legs.{
  V2AllocationLeg, marginal_at, allocation_at_marginal, capacity_remaining, f64_to_u128_saturating,
  legs_of,
}

-- `optimal_v2_allocations` ends with no allocations, with some, or at an index out of bounds.
pub data Solved : Type 0 where
  unsolved : Solved
  solved : List ℕ → Solved
  out_of_bounds : Solved

-- `sum::<u128>()`, which wraps.
unfoldable pub sum_u128 : List ℕ → ℕ
sum_u128 [] = 0
sum_u128 (x ∷ xs) = (x + sum_u128 xs) % 2 ^ 128

unfoldable pub any_above_zero : List ℕ → Bool
any_above_zero [] = false
any_above_zero (x ∷ xs) = ltb 0 x || any_above_zero xs

-- The first loop of `rebalance_to_total`; `none` is an index out of bounds.
unfoldable pub remove_excess : (order allocations : List ℕ) → (excess : ℕ) → Option (List ℕ)
remove_excess [] allocations excess = some allocations
remove_excess (idx ∷ order) allocations excess =
    if excess == 0 then some allocations else elim (get_elem? allocations idx) [
      | none ↦ none
      | some allocation ↦
          let removed = min allocation excess in
          remove_excess order (set allocations idx (allocation - removed)) (excess - removed)
    ]

module _ {Number : Type 0} (f : F64 Number) where
  abbrev Leg : Type 0
  Leg = V2AllocationLeg Number

  -- The positions of some allocations with the marginal output of each leg at its allocation.
  unfoldable pub marginals : (idx : ℕ) → List Leg → List ℕ → List (ℕ × Number)
  marginals idx (leg ∷ legs) (allocation ∷ allocations) =
      (idx, marginal_at f leg (f.from_u128 allocation)) ∷ marginals (suc idx) legs allocations
  marginals idx (leg ∷ legs) [] = []
  marginals idx [] allocations = []

  abbrev pub least_first : ℕ × Number → ℕ × Number → Ordering
  least_first a b = cmp_or_equal f a.1 b.1

  abbrev pub greatest_first : ℕ × Number → ℕ × Number → Ordering
  greatest_first a b = cmp_or_equal f b.1 a.1

  abbrev pub order_by : (ℕ × Number → ℕ × Number → Ordering) → List Leg → List ℕ → List ℕ
  order_by cmp legs allocations = map (λ e. e.0) (sort_by cmp (marginals 0 legs allocations))

  -- The second loop of `rebalance_to_total`.
  unfoldable pub add_remaining :
      List Leg → (order allocations : List ℕ) → (remaining : ℕ) → Option (List ℕ)
  add_remaining legs [] allocations remaining = some allocations
  add_remaining legs (idx ∷ order) allocations remaining =
      if remaining == 0 then some allocations else elim (get_elem? legs idx) [
        | none ↦ none
        | some leg ↦ elim (get_elem? allocations idx) [
          | none ↦ none
          | some allocation ↦
              let added = min (capacity_remaining f leg allocation) remaining in
              add_remaining legs order
                (set allocations idx (saturating_add u128_max allocation added)) (remaining - added)
        ]
      ]

  unfoldable pub without_excess : List Leg → List ℕ → (total_in : ℕ) → Option (List ℕ)
  without_excess legs allocations total_in =
      let allocated = sum_u128 allocations in
      if ltb total_in allocated
      then remove_excess (order_by least_first legs allocations) allocations (allocated - total_in)
      else some allocations

  unfoldable pub with_remaining : List Leg → List ℕ → (total_in : ℕ) → Option (List ℕ)
  with_remaining legs allocations total_in =
      let allocated = sum_u128 allocations in
      if ltb allocated total_in
      then add_remaining legs (order_by greatest_first legs allocations) allocations
          (total_in - allocated)
      else some allocations

  unfoldable pub rebalance_to_total : List Leg → List ℕ → (total_in : ℕ) → Solved
  rebalance_to_total legs allocations total_in = elim (without_excess legs allocations total_in) [
    | none ↦ out_of_bounds
    | some lowered ↦ elim (with_remaining legs lowered total_in) [
      | none ↦ out_of_bounds
      | some raised ↦ if sum_u128 raised == total_in then solved raised else unsolved
    ]
  ]

  -- `try_fold`, which ends with nothing at the first leg without a capacity.
  unfoldable pub finite_capacity_sum : (acc : ℕ) → List Leg → Option ℕ
  finite_capacity_sum acc [] = some acc
  finite_capacity_sum acc (leg ∷ legs) = elim leg.capacity [
    | none ↦ none
    | some capacity ↦ finite_capacity_sum (saturating_add u128_max acc capacity) legs
  ]

  unfoldable pub highest_marginal : (acc : Number) → List Leg → Number
  highest_marginal acc [] = acc
  highest_marginal acc (leg ∷ legs) =
      highest_marginal (f.max_of acc (marginal_at f leg f.zero)) legs

  unfoldable pub total_at : (acc marginal : Number) → List Leg → Number
  total_at acc marginal [] = acc
  total_at acc marginal (leg ∷ legs) =
      total_at (f.add acc (allocation_at_marginal f leg marginal)) marginal legs

  -- The bisection, with `left` rounds to go.
  unfoldable pub bisect : List Leg → (total_in left : ℕ) → (low high : Number) → Number
  bisect legs total_in zero low high = high
  bisect legs total_in (suc left) low high =
      let mid = f.div (f.add low high) f.two in
      let over = f.greater (total_at f.zero mid legs) (f.from_u128 total_in) in
      bisect legs total_in left (if over then mid else low) (if over then high else mid)

  unfoldable pub guess : (high : Number) → Leg → ℕ
  guess high leg =
      let amount = f64_to_u128_saturating f (f.round (allocation_at_marginal f leg high)) in
      elim leg.capacity [ none ↦ min amount u128_max | some capacity ↦ min amount capacity ]

  unfoldable pub guesses : List Leg → (total_in : ℕ) → List ℕ
  guesses legs total_in =
      map (guess (bisect legs total_in 80 f.zero (highest_marginal f.zero legs))) legs

  abbrev pub over_capacity : Option ℕ → (total_in : ℕ) → Bool
  over_capacity none total_in = false
  over_capacity (some capacity) total_in = ltb capacity total_in

  -- `solve_allocations` for two legs or more.
  unfoldable pub solve_many : List Leg → (total_in : ℕ) → Solved
  solve_many legs total_in =
      let high = highest_marginal f.zero legs in
      if over_capacity (finite_capacity_sum 0 legs) total_in
      then unsolved
      else if not (f.is_finite high) || f.less_eq high f.zero
      then unsolved
      else elim (rebalance_to_total legs (guesses legs total_in) total_in) [
        | unsolved ↦ unsolved
        | out_of_bounds ↦ out_of_bounds
        | solved allocations ↦ if any_above_zero allocations then solved allocations else unsolved
      ]

  unfoldable pub solve_allocations : List Leg → (total_in : ℕ) → Solved
  solve_allocations [] total_in = unsolved
  solve_allocations (leg ∷ []) total_in =
      if over_capacity leg.capacity total_in then unsolved else solved (total_in ∷ [])
  solve_allocations (leg ∷ other ∷ legs) total_in = solve_many (leg ∷ other ∷ legs) total_in

  unfoldable pub optimal_v2_allocations :
      GraphSnapshot → List EdgeRef → (token_in token_out total_in : ℕ) → Solved
  optimal_v2_allocations g [] token_in token_out total_in = unsolved
  optimal_v2_allocations g (r ∷ refs) token_in token_out total_in =
      if total_in == 0 then unsolved else elim (legs_of f g token_in token_out (r ∷ refs)) [
        | none ↦ unsolved
        | some legs ↦ solve_allocations legs total_in
      ]
