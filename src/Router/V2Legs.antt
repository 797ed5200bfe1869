-- ===== src/Router/V2Legs.antt =====
-- src/router/v2_split.rs: the leg of a Uniswap V2 pool, its marginal output, and the legs of some edges.
use dex_arbitrage.Prelude.{
  ℕ, ◌-◌, ◌==◌, ltb, leb, Bool, true, false, ◌||◌, ◌&&◌, not, Option, none, some, List, [], ◌∷◌,
  if◌then◌else◌, u128_max,
}
use dex_arbitrage.Types.{EdgeRef, PoolSpecificState, V2PoolState}
use dex_arbitrage.Graph.{GraphSnapshot, edge, pool}
use dex_arbitrage.Router.Float.{F64}

pub record V2AllocationLeg (Number : Type 0) : Type 0 where
  pub numerator : Number
  pub denominator_const : Number
  pub denominator_slope : Number
  pub capacity : Option ℕ

-- Whether the first token of a pool is the one that comes in.
unfoldable pub zero_for_one_of : (tokens : List ℕ) → (token_in token_out : ℕ) → Option Bool
zero_for_one_of [] token_in token_out = none
zero_for_one_of (token0 ∷ []) token_in token_out = none
zero_for_one_of (token0 ∷ token1 ∷ rest) token_in token_out =
    if token0 == token_in && token1 == token_out
    then some true
    else if token1 == token_in && token0 == token_out
    then some false
    else none

module _ {Number : Type 0} (f : F64 Number) where
  abbrev Leg : Type 0
  Leg = V2AllocationLeg Number

  abbrev leg_of : (reserve_in reserve_out fee_ppm : ℕ) → Option Leg
  leg_of reserve_in reserve_out fee_ppm =
      if reserve_in == 0 || reserve_out == 0 || leb 1_000_000 fee_ppm
      then none
      else let fee_factor = f.sub f.ppm (f.from_u128 fee_ppm) in
        some (record {
          numerator = f.mul fee_factor (f.from_u128 reserve_out);
          denominator_const = f.mul (f.from_u128 reserve_in) f.ppm;
          denominator_slope = fee_factor;
          capacity = none;
        })

  unfoldable pub from_state :
      V2PoolState → (tokens : List ℕ) → (token_in token_out : ℕ) → Option Leg
  from_state state tokens token_in token_out = elim (zero_for_one_of tokens token_in token_out) [
    | none ↦ none
    | some true ↦ leg_of state.reserve0 state.reserve1 state.fee_ppm
    | some false ↦ leg_of state.reserve1 state.reserve0 state.fee_ppm
  ]

  unfoldable pub marginal_at : Leg → Number → Number
  marginal_at leg amount =
      f.div (f.mul leg.numerator leg.denominator_const)
        (f.powi (f.add leg.denominator_const (f.mul leg.denominator_slope amount)) 2)

  unfoldable pub allocation_at_marginal : Leg → Number → Number
  allocation_at_marginal leg marginal =
      if f.less_eq marginal f.zero
      then elim leg.capacity [ none ↦ f.largest | some capacity ↦ f.from_u128 capacity ]
      else if f.greater_eq marginal (marginal_at leg f.zero)
      then f.zero
      else let root = f.sqrt (f.div (f.mul leg.numerator leg.denominator_const) marginal) in
        let solution = f.div (f.sub root leg.denominator_const) leg.denominator_slope in
        let amount = f.max_of solution f.zero in
        elim leg.capacity [ none ↦ amount | some capacity ↦ f.min_of amount (f.from_u128 capacity) ]

  unfoldable pub capacity_remaining : Leg → (allocated : ℕ) → ℕ
  capacity_remaining leg allocated = elim leg.capacity [
    | none ↦ u128_max
    | some capacity ↦ capacity - allocated
  ]

  unfoldable pub f64_to_u128_saturating : Number → ℕ
  f64_to_u128_saturating value =
      if not (f.is_finite value) || f.less_eq value f.zero
      then 0
      else if f.greater_eq value (f.from_u128 u128_max)
      then u128_max
      else f.to_u128 value

  -- The leg of an edge, where its pool is a Uniswap V2 pool that `from_state` takes.
  unfoldable pub leg_at : GraphSnapshot → (token_in token_out : ℕ) → EdgeRef → Option Leg
  leg_at g token_in token_out r = elim (edge g r) [
    | none ↦ none
    | some e ↦ elim (pool g e.pool_id) [
      | none ↦ none
      | some p ↦ elim p.state [
        | PoolSpecificState.uniswap_v2_like state ↦
            elim (from_state state p.token_addresses token_in token_out) [
              | none ↦ none
              | some leg ↦
                  let capacity = e.liquidity.safe_capacity_in in
                  some (record leg { capacity = if ltb 0 capacity then some capacity else none })
            ]
        | _ ↦ none
      ]
    ]
  ]

  unfoldable pub legs_of :
      GraphSnapshot → (token_in token_out : ℕ) → List EdgeRef → Option (List Leg)
  legs_of g token_in token_out [] = some []
  legs_of g token_in token_out (r ∷ refs) = elim (leg_at g token_in token_out r) [
    | none ↦ none
    | some leg ↦ elim (legs_of g token_in token_out refs) [
      | none ↦ none
      | some legs ↦ some (leg ∷ legs)
    ]
  ]
