-- ===== src/Amm/StableCurve.antt =====
-- src/amm/aerodrome_v2.rs: the curve x^3 y + x y^3 = k of the stable pools, and its solver.
use dex_arbitrage.Prelude.{
  ℕ, zero, suc, Option, none, some, ltb, leb, ◌==◌, if◌then◌else◌, checked_add, checked_sub,
  checked_mul, checked_div, u128_max, u256_max,
}
use dex_arbitrage.Amm.{◌>>=◌}

abbrev pub one_e18 : ℕ
one_e18 = 1_000_000_000_000_000_000

-- `a.checked_mul(b)?.checked_div(c)` in U256.
abbrev pub mul_div : ℕ → ℕ → ℕ → Option ℕ
mul_div a b c = checked_mul u256_max a b >>= λ p. checked_div p c

unfoldable pub stable_f : (x0 y : ℕ) → Option ℕ
stable_f x0 y = do
  a ← mul_div x0 y one_e18
  x2 ← mul_div x0 x0 one_e18
  y2 ← mul_div y y one_e18
  b ← checked_add u256_max x2 y2
  mul_div a b one_e18

unfoldable pub stable_d : (x0 y : ℕ) → Option ℕ
stable_d x0 y = do
  y2 ← mul_div y y one_e18
  triple ← checked_mul u256_max 3 x0
  first ← mul_div triple y2 one_e18
  x2 ← mul_div x0 x0 one_e18
  x3 ← mul_div x2 x0 one_e18
  checked_add u256_max first x3

unfoldable pub stable_k : (x y decimals0 decimals1 : ℕ) → Option ℕ
stable_k x y decimals0 decimals1 = do
  x' ← mul_div x one_e18 decimals0
  y' ← mul_div y one_e18 decimals1
  stable_f x' y'

-- One round of `solve_stable_y`: the loop goes on with another `y`, or returns one.
pub data Round : Type 0 where
  continue : ℕ → Round
  found : ℕ → Round

-- A step of 0 is taken as one unit, unless that unit passes the target.
unfoldable pub grow_by : (x0 xy y k dy : ℕ) → Option Round
grow_by x0 xy y k dy =
    if dy == 0
    then if k == xy
      then some (found y)
      else (checked_add u256_max y 1 >>= λ next.
          stable_f x0 next >>= λ k'. if ltb xy k' then some (found next) else some (continue next))
    else (checked_add u256_max y dy >>= λ next. some (continue next))

unfoldable pub grow_y : (x0 xy y k denom : ℕ) → Option Round
grow_y x0 xy y k denom =
    checked_sub xy k >>= λ gap. mul_div gap one_e18 denom >>= λ dy. grow_by x0 xy y k dy

unfoldable pub shrink_by : (x0 xy y k dy : ℕ) → Option Round
shrink_by x0 xy y k dy =
    if dy == 0
    then if k == xy
      then some (found y)
      else (checked_sub y 1 >>= λ next.
          stable_f x0 next >>= λ k'. if ltb k' xy then some (found y) else some (continue next))
    else (checked_sub y dy >>= λ next. some (continue next))

unfoldable pub shrink_y : (x0 xy y k denom : ℕ) → Option Round
shrink_y x0 xy y k denom =
    checked_sub k xy >>= λ gap. mul_div gap one_e18 denom >>= λ dy. shrink_by x0 xy y k dy

unfoldable pub stable_round : (x0 xy y : ℕ) → Option Round
stable_round x0 xy y = do
  k ← stable_f x0 y
  denom ← stable_d x0 y
  if denom == 0 then none else if ltb k xy then grow_y x0 xy y k denom else shrink_y x0 xy y k denom

-- `for _ in 0..255`, with the rounds that are left.
unfoldable pub solve_stable_y : (rounds x0 xy y : ℕ) → Option ℕ
solve_stable_y zero x0 xy y = none
solve_stable_y (suc rounds) x0 xy y = elim (stable_round x0 xy y) [
  | none ↦ none
  | some (found z) ↦ some z
  | some (continue z) ↦ solve_stable_y rounds x0 xy z
]

-- `to_string().parse::<u128>().ok()`
abbrev pub u256_to_u128 : ℕ → Option ℕ
u256_to_u128 value = if leb value u128_max then some value else none
