-- ===== src/Router/Float.antt =====
-- The operations of `f64` that src/router/v2_split.rs uses, over a type of numbers that the model does
-- not open.
use Prim.Native.Nat.{Ordering}
use dex_arbitrage.Prelude.{ℕ, Bool, Option, none, some}

-- `greater_eq x y` is `x >= y`, and so on: none of the tests holds of a value that is not a number.
-- `from_u128` is `as f64`, and `to_u128` is `as u128` of a value in the range of a u128.
pub record F64 (Number : Type 0) : Type 0 where
  pub zero : Number
  pub two : Number
  pub ppm : Number
  pub largest : Number
  pub add : Number → Number → Number
  pub sub : Number → Number → Number
  pub mul : Number → Number → Number
  pub div : Number → Number → Number
  pub powi : Number → (n : ℕ) → Number
  pub sqrt : Number → Number
  pub round : Number → Number
  pub max_of : Number → Number → Number
  pub min_of : Number → Number → Number
  pub less_eq : Number → Number → Bool
  pub greater : Number → Number → Bool
  pub greater_eq : Number → Number → Bool
  pub partial_cmp : Number → Number → Option Ordering
  pub is_finite : Number → Bool
  pub from_u128 : ℕ → Number
  pub to_u128 : Number → ℕ

-- `partial_cmp(..).unwrap_or(Ordering::Equal)`
abbrev pub cmp_or_equal : {Number : Type 0} → F64 Number → Number → Number → Ordering
cmp_or_equal f x y = elim (f.partial_cmp x y) [ none ↦ Ordering.eq | some o ↦ o ]
