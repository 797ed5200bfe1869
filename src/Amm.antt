-- ===== src/Amm.antt =====
-- src/amm/: exact-in quotes of the pools with integer arithmetic. The spot rates and the fallback
-- quotes are in f64 and left out.
pub mod UniswapV2
pub mod TraderJoeLb
pub mod StableCurve
pub mod AerodromeV2
pub mod Product
pub mod Quotes
pub mod Solver
mod Examples
use dex_arbitrage.Prelude.{
  ℕ, ◌/◌, Option, none, some, saturating_add, saturating_mul, u128_max, ◌≡◌, refl,
}

infixl 5 ◌>>=◌
abbrev pub ◌>>=◌ {ℓ κ} : {A : Type ℓ} {B : Type κ} → Option A → (A → Option B) → Option B
none >>= f = none
some a >>= f = f a

-- A chain that gives a value gives one at each step.
pub bind-some {ℓ κ} :
    {A : Type ℓ} {B : Type κ} (m : Option A) (f : A → Option B) (b : B)
    → (m >>= f) ≡ some b
    → (a : A) × (m ≡ some a) × (f a ≡ some b)
bind-some none f b h = cc
bind-some (some a) f b h = (a, refl, h)

abbrev pub sat_mul : ℕ → ℕ → ℕ
sat_mul = saturating_mul u128_max

abbrev pub sat_add : ℕ → ℕ → ℕ
sat_add = saturating_add u128_max

-- The tail of the quotes of src/amm/uniswap_v2.rs and src/amm/trader_joe_lb.rs.
unfoldable pub product_quote : (amount_in_with_fee reserve_in reserve_out : ℕ) → ℕ
product_quote amount_in_with_fee reserve_in reserve_out =
    sat_mul amount_in_with_fee reserve_out
    / sat_add (sat_mul reserve_in 1_000_000) amount_in_with_fee
