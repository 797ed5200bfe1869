-- ===== src/Valuation/RoundTrip.antt =====
-- src/risk/valuation.rs: from dollars to an amount and back.
use native.Mathlib.Nat.{div-le_of_le-mul, div-mul-le_self, lt-div-mul-add}
use dex_arbitrage.Prelude.{
  ℕ, ◌+◌, ◌*◌, ◌/◌, ◌≤◌, ◌<◌, ◌≡◌, some, arith, checked_mul, checked_div, u128_max,
}
use dex_arbitrage.Types.{TokenInfo}
use dex_arbitrage.Valuation.{pow10, narrow_mul_div, amount_to_usd_e8, usd_e8_to_amount}

-- What a conversion that gives a value has computed.
pub record Converted (a b c v : ℕ) : Type 0 where
  pub divides : 0 < c
  pub value : v ≡ a * b / c
  pub narrow : v ≤ u128_max

narrow-Converted : (a b c v : ℕ) → narrow_mul_div a b c ≡ some v → Converted a b c v
unfolding narrow_mul_div checked_mul checked_div
narrow-Converted a b c v h = record {
  divides = ground arith;
  value = ground arith;
  narrow = ground arith;
}

usd-Converted :
    (usd price v : ℕ) (t : TokenInfo)
    → t.manual_price_usd_e8 ≡ some price
    → usd_e8_to_amount usd t ≡ some v
    → Converted usd (pow10 t.decimals) price v
unfolding usd_e8_to_amount
usd-Converted usd price v t p h = narrow-Converted usd (pow10 t.decimals) price v (ground arith)

amount-Converted :
    (amount price v : ℕ) (t : TokenInfo)
    → t.manual_price_usd_e8 ≡ some price
    → amount_to_usd_e8 amount t ≡ some v
    → Converted amount price (pow10 t.decimals) v
unfolding amount_to_usd_e8
amount-Converted amount price v t p h =
    narrow-Converted amount price (pow10 t.decimals) v (ground arith)

-- Rounding down twice loses at most this.
back_le : (u m p a v : ℕ) → 0 < p → 0 < m → a ≡ u * m / p → v ≡ a * p / m → v ≤ u
back_le u m p a v pp pm ea ev =
    let paid : a * p ≤ u * m = rw ea (div-mul-le_self (u * m) p) in
    rw ev (div-le_of_le-mul m (omega arith))

back_close :
    (u m p a v : ℕ) → 0 < p → 0 < m → a ≡ u * m / p → v ≡ a * p / m → u * m < (v + 1) * m + p
back_close u m p a v pp pm ea ev =
    let one : u * m < a * p + p = rw ea (lt-div-mul-add pp) in
    let two : a * p < v * m + m = rw ev (lt-div-mul-add pm) in omega arith

-- From dollars to an amount and back never gains, and loses less than one unit and the value of one
-- raw unit of the token: if both conversions give a value at the token's price, the value that comes
-- back is at most the first one, and the first is less than it and one more, with the price of one
-- raw unit added.
pub usd_e8_to_amount-amount_to_usd_e8 :
    (usd price a v : ℕ) (t : TokenInfo)
    → t.manual_price_usd_e8 ≡ some price
    → usd_e8_to_amount usd t ≡ some a
    → amount_to_usd_e8 a t ≡ some v
    → (v ≤ usd) × (usd * pow10 t.decimals < (v + 1) * pow10 t.decimals + price)
usd_e8_to_amount-amount_to_usd_e8 usd price a v t p h k =
    let there = usd-Converted usd price a t p h in
    let back = amount-Converted a price v t p k in
    (
      back_le usd (pow10 t.decimals) price a v there.divides back.divides there.value back.value,
      back_close usd (pow10 t.decimals) price a v there.divides back.divides there.value back.value,
    )
