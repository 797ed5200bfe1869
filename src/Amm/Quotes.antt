-- ===== src/Amm/Quotes.antt =====
-- src/amm/: what the quotes of the product pools promise.
use native.Mathlib.Nat.{add-zero, sub-zero, le_of_mul-le-mul_left, mul-le-mul_right, le_trans}
use dex_arbitrage.Prelude.{
  ℕ, ◌+◌, ◌-◌, ◌*◌, ◌/◌, ◌≤◌, ◌<◌, ◌≡◌, Bool, some, arith, if◌then◌else◌, u128_max,
  saturating_mul_exact, saturating_add_exact, inl, inr, ◌⊎◌,
}
use dex_arbitrage.Types.{V2PoolState, TraderJoeLbPoolState}
use dex_arbitrage.Amm.{sat_mul, product_quote}
use dex_arbitrage.Amm.UniswapV2
use dex_arbitrage.Amm.TraderJoeLb
use dex_arbitrage.Amm.Product.{product_kept, product_mono, sat_quote-le}

abbrev pub reserve_in : V2PoolState → Bool → ℕ
reserve_in s zero_for_one = if zero_for_one then s.reserve0 else s.reserve1

abbrev pub reserve_out : V2PoolState → Bool → ℕ
reserve_out s zero_for_one = if zero_for_one then s.reserve1 else s.reserve0

product_quote-le : (x ri ro : ℕ) → 0 < ro → product_quote x ri ro ≤ ro
unfolding product_quote
product_quote-le x ri ro pos = sat_quote-le x ro (sat_mul ri 1_000_000) pos

-- No saturation takes place on the way to the quote.
pub record Fits (x ri ro : ℕ) : Type 0 where
  pub dividend : x * ro ≤ u128_max
  pub divisor : ri * 1_000_000 + x ≤ u128_max

product_quote_exact :
    (x ri ro : ℕ) → Fits x ri ro → product_quote x ri ro ≡ x * ro / (ri * 1_000_000 + x)
unfolding product_quote
product_quote_exact x ri ro f =
    let e1 = saturating_mul_exact u128_max x ro f.dividend in
    let e2 = saturating_mul_exact u128_max ri 1_000_000 (omega (arith, f.divisor)) in
    let e3 = saturating_add_exact u128_max (ri * 1_000_000) x f.divisor in rw (e1, e2, e3)

kept_scaled :
    (a f ri s : ℕ) → f ≤ 1_000_000 → (ri * 1_000_000 + a * f) * s ≤ 1_000_000 * ((ri + a) * s)
kept_scaled a f ri s h =
    let g : a * f ≤ a * 1_000_000 = grind arith in
    le_trans
      (mul-le-mul_right s
        (let k : ri * 1_000_000 + a * f ≤ ri * 1_000_000 + a * 1_000_000 = omega arith in k))
      (omega arith)

-- The fee only adds to what the pool keeps.
fee_kept :
    (a f ri ro : ℕ)
    → f ≤ 1_000_000
    → Fits (a * f) ri ro
    → ri * ro ≤ (ri + a) * (ro - product_quote (a * f) ri ro)
fee_kept a f ri ro h fits =
    let e = product_quote_exact (a * f) ri ro fits in
    let q = product_quote (a * f) ri ro in
    let k : ri * 1_000_000 * ro ≤ (ri * 1_000_000 + a * f) * (ro - q) =
      rw e (product_kept (a * f) ro (ri * 1_000_000)) in
    let l : 1_000_000 * (ri * ro) ≤ 1_000_000 * ((ri + a) * (ro - q)) =
      le_trans (let m : 1_000_000 * (ri * ro) ≤ ri * 1_000_000 * ro = omega arith in m)
        (le_trans k (kept_scaled a f ri (ro - q) h)) in
    le_of_mul-le-mul_left l (omega arith)

fee_mono :
    (a b f ri ro : ℕ)
    → 0 < ri
    → a ≤ b
    → Fits (b * f) ri ro
    → product_quote (a * f) ri ro ≤ product_quote (b * f) ri ro
fee_mono a b f ri ro pos le fits =
    let up : a * f ≤ b * f = mul-le-mul_right f le in
    let low : Fits (a * f) ri ro = record {
      dividend = le_trans (mul-le-mul_right ro up) fits.dividend;
      divisor = omega (arith, fits.divisor);
    } in
    rw (product_quote_exact (a * f) ri ro low, product_quote_exact (b * f) ri ro fits)
      (product_mono (a * f) (b * f) ro (ri * 1_000_000) (omega arith) up)

-- How a quote for a pool with two reserves comes about.
abbrev Quoted : (f ri ro a q : ℕ) → Type 0
Quoted f ri ro a q =
    ((a ≡ 0) × (q ≡ 0)) ⊎ ((0 < a) × (0 < ri) × (0 < ro) × (q ≡ product_quote (sat_mul a f) ri ro))

Quoted-le : (f ri ro a q : ℕ) → Quoted f ri ro a q → q ≤ ro
Quoted-le f ri ro a q (inl (_, e)) = omega arith
Quoted-le f ri ro a q (inr (_, _, pos, e)) = rw e (product_quote-le (sat_mul a f) ri ro pos)

idle : (ri ro : ℕ) → ri * ro ≤ (ri + 0) * (ro - 0)
idle ri ro = rw (add-zero, sub-zero) (omega arith)

Quoted-kept :
    (f ri ro a q : ℕ)
    → f ≤ 1_000_000
    → Fits (a * f) ri ro
    → Quoted f ri ro a q
    → ri * ro ≤ (ri + a) * (ro - q)
Quoted-kept f ri ro a q h fits (inl (z, e)) = rw (z, e) (idle ri ro)
Quoted-kept f ri ro a q h fits (inr (_, _, _, e)) =
    rw (e, saturating_mul_exact u128_max a f (omega (arith, fits.divisor)))
      (fee_kept a f ri ro h fits)

Quoted-mono :
    (f ri ro a b p q : ℕ)
    → a ≤ b
    → Fits (b * f) ri ro
    → Quoted f ri ro a p
    → Quoted f ri ro b q
    → p ≤ q
Quoted-mono f ri ro a b p q le fits (inl (_, e)) k = omega arith
Quoted-mono f ri ro a b p q le fits (inr (some_in, _, _, _)) (inl (z, e')) = absurd (omega arith)
Quoted-mono f ri ro a b p q le fits (inr (_, pos, _, e)) (inr (_, _, _, e')) =
    let up : a * f ≤ b * f = mul-le-mul_right f le in
    rw
      (
        e,
        e',
        saturating_mul_exact u128_max a f (omega (arith, fits.divisor)),
        saturating_mul_exact u128_max b f (omega (arith, fits.divisor)),
      )
      (fee_mono a b f ri ro pos le fits)

v2-Quoted :
    (s : V2PoolState) (dir : Bool) (a q : ℕ)
    → UniswapV2.quote_exact_in s dir a ≡ some q
    → Quoted (1_000_000 - s.fee_ppm) (reserve_in s dir) (reserve_out s dir) a q
unfolding UniswapV2.quote_exact_in
v2-Quoted s dir a q h = ground arith

joe-Quoted :
    (s : TraderJoeLbPoolState) (dir : Bool) (a q : ℕ)
    → TraderJoeLb.quote_exact_in s dir a ≡ some q
    → Quoted 997_000
        (if dir then s.reserve_x else s.reserve_y)
        (if dir then s.reserve_y else s.reserve_x)
        a
        q
unfolding TraderJoeLb.quote_exact_in
joe-Quoted s dir a q h = ground arith

-- Whatever saturates on the way, a Uniswap V2 quote is at most the reserve that is paid from.
pub v2_quote-le_reserve :
    (s : V2PoolState) (zero_for_one : Bool) (a q : ℕ)
    → UniswapV2.quote_exact_in s zero_for_one a ≡ some q
    → q ≤ reserve_out s zero_for_one
v2_quote-le_reserve s dir a q h =
    Quoted-le (1_000_000 - s.fee_ppm) (reserve_in s dir) (reserve_out s dir) a q
      (v2-Quoted s dir a q h)

-- A trade at a Uniswap V2 quote never lowers the product of the reserves, where nothing saturates.
pub v2_quote-product :
    (s : V2PoolState) (zero_for_one : Bool) (a q : ℕ)
    → UniswapV2.quote_exact_in s zero_for_one a ≡ some q
    → Fits (a * (1_000_000 - s.fee_ppm)) (reserve_in s zero_for_one) (reserve_out s zero_for_one)
    → reserve_in s zero_for_one * reserve_out s zero_for_one
      ≤ (reserve_in s zero_for_one + a) * (reserve_out s zero_for_one - q)
v2_quote-product s dir a q h fits =
    Quoted-kept (1_000_000 - s.fee_ppm) (reserve_in s dir) (reserve_out s dir) a q (omega arith)
      fits (v2-Quoted s dir a q h)

-- A larger amount is never quoted less by Uniswap V2, where nothing saturates for the larger one.
pub v2_quote_mono :
    (s : V2PoolState) (zero_for_one : Bool) (a b p q : ℕ)
    → UniswapV2.quote_exact_in s zero_for_one a ≡ some p
    → UniswapV2.quote_exact_in s zero_for_one b ≡ some q
    → a ≤ b
    → Fits (b * (1_000_000 - s.fee_ppm)) (reserve_in s zero_for_one) (reserve_out s zero_for_one)
    → p ≤ q
v2_quote_mono s dir a b p q h k le fits =
    Quoted-mono (1_000_000 - s.fee_ppm) (reserve_in s dir) (reserve_out s dir) a b p q le fits
      (v2-Quoted s dir a p h) (v2-Quoted s dir b q k)

abbrev pub bins_in : TraderJoeLbPoolState → Bool → ℕ
bins_in s swap_for_y = if swap_for_y then s.reserve_x else s.reserve_y

abbrev pub bins_out : TraderJoeLbPoolState → Bool → ℕ
bins_out s swap_for_y = if swap_for_y then s.reserve_y else s.reserve_x

-- Where nothing saturates, a Trader Joe quote is at most the reserve that is paid from, and a trade
-- at it never lowers the product of the reserves.
pub joe_quote-product :
    (s : TraderJoeLbPoolState) (swap_for_y : Bool) (a q : ℕ)
    → TraderJoeLb.quote_exact_in s swap_for_y a ≡ some q
    → Fits (a * 997_000) (bins_in s swap_for_y) (bins_out s swap_for_y)
    → (q ≤ bins_out s swap_for_y)
      × (bins_in s swap_for_y * bins_out s swap_for_y
          ≤ (bins_in s swap_for_y + a) * (bins_out s swap_for_y - q))
joe_quote-product s dir a q h fits =
    let quoted = joe-Quoted s dir a q h in
    (
      Quoted-le 997_000 (bins_in s dir) (bins_out s dir) a q quoted,
      Quoted-kept 997_000 (bins_in s dir) (bins_out s dir) a q (omega arith) fits quoted,
    )
