-- ===== src/Amm/Solver.antt =====
-- src/amm/aerodrome_v2.rs: what a solution of the stable curve is, and that no quote exceeds the
-- reserve that is paid from.
use native.Mathlib.Nat.{div-le_of_le-mul, div-mul-le_self, le_trans, mul-le-mul_right}
use dex_arbitrage.Prelude.{
  ℕ, zero, suc, ◌+◌, ◌-◌, ◌*◌, ◌/◌, ◌≤◌, ◌<◌, ◌≡◌, refl, Bool, Option, none, some, arith, ◌==◌,
  ◌||◌, ltb, if◌then◌else◌, u256_max, checked_add, checked_sub, checked_mul, checked_div, subst,
  inl, inr, Bool-cases, ◌⊎◌, Option-cases,
}
use dex_arbitrage.Types.{AerodromeV2PoolState}
use dex_arbitrage.Amm.{bind-some}
use dex_arbitrage.Amm.StableCurve.{
  one_e18, mul_div, stable_f, stable_d, stable_k, Round, continue, found, grow_by, grow_y,
  shrink_by, shrink_y, stable_round, solve_stable_y,
}
use dex_arbitrage.Amm.AerodromeV2.{
  stable_quote, amount_in_after_fee, quote_after_fee, quote_exact_in,
}
use dex_arbitrage.Amm.Product.{sat_quote-le}

-- The curve is at its target at `z`, or passes it between `z - 1` and `z`.
pub record Crossing (x0 xy z : ℕ) : Type 0 where
  pub value : ℕ
  pub at : stable_f x0 z ≡ some value
  pub above : xy ≤ value
  pub tight : (value ≡ xy) ⊎ ((below : ℕ) × (stable_f x0 (z - 1) ≡ some below) × (below < xy))

module _ (x0 xy y k : ℕ) (at_y : stable_f x0 y ≡ some k) where
  grow_by-found : (dy z : ℕ) → k < xy → grow_by x0 xy y k dy ≡ some (found z) → Crossing x0 xy z
  unfolding grow_by checked_add
  grow_by-found dy z l h = elim (Option-cases (stable_f x0 (y + 1))) [
    | inl e ↦ absurd (ground arith)
    | inr (k', e) ↦
        let next : y + 1 ≡ z = ground arith in
        record {
          value = k';
          at = subst (λ t. stable_f x0 t ≡ some k') next e;
          above = ground arith;
          tight = inr (
            k,
            subst (λ t. stable_f x0 t ≡ some k) (let p : y ≡ z - 1 = omega arith in p) at_y,
            l,
          );
        }
  ]

  shrink_by-found : (dy z : ℕ) → xy ≤ k → shrink_by x0 xy y k dy ≡ some (found z) → Crossing x0 xy z
  unfolding shrink_by checked_sub
  shrink_by-found dy z l h = elim (Bool-cases (k == xy)) [
    | inl e ↦
        let same : y ≡ z = ground arith in
        record {
          value = k;
          at = subst (λ t. stable_f x0 t ≡ some k) same at_y;
          above = l;
          tight = inl (ground arith);
        }
    | inr ne ↦ elim (Option-cases (stable_f x0 (y - 1))) [
      | inl e ↦ absurd (ground arith)
      | inr (k', e) ↦
          let same : y ≡ z = ground arith in
          record {
            value = k;
            at = subst (λ t. stable_f x0 t ≡ some k) same at_y;
            above = l;
            tight = inr (k', subst (λ t. stable_f x0 (t - 1) ≡ some k') same e, ground arith);
          }
    ]
  ]

  grow_y-found : (denom z : ℕ) → k < xy → grow_y x0 xy y k denom ≡ some (found z) → Crossing x0 xy z
  unfolding grow_y
  grow_y-found denom z l h =
      let (gap, _, step) = bind-some (checked_sub xy k) _ (found z) h in
      let (dy, _, last) = bind-some (mul_div gap one_e18 denom) _ (found z) step in
      grow_by-found dy z l last

  shrink_y-found :
      (denom z : ℕ) → xy ≤ k → shrink_y x0 xy y k denom ≡ some (found z) → Crossing x0 xy z
  unfolding shrink_y
  shrink_y-found denom z l h =
      let (gap, _, step) = bind-some (checked_sub k xy) _ (found z) h in
      let (dy, _, last) = bind-some (mul_div gap one_e18 denom) _ (found z) step in
      shrink_by-found dy z l last

stable_round-found : (x0 xy y z : ℕ) → stable_round x0 xy y ≡ some (found z) → Crossing x0 xy z
unfolding stable_round
stable_round-found x0 xy y z h =
    let (k, at_y, rest) = bind-some (stable_f x0 y) _ (found z) h in
    let (denom, _, test) = bind-some (stable_d x0 y) _ (found z) rest in
    elim (Bool-cases (ltb k xy)) [
      | inl l ↦ grow_y-found x0 xy y k at_y denom z (ground arith) (ground arith)
      | inr l ↦ shrink_y-found x0 xy y k at_y denom z (ground arith) (ground arith)
    ]

-- A `y` that the solver of the stable curve returns, within any number of rounds, is a crossing: the
-- curve's value there is at least the target, and it is the target or its value one unit below is
-- less than the target.
pub solve_stable_y-Crossing :
    (rounds x0 xy y z : ℕ) → solve_stable_y rounds x0 xy y ≡ some z → Crossing x0 xy z
unfolding solve_stable_y
solve_stable_y-Crossing zero x0 xy y z h = absurd (ground arith)
solve_stable_y-Crossing (suc rounds) x0 xy y z h =
    go (stable_round x0 xy y) refl (λ w. solve_stable_y-Crossing rounds x0 xy w z)
  where
    go :
        (r : Option Round)
        → stable_round x0 xy y ≡ r
        → ((w : ℕ) → solve_stable_y rounds x0 xy w ≡ some z → Crossing x0 xy z)
        → Crossing x0 xy z
    go none e ih = absurd (ground arith)
    go (some (found w)) e ih = stable_round-found x0 xy y z (ground arith)
    go (some (continue w)) e ih = ih w (ground arith)

-- Scaling down what was scaled up, less something, gives no more than there was.
scaled-le : (n m o w : ℕ) → w ≤ n * o / m → w * m / o ≤ n
scaled-le n m o w h =
    let up : w * m ≤ n * o = le_trans (mul-le-mul_right m h) (div-mul-le_self (n * o) m) in
    div-le_of_le-mul o (omega arith)

mul_div-some : (a b c v : ℕ) → mul_div a b c ≡ some v → v ≡ a * b / c
unfolding checked_mul checked_div
mul_div-some a b c v h = ground arith

stable_quote-le : (a ri ro di dout q : ℕ) → stable_quote a ri ro di dout ≡ some q → q ≤ ro
unfolding stable_quote checked_sub
stable_quote-le a ri ro di dout q h = elim (Bool-cases (di == 0 || dout == 0)) [
  | inl e ↦ absurd (ground arith)
  | inr e ↦
      let (xy, _, h1) = bind-some (stable_k ri ro di dout) _ q (rw e at h) in
      let (ri', _, h2) = bind-some (mul_div ri one_e18 di) _ q h1 in
      let (ro', er, h3) = bind-some (mul_div ro one_e18 dout) _ q h2 in
      let (a', _, h4) = bind-some (mul_div a one_e18 di) _ q h3 in
      let (x0, _, h5) = bind-some (checked_add u256_max ri' a') _ q h4 in
      let (y, _, h6) = bind-some (solve_stable_y 255 x0 xy ro') _ q h5 in
      let (dy, ed, h7) = bind-some (checked_sub ro' y) _ q h6 in
      let (out, eo, h8) = bind-some (mul_div dy dout one_e18) _ q h7 in
      let small : dy ≤ ro' = ground arith in
      let same : out ≡ q = ground arith in
      let sized = mul_div-some ro one_e18 dout ro' er in
      let paid = mul_div-some dy dout one_e18 out eo in
      rw (← same, paid) (scaled-le ro dout one_e18 dy (rw (← sized) small))
]

after_fee-le :
    (s : AerodromeV2PoolState) (dir : Bool) (a q : ℕ)
    → quote_after_fee s dir a ≡ some q
    → q ≤ (if dir then s.reserve1 else s.reserve0)
unfolding quote_after_fee
after_fee-le s dir a q h =
    let ri : ℕ = if dir then s.reserve0 else s.reserve1 in
    let ro : ℕ = if dir then s.reserve1 else s.reserve0 in
    let di : ℕ = if dir then s.decimals0 else s.decimals1 in
    let dout : ℕ = if dir then s.decimals1 else s.decimals0 in
    ground (arith, stable_quote-le a ri ro di dout q, sat_quote-le a ro ri)

-- Whatever saturates on the way, an Aerodrome quote, of a stable or a product pool, is at most the
-- reserve that is paid from.
pub aerodrome_quote-le_reserve :
    (s : AerodromeV2PoolState) (zero_for_one : Bool) (a q : ℕ)
    → quote_exact_in s zero_for_one a ≡ some q
    → q ≤ (if zero_for_one then s.reserve1 else s.reserve0)
unfolding quote_exact_in
aerodrome_quote-le_reserve s dir a q h = elim (Option-cases (amount_in_after_fee a s.fee_ppm)) [
  | inl e ↦ ground arith
  | inr (b, e) ↦ ground (arith, after_fee-le s dir b q)
]
