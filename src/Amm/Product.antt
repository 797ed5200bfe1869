-- ===== src/Amm/Product.antt =====
-- src/amm/: arithmetic of the constant-product formula x * r / (d + x).
use native.Mathlib.Nat.{le-div_iff_mul-le, div-le_of_le-mul, div-mul-le_self}
use dex_arbitrage.Prelude.{
  ℕ, ◌+◌, ◌-◌, ◌*◌, ◌/◌, ◌≤◌, ◌<◌, ◌≡◌, arith, saturating_add, u128_max, leb, saturating_mul-le,
  saturating_mul-le_mul, inl, inr, Bool-cases, subst, sym,
}
use dex_arbitrage.Amm.{sat_mul, sat_add}

kept_parts : (q s x d : ℕ) → q * (d + x) ≤ x * (q + s) → d * (q + s) ≤ (d + x) * s
kept_parts q s x d h = omega arith

mono_parts : (q s x e d : ℕ) → q * (d + x) ≤ x * (q + s) → q * (d + (x + e)) ≤ (x + e) * (q + s)
mono_parts q s x e d h = omega arith

product-le : (x r d : ℕ) → x * r / (d + x) ≤ r
product-le x r d = div-le_of_le-mul (d + x) (omega arith)

-- What the pool then holds multiplies to at least what it held before.
pub product_kept : (x r d : ℕ) → d * r ≤ (d + x) * (r - x * r / (d + x))
product_kept x r d =
    let q = x * r / (d + x) in
    let split : r ≡ q + (r - q) = omega (arith, product-le x r d) in
    let h : q * (d + x) ≤ x * r = div-mul-le_self (x * r) (d + x) in
    subst (λ z. d * z ≤ (d + x) * (r - q)) (sym split)
      (kept_parts q (r - q) x d (subst (λ z. q * (d + x) ≤ x * z) split h))

-- More in, no less out.
pub product_mono : (x y r d : ℕ) → 0 < d → x ≤ y → x * r / (d + x) ≤ y * r / (d + y)
product_mono x y r d pos le =
    let q = x * r / (d + x) in
    let split : r ≡ q + (r - q) = omega (arith, product-le x r d) in
    let more : y ≡ x + (y - x) = omega arith in
    let h : q * (d + x) ≤ x * r = div-mul-le_self (x * r) (d + x) in
    let k : q * (d + (x + (y - x))) ≤ (x + (y - x)) * (q + (r - q)) =
      mono_parts q (r - q) x (y - x) d (subst (λ z. q * (d + x) ≤ x * z) split h) in
    let k' : q * (d + y) ≤ y * (q + (r - q)) =
      subst (λ z. q * (d + z) ≤ z * (q + (r - q))) (sym more) k in
    (le-div_iff_mul-le (omega arith)).1 (subst (λ z. q * (d + y) ≤ y * z) (sym split) k')

mul-ge : (a r : ℕ) → 0 < r → a ≤ a * r
mul-ge a r pos = grind arith

sat_products : (x r d : ℕ) → 0 < r → sat_mul x r ≤ sat_add d x * r
unfolding saturating_add
sat_products x r d pos = elim (Bool-cases (leb (d + x) u128_max)) [
  | inl h ↦ rw h (omega (arith, saturating_mul-le_mul u128_max x r))
  | inr h ↦ rw h (omega (arith, saturating_mul-le u128_max x r, mul-ge u128_max r pos))
]

-- The saturating product over the saturating sum never exceeds the reserve.
pub sat_quote-le : (x r d : ℕ) → 0 < r → sat_mul x r / sat_add d x ≤ r
sat_quote-le x r d pos = div-le_of_le-mul (sat_add d x) (sat_products x r d pos)
