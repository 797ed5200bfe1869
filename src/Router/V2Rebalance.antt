-- ===== src/Router/V2Rebalance.antt =====
-- src/router/v2_split.rs, `rebalance_to_total`: bounds, number and sum of the allocations in its loops.
use Prim.Native.Nat.{Ordering}
use dex_arbitrage.Prelude.{
  ℕ, zero, suc, ◌+◌, ◌-◌, ◌≤◌, ◌<◌, ◌≡◌, refl, sym, subst, arith, ◌==◌, ltb, Option, none, some,
  List, [], ◌∷◌, map, get_elem?, set, length, length-set, min, saturating_add,
  saturating_add-le_add, u128_max, All, Bool-cases, inl, inr,
}
use dex_arbitrage.Prelude.Sorting.{sort_by, sort_by-All}
use dex_arbitrage.Router.Float.{F64}
use dex_arbitrage.Router.V2Legs.{V2AllocationLeg, capacity_remaining}
use dex_arbitrage.Router.V2Split.{
  sum_u128, remove_excess, add_remaining, without_excess, with_remaining, marginals, least_first,
  greatest_first, order_by,
}
use dex_arbitrage.Router.Split.{at}
use dex_arbitrage.Router.Sums.{sum, sum-set}

pub sum_u128-sum : (xs : List ℕ) → sum xs ≤ u128_max → sum_u128 xs ≡ sum xs
unfolding sum_u128
sum_u128-sum [] h = refl
sum_u128-sum (x ∷ xs) h = omega (arith, sum_u128-sum xs (omega arith))

-- Some allocations, one for each leg, that add up to at most a bound; no index was out of bounds.
abbrev pub Within : (size bound : ℕ) → Option (List ℕ) → Type 0
Within size bound none = ⊥
Within size bound (some xs) = (length xs ≡ size) × (sum xs ≤ bound)

-- Every index is in bounds.
abbrev Below : (size : ℕ) → List ℕ → Type 0
Below size order = All (λ i. i < size) order

get_elem?-some :
    {A : Type 0} (xs : List A) (i : ℕ) → i < length xs → (x : A) × (get_elem? xs i ≡ some x)
get_elem?-some [] i h = absurd (omega arith)
get_elem?-some (x ∷ xs) zero h = (x, refl)
get_elem?-some (x ∷ xs) (suc i) h = get_elem?-some xs i (omega arith)

-- A write of a new amount for a known one.
sum-write :
    (xs : List ℕ) (i x v : ℕ)
    → i < length xs
    → get_elem? xs i ≡ some x
    → sum (set xs i v) + x ≡ sum xs + v
sum-write xs i x v h e = let k : at xs i ≡ x = rw (at, e) refl in omega (arith, sum-set xs i v h, k)

pub widen : {n m b c : ℕ} (r : Option (List ℕ)) → n ≡ m → b ≤ c → Within n b r → Within m c r
widen none p q h = h
widen (some ys) p q h = (omega (arith, h.0), omega (arith, h.1))

remove_excess-Within :
    (order xs : List ℕ) (excess : ℕ)
    → Below (length xs) order
    → Within (length xs) (sum xs) (remove_excess order xs excess)
unfolding remove_excess
remove_excess-Within [] xs excess a = (refl, omega arith)
remove_excess-Within (i ∷ order) xs excess a = elim (Bool-cases (excess == 0)) [
  | inl z ↦ rw (remove_excess, z) (refl, omega arith)
  | inr z ↦
      let (x, e) = get_elem?-some xs i a.0 in
      let lowered = set xs i (x - min x excess) in
      let size : length lowered ≡ length xs = length-set xs i (x - min x excess) in
      let less : sum lowered ≤ sum xs = omega (arith, sum-write xs i x (x - min x excess) a.0 e) in
      let rest =
        remove_excess-Within order lowered (excess - min x excess)
          (subst (λ n. Below n order) (sym size) a.1) in
      rw (remove_excess, z, e)
        (widen (remove_excess order lowered (excess - min x excess)) size less rest)
]

module _ {Number : Type 0} (f : F64 Number) where
  abbrev Legs : Type 0
  Legs = List (V2AllocationLeg Number)

  add_remaining-Within :
      (legs : Legs) (order xs : List ℕ) (remaining : ℕ)
      → length legs ≡ length xs
      → Below (length xs) order
      → Within (length xs) (sum xs + remaining) (add_remaining f legs order xs remaining)
  unfolding add_remaining
  add_remaining-Within legs [] xs remaining l a = (refl, omega arith)
  add_remaining-Within legs (i ∷ order) xs remaining l a = elim (Bool-cases (remaining == 0)) [
    | inl z ↦ rw (add_remaining, z) (refl, omega arith)
    | inr z ↦
        let (leg, k) = get_elem?-some legs i (omega (arith, a.0)) in
        let (x, e) = get_elem?-some xs i a.0 in
        let added = min (capacity_remaining f leg x) remaining in
        let v = saturating_add u128_max x added in
        let raised = set xs i v in
        let size : length raised ≡ length xs = length-set xs i v in
        let more : sum raised + (remaining - added) ≤ sum xs + remaining =
          omega (arith, sum-write xs i x v a.0 e, saturating_add-le_add u128_max x added) in
        let rest =
          add_remaining-Within legs order raised (remaining - added) (omega (arith, l, size))
            (subst (λ n. Below n order) (sym size) a.1) in
        rw (add_remaining, z, k, e)
          (widen (add_remaining f legs order raised (remaining - added)) size more rest)
  ]

  marginals-Below :
      (idx n : ℕ) (legs : Legs) (xs : List ℕ)
      → idx + length xs ≤ n
      → All (λ e. e.0 < n) (marginals f idx legs xs)
  unfolding marginals
  marginals-Below idx n (leg ∷ legs) (x ∷ xs) h =
      (omega arith, marginals-Below (suc idx) n legs xs (omega arith))
  marginals-Below idx n (leg ∷ legs) [] h = tt
  marginals-Below idx n [] xs h = tt

  positions-Below :
      (n : ℕ) (es : List (ℕ × Number)) → All (λ e. e.0 < n) es → Below n (map (λ e. e.0) es)
  positions-Below n [] a = tt
  positions-Below n (e ∷ es) a = (a.0, positions-Below n es a.1)

  order_by-Below :
      (cmp : ℕ × Number → ℕ × Number → Ordering) (legs : Legs) (xs : List ℕ)
      → Below (length xs) (order_by f cmp legs xs)
  order_by-Below cmp legs xs = positions-Below (length xs) (sort_by cmp (marginals f 0 legs xs)) (
      sort_by-All (λ e. e.0 < length xs) cmp (marginals f 0 legs xs)
        (marginals-Below 0 (length xs) legs xs (omega arith)))

  pub without_excess-Within :
      (legs : Legs) (xs : List ℕ) (total_in : ℕ)
      → Within (length xs) (sum xs) (without_excess f legs xs total_in)
  unfolding without_excess
  without_excess-Within legs xs total_in = elim (Bool-cases (ltb total_in (sum_u128 xs))) [
    | inl e ↦
        rw (without_excess, e)
          (remove_excess-Within (order_by f (least_first f) legs xs) xs (sum_u128 xs - total_in)
            (order_by-Below (least_first f) legs xs))
    | inr e ↦ rw (without_excess, e) (refl, omega arith)
  ]

  pub with_remaining-Within :
      (legs : Legs) (xs : List ℕ) (total_in : ℕ)
      → length legs ≡ length xs
      → sum xs ≤ u128_max
      → total_in ≤ u128_max
      → Within (length xs) u128_max (with_remaining f legs xs total_in)
  unfolding with_remaining
  with_remaining-Within legs xs total_in l h k = elim (Bool-cases (ltb (sum_u128 xs) total_in)) [
    | inl e ↦
        let order = order_by f (greatest_first f) legs xs in
        let short : sum_u128 xs < total_in = ground arith in
        rw (with_remaining, e)
          (widen (add_remaining f legs order xs (total_in - sum_u128 xs)) refl
            (omega (arith, sum_u128-sum xs h, short))
            (add_remaining-Within legs order xs (total_in - sum_u128 xs) l
              (order_by-Below (greatest_first f) legs xs)))
    | inr e ↦ rw (with_remaining, e) (refl, h)
  ]
