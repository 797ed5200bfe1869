-- ===== src/Router/Sums.antt =====
-- Sums and counts over lists of amounts.
use Prim.Native.Nat.{Ordering}
use dex_arbitrage.Prelude.{
  ℕ, zero, suc, ◌+◌, ◌≤◌, ◌<◌, ◌≡◌, refl, arith, ◌==◌, List, [], ◌∷◌, ◌++◌, if◌then◌else◌, set,
  replicate, length, Bool-cases, inl, inr,
}
use dex_arbitrage.Prelude.Sorting.{is_gt, insert_by, sort_by}
use dex_arbitrage.Router.Split.{at}

abbrev pub sum : List ℕ → ℕ
sum [] = 0
sum (x ∷ xs) = x + sum xs

-- The entries above 0.
abbrev pub used : List ℕ → ℕ
used [] = 0
used (x ∷ xs) = (if x == 0 then 0 else 1) + used xs

pub sum-set : (xs : List ℕ) (i v : ℕ) → i < length xs → sum (set xs i v) + at xs i ≡ sum xs + v
sum-set [] i v h = absurd (omega arith)
sum-set (x ∷ xs) zero v h = omega arith
sum-set (x ∷ xs) (suc i) v h = omega (arith, sum-set xs i v (omega arith))

pub used-set :
    (xs : List ℕ) (i v : ℕ)
    → i < length xs
    → 0 < v
    → used (set xs i v) ≡ (if at xs i == 0 then used xs + 1 else used xs)
used-set [] i v h p = absurd (omega arith)
used-set (x ∷ xs) zero v h p = ground arith
used-set (x ∷ xs) (suc i) v h p = ground (arith, used-set xs i v (omega arith) p)

pub at-set :
    (xs : List ℕ) (i j v : ℕ) → i < length xs → at (set xs i v) j ≡ (if i == j then v else at xs j)
at-set [] i j v h = absurd (omega arith)
at-set (x ∷ xs) zero zero v h = refl
at-set (x ∷ xs) zero (suc j) v h = ground arith
at-set (x ∷ xs) (suc i) zero v h = ground arith
at-set (x ∷ xs) (suc i) (suc j) v h = ground (arith, at-set xs i j v (omega arith))

pub at-le_sum : (xs : List ℕ) (i : ℕ) → at xs i ≤ sum xs
at-le_sum [] i = omega arith
at-le_sum (x ∷ xs) zero = omega arith
at-le_sum (x ∷ xs) (suc i) = omega (arith, at-le_sum xs i)

pub sum-replicate : (n : ℕ) → sum (replicate n 0) ≡ 0
sum-replicate zero = refl
sum-replicate (suc n) = omega (arith, sum-replicate n)

pub used-replicate : (n : ℕ) → used (replicate n 0) ≡ 0
used-replicate zero = refl
used-replicate (suc n) = omega (arith, used-replicate n)

pub at-replicate : (n i : ℕ) → at (replicate n 0) i ≡ 0
at-replicate zero i = refl
at-replicate (suc n) zero = refl
at-replicate (suc n) (suc i) = at-replicate n i

-- The sum of a field, in any order of the entries.
module _ {A : Type 0} (f : A → ℕ) where
  abbrev pub sum_of : List A → ℕ
  sum_of [] = 0
  sum_of (x ∷ xs) = f x + sum_of xs

  pub sum_of-snoc : (xs : List A) (x : A) → sum_of (xs ++ x ∷ []) ≡ sum_of xs + f x
  sum_of-snoc [] x = omega arith
  sum_of-snoc (y ∷ xs) x = omega (arith, sum_of-snoc xs x)

  sum_of-insert_by :
      (cmp : A → A → Ordering) (x : A) (xs : List A) → sum_of (insert_by cmp x xs) ≡ f x + sum_of xs
  unfolding insert_by
  sum_of-insert_by cmp x [] = refl
  sum_of-insert_by cmp x (y ∷ ys) = elim (Bool-cases (is_gt (cmp x y))) [
    | inl e ↦ rw (insert_by, e) (omega (arith, sum_of-insert_by cmp x ys))
    | inr e ↦ rw (insert_by, e) refl
  ]

  pub sum_of-sort_by : (cmp : A → A → Ordering) (xs : List A) → sum_of (sort_by cmp xs) ≡ sum_of xs
  unfolding sort_by
  sum_of-sort_by cmp [] = refl
  sum_of-sort_by cmp (x ∷ xs) =
      omega (arith, sum_of-insert_by cmp x (sort_by cmp xs), sum_of-sort_by cmp xs)
