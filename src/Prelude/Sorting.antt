-- ===== src/Prelude/Sorting.antt =====
-- `sort_by` of a slice, which is stable, as insertion from the right, and comparisons chained by
-- `then_with`.
use Prim.Native.Nat.{ℕ, suc, ◌≤◌, compare, Ordering}
use mathlib.Core.Path.{◌≡◌, refl, ap, ◌∙◌}
use mathlib.Core.Logic.{inl, inr}
use mathlib.Core.Bool.{Bool, true, false}
use mathlib.Core.List.{List, [], ◌∷◌, ◌++◌}
use native.Mathlib.Omega.{arith}
use dex_arbitrage.Prelude.Tests.{Bool-cases, if◌then◌else◌}
use dex_arbitrage.Prelude.Lists.{length, take, All}
use dex_arbitrage.Prelude.Int.{ℤ, pos_part, neg_part}
use Prim.Native.Nat.{◌+◌, zero}

abbrev pub compare_ℤ : ℤ → ℤ → Ordering
compare_ℤ a b = compare (pos_part a + neg_part b) (pos_part b + neg_part a)

-- `first.then_with(second)`
abbrev pub then_with : Ordering → Ordering → Ordering
then_with Ordering.eq second = second
then_with Ordering.lt second = Ordering.lt
then_with Ordering.gt second = Ordering.gt

abbrev pub is_gt : Ordering → Bool
is_gt Ordering.gt = true
is_gt Ordering.lt = false
is_gt Ordering.eq = false

abbrev pub is_lt : Ordering → Bool
is_lt Ordering.lt = true
is_lt Ordering.gt = false
is_lt Ordering.eq = false

module _ {ℓ} {A : Type ℓ} where
  unfoldable pub insert_by : (A → A → Ordering) → A → List A → List A
  insert_by cmp x [] = x ∷ []
  insert_by cmp x (y ∷ ys) = if is_gt (cmp x y) then y ∷ insert_by cmp x ys else x ∷ y ∷ ys

  unfoldable pub sort_by : (A → A → Ordering) → List A → List A
  sort_by cmp [] = []
  sort_by cmp (x ∷ xs) = insert_by cmp x (sort_by cmp xs)

  -- What holds of the entries holds of them in any order.
  insert_by-All {κ} :
      (P : A → Type κ) (cmp : A → A → Ordering) (x : A) (xs : List A)
      → P x
      → All P xs
      → All P (insert_by cmp x xs)
  unfolding insert_by
  insert_by-All P cmp x [] p a = (p, tt)
  insert_by-All P cmp x (y ∷ ys) p a = elim (Bool-cases (is_gt (cmp x y))) [
    | inl e ↦ rw (insert_by, e) (a.0, insert_by-All P cmp x ys p a.1)
    | inr e ↦ rw (insert_by, e) (p, a)
  ]

  pub sort_by-All {κ} :
      (P : A → Type κ) (cmp : A → A → Ordering) (xs : List A) → All P xs → All P (sort_by cmp xs)
  unfolding sort_by
  sort_by-All P cmp [] a = tt
  sort_by-All P cmp (x ∷ xs) a =
      insert_by-All P cmp x (sort_by cmp xs) a.0 (sort_by-All P cmp xs a.1)

  length-insert_by :
      (cmp : A → A → Ordering) (x : A) (xs : List A) → length (insert_by cmp x xs) ≡ suc (length xs)
  unfolding insert_by
  length-insert_by cmp x [] = refl
  length-insert_by cmp x (y ∷ ys) = elim (Bool-cases (is_gt (cmp x y))) [
    | inl e ↦ rw (insert_by, e) (ap suc (length-insert_by cmp x ys))
    | inr e ↦ rw (insert_by, e) refl
  ]

  pub length-sort_by : (cmp : A → A → Ordering) (xs : List A) → length (sort_by cmp xs) ≡ length xs
  unfolding sort_by
  length-sort_by cmp [] = refl
  length-sort_by cmp (x ∷ xs) =
      length-insert_by cmp x (sort_by cmp xs) ∙ ap suc (length-sort_by cmp xs)

  pub take-All {κ} : (P : A → Type κ) (n : ℕ) (xs : List A) → All P xs → All P (take n xs)
  take-All P zero xs a = tt
  take-All P (suc n) [] a = tt
  take-All P (suc n) (x ∷ xs) a = (a.0, take-All P n xs a.1)

  pub length-take-le : (n : ℕ) (xs : List A) → length (take n xs) ≤ n
  length-take-le zero xs = omega arith
  length-take-le (suc n) [] = omega arith
  length-take-le (suc n) (x ∷ xs) = omega (arith, length-take-le n xs)

  pub append-All {κ} : (P : A → Type κ) (xs ys : List A) → All P xs → All P ys → All P (xs ++ ys)
  append-All P [] ys a b = b
  append-All P (x ∷ xs) ys a b = (a.0, append-All P xs ys a.1 b)

  -- No entry is after a later one.
  abbrev pub Ordered : (A → A → Ordering) → List A → Type 0
  Ordered cmp [] = Unit
  Ordered cmp (x ∷ xs) = All (λ y. is_gt (cmp x y) ≡ false) xs × Ordered cmp xs

  -- A comparison that is a total preorder.
  pub record Total (cmp : A → A → Ordering) : Type ℓ where
    pub flip : (x y : A) → is_gt (cmp x y) ≡ true → is_gt (cmp y x) ≡ false
    pub trans :
        (x y z : A) → is_gt (cmp x y) ≡ false → is_gt (cmp y z) ≡ false → is_gt (cmp x z) ≡ false

  weaken :
      (cmp : A → A → Ordering) (t : Total cmp) (x y : A) (ys : List A)
      → is_gt (cmp x y) ≡ false
      → All (λ z. is_gt (cmp y z) ≡ false) ys
      → All (λ z. is_gt (cmp x z) ≡ false) ys
  weaken cmp t x y [] h a = tt
  weaken cmp t x y (z ∷ zs) h a = (t.trans x y z h a.0, weaken cmp t x y zs h a.1)

  insert_by-Ordered :
      (cmp : A → A → Ordering) (t : Total cmp) (x : A) (xs : List A)
      → Ordered cmp xs
      → Ordered cmp (insert_by cmp x xs)
  unfolding insert_by
  insert_by-Ordered cmp t x [] o = (tt, tt)
  insert_by-Ordered cmp t x (y ∷ ys) o = elim (Bool-cases (is_gt (cmp x y))) [
    | inl e ↦
        rw (insert_by, e)
          (
            insert_by-All (λ z. is_gt (cmp y z) ≡ false) cmp x ys (t.flip x y e) o.0,
            insert_by-Ordered cmp t x ys o.1,
          )
    | inr e ↦ rw (insert_by, e) ((e, weaken cmp t x y ys e o.0), o)
  ]

  pub sort_by-Ordered :
      (cmp : A → A → Ordering) (t : Total cmp) (xs : List A) → Ordered cmp (sort_by cmp xs)
  unfolding sort_by
  sort_by-Ordered cmp t [] = tt
  sort_by-Ordered cmp t (x ∷ xs) =
      insert_by-Ordered cmp t x (sort_by cmp xs) (sort_by-Ordered cmp t xs)

  take-All-gt :
      (cmp : A → A → Ordering) (x : A) (n : ℕ) (xs : List A)
      → All (λ y. is_gt (cmp x y) ≡ false) xs
      → All (λ y. is_gt (cmp x y) ≡ false) (take n xs)
  take-All-gt cmp x n xs a = take-All (λ y. is_gt (cmp x y) ≡ false) n xs a

  pub take-Ordered :
      (cmp : A → A → Ordering) (n : ℕ) (xs : List A) → Ordered cmp xs → Ordered cmp (take n xs)
  take-Ordered cmp zero xs o = tt
  take-Ordered cmp (suc n) [] o = tt
  take-Ordered cmp (suc n) (x ∷ xs) o = (take-All-gt cmp x n xs o.0, take-Ordered cmp n xs o.1)
