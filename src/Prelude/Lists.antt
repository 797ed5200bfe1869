-- ===== src/Prelude/Lists.antt =====
-- Lists measured and indexed by native numbers, and the queue operations of `VecDeque`.
use Prim.Native.Nat.{ℕ, zero, suc, ◌+◌, ◌≤◌}
use mathlib.Core.Path.{◌≡◌, refl, ap, subst}
use mathlib.Core.Logic.{◌⊎◌, inl, inr}
use mathlib.Core.Bool.{Bool, true, false}
use mathlib.Core.List.{List, [], ◌∷◌, ◌++◌}
use mathlib.Core.Option.{Option, none, some}
use native.Mathlib.Omega.{arith}
use dex_arbitrage.Prelude.Tests.{if◌then◌else◌, Bool-cases}

module _ {ℓ} {A : Type ℓ} where
  abbrev pub length : List A → ℕ
  length [] = 0
  length (x ∷ xs) = suc (length xs)

  abbrev pub get_elem? : List A → ℕ → Option A
  get_elem? [] i = none
  get_elem? (x ∷ xs) zero = some x
  get_elem? (x ∷ xs) (suc i) = get_elem? xs i

  -- A write out of bounds changes nothing.
  abbrev pub set : List A → ℕ → A → List A
  set [] i v = []
  set (x ∷ xs) zero v = v ∷ xs
  set (x ∷ xs) (suc i) v = x ∷ set xs i v

  abbrev pub replicate : ℕ → A → List A
  replicate zero a = []
  replicate (suc n) a = a ∷ replicate n a

  abbrev pub take : ℕ → List A → List A
  take zero xs = []
  take (suc n) [] = []
  take (suc n) (x ∷ xs) = x ∷ take n xs

  -- A Boolean filter, and the first entry that passes a test.
  unfoldable pub keep : (A → Bool) → List A → List A
  keep p [] = []
  keep p (x ∷ xs) = if p x then x ∷ keep p xs else keep p xs

  unfoldable pub find : (A → Bool) → List A → Option A
  find p [] = none
  find p (x ∷ xs) = if p x then some x else find p xs

  abbrev pub All {κ} : (A → Type κ) → List A → Type κ
  All P [] = Unit
  All P (x ∷ xs) = P x × All P xs

  abbrev pub Any : (A → Type 0) → List A → Type 0
  Any P [] = ⊥
  Any P (x ∷ xs) = P x ⊎ Any P xs

  pub length-append : (xs ys : List A) → length (xs ++ ys) ≡ length xs + length ys
  length-append [] ys = omega arith
  length-append (x ∷ xs) ys = omega (arith, length-append xs ys)

module _ {ℓ} {A : Type ℓ} where
  pub length-set : (xs : List A) (i : ℕ) (v : A) → length (set xs i v) ≡ length xs
  length-set [] i v = refl
  length-set (x ∷ xs) zero v = refl
  length-set (x ∷ xs) (suc i) v = ap suc (length-set xs i v)

  pub length-replicate : (n : ℕ) (a : A) → length (replicate n a) ≡ n
  length-replicate zero a = refl
  length-replicate (suc n) a = ap suc (length-replicate n a)

  pub take-all : (n : ℕ) (xs : List A) → length xs ≤ n → take n xs ≡ xs
  take-all zero [] h = refl
  take-all zero (x ∷ xs) h = absurd (omega arith)
  take-all (suc n) [] h = refl
  take-all (suc n) (x ∷ xs) h = ap (◌∷◌ x) (take-all n xs (omega arith))

module _ {ℓ} {A : Type ℓ} (f : A → Bool) where
  pub keep_yes : (x : A) (xs : List A) → f x ≡ true → keep f (x ∷ xs) ≡ x ∷ keep f xs
  unfolding keep
  keep_yes x xs h = rw h

  pub keep_no : (x : A) (xs : List A) → f x ≡ false → keep f (x ∷ xs) ≡ keep f xs
  unfolding keep
  keep_no x xs h = rw h

  -- What is kept was there and passes the test.
  pub Any-keep :
      (P : A → Type 0) (xs : List A) → Any P (keep f xs) → Any (λ q. P q × (f q ≡ true)) xs
  unfolding keep
  Any-keep P [] h = absurd h
  Any-keep P (x ∷ xs) h = elim (Bool-cases (f x)) [
    | inl e ↦ front e (subst (Any P) (keep_yes x xs e) h) (Any-keep P xs)
    | inr e ↦ inr (Any-keep P xs (subst (Any P) (keep_no x xs e) h))
  ]
    where
      front :
          f x ≡ true
          → Any P (x ∷ keep f xs)
          → (Any P (keep f xs) → Any (λ q. P q × (f q ≡ true)) xs)
          → Any (λ q. P q × (f q ≡ true)) (x ∷ xs)
      front e (inl h) k = inl (h, e)
      front e (inr h) k = inr (k h)
