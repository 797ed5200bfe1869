-- ===== src/Graph/Rows.antt =====
-- src/graph/model.rs: pushing to the rows of a table, and to the lists of a map.
use dex_arbitrage.Prelude.{
  ℕ, zero, suc, ◌<◌, ◌≡◌, refl, arith, true, some, List, [], ◌∷◌, ◌++◌, ◌==◌, ◌&&◌, if◌then◌else◌,
  get_elem?, length, All, ap, Bool-cases, inl, inr, subst, Option-cases,
}
use dex_arbitrage.Prelude.Map.{Map, lookup, insert, lookup-insert}
use dex_arbitrage.Graph.{PairMap, lookup_pair, insert_pair, or_default}
use dex_arbitrage.Graph.Build.{push_at}

abbrev pub row_of {ℓ} : {A : Type ℓ} → List (List A) → ℕ → List A
row_of rows i = or_default (get_elem? rows i)

-- A push within bounds succeeds, lengthens one row and leaves the number of rows.
pub record Pushed {ℓ} {A : Type ℓ} (rows : List (List A)) (i : ℕ) (x : A) : Type ℓ where
  pub table : List (List A)
  pub result : push_at rows i x ≡ some table
  pub rows_same : length table ≡ length rows
  pub row : (j : ℕ) → row_of table j ≡ (if i == j then row_of rows j ++ x ∷ [] else row_of rows j)

pub push_at-Pushed {ℓ} :
    {A : Type ℓ} (rows : List (List A)) (i : ℕ) (x : A) → i < length rows → Pushed rows i x
unfolding push_at
push_at-Pushed [] i x h = absurd (omega arith)
push_at-Pushed (r ∷ rows) zero x h = record {
  table = (r ++ x ∷ []) ∷ rows;
  result = refl;
  rows_same = refl;
  row = here;
}
  where
    here :
        (j : ℕ)
        → row_of ((r ++ x ∷ []) ∷ rows) j
          ≡ (if zero == j then row_of (r ∷ rows) j ++ x ∷ [] else row_of (r ∷ rows) j)
    here zero = refl
    here (suc j) = ground arith
push_at-Pushed (r ∷ rows) (suc i) x h =
    let rest = push_at-Pushed rows i x (omega arith) in
    record {
      table = r ∷ rest.table;
      result = rw rest.result refl;
      rows_same = ap suc rest.rows_same;
      row = there rest;
    }
  where
    there :
        (rest : Pushed rows i x) (j : ℕ)
        → row_of (r ∷ rest.table) j
          ≡ (if suc i == j then row_of (r ∷ rows) j ++ x ∷ [] else row_of (r ∷ rows) j)
    there rest zero = ground arith
    there rest (suc j) = ground (arith, rest.row j)

pub All-snoc {ℓ κ} :
    {A : Type ℓ} (P : A → Type κ) (xs : List A) (x : A) → All P xs → P x → All P (xs ++ x ∷ [])
All-snoc P [] x a p = (p, tt)
All-snoc P (y ∷ xs) x a p = (a.0, All-snoc P xs x a.1 p)

-- What holds of all entries and of the pushed one holds of all entries after.
pub push_at-All {ℓ κ} :
    {A : Type ℓ} (P : A → Type κ) (rows : List (List A)) (i : ℕ) (x : A) (table : List (List A))
    → push_at rows i x ≡ some table
    → All (λ row. All P row) rows
    → P x
    → All (λ row. All P row) table
unfolding push_at
push_at-All P [] i x table h a p = absurd (ground arith)
push_at-All P (row ∷ rows) zero x table h a p =
    let e : (row ++ x ∷ []) ∷ rows ≡ table = ground arith in
    subst (All (λ r. All P r)) e (All-snoc P row x a.0 p, a.1)
push_at-All P (row ∷ rows) (suc i) x table h a p = elim (Option-cases (push_at rows i x)) [
  | inl e ↦ absurd (ground arith)
  | inr (pushed, e) ↦
      let k : row ∷ pushed ≡ table = ground arith in
      subst (All (λ r. All P r)) k (a.0, push_at-All P rows i x pushed e a.1 p)
]

pub get_elem?-append {ℓ} :
    {A : Type ℓ} (xs ys : List A) (i : ℕ) (x : A)
    → get_elem? xs i ≡ some x
    → get_elem? (xs ++ ys) i ≡ some x
get_elem?-append [] ys i x h = absurd (ground arith)
get_elem?-append (y ∷ xs) ys zero x h = h
get_elem?-append (y ∷ xs) ys (suc i) x h = get_elem?-append xs ys i x h

pub get_elem?-last {ℓ} :
    {A : Type ℓ} (xs : List A) (x : A) → get_elem? (xs ++ x ∷ []) (length xs) ≡ some x
get_elem?-last [] x = refl
get_elem?-last (y ∷ xs) x = get_elem?-last xs x

pub All-weaken {ℓ κ μ} :
    {A : Type ℓ} (P : A → Type κ) (Q : A → Type μ) (xs : List A)
    → ((x : A) → P x → Q x)
    → All P xs
    → All Q xs
All-weaken P Q [] f a = tt
All-weaken P Q (x ∷ xs) f a = (f x a.0, All-weaken P Q xs f a.1)

pub lookup_pair-insert_pair :
    {V : Type 0} (key other : ℕ × ℕ) (value : V) (entries : PairMap V)
    → lookup_pair other (insert_pair key value entries)
      ≡ (if key.0 == other.0 && key.1 == other.1 then some value else lookup_pair other entries)
unfolding lookup_pair insert_pair
lookup_pair-insert_pair key other value [] = refl
lookup_pair-insert_pair key other value ((first, old) ∷ rest) =
    ground (arith, lookup_pair-insert_pair key other value rest)

-- A push to the list at a key.
pub push_entry {ℓ} :
    {A : Type ℓ} (key other : ℕ) (x : A) (m : Map (List A))
    → or_default (lookup other (insert key (or_default (lookup key m) ++ x ∷ []) m)) ≡ (
        if key == other then or_default (lookup other m) ++ x ∷ [] else or_default (lookup other m))
push_entry key other x m =
    ground (arith, lookup-insert key other (or_default (lookup key m) ++ x ∷ []) m)

same_pair :
    {V : Type 0} (key other : ℕ × ℕ) (m : PairMap V)
    → (key.0 == other.0 && key.1 == other.1) ≡ true
    → lookup_pair key m ≡ lookup_pair other m
same_pair (a, b) (c, d) m h =
    let e : a ≡ c = ground arith in let f : b ≡ d = ground arith in rw (e, f) refl

pub push_pair_entry :
    {A : Type 0} (key other : ℕ × ℕ) (x : A) (m : PairMap (List A))
    → or_default (lookup_pair other (insert_pair key (or_default (lookup_pair key m) ++ x ∷ []) m))
      ≡ (if key.0 == other.0 && key.1 == other.1
          then or_default (lookup_pair other m) ++ x ∷ []
          else or_default (lookup_pair other m))
push_pair_entry key other x m = elim (Bool-cases (key.0 == other.0 && key.1 == other.1)) [
  | inl e ↦
      rw
        (
          lookup_pair-insert_pair key other (or_default (lookup_pair key m) ++ x ∷ []) m,
          e,
          same_pair key other m e,
        )
        refl
  | inr e ↦
      rw (lookup_pair-insert_pair key other (or_default (lookup_pair key m) ++ x ∷ []) m, e) refl
]
