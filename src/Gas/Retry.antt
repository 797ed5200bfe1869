-- ===== src/Gas/Retry.antt =====
-- src/risk/gas_tracker.rs: an answer of the node, in the attempts that are allowed.
use dex_arbitrage.Prelude.{
  ℕ, zero, suc, ◌+◌, ◌≤◌, ◌<◌, ◌≡◌, subst, arith, leb, Option, none, some, Bool-cases, Option-cases,
  inl, inr,
}
use dex_arbitrage.Gas.{retry}

-- The first attempt that is answered, and no attempt being answered.
pub record First {A : Type 0} (answer : ℕ → Option A) (attempt left : ℕ) (x : A) : Type 0 where
  pub at : ℕ
  pub after : attempt ≤ at
  pub before : at < attempt + left
  pub answered : answer at ≡ some x
  pub earlier : (j : ℕ) → attempt ≤ j → j < at → answer j ≡ none

abbrev pub Never : {A : Type 0} → (ℕ → Option A) → (attempt left : ℕ) → Type 0
Never answer attempt left = (j : ℕ) → attempt ≤ j → j < attempt + left → answer j ≡ none

pub retry-First :
    {A : Type 0} (answer : ℕ → Option A) (attempt left : ℕ) (x : A)
    → retry answer attempt left ≡ some x
    → First answer attempt left x
unfolding retry
retry-First answer attempt zero x h = absurd (ground arith)
retry-First answer attempt (suc left) x h = elim (Option-cases (answer attempt)) [
  | inr (y, e) ↦
      let same : y ≡ x = ground arith in
      record {
        at = attempt;
        after = omega arith;
        before = omega arith;
        answered = subst (λ z. answer attempt ≡ some z) same e;
        earlier = λ j p q. absurd (omega arith);
      }
  | inl e ↦
      let rest = retry-First answer (suc attempt) left x (ground arith) in
      record {
        at = rest.at;
        after = omega (arith, rest.after);
        before = omega (arith, rest.before);
        answered = rest.answered;
        earlier = λ j p q. sooner rest e j p q;
      }
]
  where
    sooner :
        (rest : First answer (suc attempt) left x)
        → answer attempt ≡ none
        → (j : ℕ) → attempt ≤ j
        → j < rest.at
        → answer j ≡ none
    sooner rest e j p q = elim (Bool-cases (leb (suc attempt) j)) [
      | inl k ↦ rest.earlier j (ground arith) q
      | inr k ↦ let same : attempt ≡ j = ground arith in subst (λ i. answer i ≡ none) same e
    ]

pub retry-Never :
    {A : Type 0} (answer : ℕ → Option A) (attempt left : ℕ)
    → retry answer attempt left ≡ none
    → Never answer attempt left
unfolding retry
retry-Never answer attempt zero h j p q = absurd (omega arith)
retry-Never answer attempt (suc left) h j p q = elim (Option-cases (answer attempt)) [
  | inr (y, e) ↦ absurd (ground arith)
  | inl e ↦ elim (Bool-cases (leb (suc attempt) j)) [
    | inl k ↦ retry-Never answer (suc attempt) left (ground arith) j (ground arith) (omega arith)
    | inr k ↦ let same : attempt ≡ j = ground arith in subst (λ i. answer i ≡ none) same e
  ]
]
