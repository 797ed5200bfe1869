-- ===== src/Router/Greedy.antt =====
-- src/router/split_optimizer.rs: the jobs of a round of the loop that assigns the input.
use dex_arbitrage.Prelude.{
  ℕ, zero, suc, ◌+◌, ◌-◌, ◌≤◌, ◌<◌, ◌≡◌, refl, ap, subst, arith, ◌==◌, ltb, leb, ◌&&◌, some, List,
  [], ◌∷◌, get_elem?, length, All, saturating_add, u128_max, Bool-cases, Option-cases, inl, inr,
}
use dex_arbitrage.Types.{Edge, EdgeRef}
use dex_arbitrage.Graph.{GraphSnapshot, edge}
use dex_arbitrage.Router.Split.{
  SplitOptimizer, Quotes, Allocation, Job, Quoted, at, quote_jobs, quote_job, rank,
}
use dex_arbitrage.Router.Sums.{sum, used}

-- Answers arrive in some order: what holds of all jobs holds of those that arrive.
abbrev pub Reorders : Quotes → Type 1
Reorders q = (A : Type 0) (P : A → Type 0) (xs : List A) → All P xs → All P (q.arrive A xs)

-- The amount that a number of rounds can assign.
abbrev pub covered : (rounds slice : ℕ) → ℕ
covered zero slice = 0
covered (suc rounds) slice = slice + covered rounds slice

module _ (o : SplitOptimizer) (q : Quotes) (g : GraphSnapshot) (token_in token_out : ℕ)
    (refs : List EdgeRef) (total_in : ℕ) where
  -- An allocation in order: what is assigned adds up to at most the input, to a bounded number of
  -- pools, and each pool's share is within its capacity, if it has one.
  pub record Holds (a : Allocation) : Type 0 where
    pub size : length a.allocations ≡ length refs
    pub quoted_size : length a.quoted_outputs ≡ length refs
    pub adds : sum a.allocations ≡ a.assigned
    pub within : a.assigned ≤ total_in
    pub counted : used a.allocations ≡ a.active_allocations
    pub few : a.active_allocations ≤ o.max_parallel_pools
    pub fits :
        (i : ℕ) (r : EdgeRef) (e : Edge)
        → get_elem? refs i ≡ some r
        → edge g r ≡ some e
        → 0 < e.liquidity.safe_capacity_in
        → at a.allocations i ≤ e.liquidity.safe_capacity_in

  pub record JobHolds (a : Allocation) (slice : ℕ) (j : Job) : Type 0 where
    pub ref : EdgeRef
    pub found : get_elem? refs j.idx ≡ some ref
    pub larger : j.amount ≡ saturating_add u128_max (at a.allocations j.idx) slice
    pub room : at a.allocations j.idx ≡ 0 → a.active_allocations < o.max_parallel_pools
    pub capped :
        (e : Edge)
        → edge g ref ≡ some e
        → 0 < e.liquidity.safe_capacity_in
        → j.amount ≤ e.liquidity.safe_capacity_in

  pub quote_jobs-JobHolds :
      (a : Allocation) (slice idx : ℕ) (rest : List EdgeRef)
      → ((k : ℕ) (r : EdgeRef) → get_elem? rest k ≡ some r → get_elem? refs (idx + k) ≡ some r)
      → All (JobHolds a slice) (quote_jobs o q g token_in token_out a slice idx rest)
  unfolding quote_jobs
  quote_jobs-JobHolds a slice idx [] f = tt
  quote_jobs-JobHolds a slice idx (r ∷ rest) f =
      let next = quote_jobs-JobHolds a slice (suc idx) rest (λ k r' h.
        let e : idx + suc k ≡ suc idx + k = omega arith in
        subst (λ i. get_elem? refs i ≡ some r') e (f (suc k) r' h)) in
      let amount = saturating_add u128_max (at a.allocations idx) slice in
      let same : idx + 0 ≡ idx = omega arith in
      let here : get_elem? refs idx ≡ some r =
        subst (λ i. get_elem? refs i ≡ some r) same (f 0 r refl) in
      elim (Bool-cases
        (at a.allocations idx == 0 && leb o.max_parallel_pools a.active_allocations)) [
          | inl e ↦ rw (quote_jobs, e) next
          | inr e ↦ elim (Option-cases (edge g r)) [
            | inl k ↦ rw (quote_jobs, e, k) next
            | inr (x, k) ↦
                elim (Bool-cases
                  (ltb 0 x.liquidity.safe_capacity_in && ltb x.liquidity.safe_capacity_in amount)) [
                    | inl c ↦ rw (quote_jobs, e, k, c) next
                    | inr c ↦
                        rw (quote_jobs, e, k, c)
                          (
                            record {
                              ref = r;
                              found = here;
                              larger = refl;
                              room = λ z. ground arith;
                              capped = λ y h p.
                                  let s : x ≡ y = ground (arith, k, h) in
                                  let cap = ap (λ (z : Edge). z.liquidity.safe_capacity_in) s in
                                  ground arith;
                            },
                            next,
                          )
                  ]
          ]
        ]

  -- What was ranked came from the jobs.
  pub rank-All :
      (P : Job → Type 0) (a : Allocation) (jobs : List Job) (ranked : List Quoted)
      → All P jobs
      → rank o q g token_in token_out a jobs ≡ some ranked
      → All (λ w. P w.job) ranked
  unfolding rank
  rank-All P a [] ranked all h =
      let e : [] ≡ ranked = ground arith in subst (All (λ w. P w.job)) e tt
  rank-All P a (j ∷ jobs) ranked all h =
      elim (Option-cases (quote_job o q g token_in token_out j.pool_id j.amount)) [
        | inl e ↦ absurd (ground arith)
        | inr (total, e) ↦ elim (Option-cases (rank o q g token_in token_out a jobs)) [
          | inl k ↦ absurd (ground arith)
          | inr (rest, k) ↦
              let s : record {
                job = j;
                marginal = total - at a.quoted_outputs j.idx;
                total_quote = total;
              }
                    ∷ rest
                  ≡ ranked =
                ground arith in
              subst (All (λ w. P w.job)) s (all.0, rank-All P a jobs rest all.1 k)
        ]
      ]
