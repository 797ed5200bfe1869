-- ===== src/Router/Slices.antt =====
-- src/router/split_optimizer.rs: the loop that assigns the input slice by slice.
use Prim.Native.Nat.{compare}
use dex_arbitrage.Prelude.{
  ℕ, zero, suc, ◌+◌, ◌-◌, ◌/◌, ◌≤◌, ◌<◌, ◌≡◌, refl, ap, sym, subst, arith, ◌∙◌, ◌==◌, ltb, true,
  false, some, List, [], ◌∷◌, if◌then◌else◌, get_elem?, replicate, length, length-set,
  length-replicate, All, min, max, saturating_add, saturating_add_exact, u128_max, Bool-cases,
  Option-cases, ◌⊎◌, inl, inr,
}
use dex_arbitrage.Prelude.Sorting.{sort_by, sort_by-All}
use dex_arbitrage.Types.{Edge, EdgeRef}
use dex_arbitrage.Graph.{GraphSnapshot, edge}
use dex_arbitrage.Router.Split.{
  SplitOptimizer, Quotes, Allocation, Job, Quoted, Looped, ended, erred, starved, at, quote_jobs,
  rank, assign, greedy,
}
use dex_arbitrage.Router.Sums.{
  sum-set, used-set, at-set, at-le_sum, sum-replicate, used-replicate, at-replicate,
}
use dex_arbitrage.Router.Greedy.{Reorders, covered, Holds, JobHolds, quote_jobs-JobHolds, rank-All}

in_range : (refs : List EdgeRef) (i : ℕ) (r : EdgeRef) → get_elem? refs i ≡ some r → i < length refs
in_range [] i r h = absurd (ground arith)
in_range (x ∷ refs) zero r h = omega arith
in_range (x ∷ refs) (suc i) r h = omega (arith, in_range refs i r h)

list-cases {ℓ} :
    {A : Type ℓ} (xs : List A) → (xs ≡ []) ⊎ ((x : A) × (rest : List A) × (xs ≡ x ∷ rest))
list-cases [] = inl refl
list-cases (x ∷ xs) = inr (x, xs, refl)

module _ (o : SplitOptimizer) (q : Quotes) (g : GraphSnapshot) (token_in token_out : ℕ)
    (refs : List EdgeRef) (total_in : ℕ) (arrival : Reorders q)
    (bounded : total_in ≤ u128_max) where
  abbrev Fine : Allocation → Type 0
  Fine = Holds o q g token_in token_out refs total_in

  -- One slice more for the winner.
  assign-Fine :
      (a : Allocation) (slice : ℕ) (w : Quoted)
      → Fine a
      → 0 < slice
      → a.assigned + slice ≤ total_in
      → JobHolds o q g token_in token_out refs total_in a slice w.job
      → Fine (assign o q g token_in token_out a slice w)
  assign-Fine a slice w h positive room j =
      let i = w.job.idx in
      let old = at a.allocations i in
      let below : old ≤ a.assigned = omega (arith, at-le_sum a.allocations i, h.adds) in
      let range : i < length a.allocations = omega (arith, in_range refs i j.ref j.found, h.size) in
      let plain : saturating_add u128_max old slice ≡ old + slice =
        saturating_add_exact u128_max old slice (omega arith) in
      let grown : saturating_add u128_max a.assigned slice ≡ a.assigned + slice =
        saturating_add_exact u128_max a.assigned slice (omega arith) in
      record {
        size = length-set a.allocations i _ ∙ h.size;
        quoted_size = length-set a.quoted_outputs i _ ∙ h.quoted_size;
        adds = omega (
          arith,
          sum-set a.allocations i (saturating_add u128_max old slice) range,
          plain,
          grown,
          h.adds,
        );
        within = omega (arith, grown);
        counted =
            used-set a.allocations i (saturating_add u128_max old slice) range
              (omega (arith, plain))
            ∙ ap (λ n. if old == 0 then n + 1 else n) h.counted;
        few = active (Bool-cases (old == 0));
        fits = λ k r e found k_edge cap. fit k r e found k_edge cap (Bool-cases (i == k)) range;
      }
    where
      active :
          ((at a.allocations w.job.idx == 0) ≡ true) ⊎ ((at a.allocations w.job.idx == 0) ≡ false)
          → (if at a.allocations w.job.idx == 0
              then a.active_allocations + 1
              else a.active_allocations)
            ≤ o.max_parallel_pools
      active (inl e) = rw e (omega (arith, j.room (ground arith)))
      active (inr e) = rw e h.few

      fit :
          (k : ℕ) (r : EdgeRef) (e : Edge)
          → get_elem? refs k ≡ some r
          → edge g r ≡ some e
          → 0 < e.liquidity.safe_capacity_in
          → ((w.job.idx == k) ≡ true) ⊎ ((w.job.idx == k) ≡ false)
          → w.job.idx < length a.allocations
          → at (assign o q g token_in token_out a slice w).allocations k
            ≤ e.liquidity.safe_capacity_in
      fit k r e found k_edge cap (inl same) range =
          let index : w.job.idx ≡ k = ground arith in
          let ref : j.ref ≡ r =
            ground (arith, j.found, subst (λ x. get_elem? refs x ≡ some r) (sym index) found) in
          let capped = j.capped e (subst (λ x. edge g x ≡ some e) (sym ref) k_edge) cap in
          rw
            (
              at-set a.allocations w.job.idx k
                  (saturating_add u128_max (at a.allocations w.job.idx) slice) range,
              same,
            )
            (omega (arith, j.larger))
      fit k r e found k_edge cap (inr other) range =
          rw
            (
              at-set a.allocations w.job.idx k
                  (saturating_add u128_max (at a.allocations w.job.idx) slice) range,
              other,
            )
            (h.fits k r e found k_edge cap)

  -- How the loop may end.
  abbrev pub Ends : Looped → Type 0
  Ends (ended a) = Fine a
  Ends erred = Unit
  Ends starved = ⊥

  pub greedy-Ends :
      (fuel min_slice : ℕ) (a : Allocation)
      → Fine a
      → 0 < min_slice
      → total_in ≤ a.assigned + covered fuel min_slice
      → Ends (greedy o q g token_in token_out fuel total_in min_slice refs a)
  unfolding greedy
  greedy-Ends zero min_slice a h positive enough = elim (Bool-cases (ltb a.assigned total_in)) [
    | inl e ↦ absurd (ground arith)
    | inr e ↦ rw (greedy, e) h
  ]
  greedy-Ends (suc fuel) min_slice a h positive enough =
      let slice = min (total_in - a.assigned) min_slice in
      elim (Bool-cases (ltb a.assigned total_in)) [
        | inr e ↦ rw (greedy, e) h
        | inl e ↦
            let jobs = quote_jobs o q g token_in token_out a slice 0 refs in
            let all = arrival Job (JobHolds o q g token_in token_out refs total_in a slice) jobs (
              quote_jobs-JobHolds o q g token_in token_out refs total_in a slice 0 refs (λ k r f.
                let z : 0 + k ≡ k = omega arith in
                subst (λ i. get_elem? refs i ≡ some r) (sym z) f)) in
            elim (Option-cases (rank o q g token_in token_out a (q.arrive Job jobs))) [
              | inl k ↦ rw (greedy, e, k) tt
              | inr (ranked, k) ↦
                  let from_jobs =
                    rank-All o q g token_in token_out refs total_in
                      (JobHolds o q g token_in token_out refs total_in a slice) a
                      (q.arrive Job jobs) ranked all k in
                  let sorted =
                    sort_by-All
                      (λ (w : Quoted).
                        JobHolds o q g token_in token_out refs total_in a slice w.job)
                      (λ x y. compare y.marginal x.marginal) ranked from_jobs in
                  elim (list-cases
                    (sort_by (λ (x y : Quoted). compare y.marginal x.marginal) ranked)) [
                      | inl s ↦ rw (greedy, e, k, s) h
                      | inr (w, rest, s) ↦
                          let best =
                            subst
                              (All (λ (w : Quoted).
                                JobHolds o q g token_in token_out refs total_in a slice w.job))
                              s sorted in
                          elim (Bool-cases (w.marginal == 0)) [
                            | inl m ↦ rw (greedy, e, k, s, m) h
                            | inr m ↦
                                let next =
                                  assign-Fine a slice w h (ground arith) (ground arith) best.0 in
                                let grown : saturating_add u128_max a.assigned slice
                                    ≡ a.assigned + slice =
                                  saturating_add_exact u128_max a.assigned slice (ground arith) in
                                rw (greedy, e, k, s, m)
                                  (greedy-Ends fuel min_slice
                                    (assign o q g token_in token_out a slice w) next positive
                                    (ground (arith, grown)))
                          ]
                    ]
            ]
      ]

  -- Sixteen rounds are enough: a slice is an eighth of the input, rounded down, or 1.
  pub greedy-enough : Ends (
      greedy o q g token_in token_out 16 total_in (max (total_in / 8) 1) refs (record {
        allocations = replicate (length refs) 0;
        quoted_outputs = replicate (length refs) 0;
        assigned = 0;
        active_allocations = 0;
      }))
  greedy-enough =
      greedy-Ends 16 (max (total_in / 8) 1) _
        (record {
          size = length-replicate (length refs) 0;
          quoted_size = length-replicate (length refs) 0;
          adds = sum-replicate (length refs);
          within = omega arith;
          counted = used-replicate (length refs);
          few = omega arith;
          fits = λ i r e f k c. omega (arith, at-replicate (length refs) i);
        })
        (omega arith) (omega arith)
