-- ===== src/Detector/Kept.antt =====
-- src/detector/path_finder.rs: what `finalize_candidates_with_tuning` keeps of the candidates.
use Prim.Native.String.{String}
use dex_arbitrage.Prelude.{
  ℕ, suc, ◌-◌, ◌≤◌, ◌≡◌, refl, arith, Bool, false, ◌&&◌, ◌||◌, List, [], ◌∷◌, ◌++◌, map, All,
  length, length-append, max, leb, ltb, Bool-cases, ◌⊎◌, inl, inr, not,
}
use dex_arbitrage.Prelude.Sorting.{sort_by, sort_by-All}
use dex_arbitrage.Graph.Rows.{All-snoc}
use dex_arbitrage.Detector.Candidate.{
  CandidatePath, has_text, canonical_token_cycle_key, canonical_anchor_pool_cycle_key,
}
use dex_arbitrage.Detector.Select.{
  lookup_text, count_of, candidate_ordering, Selection, anchor_key_of, consider, select, fill,
  finalize_candidates_with_tuning,
}
use dex_arbitrage.Detector.Chosen.{occurrences, Counted, Counted-snoc, Once, Once-cons, Once-snoc}

module _ (show : ℕ → String) (P : CandidatePath → Type 0) where
  abbrev pool_key : CandidatePath → String
  pool_key = canonical_anchor_pool_cycle_key show

  -- What the first loop keeps true, of a property that each candidate has.
  record Sel (per_cycle per_anchor : ℕ) (s : Selection) : Type 0 where
    members : All P s.selected
    once : Once pool_key s.pool_cycles s.selected
    per_token_cycle :
        Counted (canonical_token_cycle_key show) per_cycle s.token_cycle_counts s.selected
    per_anchor_cycle : Counted (anchor_key_of show) per_anchor s.anchor_cycle_counts s.selected

  record Considered (per_cycle per_anchor : ℕ) (s t : Selection) : Type 0 where
    holds : Sel per_cycle per_anchor t
    grows : (length t.selected ≡ length s.selected) ⊎ (length t.selected ≡ suc (length s.selected))

  module _ (max_candidates per_cycle per_anchor : ℕ) where
    consider-Considered :
        (c : CandidatePath) (s : Selection)
        → P c
        → Sel per_cycle per_anchor s
        → Considered per_cycle per_anchor s (consider show max_candidates per_cycle per_anchor c s)
    unfolding consider
    consider-Considered c s p i = elim (Bool-cases (has_text s.pool_cycles (pool_key c))) [
      | inl e ↦ rw (consider, e) (record { holds = i; grows = inl refl })
      | inr e ↦
          elim (Bool-cases
            (leb per_cycle (count_of (canonical_token_cycle_key show c) s.token_cycle_counts))) [
              | inl k ↦ rw (consider, e, k) skipped
              | inr k ↦
                  elim (Bool-cases
                    (leb per_anchor (count_of (anchor_key_of show c) s.anchor_cycle_counts))) [
                      | inl l ↦ rw (consider, e, k, l) skipped
                      | inr l ↦
                          rw (consider, e, k, l)
                            (record {
                              holds = record {
                                members = All-snoc P s.selected c i.members p;
                                once = Once-snoc pool_key s.pool_cycles s.selected c i.once e;
                                per_token_cycle =
                                    Counted-snoc (canonical_token_cycle_key show) per_cycle
                                      s.token_cycle_counts s.selected c i.per_token_cycle
                                      (ground arith);
                                per_anchor_cycle =
                                    Counted-snoc (anchor_key_of show) per_anchor
                                      s.anchor_cycle_counts s.selected c i.per_anchor_cycle
                                      (ground arith);
                              };
                              grows = inr (omega (arith, length-append s.selected (c ∷ [])));
                            })
                    ]
            ]
    ]
      where
        skipped :
            Considered per_cycle per_anchor s
              (record s { pool_cycles = pool_key c ∷ s.pool_cycles })
        skipped = record {
          holds = record {
            members = i.members;
            once = Once-cons pool_key s.pool_cycles (pool_key c) s.selected i.once;
            per_token_cycle = i.per_token_cycle;
            per_anchor_cycle = i.per_anchor_cycle;
          };
          grows = inl refl;
        }

    -- What is chosen in the end.
    record Ends (selected : List CandidatePath) : Type 0 where
      members : All P selected
      at_most : length selected ≤ max 1 max_candidates
      once : (k : String) → occurrences pool_key k selected ≤ 1
      per_token_cycle :
          (k : String) → occurrences (canonical_token_cycle_key show) k selected ≤ per_cycle
      per_anchor_cycle : (k : String) → occurrences (anchor_key_of show) k selected ≤ per_anchor

    Sel-Ends :
        (s : Selection)
        → Sel per_cycle per_anchor s
        → length s.selected ≤ max 1 max_candidates
        → Ends s.selected
    Sel-Ends s i h = record {
      members = i.members;
      at_most = h;
      once = i.once.single;
      per_token_cycle = i.per_token_cycle.bounded;
      per_anchor_cycle = i.per_anchor_cycle.bounded;
    }

    select-Ends :
        (cs : List CandidatePath) (s : Selection)
        → All P cs
        → Sel per_cycle per_anchor s
        → length s.selected ≤ max_candidates - 1
        → Ends (select show max_candidates per_cycle per_anchor cs s)
    unfolding select
    select-Ends [] s a i h = Sel-Ends s i (ground arith)
    select-Ends (c ∷ cs) s a i h =
        let t = consider show max_candidates per_cycle per_anchor c s in
        let next = consider-Considered c s a.0 i in
        elim (Bool-cases
          (ltb (length s.selected) (length t.selected) && leb max_candidates (length t.selected))) [
            | inl e ↦ rw (select, e) (Sel-Ends t next.holds (ground (arith, next.grows)))
            | inr e ↦ rw (select, e) (select-Ends cs t a.1 next.holds (ground (arith, next.grows)))
          ]

  -- The second loop.
  record Filled (max_candidates : ℕ) (selected : List CandidatePath) : Type 0 where
    members : All P selected
    at_most : length selected ≤ max 1 max_candidates
    once : (k : String) → occurrences pool_key k selected ≤ 1

  fill-Filled :
      (max_candidates : ℕ) (cs : List CandidatePath) (keys : List String)
      (selected : List CandidatePath)
      → All P cs
      → All P selected
      → Once pool_key keys selected
      → length selected ≤ max 1 max_candidates
      → Filled max_candidates (fill show max_candidates cs keys selected)
  unfolding fill
  fill-Filled max_candidates [] keys selected a b o h = record {
    members = b;
    at_most = h;
    once = o.single;
  }
  fill-Filled max_candidates (c ∷ cs) keys selected a b o h =
      elim (Bool-cases (leb max_candidates (length selected))) [
        | inl e ↦ rw (fill, e) (record { members = b; at_most = h; once = o.single })
        | inr e ↦ elim (Bool-cases (has_text keys (pool_key c))) [
          | inl k ↦ rw (fill, e, k) (fill-Filled max_candidates cs keys selected a.1 b o h)
          | inr k ↦
              rw (fill, e, k)
                (fill-Filled max_candidates cs (pool_key c ∷ keys) (selected ++ c ∷ []) a.1
                  (All-snoc P selected c b a.0) (Once-snoc pool_key keys selected c o k)
                  (ground (arith, length-append selected (c ∷ []))))
        ]
      ]

  -- The keys of the selected ones are the set that the second loop starts from.
  keys-absent :
      (cs : List CandidatePath) (k : String)
      → has_text (map pool_key cs) k ≡ false
      → occurrences pool_key k cs ≡ 0
  unfolding has_text
  keys-absent [] k h = refl
  keys-absent (c ∷ cs) k h = ground (arith, keys-absent cs k)

  pub record Chosen (max_candidates per_cycle per_anchor : ℕ) (fill_rotated : Bool)
      (result : List CandidatePath) : Type 0 where
    pub members : All P result
    pub at_most : length result ≤ max 1 max_candidates
    pub once : (k : String) → occurrences (canonical_anchor_pool_cycle_key show) k result ≤ 1
    pub per_token_cycle :
        fill_rotated ≡ false
        → (k : String) → occurrences (canonical_token_cycle_key show) k result ≤ max per_cycle 1
    pub per_anchor_cycle :
        fill_rotated ≡ false
        → (k : String) → occurrences (anchor_key_of show) k result ≤ max per_anchor 1

  blank-Sel :
      (per_cycle per_anchor : ℕ)
      → Sel per_cycle per_anchor (record {
        selected = [];
        pool_cycles = [];
        token_cycle_counts = [];
        anchor_cycle_counts = [];
      })
  unfolding has_text lookup_text
  blank-Sel per_cycle per_anchor = record {
    members = tt;
    once = record { absent = λ k h. refl; single = λ k. omega arith };
    per_token_cycle = record { exact = λ k. refl; bounded = λ k. omega arith };
    per_anchor_cycle = record { exact = λ k. refl; bounded = λ k. omega arith };
  }

  -- What holds of all candidates holds of those that are kept; there are at most `max_candidates` of
  -- them, or one if that is 0; no two have the same start and cycle of pools; and where the rotated
  -- ones are not filled in, a cycle of tokens, and such a cycle from one start, is kept no more often
  -- than its bound, which counts as 1 if it is 0.
  pub finalize_candidates_with_tuning-Chosen :
      (candidates : List CandidatePath) (max_candidates per_cycle per_anchor : ℕ)
      (fill_rotated : Bool)
      → All P candidates
      → Chosen max_candidates per_cycle per_anchor fill_rotated (
          finalize_candidates_with_tuning show candidates max_candidates per_cycle per_anchor
            fill_rotated)
  unfolding finalize_candidates_with_tuning lookup_text
  finalize_candidates_with_tuning-Chosen candidates max_candidates per_cycle per_anchor fill_rotated
        a =
      let sorted = sort_by candidate_ordering candidates in
      let a' = sort_by-All P candidate_ordering candidates a in
      let blank : Selection = record {
        selected = [];
        pool_cycles = [];
        token_cycle_counts = [];
        anchor_cycle_counts = [];
      } in
      let selected = select show max_candidates (max per_cycle 1) (max per_anchor 1) sorted blank in
      let first =
        select-Ends max_candidates (max per_cycle 1) (max per_anchor 1) sorted blank a'
          (blank-Sel (max per_cycle 1) (max per_anchor 1)) (omega arith) in
      elim (Bool-cases (not fill_rotated || leb max_candidates (length selected))) [
        | inl e ↦
            rw (finalize_candidates_with_tuning, e)
              (record {
                members = first.members;
                at_most = first.at_most;
                once = first.once;
                per_token_cycle = λ f. first.per_token_cycle;
                per_anchor_cycle = λ f. first.per_anchor_cycle;
              })
        | inr e ↦
            let filled =
              fill-Filled max_candidates sorted (map pool_key selected) selected a' first.members
                (record { absent = keys-absent selected; single = first.once }) first.at_most in
            rw (finalize_candidates_with_tuning, e)
              (record {
                members = filled.members;
                at_most = filled.at_most;
                once = filled.once;
                per_token_cycle = λ f. absurd (ground arith);
                per_anchor_cycle = λ f. absurd (ground arith);
              })
      ]
