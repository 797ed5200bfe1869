-- ===== src/Detector/Gathering.antt =====
-- src/detector/path_finder.rs: what the loops of `find_candidates` keep of the candidates.
use Prim.Native.String.{String}
use dex_arbitrage.Prelude.{
  ℕ, Bool, true, false, List, [], ◌∷◌, ◌++◌, All, length, ltb, max, Bool-cases, inl, inr,
  if◌then◌else◌,
}
use dex_arbitrage.Prelude.Sorting.{sort_by-All, append-All}
use dex_arbitrage.Graph.Rows.{All-snoc}
use dex_arbitrage.Detector.Candidate.{CandidatePath, same_text, candidate_token_cycle_key}
use dex_arbitrage.Detector.Select.{
  TextMap, lookup_text, insert_text, variants_of, candidate_ordering, beats_last, replace_last,
  insert_token_path_variant, flatten_candidate_map,
}
use dex_arbitrage.Detector.Kept.{Chosen, finalize_candidates_with_tuning-Chosen}
use dex_arbitrage.Detector.Cycle.{Setting}
use dex_arbitrage.Detector.Find.{
  Gathered, Step, go, answer, failed, each, finalize_candidates, Refresh, gather,
}

-- What a step leaves, which is not a panic.
abbrev pub Leaves : (Gathered → Type 0) → (List CandidatePath → Type 0) → Step → Type 0
Leaves Inv Ans (go st) = Inv st
Leaves Inv Ans (answer cs) = Ans cs
Leaves Inv Ans failed = ⊥

module _ (Inv : Gathered → Type 0) (Ans : List CandidatePath → Type 0) where
  pub each-Leaves :
      {A : Type 0} (Q : A → Type 0) (body : A → Gathered → Step) (xs : List A) (st : Gathered)
      → ((x : A) (st : Gathered) → Q x → Inv st → Leaves Inv Ans (body x st))
      → All Q xs
      → Inv st
      → Leaves Inv Ans (each body xs st)
  unfolding each
  each-Leaves Q body [] st f a i = i
  each-Leaves Q body (x ∷ xs) st f a i =
      after (λ next h. each-Leaves Q body xs next f a.1 h) (body x st) (f x st a.0 i)
    where
      after :
          ((next : Gathered) → Inv next → Leaves Inv Ans (each body xs next))
          → (step : Step) → Leaves Inv Ans step
          → Leaves Inv Ans
              (elim step [ go next ↦ each body xs next | answer cs ↦ answer cs | failed ↦ failed ])
      after more (go next) h = more next h
      after more (answer cs) h = h
      after more failed h = h

module _ (P : CandidatePath → Type 0) where
  abbrev AllText : TextMap (List CandidatePath) → Type 0
  AllText m = All (λ entry. All P entry.1) m

  variants_of-All :
      (key : String) (m : TextMap (List CandidatePath)) → AllText m → All P (variants_of key m)
  unfolding lookup_text
  variants_of-All key [] a = tt
  variants_of-All key ((first, old) ∷ rest) a = elim (Bool-cases (same_text first key)) [
    | inl e ↦ rw (variants_of, lookup_text, e) a.0
    | inr e ↦ rw (variants_of, lookup_text, e) (variants_of-All key rest a.1)
  ]

  insert_text-All :
      (key : String) (cs : List CandidatePath) (m : TextMap (List CandidatePath))
      → All P cs
      → AllText m
      → AllText (insert_text key cs m)
  unfolding insert_text
  insert_text-All key cs [] p a = (p, tt)
  insert_text-All key cs ((first, old) ∷ rest) p a = elim (Bool-cases (same_text first key)) [
    | inl e ↦ rw (insert_text, e) (p, a.1)
    | inr e ↦ rw (insert_text, e) (a.0, insert_text-All key cs rest p a.1)
  ]

  replace_last-All :
      (c : CandidatePath) (cs : List CandidatePath) → P c → All P cs → All P (replace_last c cs)
  unfolding replace_last
  replace_last-All c [] p a = tt
  replace_last-All c (x ∷ []) p a = (p, tt)
  replace_last-All c (x ∷ y ∷ rest) p a = (a.0, replace_last-All c (y ∷ rest) p a.1)

  insert_token_path_variant-All :
      (m : TextMap (List CandidatePath)) (key : String) (c : CandidatePath) (max_variants : ℕ)
      → P c
      → AllText m
      → AllText (insert_token_path_variant m key c max_variants).0
  unfolding insert_token_path_variant
  insert_token_path_variant-All m key c max_variants p a =
      let old = variants_of-All key m a in
      elim (Bool-cases (ltb (length (variants_of key m)) (max max_variants 1))) [
        | inl e ↦
            rw (insert_token_path_variant, e)
              (insert_text-All key _ m
                (sort_by-All P candidate_ordering _ (All-snoc P (variants_of key m) c old p)) a)
        | inr e ↦ elim (Bool-cases (beats_last c (variants_of key m))) [
          | inl k ↦
              rw (insert_token_path_variant, e, k)
                (insert_text-All key _ m
                  (sort_by-All P candidate_ordering _
                    (replace_last-All c (variants_of key m) p old))
                  a)
          | inr k ↦ rw (insert_token_path_variant, e, k) a
        ]
      ]

  flatten_candidate_map-All :
      (m : TextMap (List CandidatePath)) → AllText m → All P (flatten_candidate_map m)
  unfolding flatten_candidate_map
  flatten_candidate_map-All [] a = tt
  flatten_candidate_map-All ((key, variants) ∷ rest) a =
      append-All P variants (flatten_candidate_map rest) a.0 (flatten_candidate_map-All rest a.1)

  pub record Holding (st : Gathered) : Type 0 where
    pub listed : All P st.candidates
    pub mapped : All (λ entry. All P entry.1) st.token_path_candidates

  -- The answer of the search, of a property that each candidate has.
  abbrev pub Answers : Setting → List CandidatePath → Type 0
  Answers s cs =
      Chosen s.show P s.finder.tuning.max_candidates_per_refresh
        s.finder.tuning.canonical_variants_per_cycle s.finder.tuning.anchor_variants_per_cycle
        s.env.fill_rotated_candidates cs

  pub finalize_candidates-Answers :
      (s : Setting) (cs : List CandidatePath) → All P cs → Answers s (finalize_candidates s cs)
  unfolding finalize_candidates
  finalize_candidates-Answers s cs a =
      finalize_candidates_with_tuning-Chosen s.show P cs s.finder.tuning.max_candidates_per_refresh
        s.finder.tuning.canonical_variants_per_cycle s.finder.tuning.anchor_variants_per_cycle
        s.env.fill_rotated_candidates a

  pub finalize_gathered-Answers :
      (s : Setting) (st : Gathered)
      → Holding st
      → Answers s (
          finalize_candidates s (
            if s.finder.tuning.dedup_token_paths
            then flatten_candidate_map st.token_path_candidates
            else st.candidates))
  finalize_gathered-Answers s st h =
      finalize_candidates-Answers s _ (either s.finder.tuning.dedup_token_paths)
    where
      either :
          (b : Bool)
          → All P (if b then flatten_candidate_map st.token_path_candidates else st.candidates)
      either true = flatten_candidate_map-All st.token_path_candidates h.mapped
      either false = h.listed

  pub gather-Leaves :
      (q : Refresh) (c : CandidatePath) (st : Gathered)
      → P c
      → Holding st
      → Leaves Holding (Answers q.setting) (gather q c st)
  unfolding gather
  gather-Leaves q c st p h = branches q.setting.finder.tuning.dedup_token_paths _ _ _ _ (
      insert_token_path_variant-All st.token_path_candidates
        (candidate_token_cycle_key q.setting.show c) c
        q.setting.finder.tuning.pool_variants_per_token_path p h.mapped)
    where
      branches :
          (dedup enough full : Bool) (count : ℕ) (m : TextMap (List CandidatePath))
          → AllText m
          → Leaves Holding (Answers q.setting) (
              if dedup
              then if enough
                then answer (finalize_candidates q.setting (flatten_candidate_map m))
                else go
                    (record st { token_path_candidates = m; token_path_candidate_count = count })
              else if full
              then answer (finalize_candidates q.setting (st.candidates ++ c ∷ []))
              else go (record st { candidates = st.candidates ++ c ∷ [] }))
      branches true true full count m a =
          finalize_candidates-Answers q.setting (flatten_candidate_map m)
            (flatten_candidate_map-All m a)
      branches true false full count m a = record { listed = h.listed; mapped = a }
      branches false enough true count m a =
          finalize_candidates-Answers q.setting (st.candidates ++ c ∷ [])
            (All-snoc P st.candidates c h.listed p)
      branches false enough false count m a = record {
        listed = All-snoc P st.candidates c h.listed p;
        mapped = h.mapped;
      }
