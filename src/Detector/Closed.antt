-- ===== src/Detector/Closed.antt =====
-- src/detector/path_finder.rs: the candidate that a cycle becomes.
use Prim.Native.String.{String}
use dex_arbitrage.Prelude.{
  ℕ, ◌+◌, ◌-◌, ◌≤◌, ◌<◌, ◌≡◌, refl, ap, sym, subst, arith, ◌∙◌, Bool, true, ◌&&◌, not, some, List,
  [], ◌∷◌, ◌++◌, Any, length, length-append, get_elem?, take, Bool-cases, inl, inr,
}
use dex_arbitrage.Prelude.Int.{ℤ, ltb_ℤ}
use dex_arbitrage.Types.{Edge, EdgeRef, TokenInfo}
use dex_arbitrage.Graph.{GraphSnapshot, edge}
use dex_arbitrage.Graph.Snapshot.{Sound}
use dex_arbitrage.Detector.{SearchPath}
use dex_arbitrage.Detector.Search.{last}
use dex_arbitrage.Detector.Walk.{Hop, Follows, Distinct}
use dex_arbitrage.Detector.Routes.{Route}
use dex_arbitrage.Detector.Candidate.{CandidateHop, CandidatePath}
use dex_arbitrage.Detector.Policy.{route_tokens_allowed, execution_token_policy}
use dex_arbitrage.Detector.Cycle.{
  Setting, view_of, Attempt, done, dropped, panicked, path_of, rest_of, all_new, forms_simple_cycle,
  materialize_candidate, route_has_min_start_capacity,
}
use dex_arbitrage.Detector.SimpleCycle.{
  Spells, Linked, Joining, length-Spells, Follows-Linked, OnDone, Spelled, within, path_of-Spelled,
  all_new-Distinct, Follows-append, last-append,
}

-- A candidate is a simple cycle of the graph from an anchor, through a pair of tokens with a changed
-- edge, that beats the cutoff.
pub record IsCycle (s : Setting) (g : GraphSnapshot) (changed_edges : List EdgeRef)
    (c : CandidatePath) : Type 0 where
  pub edge_refs : List EdgeRef
  pub tokens : List ℕ
  pub rest : List ℕ
  pub anchor_idx : ℕ
  pub anchor : TokenInfo
  pub is_anchor : Any (λ idx. idx ≡ anchor_idx) g.cycle_anchor_indices
  pub anchor_at : get_elem? g.tokens anchor_idx ≡ some anchor
  pub starts : c.start_token ≡ anchor.address
  pub follows : Follows (view_of s g) g edge_refs tokens
  pub begins : tokens ≡ anchor_idx ∷ rest
  pub ends : last tokens ≡ some anchor_idx
  pub simple : Distinct (take (length tokens - 1) tokens)
  pub spells : Spells g edge_refs c.path
  pub linked : Linked c.start_token c.path c.start_token
  pub at_least : 2 ≤ length c.path
  pub at_most : length c.path ≤ s.finder.max_hops
  pub cheap : ltb_ℤ c.screening_score_q32 s.finder.screening_cutoff_q32 ≡ true
  pub from : ℕ
  pub to : ℕ
  pub changed : Any (Joining g from to) changed_edges
  pub through : Any (Joining g from to) edge_refs
  pub same_snapshot : c.snapshot_id ≡ g.snapshot_id

-- A closed walk that may become a candidate.
pub record Closed (s : Setting) (g : GraphSnapshot) (anchor_idx : ℕ) (edge_refs : List EdgeRef)
    : Type 0 where
  pub tokens : List ℕ
  pub rest : List ℕ
  pub is_anchor : Any (λ idx. idx ≡ anchor_idx) g.cycle_anchor_indices
  pub in_range : anchor_idx < length g.tokens
  pub follows : Follows (view_of s g) g edge_refs tokens
  pub begins : tokens ≡ anchor_idx ∷ rest
  pub ends : last tokens ≡ some anchor_idx
  pub simple : Distinct (take (length tokens - 1) tokens)
  pub at_least : 2 ≤ length edge_refs
  pub at_most : length edge_refs ≤ s.finder.max_hops

module _ (s : Setting) (g : GraphSnapshot) (sound : Sound g) where
  -- The tokens of a prefix, of the changed edge and of a suffix.
  pub forms_simple_cycle-Closed :
      (anchor_idx from to max_hops : ℕ) (r : EdgeRef) (prefix suffix : SearchPath)
      → Any (λ idx. idx ≡ anchor_idx) g.cycle_anchor_indices
      → anchor_idx < length g.tokens
      → Route (view_of s g) g anchor_idx from max_hops prefix
      → Hop (view_of s g) g r from to
      → Route (view_of s g) g to anchor_idx max_hops suffix
      → forms_simple_cycle prefix to suffix ≡ true
      → 2 ≤ length prefix.edge_refs + 1 + length suffix.edge_refs
      → length prefix.edge_refs + 1 + length suffix.edge_refs ≤ s.finder.max_hops
      → Closed s g anchor_idx (prefix.edge_refs ++ r ∷ suffix.edge_refs)
  unfolding forms_simple_cycle
  forms_simple_cycle-Closed anchor_idx from to max_hops r prefix suffix member range p k q simple
        least most =
      let tail : rest_of suffix.tokens ≡ q.simple.rest = ap rest_of q.simple.begins in
      let after =
        subst (Follows (view_of s g) g suffix.edge_refs) q.simple.begins q.simple.follows in
      let tokens = prefix.tokens ++ to ∷ q.simple.rest in
      let fresh : all_new [] (take (length tokens - 1) tokens) ≡ true =
        subst
          (λ ts.
            all_new [] (take (length (prefix.tokens ++ to ∷ ts) - 1) (prefix.tokens ++ to ∷ ts))
            ≡ true)
          tail (ground arith) in
      record {
        tokens = tokens;
        rest = p.simple.rest ++ to ∷ q.simple.rest;
        is_anchor = member;
        in_range = range;
        follows = Follows-append (view_of s g) g r p.simple.follows p.ends k after;
        begins = ap (λ ts. ts ++ to ∷ q.simple.rest) p.simple.begins;
        ends = last-append prefix.tokens to q.simple.rest ∙ ap last (sym q.simple.begins) ∙ q.ends;
        simple = all_new-Distinct [] _ fresh;
        at_least = omega (arith, length-append prefix.edge_refs (r ∷ suffix.edge_refs));
        at_most = omega (arith, length-append prefix.edge_refs (r ∷ suffix.edge_refs));
      }

  module _ (changed_edges : List EdgeRef) (anchor_idx : ℕ) (key : String) (score : ℤ)
      (refs : List EdgeRef) (closed : Closed s g anchor_idx refs)
      (cheap : ltb_ℤ score s.finder.screening_cutoff_q32 ≡ true) (changed_edge_ref : EdgeRef)
      (use_filter : Bool) where
    made :
        (e : Edge) (result : Attempt (List CandidateHop × Bool))
        → edge g changed_edge_ref ≡ some e
        → Any (Joining g e.from e.to) changed_edges
        → path_of g e.from e.to refs ≡ result
        → OnDone (Spelled g e.from e.to refs) result
        → OnDone
            (IsCycle s g changed_edges)
            (materialize_candidate s g anchor_idx key score refs changed_edge_ref use_filter)
    unfolding materialize_candidate
    made e dropped k ch h i = rw (materialize_candidate, k, h) tt
    made e panicked k ch h i = absurd i
    made e (done found) k ch h i = elim (Bool-cases found.1) [
      | inr f ↦ rw (materialize_candidate, k, h, f) tt
      | inl f ↦
          elim (Bool-cases
            (route_tokens_allowed s.env g anchor_idx refs (execution_token_policy s.env g))) [
              | inr t ↦ rw (materialize_candidate, k, h, f, t) tt
              | inl t ↦
                  elim (Bool-cases
                    (use_filter && not (route_has_min_start_capacity s g anchor_idx refs))) [
                      | inl m ↦ rw (materialize_candidate, k, h, f, t, m) tt
                      | inr m ↦
                          let (anchor, a) = within g.tokens anchor_idx closed.in_range in
                          rw (materialize_candidate, k, h, f, t, m, a)
                            (record {
                              edge_refs = refs;
                              tokens = closed.tokens;
                              rest = closed.rest;
                              anchor_idx = anchor_idx;
                              anchor = anchor;
                              is_anchor = closed.is_anchor;
                              anchor_at = a;
                              starts = refl;
                              follows = closed.follows;
                              begins = closed.begins;
                              ends = closed.ends;
                              simple = closed.simple;
                              spells = i.spells;
                              linked =
                                  Follows-Linked (view_of s g) g anchor_idx anchor_idx closed.rest
                                    anchor anchor closed.follows i.spells closed.begins closed.ends
                                    a a;
                              at_least = omega (arith, length-Spells g i.spells, closed.at_least);
                              at_most = omega (arith, length-Spells g i.spells, closed.at_most);
                              cheap = cheap;
                              from = e.from;
                              to = e.to;
                              changed = ch;
                              through = i.joining f;
                              same_snapshot = refl;
                            })
                    ]
            ]
    ]

    pub materialize_candidate-IsCycle :
        (from to : ℕ)
        → Joining g from to changed_edge_ref
        → Any (Joining g from to) changed_edges
        → OnDone
            (IsCycle s g changed_edges)
            (materialize_candidate s g anchor_idx key score refs changed_edge_ref use_filter)
    materialize_candidate-IsCycle from to j ch =
        let ch' =
          subst (λ w. Any (Joining g j.target.from w) changed_edges) (sym j.enters)
            (subst (λ u. Any (Joining g u to) changed_edges) (sym j.leaves) ch) in
        made j.target (path_of g j.target.from j.target.to refs) j.found ch' refl
          (path_of-Spelled g sound j.target.from j.target.to refs)
