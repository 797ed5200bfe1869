-- ===== src/Graph/Distance/Loop.antt =====
-- src/graph/distance_cache.rs: the search ends with the flags of the vertices in reach.
use mathlib.Core.List.{Memᴰ}
use mathlib.Core.List.Memᴰ
use mathlib.Core.Logic.{⊎_elim}
use dex_arbitrage.Prelude.{
  ℕ, zero, suc, ◌+◌, ◌≤◌, ◌<◌, ◌≡◌, refl, ap, subst, arith, Bool, true, false, Option, some, List,
  [], ◌∷◌, ◌++◌, get_elem?, set, length, length-append, length-set, length-replicate, replicate,
  ◌⊎◌, inl, inr, ◌↔◌, All,
}
use dex_arbitrage.Graph.Rows.{row_of}
use dex_arbitrage.Graph.Distance.{Search, mark, mark_all, Outcome, found, search, explore}
use dex_arbitrage.Graph.Distance.Scan.{
  Marked, unseen, flag, Flag, up, down, Marked-set, unseen-set-le, Mem-cons, Mem-snoc, Visited,
  scan-Done,
}

-- The vertices that some chain of rows leads to from an anchor.
pub data Reach (rows : List (List ℕ)) (anchors : List ℕ) : ℕ → Type 0 where
  anchor : {v : ℕ} → Memᴰ v anchors → Reach rows anchors v
  step : {u v : ℕ} → Reach rows anchors u → Memᴰ v (row_of rows u) → Reach rows anchors v

-- A row for each vertex, and every entry a vertex.
pub record Ranged (n : ℕ) (rows : List (List ℕ)) (anchors : List ℕ) : Type 0 where
  pub row_count : length rows ≡ n
  pub entries : All (λ row. All (λ v. v < n) row) rows
  pub starts : All (λ v. v < n) anchors

lt-length : (seen : List Bool) (v : ℕ) → Marked seen v → v < length seen
lt-length [] v m = absurd (ground arith)
lt-length (b ∷ seen) zero m = omega arith
lt-length (b ∷ seen) (suc v) m = omega (arith, lt-length seen v m)

row-All :
    (P : ℕ → Type 0) (rows : List (List ℕ)) (u : ℕ)
    → All (λ row. All P row) rows
    → All P (row_of rows u)
row-All P [] u a = tt
row-All P (row ∷ rows) zero a = a.0
row-All P (row ∷ rows) (suc u) a = row-All P rows u a.1

row_found :
    (rows : List (List ℕ)) (u : ℕ) → u < length rows → get_elem? rows u ≡ some (row_of rows u)
row_found [] u h = absurd (omega arith)
row_found (row ∷ rows) zero h = refl
row_found (row ∷ rows) (suc u) h = row_found rows u (omega arith)

module _ (n : ℕ) (rows : List (List ℕ)) (anchors : List ℕ) (ranged : Ranged n rows anchors) where
  record Inv (s : Search) : Type 0 where
    size : length s.seen ≡ n
    sound : (w : ℕ) → Marked s.seen w → Reach rows anchors w
    source : (w : ℕ) → Memᴰ w anchors → Marked s.seen w
    queued : (w : ℕ) → Memᴰ w s.queue → Marked s.seen w
    closed : (u v : ℕ) → Marked s.seen u → Memᴰ v (row_of rows u) → Memᴰ u s.queue ⊎ Marked s.seen v

  -- One round of the loop, from the queue `u ∷ rest`.
  Inv-round :
      (s t : Search) (u : ℕ) (rest : List ℕ)
      → s.queue ≡ u ∷ rest
      → Inv s
      → Visited (record s { queue = rest }) (row_of rows u) t
      → Inv t
  Inv-round s t u rest e i v =
      let from_u : Marked s.seen u = i.queued u (rw e (Memᴰ.head refl)) in
      record {
        size = omega (arith, v.size, i.size);
        sound = λ w m. ⊎_elim (i.sound w) (step (i.sound u from_u)) (v.raised w m);
        source = λ w m. v.kept w (i.source w m);
        queued = λ w m.
            ⊎_elim (λ r. v.kept w (i.queued w (rw e (Memᴰ.tail r)))) (v.reached w) (v.queued w m);
        closed = λ x w m edge.
            ⊎_elim
              (λ old.
                ⊎_elim (λ q. from_queue x w edge ((Mem-cons x u rest).0 (subst (Memᴰ x) e q)))
                  (λ k. inr (v.kept w k)) (i.closed x w old edge))
              inl (v.fresh x m);
      }
    where
      from_queue :
          (x w : ℕ)
          → Memᴰ w (row_of rows x)
          → ((x ≡ u) ⊎ Memᴰ x rest)
          → Memᴰ x t.queue ⊎ Marked t.seen w
      from_queue x w edge (inl same) =
          inr (v.reached w (subst (λ y. Memᴰ w (row_of rows y)) same edge))
      from_queue x w edge (inr r) = inl (v.waiting x r)

  -- With an empty queue the flags are closed under the rows.
  Inv-complete :
      (s : Search) → Inv s → s.queue ≡ [] → {w : ℕ} → Reach rows anchors w → Marked s.seen w
  Inv-complete s i e (anchor {v} m) = i.source v m
  Inv-complete s i e (step {u} {v} r edge) = elim (i.closed u v (Inv-complete s i e r) edge) [
    | inl q ↦ absurd (Memᴰ.not-nil (subst (Memᴰ u) e q))
    | inr m ↦ m
  ]

  -- A search that ends with the flags of the vertices in reach.
  pub record Finds (result : Outcome) : Type 0 where
    pub seen : List Bool
    pub ends : result ≡ found seen
    pub sized : length seen ≡ n
    pub decides : (w : ℕ) → Marked seen w ↔ Reach rows anchors w

  finished :
      (s : Search) (fuel : ℕ)
      → s.queue ≡ []
      → Inv s
      → search rows fuel s ≡ found s.seen
      → Finds (search rows fuel s)
  finished s fuel e i h = record {
    seen = s.seen;
    ends = h;
    sized = i.size;
    decides = λ w. (i.sound w, λ r. Inv-complete s i e r);
  }

  queue-cases : (q : List ℕ) → (q ≡ []) ⊎ ((u : ℕ) × (rest : List ℕ) × (q ≡ u ∷ rest))
  queue-cases [] = inl refl
  queue-cases (u ∷ rest) = inr (u, rest, refl)

  search-Finds :
      (fuel : ℕ) (s : Search)
      → Inv s
      → unseen s.seen + length s.queue ≤ fuel
      → Finds (search rows fuel s)
  unfolding search
  search-Finds zero s i h = elim (queue-cases s.queue) [
    | inl e ↦ finished s zero e i (rw (search, e) refl)
    | inr (u, rest, e) ↦ absurd (omega (arith, ap length e))
  ]
  search-Finds (suc fuel) s i h = elim (queue-cases s.queue) [
    | inl e ↦ finished s (suc fuel) e i (rw (search, e) refl)
    | inr (u, rest, e) ↦
        let in_range : u < length rows = omega (
          arith,
          lt-length s.seen u (i.queued u (rw e (Memᴰ.head refl))),
          i.size,
          ranged.row_count,
        ) in
        let round =
          scan-Done n (record s { queue = rest }) (row_of rows u) i.size
            (row-All (λ v. v < n) rows u ranged.entries) in
        let next =
          search-Finds fuel round.after (Inv-round s round.after u rest e i round.visited)
            (omega (arith, round.visited.work, ap length e)) in
        record {
          seen = next.seen;
          ends = rw (search, e, row_found rows u in_range, round.result_is) next.ends;
          sized = next.sized;
          decides = next.decides;
        }
  ]

  -- The start: exactly the anchors are flagged and queued.
  record MarkedAll (s : Search) (vs : List ℕ) (t : Search) : Type 0 where
    size : length t.seen ≡ length s.seen
    work : unseen t.seen + length t.queue ≤ unseen s.seen + length s.queue + length vs
    flagged : (w : ℕ) → Marked t.seen w ↔ (Marked s.seen w ⊎ Memᴰ w vs)
    pushed : (w : ℕ) → Memᴰ w t.queue ↔ (Memᴰ w s.queue ⊎ Memᴰ w vs)

  record Started (s : Search) (vs : List ℕ) (result : Option Search) : Type 0 where
    after : Search
    result_is : result ≡ some after
    markings : MarkedAll s vs after

  mark_all-Started :
      (s : Search) (vs : List ℕ)
      → length s.seen ≡ n
      → All (λ v. v < n) vs
      → Started s vs (mark_all s vs)
  unfolding mark_all mark
  mark_all-Started s [] h a = record {
    after = s;
    result_is = refl;
    markings = record {
      size = refl;
      work = omega arith;
      flagged = λ w. (inl, ⊎_elim (λ m. m) (λ m. absurd (Memᴰ.not-nil m)));
      pushed = λ w. (inl, ⊎_elim (λ m. m) (λ m. absurd (Memᴰ.not-nil m)));
    };
  }
  mark_all-Started s (v ∷ vs) h a =
      let t : Search = record { seen = set s.seen v true; queue = s.queue ++ v ∷ [] } in
      let rest = mark_all-Started t vs (omega (arith, length-set s.seen v true)) a.1 in
      let within : v < length s.seen = rw h a.0 in
      record {
        after = rest.after;
        result_is = marks (flag s.seen v within) rest.result_is;
        markings = record {
          size = omega (arith, rest.markings.size, length-set s.seen v true);
          work =
              omega
                (arith, rest.markings.work, unseen-set-le s.seen v, length-append s.queue (v ∷ []));
          flagged = λ w.
              ground
                (arith, rest.markings.flagged w, Marked-set s.seen v w within, Mem-cons w v vs);
          pushed =
              λ w. ground (arith, rest.markings.pushed w, Mem-snoc w v s.queue, Mem-cons w v vs);
        };
      }
    where
      marks :
          {t : Search}
          → Flag s.seen v
          → mark_all (record { seen = set s.seen v true; queue = s.queue ++ v ∷ [] }) vs ≡ some t
          → mark_all s (v ∷ vs) ≡ some t
      marks (up e) k = rw (mark_all, mark, e) k
      marks (down e) k = rw (mark_all, mark, e) k

  unseen-replicate : (k : ℕ) → unseen (replicate k false) ≡ k
  unseen-replicate zero = refl
  unseen-replicate (suc k) = ap suc (unseen-replicate k)

  not-Marked : (k w : ℕ) → ¬ Marked (replicate k false) w
  not-Marked zero w m = ground arith
  not-Marked (suc k) zero m = ground arith
  not-Marked (suc k) (suc w) m = not-Marked k w m

  pub explore-Finds : Finds (explore n rows anchors)
  unfolding explore
  explore-Finds =
      let blank : Search = record { seen = replicate n false; queue = [] } in
      let start = mark_all-Started blank anchors (length-replicate n false) ranged.starts in
      let flags = λ (w : ℕ). start.markings.flagged w in
      let found_all =
        search-Finds (n + length anchors) start.after
          (record {
            size = omega (arith, start.markings.size, length-replicate n false);
            sound = λ w m. ⊎_elim (λ b. absurd (not-Marked n w b)) anchor ((flags w).0 m);
            source = λ w m. (flags w).1 (inr m);
            queued = λ w m.
                (flags w).1
                  (⊎_elim (λ b. absurd (Memᴰ.not-nil b)) inr ((start.markings.pushed w).0 m));
            closed = λ u v m edge. inl (
                (start.markings.pushed u).1
                  (⊎_elim (λ b. absurd (not-Marked n u b)) inr ((flags u).0 m)));
          })
          (omega (arith, start.markings.work, unseen-replicate n)) in
      record {
        seen = found_all.seen;
        ends = rw (explore, start.result_is) found_all.ends;
        sized = found_all.sized;
        decides = found_all.decides;
      }
