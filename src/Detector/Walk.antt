-- ===== src/Detector/Walk.antt =====
-- src/detector/path_finder.rs: what a path of the search is, and what one more hop makes of it.
use dex_arbitrage.Prelude.{
  ℕ, ◌≤◌, ◌<◌, ◌≡◌, refl, ap, sym, subst, arith, ◌∙◌, true, false, ◌||◌, none, some, List, [], ◌∷◌,
  ◌++◌, ◌==◌, All,
}
use dex_arbitrage.Prelude.Int.{ℤ, pos}
use dex_arbitrage.Types.{Edge, EdgeRef}
use dex_arbitrage.Graph.{GraphSnapshot, edge}
use dex_arbitrage.Graph.Rows.{All-snoc}
use dex_arbitrage.Detector.{SearchPath, View, edge_is_usable}
use dex_arbitrage.Detector.Search.{add_i64, contains, last, initial, extend}

-- A reference to a usable edge from one token to another.
pub record Hop (v : View) (g : GraphSnapshot) (r : EdgeRef) (from to : ℕ) : Type 0 where
  pub target : Edge
  pub found : edge g r ≡ some target
  pub usable : edge_is_usable v target ≡ true
  pub leaves : target.from ≡ from
  pub enters : target.to ≡ to

-- References that lead from each of the tokens to the next one.
pub data Follows (v : View) (g : GraphSnapshot) : List EdgeRef → List ℕ → Type 0 where
  stop : (u : ℕ) → Follows v g [] (u ∷ [])
  hop :
      {r : EdgeRef} {rs : List EdgeRef} {u w : ℕ} {ts : List ℕ}
      → Hop v g r u w
      → Follows v g rs (w ∷ ts)
      → Follows v g (r ∷ rs) (u ∷ w ∷ ts)

-- No token twice.
abbrev pub Distinct : List ℕ → Type 0
Distinct [] = Unit
Distinct (x ∷ xs) = (contains xs x ≡ false) × Distinct xs

-- The saturating sum of the weights of the edges.
abbrev pub weight_of : GraphSnapshot → EdgeRef → ℤ
weight_of g r = elim (edge g r) [ none ↦ pos 0 | some e ↦ e.weight_log_q32 ]

abbrev pub total_weight : GraphSnapshot → ℤ → List EdgeRef → ℤ
total_weight g sum [] = sum
total_weight g sum (r ∷ rs) = total_weight g (add_i64 sum (weight_of g r)) rs

-- The hint is at most the capacity of the edge.
pub record Capped (g : GraphSnapshot) (hint : ℕ) (r : EdgeRef) : Type 0 where
  pub target : Edge
  pub found : edge g r ≡ some target
  pub bounded : hint ≤ target.liquidity.safe_capacity_in

-- A simple path of usable edges from `start`, with its score and a hint that no edge is below.
pub record Simple (v : View) (g : GraphSnapshot) (start : ℕ) (p : SearchPath) : Type 0 where
  pub follows : Follows v g p.edge_refs p.tokens
  pub rest : List ℕ
  pub begins : p.tokens ≡ start ∷ rest
  pub distinct : Distinct p.tokens
  pub score : p.score_q32 ≡ total_weight g (pos 0) p.edge_refs
  pub capped : All (Capped g p.capacity_hint) p.edge_refs

contains-snoc : (ts : List ℕ) (w x : ℕ) → contains (ts ++ w ∷ []) x ≡ (contains ts x || w == x)
unfolding contains
contains-snoc [] w x = ground arith
contains-snoc (t ∷ ts) w x = ground (arith, contains-snoc ts w x)

Distinct-snoc :
    (ts : List ℕ) (w : ℕ) → contains ts w ≡ false → Distinct ts → Distinct (ts ++ w ∷ [])
unfolding contains
Distinct-snoc [] w h d = (refl, tt)
Distinct-snoc (t ∷ ts) w h d =
    (ground (arith, contains-snoc ts w t, d.0), Distinct-snoc ts w (ground arith) d.1)

total_weight-snoc :
    (g : GraphSnapshot) (sum : ℤ) (rs : List EdgeRef) (r : EdgeRef)
    → total_weight g sum (rs ++ r ∷ []) ≡ add_i64 (total_weight g sum rs) (weight_of g r)
total_weight-snoc g sum [] r = refl
total_weight-snoc g sum (x ∷ rs) r = total_weight-snoc g (add_i64 sum (weight_of g x)) rs r

pub last-snoc : (ts : List ℕ) (w : ℕ) → last (ts ++ w ∷ []) ≡ some w
last-snoc [] w = refl
last-snoc (t ∷ []) w = refl
last-snoc (t ∷ u ∷ ts) w = last-snoc (u ∷ ts) w

module _ (v : View) (g : GraphSnapshot) where
  Follows-snoc :
      {rs : List EdgeRef} {ts : List ℕ} {u w : ℕ} (r : EdgeRef)
      → Follows v g rs ts
      → last ts ≡ some u
      → Hop v g r u w
      → Follows v g (rs ++ r ∷ []) (ts ++ w ∷ [])
  Follows-snoc {u = u} {w = w} r (stop x) h k =
      let e : x ≡ u = ground arith in hop (subst (λ y. Hop v g r y w) (sym e) k) (stop w)
  Follows-snoc r (hop first rest) h k = hop first (Follows-snoc r rest h k)

  usable-positive : (e : Edge) → edge_is_usable v e ≡ true → 0 < e.liquidity.safe_capacity_in
  unfolding edge_is_usable
  usable-positive e h = ground arith

  Capped-weaken :
      (hint hint' : ℕ) (rs : List EdgeRef)
      → hint' ≤ hint
      → All (Capped g hint) rs
      → All (Capped g hint') rs
  Capped-weaken hint hint' [] h a = tt
  Capped-weaken hint hint' (r ∷ rs) h a = (
    record { target = a.0.target; found = a.0.found; bounded = omega (arith, a.0.bounded) },
    Capped-weaken hint hint' rs h a.1,
  )

  pub initial-Simple : (start : ℕ) → Simple v g start (initial start)
  unfolding contains
  initial-Simple start = record {
    follows = stop start;
    rest = [];
    begins = refl;
    distinct = (refl, tt);
    score = refl;
    capped = tt;
  }

  pub extend-Simple :
      (start u : ℕ) (p : SearchPath) (r : EdgeRef) (e : Edge)
      → Simple v g start p
      → last p.tokens ≡ some u
      → edge g r ≡ some e
      → edge_is_usable v e ≡ true
      → e.from ≡ u
      → contains p.tokens e.to ≡ false
      → Simple v g start (extend p r e)
  extend-Simple start u p r e s h found usable leaves new =
      let positive = usable-positive e usable in
      let hint = (extend p r e).capacity_hint in
      let weighed : weight_of g r ≡ e.weight_log_q32 = rw (weight_of, found) refl in
      let below : hint ≤ p.capacity_hint = ground arith in
      let within : hint ≤ e.liquidity.safe_capacity_in = ground arith in
      record {
        follows =
            Follows-snoc r s.follows h (record {
              target = e;
              found = found;
              usable = usable;
              leaves = leaves;
              enters = refl;
            });
        rest = s.rest ++ e.to ∷ [];
        begins = rw s.begins refl;
        distinct = Distinct-snoc p.tokens e.to new s.distinct;
        score =
            ap (λ sum. add_i64 sum e.weight_log_q32) s.score
            ∙ ap (add_i64 (total_weight g (pos 0) p.edge_refs)) (sym weighed)
            ∙ sym (total_weight-snoc g (pos 0) p.edge_refs r);
        capped =
            All-snoc (Capped g hint) p.edge_refs r
              (Capped-weaken p.capacity_hint hint p.edge_refs below s.capped)
              (record { target = e; found = found; bounded = within });
      }
