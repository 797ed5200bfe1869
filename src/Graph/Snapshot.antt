-- ===== src/Graph/Snapshot.antt =====
-- src/graph/model.rs: what a built snapshot promises to the code that reads it.
use dex_arbitrage.Prelude.{
  ℕ, zero, suc, ◌+◌, ◌∷◌, ◌≤◌, ◌<◌, Bool, Bool-cases, ◌≡◌, refl, arith, Option, some, List, [],
  length, get_elem?, All, inl, inr, Option-cases, sym, ◌∙◌, subst, ap,
}
use dex_arbitrage.Prelude.Map.{Map, lookup}
use dex_arbitrage.Types.{BlockRef, TokenInfo, Edge, EdgeRef, PoolState}
use dex_arbitrage.Graph.{GraphSnapshot, lookup_pair, or_default, edge, token_index, pair_edges}
use dex_arbitrage.Graph.Build.{
  SpotRates, Tables, empty_tables, index_tokens, snapshot_of, positions, build,
}
use dex_arbitrage.Graph.Rows.{row_of, All-weaken}
use dex_arbitrage.Graph.Edges.{index_tokens-Below}
use dex_arbitrage.Graph.Indexed.{Indexed, Leads, push_pools-Filed, empty_tables-Indexed}

-- The tables of a snapshot.
abbrev pub tables_of : GraphSnapshot → Tables
tables_of g = record {
  adjacency = g.adjacency;
  reverse_adj = g.reverse_adj;
  pool_to_edges = g.pool_to_edges;
  pair_to_edges = g.pair_to_edges;
}

-- A snapshot is built without a panic.
pub record Built (tokens : List TokenInfo) (result : Option GraphSnapshot) : Type 0 where
  pub graph : GraphSnapshot
  pub done : result ≡ some graph
  pub token_rows : graph.tokens ≡ tokens
  pub indexed : Indexed (length tokens) (tables_of graph)
  pub anchors : graph.cycle_anchor_indices ≡ positions (λ token. token.is_cycle_anchor) 0 tokens

-- Whatever the spot rates, the tokens and the pools, `build` never indexes out of bounds, and in the
-- snapshot each reference filed under a token in `reverse_adj`, under a pool in `pool_to_edges` and
-- under a pair in `pair_to_edges` leads to an edge into that token, of that pool and between that
-- pair.
pub build-Built :
    (rates : SpotRates) (snapshot_id : ℕ) (block_ref : Option BlockRef) (tokens : List TokenInfo)
    (pools : Map PoolState)
    → Built tokens (build rates snapshot_id block_ref tokens pools)
unfolding build lookup
build-Built rates snapshot_id block_ref tokens pools =
    let indices = index_tokens 0 tokens [] in
    let below =
      index_tokens-Below (length tokens) 0 tokens [] (omega arith)
        (λ address idx e. absurd (ground arith)) in
    let filed =
      push_pools-Filed rates (length tokens) indices pools (empty_tables (length tokens)) below
        (empty_tables-Indexed (length tokens)) in
    record {
      graph = snapshot_of snapshot_id block_ref tokens pools filed.tables;
      done = rw (build, filed.done) refl;
      token_rows = refl;
      indexed = filed.indexed;
      anchors = refl;
    }

pub edge-row_of :
    (g : GraphSnapshot) (r : EdgeRef) → edge g r ≡ get_elem? (row_of g.adjacency r.from) r.edge_idx
unfolding edge
edge-row_of g r = elim (Option-cases (get_elem? g.adjacency r.from)) [
  | inl e ↦ rw (edge, e) refl
  | inr (row, e) ↦ rw (edge, e) refl
]

-- A reference leads from the token it is filed under to some token of the snapshot, and the anchors are
-- tokens of it.
pub record Sound (g : GraphSnapshot) : Type 0 where
  pub home : (r : EdgeRef) (e : Edge) → edge g r ≡ some e → e.from ≡ r.from
  pub source : (r : EdgeRef) (e : Edge) → edge g r ≡ some e → e.from < length g.tokens
  pub target : (r : EdgeRef) (e : Edge) → edge g r ≡ some e → e.to < length g.tokens
  pub anchors : All (λ v. v < length g.tokens) g.cycle_anchor_indices
  pub pairs :
      (pair : ℕ × ℕ)
      → All
          (Leads g.adjacency (λ e. (e.from ≡ pair.0) × (e.to ≡ pair.1)))
          (or_default (lookup_pair pair g.pair_to_edges))

get_elem?-All :
    {A : Type 0} (P : A → Type 0) (xs : List A) (i : ℕ) (x : A)
    → get_elem? xs i ≡ some x
    → All P xs
    → P x
get_elem?-All P [] i x h a = absurd (ground arith)
get_elem?-All P (y ∷ ys) zero x h a = let e : y ≡ x = ground arith in subst P e a.0
get_elem?-All P (y ∷ ys) (suc i) x h a = get_elem?-All P ys i x h a.1

row_of-All :
    {A : Type 0} (P : A → Type 0) (rows : List (List A)) (i : ℕ)
    → All (λ row. All P row) rows
    → All P (row_of rows i)
row_of-All P [] i a = tt
row_of-All P (row ∷ rows) zero a = a.0
row_of-All P (row ∷ rows) (suc i) a = row_of-All P rows i a.1

row_of-within :
    {A : Type 0} (rows : List (List A)) (i j : ℕ) (x : A)
    → get_elem? (row_of rows i) j ≡ some x
    → i < length rows
row_of-within [] i j x h = absurd (ground arith)
row_of-within (row ∷ rows) zero j x h = omega arith
row_of-within (row ∷ rows) (suc i) j x h = omega (arith, row_of-within rows i j x h)

pub positions-All :
    (test : TokenInfo → Bool) (n idx : ℕ) (tokens : List TokenInfo)
    → idx + length tokens ≤ n
    → All (λ v. v < n) (positions test idx tokens)
unfolding positions
positions-All test n idx [] h = tt
positions-All test n idx (t ∷ tokens) h =
    let rest = positions-All test n (suc idx) tokens (omega arith) in
    elim (Bool-cases (test t)) [
      | inl e ↦ rw (positions, e) (omega arith, rest)
      | inr e ↦ rw (positions, e) rest
    ]

pub build-Sound :
    (rates : SpotRates) (snapshot_id : ℕ) (block_ref : Option BlockRef) (tokens : List TokenInfo)
    (pools : Map PoolState) (g : GraphSnapshot)
    → build rates snapshot_id block_ref tokens pools ≡ some g
    → Sound g
build-Sound rates snapshot_id block_ref tokens pools g h =
    let built = build-Built rates snapshot_id block_ref tokens pools in
    let same : built.graph ≡ g = some_inj built.done h in
    subst Sound same (record {
      home = λ r e k.
          get_elem?-All (λ x. x.from ≡ r.from) (row_of built.graph.adjacency r.from) r.edge_idx e
            (sym (edge-row_of built.graph r) ∙ k) (built.indexed.homes r.from);
      source = λ r e k. omega (
        arith,
        row_of-within built.graph.adjacency r.from r.edge_idx e
            (sym (edge-row_of built.graph r) ∙ k),
        built.indexed.rows,
        ap length built.token_rows,
        get_elem?-All (λ x. x.from ≡ r.from) (row_of built.graph.adjacency r.from) r.edge_idx e
            (sym (edge-row_of built.graph r) ∙ k) (built.indexed.homes r.from),
      );
      anchors =
          rw (ap length built.token_rows, built.anchors)
            (positions-All (λ token. token.is_cycle_anchor) (length tokens) 0 tokens (omega arith));
      pairs = built.indexed.pairs;
      target = λ r e k. rw (ap length built.token_rows) (
          get_elem?-All (λ x. x.to < length tokens) (row_of built.graph.adjacency r.from) r.edge_idx
            e (sym (edge-row_of built.graph r) ∙ k)
            (row_of-All (λ x. x.to < length tokens) built.graph.adjacency r.from
              built.indexed.targets));
    })
  where
    some_inj : {x : Option GraphSnapshot} {a b : GraphSnapshot} → x ≡ some a → x ≡ some b → a ≡ b
    some_inj p q = ground arith

-- A reference that leads from one token to another.
pub record Joins (g : GraphSnapshot) (from to : ℕ) (r : EdgeRef) : Type 0 where
  pub target : Edge
  pub found : edge g r ≡ some target
  pub source : token_index g from ≡ some target.from
  pub sink : token_index g to ≡ some target.to

-- In a snapshot that `build` gives, each reference that `pair_edges` returns for two addresses
-- resolves to an edge from the token at the first to the token at the second.
pub pair_edges-Joins :
    (rates : SpotRates) (snapshot_id : ℕ) (block_ref : Option BlockRef) (tokens : List TokenInfo)
    (pools : Map PoolState) (g : GraphSnapshot) (from to : ℕ)
    → build rates snapshot_id block_ref tokens pools ≡ some g
    → All (Joins g from to) (pair_edges g from to)
unfolding pair_edges
pair_edges-Joins rates snapshot_id block_ref tokens pools g from to h =
    let built = build-Built rates snapshot_id block_ref tokens pools in
    let same : built.graph ≡ g = some_inj built.done h in
    let ix : Indexed (length tokens) (tables_of g) =
      subst (λ x. Indexed (length tokens) (tables_of x)) same built.indexed in
    elim (Option-cases (token_index g from)) [
      | inl e ↦ rw (pair_edges, e) tt
      | inr (fi, e) ↦ elim (Option-cases (token_index g to)) [
        | inl k ↦ rw (pair_edges, e, k) tt
        | inr (ti, k) ↦
            rw (pair_edges, e, k)
              (All-weaken _ (Joins g from to) (or_default (lookup_pair (fi, ti) g.pair_to_edges))
                (λ r l. record {
                  target = l.target;
                  found = edge-row_of g r ∙ l.found;
                  source = e ∙ ap some (sym l.holds.0);
                  sink = k ∙ ap some (sym l.holds.1);
                })
                (ix.pairs (fi, ti)))
      ]
    ]
  where
    some_inj : {x : Option GraphSnapshot} {a b : GraphSnapshot} → x ≡ some a → x ≡ some b → a ≡ b
    some_inj h k = ground arith
