-- ===== src/Graph/Indexed.antt =====
-- src/graph/model.rs: the tables of a snapshot agree with its edges, and `build` does not panic.
use dex_arbitrage.Prelude.{
  ◌<◌, ℕ, zero, suc, ◌-◌, ◌≡◌, refl, arith, Bool, true, false, Option, some, List, [], ◌∷◌, ◌++◌,
  ◌==◌, ◌&&◌, if◌then◌else◌, get_elem?, length, replicate, length-replicate, length-append, All,
  ◌⊎◌, inl, inr, Bool-cases, subst, ◌∙◌,
}
use dex_arbitrage.Prelude.Map.{Map, lookup}
use dex_arbitrage.Types.{Edge, EdgeRef, PoolState}
use dex_arbitrage.Graph.{lookup_pair, or_default}
use dex_arbitrage.Graph.Build.{
  SpotRates, Tables, push_edge, push_edges, push_pools, empty_tables, last_ref, file_ref,
  build_edges_for_pool,
}
use dex_arbitrage.Graph.Rows.{
  row_of, Pushed, push_at-Pushed, push_at-All, get_elem?-append, get_elem?-last, All-snoc,
  All-weaken, push_entry, push_pair_entry,
}
use dex_arbitrage.Graph.Edges.{Below, Between, build_edges_for_pool-Joined}

-- A reference leads to an edge of which `P` holds.
pub record Leads (rows : List (List Edge)) (P : Edge → Type 0) (r : EdgeRef) : Type 0 where
  pub target : Edge
  pub found : get_elem? (row_of rows r.from) r.edge_idx ≡ some target
  pub holds : P target

-- Each list of references leads to the edges that it is filed under, over `n` tokens.
pub record Indexed (n : ℕ) (t : Tables) : Type 0 where
  pub rows : length t.adjacency ≡ n
  pub reverse_rows : length t.reverse_adj ≡ n
  pub targets : All (λ row. All (λ e. e.to < n) row) t.adjacency
  pub origins : All (λ row. All (λ r. r.from < n) row) t.reverse_adj
  pub homes : (from : ℕ) → All (λ e. e.from ≡ from) (row_of t.adjacency from)
  pub reverse : (to : ℕ) → All (Leads t.adjacency (λ e. e.to ≡ to)) (row_of t.reverse_adj to)
  pub pools :
      (id : ℕ)
      → All (Leads t.adjacency (λ e. e.pool_id ≡ id)) (or_default (lookup id t.pool_to_edges))
  pub pairs :
      (pair : ℕ × ℕ)
      → All
          (Leads t.adjacency (λ e. (e.from ≡ pair.0) × (e.to ≡ pair.1)))
          (or_default (lookup_pair pair t.pair_to_edges))

-- A push to the rows leaves what a reference leads to, and the pushed edge is found at the end.
module _ (rows : List (List Edge)) (i : ℕ) (e : Edge) (p : Pushed rows i e) where
  Leads-Pushed : (P : Edge → Type 0) (r : EdgeRef) → Leads rows P r → Leads p.table P r
  Leads-Pushed P r l = record {
    target = l.target;
    found = kept (Bool-cases (i == r.from));
    holds = l.holds;
  }
    where
      kept :
          (i == r.from ≡ true) ⊎ (i == r.from ≡ false)
          → get_elem? (row_of p.table r.from) r.edge_idx ≡ some l.target
      kept (inl s) =
          rw (p.row r.from, s)
            (get_elem?-append (row_of rows r.from) (e ∷ []) r.edge_idx l.target l.found)
      kept (inr s) = rw (p.row r.from, s) l.found

  new_row : row_of p.table i ≡ row_of rows i ++ e ∷ []
  new_row = ground (arith, p.row i)

  new-Leads :
      (P : Edge → Type 0)
      → P e
      → Leads p.table P (record { from = i; edge_idx = length (row_of p.table i) - 1 })
  new-Leads P h =
      let last : length (row_of rows i ++ e ∷ []) - 1 ≡ length (row_of rows i) =
        omega (arith, length-append (row_of rows i) (e ∷ [])) in
      record {
        target = e;
        found = rw (new_row, last) (get_elem?-last (row_of rows i) e);
        holds = h;
      }

-- Filing a reference under a key keeps each list right.
file-All :
    {A : Type 0} (P : A → Type 0) (before after : List A) (r : A) (here : Bool)
    → after ≡ (if here then before ++ r ∷ [] else before)
    → All P before
    → (here ≡ true → P r)
    → All P after
file-All P before after r true e a h = rw e (All-snoc P before r a (h refl))
file-All P before after r false e a h = rw e a

-- What a step of the loop leaves.
pub record Filed (n : ℕ) (result : Option Tables) : Type 0 where
  pub tables : Tables
  pub done : result ≡ some tables
  pub indexed : Indexed n tables

module _ (n : ℕ) (t : Tables) (e : Edge) (ix : Indexed n t) (a : Pushed t.adjacency e.from e)
    (r : Pushed t.reverse_adj e.to (last_ref a.table e)) where
  abbrev after : Tables
  after = file_ref t e.pool_id e a.table r.table

  carried :
      (P : Edge → Type 0) (refs : List EdgeRef)
      → All (Leads t.adjacency P) refs
      → All (Leads a.table P) refs
  carried P refs all =
      All-weaken (Leads t.adjacency P) (Leads a.table P) refs
        (Leads-Pushed t.adjacency e.from e a P) all

  after-reverse : (to : ℕ) → All (Leads a.table (λ x. x.to ≡ to)) (row_of after.reverse_adj to)
  after-reverse to =
      file-All (Leads a.table (λ x. x.to ≡ to)) (row_of t.reverse_adj to) (row_of r.table to)
        (last_ref a.table e) (e.to == to) (r.row to)
        (carried (λ x. x.to ≡ to) (row_of t.reverse_adj to) (ix.reverse to))
        (λ s. new-Leads t.adjacency e.from e a (λ x. x.to ≡ to) (ground arith))

  after-pools :
      (id : ℕ)
      → All (Leads a.table (λ x. x.pool_id ≡ id)) (or_default (lookup id after.pool_to_edges))
  after-pools id =
      file-All (Leads a.table (λ x. x.pool_id ≡ id)) (or_default (lookup id t.pool_to_edges))
        (or_default (lookup id after.pool_to_edges)) (last_ref a.table e) (e.pool_id == id)
        (push_entry e.pool_id id (last_ref a.table e) t.pool_to_edges)
        (carried (λ x. x.pool_id ≡ id) (or_default (lookup id t.pool_to_edges)) (ix.pools id))
        (λ s. new-Leads t.adjacency e.from e a (λ x. x.pool_id ≡ id) (ground arith))

  after-pairs :
      (pair : ℕ × ℕ)
      → All
          (Leads a.table (λ x. (x.from ≡ pair.0) × (x.to ≡ pair.1)))
          (or_default (lookup_pair pair after.pair_to_edges))
  after-pairs pair =
      file-All (Leads a.table (λ x. (x.from ≡ pair.0) × (x.to ≡ pair.1)))
        (or_default (lookup_pair pair t.pair_to_edges))
        (or_default (lookup_pair pair after.pair_to_edges)) (last_ref a.table e)
        (e.from == pair.0 && e.to == pair.1)
        (push_pair_entry (e.from, e.to) pair (last_ref a.table e) t.pair_to_edges)
        (carried (λ x. (x.from ≡ pair.0) × (x.to ≡ pair.1))
          (or_default (lookup_pair pair t.pair_to_edges)) (ix.pairs pair))
        (λ s.
          new-Leads t.adjacency e.from e a (λ x. (x.from ≡ pair.0) × (x.to ≡ pair.1))
            (ground arith, ground arith))

  pushed-Filed : e.from < n → e.to < n → Filed n (push_edge t e.pool_id e)
  unfolding push_edge
  pushed-Filed hf ht = record {
    tables = after;
    done = rw (push_edge, a.result, r.result) refl;
    indexed = record {
      rows = a.rows_same ∙ ix.rows;
      reverse_rows = r.rows_same ∙ ix.reverse_rows;
      targets = push_at-All (λ x. x.to < n) t.adjacency e.from e a.table a.result ix.targets ht;
      origins =
          push_at-All (λ x. x.from < n) t.reverse_adj e.to (last_ref a.table e) r.table r.result
            ix.origins hf;
      homes = λ from.
          file-All (λ x. x.from ≡ from) (row_of t.adjacency from) (row_of a.table from) e
            (e.from == from) (a.row from) (ix.homes from) (λ s. ground arith);
      reverse = after-reverse;
      pools = after-pools;
      pairs = after-pairs;
    };
  }

push_edge-Filed :
    (n id : ℕ) (t : Tables) (e : Edge) → Indexed n t → Between n id e → Filed n (push_edge t id e)
push_edge-Filed n id t e ix b =
    let a = push_at-Pushed t.adjacency e.from e (rw ix.rows b.from_token) in
    let r =
      push_at-Pushed t.reverse_adj e.to (last_ref a.table e) (rw ix.reverse_rows b.to_token) in
    subst (λ k. Filed n (push_edge t k e)) b.of_pool
      (pushed-Filed n t e ix a r b.from_token b.to_token)

push_edges-Filed :
    (n id : ℕ) (t : Tables) (es : List Edge)
    → Indexed n t
    → All (Between n id) es
    → Filed n (push_edges t id es)
unfolding push_edges
push_edges-Filed n id t [] ix b = record { tables = t; done = refl; indexed = ix }
push_edges-Filed n id t (e ∷ es) ix b =
    let first = push_edge-Filed n id t e ix b.0 in
    let rest = push_edges-Filed n id first.tables es first.indexed b.1 in
    record {
      tables = rest.tables;
      done = rw (push_edges, first.done) rest.done;
      indexed = rest.indexed;
    }

pub push_pools-Filed :
    (rates : SpotRates) (n : ℕ) (indices : Map ℕ) (pools : Map PoolState) (t : Tables)
    → Below n indices
    → Indexed n t
    → Filed n (push_pools rates indices pools t)
unfolding push_pools
push_pools-Filed rates n indices [] t b ix = record { tables = t; done = refl; indexed = ix }
push_pools-Filed rates n indices ((key, pool) ∷ pools) t b ix =
    let first =
      push_edges-Filed n pool.pool_id t (build_edges_for_pool rates pool indices) ix
        (build_edges_for_pool-Joined rates n pool indices b) in
    let rest = push_pools-Filed rates n indices pools first.tables b first.indexed in
    record {
      tables = rest.tables;
      done = rw (push_pools, first.done) rest.done;
      indexed = rest.indexed;
    }

empty_row {ℓ} : {A : Type ℓ} (n i : ℕ) → row_of {A = A} (replicate n []) i ≡ []
empty_row zero i = refl
empty_row (suc n) zero = refl
empty_row (suc n) (suc i) = empty_row n i

empty_rows-All {ℓ} : {A : Type ℓ} (P : A → Type 0) (n : ℕ) → All (λ row. All P row) (replicate n [])
empty_rows-All P zero = tt
empty_rows-All P (suc n) = (tt, empty_rows-All P n)

pub empty_tables-Indexed : (n : ℕ) → Indexed n (empty_tables n)
unfolding lookup lookup_pair
empty_tables-Indexed n = record {
  rows = length-replicate n [];
  reverse_rows = length-replicate n [];
  targets = empty_rows-All (λ e. e.to < n) n;
  origins = empty_rows-All (λ r. r.from < n) n;
  homes = λ from. rw (empty_row n from) tt;
  reverse = λ to. rw (empty_row n to) tt;
  pools = λ id. tt;
  pairs = λ pair. tt;
}
