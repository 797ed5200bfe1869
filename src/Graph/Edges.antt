-- ===== src/Graph/Edges.antt =====
-- src/graph/model.rs: the edges of a pool lead between tokens of the snapshot.
use dex_arbitrage.Prelude.{
  ℕ, suc, ◌+◌, ◌<◌, ◌≡◌, refl, arith, Bool, some, List, [], ◌∷◌, ◌++◌, ◌==◌, length, All, inl, inr,
  Option-cases, Bool-cases,
}
use dex_arbitrage.Prelude.Map.{Map, lookup, insert, lookup-insert}
use dex_arbitrage.Types.{TokenInfo, Edge, PoolState, PoolSpecificState}
use dex_arbitrage.Graph.Build.{
  Rate, SpotRates, index_tokens, new_edge, two_edges, build_two_token_edges, edges_from,
  edges_between, build_n_token_edges, build_edges_for_pool,
}

-- Every index that the map gives is below `n`.
abbrev pub Below : ℕ → Map ℕ → Type 0
Below n indices = (address idx : ℕ) → lookup address indices ≡ some idx → idx < n

insert-Below :
    (n key idx : ℕ) (indices : Map ℕ) → idx < n → Below n indices → Below n (insert key idx indices)
insert-Below n key idx indices h b address found e =
    ground (arith, lookup-insert key address idx indices, b address found)

pub index_tokens-Below :
    (n idx : ℕ) (tokens : List TokenInfo) (indices : Map ℕ)
    → idx + length tokens ≡ n
    → Below n indices
    → Below n (index_tokens idx tokens indices)
unfolding index_tokens
index_tokens-Below n idx [] indices h b = b
index_tokens-Below n idx (token ∷ tokens) indices h b =
    index_tokens-Below n (suc idx) tokens (insert token.address idx indices) (omega arith)
      (insert-Below n token.address idx indices (omega arith) b)

-- An edge of a pool between two tokens.
pub record Between (n pool_id : ℕ) (e : Edge) : Type 0 where
  pub from_token : e.from < n
  pub to_token : e.to < n
  pub of_pool : e.pool_id ≡ pool_id

abbrev Joined : ℕ → PoolState → List Edge → Type 0
Joined n pool es = All (Between n pool.pool_id) es

pub All-append {ℓ κ} :
    {A : Type ℓ} (P : A → Type κ) (xs ys : List A) → All P xs → All P ys → All P (xs ++ ys)
All-append P [] ys a b = b
All-append P (x ∷ xs) ys a b = (a.0, All-append P xs ys a.1 b)

module _ (n : ℕ) (pool : PoolState) (indices : Map ℕ) (fee_ppm : ℕ) (below : Below n indices) where
  new_edge-Between :
      (first second a b : ℕ) (rate : Rate)
      → lookup first indices ≡ some a
      → lookup second indices ≡ some b
      → Between n pool.pool_id (new_edge pool a b fee_ppm rate)
  new_edge-Between first second a b rate h k = record {
    from_token = below first a h;
    to_token = below second b k;
    of_pool = refl;
  }

  two_edges-Joined :
      (compute : Bool → Rate) (addresses : List ℕ)
      → Joined n pool (two_edges pool indices fee_ppm compute addresses)
  unfolding two_edges
  two_edges-Joined compute [] = tt
  two_edges-Joined compute (a ∷ []) = tt
  two_edges-Joined compute (a ∷ b ∷ c ∷ rest) = tt
  two_edges-Joined compute (a ∷ b ∷ []) = elim (Option-cases (lookup a indices)) [
    | inl e ↦ rw (two_edges, e) tt
    | inr (i, e) ↦ elim (Option-cases (lookup b indices)) [
      | inl k ↦ rw (two_edges, e, k) tt
      | inr (j, k) ↦
          rw (two_edges, e, k)
            (new_edge-Between a b i j _ e k, (new_edge-Between b a j i _ k e, tt))
    ]
  ]

  edges_from-Joined :
      (compute : ℕ → ℕ → Rate) (i address j : ℕ) (others : List ℕ)
      → Joined n pool (edges_from pool indices fee_ppm compute i address j others)
  unfolding edges_from
  edges_from-Joined compute i address j [] = tt
  edges_from-Joined compute i address j (other ∷ others) =
      let ih = edges_from-Joined compute i address (suc j) others in
      elim (Bool-cases (i == j)) [
        | inl s ↦ rw s ih
        | inr s ↦ elim (Option-cases (lookup address indices)) [
          | inl e ↦ rw (s, e) ih
          | inr (a, e) ↦ elim (Option-cases (lookup other indices)) [
            | inl k ↦ rw (s, e, k) ih
            | inr (b, k) ↦ rw (s, e, k) (new_edge-Between address other a b _ e k, ih)
          ]
        ]
      ]

  edges_between-Joined :
      (compute : ℕ → ℕ → Rate) (i : ℕ) (addresses : List ℕ)
      → Joined n pool (edges_between pool indices fee_ppm compute i addresses)
  unfolding edges_between
  edges_between-Joined compute i [] = tt
  edges_between-Joined compute i (address ∷ addresses) =
      All-append (Between n pool.pool_id)
        (edges_from pool indices fee_ppm compute i address 0 pool.token_addresses) _
        (edges_from-Joined compute i address 0 pool.token_addresses)
        (edges_between-Joined compute (suc i) addresses)

pub build_edges_for_pool-Joined :
    (rates : SpotRates) (n : ℕ) (pool : PoolState) (indices : Map ℕ)
    → Below n indices
    → All (Between n pool.pool_id) (build_edges_for_pool rates pool indices)
unfolding build_edges_for_pool build_two_token_edges build_n_token_edges two_edges edges_between
    edges_from
build_edges_for_pool-Joined rates n pool indices b = by_state pool.state refl
  where
    two :
        (fee : ℕ) (compute : Bool → Rate)
        → All (Between n pool.pool_id) (two_edges pool indices fee compute pool.token_addresses)
    two fee compute = two_edges-Joined n pool indices fee b compute pool.token_addresses

    many :
        (fee : ℕ) (compute : ℕ → ℕ → Rate)
        → All
            (Between n pool.pool_id)
            (edges_between pool indices fee compute 0 pool.token_addresses)
    many fee compute = edges_between-Joined n pool indices fee b compute 0 pool.token_addresses

    by_state :
        (s : PoolSpecificState)
        → pool.state ≡ s
        → All (Between n pool.pool_id) (build_edges_for_pool rates pool indices)
    by_state (PoolSpecificState.uniswap_v2_like state) e =
        rw e (two state.fee_ppm (rates.uniswap_v2 state))
    by_state (PoolSpecificState.aerodrome_v2_like state) e =
        rw e (two state.fee_ppm (rates.aerodrome_v2 state))
    by_state (PoolSpecificState.uniswap_v3_like state) e =
        rw e (two state.fee (rates.uniswap_v3 state))
    by_state (PoolSpecificState.trader_joe_lb state) e = rw e (two 0 (rates.trader_joe_lb state))
    by_state (PoolSpecificState.curve_plain state) e = rw e (many state.fee (rates.curve state))
    by_state (PoolSpecificState.balancer_weighted state) e =
        rw e (many state.swap_fee_ppm (rates.balancer state))
