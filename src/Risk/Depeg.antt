-- ===== src/Risk/Depeg.antt =====
-- src/risk/depeg_guard.rs: routes over stable tokens stop when one of them has lost its peg.
use dex_arbitrage.Prelude.{
  ℕ, ◌*◌, ◌≤◌, ◌≡◌, ◌↔◌, refl, arith, Bool, true, false, Option, none, some, List, [], ◌∷◌, ◌==◌,
  ◌||◌, ◌&&◌, leb, keep, All, if◌then◌else◌, inl, inr, Bool-cases,
}
use dex_arbitrage.Prelude.Map.{Map, lookup, insert}
use dex_arbitrage.Types.{TokenInfo}

pub record DepegGuard : Type 0 where
  pub stable_depeg_cutoff_e6 : ℕ
  pub manual_prices : Map ℕ
  pub stable_tokens : List ℕ

-- The map that `collect` makes: a later price of an address replaces an earlier one.
unfoldable pub collect_prices : List TokenInfo → Map ℕ → Map ℕ
collect_prices [] prices = prices
collect_prices (token ∷ tokens) prices = elim token.manual_price_usd_e8 [
  | none ↦ collect_prices tokens prices
  | some price ↦ collect_prices tokens (insert token.address price prices)
]

unfoldable pub stable_addresses : List TokenInfo → List ℕ
stable_addresses [] = []
stable_addresses (token ∷ tokens) =
    let rest = stable_addresses tokens in if token.is_stable then token.address ∷ rest else rest

unfoldable pub new : (stable_depeg_cutoff_e6 : ℕ) → List TokenInfo → DepegGuard
new stable_depeg_cutoff_e6 tokens = record {
  stable_depeg_cutoff_e6 = stable_depeg_cutoff_e6;
  manual_prices = collect_prices tokens [];
  stable_tokens = stable_addresses tokens;
}

unfoldable pub contains : List ℕ → ℕ → Bool
contains [] token = false
contains (first ∷ rest) token = first == token || contains rest token

-- A u32 times 100 fits in a u64.
unfoldable pub token_is_healthy : DepegGuard → ℕ → Bool
token_is_healthy g token =
    if contains g.stable_tokens token
    then elim (lookup token g.manual_prices) [
      | some price_e8 ↦ leb (g.stable_depeg_cutoff_e6 * 100) price_e8
      | none ↦ true
    ]
    else true

-- `iter().all(...)`
unfoldable pub all_healthy : DepegGuard → List ℕ → Bool
all_healthy g [] = true
all_healthy g (token ∷ tokens) = token_is_healthy g token && all_healthy g tokens

unfoldable pub stable_routes_allowed : DepegGuard → Bool
stable_routes_allowed g = all_healthy g g.stable_tokens

-- The price given for an address is at least the cutoff, or none is given.
abbrev pub Pegged : (cutoff_e6 : ℕ) → Map ℕ → ℕ → Type 0
Pegged cutoff_e6 prices token = elim (lookup token prices) as (λ p. Type 0) [
  | none ↦ Unit
  | some price_e8 ↦ cutoff_e6 * 100 ≤ price_e8
]

healthy-Pegged :
    (g : DepegGuard) (token : ℕ)
    → contains g.stable_tokens token ≡ true
    → token_is_healthy g token ≡ true
    → Pegged g.stable_depeg_cutoff_e6 g.manual_prices token
unfolding token_is_healthy
healthy-Pegged g token c h = by_price (lookup token g.manual_prices) refl
  where
    by_price :
        (p : Option ℕ)
        → lookup token g.manual_prices ≡ p
        → Pegged g.stable_depeg_cutoff_e6 g.manual_prices token
    by_price none e = rw (Pegged, e) tt
    by_price (some price) e = rw (Pegged, e) (ground arith)

Pegged-healthy :
    (g : DepegGuard) (token : ℕ)
    → Pegged g.stable_depeg_cutoff_e6 g.manual_prices token
    → token_is_healthy g token ≡ true
unfolding token_is_healthy
Pegged-healthy g token h = by_price (lookup token g.manual_prices) refl
  where
    by_price : (p : Option ℕ) → lookup token g.manual_prices ≡ p → token_is_healthy g token ≡ true
    by_price none e = ground arith
    by_price (some price) e =
        let bound : g.stable_depeg_cutoff_e6 * 100 ≤ price = rw (Pegged, e) at h in ground arith

contains-All :
    (ys xs : List ℕ)
    → ((a : ℕ) → contains xs a ≡ true → contains ys a ≡ true)
    → All (λ a. contains ys a ≡ true) xs
unfolding contains
contains-All ys [] f = tt
contains-All ys (x ∷ xs) f = (f x (ground arith), contains-All ys xs (λ a h. f a (ground arith)))

all_healthy-Pegged :
    (g : DepegGuard) (xs : List ℕ)
    → All (λ a. contains g.stable_tokens a ≡ true) xs
    → all_healthy g xs ≡ true
    → All (Pegged g.stable_depeg_cutoff_e6 g.manual_prices) xs
unfolding all_healthy
all_healthy-Pegged g [] c h = tt
all_healthy-Pegged g (x ∷ xs) c h =
    (healthy-Pegged g x c.0 (ground arith), all_healthy-Pegged g xs c.1 (ground arith))

Pegged-all_healthy :
    (g : DepegGuard) (xs : List ℕ)
    → All (Pegged g.stable_depeg_cutoff_e6 g.manual_prices) xs
    → all_healthy g xs ≡ true
unfolding all_healthy
Pegged-all_healthy g [] a = refl
Pegged-all_healthy g (x ∷ xs) a =
    let first = Pegged-healthy g x a.0 in let rest = Pegged-all_healthy g xs a.1 in ground arith

-- The stable addresses are those of the stable tokens, in their order.
addresses-All :
    (P : ℕ → Type 0) (tokens : List TokenInfo)
    → All P (stable_addresses tokens)
    → All (λ t. P t.address) (keep (λ t. t.is_stable) tokens)
unfolding stable_addresses keep
addresses-All P [] a = tt
addresses-All P (t ∷ tokens) a = elim (Bool-cases t.is_stable) [
  | inl e ↦ let b = rw (stable_addresses, e) at a in rw (keep, e) (b.0, addresses-All P tokens b.1)
  | inr e ↦ rw (keep, e) (addresses-All P tokens (rw (stable_addresses, e) at a))
]

All-addresses :
    (P : ℕ → Type 0) (tokens : List TokenInfo)
    → All (λ t. P t.address) (keep (λ t. t.is_stable) tokens)
    → All P (stable_addresses tokens)
unfolding stable_addresses keep
All-addresses P [] a = tt
All-addresses P (t ∷ tokens) a = elim (Bool-cases t.is_stable) [
  | inl e ↦ let b = rw (keep, e) at a in rw (stable_addresses, e) (b.0, All-addresses P tokens b.1)
  | inr e ↦ rw (stable_addresses, e) (All-addresses P tokens (rw (keep, e) at a))
]

-- The guard allows stable routes exactly when each stable token of the settings has no price, or one
-- of at least the cutoff, in the map that collects the settings' prices.
pub stable_routes_allowed-Pegged :
    (cutoff_e6 : ℕ) (tokens : List TokenInfo)
    → (stable_routes_allowed (new cutoff_e6 tokens) ≡ true)
      ↔ All
          (λ t. Pegged cutoff_e6 (collect_prices tokens []) t.address)
          (keep (λ t. t.is_stable) tokens)
unfolding stable_routes_allowed new
stable_routes_allowed-Pegged cutoff_e6 tokens =
    let g = new cutoff_e6 tokens in
    let prices = collect_prices tokens [] in
    (
      λ h. addresses-All (Pegged cutoff_e6 prices) tokens (
          all_healthy-Pegged g (stable_addresses tokens)
            (contains-All (stable_addresses tokens) (stable_addresses tokens) (λ a c. c)) h),
      λ a.
          Pegged-all_healthy g (stable_addresses tokens)
            (All-addresses (Pegged cutoff_e6 prices) tokens a),
    )
