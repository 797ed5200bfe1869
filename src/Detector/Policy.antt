-- ===== src/Detector/Policy.antt =====
-- src/detector/path_finder.rs: which tokens a route may go through, and its quality.
use Prim.Native.Char.{code}
use Prim.Native.String.{String}
use dex_arbitrage.Prelude.{
  ℕ, ◌+◌, ◌-◌, ◌%◌, ◌^◌, ◌==◌, leb, Bool, true, false, ◌||◌, ◌&&◌, not, Option, none, some, List,
  [], ◌∷◌, map, if◌then◌else◌, get_elem?, length, keep, min, max, saturating_mul,
}
use dex_arbitrage.Types.{TokenInfo, is_exotic, EdgeRef}
use dex_arbitrage.Graph.{GraphSnapshot, edge}
use dex_arbitrage.Detector.Search.{contains}

-- A text in lower case (`to_ascii_lowercase`), as its code points.
abbrev pub lowercase : String → List ℕ
lowercase String.[] = []
lowercase (String.◌∷◌ c s) =
    (if leb b'A' (code c) && leb (code c) b'Z' then code c + 32 else code c) ∷ lowercase s

unfoldable same_codes : List ℕ → List ℕ → Bool
same_codes [] [] = true
same_codes [] (d ∷ t) = false
same_codes (c ∷ s) [] = false
same_codes (c ∷ s) (d ∷ t) = c == d && same_codes s t

unfoldable starts_with : (s prefix : List ℕ) → Bool
starts_with s [] = true
starts_with [] (d ∷ t) = false
starts_with (c ∷ s) (d ∷ t) = c == d && starts_with s t

-- `symbol.contains(excluded)`
unfoldable contains_codes : (s part : List ℕ) → Bool
contains_codes [] part = starts_with [] part
contains_codes (c ∷ s) part = starts_with (c ∷ s) part || contains_codes s part

unfoldable has_codes : List (List ℕ) → List ℕ → Bool
has_codes [] text = false
has_codes (first ∷ rest) text = same_codes first text || has_codes rest text

unfoldable contains_any : (s : List ℕ) → List (List ℕ) → Bool
contains_any s [] = false
contains_any s (part ∷ parts) = contains_codes s part || contains_any s parts

-- What the search reads from the process environment, parsed.
pub record Environment : Type 0 where
  pub require_trusted_route_tokens : Bool
  pub trusted_symbols : List String
  pub trusted_tokens : List ℕ
  pub excluded_symbol_contains : List String
  pub excluded_tokens : List ℕ
  pub allow_flash_loan_tokens : Bool
  pub fill_rotated_candidates : Bool
  pub prefilter_max_changed_edges : ℕ
  pub large_refresh_threshold : ℕ
  pub large_refresh_multiplier : ℕ

-- Symbols as code points.
pub record ExecutionTokenPolicy : Type 0 where
  pub required : Bool
  pub symbols : List (List ℕ)
  pub addresses : List ℕ
  pub excluded_symbols : List (List ℕ)
  pub excluded_addresses : List ℕ

abbrev is_some {ℓ} : {A : Type ℓ} → Option A → Bool
is_some none = false
is_some (some x) = true

abbrev is_empty {ℓ} : {A : Type ℓ} → List A → Bool
is_empty [] = true
is_empty (x ∷ xs) = false

unfoldable pub execution_token_policy : Environment → GraphSnapshot → ExecutionTokenPolicy
execution_token_policy env g =
    let symbols = map lowercase env.trusted_symbols in
    record {
      required = env.require_trusted_route_tokens;
      symbols = symbols;
      addresses =
          if env.require_trusted_route_tokens && (is_empty symbols && is_empty env.trusted_tokens)
          then map (λ (t : TokenInfo). t.address)
              (keep (λ t. is_some t.manual_price_usd_e8) g.tokens)
          else env.trusted_tokens;
      excluded_symbols = keep (λ s. not (is_empty s)) (map lowercase env.excluded_symbol_contains);
      excluded_addresses = env.excluded_tokens;
    }

unfoldable pub token_excluded_by_execution_policy : TokenInfo → ExecutionTokenPolicy → Bool
unfolding contains_any contains_codes starts_with
token_excluded_by_execution_policy token policy =
    if contains policy.excluded_addresses token.address
    then true
    else contains_any (lowercase token.symbol) policy.excluded_symbols

unfoldable pub token_allowed_by_execution_policy :
    Environment → TokenInfo → ExecutionTokenPolicy → Bool
unfolding has_codes same_codes
token_allowed_by_execution_policy env token policy =
    contains policy.addresses token.address
    || (has_codes policy.symbols (lowercase token.symbol)
        || ((env.allow_flash_loan_tokens && token.flash_loan_enabled)
            || (is_empty policy.symbols
                && (is_empty policy.addresses && is_some token.manual_price_usd_e8))))

-- One of the two loops: each edge leads to a token that passes the test.
unfoldable pub each_token : GraphSnapshot → (TokenInfo → Bool) → List EdgeRef → Bool
each_token g test [] = true
each_token g test (r ∷ refs) = elim (edge g r) [
  | none ↦ false
  | some e ↦ elim (get_elem? g.tokens e.to) [
    | none ↦ false
    | some token ↦ test token && each_token g test refs
  ]
]

unfoldable pub route_tokens_allowed :
    Environment → GraphSnapshot → (anchor_idx : ℕ) → List EdgeRef → ExecutionTokenPolicy → Bool
route_tokens_allowed env g anchor_idx refs policy = elim (get_elem? g.tokens anchor_idx) [
  | none ↦ false
  | some anchor ↦
      if token_excluded_by_execution_policy anchor policy
      then false
      else if not (each_token g (λ t. not (token_excluded_by_execution_policy t policy)) refs)
      then false
      else if not policy.required
      then true
      else if not (token_allowed_by_execution_policy env anchor policy)
      then false
      else each_token g (λ t. token_allowed_by_execution_policy env t policy) refs
]

unfoldable pub token_quality_bps : TokenInfo → ℕ
token_quality_bps token =
    if is_exotic token.behavior
    then 1_000
    else if is_some token.manual_price_usd_e8
    then 10_000
    else if token.is_stable || token.allow_self_funded
    then 8_000
    else if token.flash_loan_enabled
    then 6_000
    else 1_500

-- The least quality of the tokens on the way.
unfoldable pub least_quality : GraphSnapshot → ℕ → List EdgeRef → ℕ
least_quality g quality [] = quality
least_quality g quality (r ∷ refs) = elim (edge g r) [
  | none ↦ least_quality g quality refs
  | some e ↦ elim (get_elem? g.tokens e.to) [
    | none ↦ least_quality g quality refs
    | some token ↦ least_quality g (min quality (token_quality_bps token)) refs
  ]
]

-- `anchor` is the token at `anchor_idx`.
unfoldable pub route_quality_bps : GraphSnapshot → (anchor : TokenInfo) → List EdgeRef → ℕ
route_quality_bps g anchor refs =
    let extra_hops = (length refs - 2) % 2 ^ 16 in
    max
      (least_quality g (token_quality_bps anchor) refs - saturating_mul (2 ^ 16 - 1) extra_hops 750)
      500
