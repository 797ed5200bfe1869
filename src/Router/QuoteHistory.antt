-- ===== src/Router/QuoteHistory.antt =====
-- src/router/exact_quoter.rs: the cache of quotes over a series of calls.
use dex_arbitrage.Prelude.{
  ℕ, ◌≤◌, ◌≡◌, sym, subst, arith, ◌∙◌, Option, none, some, List, [], ◌∷◌, if◌then◌else◌, Bool-cases,
  inl, inr,
}
use dex_arbitrage.Prelude.Map.{lookup}
use dex_arbitrage.Router.QuoteCache.{QuoteKey, same_key, QuoteCache, get, insert_quote}
use dex_arbitrage.Router.CacheCalls.{
  knows, get-knows, Bounded, get-still_knows, get-Bounded, insert_quote-knows, insert_quote-Bounded,
  get-limit, insert_quote-limit,
}

-- A call of the cache.
pub data Call : Type 0 where
  ask : QuoteKey → Call
  put : QuoteKey → (value : ℕ) → Call

abbrev pub called : QuoteCache → Call → QuoteCache
called c (ask key) = (get key c).1
called c (put key value) = insert_quote key value c

abbrev pub run : QuoteCache → List Call → QuoteCache
run c [] = c
run c (call ∷ calls) = run (called c call) calls

-- What a map that forgets nothing would answer.
abbrev pub remembered : Option ℕ → QuoteKey → List Call → Option ℕ
remembered known k [] = known
remembered known k (ask key ∷ calls) = remembered known k calls
remembered known k (put key value ∷ calls) =
    remembered (if same_key key k then some value else known) k calls

pub record Remembers (c : QuoteCache) (known : QuoteKey → Option ℕ) : Type 0 where
  pub bounded : Bounded c
  pub answers : (k : QuoteKey) (v : ℕ) → (get k c).0 ≡ some v → known k ≡ some v

run-Remembers :
    (calls : List Call) (c : QuoteCache) (known : QuoteKey → Option ℕ)
    → 1 ≤ c.max_segments
    → Bounded c
    → ((k : QuoteKey) (v : ℕ) → knows k c ≡ some v → known k ≡ some v)
    → Remembers (run c calls) (λ k. remembered (known k) k calls)
run-Remembers [] c known h b f = record {
  bounded = b;
  answers = λ k v e. f k v (sym (get-knows k c) ∙ e);
}
run-Remembers (ask key ∷ calls) c known h b f =
    run-Remembers calls (get key c).1 known (subst (λ n. 1 ≤ n) (sym (get-limit key c)) h)
      (get-Bounded key c b) (λ k v e. f k v (sym (get-still_knows key k c) ∙ e))
run-Remembers (put key value ∷ calls) c known h b f =
    run-Remembers calls (insert_quote key value c)
      (λ k. if same_key key k then some value else known k)
      (subst (λ n. 1 ≤ n) (sym (insert_quote-limit key value c)) h)
      (insert_quote-Bounded key value c h b) after
  where
    after :
        (k : QuoteKey) (v : ℕ)
        → knows k (insert_quote key value c) ≡ some v
        → (if same_key key k then some value else known k) ≡ some v
    after k v e =
        let one = insert_quote-knows key k value v c e in
        elim (Bool-cases (same_key key k)) [
          | inl s ↦ let same : some value ≡ some v = ground (arith, one) in rw s same
          | inr s ↦ let was : knows k c ≡ some v = ground (arith, one) in rw s (f k v was)
        ]

-- Over any series of calls of an empty cache with room for a segment, what the cache answers for a key
-- is the value that was put in last under it, the number of segments stays within its bound, and so
-- does the number of entries of each segment, whose keys are all in its queue.
pub run_lem :
    (calls : List Call) (max_segments max_entries : ℕ)
    → 1 ≤ max_segments
    → Remembers
        (run
          (record {
            max_segments = max_segments;
            max_entries_per_segment = max_entries;
            segments = [];
          })
          calls)
        (λ k. remembered none k calls)
unfolding lookup
run_lem calls max_segments max_entries h =
    run-Remembers calls _ (λ k. none) h (record { few = omega arith; small = tt })
      (λ k v e. absurd (ground arith))
