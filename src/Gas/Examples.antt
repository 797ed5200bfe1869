-- ===== src/Gas/Examples.antt =====
-- A node that answers the second attempt, and a tracker with an old quote.
use dex_arbitrage.Prelude.{
  ℕ, ◌+◌, ◌/◌, ◌≡◌, refl, leb, ◌==◌, if◌then◌else◌, Option, none, some, List, [], ◌∷◌, true,
}
use dex_arbitrage.Gas.{
  CachedGasQuote, GasTracker, Environment, Clock, Node, quote, fees_of, fetch_gas_quote_with_retry,
  fetch_gas_quote, retry, estimate_l1_data_fee,
}
use dex_arbitrage.Gas.Sources.{Answered, quote-Answered}

abbrev old : CachedGasQuote
old = record { fetched_at = 0; base = 7; priority = 1 }

abbrev tracker : GasTracker
tracker = record {
  is_base = true;
  ceiling_wei = 100;
  buffered = λ fee. fee + fee / 10;
  cache = some old;
}

abbrev second : ℕ → Option ℕ
second attempt = if leb 2 attempt then some 40 else none

-- Of no bytes nothing is decoded, nor of more than one.
abbrev first_byte : List ℕ → Option ℕ
first_byte (x ∷ []) = some x
first_byte xs = none

abbrev node : Node
node = record {
  gas_price = second;
  max_priority_fee_per_gas = λ attempt. none;
  l1_fee_call = λ attempt. if leb 2 attempt then some (attempt ∷ []) else none;
  abi_decode_returns = first_byte;
}

abbrev env : Environment
env = record { ttl = 10; stale_ttl = 100; attempts = 3 }

abbrev clock : Clock
clock = record { start = 50; refused_at = 60; refreshed_at = 55 }

quote-Answered_example : Answered tracker node env clock 2 (quote tracker node env clock 2)
quote-Answered_example = quote-Answered tracker node env clock 2

-- A twentieth of the gas price stands in for the priority fee.
refreshed_fees :
    (quote tracker node env clock 2).1.cache
    ≡ some (record { fetched_at = 55; base = 40; priority = 2 })
unfolding quote fees_of fetch_gas_quote_with_retry fetch_gas_quote retry estimate_l1_data_fee
refreshed_fees = refl

-- An answer that cannot be decoded ends the quote, though a later attempt would be answered.
undecoded :
    (quote tracker
      (record node {
        l1_fee_call = λ attempt. if attempt == 1 then some [] else some (attempt ∷ []);
      })
      env
      clock
      2).0
    ≡ none
unfolding quote fees_of fetch_gas_quote_with_retry fetch_gas_quote retry estimate_l1_data_fee
undecoded = refl
