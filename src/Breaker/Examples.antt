-- ===== src/Breaker/Examples.antt =====
-- The circuit breaker on small runs: three failures open it for 100.
use dex_arbitrage.Prelude.{◌≡◌, refl, arith, true, [], ◌∷◌}
use dex_arbitrage.Breaker.{
  closed, CircuitBreaker, new, record_success, record_failure, should_allow_request, is_open,
  success, rate_limited, request,
}
use dex_arbitrage.Breaker.Trips.{
  requests, refusals, answers, limited, limited_at, requests-refused, requests-passed,
  requests-open,
}

abbrev tripped : CircuitBreaker
tripped = (requests (new 3 100) (limited_at (1 ∷ 2 ∷ 3 ∷ []))).0

requests-refused_example :
    requests tripped ((50, success) ∷ (103, rate_limited) ∷ [])
    ≡ (tripped, refusals ((50, success) ∷ (103, rate_limited) ∷ []))
unfolding new requests request limited_at record_failure should_allow_request
requests-refused_example =
    requests-refused tripped 3 ((50, success) ∷ (103, rate_limited) ∷ []) refl
      (omega arith, (omega arith, tt))

requests-passed_example :
    ((requests (new 3 100) ((5, rate_limited) ∷ (6, success) ∷ (7, rate_limited) ∷ [])).1
      ≡ answers ((5, rate_limited) ∷ (6, success) ∷ (7, rate_limited) ∷ []))
    × ((requests (new 3 100) ((5, rate_limited) ∷ (6, success) ∷ (7, rate_limited) ∷ [])).0.state
        ≡ closed)
unfolding new limited
requests-passed_example =
    requests-passed (new 3 100) ((5, rate_limited) ∷ (6, success) ∷ (7, rate_limited) ∷ []) refl
      (omega arith) (omega arith)

requests-open_example : is_open (requests (new 3 100) (limited_at (1 ∷ 2 ∷ 3 ∷ []))).0 ≡ true
unfolding new
requests-open_example =
    requests-open (new 3 100) 1 (2 ∷ 3 ∷ []) (unfold is_open in refl) (omega arith) (omega arith)

-- After its time one success closes it, and one failure opens it again.
closed_again : (request tripped 104 success).0.state ≡ closed
unfolding new requests request limited_at record_failure record_success should_allow_request
closed_again = refl
