-- ===== src/Breaker/Trips.antt =====
-- src/rpc/scheduler.rs: when the circuit breaker opens, and what passes it.
use dex_arbitrage.Prelude.{
  ℕ, suc, ◌+◌, ◌-◌, ◌^◌, ◌≤◌, ◌<◌, ◌≡◌, refl, arith, true, false, Option, none, some, List, [], ◌∷◌,
  ◌⊎◌, inl, inr, length, All, ◌∙◌, ap, zero,
}
use dex_arbitrage.Breaker.{
  closed, open_at, CircuitBreaker, record_success, record_failure, should_allow_request, is_open,
  Answer, success, rate_limited, other_error, request,
}

-- A series of requests, each at its instant, with the answer that its client would give.
unfoldable pub requests : CircuitBreaker → List (ℕ × Answer) → CircuitBreaker × List (Option Answer)
requests b [] = (b, [])
requests b ((now, answer) ∷ rest) =
    let (b1, first) = request b now answer in
    let (b2, others) = requests b1 rest in (b2, first ∷ others)

unfoldable pub refusals : List (ℕ × Answer) → List (Option Answer)
refusals [] = []
refusals (q ∷ qs) = none ∷ refusals qs

unfoldable pub answers : List (ℕ × Answer) → List (Option Answer)
answers [] = []
answers ((now, answer) ∷ qs) = some answer ∷ answers qs

unfoldable pub limited : List (ℕ × Answer) → ℕ
limited [] = 0
limited ((now, rate_limited) ∷ qs) = suc (limited qs)
limited (q ∷ qs) = limited qs

request-refused :
    (b : CircuitBreaker) (since now : ℕ) (answer : Answer)
    → b.state ≡ open_at since
    → now - since ≤ b.open_duration
    → request b now answer ≡ (b, none)
unfolding request should_allow_request
request-refused b since now answer h k = ground arith

-- An open breaker lets nothing through before its time, and nothing that comes in moves it: each of
-- a series of requests at most `open_duration` after it opened is refused, and it stays as it is.
pub requests-refused :
    (b : CircuitBreaker) (since : ℕ) (qs : List (ℕ × Answer))
    → b.state ≡ open_at since
    → All (λ q. q.0 - since ≤ b.open_duration) qs
    → requests b qs ≡ (b, refusals qs)
unfolding requests refusals
requests-refused b since [] h a = refl
requests-refused b since ((now, answer) ∷ qs) h a =
    ap (λ x. ((requests x.0 qs).0, x.1 ∷ (requests x.0 qs).1))
      (request-refused b since now answer h a.0)
    ∙ ap (λ x. (x.0, none ∷ x.1)) (requests-refused b since qs h a.1)

request-closed :
    (b : CircuitBreaker) (now : ℕ) (answer : Answer)
    → b.state ≡ closed
    → b.consecutive_failures + limited ((now, answer) ∷ []) < b.failure_threshold
    → b.failure_threshold < 2 ^ 64
    → ((request b now answer).1 ≡ some answer)
      × ((request b now answer).0.state ≡ closed)
      × ((request b now answer).0.consecutive_failures
          ≤ b.consecutive_failures + limited ((now, answer) ∷ []))
      × ((request b now answer).0.failure_threshold ≡ b.failure_threshold)
unfolding request should_allow_request record_success record_failure limited
request-closed b now success h k w = ground arith
request-closed b now rate_limited h k w = ground arith
request-closed b now other_error h k w = ground arith

limited-head :
    (now : ℕ) (answer : Answer) (qs : List (ℕ × Answer)) (c t : ℕ)
    → c + limited ((now, answer) ∷ qs) < t
    → c + limited ((now, answer) ∷ []) < t
unfolding limited
limited-head now success qs c t k = omega arith
limited-head now rate_limited qs c t k = omega arith
limited-head now other_error qs c t k = omega arith

limited-rest :
    (now : ℕ) (answer : Answer) (qs : List (ℕ × Answer)) (c c' t t' : ℕ)
    → c' ≤ c + limited ((now, answer) ∷ [])
    → t' ≡ t
    → c + limited ((now, answer) ∷ qs) < t
    → c' + limited qs < t'
unfolding limited
limited-rest now success qs c c' t t' a e k = omega arith
limited-rest now rate_limited qs c c' t t' a e k = omega arith
limited-rest now other_error qs c c' t t' a e k = omega arith

-- Fewer failures than the threshold trip nothing: a closed breaker whose failures in a row, with all
-- the rate-limited answers of a series, stay below the threshold passes each request on and is
-- closed at the end, where the threshold is below 2 ^ 64.
pub requests-passed :
    (b : CircuitBreaker) (qs : List (ℕ × Answer))
    → b.state ≡ closed
    → b.consecutive_failures + limited qs < b.failure_threshold
    → b.failure_threshold < 2 ^ 64
    → ((requests b qs).1 ≡ answers qs) × ((requests b qs).0.state ≡ closed)
unfolding requests answers
requests-passed b [] h k w = (refl, h)
requests-passed b ((now, answer) ∷ qs) h k w =
    let first =
      request-closed b now answer h
        (limited-head now answer qs b.consecutive_failures b.failure_threshold k) w in
    let rest =
      requests-passed (request b now answer).0 qs first.1
        (limited-rest now answer qs _ _ _ _ first.2 first.3 k) (ground (arith, first.3)) in
    (
      ap (λ x. x ∷ (requests (request b now answer).0 qs).1) first.0
          ∙ ap (λ x. some answer ∷ x) rest.0,
      rest.1,
    )

-- A series of rate-limited answers.
unfoldable pub limited_at : List ℕ → List (ℕ × Answer)
limited_at [] = []
limited_at (now ∷ times) = (now, rate_limited) ∷ limited_at times

le_or_lt : (m n : ℕ) → (m ≤ n) ⊎ (n < m)
le_or_lt zero n = inl (omega arith)
le_or_lt (suc m) zero = inr (omega arith)
le_or_lt (suc m) (suc n) = elim (le_or_lt m n) [
  | inl h ↦ inl (omega arith)
  | inr h ↦ inr (omega arith)
]

-- Open, with the failures in a row at the threshold.
abbrev Tripped : CircuitBreaker → Type 0
Tripped b = (is_open b ≡ true) × (b.failure_threshold ≤ b.consecutive_failures)

-- Tripped already, or not open and with enough failures to come.
abbrev Near : ℕ → CircuitBreaker → Type 0
Near left b =
    Tripped b
    ⊎ ((0 < left) × (is_open b ≡ false) × (b.failure_threshold ≤ b.consecutive_failures + left))

request-Tripped :
    (b : CircuitBreaker) (now : ℕ)
    → b.consecutive_failures + 1 < 2 ^ 64
    → b.failure_threshold ≤ suc b.consecutive_failures
    → Tripped b ⊎ (is_open b ≡ false)
    → Tripped (request b now rate_limited).0
unfolding request should_allow_request record_failure is_open
request-Tripped b now w h (inl t) = (ground arith, ground arith)
request-Tripped b now w h (inr c) = (ground arith, ground arith)

request-Far :
    (b : CircuitBreaker) (now : ℕ)
    → b.consecutive_failures + 1 < 2 ^ 64
    → suc b.consecutive_failures < b.failure_threshold
    → is_open b ≡ false
    → (is_open (request b now rate_limited).0 ≡ false)
      × ((request b now rate_limited).0.consecutive_failures ≡ suc b.consecutive_failures)
unfolding request should_allow_request record_failure is_open
request-Far b now w h c = (ground arith, ground arith)

request-rising :
    (b : CircuitBreaker) (now : ℕ)
    → b.consecutive_failures + 1 < 2 ^ 64
    → ((request b now rate_limited).0.consecutive_failures ≤ suc b.consecutive_failures)
      × ((request b now rate_limited).0.failure_threshold ≡ b.failure_threshold)
unfolding request should_allow_request record_failure
request-rising b now w = (ground arith, ground arith)

request-Near :
    (b : CircuitBreaker) (now left : ℕ)
    → b.consecutive_failures + suc left < 2 ^ 64
    → Near (suc left) b
    → Near left (request b now rate_limited).0
request-Near b now left w (inl t) = inl (request-Tripped b now (omega arith) (omega arith) (inl t))
request-Near b now left w (inr n) =
    elim (le_or_lt b.failure_threshold (suc b.consecutive_failures)) [
      | inl h ↦ inl (request-Tripped b now (omega arith) h (inr n.1))
      | inr h ↦
          let far = request-Far b now (omega arith) h n.1 in
          let same = request-rising b now (omega arith) in
          inr (left_over left h n.2, far.0, counted left n.2 far.1 same.1)
    ]
  where
    left_over : {c t : ℕ} (left : ℕ) → suc c < t → t ≤ c + suc left → 0 < left
    left_over left h k = omega arith

    counted : {c c' t t' : ℕ} (left : ℕ) → t ≤ c + suc left → c' ≡ suc c → t' ≡ t → t' ≤ c' + left
    counted left k e f = omega arith

requests-Near :
    (b : CircuitBreaker) (times : List ℕ)
    → Near (length times) b
    → b.consecutive_failures + length times < 2 ^ 64
    → is_open (requests b (limited_at times)).0 ≡ true
unfolding requests limited_at
requests-Near b [] (inl t) w = t.0
requests-Near b [] (inr n) w = absurd (omega arith)
requests-Near b (now ∷ times) n w =
    requests-Near (request b now rate_limited).0 times (request-Near b now (length times) w n)
      (ground (arith, (request-rising b now (omega arith)).0))

-- Enough failures open the breaker: where it is not open, and a series of rate-limited answers is
-- long enough to bring the failures in a row to the threshold without wrapping their count, the
-- breaker is open at the end, at whatever instants the requests come and whichever it refuses.
pub requests-open :
    (b : CircuitBreaker) (now : ℕ) (times : List ℕ)
    → is_open b ≡ false
    → b.failure_threshold ≤ b.consecutive_failures + length (now ∷ times)
    → b.consecutive_failures + length (now ∷ times) < 2 ^ 64
    → is_open (requests b (limited_at (now ∷ times))).0 ≡ true
requests-open b now times o h w = requests-Near b (now ∷ times) (inr (omega arith, o, h)) w
