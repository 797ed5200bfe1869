-- ===== src/Breaker.antt =====
-- src/rpc/scheduler.rs: the circuit breaker of a provider, and the request behind it. The clock and
-- the provider's answer are arguments.
pub mod Trips
mod Examples
use dex_arbitrage.Prelude.{
  ℕ, ◌+◌, ◌-◌, ◌%◌, ◌^◌, Bool, true, false, Option, none, some, ltb, leb, if◌then◌else◌, List, [],
  ◌∷◌,
}

pub data CircuitState : Type 0 where
  closed : CircuitState
  open_at : (open_since : ℕ) → CircuitState
  half_open : CircuitState

pub record CircuitBreaker : Type 0 where
  pub state : CircuitState
  pub failure_count : ℕ
  pub consecutive_failures : ℕ
  pub last_failure_time : Option ℕ
  pub failure_threshold : ℕ
  pub open_duration : ℕ

unfoldable pub new : (failure_threshold open_duration : ℕ) → CircuitBreaker
new failure_threshold open_duration = record {
  state = closed;
  failure_count = 0;
  consecutive_failures = 0;
  last_failure_time = none;
  failure_threshold = failure_threshold;
  open_duration = open_duration;
}

abbrev close_half : CircuitState → CircuitState
close_half half_open = closed
close_half s = s

unfoldable pub record_success : CircuitBreaker → CircuitBreaker
record_success b = record b { consecutive_failures = 0; state = close_half b.state }

abbrev trip : CircuitState → ℕ → CircuitState
trip (open_at since) now = open_at since
trip s now = open_at now

-- The counters wrap; the addition behind `fetch_add` wraps too in a release build.
unfoldable pub record_failure : CircuitBreaker → (now : ℕ) → CircuitBreaker
record_failure b now =
    let consecutive = (b.consecutive_failures + 1) % 2 ^ 64 in
    record b {
      failure_count = (b.failure_count + 1) % 2 ^ 64;
      consecutive_failures = consecutive;
      last_failure_time = some now;
      state = if leb b.failure_threshold consecutive then trip b.state now else b.state;
    }

unfoldable pub should_allow_request : CircuitBreaker → (now : ℕ) → CircuitBreaker × Bool
should_allow_request b now = elim b.state [
  | closed ↦ (b, true)
  | open_at since ↦
      if ltb b.open_duration (now - since)
      then (record b { state = half_open }, true)
      else (b, false)
  | half_open ↦ (b, true)
]

unfoldable pub is_open : CircuitBreaker → Bool
is_open b = elim b.state [ open_at since ↦ true | _ ↦ false ]

-- The client's answer; an error is `rate_limited` if its text says so.
pub data Answer : Type 0 where
  success : Answer
  rate_limited : Answer
  other_error : Answer

-- `none`: the breaker let nothing through.
unfoldable pub request : CircuitBreaker → (now : ℕ) → Answer → CircuitBreaker × Option Answer
request b now answer =
    let (b', allowed) = should_allow_request b now in
    if allowed
    then (
      elim answer [
        | success ↦ record_success b'
        | rate_limited ↦ record_failure b' now
        | other_error ↦ b'
      ],
      some answer,
    )
    else (b', none)
