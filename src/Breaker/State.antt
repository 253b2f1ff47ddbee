-- ===== src/Breaker/State.antt =====
-- The state of a circuit breaker (src/circuit-breaker.ts) and its snapshot.
use kinetex.Base.{
  ℕ, ◌+◌, Bool, true, false, List, [], ◌∷◌, Option, none, some, String, ltb, leb, if◌then◌else◌,
}
use kinetex.Breaker.Settings.{Config}

pub data CircuitState : Type 0 where
  closed opened half_open : CircuitState

pub record Snapshot : Type 0 where
  pub state : CircuitState
  pub failure_count : ℕ
  pub success_count : ℕ
  pub last_failure_at : Option ℕ
  pub last_success_at : Option ℕ
  pub opened_at : Option ℕ
  pub half_open_at : Option ℕ
  pub total_requests : ℕ
  pub total_failures : ℕ
  pub total_successes : ℕ
  pub total_rejected : ℕ
  pub in_flight_probes : ℕ

pub data Fired : Type 0 where
  on_open on_close on_half_open on_rejected : Snapshot → Fired

pub record Breaker : Type 0 where
  pub key : String
  pub config : Config
  pub state : CircuitState
  pub window : List Bool
  pub consecutive_fails : ℕ
  pub consecutive_succ : ℕ
  pub opened_at : Option ℕ
  pub half_open_at : Option ℕ
  pub last_failure_at : Option ℕ
  pub last_success_at : Option ℕ
  pub in_flight_probes : ℕ
  pub total_requests : ℕ
  pub total_failures : ℕ
  pub total_successes : ℕ
  pub total_rejected : ℕ
  pub fired : List Fired

unfoldable pub init : String → Config → Breaker
init key config = record {
  key = key;
  config = config;
  state = closed;
  window = [];
  consecutive_fails = 0;
  consecutive_succ = 0;
  opened_at = none;
  half_open_at = none;
  last_failure_at = none;
  last_success_at = none;
  in_flight_probes = 0;
  total_requests = 0;
  total_failures = 0;
  total_successes = 0;
  total_rejected = 0;
  fired = [];
}

-- How many results of the window are failures.
abbrev pub count_failures : List Bool → ℕ
count_failures [] = 0
count_failures (true ∷ w) = count_failures w
count_failures (false ∷ w) = count_failures w + 1

-- The test `Date.now() - openedAt >= resetTimeoutMs`, without a difference that could be negative.
abbrev pub has_elapsed : Option ℕ → ℕ → ℕ → Bool
has_elapsed none timeout now = false
has_elapsed (some t) timeout now = leb (t + timeout) now

abbrev pub implied : CircuitState → Bool → CircuitState
implied opened elapsed = if elapsed then half_open else opened
implied closed elapsed = closed
implied half_open elapsed = half_open

-- The `state` getter.
unfoldable pub effective_state : ℕ → Breaker → CircuitState
effective_state now b = implied b.state (has_elapsed b.opened_at b.config.reset_timeout_ms now)

unfoldable pub snapshot : ℕ → Breaker → Snapshot
unfolding effective_state
snapshot now b = record {
  state = effective_state now b;
  failure_count =
      if ltb 0 b.config.window_size then count_failures b.window else b.consecutive_fails;
  success_count = b.consecutive_succ;
  last_failure_at = b.last_failure_at;
  last_success_at = b.last_success_at;
  opened_at = b.opened_at;
  half_open_at = b.half_open_at;
  total_requests = b.total_requests;
  total_failures = b.total_failures;
  total_successes = b.total_successes;
  total_rejected = b.total_rejected;
  in_flight_probes = b.in_flight_probes;
}
